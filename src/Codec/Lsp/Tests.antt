-- ===== src/Codec/Lsp/Tests.antt =====
-- The quantizer on ten evenly spaced pairs, with the codebooks of the narrowband mode.
use securecom_voice.Base.{
  ◌≡◌, refl, sym, ap, ◌∙◌, true, Bool, some, List, [], ◌∷◌, arith, length, inl, inr, Bool-cases,
  leb, ◌&&◌,
}
use mathlib.Core.Bool.{true≢false}
use securecom_voice.Base.Int.{ℤ, pos, negsuc, ◌+ℤ◌, ◌*ℤ◌, ◌-ℤ◌}
use securecom_voice.Memory.Blocks.{blocks}
use securecom_voice.Bits.{SpeexBits}
use securecom_voice.Bits.Blank.{blank_stream, blank_stream-IsOpen}
use securecom_voice.Codec.Lsp.{
  lsp_quant, linear, zip_with, sub16, nearest, distance_to, shift_left, lsp_quant_nb,
  lsp_unquant_nb,
}
use securecom_voice.Codec.Rms.{word16, mult16_16}
use securecom_voice.Codec.Lsp.Coefficient.{IsChar}
use securecom_voice.Codec.Lsp.Halves.{AreChars, IsOrdered}
use securecom_voice.Codec.Lsp.Laws.{IsCodebooks, AreNear}
use securecom_voice.Codec.Lsp.Agreement.{lsp_unquant_nb-lsp_quant_nb}
use securecom_voice.Codec.Lsp.Books.{
  cdbk_nb, cdbk_nb_low1, cdbk_nb_low2, cdbk_nb_high1, cdbk_nb_high2, nb_codebooks,
}

is_char : ℤ → Bool
is_char (pos n) = leb n 127
is_char (negsuc n) = leb n 127

all_chars : List ℤ → Bool
all_chars [] = true
all_chars (c ∷ cs) = is_char c && all_chars cs

is_char-IsChar : (z : ℤ) → is_char z ≡ true → IsChar z
unfolding is_char
is_char-IsChar (pos n) h = ground arith
is_char-IsChar (negsuc n) h = ground arith

all_chars-AreChars : (zs : List ℤ) → all_chars zs ≡ true → AreChars zs
unfolding all_chars
all_chars-AreChars [] h = tt
all_chars-AreChars (c ∷ cs) h = elim (Bool-cases (is_char c)) [
  | inl e ↦ (is_char-IsChar c e, all_chars-AreChars cs (sym (ap (λ t. t && all_chars cs) e) ∙ h))
  | inr e ↦ absurd (true≢false (sym h ∙ ap (λ t. t && all_chars cs) e))
]

nb_codebooks-IsCodebooks : IsCodebooks nb_codebooks
unfolding all_chars is_char
nb_codebooks-IsCodebooks = record {
  nb_size = refl;
  low1_size = refl;
  low2_size = refl;
  high1_size = refl;
  high2_size = refl;
  nb_chars = all_chars-AreChars cdbk_nb refl;
  low1_chars = all_chars-AreChars cdbk_nb_low1 refl;
  low2_chars = all_chars-AreChars cdbk_nb_low2 refl;
  high1_chars = all_chars-AreChars cdbk_nb_high1 refl;
  high2_chars = all_chars-AreChars cdbk_nb_high2 refl;
}

abbrev spaced : List ℤ
spaced = linear 0 10

-- What the first stage leaves of them.
abbrev left_of_spaced : List ℤ
left_of_spaced =
    negsuc 223
    ∷ pos 928
    ∷ pos 832
    ∷ negsuc 543
    ∷ negsuc 479
    ∷ pos 32
    ∷ negsuc 447
    ∷ pos 0
    ∷ pos 64
    ∷ pos 0
    ∷ []

lsp_quant_spaced :
    lsp_quant (zip_with sub16 spaced (linear 0 (length spaced))) cdbk_nb 64
    ≡ some (61, left_of_spaced)
unfolding lsp_quant zip_with sub16 linear nearest distance_to shift_left word16 mult16_16 ◌+ℤ◌ ◌*ℤ◌
    ◌-ℤ◌
lsp_quant_spaced = refl

spaced-IsOrdered : IsOrdered (pos 0) spaced
unfolding linear
spaced-IsOrdered = omega arith

length-spaced : length spaced ≡ 10
unfolding linear
length-spaced = refl

left_of_spaced-AreNear : AreNear left_of_spaced
left_of_spaced-AreNear = omega arith

lsp_unquant_nb-lsp_quant_nb_example :
    (qlsp : List ℤ) × (b₁ : SpeexBits) × (b₂ : SpeexBits) × ((lsp_quant_nb nb_codebooks blocks
          spaced
          (blank_stream 4)
        ≡ some (qlsp, b₁))
      × (lsp_unquant_nb nb_codebooks 10 (record b₁ { char_ptr = 0; bit_ptr = 0 })
          ≡ some (qlsp, b₂)))
lsp_unquant_nb-lsp_quant_nb_example =
    lsp_unquant_nb-lsp_quant_nb nb_codebooks blocks (blank_stream 4) spaced nb_codebooks-IsCodebooks
      (blank_stream-IsOpen 4 (omega arith)) refl (omega arith) length-spaced spaced-IsOrdered 61
      left_of_spaced lsp_quant_spaced left_of_spaced-AreNear
