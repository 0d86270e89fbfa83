-- ===== src/Codec/Frame.antt =====
-- The fields that one narrowband frame writes (jni/nb_celp.c, with the quantizers of
-- jni/quant_lsp.c, jni/ltp.c and jni/cb_search.c): the widths of the calls of `speex_bits_pack`, in
-- their order, where `encode_submode` is set. The values written are the work of the signal processing, which is not modelled.
use securecom_voice.Base.{
  ℕ, zero, suc, ◌+◌, ◌/◌, ◌≡◌, refl, sym, ap, ◌∙◌, Bool, true, false, Option, none, some, List, [],
  ◌∷◌, ◌++◌, get_elem?, get_elem?-lt, ◌==◌, ==_iff, if◌then◌else◌,
}
use mathlib.Core.Bool.{false≢true}
use securecom_voice.Base.Int.{negsuc}
use securecom_voice.Base.Byte.{passes_under, passes_under_lem}
use securecom_voice.Codec.Modes.{nb_mode}
use securecom_voice.Codec.Tables.{
  lsp_lbr, lsp_nb, forced_pitch, pitch_3tap, noise_codebook, split_cb, Submode,
}

unfoldable pub repeated : ℕ → List ℕ → List ℕ
repeated zero xs = []
repeated (suc n) xs = xs ++ repeated n xs

unfoldable pub total : List ℕ → ℕ
total [] = 0
total (x ∷ xs) = x + total xs

-- The wideband bit, and the sub-mode.
unfoldable pub header_fields : List ℕ
header_fields = 1 ∷ 4 ∷ []

unfoldable pub lsp_lbr_fields : List ℕ
lsp_lbr_fields = 6 ∷ 6 ∷ 6 ∷ []

unfoldable pub lsp_nb_fields : List ℕ
lsp_nb_fields = 6 ∷ 6 ∷ 6 ∷ 6 ∷ 6 ∷ []

-- The open-loop pitch, the forced pitch gain, and the open-loop excitation gain.
unfoldable pub gain_fields : Submode → List ℕ
gain_fields m =
    elim m.lbr_pitch [ negsuc zero ↦ [] | _ ↦ 7 ∷ [] ]
    ++ (if m.forced_pitch_gain == 0 then [] else 4 ∷ [])
    ++ 5 ∷ []

-- A missing parameter block is an access through a null pointer.
unfoldable pub ltp_fields : Submode → Option (List ℕ)
ltp_fields m = elim m.ltp_quant [
  | forced_pitch ↦ some []
  | pitch_3tap ↦ elim m.ltp_params [ none ↦ none | some p ↦ some (p.pitch_bits ∷ p.gain_bits ∷ []) ]
]

unfoldable pub subframe_gain_fields : Submode → List ℕ
subframe_gain_fields m =
    if m.have_subframe_gain == 0 then [] else if m.have_subframe_gain == 3 then 3 ∷ [] else 1 ∷ []

unfoldable pub innovation_fields : Submode → Option (List ℕ)
innovation_fields m = elim m.innovation_quant [
  | noise_codebook ↦ some []
  | split_cb ↦ elim m.innovation_params [
    | none ↦ none
    | some p ↦ some (repeated p.nb_subvect ((p.shape_bits + p.have_sign) ∷ []))
  ]
]

-- The second search of `double_codebook`.
unfoldable pub second_fields : Submode → Option (List ℕ)
second_fields m = if m.double_codebook == 0 then some [] else innovation_fields m

unfoldable pub closing_fields : ℕ → List ℕ
closing_fields id = if id == 1 then 4 ∷ [] else []

unfoldable pub subframe_fields : Submode → Option (List ℕ)
subframe_fields m = elim (ltp_fields m) [
  | none ↦ none
  | some p ↦ elim (innovation_fields m) [
    | none ↦ none
    | some c ↦ elim (second_fields m) [
      | none ↦ none
      | some d ↦ some (p ++ subframe_gain_fields m ++ c ++ d)
    ]
  ]
]

-- A frame of `nb_subframes` sub-frames in sub-mode `m`, which has number `id`.
unfoldable pub frame_fields : ℕ → ℕ → Submode → Option (List ℕ)
frame_fields nb_subframes id m = elim (subframe_fields m) [
  | none ↦ none
  | some s ↦ some (
      header_fields
      ++ elim m.lsp_quant [ lsp_lbr ↦ lsp_lbr_fields | lsp_nb ↦ lsp_nb_fields ]
      ++ gain_fields m
      ++ repeated nb_subframes s
      ++ closing_fields id)
]

has_total : ℕ → Option (List ℕ) → Bool
has_total n none = false
has_total n (some fields) = total fields == n

counts : ℕ → Submode → Bool
counts id m =
    has_total m.bits_per_frame (frame_fields (nb_mode.frame_size / nb_mode.subframe_size) id m)

adds_up_at : ℕ → Option (Option Submode) → Bool
adds_up_at id (some (some m)) = counts id m
adds_up_at id o = true

adds_up : ℕ → Bool
adds_up id = adds_up_at id (get_elem? nb_mode.submodes id)

adds_up_table : passes_under adds_up 16 ≡ true
unfolding passes_under adds_up adds_up_at counts has_total frame_fields subframe_fields ltp_fields
    innovation_fields second_fields subframe_gain_fields gain_fields closing_fields header_fields
    lsp_lbr_fields lsp_nb_fields repeated total
adds_up_table = refl

has_total_lem :
    (n : ℕ) (o : Option (List ℕ))
    → has_total n o ≡ true
    → (fields : List ℕ) × ((o ≡ some fields) × (total fields ≡ n))
unfolding has_total
has_total_lem n none e = absurd (false≢true e)
has_total_lem n (some fields) e = (fields, (refl, (==_iff _ _).0 e))

-- The declared size of a sub-mode is the number of bits that a frame in it writes: for each of the
-- sub-modes of the narrowband mode, by its number, the encoder has a list of field widths (no
-- quantizer misses its parameters) and their sum is `bits_per_frame`.
pub bits_per_frame_lem :
    (id : ℕ) (m : Submode)
    → get_elem? nb_mode.submodes id ≡ some (some m)
    → (fields : List ℕ) × ((frame_fields (nb_mode.frame_size / nb_mode.subframe_size) id m
          ≡ some fields)
        × (total fields ≡ m.bits_per_frame))
unfolding adds_up adds_up_at counts
bits_per_frame_lem id m e =
    let tested : adds_up id ≡ true =
      passes_under_lem adds_up 16 adds_up_table id (get_elem?-lt nb_mode.submodes id (some m) e) in
    has_total_lem _ _ (ap (adds_up_at id) (sym e) ∙ tested)
