-- ===== src/Codec/Lsp/Laws.antt =====
-- The stages of the quantizer of line spectral pairs, on arrays of ten.
use securecom_voice.Base.{
  ℕ, zero, suc, ◌+◌, ◌*◌, ◌≤◌, ◌≡◌, sym, ap, ap₂, ◌∙◌, List, [], ◌∷◌, ◌++◌, map, arith, length,
  length-map, take, drop, take-append-drop,
}
use securecom_voice.Base.Int.{ℤ, pos, negsuc, ◌+ℤ◌, ◌≤ℤ◌}
use securecom_voice.Codec.Rms.{word16, add16}
use securecom_voice.Codec.Lsp.{
  Codebooks, zip_with, shift_left, sub16, twice, pshr16, linear, entry, remainder, raise,
}
use securecom_voice.Codec.Lsp.Coefficient.{decoded_low, decoded_high}
use securecom_voice.Codec.Lsp.Halves.{
  AreChars, IsOrdered, AreClose, kept_lem, take-zip_with, drop-zip_with, take-map, drop-map,
  zip_with-append, map-append, take-AreChars, drop-AreChars,
}
use securecom_voice.Codec.Lsp.Stages.{IsOrdered-le}

-- What the first stage leaves is small.
abbrev pub AreNear : List ℤ → Type 0
AreNear [] = Unit
AreNear (z ∷ zs) = (negsuc 4999 ≤ℤ z) × (z ≤ℤ pos 5000) × AreNear zs

pub AreClose_lem :
    (below : ℤ) (ls : List ℤ) (i : ℕ) (as' : List ℤ)
    → pos 0 ≤ℤ below
    → IsOrdered below ls
    → i + length ls ≤ 10
    → length as' ≡ length ls
    → AreChars as'
    → AreNear (remainder (zip_with sub16 ls (linear i (length ls))) as')
    → AreClose ls (linear i (length ls)) as'
unfolding zip_with linear
AreClose_lem below [] i [] h o f e hc r = tt
AreClose_lem below [] i (a ∷ as') h o f e hc r = absurd (omega (arith, e))
AreClose_lem below (l ∷ ls) i [] h o f e hc r = absurd (omega (arith, e))
AreClose_lem below (l ∷ ls) i (a ∷ as') h (b, o) f e (hc, hcs) (r0, r1, r) = (
  omega arith,
  IsOrdered-le l ls o,
  omega arith,
  omega arith,
  hc,
  r0,
  r1,
  AreClose_lem l ls (i + 1) as' (omega arith) o (omega arith) (omega (arith, e)) hcs r,
)

take-AreClose :
    (k : ℕ) (ls ns as' : List ℤ)
    → AreClose ls ns as'
    → AreClose (take k ls) (take k ns) (take k as')
take-AreClose zero ls ns as' h = tt
take-AreClose (suc k) [] [] [] h = tt
take-AreClose (suc k) (l ∷ ls) (n ∷ ns) (a ∷ as') (l0, l1, n0, n1, ha, r0, r1, rest) =
    (l0, l1, n0, n1, ha, r0, r1, take-AreClose k ls ns as' rest)
take-AreClose (suc k) [] (n ∷ ns) as' h = elim h [ ]
take-AreClose (suc k) [] [] (a ∷ as') h = elim h [ ]
take-AreClose (suc k) (l ∷ ls) [] as' h = elim h [ ]
take-AreClose (suc k) (l ∷ ls) (n ∷ ns) [] h = elim h [ ]

drop-AreClose :
    (k : ℕ) (ls ns as' : List ℤ)
    → AreClose ls ns as'
    → AreClose (drop k ls) (drop k ns) (drop k as')
drop-AreClose zero ls ns as' h = h
drop-AreClose (suc k) [] [] [] h = tt
drop-AreClose (suc k) (l ∷ ls) (n ∷ ns) (a ∷ as') (l0, l1, n0, n1, ha, r0, r1, rest) =
    drop-AreClose k ls ns as' rest
drop-AreClose (suc k) [] (n ∷ ns) as' h = elim h [ ]
drop-AreClose (suc k) [] [] (a ∷ as') h = elim h [ ]
drop-AreClose (suc k) (l ∷ ls) [] as' h = elim h [ ]
drop-AreClose (suc k) (l ∷ ls) (n ∷ ns) [] h = elim h [ ]

-- The codebooks have 64 entries each.
pub record IsCodebooks (t : Codebooks) : Type 0 where
  pub nb_size : length t.cdbk_nb ≡ 640
  pub low1_size : length t.cdbk_nb_low1 ≡ 320
  pub low2_size : length t.cdbk_nb_low2 ≡ 320
  pub high1_size : length t.cdbk_nb_high1 ≡ 320
  pub high2_size : length t.cdbk_nb_high2 ≡ 320
  pub nb_chars : AreChars t.cdbk_nb
  pub low1_chars : AreChars t.cdbk_nb_low1
  pub low2_chars : AreChars t.cdbk_nb_low2
  pub high1_chars : AreChars t.cdbk_nb_high1
  pub high2_chars : AreChars t.cdbk_nb_high2

pub entry-AreChars : (cdbk : List ℤ) (dim id : ℕ) → AreChars cdbk → AreChars (entry cdbk dim id)
entry-AreChars cdbk dim id h = take-AreChars dim _ (drop-AreChars (id * dim) cdbk h)

-- The stages on the whole array, the two halves apart.
module _ (lsp lin row0 r1 r2 r3 r4 : List ℤ) where
  abbrev pub first : List ℤ
  first = remainder (zip_with sub16 lsp lin) row0

  abbrev pub low_part : List ℤ
  low_part = remainder (map twice (remainder (take 5 (map twice first)) r1)) r2

  abbrev pub high_part : List ℤ
  high_part = remainder (map twice (remainder (drop 5 (map twice first)) r3)) r4

  low_lem :
      AreClose (take 5 lsp) (take 5 lin) (take 5 row0)
      → AreChars r1
      → AreChars r2
      → length r1 ≡ length (take 5 lsp)
      → length r2 ≡ length (take 5 lsp)
      → zip_with sub16 (take 5 lsp) (map (pshr16 2) low_part)
        ≡ raise 3 (zip_with (λ l c. add16 l (shift_left 4 c)) (take 5 (raise 5 lin row0)) r1) r2
  low_lem h c1 c2 e1 e2 =
      ap (λ q. kept' q) (take-map twice 5 first)
      ∙ ap (λ q. kept' (map twice q)) (take-zip_with _ 5 (zip_with sub16 lsp lin) row0)
      ∙ ap (λ q. kept' (map twice (remainder q (take 5 row0)))) (take-zip_with sub16 5 lsp lin)
      ∙ kept_lem (λ l c. add16 l (shift_left 4 c)) decoded_low (take 5 lsp) (take 5 lin)
          (take 5 row0) r1 r2 h c1 c2 e1 e2
      ∙ ap (λ d. raise 3 (zip_with (λ l c. add16 l (shift_left 4 c)) d r1) r2)
          (sym (take-zip_with _ 5 lin row0))
    where
      kept' : List ℤ → List ℤ
      kept' q =
          zip_with sub16 (take 5 lsp) (map (pshr16 2) (remainder (map twice (remainder q r1)) r2))

  high_lem :
      AreClose (drop 5 lsp) (drop 5 lin) (drop 5 row0)
      → AreChars r3
      → AreChars r4
      → length r3 ≡ length (drop 5 lsp)
      → length r4 ≡ length (drop 5 lsp)
      → zip_with sub16 (drop 5 lsp) (map (pshr16 2) high_part)
        ≡ raise 3 (raise 4 (drop 5 (raise 5 lin row0)) r3) r4
  high_lem h c3 c4 e3 e4 =
      ap (λ q. kept' q) (drop-map twice 5 first)
      ∙ ap (λ q. kept' (map twice q)) (drop-zip_with _ 5 (zip_with sub16 lsp lin) row0)
      ∙ ap (λ q. kept' (map twice (remainder q (drop 5 row0)))) (drop-zip_with sub16 5 lsp lin)
      ∙ kept_lem (λ l c. word16 (l +ℤ shift_left 4 c)) decoded_high (drop 5 lsp) (drop 5 lin)
          (drop 5 row0) r3 r4 h c3 c4 e3 e4
      ∙ ap (λ d. raise 3 (raise 4 d r3) r4) (sym (drop-zip_with _ 5 lin row0))
    where
      kept' : List ℤ → List ℤ
      kept' q =
          zip_with sub16 (drop 5 lsp) (map (pshr16 2) (remainder (map twice (remainder q r3)) r4))

  -- The two halves together.
  pub arrays_lem :
      length (take 5 lsp) ≡ length low_part
      → AreClose lsp lin row0
      → AreChars r1
      → AreChars r2
      → AreChars r3
      → AreChars r4
      → length r1 ≡ length (take 5 lsp)
      → length r2 ≡ length (take 5 lsp)
      → length r3 ≡ length (drop 5 lsp)
      → length r4 ≡ length (drop 5 lsp)
      → zip_with sub16 lsp (map (pshr16 2) (low_part ++ high_part))
        ≡ raise 3 (zip_with (λ l c. add16 l (shift_left 4 c)) (take 5 (raise 5 lin row0)) r1) r2
          ++ raise 3 (raise 4 (drop 5 (raise 5 lin row0)) r3) r4
  arrays_lem size h c1 c2 c3 c4 e1 e2 e3 e4 =
      ap (λ xs. zip_with sub16 xs (map (pshr16 2) (low_part ++ high_part)))
        (sym (take-append-drop 5 lsp))
      ∙ ap (zip_with sub16 (take 5 lsp ++ drop 5 lsp)) (map-append (pshr16 2) low_part high_part)
      ∙ zip_with-append sub16 (take 5 lsp) (drop 5 lsp) (map (pshr16 2) low_part)
          (map (pshr16 2) high_part) (size ∙ sym (length-map low_part (pshr16 2)))
      ∙ ap₂ (λ xs ys. xs ++ ys) (low_lem (take-AreClose 5 lsp lin row0 h) c1 c2 e1 e2)
          (high_lem (drop-AreClose 5 lsp lin row0 h) c3 c4 e3 e4)
