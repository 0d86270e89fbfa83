-- ===== src/Codec/Lsp/Margin.antt =====
-- jni/lsp.c, in fixed point: the interpolation of the line spectral pairs between frames, and the
-- margin that is enforced between them.
mod Tests
use securecom_voice.Base.{
  ℕ, suc, ◌+◌, ◌*◌, ◌^◌, Option, none, some, List, [], ◌∷◌, if◌then◌else◌, length, take, ltb,
}
use securecom_voice.Base.Int.{ℤ, pos, negsuc, ◌+ℤ◌, ◌-ℤ◌, ltb_ℤ}
use securecom_voice.Codec.Rms.{word16, shift_right, quotient, mult16_16}
use securecom_voice.Codec.Lsp.{zip_with}
use securecom_voice.Codec.Filters.{add32}

-- `MULT16_16_P14`.
unfoldable pub mult16_16_p14 : ℤ → ℤ → ℤ
mult16_16_p14 a b = shift_right (add32 (pos 8192) (mult16_16 a b)) 14

-- The share of the new pairs, out of 16384.
unfoldable pub share : (subframe nb_subframes : ℕ) → ℤ
share subframe nb_subframes = word16 (quotient (pos ((1 + subframe) * 2 ^ 14)) nb_subframes)

-- The pairs are as many as are in both lists; `nb_subframes` is not zero.
unfoldable pub lsp_interpolate : (old_lsp new_lsp : List ℤ) → (subframe nb_subframes : ℕ) → List ℤ
lsp_interpolate old_lsp new_lsp subframe nb_subframes =
    let tmp = share subframe nb_subframes in
    let tmp2 = word16 (pos 16384 -ℤ tmp) in
    zip_with (λ old new. word16 (mult16_16_p14 tmp2 old +ℤ mult16_16_p14 tmp new)) old_lsp new_lsp

-- The last pair, to `m2` at most.
unfoldable pub lower_last : ℤ → List ℤ → List ℤ
lower_last m2 [] = []
lower_last m2 (x ∷ []) = (if ltb_ℤ m2 x then m2 else x) ∷ []
lower_last m2 (x ∷ y ∷ lsp) = x ∷ lower_last m2 (y ∷ lsp)

-- One pair, between the one before and the one behind.
unfoldable pub away_from_lower : (m below x : ℤ) → ℤ
away_from_lower m below x = if ltb_ℤ x (below +ℤ m) then word16 (below +ℤ m) else x

unfoldable pub away_from_upper : (m x above : ℤ) → ℤ
away_from_upper m x above =
    if ltb_ℤ (above -ℤ m) x then word16 (shift_right x 1 +ℤ shift_right (above -ℤ m) 1) else x

-- The loop over the pairs behind `below`, the last left out.
unfoldable pub keep_apart : (m below : ℤ) → List ℤ → List ℤ
keep_apart m below [] = []
keep_apart m below (x ∷ []) = x ∷ []
keep_apart m below (x ∷ above ∷ lsp) =
    let x' = away_from_upper m (away_from_lower m below x) above in
    x' ∷ keep_apart m x' (above ∷ lsp)

unfoldable pub apart_from_first : ℤ → List ℤ → List ℤ
apart_from_first m [] = []
apart_from_first m (x ∷ lsp) = x ∷ keep_apart m x lsp

-- Without a pair the array is left.
unfoldable pub lsp_enforce_margin : List ℤ → ℤ → Option (List ℤ)
lsp_enforce_margin [] margin = none
lsp_enforce_margin (x ∷ lsp) margin =
    let raised = (if ltb_ℤ x margin then margin else x) ∷ lsp in
    some (apart_from_first margin (lower_last (word16 (pos 25736 -ℤ margin)) raised))
