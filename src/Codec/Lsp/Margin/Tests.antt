-- ===== src/Codec/Lsp/Margin/Tests.antt =====
-- The margin and the interpolation at concrete pairs.
use securecom_voice.Base.{◌*◌, ◌≡◌, refl, some, List, [], ◌∷◌, arith, replicate}
use securecom_voice.Base.Int.{ℤ, pos, ◌+ℤ◌, ◌-ℤ◌}
use securecom_voice.Codec.Rms.{word16, shift_right}
use securecom_voice.Codec.Lsp.Margin.{
  lower_last, away_from_lower, away_from_upper, keep_apart, apart_from_first, lsp_enforce_margin,
  lsp_interpolate,
}
use securecom_voice.Codec.Lsp.Spacing.{coincident_kept, last_subframe}

abbrev old_pairs : List ℤ
old_pairs = pos 3000 ∷ pos 9000 ∷ pos 20000 ∷ []

abbrev new_pairs : List ℤ
new_pairs = pos 2048 ∷ pos 4096 ∷ pos 25000 ∷ []

-- The last two pairs come out in the wrong order.
disordered_run :
    lsp_enforce_margin (pos 1000 ∷ pos 25000 ∷ pos 2000 ∷ []) (pos 16)
    ≡ some (pos 1000 ∷ pos 13492 ∷ pos 2000 ∷ [])
unfolding lsp_enforce_margin apart_from_first keep_apart lower_last away_from_lower away_from_upper
    word16 shift_right ◌+ℤ◌ ◌-ℤ◌
disordered_run = refl

coincident_kept_example :
    lsp_enforce_margin (replicate 10 (pos (2 * 600))) (pos 16) ≡ some (replicate 10 (pos (2 * 600)))
coincident_kept_example = coincident_kept 9 600 (omega arith) (omega arith)

last_subframe_example :
    lsp_enforce_margin (lsp_interpolate old_pairs new_pairs 3 4) (pos 16) ≡ some new_pairs
unfolding ◌+ℤ◌
last_subframe_example =
    last_subframe 16 3 old_pairs new_pairs (omega arith) (omega arith) refl
      (omega arith, (omega arith, (omega arith, omega arith)))
