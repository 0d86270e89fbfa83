-- ===== src/Codec/Filters/Tests.antt =====
-- Runs of the filters, and the properties at concrete inputs.
use securecom_voice.Base.{ℕ, ◌/◌, ◌^◌, ◌<◌, ◌≡◌, refl, some, List, [], ◌∷◌, ◌++◌, arith, get_elem?}
use securecom_voice.Base.Int.{ℤ, pos, negsuc, ◌≤ℤ◌, ◌+ℤ◌, ◌-ℤ◌, ◌*ℤ◌}
use securecom_voice.Codec.Rms.{shift_right, word16, mult16_16}
use securecom_voice.Codec.Filters.{
  filter_loop, taps, output, mac16_16, saturate, add32, pshr32, neg16, widen, mult16_16_p15,
  shifts_needed, filter_mem16, iir_mem16, fir_mem16, cleared, syn_percep_zero16,
  residue_percep_zero16, bw_lpc, sanitize_values32, largest, normalize16,
}
use securecom_voice.Codec.Filters.Highpass.{pcoef, zcoef}
use securecom_voice.Codec.Filters.Direct.{direct}
use securecom_voice.Codec.Filters.Blocks.{in_blocks, highpass_in_blocks, filter_in_blocks}
use securecom_voice.Codec.Filters.Equation.{
  by_equation, pole_zero_sum, one_sum, sample, negated, filter_mem16_lem, percep_zero_lem,
}
use securecom_voice.Codec.Filters.Scaling.{normalize16_lem}

abbrev signal : List ℤ
signal = pos 1000 ∷ negsuc 1999 ∷ pos 30000 ∷ pos 32767 ∷ []

abbrev poles : List ℤ
poles = negsuc 8191 ∷ pos 4096 ∷ []

abbrev zeros : List ℤ
zeros = pos 2048 ∷ negsuc 1023 ∷ []

-- The last output is saturated.
iir_run :
    iir_mem16 signal poles (cleared 2)
    ≡ some
        (pos 1000 ∷ negsuc 999 ∷ pos 28500 ∷ pos 32767 ∷ [], pos 151691264 ∷ negsuc 134213631 ∷ [])
unfolding iir_mem16 filter_loop taps output mac16_16 mult16_16 saturate add32 ◌*ℤ◌ ◌+ℤ◌ pshr32
    shift_right ◌-ℤ◌ neg16
iir_run = refl

bw_lpc_run : bw_lpc (pos 29491) poles ≡ negsuc 7372 ∷ pos 3318 ∷ []
unfolding bw_lpc widen mult16_16_p15 word16 shift_right add32 ◌+ℤ◌ mult16_16 ◌*ℤ◌
bw_lpc_run = refl

abbrev numbers : List ℤ
numbers = pos 100000 ∷ negsuc 70000 ∷ pos 3 ∷ []

normalize16_run : normalize16 32 numbers 180 ≡ some (pos 97 ∷ negsuc 68 ∷ pos 0 ∷ [], 10)
unfolding normalize16 shifts_needed largest word16 shift_right
normalize16_run = refl

sanitize_values32_run :
    sanitize_values32 (negsuc 99) (pos 100) (pos 101 ∷ negsuc 4 ∷ negsuc 200 ∷ [])
    ≡ pos 100 ∷ negsuc 4 ∷ negsuc 99 ∷ []
unfolding sanitize_values32
sanitize_values32_run = refl

filter_mem16_lem_example :
    (mem : List ℤ) × (filter_mem16 signal zeros poles (cleared 2)
      ≡ some (by_equation (pole_zero_sum zeros poles) [] signal, mem))
filter_mem16_lem_example =
    filter_mem16_lem signal zeros poles 2 (omega arith) (omega arith) (omega arith)

percep_zero_lem_example :
    (syn_percep_zero16 signal poles zeros poles 2
      ≡ some (
          by_equation
            (pole_zero_sum zeros poles)
            []
            (by_equation (one_sum negated poles) [] signal)))
    × (residue_percep_zero16 signal poles zeros poles 2
        ≡ some (
            by_equation
              (one_sum sample poles)
              []
              (by_equation (pole_zero_sum poles zeros) [] signal)))
percep_zero_lem_example =
    percep_zero_lem signal poles zeros poles 2 (omega arith) (omega arith) (omega arith)
      (omega arith)

filter_in_blocks_example :
    ((mem : List ℤ) × (in_blocks (λ zs m. filter_mem16 zs zeros poles m) (cleared 2) signal signal
        ≡ some (by_equation (pole_zero_sum zeros poles) [] (signal ++ signal), mem)))
    × ((mem : List ℤ) × (in_blocks (λ zs m. iir_mem16 zs poles m) (cleared 2) signal signal
          ≡ some (by_equation (one_sum negated poles) [] (signal ++ signal), mem)))
    × ((mem : List ℤ) × (in_blocks (λ zs m. fir_mem16 zs zeros m) (cleared 2) signal signal
          ≡ some (by_equation (one_sum sample zeros) [] (signal ++ signal), mem)))
    × ((mem : ℤ × ℤ) × (highpass_in_blocks signal signal 2 (pos 0, pos 0)
          ≡ (direct (pcoef 2) (zcoef 2) [] (signal ++ signal), mem)))
filter_in_blocks_example =
    filter_in_blocks signal signal zeros poles 2 2 (omega arith) (omega arith) (omega arith)

largest-numbers : largest 1 numbers ≡ 100000
unfolding largest
largest-numbers = refl

normalize16_lem_example :
    (y : List ℤ) × (k : ℕ) × ((normalize16 32 numbers 180 ≡ some (y, k))
      × (((i : ℕ) (v : ℤ)
            → get_elem? numbers i ≡ some v
            → (get_elem? y i ≡ some (shift_right v k))
              × ((negsuc 180 ≤ℤ shift_right v k) × (shift_right v k ≤ℤ pos 180)))
          × ((j : ℕ) → j < k → 180 < largest 1 numbers / 2 ^ j)))
normalize16_lem_example =
    normalize16_lem numbers 180 (omega arith) (omega arith) (omega (arith, largest-numbers))
