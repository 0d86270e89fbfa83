-- ===== src/Codec/Filters/Direct.antt =====
-- The high-pass filter as a difference equation: an output before rounding is the weighted sum of
-- three samples and of what two outputs feed back.
use securecom_voice.Base.{◌≡◌, refl, ap₂, List, [], ◌∷◌}
use securecom_voice.Base.Int.{ℤ, pos, ◌-ℤ◌}
use securecom_voice.Codec.Rms.{word16, mult16_16, shift_right}
use securecom_voice.Codec.Filters.{add32, mac16_16, pshr32, saturate}
use securecom_voice.Codec.Filters.Highpass.{
  highpass_loop, fed_back, unrounded, memory_after, mult16_32_q15, low_15,
}
use securecom_voice.Codec.Filters.Equation.{
  History, newest, older, mult16_16-zero, add32-zero, mac16_16-zero,
}

-- Twice the product of an output with a coefficient's negative.
abbrev pub feedback : ℤ → ℤ → ℤ
feedback d v = add32 (mult16_32_q15 (pos 0 -ℤ d) v) (mult16_32_q15 (pos 0 -ℤ d) v)

-- What the sample and the output two steps back add to the next output, and what those before do. A
-- history holds the samples with their outputs before rounding.
abbrev pub second_back : (den num : ℤ × ℤ × ℤ) → History → ℤ
second_back den num h = add32 (mult16_16 num.2 (newest h).0) (feedback den.2 (newest h).1)

abbrev pub both_back : (den num : ℤ × ℤ × ℤ) → History → ℤ
both_back den num h =
    add32 (mac16_16 (second_back den num (older h)) num.1 (newest h).0)
      (feedback den.1 (newest h).1)

abbrev pub weighted_sum : (den num : ℤ × ℤ × ℤ) → History → ℤ → ℤ
weighted_sum den num h x = add32 (mult16_16 num.0 x) (both_back den num h)

-- The outputs by the equation, rounded, and the history that they leave.
abbrev pub direct : (den num : ℤ × ℤ × ℤ) → History → List ℤ → List ℤ
direct den num h [] = []
direct den num h (x ∷ xs) =
    word16 (saturate (pshr32 (weighted_sum den num h x) 14) 32767)
    ∷ direct den num ((x, weighted_sum den num h x) ∷ h) xs

abbrev pub left_behind : (den num : ℤ × ℤ × ℤ) → History → List ℤ → History
left_behind den num h [] = h
left_behind den num h (x ∷ xs) = left_behind den num ((x, weighted_sum den num h x) ∷ h) xs

abbrev pub memory_of : (den num : ℤ × ℤ × ℤ) → History → ℤ × ℤ
memory_of den num h = (both_back den num h, second_back den num h)

feedback-zero : (d : ℤ) → feedback d (pos 0) ≡ pos 0
unfolding mult16_32_q15 low_15 shift_right
feedback-zero d = rw (mult16_16-zero (pos 0 -ℤ d), add32-zero) add32-zero

-- Before the first sample the memory is zero.
pub memory_of-nothing : (den num : ℤ × ℤ × ℤ) → memory_of den num [] ≡ (pos 0, pos 0)
memory_of-nothing den num =
    let second : second_back den num [] ≡ pos 0 =
      rw (mult16_16-zero num.2, feedback-zero den.2) add32-zero in
    ap₂ (λ a b. (a, b)) (rw (second, mac16_16-zero num.1, feedback-zero den.1) add32-zero) second

memory_after-memory_of :
    (den num : ℤ × ℤ × ℤ) (h : History) (x : ℤ)
    → memory_after den num x (memory_of den num h)
      ≡ memory_of den num ((x, weighted_sum den num h x) ∷ h)
unfolding memory_after unrounded fed_back
memory_after-memory_of den num h x = refl

pub highpass_loop_lem :
    (den num : ℤ × ℤ × ℤ) (h : History) (xs : List ℤ)
    → highpass_loop den num xs (memory_of den num h)
      ≡ (direct den num h xs, memory_of den num (left_behind den num h xs))
unfolding highpass_loop unrounded
highpass_loop_lem den num h [] = refl
highpass_loop_lem den num h (x ∷ xs) =
    rw
      (
        memory_after-memory_of den num h x,
        highpass_loop_lem den num ((x, weighted_sum den num h x) ∷ h) xs,
      )
      refl
