-- ===== src/Bits/Field.antt =====
-- A run of bits of an array, read as a number with its top bit first.
use securecom_voice.Base.{
  ℕ, zero, suc, ◌+◌, ◌*◌, ◌/◌, ◌%◌, ◌^◌, ◌≤◌, ◌<◌, ◌≡◌, refl, ap, List, arith,
}
use native.Mathlib.Nat.{div-div-eq-div-mul, div-add-mod, pow-suc}
use securecom_voice.Base.Byte.{byte_bit-lt}
use securecom_voice.Bits.{bit_at}

abbrev pub field : List ℕ → ℕ → ℕ → ℕ
field xs p zero = 0
field xs p (suc n) = bit_at xs p * 2 ^ n + field xs (p + 1) n

pub field_ext :
    (xs ys : List ℕ) (p n : ℕ)
    → ((i : ℕ) → p ≤ i → i < p + n → bit_at xs i ≡ bit_at ys i)
    → field xs p n ≡ field ys p n
field_ext xs ys p zero h = refl
field_ext xs ys p (suc n) h =
    let rest = field_ext xs ys (p + 1) n (λ i l u. h i (omega arith) (omega arith)) in
    rw (h p (omega arith) (omega arith)) (ap (λ k. bit_at ys p * 2 ^ n + k) rest)

-- The top bit of the low `n + 1` bits of a number, and the others.
pub split_top : (d m : ℕ) → 0 < m → d / m % 2 * m + d % m ≡ d % (m * 2)
split_top d m h = omega (
  arith,
  div-div-eq-div-mul d m 2,
  div-add-mod d m,
  div-add-mod d (m * 2),
  ap (λ k. m * k) (div-add-mod (d / m) 2),
  ap (λ k. m * 2 * k) (div-div-eq-div-mul d m 2),
)

pub pow_pos : (n : ℕ) → 0 < 2 ^ n
pow_pos zero = omega arith
pow_pos (suc n) = rw (pow-suc 2 n) (omega (arith, pow_pos n))

pub field-lt : (xs : List ℕ) (p n : ℕ) → field xs p n < 2 ^ n
field-lt xs p zero = omega arith
field-lt xs p (suc n) = rw (pow-suc 2 n) (grind (arith, field-lt xs (p + 1) n, byte_bit-lt))
