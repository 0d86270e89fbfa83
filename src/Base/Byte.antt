-- ===== src/Base/Byte.antt =====
-- Bits of a byte, the most significant first, and what `|=` of one shifted bit does to them.
use securecom_voice.Base.{
  ℕ, zero, suc, ◌-◌, ◌*◌, ◌/◌, ◌%◌, ◌^◌, ◌<◌, ◌≡◌, refl, ap, ◌∙◌, inl, inr, Bool, true, ◌&&◌, arith,
  ◌==◌, ==_iff, Bool-cases, bit_or, if◌then◌else◌,
}

-- Bit `k` of the byte `c`, counted from the top: `(c >> (7 - k)) & 1`.
unfoldable pub byte_bit : ℕ → ℕ → ℕ
byte_bit c k = c / 2 ^ (7 - k) % 2

-- `c |= bit << (7 - k)` on a byte.
unfoldable pub or_bit : ℕ → ℕ → ℕ → ℕ
or_bit c bit k = bit_or c (bit * 2 ^ (7 - k)) % 256

-- A test at every value under a bound, from the bound down.
unfoldable pub passes_under : (ℕ → Bool) → ℕ → Bool
passes_under test zero = true
passes_under test (suc bound) = passes_under test bound && test bound

pub passes_under_lem :
    (test : ℕ → Bool) (bound : ℕ)
    → passes_under test bound ≡ true
    → (value : ℕ) → value < bound
    → test value ≡ true
unfolding passes_under
passes_under_lem test zero every value below = absurd (omega arith)
passes_under_lem test (suc bound) every value below =
    let earlier : passes_under test bound ≡ true = ground arith in
    let here : test bound ≡ true = ground arith in
    elim (Bool-cases (value == bound)) [
      | inl e ↦ ap test ((==_iff _ _).0 e) ∙ here
      | inr e ↦ passes_under_lem test bound earlier value (ground arith)
    ]

or_bit_agrees : ℕ → ℕ → ℕ → ℕ → Bool
or_bit_agrees c b k j =
    byte_bit (or_bit c b k) j
    == (if j == k then (if b == 1 then 1 else byte_bit c j) else byte_bit c j)

or_bit_table :
    passes_under
      (λ c. passes_under (λ b. passes_under (λ k. passes_under (or_bit_agrees c b k) 8) 8) 2)
      256
    ≡ true
unfolding passes_under or_bit_agrees byte_bit or_bit
or_bit_table = refl

-- Or-ing in a bit sets that bit of the byte if it is one, and changes no other.
pub byte_bit-or_bit :
    (c b k j : ℕ)
    → c < 256
    → b < 2
    → k < 8
    → j < 8
    → byte_bit (or_bit c b k) j
      ≡ (if j == k then (if b == 1 then 1 else byte_bit c j) else byte_bit c j)
unfolding or_bit_agrees
byte_bit-or_bit c b k j hc hb hk hj = (==_iff _ _).0 (
    passes_under_lem (or_bit_agrees c b k) 8
      (passes_under_lem (λ k. passes_under (or_bit_agrees c b k) 8) 8
        (passes_under_lem (λ b. passes_under (λ k. passes_under (or_bit_agrees c b k) 8) 8) 2
          (passes_under_lem _ 256 or_bit_table c hc) b hb)
        k hk)
      j hj)

pub byte_bit-lt : (c k : ℕ) → byte_bit c k < 2
unfolding byte_bit
byte_bit-lt c k = omega arith

pub or_bit-lt : (c b k : ℕ) → or_bit c b k < 256
unfolding or_bit
or_bit-lt c b k = omega arith

pub byte_bit-zero : (k : ℕ) → byte_bit 0 k ≡ 0
unfolding byte_bit
byte_bit-zero k = omega arith
