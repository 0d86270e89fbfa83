-- ===== src/Codec/Rms.antt =====
-- jni/filters.c and jni/math_approx.h, in fixed point: the root of the mean square of a block.
-- `spx_word32_t` sums are integers without a bound; the blocks are short enough that none wraps.
-- A left shift is a product.
use securecom_voice.Base.{
  ℕ, suc, ◌+◌, ◌-◌, ◌*◌, ◌/◌, ◌%◌, ◌^◌, Option, none, some, List, [], ◌∷◌, ltb, leb, length,
  if◌then◌else◌,
}
use securecom_voice.Base.Int.{ℤ, pos, negsuc, ◌+ℤ◌, ◌-ℤ◌, ◌*ℤ◌, pos_part, neg_part}

-- `>>` on a signed number, which rounds down.
unfoldable pub shift_right : ℤ → ℕ → ℤ
shift_right (pos n) k = pos (n / 2 ^ k)
shift_right (negsuc n) k = negsuc (n / 2 ^ k)

-- `/` by a positive number, which rounds towards zero.
unfoldable pub quotient : ℤ → ℕ → ℤ
quotient (pos n) d = pos (n / d)
quotient (negsuc n) d = pos 0 -ℤ pos (suc n / d)

-- The conversion to `spx_word16_t`.
unfoldable pub word16 : ℤ → ℤ
word16 (pos n) =
    let low = n % 2 ^ 16 in if ltb low (2 ^ 15) then pos low else negsuc (2 ^ 16 - 1 - low)
word16 (negsuc n) =
    let low = n % 2 ^ 16 in if ltb low (2 ^ 15) then negsuc low else pos (2 ^ 16 - 1 - low)

-- `ADD16`, `MULT16_16` and `MULT16_16_Q14`.
unfoldable pub add16 : ℤ → ℤ → ℤ
unfolding word16
add16 a b = word16 (word16 a +ℤ word16 b)

unfoldable pub mult16_16 : ℤ → ℤ → ℤ
unfolding word16
mult16_16 a b = word16 a *ℤ word16 b

unfoldable pub mult16_16_q14 : ℤ → ℤ → ℤ
unfolding mult16_16 shift_right
mult16_16_q14 a b = shift_right (mult16_16 a b) 14

-- `VSHR32`.
unfoldable pub vshr32 : ℤ → ℤ → ℤ
unfolding shift_right
vshr32 a (pos n) = shift_right a n
vshr32 a (negsuc n) = a *ℤ pos (2 ^ suc n)

-- The steps of `spx_ilog4`: the argument is shifted when it is at least the bound.
unfoldable pub ilog4_step : ℕ → ℕ → ℕ → ℕ × ℕ → ℕ × ℕ
ilog4_step bound shift gain (x, r) = if leb bound x then (x / 2 ^ shift, r + gain) else (x, r)

unfoldable pub spx_ilog4 : ℕ → ℕ
unfolding ilog4_step
spx_ilog4 x =
    let (y, r) = ilog4_step 16 4 2 (ilog4_step 256 8 4 (ilog4_step 65536 16 8 (x, 0))) in
    if leb 4 y then r + 1 else r

-- The argument is not negative. The constants are the coefficients of the polynomial.
unfoldable pub spx_sqrt : ℕ → ℤ
unfolding spx_ilog4 vshr32 add16 mult16_16_q14
spx_sqrt x =
    let k = pos (spx_ilog4 x) -ℤ pos 6 in
    let y = vshr32 (pos x) (k +ℤ k) in
    let rt = add16 (pos 3634) (
      mult16_16_q14 y (
        add16 (pos 21173) (mult16_16_q14 y (add16 (negsuc 12626) (mult16_16_q14 y (pos 4204)))))) in
    word16 (vshr32 rt (pos 7 -ℤ k))

unfoldable pub max_abs : ℕ → List ℤ → ℕ
max_abs m [] = m
max_abs m (x ∷ xs) =
    let size = pos_part x + neg_part x in max_abs (if ltb m size then size else m) xs

abbrev pub square : (ℤ → ℤ) → ℤ → ℕ
square scale x = let y = word16 (scale x) in (pos_part y + neg_part y) * (pos_part y + neg_part y)

-- The sum of the squares in groups of four, each shifted right by six. A block whose length is no
-- multiple of four is read past its end.
unfoldable pub sum_squares : (ℤ → ℤ) → List ℤ → Option ℕ
sum_squares scale [] = some 0
sum_squares scale (a ∷ b ∷ c ∷ d ∷ xs) = elim (sum_squares scale xs) [
  | none ↦ none
  | some rest ↦
      some ((square scale a + square scale b + square scale c + square scale d) / 2 ^ 6 + rest)
]
sum_squares scale xs = none

unfoldable pub sig_shift : ℕ → ℕ
sig_shift m = if ltb m 2048 then 3 else if ltb m 4096 then 2 else if ltb m 8192 then 1 else 0

unfoldable pub compute_rms16 : List ℤ → Option ℤ
unfolding max_abs sum_squares sig_shift spx_sqrt
compute_rms16 [] = none
compute_rms16 (x ∷ xs) =
    let block = x ∷ xs in
    let max_val = max_abs 10 block in
    if ltb 16383 max_val
    then elim (sum_squares (λ y. shift_right y 1) block) [
      | none ↦ none
      | some sum ↦ some (word16 (spx_sqrt (sum / length block) *ℤ pos (2 ^ 4)))
    ]
    else elim (sum_squares (λ y. y *ℤ pos (2 ^ sig_shift max_val)) block) [
      | none ↦ none
      | some sum ↦
          some (word16 (spx_sqrt (sum / length block) *ℤ pos (2 ^ (3 - sig_shift max_val))))
    ]
