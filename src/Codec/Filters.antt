-- ===== src/Codec/Filters.antt =====
-- jni/filters.c, in fixed point: the filters of the codec that keep a memory, their compositions, the
-- widening of a filter's poles and the scaling of numbers to 16 bits. A sample is a number of
-- `spx_word16_t`; a sum of 32 bits wraps. The order of a filter is the length of its memory. The
-- input is read before the output is written, sample by sample, so that both can be one array.
pub mod Highpass
pub mod Blocks
pub mod Equation
pub mod Direct
pub mod Scaling
mod Tests
use securecom_voice.Base.{
  ℕ, zero, suc, ◌+◌, ◌-◌, ◌*◌, ◌/◌, ◌^◌, Option, none, some, List, [], ◌∷◌, map, length, replicate,
  get_elem?, ltb, if◌then◌else◌, ◌>>=◌,
}
use securecom_voice.Base.Int.{ℤ, pos, negsuc, ◌+ℤ◌, ◌-ℤ◌, pos_part, neg_part, ltb_ℤ, wrap32}
use securecom_voice.Codec.Rms.{word16, shift_right, mult16_16}

-- `ADD32`, `MAC16_16` and `PSHR32`.
unfoldable pub add32 : ℤ → ℤ → ℤ
add32 a b = wrap32 (a +ℤ b)

unfoldable pub mac16_16 : ℤ → ℤ → ℤ → ℤ
mac16_16 c a b = add32 c (mult16_16 a b)

unfoldable pub pshr32 : ℤ → ℕ → ℤ
pshr32 a shift = shift_right (add32 a (pos (2 ^ shift / 2))) shift

-- `SATURATE` to `a` and `-a`.
unfoldable pub saturate : ℤ → ℕ → ℤ
saturate x a =
    if ltb_ℤ (pos a) x then pos a else if ltb_ℤ x (pos 0 -ℤ pos a) then pos 0 -ℤ pos a else x

unfoldable pub neg16 : ℤ → ℤ
neg16 x = word16 (pos 0 -ℤ x)

-- `LPC_SHIFT`.
abbrev pub lpc_shift : ℕ
lpc_shift = 13

-- `yi`, of a sample and the first number of the memory.
unfoldable pub output : ℤ → ℤ → ℤ
output x m = word16 (saturate (add32 x (pshr32 m lpc_shift)) 32767)

-- A filter's loop over the samples. `update` makes the new memory of a sample, the output with its
-- sign changed, and the memory.
unfoldable pub filter_loop :
    (ℤ → ℤ → List ℤ → Option (List ℤ)) → List ℤ → List ℤ → Option (List ℤ × List ℤ)
filter_loop update mem [] = some ([], mem)
filter_loop update mem (x ∷ xs) = do
  m ← get_elem? mem 0
  mem' ← update x (neg16 (output x m)) mem
  (ys, mem'') ← filter_loop update mem' xs
  some (output x m ∷ ys, mem'')

-- The loop over `j` in `filter_mem16`, and the last number of the memory.
unfoldable pub pole_zero_taps : (num den : List ℤ) → (xi nyi : ℤ) → List ℤ → Option (List ℤ)
pole_zero_taps (b ∷ num) (a ∷ den) xi nyi (m ∷ []) =
    some (add32 (mult16_16 b xi) (mult16_16 a nyi) ∷ [])
pole_zero_taps (b ∷ num) (a ∷ den) xi nyi (m ∷ m' ∷ mem) = do
  rest ← pole_zero_taps num den xi nyi (m' ∷ mem)
  some (mac16_16 (mac16_16 m' b xi) a nyi ∷ rest)
pole_zero_taps num den xi nyi mem = none

-- The same in `iir_mem16` and `fir_mem16`, which have one array of coefficients.
unfoldable pub taps : List ℤ → ℤ → List ℤ → Option (List ℤ)
taps (c ∷ cs) v (m ∷ []) = some (mult16_16 c v ∷ [])
taps (c ∷ cs) v (m ∷ m' ∷ mem) = do rest ← taps cs v (m' ∷ mem); some (mac16_16 m' c v ∷ rest)
taps cs v mem = none

-- The result is the output and the memory left.
unfoldable pub filter_mem16 : (x num den mem : List ℤ) → Option (List ℤ × List ℤ)
filter_mem16 x num den mem = filter_loop (pole_zero_taps num den) mem x

unfoldable pub iir_mem16 : (x den mem : List ℤ) → Option (List ℤ × List ℤ)
iir_mem16 x den mem = filter_loop (λ xi nyi. taps den nyi) mem x

unfoldable pub fir_mem16 : (x num mem : List ℤ) → Option (List ℤ × List ℤ)
fir_mem16 x num mem = filter_loop (λ xi nyi. taps num xi) mem x

abbrev pub cleared : ℕ → List ℤ
cleared ord = replicate ord (pos 0)

unfoldable pub syn_percep_zero16 : (xx ak awk1 awk2 : List ℤ) → ℕ → Option (List ℤ)
syn_percep_zero16 xx ak awk1 awk2 ord = do
  (y, _) ← iir_mem16 xx ak (cleared ord)
  (y', _) ← filter_mem16 y awk1 awk2 (cleared ord)
  some y'

unfoldable pub residue_percep_zero16 : (xx ak awk1 awk2 : List ℤ) → ℕ → Option (List ℤ)
residue_percep_zero16 xx ak awk1 awk2 ord = do
  (y, _) ← filter_mem16 xx ak awk1 (cleared ord)
  (y', _) ← fir_mem16 y awk2 (cleared ord)
  some y'

-- `MULT16_16_P15`, stored in 16 bits.
unfoldable pub mult16_16_p15 : ℤ → ℤ → ℤ
mult16_16_p15 a b = word16 (shift_right (add32 (pos 16384) (mult16_16 a b)) 15)

-- The loop of `bw_lpc`, from `tmp`.
unfoldable pub widen : ℤ → ℤ → List ℤ → List ℤ
widen gamma tmp [] = []
widen gamma tmp (c ∷ lpc_in) = mult16_16_p15 tmp c ∷ widen gamma (mult16_16_p15 tmp gamma) lpc_in

unfoldable pub bw_lpc : ℤ → List ℤ → List ℤ
bw_lpc gamma lpc_in = widen gamma gamma lpc_in

-- An integer is not a NaN.
unfoldable pub sanitize_values32 : (min_val max_val : ℤ) → List ℤ → List ℤ
sanitize_values32 min_val max_val vec =
    map (λ v. if ltb_ℤ v min_val then min_val else if ltb_ℤ max_val v then max_val else v) vec

-- The loop of `normalize16` over the numbers; `max_val` is not negative.
unfoldable pub largest : ℕ → List ℤ → ℕ
largest max_val [] = max_val
largest max_val (x ∷ xs) =
    let size = pos_part x + neg_part x in largest (if ltb size max_val then max_val else size) xs

-- `while (max_val>max_scale)`. The result is `sig_shift`, or none when out of fuel.
unfoldable pub shifts_needed : ℕ → (max_val max_scale : ℕ) → Option ℕ
shifts_needed zero max_val max_scale = none
shifts_needed (suc n) max_val max_scale =
    let rest = shifts_needed n (max_val / 2) max_scale in
    if ltb max_scale max_val then (do k ← rest; some (suc k)) else some 0

-- The scaled numbers, and by how much they were shifted.
unfoldable pub normalize16 : ℕ → List ℤ → ℕ → Option (List ℤ × ℕ)
normalize16 fuel x max_scale = do
  sig_shift ← shifts_needed fuel (largest 1 x) max_scale
  some (map (λ v. word16 (shift_right v sig_shift)) x, sig_shift)
