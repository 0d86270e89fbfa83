-- ===== src/Codec/Lsp.antt =====
-- jni/quant_lsp.c, in fixed point: the quantization of the line spectral pairs, and its inverse in the
-- decoder. The codebooks are arguments. Arrays of ten are lists, of which the first five and the
-- rest are quantized apart. The sums of squares are integers without a bound.
pub mod Coefficient
pub mod Halves
pub mod Stages
pub mod Laws
pub mod Runs
pub mod Agreement
pub mod Books
pub mod Margin
pub mod Spacing
mod Tests
use securecom_voice.Base.{
  ℕ, zero, suc, ◌+◌, ◌-◌, ◌*◌, ◌/◌, ◌%◌, ◌^◌, Option, none, some, List, [], ◌∷◌, ◌++◌, map, length,
  take, drop, ltb, leb, if◌then◌else◌, ◌>>=◌,
}
use securecom_voice.Base.Int.{ℤ, pos, negsuc, ◌+ℤ◌, ◌-ℤ◌, ◌*ℤ◌, pos_part, neg_part, ltb_ℤ}
use securecom_voice.Memory.{Allocator}
use securecom_voice.Bits.{SpeexBits}
use securecom_voice.Bits.Pack.{pack}
use securecom_voice.Bits.Unpack.{unpack_unsigned}
use securecom_voice.Codec.Rms.{word16, shift_right, quotient, add16, mult16_16}

pub record Codebooks : Type 0 where
  pub cdbk_nb : List ℤ
  pub cdbk_nb_low1 : List ℤ
  pub cdbk_nb_low2 : List ℤ
  pub cdbk_nb_high1 : List ℤ
  pub cdbk_nb_high2 : List ℤ

unfoldable pub zip_with : (ℤ → ℤ → ℤ) → List ℤ → List ℤ → List ℤ
zip_with f [] ys = []
zip_with f (x ∷ xs) [] = []
zip_with f (x ∷ xs) (y ∷ ys) = f x y ∷ zip_with f xs ys

-- `c << k` on a number that may be negative.
unfoldable pub shift_left : ℕ → ℤ → ℤ
shift_left k (pos n) = pos (n * 2 ^ k)
shift_left k (negsuc n) = negsuc (suc n * 2 ^ k - 1)

-- `SUB16`, stored in 16 bits.
unfoldable pub sub16 : ℤ → ℤ → ℤ
sub16 a b = word16 (word16 a -ℤ word16 b)

-- `x *= 2` in 16 bits.
unfoldable pub twice : ℤ → ℤ
twice x = word16 (x +ℤ x)

-- `PSHR16`: a shift right that rounds.
unfoldable pub pshr16 : ℕ → ℤ → ℤ
pshr16 k x = word16 (shift_right (x +ℤ pos (2 ^ k / 2)) k)

-- `LSP_LINEAR` of `i` and the numbers after it.
unfoldable pub linear : ℕ → ℕ → List ℤ
linear i zero = []
linear i (suc n) = pos ((i + 1) * 2048) ∷ linear (i + 1) n

-- `DIV32_16(81920, d)`; a division by zero has no result.
unfoldable pub divide_into : ℤ → Option ℤ
divide_into (pos zero) = none
divide_into (pos (suc d)) = some (word16 (quotient (pos 81920) (suc d)))
divide_into (negsuc d) = some (word16 (pos 0 -ℤ quotient (pos 81920) (suc d)))

abbrev pub weight_of : ℤ → Option ℤ
weight_of t = divide_into (add16 (pos 300) t)

-- The upper neighbour of a pair; that of the last is `LSP_PI`.
abbrev pub upper : List ℤ → ℤ
upper [] = pos 25736
upper (above ∷ rest) = above

-- A weight from the smaller of the distances to the neighbours.
unfoldable pub weights_from : ℤ → List ℤ → Option (List ℤ)
weights_from below [] = some []
weights_from below (q ∷ qs) = do
  let tmp1 = word16 (q -ℤ below)
  let tmp2 = word16 (upper qs -ℤ q)
  w ← weight_of (if ltb_ℤ tmp2 tmp1 then tmp2 else tmp1)
  ws ← weights_from q qs
  some (w ∷ ws)

unfoldable pub compute_quant_weights : List ℤ → Option (List ℤ)
compute_quant_weights qlsp = weights_from (pos 0) qlsp

-- An entry of a codebook.
abbrev pub entry : List ℤ → ℕ → ℕ → List ℤ
entry cdbk dim id = take dim (drop (id * dim) cdbk)

unfoldable pub distance_to : List ℤ → List ℤ → ℤ
distance_to [] row = pos 0
distance_to (x ∷ xs) [] = pos 0
distance_to (x ∷ xs) (c ∷ row) =
    let tmp = sub16 x (shift_left 5 c) in mult16_16 tmp tmp +ℤ distance_to xs row

-- `MULT16_32_Q15` on a square.
unfoldable pub mult16_32_q15 : ℤ → ℤ → ℤ
mult16_32_q15 a b =
    mult16_16 a (shift_right b 15) +ℤ shift_right (mult16_16 a (pos (pos_part b % 2 ^ 15))) 15

unfoldable pub weighted_distance : List ℤ → List ℤ → List ℤ → ℤ
weighted_distance [] ws row = pos 0
weighted_distance (x ∷ xs) [] row = pos 0
weighted_distance (x ∷ xs) (w ∷ ws) [] = pos 0
weighted_distance (x ∷ xs) (w ∷ ws) (c ∷ row) =
    let tmp = sub16 x (shift_left 5 c) in
    mult16_32_q15 w (mult16_16 tmp tmp) +ℤ weighted_distance xs ws row

-- The loop over the entries from `i` on, `n` of them, by their distance.
unfoldable pub nearest : (ℕ → ℤ) → ℕ → ℕ → ℤ → ℕ → ℕ
nearest dist i zero best_dist best_id = best_id
nearest dist i (suc n) best_dist best_id =
    let closer = ltb_ℤ (dist i) best_dist in
    nearest dist (i + 1) n (if closer then dist i else best_dist) (if closer then i else best_id)

-- What is left of `x` when an entry is taken away.
abbrev pub remainder : List ℤ → List ℤ → List ℤ
remainder x row = zip_with (λ a c. sub16 a (shift_left 5 c)) x row

-- The number of the entry, and `x` as it is changed.
unfoldable pub lsp_quant : List ℤ → List ℤ → ℕ → Option (ℕ × List ℤ)
lsp_quant x cdbk nb_vec =
    let id = nearest (λ i. distance_to x (entry cdbk (length x) i)) 0 nb_vec (pos 2147483647) 0 in
    if leb (nb_vec * length x) (length cdbk)
    then some (id, remainder x (entry cdbk (length x) id))
    else none

unfoldable pub lsp_weight_quant : List ℤ → List ℤ → List ℤ → ℕ → Option (ℕ × List ℤ)
lsp_weight_quant x weight cdbk nb_vec =
    let id =
      nearest (λ i. weighted_distance x weight (entry cdbk (length x) i)) 0 nb_vec (pos 2147483647)
        0 in
    if leb (nb_vec * length x) (length cdbk)
    then some (id, remainder x (entry cdbk (length x) id))
    else none

unfoldable pub lsp_quant_nb :
    Codebooks → Allocator → List ℤ → SpeexBits → Option (List ℤ × SpeexBits)
lsp_quant_nb t a lsp b = do
  weight ← compute_quant_weights lsp
  (id0, q) ← lsp_quant (zip_with sub16 lsp (linear 0 (length lsp))) t.cdbk_nb 64
  b0 ← pack a b id0 6
  (id1, low1) ← lsp_weight_quant (take 5 (map twice q)) (take 5 weight) t.cdbk_nb_low1 64
  b1 ← pack a b0 id1 6
  (id2, low2) ← lsp_weight_quant (map twice low1) (take 5 weight) t.cdbk_nb_low2 64
  b2 ← pack a b1 id2 6
  (id3, high1) ← lsp_weight_quant (drop 5 (map twice q)) (drop 5 weight) t.cdbk_nb_high1 64
  b3 ← pack a b2 id3 6
  (id4, high2) ← lsp_weight_quant (map twice high1) (drop 5 weight) t.cdbk_nb_high2 64
  b4 ← pack a b3 id4 6
  some (zip_with sub16 lsp (map (pshr16 2) (low2 ++ high2)), b4)

unfoldable pub lsp_quant_lbr :
    Codebooks → Allocator → List ℤ → SpeexBits → Option (List ℤ × SpeexBits)
lsp_quant_lbr t a lsp b = do
  weight ← compute_quant_weights lsp
  (id0, q) ← lsp_quant (zip_with sub16 lsp (linear 0 (length lsp))) t.cdbk_nb 64
  b0 ← pack a b id0 6
  (id1, low1) ← lsp_weight_quant (take 5 (map twice q)) (take 5 weight) t.cdbk_nb_low1 64
  b1 ← pack a b0 id1 6
  (id2, high1) ← lsp_weight_quant (drop 5 (map twice q)) (drop 5 weight) t.cdbk_nb_high1 64
  b2 ← pack a b1 id2 6
  some (zip_with sub16 lsp (map (pshr16 1) (low1 ++ high1)), b2)

-- Adding an entry, shifted left by `k`, to a part of the array.
abbrev pub raise : ℕ → List ℤ → List ℤ → List ℤ
raise k lsp row = zip_with (λ l c. word16 (l +ℤ shift_left k c)) lsp row

-- A codebook read at an entry that it may not have.
unfoldable pub entry_in : List ℤ → ℕ → ℕ → Option (List ℤ)
entry_in cdbk dim id = if leb (id * dim + dim) (length cdbk) then some (entry cdbk dim id) else none

unfoldable pub lsp_unquant_nb : Codebooks → ℕ → SpeexBits → Option (List ℤ × SpeexBits)
lsp_unquant_nb t order b = do
  (id0, b0) ← unpack_unsigned b 6
  row0 ← entry_in t.cdbk_nb 10 id0
  let lsp = raise 5 (linear 0 order) row0
  (id1, b1) ← unpack_unsigned b0 6
  row1 ← entry_in t.cdbk_nb_low1 5 id1
  let low = zip_with (λ l c. add16 l (shift_left 4 c)) (take 5 lsp) row1
  (id2, b2) ← unpack_unsigned b1 6
  row2 ← entry_in t.cdbk_nb_low2 5 id2
  (id3, b3) ← unpack_unsigned b2 6
  row3 ← entry_in t.cdbk_nb_high1 5 id3
  (id4, b4) ← unpack_unsigned b3 6
  row4 ← entry_in t.cdbk_nb_high2 5 id4
  some (raise 3 low row2 ++ raise 3 (raise 4 (drop 5 lsp) row3) row4, b4)

unfoldable pub lsp_unquant_lbr : Codebooks → ℕ → SpeexBits → Option (List ℤ × SpeexBits)
lsp_unquant_lbr t order b = do
  (id0, b0) ← unpack_unsigned b 6
  row0 ← entry_in t.cdbk_nb 10 id0
  let lsp = raise 5 (linear 0 order) row0
  (id1, b1) ← unpack_unsigned b0 6
  row1 ← entry_in t.cdbk_nb_low1 5 id1
  (id2, b2) ← unpack_unsigned b1 6
  row2 ← entry_in t.cdbk_nb_high1 5 id2
  some (raise 4 (take 5 lsp) row1 ++ raise 4 (drop 5 lsp) row2, b2)
