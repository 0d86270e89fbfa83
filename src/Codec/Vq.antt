-- ===== src/Codec/Vq.antt =====
-- jni/vq.c, in fixed point: the quantizers that the codec shares. An array of the results, `nbest`
-- beside `best_dist`, is one list, and `N` is its length. The codebook is a list that the loop goes
-- along. Sums are integers without a bound; a result `none` is an access outside an array.
pub mod Place
pub mod Order
pub mod Offer
pub mod Nearest
pub mod Scalar
mod Tests
use securecom_voice.Base.{
  ℕ, zero, suc, ◌+◌, ◌-◌, Bool, true, false, ◌||◌, Option, none, some, List, [], ◌∷◌, length,
  get_or, set, drop, ltb, if◌then◌else◌, ◌>>=◌,
}
use securecom_voice.Base.Int.{ℤ, pos, ◌+ℤ◌, ◌-ℤ◌, ltb_ℤ}
use securecom_voice.Codec.Rms.{shift_right, mult16_16}

-- The loop of `scal_quant` and `scal_quant32`: `left` boundaries may still be passed.
unfoldable pub pass_boundaries : ℤ → List ℤ → (left i : ℕ) → Option ℕ
pass_boundaries x boundary zero i = some i
pass_boundaries x [] (suc left) i = none
pass_boundaries x (b ∷ boundary) (suc left) i =
    let rest = pass_boundaries x boundary left (i + 1) in if ltb_ℤ b x then rest else some i

unfoldable pub scal_quant : ℤ → List ℤ → ℕ → Option ℕ
scal_quant x boundary entries = pass_boundaries x boundary (entries - 1) 0

-- An entry of the codebook with its distance.
pub record Candidate : Type 0 where
  pub distance : ℤ
  pub index : ℕ

-- The loop over `k`, and what is written behind it.
unfoldable pub place : (k used : ℕ) → Candidate → List Candidate → List Candidate
place zero used c best = set best 0 c
place (suc k) used c best =
    let moved = place k used c (set best (suc k) (get_or best k c)) in
    if ltb used (suc k) || ltb_ℤ c.distance (get_or best k c).distance
    then moved
    else set best (suc k) c

-- The test of entry `i`; the arrays and `used`. With no arrays the entry before them is read.
unfoldable pub offer : ℕ → Candidate → ℕ × List Candidate → Option (ℕ × List Candidate)
offer i c (used, []) = none
offer i c (used, b ∷ best) =
    let n = length best in
    if ltb i (suc n) || ltb_ℤ c.distance (get_or (b ∷ best) n c).distance
    then some (used + 1, place n used c (b ∷ best))
    else some (used, b ∷ best)

-- The product of the vector with the entry at the start of the codebook.
unfoldable pub product : ℤ → List ℤ → List ℤ → Option ℤ
product dist [] codebook = some dist
product dist (x ∷ xs) [] = none
product dist (x ∷ xs) (w ∷ codebook) = product (dist +ℤ mult16_16 x w) xs codebook

-- The distances of the entries: `judge` is what is made of the product and of half the energy.
unfoldable pub candidates :
    (ℕ → ℤ → ℤ → Candidate) → List ℤ → (i left : ℕ) → List ℤ → List ℤ → Option (List Candidate)
candidates judge input i zero codebook energy = some []
candidates judge input i (suc left) codebook [] = none
candidates judge input i (suc left) codebook (e ∷ energy) = do
  dist ← product (pos 0) input codebook
  rest ← candidates judge input (i + 1) left (drop (length input) codebook) energy
  some (judge i dist (shift_right e 1) ∷ rest)

unfoldable pub offer_all : ℕ → List Candidate → ℕ × List Candidate → Option (ℕ × List Candidate)
offer_all i [] arrays = some arrays
offer_all i (c ∷ cs) arrays = do arrays' ← offer i c arrays; offer_all (i + 1) cs arrays'

abbrev pub plain : ℕ → ℤ → ℤ → Candidate
plain i dist half_energy = record { distance = half_energy -ℤ dist; index = i }

-- The sign that makes the product positive is the entry's; one with the other sign has the number of
-- entries added to its index.
abbrev pub signed : ℕ → ℕ → ℤ → ℤ → Candidate
signed entries i dist half_energy =
    if ltb_ℤ (pos 0) dist
    then record { distance = pos 0 -ℤ dist +ℤ half_energy; index = i }
    else record { distance = dist +ℤ half_energy; index = i + entries }

-- The results in the arrays; `best` is what they held.
unfoldable pub vq_nbest : List ℤ → List ℤ → ℕ → List ℤ → List Candidate → Option (List Candidate)
vq_nbest input codebook entries energy best = do
  cs ← candidates plain input 0 entries codebook energy
  (_, best') ← offer_all 0 cs (0, best)
  some best'

unfoldable pub vq_nbest_sign :
    List ℤ → List ℤ → ℕ → List ℤ → List Candidate → Option (List Candidate)
vq_nbest_sign input codebook entries energy best = do
  cs ← candidates (signed entries) input 0 entries codebook energy
  (_, best') ← offer_all 0 cs (0, best)
  some best'
