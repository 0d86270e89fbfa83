-- ===== src/Codec/Filters/Scaling.antt =====
-- The scaling of numbers to 16 bits.
use native.Mathlib.Nat.{div-lt_iff_lt-mul, div-div-eq-div-mul, pow-succ', one-le-pow}
use mathlib.Core.Option.{none-ne-some, some-injective}
use securecom_voice.Base.{
  ℕ, zero, suc, ◌+◌, ◌/◌, ◌^◌, ◌≤◌, ◌<◌, ◌≡◌, refl, sym, ap, ◌∙◌, subst, inl, inr, false, some,
  List, [], ◌∷◌, map, arith, get_elem?, ltb, Bool-cases, if◌then◌else◌,
}
use securecom_voice.Base.Int.{ℤ, pos, negsuc, pos_part, neg_part, ◌≤ℤ◌}
use securecom_voice.Codec.Rms.{word16, shift_right}
use securecom_voice.Codec.Lsp.Coefficient.{word16-id}
use securecom_voice.Codec.Filters.{largest, shifts_needed, normalize16}

abbrev larger : ℕ → ℤ → ℕ
larger m v = if ltb (pos_part v + neg_part v) m then m else pos_part v + neg_part v

largest-ge_start : (m : ℕ) (x : List ℤ) → m ≤ largest m x
unfolding largest
largest-ge_start m [] = omega arith
largest-ge_start m (v ∷ x) = elim (Bool-cases (ltb (pos_part v + neg_part v) m)) [
  | inl e ↦ rw e (largest-ge_start m x)
  | inr e ↦ rw e (ground (arith, e, largest-ge_start (pos_part v + neg_part v) x))
]

largest-ge :
    (m : ℕ) (x : List ℤ) (i : ℕ) (v : ℤ)
    → get_elem? x i ≡ some v
    → pos_part v + neg_part v ≤ largest m x
unfolding largest
largest-ge m [] i v e = absurd (none-ne-some v e)
largest-ge m (w ∷ x) zero v e =
    let start = largest-ge_start (larger m w) x in
    let same : v ≡ w = sym (some-injective w v e) in
    subst (λ u. pos_part u + neg_part u ≤ largest (larger m w) x) (sym same) (ground (arith, start))
largest-ge m (w ∷ x) (suc i) v e = largest-ge (larger m w) x i v e

div_mono : (a b k : ℕ) → 0 < k → a ≤ b → a / k ≤ b / k
div_mono a b k p h =
    let over = (div-lt_iff_lt-mul {x = b} {y = b / k + 1} p).0 (omega arith) in
    omega (arith, (div-lt_iff_lt-mul {x = a} {y = b / k + 1} p).1 (omega (arith, over)))

halved : (m k : ℕ) → m / 2 / 2 ^ k ≡ m / 2 ^ suc k
halved m k = div-div-eq-div-mul m 2 (2 ^ k) ∙ ap (λ d. m / d) (sym (pow-succ' 2 k))

-- One round more than the number has bits is enough, and no smaller shift would do.
shifts_needed_lem :
    (n m s : ℕ)
    → 0 < s
    → m < 2 ^ n
    → (k : ℕ) × ((shifts_needed (suc n) m s ≡ some k)
        × ((m / 2 ^ k ≤ s) × ((j : ℕ) → j < k → s < m / 2 ^ j)))
unfolding shifts_needed
shifts_needed_lem zero m s l h =
    let enough : ltb s m ≡ false = ground arith in
    (0, (rw enough refl, (omega arith, λ j p. absurd (omega (arith, p)))))
shifts_needed_lem (suc n) m s l h = elim (Bool-cases (ltb s m)) [
  | inl more ↦
      let double = pow-succ' 2 n in
      let (k, (e, (below, least))) = shifts_needed_lem n (m / 2) s l (omega (arith, double)) in
      (
        suc k,
        (
          rw (more, e) refl,
          (
            subst (λ q. q ≤ s) (halved m k) below,
            λ j p.
                elim j as (λ i. i < suc k → s < m / 2 ^ i) [
                  | zero ↦ λ q. ground (arith, more)
                  | suc i ↦ λ q. subst (λ d. s < d) (halved m i) (least i (omega (arith, q)))
                ]
                  p,
          ),
        ),
      )
  | inr enough ↦ (0, (rw enough refl, (ground (arith, enough), λ j p. absurd (omega (arith, p)))))
]

-- A number not above `m` in size, shifted as `m` has to be, is within the scale; one below zero is
-- rounded down.
shift_right-within :
    (v : ℤ) (m k s : ℕ)
    → pos_part v + neg_part v ≤ m
    → m / 2 ^ k ≤ s
    → (negsuc s ≤ℤ shift_right v k) × (shift_right v k ≤ℤ pos s)
unfolding shift_right
shift_right-within (pos n) m k s h l =
    let kept = div_mono n m (2 ^ k) (one-le-pow k 2 (omega arith)) (omega arith) in
    (omega (arith, kept), omega (arith, kept))
shift_right-within (negsuc n) m k s h l =
    let kept = div_mono n m (2 ^ k) (one-le-pow k 2 (omega arith)) (omega arith) in
    (omega (arith, kept), omega (arith, kept))

get_elem?-map :
    (f : ℤ → ℤ) (x : List ℤ) (i : ℕ) (v : ℤ)
    → get_elem? x i ≡ some v
    → get_elem? (map f x) i ≡ some (f v)
get_elem?-map f [] i v e = absurd (none-ne-some v e)
get_elem?-map f (w ∷ x) zero v e = ap some (ap f (some-injective w v e))
get_elem?-map f (w ∷ x) (suc i) v e = get_elem?-map f x i v e

-- Numbers above the least int, scaled to a positive 16-bit scale: normalize16 returns, in thirty-two
-- rounds at most. It shifts every number by the same amount, without a loss to 16 bits; the results
-- are not above the scale and at most one below its negative, and no smaller shift would bring the
-- largest within the scale.
pub normalize16_lem :
    (x : List ℤ) (max_scale : ℕ)
    → 0 < max_scale
    → max_scale < 2 ^ 15
    → largest 1 x < 2 ^ 31
    → (y : List ℤ) × (k : ℕ) × ((normalize16 32 x max_scale ≡ some (y, k))
        × (((i : ℕ) (v : ℤ)
              → get_elem? x i ≡ some v
              → (get_elem? y i ≡ some (shift_right v k))
                × ((negsuc max_scale ≤ℤ shift_right v k) × (shift_right v k ≤ℤ pos max_scale)))
            × ((j : ℕ) → j < k → max_scale < largest 1 x / 2 ^ j)))
unfolding normalize16
normalize16_lem x max_scale l u h =
    let (k, (e, (below, least))) = shifts_needed_lem 31 (largest 1 x) max_scale l h in
    let scaled : ℤ → ℤ = λ v. word16 (shift_right v k) in
    let each : (i : ℕ) (v : ℤ)
        → get_elem? x i ≡ some v
        → (get_elem? (map scaled x) i ≡ some (shift_right v k))
          × ((negsuc max_scale ≤ℤ shift_right v k) × (shift_right v k ≤ℤ pos max_scale)) =
      λ i v there.
        let within =
          shift_right-within v (largest 1 x) k max_scale (largest-ge 1 x i v there) below in
        (
          get_elem?-map scaled x i v there
              ∙ ap some
                  (word16-id (shift_right v k) (omega (arith, within.0), omega (arith, within.1))),
          within,
        ) in
    (map scaled x, k, (rw e refl, (each, least)))
