-- ===== src/Codec/Vq/Scalar.antt =====
-- `scal_quant`: the cell of a number between boundaries.
use securecom_voice.Base.{
  ℕ, zero, suc, ◌+◌, ◌-◌, ◌≤◌, ◌≡◌, refl, ap, ◌∙◌, ◌⊎◌, inl, inr, true, false, some, List, [], ◌∷◌,
  arith, length, get_elem?, take, Bool-cases,
}
use securecom_voice.Base.Int.{ℤ, ltb_ℤ}
use securecom_voice.Codec.Vq.{pass_boundaries, scal_quant}

-- All are below `x`.
abbrev pub Below : ℤ → List ℤ → Type 0
Below x [] = Unit {0}
Below x (b ∷ bs) = (ltb_ℤ b x ≡ true) × Below x bs

-- `k` boundaries of at most `left` are passed: those below `x` that no other precedes.
abbrev pub Passes : ℤ → List ℤ → ℕ → ℕ → Type 0
Passes x boundary left k =
    (k ≤ left)
    × Below x (take k boundary)
    × ((k ≡ left) ⊎ ((b : ℤ) × (get_elem? boundary k ≡ some b) × (ltb_ℤ b x ≡ false)))

further :
    (x b : ℤ) (boundary : List ℤ) (left k : ℕ)
    → (k ≡ left) ⊎ ((c : ℤ) × (get_elem? boundary k ≡ some c) × (ltb_ℤ c x ≡ false))
    → (suc k ≡ suc left)
      ⊎ ((c : ℤ) × (get_elem? (b ∷ boundary) (suc k) ≡ some c) × (ltb_ℤ c x ≡ false))
further x b boundary left k (inl e) = inl (ap suc e)
further x b boundary left k (inr stop) = inr stop

pass_boundaries_lem :
    (x : ℤ) (boundary : List ℤ) (left i : ℕ)
    → left ≤ length boundary
    → (k : ℕ) × (pass_boundaries x boundary left i ≡ some (i + k)) × Passes x boundary left k
unfolding pass_boundaries
pass_boundaries_lem x boundary zero i h = (0, ap some (omega arith), (omega arith, tt, inl refl))
pass_boundaries_lem x [] (suc left) i h = absurd (omega arith)
pass_boundaries_lem x (b ∷ boundary) (suc left) i h = elim (Bool-cases (ltb_ℤ b x)) [
  | inl below ↦
      let (k, e, (le, all, stop)) = pass_boundaries_lem x boundary left (i + 1) (omega arith) in
      (
        suc k,
        rw below (e ∙ ap some (omega arith)),
        (omega arith, (below, all), further x b boundary left k stop),
      )
  | inr above ↦ (0, rw above (ap some (omega arith)), (omega arith, tt, inr (b, refl, above)))
]

-- The cell of `x` is the number of boundaries it passes before the first that is not below it, or
-- before the last of the `entries` cells; with enough boundaries the search stays in the array.
pub scal_quant_lem :
    (x : ℤ) (boundary : List ℤ) (entries : ℕ)
    → entries ≤ suc (length boundary)
    → (k : ℕ) × (scal_quant x boundary entries ≡ some k) × Passes x boundary (entries - 1) k
unfolding scal_quant
scal_quant_lem x boundary entries h =
    let (k, e, p) = pass_boundaries_lem x boundary (entries - 1) 0 (omega arith) in
    (k, e ∙ ap some (omega arith), p)
