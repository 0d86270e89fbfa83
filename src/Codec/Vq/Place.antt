-- ===== src/Codec/Vq/Place.antt =====
-- Where `place` puts an entry: moving up from the right is insertion in order.
use securecom_voice.Base.{
  ℕ, suc, ◌+◌, ◌≡◌, refl, ap, inl, inr, ◌||◌, List, [], ◌∷◌, ◌++◌, arith, length, get_or, set, ltb,
  if◌then◌else◌, Bool-cases,
}
use securecom_voice.Base.Int.{ltb_ℤ}
use securecom_voice.Codec.Vq.{Candidate, place}

-- A list backwards in front of another.
unfoldable pub rev_onto {ℓ} : {A : Type ℓ} → List A → List A → List A
rev_onto [] ys = ys
rev_onto (x ∷ xs) ys = rev_onto xs (x ∷ ys)

module _ {A : Type 0} where
  pub length-rev_onto : (xs ys : List A) → length (rev_onto xs ys) ≡ length xs + length ys
  unfolding rev_onto
  length-rev_onto [] ys = omega arith
  length-rev_onto (x ∷ xs) ys = omega (arith, length-rev_onto xs (x ∷ ys))

  pub rev_onto-rev_onto :
      (xs ys zs : List A) → rev_onto (rev_onto xs zs) ys ≡ rev_onto zs (xs ++ ys)
  unfolding rev_onto
  rev_onto-rev_onto [] ys zs = refl
  rev_onto-rev_onto (x ∷ xs) ys zs = rev_onto-rev_onto xs ys (x ∷ zs)

  pub rev_onto-append : (xs ys zs : List A) → rev_onto xs (ys ++ zs) ≡ rev_onto xs ys ++ zs
  unfolding rev_onto
  rev_onto-append [] ys zs = refl
  rev_onto-append (x ∷ xs) ys zs = rev_onto-append xs (x ∷ ys) zs

  get_or-rev_onto :
      (xs ys : List A) (j k : ℕ) (d : A)
      → k ≡ length xs + j
      → get_or (rev_onto xs ys) k d ≡ get_or ys j d
  unfolding rev_onto
  get_or-rev_onto [] ys j k d e = ap (λ i. get_or ys i d) (omega arith)
  get_or-rev_onto (x ∷ xs) ys j k d e = get_or-rev_onto xs (x ∷ ys) (suc j) k d (omega arith)

  set-rev_onto :
      (xs ys : List A) (j k : ℕ) (v : A)
      → k ≡ length xs + j
      → set (rev_onto xs ys) k v ≡ rev_onto xs (set ys j v)
  unfolding rev_onto
  set-rev_onto [] ys j k v e = ap (λ i. set ys i v) (omega arith)
  set-rev_onto (x ∷ xs) ys j k v e = set-rev_onto xs (x ∷ ys) (suc j) k v (omega arith)

-- What `place` does, on the entries before `k` from the last to the first.
unfoldable pub from_right : ℕ → Candidate → List Candidate → List Candidate
from_right used c [] = c ∷ []
from_right used c (y ∷ ys) =
    if ltb used (suc (length ys)) || ltb_ℤ c.distance y.distance
    then y ∷ from_right used c ys
    else c ∷ y ∷ ys

pub place-rev_onto :
    (used : ℕ) (c : Candidate) (ys : List Candidate) (z : Candidate) (post : List Candidate)
    → place (length ys) used c (rev_onto ys (z ∷ post)) ≡ rev_onto (from_right used c ys) post
unfolding place from_right rev_onto
place-rev_onto used c [] z post = refl
place-rev_onto used c (y ∷ ys) z post =
    let there : get_or (rev_onto ys (y ∷ z ∷ post)) (length ys) c ≡ y =
      get_or-rev_onto ys (y ∷ z ∷ post) 0 (length ys) c (omega arith) in
    let put =
      λ (v : Candidate). set-rev_onto ys (y ∷ z ∷ post) 1 (suc (length ys)) v (omega arith) in
    elim (Bool-cases (ltb used (suc (length ys)) || ltb_ℤ c.distance y.distance)) [
      | inl on ↦ rw (there, on, put y) (place-rev_onto used c ys y (y ∷ post))
      | inr off ↦ rw (there, off, put c) refl
    ]

-- Behind the entries that are no farther.
unfoldable pub insert : Candidate → List Candidate → List Candidate
insert c [] = c ∷ []
insert c (y ∷ ys) = if ltb_ℤ c.distance y.distance then c ∷ y ∷ ys else y ∷ insert c ys
