-- ===== src/Codec/Vq/Order.antt =====
-- The order of the entries by distance, and insertion into a sorted list.
use securecom_voice.Base.{
  suc, ◌≡◌, refl, ap, inl, inr, true, false, List, [], ◌∷◌, ◌++◌, arith, length, Bool-cases,
}
use securecom_voice.Base.Int.{ltb_ℤ, ◌≤ℤ◌}
use securecom_voice.Codec.Vq.{Candidate}
use securecom_voice.Codec.Vq.Place.{insert}

-- `c` is no nearer than any of them.
abbrev pub NoNearer : Candidate → List Candidate → Type 0
NoNearer c [] = Unit {0}
NoNearer c (y ∷ ys) = (y.distance ≤ℤ c.distance) × NoNearer c ys

-- `c` is no farther than any of them.
abbrev pub IsLeast : Candidate → List Candidate → Type 0
IsLeast c [] = Unit {0}
IsLeast c (y ∷ ys) = (c.distance ≤ℤ y.distance) × IsLeast c ys

-- In order of distance.
abbrev pub IsSorted : List Candidate → Type 0
IsSorted [] = Unit {0}
IsSorted (y ∷ ys) = IsLeast y ys × IsSorted ys

pub insert-append_past :
    (c : Candidate) (xs ys : List Candidate)
    → NoNearer c xs
    → insert c (xs ++ ys) ≡ xs ++ insert c ys
unfolding insert
insert-append_past c [] ys h = refl
insert-append_past c (x ∷ xs) ys (h, hs) =
    let later : ltb_ℤ c.distance x.distance ≡ false = ground arith in
    rw later (ap (λ zs. x ∷ zs) (insert-append_past c xs ys hs))

pub insert-at_end :
    (c : Candidate) (xs : List Candidate) → NoNearer c xs → insert c xs ≡ xs ++ c ∷ []
unfolding insert
insert-at_end c [] h = refl
insert-at_end c (x ∷ xs) (h, hs) =
    let later : ltb_ℤ c.distance x.distance ≡ false = ground arith in
    rw later (ap (λ zs. x ∷ zs) (insert-at_end c xs hs))

pub insert-append_before :
    (c y : Candidate) (xs ys : List Candidate)
    → ltb_ℤ c.distance y.distance ≡ true
    → insert c (xs ++ y ∷ ys) ≡ insert c xs ++ y ∷ ys
unfolding insert
insert-append_before c y [] ys h = rw h refl
insert-append_before c y (x ∷ xs) ys h = elim (Bool-cases (ltb_ℤ c.distance x.distance)) [
  | inl e ↦ rw e refl
  | inr e ↦ rw e (ap (λ zs. x ∷ zs) (insert-append_before c y xs ys h))
]

pub length-insert : (c : Candidate) (xs : List Candidate) → length (insert c xs) ≡ suc (length xs)
unfolding insert
length-insert c [] = refl
length-insert c (x ∷ xs) = elim (Bool-cases (ltb_ℤ c.distance x.distance)) [
  | inl e ↦ rw e refl
  | inr e ↦ rw e (ap suc (length-insert c xs))
]

pub IsLeast-append :
    (c : Candidate) (xs ys : List Candidate) → IsLeast c (xs ++ ys) → IsLeast c xs × IsLeast c ys
IsLeast-append c [] ys h = (tt, h)
IsLeast-append c (x ∷ xs) ys (h, hs) = let (a, b) = IsLeast-append c xs ys hs in ((h, a), b)

pub IsSorted-append : (xs ys : List Candidate) → IsSorted (xs ++ ys) → IsSorted xs × IsSorted ys
IsSorted-append [] ys h = (tt, h)
IsSorted-append (x ∷ xs) ys (h, hs) =
    let (a, b) = IsSorted-append xs ys hs in (((IsLeast-append x xs ys h).0, a), b)

-- No nearer than the last of a sorted list, no nearer than any.
pub NoNearer-last :
    (c y : Candidate) (xs : List Candidate)
    → IsSorted (xs ++ y ∷ [])
    → ltb_ℤ c.distance y.distance ≡ false
    → NoNearer c (xs ++ y ∷ [])
NoNearer-last c y [] h e = (ground arith, tt)
NoNearer-last c y (x ∷ xs) (h, hs) e =
    let last : x.distance ≤ℤ y.distance = (IsLeast-append x xs (y ∷ []) h).1.0 in
    (ground arith, NoNearer-last c y xs hs e)

pub insert-IsLeast :
    (c d : Candidate) (xs : List Candidate)
    → d.distance ≤ℤ c.distance
    → IsLeast d xs
    → IsLeast d (insert c xs)
unfolding insert
insert-IsLeast c d [] h hs = (h, tt)
insert-IsLeast c d (x ∷ xs) h (g, hs) = elim (Bool-cases (ltb_ℤ c.distance x.distance)) [
  | inl e ↦ rw e (h, (g, hs))
  | inr e ↦ rw e (g, insert-IsLeast c d xs h hs)
]

pub IsLeast-further :
    (c d : Candidate) (xs : List Candidate) → c.distance ≤ℤ d.distance → IsLeast d xs → IsLeast c xs
IsLeast-further c d [] h hs = tt
IsLeast-further c d (x ∷ xs) h (g, hs) = (omega arith, IsLeast-further c d xs h hs)

pub insert-IsSorted : (c : Candidate) (xs : List Candidate) → IsSorted xs → IsSorted (insert c xs)
unfolding insert
insert-IsSorted c [] h = (tt, tt)
insert-IsSorted c (x ∷ xs) (h, hs) = elim (Bool-cases (ltb_ℤ c.distance x.distance)) [
  | inl e ↦ rw e ((ground arith, IsLeast-further c x xs (ground arith) h), (h, hs))
  | inr e ↦ rw e (insert-IsLeast c x xs (ground arith) h, insert-IsSorted c xs hs)
]
