-- ===== src/Codec/Vq/Offer.antt =====
-- An entry offered to the arrays is inserted in order.
use securecom_voice.Base.{
  ℕ, suc, ◌+◌, ◌≤◌, ◌<◌, ◌≡◌, refl, sym, ap, ap₂, subst, ◌∙◌, ◌⊎◌, inl, inr, true, false, ◌||◌,
  some, List, [], ◌∷◌, ◌++◌, arith, length, length-append, get_or, ltb, lt→ltb, if◌then◌else◌,
  Bool-cases,
}
use mathlib.Core.List.{append_assoc, append-nil}
use securecom_voice.Base.Int.{ltb_ℤ}
use securecom_voice.Codec.Vq.{Candidate, place, offer}
use securecom_voice.Codec.Vq.Place.{
  rev_onto, length-rev_onto, rev_onto-rev_onto, rev_onto-append, from_right, place-rev_onto, insert,
}
use securecom_voice.Codec.Vq.Order.{
  IsSorted, insert-append_past, insert-at_end, insert-append_before, length-insert, IsSorted-append,
  NoNearer-last,
}

-- Places that hold nothing yet are moved through.
pub from_right-unused :
    (used : ℕ) (c : Candidate) (free kept post : List Candidate)
    → used ≤ length kept
    → rev_onto (from_right used c (rev_onto free kept)) post
      ≡ rev_onto (from_right used c kept) (free ++ post)
unfolding rev_onto from_right
from_right-unused used c [] kept post h = refl
from_right-unused used c (x ∷ free) kept post h =
    let moves : ltb used (suc (length kept)) ≡ true = ground arith in
    from_right-unused used c free (x ∷ kept) post (omega arith) ∙ rw moves refl

pub through :
    (used : ℕ) (c : Candidate) (kept free : List Candidate)
    → (free ≡ []) ⊎ (used ≤ length kept)
    → rev_onto (from_right used c (rev_onto free (rev_onto kept []))) []
      ≡ rev_onto (from_right used c (rev_onto kept [])) (free ++ [])
unfolding rev_onto
through used c kept free (inl e) =
    subst
      (λ xs.
        rev_onto (from_right used c (rev_onto xs (rev_onto kept []))) []
        ≡ rev_onto (from_right used c (rev_onto kept [])) (xs ++ []))
      (sym e) refl
through used c kept free (inr h) =
    from_right-unused used c free (rev_onto kept []) [] (omega (arith, length-rev_onto kept []))

-- Among the places in use an entry goes where insertion has it.
pub from_right-insert :
    (used : ℕ) (c : Candidate) (ys post : List Candidate)
    → length ys ≤ used
    → IsSorted (rev_onto ys [])
    → rev_onto (from_right used c ys) post ≡ insert c (rev_onto ys []) ++ post
unfolding rev_onto from_right
from_right-insert used c [] post h s = unfold insert in refl
from_right-insert used c (y ∷ ys) post h s =
    let split : rev_onto ys (y ∷ []) ≡ rev_onto ys [] ++ y ∷ [] = rev_onto-append ys [] (y ∷ []) in
    let s' : IsSorted (rev_onto ys [] ++ y ∷ []) = subst IsSorted split s in
    let in_use : ltb used (suc (length ys)) ≡ false = ground arith in
    elim (Bool-cases (ltb_ℤ c.distance y.distance)) [
      | inl on ↦
          rw (in_use, on)
            (from_right-insert used c ys (y ∷ post) (omega arith)
                (IsSorted-append (rev_onto ys []) (y ∷ []) s').0
              ∙ sym (append_assoc (insert c (rev_onto ys [])) (y ∷ []) post)
              ∙ ap (λ zs. zs ++ post) (sym (insert-append_before c y (rev_onto ys []) [] on))
              ∙ ap (λ zs. insert c zs ++ post) (sym split))
      | inr off ↦
          let past =
            insert-at_end c (rev_onto ys [] ++ y ∷ [])
              (NoNearer-last c y (rev_onto ys []) s' off) in
          rw (in_use, off)
            (rev_onto-append ys [] (y ∷ c ∷ post)
              ∙ sym (append_assoc (rev_onto ys []) (y ∷ []) (c ∷ post))
              ∙ sym (append_assoc (rev_onto ys [] ++ y ∷ []) (c ∷ []) post)
              ∙ ap (λ zs. zs ++ post) (sym past)
              ∙ ap (λ zs. insert c zs ++ post) (sym split))
    ]

-- A list that is not empty, with its last entry apart.
pub with_last :
    (x : Candidate) (xs : List Candidate)
    → (ys : List Candidate) × (z : Candidate) × (x ∷ xs ≡ ys ++ z ∷ [])
with_last x [] = ([], x, refl)
with_last x (y ∷ xs) = let (ys, z, e) = with_last y xs in (x ∷ ys, z, ap (λ zs. x ∷ zs) e)

pub get_or-last : (q : List Candidate) (z d : Candidate) → get_or (q ++ z ∷ []) (length q) d ≡ z
get_or-last [] z d = refl
get_or-last (x ∷ q) z d = get_or-last q z d

pub length-with_last : (q : List Candidate) (z : Candidate) → length (q ++ z ∷ []) ≡ suc (length q)
length-with_last q z = omega (arith, length-append q (z ∷ []))

-- The test against the last of the arrays.
pub offer-with_last :
    (i used : ℕ) (c z : Candidate) (q : List Candidate)
    → offer i c (used, q ++ z ∷ [])
      ≡ some (
          if ltb i (suc (length q)) || ltb_ℤ c.distance z.distance
          then (used + 1, place (length q) used c (q ++ z ∷ []))
          else (used, q ++ z ∷ []))
unfolding offer
offer-with_last i used c z [] = elim (Bool-cases (ltb i 1 || ltb_ℤ c.distance z.distance)) [
  | inl e ↦ rw e refl
  | inr e ↦ rw e refl
]
offer-with_last i used c z (x ∷ q) =
    let n = length-with_last q z in
    elim (Bool-cases (ltb i (suc (suc (length q))) || ltb_ℤ c.distance z.distance)) [
      | inl e ↦ rw (n, get_or-last q z c, e) refl
      | inr e ↦ rw (n, get_or-last q z c, e) refl
    ]

-- `place` from the last of the arrays, of which `kept` is in use and `free` is moved through.
pub place-insert :
    (used : ℕ) (c z : Candidate) (kept free : List Candidate)
    → IsSorted kept
    → length kept ≤ used
    → (free ≡ []) ⊎ (used ≤ length kept)
    → place (length (kept ++ free)) used c ((kept ++ free) ++ z ∷ []) ≡ insert c kept ++ free
unfolding rev_onto
place-insert used c z kept free s h u =
    let front : List Candidate = rev_onto kept [] in
    let back : List Candidate = rev_onto free front in
    let again : rev_onto front [] ≡ kept = rev_onto-rev_onto kept [] [] ∙ append-nil kept in
    let whole : rev_onto back (z ∷ []) ≡ (kept ++ free) ++ z ∷ [] =
      rev_onto-rev_onto free (z ∷ []) front
      ∙ rev_onto-rev_onto kept (free ++ z ∷ []) []
      ∙ sym (append_assoc kept free (z ∷ [])) in
    let as_long : length (kept ++ free) ≡ length back =
      omega (arith, length-append kept free, length-rev_onto free front, length-rev_onto kept []) in
    ap₂ (λ n xs. place n used c xs) as_long (sym whole)
    ∙ place-rev_onto used c back z []
    ∙ through used c kept free u
    ∙ from_right-insert used c front (free ++ []) (omega (arith, length-rev_onto kept []))
        (subst IsSorted (sym again) s)
    ∙ ap₂ (λ xs ys. insert c xs ++ ys) again (append-nil free)

-- How far the entries offered so far stand in the arrays: all of them in order at the start, or the
-- first of them, where the arrays are full.
abbrev pub Keeps : List Candidate → ℕ → List Candidate → Type 0
Keeps sorted used best =
    ((free : List Candidate) × (best ≡ sorted ++ free) × (used ≡ length sorted))
    ⊎ ((far : List Candidate) × (sorted ≡ best ++ far) × (length best ≤ used))

-- What an offer makes of the arrays.
abbrev pub Takes : ℕ → Candidate → List Candidate → ℕ → List Candidate → Type 0
Takes i c sorted used best =
    (used' : ℕ) × (best' : List Candidate) × (offer i c (used, best) ≡ some (used', best'))
    × (length best' ≡ length best)
    × Keeps (insert c sorted) used' best'

pub offer-free :
    (i used : ℕ) (c z : Candidate) (sorted free : List Candidate)
    → IsSorted sorted
    → i ≡ length sorted
    → used ≡ length sorted
    → Takes i c sorted used ((sorted ++ free) ++ z ∷ [])
offer-free i used c z sorted free s e u =
    let room : ltb i (suc (length (sorted ++ free))) ≡ true =
      lt→ltb _ _ (omega (arith, length-append sorted free)) in
    (
      used + 1,
      insert c sorted ++ free,
      offer-with_last i used c z (sorted ++ free)
          ∙ ap some (
              rw room (
                ap (λ xs. (used + 1, xs))
                  (place-insert used c z sorted free s (omega arith) (inr (omega arith))))),
      omega (
        arith,
        length-append (insert c sorted) free,
        length-append sorted free,
        length-insert c sorted,
        length-with_last (sorted ++ free) z,
      ),
      inl (free, refl, omega (arith, length-insert c sorted)),
    )

pub offer-full :
    (i used : ℕ) (c z : Candidate) (q far : List Candidate)
    → IsSorted ((q ++ z ∷ []) ++ far)
    → suc (length q) ≤ i
    → suc (length q) ≤ used
    → Takes i c ((q ++ z ∷ []) ++ far) used (q ++ z ∷ [])
offer-full i used c z q far s e u =
    let no_room : ltb i (suc (length q)) ≡ false = ground arith in
    let (kept, rest) = IsSorted-append (q ++ z ∷ []) far s in
    elim (Bool-cases (ltb_ℤ c.distance z.distance)) [
      | inl nearer ↦ (
        used + 1,
        insert c q,
        offer-with_last i used c z q
            ∙ ap some (
                rw (no_room, nearer)
                  (ap (λ xs. (used + 1, xs))
                    (ap (λ xs. place (length xs) used c (xs ++ z ∷ [])) (sym (append-nil q))
                      ∙ place-insert used c z q [] (IsSorted-append q (z ∷ []) kept).0 (omega arith)
                          (inl refl)
                      ∙ append-nil (insert c q)))),
        omega (arith, length-insert c q, length-with_last q z),
        inr (
          z ∷ far,
          ap (insert c) (append_assoc q (z ∷ []) far) ∙ insert-append_before c z q far nearer,
          omega (arith, length-insert c q),
        ),
      )
      | inr farther ↦ (
        used,
        q ++ z ∷ [],
        offer-with_last i used c z q ∙ rw (no_room, farther) refl,
        refl,
        inr (
          insert c far,
          insert-append_past c (q ++ z ∷ []) far (NoNearer-last c z q kept farther),
          omega (arith, length-with_last q z),
        ),
      )
    ]

pub full_arrays :
    (i used : ℕ) (c b : Candidate) (sorted best far : List Candidate)
    → IsSorted sorted
    → i ≡ length sorted
    → sorted ≡ (b ∷ best) ++ far
    → length (b ∷ best) ≤ used
    → Takes i c sorted used (b ∷ best)
full_arrays i used c b sorted best far s e first u =
    let (q, z, split) = with_last b best in
    let same : sorted ≡ (q ++ z ∷ []) ++ far = first ∙ ap (λ xs. xs ++ far) split in
    let long = ap length same ∙ length-append (q ++ z ∷ []) far in
    let n = length-with_last q z in
    let m = ap length split in
    subst (λ xs. Takes i c xs used (b ∷ best)) (sym same)
      (subst (Takes i c ((q ++ z ∷ []) ++ far) used) (sym split) (
        offer-full i used c z q far (subst IsSorted same s) (omega (arith, e, long, n))
          (omega (arith, u, m, n))))

pub offer-Takes :
    (i used : ℕ) (c : Candidate) (sorted best : List Candidate)
    → IsSorted sorted
    → i ≡ length sorted
    → 0 < length best
    → Keeps sorted used best
    → Takes i c sorted used best
offer-Takes i used c sorted [] s e h k = absurd (omega arith)
offer-Takes i used c sorted (b ∷ best) s e h (inl ([], all, u)) =
    full_arrays i used c b sorted best [] s e
      (sym (append-nil sorted) ∙ sym all ∙ sym (append-nil (b ∷ best)))
      (omega (arith, ap length all, length-append sorted [], u))
offer-Takes i used c sorted (b ∷ best) s e h (inl (x ∷ free, all, u)) =
    let (free', z, split) = with_last x free in
    let same : b ∷ best ≡ (sorted ++ free') ++ z ∷ [] =
      all ∙ ap (λ xs. sorted ++ xs) split ∙ sym (append_assoc sorted free' (z ∷ [])) in
    subst (Takes i c sorted used) (sym same) (offer-free i used c z sorted free' s e u)
offer-Takes i used c sorted (b ∷ best) s e h (inr (far, first, u)) =
    full_arrays i used c b sorted best far s e first u
