-- ===== src/Playout/Queue.antt =====
-- The order of the queue: what `put` keeps of it, and where it does not.
use securecom_voice.Base.{
  ◌+◌, ◌≡◌, ◌↔◌, inl, inr, refl, true, some, List, [], ◌∷◌, ◌++◌, arith, length, Bool-cases,
  Option-cases,
}
use mathlib.Core.List.{Perm}
use mathlib.Core.List.Perm
use securecom_voice.Base.Int.{◌≤ℤ◌, ltb_ℤ, leb_ℤ}
use securecom_voice.Playout.{Frame, split_first, place, enqueue}

-- From the last frame back, no stamp is above the one before it.
abbrev pub IsSorted : List Frame → Type 0
IsSorted [] = Unit
IsSorted (f ∷ []) = Unit
IsSorted (f ∷ g ∷ r) = (g.sender_stamp ≤ℤ f.sender_stamp) × IsSorted (g ∷ r)

-- The new frame belongs strictly between the two frames that are first in the queue.
abbrev pub IsSecond : Frame → List Frame → Type 0
IsSecond f [] = ⊥
IsSecond f (p ∷ []) = ⊥
IsSecond f (p ∷ q ∷ []) =
    ¬ (f.sender_stamp ≤ℤ q.sender_stamp) × ¬ (p.sender_stamp ≤ℤ f.sender_stamp)
IsSecond f (p ∷ q ∷ q' ∷ r) = IsSecond f (q ∷ q' ∷ r)

before :
    (f p : Frame)
    → ¬ (p.sender_stamp ≤ℤ f.sender_stamp)
    → ltb_ℤ f.sender_stamp p.sender_stamp ≡ true
before f p h = ground arith

-- A frame not before the last is no such frame.
not-IsSecond :
    (f p : Frame) (r : List Frame)
    → IsSorted (p ∷ r)
    → p.sender_stamp ≤ℤ f.sender_stamp
    → ¬ IsSecond f (p ∷ r)
not-IsSecond f p [] s h m = m
not-IsSecond f p (q ∷ []) s h m = m.1 h
not-IsSecond f p (q ∷ q' ∷ r) s h m = not-IsSecond f q (q' ∷ r) s.1 (omega (arith, s.0)) m

IsSorted-tail : (p : Frame) (q : List Frame) → IsSorted (p ∷ q) → IsSorted q
IsSorted-tail p [] h = tt
IsSorted-tail p (f ∷ q) h = h.1

-- Where the walk goes on below `q`, the frame above `q` stays in order.
place_under :
    (f p q q' : Frame) (r : List Frame)
    → q.sender_stamp ≤ℤ p.sender_stamp
    → ltb_ℤ f.sender_stamp q.sender_stamp ≡ true
    → IsSorted (place f (q ∷ q' ∷ r))
    → IsSorted (p ∷ place f (q ∷ q' ∷ r))
unfolding place
place_under f p q q' r h t s = rw t (h, rw t at s)

place-IsSorted :
    (f p : Frame) (r : List Frame)
    → IsSorted (p ∷ r)
    → ¬ (p.sender_stamp ≤ℤ f.sender_stamp)
    → ¬ IsSecond f (p ∷ r)
    → IsSorted (place f (p ∷ r))
unfolding place
place-IsSorted f p [] s h m = (omega arith, tt)
place-IsSorted f p (q ∷ []) s h m = rw (before f p h) (
  s.0,
  (
    elim (Bool-cases (leb_ℤ f.sender_stamp q.sender_stamp)) [
      | inl t ↦ ground arith
      | inr t ↦ absurd (m (ground arith, h))
    ],
    tt,
  ),
)
place-IsSorted f p (q ∷ q' ∷ r) s h m = elim (Bool-cases (ltb_ℤ f.sender_stamp q.sender_stamp)) [
  | inl t ↦
      rw (before f p h)
        (place_under f p q q' r s.0 t (place-IsSorted f q (q' ∷ r) s.1 (ground arith) m))
  | inr t ↦ rw (before f p h, t) (omega arith, (ground arith, s.1))
]

place_second :
    (f p : Frame) (r : List Frame)
    → IsSorted (p ∷ r)
    → ¬ (p.sender_stamp ≤ℤ f.sender_stamp)
    → IsSecond f (p ∷ r)
    → ¬ IsSorted (place f (p ∷ r))
unfolding place
place_second f p [] s h m = absurd m
place_second f p (q ∷ []) s h m = rw (before f p h) (λ k. m.0 k.1.0)
place_second f p (q ∷ q' ∷ r) s h m =
    let late : ¬ (q.sender_stamp ≤ℤ f.sender_stamp) = λ k. not-IsSecond f q (q' ∷ r) s.1 k m in
    rw (before f p h) (λ k. place_second f q (q' ∷ r) s.1 late m (IsSorted-tail p _ k))

-- `put` keeps the order of the queue exactly if the new frame does not belong between the first two.
pub enqueue-IsSorted_iff :
    (f : Frame) (q : List Frame) → IsSorted q → (IsSorted (enqueue f q).0) ↔ (¬ IsSecond f q)
unfolding enqueue
enqueue-IsSorted_iff f [] s = (λ _ m. m, λ _. tt)
enqueue-IsSorted_iff f (p ∷ r) s = elim (Bool-cases (leb_ℤ p.sender_stamp f.sender_stamp)) [
  | inl t ↦ rw t (λ _. not-IsSecond f p r s (ground arith), λ _. (ground arith, s))
  | inr t ↦
      let late : ¬ (p.sender_stamp ≤ℤ f.sender_stamp) = ground arith in
      rw t (λ k m. place_second f p r s late m k, place-IsSorted f p r s late)
]

place-perm : (f : Frame) (q : List Frame) → Perm (place f q) (f ∷ q)
unfolding place
place-perm f [] = Perm.refl _
place-perm f (p ∷ []) = Perm.swap f p []
place-perm f (p ∷ q ∷ r) = elim (Bool-cases (ltb_ℤ f.sender_stamp p.sender_stamp)) [
  | inl t ↦ rw t (Perm.trans (Perm.cons p (place-perm f (q ∷ r))) (Perm.swap f p (q ∷ r)))
  | inr t ↦ rw t (Perm.refl _)
]

-- `put` adds its frame to the queue, and nothing is lost.
pub enqueue-perm : (f : Frame) (q : List Frame) → Perm (enqueue f q).0 (f ∷ q)
unfolding enqueue
enqueue-perm f [] = Perm.refl _
enqueue-perm f (p ∷ r) = elim (Bool-cases (leb_ℤ p.sender_stamp f.sender_stamp)) [
  | inl t ↦ rw t (Perm.refl _)
  | inr t ↦ rw t (place-perm f (p ∷ r))
]

-- `queue_get` takes out the one frame that it returns.
pub split_first-perm :
    (q : List Frame) {f : Frame} {r : List Frame} → split_first q ≡ some (f, r) → Perm q (f ∷ r)
unfolding split_first
split_first-perm [] e = absurd (cc)
split_first-perm (p ∷ []) {f} {r} e =
    let e₁ : p ≡ f = cc in let e₂ : [] ≡ r = cc in rw (← e₁, ← e₂) (Perm.refl _)
split_first-perm (p ∷ q ∷ r) {f} {r = r'} e = elim (Option-cases (split_first (q ∷ r))) [
  | inl n ↦ absurd (ground arith)
  | inr ((h, q'), e₁) ↦
      let e₂ : h ≡ f = ground arith in
      let e₃ : p ∷ q' ≡ r' = ground arith in
      rw (← e₂, ← e₃) (Perm.trans (Perm.cons p (split_first-perm (q ∷ r) e₁)) (Perm.swap h p q'))
]

pub length-split_first :
    (q : List Frame) {f : Frame} {r : List Frame}
    → split_first q ≡ some (f, r)
    → length q ≡ length r + 1
unfolding split_first
length-split_first [] e = absurd (cc)
length-split_first (p ∷ []) e = ground arith
length-split_first (p ∷ q ∷ r) e = elim (Option-cases (split_first (q ∷ r))) [
  | inl n ↦ absurd (ground arith)
  | inr ((h, q'), e₁) ↦ ground (arith, length-split_first (q ∷ r) e₁)
]

pub split_first-append : (r : List Frame) (f : Frame) → split_first (r ++ f ∷ []) ≡ some (f, r)
unfolding split_first
split_first-append [] f = refl
split_first-append (p ∷ []) f = refl
split_first-append (p ∷ q ∷ r) f = rw (split_first-append (q ∷ r) f)

length-place : (f : Frame) (q : List Frame) → length (place f q) ≡ length q + 1
unfolding place
length-place f [] = refl
length-place f (p ∷ []) = refl
length-place f (p ∷ q ∷ r) = ground (arith, length-place f (q ∷ r))

pub length-enqueue : (f : Frame) (q : List Frame) → length (enqueue f q).0 ≡ length q + 1
unfolding enqueue
length-enqueue f [] = refl
length-enqueue f (p ∷ r) = ground (arith, length-place f (p ∷ r))
