-- ===== src/Playout/Ledger.antt =====
-- Where the frames of the jitter buffer are: queued, free or handed out.
use securecom_voice.Base.{
  ℕ, true, false, ◌+◌, ◌≡◌, refl, ap, ◌∙◌, inl, inr, Bool, ◌&&◌, Option, none, some, List, ◌∷◌,
  arith, length, ◌==◌, Option-cases, Bool-cases, if◌then◌else◌,
}
use mathlib.Core.List.{Perm}
use securecom_voice.Base.Int.{ℤ, pos}
use securecom_voice.Playout.{
  Playout, Frame, Code, ok, error, restart, get_unconditional, fillin, speech, fresh, queue_get,
  split_first, enqueue, acquire, put_frame, put, next_due,
}
use securecom_voice.Playout.Queue.{
  split_first-perm, length-split_first, enqueue-perm, length-enqueue,
}
use securecom_voice.Playout.Get.{
  prime, observe, resettle, lengthen, shorten, adapt, assess, deliver, recycle, rewind, play, get,
}
use securecom_voice.Playout.Filter.{IsTuned, fresh-IsTuned, put-IsTuned, get-IsTuned}

-- What a change of the clocks leaves alone.
record SameFrames (s t : Playout) : Type 0 where
  queue : t.queue ≡ s.queue
  free : t.free_frames ≡ s.free_frames
  came : t.frames_in ≡ s.frames_in
  went : t.frames_out ≡ s.frames_out

assess-SameFrames : (s : Playout) (f : Frame) → SameFrames s (assess s f)
unfolding assess adapt lengthen shorten resettle observe prime
assess-SameFrames s f = record {
  queue = ground arith;
  free = ground arith;
  came = ground arith;
  went = ground arith;
}

-- What `play` does with its frame: on the free list, and counted.
record HandsOut (f : Frame) (s t : Playout) : Type 0 where
  queue : t.queue ≡ s.queue
  free : t.free_frames ≡ f ∷ s.free_frames
  came : t.frames_in ≡ s.frames_in
  went : t.frames_out ≡ s.frames_out + 1

deliver-HandsOut : (s : Playout) (f : Frame) → HandsOut f s (deliver s f).1
unfolding deliver recycle rewind
deliver-HandsOut s f = record {
  queue = ground arith;
  free = ground arith;
  came = ground arith;
  went = ground arith;
}

play-HandsOut : (s : Playout) (f : Frame) → HandsOut f s (play s f).1
unfolding play
play-HandsOut s f = elim (Bool-cases (s.dynamic && f.type == speech)) [
  | inl t ↦
      let h = deliver-HandsOut (assess s f) f in
      let k = assess-SameFrames s f in
      rw t (record {
        queue = h.queue ∙ k.queue;
        free = h.free ∙ ap (◌∷◌ f) k.free;
        came = h.came ∙ k.came;
        went = h.went ∙ ap (λ n. n + 1) k.went;
      })
  | inr t ↦ rw t (deliver-HandsOut s f)
]

queue_get-split_first :
    (q : List Frame) (z : ℤ) {f : Frame} {r : List Frame}
    → queue_get q z ≡ some (f, r)
    → split_first q ≡ some (f, r)
unfolding queue_get
queue_get-split_first q z e = ground arith

-- A `get` that gives no frame leaves queue, free list and counts alone.
pub get_nothing :
    (s : Playout) {c : Code} {t : Playout}
    → get s ≡ (c, none, t)
    → (c ≡ fillin)
      × (t.queue ≡ s.queue)
      × (t.free_frames ≡ s.free_frames)
      × (t.frames_in ≡ s.frames_in)
      × (t.frames_out ≡ s.frames_out)
unfolding get
get_nothing s e = ground arith

-- A `get` that gives a frame takes just that one out of the queue, puts it on the free list and
-- counts it, whether it is played or dropped.
pub get_frame :
    (s : Playout) {c : Code} {f : Frame} {t : Playout}
    → get s ≡ (c, some f, t)
    → Perm s.queue (f ∷ t.queue)
      × (t.free_frames ≡ f ∷ s.free_frames)
      × (t.frames_in ≡ s.frames_in)
      × (t.frames_out ≡ s.frames_out + 1)
      × (length s.queue ≡ length t.queue + 1)
unfolding get next_due
get_frame s {c} {f} {t} e = elim (Option-cases (queue_get s.queue (next_due s))) [
  | inl n ↦ absurd (ground arith)
  | inr ((g, rest), e₁) ↦
      let s₁ : Playout = record s { last_speech_sender_stamp = next_due s; queue = rest } in
      let h = play-HandsOut s₁ g in
      let z : get s ≡ ((play s₁ g).0, some g, (play s₁ g).1) = rw (e₁, get) in
      let p : t ≡ (play s₁ g).1 = cc in
      let q : f ≡ g = cc in
      rw (p, q)
        (
          rw h.queue (split_first-perm s.queue (queue_get-split_first s.queue (next_due s) e₁)),
          h.free,
          h.came,
          h.went,
          rw h.queue (length-split_first s.queue (queue_get-split_first s.queue (next_due s) e₁)),
        )
]

-- What a `put` that succeeds does with the blocks: the queue has one frame more, which comes off the
-- free list, if there is one there.
pub put_ok :
    (m : Bool) (s : Playout) (f : Frame) {t : Playout}
    → put m s f ≡ (ok, t)
    → Perm t.queue (f ∷ s.queue)
      × (t.frames_in ≡ s.frames_in + 1)
      × (t.frames_out ≡ s.frames_out)
      × (length t.queue ≡ length s.queue + 1)
      × (length t.queue + length t.free_frames
          ≡ length s.queue + (if length s.free_frames == 0 then 1 else length s.free_frames))
unfolding put put_frame acquire
put_ok m s f {t} e =
    let q : t.queue ≡ (enqueue f s.queue).0 = ground arith in
    (
      rw q (enqueue-perm f s.queue),
      ground arith,
      ground arith,
      rw q (length-enqueue f s.queue),
      ground (arith, length-enqueue f s.queue),
    )

abbrev pub is_some : Option Frame → Bool
is_some none = false
is_some (some f) = true

-- A `put` that is refused counts its frame and leaves the rest alone.
put_refused :
    (m : Bool) (s : Playout) (f : Frame) {t : Playout}
    → put m s f ≡ (error, t)
    → (t.queue ≡ s.queue) × (t.frames_in ≡ s.frames_in + 1) × (t.frames_out ≡ s.frames_out)
unfolding put
put_refused m s f e = ground arith

-- A `get_unconditional` counts nothing, whether it takes a frame or not.
taken_lem :
    (s : Playout) {o : Option Frame} {t : Playout}
    → get_unconditional s ≡ (o, t)
    → (t.frames_in ≡ s.frames_in)
      × (t.frames_out ≡ s.frames_out)
      × (length s.queue ≡ length t.queue + (if is_some o then 1 else 0))
unfolding get_unconditional
taken_lem s {o} {t} e = elim (Option-cases (queue_get s.queue (pos 0x7FFFFFFF))) [
  | inl n ↦ ground (arith, n)
  | inr ((g, rest), e₁) ↦
      ground
        (arith, e₁, length-split_first s.queue (queue_get-split_first s.queue (pos 0x7FFFFFFF) e₁))
]

taken-IsTuned : (s : Playout) → IsTuned s → IsTuned (get_unconditional s).1
unfolding get_unconditional
taken-IsTuned s v = ground arith

-- The calls that change a buffer, in any order, with how many frames were refused and how many were
-- taken by `get_unconditional` since the last `restart`.
pub data Reach : (refused taken : ℕ) → Playout → Type 0 where
  starts : (lo hi : ℤ) → Reach 0 0 (fresh lo hi)
  puts :
      {r k : ℕ} {s t : Playout} (m : Bool) (f : Frame)
      → put m s f ≡ (ok, t)
      → Reach r k s
      → Reach r k t
  refuses :
      {r k : ℕ} {s t : Playout} (m : Bool) (f : Frame)
      → put m s f ≡ (error, t)
      → Reach r k s
      → Reach (r + 1) k t
  gets :
      {r k : ℕ} {s t : Playout} (c : Code) (o : Option Frame)
      → get s ≡ (c, o, t)
      → Reach r k s
      → Reach r k t
  takes :
      {r k : ℕ} {s t : Playout} (o : Option Frame)
      → get_unconditional s ≡ (o, t)
      → Reach r k s
      → Reach r (k + (if is_some o then 1 else 0)) t
  restarts : {r k : ℕ} {s : Playout} (lo hi : ℤ) → Reach r k s → Reach 0 0 (restart s lo hi).1

pub record IsValid (refused taken : ℕ) (s : Playout) : Type 0 where
  pub tuned : IsTuned s
  pub counted : s.frames_in ≡ s.frames_out + length s.queue + refused + taken

fresh-IsValid : (lo hi : ℤ) → IsValid 0 0 (fresh lo hi)
unfolding fresh
fresh-IsValid lo hi = record { tuned = fresh-IsTuned lo hi; counted = refl }

-- In every state that the calls lead to, the frames that came in are those that went out, those in
-- the queue, those that were refused for want of memory and those that `get_unconditional` took, and
-- both filters are within their scale.
pub Reach-IsValid : {r k : ℕ} {s : Playout} → Reach r k s → IsValid r k s
unfolding restart
Reach-IsValid (starts lo hi) = fresh-IsValid lo hi
Reach-IsValid (puts {s = s} m f e reached) =
    let v = Reach-IsValid reached in
    let (_, came, went, grown, _) = put_ok m s f e in
    record {
      tuned = rw (ap (λ r. r.1) e) at (put-IsTuned m s f v.tuned);
      counted = omega (arith, v.counted, came, went, grown);
    }
Reach-IsValid (refuses {s = s} m f e reached) =
    let v = Reach-IsValid reached in
    let (same, came, went) = put_refused m s f e in
    record {
      tuned = rw (ap (λ r. r.1) e) at (put-IsTuned m s f v.tuned);
      counted = omega (arith, v.counted, came, went, ap length same);
    }
Reach-IsValid (gets {s = s} c none e reached) =
    let v = Reach-IsValid reached in
    let (_, same, _, came, went) = get_nothing s e in
    record {
      tuned = rw (ap (λ r. r.2) e) at (get-IsTuned s v.tuned);
      counted = omega (arith, v.counted, came, went, ap length same);
    }
Reach-IsValid (gets {s = s} c (some f) e reached) =
    let v = Reach-IsValid reached in
    let (_, _, came, went, less) = get_frame s e in
    record {
      tuned = rw (ap (λ r. r.2) e) at (get-IsTuned s v.tuned);
      counted = omega (arith, v.counted, came, went, less);
    }
Reach-IsValid (takes {s = s} o e reached) =
    let v = Reach-IsValid reached in
    let (came, went, less) = taken_lem s e in
    record {
      tuned = rw (ap (λ r. r.1) e) at (taken-IsTuned s v.tuned);
      counted = omega (arith, v.counted, came, went, less);
    }
Reach-IsValid (restarts lo hi reached) = fresh-IsValid lo hi
