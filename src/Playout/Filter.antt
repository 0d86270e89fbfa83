-- ===== src/Playout/Filter.antt =====
-- The two filters of the jitter buffer, and the counter of frames since the last change of length.
use securecom_voice.Base.{
  ◌+◌, ◌-◌, ◌^◌, ◌≡◌, refl, inl, inr, Bool, true, false, ◌&&◌, List, arith, Bool-cases,
  Option-cases, ◌==◌,
}
use securecom_voice.Base.Int.{ℤ, pos, negsuc, ◌≤ℤ◌, ◌+ℤ◌, ◌-ℤ◌, ltb_ℤ, shift_right_8, half}
use securecom_voice.Playout.{
  Playout, Frame, fresh, speech, put, put_frame, acquire, queue_get, next_due,
}
use securecom_voice.Playout.Get.{
  leak, prime, observe, resettle, lengthen, shorten, adapt, assess, deliver, recycle, rewind, play,
  get,
}

-- The full scale of a filter.
abbrev pub IsLevel : ℤ → Type 0
IsLevel z = (pos 0 ≤ℤ z) × (z ≤ℤ pos 0x10000000)

-- A filter stays within its scale, so its 32-bit arithmetic does not overflow.
pub leak-IsLevel : (hit : Bool) (z : ℤ) → IsLevel z → IsLevel (leak hit z)
unfolding leak shift_right_8 ◌+ℤ◌ ◌-ℤ◌
leak-IsLevel hit (pos n) h = ground arith
leak-IsLevel hit (negsuc n) h = absurd (omega arith)

pub record IsTuned (s : Playout) : Type 0 where
  pub late : IsLevel s.state_late
  pub just_in_time : IsLevel s.state_just_in_time
  pub threshold : s.dropable_threshold ≡ pos 2684354

prime-IsTuned : (s : Playout) (f : Frame) → IsTuned s → IsTuned (prime s f)
unfolding prime
prime-IsTuned s f v = ground arith

observe-IsTuned : (s : Playout) (f : Frame) → IsTuned s → IsTuned (observe s f)
unfolding observe
observe-IsTuned s f v = record {
  late = leak-IsLevel _ s.state_late v.late;
  just_in_time = leak-IsLevel _ s.state_just_in_time v.just_in_time;
  threshold = v.threshold;
}

resettle-IsTuned : (s : Playout) → IsTuned s → IsTuned (resettle s)
unfolding resettle
resettle-IsTuned s v = ground arith

lengthen-IsTuned : (k : ℤ) (s : Playout) (f : Frame) → IsTuned s → IsTuned (lengthen k s f)
unfolding lengthen resettle
lengthen-IsTuned k s f v = ground arith

shorten-IsTuned : (s : Playout) (f : Frame) → IsTuned s → IsTuned (shorten s f)
unfolding shorten resettle
shorten-IsTuned s f v = ground arith

adapt-IsTuned : (s : Playout) (f : Frame) → IsTuned s → IsTuned (adapt s f)
unfolding adapt
adapt-IsTuned s f v =
    ground (arith, lengthen-IsTuned (pos 3) s f, lengthen-IsTuned (pos 1) s f, shorten-IsTuned s f)

assess-IsTuned : (s : Playout) (f : Frame) → IsTuned s → IsTuned (assess s f)
unfolding assess
assess-IsTuned s f v =
    let t = adapt-IsTuned _ f (observe-IsTuned _ f (prime-IsTuned s f v)) in
    record { late = t.late; just_in_time = t.just_in_time; threshold = t.threshold }

deliver-IsTuned : (s : Playout) (f : Frame) → IsTuned s → IsTuned (deliver s f).1
unfolding deliver recycle rewind
deliver-IsTuned s f v = ground arith

play-IsTuned : (s : Playout) (f : Frame) → IsTuned s → IsTuned (play s f).1
unfolding play
play-IsTuned s f v = elim (Bool-cases (s.dynamic && f.type == speech)) [
  | inl t ↦ rw t (deliver-IsTuned (assess s f) f (assess-IsTuned s f v))
  | inr t ↦ rw t (deliver-IsTuned s f v)
]

-- `get` keeps both filters within their scale, whatever the frames' stamps are.
pub get-IsTuned : (s : Playout) → IsTuned s → IsTuned (get s).2
unfolding get next_due
get-IsTuned s v = elim (Option-cases (queue_get s.queue (next_due s))) [
  | inl e ↦ rw (e, get) (ground arith)
  | inr ((f, rest), e) ↦
      rw (e, get)
        (play-IsTuned (record s { last_speech_sender_stamp = next_due s; queue = rest }) f
          (ground arith))
]

-- The jitter buffer starts with both filters at zero.
pub fresh-IsTuned : (lo hi : ℤ) → IsTuned (fresh lo hi)
unfolding fresh
fresh-IsTuned lo hi = ground arith

put_frame-IsTuned :
    (s : Playout) (f : Frame) (free : List Frame) → IsTuned s → IsTuned (put_frame s f free)
unfolding put_frame
put_frame-IsTuned s f free v = ground arith

-- `put` does not touch the filters.
pub put-IsTuned : (m : Bool) (s : Playout) (f : Frame) → IsTuned s → IsTuned (put m s f).1
unfolding put
put-IsTuned m s f v = elim (Option-cases (acquire m s.free_frames)) [
  | inl e ↦ rw (e, put) (ground arith)
  | inr (free, e) ↦
      rw (e, put)
        (put_frame-IsTuned (record s { frames_in = s.frames_in + 1 }) f free (ground arith))
]

first_leak : (hit : Bool) → ltb_ℤ (pos 2684354) (leak hit (pos 0)) ≡ false
unfolding leak shift_right_8 ◌+ℤ◌ ◌-ℤ◌
first_leak true = refl
first_leak false = refl

-- With the late filter low and the buffer not above its least length, the length stays.
adapt_stays :
    (s : Playout) (f : Frame)
    → ltb_ℤ s.dropable_threshold s.state_late ≡ false
    → ltb_ℤ s.min_length s.target_buffer_length ≡ false
    → adapt s f ≡ s
unfolding adapt
adapt_stays s f h k =
    elim (Bool-cases
      (ltb_ℤ (pos 500) s.since_last_step && ltb_ℤ s.state_just_in_time s.dropable_threshold)) [
        | inl t ↦ rw (h, t, k)
        | inr t ↦ rw (h, t)
      ]

-- The first speech frame that a dynamic buffer plays makes the counter of frames since the last
-- change wrap to the least `int`, unless the buffer starts out longer than its least length.
pub first_frame_wraps :
    (lo hi : ℤ) (f : Frame) (s : Playout)
    → ltb_ℤ lo hi ≡ true
    → half (hi -ℤ lo) ≤ℤ lo
    → s ≡ fresh lo hi
    → (assess s f).since_last_step ≡ negsuc (2 ^ 31 - 1)
unfolding assess observe prime fresh ◌+ℤ◌
first_frame_wraps lo hi f s h k e =
    rw (e, adapt_stays (observe (prime (fresh lo hi) f) f) f (first_leak _) (ground arith)) refl
