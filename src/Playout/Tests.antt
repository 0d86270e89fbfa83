-- ===== src/Playout/Tests.antt =====
-- The jitter buffer on concrete frames: runs of the code, and the laws at an input each.
use securecom_voice.Base.{
  if◌then◌else◌, ℕ, ◌+◌, ◌≡◌, ◌↔◌, refl, true, false, none, some, List, [], ◌∷◌, arith, length,
}
use mathlib.Core.List.{Perm}
use securecom_voice.Base.Int.{ltb_ℤ, pos, ◌+ℤ◌, ◌-ℤ◌}
use securecom_voice.Playout.{
  Playout, Frame, ok, error, get_unconditional, put_frame, fillin, drop, speech, fresh, put,
  acquire, enqueue, place, next_due, queue_get, split_first,
}
use securecom_voice.Playout.Get.{get, play, deliver, recycle}
use securecom_voice.Playout.Queue.{IsSorted, IsSecond, enqueue-IsSorted_iff}
use securecom_voice.Playout.Ledger.{puts, refuses, takes, starts, IsValid, get_frame, Reach-IsValid}
use securecom_voice.Playout.Schedule.{IsNext, IsSequence, get_by_time, drain, drain_in_order}

-- A speech frame of 160 samples.
abbrev voice : ℕ → ℕ → Frame
voice n stamp = record {
  payload = n;
  type = speech;
  sender_stamp = pos stamp;
  sender_len = pos 160;
  receiver_stamp = pos stamp;
}

-- A buffer of fixed length that is due at 320, with three frames in sequence.
abbrev steady : Playout
steady = record (fresh (pos 0) (pos 0)) {
  start = false;
  queue = voice 3 640 ∷ voice 2 480 ∷ voice 1 320 ∷ [];
  last_speech_sender_stamp = pos 160;
  last_speech_sender_len = pos 160;
}

plays_all :
    (drain 4 steady).0
    ≡ (ok, some (voice 1 320))
      ∷ (ok, some (voice 2 480))
      ∷ (ok, some (voice 3 640))
      ∷ (fillin, none)
      ∷ []
unfolding drain get play deliver recycle queue_get split_first fresh ◌+ℤ◌
plays_all = refl

-- 160 belongs between 0 and 320, and is put before both.
put_in_front :
    (enqueue (voice 3 160) (voice 2 320 ∷ voice 1 0 ∷ [])).0
    ≡ voice 2 320 ∷ voice 1 0 ∷ voice 3 160 ∷ []
unfolding enqueue place
put_in_front = refl

enqueue-IsSorted_iff_example :
    IsSorted (enqueue (voice 3 160) (voice 2 320 ∷ voice 1 0 ∷ [])).0
    ↔ (¬ IsSecond (voice 3 160) (voice 2 320 ∷ voice 1 0 ∷ []))
enqueue-IsSorted_iff_example =
    enqueue-IsSorted_iff (voice 3 160) (voice 2 320 ∷ voice 1 0 ∷ []) (omega arith)

-- The same buffer one frame later.
abbrev ahead : Playout
ahead = record steady { last_speech_sender_stamp = pos 320 }

ahead-IsNext : IsNext ahead (voice 1 320) (voice 3 640 ∷ voice 2 480 ∷ [])
unfolding split_first fresh
ahead-IsNext = record { static = refl; first = refl; is_speech = refl }

get_by_time_example :
    (t : Playout) × (get ahead ≡ (
      if ltb_ℤ (pos 320) (next_due ahead)
      then (drop, some (voice 1 320), t)
      else if ltb_ℤ (next_due ahead) (pos 320)
      then (fillin, none, t)
      else (ok, some (voice 1 320), t)))
    × (t.queue ≡ (
        if ltb_ℤ (next_due ahead) (pos 320) then ahead.queue else voice 3 640 ∷ voice 2 480 ∷ []))
    × (t.last_speech_sender_stamp
        ≡ (if ltb_ℤ (pos 320) (next_due ahead) then pos 320 else next_due ahead))
get_by_time_example = get_by_time ahead (voice 1 320) (voice 3 640 ∷ voice 2 480 ∷ []) ahead-IsNext

abbrev three : List Frame
three = voice 1 320 ∷ voice 2 480 ∷ voice 3 640 ∷ []

three-IsSequence : IsSequence (next_due steady) (pos 160) three
unfolding next_due ◌+ℤ◌
three-IsSequence = (refl, refl, refl, (refl, refl, refl, (refl, refl, refl, tt)))

drain_in_order_example :
    ((drain 3 steady).0
      ≡ (ok, some (voice 1 320)) ∷ (ok, some (voice 2 480)) ∷ (ok, some (voice 3 640)) ∷ [])
    × ((drain 3 steady).1.queue ≡ [])
    × ((drain 3 steady).1.frames_missing ≡ steady.frames_missing)
drain_in_order_example =
    drain_in_order three steady (pos 160) (unfold fresh in refl) refl refl refl three-IsSequence

-- One frame in, and played.
abbrev one : Playout
one = (put true (fresh (pos 0) (pos 0)) (voice 1 0)).1

one-put : put true (fresh (pos 0) (pos 0)) (voice 1 0) ≡ (ok, one)
unfolding put acquire fresh put_frame
one-put = refl

-- A frame that there is no memory for, and then the first one taken.
abbrev refused : Playout
refused = (put false one (voice 2 160)).1

refused-put : put false one (voice 2 160) ≡ (error, refused)
unfolding put acquire fresh put_frame
refused-put = refl

abbrev emptied : Playout
emptied = (get_unconditional refused).1

emptied-taken : get_unconditional refused ≡ (some (voice 1 0), emptied)
unfolding put acquire fresh get_unconditional queue_get split_first enqueue put_frame ◌-ℤ◌
emptied-taken = refl

Reach-IsValid_example : IsValid 1 1 emptied
Reach-IsValid_example = Reach-IsValid (
    takes (some (voice 1 0)) emptied-taken (
      refuses false (voice 2 160) refused-put
        (puts true (voice 1 0) one-put (starts (pos 0) (pos 0)))))

steady_got : get steady ≡ (ok, some (voice 1 320), (get steady).2)
unfolding get play deliver recycle queue_get split_first fresh ◌+ℤ◌
steady_got = refl

get_frame_example :
    Perm steady.queue (voice 1 320 ∷ (get steady).2.queue)
    × ((get steady).2.free_frames ≡ voice 1 320 ∷ steady.free_frames)
    × ((get steady).2.frames_in ≡ steady.frames_in)
    × ((get steady).2.frames_out ≡ steady.frames_out + 1)
    × (length steady.queue ≡ length (get steady).2.queue + 1)
get_frame_example = get_frame steady steady_got
