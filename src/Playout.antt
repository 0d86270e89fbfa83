-- ===== src/Playout.antt =====
-- jni/playout.c and jni/spandsp/playout.h: the jitter buffer. Time stamps and lengths are integers;
-- the counter that starts at the largest `int` wraps. The doubly linked queue is the list of its
-- frames from `last_frame` along `earlier`, so `first_frame` is the last of the list.
pub mod Get
pub mod Queue
pub mod Filter
pub mod Ledger
pub mod Schedule
mod Tests
use securecom_voice.Base.{
  ℕ, ◌+◌, Bool, true, false, Option, none, some, List, [], ◌∷◌, ◌++◌, ◌==◌, ◌&&◌, if◌then◌else◌,
}
use mathlib.Core.Option
use mathlib.Core.List.{reverse}
use securecom_voice.Base.Int.{ℤ, pos, ◌+ℤ◌, ◌-ℤ◌, ltb_ℤ, leb_ℤ, half}

-- `PLAYOUT_OK` and the other return codes that the functions use.
pub data Code : Type 0 where
  ok error fillin drop : Code

-- `PLAYOUT_TYPE_SPEECH`.
abbrev pub speech : ℕ
speech = 2

-- `playout_frame_t`; the data is a pointer, which is only passed on.
pub record Frame : Type 0 where
  pub payload : ℕ
  pub type : ℕ
  pub sender_stamp : ℤ
  pub sender_len : ℤ
  pub receiver_stamp : ℤ

-- `playout_state_t`, less the fields that no function reads.
pub record Playout : Type 0 where
  pub dynamic : Bool
  pub min_length : ℤ
  pub max_length : ℤ
  pub dropable_threshold : ℤ
  pub start : Bool
  pub queue : List Frame
  pub free_frames : List Frame
  pub frames_in : ℕ
  pub frames_out : ℕ
  pub frames_oos : ℕ
  pub frames_late : ℕ
  pub frames_missing : ℤ
  pub latest_expected : ℤ
  pub last_speech_sender_stamp : ℤ
  pub last_speech_sender_len : ℤ
  pub not_first : Bool
  pub since_last_step : ℤ
  pub state_just_in_time : ℤ
  pub state_late : ℤ
  pub target_buffer_length : ℤ

-- The first frame, and the rest.
unfoldable pub split_first : List Frame → Option (Frame × List Frame)
split_first [] = none
split_first (f ∷ []) = some (f, [])
split_first (f ∷ g ∷ r) = Option.map (λ (h, q). (h, f ∷ q)) (split_first (g ∷ r))

-- `queue_get`: the first frame, if it is due, and the queue after that.
unfoldable pub queue_get : List Frame → ℤ → Option (Frame × List Frame)
queue_get queue stamp = elim (split_first queue) [
  | none ↦ none
  | some (f, rest) ↦ if leb_ℤ f.sender_stamp stamp then some (f, rest) else none
]

unfoldable pub next_due : Playout → ℤ
next_due s = s.last_speech_sender_stamp +ℤ s.last_speech_sender_len

unfoldable pub current_length : Playout → ℤ
current_length s = s.target_buffer_length

-- The frame that comes back stays on the free list.
unfoldable pub get_unconditional : Playout → Option Frame × Playout
get_unconditional s = elim (queue_get s.queue (pos 0x7FFFFFFF)) [
  | none ↦ (none, s)
  | some (f, rest) ↦ (some f, record s { queue = rest; free_frames = f ∷ s.free_frames })
]

-- The walk of `put` for a frame that is out of sequence: from the last frame back.
unfoldable pub place : Frame → List Frame → List Frame
place f [] = f ∷ []
place f (p ∷ []) = p ∷ f ∷ []
place f (p ∷ q ∷ r) =
    if ltb_ℤ f.sender_stamp p.sender_stamp then p ∷ place f (q ∷ r) else f ∷ p ∷ q ∷ r

-- The queue with the frame, and whether the frame was out of sequence.
unfoldable pub enqueue : Frame → List Frame → List Frame × Bool
enqueue f [] = (f ∷ [], false)
enqueue f (last ∷ r) =
    if leb_ℤ last.sender_stamp f.sender_stamp
    then (f ∷ last ∷ r, false)
    else (place f (last ∷ r), true)

-- `Option` over the free frames: a frame off the list, or a new one where `malloc` has one.
unfoldable pub acquire : Bool → List Frame → Option (List Frame)
acquire has_memory [] = if has_memory then some [] else none
acquire has_memory (f ∷ fs) = some fs

-- What `put` does once it has a frame.
unfoldable pub put_frame : Playout → Frame → List Frame → Playout
put_frame s f free =
    let (queue, oos) = enqueue f s.queue in
    let s' : Playout = record s {
      queue = queue;
      free_frames = free;
      frames_oos = if oos then s.frames_oos + 1 else s.frames_oos;
    } in
    if s.start && f.type == speech
    then record s' {
      last_speech_sender_stamp = f.sender_stamp -ℤ f.sender_len -ℤ s.min_length;
      last_speech_sender_len = f.sender_len;
      start = false;
    }
    else s'

-- `has_memory` says whether `malloc` gives a frame if one is needed.
unfoldable pub put : Bool → Playout → Frame → Code × Playout
put has_memory s f =
    let s' : Playout = record s { frames_in = s.frames_in + 1 } in
    elim (acquire has_memory s.free_frames) [
      | none ↦ (error, s')
      | some free ↦ (ok, put_frame s' f free)
    ]

-- The state that `restart` leaves behind.
unfoldable pub fresh : ℤ → ℤ → Playout
fresh min_length max_length =
    let longest = if ltb_ℤ min_length max_length then max_length else min_length in
    record {
      dynamic = ltb_ℤ min_length max_length;
      min_length = min_length;
      max_length = longest;
      dropable_threshold = pos 2684354;
      start = true;
      queue = [];
      free_frames = [];
      frames_in = 0;
      frames_out = 0;
      frames_oos = 0;
      frames_late = 0;
      frames_missing = pos 0;
      latest_expected = pos 0;
      last_speech_sender_stamp = pos 0;
      last_speech_sender_len = pos 0;
      not_first = false;
      since_last_step = pos 0x7FFFFFFF;
      state_just_in_time = pos 0;
      state_late = pos 0;
      target_buffer_length = half (longest -ℤ min_length);
    }

-- The frames that `restart` frees, and the state after it.
unfoldable pub restart : Playout → ℤ → ℤ → List Frame × Playout
restart s min_length max_length = (s.free_frames, fresh min_length max_length)

-- `none` where `malloc` gives no state.
unfoldable pub init : Bool → ℤ → ℤ → Option Playout
init has_memory min_length max_length =
    if has_memory then some (fresh min_length max_length) else none

-- The frames that `release` frees; `free` frees the state besides.
unfoldable pub release : Playout → List Frame
release s = reverse s.queue ++ s.free_frames
