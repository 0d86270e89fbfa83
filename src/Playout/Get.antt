-- ===== src/Playout/Get.antt =====
-- `playout_get` of jni/playout.c.
use securecom_voice.Base.{◌+◌, Bool, true, Option, none, some, ◌∷◌, ◌==◌, ◌&&◌, if◌then◌else◌}
use mathlib.Core.Bool.{not}
use securecom_voice.Base.Int.{ℤ, pos, ◌+ℤ◌, ◌-ℤ◌, ◌*ℤ◌, ltb_ℤ, shift_right_8, wrap32}
use securecom_voice.Playout.{Playout, Frame, Code, ok, fillin, drop, speech, queue_get}

-- One step of a filter that leaks 1/256 and takes in `0x10000000` for a hit.
unfoldable pub leak : Bool → ℤ → ℤ
leak hit state = state +ℤ shift_right_8 ((if hit then pos 0x10000000 else pos 0) -ℤ state)

-- The first speech frame sets the clock.
unfoldable pub prime : Playout → Frame → Playout
prime s f =
    if s.not_first
    then s
    else record s { not_first = true; latest_expected = f.receiver_stamp +ℤ s.min_length }

-- The two filters, and the time at which the next frame is expected.
unfoldable pub observe : Playout → Frame → Playout
observe s f = record s {
  state_late = leak (ltb_ℤ s.latest_expected f.receiver_stamp) s.state_late;
  state_just_in_time =
      leak (ltb_ℤ (s.latest_expected -ℤ f.sender_len) f.receiver_stamp) s.state_just_in_time;
  latest_expected = s.latest_expected +ℤ f.sender_len;
}

-- The common part of the three changes of the length.
unfoldable pub resettle : Playout → Playout
resettle s = record s {
  state_just_in_time = s.dropable_threshold;
  state_late = pos 0;
  since_last_step = pos 0;
}

-- Buffer `k` frames more.
unfoldable pub lengthen : ℤ → Playout → Frame → Playout
lengthen k s f = resettle (record s {
  target_buffer_length = s.target_buffer_length +ℤ k *ℤ f.sender_len;
  latest_expected = s.latest_expected +ℤ k *ℤ f.sender_len;
  last_speech_sender_stamp = s.last_speech_sender_stamp -ℤ k *ℤ s.last_speech_sender_len;
})

unfoldable pub shorten : Playout → Frame → Playout
shorten s f = resettle (record s {
  target_buffer_length = s.target_buffer_length -ℤ f.sender_len;
  latest_expected = s.latest_expected -ℤ f.sender_len;
  last_speech_sender_stamp = s.last_speech_sender_stamp +ℤ s.last_speech_sender_len;
})

unfoldable pub adapt : Playout → Frame → Playout
adapt s f =
    if ltb_ℤ s.dropable_threshold s.state_late
    then if ltb_ℤ s.since_last_step (pos 10)
      then if ltb_ℤ s.target_buffer_length (s.max_length -ℤ pos 2) then lengthen (pos 3) s f else s
      else if ltb_ℤ s.target_buffer_length s.max_length
      then lengthen (pos 1) s f
      else s
    else if ltb_ℤ (pos 500) s.since_last_step && ltb_ℤ s.state_just_in_time s.dropable_threshold
    then if ltb_ℤ s.min_length s.target_buffer_length then shorten s f else s
    else s

-- The whole block under `s->dynamic && frame->type == PLAYOUT_TYPE_SPEECH`.
unfoldable pub assess : Playout → Frame → Playout
assess s f =
    let s' = adapt (observe (prime s f) f) f in
    record s' { since_last_step = wrap32 (s'.since_last_step +ℤ pos 1) }

-- The frame goes on the free list, and out.
unfoldable pub recycle : Playout → Frame → Playout
recycle s f = record s { free_frames = f ∷ s.free_frames; frames_out = s.frames_out + 1 }

unfoldable pub rewind : Playout → Playout
rewind s = record s {
  last_speech_sender_stamp = s.last_speech_sender_stamp -ℤ s.last_speech_sender_len;
}

-- The three ways out with a frame that is off the queue.
unfoldable pub deliver : Playout → Frame → Code × Playout
deliver s f =
    if not (f.type == speech)
    then (ok, recycle (rewind s) f)
    else if ltb_ℤ f.sender_stamp s.last_speech_sender_stamp
    then (
      drop,
      recycle
          (record (rewind s) {
            frames_late = s.frames_late + 1;
            frames_missing = s.frames_missing -ℤ pos 1;
          })
          f,
    )
    else (
      ok,
      recycle
          (record s {
            last_speech_sender_len =
                if ltb_ℤ (pos 0) f.sender_len then f.sender_len else s.last_speech_sender_len;
          })
          f,
    )

-- What `get` does with a frame that is off the queue.
unfoldable pub play : Playout → Frame → Code × Playout
play s f = deliver (if s.dynamic && f.type == speech then assess s f else s) f

-- The code, the frame stored through `frameout`, if any, and the state.
unfoldable pub get : Playout → Code × Option Frame × Playout
get s =
    let due = s.last_speech_sender_stamp +ℤ s.last_speech_sender_len in
    elim (queue_get s.queue due) [
      | none ↦ (
        fillin,
        none,
        record s { last_speech_sender_stamp = due; frames_missing = s.frames_missing +ℤ pos 1 },
      )
      | some (f, rest) ↦
          let (code, s') = play (record s { last_speech_sender_stamp = due; queue = rest }) f in
          (code, some f, s')
    ]
