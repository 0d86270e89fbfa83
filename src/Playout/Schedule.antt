-- ===== src/Playout/Schedule.antt =====
-- A buffer of fixed length as its user sees it: each outcome of `get`, and frames in sequence.
use securecom_voice.Base.{
  ℕ, zero, suc, ◌+◌, ◌≡◌, refl, ap, ◌∙◌, true, false, Option, none, some, List, [], ◌∷◌, map, arith,
  length, if◌then◌else◌, Bool-cases, inl, inr,
}
use mathlib.Core.List.{reverse, reverse-append}
use securecom_voice.Base.Int.{ℤ, pos, ◌≤ℤ◌, ◌+ℤ◌, ltb_ℤ, +ℤ_cancel}
use securecom_voice.Playout.{
  Playout, Frame, Code, ok, fillin, drop, speech, queue_get, split_first, next_due,
}
use securecom_voice.Playout.Queue.{split_first-append}
use securecom_voice.Playout.Get.{deliver, recycle, rewind, play, get}

-- The next frame in the queue is speech, for the time that the buffer is at.
pub record IsNext (s : Playout) (f : Frame) (rest : List Frame) : Type 0 where
  pub static : s.dynamic ≡ false
  pub first : split_first s.queue ≡ some (f, rest)
  pub is_speech : f.type ≡ speech

-- On time: the frame is played, and the buffer moves on by one frame.
get_on_time :
    (s : Playout) (f : Frame) (rest : List Frame)
    → IsNext s f rest
    → f.sender_stamp ≡ next_due s
    → (t : Playout) × (get s ≡ (ok, some f, t))
      × (t.queue ≡ rest)
      × (t.last_speech_sender_stamp ≡ next_due s)
      × (t.last_speech_sender_len
          ≡ (if ltb_ℤ (pos 0) f.sender_len then f.sender_len else s.last_speech_sender_len))
      × (t.dynamic ≡ false)
      × (t.frames_missing ≡ s.frames_missing)
unfolding get play deliver recycle next_due queue_get
get_on_time s f rest v e = (
  (get s).2,
  ground (arith, v.static, v.first, v.is_speech),
  ground (arith, v.static, v.first, v.is_speech),
  ground (arith, v.static, v.first, v.is_speech),
  ground (arith, v.static, v.first, v.is_speech),
  ground (arith, v.static, v.first, v.is_speech),
  ground (arith, v.static, v.first, v.is_speech),
)

-- Late: the frame is dropped, and the clock stays, so that the caller can ask again.
get_late :
    (s : Playout) (f : Frame) (rest : List Frame)
    → IsNext s f rest
    → ¬ (next_due s ≤ℤ f.sender_stamp)
    → (t : Playout) × (get s ≡ (drop, some f, t))
      × (t.queue ≡ rest)
      × (t.last_speech_sender_stamp ≡ s.last_speech_sender_stamp)
      × (t.last_speech_sender_len ≡ s.last_speech_sender_len)
      × (t.frames_late ≡ s.frames_late + 1)
unfolding get play deliver recycle rewind next_due queue_get
get_late s f rest v e = (
  (get s).2,
  ground (arith, v.static, v.first, v.is_speech),
  ground (arith, v.static, v.first, v.is_speech),
  ground (
    arith,
    v.static,
    v.first,
    v.is_speech,
    +ℤ_cancel s.last_speech_sender_stamp s.last_speech_sender_len,
  ),
  ground (arith, v.static, v.first, v.is_speech),
  ground (arith, v.static, v.first, v.is_speech),
)

-- Early: the caller has to fill in, the queue stays, and the clock moves on by one frame.
get_early :
    (s : Playout) (f : Frame) (rest : List Frame)
    → IsNext s f rest
    → ¬ (f.sender_stamp ≤ℤ next_due s)
    → (t : Playout) × (get s ≡ (fillin, none, t))
      × (t.queue ≡ s.queue)
      × (t.last_speech_sender_stamp ≡ next_due s)
      × (t.frames_missing ≡ s.frames_missing +ℤ pos 1)
unfolding get next_due queue_get
get_early s f rest v e = (
  (get s).2,
  ground (arith, v.static, v.first, v.is_speech),
  ground (arith, v.static, v.first, v.is_speech),
  ground (arith, v.static, v.first, v.is_speech),
  ground (arith, v.static, v.first, v.is_speech),
)

-- What a call gives, in a buffer of fixed length, when the next frame is speech, by its time: past
-- its time it is dropped and the clock stays; before its time the caller has to fill in, and the
-- queue stays; otherwise it is played. In the last two cases the clock moves on by one frame.
pub get_by_time :
    (s : Playout) (f : Frame) (rest : List Frame)
    → IsNext s f rest
    → (t : Playout) × (get s ≡ (
        if ltb_ℤ f.sender_stamp (next_due s)
        then (drop, some f, t)
        else if ltb_ℤ (next_due s) f.sender_stamp
        then (fillin, none, t)
        else (ok, some f, t)))
      × (t.queue ≡ (if ltb_ℤ (next_due s) f.sender_stamp then s.queue else rest))
      × (t.last_speech_sender_stamp
          ≡ (if ltb_ℤ f.sender_stamp (next_due s) then s.last_speech_sender_stamp else next_due s))
get_by_time s f rest v = elim (Bool-cases (ltb_ℤ f.sender_stamp (next_due s))) [
  | inl late ↦
      let (t, g, q, c, l, n) = get_late s f rest v (ground (arith, late)) in
      let not_early : ltb_ℤ (next_due s) f.sender_stamp ≡ false = ground (arith, late) in
      (t, rw late g, rw not_early q, rw late c)
  | inr here ↦ elim (Bool-cases (ltb_ℤ (next_due s) f.sender_stamp)) [
    | inl early ↦
        let (t, g, q, c, m) = get_early s f rest v (ground (arith, early)) in
        (t, rw (here, early) g, rw early q, rw here c)
    | inr now ↦
        let (t, g, q, c, l, d, m) = get_on_time s f rest v (ground (arith, here, now)) in
        (t, rw (here, now) g, rw now q, rw here c)
  ]
]

-- Speech frames of length `l`, one after the other, the first at `z`.
abbrev pub IsSequence : ℤ → ℤ → List Frame → Type 0
IsSequence z l [] = Unit
IsSequence z l (f ∷ fs) =
    (f.type ≡ speech) × (f.sender_stamp ≡ z) × (f.sender_len ≡ l) × IsSequence (z +ℤ l) l fs

-- `n` calls of `get`, and what they give.
unfoldable pub drain : ℕ → Playout → List (Code × Option Frame) × Playout
drain zero s = ([], s)
drain (suc n) s = let (c, o, s') = get s in let (outs, s'') = drain n s' in ((c, o) ∷ outs, s'')

-- A buffer of fixed length whose queue holds speech frames one after the other, the first of them due
-- now, and each of the positive length of the speech last played: as many calls as there are frames
-- play them in order, leave the queue empty and count no frame as missing.
pub drain_in_order :
    (fs : List Frame) (s : Playout) (l : ℤ)
    → s.dynamic ≡ false
    → s.queue ≡ reverse fs
    → ltb_ℤ (pos 0) l ≡ true
    → s.last_speech_sender_len ≡ l
    → IsSequence (next_due s) l fs
    → ((drain (length fs) s).0 ≡ map (λ f. (ok, some f)) fs)
      × ((drain (length fs) s).1.queue ≡ [])
      × ((drain (length fs) s).1.frames_missing ≡ s.frames_missing)
unfolding drain
drain_in_order [] s l d q p e h = (refl, q, refl)
drain_in_order (f ∷ fs) s l d q p e h =
    let first : split_first s.queue ≡ some (f, reverse fs) =
      rw (q, reverse-append (f ∷ []) fs) (split_first-append (reverse fs) f) in
    let v : IsNext s f (reverse fs) = record { static = d; first = first; is_speech = h.0 } in
    let (t, g, tq, ts, tl, td, tm) = get_on_time s f (reverse fs) v h.1 in
    let len : t.last_speech_sender_len ≡ l = ground arith in
    let due : next_due t ≡ next_due s +ℤ l = unfold next_due in cc in
    let (a, b, c) = drain_in_order fs t l td tq p len (rw due h.3) in
    let step : drain (suc (length fs)) s
        ≡ ((ok, some f) ∷ (drain (length fs) t).0, (drain (length fs) t).1) =
      rw g in
    (
      ap (λ r. r.0) step ∙ ap (◌∷◌ (ok, some f)) a,
      ap (λ r. r.1.queue) step ∙ b,
      ap (λ r. r.1.frames_missing) step ∙ c ∙ tm,
    )
