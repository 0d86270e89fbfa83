-- ===== src/Plc/Gap.antt =====
-- Gaps: what is played in one, and what a block of speech goes through outside one.
use securecom_voice.Base.{
  ℕ, zero, suc, ◌+◌, ◌-◌, ◌/◌, ◌≤◌, ◌<◌, ◌≡◌, refl, ap, ◌∙◌, inl, inr, true, false, none, some,
  List, [], ◌∷◌, ◌++◌, arith, length, length-replicate, replicate, get_elem?, get_elem?-eq-get_or,
  get_or, drop, ltb, leb, Bool-cases, ◌==◌, ==_iff,
}
use securecom_voice.Base.Int.{ℤ, pos}
use securecom_voice.Plc.{
  Float, Plc, history_len, save_history, normalise_history, next_offset, gain_after, rx, fade,
  open_gap, fillin,
}
use securecom_voice.Plc.History.{IsRing, held, save_history_lem}
use securecom_voice.Plc.Pitch.{AreSamples, amdf_pitch_lem}

quarter_past : (r len : ℕ) → 40 ≤ r → len < 10 → leb (r / 4) len ≡ false
quarter_past r len h k = ground arith

-- The cycle of a gap that has begun.
pub record IsPlaying {F : Type 0} (s : Plc F) : Type 0 where
  pub begun : 0 < s.missing_samples
  pub at_offset : s.pitch_offset < s.pitch
  pub cycle : s.pitch ≤ length s.pitchbuf

module _ {F : Type 0} (f : Float F) where
  -- A block that follows no gap is left as it is, and the history takes it up.
  pub rx_outside_gap :
      (s : Plc F) (amp : List ℤ)
      → IsRing s
      → s.missing_samples ≡ 0
      → (s' : Plc F) × ((rx f s amp ≡ some (amp, s'))
          × (held s' ≡ drop (length amp) (held s ++ amp)))
  unfolding rx
  rx_outside_gap s amp r e =
      let z : (s.missing_samples == 0) ≡ true = (==_iff _ _).1 e in
      (save_history s amp, (rw z refl, save_history_lem s amp r))

  fade_lem :
      (buf : List F) (pitch n : ℕ) (gain : F) (offset : ℕ)
      → offset < pitch
      → pitch ≤ length buf
      → (out : List ℤ) × (offset' : ℕ) × ((fade f buf pitch n gain offset ≡ some (out, offset'))
          × ((length out ≡ n) × (offset' < pitch)))
  unfolding fade
  fade_lem buf pitch zero gain offset h k = ([], offset, (refl, (refl, h)))
  fade_lem buf pitch (suc n) gain offset h k =
      let d = f.of_int (pos 0) in
      let found : get_elem? buf offset ≡ some (get_or buf offset d) =
        get_elem?-eq-get_or buf offset d (omega arith) in
      let (out, offset', (e, (l, o))) =
        fade_lem buf pitch n (f.sub gain f.attenuation) (next_offset pitch offset) (ground arith)
          k in
      elim (Bool-cases (f.less (f.of_int (pos 0)) gain)) [
        | inl loud ↦ (
          f.truncate (f.mul (get_or buf offset d) gain) ∷ out,
          offset',
          (rw (loud, found, e) refl, (ap suc l, o)),
        )
        | inr silent ↦
            (replicate (suc n) (pos 0), offset, (rw silent refl, (length-replicate (suc n) _, h)))
      ]

  save_history_keeps :
      (s : Plc F) (buf : List ℤ)
      → ((save_history s buf).missing_samples ≡ s.missing_samples)
        × ((save_history s buf).pitch_offset ≡ s.pitch_offset)
  unfolding save_history
  save_history_keeps s buf = elim (Bool-cases (leb history_len (length buf))) [
    | inl long ↦ rw long (refl, refl)
    | inr short ↦ elim (Bool-cases (ltb history_len (s.buf_ptr + length buf))) [
      | inl wraps ↦ rw (short, wraps) (refl, refl)
      | inr fits ↦ rw (short, fits) (refl, refl)
    ]
  ]

  -- Filling in more of a gap that has begun: there are as many samples as were asked for, the
  -- state counts them, the cycle goes on within its bounds, and the history takes the samples up.
  pub fillin_continues :
      (s : Plc F) (len : ℕ)
      → IsRing s
      → IsPlaying s
      → (out : List ℤ) × (s' : Plc F) × ((fillin f s len ≡ some (out, s'))
          × ((length out ≡ len)
              × ((s'.missing_samples ≡ s.missing_samples + len)
                  × ((s'.pitch_offset < s.pitch) × (held s' ≡ drop len (held s ++ out))))))
  unfolding fillin
  fillin_continues s len r p =
      let z : (s.missing_samples == 0) ≡ false = ground (arith, p.begun) in
      let (out, offset, (e, (l, o))) =
        fade_lem s.pitchbuf s.pitch (len - 0) (gain_after f s.missing_samples) s.pitch_offset
          p.at_offset p.cycle in
      let s1 : Plc F = record s {
        pitch_offset = offset;
        missing_samples = s.missing_samples + len;
      } in
      let r1 : IsRing s1 = record { whole = r.whole; in_range = r.in_range } in
      let size : length out ≡ len = omega (arith, l) in
      let (m, q) = save_history_keeps s1 out in
      (
        out,
        save_history s1 out,
        (
          rw (z, e) refl,
          (size, (m, (rw q o, save_history_lem s1 out r1 ∙ ap (λ n. drop n (held s ++ out)) size))),
        ),
      )

  -- Where a gap starts, a block of fewer than ten samples is too short for the samples that
  -- `plc_fillin` writes before it looks at the length.
  pub fillin_overruns :
      (s : Plc F) (len : ℕ)
      → s.missing_samples ≡ 0
      → AreSamples (normalise_history s).history
      → len < 10
      → fillin f s len ≡ none
  unfolding fillin open_gap
  fillin_overruns s len e h short =
      let z : (s.missing_samples == 0) ≡ true = (==_iff _ _).1 e in
      let (r, (q, (low, rest))) = amdf_pitch_lem (normalise_history s).history h in
      let long = quarter_past r len low short in rw (z, q, long) refl
