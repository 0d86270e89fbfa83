-- ===== src/TimeScale/Wrapper.antt =====
-- jni/PacketLossConcealer.cpp: what the application calls of the concealer and the time scaling. The
-- state is that of the file's static variables; `none` in `ts_state` is the null pointer. An array of
-- the caller is a list, and a result `none` is an access outside it, or one through a null pointer.
-- `memory` is what `malloc` hands out, or `none`.
use securecom_voice.Base.{
  ℕ, ◌+◌, ◌≤◌, ◌<◌, ◌≡◌, refl, Bool, true, false, Option, none, some, List, ◌++◌, arith, length,
  take, drop, length-append, length-take, leb, if◌then◌else◌, ◌>>=◌,
}
use securecom_voice.Base.Int.{ℤ, pos, negsuc, ltb_ℤ}
use securecom_voice.Plc.{Plc, Float, rx, fillin}
use securecom_voice.Plc
use securecom_voice.TimeScale.{
  TimeFloat, TimeScale, Turn, returns, one, time_scale, time_scale_rate, time_scale_init,
  max_output_len,
}

pub record Concealer (F : Type 0) : Type 0 where
  pub plc_state : Plc F
  pub ts_state : Option (TimeScale F)
  pub plc_init : Bool

-- A call that comes back with its result and the caller's array, or that is still running.
pub data Call (F : Type 0) : Type 0 where
  came_back : ℤ → List ℤ → Concealer F → Call F
  running : Call F

module _ {F : Type 0} (p : Float F) (f : TimeFloat F) where
  unfoldable pub conceal_init : Option (TimeScale F) → Concealer F → Concealer F
  conceal_init memory c =
      let made = do s ← memory; time_scale_init f s 8000 (one f)
      in elim made [
        | none ↦ record { plc_state = Plc.init p; ts_state = none; plc_init = c.plc_init }
        | some s ↦ record { plc_state = Plc.init p; ts_state = some s; plc_init = true }
      ]

  unfoldable pub conceal_rx : Concealer F → List ℤ → Option (List ℤ × Concealer F)
  conceal_rx c audio =
      let heard = do (audio', s) ← rx p c.plc_state audio; some (audio', record c { plc_state = s })
      in if c.plc_init then heard else some (audio, c)

  unfoldable pub conceal_fill_in : Concealer F → List ℤ → Option (List ℤ × Concealer F)
  conceal_fill_in c audio =
      let filled = do
        (audio', s) ← fillin p c.plc_state (length audio)
        some (audio', record c { plc_state = s })
      in if c.plc_init then filled else some (audio, c)

module _ {F : Type 0} (f : TimeFloat F) where
  unfoldable pub max_output_length_at_speed : Concealer F → ℕ → F → Option (ℤ × Concealer F)
  max_output_length_at_speed c in_length rate = do
    s ← c.ts_state
    elim (time_scale_rate f s rate) [
      | none ↦ some (negsuc 0, c)
      | some s' ↦ some (max_output_len f s' in_length, record c { ts_state = some s' })
    ]

  -- What `time_scale` writes, in the caller's array.
  unfoldable pub write_back : Concealer F → List ℤ → Turn F → Option (Call F)
  write_back c output (returns s out) =
      if leb (length out) (length output)
      then some (
          came_back (pos (length out)) (out ++ drop (length out) output)
            (record c { ts_state = some s }))
      else none
  write_back c output t = some running

  unfoldable pub change_speed : ℕ → Concealer F → List ℤ → List ℤ → ℕ → F → Option (Call F)
  change_speed fuel c output input input_len rate = do
    s ← c.ts_state
    elim (time_scale_rate f s rate) [
      | none ↦ some (came_back (negsuc 0) output c)
      | some s' ↦
          let c' = record c { ts_state = some s' } in
          let scaled = do t ← time_scale f fuel s' (take input_len input); write_back c' output t
          in let checked =
              if ltb_ℤ (pos (length output)) (max_output_len f s' input_len)
              then some (came_back (negsuc 0) output c')
              else scaled in
            if leb input_len (length input) then checked else none
    ]

  -- Back at normal speed, with more samples held than a cycle and one: the length that the caller is
  -- told to allow for is too small. A call with an output array of that very length passes the check
  -- and writes past the end of the array.
  pub straight_overruns :
      (fuel : ℕ) (c : Concealer F) (s : TimeScale F) (output input : List ℤ) (rate : F)
      → c.ts_state ≡ some s
      → f.at_most rate (f.of_int (pos 0)) ≡ false
      → f.at_most f.low rate ≡ true
      → f.at_most rate f.high ≡ true
      → f.equal (one f) (one f) ≡ true
      → max_output_len f (record s { lcp = pos 0; playout_rate = one f }) (length input)
        ≡ pos (length input + s.min_pitch + 1)
      → s.fill ≤ length s.buf
      → s.min_pitch + 1 < s.fill
      → length output ≡ length input + s.min_pitch + 1
      → (c' : Concealer F) × ((max_output_length_at_speed c (length input) rate
            ≡ some (pos (length output), c'))
          × (change_speed fuel c output input (length input) rate ≡ none))
  unfolding max_output_length_at_speed change_speed time_scale_rate time_scale write_back
  straight_overruns fuel c s output input rate there positive low high same told held more size =
      let s' : TimeScale F = record s { lcp = pos 0; playout_rate = one f } in
      let enough : leb (length input) (length input) ≡ true = ground arith in
      let allowed : ltb_ℤ (pos (length output)) (pos (length input + s.min_pitch + 1)) ≡ false =
        ground (arith, size) in
      let whole : length (take s.fill s.buf ++ take (length input) input) ≡ s.fill + length input =
        omega (
          arith,
          length-append (take s.fill s.buf) (take (length input) input),
          length-take s.fill s.buf,
          length-take (length input) input,
        ) in
      let past : leb (length (take s.fill s.buf ++ take (length input) input)) (length output)
          ≡ false =
        ground (arith, whole, size) in
      (
        record c { ts_state = some s' },
        (
          rw (there, positive, low, high, told, size) refl,
          rw (there, positive, low, high, enough, told, allowed, same, past) refl,
        ),
      )
