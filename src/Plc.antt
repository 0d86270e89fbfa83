-- ===== src/Plc.antt =====
-- jni/plc.c and jni/spandsp/plc.h: the packet loss concealer. `F` stands for the floating-point
-- numbers, one type for `float` and `double`, and `Float` for the operations on them. The caller's
-- array `amp` has exactly `len` samples; a result `none` is an access outside an array. The copy of
-- `normalise_history` is taken to work for ranges that overlap.
pub mod History
pub mod Write
pub mod Pitch
pub mod Gap
mod Tests
use securecom_voice.Base.{
  ℕ, zero, suc, ◌+◌, ◌-◌, ◌*◌, ◌/◌, Bool, Option, none, some, List, [], ◌∷◌, ◌++◌, map, length,
  get_elem?, get_or, take, drop, replicate, ltb, leb, ◌==◌, if◌then◌else◌, ◌>>=◌,
}
use securecom_voice.Base.Int.{ℤ, pos, negsuc, ◌-ℤ◌, pos_part, neg_part}

-- The operations of the floating-point unit, and the constant `ATTENUATION_INCREMENT`.
pub record Float (F : Type 0) : Type 0 where
  pub of_int : ℤ → F
  pub add : F → F → F
  pub sub : F → F → F
  pub mul : F → F → F
  pub div : F → F → F
  pub less : F → F → Bool
  pub lrint : F → ℤ
  pub truncate : F → ℤ
  pub attenuation : F

abbrev pub pitch_min : ℕ
pitch_min = 120

abbrev pub pitch_max : ℕ
pitch_max = 40

abbrev pub correlation_span : ℕ
correlation_span = 160

abbrev pub history_len : ℕ
history_len = correlation_span + pitch_min

pub record Plc (F : Type 0) : Type 0 where
  pub missing_samples : ℕ
  pub pitch_offset : ℕ
  pub pitch : ℕ
  pub pitchbuf : List F
  pub history : List ℤ
  pub buf_ptr : ℕ

-- `memcpy` into an array at `i`.
abbrev pub write_at {ℓ} : {A : Type ℓ} → List A → ℕ → List A → List A
write_at xs i ys = take i xs ++ ys ++ drop (i + length ys) xs

module _ {F : Type 0} where
  unfoldable pub save_history : Plc F → List ℤ → Plc F
  save_history s buf =
      let len = length buf in
      let room = history_len - s.buf_ptr in
      if leb history_len len
      then record s { history = drop (len - history_len) buf; buf_ptr = 0 }
      else if ltb history_len (s.buf_ptr + len)
      then record s {
        history = write_at (write_at s.history s.buf_ptr (take room buf)) 0 (drop room buf);
        buf_ptr = len - room;
      }
      else record s { history = write_at s.history s.buf_ptr buf; buf_ptr = s.buf_ptr + len }

  unfoldable pub normalise_history : Plc F → Plc F
  normalise_history s = if s.buf_ptr == 0 then s else record s {
    history =
        write_at (write_at s.history 0 (drop s.buf_ptr s.history)) (history_len - s.buf_ptr)
          (take s.buf_ptr s.history);
    buf_ptr = 0;
  }

abbrev pub distance : ℤ → ℤ → ℕ
distance a b = pos_part (a -ℤ b) + neg_part (a -ℤ b)

-- The sum of the distances of `len` samples to those `i` later. A sample outside the array counts as
-- 0 here; the callers hand over arrays that hold all that are read.
unfoldable pub amdf : List ℤ → ℕ → ℕ → ℕ
amdf amp i zero = 0
amdf amp i (suc j) = amdf amp i j + distance (get_or amp (i + j) (pos 0)) (get_or amp j (pos 0))

-- The loop over the periods, with `n` to go from `i` on.
unfoldable pub amdf_loop : List ℤ → ℕ → ℕ → ℕ → ℕ → ℕ → ℕ
amdf_loop amp len i zero min_acc pitch = pitch
amdf_loop amp len i (suc n) min_acc pitch =
    let acc = amdf amp i len in
    if ltb acc min_acc
    then amdf_loop amp len (i + 1) n acc i
    else amdf_loop amp len (i + 1) n min_acc pitch

unfoldable pub amdf_pitch : ℕ → ℕ → List ℤ → ℕ → ℕ
unfolding amdf_loop
amdf_pitch min_pitch max_pitch amp len =
    amdf_loop amp len max_pitch (min_pitch + 1 - max_pitch) 2147483647 min_pitch

abbrev pub next_offset : ℕ → ℕ → ℕ
next_offset pitch i = if leb pitch (i + 1) then 0 else i + 1

module _ {F : Type 0} (f : Float F) where
  unfoldable pub fsaturate : F → ℤ
  fsaturate damp =
      if f.less (f.of_int (pos 32767)) damp
      then pos 32767
      else if f.less damp (f.of_int (negsuc 32767))
      then negsuc 32767
      else f.lrint damp

  unfoldable pub gain_after : ℕ → F
  gain_after missing = f.sub (f.of_int (pos 1)) (f.mul (f.of_int (pos missing)) f.attenuation)

  abbrev pub no_less_than_zero : F → F
  no_less_than_zero x = if f.less x (f.of_int (pos 0)) then f.of_int (pos 0) else x

  -- The first `n` samples of `amp`, blended with the cycle in `pitchbuf` from `offset` on.
  unfoldable pub blend : List F → ℕ → F → F → ℕ → ℕ → F → F → List ℤ → Option (List ℤ × ℕ)
  unfolding fsaturate
  blend buf pitch new_step old_step zero offset new_weight old_weight amp = some (amp, offset)
  blend buf pitch new_step old_step (suc n) offset new_weight old_weight [] = none
  blend buf pitch new_step old_step (suc n) offset new_weight old_weight (x ∷ amp) = do
    p ← get_elem? buf offset
    (rest, offset') ←
        blend buf pitch new_step old_step n (next_offset pitch offset) (f.add new_weight new_step)
          (no_less_than_zero (f.sub old_weight old_step)) amp
    some (fsaturate (f.add (f.mul old_weight p) (f.mul new_weight (f.of_int x))) ∷ rest, offset')

  unfoldable pub resume : Plc F → List ℤ → Option (List ℤ × Plc F)
  resume s amp = do
    let overlap = if ltb (length amp) (s.pitch / 4) then length amp else s.pitch / 4
    let gain = no_less_than_zero (gain_after s.missing_samples)
    let new_step = f.div (f.of_int (pos 1)) (f.of_int (pos overlap))
    (amp', offset) ←
        blend s.pitchbuf s.pitch new_step (f.mul new_step gain) overlap s.pitch_offset new_step
          (f.mul (f.sub (f.of_int (pos 1)) new_step) gain) amp
    some (amp', record s { pitch_offset = offset; missing_samples = 0 })

  -- `plc_rx`: the samples, smoothed where they follow a gap, and the state.
  unfoldable pub rx : Plc F → List ℤ → Option (List ℤ × Plc F)
  rx s amp = do
    (amp', s') ← if s.missing_samples == 0 then some (amp, s) else resume s amp
    some (amp', save_history s' amp')

  -- The last quarter of the cycle, from sample `i` on.
  unfoldable pub cycle_end : List ℤ → ℕ → F → ℕ → ℕ → F → Option (List F)
  cycle_end history pitch new_step i zero new_weight = some []
  cycle_end history pitch new_step i (suc n) new_weight = do
    a ← get_elem? history (history_len - pitch + i)
    b ← get_elem? history (history_len - 2 * pitch + i)
    rest ← cycle_end history pitch new_step (i + 1) n (f.add new_weight new_step)
    some (
        f.add (f.mul (f.of_int a) (f.sub (f.of_int (pos 1)) new_weight))
          (f.mul (f.of_int b) new_weight)
        ∷ rest)

  -- The cycle that is repeated in a gap.
  unfoldable pub make_cycle : Plc F → Option (Plc F)
  unfolding cycle_end
  make_cycle s = do
    let overlap = s.pitch / 4
    let new_step = f.div (f.of_int (pos 1)) (f.of_int (pos overlap))
    end ← cycle_end s.history s.pitch new_step (s.pitch - overlap) overlap new_step
    let start = map f.of_int (take (s.pitch - overlap) (drop (history_len - s.pitch) s.history))
    some (record s { pitchbuf = write_at s.pitchbuf 0 (start ++ end) })

  -- The samples that lead from the reversed history into the cycle, from sample `i` on.
  unfoldable pub lead_in : List ℤ → List F → F → ℕ → ℕ → F → F → Option (List ℤ)
  unfolding fsaturate
  lead_in history buf step i zero new_weight old_weight = some []
  lead_in history buf step i (suc n) new_weight old_weight = do
    h ← get_elem? history (history_len - 1 - i)
    p ← get_elem? buf i
    rest ←
        lead_in history buf step (i + 1) n (f.add new_weight step)
          (no_less_than_zero (f.sub old_weight step))
    some (fsaturate (f.add (f.mul old_weight (f.of_int h)) (f.mul new_weight p)) ∷ rest)

  -- Repeated cycles that decay, then silence: `n` samples, and the offset in the cycle.
  unfoldable pub fade : List F → ℕ → ℕ → F → ℕ → Option (List ℤ × ℕ)
  fade buf pitch zero gain offset = some ([], offset)
  fade buf pitch (suc n) gain offset =
      let faded = do
        p ← get_elem? buf offset
        (rest, offset') ← fade buf pitch n (f.sub gain f.attenuation) (next_offset pitch offset)
        some (f.truncate (f.mul p gain) ∷ rest, offset')
      in if f.less (f.of_int (pos 0)) gain then faded else some (replicate (suc n) (pos 0), offset)

  -- What `plc_fillin` prepares where a gap starts: the first samples, and the state.
  unfoldable pub open_gap : Plc F → ℕ → Option (List ℤ × Plc F)
  open_gap s len =
      let s1 = normalise_history s in
      let pitch =
        amdf_pitch pitch_min pitch_max
          (drop (history_len - correlation_span - pitch_min) s1.history) correlation_span in
      let overlap = pitch / 4 in
      let step = f.div (f.of_int (pos 1)) (f.of_int (pos overlap)) in
      let opened = do
        s2 ← make_cycle (record s1 { pitch = pitch })
        lead ← lead_in s2.history s2.pitchbuf step 0 overlap step (f.sub (f.of_int (pos 1)) step)
        some (lead, record s2 { pitch_offset = overlap })
      in if leb overlap len then opened else none

  -- `plc_fillin`: the synthetic samples, `len` of them, and the state.
  unfoldable pub fillin : Plc F → ℕ → Option (List ℤ × Plc F)
  fillin s len = do
    (lead, s1) ← if s.missing_samples == 0 then open_gap s len else some ([], s)
    let gain = if s.missing_samples == 0 then f.of_int (pos 1) else gain_after s.missing_samples
    (rest, offset) ← fade s1.pitchbuf s1.pitch (len - length lead) gain s1.pitch_offset
    some (
      lead ++ rest,
      save_history (record s1 { pitch_offset = offset; missing_samples = s1.missing_samples + len })
          (lead ++ rest),
    )

  unfoldable pub init : Plc F
  init = record {
    missing_samples = 0;
    pitch_offset = 0;
    pitch = 0;
    pitchbuf = replicate pitch_min (f.of_int (pos 0));
    history = replicate history_len (pos 0);
    buf_ptr = 0;
  }
