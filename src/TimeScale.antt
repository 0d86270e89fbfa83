-- ===== src/TimeScale.antt =====
-- jni/time_scale.c and jni/spandsp/private/time_scale.h: playing sound at another speed. `F` stands
-- for the floating-point numbers, one type for `float` and `double`, and `TimeFloat` for the
-- operations on them. An array of the caller is a list: the samples that `time_scale` writes to
-- `out` are its result. The copies within the buffer are taken to work for ranges that overlap. A
-- result `none` is an access outside the buffer; the loops run on fuel.
pub mod Buffer
pub mod Speed
pub mod Wrapper
mod Tests
use securecom_voice.Base.{
  ℕ, zero, suc, ◌+◌, ◌-◌, ◌*◌, ◌/◌, Bool, ◌&&◌, Option, none, some, List, [], ◌∷◌, ◌++◌, length,
  take, drop, ltb, leb, ◌==◌, if◌then◌else◌, ◌>>=◌,
}
use securecom_voice.Base.Int.{ℤ, pos, negsuc, ◌+ℤ◌, ◌-ℤ◌, leb_ℤ}
use securecom_voice.Plc.{write_at, amdf_pitch}

-- The operations of the floating-point unit, and the constants 0.99, 1.01 and 0.5.
pub record TimeFloat (F : Type 0) : Type 0 where
  pub of_int : ℤ → F
  pub add : F → F → F
  pub sub : F → F → F
  pub mul : F → F → F
  pub div : F → F → F
  pub less : F → F → Bool
  pub at_most : F → F → Bool
  pub equal : F → F → Bool
  pub truncate : F → ℤ
  pub low : F
  pub high : F
  pub half : F

-- `TIME_SCALE_BUF_LEN`, for a rate of 48000 samples and a pitch of 60.
abbrev pub max_sample_rate : ℕ
max_sample_rate = 48000

abbrev pub scale_buf_len : ℕ
scale_buf_len = 2 * max_sample_rate / 60

pub record TimeScale (F : Type 0) : Type 0 where
  pub sample_rate : ℕ
  pub min_pitch : ℕ
  pub max_pitch : ℕ
  pub buf_len : ℕ
  pub playout_rate : F
  pub rcomp : F
  pub rate_nudge : F
  pub fill : ℕ
  pub lcp : ℤ
  pub buf : List ℤ

-- What a part of the loop comes to: it goes on with what is left of the input and the output so
-- far, or the function returns.
pub data Turn (F : Type 0) : Type 0 where
  goes_on : TimeScale F → List ℤ → List ℤ → Turn F
  returns : TimeScale F → List ℤ → Turn F
  unfinished : Turn F

module _ {F : Type 0} where
  abbrev pub next : Turn F → (TimeScale F → List ℤ → List ℤ → Option (Turn F)) → Option (Turn F)
  next (goes_on s rest out) k = k s rest out
  next (returns s out) k = some (returns s out)
  next unfinished k = some unfinished

  -- `memcpy` into the buffer.
  unfoldable pub put_in : TimeScale F → ℕ → List ℤ → Option (TimeScale F)
  put_in s i xs =
      if leb (i + length xs) (length s.buf)
      then some (record s { buf = write_at s.buf i xs })
      else none

  -- `while (s->lcp >= s->buf_len)`.
  unfoldable pub whole_buffers : ℕ → TimeScale F → List ℤ → List ℤ → Option (Turn F)
  whole_buffers zero s rest out = some unfinished
  whole_buffers (suc n) s rest out =
      let out' = out ++ take s.buf_len s.buf in
      let left = s.lcp -ℤ pos s.buf_len in
      let stopped = do
        s' ← put_in s 0 rest
        some (returns (record s' { fill = length rest; lcp = left }) out')
      in let filled = do
        s' ← put_in s 0 (take s.buf_len rest)
        whole_buffers n (record s' { lcp = left }) (drop s.buf_len rest) out'
        in if leb_ℤ (pos s.buf_len) s.lcp
          then (if ltb (length rest) s.buf_len then stopped else filled)
          else some (goes_on s rest out)

  -- `if (s->lcp > 0)`.
  unfoldable pub last_samples : TimeScale F → List ℤ → List ℤ → Option (Turn F)
  last_samples s rest out = elim s.lcp [
    | pos (suc k) ↦
        let n = suc k in
        let out' = out ++ take n s.buf in
        let stopped = do
          s1 ← put_in s 0 (take (s.buf_len - n) (drop n s.buf))
          s2 ← put_in s1 (s.buf_len - n) rest
          some (returns (record s2 { fill = s.buf_len - n + length rest; lcp = pos 0 }) out')
        in let filled = do
          s1 ← put_in s 0 (take (s.buf_len - n) (drop n s.buf))
          s2 ← put_in s1 (s.buf_len - n) (take n rest)
          some (goes_on (record s2 { lcp = pos 0 }) (drop n rest) out')
          in if ltb (length rest) n then stopped else filled
    | _ ↦ some (goes_on s rest out)
  ]

module _ {F : Type 0} (f : TimeFloat F) where
  abbrev pub one : F
  one = f.of_int (pos 1)

  -- The second array, led over from the first.
  unfoldable pub overlap_samples : F → F → List ℤ → List ℤ → List ℤ
  overlap_samples step weight [] ys = []
  overlap_samples step weight (x ∷ xs) [] = []
  overlap_samples step weight (x ∷ xs) (y ∷ ys) =
      f.truncate (f.add (f.mul (f.of_int x) (f.sub one weight)) (f.mul (f.of_int y) weight))
      ∷ overlap_samples step (f.add weight step) xs ys

  unfoldable pub overlap_add : List ℤ → List ℤ → ℕ → List ℤ
  overlap_add amp1 amp2 len =
      overlap_samples (f.div one (f.of_int (pos len))) (f.of_int (pos 0)) (take len amp1)
        (take len amp2)

  -- How many samples are copied before the next cycle, for a cycle of `pitch` samples.
  unfoldable pub set_lcp : TimeScale F → ℕ → TimeScale F
  set_lcp s pitch =
      let lcpf = f.mul (f.of_int (pos pitch)) s.rcomp in
      let lcp = f.truncate lcpf in
      let nudge = f.add s.rate_nudge (f.sub (f.of_int lcp) lcpf) in
      if f.at_most f.half nudge
      then record s { lcp = lcp -ℤ pos 1; rate_nudge = f.sub nudge one }
      else if f.at_most nudge (f.sub (f.of_int (pos 0)) f.half)
      then record s { lcp = lcp +ℤ pos 1; rate_nudge = f.add nudge one }
      else record s { lcp = lcp; rate_nudge = nudge }

  -- Speed up: a cycle is dropped.
  unfoldable pub drop_cycle : TimeScale F → ℕ → List ℤ → List ℤ → Option (Turn F)
  drop_cycle s pitch rest out = do
    s1 ← put_in s pitch (overlap_add s.buf (drop pitch s.buf) pitch)
    s2 ← put_in s1 pitch (take (s.buf_len - 2 * pitch) (drop (2 * pitch) s1.buf))
    let stopped = do
      s3 ← put_in s2 (s.buf_len - pitch) rest
      some (returns (record s3 { fill = s.fill + length rest - pitch }) out)
    let filled = do
      s3 ← put_in s2 (s.buf_len - pitch) (take pitch rest)
      some (goes_on s3 (drop pitch rest) out)
    if ltb (length rest) pitch then stopped else filled

  -- Slow down: a cycle is inserted.
  unfoldable pub insert_cycle : TimeScale F → ℕ → List ℤ → List ℤ → Option (Turn F)
  insert_cycle s pitch rest out = do
    s' ← put_in s 0 (overlap_add (drop pitch s.buf) s.buf pitch)
    some (goes_on s' rest (out ++ take pitch s.buf))

  unfoldable pub change_cycle : TimeScale F → List ℤ → List ℤ → Option (Turn F)
  change_cycle s rest out =
      let pitch = amdf_pitch s.min_pitch s.max_pitch s.buf s.min_pitch in
      let s' = set_lcp s pitch in
      if f.equal s.playout_rate one
      then some (goes_on (record s { lcp = pos 0 }) rest out)
      else if f.less s.playout_rate one
      then drop_cycle s' pitch rest out
      else insert_cycle s' pitch rest out

  -- `while (s->fill == s->buf_len)`.
  unfoldable pub scale_loop : ℕ → TimeScale F → List ℤ → List ℤ → Option (Turn F)
  scale_loop zero s rest out = some unfinished
  scale_loop (suc n) s rest out =
      let turn = do
        t1 ← whole_buffers (suc n) s rest out
        t2 ← next t1 last_samples
        t3 ← next t2 change_cycle
        next t3 (scale_loop n)
      in if s.fill == s.buf_len then turn else some (returns s out)

  unfoldable pub time_scale : ℕ → TimeScale F → List ℤ → Option (Turn F)
  time_scale fuel s input =
      let room = s.buf_len - s.fill in
      let topped_up = do
        s' ← put_in s s.fill input
        some (returns (record s' { fill = s.fill + length input }) [])
      in let filled = do
        s' ← put_in s s.fill (take room input)
        scale_loop fuel (record s' { fill = s.buf_len }) (drop room input) []
        in if f.equal s.playout_rate one
          then some (returns (record s { fill = 0 }) (take s.fill s.buf ++ input))
          else if ltb (s.fill + length input) s.buf_len
          then topped_up
          else filled

  -- `none` is the result -1, which leaves the state as it was.
  unfoldable pub time_scale_rate : TimeScale F → F → Option (TimeScale F)
  time_scale_rate s rate =
      if f.at_most rate (f.of_int (pos 0))
      then none
      else if f.at_most f.low rate && f.at_most rate f.high
      then some (record s { lcp = pos 0; playout_rate = one })
      else if f.less rate one
      then some (record s { rcomp = f.div rate (f.sub one rate); playout_rate = rate })
      else some (record s { rcomp = f.div one (f.sub rate one); playout_rate = rate })

  -- `s` is the memory as it was. `none` is the null pointer.
  unfoldable pub time_scale_init : TimeScale F → ℕ → F → Option (TimeScale F)
  time_scale_init s sample_rate rate =
      let made = do
        s' ←
            time_scale_rate
              (record s {
                sample_rate = sample_rate;
                min_pitch = sample_rate / 60;
                max_pitch = sample_rate / 250;
                buf_len = 2 * sample_rate / 60;
              })
              rate
        some (record s' { rate_nudge = f.of_int (pos 0); fill = 0; lcp = pos 0 })
      in if ltb max_sample_rate sample_rate then none else made

  unfoldable pub max_output_len : TimeScale F → ℕ → ℤ
  max_output_len s input_len = f.truncate (
      f.add (f.add (f.mul (f.of_int (pos input_len)) s.playout_rate) (f.of_int (pos s.min_pitch)))
        one)
