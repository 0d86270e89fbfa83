-- ===== src/TimeScale/Buffer.antt =====
-- What the parts of the loop of `time_scale` that copy do to the buffer and to what is left of the input.
use securecom_voice.Base.{
  ℕ, zero, suc, ◌+◌, ◌-◌, ◌*◌, ◌≤◌, ◌<◌, ◌≡◌, refl, ◌∙◌, false, some, List, ◌++◌, arith, length,
  take, drop, length-take, length-drop, length-append, ltb, Bool-cases, inl, inr,
}
use securecom_voice.Base.Int.{ℤ, pos, negsuc, ◌-ℤ◌, leb_ℤ}
use securecom_voice.Plc.{write_at}
use securecom_voice.Plc.Write.{length-write_at}
use securecom_voice.Plc.Pitch.{}
use securecom_voice.TimeScale.{
  TimeScale, Turn, goes_on, returns, unfinished, put_in, whole_buffers, last_samples, scale_buf_len,
}

module _ {F : Type 0} where
  -- The sizes of a state: those that do not change, and the buffer.
  abbrev pub IsScale : TimeScale F → Type 0
  IsScale s =
      (length s.buf ≡ scale_buf_len)
      × (s.buf_len ≤ scale_buf_len)
      × (2 * s.min_pitch ≤ s.buf_len)
      × (s.max_pitch ≤ s.min_pitch)
      × (0 < s.max_pitch)

  -- A turn from a full buffer: what it leaves of the input is shorter by `k` at least, and no sample
  -- is made.
  abbrev pub Keeps : ℕ → (TimeScale F → Type 0) → TimeScale F → List ℤ → List ℤ → Turn F → Type 0
  Keeps k P s rest out (goes_on s' rest' out') =
      IsScale s'
      × (s'.fill ≡ s'.buf_len)
      × (s'.playout_rate ≡ s.playout_rate)
      × (s'.buf_len ≡ s.buf_len)
      × P s'
      × (length rest' + k ≤ length rest)
      × (length out' + length rest' ≤ length out + length rest)
  Keeps k P s rest out (returns s' out') =
      IsScale s'
      × (s'.fill < s'.buf_len)
      × (s'.buf_len ≡ s.buf_len)
      × (length out' + s'.fill ≤ length out + length rest + s.buf_len)
  Keeps k P s rest out unfinished = ⊥

  put_in_lem :
      (s : TimeScale F) (i : ℕ) (xs : List ℤ)
      → i + length xs ≤ length s.buf
      → put_in s i xs ≡ some (record s { buf = write_at s.buf i xs })
  unfolding put_in
  put_in_lem s i xs h = ground arith

  put-IsScale :
      (s : TimeScale F) (i : ℕ) (xs : List ℤ)
      → IsScale s
      → i + length xs ≤ length s.buf
      → IsScale (record s { buf = write_at s.buf i xs })
  put-IsScale s i xs (size, v1, v2, v3, v4) h =
      (length-write_at s.buf i xs h ∙ size, v1, v2, v3, v4)

  -- A copy into the buffer, by the buffer it leaves.
  pub put_in-some :
      (s : TimeScale F) (i : ℕ) (xs : List ℤ)
      → length s.buf ≡ scale_buf_len
      → i + length xs ≤ scale_buf_len
      → (b : List ℤ) × ((put_in s i xs ≡ some (record s { buf = b })) × (length b ≡ scale_buf_len))
  put_in-some s i xs e h =
      let fits : i + length xs ≤ length s.buf = omega (arith, e) in
      (write_at s.buf i xs, (put_in_lem s i xs fits, length-write_at s.buf i xs fits ∙ e))

  pub Keeps-weaker :
      (k : ℕ) (P : TimeScale F → Type 0) (s s' : TimeScale F) (rest rest' out out' : List ℤ)
      (t : Turn F)
      → s'.playout_rate ≡ s.playout_rate
      → s'.buf_len ≡ s.buf_len
      → length rest' ≤ length rest
      → length out' + length rest' ≤ length out + length rest
      → Keeps k P s' rest' out' t
      → Keeps k P s rest out t
  Keeps-weaker k P s s' rest rest' out out' (goes_on s2 rest2 out2) er eb lr lo
        (v, e, r, b, p, l, o) =
      (v, e, r ∙ er, b ∙ eb, p, omega arith, omega arith)
  Keeps-weaker k P s s' rest rest' out out' (returns s2 out2) er eb lr lo (v, l, b, o) =
      (v, l, b ∙ eb, omega (arith, eb))
  Keeps-weaker k P s s' rest rest' out out' unfinished er eb lr lo h = elim h [ ]

  abbrev pub LessLeft : TimeScale F → Type 0
  LessLeft s = leb_ℤ (pos s.buf_len) s.lcp ≡ false

  pub whole_buffers_lem :
      (n : ℕ) (s : TimeScale F) (rest out : List ℤ)
      → IsScale s
      → s.fill ≡ s.buf_len
      → length rest < n
      → (t : Turn F) × ((whole_buffers n s rest out ≡ some t) × Keeps 0 LessLeft s rest out t)
  unfolding whole_buffers
  whole_buffers_lem zero s rest out v e l = absurd (omega arith)
  whole_buffers_lem (suc n) s rest out v e l = elim (Bool-cases (leb_ℤ (pos s.buf_len) s.lcp)) [
    | inr done ↦
        (goes_on s rest out, (rw done refl, (v, e, refl, refl, done, omega arith, omega arith)))
    | inl more ↦ elim (Bool-cases (ltb (length rest) s.buf_len)) [
      | inl short ↦
          let fits : 0 + length rest ≤ length s.buf = ground (arith, short, v.0, v.1) in
          let v' = put-IsScale s 0 rest v fits in
          let size = length-append out (take s.buf_len s.buf) in
          (
            returns
                (record s {
                  buf = write_at s.buf 0 rest;
                  fill = length rest;
                  lcp = s.lcp -ℤ pos s.buf_len;
                })
                (out ++ take s.buf_len s.buf),
            (
              rw (more, short, put_in_lem s 0 rest fits) refl,
              (v', ground (arith, short), refl, omega (arith, size, length-take s.buf_len s.buf)),
            ),
          )
      | inr long ↦
          let cut = length-take s.buf_len rest in
          let fits : 0 + length (take s.buf_len rest) ≤ length s.buf =
            omega (arith, cut, v.0, v.1) in
          let s' : TimeScale F = record s {
            buf = write_at s.buf 0 (take s.buf_len rest);
            lcp = s.lcp -ℤ pos s.buf_len;
          } in
          let v' : IsScale s' = put-IsScale s 0 (take s.buf_len rest) v fits in
          let size = length-append out (take s.buf_len s.buf) in
          let left = length-drop s.buf_len rest in
          let longer : s.buf_len ≤ length rest = ground (arith, long) in
          let (t, (r, k)) =
            whole_buffers_lem n s' (drop s.buf_len rest) (out ++ take s.buf_len s.buf) v' e
              (omega (arith, left, v.2, v.3, v.4)) in
          (
            t,
            (
              rw (more, long, put_in_lem s 0 (take s.buf_len rest) fits) r,
              Keeps-weaker 0 LessLeft s s' rest _ out _ t refl refl (omega (arith, left))
                  (omega (arith, size, left, length-take s.buf_len s.buf, v.0, v.1)) k,
            ),
          )
    ]
  ]

  pub last_samples_lem :
      (s : TimeScale F) (rest out : List ℤ)
      → IsScale s
      → s.fill ≡ s.buf_len
      → LessLeft s
      → (t : Turn F) × ((last_samples s rest out ≡ some t) × Keeps 0 (λ s'. Unit) s rest out t)
  unfolding last_samples
  last_samples_lem s rest out v e l =
      elim s.lcp
          as (λ z.
            leb_ℤ (pos s.buf_len) z ≡ false
            → (t : Turn F) × ((last_samples (record s { lcp = z }) rest out ≡ some t)
                × Keeps 0 (λ s'. Unit) s rest out t)) [
                  | pos zero ↦ λ h. (
                    goes_on (record s { lcp = pos 0 }) rest out,
                    (refl, (v, e, refl, refl, tt, omega arith, omega arith)),
                  )
                  | negsuc m ↦ λ h. (
                    goes_on (record s { lcp = negsuc m }) rest out,
                    (refl, (v, e, refl, refl, tt, omega arith, omega arith)),
                  )
                  | pos (suc m) ↦ λ h. copied m h
                ]
        l
    where
      copied :
          (m : ℕ)
          → leb_ℤ (pos s.buf_len) (pos (suc m)) ≡ false
          → (t : Turn F) × ((last_samples (record s { lcp = pos (suc m) }) rest out ≡ some t)
              × Keeps 0 (λ s'. Unit) s rest out t)
      copied m h =
          let n = suc m in
          let z : TimeScale F = record s { lcp = pos n } in
          let less : n < s.buf_len = ground (arith, h) in
          let tail = take (s.buf_len - n) (drop n s.buf) in
          let tail_size = length-take (s.buf_len - n) (drop n s.buf) in
          let size = length-append out (take n s.buf) in
          let head_size = length-take n s.buf in
          let (b1, (e1, l1)) = put_in-some z 0 tail v.0 (omega (arith, tail_size, v.1)) in
          let z1 : TimeScale F = record z { buf = b1 } in
          elim (Bool-cases (ltb (length rest) n)) [
            | inl short ↦
                let short' : length rest < n = ground (arith, short) in
                let (b2, (e2, l2)) = put_in-some z1 (s.buf_len - n) rest l1 (omega (arith, v.1)) in
                (
                  returns (record z1 { buf = b2; fill = s.buf_len - n + length rest; lcp = pos 0 })
                      (out ++ take n s.buf),
                  (
                    rw (short, e1, e2) refl,
                    ((l2, v.1, v.2, v.3, v.4), omega arith, refl, omega (arith, size, head_size)),
                  ),
                )
            | inr long ↦
                let long' : n ≤ length rest = ground (arith, long) in
                let cut = length-take n rest in
                let left = length-drop n rest in
                let (b2, (e2, l2)) =
                  put_in-some z1 (s.buf_len - n) (take n rest) l1 (omega (arith, cut, v.1)) in
                (
                  goes_on (record z1 { buf = b2; lcp = pos 0 }) (drop n rest) (out ++ take n s.buf),
                  (
                    rw (long, e1, e2) refl,
                    (
                      (l2, v.1, v.2, v.3, v.4),
                      e,
                      refl,
                      refl,
                      tt,
                      omega (arith, left),
                      omega (arith, left, size, head_size, v.0, v.1),
                    ),
                  ),
                )
          ]
