-- ===== src/TimeScale/Speed.antt =====
-- Speeding up: the loops end, the buffer is not left, and samples are only dropped.
use securecom_voice.Base.{
  ℕ, zero, suc, ◌+◌, ◌-◌, ◌*◌, ◌≤◌, ◌<◌, ◌≡◌, refl, sym, ap, subst, ◌∙◌, true, false, Option, some,
  List, [], ◌∷◌, arith, length, take, drop, length-take, length-drop, ltb, ◌==◌, Bool-cases, inl,
  inr, ◌>>=◌,
}
use securecom_voice.Base.Int.{ℤ, pos, ◌+ℤ◌, ◌-ℤ◌}
use securecom_voice.Plc.{amdf_pitch}
use securecom_voice.Plc.Pitch.{amdf_pitch_within}
use securecom_voice.TimeScale.{
  TimeFloat, TimeScale, Turn, goes_on, returns, unfinished, next, last_samples, one,
  overlap_samples, overlap_add, set_lcp, drop_cycle, change_cycle, scale_loop, time_scale,
}
use securecom_voice.TimeScale.Buffer.{
  IsScale, Keeps, put_in-some, Keeps-weaker, LessLeft, whole_buffers_lem, last_samples_lem,
}

module _ {F : Type 0} (f : TimeFloat F) where
  length-overlap_samples :
      (step weight : F) (xs ys : List ℤ)
      → length xs ≤ length ys
      → length (overlap_samples f step weight xs ys) ≡ length xs
  unfolding overlap_samples
  length-overlap_samples step weight [] ys h = refl
  length-overlap_samples step weight (x ∷ xs) [] h = absurd (omega arith)
  length-overlap_samples step weight (x ∷ xs) (y ∷ ys) h =
      ap suc (length-overlap_samples step (f.add weight step) xs ys (omega arith))

  length-overlap_add :
      (xs ys : List ℤ) (n : ℕ) → n ≤ length xs → n ≤ length ys → length (overlap_add f xs ys n) ≡ n
  unfolding overlap_add
  length-overlap_add xs ys n h k =
      let a = length-take n xs in
      let b = length-take n ys in
      length-overlap_samples _ _ (take n xs) (take n ys) (omega (arith, a, b)) ∙ omega (arith, a)

  drop_cycle_lem :
      (s : TimeScale F) (pitch : ℕ) (rest out : List ℤ)
      → IsScale s
      → s.fill ≡ s.buf_len
      → 0 < pitch
      → pitch ≤ s.min_pitch
      → (t : Turn F) × ((drop_cycle f s pitch rest out ≡ some t)
          × Keeps 1 (λ s'. Unit) s rest out t)
  unfolding drop_cycle
  drop_cycle_lem s pitch rest out v e p q =
      let left = length-drop pitch s.buf in
      let over =
        length-overlap_add s.buf (drop pitch s.buf) pitch (omega (arith, v.0, v.1, v.2))
          (omega (arith, left, v.0, v.1, v.2)) in
      let (b1, (e1, l1)) =
        put_in-some s pitch (overlap_add f s.buf (drop pitch s.buf) pitch) v.0
          (omega (arith, over, v.1, v.2)) in
      let s1 : TimeScale F = record s { buf = b1 } in
      let tail_size = length-take (s.buf_len - 2 * pitch) (drop (2 * pitch) b1) in
      let (b2, (e2, l2)) =
        put_in-some s1 pitch (take (s.buf_len - 2 * pitch) (drop (2 * pitch) b1)) l1
          (omega (arith, tail_size, v.1, v.2)) in
      let s2 : TimeScale F = record s { buf = b2 } in
      elim (Bool-cases (ltb (length rest) pitch)) [
        | inl short ↦
            let short' : length rest < pitch = ground (arith, short) in
            let (b3, (e3, l3)) =
              put_in-some s2 (s.buf_len - pitch) rest l2 (omega (arith, v.1, v.2)) in
            (
              returns (record s { buf = b3; fill = s.fill + length rest - pitch }) out,
              (
                rw (e1, e2, short, e3) refl,
                ((l3, v.1, v.2, v.3, v.4), omega (arith, v.2), refl, omega arith),
              ),
            )
        | inr long ↦
            let long' : pitch ≤ length rest = ground (arith, long) in
            let cut = length-take pitch rest in
            let rest_size = length-drop pitch rest in
            let (b3, (e3, l3)) =
              put_in-some s2 (s.buf_len - pitch) (take pitch rest) l2
                (omega (arith, cut, v.1, v.2)) in
            (
              goes_on (record s { buf = b3 }) (drop pitch rest) out,
              (
                rw (e1, e2, long, e3) refl,
                (
                  (l3, v.1, v.2, v.3, v.4),
                  e,
                  refl,
                  refl,
                  tt,
                  omega (arith, rest_size),
                  omega (arith, rest_size),
                ),
              ),
            )
      ]

  set_lcp_lem :
      (s : TimeScale F) (pitch : ℕ)
      → (z : ℤ) × (nudge : F) × (set_lcp f s pitch ≡ record s { lcp = z; rate_nudge = nudge })
  unfolding set_lcp
  set_lcp_lem s pitch =
      let lcpf = f.mul (f.of_int (pos pitch)) s.rcomp in
      let lcp = f.truncate lcpf in
      let nudge = f.add s.rate_nudge (f.sub (f.of_int lcp) lcpf) in
      elim (Bool-cases (f.at_most f.half nudge)) [
        | inl a ↦ (lcp -ℤ pos 1, f.sub nudge (one f), rw a refl)
        | inr a ↦ elim (Bool-cases (f.at_most nudge (f.sub (f.of_int (pos 0)) f.half))) [
          | inl b ↦ (lcp +ℤ pos 1, f.add nudge (one f), rw (a, b) refl)
          | inr b ↦ (lcp, nudge, rw (a, b) refl)
        ]
      ]

  -- A rate below one.
  abbrev pub SpeedsUp : F → Type 0
  SpeedsUp rate = (f.equal rate (one f) ≡ false) × (f.less rate (one f) ≡ true)

  change_cycle_lem :
      (s : TimeScale F) (rest out : List ℤ)
      → IsScale s
      → s.fill ≡ s.buf_len
      → SpeedsUp s.playout_rate
      → (t : Turn F) × ((change_cycle f s rest out ≡ some t) × Keeps 1 (λ s'. Unit) s rest out t)
  unfolding change_cycle
  change_cycle_lem s rest out v e (ne, lt) =
      let pitch = amdf_pitch s.min_pitch s.max_pitch s.buf s.min_pitch in
      let within = amdf_pitch_within s.max_pitch s.min_pitch s.buf s.min_pitch v.3 in
      let (z, nudge, same) = set_lcp_lem s pitch in
      let (t, (r, k)) =
        drop_cycle_lem (record s { lcp = z; rate_nudge = nudge }) pitch rest out v e
          (omega (arith, within, v.4)) within.1 in
      (
        t,
        (
          rw (ne, lt) (ap (λ s'. drop_cycle f s' pitch rest out) same ∙ r),
          Keeps-weaker 1 (λ s'. Unit) s (record s { lcp = z; rate_nudge = nudge }) rest rest out out
              t refl refl (omega arith) (omega arith) k,
        ),
      )

  -- What the call comes to.
  abbrev pub Scaled : ℕ → Option (Turn F) → Type 0
  Scaled most o =
      (s' : TimeScale F) × (out : List ℤ) × ((o ≡ some (returns s' out))
        × (IsScale s' × ((s'.fill < s'.buf_len) × (length out + s'.fill ≤ most))))

  -- What `n` turns of the loop do.
  abbrev Loops : ℕ → Type 0
  Loops n =
      (s : TimeScale F) (rest out : List ℤ)
      → IsScale s
      → s.fill ≡ s.buf_len
      → SpeedsUp s.playout_rate
      → length rest < n
      → Scaled (length out + length rest + s.buf_len) (scale_loop f n s rest out)

  after_change :
      (n : ℕ) (s : TimeScale F) (rest out : List ℤ) (t : Turn F)
      → Loops n
      → SpeedsUp s.playout_rate
      → length rest ≤ n
      → Keeps 1 (λ s'. Unit) s rest out t
      → Scaled (length out + length rest + s.buf_len) (next t (scale_loop f n))
  after_change n s rest out (goes_on s' rest' out') ih u l (v, e, q, b, p, m, o) =
      let (s2, out2, (r, (v2, (l2, o2)))) =
        ih s' rest' out' v e (subst SpeedsUp (sym q) u) (omega arith) in
      (s2, out2, (r, (v2, (l2, omega (arith, b)))))
  after_change n s rest out (returns s' out') ih u l (v, m, b, o) = (s', out', (refl, (v, (m, o))))
  after_change n s rest out unfinished ih u l k = elim k [ ]

  after_last :
      (n : ℕ) (s : TimeScale F) (rest out : List ℤ) (t : Turn F)
      → Loops n
      → SpeedsUp s.playout_rate
      → length rest ≤ n
      → Keeps 0 (λ s'. Unit) s rest out t
      → Scaled
          (length out + length rest + s.buf_len)
          (next t (change_cycle f) >>= λ t3. next t3 (scale_loop f n))
  after_last n s rest out (goes_on s' rest' out') ih u l (v, e, q, b, p, m, o) =
      let u' = subst SpeedsUp (sym q) u in
      let (t, (r, k)) = change_cycle_lem s' rest' out' v e u' in
      let (s2, out2, (r2, (v2, (l2, o2)))) = after_change n s' rest' out' t ih u' (omega arith) k in
      (s2, out2, (rw r r2, (v2, (l2, omega (arith, b)))))
  after_last n s rest out (returns s' out') ih u l (v, m, b, o) = (s', out', (refl, (v, (m, o))))
  after_last n s rest out unfinished ih u l k = elim k [ ]

  after_whole :
      (n : ℕ) (s : TimeScale F) (rest out : List ℤ) (t : Turn F)
      → Loops n
      → SpeedsUp s.playout_rate
      → length rest ≤ n
      → Keeps 0 LessLeft s rest out t
      → Scaled (length out + length rest + s.buf_len) (
          next t last_samples >>= λ t2. next t2 (change_cycle f) >>= λ t3. next t3 (scale_loop f n))
  after_whole n s rest out (goes_on s' rest' out') ih u l (v, e, q, b, p, m, o) =
      let u' = subst SpeedsUp (sym q) u in
      let (t, (r, k)) = last_samples_lem s' rest' out' v e p in
      let (s2, out2, (r2, (v2, (l2, o2)))) = after_last n s' rest' out' t ih u' (omega arith) k in
      (s2, out2, (rw r r2, (v2, (l2, omega (arith, b)))))
  after_whole n s rest out (returns s' out') ih u l (v, m, b, o) = (s', out', (refl, (v, (m, o))))
  after_whole n s rest out unfinished ih u l k = elim k [ ]

  scale_loop_lem : (n : ℕ) → Loops n
  unfolding scale_loop
  scale_loop_lem zero s rest out v e u l = absurd (omega arith)
  scale_loop_lem (suc n) s rest out v e u l =
      let full : (s.fill == s.buf_len) ≡ true = ground (arith, e) in
      let (t, (r, k)) = whole_buffers_lem (suc n) s rest out v e l in
      let (s2, out2, (r2, w)) = after_whole n s rest out t (scale_loop_lem n) u (omega arith) k in
      (s2, out2, (rw (full, r) r2, w))

  -- Playing faster: on fuel for one turn more than there are samples in, the call returns, whatever
  -- the samples are and however the arithmetic rounds. It does not leave its buffer, which is not
  -- full afterwards; and what it gives and what it holds are together no more than what it held and
  -- what it was given.
  pub speed_up_lem :
      (fuel : ℕ) (s : TimeScale F) (input : List ℤ)
      → IsScale s
      → s.fill < s.buf_len
      → SpeedsUp s.playout_rate
      → length input < fuel
      → (s' : TimeScale F) × (out : List ℤ) × ((time_scale f fuel s input ≡ some (returns s' out))
          × (IsScale s'
              × ((s'.fill < s'.buf_len) × (length out + s'.fill ≤ s.fill + length input))))
  unfolding time_scale
  speed_up_lem fuel s input v h (ne, lt) l =
      elim (Bool-cases (ltb (s.fill + length input) s.buf_len)) [
        | inl short ↦
            let short' : s.fill + length input < s.buf_len = ground (arith, short) in
            let (b, (e, size)) = put_in-some s s.fill input v.0 (omega (arith, v.1)) in
            (
              record s { buf = b; fill = s.fill + length input },
              [],
              (rw (ne, short, e) refl, ((size, v.1, v.2, v.3, v.4), (short', omega arith))),
            )
        | inr long ↦
            let long' : s.buf_len ≤ s.fill + length input = ground (arith, long) in
            let room = s.buf_len - s.fill in
            let cut = length-take room input in
            let left = length-drop room input in
            let (b, (e, size)) =
              put_in-some s s.fill (take room input) v.0 (omega (arith, cut, v.1)) in
            let (s', out, (r, (v', (l', o)))) =
              scale_loop_lem fuel (record s { buf = b; fill = s.buf_len }) (drop room input) []
                (size, v.1, v.2, v.3, v.4) refl (ne, lt) (omega (arith, left)) in
            (s', out, (rw (ne, long, e) r, (v', (l', omega (arith, o, left)))))
      ]
