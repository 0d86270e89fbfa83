-- ===== src/Codec/Filters/Equation.antt =====
-- The filters compute difference equations: an output is a sample and the rounded sum of the
-- coefficients times the samples and outputs before.
use securecom_voice.Base.{
  ℕ, ◌<◌, ◌≡◌, refl, ap, ap₂, ◌∙◌, subst, Option, some, List, [], ◌∷◌, length, arith, get_elem?,
}
use securecom_voice.Base.Int.{ℤ, pos, ◌+ℤ◌, ◌*ℤ◌}
use securecom_voice.Codec.Rms.{word16, mult16_16}
use securecom_voice.Codec.Filters.{
  saturate, pshr32, filter_loop, filter_mem16, iir_mem16, fir_mem16, output, neg16, pole_zero_taps,
  taps, add32, mac16_16, cleared, syn_percep_zero16, residue_percep_zero16,
}

-- The samples so far with their outputs, which have the sign changed; the newest comes first.
abbrev pub History : Type 0
History = List (ℤ × ℤ)

-- Before the first sample all are zero.
abbrev pub newest : History → ℤ × ℤ
newest [] = (pos 0, pos 0)
newest (p ∷ h) = p

abbrev pub older : History → History
older [] = []
older (p ∷ h) = h

-- The sum of a filter with two arrays of coefficients, the oldest products first.
abbrev pub pole_zero_sum : (num den : List ℤ) → History → ℤ
pole_zero_sum (b ∷ []) (a ∷ den) h = add32 (mult16_16 b (newest h).0) (mult16_16 a (newest h).1)
pole_zero_sum (b ∷ b' ∷ num) (a ∷ den) h =
    mac16_16 (mac16_16 (pole_zero_sum (b' ∷ num) den (older h)) b (newest h).0) a (newest h).1
pole_zero_sum num den h = pos 0

-- The sum of a filter with one array, for the samples or for the outputs.
abbrev pub one_sum : (ℤ × ℤ → ℤ) → List ℤ → History → ℤ
one_sum pick [] h = pos 0
one_sum pick (c ∷ []) h = mult16_16 c (pick (newest h))
one_sum pick (c ∷ c' ∷ cs) h = mac16_16 (one_sum pick (c' ∷ cs) (older h)) c (pick (newest h))

-- What the memory holds: the sums with the first coefficients left off.
pole_zero_states : (num den : List ℤ) → History → List ℤ
pole_zero_states [] den h = []
pole_zero_states (b ∷ num) [] h = []
pole_zero_states (b ∷ num) (a ∷ den) h =
    pole_zero_sum (b ∷ num) (a ∷ den) h ∷ pole_zero_states num den h

one_states : (ℤ × ℤ → ℤ) → List ℤ → History → List ℤ
one_states pick [] h = []
one_states pick (c ∷ cs) h = one_sum pick (c ∷ cs) h ∷ one_states pick cs h

-- A sample and a sum, which has thirteen bits behind the point, rounded and kept within 16 bits.
abbrev pub rounded : ℤ → ℤ → ℤ
rounded x sum = word16 (saturate (add32 x (pshr32 sum 13)) 32767)

-- The outputs by the equation, and the history that they leave.
abbrev pub by_equation : (History → ℤ) → History → List ℤ → List ℤ
by_equation sum h [] = []
by_equation sum h (x ∷ xs) =
    rounded x (sum h) ∷ by_equation sum ((x, neg16 (rounded x (sum h))) ∷ h) xs

abbrev pub history : (History → ℤ) → History → List ℤ → History
history sum h [] = h
history sum h (x ∷ xs) = history sum ((x, neg16 (rounded x (sum h))) ∷ h) xs

module _ (update : ℤ → ℤ → List ℤ → Option (List ℤ)) (sum : History → ℤ) (states : History → List ℤ)
    (first : (h : History) → get_elem? (states h) 0 ≡ some (sum h))
    (step : (x nyi : ℤ) (h : History)
      → update x nyi (states h) ≡ some (states ((x, nyi) ∷ h))) where
  filter_loop_lem :
      (h : History) (xs : List ℤ)
      → filter_loop update (states h) xs ≡ some (by_equation sum h xs, states (history sum h xs))
  unfolding filter_loop output
  filter_loop_lem h [] = refl
  filter_loop_lem h (x ∷ xs) =
      rw
        (
          first h,
          step x (neg16 (rounded x (sum h))) h,
          filter_loop_lem ((x, neg16 (rounded x (sum h))) ∷ h) xs,
        )
        refl

pole_zero_first :
    (num den : List ℤ) (h : History)
    → length num ≡ length den
    → 0 < length num
    → get_elem? (pole_zero_states num den h) 0 ≡ some (pole_zero_sum num den h)
unfolding pole_zero_states
pole_zero_first [] den h e l = absurd (omega arith)
pole_zero_first (b ∷ num) [] h e l = absurd (omega arith)
pole_zero_first (b ∷ num) (a ∷ den) h e l = refl

pole_zero_step :
    (num den : List ℤ) (x nyi : ℤ) (h : History)
    → length num ≡ length den
    → 0 < length num
    → pole_zero_taps num den x nyi (pole_zero_states num den h)
      ≡ some (pole_zero_states num den ((x, nyi) ∷ h))
unfolding pole_zero_states pole_zero_taps
pole_zero_step [] den x nyi h e l = absurd (omega arith)
pole_zero_step (b ∷ num) [] x nyi h e l = absurd (omega arith)
pole_zero_step (b ∷ []) (a ∷ []) x nyi h e l = refl
pole_zero_step (b ∷ []) (a ∷ a' ∷ den) x nyi h e l = absurd (omega arith)
pole_zero_step (b ∷ b' ∷ num) (a ∷ []) x nyi h e l = absurd (omega arith)
pole_zero_step (b ∷ b' ∷ num) (a ∷ a' ∷ den) x nyi h e l =
    rw (pole_zero_step (b' ∷ num) (a' ∷ den) x nyi h (omega arith) (omega arith)) refl

one_first :
    (pick : ℤ × ℤ → ℤ) (cs : List ℤ) (h : History)
    → 0 < length cs
    → get_elem? (one_states pick cs h) 0 ≡ some (one_sum pick cs h)
unfolding one_states
one_first pick [] h l = absurd (omega arith)
one_first pick (c ∷ cs) h l = refl

one_step :
    (pick : ℤ × ℤ → ℤ) (cs : List ℤ) (p : ℤ × ℤ) (h : History)
    → 0 < length cs
    → taps cs (pick p) (one_states pick cs h) ≡ some (one_states pick cs (p ∷ h))
unfolding one_states taps
one_step pick [] p h l = absurd (omega arith)
one_step pick (c ∷ []) p h l = refl
one_step pick (c ∷ c' ∷ cs) p h l = rw (one_step pick (c' ∷ cs) p h (omega arith)) refl

-- Nothing was there before: all sums are zero.
times_zero : (a : ℤ) → a *ℤ pos 0 ≡ pos 0
unfolding ◌*ℤ◌
times_zero a = ground arith

pub mult16_16-zero : (c : ℤ) → mult16_16 c (pos 0) ≡ pos 0
unfolding mult16_16 word16
mult16_16-zero c = times_zero (word16 c)

pub add32-zero : add32 (pos 0) (pos 0) ≡ pos 0
unfolding add32 ◌+ℤ◌
add32-zero = refl

pub mac16_16-zero : (c : ℤ) → mac16_16 (pos 0) c (pos 0) ≡ pos 0
unfolding mac16_16
mac16_16-zero c = rw (mult16_16-zero c) add32-zero

pole_zero_silent : (num den : List ℤ) → pole_zero_sum num den [] ≡ pos 0
pole_zero_silent [] den = refl
pole_zero_silent (b ∷ []) [] = refl
pole_zero_silent (b ∷ b' ∷ num) [] = refl
pole_zero_silent (b ∷ []) (a ∷ den) = rw (mult16_16-zero b, mult16_16-zero a) add32-zero
pole_zero_silent (b ∷ b' ∷ num) (a ∷ den) =
    rw (pole_zero_silent (b' ∷ num) den, mac16_16-zero b) (mac16_16-zero a)

pole_zero_cleared :
    (num den : List ℤ)
    → length num ≡ length den
    → pole_zero_states num den [] ≡ cleared (length num)
unfolding pole_zero_states
pole_zero_cleared [] den e = refl
pole_zero_cleared (b ∷ num) [] e = absurd (omega arith)
pole_zero_cleared (b ∷ num) (a ∷ den) e =
    ap₂ (λ s ss. s ∷ ss) (pole_zero_silent (b ∷ num) (a ∷ den))
      (pole_zero_cleared num den (omega arith))

one_silent :
    (pick : ℤ × ℤ → ℤ) → pick (pos 0, pos 0) ≡ pos 0 → (cs : List ℤ) → one_sum pick cs [] ≡ pos 0
one_silent pick z [] = refl
one_silent pick z (c ∷ []) = rw z (mult16_16-zero c)
one_silent pick z (c ∷ c' ∷ cs) = rw (z, one_silent pick z (c' ∷ cs)) (mac16_16-zero c)

one_cleared :
    (pick : ℤ × ℤ → ℤ)
    → pick (pos 0, pos 0) ≡ pos 0
    → (cs : List ℤ) → one_states pick cs [] ≡ cleared (length cs)
unfolding one_states
one_cleared pick z [] = refl
one_cleared pick z (c ∷ cs) =
    ap₂ (λ s ss. s ∷ ss) (one_silent pick z (c ∷ cs)) (one_cleared pick z cs)

abbrev pub sample : ℤ × ℤ → ℤ
sample p = p.0

abbrev pub negated : ℤ × ℤ → ℤ
negated p = p.1

-- From a cleared memory filter_mem16 computes the difference equation of its two arrays of
-- coefficients, where these have the memory's length, which is not zero.
pub filter_mem16_lem :
    (x num den : List ℤ) (ord : ℕ)
    → 0 < ord
    → length num ≡ ord
    → length den ≡ ord
    → (mem : List ℤ) × (filter_mem16 x num den (cleared ord)
        ≡ some (by_equation (pole_zero_sum num den) [] x, mem))
unfolding filter_mem16
filter_mem16_lem x num den ord l e0 e1 = (
  pole_zero_states num den (history (pole_zero_sum num den) [] x),
  subst
      (λ mem.
        filter_loop (pole_zero_taps num den) mem x
        ≡ some (
          by_equation (pole_zero_sum num den) [] x,
          pole_zero_states num den (history (pole_zero_sum num den) [] x),
        ))
      (pole_zero_cleared num den (omega arith) ∙ ap cleared e0)
      (filter_loop_lem (pole_zero_taps num den) (pole_zero_sum num den) (pole_zero_states num den)
        (λ h. pole_zero_first num den h (omega arith) (omega arith))
        (λ v nyi h. pole_zero_step num den v nyi h (omega arith) (omega arith)) [] x),
)

pub iir_mem16_lem :
    (x den : List ℤ) (ord : ℕ)
    → 0 < ord
    → length den ≡ ord
    → (mem : List ℤ) × (iir_mem16 x den (cleared ord)
        ≡ some (by_equation (one_sum negated den) [] x, mem))
unfolding iir_mem16
iir_mem16_lem x den ord l e = (
  one_states negated den (history (one_sum negated den) [] x),
  subst
      (λ mem.
        filter_loop (λ xi nyi. taps den nyi) mem x
        ≡ some (
          by_equation (one_sum negated den) [] x,
          one_states negated den (history (one_sum negated den) [] x),
        ))
      (one_cleared negated refl den ∙ ap cleared e)
      (filter_loop_lem (λ xi nyi. taps den nyi) (one_sum negated den) (one_states negated den)
        (λ h. one_first negated den h (omega arith))
        (λ v nyi h. one_step negated den (v, nyi) h (omega arith)) [] x),
)

pub fir_mem16_lem :
    (x num : List ℤ) (ord : ℕ)
    → 0 < ord
    → length num ≡ ord
    → (mem : List ℤ) × (fir_mem16 x num (cleared ord)
        ≡ some (by_equation (one_sum sample num) [] x, mem))
unfolding fir_mem16
fir_mem16_lem x num ord l e = (
  one_states sample num (history (one_sum sample num) [] x),
  subst
      (λ mem.
        filter_loop (λ xi nyi. taps num xi) mem x
        ≡ some (
          by_equation (one_sum sample num) [] x,
          one_states sample num (history (one_sum sample num) [] x),
        ))
      (one_cleared sample refl num ∙ ap cleared e)
      (filter_loop_lem (λ xi nyi. taps num xi) (one_sum sample num) (one_states sample num)
        (λ h. one_first sample num h (omega arith))
        (λ v nyi h. one_step sample num (v, nyi) h (omega arith)) [] x),
)

-- The two compositions of the perceptual weighting: each is one equation behind the other.
pub percep_zero_lem :
    (xx ak awk1 awk2 : List ℤ) (ord : ℕ)
    → 0 < ord
    → length ak ≡ ord
    → length awk1 ≡ ord
    → length awk2 ≡ ord
    → (syn_percep_zero16 xx ak awk1 awk2 ord
        ≡ some (by_equation (pole_zero_sum awk1 awk2) [] (by_equation (one_sum negated ak) [] xx)))
      × (residue_percep_zero16 xx ak awk1 awk2 ord
          ≡ some (by_equation (one_sum sample awk2) [] (by_equation (pole_zero_sum ak awk1) [] xx)))
unfolding syn_percep_zero16 residue_percep_zero16
percep_zero_lem xx ak awk1 awk2 ord l e0 e1 e2 =
    let (_, poles) = iir_mem16_lem xx ak ord l e0 in
    let (_, weighted) =
      filter_mem16_lem (by_equation (one_sum negated ak) [] xx) awk1 awk2 ord l e1 e2 in
    let (_, residue) = filter_mem16_lem xx ak awk1 ord l e0 e1 in
    let (_, zeros) = fir_mem16_lem (by_equation (pole_zero_sum ak awk1) [] xx) awk2 ord l e2 in
    (rw (poles, weighted) refl, rw (residue, zeros) refl)
