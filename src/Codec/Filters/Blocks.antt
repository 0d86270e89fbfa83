-- ===== src/Codec/Filters/Blocks.antt =====
-- A signal filtered block by block, as the codec does with its subframes, against the difference
-- equations on the whole signal.
use securecom_voice.Codec.Filters.Direct.{
  direct, left_behind, memory_of, memory_of-nothing, highpass_loop_lem,
}
use securecom_voice.Codec.Filters.Equation.{
  by_equation, pole_zero_sum, one_sum, sample, negated, filter_mem16_lem, iir_mem16_lem,
  fir_mem16_lem,
}
use securecom_voice.Base.{
  ◌<◌, ◌∙◌, sym, length, ◌≡◌, refl, ℕ, ap, Option, some, List, [], ◌∷◌, ◌++◌, inl, inr, get_elem?,
  Option-cases, ◌>>=◌,
}
use securecom_voice.Base.Int.{ℤ, pos}
use securecom_voice.Codec.Rms.{word16}
use securecom_voice.Codec.Filters.Highpass.{
  highpass, highpass_loop, pcoef, zcoef, unrounded, memory_after,
}
use securecom_voice.Codec.Filters.{
  cleared, saturate, pshr32, filter_loop, filter_mem16, iir_mem16, fir_mem16, output, neg16,
  pole_zero_taps, taps,
}

-- One block, then another with the memory that the first leaves.
abbrev pub in_blocks :
    (List ℤ → List ℤ → Option (List ℤ × List ℤ)) → (mem xs ys : List ℤ) → Option (List ℤ × List ℤ)
in_blocks filter mem xs ys = do
  (out, mem') ← filter xs mem
  (out', mem'') ← filter ys mem'
  some (out ++ out', mem'')

filter_loop-append :
    (update : ℤ → ℤ → List ℤ → Option (List ℤ)) (mem xs ys : List ℤ)
    → filter_loop update mem (xs ++ ys) ≡ in_blocks (λ zs m. filter_loop update m zs) mem xs ys
unfolding filter_loop
filter_loop-append update mem [] ys = elim (Option-cases (filter_loop update mem ys)) [
  | inl e ↦ rw e refl
  | inr (r, e) ↦ rw e refl
]
filter_loop-append update mem (x ∷ xs) ys = elim (Option-cases (get_elem? mem 0)) [
  | inl e ↦ rw e refl
  | inr (m, e) ↦ elim (Option-cases (update x (neg16 (output x m)) mem)) [
    | inl k ↦ rw (e, k) refl
    | inr (mem', k) ↦ elim (Option-cases (filter_loop update mem' xs)) [
      | inl r ↦ rw (e, k, filter_loop-append update mem' xs ys, r) refl
      | inr ((out, mem1), r) ↦ elim (Option-cases (filter_loop update mem1 ys)) [
        | inl t ↦ rw (e, k, filter_loop-append update mem' xs ys, r, t) refl
        | inr (u, t) ↦ rw (e, k, filter_loop-append update mem' xs ys, r, t) refl
      ]
    ]
  ]
]

highpass_loop-append :
    (den num : ℤ × ℤ × ℤ) (xs ys : List ℤ) (mem : ℤ × ℤ)
    → highpass_loop den num (xs ++ ys) mem ≡ (
      (highpass_loop den num xs mem).0
          ++ (highpass_loop den num ys (highpass_loop den num xs mem).1).0,
      (highpass_loop den num ys (highpass_loop den num xs mem).1).1,
    )
unfolding highpass_loop
highpass_loop-append den num [] ys mem = refl
highpass_loop-append den num (x ∷ xs) ys mem =
    ap (λ r. (word16 (saturate (pshr32 (unrounded num x mem) 14) 32767) ∷ r.0, r.1))
      (highpass_loop-append den num xs ys (memory_after den num x mem))

-- The high-pass filter on one block, then on another.
abbrev pub highpass_in_blocks : (xs ys : List ℤ) → ℕ → ℤ × ℤ → List ℤ × (ℤ × ℤ)
highpass_in_blocks xs ys filt_id mem =
    let (out, mem') = highpass xs filt_id mem in
    let (out', mem'') = highpass ys filt_id mem' in (out ++ out', mem'')

-- A signal filtered in two blocks, the first from a cleared memory and the second with the memory
-- that the first leaves, is what the difference equations make of the whole signal: for each of the
-- three filters, with coefficients as many as the memory has numbers, which are not none, and for
-- the high-pass filter, whose equation has two samples and two unrounded outputs before.
pub filter_in_blocks :
    (xs ys num den : List ℤ) (ord filt_id : ℕ)
    → 0 < ord
    → length num ≡ ord
    → length den ≡ ord
    → ((mem : List ℤ) × (in_blocks (λ zs m. filter_mem16 zs num den m) (cleared ord) xs ys
          ≡ some (by_equation (pole_zero_sum num den) [] (xs ++ ys), mem)))
      × ((mem : List ℤ) × (in_blocks (λ zs m. iir_mem16 zs den m) (cleared ord) xs ys
            ≡ some (by_equation (one_sum negated den) [] (xs ++ ys), mem)))
      × ((mem : List ℤ) × (in_blocks (λ zs m. fir_mem16 zs num m) (cleared ord) xs ys
            ≡ some (by_equation (one_sum sample num) [] (xs ++ ys), mem)))
      × ((mem : ℤ × ℤ) × (highpass_in_blocks xs ys filt_id (pos 0, pos 0)
            ≡ (direct (pcoef filt_id) (zcoef filt_id) [] (xs ++ ys), mem)))
unfolding filter_mem16 iir_mem16 fir_mem16 highpass
filter_in_blocks xs ys num den ord filt_id l en ed =
    let (mem1, whole1) = filter_mem16_lem (xs ++ ys) num den ord l en ed in
    let (mem2, whole2) = iir_mem16_lem (xs ++ ys) den ord l ed in
    let (mem3, whole3) = fir_mem16_lem (xs ++ ys) num ord l en in
    let den_hp = pcoef filt_id in
    let num_hp = zcoef filt_id in
    (
      (mem1, sym (filter_loop-append (pole_zero_taps num den) (cleared ord) xs ys) ∙ whole1),
      (mem2, sym (filter_loop-append (λ xi nyi. taps den nyi) (cleared ord) xs ys) ∙ whole2),
      (mem3, sym (filter_loop-append (λ xi nyi. taps num xi) (cleared ord) xs ys) ∙ whole3),
      (
        memory_of den_hp num_hp (left_behind den_hp num_hp [] (xs ++ ys)),
        sym (highpass_loop-append den_hp num_hp xs ys (pos 0, pos 0))
            ∙ ap (highpass_loop den_hp num_hp (xs ++ ys)) (sym (memory_of-nothing den_hp num_hp))
            ∙ highpass_loop_lem den_hp num_hp [] (xs ++ ys),
      ),
    )
