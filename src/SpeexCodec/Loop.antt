-- ===== src/SpeexCodec/Loop.antt =====
-- The loop of `decode` against the frames that a decoder gives one after another.
use securecom_voice.Base.{
  ℕ, zero, suc, ◌+◌, ◌*◌, ◌≤◌, ◌<◌, ◌≡◌, refl, sym, ap, ltb, ltb→lt, ◌∙◌, ◌⊎◌, inl, inr, true,
  false, Option, some, List, [], ◌∷◌, ◌++◌, subst, arith, length, take, length-append, leb, leb→le,
  if◌then◌else◌, Bool-cases,
}
use mathlib.Core.List.{append-nil, append_assoc}
use securecom_voice.Base.Int.{ℤ}
use securecom_voice.Bits.{SpeexBits}
use securecom_voice.Plc.{write_at}
use securecom_voice.Plc.Write.{length-write_at, take-write_at}
use securecom_voice.SpeexCodec.{
  FrameCoder, Decoding, stopped, is_null, is_ok, decode_loop, max_dec_frames,
}

module _ {E D : Type 0} (coder : FrameCoder E D) where
  -- What the wrapper relies on: a call of the decoder comes back; it gives a frame of `size` samples
  -- where it returns 0, and none where it does not.
  pub record IsDecoder (size : ℕ) : Type 0 where
    pub total :
        (d : D) (bits : Option SpeexBits)
        → (r : ℤ) × (xs : List ℤ) × (d' : D) × (bits' : Option SpeexBits) × (coder.decode_frame d
              bits
            ≡ some (r, xs, d', bits'))
    pub sizes :
        (d d' : D) (bits bits' : Option SpeexBits) (r : ℤ) (xs : List ℤ)
        → coder.decode_frame d bits ≡ some (r, xs, d', bits')
        → length xs ≡ (if is_ok r then size else 0)
    pub keeps_null :
        (d d' : D) (bits bits' : Option SpeexBits) (r : ℤ) (xs : List ℤ)
        → coder.decode_frame d bits ≡ some (r, xs, d', bits')
        → is_null bits' ≡ is_null bits

  -- `k` calls in a row that return 0, with the samples that they give.
  pub data Frames : D → Option SpeexBits → ℕ → List ℤ → D → Option SpeexBits → Type 0 where
    no_frame : (d : D) (bits : Option SpeexBits) → Frames d bits 0 [] d bits
    frame :
        {d d' d'' : D} {bits bits' bits'' : Option SpeexBits} {k : ℕ} (r : ℤ) (xs : List ℤ)
        {ys : List ℤ}
        → coder.decode_frame d bits ≡ some (r, xs, d', bits')
        → is_ok r ≡ true
        → Frames d' bits' k ys d'' bits''
        → Frames d bits (suc k) (xs ++ ys) d'' bits''

  pub length-Frames :
      {d d' : D} {bits bits' : Option SpeexBits} {k : ℕ} {xs : List ℤ} (size : ℕ)
      → IsDecoder size
      → Frames d bits k xs d' bits'
      → length xs ≡ k * size
  length-Frames size g (no_frame d bits) = omega arith
  length-Frames size g
        (frame {d = d} {d' = d'} {bits = bits} {bits' = bits'} r xs {ys = ys} e ok rest) =
      omega (
        arith,
        length-append xs ys,
        length-Frames size g rest,
        g.sizes d d' bits bits' r xs e ∙ ap (λ b. if b then size else 0) ok,
      )

  -- Why the loop is left behind `k` frames: the decoder failed, or there is a reason to stop.
  abbrev pub Ends :
      (idx size len : ℕ)
      → Option SpeexBits
      → ℕ
      → D
      → D
      → Option SpeexBits
      → Option SpeexBits
      → Type 0
  Ends idx size len bits k last d' last_bits bits' =
      ((r : ℤ) × (coder.decode_frame last last_bits ≡ some (r, [], d', bits')) × (is_ok r ≡ false))
      ⊎ ((0 < k)
          × (d' ≡ last)
          × (bits' ≡ last_bits)
          × ((len ≤ idx + k * size + size)
              ⊎ (size * max_dec_frames ≤ idx + k * size + size)
              ⊎ (is_null bits ≡ true)))

  -- The loop is left within the buffer, with the samples of `count` frames behind what was there;
  -- `last` is the decoder behind them.
  pub record Loops (size len idx : ℕ) (buffer : List ℤ) (d : D) (bits : Option SpeexBits)
      (result : Option (Decoding D)) : Type 0 where
    pub count : ℕ
    pub samples : List ℤ
    pub last : D
    pub last_bits : Option SpeexBits
    pub buffer' : List ℤ
    pub d' : D
    pub bits' : Option SpeexBits
    pub gives : result ≡ some (stopped (idx + count * size) buffer' d' bits')
    pub frames : Frames d bits count samples last last_bits
    pub kept : length buffer' ≡ length buffer
    pub holds : take (idx + count * size) buffer' ≡ take idx buffer ++ samples
    pub within : idx + count * size + size ≤ size * max_dec_frames
    pub below : 1 < count → idx + count * size < len
    pub once : is_null bits ≡ true → count ≤ 1
    pub ends : Ends idx size len bits count last d' last_bits bits'

-- Room for less than all of a multiple is room for one more.
room_for_turn :
    (j size : ℕ)
    → j * size + size + size < size * max_dec_frames
    → j * size + size + 2 * size ≤ size * max_dec_frames
room_for_turn j size h = elim (Bool-cases (ltb j 8)) [
  | inl few ↦ let few' : j ≤ 7 = ground arith in grind arith
  | inr many ↦ let many' : 8 ≤ j = ground arith in grind arith
]

nothing_left : (xs : List ℤ) → length xs ≡ 0 → xs ≡ []
nothing_left [] h = refl
nothing_left (x ∷ xs) h = absurd (omega arith)

module _ {E D : Type 0} (coder : FrameCoder E D) (size len : ℕ) (g : IsDecoder coder size)
    (some_samples : 0 < size) (idx : ℕ) (buffer : List ℤ) {d d1 : D} {bits bits1 : Option SpeexBits}
    {r : ℤ} {xs : List ℤ} (e : coder.decode_frame d bits ≡ some (r, xs, d1, bits1))
    (room : length buffer ≡ size * max_dec_frames)
    (fits : idx + 2 * size ≤ size * max_dec_frames) where
  -- The decoder returns another value than 0.
  loop_fails :
      (n : ℕ)
      → is_ok r ≡ false
      → Loops coder size len idx buffer d bits
          (decode_loop coder (suc n) size len idx buffer d bits)
  unfolding decode_loop
  loop_fails n failed =
      let empty = g.sizes d d1 bits bits1 r xs e ∙ ap (λ b. if b then size else 0) failed in
      let none_given : xs ≡ [] = nothing_left xs empty in
      let inside : leb (idx + length xs) (length buffer) ≡ true = ground (arith, empty) in
      let here : idx + 0 * size ≡ idx + length xs = omega (arith, empty) in
      record {
        count = 0;
        samples = [];
        last = d;
        last_bits = bits;
        buffer' = write_at buffer idx xs;
        d' = d1;
        bits' = bits1;
        gives =
            rw (e, inside, failed)
              (ap (λ i. some (stopped i (write_at buffer idx xs) d1 bits1)) (omega arith));
        frames = no_frame d bits;
        kept = length-write_at buffer idx xs (omega (arith, empty));
        holds =
            ap (λ i. take i (write_at buffer idx xs)) here
            ∙ take-write_at buffer idx xs (omega arith)
            ∙ ap (λ ys. take idx buffer ++ ys) none_given;
        within = omega arith;
        below = λ h. absurd (omega arith);
        once = λ h. omega arith;
        ends = inl (
          r,
          subst (λ ys. coder.decode_frame d bits ≡ some (r, ys, d1, bits1)) none_given e,
          failed,
        );
      }

  module _ (ok : is_ok r ≡ true) where
    given : length xs ≡ size
    given = g.sizes d d1 bits bits1 r xs e ∙ ap (λ b. if b then size else 0) ok

    start : take (idx + size) (write_at buffer idx xs) ≡ take idx buffer ++ xs
    start =
        ap (λ i. take (idx + i) (write_at buffer idx xs)) (sym given)
        ∙ take-write_at buffer idx xs (omega arith)

    -- The reasons to stop, counted from one frame on.
    one_turn :
        (len ≤ idx + size + size)
          ⊎ (size * max_dec_frames ≤ idx + size + size)
          ⊎ (is_null bits ≡ true)
        → (len ≤ idx + 1 * size + size)
          ⊎ (size * max_dec_frames ≤ idx + 1 * size + size)
          ⊎ (is_null bits ≡ true)
    one_turn (inl h) = inl (omega arith)
    one_turn (inr (inl h)) = inr (inl (omega arith))
    one_turn (inr (inr h)) = inr (inr h)

    -- One more frame, and the loop is left.
    loop_stops :
        (result : Option (Decoding D))
        → result ≡ some (stopped (idx + size) (write_at buffer idx xs) d1 bits1)
        → (len ≤ idx + size + size)
          ⊎ (size * max_dec_frames ≤ idx + size + size)
          ⊎ (is_null bits ≡ true)
        → Loops coder size len idx buffer d bits result
    loop_stops result gives why = record {
      count = 1;
      samples = xs ++ [];
      last = d1;
      last_bits = bits1;
      buffer' = write_at buffer idx xs;
      d' = d1;
      bits' = bits1;
      gives = gives ∙ ap (λ i. some (stopped i (write_at buffer idx xs) d1 bits1)) (omega arith);
      frames = frame r xs e ok (no_frame d1 bits1);
      kept = length-write_at buffer idx xs (omega (arith, given));
      holds =
          ap (λ i. take i (write_at buffer idx xs)) (omega arith)
          ∙ start
          ∙ ap (λ ys. take idx buffer ++ ys) (sym (append-nil xs));
      within = omega arith;
      below = λ h. absurd (omega arith);
      once = λ h. omega arith;
      ends = inr (omega arith, refl, refl, one_turn why);
    }

    module _ (more : idx + size + size < len) (there : is_null bits ≡ false) where
      further_below :
          (k : ℕ) → 1 < suc k → (1 < k → idx + size + k * size < len) → idx + suc k * size < len
      further_below k h below = elim (Bool-cases (ltb 1 k)) [
        | inl many ↦ omega (arith, below (ltb→lt 1 k many))
        | inr single ↦ let one : k ≡ 1 = ground arith in omega (arith, ap (λ (i : ℕ). i * size) one)
      ]

      further-Ends :
          {k : ℕ} {last d' : D} {last_bits bits' : Option SpeexBits}
          → Ends coder (idx + size) size len bits1 k last d' last_bits bits'
          → Ends coder idx size len bits (suc k) last d' last_bits bits'
      further-Ends (inl failed) = inl failed
      further-Ends (inr (h, e1, e2, inl full)) = inr (omega arith, e1, e2, inl (omega arith))
      further-Ends (inr (h, e1, e2, inr (inl full))) =
          inr (omega arith, e1, e2, inr (inl (omega arith)))
      further-Ends (inr (h, e1, e2, inr (inr lost))) =
          let same = g.keeps_null _ _ bits bits1 r xs e in absurd (cc)

    -- One more frame, and the loop goes on.
    loop_goes_on :
        (result : Option (Decoding D))
        → idx + size + size < len
        → is_null bits ≡ false
        → Loops coder size len (idx + size) (write_at buffer idx xs) d1 bits1 result
        → Loops coder size len idx buffer d bits result
    loop_goes_on result more there l = record {
      count = suc l.count;
      samples = xs ++ l.samples;
      last = l.last;
      last_bits = l.last_bits;
      buffer' = l.buffer';
      d' = l.d';
      bits' = l.bits';
      gives = l.gives ∙ ap (λ i. some (stopped i l.buffer' l.d' l.bits')) (omega arith);
      frames = frame r xs e ok l.frames;
      kept = l.kept ∙ length-write_at buffer idx xs (omega (arith, given));
      holds =
          ap (λ i. take i l.buffer') (omega arith)
          ∙ l.holds
          ∙ ap (λ ys. ys ++ l.samples) start
          ∙ append_assoc (take idx buffer) xs l.samples;
      within = omega (arith, l.within);
      below = λ h. further_below more there l.count h l.below;
      once = λ h. absurd (cc);
      ends = further-Ends more there l.ends;
    }

module _ {E D : Type 0} (coder : FrameCoder E D) (size len : ℕ) (g : IsDecoder coder size)
    (some_samples : 0 < size) where
  -- A turn whose decoder returns 0, from what the rest of the loop does.
  loop_turn :
      (n j idx : ℕ) (buffer : List ℤ) {d d1 : D} {bits bits1 : Option SpeexBits} {r : ℤ}
      {xs : List ℤ}
      → coder.decode_frame d bits ≡ some (r, xs, d1, bits1)
      → length buffer ≡ size * max_dec_frames
      → idx + 2 * size ≤ size * max_dec_frames
      → is_ok r ≡ true
      → idx ≡ j * size
      → (idx + size + 2 * size ≤ size * max_dec_frames
          → Loops coder size len
              (idx + size)
              (write_at buffer idx xs)
              d1
              bits1
              (decode_loop coder n size len (idx + size) (write_at buffer idx xs) d1 bits1))
      → Loops coder size len idx buffer d bits
          (decode_loop coder (suc n) size len idx buffer d bits)
  unfolding decode_loop
  loop_turn n j idx buffer {bits = bits} {xs = xs} e room fits ok at rest =
      let inside : leb (idx + length xs) (length buffer) ≡ true =
        ground (arith, given coder size len g some_samples idx buffer e room fits ok) in
      let stops = loop_stops coder size len g some_samples idx buffer e room fits ok _ in
      elim (Bool-cases (leb len (idx + size + size))) [
        | inl full ↦ stops (rw (e, inside, ok, full)) (inl (leb→le _ _ full))
        | inr more ↦ elim (Bool-cases (leb (size * max_dec_frames) (idx + size + size))) [
          | inl full ↦ stops (rw (e, inside, ok, more, full)) (inr (inl (leb→le _ _ full)))
          | inr fit ↦ elim (Bool-cases (is_null bits)) [
            | inl lost ↦ stops (rw (e, inside, ok, more, fit, lost)) (inr (inr lost))
            | inr there ↦
                let fit' : idx + size + size < size * max_dec_frames = ground arith in
                rw (e, inside, ok, more, fit, there)
                  (loop_goes_on coder size len g some_samples idx buffer e room fits ok _
                    (ground arith) there (rest (rw at (room_for_turn j size (omega arith)))))
          ]
        ]
      ]

  -- The loop from any place with room for two frames, with as much fuel as there is room.
  pub decode_loop_lem :
      (n j idx : ℕ) (buffer : List ℤ) (d : D) (bits : Option SpeexBits)
      → length buffer ≡ size * max_dec_frames
      → idx + 2 * size ≤ size * max_dec_frames
      → idx ≡ j * size
      → size * max_dec_frames ≤ idx + n * size
      → Loops coder size len idx buffer d bits (decode_loop coder n size len idx buffer d bits)
  decode_loop_lem zero j idx buffer d bits room fits at fuel = absurd (omega arith)
  decode_loop_lem (suc n) j idx buffer d bits room fits at fuel =
      let (r, xs, d1, bits1, e) = g.total d bits in
      elim (Bool-cases (is_ok r)) [
        | inl ok ↦ loop_turn n j idx buffer e room fits ok at (λ fits'.
            decode_loop_lem n (suc j) (idx + size) (write_at buffer idx xs) d1 bits1
              (length-write_at buffer idx xs (
                  omega
                    (arith, g.sizes d d1 bits bits1 r xs e ∙ ap (λ b. if b then size else 0) ok))
                ∙ room)
              fits' (omega arith) (omega arith))
        | inr failed ↦ loop_fails coder size len g some_samples idx buffer e room fits n failed
      ]
