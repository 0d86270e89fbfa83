-- ===== src/SpeexCodec/Decode.antt =====
-- `decode`: a packet, or a lost one, into the caller's array.
use securecom_voice.Base.{
  ℕ, ◌+◌, ◌*◌, ◌≤◌, ◌<◌, ◌≡◌, refl, sym, ap, subst, ◌∙◌, inl, inr, Bool, true, false, Option, none,
  some, List, [], ◌++◌, arith, length, drop, leb, ltb, ltb→lt, if◌then◌else◌, Bool-cases,
}
use securecom_voice.Base.Int.{ℤ, pos}
use securecom_voice.Memory.{Allocator}
use securecom_voice.Bits.{SpeexBits}
use securecom_voice.Bits.Transfer.{read_from}
use securecom_voice.SpeexCodec.{
  FrameCoder, SpeexCodec, live, Call, came_back, raised, set_region, hand_out, decode, is_null,
  is_ok, max_dec_frames, decode_loop, stopped,
}
use securecom_voice.SpeexCodec.Loop.{
  IsDecoder, Frames, no_frame, frame, Ends, Loops, length-Frames, decode_loop_lem,
}

module _ {E D : Type 0} where
  -- An opened codec, as far as the decoder goes.
  pub record IsReady (c : SpeexCodec E D) : Type 0 where
    pub decoder : D
    pub stream : SpeexBits
    pub alive : c.dec ≡ some (live decoder)
    pub set_up : c.dec_bits ≡ some stream
    pub on : c.initialized ≡ true
    pub some_samples : 0 < c.dec_frame_size
    pub room : length c.dec_buffer ≡ c.dec_frame_size * max_dec_frames

  -- What the decoder reads from: the packet in the stream, or nothing where it was lost.
  abbrev pub Hears :
      Allocator → (c : SpeexCodec E D) → IsReady c → Option (List ℕ) → ℕ → Option SpeexBits → Type 0
  Hears a c v none enc_len bits = bits ≡ none
  Hears a c v (some packet) enc_len bits =
      (b : SpeexBits) × (read_from a v.stream packet enc_len ≡ some b) × (bits ≡ some b)

module _ {E D : Type 0} (coder : FrameCoder E D) where
  -- What a call of `decode` comes to.
  pub record Decoded (c : SpeexCodec E D) (v : IsReady c) (bits : Option SpeexBits)
      (dec_arr : List ℤ) (result : Option (Call ℤ (SpeexCodec E D))) : Type 0 where
    pub count : ℕ
    pub samples : List ℤ
    pub last : D
    pub last_bits : Option SpeexBits
    pub d' : D
    pub bits' : Option SpeexBits
    pub c' : SpeexCodec E D
    pub gives : result ≡ some (set_region dec_arr samples c')
    pub frames : Frames coder v.decoder bits count samples last last_bits
    pub ends : Ends coder 0 c.dec_frame_size (length dec_arr) bits count last d' last_bits bits'
    pub counted : length samples ≡ count * c.dec_frame_size
    pub within : count * c.dec_frame_size + c.dec_frame_size ≤ c.dec_frame_size * max_dec_frames
    pub below : 1 < count → count * c.dec_frame_size < length dec_arr
    pub once : bits ≡ none → count ≤ 1
    pub new_decoder : c'.dec ≡ some (live d')
    pub ready : IsReady c'

  null_after :
      {d d' : D} {bits bits' : Option SpeexBits} {k : ℕ} {xs : List ℤ} (size : ℕ)
      → IsDecoder coder size
      → Frames coder d bits k xs d' bits'
      → is_null bits' ≡ is_null bits
  null_after size g (no_frame d bits) = refl
  null_after size g (frame r xs e ok rest) = null_after size g rest ∙ g.keeps_null _ _ _ _ r xs e

  first_counts :
      {d last d' d1 : D} {bits last_bits bits' bits1 : Option SpeexBits} {k : ℕ} {xs ys : List ℤ}
      {r : ℤ} (size len : ℕ)
      → Frames coder d bits k xs last last_bits
      → Ends coder 0 size len bits k last d' last_bits bits'
      → coder.decode_frame d bits ≡ some (r, ys, d1, bits1)
      → is_ok r ≡ true
      → 0 < k
  first_counts size len (no_frame d bits) (inl (r', e', failed)) e ok =
      let same = sym e' ∙ e in absurd (cc)
  first_counts size len (no_frame d bits) (inr (h, e1, e2, why)) e ok = h
  first_counts size len (frame r xs e ok rest) why e' ok' = omega arith

  null_at_end :
      (idx size len : ℕ) (bits : Option SpeexBits) (k : ℕ) (last d' : D)
      (last_bits bits' : Option SpeexBits)
      → IsDecoder coder size
      → is_null last_bits ≡ is_null bits
      → Ends coder idx size len bits k last d' last_bits bits'
      → is_null bits' ≡ is_null bits
  null_at_end idx size len bits k last d' last_bits bits' g same (inl (r, e, failed)) =
      g.keeps_null _ _ _ _ r [] e ∙ same
  null_at_end idx size len bits k last d' last_bits bits' g same (inr (h, e1, e2, why)) =
      ap is_null e2 ∙ same

at_most_one : (k size : ℕ) → k ≤ 1 → k * size ≤ size
at_most_one k size h = grind arith

one_at_least : (k size : ℕ) → 0 < k → size ≤ k * size
one_at_least k size h = grind arith

unfoldable pub not_null : {A : Type 0} (o : Option A) → is_null o ≡ false → (a : A) × (o ≡ some a)
not_null none h = absurd (cc)
not_null (some a) h = (a, refl)

module _ {E D : Type 0} (coder : FrameCoder E D) (a : Allocator) (c : SpeexCodec E D)
    (v : IsReady c) (g : IsDecoder coder c.dec_frame_size) where
  stream_kept :
      (lost : Bool) (bits' : Option SpeexBits)
      → is_null bits' ≡ lost
      → (b : SpeexBits) × ((if lost then c.dec_bits else bits') ≡ some b)
  stream_kept true bits' h = (v.stream, v.set_up)
  stream_kept false bits' h = not_null bits' h

  abbrev after : D → Bool → List ℤ → Option SpeexBits → SpeexCodec E D
  after d' lost buffer' bits' = record c {
    dec = some (live d');
    dec_bits = if lost then c.dec_bits else bits';
    dec_buffer = buffer';
  }

  -- What is left of the call behind the loop.
  from_loop :
      (bits : Option SpeexBits) (dec_arr : List ℤ) (lost : Bool)
      → is_null bits ≡ lost
      → (l : Loops coder c.dec_frame_size
          (length dec_arr)
          0
          c.dec_buffer
          v.decoder
          bits
          (decode_loop coder 10 c.dec_frame_size (length dec_arr) 0 c.dec_buffer v.decoder bits))
      → Decoded coder c v bits dec_arr (
          some (
            hand_out coder c dec_arr lost
              (stopped (0 + l.count * c.dec_frame_size) l.buffer' l.d' l.bits')))
  unfolding hand_out
  from_loop bits dec_arr lost n l =
      let (b, kept) = stream_kept lost l.bits' (
        null_at_end coder 0 _ _ bits l.count l.last l.d' l.last_bits l.bits' g
          (null_after coder _ g l.frames) l.ends
        ∙ n) in
      record {
        count = l.count;
        samples = l.samples;
        last = l.last;
        last_bits = l.last_bits;
        d' = l.d';
        bits' = l.bits';
        c' = after l.d' lost l.buffer' l.bits';
        gives = ap (λ xs. some (set_region dec_arr xs (after l.d' lost l.buffer' l.bits'))) l.holds;
        frames = l.frames;
        ends = l.ends;
        counted = length-Frames coder c.dec_frame_size g l.frames;
        within = omega (arith, l.within);
        below = λ h. omega (arith, l.below h);
        once = λ e. l.once (ap is_null e);
        new_decoder = refl;
        ready = record {
          decoder = l.d';
          stream = b;
          alive = refl;
          set_up = kept;
          on = v.on;
          some_samples = v.some_samples;
          room = l.kept ∙ v.room;
        };
      }

  loop_result :
      (bits : Option SpeexBits) (dec_arr : List ℤ)
      → Loops coder c.dec_frame_size
          (length dec_arr)
          0
          c.dec_buffer
          v.decoder
          bits
          (decode_loop coder 10 c.dec_frame_size (length dec_arr) 0 c.dec_buffer v.decoder bits)
  loop_result bits dec_arr =
      decode_loop_lem coder c.dec_frame_size (length dec_arr) g v.some_samples 10 0 0 c.dec_buffer
        v.decoder bits v.room (omega arith) (omega arith) (omega arith)

  -- A call of `decode` on an opened codec comes back or raises an exception, in ten turns at most of
  -- its loop. It hands out what the decoder gives in a row, in order: at most nine frames, at most
  -- one where the packet was lost, and fewer samples than the array has where there are two frames
  -- or more. It ends where the decoder returns another value than 0, or with no room for another
  -- frame and one sample, or with nine frames, or with the one frame for a lost packet. The codec
  -- stays opened.
  pub decode_lem :
      (enc_arr : Option (List ℕ)) (dec_arr : List ℤ) (enc_len : ℕ) (bits : Option SpeexBits)
      → Hears a c v enc_arr enc_len bits
      → Decoded coder c v bits dec_arr (decode coder a 10 c enc_arr (some dec_arr) enc_len)
  unfolding decode
  decode_lem none dec_arr enc_len bits h =
      let l = loop_result none dec_arr in
      let call : decode coder a 10 c none (some dec_arr) enc_len
          ≡ some (
              hand_out coder c dec_arr true
                (stopped (0 + l.count * c.dec_frame_size) l.buffer' l.d' l.bits')) =
        simp (v.on, v.alive, l.gives) in
      subst (λ o. Decoded coder c v o dec_arr (decode coder a 10 c none (some dec_arr) enc_len))
        (sym h)
        (subst (Decoded coder c v none dec_arr) (sym call) (from_loop none dec_arr true refl l))
  decode_lem (some packet) dec_arr enc_len bits (b, e, h) =
      let l = loop_result (some b) dec_arr in
      let call : decode coder a 10 c (some packet) (some dec_arr) enc_len
          ≡ some (
              hand_out coder c dec_arr false
                (stopped (0 + l.count * c.dec_frame_size) l.buffer' l.d' l.bits')) =
        simp (v.on, v.set_up, e, v.alive, l.gives) in
      subst
        (λ o.
          Decoded coder c v o dec_arr (decode coder a 10 c (some packet) (some dec_arr) enc_len))
        (sym h)
        (subst (Decoded coder c v (some b) dec_arr) (sym call)
          (from_loop (some b) dec_arr false refl l))

  -- An array that is longer than a frame is not filled, however many frames the packet holds: with an
  -- array for exactly that many frames, two or more, the last one is not handed out.
  pub decode_never_fills :
      (enc_arr : Option (List ℕ)) (dec_arr : List ℤ) (enc_len : ℕ) (bits : Option SpeexBits)
      → Hears a c v enc_arr enc_len bits
      → c.dec_frame_size < length dec_arr
      → (n : ℕ) × (array : List ℤ) × (c' : SpeexCodec E D) × (decode coder a 10 c enc_arr
            (some dec_arr)
            enc_len
          ≡ some (came_back (pos n) array c'))
        × (n < length dec_arr)
  unfolding set_region
  decode_never_fills enc_arr dec_arr enc_len bits h longer =
      let r = decode_lem enc_arr dec_arr enc_len bits h in
      let shorter : length r.samples < length dec_arr = elim (Bool-cases (ltb 1 r.count)) [
        | inl many ↦ omega (arith, r.counted, r.below (ltb→lt 1 r.count many))
        | inr few ↦
            let one : r.count ≤ 1 = ground arith in
            omega (arith, r.counted, at_most_one r.count c.dec_frame_size one)
      ] in
      let fits : leb (length r.samples) (length dec_arr) ≡ true = ground arith in
      (
        length r.samples,
        r.samples ++ drop (length r.samples) dec_arr,
        r.c',
        r.gives ∙ rw fits refl,
        shorter,
      )

  -- A frame does not fit in an array shorter than it: the exception is raised, and the samples are lost.
  pub short_array_raises :
      (enc_arr : Option (List ℕ)) (dec_arr : List ℤ) (enc_len : ℕ) (bits bits' : Option SpeexBits)
      (r : ℤ) (xs : List ℤ) (d' : D)
      → Hears a c v enc_arr enc_len bits
      → length dec_arr < c.dec_frame_size
      → coder.decode_frame v.decoder bits ≡ some (r, xs, d', bits')
      → is_ok r ≡ true
      → (c' : SpeexCodec E D) × (decode coder a 10 c enc_arr (some dec_arr) enc_len
          ≡ some (raised c'))
  unfolding set_region
  short_array_raises enc_arr dec_arr enc_len bits bits' r xs d' h shorter e ok =
      let t = decode_lem enc_arr dec_arr enc_len bits h in
      let longer : length dec_arr < length t.samples = omega (
        arith,
        t.counted,
        one_at_least t.count c.dec_frame_size
            (first_counts coder c.dec_frame_size (length dec_arr) t.frames t.ends e ok),
      ) in
      let past : leb (length t.samples) (length dec_arr) ≡ false = ground arith in
      (t.c', t.gives ∙ rw past refl)
