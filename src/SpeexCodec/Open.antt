-- ===== src/SpeexCodec/Open.antt =====
-- jni/SpeexCodec.cpp: `openSpeex`, with the narrowband encoder and decoder behind it, and what is left
-- of a codec that was closed. `AllocatedMemory` holds what the allocations come to.
use securecom_voice.Base.{
  ℕ, ◌*◌, ◌≡◌, refl, Bool, true, false, Option, none, some, List, arith, length, if◌then◌else◌,
  ◌>>=◌,
}
use mathlib.Core.Option
use securecom_voice.Base.Int.{ℤ, pos, ◌*ℤ◌}
use securecom_voice.Memory.{Allocator, IsAllocator}
use securecom_voice.Bits
use securecom_voice.Codec.Modes.{nb_mode}
use securecom_voice.Codec.Requests.{
  EncState, Reply, int, set_quality, vbr, complexity, get_frame_size, write_field,
}
use securecom_voice.Codec.Rms.{quotient}
use securecom_voice.Codec.Encoder.{encoder_init, encoder_ctl, write_setting, bitrate}
use securecom_voice.Codec.Decoder.{
  DecState, DecReply, FloatOps, enhancer, decoder_init, decoder_ctl, write_dec_setting,
}
use securecom_voice.Codec.Decoder
use securecom_voice.SpeexCodec.{
  FrameCoder, SpeexCodec, live, freed, max_dec_frames, decode, encode, close_speex,
}
use securecom_voice.SpeexCodec.Decode.{IsReady, not_null}
use securecom_voice.SpeexCodec.Encode.{IsStream, cleared, reset-eq-cleared, cleared-IsStream}

-- The scratch memory of the encoder and of the decoder, whether there is memory for `enc_buffer`,
-- and `dec_buffer` as it comes, for a number of samples; `none` is the null pointer.
pub record AllocatedMemory : Type 0 where
  pub enc_stack : Option ℕ
  pub dec_stack : Option ℕ
  pub enc_buffer : Bool
  pub dec_buffer : ℕ → Option (List ℤ)

-- The frame size that a request gives.
abbrev pub size_in : {F : Type 0} → Reply F → Option ℕ
size_in (int (pos n)) = some n
size_in _ = none

abbrev pub dec_size_in : DecReply → Option ℕ
dec_size_in (Decoder.int (pos n)) = some n
dec_size_in _ = none

init-IsStream :
    (a : Allocator) (bytes : List ℕ)
    → IsAllocator a
    → a.calloc 2000 ≡ some bytes
    → (b : Bits.SpeexBits) × (Bits.init a ≡ some b) × IsStream b
unfolding Bits.init
init-IsStream a bytes l e =
    let fresh : Bits.SpeexBits = record {
      chars = bytes;
      nb_bits = 0;
      char_ptr = 0;
      bit_ptr = 0;
      owner = true;
      overflow = false;
      buf_size = 2000;
    } in
    let v : IsStream fresh = record {
      same_size = l.calloc_size 2000 bytes e;
      bytes = λ i. omega (arith, l.calloc_zero 2000 bytes e i);
      some_room = omega arith;
    } in
    (cleared fresh, simp e (reset-eq-cleared fresh v), cleared-IsStream fresh v)

-- What `closeSpeex` leaves.
closed_lem :
    {E D : Type 0} (c c' : SpeexCodec E D)
    → c.initialized ≡ true
    → close_speex c ≡ some c'
    → (c'.initialized ≡ true) × (c'.dec ≡ some freed) × (c'.enc_bits ≡ none) × (c'.dec_bits ≡ none)
unfolding close_speex
closed_lem c c' on closed = (ground arith, ground arith, ground arith, ground arith)

decode_freed :
    {E D : Type 0} (coder : FrameCoder E D) (a : Allocator) (c : SpeexCodec E D) (fuel enc_len : ℕ)
    (packet : Option (List ℕ)) (dec_arr : List ℤ)
    → c.initialized ≡ true
    → c.dec ≡ some freed
    → c.dec_bits ≡ none
    → decode coder a fuel c packet (some dec_arr) enc_len ≡ none
unfolding decode
decode_freed coder a c fuel enc_len none dec_arr on gone empty = simp (on, gone)
decode_freed coder a c fuel enc_len (some packet) dec_arr on gone empty = simp (on, empty)

module _ {F G P : Type 0} (of_int : ℤ → F) (ops : FloatOps G) (default_user : P) where
  abbrev pub Codec : Type 0
  Codec = SpeexCodec (EncState F) (DecState P)

  -- Quality 3 and complexity 1, at a constant bit rate.
  unfoldable pub set_up_encoder : EncState F → Option (EncState F × ℕ)
  unfolding encoder_ctl
  set_up_encoder e = do
    (_, e1) ← encoder_ctl of_int e (write_field vbr (pos 0))
    (_, e2) ← encoder_ctl of_int e1 (set_quality (pos 3))
    (_, e3) ← encoder_ctl of_int e2 (write_field complexity (pos 1))
    (r, e4) ← encoder_ctl of_int e3 get_frame_size
    n ← size_in r
    some (e4, n)

  unfoldable pub set_up_decoder : DecState P → Option (DecState P × ℕ)
  unfolding decoder_ctl
  set_up_decoder d = do
    (_, d1) ← decoder_ctl ops d (Decoder.write_field enhancer (pos 1))
    (r, d2) ← decoder_ctl ops d1 Decoder.get_frame_size
    n ← dec_size_in r
    some (d2, n)

  -- What follows where both objects are there.
  unfoldable pub set_up :
      Allocator → AllocatedMemory → Codec → EncState F → DecState P → Option (ℤ × Codec)
  set_up a m c e d = do
    (d', dec_size) ← set_up_decoder d
    (e', enc_size) ← set_up_encoder e
    enc_bits ← Bits.init a
    dec_bits ← Bits.init a
    let c' : Codec = record c {
      enc = some (live e');
      dec = some (live d');
      enc_bits = some enc_bits;
      dec_bits = some dec_bits;
      enc_frame_size = enc_size;
      dec_frame_size = dec_size;
    }
    elim (m.dec_buffer (dec_size * max_dec_frames)) [
      | none ↦ some (pos 1, c')
      | some samples ↦
          if m.enc_buffer
          then some
              (pos 0, record c' { dec_buffer = samples; enc_buffer = enc_size; initialized = true })
          else some (pos 1, c')
    ]

  unfoldable pub open_speex : Allocator → AllocatedMemory → Codec → Option (ℤ × Codec)
  open_speex a m c =
      let made_enc = do stack ← m.enc_stack; encoder_init of_int nb_mode stack
      in let made_dec = do stack ← m.dec_stack; decoder_init default_user nb_mode stack
        in let c0 : Codec = record c {
          enc = Option.map live made_enc;
          dec = Option.map live made_dec;
        } in
          let opened : Option (ℤ × Codec) = elim made_enc [
            | none ↦ some (pos 1, c0)
            | some e ↦ elim made_dec [ none ↦ some (pos 1, c0) | some d ↦ set_up a m c0 e d ]
          ] in
          if c.initialized then some (pos 0, c) else opened

  -- A codec that was opened, its sizes and settings.
  pub record Opened (c : Codec) : Type 0 where
    pub encoder : EncState F
    pub ready : IsReady c
    pub alive : c.enc ≡ some (live encoder)
    pub streams :
        (b b' : Bits.SpeexBits) × (c.enc_bits ≡ some b)
        × (c.dec_bits ≡ some b')
        × IsStream b
        × IsStream b'
    pub sizes :
        (c.enc_frame_size ≡ 160)
        × (c.dec_frame_size ≡ 160)
        × (c.enc_buffer ≡ 160)
        × (length c.dec_buffer ≡ 1600)
    pub settings :
        (encoder.submode_id ≡ pos 3)
        × (encoder.submode_select ≡ pos 3)
        × (encoder.vbr_enabled ≡ pos 0)
        × (encoder.complexity ≡ pos 1)
    pub rate : bitrate encoder ≡ some (pos 8000)
    pub enhanced : ready.decoder.lpc_enh_enabled ≡ pos 1

  encoder_made :
      (stack : ℕ)
      → (e e' : EncState F) × (encoder_init of_int nb_mode stack ≡ some e)
        × (set_up_encoder e ≡ some (e', 160))
        × (e'.submode_id ≡ pos 3)
        × (e'.submode_select ≡ pos 3)
        × (e'.vbr_enabled ≡ pos 0)
        × (e'.complexity ≡ pos 1)
        × (bitrate e' ≡ some (pos 8000))
  unfolding not_null encoder_init set_up_encoder write_setting bitrate ◌*ℤ◌ quotient
  encoder_made stack =
      let (e, h) = not_null (encoder_init of_int nb_mode stack) refl in
      let ((e', n), k) = not_null (set_up_encoder e) refl in
      (e, e', h, k, refl, refl, refl, refl, refl)

  decoder_made :
      (stack : ℕ)
      → (d d' : DecState P) × (decoder_init default_user nb_mode stack ≡ some d)
        × (set_up_decoder d ≡ some (d', 160))
        × (d'.lpc_enh_enabled ≡ pos 1)
  unfolding not_null decoder_init set_up_decoder write_dec_setting
  decoder_made stack =
      let (d, h) = not_null (decoder_init default_user nb_mode stack) refl in
      let ((d', n), k) = not_null (set_up_decoder d) refl in (d, d', h, k, refl)

  pub open_speex_lem :
      (a : Allocator) (m : AllocatedMemory) (c : Codec) (enc_stack dec_stack : ℕ) (bytes : List ℕ)
      (samples : List ℤ)
      → IsAllocator a
      → c.initialized ≡ false
      → m.enc_stack ≡ some enc_stack
      → m.dec_stack ≡ some dec_stack
      → a.calloc 2000 ≡ some bytes
      → m.enc_buffer ≡ true
      → m.dec_buffer 1600 ≡ some samples
      → length samples ≡ 1600
      → (c' : Codec) × (open_speex a m c ≡ some (pos 0, c')) × Opened c'
  unfolding open_speex set_up
  open_speex_lem a m c enc_stack dec_stack bytes samples l off es ds cs eb db size =
      let (e, e', h, k, s1, s2, s3, s4, s5) = encoder_made enc_stack in
      let (d, d', h', k', t1) = decoder_made dec_stack in
      let (b, start, v) = init-IsStream a bytes l cs in
      let c' : Codec = record {
        enc = some (live e');
        dec = some (live d');
        enc_bits = some b;
        dec_bits = some b;
        enc_frame_size = 160;
        dec_frame_size = 160;
        initialized = true;
        dec_buffer = samples;
        enc_buffer = 160;
      } in
      (
        c',
        simp (off, es, ds, h, h', k, k', start, db, eb),
        record {
          encoder = e';
          ready = record {
            decoder = d';
            stream = b;
            alive = refl;
            set_up = refl;
            on = refl;
            some_samples = omega arith;
            room = size;
          };
          alive = refl;
          streams = (b, b, refl, refl, v, v);
          sizes = (refl, refl, refl, size);
          settings = (s1, s2, s3, s4);
          rate = s5;
          enhanced = t1;
        },
      )

  -- A codec that was closed stays initialized: opening it again returns 0 and opens nothing, and a
  -- packet to decode or a frame to encode is then given to an object that was freed.
  pub reopened_is_freed :
      (coder : FrameCoder (EncState F) (DecState P)) (a : Allocator) (m : AllocatedMemory)
      (c c' : Codec) (fuel enc_len raw_len : ℕ) (packet : Option (List ℕ)) (dec_arr : List ℤ)
      (enc_arr : List ℕ)
      → c.initialized ≡ true
      → close_speex c ≡ some c'
      → (open_speex a m c' ≡ some (pos 0, c'))
        × (decode coder a fuel c' packet (some dec_arr) enc_len ≡ none)
        × (encode coder a c' dec_arr enc_arr raw_len ≡ none)
  unfolding open_speex encode
  reopened_is_freed coder a m c c' fuel enc_len raw_len packet dec_arr enc_arr on closed =
      let (d, e1, e2, e3) = closed_lem c c' on closed in
      (simp d, decode_freed coder a c' fuel enc_len packet dec_arr d e1 e3, simp (d, e2))
