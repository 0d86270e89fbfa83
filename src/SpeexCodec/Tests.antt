-- ===== src/SpeexCodec/Tests.antt =====
-- The codec on concrete packets: a decoder that has some frames left, and an encoder that packs two
-- fields whatever it hears.
use securecom_voice.Base.{
  ℕ, zero, suc, ◌<◌, ◌≡◌, refl, ap, true, false, Option, none, some, List, [], ◌∷◌, ◌++◌, arith,
  length, replicate, drop, if◌then◌else◌,
}
use mathlib.Core.Option
use securecom_voice.Base.Int.{ℤ, pos, negsuc}
use securecom_voice.Memory.Blocks.{blocks, blocks-IsAllocator}
use securecom_voice.Bits.{SpeexBits}
use securecom_voice.Bits.Blank.{blank_stream, blank_stream-IsOpen}
use securecom_voice.Bits.Pack.Step.{IsOpen}
use securecom_voice.Bits.Stream.{Frame, pack_all, pack_all_lem, unpack_all}
use securecom_voice.Bits.Transfer.{read_from}
use securecom_voice.Inband.{Handler}
use securecom_voice.Codec.Modes.{nb_mode}
use securecom_voice.Codec.Requests.{EncState}
use securecom_voice.Codec.Encoder.{encoder_init}
use securecom_voice.Codec.Decoder.{DecState, FloatOps, decoder_init}
use securecom_voice.Codec.Decoder.Search.{found, search_block}
use securecom_voice.Codec.Decoder.Transmission.{narrowband_frame}
use securecom_voice.SpeexCodec.{
  FrameCoder, SpeexCodec, live, came_back, freed, is_ok, is_null, decode, encode, close_speex,
}
use securecom_voice.SpeexCodec.Loop.{IsDecoder}
use securecom_voice.SpeexCodec.Decode.{IsReady, Decoded, not_null, decode_lem, decode_never_fills}
use securecom_voice.SpeexCodec.Encode.{IsStream, cleared, carried_frame}
use securecom_voice.SpeexCodec.Open.{
  AllocatedMemory, Opened, open_speex, open_speex_lem, reopened_is_freed,
}

abbrev two_fields : Frame
two_fields = (99, 7) ∷ (17, 5) ∷ []

-- The decoder of `n` frames.
abbrev few_frames : ℕ → Option SpeexBits → Option (ℤ × List ℤ × ℕ × Option SpeexBits)
few_frames zero bits = some (negsuc 0, [], 0, bits)
few_frames (suc n) bits = some (pos 0, replicate 160 (pos n), n, bits)

abbrev coder : FrameCoder ℕ ℕ
coder = record {
  encode_frame =
      λ e frame b. Option.map (λ b'. (e, b')) (pack_all blocks b (narrowband_frame 3 two_fields));
  decode_frame = few_frames;
}

few_total :
    (d : ℕ) (bits : Option SpeexBits)
    → (r : ℤ) × (xs : List ℤ) × (d' : ℕ) × (bits' : Option SpeexBits) × (few_frames d bits
        ≡ some (r, xs, d', bits'))
few_total zero bits = (negsuc 0, [], 0, bits, refl)
few_total (suc n) bits = (pos 0, replicate 160 (pos n), n, bits, refl)

few_sizes :
    (d d' : ℕ) (bits bits' : Option SpeexBits) (r : ℤ) (xs : List ℤ)
    → few_frames d bits ≡ some (r, xs, d', bits')
    → length xs ≡ (if is_ok r then 160 else 0)
few_sizes zero d' bits bits' r xs e = ground arith
few_sizes (suc n) d' bits bits' r xs e = ground arith

few_keep :
    (d d' : ℕ) (bits bits' : Option SpeexBits) (r : ℤ) (xs : List ℤ)
    → few_frames d bits ≡ some (r, xs, d', bits')
    → is_null bits' ≡ is_null bits
few_keep zero d' bits bits' r xs e = ground arith
few_keep (suc n) d' bits bits' r xs e = ground arith

coder-IsDecoder : IsDecoder coder 160
coder-IsDecoder = record { total = few_total; sizes = few_sizes; keeps_null = few_keep }

-- An opened codec whose decoder has `n` frames.
abbrev opened : ℕ → SpeexCodec ℕ ℕ
opened n = record {
  enc = some (live 0);
  dec = some (live n);
  enc_bits = some (blank_stream 9);
  dec_bits = some (blank_stream 9);
  enc_frame_size = 160;
  dec_frame_size = 160;
  initialized = true;
  dec_buffer = replicate 1600 (pos 0);
  enc_buffer = 160;
}

abbrev ready : (n : ℕ) → IsReady (opened n)
ready n = record {
  decoder = n;
  stream = blank_stream 9;
  alive = refl;
  set_up = refl;
  on = refl;
  some_samples = omega arith;
  room = refl;
}

abbrev array : ℕ → List ℤ
array n = replicate n (pos 0)

-- A lost packet.
decode_lem_example :
    Decoded coder
      (opened 3)
      (ready 3)
      none
      (array 480)
      (decode coder blocks 10 (opened 3) none (some (array 480)) 0)
decode_lem_example =
    decode_lem coder blocks (opened 3) (ready 3) coder-IsDecoder none (array 480) 0 none refl

-- An array for three frames.
decode_never_fills_example :
    (n : ℕ) × (out : List ℤ) × (c' : SpeexCodec ℕ ℕ) × (decode coder blocks 10
        (opened 3)
        none
        (some (array 480))
        0
      ≡ some (came_back (pos n) out c'))
    × (n < 480)
decode_never_fills_example =
    decode_never_fills coder blocks (opened 3) (ready 3) coder-IsDecoder none (array 480) 0 none
      refl (omega arith)

abbrev ignored : ℕ → ℕ → Handler (DecState ℕ)
ignored f d b st = some (pos 0, b, st)

abbrev whole_ops : FloatOps ℕ
whole_ops = record {
  log_ratio = λ level min_level max_level. 0;
  exceeds = λ x n. false;
  of_nat = λ n. n;
  percent = λ x. pos 0;
}

abbrev some_decoder : DecState ℕ
unfolding not_null decoder_init
some_decoder = (not_null (decoder_init 1 nb_mode 0) refl).0

blank_stream-IsStream : IsStream (blank_stream 9)
blank_stream-IsStream =
    let v : IsOpen (blank_stream 9) = blank_stream-IsOpen 9 (omega arith) in
    record { same_size = refl; bytes = v.bytes; some_room = omega arith }

abbrev sent : Frame
sent = narrowband_frame 3 two_fields

carried_frame_example :
    (packet : List ℕ) × (c' : SpeexCodec ℕ ℕ) × (b₁ b₂ b₃ : SpeexBits) × (encode coder blocks
        (opened 3)
        (array 160)
        (replicate 160 0)
        160
      ≡ some
          (came_back (pos (length packet)) (packet ++ drop (length packet) (replicate 160 0)) c'))
    × (read_from blocks (blank_stream 9) packet (length packet) ≡ some b₁)
    × (search_block ignored 1 b₁ some_decoder
        ≡ some (found, b₂, record some_decoder { submode_id = pos 3 }))
    × (unpack_all b₂ (7 ∷ 5 ∷ []) ≡ some (99 ∷ 17 ∷ [], b₃))
    × (b₃.overflow ≡ false)
carried_frame_example =
    carried_frame coder ignored blocks (opened 3) 0 0 (blank_stream 9) (blank_stream 9)
      (pack_all_lem blocks (cleared (blank_stream 9)) sent (blank_stream-IsOpen 9 (omega arith))
        (omega arith) (omega arith)).0
      (array 160) (replicate 160 0) 160 3 0 two_fields some_decoder blocks-IsAllocator refl refl
      refl blank_stream-IsStream (omega arith) (omega arith) (omega arith)
      (ap (Option.map (λ b'. (0, b')))
        (pack_all_lem blocks (cleared (blank_stream 9)) sent (blank_stream-IsOpen 9 (omega arith))
          (omega arith) (omega arith)).1)
      (pack_all_lem blocks (cleared (blank_stream 9)) sent (blank_stream-IsOpen 9 (omega arith))
        (omega arith) (omega arith)).1
      (omega arith) (omega arith) (omega arith) (omega arith) refl (omega arith)

-- A codec that was never opened, and memory that can be had.
abbrev shut : SpeexCodec (EncState ℕ) (DecState ℕ)
shut = record {
  enc = none;
  dec = none;
  enc_bits = none;
  dec_bits = none;
  enc_frame_size = 0;
  dec_frame_size = 0;
  initialized = false;
  dec_buffer = [];
  enc_buffer = 0;
}

abbrev memory : AllocatedMemory
memory = record {
  enc_stack = some 1;
  dec_stack = some 2;
  enc_buffer = true;
  dec_buffer = λ n. some (replicate n (pos 7));
}

abbrev to_float : ℤ → ℕ
to_float z = 0

open_speex_lem_example :
    (c' : SpeexCodec (EncState ℕ) (DecState ℕ)) × (open_speex to_float whole_ops 1 blocks memory
        shut
      ≡ some (pos 0, c'))
    × Opened to_float whole_ops 1 c'
open_speex_lem_example =
    open_speex_lem to_float whole_ops 1 blocks memory shut 1 2 (replicate 2000 0)
      (replicate 1600 (pos 7)) blocks-IsAllocator refl refl refl refl refl refl refl

abbrev some_encoder : EncState ℕ
unfolding not_null encoder_init
some_encoder = (not_null (encoder_init to_float nb_mode 1) refl).0

abbrev running : SpeexCodec (EncState ℕ) (DecState ℕ)
running = record {
  enc = some (live some_encoder);
  dec = some (live some_decoder);
  enc_bits = some (blank_stream 9);
  dec_bits = some (blank_stream 9);
  enc_frame_size = 160;
  dec_frame_size = 160;
  initialized = true;
  dec_buffer = replicate 1600 (pos 0);
  enc_buffer = 160;
}

abbrev closed : SpeexCodec (EncState ℕ) (DecState ℕ)
closed = record running { enc = some freed; dec = some freed; enc_bits = none; dec_bits = none }

running-closed : close_speex running ≡ some closed
unfolding close_speex
running-closed = refl

abbrev silent : FrameCoder (EncState ℕ) (DecState ℕ)
silent = record {
  encode_frame = λ e frame b. some (e, b);
  decode_frame = λ d bits. some (negsuc 0, [], d, bits);
}

reopened_is_freed_example :
    (open_speex to_float whole_ops 1 blocks memory closed ≡ some (pos 0, closed))
    × (decode silent blocks 10 closed (some (1 ∷ [])) (some (array 480)) 1 ≡ none)
    × (encode silent blocks closed (array 480) (replicate 160 0) 160 ≡ none)
reopened_is_freed_example =
    reopened_is_freed to_float whole_ops 1 silent blocks memory running closed 10 1 160
      (some (1 ∷ [])) (array 480) (replicate 160 0) refl running-closed
