-- ===== src/Codec/Decoder/Tests.antt =====
-- The narrowband decoder on concrete streams.
use securecom_voice.Base.{
  ℕ, zero, suc, ◌+◌, ◌*◌, ◌/◌, ◌≤◌, ◌<◌, ◌≡◌, refl, inl, none, some, List, [], ◌∷◌, arith,
  replicate, set, get_elem?, false, true, length, ltb,
}
use securecom_voice.Base.Byte.{byte_bit}
use securecom_voice.Base.Int.{pos, negsuc}
use securecom_voice.Bits.{SpeexBits}
use securecom_voice.Memory.Blocks.{blocks, blocks-IsAllocator}
use securecom_voice.Bits.Blank.{blank_stream, blank_stream-IsOpen}
use securecom_voice.Bits.Stream.{Frame, pack_all, unpack_all}
use securecom_voice.Bits.Transfer.{read_from, write}
use securecom_voice.Codec.Decoder.Transmission.{narrowband_frame, transmitted_frame}
use securecom_voice.Bits.Ahead.{HasAhead, HasAhead-moved, Forward, read_any, read_lem}
use securecom_voice.Bits.Unpack.Laws.{IsReadable, moved}
use securecom_voice.Inband.{Handler, skipped}
use securecom_voice.Codec.Modes.{nb_mode}
use securecom_voice.Codec.Decoder.{
  DecState, SpeexCallback, FloatOps, no_callback, decoder_init, decoder_ctl, write_dec_setting,
  set_handler, reset_state, done,
}
use securecom_voice.Codec.Decoder.Laws.{
  IsDecoder, decoder_init-IsDecoder, decoder_reset_keeps_excitation,
}
use securecom_voice.Codec.Decoder.Search.{Search, found, returned, registered, search_block}
use securecom_voice.Codec.Decoder.Search.Finds.{Skipped, search_finds_block, null_layer_refused}
use securecom_voice.Codec.Decoder.Search.Ends.{IsOver, MovesForward, search_ends}
use securecom_voice.Codec.Decoder.Callbacks.{std_enh_request_handler, handled_request}

abbrev whole_ops : FloatOps ℕ
whole_ops = record {
  log_ratio = λ level min_level max_level. 0;
  exceeds = λ x n. ltb n x;
  of_nat = λ n. n;
  percent = λ x. pos (100 * x);
}

-- Every callback is the handler for the enhancer.
abbrev run_enhancer : ℕ → ℕ → Handler (DecState ℕ)
run_enhancer f user_data = std_enh_request_handler whole_ops

-- What `nb_decoder_init` returns.
abbrev fresh_decoder : DecState ℕ
fresh_decoder = record {
  first = pos 1;
  count_lost = pos 0;
  frame_size = nb_mode.frame_size;
  subframe_size = nb_mode.subframe_size;
  nb_subframes = nb_mode.frame_size / nb_mode.subframe_size;
  lpc_size = nb_mode.lpc_size;
  min_pitch = nb_mode.pitch_start;
  max_pitch = nb_mode.pitch_end;
  sampling_rate = pos 8000;
  last_ol_gain = pos 0;
  stack = 0;
  exc_buf =
      replicate (nb_mode.frame_size + 2 * nb_mode.pitch_end + nb_mode.subframe_size + 12) (pos 0);
  exc = 2 * nb_mode.pitch_end + nb_mode.subframe_size + 6;
  old_qlsp = replicate nb_mode.lpc_size (pos 0);
  interp_qlpc = replicate nb_mode.lpc_size (pos 0);
  mem_sp = replicate nb_mode.lpc_size (pos 0);
  pi_gain = replicate (nb_mode.frame_size / nb_mode.subframe_size) (pos 0);
  innov_save = 0;
  level = pos 0;
  max_level = pos 0;
  min_level = pos 0;
  last_pitch = pos 40;
  pitch_gain_buf = pos 0 ∷ pos 0 ∷ pos 0 ∷ [];
  pitch_gain_buf_idx = 0;
  seed = pos 1000;
  encode_submode = pos 1;
  submodes = nb_mode.submodes;
  submode_id = pos nb_mode.default_submode;
  lpc_enh_enabled = pos 1;
  speex_callbacks = replicate 16 no_callback;
  user_callback = record { callback_id = pos 0; func = some 1; user_data = 0 };
  voc_m1 = pos 0;
  voc_m2 = pos 0;
  voc_mean = pos 0;
  voc_offset = pos 0;
  dtx_enabled = pos 0;
  is_wideband = pos 0;
  highpass_enabled = pos 1;
}

fresh_decoder-init : decoder_init 1 nb_mode 0 ≡ some fresh_decoder
unfolding decoder_init
fresh_decoder-init = refl

fresh_decoder-IsDecoder : IsDecoder fresh_decoder
fresh_decoder-IsDecoder = decoder_init-IsDecoder 1 nb_mode 0 fresh_decoder fresh_decoder-init

-- A stream that is read from its first bit.
abbrev stream : List ℕ → SpeexBits
stream bytes = record {
  chars = bytes;
  nb_bits = length bytes * 8;
  char_ptr = 0;
  bit_ptr = 0;
  owner = true;
  overflow = false;
  buf_size = length bytes;
}

stream-IsReadable : (bytes : List ℕ) → IsReadable (stream bytes)
stream-IsReadable bytes = record {
  stored = omega arith;
  bit_in = omega arith;
  before_end = omega arith;
}

stream-HasAhead : (bytes : List ℕ) (n : ℕ) → n ≤ length bytes * 8 → HasAhead (stream bytes) n
stream-HasAhead bytes n h = record {
  readable = stream-IsReadable bytes;
  clear = refl;
  room = omega arith;
}

silent_replicate :
    (n id : ℕ) → registered run_enhancer (replicate n (no_callback {P = ℕ})) id ≡ none
unfolding registered
silent_replicate zero id = refl
silent_replicate (suc n) zero = refl
silent_replicate (suc n) (suc id) = silent_replicate n id

silent : (id : ℕ) → registered run_enhancer fresh_decoder.speex_callbacks id ≡ none
silent id = silent_replicate 16 id

-- A request behind a wideband layer, and a block behind another.
abbrev two_turns : List ℕ
two_turns =
    144 ∷ 0 ∷ 0 ∷ 0 ∷ 7 ∷ 14 ∷ 128 ∷ 0 ∷ 0 ∷ 0 ∷ 0 ∷ 0 ∷ 0 ∷ 0 ∷ 0 ∷ 0 ∷ 0 ∷ 0 ∷ 0 ∷ 0 ∷ 96 ∷ []

abbrev request : Skipped
request = record { layers = (1, 0) ∷ []; id = 1; content = 1 }

search_finds_block_example :
    search_block run_enhancer 2 (stream two_turns) fresh_decoder
    ≡ some (found, moved (stream two_turns) 163, record fresh_decoder { submode_id = pos 3 })
unfolding skipped byte_bit
search_finds_block_example =
    search_finds_block run_enhancer 2 (stream two_turns) fresh_decoder (request ∷ []) ((2, 0) ∷ [])
      3 silent (omega arith) (omega arith) (omega arith) (omega arith) (omega arith)
      (stream-HasAhead two_turns 163 (omega arith))
      (
        refl,
        (refl, (refl, (refl, (refl, (refl, (refl, (refl, (refl, (refl, (refl, (refl, tt))))))))))),
      )

-- A null wideband layer in front of a narrowband block.
abbrev null_layer : List ℕ
null_layer = 129 ∷ 128 ∷ []

null_layer_refused_example :
    search_block run_enhancer 2 (stream null_layer) fresh_decoder
    ≡ some (returned (negsuc 1), moved (stream null_layer) 1, fresh_decoder)
unfolding byte_bit
null_layer_refused_example =
    null_layer_refused run_enhancer 1 (stream null_layer) fresh_decoder 0
      (stream-HasAhead null_layer 5 (omega arith)) (refl, (refl, tt)) (inl refl)

run_enhancer-MovesForward : (f user_data : ℕ) → MovesForward (run_enhancer f user_data)
unfolding std_enh_request_handler decoder_ctl write_dec_setting
run_enhancer-MovesForward f user_data b st v u =
    let (m, b', (e, g)) = read_any b 1 v (omega arith) in
    (pos 0, b', record st { lpc_enh_enabled = pos m }, (rw e refl, (g, u)))

search_ends_example :
    (s : Search) × (b' : SpeexBits) × (st' : DecState ℕ) × ((search_block run_enhancer 169
          (stream two_turns)
          fresh_decoder
        ≡ some (s, b', st'))
      × (IsOver s × Forward (stream two_turns) b'))
search_ends_example =
    search_ends run_enhancer run_enhancer-MovesForward 169 (stream two_turns) fresh_decoder
      (stream-IsReadable two_turns) (1, refl) (omega arith)

decoder_reset_keeps_excitation_example :
    (st' : DecState ℕ) × ((decoder_ctl whole_ops fresh_decoder reset_state ≡ some (done, st'))
      × ((st' ≡ record fresh_decoder { mem_sp = replicate 10 (pos 0); exc_buf = st'.exc_buf })
          × (((i : ℕ) → i < 305 → get_elem? st'.exc_buf i ≡ some (pos 0))
              × (((i : ℕ) → 305 ≤ i → get_elem? st'.exc_buf i ≡ get_elem? fresh_decoder.exc_buf i)
                  × (305 ≤ 334)))))
decoder_reset_keeps_excitation_example =
    decoder_reset_keeps_excitation whole_ops fresh_decoder fresh_decoder-IsDecoder (omega arith)

-- A request to the enhancer, and a block.
abbrev enhancer_request : List ℕ
enhancer_request = 112 ∷ 74 ∷ []

abbrev enhancer_callback : SpeexCallback ℕ
enhancer_callback = record { callback_id = pos 0; func = some 7; user_data = 0 }

abbrev enhancer_set : DecState ℕ
enhancer_set = record fresh_decoder {
  speex_callbacks = set fresh_decoder.speex_callbacks 0 enhancer_callback;
}

-- What the handler makes of the request, whose bit is one.
enhancer_ran :
    run_enhancer 7 0 (moved (stream enhancer_request) 9) enhancer_set
    ≡ some
        (pos 0, moved (stream enhancer_request) 10, record enhancer_set { lpc_enh_enabled = pos 1 })
unfolding std_enh_request_handler decoder_ctl write_dec_setting byte_bit
enhancer_ran =
    let ahead =
      HasAhead-moved 9 1 (stream-HasAhead enhancer_request 10 (omega arith)) (omega arith) in
    rw (read_lem 1 ahead (omega arith) (omega arith)) refl

handled_request_example :
    (decoder_ctl whole_ops fresh_decoder (set_handler enhancer_callback)
      ≡ some (done, enhancer_set))
    × (search_block run_enhancer 2 (stream enhancer_request) enhancer_set
        ≡ search_block run_enhancer 1
            (moved (stream enhancer_request) 10)
            (record enhancer_set { lpc_enh_enabled = pos 1 }))
unfolding byte_bit
handled_request_example =
    handled_request whole_ops run_enhancer 1 (stream enhancer_request) fresh_decoder
      enhancer_callback 0 7 [] (pos 0) (moved (stream enhancer_request) 10)
      (record enhancer_set { lpc_enh_enabled = pos 1 }) fresh_decoder-IsDecoder refl (omega arith)
      refl tt (omega arith) (stream-HasAhead enhancer_request 9 (omega arith))
      (refl, (refl, (refl, tt))) enhancer_ran

-- Two fields of a frame of sub-mode 3.
abbrev two_fields : Frame
two_fields = (99, 7) ∷ (17, 5) ∷ []

transmitted_frame_example :
    (packet : List ℕ) × (b₁ b₂ b₃ b₄ b₅ : SpeexBits) × (pack_all blocks
        (blank_stream 4)
        (narrowband_frame 3 two_fields)
      ≡ some b₁)
    × (write blocks b₁ 160 ≡ some (packet, b₂))
    × (read_from blocks (blank_stream 9) packet (length packet) ≡ some b₃)
    × (search_block run_enhancer 1 b₃ fresh_decoder
        ≡ some (found, b₄, record fresh_decoder { submode_id = pos 3 }))
    × (unpack_all b₄ (7 ∷ 5 ∷ []) ≡ some (99 ∷ 17 ∷ [], b₅))
    × (b₅.overflow ≡ false)
transmitted_frame_example =
    transmitted_frame run_enhancer blocks (blank_stream 4) (blank_stream 9) 3 two_fields 160 0
      fresh_decoder blocks-IsAllocator (blank_stream-IsOpen 4 (omega arith)) refl (omega arith)
      (omega arith) (omega arith) (omega arith) refl (omega arith)
