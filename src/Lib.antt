-- ===== src/Lib.antt =====
-- Securecom Voice is a secure telephone. This library models the core of its native voice path,
-- the code that carries the sound of a call: the codec's bit stream, the jitter buffer, the packet
-- loss concealer, the time scaling, parts of the narrowband codec with its control requests, and
-- the native wrappers that the application calls.
--
-- A call's receiver takes encoded frames from the network, orders them in the jitter buffer,
-- decodes each through the bit stream, and lets the concealer fill what is missing, or plays what
-- it has slower or faster; its sender sets the encoder by control requests and packs each frame
-- into the bit stream.
--
-- Base and its children hold the shared names: Boolean tests, lists and signed integers over the
-- native numbers, and bits of a byte. Memory is what the code relies on from the C library:
-- stores, copies, and an allocator as a parameter, with a concrete one in Memory/Blocks.
--
-- Bits and its children model jni/bits.c, with `speex_bits_` left off the names: Bits the state
-- (`SpeexBits` of jni/speex/speex_bits.h) and the functions that set it up, Bits/Pack and
-- Bits/Unpack the writing and reading of fields, Bits/Transfer the copies to and from the caller's
-- bytes. Bits/Field and Bits/Stream are the independent view: a stream is a list of bits.
-- Bits/Ahead has what the clients use to read on. The loop of `insert_terminator` runs on fuel;
-- six rounds are enough, since each moves the bit cursor by one, unless no room can be had, when
-- no number of rounds is.
--
-- Playout and its children model jni/playout.c and jni/spandsp/playout.h: the linked queue is a
-- list from the newest frame to the oldest (the links `earlier`; `later` are the same list read
-- backwards), the free frames are another. Time stamps are integers without a bound; the step
-- counter is a 32-bit `int` that wraps. Playout has `put` and the queue, Playout/Get `playout_get`
-- with its two filters; the other modules hold proofs.
--
-- Codec and its children model the narrowband codec: Codec/Tables and Codec/Modes jni/modes.c and
-- the records it fills, Codec/Frame the widths of the fields that `nb_encode` of jni/nb_celp.c
-- writes, Codec/Requests and Codec/Encoder `nb_encoder_init` and `nb_encoder_ctl`, Codec/Rms
-- `compute_rms16` of jni/filters.c with the square root of jni/math_approx.h, Codec/Filters and
-- its children other functions of jni/filters.c: the filters with a memory, their compositions,
-- and the scaling `normalize16`, whose loop runs on fuel; thirty-two rounds are enough for a
-- number of 32 bits. The loops over the qualities are structural: eleven rounds, from quality 10
-- to quality 0. Codec/Lsp and its children model the quantizer of the line spectral pairs in
-- jni/quant_lsp.c with its inverse, Codec/Lsp/Margin their interpolation and margin in jni/lsp.c,
-- Codec/Lsp/Books the codebooks of jni/lsp_tables_nb.c, Codec/Vq and its children the searches of
-- a codebook in jni/vq.c, Codec/Innovation the innovation of a sub-frame in jni/cb_search.c as it
-- is written and read. Codec/Decoder models `nb_decoder_init` and `nb_decoder_ctl`,
-- Codec/Decoder/Search the loop of `nb_decode` that looks for the next narrowband block, between
-- wideband layers and in-band requests, Codec/Decoder/Transmission a frame's whole way to the
-- decoder, and Codec/Decoder/Callbacks the handler of jni/speex_callbacks.c that acts on a
-- decoder. The search runs on fuel; a turn takes at least four bits, so one turn more than bits
-- are left is enough where no callback moves the cursor back.
--
-- Plc and its children model jni/plc.c and jni/spandsp/plc.h. Floating point is a parameter, the
-- record `Float`; nothing is assumed of its operations.
--
-- TimeScale and its children model jni/time_scale.c and jni/spandsp/time_scale.h, with
-- TimeScale/Wrapper the functions of jni/PacketLossConcealer.cpp. Floating point is the parameter
-- `TimeFloat`. The loops run on fuel; where the sound is played faster one turn more than there
-- are samples is enough.
--
-- SpeexCodec and its children model jni/SpeexCodec.cpp: opening, closing, and a call of `encode`
-- or `decode`, over the models of the bit stream and of the control requests. The signal
-- processing of the codec is the parameter `FrameCoder`. The decoder's loop runs on fuel; ten
-- turns are enough, since its buffer has room for ten frames.
--
-- Inband and its children model jni/speex_callbacks.c: requests in the bit stream that set the
-- encoder.
--
-- Header and its children model jni/speex_header.c: the header of a stream and its packet.
--
-- Throughout, sizes and cursors are natural numbers below the range of `int`, and a result `none`
-- is an access outside an array, or another state on which the C code has no defined meaning; only
-- `amdf` takes a sample outside its array for 0. The sums of products of Codec/Vq and Codec/Lsp are
-- integers without a bound.
--
-- Not modelled: the signal processing of the codec (jni/nb_celp.c beyond the above, jni/ltp.c,
-- jni/lpc.c, the searches of jni/cb_search.c, the rest of jni/lsp.c and jni/filters.c), whose
-- outputs have no specification short of the code; the quantizer of the wideband pairs in
-- jni/quant_lsp.c; the wideband codec of jni/sb_celp.c, which the application does not open; the
-- code that jni/Android.mk does not build; and the Java application.
mod Base
pub mod Memory
pub mod Bits
pub mod Playout
pub mod Codec
pub mod Plc
pub mod Inband
pub mod Header
pub mod TimeScale
pub mod SpeexCodec
