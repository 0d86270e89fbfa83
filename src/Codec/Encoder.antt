-- ===== src/Codec/Encoder.antt =====
-- jni/nb_celp.c: the initial state of the narrowband encoder and its control requests
-- `nb_encoder_ctl`. `of_int` is the conversion to `float`. `write_field x` and `read_field x` are
-- the requests on a field that is only stored and read; `ptr` is the argument of the request or the
-- reply. A result `none` is an access out of bounds, a division by zero or an `int` that overflows.
-- Allocations succeed.
pub mod Rate
pub mod Reset
use securecom_voice.Base.{
  ℕ, zero, suc, ◌+◌, ◌-◌, ◌*◌, ◌/◌, ◌^◌, Bool, true, false, ◌&&◌, not, Option, none, some, List, [],
  ◌∷◌, ◌++◌, map, length, get_elem?, take, drop, replicate, ltb, leb, ◌==◌, if◌then◌else◌, ◌>>=◌,
}
use securecom_voice.Base.Int.{ℤ, pos, negsuc, ◌+ℤ◌, ◌*ℤ◌, ltb_ℤ, leb_ℤ}
use securecom_voice.Codec.Tables.{Submode, NbMode}
use securecom_voice.Codec.Requests.{
  EncState, Reply, Request, Setting, complexity, done, dtx, failed, float, get_abr, get_bitrate,
  get_exc, get_frame_size, get_lookahead, get_pi_gain, get_relative_quality, get_stack,
  get_vbr_quality, highpass, int, ints, mode, plc_tuning, read_field, reset_state, sampling_rate,
  set_abr, set_bitrate, set_innovation_save, set_quality, set_vbr_quality, set_wideband,
  submode_encoding, unknown, vad, vbr, vbr_max_bitrate, write_field,
}
use securecom_voice.Codec.Rms.{quotient, compute_rms16}

-- Writing zeros at the start of an array.
unfoldable pub clear_array : ℕ → List ℤ → Option (List ℤ)
clear_array n xs = if leb n (length xs) then some (replicate n (pos 0) ++ drop n xs) else none

-- Line spectral pairs `i + 1` to `i + n` of `lpc_size`, spread evenly; 25736 is
-- `QCONST16(3.1415927f, LSP_SHIFT)`.
unfoldable pub even_lsp : ℕ → ℕ → ℕ → List ℤ
even_lsp lpc_size i zero = []
even_lsp lpc_size i (suc n) = pos (25736 * (i + 1) / (lpc_size + 1)) ∷ even_lsp lpc_size (i + 1) n

-- The blocks of the excitation, with their root mean squares.
unfoldable pub rms_blocks : ℕ → ℕ → List ℤ → Option (List ℤ)
rms_blocks size zero xs = some []
rms_blocks size (suc n) xs =
    let blocks = do
      r ← compute_rms16 (take size xs)
      rest ← rms_blocks size n (drop size xs)
      some (r ∷ rest)
    in if leb size (length xs) then blocks else none

abbrev pub in_int32 : ℤ → Bool
in_int32 (pos n) = ltb n (2 ^ 31)
in_int32 (negsuc n) = ltb n (2 ^ 31)

abbrev pub clamp_quality : ℤ → ℕ
clamp_quality (pos n) = if ltb 10 n then 10 else n
clamp_quality (negsuc n) = 0

-- The value, where the test holds.
abbrev pub guarded : Bool → ℤ → Option ℤ
guarded ok v = if ok then some v else none

abbrev pub is_zero : ℤ → Bool
is_zero (pos n) = n == 0
is_zero (negsuc n) = false

-- The bits of a frame; those of an empty one are `NB_SUBMODE_BITS + 1`.
abbrev pub submode_bits : Option Submode → ℕ
submode_bits none = 5
submode_bits (some m) = m.bits_per_frame

module _ {F : Type 0} where
  unfoldable pub write_setting : EncState F → Setting → ℤ → EncState F
  write_setting st mode v = record st { submode_select = v; submode_id = v }
  write_setting st vbr v = record st { vbr_enabled = v }
  write_setting st vad v = record st { vad_enabled = v }
  write_setting st dtx v = record st { dtx_enabled = v }
  write_setting st complexity v = record st { complexity = if ltb_ℤ v (pos 0) then pos 0 else v }
  write_setting st sampling_rate v = record st { sampling_rate = v }
  write_setting st submode_encoding v = record st { encode_submode = v }
  write_setting st plc_tuning v = record st {
    plc_tuning = if ltb_ℤ (pos 100) v then pos 100 else v;
  }
  write_setting st vbr_max_bitrate v = record st { vbr_max = v }
  write_setting st highpass v = record st { highpass_enabled = v }

  unfoldable pub read_setting : EncState F → Setting → ℤ
  read_setting st mode = st.submode_id
  read_setting st vbr = st.vbr_enabled
  read_setting st vad = st.vad_enabled
  read_setting st dtx = st.dtx_enabled
  read_setting st complexity = st.complexity
  read_setting st sampling_rate = st.sampling_rate
  read_setting st submode_encoding = st.encode_submode
  read_setting st plc_tuning = st.plc_tuning
  read_setting st vbr_max_bitrate = st.vbr_max
  read_setting st highpass = st.highpass_enabled

  -- `submodes[submodeID]`; the inner `none` is a null pointer.
  unfoldable pub current_submode : EncState F → Option (Option Submode)
  current_submode st = elim st.submode_id [ pos n ↦ get_elem? st.submodes n | negsuc n ↦ none ]

  unfoldable pub bitrate : EncState F → Option ℤ
  unfolding current_submode
  bitrate st = do
    m ← current_submode st
    let product = st.sampling_rate *ℤ pos (submode_bits m)
    guarded (in_int32 product && not (st.frame_size == 0)) (quotient product st.frame_size)

  unfoldable pub choose_quality : EncState F → ℤ → Option (EncState F)
  choose_quality st q = do
    m ← get_elem? st.quality_map (clamp_quality q)
    some (record st { submode_select = pos m; submode_id = pos m })

  -- The loop of `SPEEX_SET_BITRATE` and `SPEEX_SET_ABR` with `n` turns left: `i` is `n - 1`. The
  -- number returned is `i` after the loop, -1 where no quality is slow enough.
  unfoldable pub fit_bitrate : ℕ → EncState F → ℤ → Option (ℤ × EncState F)
  unfolding bitrate choose_quality
  fit_bitrate zero st target = some (negsuc 0, st)
  fit_bitrate (suc i) st target = do
    st' ← choose_quality st (pos i)
    rate ← bitrate st'
    let next = fit_bitrate i st' target
    if leb_ℤ rate target then some (pos i, st') else next

  -- The `float` that is set is compared with zero as the number it was converted from.
  unfoldable pub start_abr : (ℤ → F) → EncState F → ℤ → Option (EncState F)
  unfolding fit_bitrate
  start_abr of_int st target =
      let enabled : EncState F = record st {
        abr_enabled = target;
        vbr_enabled = if is_zero target then pos 0 else pos 1;
      } in
      let started = do
        (i, st') ← fit_bitrate 11 enabled target
        some (record st' {
          vbr_quality = of_int (if ltb_ℤ i (pos 0) then pos 0 else i);
          abr_count = of_int (pos 0);
          abr_drift = of_int (pos 0);
          abr_drift2 = of_int (pos 0);
        })
      in if is_zero target then some enabled else started

  unfoldable pub reset : EncState F → Option (EncState F)
  unfolding clear_array even_lsp
  reset st = do
    lsp_rest ← clear_array st.lpc_size st.old_lsp
    mem_sw ← clear_array st.lpc_size st.mem_sw
    mem_sw_whole ← clear_array st.lpc_size st.mem_sw_whole
    mem_sp ← clear_array st.lpc_size st.mem_sp
    mem_exc ← clear_array st.lpc_size st.mem_exc
    exc_buf ← clear_array (st.frame_size + st.max_pitch + 1) st.exc_buf
    sw_buf ← clear_array (st.frame_size + st.max_pitch + 1) st.sw_buf
    win_buf ← clear_array (st.window_size - st.frame_size) st.win_buf
    some (record st {
      bounded_pitch = pos 1;
      first = pos 1;
      old_lsp = even_lsp st.lpc_size 0 st.lpc_size ++ drop st.lpc_size lsp_rest;
      mem_sw = mem_sw;
      mem_sw_whole = mem_sw_whole;
      mem_sp = mem_sp;
      mem_exc = mem_exc;
      exc_buf = exc_buf;
      sw_buf = sw_buf;
      win_buf = win_buf;
    })

  unfoldable pub encoder_ctl : (ℤ → F) → EncState F → Request F → Option (Reply F × EncState F)
  unfolding start_abr reset
  encoder_ctl of_int st (write_field x v) = some (done, write_setting st x v)
  encoder_ctl of_int st (read_field x) = some (int (read_setting st x), st)
  encoder_ctl of_int st get_frame_size = some (int (pos st.frame_size), st)
  encoder_ctl of_int st (set_abr v) = do st' ← start_abr of_int st v; some (done, st')
  encoder_ctl of_int st get_abr = some (int st.abr_enabled, st)
  encoder_ctl of_int st (set_vbr_quality q) = some (done, record st { vbr_quality = q })
  encoder_ctl of_int st get_vbr_quality = some (float st.vbr_quality, st)
  encoder_ctl of_int st (set_quality q) = do st' ← choose_quality st q; some (done, st')
  encoder_ctl of_int st (set_bitrate v) = do (i, st') ← fit_bitrate 11 st v; some (done, st')
  encoder_ctl of_int st get_bitrate = do r ← bitrate st; some (int r, st)
  encoder_ctl of_int st reset_state = do st' ← reset st; some (done, st')
  encoder_ctl of_int st get_lookahead = some (int (pos (st.window_size - st.frame_size)), st)
  encoder_ctl of_int st get_pi_gain =
      if leb st.nb_subframes (length st.pi_gain)
      then some (ints (take st.nb_subframes st.pi_gain), st)
      else none
  encoder_ctl of_int st get_exc = do
    r ← rms_blocks st.subframe_size st.nb_subframes (drop st.exc st.exc_buf)
    some (ints r, st)
  encoder_ctl of_int st get_relative_quality = some (float st.relative_quality, st)
  encoder_ctl of_int st (set_innovation_save p) = some (done, record st { innov_rms_save = p })
  encoder_ctl of_int st (set_wideband v) = some (done, record st { is_wideband = v })
  encoder_ctl of_int st get_stack = some (int (pos st.stack), st)
  encoder_ctl of_int st unknown = some (failed, st)

  -- `stack` is the address of the scratch memory.
  unfoldable pub encoder_init : (ℤ → F) → NbMode → ℕ → Option (EncState F)
  unfolding even_lsp
  encoder_init of_int m stack =
      if m.subframe_size == 0
      then none
      else some (record {
        quality_map = m.quality_map;
        first = pos 1;
        frame_size = m.frame_size;
        subframe_size = m.subframe_size;
        nb_subframes = m.frame_size / m.subframe_size;
        window_size = m.frame_size + m.subframe_size;
        lpc_size = m.lpc_size;
        min_pitch = m.pitch_start;
        max_pitch = m.pitch_end;
        cumul_gain = pos 1024;
        bounded_pitch = pos 1;
        stack = stack;
        win_buf = replicate (m.frame_size + m.subframe_size - m.frame_size) (pos 0);
        exc_buf = replicate (m.frame_size + m.pitch_end + 2) (pos 0);
        exc = m.pitch_end + 2;
        sw_buf = replicate (m.frame_size + m.pitch_end + 2) (pos 0);
        sw = m.pitch_end + 2;
        old_lsp = even_lsp m.lpc_size 0 m.lpc_size;
        old_qlsp = replicate m.lpc_size (pos 0);
        mem_sp = replicate m.lpc_size (pos 0);
        mem_sw = replicate m.lpc_size (pos 0);
        mem_sw_whole = replicate m.lpc_size (pos 0);
        mem_exc = replicate m.lpc_size (pos 0);
        mem_exc2 = replicate m.lpc_size (pos 0);
        pi_gain = replicate (m.frame_size / m.subframe_size) (pos 0);
        innov_rms_save = 0;
        vbr_quality = of_int (pos 8);
        relative_quality = of_int (pos 0);
        vbr_enabled = pos 0;
        vbr_max = pos 0;
        vad_enabled = pos 0;
        dtx_enabled = pos 0;
        dtx_count = pos 0;
        abr_enabled = pos 0;
        abr_drift = of_int (pos 0);
        abr_drift2 = of_int (pos 0);
        abr_count = of_int (pos 0);
        complexity = pos 2;
        sampling_rate = pos 8000;
        plc_tuning = pos 2;
        encode_submode = pos 1;
        submodes = m.submodes;
        submode_id = pos m.default_submode;
        submode_select = pos m.default_submode;
        is_wideband = pos 0;
        highpass_enabled = pos 1;
      })
