-- ===== src/Codec/Decoder.antt =====
-- jni/nb_celp.c and jni/nb_celp.h: the state of the narrowband decoder, `nb_decoder_init` and
-- `nb_decoder_ctl`. `P` stands for the pointers to callback functions, a pointer to data or memory is
-- its address. `FloatOps` holds the operations on `float` that `SPEEX_GET_ACTIVITY` uses. The fields
-- of the decoder that neither of the two functions names are left out. A result `none` is an access
-- out of bounds, a division by zero or an `int` that overflows. Allocations succeed.
pub mod Laws
pub mod Search
pub mod Callbacks
pub mod Transmission
mod Tests
use securecom_voice.Base.{
  ℕ, zero, suc, ◌+◌, ◌-◌, ◌*◌, ◌/◌, ◌%◌, Bool, ◌&&◌, not, Option, none, some, List, [], ◌∷◌, ◌++◌,
  length, get_elem?, set, take, drop, replicate, ltb, leb, ◌==◌, if◌then◌else◌, ◌>>=◌,
}
use securecom_voice.Base.Int.{ℤ, pos, negsuc, ◌*ℤ◌}
use securecom_voice.Codec.Tables.{Submode, NbMode}
use securecom_voice.Codec.Rms.{quotient}
use securecom_voice.Codec.Encoder.{clear_array, rms_blocks, in_int32, guarded, submode_bits}

pub record SpeexCallback (P : Type 0) : Type 0 where
  pub callback_id : ℤ
  pub func : Option P
  pub user_data : ℕ

pub record DecState (P : Type 0) : Type 0 where
  pub first : ℤ
  pub count_lost : ℤ
  pub frame_size : ℕ
  pub subframe_size : ℕ
  pub nb_subframes : ℕ
  pub lpc_size : ℕ
  pub min_pitch : ℕ
  pub max_pitch : ℕ
  pub sampling_rate : ℤ
  pub last_ol_gain : ℤ
  pub stack : ℕ
  pub exc_buf : List ℤ
  pub exc : ℕ
  pub old_qlsp : List ℤ
  pub interp_qlpc : List ℤ
  pub mem_sp : List ℤ
  pub pi_gain : List ℤ
  pub innov_save : ℕ
  pub level : ℤ
  pub max_level : ℤ
  pub min_level : ℤ
  pub last_pitch : ℤ
  pub pitch_gain_buf : List ℤ
  pub pitch_gain_buf_idx : ℕ
  pub seed : ℤ
  pub encode_submode : ℤ
  pub submodes : List (Option Submode)
  pub submode_id : ℤ
  pub lpc_enh_enabled : ℤ
  pub speex_callbacks : List (SpeexCallback P)
  pub user_callback : SpeexCallback P
  pub voc_m1 : ℤ
  pub voc_m2 : ℤ
  pub voc_mean : ℤ
  pub voc_offset : ℤ
  pub dtx_enabled : ℤ
  pub is_wideband : ℤ
  pub highpass_enabled : ℤ

-- The fields that a pair of requests `SPEEX_SET_…`, `SPEEX_GET_…` stores and reads.
-- `SPEEX_SET_LOW_MODE` and `SPEEX_GET_LOW_MODE` are `mode` too.
pub data DecSetting : Type 0 where
  mode : DecSetting
  enhancer : DecSetting
  sampling : DecSetting
  submode_encoding : DecSetting
  highpass : DecSetting

pub data DecRequest (P : Type 0) : Type 0 where
  write_field : DecSetting → ℤ → DecRequest P
  read_field : DecSetting → DecRequest P
  get_frame_size : DecRequest P
  get_bitrate : DecRequest P
  set_handler : SpeexCallback P → DecRequest P
  set_user_handler : SpeexCallback P → DecRequest P
  reset_state : DecRequest P
  get_lookahead : DecRequest P
  get_activity : DecRequest P
  get_pi_gain : DecRequest P
  get_exc : DecRequest P
  get_dtx_status : DecRequest P
  set_innovation_save : ℕ → DecRequest P
  set_wideband : ℤ → DecRequest P
  get_stack : DecRequest P
  unknown : DecRequest P

-- What is written through `ptr`; `failed` is the result -1.
pub data DecReply : Type 0 where
  done : DecReply
  int : ℤ → DecReply
  ints : List ℤ → DecReply
  failed : DecReply

-- `log(level/min_level)/log(max_level/min_level)`, the test `ret > n`, a number as a `float`, and
-- `(int)(100*ret)`.
pub record FloatOps (F : Type 0) : Type 0 where
  pub log_ratio : ℤ → ℤ → ℤ → F
  pub exceeds : F → ℕ → Bool
  pub of_nat : ℕ → F
  pub percent : F → ℤ

unfoldable pub activity : {F : Type 0} → FloatOps F → ℤ → ℤ → ℤ → ℤ
activity ops level min_level max_level =
    let ret = ops.log_ratio level min_level max_level in
    let capped = if ops.exceeds ret 1 then ops.of_nat 1 else ret in
    ops.percent (if not (ops.exceeds capped 0) then ops.of_nat 0 else capped)

-- Entry `callback_id` of the array of callbacks is written.
unfoldable pub register :
    {P : Type 0} → SpeexCallback P → List (SpeexCallback P) → Option (List (SpeexCallback P))
register c callbacks = elim c.callback_id [
  | pos n ↦ if ltb n (length callbacks) then some (set callbacks n c) else none
  | negsuc n ↦ none
]

module _ {P : Type 0} where
  unfoldable pub write_dec_setting : DecState P → DecSetting → ℤ → DecState P
  write_dec_setting st mode v = record st { submode_id = v }
  write_dec_setting st enhancer v = record st { lpc_enh_enabled = v }
  write_dec_setting st sampling v = record st { sampling_rate = v }
  write_dec_setting st submode_encoding v = record st { encode_submode = v }
  write_dec_setting st highpass v = record st { highpass_enabled = v }

  unfoldable pub read_dec_setting : DecState P → DecSetting → ℤ
  read_dec_setting st mode = st.submode_id
  read_dec_setting st enhancer = st.lpc_enh_enabled
  read_dec_setting st sampling = st.sampling_rate
  read_dec_setting st submode_encoding = st.encode_submode
  read_dec_setting st highpass = st.highpass_enabled

  -- `submodes[submodeID]`; the inner `none` is a null pointer.
  unfoldable pub decoder_submode : DecState P → Option (Option Submode)
  decoder_submode st = elim st.submode_id [ pos n ↦ get_elem? st.submodes n | negsuc n ↦ none ]

  unfoldable pub decoder_bitrate : DecState P → Option ℤ
  unfolding decoder_submode
  decoder_bitrate st = do
    m ← decoder_submode st
    let product = st.sampling_rate *ℤ pos (submode_bits m)
    guarded (in_int32 product && not (st.frame_size == 0)) (quotient product st.frame_size)

  unfoldable pub reset_decoder : DecState P → Option (DecState P)
  unfolding clear_array
  reset_decoder st = do
    mem_sp ← clear_array st.lpc_size st.mem_sp
    exc_buf ← clear_array (st.frame_size + st.max_pitch + 1) st.exc_buf
    some (record st { mem_sp = mem_sp; exc_buf = exc_buf })

  unfoldable pub decoder_ctl :
      {F : Type 0} → FloatOps F → DecState P → DecRequest P → Option (DecReply × DecState P)
  unfolding reset_decoder decoder_bitrate
  decoder_ctl ops st (write_field x v) = some (done, write_dec_setting st x v)
  decoder_ctl ops st (read_field x) = some (int (read_dec_setting st x), st)
  decoder_ctl ops st get_frame_size = some (int (pos st.frame_size), st)
  decoder_ctl ops st get_bitrate = do r ← decoder_bitrate st; some (int r, st)
  decoder_ctl ops st (set_handler c) = do
    callbacks ← register c st.speex_callbacks
    some (done, record st { speex_callbacks = callbacks })
  decoder_ctl ops st (set_user_handler c) = some (done, record st { user_callback = c })
  decoder_ctl ops st reset_state = do st' ← reset_decoder st; some (done, st')
  decoder_ctl ops st get_lookahead = some (int (pos st.subframe_size), st)
  decoder_ctl ops st get_activity = some (int (activity ops st.level st.min_level st.max_level), st)
  decoder_ctl ops st get_pi_gain =
      if leb st.nb_subframes (length st.pi_gain)
      then some (ints (take st.nb_subframes st.pi_gain), st)
      else none
  decoder_ctl ops st get_exc = do
    r ← rms_blocks st.subframe_size st.nb_subframes (drop st.exc st.exc_buf)
    some (ints r, st)
  decoder_ctl ops st get_dtx_status = some (int st.dtx_enabled, st)
  decoder_ctl ops st (set_innovation_save p) = some (done, record st { innov_save = p })
  decoder_ctl ops st (set_wideband v) = some (done, record st { is_wideband = v })
  decoder_ctl ops st get_stack = some (int (pos st.stack), st)
  decoder_ctl ops st unknown = some (failed, st)

  abbrev pub no_callback : SpeexCallback P
  no_callback = record { callback_id = pos 0; func = none; user_data = 0 }

  -- `stack` is the address of the scratch memory, `default_user` points to
  -- `speex_default_user_handler`. `speex_alloc` gives zeros.
  unfoldable pub decoder_init : P → NbMode → ℕ → Option (DecState P)
  decoder_init default_user m stack =
      if m.subframe_size == 0
      then none
      else some (record {
        first = pos 1;
        count_lost = pos 0;
        frame_size = m.frame_size;
        subframe_size = m.subframe_size;
        nb_subframes = m.frame_size / m.subframe_size;
        lpc_size = m.lpc_size;
        min_pitch = m.pitch_start;
        max_pitch = m.pitch_end;
        sampling_rate = pos 8000;
        last_ol_gain = pos 0;
        stack = stack;
        exc_buf = replicate (m.frame_size + 2 * m.pitch_end + m.subframe_size + 12) (pos 0);
        exc = 2 * m.pitch_end + m.subframe_size + 6;
        old_qlsp = replicate m.lpc_size (pos 0);
        interp_qlpc = replicate m.lpc_size (pos 0);
        mem_sp = replicate m.lpc_size (pos 0);
        pi_gain = replicate (m.frame_size / m.subframe_size) (pos 0);
        innov_save = 0;
        level = pos 0;
        max_level = pos 0;
        min_level = pos 0;
        last_pitch = pos 40;
        pitch_gain_buf = pos 0 ∷ pos 0 ∷ pos 0 ∷ [];
        pitch_gain_buf_idx = 0;
        seed = pos 1000;
        encode_submode = pos 1;
        submodes = m.submodes;
        submode_id = pos m.default_submode;
        lpc_enh_enabled = pos 1;
        speex_callbacks = replicate 16 no_callback;
        user_callback = record { callback_id = pos 0; func = some default_user; user_data = 0 };
        voc_m1 = pos 0;
        voc_m2 = pos 0;
        voc_mean = pos 0;
        voc_offset = pos 0;
        dtx_enabled = pos 0;
        is_wideband = pos 0;
        highpass_enabled = pos 1;
      })
