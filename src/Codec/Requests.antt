-- ===== src/Codec/Requests.antt =====
-- jni/nb_celp.h: the state of the narrowband encoder, and its control requests as values. `F`
-- stands for `float`. The fields that the requests leave alone and do not read (the filters'
-- windows, `vbr`, `pitch` and the like) are left out.
use securecom_voice.Base.{ℕ, Option, List}
use securecom_voice.Base.Int.{ℤ}
use securecom_voice.Codec.Tables.{Submode}

pub record EncState (F : Type 0) : Type 0 where
  pub quality_map : List ℕ
  pub first : ℤ
  pub frame_size : ℕ
  pub subframe_size : ℕ
  pub nb_subframes : ℕ
  pub window_size : ℕ
  pub lpc_size : ℕ
  pub min_pitch : ℕ
  pub max_pitch : ℕ
  pub cumul_gain : ℤ
  pub bounded_pitch : ℤ
  pub stack : ℕ
  pub win_buf : List ℤ
  pub exc_buf : List ℤ
  pub exc : ℕ
  pub sw_buf : List ℤ
  pub sw : ℕ
  pub old_lsp : List ℤ
  pub old_qlsp : List ℤ
  pub mem_sp : List ℤ
  pub mem_sw : List ℤ
  pub mem_sw_whole : List ℤ
  pub mem_exc : List ℤ
  pub mem_exc2 : List ℤ
  pub pi_gain : List ℤ
  pub innov_rms_save : ℕ
  pub vbr_quality : F
  pub relative_quality : F
  pub vbr_enabled : ℤ
  pub vbr_max : ℤ
  pub vad_enabled : ℤ
  pub dtx_enabled : ℤ
  pub dtx_count : ℤ
  pub abr_enabled : ℤ
  pub abr_drift : F
  pub abr_drift2 : F
  pub abr_count : F
  pub complexity : ℤ
  pub sampling_rate : ℤ
  pub plc_tuning : ℤ
  pub encode_submode : ℤ
  pub submodes : List (Option Submode)
  pub submode_id : ℤ
  pub submode_select : ℤ
  pub is_wideband : ℤ
  pub highpass_enabled : ℤ

-- The fields that a pair of requests `SPEEX_SET_…`, `SPEEX_GET_…` stores and reads.
-- `SPEEX_SET_LOW_MODE` and `SPEEX_GET_LOW_MODE` are `mode` too.
pub data Setting : Type 0 where
  mode : Setting
  vbr : Setting
  vad : Setting
  dtx : Setting
  complexity : Setting
  sampling_rate : Setting
  submode_encoding : Setting
  plc_tuning : Setting
  vbr_max_bitrate : Setting
  highpass : Setting

pub data Request (F : Type 0) : Type 0 where
  write_field : Setting → ℤ → Request F
  read_field : Setting → Request F
  get_frame_size : Request F
  set_abr : ℤ → Request F
  get_abr : Request F
  set_vbr_quality : F → Request F
  get_vbr_quality : Request F
  set_quality : ℤ → Request F
  set_bitrate : ℤ → Request F
  get_bitrate : Request F
  reset_state : Request F
  get_lookahead : Request F
  get_pi_gain : Request F
  get_exc : Request F
  get_relative_quality : Request F
  set_innovation_save : ℕ → Request F
  set_wideband : ℤ → Request F
  get_stack : Request F
  unknown : Request F

-- What is written through `ptr`; `failed` is the result -1.
pub data Reply (F : Type 0) : Type 0 where
  done : Reply F
  int : ℤ → Reply F
  float : F → Reply F
  ints : List ℤ → Reply F
  failed : Reply F
