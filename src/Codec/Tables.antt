-- ===== src/Codec/Tables.antt =====
-- jni/modes.h, jni/ltp.h and jni/cb_search.h: the records of a mode. A pointer to a codebook or to a
-- quantizer is the name of what it points to; a quantizer and its inverse have one name.
use securecom_voice.Base.{ℕ, Option, List}
use securecom_voice.Base.Int.{ℤ}

pub data Codebook : Type 0 where
  gain_cdbk_nb : Codebook
  gain_cdbk_lbr : Codebook
  exc_5_256_table : Codebook
  exc_5_64_table : Codebook
  exc_8_128_table : Codebook
  exc_10_32_table : Codebook
  exc_10_16_table : Codebook
  exc_20_32_table : Codebook

pub data LspQuant : Type 0 where
  lsp_lbr : LspQuant
  lsp_nb : LspQuant

pub data LtpQuant : Type 0 where
  forced_pitch : LtpQuant
  pitch_3tap : LtpQuant

pub data InnovationQuant : Type 0 where
  noise_codebook : InnovationQuant
  split_cb : InnovationQuant

pub record LtpParams : Type 0 where
  pub gain_cdbk : Codebook
  pub gain_bits : ℕ
  pub pitch_bits : ℕ

pub record SplitCbParams : Type 0 where
  pub subvect_size : ℕ
  pub nb_subvect : ℕ
  pub shape_cb : Codebook
  pub shape_bits : ℕ
  pub have_sign : ℕ

pub record Submode : Type 0 where
  pub lbr_pitch : ℤ
  pub forced_pitch_gain : ℕ
  pub have_subframe_gain : ℕ
  pub double_codebook : ℕ
  pub lsp_quant : LspQuant
  pub ltp_quant : LtpQuant
  pub ltp_params : Option LtpParams
  pub innovation_quant : InnovationQuant
  pub innovation_params : Option SplitCbParams
  pub comb_gain : ℤ
  pub bits_per_frame : ℕ

pub record NbMode : Type 0 where
  pub frame_size : ℕ
  pub subframe_size : ℕ
  pub lpc_size : ℕ
  pub pitch_start : ℕ
  pub pitch_end : ℕ
  pub gamma1 : ℕ
  pub gamma2 : ℕ
  pub lpc_floor : ℕ
  pub submodes : List (Option Submode)
  pub default_submode : ℕ
  pub quality_map : List ℕ
