-- ===== src/Codec/Modes.antt =====
-- jni/modes.c: the narrowband mode and its sub-modes.
use securecom_voice.Base.{none, some, [], ◌∷◌}
use securecom_voice.Base.Int.{pos, negsuc}
use securecom_voice.Codec.Tables.{
  LtpParams, NbMode, SplitCbParams, Submode, exc_10_16_table, exc_10_32_table, exc_20_32_table,
  exc_5_256_table, exc_5_64_table, exc_8_128_table, forced_pitch, gain_cdbk_lbr, gain_cdbk_nb,
  lsp_lbr, lsp_nb, noise_codebook, pitch_3tap, split_cb,
}

abbrev pub ltp_params_nb : LtpParams
ltp_params_nb = record { gain_cdbk = gain_cdbk_nb; gain_bits = 7; pitch_bits = 7 }

abbrev pub ltp_params_vlbr : LtpParams
ltp_params_vlbr = record { gain_cdbk = gain_cdbk_lbr; gain_bits = 5; pitch_bits = 0 }

abbrev pub ltp_params_lbr : LtpParams
ltp_params_lbr = record { gain_cdbk = gain_cdbk_lbr; gain_bits = 5; pitch_bits = 7 }

abbrev pub ltp_params_med : LtpParams
ltp_params_med = record { gain_cdbk = gain_cdbk_lbr; gain_bits = 5; pitch_bits = 7 }

abbrev pub split_cb_nb_vlbr : SplitCbParams
split_cb_nb_vlbr = record {
  subvect_size = 10;
  nb_subvect = 4;
  shape_cb = exc_10_16_table;
  shape_bits = 4;
  have_sign = 0;
}

abbrev pub split_cb_nb_ulbr : SplitCbParams
split_cb_nb_ulbr = record {
  subvect_size = 20;
  nb_subvect = 2;
  shape_cb = exc_20_32_table;
  shape_bits = 5;
  have_sign = 0;
}

abbrev pub split_cb_nb_lbr : SplitCbParams
split_cb_nb_lbr = record {
  subvect_size = 10;
  nb_subvect = 4;
  shape_cb = exc_10_32_table;
  shape_bits = 5;
  have_sign = 0;
}

abbrev pub split_cb_nb : SplitCbParams
split_cb_nb = record {
  subvect_size = 5;
  nb_subvect = 8;
  shape_cb = exc_5_64_table;
  shape_bits = 6;
  have_sign = 0;
}

abbrev pub split_cb_nb_med : SplitCbParams
split_cb_nb_med = record {
  subvect_size = 8;
  nb_subvect = 5;
  shape_cb = exc_8_128_table;
  shape_bits = 7;
  have_sign = 0;
}

abbrev pub split_cb_sb : SplitCbParams
split_cb_sb = record {
  subvect_size = 5;
  nb_subvect = 8;
  shape_cb = exc_5_256_table;
  shape_bits = 8;
  have_sign = 0;
}

abbrev pub nb_submode1 : Submode
nb_submode1 = record {
  lbr_pitch = pos 0;
  forced_pitch_gain = 1;
  have_subframe_gain = 0;
  double_codebook = 0;
  lsp_quant = lsp_lbr;
  ltp_quant = forced_pitch;
  ltp_params = none;
  innovation_quant = noise_codebook;
  innovation_params = none;
  comb_gain = negsuc 0;
  bits_per_frame = 43;
}

abbrev pub nb_submode8 : Submode
nb_submode8 = record {
  lbr_pitch = pos 0;
  forced_pitch_gain = 1;
  have_subframe_gain = 0;
  double_codebook = 0;
  lsp_quant = lsp_lbr;
  ltp_quant = forced_pitch;
  ltp_params = none;
  innovation_quant = split_cb;
  innovation_params = some split_cb_nb_ulbr;
  comb_gain = pos 16384;
  bits_per_frame = 79;
}

abbrev pub nb_submode2 : Submode
nb_submode2 = record {
  lbr_pitch = pos 0;
  forced_pitch_gain = 0;
  have_subframe_gain = 0;
  double_codebook = 0;
  lsp_quant = lsp_lbr;
  ltp_quant = pitch_3tap;
  ltp_params = some ltp_params_vlbr;
  innovation_quant = split_cb;
  innovation_params = some split_cb_nb_vlbr;
  comb_gain = pos 19661;
  bits_per_frame = 119;
}

abbrev pub nb_submode3 : Submode
nb_submode3 = record {
  lbr_pitch = negsuc 0;
  forced_pitch_gain = 0;
  have_subframe_gain = 1;
  double_codebook = 0;
  lsp_quant = lsp_lbr;
  ltp_quant = pitch_3tap;
  ltp_params = some ltp_params_lbr;
  innovation_quant = split_cb;
  innovation_params = some split_cb_nb_lbr;
  comb_gain = pos 18022;
  bits_per_frame = 160;
}

abbrev pub nb_submode4 : Submode
nb_submode4 = record {
  lbr_pitch = negsuc 0;
  forced_pitch_gain = 0;
  have_subframe_gain = 1;
  double_codebook = 0;
  lsp_quant = lsp_lbr;
  ltp_quant = pitch_3tap;
  ltp_params = some ltp_params_med;
  innovation_quant = split_cb;
  innovation_params = some split_cb_nb_med;
  comb_gain = pos 14746;
  bits_per_frame = 220;
}

abbrev pub nb_submode5 : Submode
nb_submode5 = record {
  lbr_pitch = negsuc 0;
  forced_pitch_gain = 0;
  have_subframe_gain = 3;
  double_codebook = 0;
  lsp_quant = lsp_nb;
  ltp_quant = pitch_3tap;
  ltp_params = some ltp_params_nb;
  innovation_quant = split_cb;
  innovation_params = some split_cb_nb;
  comb_gain = pos 9830;
  bits_per_frame = 300;
}

abbrev pub nb_submode6 : Submode
nb_submode6 = record {
  lbr_pitch = negsuc 0;
  forced_pitch_gain = 0;
  have_subframe_gain = 3;
  double_codebook = 0;
  lsp_quant = lsp_nb;
  ltp_quant = pitch_3tap;
  ltp_params = some ltp_params_nb;
  innovation_quant = split_cb;
  innovation_params = some split_cb_sb;
  comb_gain = pos 6554;
  bits_per_frame = 364;
}

abbrev pub nb_submode7 : Submode
nb_submode7 = record {
  lbr_pitch = negsuc 0;
  forced_pitch_gain = 0;
  have_subframe_gain = 3;
  double_codebook = 1;
  lsp_quant = lsp_nb;
  ltp_quant = pitch_3tap;
  ltp_params = some ltp_params_nb;
  innovation_quant = split_cb;
  innovation_params = some split_cb_nb;
  comb_gain = pos 3277;
  bits_per_frame = 492;
}

-- `QCONST16(.0002,15)` is 7.
abbrev pub nb_mode : NbMode
nb_mode = record {
  frame_size = 160;
  subframe_size = 40;
  lpc_size = 10;
  pitch_start = 17;
  pitch_end = 144;
  gamma1 = 29491;
  gamma2 = 19661;
  lpc_floor = 7;
  submodes =
      none
      ∷ some nb_submode1
      ∷ some nb_submode2
      ∷ some nb_submode3
      ∷ some nb_submode4
      ∷ some nb_submode5
      ∷ some nb_submode6
      ∷ some nb_submode7
      ∷ some nb_submode8
      ∷ none
      ∷ none
      ∷ none
      ∷ none
      ∷ none
      ∷ none
      ∷ none
      ∷ [];
  default_submode = 5;
  quality_map = 1 ∷ 8 ∷ 2 ∷ 3 ∷ 3 ∷ 4 ∷ 4 ∷ 5 ∷ 5 ∷ 6 ∷ 7 ∷ [];
}
