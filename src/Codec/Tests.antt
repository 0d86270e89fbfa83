-- ===== src/Codec/Tests.antt =====
-- The encoder of the narrowband mode on concrete requests.
use securecom_voice.Base.{
  ℕ, zero, suc, ◌+◌, ◌-◌, ◌/◌, ◌≡◌, refl, ◌⊎◌, some, List, [], ◌∷◌, arith, get_or, replicate,
}
use securecom_voice.Base.Int.{ℤ, pos, ◌*ℤ◌, ◌+ℤ◌, ◌-ℤ◌}
use securecom_voice.Codec.Modes.{nb_mode, nb_submode3}
use securecom_voice.Codec.Frame.{frame_fields, total, bits_per_frame_lem}
use securecom_voice.Codec.Rms.{
  quotient, compute_rms16, max_abs, sum_squares, sig_shift, spx_sqrt, spx_ilog4, ilog4_step, vshr32,
  shift_right, add16, mult16_16_q14, mult16_16, word16,
}
use securecom_voice.Codec.Encoder.{
  choose_quality, bitrate, current_submode, encoder_ctl, even_lsp, encoder_init,
}
use securecom_voice.Codec.Requests.{EncState, set_bitrate, reset_state, done}
use securecom_voice.Codec.Encoder.Rate.{HasRates, Best, TooFast, set_bitrate_lem}
use securecom_voice.Codec.Encoder.Reset.{
  AreClearedBut, encoder_init-IsAllocated, reset_keeps_last_sample,
}

-- What `nb_encoder_init` returns.
abbrev fresh_encoder : EncState ℤ
fresh_encoder = record {
  quality_map = nb_mode.quality_map;
  first = pos 1;
  frame_size = nb_mode.frame_size;
  subframe_size = nb_mode.subframe_size;
  nb_subframes = nb_mode.frame_size / nb_mode.subframe_size;
  window_size = nb_mode.frame_size + nb_mode.subframe_size;
  lpc_size = nb_mode.lpc_size;
  min_pitch = nb_mode.pitch_start;
  max_pitch = nb_mode.pitch_end;
  cumul_gain = pos 1024;
  bounded_pitch = pos 1;
  stack = 0;
  win_buf = replicate (nb_mode.frame_size + nb_mode.subframe_size - nb_mode.frame_size) (pos 0);
  exc_buf = replicate (nb_mode.frame_size + nb_mode.pitch_end + 2) (pos 0);
  exc = nb_mode.pitch_end + 2;
  sw_buf = replicate (nb_mode.frame_size + nb_mode.pitch_end + 2) (pos 0);
  sw = nb_mode.pitch_end + 2;
  old_lsp = even_lsp nb_mode.lpc_size 0 nb_mode.lpc_size;
  old_qlsp = replicate nb_mode.lpc_size (pos 0);
  mem_sp = replicate nb_mode.lpc_size (pos 0);
  mem_sw = replicate nb_mode.lpc_size (pos 0);
  mem_sw_whole = replicate nb_mode.lpc_size (pos 0);
  mem_exc = replicate nb_mode.lpc_size (pos 0);
  mem_exc2 = replicate nb_mode.lpc_size (pos 0);
  pi_gain = replicate (nb_mode.frame_size / nb_mode.subframe_size) (pos 0);
  innov_rms_save = 0;
  vbr_quality = (pos 8);
  relative_quality = (pos 0);
  vbr_enabled = pos 0;
  vbr_max = pos 0;
  vad_enabled = pos 0;
  dtx_enabled = pos 0;
  dtx_count = pos 0;
  abr_enabled = pos 0;
  abr_drift = (pos 0);
  abr_drift2 = (pos 0);
  abr_count = (pos 0);
  complexity = pos 2;
  sampling_rate = pos 8000;
  plc_tuning = pos 2;
  encode_submode = pos 1;
  submodes = nb_mode.submodes;
  submode_id = pos nb_mode.default_submode;
  submode_select = pos nb_mode.default_submode;
  is_wideband = pos 0;
  highpass_enabled = pos 1;
}

fresh-init : encoder_init (λ n. n) nb_mode 0 ≡ some fresh_encoder
unfolding encoder_init
fresh-init = refl

-- The bit rates of the qualities from 0 to 10.
abbrev rates : ℕ → ℤ
rates q =
    get_or
      (pos 2150
        ∷ pos 3950
        ∷ pos 5950
        ∷ pos 8000
        ∷ pos 8000
        ∷ pos 11000
        ∷ pos 11000
        ∷ pos 15000
        ∷ pos 15000
        ∷ pos 18200
        ∷ pos 24600
        ∷ [])
      q (pos 0)

fresh-HasRates : HasRates fresh_encoder rates 11
unfolding choose_quality bitrate current_submode quotient ◌*ℤ◌
fresh-HasRates zero h = refl
fresh-HasRates (suc zero) h = refl
fresh-HasRates (suc (suc zero)) h = refl
fresh-HasRates (suc (suc (suc zero))) h = refl
fresh-HasRates (suc (suc (suc (suc zero)))) h = refl
fresh-HasRates (suc (suc (suc (suc (suc zero))))) h = refl
fresh-HasRates (suc (suc (suc (suc (suc (suc zero)))))) h = refl
fresh-HasRates (suc (suc (suc (suc (suc (suc (suc zero))))))) h = refl
fresh-HasRates (suc (suc (suc (suc (suc (suc (suc (suc zero)))))))) h = refl
fresh-HasRates (suc (suc (suc (suc (suc (suc (suc (suc (suc zero))))))))) h = refl
fresh-HasRates (suc (suc (suc (suc (suc (suc (suc (suc (suc (suc zero)))))))))) h = refl
fresh-HasRates (suc (suc (suc (suc (suc (suc (suc (suc (suc (suc (suc n))))))))))) h =
    absurd (omega arith)

set_bitrate_lem_example :
    ((q : ℕ) × (st' : EncState ℤ) × ((encoder_ctl (λ n. n) fresh_encoder (set_bitrate (pos 9000))
          ≡ some (done, st'))
        × Best fresh_encoder rates (pos 9000) 11 q st'))
    ⊎ ((st' : EncState ℤ) × ((encoder_ctl (λ n. n) fresh_encoder (set_bitrate (pos 9000))
            ≡ some (done, st'))
          × ((choose_quality fresh_encoder (pos 0) ≡ some st') × TooFast rates (pos 9000) 11)))
set_bitrate_lem_example = set_bitrate_lem (λ n. n) fresh_encoder rates (pos 9000) fresh-HasRates

reset_keeps_last_sample_example :
    (st' : EncState ℤ) × ((encoder_ctl (λ n. n) fresh_encoder reset_state ≡ some (done, st'))
      × ((st' ≡ record fresh_encoder {
        bounded_pitch = pos 1;
        first = pos 1;
        old_lsp = st'.old_lsp;
        mem_sw = replicate 10 (pos 0);
        mem_sw_whole = replicate 10 (pos 0);
        mem_sp = replicate 10 (pos 0);
        mem_exc = replicate 10 (pos 0);
        exc_buf = st'.exc_buf;
        sw_buf = st'.sw_buf;
        win_buf = replicate 40 (pos 0);
      })
          × (AreClearedBut 305 fresh_encoder.exc_buf st'.exc_buf
              × AreClearedBut 305 fresh_encoder.sw_buf st'.sw_buf)))
reset_keeps_last_sample_example =
    reset_keeps_last_sample (λ n. n) fresh_encoder
      (encoder_init-IsAllocated (λ n. n) nb_mode 0 fresh_encoder fresh-init)

bits_per_frame_lem_example :
    (fields : List ℕ) × ((frame_fields (nb_mode.frame_size / nb_mode.subframe_size) 3 nb_submode3
        ≡ some fields)
      × (total fields ≡ nb_submode3.bits_per_frame))
bits_per_frame_lem_example = bits_per_frame_lem 3 nb_submode3 refl

-- Root mean squares as the C code computes them.
rms_of_constant : compute_rms16 (replicate 40 (pos 100)) ≡ some (pos 100)
unfolding compute_rms16 max_abs sum_squares sig_shift spx_sqrt spx_ilog4 ilog4_step vshr32
    shift_right add16 mult16_16_q14 mult16_16 word16 ◌*ℤ◌ ◌-ℤ◌ ◌+ℤ◌
rms_of_constant = refl
