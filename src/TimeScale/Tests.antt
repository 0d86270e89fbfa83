-- ===== src/TimeScale/Tests.antt =====
-- The time scaling on concrete states, with integers for hundredths.
use securecom_voice.Base.{
  ℕ, suc, ◌+◌, ◌/◌, ◌≤◌, ◌<◌, ◌≡◌, refl, true, false, ◌&&◌, none, some, List, arith, length,
  replicate,
}
use securecom_voice.Base.Int.{ℤ, pos, negsuc, ◌+ℤ◌, ◌-ℤ◌, ◌*ℤ◌, ltb_ℤ, leb_ℤ, pos_part}
use securecom_voice.Plc.{Plc}
use securecom_voice.TimeScale.{TimeFloat, TimeScale, returns, one, time_scale, max_output_len}
use securecom_voice.TimeScale.Buffer.{IsScale}
use securecom_voice.TimeScale.Speed.{SpeedsUp, speed_up_lem}
use securecom_voice.TimeScale.Wrapper.{
  Concealer, max_output_length_at_speed, change_speed, straight_overruns,
}

-- Division towards zero by a positive number.
abbrev over : ℤ → ℕ → ℤ
over (pos a) n = pos (a / n)
over (negsuc a) n = pos 0 -ℤ pos (suc a / n)

abbrev hundredths : TimeFloat ℤ
hundredths = record {
  of_int = λ n. n *ℤ pos 100;
  add = ◌+ℤ◌;
  sub = ◌-ℤ◌;
  mul = λ a b. over (a *ℤ b) 100;
  div = λ a b. over (a *ℤ pos 100) (pos_part b);
  less = ltb_ℤ;
  at_most = leb_ℤ;
  equal = λ a b. leb_ℤ a b && leb_ℤ b a;
  truncate = λ a. over a 100;
  low = pos 99;
  high = pos 101;
  half = pos 50;
}

-- 200 samples are held, for a rate of 8000 samples and two thirds of the time.
abbrev busy : TimeScale ℤ
busy = record {
  sample_rate = 8000;
  min_pitch = 133;
  max_pitch = 32;
  buf_len = 266;
  playout_rate = pos 66;
  rcomp = pos 194;
  rate_nudge = pos 0;
  fill = 200;
  lcp = pos 0;
  buf = replicate 1600 (pos 0);
}

abbrev block : List ℤ
block = replicate 160 (pos 5)

busy-IsScale : IsScale busy
busy-IsScale = (refl, omega arith, omega arith, omega arith, omega arith)

busy-SpeedsUp : SpeedsUp hundredths busy.playout_rate
unfolding ◌*ℤ◌
busy-SpeedsUp = (refl, refl)

speed_up_lem_example :
    (s' : TimeScale ℤ) × (out : List ℤ) × ((time_scale hundredths 161 busy block
        ≡ some (returns s' out))
      × (IsScale s' × ((s'.fill < s'.buf_len) × (length out + s'.fill ≤ busy.fill + length block))))
speed_up_lem_example =
    speed_up_lem hundredths 161 busy block busy-IsScale (omega arith) busy-SpeedsUp (omega arith)

abbrev silent : Plc ℤ
silent = record {
  missing_samples = 0;
  pitch_offset = 0;
  pitch = 40;
  pitchbuf = replicate 120 (pos 7);
  history = replicate 280 (pos 0);
  buf_ptr = 270;
}

abbrev concealer : Concealer ℤ
concealer = record { plc_state = silent; ts_state = some busy; plc_init = true }

-- The least array that is allowed.
abbrev output : List ℤ
output = replicate 294 (pos 0)

high-true : hundredths.at_most (pos 100) (hundredths.of_int (pos 0)) ≡ false
unfolding ◌*ℤ◌
high-true = refl

one-one : hundredths.equal (one hundredths) (one hundredths) ≡ true
unfolding ◌*ℤ◌
one-one = refl

allowed :
    max_output_len hundredths (record busy { lcp = pos 0; playout_rate = one hundredths }) 160
    ≡ pos 294
unfolding max_output_len ◌*ℤ◌ ◌+ℤ◌
allowed = refl

straight_overruns_example :
    (c' : Concealer ℤ) × ((max_output_length_at_speed hundredths concealer 160 (pos 100)
        ≡ some (pos 294, c'))
      × (change_speed hundredths 5 concealer output block 160 (pos 100) ≡ none))
straight_overruns_example =
    straight_overruns hundredths 5 concealer busy output block (pos 100) refl high-true refl refl
      one-one allowed (omega arith) (omega arith) refl
