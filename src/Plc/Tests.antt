-- ===== src/Plc/Tests.antt =====
-- The concealer on concrete blocks, with integers for the floating-point numbers.
use securecom_voice.Base.{
  ℕ, zero, suc, ◌+◌, ◌≤◌, ◌<◌, ◌≡◌, refl, some, List, ◌++◌, arith, length, get_or, drop, replicate,
}
use securecom_voice.Base.Int.{ℤ, pos, ◌+ℤ◌, ◌-ℤ◌, ◌*ℤ◌, ltb_ℤ}
use securecom_voice.Plc.{
  Float, Plc, pitch_min, pitch_max, correlation_span, amdf, amdf_pitch, save_history, fillin,
}
use securecom_voice.Plc.History.{IsRing, held, save_history_lem}
use securecom_voice.Plc.Pitch.{AreSamples, amdf_pitch_lem}
use securecom_voice.Plc.Gap.{IsPlaying, fillin_continues}

abbrev integers : Float ℤ
integers = record {
  of_int = λ n. n;
  add = ◌+ℤ◌;
  sub = ◌-ℤ◌;
  mul = ◌*ℤ◌;
  div = λ a b. a;
  less = ltb_ℤ;
  lrint = λ n. n;
  truncate = λ n. n;
  attenuation = pos 0;
}

-- A history of silence, up to sample 270 of the ring.
abbrev silent : Plc ℤ
silent = record {
  missing_samples = 0;
  pitch_offset = 0;
  pitch = 40;
  pitchbuf = replicate 120 (pos 7);
  history = replicate 280 (pos 0);
  buf_ptr = 270;
}

silent-IsRing : IsRing silent
silent-IsRing = record { whole = refl; in_range = omega arith }

abbrev in_gap : Plc ℤ
in_gap = record silent { missing_samples = 160 }

in_gap-IsRing : IsRing in_gap
in_gap-IsRing = record { whole = refl; in_range = omega arith }

in_gap-IsPlaying : IsPlaying in_gap
in_gap-IsPlaying = record { begun = omega arith; at_offset = omega arith; cycle = omega arith }

get_or-replicate : (n j : ℕ) (v : ℤ) → get_or (replicate n v) j v ≡ v
get_or-replicate zero j v = refl
get_or-replicate (suc n) zero v = refl
get_or-replicate (suc n) (suc j) v = get_or-replicate n j v

silence-AreSamples : (n : ℕ) → AreSamples (replicate n (pos 0))
silence-AreSamples n = λ j. rw (get_or-replicate n j (pos 0)) (omega arith, omega arith)

-- Twelve samples over the end of the ring.
abbrev twelve : List ℤ
twelve = replicate 12 (pos 5)

save_history_lem_example :
    held (save_history silent twelve) ≡ drop (length twelve) (held silent ++ twelve)
save_history_lem_example = save_history_lem silent twelve silent-IsRing

amdf_pitch_lem_example :
    (r : ℕ) × ((amdf_pitch pitch_min pitch_max (replicate 280 (pos 0)) correlation_span ≡ r)
      × ((pitch_max ≤ r)
          × ((r ≤ pitch_min)
              × (((j : ℕ)
                    → pitch_max ≤ j
                    → j ≤ pitch_min
                    → amdf (replicate 280 (pos 0)) r correlation_span
                      ≤ amdf (replicate 280 (pos 0)) j correlation_span)
                  × ((j : ℕ)
                      → pitch_max ≤ j
                      → j < r
                      → amdf (replicate 280 (pos 0)) r correlation_span
                        < amdf (replicate 280 (pos 0)) j correlation_span)))))
amdf_pitch_lem_example = amdf_pitch_lem (replicate 280 (pos 0)) (silence-AreSamples 280)

fillin_continues_example :
    (out : List ℤ) × (s' : Plc ℤ) × ((fillin integers in_gap 3 ≡ some (out, s'))
      × ((length out ≡ 3)
          × ((s'.missing_samples ≡ in_gap.missing_samples + 3)
              × ((s'.pitch_offset < in_gap.pitch) × (held s' ≡ drop 3 (held in_gap ++ out))))))
fillin_continues_example = fillin_continues integers in_gap 3 in_gap-IsRing in_gap-IsPlaying
