-- ===== src/Codec/Filters/Highpass.antt =====
-- jni/filters.c, in fixed point: the high-pass filter, with its tables.
use securecom_voice.Base.{ℕ, zero, suc, ◌-◌, ◌%◌, List, [], ◌∷◌}
use securecom_voice.Base.Int.{ℤ, pos, negsuc, ◌-ℤ◌}
use securecom_voice.Codec.Rms.{word16, shift_right, mult16_16}
use securecom_voice.Codec.Filters.{add32, mac16_16, pshr32, saturate}

-- `b & 0x7fff`.
unfoldable pub low_15 : ℤ → ℤ
low_15 (pos n) = pos (n % 32768)
low_15 (negsuc n) = pos (32767 - n % 32768)

-- `MULT16_32_Q15`.
unfoldable pub mult16_32_q15 : ℤ → ℤ → ℤ
mult16_32_q15 a b = add32 (mult16_16 a (shift_right b 15)) (shift_right (mult16_16 a (low_15 b)) 15)

-- `Pcoef` and `Zcoef`; a number above four is taken as four.
unfoldable pub pcoef : ℕ → ℤ × ℤ × ℤ
pcoef zero = (pos 16384, negsuc 31312, pos 14991)
pcoef (suc zero) = (pos 16384, negsuc 31568, pos 15249)
pcoef (suc (suc zero)) = (pos 16384, negsuc 31676, pos 15328)
pcoef (suc (suc (suc zero))) = (pos 16384, negsuc 32312, pos 15947)
pcoef (suc (suc (suc (suc n)))) = (pos 16384, negsuc 22445, pos 6537)

unfoldable pub zcoef : ℕ → ℤ × ℤ × ℤ
zcoef zero = (pos 15672, negsuc 31343, pos 15672)
zcoef (suc zero) = (pos 15802, negsuc 31600, pos 15802)
zcoef (suc (suc zero)) = (pos 15847, negsuc 31693, pos 15847)
zcoef (suc (suc (suc zero))) = (pos 16162, negsuc 32321, pos 16162)
zcoef (suc (suc (suc (suc n)))) = (pos 14418, negsuc 28835, pos 14418)

-- What comes back of an output: `SHL32` by one.
unfoldable pub fed_back : ℤ → ℤ → ℤ
fed_back c vout = let v = mult16_32_q15 (pos 0 -ℤ c) vout in add32 v v

-- `vout`, and the memory behind a sample.
unfoldable pub unrounded : (num : ℤ × ℤ × ℤ) → ℤ → ℤ × ℤ → ℤ
unrounded num x mem = add32 (mult16_16 num.0 x) mem.0

unfoldable pub memory_after : (den num : ℤ × ℤ × ℤ) → ℤ → ℤ × ℤ → ℤ × ℤ
memory_after den num x mem =
    let vout = unrounded num x mem in
    (
      add32 (mac16_16 mem.1 num.1 x) (fed_back den.1 vout),
      add32 (mult16_16 num.2 x) (fed_back den.2 vout),
    )

-- The loop over the samples, with the two numbers of the memory.
unfoldable pub highpass_loop : (den num : ℤ × ℤ × ℤ) → List ℤ → ℤ × ℤ → List ℤ × (ℤ × ℤ)
highpass_loop den num [] mem = ([], mem)
highpass_loop den num (x ∷ xs) mem =
    let (ys, mem') = highpass_loop den num xs (memory_after den num x mem) in
    (word16 (saturate (pshr32 (unrounded num x mem) 14) 32767) ∷ ys, mem')

unfoldable pub highpass : List ℤ → ℕ → ℤ × ℤ → List ℤ × (ℤ × ℤ)
highpass x filt_id mem = highpass_loop (pcoef filt_id) (zcoef filt_id) x mem
