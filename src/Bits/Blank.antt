-- ===== src/Bits/Blank.antt =====
-- A stream of zeros that nothing was written to, for concrete runs.
use securecom_voice.Base.{
  ℕ, zero, suc, ◌<◌, ◌≡◌, refl, ap, ◌∙◌, true, false, arith, length-replicate, get_or, replicate,
}
use securecom_voice.Base.Byte.{byte_bit, byte_bit-zero}
use securecom_voice.Bits.{SpeexBits}
use securecom_voice.Bits.Pack.Step.{IsOpen}

abbrev pub blank_stream : ℕ → SpeexBits
blank_stream n = record {
  chars = replicate n 0;
  nb_bits = 0;
  char_ptr = 0;
  bit_ptr = 0;
  owner = true;
  overflow = false;
  buf_size = n;
}

get_or-replicate : (n i : ℕ) → get_or {A = ℕ} (replicate n 0) i 0 ≡ 0
get_or-replicate zero i = refl
get_or-replicate (suc n) zero = refl
get_or-replicate (suc n) (suc i) = get_or-replicate n i

pub blank_stream-IsOpen : (n : ℕ) → 0 < n → IsOpen (blank_stream n)
blank_stream-IsOpen n h = record {
  size = length-replicate n 0;
  bytes = λ i. omega (arith, get_or-replicate n i);
  inside = omega arith;
  bit_in = omega arith;
  clear = λ j p q. ap (λ c. byte_bit c j) (get_or-replicate n 0) ∙ byte_bit-zero j;
  counted = refl;
}
