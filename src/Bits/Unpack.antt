-- ===== src/Bits/Unpack.antt =====
-- jni/bits.c: bits out of the stream, and the cursor.
pub mod Laws
use securecom_voice.Base.{
  ℕ, zero, suc, ◌+◌, ◌-◌, ◌*◌, ◌/◌, ◌%◌, ◌^◌, true, ◌||◌, Option, none, some, get_elem?, ◌==◌, ltb,
  if◌then◌else◌, ◌>>=◌,
}
use securecom_voice.Base.Byte.{byte_bit}
use securecom_voice.Bits.{SpeexBits, cursor}

-- The stream with `overflow` set where `n` bits more pass the end.
unfoldable pub check : SpeexBits → ℕ → SpeexBits
check b n = if ltb b.nb_bits (cursor b + n) then record b { overflow = true } else b

-- The loop of `unpack_unsigned`, with `n` bits to go. The accumulator is an `unsigned int`.
unfoldable pub unpack_loop : ℕ → ℕ → SpeexBits → Option (ℕ × SpeexBits)
unpack_loop zero d b = some (d, b)
unpack_loop (suc n) d b = do
  c ← get_elem? b.chars b.char_ptr
  unpack_loop n ((d * 2 + byte_bit c b.bit_ptr) % 2 ^ 32) (
      if b.bit_ptr + 1 == 8
      then record b { char_ptr = b.char_ptr + 1; bit_ptr = 0 }
      else record b { bit_ptr = b.bit_ptr + 1 })

unfoldable pub unpack_unsigned : SpeexBits → ℕ → Option (ℕ × SpeexBits)
unfolding check
unpack_unsigned b n = let b' = check b n in if b'.overflow then some (0, b') else unpack_loop n 0 b'

-- The `int` is its bit pattern. `-1 << n` has the bits from `n` on.
unfoldable pub unpack_signed : SpeexBits → ℕ → Option (ℕ × SpeexBits)
unfolding unpack_unsigned
unpack_signed b n = do
  (d, b') ← unpack_unsigned b n
  some (if d / 2 ^ (n - 1) == 0 then d else d % 2 ^ n + (2 ^ 32 - 2 ^ n), b')

-- The loop of `peek_unsigned` runs on copies of the two cursors.
unfoldable pub peek_loop : ℕ → ℕ → SpeexBits → ℕ → ℕ → Option ℕ
peek_loop zero d b char_ptr bit_ptr = some d
peek_loop (suc n) d b char_ptr bit_ptr = do
  c ← get_elem? b.chars char_ptr
  let wraps = bit_ptr + 1 == 8
  peek_loop n ((d * 2 + byte_bit c bit_ptr) % 2 ^ 32) b (if wraps then char_ptr + 1 else char_ptr)
      (if wraps then 0 else bit_ptr + 1)

unfoldable pub peek_unsigned : SpeexBits → ℕ → Option (ℕ × SpeexBits)
unfolding check
peek_unsigned b n =
    let b' = check b n in
    if b'.overflow
    then some (0, b')
    else do d ← peek_loop n 0 b' b'.char_ptr b'.bit_ptr; some (d, b')

unfoldable pub peek : SpeexBits → Option (ℕ × SpeexBits)
unfolding check
peek b =
    let b' = check b 1 in
    if b'.overflow
    then some (0, b')
    else do c ← get_elem? b'.chars b'.char_ptr; some (byte_bit c b'.bit_ptr, b')

unfoldable pub advance : SpeexBits → ℕ → SpeexBits
advance b n =
    if ltb b.nb_bits (cursor b + n) || b.overflow
    then record b { overflow = true }
    else record b { char_ptr = b.char_ptr + (b.bit_ptr + n) / 8; bit_ptr = (b.bit_ptr + n) % 8 }

-- `none` is the -1 of a stream that was read past its end.
unfoldable pub remaining : SpeexBits → Option ℕ
remaining b = if b.overflow then none else some (b.nb_bits - cursor b)
