-- ===== src/Bits/Transfer.antt =====
-- jni/bits.c: bytes into and out of the stream.
pub mod Copy
pub mod Laws
use securecom_voice.Base.{
  ℕ, ◌+◌, ◌-◌, ◌*◌, ◌/◌, ◌%◌, Bool, true, false, Option, none, some, List, get_elem?, ◌==◌, ltb,
  if◌then◌else◌, ◌>>=◌,
}
use Prim.Native.Nat.{min}
use securecom_voice.Memory.{Allocator, store, copy_in, copy_out, move_down}
use securecom_voice.Bits.{SpeexBits, nbytes, resize}
use securecom_voice.Bits.Pack.{insert_terminator}

-- The loop of `read_from` and what follows it, once the number of bytes is settled.
unfoldable pub fill : SpeexBits → List ℕ → ℕ → Option SpeexBits
fill b chars nchars = do
  chars' ← copy_in nchars 0 0 chars b.chars
  some (record b {
    chars = chars';
    nb_bits = nchars * 8;
    char_ptr = 0;
    bit_ptr = 0;
    overflow = false;
  })

unfoldable pub read_from : Allocator → SpeexBits → List ℕ → ℕ → Option SpeexBits
read_from a b chars len =
    if ltb b.buf_size len
    then elim (resize a b len) [ none ↦ fill b chars b.buf_size | some b' ↦ fill b' chars len ]
    else fill b chars len

-- `none` also where the cursor is past the last bit, and the size of the move negative.
unfoldable pub flush : SpeexBits → Option SpeexBits
flush b = if b.char_ptr == 0 then some b else if ltb b.nb_bits (b.char_ptr * 8) then none else do
  chars' ← move_down b.char_ptr (nbytes b - b.char_ptr) b.chars
  some (record b { chars = chars'; nb_bits = b.nb_bits - b.char_ptr * 8; char_ptr = 0 })

-- The end of `read_whole_bytes`, once the number of bytes is settled.
unfoldable pub append : SpeexBits → List ℕ → ℕ → Option SpeexBits
append b chars nchars = do
  b' ← flush b
  chars' ← copy_in nchars 0 (b'.nb_bits / 8) chars b'.chars
  some (record b' { chars = chars'; nb_bits = b'.nb_bits + nchars * 8 })

-- The three ways to settle it where the bytes do not fit. `none` also where the count would be
-- negative.
unfoldable pub read_whole_bytes : Allocator → SpeexBits → List ℕ → ℕ → Option SpeexBits
read_whole_bytes a b chars nchars =
    if ltb b.buf_size (nbytes b + nchars)
    then if b.owner
      then elim (resize a b (b.nb_bits / 8 + nchars + 1)) [
        | some b' ↦ append b' chars nchars
        | none ↦
            if ltb b.buf_size (b.nb_bits / 8 + 1)
            then none
            else append b chars (b.buf_size - b.nb_bits / 8 - 1)
      ]
      else append b chars b.buf_size
    else append b chars nchars

-- What `write` does once the terminator is in `b'`: the cursor and the count of `b` come back.
unfoldable pub emit : SpeexBits → SpeexBits → ℕ → Option (List ℕ × SpeexBits)
emit b b' max_nbytes = do
  out ← copy_out (min max_nbytes (nbytes b)) b'.chars
  some (out, record b' { bit_ptr = b.bit_ptr; char_ptr = b.char_ptr; nb_bits = b.nb_bits })

-- The bytes stored into the caller's array, whose number is the result, and the stream. `none` also
-- where the terminator's loop does not end.
unfoldable pub write : Allocator → SpeexBits → ℕ → Option (List ℕ × SpeexBits)
write a b max_nbytes = do
  (b', ended) ← insert_terminator a 8 b
  if ended then emit b b' max_nbytes else none

unfoldable pub write_whole_bytes : SpeexBits → ℕ → Option (List ℕ × SpeexBits)
write_whole_bytes b max_nbytes = do
  let max_nchars = min max_nbytes (b.nb_bits / 8)
  out ← copy_out max_nchars b.chars
  rest ← if ltb 0 b.bit_ptr then get_elem? b.chars max_nchars else some 0
  chars' ← store b.chars 0 rest
  some (out, record b { chars = chars'; char_ptr = 0; nb_bits = b.nb_bits % 8 })
