-- ===== src/Bits.antt =====
-- jni/bits.c: the bit stream of the codec. The functions carry the source's names without their
-- prefix `speex_bits_`. `int` sizes and cursors are natural numbers; a result `none` is an access
-- outside an array, or a state on which the C code has no defined meaning.
pub mod Field
pub mod Pack
pub mod Unpack
pub mod Transfer
pub mod Stream
pub mod RoundTrip
pub mod Ahead
pub mod Blank
mod Tests
use securecom_voice.Base.{
  ℕ, ◌+◌, ◌*◌, ◌/◌, ◌%◌, Bool, true, false, Option, none, some, List, get_or, if◌then◌else◌, ◌>>=◌,
}
use securecom_voice.Base.Byte.{byte_bit}
use securecom_voice.Memory.{Allocator, store}

pub record SpeexBits : Type 0 where
  pub chars : List ℕ
  pub nb_bits : ℕ
  pub char_ptr : ℕ
  pub bit_ptr : ℕ
  pub owner : Bool
  pub overflow : Bool
  pub buf_size : ℕ

abbrev pub max_chars_per_frame : ℕ
max_chars_per_frame = 2000

-- `(charPtr << 3) + bitPtr`.
abbrev pub cursor : SpeexBits → ℕ
cursor b = b.char_ptr * 8 + b.bit_ptr

-- Bit `i` of an array, the first the top bit of the first byte.
abbrev pub bit_at : List ℕ → ℕ → ℕ
bit_at xs i = byte_bit (get_or xs (i / 8) 0) (i % 8)

unfoldable pub rewind : SpeexBits → SpeexBits
rewind b = record b { char_ptr = 0; bit_ptr = 0; overflow = false }

unfoldable pub reset : SpeexBits → Option SpeexBits
reset b = do
  chars' ← store b.chars 0 0
  some (record b { chars = chars'; nb_bits = 0; char_ptr = 0; bit_ptr = 0; overflow = false })

-- `none` also where the allocation fails.
unfoldable pub init : Allocator → Option SpeexBits
unfolding reset
init a = do
  chars ← a.calloc max_chars_per_frame
  reset (record {
    chars = chars;
    nb_bits = 0;
    char_ptr = 0;
    bit_ptr = 0;
    owner = true;
    overflow = false;
    buf_size = max_chars_per_frame;
  })

unfoldable pub init_buffer : List ℕ → ℕ → Option SpeexBits
unfolding reset
init_buffer buff buf_size = reset (record {
  chars = buff;
  nb_bits = 0;
  char_ptr = 0;
  bit_ptr = 0;
  owner = false;
  overflow = false;
  buf_size = buf_size;
})

unfoldable pub set_bit_buffer : List ℕ → ℕ → SpeexBits
set_bit_buffer buff buf_size = record {
  chars = buff;
  nb_bits = buf_size * 8;
  char_ptr = 0;
  bit_ptr = 0;
  owner = false;
  overflow = false;
  buf_size = buf_size;
}

-- The stream with the block that `speex_realloc` returns; `none` where it returns no block, or
-- where the stream does not own its block.
unfoldable pub resize : Allocator → SpeexBits → ℕ → Option SpeexBits
resize a b n =
    if b.owner
    then elim (a.realloc b.chars n) [
      | none ↦ none
      | some chars ↦ some (record b { chars = chars; buf_size = n })
    ]
    else none

-- `(nbBits + BITS_PER_CHAR - 1) >> LOG2_BITS_PER_CHAR`.
unfoldable pub nbytes : SpeexBits → ℕ
nbytes b = (b.nb_bits + 7) / 8
