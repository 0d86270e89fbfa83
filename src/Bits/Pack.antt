-- ===== src/Bits/Pack.antt =====
-- jni/bits.c: bits into the stream.
pub mod Step
pub mod Laws
pub mod Terminator
use securecom_voice.Base.{
  ℕ, zero, suc, ◌+◌, ◌*◌, ◌/◌, ◌%◌, ◌^◌, ◌≡◌, Bool, true, false, Option, none, some, get_elem?,
  ◌==◌, leb, if◌then◌else◌, ◌>>=◌,
}
use securecom_voice.Base.Byte.{or_bit}
use securecom_voice.Memory.{Allocator, store}
use securecom_voice.Bits.{SpeexBits, resize}

-- What follows the store of a bit: the cursor moves on, and a new byte is cleared.
unfoldable pub step_cursor : SpeexBits → Option SpeexBits
unfolding store
step_cursor b =
    let next = do
      chars' ← store b.chars (b.char_ptr + 1) 0
      some (record b {
        chars = chars';
        nb_bits = b.nb_bits + 1;
        char_ptr = b.char_ptr + 1;
        bit_ptr = 0;
      })
    in if b.bit_ptr + 1 == 8
      then next
      else some (record b { nb_bits = b.nb_bits + 1; bit_ptr = b.bit_ptr + 1 })

-- One round of the loop of `pack`.
unfoldable pub pack_bit : ℕ → SpeexBits → Option SpeexBits
unfolding store step_cursor
pack_bit bit b = do
  c ← get_elem? b.chars b.char_ptr
  chars' ← store b.chars b.char_ptr (or_bit c bit b.bit_ptr)
  step_cursor (record b { chars = chars' })

-- The loop, with `n` bits of `d` to go.
unfoldable pub pack_loop : ℕ → ℕ → SpeexBits → Option SpeexBits
pack_loop zero d b = some b
pack_loop (suc n) d b = do b' ← pack_bit (d / 2 ^ n % 2) b; pack_loop n d b'

-- The stream that has room for `n` bits more, grown if need be; `none` where `pack` gives up.
unfoldable pub make_room : Allocator → ℕ → SpeexBits → Option SpeexBits
unfolding resize
make_room a n b =
    if leb b.buf_size (b.char_ptr + (n + b.bit_ptr) / 8)
    then resize a b ((b.buf_size + 5) * 3 / 2)
    else some b

-- The data comes as an `unsigned int`.
unfoldable pub pack : Allocator → SpeexBits → ℕ → ℕ → Option SpeexBits
pack a b d n = elim (make_room a n b) [ none ↦ some b | some b' ↦ pack_loop n (d % 2 ^ 32) b' ]

-- The loop of `insert_terminator`: the stream after at most `fuel` rounds, and whether the loop has
-- ended by then.
unfoldable pub fill_byte : Allocator → ℕ → SpeexBits → Option (SpeexBits × Bool)
fill_byte a zero b = some (b, b.bit_ptr == 0)
fill_byte a (suc fuel) b =
    let next = do b' ← pack a b 1 1; fill_byte a fuel b'
    in if b.bit_ptr == 0 then some (b, true) else next

unfoldable pub insert_terminator : Allocator → ℕ → SpeexBits → Option (SpeexBits × Bool)
insert_terminator a fuel b =
    if b.bit_ptr == 0 then fill_byte a fuel b else do b' ← pack a b 0 1; fill_byte a fuel b'
