-- ===== src/Bits/Tests.antt =====
-- The bit stream on concrete frames: runs of the code, and the laws at an input each.
use securecom_voice.Base.{
  ℕ, zero, suc, ◌<◌, ◌≤◌, ◌≡◌, refl, inr, true, false, some, List, [], ◌∷◌, arith, length, get_or,
  ◌>>=◌,
}
use securecom_voice.Base.Byte.{byte_bit, byte_bit-zero, or_bit}
use securecom_voice.Base.Int.{negsuc, signed32}
use securecom_voice.Memory.{IsBytes}
use securecom_voice.Memory.Blocks.{blocks, blocks-IsAllocator}
use securecom_voice.Bits.{SpeexBits, cursor}
use securecom_voice.Bits.Pack.{pack, pack_loop, pack_bit, make_room, insert_terminator}
use securecom_voice.Bits.Pack.Step.{IsOpen}
use securecom_voice.Bits.Pack.Terminator.{
  Terminated, insert_terminator_lem, insert_terminator_hangs,
}
use securecom_voice.Bits.Unpack.{unpack_unsigned, unpack_loop, unpack_signed}
use securecom_voice.Bits.Unpack.Laws.{moved}
use securecom_voice.Bits.Transfer.{read_from, write}
use securecom_voice.Bits.Stream.{Frame, pack_all, unpack_all}
use securecom_voice.Bits.RoundTrip.{unpack-pack, frame_round_trip}

abbrev blank : List ℕ
blank = 0 ∷ 0 ∷ 0 ∷ 0 ∷ []

abbrev empty : SpeexBits
empty = record {
  chars = blank;
  nb_bits = 0;
  char_ptr = 0;
  bit_ptr = 0;
  owner = true;
  overflow = false;
  buf_size = 4;
}

get_or-blank : (i : ℕ) → get_or blank i 0 ≡ 0
get_or-blank zero = refl
get_or-blank (suc zero) = refl
get_or-blank (suc (suc zero)) = refl
get_or-blank (suc (suc (suc zero))) = refl
get_or-blank (suc (suc (suc (suc i)))) = refl

empty-IsOpen : IsOpen empty
empty-IsOpen = record {
  size = refl;
  bytes = λ i. omega (arith, get_or-blank i);
  inside = omega arith;
  bit_in = omega arith;
  clear = λ j p q. byte_bit-zero j;
  counted = refl;
}

-- A mode of four bits, a pitch of seven and a gain of five.
abbrev frame : Frame
frame = (5, 4) ∷ (99, 7) ∷ (17, 5) ∷ []

packed_bytes : (pack_all blocks empty frame >>= λ b. some b.chars) ≡ some (0x5c ∷ 0x71 ∷ 0 ∷ 0 ∷ [])
unfolding pack_all pack pack_loop pack_bit make_room or_bit
packed_bytes = refl

-- The same block, lent by somebody else, with one byte and three bits in it.
abbrev lent : SpeexBits
lent = record {
  chars = 0xff ∷ 0xe0 ∷ [];
  nb_bits = 11;
  char_ptr = 1;
  bit_ptr = 3;
  owner = false;
  overflow = false;
  buf_size = 2;
}

low_bits_clear : (j : ℕ) → 3 ≤ j → j < 8 → byte_bit 0xe0 j ≡ 0
unfolding byte_bit
low_bits_clear (suc (suc (suc zero))) p q = refl
low_bits_clear (suc (suc (suc (suc zero)))) p q = refl
low_bits_clear (suc (suc (suc (suc (suc zero))))) p q = refl
low_bits_clear (suc (suc (suc (suc (suc (suc zero)))))) p q = refl
low_bits_clear (suc (suc (suc (suc (suc (suc (suc zero))))))) p q = refl
low_bits_clear (suc (suc (suc (suc (suc (suc (suc (suc j)))))))) p q = absurd (omega arith)
low_bits_clear j p q = absurd (omega arith)

lent-IsBytes : IsBytes lent.chars
lent-IsBytes zero = omega arith
lent-IsBytes (suc zero) = omega arith
lent-IsBytes (suc (suc i)) = omega arith

lent-IsOpen : IsOpen lent
lent-IsOpen = record {
  size = refl;
  bytes = lent-IsBytes;
  inside = omega arith;
  bit_in = omega arith;
  clear = low_bits_clear;
  counted = refl;
}

-- Three bits in a block of three bytes.
abbrev three_bits : SpeexBits
three_bits = record {
  chars = 0xe0 ∷ 0 ∷ 0 ∷ [];
  nb_bits = 3;
  char_ptr = 0;
  bit_ptr = 3;
  owner = true;
  overflow = false;
  buf_size = 3;
}

three_bits-IsBytes : IsBytes three_bits.chars
three_bits-IsBytes zero = omega arith
three_bits-IsBytes (suc zero) = omega arith
three_bits-IsBytes (suc (suc zero)) = omega arith
three_bits-IsBytes (suc (suc (suc i))) = omega arith

three_bits-IsOpen : IsOpen three_bits
three_bits-IsOpen = record {
  size = refl;
  bytes = three_bits-IsBytes;
  inside = omega arith;
  bit_in = omega arith;
  clear = low_bits_clear;
  counted = refl;
}

insert_terminator_lem_example :
    (b' : SpeexBits) × (insert_terminator blocks 6 three_bits ≡ some (b', true))
    × Terminated three_bits b'
insert_terminator_lem_example =
    insert_terminator_lem blocks three_bits 6 (omega arith) three_bits-IsOpen (inr (omega arith))

insert_terminator_hangs_example :
    (b' : SpeexBits) × (insert_terminator blocks 100 lent ≡ some (b', false))
insert_terminator_hangs_example =
    insert_terminator_hangs blocks lent lent-IsOpen refl refl (omega arith) 100

-- Sixteen bits to be read: 5, 99 and 17, or -13 and others.
abbrev filled : SpeexBits
filled = record {
  chars = 0x5c ∷ 0x71 ∷ [];
  nb_bits = 16;
  char_ptr = 0;
  bit_ptr = 0;
  owner = true;
  overflow = false;
  buf_size = 2;
}

read_value : unpack_unsigned (moved filled 4) 7 ≡ some (99, moved (moved filled 4) 7)
unfolding unpack_unsigned unpack_loop byte_bit
read_value = refl

read_negative : (unpack_signed (moved filled 1) 5 >>= λ r. some (signed32 r.0)) ≡ some (negsuc 8)
unfolding unpack_signed unpack_unsigned unpack_loop byte_bit
read_negative = refl

unpack-pack_example :
    (b₁ b₂ : SpeexBits) × (pack_all blocks empty frame ≡ some b₁)
    × (unpack_all (record b₁ { char_ptr = 0; bit_ptr = 0 }) (4 ∷ 7 ∷ 5 ∷ [])
        ≡ some (5 ∷ 99 ∷ 17 ∷ [], b₂))
    × (cursor b₂ ≡ b₁.nb_bits)
    × (b₂.overflow ≡ false)
unpack-pack_example = unpack-pack blocks empty frame empty-IsOpen refl (omega arith) (omega arith)

frame_round_trip_example :
    (packet : List ℕ) × (b₁ b₂ b₃ b₄ : SpeexBits) × (pack_all blocks empty frame ≡ some b₁)
    × (write blocks b₁ 160 ≡ some (packet, b₂))
    × (read_from blocks filled packet (length packet) ≡ some b₃)
    × (unpack_all b₃ (4 ∷ 7 ∷ 5 ∷ []) ≡ some (5 ∷ 99 ∷ 17 ∷ [], b₄))
    × (b₄.overflow ≡ false)
frame_round_trip_example =
    frame_round_trip blocks empty filled frame 160 blocks-IsAllocator empty-IsOpen refl
      (omega arith) (omega arith) (omega arith) refl (omega arith)
