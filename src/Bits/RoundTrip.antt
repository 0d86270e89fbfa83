-- ===== src/Bits/RoundTrip.antt =====
-- From the encoder's stream over the wire to the decoder's: what `pack`, `write`, `read_from` and
-- `unpack_unsigned` do together.
use securecom_voice.Base.{
  ℕ, ◌+◌, ◌*◌, ◌/◌, ◌≤◌, ◌<◌, ◌≡◌, sym, ◌∙◌, inr, false, some, List, arith, length,
}
use native.Mathlib.Nat.{le_refl}
use securecom_voice.Memory.{Allocator, IsAllocator}
use securecom_voice.Bits.{SpeexBits, cursor, bit_at, nbytes}
use securecom_voice.Bits.Pack.Step.{IsOpen}
use securecom_voice.Bits.Stream.{
  Frame, IsFrame, Framed, Holds, Holds-ext, size, widths, values, pack_all, unpack_all,
  pack_all_lem, unpack_all_lem,
}
use securecom_voice.Bits.Unpack.Laws.{IsReadable}
use securecom_voice.Bits.Transfer.{read_from, write}
use securecom_voice.Bits.Transfer.Laws.{Received, Emitted, read_from_lem, write_lem}

reopened :
    (b b₁ : SpeexBits) (fs : Frame)
    → IsOpen b
    → Framed fs b b₁
    → IsReadable (record b₁ { char_ptr = b.char_ptr; bit_ptr = b.bit_ptr })
reopened b b₁ fs v f =
    omega (
      arith, v.bit_in, f.moved_by, f.opened.counted, f.opened.size, f.opened.inside,
      f.opened.bit_in,
    )

-- A frame packed behind what the stream holds is read back by a reader that is put at its first
-- bit, number by number; nothing is left over.
pub unpack-pack :
    (a : Allocator) (b : SpeexBits) (fs : Frame)
    → IsOpen b
    → b.overflow ≡ false
    → IsFrame fs
    → cursor b + size fs < b.buf_size * 8
    → (b₁ b₂ : SpeexBits) × (pack_all a b fs ≡ some b₁)
      × (unpack_all (record b₁ { char_ptr = b.char_ptr; bit_ptr = b.bit_ptr }) (widths fs)
          ≡ some (values fs, b₂))
      × (cursor b₂ ≡ b₁.nb_bits)
      × (b₂.overflow ≡ false)
unpack-pack a b fs v o g fits =
    let (b₁, e₁, f) = pack_all_lem a b fs v g fits in
    let start : SpeexBits = record b₁ { char_ptr = b.char_ptr; bit_ptr = b.bit_ptr } in
    let (b₂, e₂, c, o₂) =
      unpack_all_lem start fs (reopened b b₁ fs v f) (f.same_overflow ∙ o) g f.holds
        (omega (arith, f.moved_by, f.opened.counted)) in
    (b₁, b₂, e₁, e₂, omega (arith, c, f.moved_by, f.opened.counted), o₂)

-- What reaches the decoder holds the frame.
delivered :
    (b b₁ b₂ b₃ : SpeexBits) (fs : Frame) (max_nbytes n : ℕ) (packet : List ℕ)
    → cursor b ≡ 0
    → Framed fs b b₁
    → (size fs + 7) / 8 ≤ max_nbytes
    → Emitted b₁ max_nbytes packet b₂
    → n ≡ length packet
    → Received n packet b₃
    → Holds b₃.chars (cursor b₃) fs × (cursor b₃ + size fs ≤ b₃.nb_bits)
unfolding nbytes
delivered b b₁ b₂ b₃ fs max_nbytes n packet z f wide w e r = (
  Holds-ext b₃.chars b₁.chars (cursor b₃) fs same (rw start f.holds),
  omega (arith, r.at_start, r.counted, w.count, f.opened.counted, f.moved_by),
)
  where
    start : cursor b₃ ≡ cursor b
    start = r.at_start ∙ sym z

    same : (i : ℕ) → i < cursor b₃ + size fs → bit_at b₃.chars i ≡ bit_at b₁.chars i
    same i u =
        let k : i < length packet * 8 =
          omega (arith, r.at_start, w.count, f.opened.counted, f.moved_by) in
        r.bits i (omega arith) ∙ w.bits i (omega (arith, f.moved_by, r.at_start)) k

-- The packet of a frame has one byte for each eight bits, rounded up.
packet_length :
    (b b₁ b₂ : SpeexBits) (fs : Frame) (max_nbytes : ℕ) (packet : List ℕ)
    → cursor b ≡ 0
    → Framed fs b b₁
    → Emitted b₁ max_nbytes packet b₂
    → length packet ≤ (size fs + 7) / 8
unfolding nbytes
packet_length b b₁ b₂ fs max_nbytes packet z f w =
    omega (arith, w.count, f.opened.counted, f.moved_by)

-- What a reader of the packet has: the frame at its cursor.
pub record Delivered (fs : Frame) (b : SpeexBits) : Type 0 where
  pub readable : IsReadable b
  pub unread : b.overflow ≡ false
  pub holds : Holds b.chars (cursor b) fs
  pub whole : cursor b + size fs ≤ b.nb_bits

pub delivery :
    (a : Allocator) (b b' : SpeexBits) (fs : Frame) (max_nbytes : ℕ)
    → IsAllocator a
    → IsOpen b
    → cursor b ≡ 0
    → IsFrame fs
    → size fs + 8 < b.buf_size * 8
    → (size fs + 7) / 8 ≤ max_nbytes
    → length b'.chars ≡ b'.buf_size
    → (size fs + 7) / 8 ≤ b'.buf_size
    → (packet : List ℕ) × (b₁ b₂ b₃ : SpeexBits) × (pack_all a b fs ≡ some b₁)
      × (write a b₁ max_nbytes ≡ some (packet, b₂))
      × (read_from a b' packet (length packet) ≡ some b₃)
      × Delivered fs b₃
delivery a b b' fs max_nbytes l v z g fits wide s room =
    let (b₁, e₁, f) = pack_all_lem a b fs v g (omega arith) in
    let (packet, b₂, e₂, w) =
      write_lem a b₁ max_nbytes f.opened
        (inr (omega (arith, f.moved_by, f.same_size, f.opened.bit_in))) in
    let (n, b₃, e₃, r, why) = read_from_lem a b' packet (length packet) l s (le_refl _) in
    let whole : n ≡ length packet =
      omega (arith, why, packet_length b b₁ b₂ fs max_nbytes packet z f w) in
    let (h, k) = delivered b b₁ b₂ b₃ fs max_nbytes n packet z f wide w whole r in
    (
      packet,
      b₁,
      b₂,
      b₃,
      e₁,
      e₂,
      e₃,
      record { readable = r.readable; unread = r.unread; holds = h; whole = k },
    )

-- A frame packed into an empty stream, written to a packet and read into any stream with room for
-- it, comes out as it went in.
pub frame_round_trip :
    (a : Allocator) (b b' : SpeexBits) (fs : Frame) (max_nbytes : ℕ)
    → IsAllocator a
    → IsOpen b
    → cursor b ≡ 0
    → IsFrame fs
    → size fs + 8 < b.buf_size * 8
    → (size fs + 7) / 8 ≤ max_nbytes
    → length b'.chars ≡ b'.buf_size
    → (size fs + 7) / 8 ≤ b'.buf_size
    → (packet : List ℕ) × (b₁ b₂ b₃ b₄ : SpeexBits) × (pack_all a b fs ≡ some b₁)
      × (write a b₁ max_nbytes ≡ some (packet, b₂))
      × (read_from a b' packet (length packet) ≡ some b₃)
      × (unpack_all b₃ (widths fs) ≡ some (values fs, b₄))
      × (b₄.overflow ≡ false)
frame_round_trip a b b' fs max_nbytes l v z g fits wide s room =
    let (packet, b₁, b₂, b₃, e₁, e₂, e₃, d) =
      delivery a b b' fs max_nbytes l v z g fits wide s room in
    let (b₄, e₄, c, o) = unpack_all_lem b₃ fs d.readable d.unread g d.holds d.whole in
    (packet, b₁, b₂, b₃, b₄, e₁, e₂, e₃, e₄, o)
