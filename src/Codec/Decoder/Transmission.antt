-- ===== src/Codec/Decoder/Transmission.antt =====
-- A narrowband frame from the encoder's stream over the wire to the decoder: what `pack`, `write`,
-- `read_from`, the search for a block and `unpack_unsigned` do together.
use securecom_voice.Base.{
  ℕ, suc, ◌+◌, ◌*◌, ◌/◌, ◌≤◌, ◌<◌, ◌≡◌, subst, false, some, List, [], ◌∷◌, arith, length,
}
use securecom_voice.Base.Int.{pos}
use securecom_voice.Memory.{Allocator, IsAllocator}
use securecom_voice.Bits.{SpeexBits, cursor}
use securecom_voice.Bits.Ahead.{HasAhead, HasAhead-less, HasAhead-moved, cursor-moved}
use securecom_voice.Bits.Pack.Step.{IsOpen}
use securecom_voice.Bits.Stream.{
  Frame, IsFrame, Holds, size, widths, values, pack_all, unpack_all, unpack_all_lem,
}
use securecom_voice.Bits.Transfer.{read_from, write}
use securecom_voice.Bits.RoundTrip.{delivery}
use securecom_voice.Bits.Unpack.Laws.{moved}
use securecom_voice.Inband.{Handler}
use securecom_voice.Codec.Decoder.{DecState}
use securecom_voice.Codec.Decoder.Search.{found, search_block}
use securecom_voice.Codec.Decoder.Search.Finds.{mode_turn}

-- A narrowband frame as `nb_encode` packs it: the wideband bit, the sub-mode, and the fields.
abbrev pub narrowband_frame : ℕ → Frame → Frame
narrowband_frame m fields = (0, 1) ∷ (m, 4) ∷ fields

module _ {P : Type 0} (run : P → ℕ → Handler (DecState P)) where
  -- A narrowband frame packed into an empty stream, written to a packet, and read into any stream
  -- with room for it: the decoder's search finds its sub-mode in one turn, and from there the
  -- decoder reads the fields as they went in.
  pub transmitted_frame :
      (a : Allocator) (b b' : SpeexBits) (m : ℕ) (fields : Frame) (max_nbytes n : ℕ)
      (st : DecState P)
      → IsAllocator a
      → IsOpen b
      → cursor b ≡ 0
      → m ≤ 8
      → IsFrame fields
      → size fields + 13 < b.buf_size * 8
      → (size fields + 12) / 8 ≤ max_nbytes
      → length b'.chars ≡ b'.buf_size
      → (size fields + 12) / 8 ≤ b'.buf_size
      → (packet : List ℕ) × (b₁ b₂ b₃ b₄ b₅ : SpeexBits) × (pack_all a b (narrowband_frame m fields)
          ≡ some b₁)
        × (write a b₁ max_nbytes ≡ some (packet, b₂))
        × (read_from a b' packet (length packet) ≡ some b₃)
        × (search_block run (suc n) b₃ st ≡ some (found, b₄, record st { submode_id = pos m }))
        × (unpack_all b₄ (widths fields) ≡ some (values fields, b₅))
        × (b₅.overflow ≡ false)
  transmitted_frame a b b' m fields max_nbytes n st l v z small g fits wide s room =
      let (packet, b₁, b₂, b₃, e₁, e₂, e₃, d) =
        delivery a b b' (narrowband_frame m fields) max_nbytes l v z
          (omega arith, omega arith, (omega arith, omega arith, g)) (omega arith) (omega arith) s
          (omega arith) in
      let h : HasAhead b₃ (5 + size fields) = record {
        readable = d.readable;
        clear = d.unread;
        room = omega (arith, d.whole);
      } in
      let rest = HasAhead-moved 5 (size fields) h (omega arith) in
      let at = cursor-moved b₃ 5 d.readable.bit_in in
      let (b₅, e₅, c, o) =
        unpack_all_lem (moved b₃ 5) fields rest.readable rest.clear g
          (subst (λ p. Holds b₃.chars p fields) (omega (arith, at)) d.holds.1.1) rest.room in
      (
        packet,
        b₁,
        b₂,
        b₃,
        moved b₃ 5,
        b₅,
        e₁,
        e₂,
        e₃,
        mode_turn run n b₃ st [] m small tt (omega arith) (HasAhead-less 5 h (omega arith))
            (d.holds.0, (d.holds.1.0, tt)),
        e₅,
        o,
      )
