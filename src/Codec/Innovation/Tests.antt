-- ===== src/Codec/Innovation/Tests.antt =====
-- A codebook of two entries, with signs.
use securecom_voice.Base.{ℕ, ◌*◌, ◌≡◌, refl, some, List, [], ◌∷◌, arith, length}
use securecom_voice.Base.Int.{ℤ, pos, negsuc, ◌-ℤ◌}
use securecom_voice.Memory.Blocks.{blocks, blocks-IsAllocator}
use securecom_voice.Bits.{SpeexBits}
use securecom_voice.Bits.Blank.{blank_stream, blank_stream-IsOpen}
use securecom_voice.Bits.Transfer.{read_from, write}
use securecom_voice.Codec.Lsp.{shift_left}
use securecom_voice.Codec.Tables.{SplitCbParams, exc_10_16_table}
use securecom_voice.Codec.Innovation.{
  shape_at, index_frame, pack_indices, put_together, split_cb_shape_sign_unquant,
}
use securecom_voice.Codec.Innovation.RoundTrip.{innovation_round_trip}

abbrev params : SplitCbParams
params = record {
  subvect_size = 2;
  nb_subvect = 3;
  shape_cb = exc_10_16_table;
  shape_bits = 1;
  have_sign = 1;
}

abbrev entries : List ℤ
entries = pos 22 ∷ pos 39 ∷ negsuc 27 ∷ pos 13 ∷ []

abbrev indices : List ℕ
indices = 0 ∷ 3 ∷ 1 ∷ []

-- The index 3 is the entry 1 with its sign changed.
put_together_run :
    put_together entries params indices
    ≡ some (pos 11264 ∷ pos 19968 ∷ pos 14336 ∷ negsuc 6655 ∷ negsuc 14335 ∷ pos 6656 ∷ [])
unfolding put_together shape_at shift_left ◌-ℤ◌
put_together_run = refl

innovation_round_trip_example :
    (packet : List ℕ) × (b₁ b₂ b₃ b₄ : SpeexBits) × (e : List ℤ) × (pack_indices blocks
        (blank_stream 4)
        params
        indices
      ≡ some b₁)
    × (write blocks b₁ 160 ≡ some (packet, b₂))
    × (read_from blocks (blank_stream 9) packet (length packet) ≡ some b₃)
    × (put_together entries params indices ≡ some e)
    × (split_cb_shape_sign_unquant entries params b₃ ≡ some (e, b₄))
    × (length e ≡ 3 * 2)
unfolding index_frame
innovation_round_trip_example =
    innovation_round_trip blocks (blank_stream 4) (blank_stream 9) entries params indices 160
      blocks-IsAllocator (blank_stream-IsOpen 4 (omega arith)) refl (omega arith, omega arith) refl
      (omega arith, (omega arith, (omega arith, tt))) (omega arith) (omega arith) (omega arith) refl
      (omega arith)
