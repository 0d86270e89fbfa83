-- ===== src/SpeexCodec/Encode.antt =====
-- `encode` at the sender and `decode` at the receiver: what a packet carries from one to the other.
use securecom_voice.Base.{
  ℕ, zero, suc, ◌+◌, ◌*◌, ◌/◌, ◌≤◌, ◌<◌, ◌≡◌, refl, sym, ap, ◌∙◌, true, false, some, List, [], ◌∷◌,
  ◌++◌, arith, length, length-set, length-take, inl, inr, Option-cases, get_or, set, take, drop,
  leb, ltb, lt→ltb,
}
use securecom_voice.Base.Byte.{byte_bit, byte_bit-zero}
use securecom_voice.Base.Int.{ℤ, pos}
use securecom_voice.Memory.{Allocator, IsAllocator, IsBytes, copy_out, store}
use securecom_voice.Bits.{SpeexBits, nbytes}
use securecom_voice.Bits
use securecom_voice.Bits.Pack.Step.{IsOpen}
use securecom_voice.Bits.Stream.{Frame, IsFrame, size, widths, values, pack_all, unpack_all}
use securecom_voice.Bits.Transfer.{emit, read_from, write}
use securecom_voice.Bits.Pack.{insert_terminator}
use Prim.Native.Nat.{min}
use securecom_voice.Inband.{Handler}
use securecom_voice.Codec.Decoder.{DecState}
use securecom_voice.Codec.Decoder.Search.{found, search_block}
use securecom_voice.Codec.Decoder.Transmission.{narrowband_frame, transmitted_frame}
use securecom_voice.SpeexCodec.{FrameCoder, SpeexCodec, live, came_back, set_region, encode}

-- A stream that was set up, whatever was written to it.
pub record IsStream (b : SpeexBits) : Type 0 where
  pub same_size : length b.chars ≡ b.buf_size
  pub bytes : IsBytes b.chars
  pub some_room : 0 < b.buf_size

set-IsBytes : (xs : List ℕ) → IsBytes xs → IsBytes (set xs 0 0)
set-IsBytes [] h i = h i
set-IsBytes (x ∷ xs) h zero = omega arith
set-IsBytes (x ∷ xs) h (suc i) = h (suc i)

first_byte : (xs : List ℕ) → get_or (set xs 0 0) 0 0 ≡ 0
first_byte [] = refl
first_byte (x ∷ xs) = refl

-- The stream behind `speex_bits_reset`.
abbrev pub cleared : SpeexBits → SpeexBits
cleared b = record b {
  chars = set b.chars 0 0;
  nb_bits = 0;
  char_ptr = 0;
  bit_ptr = 0;
  overflow = false;
}

module _ (b : SpeexBits) (v : IsStream b) where
  pub reset-eq-cleared : Bits.reset b ≡ some (cleared b)
  unfolding Bits.reset store
  reset-eq-cleared =
      let inside : ltb 0 (length b.chars) ≡ true =
        lt→ltb 0 (length b.chars) (omega (arith, v.same_size, v.some_room)) in
      rw inside refl

  pub cleared-IsStream : IsStream (cleared b)
  cleared-IsStream = record {
    same_size = length-set b.chars 0 0 ∙ v.same_size;
    bytes = set-IsBytes b.chars v.bytes;
    some_room = v.some_room;
  }

  cleared-IsOpen : IsOpen (cleared b)
  cleared-IsOpen = record {
    size = length-set b.chars 0 0 ∙ v.same_size;
    bytes = set-IsBytes b.chars v.bytes;
    inside = v.some_room;
    bit_in = omega arith;
    clear = λ j p q. ap (λ c. byte_bit c j) (first_byte b.chars) ∙ byte_bit-zero j;
    counted = refl;
  }

emit-length :
    (b b₁ b₂ : SpeexBits) (n : ℕ) (out : List ℕ) → emit b b₁ n ≡ some (out, b₂) → length out ≤ n
unfolding emit copy_out
emit-length b b₁ b₂ n out h = let k = min n (nbytes b) in ground (arith, length-take k b₁.chars)

write-length :
    (a : Allocator) (b b₂ : SpeexBits) (n : ℕ) (out : List ℕ)
    → write a b n ≡ some (out, b₂)
    → length out ≤ n
unfolding write
write-length a b b₂ n out h = elim (Option-cases (insert_terminator a 8 b)) [
  | inl e ↦ ground (arith, e)
  | inr ((b₁, ended), e) ↦ ground (arith, e, emit-length b b₁ b₂ n out)
]

module _ {E D P : Type 0} (coder : FrameCoder E D) (run : P → ℕ → Handler (DecState P)) where
  -- A frame of samples whose fields the encoder packs into its cleared stream: `encode` hands the
  -- packet out at the start of the caller's array and gives its length. In a stream that has room
  -- for the packet the receiver's decoder finds the sub-mode in one turn of its search, and reads
  -- the fields as they were packed.
  pub carried_frame :
      (a : Allocator) (c : SpeexCodec E D) (e e' : E) (b b' full : SpeexBits) (dec_arr : List ℤ)
      (enc_arr : List ℕ) (raw_len m n : ℕ) (fields : Frame) (st : DecState P)
      → IsAllocator a
      → c.initialized ≡ true
      → c.enc ≡ some (live e)
      → c.enc_bits ≡ some b
      → IsStream b
      → c.enc_frame_size ≤ length dec_arr
      → c.enc_frame_size ≤ c.enc_buffer
      → c.enc_frame_size ≤ length enc_arr
      → coder.encode_frame e (take c.enc_frame_size dec_arr) (cleared b) ≡ some (e', full)
      → pack_all a (cleared b) (narrowband_frame m fields) ≡ some full
      → m ≤ 8
      → IsFrame fields
      → size fields + 13 < b.buf_size * 8
      → (size fields + 12) / 8 ≤ c.enc_frame_size
      → length b'.chars ≡ b'.buf_size
      → (size fields + 12) / 8 ≤ b'.buf_size
      → (packet : List ℕ) × (c' : SpeexCodec E D) × (b₁ b₂ b₃ : SpeexBits) × (encode coder a c
            dec_arr enc_arr raw_len
          ≡ some (came_back (pos (length packet)) (packet ++ drop (length packet) enc_arr) c'))
        × (read_from a b' packet (length packet) ≡ some b₁)
        × (search_block run (suc n) b₁ st ≡ some (found, b₂, record st { submode_id = pos m }))
        × (unpack_all b₂ (widths fields) ≡ some (values fields, b₃))
        × (b₃.overflow ≡ false)
  unfolding encode set_region
  carried_frame a c e e' b b' full dec_arr enc_arr raw_len m n fields st l on alive there v long
        held room codes packs small g fits wide s roomy =
      let (packet, b₁, b₂, b₃, b₄, b₅, e₁, e₂, e₃, e₄, e₅, o) =
        transmitted_frame run a (cleared b) b' m fields c.enc_frame_size n st l (cleared-IsOpen b v)
          (omega arith) small g fits wide s roomy in
      let same : b₁ ≡ full = ground (arith, e₁, packs) in
      let c' : SpeexCodec E D = record c { enc = some (live e'); enc_bits = some b₂ } in
      let written : write a full c.enc_frame_size ≡ some (packet, b₂) =
        ap (λ s. write a s c.enc_frame_size) (sym same) ∙ e₂ in
      let short : length packet ≤ c.enc_frame_size =
        write-length a full b₂ c.enc_frame_size packet written in
      let whole : leb c.enc_frame_size (length dec_arr) ≡ true = ground arith in
      let in_buffer : leb (length packet) c.enc_buffer ≡ true = ground (arith, short) in
      let in_array : leb (length packet) (length enc_arr) ≡ true = ground (arith, short) in
      (
        packet,
        c',
        b₃,
        b₄,
        b₅,
        simp (on, there, reset-eq-cleared b v, alive, whole, codes, written, in_buffer, in_array),
        e₃,
        e₄,
        e₅,
        o,
      )
