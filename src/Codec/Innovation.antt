-- ===== src/Codec/Innovation.antt =====
-- jni/cb_search.c, in fixed point: the innovation of a sub-frame as the encoder writes it, once its
-- search has chosen an index for each part, and as the decoder reads it. The codebook of `shape_cb`
-- is an argument; `SHL32` of an entry, which is a `signed char`, does not wrap.
pub mod Codewords
pub mod RoundTrip
mod Tests
use securecom_voice.Base.{
  ℕ, zero, suc, ◌+◌, ◌-◌, ◌*◌, ◌^◌, Bool, not, Option, none, some, List, [], ◌∷◌, ◌++◌, map, length,
  take, drop, leb, ◌==◌, if◌then◌else◌, ◌>>=◌,
}
use securecom_voice.Base.Int.{ℤ, pos, ◌-ℤ◌}
use securecom_voice.Memory.{Allocator}
use securecom_voice.Bits.{SpeexBits}
use securecom_voice.Bits.Stream.{Frame, pack_all}
use securecom_voice.Bits.Unpack.{unpack_unsigned}
use securecom_voice.Codec.Lsp.{shift_left}
use securecom_voice.Codec.Tables.{SplitCbParams}

-- Part `ind` of the codebook, which has parts of `n` numbers, in the scale of the signal.
unfoldable pub shape_at : List ℤ → (n : ℕ) → Bool → (ind : ℕ) → Option (List ℤ)
shape_at shape_cb n negative ind =
    let shape = map (shift_left 9) (take n (drop (ind * n) shape_cb)) in
    if leb (ind * n + n) (length shape_cb)
    then some (if negative then map (λ v. pos 0 -ℤ v) shape else shape)
    else none

-- What the encoder packs: a number for each part.
unfoldable pub index_frame : SplitCbParams → List ℕ → Frame
index_frame params ind = map (λ i. (i, params.shape_bits + params.have_sign)) ind

unfoldable pub pack_indices : Allocator → SpeexBits → SplitCbParams → List ℕ → Option SpeexBits
pack_indices a bits params ind = pack_all a bits (index_frame params ind)

-- "Put everything back together": `e` of the encoder. An index past the codebook is one of its
-- entries with the sign changed.
unfoldable pub put_together : List ℤ → SplitCbParams → List ℕ → Option (List ℤ)
put_together shape_cb params [] = some []
put_together shape_cb params (i ∷ ind) = do
  let shape_cb_size = 2 ^ params.shape_bits
  shape ←
      shape_at shape_cb params.subvect_size (leb shape_cb_size i)
        (if leb shape_cb_size i then i - shape_cb_size else i)
  rest ← put_together shape_cb params ind
  some (shape ++ rest)

-- The sign and the index of a part.
unfoldable pub read_codeword : SplitCbParams → SpeexBits → Option (ℕ × ℕ × SpeexBits)
read_codeword params bits = do
  (sign, bits') ← if params.have_sign == 0 then some (0, bits) else unpack_unsigned bits 1
  (ind, bits'') ← unpack_unsigned bits' params.shape_bits
  some (sign, ind, bits'')

unfoldable pub read_codewords : SplitCbParams → ℕ → SpeexBits → Option (List (ℕ × ℕ) × SpeexBits)
read_codewords params zero bits = some ([], bits)
read_codewords params (suc n) bits = do
  (sign, ind, bits') ← read_codeword params bits
  (codewords, bits'') ← read_codewords params n bits'
  some ((sign, ind) ∷ codewords, bits'')

-- The decoded excitation.
unfoldable pub decoded : List ℤ → SplitCbParams → List (ℕ × ℕ) → Option (List ℤ)
decoded shape_cb params [] = some []
decoded shape_cb params ((sign, ind) ∷ codewords) = do
  shape ← shape_at shape_cb params.subvect_size (not (sign == 0)) ind
  rest ← decoded shape_cb params codewords
  some (shape ++ rest)

unfoldable pub split_cb_shape_sign_unquant :
    List ℤ → SplitCbParams → SpeexBits → Option (List ℤ × SpeexBits)
split_cb_shape_sign_unquant shape_cb params bits = do
  (codewords, bits') ← read_codewords params params.nb_subvect bits
  exc ← decoded shape_cb params codewords
  some (exc, bits')
