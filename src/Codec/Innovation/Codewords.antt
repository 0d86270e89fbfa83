-- ===== src/Codec/Innovation/Codewords.antt =====
-- The signs and indices that the decoder reads are what the encoder makes of its indices.
use securecom_voice.Base.{
  ℕ, zero, suc, ◌+◌, ◌-◌, ◌*◌, ◌/◌, ◌%◌, get_or, ◌^◌, ◌≤◌, ◌<◌, ◌≡◌, refl, sym, ap, ◌∙◌, subst, inl,
  inr, true, false, not, some, List, [], ◌∷◌, arith, length, leb, ◌==◌, Bool-cases, if◌then◌else◌,
}
use securecom_voice.Base.Byte.{byte_bit-lt}
use securecom_voice.Base.Int.{ℤ}
use securecom_voice.Bits.{SpeexBits, cursor, bit_at}
use securecom_voice.Bits.Ahead.{
  HasAhead, HasAhead-less, HasAhead-moved, cursor-moved, moved-moved_add, read_lem,
}
use securecom_voice.Bits.Field.{field, field-lt}
use securecom_voice.Bits.Stream.{Holds, size}
use securecom_voice.Bits.Unpack.{unpack_unsigned}
use securecom_voice.Bits.Unpack.Laws.{moved}
use securecom_voice.Codec.Tables.{SplitCbParams}
use securecom_voice.Codec.Innovation.{
  index_frame, put_together, read_codeword, read_codewords, decoded,
}

-- A codeword with a sign that is one bit, or none, and fits a number.
abbrev pub IsParams : SplitCbParams → Type 0
IsParams params = (params.have_sign ≤ 1) × (params.shape_bits ≤ 31)

-- What the decoder reads of an index is what the encoder makes of it.
pub record Agrees (params : SplitCbParams) (i sign ind : ℕ) : Type 0 where
  pub same_sign : not (sign == 0) ≡ leb (2 ^ params.shape_bits) i
  pub same_index : ind ≡ (if leb (2 ^ params.shape_bits) i then i - 2 ^ params.shape_bits else i)

unsigned-Agrees : (params : SplitCbParams) (i : ℕ) → i < 2 ^ params.shape_bits → Agrees params i 0 i
unsigned-Agrees params i h =
    let under : leb (2 ^ params.shape_bits) i ≡ false = ground arith in
    record { same_sign = rw under refl; same_index = rw under refl }

signed-Agrees :
    (params : SplitCbParams) (i top rest : ℕ)
    → top < 2
    → rest < 2 ^ params.shape_bits
    → i ≡ top * 2 ^ params.shape_bits + rest
    → Agrees params i top rest
signed-Agrees params i zero rest u h e =
    subst (λ j. Agrees params j 0 rest) {x = rest} {y = i} (omega (arith, e))
      (unsigned-Agrees params rest h)
signed-Agrees params i (suc zero) rest u h e =
    let over : leb (2 ^ params.shape_bits) i ≡ true = ground arith in
    record { same_sign = rw over refl; same_index = rw over (omega (arith, e)) }
signed-Agrees params i (suc (suc top)) rest u h e = absurd (omega arith)

-- What is read of an index at the cursor, with its sign.
abbrev IsReadAs : SplitCbParams → ℕ → SpeexBits → Type 0
IsReadAs params i b =
    (sign : ℕ) × (ind : ℕ) × ((read_codeword params b
        ≡ some (sign, ind, moved b (params.shape_bits + params.have_sign)))
      × Agrees params i sign ind)

read_unsigned :
    (params : SplitCbParams) (b : SpeexBits)
    → params.have_sign ≡ 0
    → params.shape_bits ≤ 31
    → HasAhead b params.shape_bits
    → IsReadAs params (field b.chars (cursor b) params.shape_bits) b
unfolding read_codeword
read_unsigned params b z l h =
    let i = field b.chars (cursor b) params.shape_bits in
    let none_there : (params.have_sign == 0) ≡ true = ground (arith, z) in
    let read = read_lem params.shape_bits h (omega arith) (omega arith) in
    let width : params.shape_bits ≡ params.shape_bits + params.have_sign = omega arith in
    (
      0,
      i,
      (
        rw (none_there, read) (ap (λ n. some (0, i, moved b n)) width),
        unsigned-Agrees params i (field-lt b.chars (cursor b) params.shape_bits),
      ),
    )

read_signed :
    (params : SplitCbParams) (b : SpeexBits)
    → params.have_sign ≡ 1
    → params.shape_bits ≤ 31
    → HasAhead b (suc params.shape_bits)
    → IsReadAs params (field b.chars (cursor b) (suc params.shape_bits)) b
unfolding read_codeword
read_signed params b z l h =
    let k = params.shape_bits in
    let top = bit_at b.chars (cursor b) in
    let rest = field b.chars (cursor b + 1) k in
    let there : (params.have_sign == 0) ≡ false = ground (arith, z) in
    let first = read_lem 1 h (omega arith) (omega arith) in
    let at = cursor-moved b 1 h.readable.bit_in in
    let second = read_lem k (HasAhead-moved 1 k h (omega arith)) (omega arith) (omega arith) in
    let on : moved (moved b 1) k ≡ moved b (k + params.have_sign) =
      moved-moved_add b 1 k h.readable.bit_in ∙ ap (moved b) (omega arith) in
    let first' : unpack_unsigned b 1 ≡ some (top, moved b 1) =
      first ∙ ap (λ t. some (t, moved b 1)) (omega arith) in
    let second' : unpack_unsigned (moved b 1) k ≡ some (rest, moved b (k + params.have_sign)) =
      second
      ∙ ap (λ p. some (field b.chars p k, moved (moved b 1) k)) at
      ∙ ap (λ c. some (rest, c)) on in
    (
      top,
      rest,
      (
        rw (there, first', second') refl,
        signed-Agrees params (top * 2 ^ k + rest) top rest
            (byte_bit-lt (get_or b.chars (cursor b / 8) 0) (cursor b % 8))
            (field-lt b.chars (cursor b + 1) k) refl,
      ),
    )

read_codeword_lem :
    (params : SplitCbParams) (i : ℕ) (b : SpeexBits)
    → IsParams params
    → HasAhead b (params.shape_bits + params.have_sign)
    → field b.chars (cursor b) (params.shape_bits + params.have_sign) ≡ i
    → IsReadAs params i b
read_codeword_lem params i b p h e = elim (Bool-cases (params.have_sign == 0)) [
  | inl z ↦
      let none_there : params.have_sign ≡ 0 = ground (arith, z) in
      let width : params.shape_bits + params.have_sign ≡ params.shape_bits =
        omega (arith, none_there) in
      subst (λ j. IsReadAs params j b) (ap (field b.chars (cursor b)) (sym width) ∙ e)
        (read_unsigned params b none_there p.1 (subst (HasAhead b) width h))
  | inr z ↦
      let there : params.have_sign ≡ 1 = ground (arith, z) in
      let width : params.shape_bits + params.have_sign ≡ suc params.shape_bits =
        omega (arith, there) in
      subst (λ j. IsReadAs params j b) (ap (field b.chars (cursor b)) (sym width) ∙ e)
        (read_signed params b there p.1 (subst (HasAhead b) width h))
]

moved_none : (b : SpeexBits) → b.bit_ptr < 8 → moved b 0 ≡ b
moved_none b h = ground arith

-- The codewords of a frame of indices, and the shapes that both sides make of it.
pub read_codewords_lem :
    (shape_cb : List ℤ) (params : SplitCbParams) (ind : List ℕ) (b : SpeexBits)
    → IsParams params
    → HasAhead b (size (index_frame params ind))
    → Holds b.chars (cursor b) (index_frame params ind)
    → (codewords : List (ℕ × ℕ)) × (read_codewords params (length ind) b
        ≡ some (codewords, moved b (size (index_frame params ind))))
      × (decoded shape_cb params codewords ≡ put_together shape_cb params ind)
unfolding read_codewords index_frame decoded put_together
read_codewords_lem shape_cb params [] b p h held =
    ([], ap (λ c. some ([], c)) (sym (moved_none b h.readable.bit_in)), refl)
read_codewords_lem shape_cb params (i ∷ ind) b p h held =
    let w = params.shape_bits + params.have_sign in
    let n = size (index_frame params ind) in
    let (sign, x, (e, same)) =
      read_codeword_lem params i b p (HasAhead-less w h (omega arith)) held.0 in
    let at = cursor-moved b w h.readable.bit_in in
    let (codewords, e', shapes) =
      read_codewords_lem shape_cb params ind (moved b w) p (HasAhead-moved w n h (omega arith))
        (subst (λ c. Holds b.chars c (index_frame params ind)) (sym at) held.1) in
    (
      (sign, x) ∷ codewords,
      rw (e, e')
          (ap (λ c. some ((sign, x) ∷ codewords, c)) (moved-moved_add b w n h.readable.bit_in)),
      rw (same.same_sign, same.same_index, shapes) refl,
    )
