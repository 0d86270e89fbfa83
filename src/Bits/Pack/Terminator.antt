-- ===== src/Bits/Pack/Terminator.antt =====
-- `insert_terminator`: a zero and then ones up to the end of the byte, and where its loop hangs.
use securecom_voice.Base.{
  ℕ, zero, suc, ◌+◌, ◌*◌, ◌/◌, ◌^◌, ◌≤◌, ◌<◌, ◌≡◌, ◌≢◌, refl, ap, ◌∙◌, ◌⊎◌, inl, inr, true, false,
  some, arith, ◌==◌, Bool-cases,
}
use securecom_voice.Memory.{Allocator}
use securecom_voice.Bits.{SpeexBits, cursor, bit_at}
use securecom_voice.Bits.Pack.{pack, fill_byte, insert_terminator}
use securecom_voice.Bits.Pack.Step.{IsOpen}
use securecom_voice.Bits.Pack.Laws.{Written, pack_fits, pack_refuses}

-- `b'` is `b` with ones up to the end of its byte.
record Filled (b b' : SpeexBits) : Type 0 where
  opened : IsOpen b'
  ends : cursor b' ≡ (cursor b + 7) / 8 * 8
  ones : (i : ℕ) → cursor b ≤ i → i < cursor b' → bit_at b'.chars i ≡ 1
  kept : (i : ℕ) → i < cursor b → bit_at b'.chars i ≡ bit_at b.chars i

Filled-done : (b : SpeexBits) → IsOpen b → b.bit_ptr ≡ 0 → Filled b b
Filled-done b v e = record {
  opened = v;
  ends = omega arith;
  ones = λ i l u. absurd (omega arith);
  kept = λ i u. refl;
}

Filled-step :
    {b b₁ b₂ : SpeexBits}
    → b.bit_ptr < 8
    → b.bit_ptr ≢ 0
    → Written 1 1 b b₁
    → Filled b₁ b₂
    → Filled b b₂
Filled-step {b} {b₁} {b₂} h e w f = record {
  opened = f.opened;
  ends = omega (arith, f.ends, w.moved);
  ones = λ i l u.
      ground
        (arith, f.ones i, f.kept i, w.moved, ap (bit_at b₂.chars) {x = i} {y = cursor b}, first);
  kept = λ i u. f.kept i (omega (arith, w.moved)) ∙ w.kept i u;
}
  where
    first : bit_at b₂.chars (cursor b) ≡ 1
    first = f.kept (cursor b) (omega (arith, w.moved)) ∙ omega (arith, w.wrote)

module _ (a : Allocator) where
  fill_byte_lem :
      (fuel : ℕ) (b : SpeexBits)
      → IsOpen b
      → (b.bit_ptr ≡ 0) ⊎ ((b.char_ptr + 1 < b.buf_size) × (8 ≤ fuel + b.bit_ptr))
      → (b' : SpeexBits) × (fill_byte a fuel b ≡ some (b', true)) × Filled b b'
  unfolding fill_byte
  fill_byte_lem zero b v h =
      let e : b.bit_ptr ≡ 0 = omega (arith, v.bit_in) in (b, ground arith, Filled-done b v e)
  fill_byte_lem (suc fuel) b v h = elim (Bool-cases (b.bit_ptr == 0)) [
    | inl e ↦ (b, rw e, Filled-done b v (ground arith))
    | inr e ↦
        let (b₁, e₁, w, z) = pack_fits a b 1 1 v (omega arith) (ground (arith, v.bit_in)) in
        let (b₂, e₂, f) =
          fill_byte_lem fuel b₁ w.opened (ground (arith, w.moved, z, w.opened.bit_in, v.bit_in)) in
        (b₂, rw (e, e₁) e₂, Filled-step v.bit_in (ground arith) w f)
  ]

fill_byte-whole :
    (a : Allocator) (fuel : ℕ) (b : SpeexBits)
    → (b.bit_ptr == 0) ≡ true
    → fill_byte a fuel b ≡ some (b, true)
unfolding fill_byte
fill_byte-whole a zero b e = rw e
fill_byte-whole a (suc fuel) b e = rw e

-- `b'` is `b` with a zero and then ones up to the end of its byte, if it ends inside a byte.
pub record Terminated (b b' : SpeexBits) : Type 0 where
  pub opened : IsOpen b'
  pub ends : cursor b' ≡ (cursor b + 7) / 8 * 8
  pub marked : b.bit_ptr ≢ 0 → bit_at b'.chars (cursor b) ≡ 0
  pub ones : (i : ℕ) → cursor b < i → i < cursor b' → bit_at b'.chars i ≡ 1
  pub kept : (i : ℕ) → i < cursor b → bit_at b'.chars i ≡ bit_at b.chars i

Terminated-whole : (b : SpeexBits) → IsOpen b → b.bit_ptr ≡ 0 → Terminated b b
Terminated-whole b v e = record {
  opened = v;
  ends = omega arith;
  marked = λ n. absurd (n e);
  ones = λ i l u. absurd (omega arith);
  kept = λ i u. refl;
}

Terminated-Filled :
    {b b₁ b₂ : SpeexBits}
    → b.bit_ptr < 8
    → b.bit_ptr ≢ 0
    → Written 1 0 b b₁
    → Filled b₁ b₂
    → Terminated b b₂
Terminated-Filled {b} h e w f = record {
  opened = f.opened;
  ends = omega (arith, f.ends, w.moved);
  marked = λ n. f.kept (cursor b) (omega (arith, w.moved)) ∙ omega (arith, w.wrote);
  ones = λ i l u. f.ones i (omega (arith, w.moved)) u;
  kept = λ i u. f.kept i (omega (arith, w.moved)) ∙ w.kept i u;
}

-- Where the stream ends on a byte boundary, or its last byte is not the block's last, the terminator
-- is in after at most six rounds of the loop: a zero and then ones up to the end of the byte, or nothing
-- on a boundary.
pub insert_terminator_lem :
    (a : Allocator) (b : SpeexBits) (fuel : ℕ)
    → 6 ≤ fuel
    → IsOpen b
    → (b.bit_ptr ≡ 0) ⊎ (b.char_ptr + 1 < b.buf_size)
    → (b' : SpeexBits) × (insert_terminator a fuel b ≡ some (b', true)) × Terminated b b'
unfolding insert_terminator fill_byte
insert_terminator_lem a b fuel six v h = elim (Bool-cases (b.bit_ptr == 0)) [
  | inl e ↦ (b, rw e (fill_byte-whole a fuel b e), Terminated-whole b v (ground arith))
  | inr e ↦
      let (b₁, e₁, w, z) = pack_fits a b 0 1 v (omega arith) (ground (arith, v.bit_in)) in
      let (b₂, e₂, f) =
        fill_byte_lem a fuel b₁ w.opened (ground (arith, w.moved, z, w.opened.bit_in, v.bit_in)) in
      (b₂, rw (e, e₁) e₂, Terminated-Filled v.bit_in (ground arith) w f)
]

-- The last byte of a block that is not the stream's own.
record IsStuck (b : SpeexBits) : Type 0 where
  opened : IsOpen b
  last : b.char_ptr + 1 ≡ b.buf_size
  begun : 0 < b.bit_ptr
  borrowed : b.owner ≡ false

pack_bit-IsStuck :
    (a : Allocator) (b : SpeexBits) (d : ℕ)
    → d < 2 ^ 32
    → IsStuck b
    → (b' : SpeexBits) × (pack a b d 1 ≡ some b') × IsStuck b'
pack_bit-IsStuck a b d hd s = elim (Bool-cases (b.bit_ptr == 7)) [
  | inl e ↦ (b, pack_refuses a b d 1 s.opened hd (ground (arith, s.last)) (inl s.borrowed), s)
  | inr e ↦
      let (b₁, e₁, w, z) =
        pack_fits a b d 1 s.opened hd (ground (arith, s.last, s.opened.bit_in)) in
      (
        b₁,
        e₁,
        record {
          opened = w.opened;
          last = ground (arith, w.moved, w.opened.bit_in, s.opened.bit_in, s.last, z);
          begun = ground (arith, w.moved, w.opened.bit_in, s.opened.bit_in, s.begun);
          borrowed = w.same_owner ∙ s.borrowed;
        },
      )
]

fill_byte_hangs :
    (a : Allocator) (fuel : ℕ) (b : SpeexBits)
    → IsStuck b
    → (b' : SpeexBits) × (fill_byte a fuel b ≡ some (b', false))
unfolding fill_byte
fill_byte_hangs a zero b s = (b, ground (arith, s.begun))
fill_byte_hangs a (suc fuel) b s =
    let (b₁, e₁, s₁) = pack_bit-IsStuck a b 1 (omega arith) s in
    let (b₂, e₂) = fill_byte_hangs a fuel b₁ s₁ in
    let e : (b.bit_ptr == 0) ≡ false = ground (arith, s.begun) in (b₂, rw (e, e₁) e₂)

-- In the last byte of a block that is not the stream's own the loop never ends: after any number of
-- rounds it is still running.
pub insert_terminator_hangs :
    (a : Allocator) (b : SpeexBits)
    → IsOpen b
    → b.owner ≡ false
    → b.char_ptr + 1 ≡ b.buf_size
    → 0 < b.bit_ptr
    → (fuel : ℕ) → (b' : SpeexBits) × (insert_terminator a fuel b ≡ some (b', false))
unfolding insert_terminator fill_byte
insert_terminator_hangs a b v o l g fuel =
    let s : IsStuck b = record { opened = v; last = l; begun = g; borrowed = o } in
    let (b₁, e₁, s₁) = pack_bit-IsStuck a b 0 (omega arith) s in
    let (b₂, e₂) = fill_byte_hangs a fuel b₁ s₁ in
    let e : (b.bit_ptr == 0) ≡ false = ground arith in (b₂, rw (e, e₁) e₂)
