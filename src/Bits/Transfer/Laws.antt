-- ===== src/Bits/Transfer/Laws.antt =====
-- Bytes into the stream and out of it: what `read_from` and `write` move, and where
-- `read_whole_bytes` leaves its block.
use securecom_voice.Base.{
  ℕ, ◌+◌, ◌*◌, ◌/◌, ◌≤◌, ◌<◌, ◌≡◌, refl, ap, ◌∙◌, ◌⊎◌, inl, inr, false, none, some, List, arith,
  length, take, ltb, Option-cases, Bool-cases,
}
use Prim.Native.Nat.{min}
use securecom_voice.Memory.{Allocator, IsAllocator}
use securecom_voice.Bits.{SpeexBits, cursor, bit_at, nbytes, resize}
use securecom_voice.Bits.Pack.Step.{IsOpen}
use securecom_voice.Bits.Pack.Terminator.{Terminated, insert_terminator_lem}
use securecom_voice.Bits.Unpack.Laws.{IsReadable}
use securecom_voice.Bits.Transfer.{fill, read_from, flush, append, read_whole_bytes, emit, write}
use securecom_voice.Bits.Transfer.Copy.{
  copy_in_lem, copy_in_overruns, Copied-start, bit_at-take, copy_out_lem,
}

-- The stream holds the first `n` bytes of `src` and is at its start.
pub record Received (n : ℕ) (src : List ℕ) (b : SpeexBits) : Type 0 where
  pub readable : IsReadable b
  pub at_start : cursor b ≡ 0
  pub unread : b.overflow ≡ false
  pub counted : b.nb_bits ≡ n * 8
  pub bits : (i : ℕ) → i < n * 8 → bit_at b.chars i ≡ bit_at src i
  pub size : length b.chars ≡ b.buf_size

fill_lem :
    (b : SpeexBits) (src : List ℕ) (n : ℕ)
    → length b.chars ≡ b.buf_size
    → n ≤ b.buf_size
    → n ≤ length src
    → (b' : SpeexBits) × (fill b src n ≡ some b') × Received n src b'
unfolding fill
fill_lem b src n h k l =
    let (ys, e, c) = copy_in_lem n 0 0 src b.chars (omega arith) (omega arith) in
    (
      record b { chars = ys; nb_bits = n * 8; char_ptr = 0; bit_ptr = 0; overflow = false },
      rw e,
      record {
        readable = omega (arith, c.same_length);
        at_start = omega arith;
        unread = refl;
        counted = refl;
        bits = Copied-start c;
        size = c.same_length ∙ h;
      },
    )

resize_size :
    (a : Allocator) (b : SpeexBits) (n : ℕ) {b' : SpeexBits}
    → IsAllocator a
    → resize a b n ≡ some b'
    → (length b'.chars ≡ n) × (b'.buf_size ≡ n)
unfolding resize
resize_size a b n l e = elim (Option-cases (a.realloc b.chars n)) [
  | inl e₁ ↦ ground arith
  | inr (ys, e₁) ↦ ground (arith, l.realloc_size b.chars n ys)
]

-- `read_from` takes the whole packet if it fits the block or the block can be had larger, and else
-- as much of it as fits; the stream is then at its start, with the packet's bits.
pub read_from_lem :
    (a : Allocator) (b : SpeexBits) (src : List ℕ) (len : ℕ)
    → IsAllocator a
    → length b.chars ≡ b.buf_size
    → len ≤ length src
    → (n : ℕ) × (b' : SpeexBits) × (read_from a b src len ≡ some b')
      × Received n src b'
      × ((n ≡ len) ⊎ ((n ≡ b.buf_size) × (b.buf_size < len) × (resize a b len ≡ none)))
unfolding read_from
read_from_lem a b src len l h k = elim (Bool-cases (ltb b.buf_size len)) [
  | inr t ↦ let (b', e, r) = fill_lem b src len h (ground arith) k in (len, b', rw t e, r, inl refl)
  | inl t ↦ elim (Option-cases (resize a b len)) [
    | inl e₁ ↦
        let (b', e, r) = fill_lem b src b.buf_size h (omega arith) (ground arith) in
        (b.buf_size, b', rw (t, e₁) e, r, inr (refl, ground arith, e₁))
    | inr (b₁, e₁) ↦
        let (s, z) = resize_size a b len l e₁ in
        let (b', e, r) = fill_lem b₁ src len (omega (arith, s, z)) (omega (arith, z)) k in
        (len, b', rw (t, e₁) e, r, inl refl)
  ]
]

-- The bytes that `write` hands out.
pub record Emitted (b : SpeexBits) (max_nbytes : ℕ) (out : List ℕ) (b' : SpeexBits) : Type 0 where
  pub count : length out ≡ min max_nbytes (nbytes b)
  pub bits : (i : ℕ) → i < cursor b → i < length out * 8 → bit_at out i ≡ bit_at b.chars i
  pub stop : (i : ℕ) → i ≡ cursor b → i < length out * 8 → bit_at out i ≡ 0
  pub ones : (i : ℕ) → cursor b < i → i < length out * 8 → bit_at out i ≡ 1
  pub same_cursor : cursor b' ≡ cursor b
  pub same_count : b'.nb_bits ≡ b.nb_bits

Terminated-fits :
    (b b₁ : SpeexBits) (max_nbytes : ℕ)
    → IsOpen b
    → Terminated b b₁
    → min max_nbytes (nbytes b) ≤ length b₁.chars
unfolding nbytes
Terminated-fits b b₁ max_nbytes v t =
    omega (arith, t.ends, t.opened.inside, t.opened.size, t.opened.bit_in, v.counted)

Terminated-Emitted :
    (b b₁ : SpeexBits) (max_nbytes : ℕ)
    → IsOpen b
    → Terminated b b₁
    → length (take (min max_nbytes (nbytes b)) b₁.chars) ≡ min max_nbytes (nbytes b)
    → Emitted b max_nbytes
        (take (min max_nbytes (nbytes b)) b₁.chars)
        (record b₁ { bit_ptr = b.bit_ptr; char_ptr = b.char_ptr; nb_bits = b.nb_bits })
unfolding nbytes
Terminated-Emitted b b₁ max_nbytes v t n = record {
  count = n;
  bits = λ i u l. taken i l ∙ t.kept i u;
  stop = λ i e l. taken i l ∙ ap (bit_at b₁.chars) e ∙ t.marked (omega (arith, v.counted, n));
  ones = λ i u l. taken i l ∙ t.ones i u (omega (arith, v.counted, n, t.ends));
  same_cursor = refl;
  same_count = refl;
}
  where
    out : List ℕ
    out = take (min max_nbytes (nbytes b)) b₁.chars

    taken : (i : ℕ) → i < length out * 8 → bit_at out i ≡ bit_at b₁.chars i
    taken i l = bit_at-take (min max_nbytes (nbytes b)) b₁.chars i (omega (arith, n))

-- `write` hands out the stream's bits, a zero and then ones up to the end of the last byte, or as
-- many bytes of that as it may; cursor and count are then as they were.
pub write_lem :
    (a : Allocator) (b : SpeexBits) (max_nbytes : ℕ)
    → IsOpen b
    → (b.bit_ptr ≡ 0) ⊎ (b.char_ptr + 1 < b.buf_size)
    → (out : List ℕ) × (b' : SpeexBits) × (write a b max_nbytes ≡ some (out, b'))
      × Emitted b max_nbytes out b'
unfolding write emit
write_lem a b max_nbytes v h =
    let (b₁, e₁, t) = insert_terminator_lem a b 8 (omega arith) v h in
    let (e₂, n) =
      copy_out_lem (min max_nbytes (nbytes b)) b₁.chars (Terminated-fits b b₁ max_nbytes v t) in
    (
      take (min max_nbytes (nbytes b)) b₁.chars,
      record b₁ { bit_ptr = b.bit_ptr; char_ptr = b.char_ptr; nb_bits = b.nb_bits },
      rw (e₁, e₂),
      Terminated-Emitted b b₁ max_nbytes v t n,
    )

-- A stream that does not own its block, with a whole byte before the end and nothing read yet: where
-- the bytes do not fit, `read_whole_bytes` copies as many as the block has in all, and so runs over
-- the end of the block or of the packet.
pub read_whole_bytes_overruns :
    (a : Allocator) (b : SpeexBits) (src : List ℕ) (n : ℕ)
    → length b.chars ≡ b.buf_size
    → b.owner ≡ false
    → b.char_ptr ≡ 0
    → 8 ≤ b.nb_bits
    → b.nb_bits ≤ b.buf_size * 8
    → b.buf_size < nbytes b + n
    → read_whole_bytes a b src n ≡ none
unfolding read_whole_bytes append flush
read_whole_bytes_overruns a b src n s o c m k h =
    ground (arith, copy_in_overruns b.buf_size 0 (b.nb_bits / 8) src b.chars)
