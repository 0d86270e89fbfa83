-- ===== src/Bits/Pack/Laws.antt =====
-- The loop of `pack`, and `pack` on each of its branches.
use securecom_voice.Base.{
  ℕ, zero, suc, ◌+◌, ◌*◌, ◌/◌, ◌%◌, ◌^◌, ◌≤◌, ◌<◌, ◌≡◌, refl, sym, ap, ◌∙◌, ◌⊎◌, true, false, List,
  none, some, arith, get_or,
}
use native.Mathlib.Nat.{pow-suc, mod-eq_of_lt}
use securecom_voice.Base.Byte.{byte_bit}
use securecom_voice.Memory.{Allocator, IsAllocator}
use securecom_voice.Bits.{SpeexBits, cursor, bit_at, resize}
use securecom_voice.Bits.Field.{field, split_top, pow_pos}
use securecom_voice.Bits.Pack.{pack_loop, pack, make_room}
use securecom_voice.Bits.Pack.Step.{IsOpen, Packed, pack_bit_lem}

-- `b'` is `b` with the low `n` bits of `d` behind it.
pub record Written (n d : ℕ) (b b' : SpeexBits) : Type 0 where
  pub opened : IsOpen b'
  pub moved : cursor b' ≡ cursor b + n
  pub wrote : field b'.chars (cursor b) n ≡ d % 2 ^ n
  pub kept : (i : ℕ) → i < cursor b → bit_at b'.chars i ≡ bit_at b.chars i
  pub same_owner : b'.owner ≡ b.owner
  pub same_overflow : b'.overflow ≡ b.overflow

-- A round and the rest of the loop.
Written-suc :
    {n d : ℕ} {b b₁ b₂ : SpeexBits}
    → Packed (d / 2 ^ n % 2) b b₁
    → Written n d b₁ b₂
    → Written (suc n) d b b₂
Written-suc {n} {d} {b} {b₁} {b₂} s w = record {
  opened = w.opened;
  moved = omega (arith, w.moved, s.moved);
  wrote = rw (top, low, pow-suc 2 n) (split_top d (2 ^ n) (pow_pos n));
  kept = λ i h. w.kept i (omega (arith, s.moved)) ∙ s.kept i h;
  same_owner = w.same_owner ∙ s.same_owner;
  same_overflow = w.same_overflow ∙ s.same_overflow;
}
  where
    top : bit_at b₂.chars (cursor b) ≡ d / 2 ^ n % 2
    top = w.kept (cursor b) (omega (arith, s.moved)) ∙ s.wrote

    low : field b₂.chars (cursor b + 1) n ≡ d % 2 ^ n
    low = ap (λ p. field b₂.chars p n) (sym s.moved) ∙ w.wrote

-- With room for its bits the loop stays inside the array and writes them all.
pub pack_loop_lem :
    (n d : ℕ) (b : SpeexBits)
    → IsOpen b
    → cursor b + n < b.buf_size * 8
    → (b' : SpeexBits) × (pack_loop n d b ≡ some b') × Written n d b b' × (b'.buf_size ≡ b.buf_size)
unfolding pack_loop
pack_loop_lem zero d b v fits = (
  b,
  refl,
  record {
    opened = v;
    moved = omega arith;
    wrote = omega arith;
    kept = λ i h. refl;
    same_owner = refl;
    same_overflow = refl;
  },
  refl,
)
pack_loop_lem (suc n) d b v fits =
    let (b₁, e₁, s) = pack_bit_lem b (d / 2 ^ n % 2) v (omega arith) (omega arith) in
    let (b₂, e₂, w, z) = pack_loop_lem n d b₁ s.opened (omega (arith, s.moved, s.same_size)) in
    (b₂, rw e₁ e₂, Written-suc s w, z ∙ s.same_size)

-- `b'` is `b` in a larger block.
record Grown (n : ℕ) (b b' : SpeexBits) : Type 0 where
  opened : IsOpen b'
  same_cursor : cursor b' ≡ cursor b
  kept : (i : ℕ) → i < cursor b → bit_at b'.chars i ≡ bit_at b.chars i
  size : b'.buf_size ≡ n
  same_owner : b'.owner ≡ b.owner
  same_overflow : b'.overflow ≡ b.overflow

moved_to : SpeexBits → List ℕ → ℕ → SpeexBits
moved_to b ys n = record b { chars = ys; buf_size = n }

moved_to-Grown :
    (a : Allocator) (b : SpeexBits) (n : ℕ) (ys : List ℕ)
    → IsAllocator a
    → IsOpen b
    → b.buf_size ≤ n
    → a.realloc b.chars n ≡ some ys
    → Grown n b (moved_to b ys n)
unfolding moved_to
moved_to-Grown a b n ys l v h e = record {
  opened = record {
    size = l.realloc_size _ _ _ e;
    bytes = l.realloc_bytes _ _ _ e v.bytes;
    inside = omega (arith, v.inside);
    bit_in = v.bit_in;
    clear = λ j p q. rw (same b.char_ptr v.inside) (v.clear j p q);
    counted = v.counted;
  };
  same_cursor = refl;
  kept = λ i p. ap (λ c. byte_bit c (i % 8)) (same (i / 8) (omega (arith, v.inside, v.bit_in)));
  size = refl;
  same_owner = refl;
  same_overflow = refl;
}
  where
    same : (q : ℕ) → q < b.buf_size → get_or ys q 0 ≡ get_or b.chars q 0
    same q hq = l.realloc_keeps _ _ _ e q (omega (arith, v.size)) (omega arith)

-- A write in the larger block is a write in the stream.
Written-Grown :
    {m n d : ℕ} {b b₁ b₂ : SpeexBits} → Grown m b b₁ → Written n d b₁ b₂ → Written n d b b₂
Written-Grown {n} {b₂ = b₂} g w = record {
  opened = w.opened;
  moved = omega (arith, w.moved, g.same_cursor);
  wrote = ap (λ p. field b₂.chars p n) (sym g.same_cursor) ∙ w.wrote;
  kept = λ i h. w.kept i (omega (arith, g.same_cursor)) ∙ g.kept i h;
  same_owner = w.same_owner ∙ g.same_owner;
  same_overflow = w.same_overflow ∙ g.same_overflow;
}

module _ (a : Allocator) (b : SpeexBits) (d n : ℕ) (v : IsOpen b) (hd : d < 2 ^ 32) where
  -- `pack` is its loop on the stream that `make_room` gives.
  loop-pack : {b' : SpeexBits} → make_room a n b ≡ some b' → pack a b d n ≡ pack_loop n d b'
  unfolding pack
  loop-pack {b'} e = rw (e, pack) (ap (λ k. pack_loop n k b') (mod-eq_of_lt hd))

  -- Where the bits fit, `pack` appends them to the stream, and the rest of the stream stays.
  pub pack_fits :
      cursor b + n < b.buf_size * 8
      → (b' : SpeexBits) × (pack a b d n ≡ some b') × Written n d b b' × (b'.buf_size ≡ b.buf_size)
  pack_fits fits = let (b', e, w, z) = pack_loop_lem n d b v fits in (b', loop-pack room ∙ e, w, z)
    where
      room : make_room a n b ≡ some b
      room = unfold make_room in ground (arith, v.bit_in)

  -- Where they do not, and the stream owns a block that can be had larger, it grows and they are
  -- appended.
  pub pack_grows :
      IsAllocator a
      → n ≤ 32
      → b.buf_size * 8 ≤ cursor b + n
      → b.owner ≡ true
      → (ys : List ℕ) → a.realloc b.chars ((b.buf_size + 5) * 3 / 2) ≡ some ys
      → (b' : SpeexBits) × (pack a b d n ≡ some b') × Written n d b b'
  unfolding moved_to
  pack_grows l hn full own ys e =
      let g = moved_to-Grown a b ((b.buf_size + 5) * 3 / 2) ys l v (omega arith) e in
      let (b', e', w, z) =
        pack_loop_lem n d (moved_to b ys ((b.buf_size + 5) * 3 / 2)) g.opened
          (omega (arith, v.inside, v.bit_in)) in
      (b', loop-pack room ∙ e', Written-Grown g w)
    where
      room : make_room a n b ≡ some (moved_to b ys ((b.buf_size + 5) * 3 / 2))
      room = unfold make_room resize moved_to in ground (arith, e, v.bit_in)

  -- Where it cannot be had larger, `pack` gives up and the stream is as it was.
  pub pack_refuses :
      b.buf_size * 8 ≤ cursor b + n
      → (b.owner ≡ false) ⊎ (a.realloc b.chars ((b.buf_size + 5) * 3 / 2) ≡ none)
      → pack a b d n ≡ some b
  unfolding pack make_room resize
  pack_refuses full why = ground (arith, v.bit_in)
