-- ===== src/Bits/Pack/Step.antt =====
-- One round of the loop of `pack`: what it does to the bits of the stream.
use securecom_voice.Base.{
  ℕ, ◌+◌, ◌*◌, ◌/◌, ◌%◌, ◌≤◌, ◌<◌, ◌≡◌, refl, ap, ◌∙◌, inl, inr, true, false, some, List, arith,
  length, get_or, set, length-set, ◌==◌, ltb, ltb→lt, if◌then◌else◌, Bool-cases,
  get_elem?-eq-get_or, get_or-set_self, get_or-set_ne,
}
use securecom_voice.Base.Byte.{byte_bit, or_bit, byte_bit-or_bit, or_bit-lt, byte_bit-zero}
use securecom_voice.Memory.{IsBytes}
use securecom_voice.Bits.{SpeexBits, cursor, bit_at}
use securecom_voice.Bits.Pack.{pack_bit}

-- A stream that `pack` can go on with: the cursor is at the end, and what is left of its byte is
-- clear.
pub record IsOpen (b : SpeexBits) : Type 0 where
  pub size : length b.chars ≡ b.buf_size
  pub bytes : IsBytes b.chars
  pub inside : b.char_ptr < b.buf_size
  pub bit_in : b.bit_ptr < 8
  pub clear : (j : ℕ) → b.bit_ptr ≤ j → j < 8 → byte_bit (get_or b.chars b.char_ptr 0) j ≡ 0
  pub counted : b.nb_bits ≡ cursor b

-- `b'` is `b` with one bit more.
pub record Packed (bit : ℕ) (b b' : SpeexBits) : Type 0 where
  pub opened : IsOpen b'
  pub moved : cursor b' ≡ cursor b + 1
  pub wrote : bit_at b'.chars (cursor b) ≡ bit
  pub kept : (i : ℕ) → i < cursor b → bit_at b'.chars i ≡ bit_at b.chars i
  pub same_size : b'.buf_size ≡ b.buf_size
  pub same_owner : b'.owner ≡ b.owner
  pub same_overflow : b'.overflow ≡ b.overflow

module _ (b : SpeexBits) (bit : ℕ) (v : IsOpen b) (h : bit < 2)
    (fits : cursor b + 1 < b.buf_size * 8) where
  abbrev old : ℕ
  old = get_or b.chars b.char_ptr 0

  abbrev stored : List ℕ
  stored = set b.chars b.char_ptr (or_bit old bit b.bit_ptr)

  stored-IsBytes : IsBytes stored
  stored-IsBytes i = ground (
    arith,
    or_bit-lt old bit b.bit_ptr,
    v.bytes i,
    v.size,
    v.inside,
    get_or-set_self b.chars b.char_ptr (or_bit old bit b.bit_ptr) 0,
    get_or-set_ne b.chars b.char_ptr i (or_bit old bit b.bit_ptr) 0,
  )

  stored_here :
      (r : ℕ)
      → r < 8
      → byte_bit (get_or stored b.char_ptr 0) r ≡ (if r == b.bit_ptr then bit else byte_bit old r)
  stored_here r hr =
      rw (get_or-set_self b.chars b.char_ptr (or_bit old bit b.bit_ptr) 0 (omega arith)) (
        ground
          (arith, byte_bit-or_bit old bit b.bit_ptr r, v.bytes b.char_ptr, v.bit_in, v.clear r))

  stored_there : (q : ℕ) → q < b.char_ptr → get_or stored q 0 ≡ get_or b.chars q 0
  stored_there q hq = get_or-set_ne b.chars b.char_ptr q (or_bit old bit b.bit_ptr) 0 (omega arith)

  -- The bits before the cursor stay, and the one at the cursor is written.
  stored_bits :
      (i : ℕ) → i ≤ cursor b → bit_at stored i ≡ (if i == cursor b then bit else bit_at b.chars i)
  stored_bits i hi = elim (Bool-cases (ltb (i / 8) b.char_ptr)) [
    | inl t ↦
        ground (arith, v.bit_in, ap (λ c. byte_bit c (i % 8)) (stored_there (i / 8) (ltb→lt _ _ t)))
    | inr t ↦
        let e : i / 8 ≡ b.char_ptr = ground (arith, v.bit_in) in
        rw e (ground (arith, v.bit_in, stored_here (i % 8)))
  ]

  within : SpeexBits
  within = record b { chars = stored; nb_bits = b.nb_bits + 1; bit_ptr = b.bit_ptr + 1 }

  abbrev cleared : List ℕ
  cleared = set stored (b.char_ptr + 1) 0

  across : SpeexBits
  across = record b {
    chars = cleared;
    nb_bits = b.nb_bits + 1;
    char_ptr = b.char_ptr + 1;
    bit_ptr = 0;
  }

  cleared_before : (q : ℕ) → q ≤ b.char_ptr → get_or cleared q 0 ≡ get_or stored q 0
  cleared_before q hq = get_or-set_ne stored (b.char_ptr + 1) q 0 0 (omega arith)

  cleared_bits : (i : ℕ) → i ≤ cursor b → bit_at cleared i ≡ bit_at stored i
  cleared_bits i hi =
      ap (λ c. byte_bit c (i % 8)) (cleared_before (i / 8) (omega (arith, v.bit_in)))

  within-Packed : (b.bit_ptr + 1 == 8) ≡ false → Packed bit b within
  unfolding within
  within-Packed e = record {
    opened = record {
      size = length-set b.chars b.char_ptr _ ∙ v.size;
      bytes = stored-IsBytes;
      inside = v.inside;
      bit_in = ground (arith, v.bit_in);
      clear = λ j p q. ground (arith, stored_here j, v.clear j);
      counted = omega (arith, v.counted);
    };
    moved = omega arith;
    wrote = ground (arith, stored_bits (cursor b));
    kept = λ i p. ground (arith, stored_bits i);
    same_size = refl;
    same_owner = refl;
    same_overflow = refl;
  }

  length-stored : length stored ≡ b.buf_size
  length-stored = length-set b.chars b.char_ptr _ ∙ v.size

  across-Packed : (b.bit_ptr + 1 == 8) ≡ true → Packed bit b across
  unfolding across
  across-Packed e = record {
    opened = record {
      size = length-set stored (b.char_ptr + 1) 0 ∙ length-stored;
      bytes = λ i. ground (
        arith,
        stored-IsBytes i,
        length-stored,
        get_or-set_self stored (b.char_ptr + 1) 0 0,
        get_or-set_ne stored (b.char_ptr + 1) i 0 0,
      );
      inside = ground arith;
      bit_in = omega arith;
      clear = λ j p q.
          rw (get_or-set_self stored (b.char_ptr + 1) 0 0 (ground (arith, length-stored)))
            (byte_bit-zero j);
      counted = ground (arith, v.counted);
    };
    moved = ground arith;
    wrote = cleared_bits (cursor b) (omega arith) ∙ ground (arith, stored_bits (cursor b));
    kept = λ i p. cleared_bits i (omega arith) ∙ ground (arith, stored_bits i);
    same_size = refl;
    same_owner = refl;
    same_overflow = refl;
  }

-- Where a byte is left beyond the cursor's, a round of the loop stays inside the array and adds its
-- bit to the stream.
pub pack_bit_lem :
    (b : SpeexBits) (bit : ℕ)
    → IsOpen b
    → bit < 2
    → cursor b + 1 < b.buf_size * 8
    → (b' : SpeexBits) × (pack_bit bit b ≡ some b') × Packed bit b b'
unfolding pack_bit within across
pack_bit_lem b bit v h fits = elim (Bool-cases (b.bit_ptr + 1 == 8)) [
  | inl e ↦ (
    across b bit v h fits,
    ground (
      arith,
      get_elem?-eq-get_or b.chars b.char_ptr 0,
      v.size,
      v.inside,
      length-stored b bit v h fits,
    ),
    across-Packed b bit v h fits e,
  )
  | inr e ↦ (
    within b bit v h fits,
    ground (arith, get_elem?-eq-get_or b.chars b.char_ptr 0, v.size, v.inside),
    within-Packed b bit v h fits e,
  )
]
