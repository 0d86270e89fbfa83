-- ===== src/Bits/Unpack/Laws.antt =====
-- Reading bits: what comes out, where the cursor is afterwards, and how the readers agree.
use securecom_voice.Base.{
  ℕ, zero, suc, ◌+◌, ◌-◌, ◌*◌, ◌/◌, ◌%◌, ◌^◌, ◌≤◌, ◌<◌, ◌≡◌, refl, sym, ap, ap₂, ◌∙◌, inl, inr,
  Bool, true, false, ◌||◌, List, some, arith, length, get_or, get_elem?, get_elem?-eq-get_or, ◌==◌,
  ltb, ltb→lt, Bool-cases, Option-cases, if◌then◌else◌, ◌>>=◌,
}
use securecom_voice.Base.Int.{ℤ, pos, negsuc, signed32}
use native.Mathlib.Nat.{
  pow-suc, mod-eq_of_lt, div-add-mod, lt_of_lt_of_le, div-eq_of_lt, pow-le-pow_right,
}
use securecom_voice.Base.Byte.{byte_bit}
use securecom_voice.Bits.{SpeexBits, cursor, bit_at}
use securecom_voice.Bits.Field.{field, field-lt, pow_pos}
use securecom_voice.Bits.Unpack.{
  check, unpack_loop, unpack_unsigned, unpack_signed, peek_loop, peek_unsigned, advance,
}

-- A stream whose bits can be read.
pub record IsReadable (b : SpeexBits) : Type 0 where
  pub stored : b.nb_bits ≤ length b.chars * 8
  pub bit_in : b.bit_ptr < 8
  pub before_end : cursor b ≤ b.nb_bits

-- The cursor moved by `n` bits.
abbrev pub moved : SpeexBits → ℕ → SpeexBits
moved b n = record b { char_ptr = b.char_ptr + (b.bit_ptr + n) / 8; bit_ptr = (b.bit_ptr + n) % 8 }

-- An accumulator that wraps at each round wraps once.
wrap_once :
    (d t m f : ℕ) → ((d * 2 + t) % 2 ^ 32 * m + f) % 2 ^ 32 ≡ (d * (m * 2) + (t * m + f)) % 2 ^ 32
wrap_once d t m f = omega (arith, ap (λ k. k * m) (div-add-mod (d * 2 + t) (2 ^ 32)))

moved-moved : (b : SpeexBits) (n : ℕ) → b.bit_ptr < 8 → moved (moved b 1) n ≡ moved b (suc n)
moved-moved b n h = ground arith

moved-zero : (b : SpeexBits) → b.bit_ptr < 8 → moved b 0 ≡ b
moved-zero b h = ground arith

-- The two cases of the cursor at the end of a round.
cursor_step :
    (b : SpeexBits)
    → b.bit_ptr < 8
    → (if b.bit_ptr + 1 == 8
        then record b { char_ptr = b.char_ptr + 1; bit_ptr = 0 }
        else record b { bit_ptr = b.bit_ptr + 1 })
      ≡ moved b 1
cursor_step b h = ground arith

bit_at-cursor :
    (b : SpeexBits)
    → b.bit_ptr < 8
    → byte_bit (get_or b.chars b.char_ptr 0) b.bit_ptr ≡ bit_at b.chars (cursor b)
bit_at-cursor b h = ap₂ (λ q r. byte_bit (get_or b.chars q 0) r) (omega arith) (omega arith)

-- The loop reads inside the array, and gives the bits as a number.
pub unpack_loop_lem :
    (n d : ℕ) (b : SpeexBits)
    → b.bit_ptr < 8
    → d < 2 ^ 32
    → cursor b + n ≤ length b.chars * 8
    → unpack_loop n d b ≡ some ((d * 2 ^ n + field b.chars (cursor b) n) % 2 ^ 32, moved b n)
unfolding unpack_loop
unpack_loop_lem zero d b h hd fits = ap₂ (λ k b'. some (k, b')) (omega arith) (sym (moved-zero b h))
unpack_loop_lem (suc n) d b h hd fits =
    rw (get_elem?-eq-get_or b.chars b.char_ptr 0 (omega arith), cursor_step b h, bit_at-cursor b h)
      (unpack_loop_lem n ((d * 2 + bit_at b.chars (cursor b)) % 2 ^ 32) (moved b 1) (omega arith)
          (omega arith) (omega arith)
        ∙ ap₂ (λ k b'. some (k, b')) value (moved-moved b n h))
  where
    next : cursor (moved b 1) ≡ cursor b + 1
    next = omega arith

    value :
        ((d * 2 + bit_at b.chars (cursor b)) % 2 ^ 32 * 2 ^ n
            + field b.chars (cursor (moved b 1)) n)
          % 2 ^ 32
        ≡ (d * 2 ^ suc n + field b.chars (cursor b) (suc n)) % 2 ^ 32
    value =
        rw (next, pow-suc 2 n)
          (wrap_once d (bit_at b.chars (cursor b)) (2 ^ n) (field b.chars (cursor b + 1) n))

small_field : (xs : List ℕ) (p n : ℕ) → n ≤ 32 → field xs p n % 2 ^ 32 ≡ field xs p n
small_field xs p n h =
    mod-eq_of_lt (lt_of_lt_of_le (field-lt xs p n) (pow-le-pow_right (omega arith) h))

-- Whether `n` bits more pass the end, now or before.
abbrev pub exhausted : SpeexBits → ℕ → Bool
exhausted b n = ltb b.nb_bits (cursor b + n) || b.overflow

overrun : (b : SpeexBits) (n : ℕ) → exhausted b n ≡ true → check b n ≡ record b { overflow = true }
unfolding check
overrun b n h = ground arith

in_reach : (b : SpeexBits) (n : ℕ) → exhausted b n ≡ false → check b n ≡ b
unfolding check
in_reach b n h = ground arith

-- `unpack_unsigned` reads the next `n` bits as a number and moves the cursor past them; where they
-- pass the end it gives 0, moves nothing, and marks the stream.
pub unpack_unsigned_lem :
    (b : SpeexBits) (n : ℕ)
    → IsReadable b
    → n ≤ 32
    → unpack_unsigned b n
      ≡ some (
          if exhausted b n
          then (0, record b { overflow = true })
          else (field b.chars (cursor b) n, moved b n))
unfolding unpack_unsigned
unpack_unsigned_lem b n v hn = elim (Bool-cases (exhausted b n)) [
  | inl e ↦ rw (e, overrun b n e)
  | inr e ↦
      rw (e, in_reach b n e)
        (ground (
          arith,
          unpack_loop_lem n 0 b v.bit_in (omega arith),
          v.stored,
          small_field b.chars (cursor b) n hn,
        ))
]

peek_loop-unpack_loop :
    (n d : ℕ) (b : SpeexBits) (p q : ℕ)
    → peek_loop n d b p q
      ≡ (unpack_loop n d (record b { char_ptr = p; bit_ptr = q }) >>= λ r. some r.0)
unfolding peek_loop unpack_loop
peek_loop-unpack_loop zero d b p q = refl
peek_loop-unpack_loop (suc n) d b p q = elim (Option-cases (get_elem? b.chars p)) [
  | inl e ↦ rw e
  | inr (c, e) ↦ elim (Bool-cases (q + 1 == 8)) [
    | inl t ↦ rw (e, t) (peek_loop-unpack_loop n ((d * 2 + byte_bit c q) % 2 ^ 32) b (p + 1) 0)
    | inr t ↦ rw (e, t) (peek_loop-unpack_loop n ((d * 2 + byte_bit c q) % 2 ^ 32) b p (q + 1))
  ]
]

-- Looking at bits and then skipping them is reading them, past the end too.
pub peek-advance :
    (b : SpeexBits) (n : ℕ)
    → IsReadable b
    → n ≤ 32
    → (peek_unsigned b n >>= λ r. some (r.0, advance r.1 n)) ≡ unpack_unsigned b n
unfolding peek_unsigned advance
peek-advance b n v hn = elim (Bool-cases (exhausted b n)) [
  | inl e ↦ rw (unpack_unsigned_lem b n v hn, e, overrun b n e) (ground arith)
  | inr e ↦
      rw (unpack_unsigned_lem b n v hn, e, in_reach b n e)
        (ground (
          arith,
          peek_loop-unpack_loop n 0 b b.char_ptr b.bit_ptr,
          unpack_loop_lem n 0 b v.bit_in (omega arith),
          v.stored,
          small_field b.chars (cursor b) n hn,
        ))
]

-- A reader keeps the stream readable.
pub unpack_unsigned-IsReadable :
    (b : SpeexBits) (n : ℕ) {d : ℕ} {b' : SpeexBits}
    → IsReadable b
    → n ≤ 32
    → unpack_unsigned b n ≡ some (d, b')
    → IsReadable b'
unpack_unsigned-IsReadable b n v hn e = ground (arith, unpack_unsigned_lem b n v hn)

-- The number that `n` bits stand for in two's complement.
abbrev pub sign_extend : ℕ → ℕ → ℤ
sign_extend n f = if ltb f (2 ^ (n - 1)) then pos f else negsuc (2 ^ n - f - 1)

quotient_one : (f m : ℕ) → m ≤ f → f < m * 2 → f / m ≡ 1
quotient_one f m h l = grind arith

extend :
    (m f : ℕ)
    → 0 < m
    → m ≤ 2 ^ 31
    → f < m * 2
    → signed32 (if f / m == 0 then f else f % (m * 2) + (2 ^ 32 - m * 2))
      ≡ (if ltb f m then pos f else negsuc (m * 2 - f - 1))
extend m f h k l = elim (Bool-cases (ltb f m)) [
  | inl t ↦ rw (t, div-eq_of_lt (ltb→lt f m t)) (ground arith)
  | inr t ↦ rw (t, mod-eq_of_lt l, quotient_one f m (ground arith) l) (ground arith)
]

-- Within the stream `unpack_signed` gives the two's complement number of the next `n` bits.
pub unpack_signed_lem :
    (b : SpeexBits) (n : ℕ)
    → IsReadable b
    → exhausted b (suc n) ≡ false
    → n ≤ 31
    → (w : ℕ) × (unpack_signed b (suc n) ≡ some (w, moved b (suc n)))
      × (signed32 w ≡ sign_extend (suc n) (field b.chars (cursor b) (suc n)))
unfolding unpack_signed
unpack_signed_lem b n v e hn = (
  pattern_of (field b.chars (cursor b) (suc n)),
  rw (unpack_unsigned_lem b (suc n) v (omega arith), e, less_one),
  rw (less_one, pow-suc 2 n)
      (extend (2 ^ n) (field b.chars (cursor b) (suc n)) (pow_pos n)
        (pow-le-pow_right (omega arith) hn)
        (rw (← pow-suc 2 n) (field-lt b.chars (cursor b) (suc n)))),
)
  where
    less_one : suc n - 1 ≡ n
    less_one = omega arith

    pattern_of : ℕ → ℕ
    pattern_of d = if d / 2 ^ n == 0 then d else d % 2 ^ suc n + (2 ^ 32 - 2 ^ suc n)
