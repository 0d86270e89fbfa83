-- ===== src/Bits/Ahead.antt =====
-- Reading from a stream with bits ahead of the cursor, and the cursor after any reading.
use securecom_voice.Base.{
  ℕ, ◌+◌, ◌≤◌, ◌<◌, ◌≡◌, refl, ◌∙◌, true, false, some, arith, inl, inr, Bool-cases,
}
use securecom_voice.Bits.{SpeexBits, cursor}
use securecom_voice.Bits.Field.{field}
use securecom_voice.Bits.Unpack.{unpack_unsigned, advance}
use securecom_voice.Bits.Unpack.Laws.{IsReadable, moved, exhausted, unpack_unsigned_lem}

-- A stream that can be read, with `n` bits ahead of the cursor.
pub record HasAhead (b : SpeexBits) (n : ℕ) : Type 0 where
  pub readable : IsReadable b
  pub clear : b.overflow ≡ false
  pub room : cursor b + n ≤ b.nb_bits

pub cursor-moved : (b : SpeexBits) (n : ℕ) → b.bit_ptr < 8 → cursor (moved b n) ≡ cursor b + n
cursor-moved b n h = omega arith

pub moved-moved_add :
    (b : SpeexBits) (m n : ℕ) → b.bit_ptr < 8 → moved (moved b m) n ≡ moved b (m + n)
moved-moved_add b m n h = ground arith

pub HasAhead-less : {b : SpeexBits} {n : ℕ} (k : ℕ) → HasAhead b n → k ≤ n → HasAhead b k
HasAhead-less k h e = record {
  readable = h.readable;
  clear = h.clear;
  room = omega (arith, h.room);
}

pub HasAhead-moved :
    {b : SpeexBits} {n : ℕ} (m k : ℕ) → HasAhead b n → m + k ≤ n → HasAhead (moved b m) k
HasAhead-moved {b} {n} m k h e = record {
  readable = record {
    stored = h.readable.stored;
    bit_in = omega arith;
    before_end = omega (arith, h.room, h.readable.bit_in);
  };
  clear = h.clear;
  room = omega (arith, h.room, h.readable.bit_in);
}

pub read_lem :
    {b : SpeexBits} {n : ℕ} (k : ℕ)
    → HasAhead b n
    → k ≤ n
    → k ≤ 32
    → unpack_unsigned b k ≡ some (field b.chars (cursor b) k, moved b k)
read_lem {b} {n} k h e l =
    let within : exhausted b k ≡ false = ground (arith, h.room, h.clear) in
    rw (unpack_unsigned_lem b k h.readable l, within) refl

pub advance_lem : {b : SpeexBits} {n : ℕ} (k : ℕ) → HasAhead b n → k ≤ n → advance b k ≡ moved b k
unfolding advance
advance_lem {b} {n} k h e = ground (arith, h.room, h.clear)

-- `b'` is `b` read on.
pub record Forward (b b' : SpeexBits) : Type 0 where
  pub readable : IsReadable b'
  pub same_bits : b'.nb_bits ≡ b.nb_bits
  pub not_back : cursor b ≤ cursor b'

pub Forward-trans : {b b₁ b₂ : SpeexBits} → Forward b b₁ → Forward b₁ b₂ → Forward b b₂
Forward-trans f g = record {
  readable = g.readable;
  same_bits = g.same_bits ∙ f.same_bits;
  not_back = omega (arith, f.not_back, g.not_back);
}

pub Forward-moved : {b : SpeexBits} {n : ℕ} (k : ℕ) → HasAhead b n → k ≤ n → Forward b (moved b k)
Forward-moved {b} {n} k h e = record {
  readable = (HasAhead-moved k 0 h (omega arith)).readable;
  same_bits = refl;
  not_back = omega (arith, cursor-moved b k h.readable.bit_in);
}

pub Forward-overflow : (b : SpeexBits) → IsReadable b → Forward b (record b { overflow = true })
Forward-overflow b v = record {
  readable = record { stored = v.stored; bit_in = v.bit_in; before_end = v.before_end };
  same_bits = refl;
  not_back = omega arith;
}

pub ahead_of : (b : SpeexBits) (n : ℕ) → IsReadable b → exhausted b n ≡ false → HasAhead b n
ahead_of b n v e = record { readable = v; clear = ground arith; room = ground arith }

-- Reading a number, within the stream or past its end.
pub Forward-same : (b : SpeexBits) → IsReadable b → Forward b b
Forward-same b v = record { readable = v; same_bits = refl; not_back = omega arith }

pub read_any :
    (b : SpeexBits) (k : ℕ)
    → IsReadable b
    → k ≤ 32
    → (d : ℕ) × (b' : SpeexBits) × ((unpack_unsigned b k ≡ some (d, b')) × Forward b b')
read_any b k v l = elim (Bool-cases (exhausted b k)) [
  | inl e ↦ (
    0,
    record b { overflow = true },
    (rw (unpack_unsigned_lem b k v l, e) refl, Forward-overflow b v),
  )
  | inr e ↦
      let h = ahead_of b k v e in
      (
        field b.chars (cursor b) k,
        moved b k,
        (read_lem k h (omega arith) l, Forward-moved k h (omega arith)),
      )
]

pub advance_any : (b : SpeexBits) (n : ℕ) → IsReadable b → Forward b (advance b n)
unfolding advance
advance_any b n v = elim (Bool-cases (exhausted b n)) [
  | inl e ↦ rw e (Forward-overflow b v)
  | inr e ↦ rw e (Forward-moved n (ahead_of b n v e) (omega arith))
]
