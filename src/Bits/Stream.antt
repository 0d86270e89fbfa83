-- ===== src/Bits/Stream.antt =====
-- A frame as the codec writes it: a list of numbers with their widths, packed one after the other
-- and read back in the same order.
use mathlib.Core.List.{head-eq_of_cons-eq, tail-eq_of_cons-eq}
use mathlib.Core.Option.{none-ne-some, some-injective}
use securecom_voice.Base.{
  inl, inr, Option-cases, ap, ap₂, ℕ, ◌+◌, ◌*◌, ◌^◌, ◌≤◌, ◌<◌, ◌≡◌, refl, ◌∙◌, false, Option, some,
  List, [], ◌∷◌, map, arith, ◌>>=◌,
}
use native.Mathlib.Nat.{mod-eq_of_lt, lt_of_lt_of_le, pow-le-pow_right}
use securecom_voice.Memory.{Allocator}
use securecom_voice.Bits.{SpeexBits, cursor, bit_at}
use securecom_voice.Bits.Field.{field, field_ext}
use securecom_voice.Bits.Pack.{pack}
use securecom_voice.Bits.Pack.Step.{IsOpen}
use securecom_voice.Bits.Pack.Laws.{Written, pack_fits}
use securecom_voice.Bits.Unpack.{unpack_unsigned}
use securecom_voice.Bits.Unpack.Laws.{IsReadable, moved, exhausted, unpack_unsigned_lem}

abbrev pub Frame : Type 0
Frame = List (ℕ × ℕ)

abbrev pub widths : Frame → List ℕ
widths = map (λ f. f.1)

abbrev pub values : Frame → List ℕ
values = map (λ f. f.0)

abbrev pub size : Frame → ℕ
size [] = 0
size ((d, n) ∷ fs) = n + size fs

-- Each number fits its width, which is at most that of an `unsigned int`.
abbrev pub IsFrame : Frame → Type 0
IsFrame [] = Unit
IsFrame ((d, n) ∷ fs) = (d < 2 ^ n) × (n ≤ 32) × IsFrame fs

unfoldable pub pack_all : Allocator → SpeexBits → Frame → Option SpeexBits
pack_all a b [] = some b
pack_all a b ((d, n) ∷ fs) = do b' ← pack a b d n; pack_all a b' fs

unfoldable pub unpack_all : SpeexBits → List ℕ → Option (List ℕ × SpeexBits)
unpack_all b [] = some ([], b)
unpack_all b (n ∷ ns) = do
  (d, b') ← unpack_unsigned b n
  (ds, b'') ← unpack_all b' ns
  some (d ∷ ds, b'')

-- The bits of the frame stand in the array from bit `p` on.
abbrev pub Holds : List ℕ → ℕ → Frame → Type 0
Holds xs p [] = Unit
Holds xs p ((d, n) ∷ fs) = (field xs p n ≡ d) × Holds xs (p + n) fs

pub Holds-ext :
    (xs ys : List ℕ) (p : ℕ) (fs : Frame)
    → ((i : ℕ) → i < p + size fs → bit_at xs i ≡ bit_at ys i)
    → Holds ys p fs
    → Holds xs p fs
Holds-ext xs ys p [] e h = tt
Holds-ext xs ys p ((d, n) ∷ fs) e h = (
  field_ext xs ys p n (λ i l u. e i (omega arith)) ∙ h.0,
  Holds-ext xs ys (p + n) fs (λ i u. e i (omega arith)) h.1,
)

-- `b'` is `b` with a frame behind it.
pub record Framed (fs : Frame) (b b' : SpeexBits) : Type 0 where
  pub opened : IsOpen b'
  pub moved_by : cursor b' ≡ cursor b + size fs
  pub holds : Holds b'.chars (cursor b) fs
  pub kept : (i : ℕ) → i < cursor b → bit_at b'.chars i ≡ bit_at b.chars i
  pub same_size : b'.buf_size ≡ b.buf_size
  pub same_overflow : b'.overflow ≡ b.overflow

Framed-cons :
    {d n : ℕ} {fs : Frame} {b b₁ b₂ : SpeexBits}
    → Written n d b b₁
    → b₁.buf_size ≡ b.buf_size
    → d < 2 ^ n
    → Framed fs b₁ b₂
    → Framed ((d, n) ∷ fs) b b₂
Framed-cons {d} {n} {fs} {b} {b₁} {b₂} w z h f = record {
  opened = f.opened;
  moved_by = omega (arith, f.moved_by, w.moved);
  holds = (head, rw (← w.moved) f.holds);
  kept = λ i u. f.kept i (omega (arith, w.moved)) ∙ w.kept i u;
  same_size = f.same_size ∙ z;
  same_overflow = f.same_overflow ∙ w.same_overflow;
}
  where
    head : field b₂.chars (cursor b) n ≡ d
    head =
        field_ext b₂.chars b₁.chars (cursor b) n (λ i l u. f.kept i (omega (arith, w.moved)))
        ∙ w.wrote
        ∙ mod-eq_of_lt h

word : {d n : ℕ} → d < 2 ^ n → n ≤ 32 → d < 2 ^ 32
word h k = lt_of_lt_of_le h (pow-le-pow_right (omega arith) k)

-- A frame that fits is packed whole behind what the stream holds.
pub pack_all_lem :
    (a : Allocator) (b : SpeexBits) (fs : Frame)
    → IsOpen b
    → IsFrame fs
    → cursor b + size fs < b.buf_size * 8
    → (b' : SpeexBits) × (pack_all a b fs ≡ some b') × Framed fs b b'
unfolding pack_all
pack_all_lem a b [] v g fits = (
  b,
  refl,
  record {
    opened = v;
    moved_by = omega arith;
    holds = tt;
    kept = λ i u. refl;
    same_size = refl;
    same_overflow = refl;
  },
)
pack_all_lem a b ((d, n) ∷ fs) v g fits =
    let (b₁, e₁, w, z) = pack_fits a b d n v (word g.0 g.1) (omega arith) in
    let (b₂, e₂, f) = pack_all_lem a b₁ fs w.opened g.2 (omega (arith, w.moved, z)) in
    (b₂, rw e₁ e₂, Framed-cons w z g.0 f)

-- Reading with the frame's widths gives the frame's numbers.
pub unpack_all_lem :
    (b : SpeexBits) (fs : Frame)
    → IsReadable b
    → b.overflow ≡ false
    → IsFrame fs
    → Holds b.chars (cursor b) fs
    → cursor b + size fs ≤ b.nb_bits
    → (b' : SpeexBits) × (unpack_all b (widths fs) ≡ some (values fs, b'))
      × (cursor b' ≡ cursor b + size fs)
      × (b'.overflow ≡ false)
unfolding unpack_all
unpack_all_lem b [] v o g h fits = (b, refl, omega arith, o)
unpack_all_lem b ((d, n) ∷ fs) v o g h fits =
    let next : cursor (moved b n) ≡ cursor b + n = omega (arith, v.bit_in) in
    let within : exhausted b n ≡ false = ground arith in
    let (b', e, c, o') =
      unpack_all_lem (moved b n) fs (omega (arith, v.stored, v.bit_in)) o g.2 (rw next h.1)
        (omega (arith, next)) in
    (b', rw (unpack_unsigned_lem b n v g.1, within, e, h.0), omega (arith, c, next), o')

-- The first number of a frame, and the rest.
pub pack_all-cons :
    (a : Allocator) (b : SpeexBits) (d n : ℕ) (fs : Frame) (b₂ : SpeexBits)
    → pack_all a b ((d, n) ∷ fs) ≡ some b₂
    → (b₁ : SpeexBits) × ((pack a b d n ≡ some b₁) × (pack_all a b₁ fs ≡ some b₂))
unfolding pack_all
pack_all-cons a b d n fs b₂ e = elim (Option-cases (pack a b d n)) [
  | inl missing ↦ absurd (none-ne-some b₂ (rw missing at e))
  | inr (b₁, f) ↦ (b₁, (f, rw f at e))
]

pub pack_all-nil : (a : Allocator) (b b' : SpeexBits) → pack_all a b [] ≡ some b' → b ≡ b'
unfolding pack_all
pack_all-nil a b b' e = some-injective _ _ e

pub unpack_all-cons :
    (b : SpeexBits) (n : ℕ) (ns : List ℕ) (d : ℕ) (ds : List ℕ) (b₂ : SpeexBits)
    → unpack_all b (n ∷ ns) ≡ some (d ∷ ds, b₂)
    → (b₁ : SpeexBits) × ((unpack_unsigned b n ≡ some (d, b₁)) × (unpack_all b₁ ns ≡ some (ds, b₂)))
unfolding unpack_all
unpack_all-cons b n ns d ds b₂ e = elim (Option-cases (unpack_unsigned b n)) [
  | inl missing ↦ absurd (none-ne-some (d ∷ ds, b₂) (rw missing at e))
  | inr ((d', b₁), f) ↦ elim (Option-cases (unpack_all b₁ ns)) [
    | inl missing ↦ absurd (none-ne-some (d ∷ ds, b₂) (rw (f, missing) at e))
    | inr ((ds', b'), g) ↦
        let same = some-injective (d' ∷ ds', b') (d ∷ ds, b₂) (rw (f, g) at e) in
        let list = ap (λ p. p.0) same in
        (
          b₁,
          (
            f ∙ ap (λ x. some (x, b₁)) (head-eq_of_cons-eq list),
            g ∙ ap₂ (λ xs c. some (xs, c)) (tail-eq_of_cons-eq list) (ap (λ p. p.1) same),
          ),
        )
  ]
]
