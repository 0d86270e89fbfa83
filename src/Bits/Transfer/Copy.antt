-- ===== src/Bits/Transfer/Copy.antt =====
-- The copying loops on arrays: they stay inside where the sizes say so, and what they copy.
use securecom_voice.Base.{
  ℕ, zero, suc, ◌+◌, ◌*◌, ◌/◌, ◌%◌, ◌≤◌, ◌<◌, ◌≡◌, refl, ap, ◌∙◌, none, some, inl, inr,
  Option-cases, Bool-cases, List, [], ◌∷◌, arith, length, get_or, get_elem?, set, take, length-set,
  length-take, get_elem?-eq-get_or, get_or-set_self, get_or-set_ne, ltb,
}
use securecom_voice.Base.Byte.{byte_bit}
use securecom_voice.Bits.{bit_at}
use securecom_voice.Memory.{store, copy_in, copy_out}

-- `ys` is `dst` with `n` elements of `src` from `i` on put at `pos + i`.
pub record Copied (n i pos : ℕ) (src dst ys : List ℕ) : Type 0 where
  pub same_length : length ys ≡ length dst
  pub inside : (j : ℕ) → i ≤ j → j < i + n → get_or ys (pos + j) 0 ≡ get_or src j 0
  pub before : (j : ℕ) → j < pos + i → get_or ys j 0 ≡ get_or dst j 0
  pub behind : (j : ℕ) → pos + i + n ≤ j → get_or ys j 0 ≡ get_or dst j 0

pub copy_in_lem :
    (n i pos : ℕ) (src dst : List ℕ)
    → i + n ≤ length src
    → pos + i + n ≤ length dst
    → (ys : List ℕ) × (copy_in n i pos src dst ≡ some ys) × Copied n i pos src dst ys
unfolding copy_in store
copy_in_lem zero i pos src dst hs hd = (
  dst,
  refl,
  record {
    same_length = refl;
    inside = λ j l u. absurd (omega arith);
    before = λ j u. refl;
    behind = λ j l. refl;
  },
)
copy_in_lem (suc n) i pos src dst hs hd =
    let dst' = set dst (pos + i) (get_or src i 0) in
    let same : length dst' ≡ length dst = length-set dst (pos + i) (get_or src i 0) in
    let (ys, e, c) = copy_in_lem n (i + 1) pos src dst' (omega arith) (omega (arith, same)) in
    (
      ys,
      ground (arith, get_elem?-eq-get_or src i 0, e),
      record {
        same_length = c.same_length ∙ same;
        inside = λ j l u. ground (
          arith,
          c.inside j,
          c.before (pos + i),
          get_or-set_self dst (pos + i) (get_or src i 0) 0,
        );
        before = λ j u.
            c.before j (omega arith)
            ∙ get_or-set_ne dst (pos + i) j (get_or src i 0) 0 (omega arith);
        behind = λ j l.
            c.behind j (omega arith)
            ∙ get_or-set_ne dst (pos + i) j (get_or src i 0) 0 (omega arith);
      },
    )

pub get_or-take : (n : ℕ) (xs : List ℕ) (i : ℕ) → i < n → get_or (take n xs) i 0 ≡ get_or xs i 0
get_or-take zero xs i h = elim h [ ]
get_or-take (suc n) [] i h = refl
get_or-take (suc n) (x ∷ xs) zero h = refl
get_or-take (suc n) (x ∷ xs) (suc i) h = get_or-take n xs i (omega arith)

pub copy_out_lem :
    (n : ℕ) (xs : List ℕ)
    → n ≤ length xs
    → (copy_out n xs ≡ some (take n xs)) × (length (take n xs) ≡ n)
unfolding copy_out
copy_out_lem n xs h = (ground arith, omega (arith, length-take n xs))

-- A copy that does not fit runs over the end, of one array or of the other.
pub copy_in_overruns :
    (n i pos : ℕ) (src dst : List ℕ)
    → pos + i ≤ length dst
    → length dst < pos + i + n
    → copy_in n i pos src dst ≡ none
unfolding copy_in store
copy_in_overruns zero i pos src dst h k = absurd (omega arith)
copy_in_overruns (suc n) i pos src dst h k = elim (Option-cases (get_elem? src i)) [
  | inl e ↦ rw e
  | inr (c, e) ↦ elim (Bool-cases (ltb (pos + i) (length dst))) [
    | inl t ↦
        rw (e, t)
          (copy_in_overruns n (i + 1) pos src (set dst (pos + i) c)
            (ground (arith, length-set dst (pos + i) c))
            (omega (arith, length-set dst (pos + i) c)))
    | inr t ↦ rw (e, t)
  ]
]

pub Copied-start :
    {n : ℕ} {src dst ys : List ℕ}
    → Copied n 0 0 src dst ys
    → (i : ℕ) → i < n * 8
    → bit_at ys i ≡ bit_at src i
Copied-start {ys = ys} c i u =
    ap (λ x. byte_bit x (i % 8))
      (ap (λ q. get_or ys q 0) (omega arith) ∙ c.inside (i / 8) (omega arith) (omega arith))

pub bit_at-take : (n : ℕ) (xs : List ℕ) (i : ℕ) → i < n * 8 → bit_at (take n xs) i ≡ bit_at xs i
bit_at-take n xs i u = ap (λ x. byte_bit x (i % 8)) (get_or-take n xs (i / 8) (omega arith))
