-- ===== src/Memory/Blocks.antt =====
-- An allocator that always has a block: it shows that what is asked of one can be had.
use securecom_voice.Base.{
  ℕ, zero, suc, ◌<◌, ◌≡◌, refl, ap, subst, some, List, [], ◌∷◌, arith, length, get_or,
}
use mathlib.Core.Option.{some-injective}
use securecom_voice.Memory.{Allocator, IsAllocator, IsBytes}

-- A block of `n` bytes that starts with those of `xs` that fit.
abbrev pub resized : List ℕ → ℕ → List ℕ
resized xs zero = []
resized [] (suc n) = 0 ∷ resized [] n
resized (x ∷ xs) (suc n) = x ∷ resized xs n

length-resized : (xs : List ℕ) (n : ℕ) → length (resized xs n) ≡ n
length-resized xs zero = refl
length-resized [] (suc n) = ap suc (length-resized [] n)
length-resized (x ∷ xs) (suc n) = ap suc (length-resized xs n)

get_or-resized :
    (xs : List ℕ) (n i : ℕ) → i < length xs → i < n → get_or (resized xs n) i 0 ≡ get_or xs i 0
get_or-resized xs zero i h k = elim k [ ]
get_or-resized [] (suc n) i h k = elim h [ ]
get_or-resized (x ∷ xs) (suc n) zero h k = refl
get_or-resized (x ∷ xs) (suc n) (suc i) h k = get_or-resized xs n i (omega arith) (omega arith)

zeros : (n i : ℕ) → get_or (resized [] n) i 0 ≡ 0
zeros zero i = refl
zeros (suc n) zero = refl
zeros (suc n) (suc i) = zeros n i

resized-IsBytes : (xs : List ℕ) (n : ℕ) → IsBytes xs → IsBytes (resized xs n)
resized-IsBytes xs zero h i = omega arith
resized-IsBytes [] (suc n) h zero = omega arith
resized-IsBytes [] (suc n) h (suc i) = resized-IsBytes [] n h i
resized-IsBytes (x ∷ xs) (suc n) h zero = h 0
resized-IsBytes (x ∷ xs) (suc n) h (suc i) = resized-IsBytes xs n (λ k. h (suc k)) i

abbrev pub blocks : Allocator
blocks = record { calloc = λ n. some (resized [] n); realloc = λ xs n. some (resized xs n) }

pub blocks-IsAllocator : IsAllocator blocks
blocks-IsAllocator = record {
  calloc_size = λ n xs e. subst (λ ys. length ys ≡ n) (some-injective _ _ e) (length-resized [] n);
  calloc_zero = λ n xs e i. subst (λ ys. get_or ys i 0 ≡ 0) (some-injective _ _ e) (zeros n i);
  realloc_size =
      λ xs n ys e. subst (λ ys. length ys ≡ n) (some-injective _ _ e) (length-resized xs n);
  realloc_keeps = λ xs n ys e i h k.
      subst (λ ys. get_or ys i 0 ≡ get_or xs i 0) (some-injective _ _ e)
        (get_or-resized xs n i h k);
  realloc_bytes =
      λ xs n ys e h. subst (λ ys. IsBytes ys) (some-injective _ _ e) (resized-IsBytes xs n h);
}
