-- ===== src/Memory.antt =====
-- Arrays of a known size, and the allocator of jni/os_support.h: `speex_alloc` and `speex_realloc`
-- call the C library, which is a parameter here.
pub mod Blocks
use securecom_voice.Base.{
  ℕ, zero, suc, ◌+◌, ◌≤◌, ◌<◌, ◌≡◌, Option, none, some, List, [], ◌++◌, length, get_elem?, get_or,
  set, take, drop, ltb, leb, if◌then◌else◌, ◌>>=◌,
}

-- `xs[i] = v`: a write outside the array is `none`.
unfoldable pub store : List ℕ → ℕ → ℕ → Option (List ℕ)
store xs i v = if ltb i (length xs) then some (set xs i v) else none

-- `for (i = 0; i < n; i++) dst[pos + i] = src[i]`, at round `i` with `left` rounds to go.
unfoldable pub copy_in : ℕ → ℕ → ℕ → List ℕ → List ℕ → Option (List ℕ)
copy_in zero i pos src dst = some dst
copy_in (suc left) i pos src dst = do
  c ← get_elem? src i
  dst' ← store dst (pos + i) c
  copy_in left (i + 1) pos src dst'

-- `for (i = 0; i < n; i++) out[i] = xs[i]`: what is written to `out`.
unfoldable pub copy_out : ℕ → List ℕ → Option (List ℕ)
copy_out n xs = if leb n (length xs) then some (take n xs) else none

-- `memmove(xs, xs + from, n)`.
unfoldable pub move_down : ℕ → ℕ → List ℕ → Option (List ℕ)
move_down from n xs =
    if leb (from + n) (length xs) then some (take n (drop from xs) ++ drop n xs) else none

-- `none` is the null pointer.
pub record Allocator : Type 0 where
  pub calloc : ℕ → Option (List ℕ)
  pub realloc : List ℕ → ℕ → Option (List ℕ)

abbrev pub IsBytes : List ℕ → Type 0
IsBytes xs = (i : ℕ) → get_or xs i 0 < 256

-- What C says of the two calls: the block has the size asked for, and the bytes that fit are kept.
pub record IsAllocator (a : Allocator) : Type 0 where
  pub calloc_size : (n : ℕ) (xs : List ℕ) → a.calloc n ≡ some xs → length xs ≡ n
  pub calloc_zero : (n : ℕ) (xs : List ℕ) → a.calloc n ≡ some xs → (i : ℕ) → get_or xs i 0 ≡ 0
  pub realloc_size : (xs : List ℕ) (n : ℕ) (ys : List ℕ) → a.realloc xs n ≡ some ys → length ys ≡ n
  pub realloc_keeps :
      (xs : List ℕ) (n : ℕ) (ys : List ℕ)
      → a.realloc xs n ≡ some ys
      → (i : ℕ) → i < length xs
      → i < n
      → get_or ys i 0 ≡ get_or xs i 0
  pub realloc_bytes :
      (xs : List ℕ) (n : ℕ) (ys : List ℕ) → a.realloc xs n ≡ some ys → IsBytes xs → IsBytes ys
