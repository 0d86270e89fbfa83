-- ===== src/Codec/Lsp/Spacing.antt =====
-- What the margin leaves alone, and the last subframe of a frame.
use native.Mathlib.Nat.{mul-div_right}
use securecom_voice.Base.{
  ℕ, zero, suc, ◌/◌, false, ◌+◌, ◌*◌, ◌^◌, ◌≤◌, ◌<◌, ◌≡◌, refl, ap, ap₂, ◌∙◌, some, List, [], ◌∷◌,
  length, arith, replicate,
}
use securecom_voice.Base.Int.{ℤ, pos, negsuc, ◌*ℤ◌, ◌+ℤ◌, ◌-ℤ◌, ◌≤ℤ◌, ltb_ℤ, int_laws}
use securecom_voice.Codec.Rms.{word16, shift_right, mult16_16, quotient}
use securecom_voice.Codec.Lsp.Coefficient.{word16-id}
use securecom_voice.Codec.Lsp.{zip_with}
use securecom_voice.Codec.Filters.{add32}
use securecom_voice.Codec.Lsp.Margin.{
  lower_last, away_from_lower, away_from_upper, keep_apart, apart_from_first, lsp_enforce_margin,
  lsp_interpolate, share, mult16_16_p14,
}

-- Pairs from `low` on, with the margin between each other and to the top.
abbrev pub IsSpaced : (m low : ℤ) → List ℤ → Type 0
IsSpaced m low [] = low ≤ℤ pos 25736
IsSpaced m low (x ∷ lsp) = (low ≤ℤ x) × IsSpaced m (x +ℤ m) lsp

not_below : (a b : ℤ) → b ≤ℤ a → ltb_ℤ a b ≡ false
not_below a b h = ground (arith, h)

lower_last-spaced :
    (m low : ℤ) (lsp : List ℤ) → IsSpaced m low lsp → lower_last (pos 25736 -ℤ m) lsp ≡ lsp
unfolding lower_last
lower_last-spaced m low [] h = refl
lower_last-spaced m low (x ∷ []) h =
    let within : ltb_ℤ (pos 25736 -ℤ m) x ≡ false =
      not_below (pos 25736 -ℤ m) x (omega (int_laws, h.1)) in
    rw within refl
lower_last-spaced m low (x ∷ y ∷ lsp) h =
    ap (λ l. x ∷ l) (lower_last-spaced m (x +ℤ m) (y ∷ lsp) h.1)

keep_apart-spaced :
    (m below : ℤ) (lsp : List ℤ) → IsSpaced m (below +ℤ m) lsp → keep_apart m below lsp ≡ lsp
unfolding keep_apart away_from_lower away_from_upper
keep_apart-spaced m below [] h = refl
keep_apart-spaced m below (x ∷ []) h = refl
keep_apart-spaced m below (x ∷ above ∷ lsp) h =
    let low : ltb_ℤ x (below +ℤ m) ≡ false = not_below x (below +ℤ m) h.0 in
    let high : ltb_ℤ (above -ℤ m) x ≡ false = not_below (above -ℤ m) x (omega (int_laws, h.1.0)) in
    rw (low, high) (ap (λ l. x ∷ l) (keep_apart-spaced m x (above ∷ lsp) h.1))

top_lem : (m : ℕ) → m ≤ 25736 → word16 (pos 25736 -ℤ pos m) ≡ pos 25736 -ℤ pos m
top_lem m l = word16-id (pos 25736 -ℤ pos m) (omega int_laws, omega int_laws)

-- Pairs that are spaced by the margin, from each other and at the ends, are left as they are.
pub spaced_kept :
    (m : ℕ) (x : ℤ) (lsp : List ℤ)
    → m ≤ 25736
    → IsSpaced (pos m) (pos m) (x ∷ lsp)
    → lsp_enforce_margin (x ∷ lsp) (pos m) ≡ some (x ∷ lsp)
unfolding lsp_enforce_margin apart_from_first
spaced_kept m x lsp l h =
    let low : ltb_ℤ x (pos m) ≡ false = not_below x (pos m) h.0 in
    rw (top_lem m l, low, lower_last-spaced (pos m) (pos m) (x ∷ lsp) h)
      (ap (λ rest. some (x ∷ rest)) (keep_apart-spaced (pos m) x lsp h.1))

zero_times : (a : ℤ) → pos 0 *ℤ a ≡ pos 0
unfolding ◌*ℤ◌
zero_times a = ground arith

share_last : (k : ℕ) → share k (suc k) ≡ pos 16384
unfolding share quotient word16
share_last k =
    let whole : (1 + k) * 2 ^ 14 / suc k ≡ 16384 =
      ap (λ j. j * 2 ^ 14 / suc k) (omega arith)
      ∙ mul-div_right (2 ^ 14) {m = suc k} (omega arith) in
    ap (λ q. word16 (pos q)) whole

none_of_old : (old : ℤ) → mult16_16_p14 (pos 0) old ≡ pos 0
unfolding mult16_16_p14 mult16_16 add32 ◌+ℤ◌ shift_right word16
none_of_old old = rw (zero_times (word16 old)) refl

all_of_new : (n : ℕ) → n ≤ 25736 → mult16_16_p14 (pos 16384) (pos n) ≡ pos n
unfolding mult16_16_p14 mult16_16 add32 ◌+ℤ◌ ◌*ℤ◌ shift_right word16
all_of_new n l = ground arith

-- The loop on pairs that all have the value `c` does not separate them.
raised : (c : ℕ) → c ≤ 25720 → away_from_lower (pos 16) (pos c) (pos c) ≡ pos (c + 16)
unfolding away_from_lower ◌+ℤ◌ word16
raised c u = ground arith

lowered_back :
    (c d : ℕ)
    → c ≡ 2 * d
    → 16 ≤ c
    → c ≤ 25720
    → away_from_upper (pos 16) (pos (c + 16)) (pos c) ≡ pos c
unfolding away_from_upper ◌+ℤ◌ ◌-ℤ◌ shift_right word16
lowered_back c d e l u = ground arith

even_kept :
    (c d : ℕ)
    → c ≡ 2 * d
    → 16 ≤ c
    → c ≤ 25720
    → away_from_upper (pos 16) (away_from_lower (pos 16) (pos c) (pos c)) (pos c) ≡ pos c
even_kept c d e l u =
    ap (λ x. away_from_upper (pos 16) x (pos c)) (raised c u) ∙ lowered_back c d e l u

keep_apart-coincident :
    (n c d : ℕ)
    → c ≡ 2 * d
    → 16 ≤ c
    → c ≤ 25720
    → keep_apart (pos 16) (pos c) (replicate n (pos c)) ≡ replicate n (pos c)
unfolding keep_apart
keep_apart-coincident zero c d e l u = refl
keep_apart-coincident (suc zero) c d e l u = refl
keep_apart-coincident (suc (suc n)) c d e l u =
    rw (even_kept c d e l u, keep_apart-coincident (suc n) c d e l u) refl

lower_last-coincident : (m2 v : ℤ) (n : ℕ) → v ≤ℤ m2 → lower_last m2 (replicate n v) ≡ replicate n v
unfolding lower_last
lower_last-coincident m2 v zero h = refl
lower_last-coincident m2 v (suc zero) h = rw (not_below m2 v h) refl
lower_last-coincident m2 v (suc (suc n)) h = ap (λ l. v ∷ l) (lower_last-coincident m2 v (suc n) h)

-- Coincident pairs of an even value, away from the ends, stay coincident, however many there are:
-- the margin of 16 is not enforced between them.
pub coincident_kept :
    (n d : ℕ)
    → 16 ≤ 2 * d
    → 2 * d ≤ 25720
    → lsp_enforce_margin (replicate (suc n) (pos (2 * d))) (pos 16)
      ≡ some (replicate (suc n) (pos (2 * d)))
unfolding lsp_enforce_margin apart_from_first
coincident_kept n d l u =
    let first : ltb_ℤ (pos (2 * d)) (pos 16) ≡ false =
      not_below (pos (2 * d)) (pos 16) (omega arith) in
    rw
      (
        top_lem 16 (omega arith),
        first,
        lower_last-coincident (pos 25736 -ℤ pos 16) (pos (2 * d)) (suc n) (omega int_laws),
      )
      (ap (λ rest. some (pos (2 * d) ∷ rest))
        (keep_apart-coincident n (2 * d) d refl (omega arith) (omega arith)))

spaced-top : (m low : ℤ) (lsp : List ℤ) → pos 0 ≤ℤ m → IsSpaced m low lsp → low ≤ℤ pos 25736
spaced-top m low [] q h = h
spaced-top m low (x ∷ lsp) q h = omega (int_laws, h.0, spaced-top m (x +ℤ m) lsp q h.1)

zip_with-new :
    (f : ℤ → ℤ → ℤ)
    → ((o : ℤ) (n : ℕ) → n ≤ 25736 → f o (pos n) ≡ pos n)
    → (m low : ℤ) (old new : List ℤ) → length old ≡ length new
    → pos 0 ≤ℤ low
    → pos 0 ≤ℤ m
    → IsSpaced m low new
    → zip_with f old new ≡ new
unfolding zip_with
zip_with-new f same m low [] [] e p q h = refl
zip_with-new f same m low [] (x ∷ new) e p q h = absurd (omega arith)
zip_with-new f same m low (o ∷ old) [] e p q h = absurd (omega arith)
zip_with-new f same m low (o ∷ old) (negsuc x ∷ new) e p q h = absurd (omega (arith, h.0))
zip_with-new f same m low (o ∷ old) (pos x ∷ new) e p q h =
    let top = spaced-top m (pos x +ℤ m) new q h.1 in
    ap₂ (λ v vs. v ∷ vs) (same o x (omega (int_laws, top)))
      (zip_with-new f same m (pos x +ℤ m) old new (omega arith) (omega int_laws) q h.1)

abbrev only_new : ℤ → ℤ → ℤ
only_new old new = word16 (mult16_16_p14 (pos 0) old +ℤ mult16_16_p14 (pos 16384) new)

word16-sum : (n : ℕ) → n ≤ 25736 → word16 (pos 0 +ℤ pos n) ≡ pos n
unfolding word16 ◌+ℤ◌
word16-sum n l = ground arith

only_new_lem : (o : ℤ) (n : ℕ) → n ≤ 25736 → only_new o (pos n) ≡ pos n
only_new_lem o n l = rw (none_of_old o, all_of_new n l) (word16-sum n l)

lsp_interpolate-last :
    (m : ℤ) (old new : List ℤ) (k : ℕ)
    → length old ≡ length new
    → pos 0 ≤ℤ m
    → IsSpaced m m new
    → lsp_interpolate old new k (suc k) ≡ new
unfolding lsp_interpolate ◌-ℤ◌ ◌+ℤ◌ word16
lsp_interpolate-last m old new k e q h =
    rw (share_last k) (zip_with-new only_new only_new_lem m m old new e q q h)

-- In the last subframe of a frame the interpolated pairs with the margin enforced are the frame's
-- own, where these are spaced by the margin, whatever the pairs of the frame before were.
pub last_subframe :
    (m k : ℕ) (old new : List ℤ)
    → m ≤ 25736
    → 0 < length new
    → length old ≡ length new
    → IsSpaced (pos m) (pos m) new
    → lsp_enforce_margin (lsp_interpolate old new k (suc k)) (pos m) ≡ some new
last_subframe m k old [] l p e h = absurd (omega arith)
last_subframe m k old (x ∷ new) l p e h =
    ap (λ lsp. lsp_enforce_margin lsp (pos m))
      (lsp_interpolate-last (pos m) old (x ∷ new) k e (omega arith) h)
    ∙ spaced_kept m x new l h
