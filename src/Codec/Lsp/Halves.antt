-- ===== src/Codec/Lsp/Halves.antt =====
-- A part of the array through the stages.
use securecom_voice.Base.{
  ℕ, zero, suc, ◌≡◌, refl, sym, ap, ap₂, ◌∙◌, List, [], ◌∷◌, ◌++◌, map, arith, length, take, drop,
}
use securecom_voice.Base.Int.{ℤ, pos, negsuc, ◌+ℤ◌, ◌≤ℤ◌}
use securecom_voice.Codec.Rms.{word16}
use securecom_voice.Codec.Lsp.{zip_with, shift_left, sub16, twice, pshr16, remainder, raise}
use securecom_voice.Codec.Lsp.Coefficient.{IsChar, decoded, coefficient_nb}

abbrev pub AreChars : List ℤ → Type 0
AreChars [] = Unit
AreChars (c ∷ cs) = IsChar c × AreChars cs

-- Pairs that grow, from `below` on, and stay within half a turn.
abbrev pub IsOrdered : ℤ → List ℤ → Type 0
IsOrdered below [] = below ≤ℤ pos 25736
IsOrdered below (l ∷ ls) = (below ≤ℤ l) × IsOrdered l ls

-- Pairs, their numbers, and the entry that is nearest: the first stage leaves no more than 5000.
abbrev pub AreClose : List ℤ → List ℤ → List ℤ → Type 0
AreClose [] [] [] = Unit
AreClose (l ∷ ls) (n ∷ ns) (a ∷ as') =
    (pos 0 ≤ℤ l)
    × (l ≤ℤ pos 25736)
    × (pos 0 ≤ℤ n)
    × (n ≤ℤ pos 20480)
    × IsChar a
    × (negsuc 4999 ≤ℤ sub16 (sub16 l n) (shift_left 5 a))
    × (sub16 (sub16 l n) (shift_left 5 a) ≤ℤ pos 5000)
    × AreClose ls ns as'
AreClose ls ns as' = ⊥

-- The stages of the encoder on a part, from what the first left of it.
abbrev pub kept : List ℤ → List ℤ → List ℤ → List ℤ → List ℤ
kept ls q bs cs =
    zip_with sub16 ls (map (pshr16 2) (remainder (map twice (remainder (map twice q) bs)) cs))

-- With the second entry added by `g`, where `g` loses nothing, the decoder makes of the entries what
-- the encoder kept.
pub kept_lem :
    (g : ℤ → ℤ → ℤ)
    → ((n a b c : ℤ)
        → IsChar a
        → IsChar b
        → IsChar c
        → pos 0 ≤ℤ n
        → n ≤ℤ pos 20480
        → word16 (g (word16 (n +ℤ shift_left 5 a)) b +ℤ shift_left 3 c) ≡ decoded n a b c)
    → (ls ns as' bs cs : List ℤ) → AreClose ls ns as'
    → AreChars bs
    → AreChars cs
    → length bs ≡ length ls
    → length cs ≡ length ls
    → kept ls (remainder (zip_with sub16 ls ns) as') bs cs
      ≡ raise 3 (zip_with g (raise 5 ns as') bs) cs
unfolding zip_with
kept_lem g ok [] [] [] bs cs h hb hc e f = refl
kept_lem g ok (l ∷ ls) (n ∷ ns) (a ∷ as') [] cs h hb hc e f = absurd (omega (arith, e))
kept_lem g ok (l ∷ ls) (n ∷ ns) (a ∷ as') (b ∷ bs) [] h hb hc e f = absurd (omega (arith, f))
kept_lem g ok (l ∷ ls) (n ∷ ns) (a ∷ as') (b ∷ bs) (c ∷ cs) (l0, l1, n0, n1, ha, r0, r1, rest)
      (hb, hbs) (hc, hcs) e f =
    ap₂ (λ x xs. x ∷ xs)
      (coefficient_nb l n a b c ha hb hc l0 l1 n0 n1 r0 r1 ∙ sym (ok n a b c ha hb hc n0 n1))
      (kept_lem g ok ls ns as' bs cs rest hbs hcs (omega (arith, e)) (omega (arith, f)))
kept_lem g ok [] (n ∷ ns) as' bs cs h hb hc e f = elim h [ ]
kept_lem g ok [] [] (a ∷ as') bs cs h hb hc e f = elim h [ ]
kept_lem g ok (l ∷ ls) [] as' bs cs h hb hc e f = elim h [ ]
kept_lem g ok (l ∷ ls) (n ∷ ns) [] bs cs h hb hc e f = elim h [ ]

pub take-zip_with :
    (g : ℤ → ℤ → ℤ) (k : ℕ) (xs ys : List ℤ)
    → take k (zip_with g xs ys) ≡ zip_with g (take k xs) (take k ys)
unfolding zip_with
take-zip_with g zero xs ys = refl
take-zip_with g (suc k) [] ys = refl
take-zip_with g (suc k) (x ∷ xs) [] = refl
take-zip_with g (suc k) (x ∷ xs) (y ∷ ys) = ap (λ zs. g x y ∷ zs) (take-zip_with g k xs ys)

zip_with-nil : (g : ℤ → ℤ → ℤ) (xs : List ℤ) → zip_with g xs [] ≡ []
unfolding zip_with
zip_with-nil g [] = refl
zip_with-nil g (x ∷ xs) = refl

pub drop-zip_with :
    (g : ℤ → ℤ → ℤ) (k : ℕ) (xs ys : List ℤ)
    → drop k (zip_with g xs ys) ≡ zip_with g (drop k xs) (drop k ys)
unfolding zip_with
drop-zip_with g zero xs ys = refl
drop-zip_with g (suc k) [] ys = refl
drop-zip_with g (suc k) (x ∷ xs) [] = sym (zip_with-nil g (drop k xs))
drop-zip_with g (suc k) (x ∷ xs) (y ∷ ys) = drop-zip_with g k xs ys

pub take-map : (g : ℤ → ℤ) (k : ℕ) (xs : List ℤ) → take k (map g xs) ≡ map g (take k xs)
take-map g zero xs = refl
take-map g (suc k) [] = refl
take-map g (suc k) (x ∷ xs) = ap (λ zs. g x ∷ zs) (take-map g k xs)

pub drop-map : (g : ℤ → ℤ) (k : ℕ) (xs : List ℤ) → drop k (map g xs) ≡ map g (drop k xs)
drop-map g zero xs = refl
drop-map g (suc k) [] = refl
drop-map g (suc k) (x ∷ xs) = drop-map g k xs

pub length-zip_with :
    (g : ℤ → ℤ → ℤ) (xs ys : List ℤ) → length xs ≡ length ys → length (zip_with g xs ys) ≡ length xs
unfolding zip_with
length-zip_with g [] ys e = refl
length-zip_with g (x ∷ xs) [] e = absurd (omega (arith, e))
length-zip_with g (x ∷ xs) (y ∷ ys) e = ap suc (length-zip_with g xs ys (omega (arith, e)))

pub zip_with-append :
    (g : ℤ → ℤ → ℤ) (xs ys us vs : List ℤ)
    → length xs ≡ length us
    → zip_with g (xs ++ ys) (us ++ vs) ≡ zip_with g xs us ++ zip_with g ys vs
unfolding zip_with
zip_with-append g [] ys [] vs e = refl
zip_with-append g [] ys (u ∷ us) vs e = absurd (omega (arith, e))
zip_with-append g (x ∷ xs) ys [] vs e = absurd (omega (arith, e))
zip_with-append g (x ∷ xs) ys (u ∷ us) vs e =
    ap (λ zs. g x u ∷ zs) (zip_with-append g xs ys us vs (omega (arith, e)))

pub map-append : (g : ℤ → ℤ) (xs ys : List ℤ) → map g (xs ++ ys) ≡ map g xs ++ map g ys
map-append g [] ys = refl
map-append g (x ∷ xs) ys = ap (λ zs. g x ∷ zs) (map-append g xs ys)

pub take-AreChars : (k : ℕ) (xs : List ℤ) → AreChars xs → AreChars (take k xs)
take-AreChars zero xs h = tt
take-AreChars (suc k) [] h = tt
take-AreChars (suc k) (x ∷ xs) (h, hs) = (h, take-AreChars k xs hs)

pub drop-AreChars : (k : ℕ) (xs : List ℤ) → AreChars xs → AreChars (drop k xs)
drop-AreChars zero xs h = h
drop-AreChars (suc k) [] h = tt
drop-AreChars (suc k) (x ∷ xs) (h, hs) = drop-AreChars k xs hs
