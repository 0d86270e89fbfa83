-- ===== src/Codec/Lsp/Coefficient.antt =====
-- One line spectral pair through the quantizer and through its inverse.
use securecom_voice.Base.{◌*◌, ◌≡◌, refl, ap, ◌∙◌, arith}
use securecom_voice.Base.Int.{
  ℤ, pos, negsuc, ◌+ℤ◌, ◌-ℤ◌, ◌≤ℤ◌, pos_part, neg_part, +ℤ_parts, -ℤ_parts, eq_of_parts,
}
use securecom_voice.Codec.Rms.{word16, shift_right, add16}
use securecom_voice.Codec.Lsp.{shift_left, sub16, twice, pshr16}

abbrev pub IsWord16 : ℤ → Type 0
IsWord16 z = (negsuc 32767 ≤ℤ z) × (z ≤ℤ pos 32767)

pub word16-id : (z : ℤ) → IsWord16 z → word16 z ≡ z
unfolding word16
word16-id z h = ground (arith, h.0, h.1)

-- The parts of a shifted number.
shift_left_parts3 :
    (c : ℤ)
    → (pos_part (shift_left 3 c) ≡ pos_part c * 8) × (neg_part (shift_left 3 c) ≡ neg_part c * 8)
unfolding shift_left
shift_left_parts3 (pos n) = (refl, omega arith)
shift_left_parts3 (negsuc n) = (omega arith, omega arith)

shift_left_parts4 :
    (c : ℤ)
    → (pos_part (shift_left 4 c) ≡ pos_part c * 16) × (neg_part (shift_left 4 c) ≡ neg_part c * 16)
unfolding shift_left
shift_left_parts4 (pos n) = (refl, omega arith)
shift_left_parts4 (negsuc n) = (omega arith, omega arith)

shift_left_parts5 :
    (c : ℤ)
    → (pos_part (shift_left 5 c) ≡ pos_part c * 32) × (neg_part (shift_left 5 c) ≡ neg_part c * 32)
unfolding shift_left
shift_left_parts5 (pos n) = (refl, omega arith)
shift_left_parts5 (negsuc n) = (omega arith, omega arith)

sub16_lem : (a b : ℤ) → IsWord16 a → IsWord16 b → IsWord16 (a -ℤ b) → sub16 a b ≡ a -ℤ b
unfolding sub16
sub16_lem a b h k l = rw (word16-id a h, word16-id b k) (word16-id (a -ℤ b) l)

pub add16_lem : (a b : ℤ) → IsWord16 a → IsWord16 b → IsWord16 (a +ℤ b) → add16 a b ≡ a +ℤ b
unfolding add16
add16_lem a b h k l = rw (word16-id a h, word16-id b k) (word16-id (a +ℤ b) l)

twice_lem : (a : ℤ) → IsWord16 (a +ℤ a) → twice a ≡ a +ℤ a
unfolding twice
twice_lem a h = word16-id (a +ℤ a) h

-- Rounding a multiple of four, and of two, is exact.
quarter : (x y : ℤ) → x ≡ y +ℤ y +ℤ (y +ℤ y) → shift_right (x +ℤ pos 2) 2 ≡ y
unfolding shift_right ◌+ℤ◌
quarter x (pos n) e = rw e (ground arith)
quarter x (negsuc n) e = rw e (ground arith)

half_exact : (x y : ℤ) → x ≡ y +ℤ y → shift_right (x +ℤ pos 1) 1 ≡ y
unfolding shift_right ◌+ℤ◌
half_exact x (pos n) e = rw e (ground arith)
half_exact x (negsuc n) e = rw e (ground arith)

pshr16_two : (x y : ℤ) → x ≡ y +ℤ y +ℤ (y +ℤ y) → IsWord16 y → pshr16 2 x ≡ y
unfolding pshr16
pshr16_two x y e h = rw (quarter x y e) (word16-id y h)

-- A sample of a codebook, a `signed char`.
abbrev pub IsChar : ℤ → Type 0
IsChar z = (negsuc 127 ≤ℤ z) × (z ≤ℤ pos 127)

-- The stages after the first, with the shift at the end: of what the first left they take the two
-- entries away, each at its own scale.
after_two :
    (z b c : ℤ)
    → IsChar b
    → IsChar c
    → negsuc 4999 ≤ℤ z
    → z ≤ℤ pos 5000
    → pshr16 2 (sub16 (twice (sub16 (twice z) (shift_left 5 b))) (shift_left 5 c))
      ≡ z -ℤ shift_left 4 b -ℤ shift_left 3 c
after_two z b c hb hc z0 z1 =
    let t = twice z in
    let u = sub16 t (shift_left 5 b) in
    let v = twice u in
    let w = sub16 v (shift_left 5 c) in
    let y = z -ℤ shift_left 4 b -ℤ shift_left 3 c in
    let sb = shift_left_parts5 b in
    let sc = shift_left_parts5 c in
    let sb' = shift_left_parts4 b in
    let sc' = shift_left_parts3 c in
    let pt = +ℤ_parts z z in
    let et = twice_lem z (omega (arith, pt)) in
    let pu = -ℤ_parts t (shift_left 5 b) in
    let eu : u ≡ t -ℤ shift_left 5 b =
      sub16_lem t (shift_left 5 b) (rw et (omega (arith, pt))) (omega (arith, sb))
        (omega (arith, ap pos_part et, ap neg_part et, pt, sb, pu)) in
    let pv = +ℤ_parts u u in
    let ev : v ≡ u +ℤ u = twice_lem u (
      omega
        (arith, ap pos_part et, ap neg_part et, ap pos_part eu, ap neg_part eu, pt, sb, pu, pv)) in
    let pw = -ℤ_parts v (shift_left 5 c) in
    let ew : w ≡ v -ℤ shift_left 5 c =
      sub16_lem v (shift_left 5 c)
        (omega (
          arith,
          ap pos_part et,
          ap neg_part et,
          ap pos_part eu,
          ap neg_part eu,
          ap pos_part ev,
          ap neg_part ev,
          pt,
          sb,
          pu,
          pv,
        ))
        (omega (arith, sc))
        (omega (
          arith,
          ap pos_part et,
          ap neg_part et,
          ap pos_part eu,
          ap neg_part eu,
          ap pos_part ev,
          ap neg_part ev,
          pt,
          sb,
          pu,
          pv,
          sc,
          pw,
        )) in
    let py = -ℤ_parts (z -ℤ shift_left 4 b) (shift_left 3 c) in
    let pz = -ℤ_parts z (shift_left 4 b) in
    pshr16_two w y
      (eq_of_parts w (y +ℤ y +ℤ (y +ℤ y)) (
        omega (
          arith,
          ap pos_part et,
          ap neg_part et,
          ap pos_part eu,
          ap neg_part eu,
          ap pos_part ev,
          ap neg_part ev,
          pt,
          sb,
          pu,
          pv,
          ap pos_part ew,
          ap neg_part ew,
          sc,
          pw,
          sb',
          sc',
          py,
          pz,
          +ℤ_parts y y,
          +ℤ_parts (y +ℤ y) (y +ℤ y),
        )))
      (omega (arith, sb', sc', py, pz))

-- What the decoder makes of a pair: its number, and an entry of each stage at its own scale.
abbrev pub decoded : ℤ → ℤ → ℤ → ℤ → ℤ
decoded n a b c = n +ℤ shift_left 5 a +ℤ shift_left 4 b +ℤ shift_left 3 c

-- A pair through three stages: what the encoder keeps is what the decoder makes of the three
-- entries, where the first stage leaves no more than 5000.
pub coefficient_nb :
    (l n a b c : ℤ)
    → IsChar a
    → IsChar b
    → IsChar c
    → pos 0 ≤ℤ l
    → l ≤ℤ pos 25736
    → pos 0 ≤ℤ n
    → n ≤ℤ pos 20480
    → negsuc 4999 ≤ℤ sub16 (sub16 l n) (shift_left 5 a)
    → sub16 (sub16 l n) (shift_left 5 a) ≤ℤ pos 5000
    → sub16 l (
        pshr16 2 (
          sub16
            (twice (sub16 (twice (sub16 (sub16 l n) (shift_left 5 a))) (shift_left 5 b)))
            (shift_left 5 c)))
      ≡ decoded n a b c
coefficient_nb l n a b c ha hb hc l0 l1 n0 n1 r0 r1 =
    let sa = shift_left_parts5 a in
    let sb = shift_left_parts4 b in
    let sc = shift_left_parts3 c in
    let pd = -ℤ_parts l n in
    let d = sub16 l n in
    let ed : d ≡ l -ℤ n = sub16_lem l n (omega arith) (omega arith) (omega (arith, pd)) in
    let pz = -ℤ_parts d (shift_left 5 a) in
    let z = sub16 d (shift_left 5 a) in
    let ez : z ≡ d -ℤ shift_left 5 a =
      sub16_lem d (shift_left 5 a) (omega (arith, ap pos_part ed, ap neg_part ed, pd))
        (omega (arith, sa)) (omega (arith, ap pos_part ed, ap neg_part ed, pd, sa, pz)) in
    let y = z -ℤ shift_left 4 b -ℤ shift_left 3 c in
    let p1 = -ℤ_parts z (shift_left 4 b) in
    let p2 = -ℤ_parts (z -ℤ shift_left 4 b) (shift_left 3 c) in
    let p3 = -ℤ_parts l y in
    let ey : sub16 l y ≡ l -ℤ y = sub16_lem l y (omega arith) (omega (arith, sb, sc, p1, p2)) (
      omega (
        arith,
        ap pos_part ed,
        ap neg_part ed,
        ap pos_part ez,
        ap neg_part ez,
        pd,
        sa,
        pz,
        sb,
        sc,
        p1,
        p2,
        p3,
      )) in
    let q1 = +ℤ_parts n (shift_left 5 a) in
    let q2 = +ℤ_parts (n +ℤ shift_left 5 a) (shift_left 4 b) in
    let q3 = +ℤ_parts (n +ℤ shift_left 5 a +ℤ shift_left 4 b) (shift_left 3 c) in
    ap (sub16 l) (after_two z b c hb hc r0 r1)
    ∙ ey
    ∙ eq_of_parts (l -ℤ y) (decoded n a b c) (
        omega (
          arith,
          ap pos_part ed,
          ap neg_part ed,
          ap pos_part ez,
          ap neg_part ez,
          pd,
          sa,
          pz,
          sb,
          sc,
          p1,
          p2,
          p3,
          q1,
          q2,
          q3,
        ))

-- Adding the entries one after the other loses nothing.
module _ (n a b c : ℤ) (ha : IsChar a) (hb : IsChar b) (hc : IsChar c) (n0 : pos 0 ≤ℤ n)
    (n1 : n ≤ℤ pos 20480) where
  first_fits : word16 (n +ℤ shift_left 5 a) ≡ n +ℤ shift_left 5 a
  first_fits = word16-id _ (omega (arith, shift_left_parts5 a, +ℤ_parts n (shift_left 5 a)))

  second_range : IsWord16 (n +ℤ shift_left 5 a +ℤ shift_left 4 b)
  second_range = omega (
    arith,
    shift_left_parts5 a,
    shift_left_parts4 b,
    +ℤ_parts n (shift_left 5 a),
    +ℤ_parts (n +ℤ shift_left 5 a) (shift_left 4 b),
  )

  third_fits : word16 (decoded n a b c) ≡ decoded n a b c
  third_fits = word16-id _ (
      omega (
        arith,
        shift_left_parts5 a,
        shift_left_parts4 b,
        shift_left_parts3 c,
        +ℤ_parts n (shift_left 5 a),
        +ℤ_parts (n +ℤ shift_left 5 a) (shift_left 4 b),
        +ℤ_parts (n +ℤ shift_left 5 a +ℤ shift_left 4 b) (shift_left 3 c),
      ))

  pub decoded_low :
      word16 (add16 (word16 (n +ℤ shift_left 5 a)) (shift_left 4 b) +ℤ shift_left 3 c)
      ≡ decoded n a b c
  decoded_low =
      ap (λ v. word16 (add16 v (shift_left 4 b) +ℤ shift_left 3 c)) first_fits
      ∙ ap (λ v. word16 (v +ℤ shift_left 3 c))
          (add16_lem (n +ℤ shift_left 5 a) (shift_left 4 b)
            (omega (arith, shift_left_parts5 a, +ℤ_parts n (shift_left 5 a)))
            (omega (arith, shift_left_parts4 b)) second_range)
      ∙ third_fits

  pub decoded_high :
      word16 (word16 (word16 (n +ℤ shift_left 5 a) +ℤ shift_left 4 b) +ℤ shift_left 3 c)
      ≡ decoded n a b c
  decoded_high =
      ap (λ v. word16 (word16 (v +ℤ shift_left 4 b) +ℤ shift_left 3 c)) first_fits
      ∙ ap (λ v. word16 (v +ℤ shift_left 3 c)) (word16-id _ second_range)
      ∙ third_fits
