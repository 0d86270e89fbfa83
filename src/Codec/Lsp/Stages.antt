-- ===== src/Codec/Lsp/Stages.antt =====
-- The stages of the quantizer: they succeed, and the numbers that they choose are entries.
use native.Mathlib.Nat.{mul-le-mul_right}
use securecom_voice.Base.{
  ℕ, zero, suc, ◌+◌, ◌*◌, ◌≤◌, ◌<◌, ◌≡◌, refl, ap, ◌∙◌, inl, inr, true, false, Bool, some, List, [],
  ◌∷◌, arith, length, length-take, length-drop, drop, leb, Bool-cases, if◌then◌else◌,
}
use securecom_voice.Base.Int.{
  ℤ, pos, negsuc, ◌+ℤ◌, ◌-ℤ◌, ◌≤ℤ◌, ltb_ℤ, eq_of_parts, -ℤ_parts, +ℤ_parts,
}
use securecom_voice.Codec.Rms.{word16, add16, quotient}
use securecom_voice.Codec.Lsp.{
  entry, entry_in, nearest, distance_to, weighted_distance, remainder, lsp_quant, lsp_weight_quant,
  upper, divide_into, weight_of, weights_from, linear,
}
use securecom_voice.Codec.Lsp.Coefficient.{word16-id, add16_lem}
use securecom_voice.Codec.Lsp.Halves.{IsOrdered}

-- The result is one of the entries tried, or what the search started with.
nearest-lt :
    (dist : ℕ → ℤ) (i n : ℕ) (best_dist : ℤ) (best_id : ℕ)
    → best_id < i + n
    → nearest dist i n best_dist best_id < i + n
unfolding nearest
nearest-lt dist i zero best_dist best_id h = h
nearest-lt dist i (suc n) best_dist best_id h = elim (Bool-cases (ltb_ℤ (dist i) best_dist)) [
  | inl closer ↦ rw closer (omega (arith, nearest-lt dist (i + 1) n (dist i) i (omega arith)))
  | inr further ↦
      rw further (omega (arith, nearest-lt dist (i + 1) n best_dist best_id (omega arith)))
]

abbrev pub index_by : (ℕ → ℤ) → ℕ
index_by dist = nearest dist 0 64 (pos 2147483647) 0

index_by-lt : (dist : ℕ → ℤ) → index_by dist < 64
index_by-lt dist = nearest-lt dist 0 64 (pos 2147483647) 0 (omega arith)

-- A stage with a codebook of 64 entries.
pub lsp_quant_lem :
    (x cdbk : List ℤ) (dim : ℕ)
    → length x ≡ dim
    → length cdbk ≡ 64 * dim
    → (id : ℕ) × ((id < 64) × (lsp_quant x cdbk 64 ≡ some (id, remainder x (entry cdbk dim id))))
unfolding lsp_quant
lsp_quant_lem x cdbk dim s e =
    let id = index_by (λ i. distance_to x (entry cdbk (length x) i)) in
    let enough : leb (64 * length x) (length cdbk) ≡ true = rw s (ground arith) in
    (
      id,
      (
        index_by-lt (λ i. distance_to x (entry cdbk (length x) i)),
        rw enough (ap (λ d. some (id, remainder x (entry cdbk d id))) s),
      ),
    )

pub lsp_weight_quant_lem :
    (x weight cdbk : List ℤ) (dim : ℕ)
    → length x ≡ dim
    → length cdbk ≡ 64 * dim
    → (id : ℕ) × ((id < 64)
        × (lsp_weight_quant x weight cdbk 64 ≡ some (id, remainder x (entry cdbk dim id))))
unfolding lsp_weight_quant
lsp_weight_quant_lem x weight cdbk dim s e =
    let id = index_by (λ i. weighted_distance x weight (entry cdbk (length x) i)) in
    let enough : leb (64 * length x) (length cdbk) ≡ true = rw s (ground arith) in
    (
      id,
      (
        index_by-lt (λ i. weighted_distance x weight (entry cdbk (length x) i)),
        rw enough (ap (λ d. some (id, remainder x (entry cdbk d id))) s),
      ),
    )

entry_within : (dim id : ℕ) → id < 64 → id * dim + dim ≤ 64 * dim
entry_within dim id h = omega (arith, mul-le-mul_right {m = suc id} {n = 64} dim h)

pub length-entry :
    (cdbk : List ℤ) (dim id : ℕ)
    → length cdbk ≡ 64 * dim
    → id < 64
    → length (entry cdbk dim id) ≡ dim
length-entry cdbk dim id e h = omega (
  arith,
  length-take dim (drop (id * dim) cdbk),
  length-drop (id * dim) cdbk,
  entry_within dim id h,
)

pub entry_in_lem :
    (cdbk : List ℤ) (dim id : ℕ)
    → length cdbk ≡ 64 * dim
    → id < 64
    → entry_in cdbk dim id ≡ some (entry cdbk dim id)
unfolding entry_in
entry_in_lem cdbk dim id e h =
    let within = entry_within dim id h in
    let enough : leb (id * dim + dim) (length cdbk) ≡ true = ground arith in rw enough refl

weight_of-suc : (t : ℤ) (d : ℕ) → add16 (pos 300) t ≡ pos (suc d) → (w : ℤ) × (weight_of t ≡ some w)
unfolding divide_into
weight_of-suc t d e = (word16 (quotient (pos 81920) (suc d)), ap divide_into e)

weight_of_lem : (t : ℤ) → pos 0 ≤ℤ t → t ≤ℤ pos 25736 → (w : ℤ) × (weight_of t ≡ some w)
weight_of_lem (pos n) h k = weight_of-suc (pos n) (299 + n) (
    add16_lem (pos 300) (pos n) (omega arith) (omega arith)
      (omega (arith, +ℤ_parts (pos 300) (pos n)))
    ∙ eq_of_parts (pos 300 +ℤ pos n) (pos (suc (299 + n)))
        (omega (arith, +ℤ_parts (pos 300) (pos n))))
weight_of_lem (negsuc n) h k = absurd (omega arith)

pub IsOrdered-le : (below : ℤ) (qs : List ℤ) → IsOrdered below qs → below ≤ℤ pos 25736
IsOrdered-le below [] o = o
IsOrdered-le below (q ∷ qs) o = omega (arith, o.0, IsOrdered-le q qs o.1)

upper_lem : (q : ℤ) (qs : List ℤ) → IsOrdered q qs → (q ≤ℤ upper qs) × (upper qs ≤ℤ pos 25736)
upper_lem q [] o = (o, omega arith)
upper_lem q (above ∷ rest) o = (o.0, IsOrdered-le above rest o.1)

distance_fits :
    (a b : ℤ)
    → pos 0 ≤ℤ a
    → a ≤ℤ b
    → b ≤ℤ pos 25736
    → (pos 0 ≤ℤ word16 (b -ℤ a)) × (word16 (b -ℤ a) ≤ℤ pos 25736)
distance_fits a b h k l =
    rw (word16-id (b -ℤ a) (omega (arith, -ℤ_parts b a))) (omega (arith, -ℤ_parts b a))

either_fits :
    (c : Bool) (s t : ℤ)
    → (pos 0 ≤ℤ s) × (s ≤ℤ pos 25736)
    → (pos 0 ≤ℤ t) × (t ≤ℤ pos 25736)
    → (w : ℤ) × (weight_of (if c then s else t) ≡ some w)
either_fits true s t h k = weight_of_lem s h.0 h.1
either_fits false s t h k = weight_of_lem t k.0 k.1

pub weights_from_lem :
    (below : ℤ) (qs : List ℤ)
    → pos 0 ≤ℤ below
    → IsOrdered below qs
    → (ws : List ℤ) × (weights_from below qs ≡ some ws)
unfolding weights_from
weights_from_lem below [] h o = ([], refl)
weights_from_lem below (q ∷ qs) h (b, o) =
    let tmp1 = word16 (q -ℤ below) in
    let tmp2 = word16 (upper qs -ℤ q) in
    let (u, v) = upper_lem q qs o in
    let (w, e) =
      either_fits (ltb_ℤ tmp2 tmp1) tmp2 tmp1 (distance_fits q (upper qs) (omega arith) u v)
        (distance_fits below q h b (omega arith)) in
    let (ws, f) = weights_from_lem q qs (omega arith) o in (w ∷ ws, rw (e, f) refl)

pub length-linear : (i n : ℕ) → length (linear i n) ≡ n
unfolding linear
length-linear i zero = refl
length-linear i (suc n) = ap suc (length-linear (i + 1) n)
