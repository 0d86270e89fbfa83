-- ===== src/Codec/Vq/Nearest.antt =====
-- The search of a codebook against the sorted list of its entries.
use securecom_voice.Base.{
  ℕ, zero, suc, ◌+◌, ◌≤◌, ◌<◌, ◌≡◌, refl, ap, subst, true, false, if◌then◌else◌, ◌∙◌, ◌⊎◌, inl, inr,
  Option, some, List, [], ◌∷◌, ◌++◌, arith, length, length-drop, drop, ◌*◌, Bool-cases, ◌>>=◌,
}
use mathlib.Core.List.{append-nil, Perm, perm_middle}
use mathlib.Core.List.Perm
use securecom_voice.Base.Int.{
  ℤ, pos, pos_part, neg_part, ltb_ℤ, ◌≤ℤ◌, ◌+ℤ◌, ◌-ℤ◌, +ℤ_comm, eq_of_parts, int_laws,
}
use securecom_voice.Codec.Rms.{shift_right}
use securecom_voice.Codec.Vq.{
  Candidate, product, offer_all, candidates, signed, vq_nbest, vq_nbest_sign,
}
use securecom_voice.Codec.Vq.Place.{insert}
use securecom_voice.Codec.Vq.Order.{IsSorted, length-insert, insert-IsSorted}
use securecom_voice.Codec.Vq.Offer.{Keeps, offer-Takes}

-- The entries in order of distance, those that come first in front where distances are equal.
unfoldable pub in_order : List Candidate → List Candidate → List Candidate
in_order sorted [] = sorted
in_order sorted (c ∷ cs) = in_order (insert c sorted) cs

offer_all_lem :
    (cs : List Candidate) (i used : ℕ) (sorted best : List Candidate)
    → IsSorted sorted
    → i ≡ length sorted
    → 0 < length best
    → Keeps sorted used best
    → (used' : ℕ) × (best' : List Candidate) × (offer_all i cs (used, best) ≡ some (used', best'))
      × (length best' ≡ length best)
      × Keeps (in_order sorted cs) used' best'
unfolding offer_all in_order
offer_all_lem [] i used sorted best s e h k = (used, best, refl, refl, k)
offer_all_lem (c ∷ cs) i used sorted best s e h k =
    let (used1, best1, o1, l1, k1) = offer-Takes i used c sorted best s e h k in
    let (used2, best2, o2, l2, k2) =
      offer_all_lem cs (i + 1) used1 (insert c sorted) best1 (insert-IsSorted c sorted s)
        (omega (arith, e, length-insert c sorted)) (omega (arith, l1)) k1 in
    (used2, best2, rw o1 o2, l2 ∙ l1, k2)

in_order-IsSorted : (sorted cs : List Candidate) → IsSorted sorted → IsSorted (in_order sorted cs)
unfolding in_order
in_order-IsSorted sorted [] s = s
in_order-IsSorted sorted (c ∷ cs) s =
    in_order-IsSorted (insert c sorted) cs (insert-IsSorted c sorted s)

insert-perm : (c : Candidate) (xs : List Candidate) → Perm (insert c xs) (c ∷ xs)
unfolding insert
insert-perm c [] = Perm.refl (c ∷ [])
insert-perm c (x ∷ xs) = elim (Bool-cases (ltb_ℤ c.distance x.distance)) [
  | inl e ↦ rw e (Perm.refl (c ∷ x ∷ xs))
  | inr e ↦ rw e (Perm.trans (Perm.cons x (insert-perm c xs)) (Perm.swap c x xs))
]

in_order-perm : (cs sorted : List Candidate) → Perm (in_order sorted cs) (cs ++ sorted)
unfolding in_order
in_order-perm [] sorted = Perm.refl sorted
in_order-perm (c ∷ cs) sorted =
    Perm.trans (in_order-perm cs (insert c sorted))
      (Perm.trans (Perm.append_left cs (insert-perm c sorted)) (perm_middle cs sorted))

product-some :
    (xs codebook : List ℤ) (dist : ℤ)
    → length xs ≤ length codebook
    → (d : ℤ) × (product dist xs codebook ≡ some d)
unfolding product
product-some [] codebook dist h = (dist, refl)
product-some (x ∷ xs) [] dist h = absurd (omega arith)
product-some (x ∷ xs) (w ∷ codebook) dist h = product-some xs codebook _ (omega arith)

candidates-some :
    (judge : ℕ → ℤ → ℤ → Candidate) (input : List ℤ) (left i : ℕ) (codebook energy : List ℤ)
    → left * length input ≤ length codebook
    → left ≤ length energy
    → (cs : List Candidate) × (candidates judge input i left codebook energy ≡ some cs)
unfolding candidates
candidates-some judge input zero i codebook energy h k = ([], refl)
candidates-some judge input (suc left) i codebook [] h k = absurd (omega arith)
candidates-some judge input (suc left) i codebook (e ∷ energy) h k =
    let (d, p) = product-some input codebook (pos 0) (omega arith) in
    let (cs, q) =
      candidates-some judge input left (i + 1) (drop (length input) codebook) energy
        (omega (arith, length-drop (length input) codebook)) (omega arith) in
    (judge i d (shift_right e 1) ∷ cs, rw (p, q) refl)

-- What a search leaves in the arrays: the entries `cs` are put in order of distance, and the arrays
-- hold the first of them, or all of them at the start where there are more places than entries.
abbrev pub Nearest : List Candidate → List Candidate → Option (List Candidate) → Type 0
Nearest cs best result =
    (best' : List Candidate) × (result ≡ some best')
    × (length best' ≡ length best)
    × IsSorted (in_order [] cs)
    × Perm (in_order [] cs) cs
    × (((free : List Candidate) × (best' ≡ in_order [] cs ++ free))
        ⊎ ((far : List Candidate) × (in_order [] cs ≡ best' ++ far)))

first_kept :
    (sorted : List Candidate) (used : ℕ) (best : List Candidate)
    → Keeps sorted used best
    → ((free : List Candidate) × (best ≡ sorted ++ free))
      ⊎ ((far : List Candidate) × (sorted ≡ best ++ far))
first_kept sorted used best (inl (free, e, u)) = inl (free, e)
first_kept sorted used best (inr (far, e, u)) = inr (far, e)

offered :
    (cs best : List Candidate)
    → 0 < length best
    → Nearest cs best (offer_all 0 cs (0, best) >>= λ r. some r.1)
offered cs best h =
    let (used, best', o, l, k) = offer_all_lem cs 0 0 [] best tt refl h (inl (best, refl, refl)) in
    (
      best',
      rw o refl,
      l,
      in_order-IsSorted [] cs tt,
      subst (Perm (in_order [] cs)) (append-nil cs) (in_order-perm cs []),
      first_kept (in_order [] cs) used best' k,
    )

-- The distance of an entry from its product `d` with the vector and half its energy, up to a number
-- that the entries share.
abbrev pub by_distance : ℕ → ℤ → ℤ → Candidate
by_distance i d half_energy = record { distance = half_energy -ℤ d; index = i }

-- The entry, or the entry with its sign changed, which stands behind the `entries`: whichever is the
-- nearer, and the one with its sign changed where both are as near.
abbrev pub by_sign : ℕ → ℕ → ℤ → ℤ → Candidate
by_sign entries i d half_energy =
    if ltb_ℤ (half_energy -ℤ d) (half_energy +ℤ d)
    then record { distance = half_energy -ℤ d; index = i }
    else record { distance = half_energy +ℤ d; index = i + entries }

less_parts : (a b : ℤ) → ltb_ℤ a b ≡ true → pos_part a + neg_part b < pos_part b + neg_part a
less_parts a b h = ground (arith, h)

not_less_parts : (a b : ℤ) → ltb_ℤ a b ≡ false → b ≤ℤ a
not_less_parts a b h = ground (arith, h)

less_lem : (a b : ℤ) → pos_part a + neg_part b < pos_part b + neg_part a → ltb_ℤ a b ≡ true
less_lem a b h = ground (arith, h)

not_less_lem : (a b : ℤ) → b ≤ℤ a → ltb_ℤ a b ≡ false
not_less_lem a b h = ground (arith, h)

signed-eq-by_sign :
    (entries i : ℕ) (d half_energy : ℤ)
    → signed entries i d half_energy ≡ by_sign entries i d half_energy
signed-eq-by_sign entries i d h =
    let minus : pos 0 -ℤ d +ℤ h ≡ h -ℤ d =
      eq_of_parts (pos 0 -ℤ d +ℤ h) (h -ℤ d) (omega int_laws) in
    let plus : d +ℤ h ≡ h +ℤ d = +ℤ_comm d h in
    elim (Bool-cases (ltb_ℤ (pos 0) d)) [
      | inl above ↦
          let nearer : ltb_ℤ (h -ℤ d) (h +ℤ d) ≡ true =
            less_lem (h -ℤ d) (h +ℤ d) (omega (int_laws, less_parts (pos 0) d above)) in
          rw (above, nearer, minus) refl
      | inr below ↦
          let further : ltb_ℤ (h -ℤ d) (h +ℤ d) ≡ false =
            not_less_lem (h -ℤ d) (h +ℤ d) (omega (int_laws, not_less_parts (pos 0) d below)) in
          rw (below, further, plus) refl
    ]

module _ (input codebook energy : List ℤ) (entries : ℕ) (best : List Candidate)
    (long : entries * length input ≤ length codebook) (known : entries ≤ length energy)
    (room : 0 < length best) where
  -- The search finds the nearest entries, with arrays for one at least, a codebook of all entries and
  -- their energies: put in order of distance, those that come first in front where distances are
  -- equal, they are what the arrays hold, as far as there are places, or entries.
  pub vq_nbest_lem :
      (cs : List Candidate) × (candidates by_distance input 0 entries codebook energy ≡ some cs)
      × Nearest cs best (vq_nbest input codebook entries energy best)
  unfolding vq_nbest
  vq_nbest_lem =
      let (cs, e) = candidates-some by_distance input entries 0 codebook energy long known in
      (cs, e, rw e (offered cs best room))

  -- The search with signs finds the nearest of all entries and all entries with their signs changed,
  -- one of each pair, in the same sense; an entry with its sign changed has the number of entries
  -- added to its index.
  pub vq_nbest_sign_lem :
      (cs : List Candidate) × (candidates (by_sign entries) input 0 entries codebook energy
        ≡ some cs)
      × Nearest cs best (vq_nbest_sign input codebook entries energy best)
  unfolding vq_nbest_sign
  vq_nbest_sign_lem =
      let (cs, e) = candidates-some (by_sign entries) input entries 0 codebook energy long known in
      let same : candidates (signed entries) input 0 entries codebook energy ≡ some cs =
        ap (λ judge. candidates judge input 0 entries codebook energy)
          (λ j i d h. signed-eq-by_sign entries i d h j)
        ∙ e in
      (cs, e, rw same (offered cs best room))
