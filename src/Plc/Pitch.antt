-- ===== src/Plc/Pitch.antt =====
-- The search for the period of the last speech.
use securecom_voice.Base.{
  ℕ, zero, suc, ◌+◌, ◌-◌, ◌*◌, get_or, ◌≤◌, ◌<◌, ◌≡◌, refl, inl, inr, ◌⊎◌, List, arith, ltb,
  Bool-cases, ◌==◌, ==_iff,
}
use securecom_voice.Base.Int.{ℤ, pos, negsuc, ◌-ℤ◌, ◌≤ℤ◌}
use securecom_voice.Plc.{
  amdf, amdf_loop, distance, correlation_span, amdf_pitch, pitch_min, pitch_max,
}

-- The result is one of the periods tried, it is no worse than any of them, and better than each
-- that is shorter; or no period is better than the bound the search starts with.
abbrev Chosen : List ℤ → ℕ → ℕ → ℕ → ℕ → ℕ → ℕ → Type 0
Chosen amp len i n bound pitch r =
    ((i ≤ r)
      × ((r < i + n)
          × ((amdf amp r len < bound)
              × (((j : ℕ) → i ≤ j → j < i + n → amdf amp r len ≤ amdf amp j len)
                  × ((j : ℕ) → i ≤ j → j < r → amdf amp r len < amdf amp j len)))))
    ⊎ ((r ≡ pitch) × ((j : ℕ) → i ≤ j → j < i + n → bound ≤ amdf amp j len))

amdf_loop_lem :
    (amp : List ℤ) (len i n bound pitch : ℕ)
    → Chosen amp len i n bound pitch (amdf_loop amp len i n bound pitch)
unfolding amdf_loop
amdf_loop_lem amp len i zero bound pitch = inr (refl, λ j a b. absurd (omega arith))
amdf_loop_lem amp len i (suc n) bound pitch = elim (Bool-cases (ltb (amdf amp i len) bound)) [
  | inl better ↦ rw better (elim (amdf_loop_lem amp len (i + 1) n (amdf amp i len) i) [
    | inl (a, (b, (c, (d, e)))) ↦ inl (
      omega arith,
      (
        omega arith,
        (
          ground arith,
          (
            λ j h k. elim (Bool-cases (j == i)) [
              | inl q ↦ rw ((==_iff _ _).0 q) (ground arith)
              | inr q ↦ d j (ground arith) (omega arith)
            ],
            λ j h k. elim (Bool-cases (j == i)) [
              | inl q ↦ rw ((==_iff _ _).0 q) c
              | inr q ↦ e j (ground arith) k
            ],
          ),
        ),
      ),
    )
    | inr (e, d) ↦ rw e (
        inl (
          omega arith,
          (
            omega arith,
            (
              ground arith,
              (
                λ j h k. elim (Bool-cases (j == i)) [
                  | inl q ↦ rw ((==_iff _ _).0 q) (omega arith)
                  | inr q ↦ d j (ground arith) (omega arith)
                ],
                λ j h k. absurd (omega arith),
              ),
            ),
          ),
        ))
  ])
  | inr worse ↦ rw worse (elim (amdf_loop_lem amp len (i + 1) n bound pitch) [
    | inl (a, (b, (c, (d, e)))) ↦ inl (
      omega arith,
      (
        omega arith,
        (
          c,
          (
            λ j h k. elim (Bool-cases (j == i)) [
              | inl q ↦ rw ((==_iff _ _).0 q) (ground arith)
              | inr q ↦ d j (ground arith) (omega arith)
            ],
            λ j h k. elim (Bool-cases (j == i)) [
              | inl q ↦ rw ((==_iff _ _).0 q) (ground arith)
              | inr q ↦ e j (ground arith) k
            ],
          ),
        ),
      ),
    )
    | inr (e, d) ↦ inr (
      e,
      λ j h k. elim (Bool-cases (j == i)) [
        | inl q ↦ rw ((==_iff _ _).0 q) (ground arith)
        | inr q ↦ d j (ground arith) (omega arith)
      ],
    )
  ])
]

-- The samples are 16 bits wide.
abbrev pub AreSamples : List ℤ → Type 0
AreSamples amp =
    (j : ℕ) → (negsuc 32767 ≤ℤ get_or amp j (pos 0)) × (get_or amp j (pos 0) ≤ℤ pos 32767)

distance-le :
    (a b : ℤ)
    → negsuc 32767 ≤ℤ a
    → a ≤ℤ pos 32767
    → negsuc 32767 ≤ℤ b
    → b ≤ℤ pos 32767
    → distance a b ≤ 65535
unfolding ◌-ℤ◌
distance-le a b h h' k k' = ground arith

amdf-le : (amp : List ℤ) (i n : ℕ) → AreSamples amp → amdf amp i n ≤ n * 65535
unfolding amdf
amdf-le amp i zero s = omega arith
amdf-le amp i (suc n) s =
    let step : distance (get_or amp (i + n) (pos 0)) (get_or amp n (pos 0)) ≤ 65535 =
      distance-le _ _ (s (i + n)).0 (s (i + n)).1 (s n).0 (s n).1 in
    omega (arith, amdf-le amp i n s, step)

amdf_pitch-amdf_loop :
    (shortest longest : ℕ) (amp : List ℤ) (len : ℕ)
    → amdf_pitch longest shortest amp len
      ≡ amdf_loop amp len shortest (longest + 1 - shortest) 2147483647 longest
unfolding amdf_pitch
amdf_pitch-amdf_loop shortest longest amp len = refl

-- The period is one of those asked for, whatever the samples are.
pub amdf_pitch_within :
    (shortest longest : ℕ) (amp : List ℤ) (len : ℕ)
    → shortest ≤ longest
    → (shortest ≤ amdf_pitch longest shortest amp len)
      × (amdf_pitch longest shortest amp len ≤ longest)
amdf_pitch_within shortest longest amp len h =
    rw (amdf_pitch-amdf_loop shortest longest amp len)
      (elim (amdf_loop_lem amp len shortest (longest + 1 - shortest) 2147483647 longest) [
        | inl (a, (b, c)) ↦ (a, omega arith)
        | inr (e, d) ↦ (omega (arith, e), omega (arith, e))
      ])

-- The period that the search picks, on 16-bit samples: it is one of those from 40 to 120, its
-- difference is the least of all, and the difference of each shorter period is greater.
pub amdf_pitch_lem :
    (amp : List ℤ)
    → AreSamples amp
    → (r : ℕ) × ((amdf_pitch pitch_min pitch_max amp correlation_span ≡ r)
        × ((pitch_max ≤ r)
            × ((r ≤ pitch_min)
                × (((j : ℕ)
                      → pitch_max ≤ j
                      → j ≤ pitch_min
                      → amdf amp r correlation_span ≤ amdf amp j correlation_span)
                    × ((j : ℕ)
                        → pitch_max ≤ j
                        → j < r
                        → amdf amp r correlation_span < amdf amp j correlation_span)))))
amdf_pitch_lem amp s = elim (amdf_loop_lem amp 160 40 81 2147483647 120) [
  | inl (a, (b, (c, (d, e)))) ↦ (
    amdf_loop amp 160 40 81 2147483647 120,
    (amdf_pitch-amdf_loop 40 120 amp 160, (a, (omega arith, (λ j h k. d j h (omega arith), e)))),
  )
  | inr (e, d) ↦ absurd (omega (arith, d 40 (omega arith) (omega arith), amdf-le amp 40 160 s))
]
