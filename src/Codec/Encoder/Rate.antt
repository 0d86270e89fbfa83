-- ===== src/Codec/Encoder/Rate.antt =====
-- The search for a quality that keeps within a bit rate.
use mathlib.Core.Option.{none-ne-some, some-injective}
use securecom_voice.Base.{
  ℕ, zero, suc, ◌<◌, ◌≡◌, refl, sym, ◌∙◌, ◌⊎◌, inl, inr, false, Option, some, get_elem?, arith,
  ◌==◌, ==_iff, Bool-cases, Option-cases, if◌then◌else◌, ◌>>=◌,
}
use securecom_voice.Base.Int.{ℤ, pos, negsuc, ◌≤ℤ◌, leb_ℤ}
use securecom_voice.Codec.Encoder.{clamp_quality, choose_quality, bitrate, fit_bitrate, encoder_ctl}
use securecom_voice.Codec.Requests.{EncState, set_bitrate, done}

-- No quality below `n` has a rate within the target.
abbrev pub TooFast : (ℕ → ℤ) → ℤ → ℕ → Type 0
TooFast rates target n = (j : ℕ) → j < n → ¬ (rates j ≤ℤ target)

TooFast-suc :
    (rates : ℕ → ℤ) (target : ℤ) (i : ℕ)
    → leb_ℤ (rates i) target ≡ false
    → TooFast rates target i
    → TooFast rates target (suc i)
TooFast-suc rates target i fast all j lt = elim (Bool-cases (j == i)) [
  | inl e ↦ rw ((==_iff _ _).0 e) (λ le. absurd (ground arith))
  | inr e ↦ all j (ground arith)
]

module _ {F : Type 0} where
  -- The bit rate of quality `q`.
  abbrev pub rate_at : EncState F → ℤ → Option ℤ
  rate_at st q = do st' ← choose_quality st q; bitrate st'

  -- The bit rates of the qualities below `n`.
  abbrev pub HasRates : EncState F → (ℕ → ℤ) → ℕ → Type 0
  HasRates st rates n = (i : ℕ) → i < n → rate_at st (pos i) ≡ some (rates i)

  abbrev in_submode : EncState F → ℕ → EncState F
  in_submode st m = record st { submode_select = pos m; submode_id = pos m }

  choose_quality_lem :
      (st : EncState F) (q : ℤ) (st' : EncState F)
      → choose_quality st q ≡ some st'
      → (m : ℕ) × (st' ≡ in_submode st m)
  unfolding choose_quality
  choose_quality_lem st q st' e = elim (Option-cases (get_elem? st.quality_map (clamp_quality q))) [
    | inl missing ↦ absurd (none-ne-some st' (rw missing at e))
    | inr (m, f) ↦ (m, sym (some-injective _ _ (rw f at e)))
  ]

  -- Choosing twice is choosing the second time.
  choose_quality-choose_quality :
      (st : EncState F) (p q : ℤ) (st' : EncState F)
      → choose_quality st p ≡ some st'
      → choose_quality st' q ≡ choose_quality st q
  unfolding choose_quality
  choose_quality-choose_quality st p q st' e =
      let (m, f) = choose_quality_lem st p st' e in rw f refl

  -- One turn of the loop, where the bit rate is known.
  fit_bitrate_step :
      (i : ℕ) (st : EncState F) (target rate : ℤ)
      → rate_at st (pos i) ≡ some rate
      → (st' : EncState F) × ((choose_quality st (pos i) ≡ some st')
          × (fit_bitrate (suc i) st target
              ≡ (if leb_ℤ rate target then some (pos i, st') else fit_bitrate i st' target)))
  unfolding fit_bitrate
  fit_bitrate_step i st target rate e = elim (Option-cases (choose_quality st (pos i))) [
    | inl missing ↦ absurd (none-ne-some rate (rw missing at e))
    | inr (st', f) ↦ let g : bitrate st' ≡ some rate = rw f at e in (st', (f, rw (f, g) refl))
  ]

  -- The highest quality below `n` whose rate is within the target, and the state with it.
  abbrev pub Best : EncState F → (ℕ → ℤ) → ℤ → ℕ → ℕ → EncState F → Type 0
  Best st rates target n q st' =
      (q < n)
      × ((choose_quality st (pos q) ≡ some st')
          × ((rates q ≤ℤ target) × ((j : ℕ) → q < j → j < n → ¬ (rates j ≤ℤ target))))

  -- The state after a search in which no quality was slow enough: the last tried has number 0.
  abbrev Lowest : EncState F → ℕ → EncState F → EncState F → Type 0
  Lowest st zero s s' = s' ≡ s
  Lowest st (suc n) s s' = choose_quality st (pos 0) ≡ some s'

  abbrev Found : EncState F → (ℕ → ℤ) → ℤ → ℕ → EncState F → Type 0
  Found st rates target n s =
      ((q : ℕ) × (s' : EncState F) × ((fit_bitrate n s target ≡ some (pos q, s'))
          × Best st rates target n q s'))
      ⊎ ((s' : EncState F) × ((fit_bitrate n s target ≡ some (negsuc 0, s'))
            × (Lowest st n s s' × TooFast rates target n)))

  Lowest-suc :
      (st : EncState F) (i : ℕ) (s s' : EncState F)
      → choose_quality st (pos i) ≡ some s
      → Lowest st i s s'
      → Lowest st (suc i) s s'
  Lowest-suc st zero s s' e h = rw h e
  Lowest-suc st (suc i) s s' e h = h

  fit_bitrate_lem :
      (st : EncState F) (rates : ℕ → ℤ) (target : ℤ) (n : ℕ) (s : EncState F)
      → HasRates st rates n
      → ((q : ℤ) → choose_quality s q ≡ choose_quality st q)
      → Found st rates target n s
  unfolding fit_bitrate
  fit_bitrate_lem st rates target zero s h same =
      inr (s, (refl, (refl, λ j lt. absurd (omega arith))))
  fit_bitrate_lem st rates target (suc i) s h same =
      let at_i : rate_at s (pos i) ≡ some (rates i) = rw (same (pos i)) (h i (omega arith)) in
      let (s', (chosen, turn)) = fit_bitrate_step i s target (rates i) at_i in
      let chosen' : choose_quality st (pos i) ≡ some s' = sym (same (pos i)) ∙ chosen in
      let rest =
        fit_bitrate_lem st rates target i s' (λ j lt. h j (omega arith))
          (λ q. choose_quality-choose_quality st (pos i) q s' chosen') in
      elim (Bool-cases (leb_ℤ (rates i) target)) [
        | inl slow ↦ inl (
          i,
          s',
          (
            turn ∙ rw slow refl,
            (omega arith, (chosen', (ground arith, λ j lt lt'. absurd (omega arith)))),
          ),
        )
        | inr fast ↦ elim rest [
          | inl (q, s2, (e, (lt, (c, (ok, above))))) ↦ inl (
            q,
            s2,
            (
              turn ∙ (rw fast refl ∙ e),
              (
                omega arith,
                (
                  c,
                  (
                    ok,
                    λ j lt' below. elim (Bool-cases (j == i)) [
                      | inl at ↦ rw ((==_iff _ _).0 at) (λ le. absurd (ground arith))
                      | inr other ↦ above j lt' (ground arith)
                    ],
                  ),
                ),
              ),
            ),
          )
          | inr (s2, (e, (low, all))) ↦ inr (
            s2,
            (
              turn ∙ (rw fast refl ∙ e),
              (Lowest-suc st i s' s2 chosen' low, TooFast-suc rates target i fast all),
            ),
          )
        ]
      ]

  -- `SPEEX_SET_BITRATE`, where the bit rate of each quality from 0 to 10 is defined: the encoder
  -- takes the highest quality whose rate is within the target, and every higher quality is above
  -- it; where no quality is within the target, it takes quality 0.
  pub set_bitrate_lem :
      (of_int : ℤ → F) (st : EncState F) (rates : ℕ → ℤ) (target : ℤ)
      → HasRates st rates 11
      → ((q : ℕ) × (st' : EncState F) × ((encoder_ctl of_int st (set_bitrate target)
              ≡ some (done, st'))
            × Best st rates target 11 q st'))
        ⊎ ((st' : EncState F) × ((encoder_ctl of_int st (set_bitrate target) ≡ some (done, st'))
              × ((choose_quality st (pos 0) ≡ some st') × TooFast rates target 11)))
  unfolding encoder_ctl
  set_bitrate_lem of_int st rates target h =
      elim (fit_bitrate_lem st rates target 11 st h (λ q. refl)) [
        | inl (q, st', (e, best)) ↦ inl (q, st', (rw e refl, best))
        | inr (st', (e, (low, all))) ↦ inr (st', (rw e refl, (low, all)))
      ]
