-- ===== src/Codec/Decoder/Search/Ends.antt =====
-- The search for a narrowband block comes to an end, where the handlers do not move backwards.
use mathlib.Core.Option.{none-ne-some, some-injective}
use securecom_voice.Base.{
  ℕ, zero, suc, ◌+◌, ◌≤◌, ◌<◌, ◌≡◌, refl, sym, subst, Option, some, List, arith, get_elem?, ltb,
  ◌==◌, inl, inr, Bool-cases, Option-cases,
}
use securecom_voice.Base.Int.{ℤ, pos, negsuc}
use securecom_voice.Bits.{SpeexBits, cursor}
use securecom_voice.Bits.Ahead.{
  cursor-moved, read_lem, Forward, Forward-same, Forward-trans, Forward-moved, read_any,
  advance_any,
}
use securecom_voice.Bits.Field.{field}
use securecom_voice.Bits.Unpack.{unpack_unsigned, advance}
use securecom_voice.Bits.Unpack.Laws.{IsReadable, moved}
use securecom_voice.Inband.{Handler, skipped, inband_handler}
use securecom_voice.Codec.Decoder.{SpeexCallback, DecState}
use securecom_voice.Codec.Decoder.Search.{
  Search, found, returned, unfinished, registered, user_handler, dispatch, read_mode, search_block,
  too_short, resume,
}
use securecom_voice.Codec.Decoder.Search.Reads.{ahead_of_short, skip_layers-Reads}

-- A search that did not run out of fuel.
abbrev pub IsOver : Search → Type 0
IsOver found = Unit
IsOver (returned r) = Unit
IsOver unfinished = ⊥

module _ {P : Type 0} where
  -- The user callback has a function.
  abbrev pub HasUser : DecState P → Type 0
  HasUser st = (f : P) × (st.user_callback.func ≡ some f)

  -- A handler that returns, that does not move the cursor back, and that leaves a user callback.
  abbrev pub MovesForward : Handler (DecState P) → Type 0
  MovesForward handler =
      (b : SpeexBits) (st : DecState P)
      → IsReadable b
      → HasUser st
      → (r : ℤ) × (b' : SpeexBits) × (st' : DecState P) × ((handler b st ≡ some (r, b', st'))
          × (Forward b b' × HasUser st'))

  inband_after :
      (table : ℕ → Option (Handler (DecState P)))
      → ((id : ℕ) (handler : Handler (DecState P)) → table id ≡ some handler → MovesForward handler)
      → (b : SpeexBits) (st : DecState P) (id : ℕ) (b₁ : SpeexBits)
      → unpack_unsigned b 4 ≡ some (id, b₁)
      → Forward b b₁
      → HasUser st
      → (r : ℤ) × (b' : SpeexBits) × (st' : DecState P) × ((inband_handler table b st
            ≡ some (r, b', st'))
          × (Forward b b' × HasUser st'))
  unfolding inband_handler
  inband_after table forward b st id b₁ e₁ f₁ u = elim (Option-cases (table id)) [
    | inl missing ↦ (
      pos 0,
      advance b₁ (skipped id),
      st,
      (rw (e₁, missing) refl, (Forward-trans f₁ (advance_any b₁ (skipped id) f₁.readable), u)),
    )
    | inr (handler, there) ↦
        let (r, b₂, st₂, (e₂, (f₂, u₂))) = forward id handler there b₁ st f₁.readable u in
        (r, b₂, st₂, (rw (e₁, there, e₂) refl, (Forward-trans f₁ f₂, u₂)))
  ]

  module _ (run : P → ℕ → Handler (DecState P))
      (forward : (f : P) (user_data : ℕ) → MovesForward (run f user_data)) where
    registered_forward :
        (callbacks : List (SpeexCallback P)) (id : ℕ) (handler : Handler (DecState P))
        → registered run callbacks id ≡ some handler
        → MovesForward handler
    unfolding registered
    registered_forward callbacks id handler e = elim (Option-cases (get_elem? callbacks id)) [
      | inl missing ↦ absurd (none-ne-some handler (rw missing at e))
      | inr (c, there) ↦ elim (Option-cases c.func) [
        | inl null ↦ absurd (none-ne-some handler (rw (there, null) at e))
        | inr (f, called) ↦
            subst MovesForward (some-injective _ _ (rw (there, called) at e))
              (forward f c.user_data)
      ]
    ]

    user_forward :
        (c : SpeexCallback P) (f : P) → c.func ≡ some f → MovesForward (user_handler run c)
    unfolding user_handler
    user_forward c f e b st v u = rw e (forward f c.user_data b st v u)

    inband_forward :
        (callbacks : List (SpeexCallback P))
        → MovesForward (inband_handler (registered run callbacks))
    inband_forward callbacks b st v u =
        let (id, b₁, (e₁, f₁)) = read_any b 4 v (omega arith) in
        inband_after (registered run callbacks) (registered_forward callbacks) b st id b₁ e₁ f₁ u

    -- A search that is over, with the stream read on.
    abbrev Over : SpeexBits → Option (Search × SpeexBits × DecState P) → Type 0
    Over b o =
        (s : Search) × (b' : SpeexBits) × (st' : DecState P) × ((o ≡ some (s, b', st'))
          × (IsOver s × Forward b b'))

    Over-trans :
        {b b₁ : SpeexBits} {o : Option (Search × SpeexBits × DecState P)}
        → Forward b b₁
        → Over b₁ o
        → Over b o
    Over-trans f (s, b', st', (e, (n, g))) = (s, b', st', (e, (n, Forward-trans f g)))

    returned-Over :
        (r : ℤ) (b : SpeexBits) (st : DecState P) → IsReadable b → Over b (some (returned r, b, st))
    returned-Over r b st v = (returned r, b, st, (refl, (tt, Forward-same b v)))

    -- What the next turn of the loop does, where the cursor has not passed below `low`.
    abbrev Continues :
        ℕ → ℕ → (SpeexBits → DecState P → Option (Search × SpeexBits × DecState P)) → Type 0
    Continues low bits k =
        (b : SpeexBits) (st : DecState P)
        → IsReadable b
        → HasUser st
        → b.nb_bits ≡ bits
        → low ≤ cursor b
        → Over b (k b st)

    resume-Over :
        (k : SpeexBits → DecState P → Option (Search × SpeexBits × DecState P)) (b b' : SpeexBits)
        (r : ℤ) (st' : DecState P)
        → Continues (cursor b) b.nb_bits k
        → Forward b b'
        → HasUser st'
        → Over b (resume run k (r, b', st'))
    resume-Over k b b' (pos zero) st' c f u =
        Over-trans f (c b' st' f.readable u f.same_bits f.not_back)
    resume-Over k b b' (pos (suc n)) st' c f u = Over-trans f (returned-Over _ b' st' f.readable)
    resume-Over k b b' (negsuc n) st' c f u = Over-trans f (returned-Over _ b' st' f.readable)

    dispatch-Over :
        (k : SpeexBits → DecState P → Option (Search × SpeexBits × DecState P)) (m : ℕ)
        (b : SpeexBits) (st : DecState P)
        → IsReadable b
        → HasUser st
        → Continues (cursor b) b.nb_bits k
        → Over b (dispatch run k m b st)
    unfolding dispatch
    dispatch-Over k m b st v u c =
        let (r, b₁, st₁, (e₁, (f₁, u₁))) = inband_forward st.speex_callbacks b st v u in
        let (r', b₂, st₂, (e₂, (f₂, u₂))) = user_forward st.user_callback u.0 u.1 b st v u in
        elim (Bool-cases (m == 15)) [
          | inl t15 ↦ rw t15 (returned-Over _ b st v)
          | inr f15 ↦ elim (Bool-cases (m == 14)) [
            | inl t14 ↦ rw (f15, t14, e₁) (resume-Over k b b₁ r st₁ c f₁ u₁)
            | inr f14 ↦ elim (Bool-cases (m == 13)) [
              | inl t13 ↦ rw (f15, f14, t13, e₂) (resume-Over k b b₂ r' st₂ c f₂ u₂)
              | inr f13 ↦ elim (Bool-cases (ltb 8 m)) [
                | inl t8 ↦ rw (f15, f14, f13, t8) (returned-Over _ b st v)
                | inr f8 ↦ rw (f15, f14, f13, f8) (found, b, _, (refl, (tt, Forward-same b v)))
              ]
            ]
          ]
        ]

    read_mode-Over :
        (k : SpeexBits → DecState P → Option (Search × SpeexBits × DecState P)) (r : ℤ)
        (b : SpeexBits) (st : DecState P)
        → IsReadable b
        → HasUser st
        → Continues (cursor b + 4) b.nb_bits k
        → Over b (read_mode run k st (r, b))
    unfolding read_mode
    read_mode-Over k (pos zero) b st v u c = elim (Bool-cases (too_short b 4)) [
      | inl short ↦ rw short (returned-Over _ b st v)
      | inr long ↦
          let h = ahead_of_short b 4 v long in
          let f = Forward-moved 4 h (omega arith) in
          rw (long, read_lem 4 h (omega arith) (omega arith))
            (Over-trans f (
              dispatch-Over k (field b.chars (cursor b) 4) (moved b 4) st f.readable u
                (subst (λ low. Continues low b.nb_bits k) (sym (cursor-moved b 4 v.bit_in)) c)))
    ]
    read_mode-Over k (pos (suc n)) b st v u c = returned-Over _ b st v
    read_mode-Over k (negsuc n) b st v u c = returned-Over _ b st v

    -- The search comes to an end: on fuel for one turn more than there are bits left, it finds a
    -- block or returns a value, whatever the stream holds, where every callback returns and leaves
    -- the cursor at or behind where it was. The stream stays one that can be read, and the cursor
    -- does not pass the end.
    pub search_ends :
        (fuel : ℕ) (b : SpeexBits) (st : DecState P)
        → IsReadable b
        → HasUser st
        → b.nb_bits < cursor b + fuel
        → (s : Search) × (b' : SpeexBits) × (st' : DecState P) × ((search_block run fuel b st
              ≡ some (s, b', st'))
            × (IsOver s × Forward b b'))
    unfolding search_block
    search_ends zero b st v u l = absurd (omega (arith, v.before_end))
    search_ends (suc n) b st v u l =
        let (r, b₁, (e₁, f₁)) = skip_layers-Reads b v in
        rw e₁ (
          Over-trans f₁ (
            read_mode-Over (search_block run n) r b₁ st f₁.readable u (λ b₂ st₂ v₂ u₂ same low.
              search_ends n b₂ st₂ v₂ u₂ (omega (arith, same, f₁.same_bits, f₁.not_back)))))
