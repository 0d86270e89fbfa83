-- ===== src/Plc/History.antt =====
-- The history of the concealer as a ring: what it holds, from the oldest sample on.
use securecom_voice.Base.{
  take-append, drop-append_past, drop-append_within, drop-drop, drop-all, ℕ, ◌+◌, ◌-◌, ◌≤◌, ◌<◌,
  ◌≡◌, refl, sym, ap, ap₂, ◌∙◌, inl, inr, List, ◌++◌, arith, length, length-append, length-take,
  length-drop, take, drop, take-append-drop, ltb, leb, ltb→lt, leb→le, Bool-cases, ◌==◌, ==_iff,
}
use mathlib.Core.List.{append_assoc, append-nil}
use securecom_voice.Base.Int.{ℤ}
use securecom_voice.Plc.{Plc, history_len, write_at, save_history, normalise_history}

module _ {ℓ} {A : Type ℓ} where
  -- The ring `h` read from `p` on.
  abbrev pub turned : List A → ℕ → List A
  turned h p = drop p h ++ take p h

  turned-append : (xs ys : List A) (k : ℕ) → k ≡ length xs → turned (xs ++ ys) k ≡ ys ++ xs
  turned-append xs ys k e =
      let rest : (j : ℕ) → j ≡ 0 → drop j ys ≡ ys = λ j z. ap (λ i. drop i ys) z in
      ap₂ (λ a b. a ++ b)
        (drop-append_past xs ys k (omega arith) ∙ rest (k - length xs) (omega arith))
        (ap (λ j. take j (xs ++ ys)) e ∙ take-append xs ys)

  turned-write :
      (h : List A) (p : ℕ) (buf : List A)
      → p + length buf ≤ length h
      → turned (write_at h p buf) (p + length buf) ≡ drop (length buf) (turned h p ++ buf)
  turned-write h p buf fits =
      let size : p + length buf ≡ length (take p h ++ buf) =
        omega (arith, length-append (take p h) buf, length-take p h) in
      turned-append (take p h ++ buf) (drop (p + length buf) h) (p + length buf) size
      ∙ ap (λ d. d ++ (take p h ++ buf)) (sym (drop-drop (length buf) p h (p + length buf) refl))
      ∙ sym (
          drop-append_within (length buf) (drop p h) (take p h ++ buf)
            (omega (arith, length-drop p h)))
      ∙ ap (drop (length buf)) (sym (append_assoc (drop p h) (take p h) buf))

  turned-write_wrapped :
      (h : List A) (p room : ℕ) (buf : List A)
      → p + room ≡ length h
      → room ≤ length buf
      → length buf < length h
      → turned (write_at (write_at h p (take room buf)) 0 (drop room buf)) (length buf - room)
        ≡ drop (length buf) (turned h p ++ buf)
  turned-write_wrapped h p room buf whole wraps short =
      let first = take p h ++ take room buf ++ drop (p + length (take room buf)) h in
      let k = length buf - room in
      let tail : length (drop room buf) ≡ k = length-drop room buf in
      let full : first ≡ take p h ++ take room buf =
        ap (λ d. take p h ++ take room buf ++ d)
          (drop-all (p + length (take room buf)) h (omega (arith, length-take room buf)))
        ∙ append-nil _ in
      let inner : k ≤ length (take p h ++ take room buf) =
        omega (
          arith,
          length-append (take p h) (take room buf),
          length-take p h,
          length-take room buf,
        ) in
      turned-append (drop room buf) (drop (0 + length (drop room buf)) first) k (sym tail)
      ∙ ap₂ (λ j w. drop j w ++ drop room buf) (omega (arith, tail)) full
      ∙ sym (drop-append_within k (take p h ++ take room buf) (drop room buf) inner)
      ∙ ap (drop k) (
          append_assoc (take p h) (take room buf) (drop room buf)
          ∙ ap (λ b. take p h ++ b) (take-append-drop room buf))
      ∙ ap (λ j. drop j (take p h ++ buf)) (omega (arith, length-drop p h))
      ∙ sym (
          drop-append_past (drop p h) (take p h ++ buf) (length buf)
            (omega (arith, length-drop p h)))
      ∙ ap (drop (length buf)) (sym (append_assoc (drop p h) (take p h) buf))

  turned-in_place :
      (h : List A) (p q : ℕ)
      → q + p ≡ length h
      → write_at (write_at h 0 (drop p h)) q (take p h) ≡ turned h p
  turned-in_place h p q e =
      let D = drop p h in
      let X = drop (0 + length D) h in
      let size : length D ≡ q = omega (arith, length-drop p h) in
      let all : length (D ++ X) ≤ q + length (take p h) = omega (
        arith,
        length-append D X,
        length-take p h,
        length-drop p h,
        length-drop (0 + length D) h,
      ) in
      ap₂ (λ a b. a ++ take p h ++ b) (ap (λ j. take j (D ++ X)) (sym size) ∙ take-append D X)
        (drop-all (q + length (take p h)) (D ++ X) all)
      ∙ append-nil _

module _ {F : Type 0} where
  pub record IsRing (s : Plc F) : Type 0 where
    pub whole : length s.history ≡ history_len
    pub in_range : s.buf_ptr ≤ history_len

  -- What the history holds, from the oldest sample on.
  abbrev pub held : Plc F → List ℤ
  held s = turned s.history s.buf_ptr

  -- Saving a block of any length, on each of the three paths of the code: the history holds what
  -- is left of the old samples followed by the new ones when the oldest are dropped, as many as the
  -- new ones are.
  pub save_history_lem :
      (s : Plc F) (buf : List ℤ)
      → IsRing s
      → held (save_history s buf) ≡ drop (length buf) (held s ++ buf)
  unfolding save_history
  save_history_lem s buf r =
      let size : length (held s) ≡ history_len = omega (
        arith,
        length-append (drop s.buf_ptr s.history) (take s.buf_ptr s.history),
        length-drop s.buf_ptr s.history,
        length-take s.buf_ptr s.history,
        r.whole,
        r.in_range,
      ) in
      elim (Bool-cases (leb history_len (length buf))) [
        | inl long ↦
            let enough : history_len ≤ length buf = leb→le _ _ long in
            rw long (
              append-nil _
              ∙ ap (λ n. drop (length buf - n) buf) (sym size)
              ∙ sym (drop-append_past (held s) buf (length buf) (omega (arith, size))))
        | inr short ↦
            let below : length buf < history_len = ground arith in
            elim (Bool-cases (ltb history_len (s.buf_ptr + length buf))) [
              | inl wraps ↦
                  let past : history_len < s.buf_ptr + length buf = ltb→lt _ _ wraps in
                  rw (short, wraps)
                    (turned-write_wrapped s.history s.buf_ptr (history_len - s.buf_ptr) buf
                      (omega (arith, r.whole, r.in_range)) (omega arith) (omega (arith, r.whole)))
              | inr fits ↦
                  let within : s.buf_ptr + length buf ≤ history_len = ground arith in
                  rw (short, fits) (turned-write s.history s.buf_ptr buf (omega (arith, r.whole)))
            ]
      ]

  -- Putting the history in order: it then starts at its oldest sample and holds what it held.
  pub normalise_history_lem :
      (s : Plc F)
      → IsRing s
      → ((normalise_history s).history ≡ held s) × ((normalise_history s).buf_ptr ≡ 0)
  unfolding normalise_history
  normalise_history_lem s r = elim (Bool-cases (s.buf_ptr == 0)) [
    | inl start ↦ rw start (
      sym (ap (λ j. turned s.history j) ((==_iff _ _).0 start) ∙ append-nil _),
      (==_iff _ _).0 start,
    )
    | inr moved ↦ rw moved (
      turned-in_place s.history s.buf_ptr (history_len - s.buf_ptr)
          (omega (arith, r.whole, r.in_range)),
      refl,
    )
  ]
