-- ===== src/Inband/Laws.antt =====
-- A request without a handler is skipped.
use securecom_voice.Base.{
  ℕ, ◌+◌, ◌≡◌, ap, ◌∙◌, inl, inr, true, false, Option, none, some, arith, Bool-cases, if◌then◌else◌,
}
use securecom_voice.Base.Int.{pos}
use securecom_voice.Bits.{SpeexBits, cursor}
use securecom_voice.Bits.Field.{field}
use securecom_voice.Bits.Unpack.{unpack_unsigned, advance}
use securecom_voice.Bits.Unpack.Laws.{IsReadable, moved, exhausted, unpack_unsigned_lem}
use securecom_voice.Inband.{Handler, skipped, inband_handler}

-- Skipping after a field that was read.
advance-moved :
    (b : SpeexBits) (m n : ℕ)
    → IsReadable b
    → exhausted b m ≡ false
    → advance (moved b m) n
      ≡ (if exhausted b (m + n) then record (moved b m) { overflow = true } else moved b (m + n))
unfolding advance
advance-moved b m n v e = ground (arith, v.bit_in)

advance_overrun :
    (b : SpeexBits) (n : ℕ)
    → advance (record b { overflow = true }) n ≡ record b { overflow = true }
unfolding advance
advance_overrun b n = ground arith

-- A request that no handler is registered for, in a stream that can be read: the number of the
-- request and the bits it takes are skipped, where they are there; where they pass the end, the
-- stream is marked, and the cursor has not passed the end. Nothing else changes.
pub inband_skips :
    {S : Type 0} (callbacks : ℕ → Option (Handler S)) (b : SpeexBits) (s : S)
    → IsReadable b
    → ((id : ℕ) → callbacks id ≡ none)
    → inband_handler callbacks b s
      ≡ some (
        pos 0,
        (if exhausted b 4
            then record b { overflow = true }
            else if exhausted b (4 + skipped (field b.chars (cursor b) 4))
            then record (moved b 4) { overflow = true }
            else moved b (4 + skipped (field b.chars (cursor b) 4))),
        s,
      )
unfolding inband_handler
inband_skips callbacks b s v none_there =
    let read = unpack_unsigned_lem b 4 v (omega arith) in
    elim (Bool-cases (exhausted b 4)) [
      | inl e ↦
          let none_read : unpack_unsigned b 4 ≡ some (0, record b { overflow = true }) =
            read
            ∙ ap
                (λ t. some (
                  if t
                  then (0, record b { overflow = true })
                  else (field b.chars (cursor b) 4, moved b 4)))
                e in
          rw (none_read, e, none_there 0)
            (ap (λ b'. some (pos 0, b', s)) (advance_overrun b (skipped 0)))
      | inr e ↦
          let id_read : unpack_unsigned b 4 ≡ some (field b.chars (cursor b) 4, moved b 4) =
            read
            ∙ ap
                (λ t. some (
                  if t
                  then (0, record b { overflow = true })
                  else (field b.chars (cursor b) 4, moved b 4)))
                e in
          rw (id_read, e, none_there (field b.chars (cursor b) 4))
            (ap (λ b'. some (pos 0, b', s))
              (advance-moved b 4 (skipped (field b.chars (cursor b) 4)) v e))
    ]
