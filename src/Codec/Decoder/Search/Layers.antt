-- ===== src/Codec/Decoder/Search/Layers.antt =====
-- The wideband layers in front of a narrowband block: those with a size in the table are skipped,
-- those without are not.
use securecom_voice.Base.{
  ℕ, zero, suc, ◌+◌, ◌≤◌, ◌<◌, ◌≡◌, refl, ap, ◌∙◌, false, some, List, [], ◌∷◌, length, arith,
  get_elem?, ◌⊎◌,
}
use securecom_voice.Base.Int.{pos, negsuc, ◌-ℤ◌, ltb_ℤ, eq_of_parts, -ℤ_parts}
use securecom_voice.Bits.{SpeexBits, cursor}
use securecom_voice.Bits.Ahead.{
  HasAhead, HasAhead-less, HasAhead-moved, cursor-moved, moved-moved_add, read_lem, advance_lem,
}
use securecom_voice.Bits.Field.{field, field-lt}
use securecom_voice.Bits.Stream.{Frame, Holds, size}
use securecom_voice.Bits.Unpack.{advance, remaining}
use securecom_voice.Bits.Unpack.Laws.{moved}
use securecom_voice.Codec.Decoder.Search.{
  advance_int, too_short, skip_layer, no_third_layer, optional_layer, skip_layers, wb_skip_table,
  Outcome,
}

pub too_short_lem : {b : SpeexBits} {n : ℕ} (k : ℕ) → HasAhead b n → k ≤ n → too_short b k ≡ false
unfolding remaining
too_short_lem {b} {n} k h e = ground (arith, h.room, h.clear)

-- Going back over what was read.
advance_int_back : (b : SpeexBits) → HasAhead b 4 → advance_int (moved b 4) (negsuc 3) ≡ some b
unfolding advance_int
advance_int_back b h = ground (arith, h.room, h.clear, h.readable.bit_in)

-- The bits behind the number of a layer.
abbrev pub layer_body : ℕ → ℕ
layer_body zero = 0
layer_body (suc zero) = 32
layer_body (suc (suc zero)) = 108
layer_body (suc (suc (suc zero))) = 188
layer_body (suc (suc (suc (suc k)))) = 348

-- Layers with their contents, in front of a frame.
abbrev pub behind_layers : List (ℕ × ℕ) → Frame → Frame
behind_layers [] fs = fs
behind_layers ((k, content) ∷ ls) fs =
    (1, 1) ∷ (k, 3) ∷ (content, layer_body k) ∷ behind_layers ls fs

abbrev pub AreLayers : List (ℕ × ℕ) → Type 0
AreLayers [] = Unit
AreLayers ((k, content) ∷ ls) = (0 < k) × (k ≤ 4) × AreLayers ls

table_entry : (k : ℕ) → 0 < k → k ≤ 4 → get_elem? wb_skip_table k ≡ some (pos (4 + layer_body k))
table_entry zero lo hi = absurd (omega arith)
table_entry (suc zero) lo hi = refl
table_entry (suc (suc zero)) lo hi = refl
table_entry (suc (suc (suc zero))) lo hi = refl
table_entry (suc (suc (suc (suc zero)))) lo hi = refl
table_entry (suc (suc (suc (suc (suc k))))) lo hi = absurd (omega arith)

less_four : (n : ℕ) → pos (4 + n) -ℤ pos 4 ≡ pos n
less_four n = eq_of_parts _ _ (omega (arith, -ℤ_parts (pos (4 + n)) (pos 4)))

not_negative : (n : ℕ) → ltb_ℤ (pos n) (pos 0) ≡ false
not_negative n = ground arith

pub skip_layer-advance :
    (b : SpeexBits) (k : ℕ)
    → 0 < k
    → k ≤ 4
    → HasAhead b 3
    → field b.chars (cursor b) 3 ≡ k
    → skip_layer b ≡ some (pos 0, advance (moved b 3) (layer_body k))
unfolding skip_layer advance_int
skip_layer-advance b k lo hi h e =
    rw
      (
        read_lem 3 h (omega arith) (omega arith),
        e,
        table_entry k lo hi,
        less_four (layer_body k),
        not_negative (4 + layer_body k),
      )
      refl

skip_layer_lem :
    (b : SpeexBits) (k : ℕ)
    → 0 < k
    → k ≤ 4
    → HasAhead b (3 + layer_body k)
    → field b.chars (cursor b) 3 ≡ k
    → skip_layer b ≡ some (pos 0, moved b (3 + layer_body k))
skip_layer_lem b k lo hi h e =
    skip_layer-advance b k lo hi (HasAhead-less 3 h (omega arith)) e
    ∙ ap (λ b'. some (pos 0, b'))
        (advance_lem (layer_body k) (HasAhead-moved 3 (layer_body k) h (omega arith)) (omega arith)
          ∙ moved-moved_add b 3 (layer_body k) h.readable.bit_in)

-- A block without another layer.
no_layer_lem :
    (next : SpeexBits → Outcome) (b : SpeexBits)
    → HasAhead b 5
    → field b.chars (cursor b) 1 ≡ 0
    → optional_layer next b ≡ some (pos 0, moved b 1)
unfolding optional_layer
no_layer_lem next b h e =
    rw (too_short_lem 5 h (omega arith), read_lem 1 h (omega arith) (omega arith), e) refl

layer_lem :
    (next : SpeexBits → Outcome) (b : SpeexBits) (k : ℕ)
    → 0 < k
    → k ≤ 4
    → HasAhead b (4 + layer_body k + 1)
    → field b.chars (cursor b) 1 ≡ 1
    → field b.chars (cursor b + 1) 3 ≡ k
    → optional_layer next b ≡ next (moved b (4 + layer_body k))
unfolding optional_layer
layer_lem next b k lo hi h e1 e3 =
    let ahead = HasAhead-moved 1 (3 + layer_body k) h (omega arith) in
    let at = cursor-moved b 1 h.readable.bit_in in
    rw
      (
        too_short_lem 5 h (omega arith),
        read_lem 1 h (omega arith) (omega arith),
        e1,
        skip_layer_lem (moved b 1) k lo hi ahead (ap (λ p. field b.chars p 3) at ∙ e3),
      )
      (ap next (moved-moved_add b 1 (3 + layer_body k) h.readable.bit_in)
        ∙ ap (λ m. next (moved b m)) (omega arith))

no_third_layer_lem :
    (b : SpeexBits)
    → HasAhead b 1
    → field b.chars (cursor b) 1 ≡ 0
    → no_third_layer b ≡ some (pos 0, moved b 1)
unfolding no_third_layer
no_third_layer_lem b h e = rw (read_lem 1 h (omega arith) (omega arith), e) refl

-- Up to two layers are skipped, with the bit behind them.
pub skip_layers_lem :
    (b : SpeexBits) (ls : List (ℕ × ℕ)) (fs : Frame)
    → AreLayers ls
    → length ls ≤ 2
    → HasAhead b (size (behind_layers ls []) + 5)
    → Holds b.chars (cursor b) (behind_layers ls ((0, 1) ∷ fs))
    → skip_layers b ≡ some (pos 0, moved b (size (behind_layers ls []) + 1))
unfolding skip_layers
skip_layers_lem b [] fs g n h (e, _) = no_layer_lem _ b h e
skip_layers_lem b ((k, c) ∷ []) fs (lo, hi, _) n h (e1, (e3, (_, (e, _)))) =
    let v = h.readable.bit_in in
    let at = cursor-moved b (4 + layer_body k) v in
    layer_lem _ b k lo hi (HasAhead-less _ h (omega arith)) e1 e3
    ∙ no_layer_lem _ (moved b (4 + layer_body k)) (HasAhead-moved _ 5 h (omega arith))
        (ap (λ p. field b.chars p 1) (omega (arith, at)) ∙ e)
    ∙ ap (λ b'. some (pos 0, b'))
        (moved-moved_add b (4 + layer_body k) 1 v ∙ ap (moved b) (omega arith))
skip_layers_lem b ((k, c) ∷ (k', c') ∷ []) fs (lo, hi, (lo', hi', _)) n h
      (e1, (e3, (_, (e1', (e3', (_, (e, _))))))) =
    let v = h.readable.bit_in in
    let b₁ = moved b (4 + layer_body k) in
    let at = cursor-moved b (4 + layer_body k) v in
    let ahead = HasAhead-moved (4 + layer_body k) (4 + layer_body k' + 5) h (omega arith) in
    let at' = cursor-moved b₁ (4 + layer_body k') ahead.readable.bit_in in
    layer_lem _ b k lo hi (HasAhead-less _ h (omega arith)) e1 e3
    ∙ layer_lem _ b₁ k' lo' hi' (HasAhead-less _ ahead (omega arith))
        (ap (λ p. field b.chars p 1) (omega (arith, at)) ∙ e1')
        (ap (λ p. field b.chars p 3) (omega (arith, at)) ∙ e3')
    ∙ no_third_layer_lem (moved b₁ (4 + layer_body k')) (HasAhead-moved _ 1 ahead (omega arith))
        (ap (λ p. field b.chars p 1) (omega (arith, at, at')) ∙ e)
    ∙ ap (λ b'. some (pos 0, b'))
        (moved-moved_add b₁ (4 + layer_body k') 1 ahead.readable.bit_in
          ∙ moved-moved_add b (4 + layer_body k) (4 + layer_body k' + 1) v
          ∙ ap (moved b) (omega arith))
skip_layers_lem b (l ∷ l' ∷ l'' ∷ ls) fs g n h e = absurd (omega arith)

null_entry : (k : ℕ) → k < 8 → (k ≡ 0) ⊎ (4 < k) → get_elem? wb_skip_table k ≡ some (pos 0)
null_entry zero l null = refl
null_entry (suc zero) l null = absurd (omega arith)
null_entry (suc (suc zero)) l null = absurd (omega arith)
null_entry (suc (suc (suc zero))) l null = absurd (omega arith)
null_entry (suc (suc (suc (suc zero)))) l null = absurd (omega arith)
null_entry (suc (suc (suc (suc (suc zero))))) l null = refl
null_entry (suc (suc (suc (suc (suc (suc zero)))))) l null = refl
null_entry (suc (suc (suc (suc (suc (suc (suc zero))))))) l null = refl
null_entry (suc (suc (suc (suc (suc (suc (suc (suc k)))))))) l null = absurd (omega arith)

-- Behind the number of such a layer, the cursor goes back to its first bit.
pub skip_null_layer :
    (b : SpeexBits) (k : ℕ)
    → HasAhead b 5
    → field b.chars (cursor b + 1) 3 ≡ k
    → (k ≡ 0) ⊎ (4 < k)
    → skip_layer (moved b 1) ≡ some (pos 0, b)
unfolding skip_layer
skip_null_layer b k h e null =
    let ahead = HasAhead-moved 1 4 h (omega arith) in
    let at = cursor-moved b 1 h.readable.bit_in in
    let small : k < 8 = rw (← e) (field-lt b.chars (cursor b + 1) 3) in
    let zero_less_four : pos 0 -ℤ pos 4 ≡ negsuc 3 =
      eq_of_parts _ _ (omega (arith, -ℤ_parts (pos 0) (pos 4))) in
    rw
      (
        read_lem 3 ahead (omega arith) (omega arith),
        ap (λ p. field b.chars p 3) at ∙ e,
        null_entry k small null,
        zero_less_four,
        moved-moved_add b 1 3 h.readable.bit_in,
        advance_int_back b (HasAhead-less 4 h (omega arith)),
      )
      refl

third_layer_lem :
    (b : SpeexBits)
    → HasAhead b 5
    → field b.chars (cursor b) 1 ≡ 1
    → no_third_layer b ≡ some (negsuc 1, moved b 1)
unfolding no_third_layer
third_layer_lem b h e = rw (read_lem 1 h (omega arith) (omega arith), e) refl

-- A layer without a size is not skipped, and the search ends.
pub null_layer_lem :
    (b : SpeexBits) (k : ℕ)
    → HasAhead b 5
    → field b.chars (cursor b) 1 ≡ 1
    → field b.chars (cursor b + 1) 3 ≡ k
    → (k ≡ 0) ⊎ (4 < k)
    → skip_layers b ≡ some (negsuc 1, moved b 1)
unfolding skip_layers optional_layer
null_layer_lem b k h e1 e3 null =
    rw
      (
        too_short_lem 5 h (omega arith),
        read_lem 1 h (omega arith) (omega arith),
        e1,
        skip_null_layer b k h e3 null,
        too_short_lem 5 h (omega arith),
        read_lem 1 h (omega arith) (omega arith),
        e1,
        skip_null_layer b k h e3 null,
      )
      (third_layer_lem b h e1)
