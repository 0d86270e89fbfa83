-- ===== src/Codec/Decoder/Search/Reads.antt =====
-- The steps of the search for a narrowband block read on, whatever the stream holds.
use securecom_voice.Base.{
  ℕ, ◌+◌, ◌≤◌, ◌<◌, ◌≡◌, refl, ap, false, some, arith, ltb, ◌==◌, ◌⊎◌, inl, inr, Bool-cases,
  if◌then◌else◌,
}
use securecom_voice.Base.Int.{ℤ, pos, negsuc}
use securecom_voice.Bits.{SpeexBits, cursor}
use securecom_voice.Bits.Ahead.{
  HasAhead, HasAhead-less, HasAhead-moved, cursor-moved, read_lem, Forward, Forward-same,
  Forward-trans, Forward-moved, read_any, advance_any,
}
use securecom_voice.Bits.Field.{field}
use securecom_voice.Bits.Unpack.{advance, remaining}
use securecom_voice.Bits.Unpack.Laws.{IsReadable, moved}
use securecom_voice.Codec.Decoder.Search.{
  skip_layer, skip_layers, too_short, no_third_layer, optional_layer, Outcome,
}
use securecom_voice.Codec.Decoder.Search.Layers.{layer_body, skip_null_layer, skip_layer-advance}

pub ahead_of_short : (b : SpeexBits) (n : ℕ) → IsReadable b → too_short b n ≡ false → HasAhead b n
unfolding remaining
ahead_of_short b n v e = record {
  readable = v;
  clear = ground arith;
  room = ground (arith, v.before_end);
}

-- A step of the search reads on.
abbrev pub Reads : (SpeexBits → Outcome) → Type 0
Reads next =
    (b : SpeexBits)
    → IsReadable b
    → (r : ℤ) × (b' : SpeexBits) × ((next b ≡ some (r, b')) × Forward b b')

no_third_layer-Reads : Reads no_third_layer
unfolding no_third_layer
no_third_layer-Reads b v =
    let (d, b', (e, f)) = read_any b 1 v (omega arith) in
    ((if d == 0 then pos 0 else negsuc 1), b', (rw e refl, f))

layer_sizes : (k : ℕ) → ((k ≡ 0) ⊎ (4 < k)) ⊎ ((0 < k) × (k ≤ 4))
layer_sizes k = elim (Bool-cases (k == 0)) [
  | inl e ↦ inl (inl (ground arith))
  | inr e ↦ elim (Bool-cases (ltb 4 k)) [
    | inl f ↦ inl (inr (ground arith))
    | inr f ↦ inr (ground arith, ground arith)
  ]
]

-- A layer behind its first bit: the cursor does not pass back over that bit.
skip_layer_any :
    (b : SpeexBits)
    → HasAhead b 5
    → (b' : SpeexBits) × ((skip_layer (moved b 1) ≡ some (pos 0, b')) × Forward b b')
skip_layer_any b h =
    let k = field b.chars (cursor b + 1) 3 in
    let ahead = HasAhead-moved 1 4 h (omega arith) in
    let at = cursor-moved b 1 h.readable.bit_in in
    let b₄ = moved (moved b 1) 3 in
    elim (layer_sizes k) [
      | inl null ↦ (b, (skip_null_layer b k h refl null, Forward-same b h.readable))
      | inr (lo, hi) ↦ (
        advance b₄ (layer_body k),
        (
          skip_layer-advance (moved b 1) k lo hi (HasAhead-less 3 ahead (omega arith))
              (ap (λ p. field b.chars p 3) at),
          Forward-trans (Forward-moved 1 h (omega arith)) (
              Forward-trans (Forward-moved 3 ahead (omega arith))
                (advance_any b₄ (layer_body k) (HasAhead-moved 3 0 ahead (omega arith)).readable)),
        ),
      )
    ]

optional_layer-Reads : (next : SpeexBits → Outcome) → Reads next → Reads (optional_layer next)
unfolding optional_layer
optional_layer-Reads next reads b v = elim (Bool-cases (too_short b 5)) [
  | inl short ↦ (negsuc 0, b, (rw short refl, Forward-same b v))
  | inr long ↦
      let h = ahead_of_short b 5 v long in
      let (b₂, (e₂, f₂)) = skip_layer_any b h in
      let (r, b₃, (e₃, f₃)) = reads b₂ f₂.readable in
      let read = read_lem 1 h (omega arith) (omega arith) in
      elim (Bool-cases (field b.chars (cursor b) 1 == 0)) [
        | inl narrow ↦
            (pos 0, moved b 1, (rw (long, read, narrow) refl, Forward-moved 1 h (omega arith)))
        | inr wide ↦ (r, b₃, (rw (long, read, wide, e₂, e₃) refl, Forward-trans f₂ f₃))
      ]
]

pub skip_layers-Reads : Reads skip_layers
unfolding skip_layers
skip_layers-Reads =
    optional_layer-Reads _ (optional_layer-Reads no_third_layer no_third_layer-Reads)
