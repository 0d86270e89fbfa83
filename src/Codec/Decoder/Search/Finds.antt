-- ===== src/Codec/Decoder/Search/Finds.antt =====
-- What the search for a narrowband block finds: behind requests without a handler and wideband
-- layers, the mode of the block.
use securecom_voice.Base.{
  ℕ, zero, suc, ◌+◌, ◌≤◌, ◌<◌, ◌≡◌, refl, sym, ap, subst, ◌∙◌, false, Option, none, some, List, [],
  ◌∷◌, length, arith, ltb, ◌==◌, ◌⊎◌,
}
use securecom_voice.Base.Int.{pos, negsuc}
use securecom_voice.Bits.{SpeexBits, cursor}
use securecom_voice.Bits.Ahead.{
  HasAhead, HasAhead-less, HasAhead-moved, cursor-moved, moved-moved_add, read_lem,
}
use securecom_voice.Bits.Field.{field}
use securecom_voice.Bits.Stream.{Frame, Holds, size}
use securecom_voice.Bits.Unpack.Laws.{moved, exhausted}
use securecom_voice.Inband.{Handler, skipped}
use securecom_voice.Inband.Laws.{inband_skips}
use securecom_voice.Codec.Decoder.{DecState}
use securecom_voice.Codec.Decoder.Search.{
  Search, found, returned, registered, dispatch, read_mode, search_block,
}
use securecom_voice.Codec.Decoder.Search.Layers.{
  too_short_lem, behind_layers, layer_body, AreLayers, skip_layers_lem, null_layer_lem,
}

-- A request that nobody handles, behind wideband layers, and its contents.
pub record Skipped : Type 0 where
  pub layers : List (ℕ × ℕ)
  pub id : ℕ
  pub content : ℕ

-- What stands in the stream: requests, then layers, then the mode of a narrowband block.
abbrev pub block_frame : List Skipped → List (ℕ × ℕ) → ℕ → Frame
block_frame [] ls m = behind_layers ls ((0, 1) ∷ (m, 4) ∷ [])
block_frame (r ∷ rs) ls m =
    behind_layers r.layers
      ((0, 1) ∷ (14, 4) ∷ (r.id, 4) ∷ (r.content, skipped r.id) ∷ block_frame rs ls m)

abbrev pub AreSkipped : List Skipped → Type 0
AreSkipped [] = Unit
AreSkipped (r ∷ rs) = AreLayers r.layers × (length r.layers ≤ 2) × AreSkipped rs

size-behind_layers :
    (ls : List (ℕ × ℕ)) (fs : Frame)
    → size (behind_layers ls fs) ≡ size (behind_layers ls []) + size fs
size-behind_layers [] fs = omega arith
size-behind_layers (l ∷ ls) fs = omega (arith, size-behind_layers ls fs)

pub Holds-behind_layers :
    (xs : List ℕ) (p : ℕ) (ls : List (ℕ × ℕ)) (fs : Frame)
    → Holds xs p (behind_layers ls fs)
    → Holds xs (p + size (behind_layers ls [])) fs
Holds-behind_layers xs p [] fs h = subst (λ q. Holds xs q fs) (omega arith) h
Holds-behind_layers xs p ((k, c) ∷ ls) fs (_, (_, (_, h))) =
    subst (λ q. Holds xs q fs) (omega arith)
      (Holds-behind_layers xs (p + 1 + 3 + layer_body k) ls fs h)

module _ {P : Type 0} (run : P → ℕ → Handler (DecState P)) where
  dispatch_mode :
      (k : SpeexBits → DecState P → Option (Search × SpeexBits × DecState P)) (m : ℕ)
      (b : SpeexBits) (st : DecState P)
      → m ≤ 8
      → dispatch run k m b st ≡ some (found, b, record st { submode_id = pos m })
  unfolding dispatch
  dispatch_mode k m b st small =
      let e15 : (m == 15) ≡ false = ground arith in
      let e14 : (m == 14) ≡ false = ground arith in
      let e13 : (m == 13) ≡ false = ground arith in
      let e8 : ltb 8 m ≡ false = ground arith in rw (e15, e14, e13, e8) refl

  -- A turn that reads a request.
  dispatch_request :
      (k : SpeexBits → DecState P → Option (Search × SpeexBits × DecState P)) (b : SpeexBits)
      (st : DecState P)
      → ((id : ℕ) → registered run st.speex_callbacks id ≡ none)
      → HasAhead b (4 + skipped (field b.chars (cursor b) 4))
      → dispatch run k 14 b st ≡ k (moved b (4 + skipped (field b.chars (cursor b) 4))) st
  unfolding dispatch
  dispatch_request k b st silent h =
      let first : exhausted b 4 ≡ false = ground (arith, h.room, h.clear) in
      let whole : exhausted b (4 + skipped (field b.chars (cursor b) 4)) ≡ false =
        ground (arith, h.room, h.clear) in
      rw (inband_skips (registered run st.speex_callbacks) b st h.readable silent, first, whole)
        refl

  -- A turn of the loop, behind wideband layers: what follows depends on the number read.
  pub turn_lem :
      (n : ℕ) (b : SpeexBits) (st : DecState P) (ls : List (ℕ × ℕ)) (m : ℕ) (fs : Frame)
      → AreLayers ls
      → length ls ≤ 2
      → HasAhead b (size (behind_layers ls []) + 5)
      → Holds b.chars (cursor b) (behind_layers ls ((0, 1) ∷ (m, 4) ∷ fs))
      → search_block run (suc n) b st
        ≡ dispatch run (search_block run n) m (moved b (size (behind_layers ls []) + 5)) st
  unfolding search_block read_mode
  turn_lem n b st ls m fs g two h e =
      let s = size (behind_layers ls []) in
      let ahead = HasAhead-moved (s + 1) 4 h (omega arith) in
      let e' = Holds-behind_layers b.chars (cursor b) ls _ e in
      let at = cursor-moved b (s + 1) h.readable.bit_in in
      let mode_bits : field b.chars (cursor (moved b (s + 1))) 4 ≡ m =
        ap (λ p. field b.chars p 4) (omega (arith, at)) ∙ e'.1.0 in
      rw
        (
          skip_layers_lem b ls _ g two h e,
          too_short_lem 4 ahead (omega arith),
          read_lem 4 ahead (omega arith) (omega arith),
          mode_bits,
        )
        (ap (λ b'. dispatch run (search_block run n) m b' st)
          (moved-moved_add b (s + 1) 4 h.readable.bit_in ∙ ap (moved b) (omega arith)))

  request_turn :
      (n : ℕ) (b : SpeexBits) (st : DecState P) (r : Skipped) (fs : Frame)
      → ((id : ℕ) → registered run st.speex_callbacks id ≡ none)
      → AreLayers r.layers
      → length r.layers ≤ 2
      → HasAhead b (size (behind_layers r.layers []) + 9 + skipped r.id)
      → Holds b.chars (cursor b) (behind_layers r.layers ((0, 1) ∷ (14, 4) ∷ (r.id, 4) ∷ fs))
      → search_block run (suc n) b st
        ≡ search_block run n (moved b (size (behind_layers r.layers []) + 9 + skipped r.id)) st
  request_turn n b st r fs silent g two h e =
      let s = size (behind_layers r.layers []) in
      let ahead = HasAhead-moved (s + 5) (4 + skipped r.id) h (omega arith) in
      let e' = Holds-behind_layers b.chars (cursor b) r.layers _ e in
      let at = cursor-moved b (s + 5) h.readable.bit_in in
      let id_bits : field b.chars (cursor (moved b (s + 5))) 4 ≡ r.id =
        ap (λ p. field b.chars p 4) (omega (arith, at)) ∙ e'.1.1.0 in
      turn_lem n b st r.layers 14 _ g two (HasAhead-less _ h (omega arith)) e
      ∙ dispatch_request (search_block run n) (moved b (s + 5)) st silent
          (subst (λ i. HasAhead (moved b (s + 5)) (4 + skipped i)) (sym id_bits) ahead)
      ∙ ap (λ i. search_block run n (moved (moved b (s + 5)) (4 + skipped i)) st) id_bits
      ∙ ap (λ b'. search_block run n b' st)
          (moved-moved_add b (s + 5) (4 + skipped r.id) h.readable.bit_in
            ∙ ap (moved b) (omega arith))

  -- A turn that reads the mode of a block.
  pub mode_turn :
      (n : ℕ) (b : SpeexBits) (st : DecState P) (ls : List (ℕ × ℕ)) (m : ℕ)
      → m ≤ 8
      → AreLayers ls
      → length ls ≤ 2
      → HasAhead b (size (behind_layers ls ((0, 1) ∷ (m, 4) ∷ [])))
      → Holds b.chars (cursor b) (behind_layers ls ((0, 1) ∷ (m, 4) ∷ []))
      → search_block run (suc n) b st
        ≡ some (
          found,
          moved b (size (behind_layers ls ((0, 1) ∷ (m, 4) ∷ []))),
          record st { submode_id = pos m },
        )
  mode_turn n b st ls m small g two h e =
      let total = size-behind_layers ls ((0, 1) ∷ (m, 4) ∷ []) in
      turn_lem n b st ls m [] g two (HasAhead-less _ h (omega (arith, total))) e
      ∙ dispatch_mode (search_block run n) m _ st small
      ∙ ap (λ k. some (found, moved b k, record st { submode_id = pos m })) (omega (arith, total))

  -- The search for the next block, in a stream that holds requests that no handler is registered
  -- for and then a narrowband block, each behind at most two wideband layers with a size in the
  -- table: it finds the block, and takes its mode. The cursor then stands behind the mode, and
  -- nothing else of the stream or the decoder changes. Fuel for one turn more than there are
  -- requests is enough.
  pub search_finds_block :
      (fuel : ℕ) (b : SpeexBits) (st : DecState P) (rs : List Skipped) (ls : List (ℕ × ℕ)) (m : ℕ)
      → ((id : ℕ) → registered run st.speex_callbacks id ≡ none)
      → length rs < fuel
      → m ≤ 8
      → AreSkipped rs
      → AreLayers ls
      → length ls ≤ 2
      → HasAhead b (size (block_frame rs ls m))
      → Holds b.chars (cursor b) (block_frame rs ls m)
      → search_block run fuel b st
        ≡ some (found, moved b (size (block_frame rs ls m)), record st { submode_id = pos m })
  search_finds_block zero b st rs ls m silent l small g gl two h e = absurd (omega arith)
  search_finds_block (suc n) b st [] ls m silent l small g gl two h e =
      mode_turn n b st ls m small gl two h e
  search_finds_block (suc n) b st (r ∷ rs) ls m silent l small g gl two h e =
      let step = size (behind_layers r.layers []) + 9 + skipped r.id in
      let total : size (block_frame (r ∷ rs) ls m) ≡ step + size (block_frame rs ls m) = omega (
        arith,
        size-behind_layers r.layers
            ((0, 1) ∷ (14, 4) ∷ (r.id, 4) ∷ (r.content, skipped r.id) ∷ block_frame rs ls m),
      ) in
      let rest = Holds-behind_layers b.chars (cursor b) r.layers _ e in
      let at = cursor-moved b step h.readable.bit_in in
      request_turn n b st r _ silent g.0 g.1 (HasAhead-less step h (omega (arith, total))) e
      ∙ search_finds_block n (moved b step) st rs ls m silent (omega arith) small g.2 gl two
          (HasAhead-moved step _ h (omega (arith, total)))
          (subst (λ p. Holds b.chars p (block_frame rs ls m)) (omega (arith, at)) rest.1.1.1.1)
      ∙ ap (λ b'. some (found, b', record st { submode_id = pos m }))
          (moved-moved_add b step (size (block_frame rs ls m)) h.readable.bit_in
            ∙ ap (moved b) (sym total))

  -- A wideband layer that takes no bits in the table, in a stream with a bit more behind it: the
  -- decoder goes back to the layer's first bit, takes it for that of a second layer and of a third,
  -- and gives up with -2.
  pub null_layer_refused :
      (n : ℕ) (b : SpeexBits) (st : DecState P) (k : ℕ)
      → HasAhead b 5
      → Holds b.chars (cursor b) ((1, 1) ∷ (k, 3) ∷ [])
      → (k ≡ 0) ⊎ (4 < k)
      → search_block run (suc n) b st ≡ some (returned (negsuc 1), moved b 1, st)
  unfolding search_block read_mode
  null_layer_refused n b st k h (e1, (e3, _)) null = rw (null_layer_lem b k h e1 e3 null) refl
