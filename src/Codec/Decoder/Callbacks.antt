-- ===== src/Codec/Decoder/Callbacks.antt =====
-- jni/speex_callbacks.c: the standard handler that acts on a decoder. A handler set by
-- `SPEEX_SET_HANDLER` is what the search for the next block calls.
use securecom_voice.Base.{
  ℕ, zero, suc, ◌==◌, if◌then◌else◌, ◌+◌, ◌≤◌, ◌<◌, ◌≡◌, refl, ap, ◌∙◌, Option, some, List, [], ◌∷◌,
  arith, true, length, set, get_elem?-set_self, ltb, ◌>>=◌,
}
use securecom_voice.Base.Int.{ℤ, pos, negsuc, pos_part, neg_part}
use securecom_voice.Bits.{SpeexBits, cursor}
use securecom_voice.Bits.Ahead.{
  HasAhead, HasAhead-less, HasAhead-moved, cursor-moved, moved-moved_add, read_lem,
}
use securecom_voice.Bits.Field.{field}
use securecom_voice.Bits.Stream.{Holds, size}
use securecom_voice.Bits.Unpack.{unpack_unsigned}
use securecom_voice.Bits.Unpack.Laws.{moved}
use securecom_voice.Inband.{Handler, inband_handler}
use securecom_voice.Codec.Decoder.{
  DecState, SpeexCallback, enhancer, write_field, FloatOps, set_handler, register, done,
  decoder_ctl,
}
use securecom_voice.Codec.Decoder.Search.{
  Search, returned, registered, dispatch, resume, search_block,
}
use securecom_voice.Codec.Decoder.Search.Layers.{behind_layers, AreLayers}
use securecom_voice.Codec.Decoder.Search.Finds.{Holds-behind_layers, turn_lem}
use securecom_voice.Codec.Decoder.Laws.{IsDecoder}

-- `data` is taken to point to the decoder that reads the stream.
unfoldable pub std_enh_request_handler : {P F : Type 0} → FloatOps F → Handler (DecState P)
std_enh_request_handler ops b st = do
  (m, b') ← unpack_unsigned b 1
  (reply, st') ← decoder_ctl ops st (write_field enhancer (pos m))
  some (pos 0, b', st')

-- A request with a handler.
inband_called :
    {S : Type 0} (table : ℕ → Option (Handler S)) (handler : Handler S) (b : SpeexBits) (s : S)
    (id : ℕ)
    → table id ≡ some handler
    → HasAhead b 4
    → field b.chars (cursor b) 4 ≡ id
    → inband_handler table b s ≡ handler (moved b 4) s
unfolding inband_handler
inband_called table handler b s id there h e =
    rw (read_lem 4 h (omega arith) (omega arith), e, there) refl

module _ {P F : Type 0} (ops : FloatOps F) (run : P → ℕ → Handler (DecState P)) where
  -- The state after `SPEEX_SET_HANDLER`.
  abbrev pub with_handler : DecState P → ℕ → SpeexCallback P → DecState P
  with_handler st id c = record st { speex_callbacks = set st.speex_callbacks id c }

  set_handler_lem :
      (st : DecState P) (c : SpeexCallback P) (id : ℕ)
      → IsDecoder st
      → c.callback_id ≡ pos id
      → id < 16
      → decoder_ctl ops st (set_handler c) ≡ some (done, with_handler st id c)
  unfolding decoder_ctl register
  set_handler_lem st c id d e l =
      let within : ltb id (length st.speex_callbacks) ≡ true = ground (arith, d.callbacks_size) in
      rw (e, within) refl

  registered_lem :
      (st : DecState P) (c : SpeexCallback P) (id : ℕ) (f : P)
      → IsDecoder st
      → id < 16
      → c.func ≡ some f
      → registered run (set st.speex_callbacks id c) id ≡ some (run f c.user_data)
  unfolding registered
  registered_lem st c id f d l e =
      rw (get_elem?-set_self st.speex_callbacks id c (omega (arith, d.callbacks_size)), e) refl

  dispatch_inband :
      (k : SpeexBits → DecState P → Option (Search × SpeexBits × DecState P)) (b : SpeexBits)
      (st : DecState P)
      → dispatch run k 14 b st
        ≡ (do r ← inband_handler (registered run st.speex_callbacks) b st; resume run k r)
  unfolding dispatch
  dispatch_inband k b st = refl

  resume_lem :
      (k : SpeexBits → DecState P → Option (Search × SpeexBits × DecState P)) (v : ℤ)
      (b : SpeexBits) (st : DecState P)
      → resume run k (v, b, st)
        ≡ (if pos_part v + neg_part v == 0 then k b st else some (returned v, b, st))
  resume_lem k (pos zero) b st = refl
  resume_lem k (pos (suc n)) b st = ground arith
  resume_lem k (negsuc n) b st = ground arith

  -- A handler that the decoder was given for a request, and that request in the stream, behind at
  -- most two wideband layers with a size in the table: the search calls the handler with its data,
  -- on the stream behind the number of the request. Where the handler gives 0, the search goes on
  -- from where it leaves the stream and the decoder; any other value, of either sign, is what the
  -- decoder returns.
  pub handled_request :
      (n : ℕ) (b : SpeexBits) (st : DecState P) (c : SpeexCallback P) (id : ℕ) (f : P)
      (ls : List (ℕ × ℕ)) (v : ℤ) (b' : SpeexBits) (st' : DecState P)
      → IsDecoder st
      → c.callback_id ≡ pos id
      → id < 16
      → c.func ≡ some f
      → AreLayers ls
      → length ls ≤ 2
      → HasAhead b (size (behind_layers ls []) + 9)
      → Holds b.chars (cursor b) (behind_layers ls ((0, 1) ∷ (14, 4) ∷ (id, 4) ∷ []))
      → run f c.user_data (moved b (size (behind_layers ls []) + 9)) (with_handler st id c)
        ≡ some (v, b', st')
      → (decoder_ctl ops st (set_handler c) ≡ some (done, with_handler st id c))
        × (search_block run (suc n) b (with_handler st id c) ≡ (
            if pos_part v + neg_part v == 0
            then search_block run n b' st'
            else some (returned v, b', st')))
  handled_request n b st c id f ls v b' st' d ec l ef g two h e ran =
      let st₁ = with_handler st id c in
      let s = size (behind_layers ls []) in
      let ahead = HasAhead-moved (s + 5) 4 h (omega arith) in
      let e' = Holds-behind_layers b.chars (cursor b) ls _ e in
      let at = cursor-moved b (s + 5) h.readable.bit_in in
      (
        set_handler_lem st c id d ec l,
        turn_lem run n b st₁ ls 14 _ g two (HasAhead-less _ h (omega arith)) e
            ∙ dispatch_inband (search_block run n) (moved b (s + 5)) st₁
            ∙ ap (λ o. o >>= resume run (search_block run n))
                (inband_called (registered run st₁.speex_callbacks) (run f c.user_data)
                    (moved b (s + 5)) st₁ id (registered_lem st c id f d l ef) ahead
                    (ap (λ p. field b.chars p 4) (omega (arith, at)) ∙ e'.1.1.0)
                  ∙ ap (λ b₁. run f c.user_data b₁ st₁)
                      (moved-moved_add b (s + 5) 4 h.readable.bit_in ∙ ap (moved b) (omega arith))
                  ∙ ran)
            ∙ resume_lem (search_block run n) v b' st',
      )
