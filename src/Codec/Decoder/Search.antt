-- ===== src/Codec/Decoder/Search.antt =====
-- jni/nb_celp.c: the loop at the start of `nb_decode` that looks for the next narrowband block. It
-- runs on fuel; `unfinished` is the search that ran out of it. `run` calls the function that a
-- pointer points to, with the data of the callback. The results `returned` are those of `nb_decode`.
pub mod Layers
pub mod Finds
pub mod Reads
pub mod Ends
use securecom_voice.Base.{
  ℕ, zero, suc, ◌+◌, ◌-◌, ◌*◌, ◌/◌, ◌%◌, Bool, true, ◌||◌, Option, none, some, List, [], ◌∷◌,
  get_elem?, ltb, leb, ◌==◌, if◌then◌else◌, ◌>>=◌,
}
use securecom_voice.Base.Int.{ℤ, pos, negsuc, ◌-ℤ◌, ltb_ℤ}
use securecom_voice.Bits.{SpeexBits, cursor}
use securecom_voice.Bits.Unpack.{unpack_unsigned, advance, remaining}
use securecom_voice.Inband.{Handler, inband_handler}
use securecom_voice.Codec.Decoder.{SpeexCallback, DecState}

abbrev pub wb_skip_table : List ℤ
wb_skip_table = pos 0 ∷ pos 36 ∷ pos 112 ∷ pos 192 ∷ pos 352 ∷ pos 0 ∷ pos 0 ∷ pos 0 ∷ []

-- `speex_bits_advance` with an `int`. A cursor before the first byte has no meaning.
unfoldable pub advance_int : SpeexBits → ℤ → Option SpeexBits
advance_int b (pos n) = some (advance b n)
advance_int b (negsuc n) =
    if ltb (b.nb_bits + suc n) (cursor b) || b.overflow
    then some (record b { overflow = true })
    else if ltb (cursor b) (suc n)
    then none
    else some (record b { char_ptr = (cursor b - suc n) / 8; bit_ptr = (cursor b - suc n) % 8 })

-- `speex_bits_remaining(bits) < n`.
abbrev pub too_short : SpeexBits → ℕ → Bool
too_short b n = elim (remaining b) [ none ↦ true | some k ↦ ltb k n ]

-- The steps of the search give the value that `nb_decode` returns, or 0 to go on.
abbrev pub Outcome : Type 0
Outcome = Option (ℤ × SpeexBits)

abbrev pub go_on : ℤ × SpeexBits → (SpeexBits → Outcome) → Outcome
go_on (pos zero, b) k = k b
go_on (pos (suc n), b) k = some (pos (suc n), b)
go_on (negsuc n, b) k = some (negsuc n, b)

-- The rest of a wideband layer behind its first bit.
unfoldable pub skip_layer : SpeexBits → Outcome
skip_layer b = do
  (submode, b') ← unpack_unsigned b 3
  bits ← get_elem? wb_skip_table submode
  let skipped = do b'' ← advance_int b' (bits -ℤ pos 4); some (pos 0, b'')
  if ltb_ℤ bits (pos 0) then some (negsuc 1, b') else skipped

-- The bit behind two layers.
unfoldable pub no_third_layer : SpeexBits → Outcome
no_third_layer b = do
  (wideband, b') ← unpack_unsigned b 1
  some (if wideband == 0 then pos 0 else negsuc 1, b')

-- Where a layer may stand: the code has this twice, with what follows a layer as `next`.
unfoldable pub optional_layer : (SpeexBits → Outcome) → SpeexBits → Outcome
optional_layer next b =
    let read = do
      (wideband, b') ← unpack_unsigned b 1
      let skipped = do r ← skip_layer b'; go_on r next
      if wideband == 0 then some (pos 0, b') else skipped
    in if too_short b 5 then some (negsuc 0, b) else read

unfoldable pub skip_layers : SpeexBits → Outcome
skip_layers b = optional_layer (optional_layer no_third_layer) b

pub data Search : Type 0 where
  found : Search
  returned : ℤ → Search
  unfinished : Search

module _ {P : Type 0} (run : P → ℕ → Handler (DecState P)) where
  -- The function of entry `id`, with its data.
  unfoldable pub registered : List (SpeexCallback P) → ℕ → Option (Handler (DecState P))
  registered callbacks id = do c ← get_elem? callbacks id; f ← c.func; some (run f c.user_data)

  -- A null user callback cannot be called.
  unfoldable pub user_handler : SpeexCallback P → Handler (DecState P)
  user_handler c b st = do f ← c.func; run f c.user_data b st

  -- A request is handled, and the search goes on where the handler gives 0.
  abbrev pub resume :
      (SpeexBits → DecState P → Option (Search × SpeexBits × DecState P))
      → ℤ × SpeexBits × DecState P
      → Option (Search × SpeexBits × DecState P)
  resume k (pos zero, b, st) = k b st
  resume k (pos (suc n), b, st) = some (returned (pos (suc n)), b, st)
  resume k (negsuc n, b, st) = some (returned (negsuc n), b, st)

  -- What follows the number `m` of a mode or a request; `k` is the next turn of the loop.
  unfoldable pub dispatch :
      (SpeexBits → DecState P → Option (Search × SpeexBits × DecState P))
      → ℕ
      → SpeexBits
      → DecState P
      → Option (Search × SpeexBits × DecState P)
  dispatch k m b st =
      let inband = do r ← inband_handler (registered st.speex_callbacks) b st; resume k r
      in let user = do r ← user_handler st.user_callback b st; resume k r
        in if m == 15
          then some (returned (negsuc 0), b, st)
          else if m == 14
          then inband
          else if m == 13
          then user
          else if ltb 8 m
          then some (returned (negsuc 1), b, st)
          else some (found, b, record st { submode_id = pos m })

  -- A turn of the loop behind the wideband layers.
  unfoldable pub read_mode :
      (SpeexBits → DecState P → Option (Search × SpeexBits × DecState P))
      → DecState P
      → ℤ × SpeexBits
      → Option (Search × SpeexBits × DecState P)
  read_mode k st (pos zero, b) =
      let read = do (m, b') ← unpack_unsigned b 4; dispatch k m b' st
      in if too_short b 4 then some (returned (negsuc 0), b, st) else read
  read_mode k st (pos (suc n), b) = some (returned (pos (suc n)), b, st)
  read_mode k st (negsuc n, b) = some (returned (negsuc n), b, st)

  unfoldable pub search_block :
      ℕ → SpeexBits → DecState P → Option (Search × SpeexBits × DecState P)
  search_block zero b st = some (unfinished, b, st)
  search_block (suc n) b st = do r ← skip_layers b; read_mode (search_block n) st r
