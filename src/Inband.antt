-- ===== src/Inband.antt =====
-- jni/speex_callbacks.c: the requests inside the bit stream, and the standard handlers that act on
-- a narrowband encoder. `S` is what the handlers act on; the caller's array of callbacks is a
-- function, `none` where no function is registered. The handler for the decoder's enhancer
-- (`speex_std_enh_request_handler`) stands in Codec/Decoder/Callbacks.
pub mod Laws
use securecom_voice.Base.{
  ℕ, ◌+◌, ◌*◌, Option, none, some, List, [], ◌∷◌, ◌++◌, ltb, if◌then◌else◌, ◌>>=◌,
}
use securecom_voice.Base.Int.{ℤ, pos}
use securecom_voice.Bits.{SpeexBits}
use securecom_voice.Bits.Unpack.{unpack_unsigned, advance}
use securecom_voice.Codec.Requests.{
  EncState, mode, vbr, write_field, set_vbr_quality, unknown, Request,
}
use securecom_voice.Codec.Encoder.{encoder_ctl}

-- The size of a request that has no handler.
unfoldable pub skipped : ℕ → ℕ
skipped id =
    if ltb id 2
    then 1
    else if ltb id 8
    then 4
    else if ltb id 10
    then 8
    else if ltb id 12
    then 16
    else if ltb id 14
    then 32
    else 64

abbrev pub Handler : Type 0 → Type 0
Handler S = SpeexBits → S → Option (ℤ × SpeexBits × S)

unfoldable pub inband_handler : {S : Type 0} → (ℕ → Option (Handler S)) → Handler S
inband_handler callbacks b s = do
  (id, b') ← unpack_unsigned b 4
  elim (callbacks id) [
    | none ↦ some (pos 0, advance b' (skipped id), s)
    | some handler ↦ handler b' s
  ]

module _ {F : Type 0} (of_int : ℤ → F) where
  -- A request to the encoder made of the next `n` bits; its reply is not looked at.
  abbrev pub request_of_bits : ℕ → (ℕ → Request F) → Handler (EncState F)
  request_of_bits n request b st = do
    (m, b') ← unpack_unsigned b n
    (reply, st') ← encoder_ctl of_int st (request m)
    some (pos 0, b', st')

  unfoldable pub std_mode_request_handler : Handler (EncState F)
  std_mode_request_handler = request_of_bits 4 (λ m. write_field mode (pos m))

  unfoldable pub std_low_mode_request_handler : Handler (EncState F)
  std_low_mode_request_handler = request_of_bits 4 (λ m. write_field mode (pos m))

  -- The narrowband encoder has no `SPEEX_SET_HIGH_MODE`.
  unfoldable pub std_high_mode_request_handler : Handler (EncState F)
  std_high_mode_request_handler = request_of_bits 4 (λ m. unknown)

  unfoldable pub std_vbr_request_handler : Handler (EncState F)
  std_vbr_request_handler = request_of_bits 1 (λ m. write_field vbr (pos m))

  unfoldable pub std_vbr_quality_request_handler : Handler (EncState F)
  std_vbr_quality_request_handler = request_of_bits 4 (λ m. set_vbr_quality (of_int (pos m)))

-- The characters go to a stream, here the list of those put so far.
unfoldable pub std_char_handler : Handler (List ℕ)
std_char_handler b out = do (ch, b') ← unpack_unsigned b 8; some (pos 0, b', out ++ ch ∷ [])

unfoldable pub default_user_handler : {S : Type 0} → Handler S
default_user_handler b s = do
  (req_size, b') ← unpack_unsigned b 4
  some (pos 0, advance b' (5 + 8 * req_size), s)
