-- ===== src/SpeexCodec.antt =====
-- jni/SpeexCodec.cpp: what the application calls of the codec. The state is that of the file's static
-- variables. `FrameCoder` stands for what lies behind `speex_encode_int` and `speex_decode_int`. An
-- array of the caller is a list; `raised` is the exception that a copy into a Java array raises
-- where the samples do not fit. A result `none` is an access outside an array, or through a pointer
-- that is null or whose object was freed.
pub mod Loop
pub mod Decode
pub mod Encode
pub mod Open
mod Tests
use securecom_voice.Base.{
  ℕ, zero, suc, ◌+◌, ◌*◌, Bool, true, false, Option, none, some, List, [], ◌++◌, length, take, drop,
  leb, if◌then◌else◌, ◌>>=◌,
}
use securecom_voice.Base.Int.{ℤ, pos, negsuc}
use securecom_voice.Memory.{Allocator}
use securecom_voice.Bits.{SpeexBits}
use securecom_voice.Bits
use securecom_voice.Bits.Transfer.{read_from, write}
use securecom_voice.Plc.{write_at}

abbrev pub max_dec_frames : ℕ
max_dec_frames = 10

-- A codec's object: alive in a state, or freed.
pub data Handle (S : Type 0) : Type 0 where
  live : S → Handle S
  freed : Handle S

-- `decode_frame` gives the value returned and the samples written; a null pointer to the bits asks
-- for a frame that was lost. `encode_frame` takes a frame of samples.
pub record FrameCoder (E D : Type 0) : Type 0 where
  pub encode_frame : E → List ℤ → SpeexBits → Option (E × SpeexBits)
  pub decode_frame : D → Option SpeexBits → Option (ℤ × List ℤ × D × Option SpeexBits)

-- `none` in `enc` and `dec` is the null pointer, in the streams one that is not set up. Of
-- `enc_buffer` the size is kept: a call reads only what it has written.
pub record SpeexCodec (E D : Type 0) : Type 0 where
  pub enc : Option (Handle E)
  pub dec : Option (Handle D)
  pub enc_bits : Option SpeexBits
  pub dec_bits : Option SpeexBits
  pub enc_frame_size : ℕ
  pub dec_frame_size : ℕ
  pub initialized : Bool
  pub dec_buffer : List ℤ
  pub enc_buffer : ℕ

-- A call that comes back with its result and the caller's array, one that raises an exception, and
-- one that is still in its loop.
pub data Call (A S : Type 0) : Type 0 where
  came_back : ℤ → List A → S → Call A S
  raised : S → Call A S
  running : Call A S

-- The object that a pointer points to.
abbrev pub deref : {S : Type 0} → Option (Handle S) → Option S
deref none = none
deref (some freed) = none
deref (some (live s)) = some s

-- `SetShortArrayRegion` and `SetByteArrayRegion` from the start of the array, and the return.
unfoldable pub set_region : {A S : Type 0} → List A → List A → S → Call A S
set_region array xs s =
    if leb (length xs) (length array)
    then came_back (pos (length xs)) (xs ++ drop (length xs) array) s
    else raised s

-- Where the decoder's loop stands: what it leaves in the buffer, up to where, or out of fuel.
pub data Decoding (D : Type 0) : Type 0 where
  stopped : ℕ → List ℤ → D → Option SpeexBits → Decoding D
  unfinished : Decoding D

abbrev pub is_null : {A : Type 0} → Option A → Bool
is_null none = true
is_null (some a) = false

abbrev pub is_ok : ℤ → Bool
is_ok (pos zero) = true
is_ok _ = false

module _ {E D : Type 0} (coder : FrameCoder E D) where
  -- The loop, for frames of `size` samples and an array of `len`; `idx` is `dec_buffer_idx`.
  unfoldable pub decode_loop :
      ℕ → (size len idx : ℕ) → List ℤ → D → Option SpeexBits → Option (Decoding D)
  decode_loop zero size len idx buffer d bits = some unfinished
  decode_loop (suc n) size len idx buffer d bits = do
    (r, samples, d', bits') ← coder.decode_frame d bits
    let buffer' = write_at buffer idx samples
    let idx' = idx + size
    let rest = decode_loop n size len idx' buffer' d' bits'
    let after =
        if leb len (idx' + size)
        then some (stopped idx' buffer' d' bits')
        else if leb (size * max_dec_frames) (idx' + size)
        then some (stopped idx' buffer' d' bits')
        else if is_null bits
        then some (stopped idx' buffer' d' bits')
        else rest
    let checked = if is_ok r then after else some (stopped idx buffer' d' bits')
    if leb (idx + length samples) (length buffer) then checked else none

  -- What is copied to the caller's array once the loop is left.
  unfoldable pub hand_out : SpeexCodec E D → List ℤ → Bool → Decoding D → Call ℤ (SpeexCodec E D)
  hand_out c dec_arr lost unfinished = running
  hand_out c dec_arr lost (stopped idx buffer d bits) =
      set_region dec_arr (take idx buffer) (record c {
        dec = some (live d);
        dec_bits = if lost then c.dec_bits else bits;
        dec_buffer = buffer;
      })

  -- `none` in `enc_arr` is a null reference, and in `dec_arr` too.
  unfoldable pub decode :
      Allocator
      → ℕ
      → SpeexCodec E D
      → Option (List ℕ)
      → Option (List ℤ)
      → ℕ
      → Option (Call ℤ (SpeexCodec E D))
  decode a fuel c enc_arr none enc_len = some (came_back (negsuc 0) [] c)
  decode a fuel c none (some dec_arr) enc_len =
      let decoded = do
        d ← deref c.dec
        t ← decode_loop fuel c.dec_frame_size (length dec_arr) 0 c.dec_buffer d none
        some (hand_out c dec_arr true t)
      in if c.initialized then decoded else some (came_back (negsuc 0) dec_arr c)
  decode a fuel c (some packet) (some dec_arr) enc_len =
      let decoded = do
        bits ← c.dec_bits
        bits' ← read_from a bits packet enc_len
        d ← deref c.dec
        t ← decode_loop fuel c.dec_frame_size (length dec_arr) 0 c.dec_buffer d (some bits')
        some (hand_out c dec_arr false t)
      in if c.initialized then decoded else some (came_back (negsuc 0) dec_arr c)

  -- `raw_len` is not used: a frame is read of `dec_arr`, however long it is.
  unfoldable pub encode :
      Allocator → SpeexCodec E D → List ℤ → List ℕ → ℕ → Option (Call ℕ (SpeexCodec E D))
  encode a c dec_arr enc_arr raw_len =
      let encoded = do
        bits ← c.enc_bits
        clear ← Bits.reset bits
        e ← deref c.enc
        frame ←
            if leb c.enc_frame_size (length dec_arr)
            then some (take c.enc_frame_size dec_arr)
            else none
        (e', full) ← coder.encode_frame e frame clear
        (packet, written) ← write a full c.enc_frame_size
        let c' : SpeexCodec E D = record c { enc = some (live e'); enc_bits = some written }
        if leb (length packet) c.enc_buffer then some (set_region enc_arr packet c') else none
      in if c.initialized then encoded else some (came_back (negsuc 0) enc_arr c)

-- The objects are freed, and `initialized` stays as it is.
unfoldable pub close_speex : {E D : Type 0} → SpeexCodec E D → Option (SpeexCodec E D)
close_speex c =
    let closed = do
      eb ← c.enc_bits
      db ← c.dec_bits
      e ← deref c.enc
      d ← deref c.dec
      some (record c { enc = some freed; dec = some freed; enc_bits = none; dec_bits = none })
    in if c.initialized then closed else some c
