-- ===== src/Header.antt =====
-- jni/speex_header.c and jni/speex/speex_header.h: the header packet of a stream. A `char` is the
-- byte that holds it; the build is little-endian, so `le_int` is the identity. A result `none` is a
-- read outside the packet.
pub mod Laws
mod Tests
use securecom_voice.Base.{
  ℕ, zero, suc, ◌+◌, ◌-◌, ◌*◌, ◌/◌, ◌%◌, ◌^◌, Bool, true, false, ◌||◌, Option, none, some, List, [],
  ◌∷◌, ◌++◌, length, take, drop, replicate, ltb, leb, ◌==◌, if◌then◌else◌, ◌>>=◌,
}
use securecom_voice.Base.Int.{ℤ, pos, negsuc, ltb_ℤ, leb_ℤ, pattern32, signed32}

pub record SpeexHeader : Type 0 where
  pub speex_string : List ℕ
  pub speex_version : List ℕ
  pub speex_version_id : ℤ
  pub header_size : ℤ
  pub rate : ℤ
  pub mode : ℤ
  pub mode_bitstream_version : ℤ
  pub nb_channels : ℤ
  pub bitrate : ℤ
  pub frame_size : ℤ
  pub vbr : ℤ
  pub frames_per_packet : ℤ
  pub extra_headers : ℤ
  pub reserved1 : ℤ
  pub reserved2 : ℤ

-- What `speex_init_header` reads of a mode.
pub record SpeexMode : Type 0 where
  pub mode_id : ℤ
  pub bitstream_version : ℤ
  pub mode_frame_size : ℤ

-- `Speex` and three spaces.
abbrev pub identifier : List ℕ
identifier = 0x53 ∷ 0x70 ∷ 0x65 ∷ 0x65 ∷ 0x78 ∷ 0x20 ∷ 0x20 ∷ 0x20 ∷ []

-- `speex-1.2beta3`.
abbrev pub version : List ℕ
version =
    0x73 ∷ 0x70 ∷ 0x65 ∷ 0x65 ∷ 0x78 ∷ 0x2d ∷ 0x31 ∷ 0x2e ∷ 0x32 ∷ 0x62 ∷ 0x65 ∷ 0x74 ∷ 0x61 ∷ 0x33
    ∷ []

-- `sizeof(SpeexHeader)`.
abbrev pub header_bytes : ℕ
header_bytes = 80

-- The loops that copy a text into a field of `n + 1` bytes: at most `n` characters, then zeros.
unfoldable pub fill_text : ℕ → List ℕ → List ℕ
fill_text zero text = 0 ∷ []
fill_text (suc n) [] = replicate (suc (suc n)) 0
fill_text (suc n) (c ∷ text) = c ∷ fill_text n text

unfoldable pub init_header : ℤ → ℤ → SpeexMode → SpeexHeader
unfolding fill_text
init_header rate nb_channels m = record {
  speex_string = identifier;
  speex_version = fill_text 19 version;
  speex_version_id = pos 1;
  header_size = pos header_bytes;
  rate = rate;
  mode = m.mode_id;
  mode_bitstream_version = m.bitstream_version;
  nb_channels = nb_channels;
  bitrate = negsuc 0;
  frame_size = m.mode_frame_size;
  vbr = pos 0;
  frames_per_packet = pos 0;
  extra_headers = pos 0;
  reserved1 = pos 0;
  reserved2 = pos 0;
}

-- The four bytes of an `spx_int32_t`, the lowest first.
unfoldable pub int_bytes : ℤ → List ℕ
int_bytes z =
    let w = pattern32 z in w % 256 ∷ w / 2 ^ 8 % 256 ∷ w / 2 ^ 16 % 256 ∷ w / 2 ^ 24 % 256 ∷ []

unfoldable pub read_int : List ℕ → Option (ℤ × List ℕ)
read_int (a ∷ b ∷ c ∷ d ∷ rest) =
    some (signed32 ((a + b * 2 ^ 8 + c * 2 ^ 16 + d * 2 ^ 24) % 2 ^ 32), rest)
read_int xs = none

-- `speex_header_to_packet`: the bytes of the structure; their number is the size.
unfoldable pub header_to_packet : SpeexHeader → List ℕ
header_to_packet h =
    h.speex_string
    ++ (h.speex_version
        ++ (int_bytes h.speex_version_id
            ++ (int_bytes h.header_size
                ++ (int_bytes h.rate
                    ++ (int_bytes h.mode
                        ++ (int_bytes h.mode_bitstream_version
                            ++ (int_bytes h.nb_channels
                                ++ (int_bytes h.bitrate
                                    ++ (int_bytes h.frame_size
                                        ++ (int_bytes h.vbr
                                            ++ (int_bytes h.frames_per_packet
                                                ++ (int_bytes h.extra_headers
                                                    ++ (int_bytes h.reserved1
                                                        ++ (int_bytes h.reserved2
                                                            ++ []))))))))))))))

-- The integers of the structure, behind its two texts.
unfoldable pub read_ints : List ℕ → List ℕ → List ℕ → Option SpeexHeader
read_ints text ver p0 = do
  (speex_version_id, p1) ← read_int p0
  (header_size, p2) ← read_int p1
  (rate, p3) ← read_int p2
  (mode, p4) ← read_int p3
  (mode_bitstream_version, p5) ← read_int p4
  (nb_channels, p6) ← read_int p5
  (bitrate, p7) ← read_int p6
  (frame_size, p8) ← read_int p7
  (vbr, p9) ← read_int p8
  (frames_per_packet, p10) ← read_int p9
  (extra_headers, p11) ← read_int p10
  (reserved1, p12) ← read_int p11
  (reserved2, p13) ← read_int p12
  some (record {
    speex_string = text;
    speex_version = ver;
    speex_version_id = speex_version_id;
    header_size = header_size;
    rate = rate;
    mode = mode;
    mode_bitstream_version = mode_bitstream_version;
    nb_channels = nb_channels;
    bitrate = bitrate;
    frame_size = frame_size;
    vbr = vbr;
    frames_per_packet = frames_per_packet;
    extra_headers = extra_headers;
    reserved1 = reserved1;
    reserved2 = reserved2;
  })

-- The copy of `sizeof(SpeexHeader)` bytes.
unfoldable pub read_struct : List ℕ → Option SpeexHeader
read_struct packet =
    if ltb (length packet) header_bytes
    then none
    else read_ints (take 8 packet) (take 20 (drop 8 packet)) (drop 28 packet)

-- The comparison with the identifier, which stops at the first difference.
unfoldable pub starts_with : List ℕ → List ℕ → Option Bool
starts_with [] packet = some true
starts_with (c ∷ text) [] = none
starts_with (c ∷ text) (x ∷ packet) =
    let rest = starts_with text packet in if c == x then rest else some false

unfoldable pub clamp_channels : SpeexHeader → SpeexHeader
clamp_channels h = record h {
  nb_channels =
      if ltb_ℤ (pos 2) h.nb_channels
      then pos 2
      else if ltb_ℤ h.nb_channels (pos 1)
      then pos 1
      else h.nb_channels;
}

-- What `speex_packet_to_header` does with the structure it copied; the inner `none` is its NULL.
unfoldable pub check_header : SpeexHeader → Option SpeexHeader
check_header h =
    if leb_ℤ (pos 3) h.mode || ltb_ℤ h.mode (pos 0) then none else some (clamp_channels h)

unfoldable pub packet_to_header : List ℕ → ℕ → Option (Option SpeexHeader)
packet_to_header packet size = do
  matches ← starts_with identifier packet
  if matches
      then (if ltb size header_bytes
          then some none
          else (read_struct packet >>= λ h. some (check_header h)))
      else some none
