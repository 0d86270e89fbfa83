-- ===== src/Header/Laws.antt =====
-- What a header packet carries, and which packets are refused.
use securecom_voice.Base.{
  ℕ, ◌+◌, ◌*◌, ◌/◌, ◌%◌, ◌^◌, ◌<◌, ◌≡◌, refl, sym, ap, ◌∙◌, true, ◌||◌, none, some, List, [], ◌∷◌,
  ◌++◌, arith, length, length-append, take, drop, take-append, drop-exact, if◌then◌else◌,
}
use securecom_voice.Base.Int.{ℤ, pos, negsuc, ◌≤ℤ◌, ltb_ℤ, leb_ℤ, pattern32, signed32}
use securecom_voice.Header.{
  SpeexHeader, identifier, header_bytes, int_bytes, read_int, header_to_packet, read_ints,
  read_struct, starts_with, clamp_channels, check_header, packet_to_header,
}

-- The range of an `spx_int32_t`.
abbrev pub IsInt32 : ℤ → Type 0
IsInt32 z = (negsuc 2147483647 ≤ℤ z) × (z ≤ℤ pos 2147483647)

pub record IsHeader (h : SpeexHeader) : Type 0 where
  pub identified : h.speex_string ≡ identifier
  pub version_size : length h.speex_version ≡ 20
  pub version_id_fits : IsInt32 h.speex_version_id
  pub size_fits : IsInt32 h.header_size
  pub rate_fits : IsInt32 h.rate
  pub mode_fits : IsInt32 h.mode
  pub bitstream_fits : IsInt32 h.mode_bitstream_version
  pub channels_fit : IsInt32 h.nb_channels
  pub bitrate_fits : IsInt32 h.bitrate
  pub frame_fits : IsInt32 h.frame_size
  pub vbr_fits : IsInt32 h.vbr
  pub packet_fits : IsInt32 h.frames_per_packet
  pub extra_fits : IsInt32 h.extra_headers
  pub first_reserved_fits : IsInt32 h.reserved1
  pub second_reserved_fits : IsInt32 h.reserved2

signed32-pattern32 : (z : ℤ) → IsInt32 z → signed32 (pattern32 z) ≡ z
signed32-pattern32 z h = ground (arith, h.0, h.1)

pattern32-lt : (z : ℤ) → pattern32 z < 2 ^ 32
pattern32-lt z = ground arith

four_bytes :
    (w : ℕ)
    → w < 2 ^ 32
    → (w % 256 + w / 2 ^ 8 % 256 * 2 ^ 8 + w / 2 ^ 16 % 256 * 2 ^ 16 + w / 2 ^ 24 % 256 * 2 ^ 24)
        % 2 ^ 32
      ≡ w
four_bytes w h = omega arith

read_int-int_bytes :
    (z : ℤ) (rest : List ℕ) → IsInt32 z → read_int (int_bytes z ++ rest) ≡ some (z, rest)
unfolding read_int int_bytes
read_int-int_bytes z rest h =
    rw (four_bytes (pattern32 z) (pattern32-lt z), signed32-pattern32 z h) refl

-- The bytes of the integers from the last on.
module _ (h : SpeexHeader) where
  abbrev from13 : List ℕ
  from13 = int_bytes h.reserved2 ++ []

  abbrev from12 : List ℕ
  from12 = int_bytes h.reserved1 ++ from13

  abbrev from11 : List ℕ
  from11 = int_bytes h.extra_headers ++ from12

  abbrev from10 : List ℕ
  from10 = int_bytes h.frames_per_packet ++ from11

  abbrev from9 : List ℕ
  from9 = int_bytes h.vbr ++ from10

  abbrev from8 : List ℕ
  from8 = int_bytes h.frame_size ++ from9

  abbrev from7 : List ℕ
  from7 = int_bytes h.bitrate ++ from8

  abbrev from6 : List ℕ
  from6 = int_bytes h.nb_channels ++ from7

  abbrev from5 : List ℕ
  from5 = int_bytes h.mode_bitstream_version ++ from6

  abbrev from4 : List ℕ
  from4 = int_bytes h.mode ++ from5

  abbrev from3 : List ℕ
  from3 = int_bytes h.rate ++ from4

  abbrev from2 : List ℕ
  from2 = int_bytes h.header_size ++ from3

  abbrev from1 : List ℕ
  from1 = int_bytes h.speex_version_id ++ from2

  read_ints_lem : IsHeader h → read_ints h.speex_string h.speex_version from1 ≡ some h
  unfolding read_ints
  read_ints_lem v =
      rw
        (
          read_int-int_bytes h.speex_version_id from2 v.version_id_fits,
          read_int-int_bytes h.header_size from3 v.size_fits,
          read_int-int_bytes h.rate from4 v.rate_fits,
          read_int-int_bytes h.mode from5 v.mode_fits,
          read_int-int_bytes h.mode_bitstream_version from6 v.bitstream_fits,
          read_int-int_bytes h.nb_channels from7 v.channels_fit,
          read_int-int_bytes h.bitrate from8 v.bitrate_fits,
          read_int-int_bytes h.frame_size from9 v.frame_fits,
          read_int-int_bytes h.vbr from10 v.vbr_fits,
          read_int-int_bytes h.frames_per_packet from11 v.packet_fits,
          read_int-int_bytes h.extra_headers from12 v.extra_fits,
          read_int-int_bytes h.reserved1 from13 v.first_reserved_fits,
          read_int-int_bytes h.reserved2 [] v.second_reserved_fits,
        )
        refl

-- The bytes of the integers, and where they stand.
length-from1 : (h : SpeexHeader) → length (from1 h) ≡ 52
unfolding int_bytes
length-from1 h = refl

header_to_packet_lem :
    (h : SpeexHeader) → header_to_packet h ≡ h.speex_string ++ (h.speex_version ++ from1 h)
unfolding header_to_packet
header_to_packet_lem h = refl

-- The bytes of a structure, with its two texts and its integers apart.
read_struct_lem :
    (ver ints : List ℕ)
    → length ver ≡ 20
    → length ints ≡ 52
    → read_struct (identifier ++ (ver ++ ints)) ≡ read_ints identifier ver ints
unfolding read_struct
read_struct_lem ver ints v i =
    let size : length (identifier ++ (ver ++ ints)) ≡ 80 =
      omega (arith, length-append identifier (ver ++ ints), length-append ver ints) in
    let text : take 20 (ver ++ ints) ≡ ver =
      ap (λ n. take n (ver ++ ints)) (sym v) ∙ take-append ver ints in
    let rest : drop 20 (ver ++ ints) ≡ ints = drop-exact ver ints 20 (sym v) in
    rw (size, text, rest) refl

starts_with-append : (text xs : List ℕ) → starts_with text (text ++ xs) ≡ some true
unfolding starts_with
starts_with-append [] xs = refl
starts_with-append (c ∷ text) xs = ground (arith, starts_with-append text xs)

channels_lem :
    (h : SpeexHeader)
    → clamp_channels h
      ≡ record h { nb_channels = if ltb_ℤ (pos 1) h.nb_channels then pos 2 else pos 1 }
unfolding clamp_channels
channels_lem h = ap (λ n. record h { nb_channels = n }) (clamped h.nb_channels)
  where
    clamped :
        (n : ℤ)
        → (if ltb_ℤ (pos 2) n then pos 2 else if ltb_ℤ n (pos 1) then pos 1 else n)
          ≡ (if ltb_ℤ (pos 1) n then pos 2 else pos 1)
    clamped n = ground arith

-- A header whose fields fit, made into a packet, comes back from it with one channel, or with two
-- where it had more than one, and all else as it was; it is refused where its mode is none of the
-- three.
pub packet_to_header-header_to_packet :
    (h : SpeexHeader)
    → IsHeader h
    → packet_to_header (header_to_packet h) header_bytes
      ≡ some (
          if leb_ℤ (pos 3) h.mode || ltb_ℤ h.mode (pos 0)
          then none
          else some
              (record h { nb_channels = if ltb_ℤ (pos 1) h.nb_channels then pos 2 else pos 1 }))
unfolding packet_to_header check_header
packet_to_header-header_to_packet h v =
    let packet : header_to_packet h ≡ identifier ++ (h.speex_version ++ from1 h) =
      header_to_packet_lem h ∙ ap (λ s. s ++ (h.speex_version ++ from1 h)) v.identified in
    let struct : read_struct (header_to_packet h) ≡ some h =
      ap read_struct packet
      ∙ read_struct_lem h.speex_version (from1 h) v.version_size (length-from1 h)
      ∙ ap (λ s. read_ints s h.speex_version (from1 h)) (sym v.identified)
      ∙ read_ints_lem h v in
    let text : starts_with identifier (header_to_packet h) ≡ some true =
      ap (starts_with identifier) packet ∙ starts_with-append identifier _ in
    rw (text, struct, channels_lem h) refl

starts_with_short :
    (text packet back : List ℕ)
    → text ≡ packet ++ back
    → length packet < length text
    → starts_with text packet ≡ none
unfolding starts_with
starts_with_short [] packet back e h = absurd (omega arith)
starts_with_short (c ∷ text) [] back e h = refl
starts_with_short (c ∷ text) (x ∷ packet) back e h =
    ground (arith, starts_with_short text packet back)

-- A packet that ends inside the identifier is read past its end, whatever size is given: the
-- comparison comes before the check of the size.
pub short_packet_overruns :
    (packet back : List ℕ) (size : ℕ)
    → identifier ≡ packet ++ back
    → length packet < 8
    → packet_to_header packet size ≡ none
unfolding packet_to_header
short_packet_overruns packet back size e h = rw (starts_with_short identifier packet back e h) refl
