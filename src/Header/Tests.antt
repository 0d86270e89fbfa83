-- ===== src/Header/Tests.antt =====
-- Headers and packets at concrete inputs.
use securecom_voice.Base.{◌≡◌, refl, ◌||◌, none, some, [], ◌∷◌, arith, if◌then◌else◌}
use securecom_voice.Base.Int.{pos, negsuc, leb_ℤ, ltb_ℤ}
use securecom_voice.Header.{
  SpeexHeader, SpeexMode, header_bytes, header_to_packet, packet_to_header, init_header, fill_text,
  int_bytes,
}
use securecom_voice.Header.Laws.{IsHeader, packet_to_header-header_to_packet}

abbrev narrowband : SpeexMode
narrowband = record { mode_id = pos 0; bitstream_version = pos 4; mode_frame_size = pos 160 }

-- A header for eight channels, which no decoder has.
abbrev eight_channels : SpeexHeader
eight_channels = init_header (pos 8000) (pos 8) narrowband

eight_channels-IsHeader : IsHeader eight_channels
unfolding init_header fill_text
eight_channels-IsHeader = record {
  identified = refl;
  version_size = refl;
  version_id_fits = omega arith;
  size_fits = omega arith;
  rate_fits = omega arith;
  mode_fits = omega arith;
  bitstream_fits = omega arith;
  channels_fit = omega arith;
  bitrate_fits = omega arith;
  frame_fits = omega arith;
  vbr_fits = omega arith;
  packet_fits = omega arith;
  extra_fits = omega arith;
  first_reserved_fits = omega arith;
  second_reserved_fits = omega arith;
}

packet_to_header-header_to_packet_example :
    packet_to_header (header_to_packet eight_channels) header_bytes
    ≡ some (
        if leb_ℤ (pos 3) eight_channels.mode || ltb_ℤ eight_channels.mode (pos 0)
        then none
        else some (record eight_channels {
          nb_channels = if ltb_ℤ (pos 1) eight_channels.nb_channels then pos 2 else pos 1;
        }))
packet_to_header-header_to_packet_example =
    packet_to_header-header_to_packet eight_channels eight_channels-IsHeader

bitrate_bytes : int_bytes (negsuc 0) ≡ 255 ∷ 255 ∷ 255 ∷ 255 ∷ []
unfolding int_bytes
bitrate_bytes = refl
