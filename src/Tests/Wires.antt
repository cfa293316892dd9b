-- ===== src/Tests/Wires.antt =====
-- Headers, packets and transaction messages, as bytes.
use smb1client.Common.{
  ◌+◌, ◌*◌, ◌≡◌, ◌≢◌, refl, some, [], ◌∷◌, ◌++◌, arith, length, take, ok, panic,
}
use smb1client.Wire.{Bytes, AllBytes, byte_at, cut, index}
use smb1client.Smb1.Header.{
  Header, IsHeader, new_header, encode, decode_header, header_size, header_fields, protocol_smb1,
}
use smb1client.Smb1.Header.RoundTrip.{encode-decode}
use smb1client.Smb1.Packet.{Packet, encode_packet, decode_packet, decode_sections}
use smb1client.Smb1.Packet.RoundTrip.{laid_out, decode_packet-encode_packet}
use smb1client.Smb1.Packet.Decode.{decode_packet-ne-panic, decode_packet_sound}
use smb1client.Smb1.Trans2.{
  Trans2Response, decode_trans2_response, section_at, decode_setup, read_setup,
}
use smb1client.Smb1.Trans2.Decode.{AreSections, decode_trans2_sound, decode_trans2-ne-panic}

abbrev negotiate : Header
negotiate = new_header 0x72

negotiate-IsHeader : IsHeader negotiate
unfolding new_header
negotiate-IsHeader = record {
  protocol_bytes = (omega arith, omega arith, omega arith, omega arith);
  command_byte = omega arith;
  status_u32 = omega arith;
  flags_byte = omega arith;
  flags2_u16 = omega arith;
  pid_high_u16 = omega arith;
  security_low = (omega arith, omega arith, omega arith, omega arith);
  security_high = (omega arith, omega arith, omega arith, omega arith);
  reserved_u16 = omega arith;
  tid_u16 = omega arith;
  pid_low_u16 = omega arith;
  uid_u16 = omega arith;
  mid_u16 = omega arith;
}

-- The header of a NEGOTIATE request as it stands on the wire.
abbrev header_bytes : Bytes
header_bytes =
    0xff ∷ 0x53 ∷ 0x4d ∷ 0x42 ∷ 0x72 ∷ 0 ∷ 0 ∷ 0 ∷ 0 ∷ 0x18 ∷ 0x03 ∷ 0xc8 ∷ 0 ∷ 0 ∷ 0 ∷ 0 ∷ 0 ∷ 0
    ∷ 0 ∷ 0 ∷ 0 ∷ 0 ∷ 0 ∷ 0 ∷ 0 ∷ 0 ∷ 1 ∷ 0 ∷ 0 ∷ 0 ∷ 0 ∷ 0 ∷ []

-- One parameter word and three bytes of data.
abbrev packet_bytes : Bytes
packet_bytes = header_bytes ++ (1 ∷ 9 ∷ 8 ∷ 3 ∷ 0 ∷ 5 ∷ 6 ∷ 7 ∷ [])

abbrev packet : Packet
packet = record { header = negotiate; parameters = 9 ∷ 8 ∷ []; content = 5 ∷ 6 ∷ 7 ∷ [] }

packet_bytes-AllBytes : AllBytes packet_bytes
packet_bytes-AllBytes = ground arith

negotiate_bytes : encode negotiate ≡ header_bytes
unfolding encode new_header
negotiate_bytes = refl

negotiate_read : decode_header header_bytes ≡ ok negotiate
unfolding decode_header header_fields new_header
negotiate_read = refl

packet_written : encode_packet (some negotiate) (9 ∷ 8 ∷ []) (5 ∷ 6 ∷ 7 ∷ []) ≡ ok packet_bytes
unfolding encode_packet encode new_header
packet_written = refl

packet_read : decode_packet packet_bytes ≡ ok packet
unfolding decode_packet decode_sections decode_header header_fields new_header cut index
packet_read = refl

encode-decode_example :
    (encode negotiate ≡ take header_size header_bytes)
    × IsHeader negotiate
    × (negotiate.protocol ≡ protocol_smb1)
encode-decode_example = encode-decode header_bytes negotiate (ground arith) negotiate_read

decode_packet-encode_packet_example : decode_packet packet_bytes ≡ ok packet
unfolding new_header
decode_packet-encode_packet_example =
    decode_packet-encode_packet negotiate (9 ∷ 8 ∷ []) (5 ∷ 6 ∷ 7 ∷ []) negotiate-IsHeader refl
      packet_written

decode_packet-ne-panic_example : decode_packet packet_bytes ≢ panic
decode_packet-ne-panic_example = decode_packet-ne-panic packet_bytes

decode_packet_sound_example :
    IsHeader packet.header
    × (packet.header.protocol ≡ protocol_smb1)
    × (length packet.parameters ≡ byte_at packet_bytes 32 * 2)
    × (packet_bytes
        ≡ laid_out
            (encode packet.header)
            packet.parameters
            packet.content
            (byte_at packet_bytes 32)
            (byte_at packet_bytes (33 + byte_at packet_bytes 32 * 2))
            (byte_at packet_bytes (34 + byte_at packet_bytes 32 * 2)))
decode_packet_sound_example = decode_packet_sound packet_bytes packet_bytes-AllBytes packet_read

-- The parameter words of a response with four parameter bytes at offset 56, and two data bytes behind.
abbrev response_words : Bytes
response_words =
    4 ∷ 0 ∷ 2 ∷ 0 ∷ 0 ∷ 0 ∷ 4 ∷ 0 ∷ 56 ∷ 0 ∷ 0 ∷ 0 ∷ 2 ∷ 0 ∷ 60 ∷ 0 ∷ 0 ∷ 0 ∷ 0 ∷ 0 ∷ []

abbrev response_bytes : Bytes
response_bytes = 0 ∷ 11 ∷ 12 ∷ 13 ∷ 14 ∷ 21 ∷ 22 ∷ []

abbrev response : Trans2Response
response = record {
  total_parameter_count = 4;
  total_data_count = 2;
  reserved = 0;
  parameter_count = 4;
  parameter_offset = 56;
  parameter_displacement = 0;
  data_count = 2;
  data_offset = 60;
  data_displacement = 0;
  setup_count = 0;
  reserved2 = 0;
  setup = [];
  parameters = 11 ∷ 12 ∷ 13 ∷ 14 ∷ [];
  content = 21 ∷ 22 ∷ [];
}

response_read : decode_trans2_response response_words response_bytes ≡ ok response
unfolding decode_trans2_response section_at decode_setup read_setup cut index
response_read = refl

decode_trans2_sound_example : AreSections response_words response_bytes response
decode_trans2_sound_example = decode_trans2_sound response_words response_bytes response_read

decode_trans2-ne-panic_example : decode_trans2_response response_words response_bytes ≢ panic
decode_trans2-ne-panic_example = decode_trans2-ne-panic response_words response_bytes
