-- ===== src/Smb1/Packet.antt =====
-- internal/smb1/encoder.go: whole packets, and the bounds-checked reads of single values.
pub mod RoundTrip
pub mod Decode
use smb1client.Common.{
  ℕ, ◌+◌, ◌-◌, ◌*◌, ◌/◌, ◌%◌, ◌^◌, ◌≡◌, Bool, true, false, not, ◌&&◌, ◌||◌, Option, none, some,
  List, [], ◌∷◌, ◌++◌, length, ltb, leb, ◌==◌, if◌then◌else◌, Outcome, ok, err, panic, ◌>>=◌,
  map_err,
}
use smb1client.Common.Int.{ℤ, pos, negsuc}
use smb1client.Wire.{
  Bytes, put_u16, put_u32, put_u64, byte_at, u16_of, u16_at, u32_at, u64_at, slice, index, cut,
}
use smb1client.Smb1.Header.{Header, HeaderError, header_size, encode, decode_header}

abbrev pub max_parameters_size : ℕ
max_parameters_size = 255 * 2

abbrev pub max_data_size : ℕ
max_data_size = 130048

abbrev pub max_small_data_size : ℕ
max_small_data_size = 65520

-- `bad_header` wraps what `DecodeHeader` returned.
pub data PacketError : Type 0 where
  nil_header odd_parameters parameters_too_large data_too_large : PacketError
  packet_too_short parameters_truncated data_truncated : PacketError
  bad_header : HeaderError → PacketError

-- `uint16(len(data)&0xFFFF)`
abbrev pub byte_count_of : Bytes → ℕ
byte_count_of d = length d % 2 ^ 16

unfoldable pub encode_packet : Option Header → Bytes → Bytes → Outcome PacketError Bytes
encode_packet none params content = err nil_header
encode_packet (some header) params content =
    if not (length params % 2 == 0)
    then err odd_parameters
    else if ltb max_parameters_size (length params)
    then err parameters_too_large
    else if ltb max_data_size (length content)
    then err data_too_large
    else ok (
        encode header
        ++ (length params / 2 % 256 ∷ params ++ (put_u16 (byte_count_of content) ++ content)))

pub record Packet : Type 0 where
  pub header : Header
  pub parameters : Bytes
  pub content : Bytes

abbrev pub min_packet_size : ℕ
min_packet_size = header_size + 1 + 2

-- What follows the word count: the parameters, the byte count, and all the bytes that are left.
unfoldable pub decode_sections : Header → Bytes → ℕ → Outcome PacketError Packet
decode_sections header raw params_size =
    let params_offset = header_size + 1 in
    let byte_count_offset = params_offset + params_size in
    let data_offset = byte_count_offset + 2 in
    if ltb (length raw) (byte_count_offset + 2) then err parameters_truncated else do
      count ← cut raw byte_count_offset (byte_count_offset + 2)
      let byte_count = u16_of count
      let data_size = length raw - data_offset
      if ltb data_size byte_count && (not (byte_count == 0xFFFF) || data_size == 0)
          then err data_truncated
          else do
            params ← cut raw params_offset (params_offset + params_size)
            content ← cut raw data_offset (data_offset + data_size)
            ok (record { header = header; parameters = params; content = content })

unfoldable pub decode_packet : Bytes → Outcome PacketError Packet
decode_packet raw = if ltb (length raw) min_packet_size then err packet_too_short else do
  front ← cut raw 0 header_size
  header ← map_err bad_header (decode_header front)
  word_count ← index raw header_size
  decode_sections header raw (word_count * 2)
