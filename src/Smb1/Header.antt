-- ===== src/Smb1/Header.antt =====
-- internal/smb1/packet.go and constants.go: the 32-byte SMB header and the AndX header.
pub mod RoundTrip
pub mod Status
use Prim.Native.Nat.{bit_and}
use smb1client.Common.{
  ℕ, ◌+◌, ◌*◌, ◌<◌, ◌≡◌, Bool, true, false, not, ◌&&◌, List, [], ◌∷◌, ◌++◌, length, ltb, ◌==◌,
  if◌then◌else◌, Outcome, ok, err,
}
use smb1client.Wire.{Bytes, IsByte, IsU16, IsU32, put_u16, put_u32, byte_at, u16_at, u32_at}

-- A `[4]byte` and a `[8]byte`: arrays of a fixed length.
pub record Array4 : Type 0 where
  pub b0 : ℕ
  pub b1 : ℕ
  pub b2 : ℕ
  pub b3 : ℕ

pub record Array8 : Type 0 where
  pub low : Array4
  pub high : Array4

abbrev pub bytes4 : Array4 → Bytes
bytes4 a = a.b0 ∷ a.b1 ∷ a.b2 ∷ a.b3 ∷ []

abbrev pub bytes8 : Array8 → Bytes
bytes8 a = bytes4 a.low ++ bytes4 a.high

-- `copy(a[:], data[i:i+4])`
abbrev pub array4_at : Bytes → ℕ → Array4
array4_at b i = record {
  b0 = byte_at b i;
  b1 = byte_at b (i + 1);
  b2 = byte_at b (i + 2);
  b3 = byte_at b (i + 3);
}

abbrev pub header_size : ℕ
header_size = 32

-- "\xFFSMB"
abbrev pub protocol_smb1 : Array4
protocol_smb1 = record { b0 = 0xff; b1 = b'S'; b2 = b'M'; b3 = b'B' }

abbrev pub status_success : ℕ
status_success = 0x0000_0000

abbrev pub status_more_processing_required : ℕ
status_more_processing_required = 0xC000_0016

abbrev pub smb_flags_reply : ℕ
smb_flags_reply = 0x80

abbrev pub smb_com_no_andx_command : ℕ
smb_com_no_andx_command = 0xFF

pub record Header : Type 0 where
  pub protocol : Array4
  pub command : ℕ
  pub status : ℕ
  pub flags : ℕ
  pub flags2 : ℕ
  pub pid_high : ℕ
  pub security_features : Array8
  pub reserved : ℕ
  pub tid : ℕ
  pub pid_low : ℕ
  pub uid : ℕ
  pub mid : ℕ

-- The ranges that Go's field types give.
abbrev pub IsArray4 : Array4 → Type 0
IsArray4 a = IsByte a.b0 × IsByte a.b1 × IsByte a.b2 × IsByte a.b3

pub record IsHeader (h : Header) : Type 0 where
  pub protocol_bytes : IsArray4 h.protocol
  pub command_byte : IsByte h.command
  pub status_u32 : IsU32 h.status
  pub flags_byte : IsByte h.flags
  pub flags2_u16 : IsU16 h.flags2
  pub pid_high_u16 : IsU16 h.pid_high
  pub security_low : IsArray4 h.security_features.low
  pub security_high : IsArray4 h.security_features.high
  pub reserved_u16 : IsU16 h.reserved
  pub tid_u16 : IsU16 h.tid
  pub pid_low_u16 : IsU16 h.pid_low
  pub uid_u16 : IsU16 h.uid
  pub mid_u16 : IsU16 h.mid

-- The flags are 0x08 | 0x10, and 0x0001 | 0x8000 | 0x0800 | 0x4000 | 0x0002.
unfoldable pub new_header : ℕ → Header
new_header command = record {
  protocol = protocol_smb1;
  command = command;
  status = status_success;
  flags = 0x18;
  flags2 = 0xC803;
  pid_high = 0;
  security_features = record {
    low = record { b0 = 0; b1 = 0; b2 = 0; b3 = 0 };
    high = record { b0 = 0; b1 = 0; b2 = 0; b3 = 0 };
  };
  reserved = 0;
  tid = 0;
  pid_low = 1;
  uid = 0;
  mid = 0;
}

unfoldable pub encode : Header → Bytes
encode h =
    bytes4 h.protocol
    ++ (h.command ∷ put_u32 h.status
        ++ (h.flags ∷ put_u16 h.flags2
            ++ (put_u16 h.pid_high
                ++ (bytes8 h.security_features
                    ++ (put_u16 h.reserved
                        ++ (put_u16 h.tid
                            ++ (put_u16 h.pid_low ++ (put_u16 h.uid ++ put_u16 h.mid))))))))

pub data HeaderError : Type 0 where
  header_too_short bad_signature : HeaderError

abbrev pub array4_eq : Array4 → Array4 → Bool
array4_eq a b = a.b0 == b.b0 && (a.b1 == b.b1 && (a.b2 == b.b2 && a.b3 == b.b3))

-- The fields, read at their offsets.
unfoldable pub header_fields : Bytes → Header
header_fields raw = record {
  protocol = array4_at raw 0;
  command = byte_at raw 4;
  status = u32_at raw 5;
  flags = byte_at raw 9;
  flags2 = u16_at raw 10;
  pid_high = u16_at raw 12;
  security_features = record { low = array4_at raw 14; high = array4_at raw 18 };
  reserved = u16_at raw 22;
  tid = u16_at raw 24;
  pid_low = u16_at raw 26;
  uid = u16_at raw 28;
  mid = u16_at raw 30;
}

unfoldable pub decode_header : Bytes → Outcome HeaderError Header
decode_header raw =
    if ltb (length raw) header_size
    then err header_too_short
    else if not (array4_eq (array4_at raw 0) protocol_smb1)
    then err bad_signature
    else ok (header_fields raw)

unfoldable pub is_response : Header → Bool
is_response h = not (bit_and h.flags smb_flags_reply == 0)

unfoldable pub is_error : Header → Bool
is_error h =
    if h.status == status_more_processing_required
    then false
    else bit_and h.status 0xC000_0000 == 0xC000_0000

pub record AndXHeader : Type 0 where
  pub andx_command : ℕ
  pub andx_reserved : ℕ
  pub andx_offset : ℕ

unfoldable pub new_andx_header : AndXHeader
new_andx_header = record {
  andx_command = smb_com_no_andx_command;
  andx_reserved = 0;
  andx_offset = 0;
}

unfoldable pub encode_andx : AndXHeader → Bytes
encode_andx a = a.andx_command ∷ a.andx_reserved ∷ put_u16 a.andx_offset

unfoldable pub decode_andx : Bytes → Outcome HeaderError AndXHeader
decode_andx raw =
    if ltb (length raw) 4
    then err header_too_short
    else ok (record {
      andx_command = byte_at raw 0;
      andx_reserved = byte_at raw 1;
      andx_offset = u16_at raw 2;
    })

unfoldable pub has_chaining : AndXHeader → Bool
has_chaining a = not (a.andx_command == smb_com_no_andx_command)
