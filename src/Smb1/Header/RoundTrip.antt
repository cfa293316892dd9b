-- ===== src/Smb1/Header/RoundTrip.antt =====
-- `Encode` and `DecodeHeader` invert one another.
use smb1client.Common.{ℕ, ◌+◌, ◌≤◌, ◌≡◌, refl, [], ◌∷◌, ◌++◌, length, ok, arith, take, true}
use smb1client.Wire.{IsU16, Bytes, AllBytes}
use smb1client.Wire.Codec.{
  byte_at-lt, u16_at-lt, u32_at-lt, u16_of-put, u32_of-put, put_u16-of, put_u32-of,
}
use smb1client.Smb1.Header.{
  Header, IsHeader, Array4, array4_eq, array4_at, protocol_smb1, header_size, encode, decode_header,
  header_fields, AndXHeader, encode_andx, decode_andx, IsArray4,
}

pub length-encode : (h : Header) → length (encode h) ≡ header_size
unfolding encode
length-encode h = refl

pub header_fields-encode :
    (h : Header) (rest : Bytes) → IsHeader h → header_fields (encode h ++ rest) ≡ h
unfolding encode header_fields
header_fields-encode h rest v = λ i. record {
  protocol = h.protocol;
  command = h.command;
  status = u32_of-put h.status [] v.status_u32 i;
  flags = h.flags;
  flags2 = u16_of-put h.flags2 [] v.flags2_u16 i;
  pid_high = u16_of-put h.pid_high [] v.pid_high_u16 i;
  security_features = h.security_features;
  reserved = u16_of-put h.reserved [] v.reserved_u16 i;
  tid = u16_of-put h.tid [] v.tid_u16 i;
  pid_low = u16_of-put h.pid_low [] v.pid_low_u16 i;
  uid = u16_of-put h.uid [] v.uid_u16 i;
  mid = u16_of-put h.mid [] v.mid_u16 i;
}

-- Whatever follows the header on the wire, decoding reads back the fields that were encoded, if
-- they fit their types and the signature is SMB1's.
pub decode-encode :
    (h : Header) (rest : Bytes)
    → IsHeader h
    → h.protocol ≡ protocol_smb1
    → decode_header (encode h ++ rest) ≡ ok h
unfolding decode_header
decode-encode h rest v e = rw (header_fields-encode h rest v) (unfold encode in ground arith)

-- The bytes of a header are those it was decoded from.
encode-header_fields :
    (raw : Bytes)
    → AllBytes raw
    → header_size ≤ length raw
    → encode (header_fields raw) ≡ take 32 raw
unfolding encode header_fields
encode-header_fields
      (b0 ∷ b1 ∷ b2 ∷ b3 ∷ b4 ∷ b5 ∷ b6 ∷ b7 ∷ b8 ∷ b9 ∷ b10 ∷ b11 ∷ b12 ∷ b13 ∷ b14 ∷ b15 ∷ b16
        ∷ b17 ∷ b18 ∷ b19 ∷ b20 ∷ b21 ∷ b22 ∷ b23 ∷ b24 ∷ b25 ∷ b26 ∷ b27 ∷ b28 ∷ b29 ∷ b30 ∷ b31
        ∷ rest)
      v h =
    λ i.
      b0
      ∷ b1
      ∷ b2
      ∷ b3
      ∷ b4
      ∷ (put_u32-of b5 b6 b7 b8 (omega arith) (omega arith) (omega arith) (omega arith) i
          ++ (b9 ∷ put_u16-of b10 b11 (omega arith) (omega arith) i
              ++ (put_u16-of b12 b13 (omega arith) (omega arith) i
                  ++ (b14
                        ∷ b15
                        ∷ b16
                        ∷ b17
                        ∷ b18
                        ∷ b19
                        ∷ b20
                        ∷ b21
                        ∷ put_u16-of b22 b23 (omega arith) (omega arith) i
                      ++ (put_u16-of b24 b25 (omega arith) (omega arith) i
                          ++ (put_u16-of b26 b27 (omega arith) (omega arith) i
                              ++ (put_u16-of b28 b29 (omega arith) (omega arith) i
                                  ++ put_u16-of b30 b31 (omega arith) (omega arith) i)))))))
encode-header_fields _ v h = absurd (omega arith)

array4_eq-eq : (a b : Array4) → array4_eq a b ≡ true → a ≡ b
array4_eq-eq a b h = ground arith

-- When decoding succeeds, and with what.
pub decode_header_inv :
    (raw : Bytes) (h : Header)
    → decode_header raw ≡ ok h
    → (header_size ≤ length raw) × (array4_at raw 0 ≡ protocol_smb1) × (header_fields raw ≡ h)
unfolding decode_header
decode_header_inv raw h e = (ground arith, array4_eq-eq _ _ (ground arith), ground arith)

array4_at-IsArray4 : (raw : Bytes) (i : ℕ) → AllBytes raw → IsArray4 (array4_at raw i)
array4_at-IsArray4 raw i v = (
  byte_at-lt raw i v,
  byte_at-lt raw (i + 1) v,
  byte_at-lt raw (i + 2) v,
  byte_at-lt raw (i + 3) v,
)

pub header_fields-IsHeader : (raw : Bytes) → AllBytes raw → IsHeader (header_fields raw)
unfolding header_fields
header_fields-IsHeader raw v = record {
  protocol_bytes = array4_at-IsArray4 raw 0 v;
  command_byte = byte_at-lt raw 4 v;
  status_u32 = u32_at-lt raw 5 v;
  flags_byte = byte_at-lt raw 9 v;
  flags2_u16 = u16_at-lt raw 10 v;
  pid_high_u16 = u16_at-lt raw 12 v;
  security_low = array4_at-IsArray4 raw 14 v;
  security_high = array4_at-IsArray4 raw 18 v;
  reserved_u16 = u16_at-lt raw 22 v;
  tid_u16 = u16_at-lt raw 24 v;
  pid_low_u16 = u16_at-lt raw 26 v;
  uid_u16 = u16_at-lt raw 28 v;
  mid_u16 = u16_at-lt raw 30 v;
}

-- A successful decoding: every field fits its Go type, the signature is SMB1's, and encoding
-- the header again gives the first 32 bytes back.
pub encode-decode :
    (raw : Bytes) (h : Header)
    → AllBytes raw
    → decode_header raw ≡ ok h
    → (encode h ≡ take header_size raw) × IsHeader h × (h.protocol ≡ protocol_smb1)
encode-decode raw h v e =
    let (long, signed, fields) = decode_header_inv raw h e in
    rw (← fields) (
      encode-header_fields raw v long,
      header_fields-IsHeader raw v,
      unfold header_fields in signed,
    )

-- An AndX header whose offset fits its 16 bits is decoded to what was encoded, whatever follows it.
pub decode_andx-encode :
    (a : AndXHeader) (rest : Bytes)
    → IsU16 a.andx_offset
    → decode_andx (encode_andx a ++ rest) ≡ ok a
unfolding decode_andx encode_andx
decode_andx-encode a rest h = ground (arith, u16_of-put a.andx_offset [] h)
