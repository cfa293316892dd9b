-- ===== src/Smb1/Packet/RoundTrip.antt =====
-- A packet that was encoded decodes to its parts, and a decoded packet is made of its bytes.
use smb1client.Common.{
  ℕ, ◌+◌, ◌-◌, ◌*◌, ◌/◌, ◌%◌, ◌≤◌, ◌≡◌, refl, sym, Bool, false, not, ◌&&◌, ◌||◌, [], ◌∷◌, ◌++◌,
  length, length-append, append_assoc, append-nil, ltb, ◌==◌, if◌then◌else◌, ok, err, some, arith,
  le→ltb,
}
use smb1client.Wire.{Bytes}
use smb1client.Wire.Cuts.{cut-append, index-append}
use smb1client.Smb1.Header.{Header, IsHeader, protocol_smb1, header_size, encode, decode_header}
use smb1client.Smb1.Header.RoundTrip.{length-encode, decode-encode}
use smb1client.Smb1.Packet.{
  encode_packet, decode_packet, decode_sections, max_data_size, byte_count_of, data_truncated,
  min_packet_size,
}

-- The test for a truncated data section, on a byte count and the bytes that are there.
abbrev pub short_of_data : ℕ → ℕ → Bool
short_of_data count size = ltb size count && (not (count == 0xFFFF) || size == 0)

-- The bytes of a packet: a header, the word count `w`, the parameters, the byte count, the data.
abbrev pub laid_out : Bytes → Bytes → Bytes → ℕ → ℕ → ℕ → Bytes
laid_out front params content w x y = front ++ (w ∷ params ++ ((x ∷ y ∷ []) ++ content))

module _ (front params content : Bytes) (w x y : ℕ) (front_length : length front ≡ header_size)
    (params_length : length params ≡ w * 2) where
  abbrev packet_bytes : Bytes
  packet_bytes = laid_out front params content w x y

  length-packet_bytes : length packet_bytes ≡ 35 + w * 2 + length content
  length-packet_bytes = omega (
    arith,
    length-append front (w ∷ params ++ ((x ∷ y ∷ []) ++ content)),
    length-append params ((x ∷ y ∷ []) ++ content),
  )

  -- The sections of a packet that is laid out as they are.
  decode_sections-laid_out :
      (h : Header)
      → decode_sections h packet_bytes (w * 2) ≡ (
          if short_of_data (x + 256 * y) (length content)
          then err data_truncated
          else ok (record { header = h; parameters = params; content = content }))
  unfolding decode_sections
  decode_sections-laid_out h = rw (
    le→ltb (length packet_bytes) (33 + w * 2 + 2) (omega (arith, length-packet_bytes)),
    cut-append packet_bytes (front ++ (w ∷ params)) (x ∷ y ∷ []) content (33 + w * 2)
        (33 + w * 2 + 2) (sym (append_assoc front (w ∷ params) (x ∷ y ∷ content)))
        (omega (arith, length-append front (w ∷ params))) refl,
    data_size,
    cut-append packet_bytes (front ++ (w ∷ [])) params (x ∷ y ∷ content) 33 (33 + w * 2)
        (sym (append_assoc front (w ∷ []) (params ++ (x ∷ y ∷ content))))
        (omega (arith, length-append front (w ∷ []))) (omega arith),
    cut-append packet_bytes (front ++ (w ∷ params ++ (x ∷ y ∷ []))) content [] (33 + w * 2 + 2)
        (33 + w * 2 + 2 + length content) tail_split
        (omega (
          arith,
          length-append front (w ∷ params ++ (x ∷ y ∷ [])),
          length-append params (x ∷ y ∷ []),
        ))
        (omega arith),
  )
    where
      data_size : length packet_bytes - (33 + w * 2 + 2) ≡ length content
      data_size = omega (arith, length-packet_bytes)

      tail_split : packet_bytes ≡ (front ++ (w ∷ params ++ (x ∷ y ∷ []))) ++ (content ++ [])
      tail_split = simp (append-nil, append_assoc)

  -- Once its header is read, such a packet gives its parts, or a truncated data section.
  decode_packet-laid_out :
      (h : Header)
      → decode_header front ≡ ok h
      → decode_packet packet_bytes ≡ (
          if short_of_data (x + 256 * y) (length content)
          then err data_truncated
          else ok (record { header = h; parameters = params; content = content }))
  unfolding decode_packet
  decode_packet-laid_out h e = rw (
    le→ltb (length packet_bytes) min_packet_size (omega (arith, length-packet_bytes)),
    cut-append packet_bytes [] front (w ∷ params ++ ((x ∷ y ∷ []) ++ content)) 0 header_size refl
        refl (omega arith),
    e,
    index-append packet_bytes front (params ++ ((x ∷ y ∷ []) ++ content)) w header_size refl
        front_length,
    decode_sections-laid_out h,
  )

size_covers : (n : ℕ) → short_of_data (n % 65536 % 256 + 256 * (n % 65536 / 256 % 256)) n ≡ false
size_covers n = ground arith

-- What `EncodePacket` accepts, and the bytes that it then writes.
pub encode_packet_inv :
    (h : Header) (params content : Bytes) {raw : Bytes}
    → encode_packet (some h) params content ≡ ok raw
    → (length params ≡ length params / 2 % 256 * 2)
      × (length content ≤ max_data_size)
      × (laid_out
            (encode h)
            params
            content
            (length params / 2 % 256)
            (byte_count_of content % 256)
            (byte_count_of content / 256 % 256)
          ≡ raw)
unfolding encode_packet
encode_packet_inv h params content e = (ground arith, ground arith, ground arith)

-- The header, parameters and data that `EncodePacket` accepts are what `DecodePacket` returns, for
-- a header with the SMB1 signature whose fields fit their types; also where the data is longer than
-- the 16-bit byte count can say.
pub decode_packet-encode_packet :
    (h : Header) (params content : Bytes) {raw : Bytes}
    → IsHeader h
    → h.protocol ≡ protocol_smb1
    → encode_packet (some h) params content ≡ ok raw
    → decode_packet raw ≡ ok (record { header = h; parameters = params; content = content })
decode_packet-encode_packet h params content v p e =
    let (words, _, bytes) = encode_packet_inv h params content e in
    rw (
      ← bytes,
      decode_packet-laid_out (encode h) params content _ _ _ (length-encode h) words h
          (rw append-nil at (decode-encode h [] v p)),
      size_covers (length content),
    )
