-- ===== src/Smb1/Packet/Decode.antt =====
-- `DecodePacket` on every input: it reads within bounds, and its result is made of the input.
use smb1client.Common.{
  ℕ, ◌+◌, ◌-◌, ◌*◌, ◌≤◌, ◌≡◌, ◌≢◌, refl, sym, ap, ◌∙◌, ◌∷◌, ◌++◌, length, take, drop, ltb,
  if◌then◌else◌, Outcome, ok, err, panic, ◌>>=◌, map_err, arith, take-append-drop, take_all,
  length-take, Bool-cases, inl, inr, ltb_false→le, All-take,
}
use smb1client.Wire.{Bytes, AllBytes, IsByte, u16_of, slice, byte_at}
use smb1client.Wire.Cuts.{
  cut-slice, slice_to_end, index_in_range, drop_cons, drop-slice, length-slice,
}
use smb1client.Smb1.Header.{HeaderError, Header, IsHeader, protocol_smb1, encode, decode_header}
use smb1client.Smb1.Header.RoundTrip.{encode-decode}
use smb1client.Smb1.Packet.{
  Packet, PacketError, decode_packet, decode_sections, data_truncated, packet_too_short,
  parameters_truncated, bad_header,
}
use smb1client.Smb1.Packet.RoundTrip.{short_of_data, laid_out}

-- A long enough packet is laid out as the format says.
laid_out_of :
    (raw : Bytes) (n : ℕ)
    → 35 + n ≤ length raw
    → raw
      ≡ laid_out
          (take 32 raw)
          (slice raw 33 n)
          (drop (35 + n) raw)
          (byte_at raw 32)
          (byte_at raw (33 + n))
          (byte_at raw (34 + n))
laid_out_of raw n h =
    let words : Bytes → Bytes = λ t. byte_at raw 32 ∷ t in
    let first : Bytes → Bytes = λ t. byte_at raw (33 + n) ∷ t in
    sym (take-append-drop 32 raw)
    ∙ ap (λ (t : Bytes). take 32 raw ++ t)
        (drop_cons raw 32 33 (omega arith) refl
          ∙ ap words (
              drop-slice raw 33 n (33 + n) refl
              ∙ ap (λ (t : Bytes). slice raw 33 n ++ t)
                  (drop_cons raw (33 + n) (34 + n) (omega arith) (omega arith)
                    ∙ ap first (drop_cons raw (34 + n) (35 + n) (omega arith) (omega arith)))))

-- The sections after the header, with no check of a slice's range.
abbrev sections : Header → Bytes → ℕ → Outcome PacketError Packet
sections h raw n =
    if ltb (length raw) (35 + n)
    then err parameters_truncated
    else if short_of_data (u16_of (slice raw (33 + n) 2)) (length raw - (35 + n))
    then err data_truncated
    else ok (record { header = h; parameters = slice raw 33 n; content = drop (35 + n) raw })

decode_sections_lem :
    (h : Header) (raw : Bytes) (n : ℕ) → decode_sections h raw n ≡ sections h raw n
unfolding decode_sections
decode_sections_lem h raw n = elim (Bool-cases (ltb (length raw) (35 + n))) [
  | inl short ↦ rw (ends, short)
  | inr long ↦ rw (
    ends,
    long,
    cut-slice raw (33 + n) 2 (35 + n) (omega arith) (ltb_false→le _ _ long),
    cut-slice raw 33 n (33 + n) refl (omega (arith, ltb_false→le _ _ long)),
    cut-slice raw (35 + n) (length raw - (35 + n)) (35 + n + (length raw - (35 + n))) refl
        (omega (arith, ltb_false→le _ _ long)),
    slice_to_end raw (35 + n) (length raw - (35 + n)) (omega arith),
  )
]
  where
    ends : 33 + n + 2 ≡ 35 + n
    ends = omega arith

-- `DecodePacket` with no check of a slice's range.
abbrev pub packet_of : Bytes → Outcome PacketError Packet
packet_of raw =
    if ltb (length raw) 35
    then err packet_too_short
    else (map_err bad_header (decode_header (take 32 raw)) >>= λ h.
        sections h raw (byte_at raw 32 * 2))

-- On every input each slice that `DecodePacket` takes is in range: checked and unchecked accesses
-- give the same result.
pub decode_packet_lem : (raw : Bytes) → decode_packet raw ≡ packet_of raw
unfolding decode_packet
decode_packet_lem raw = elim (Bool-cases (ltb (length raw) 35)) [
  | inl short ↦ rw short
  | inr long ↦
      rw
        (
          long,
          cut-slice raw 0 32 32 refl (omega (arith, ltb_false→le _ _ long)),
          index_in_range {E = PacketError} raw 32 (omega (arith, ltb_false→le _ _ long)),
        )
        (header_cases (decode_header (take 32 raw)))
]
  where
    header_cases :
        (r : Outcome HeaderError Header)
        → (map_err bad_header r >>= λ h. decode_sections h raw (byte_at raw 32 * 2))
          ≡ (map_err bad_header r >>= λ h. sections h raw (byte_at raw 32 * 2))
    header_cases (ok h) = decode_sections_lem h raw (byte_at raw 32 * 2)
    header_cases (err e) = refl
    header_cases panic = refl

decode_header-ne-panic : (raw : Bytes) → decode_header raw ≢ panic
unfolding decode_header
decode_header-ne-panic raw e = ground arith

-- `DecodePacket` never panics, whatever the bytes are.
pub decode_packet-ne-panic : (raw : Bytes) → decode_packet raw ≢ panic
decode_packet-ne-panic raw e =
    ground (arith, sym (decode_packet_lem raw) ∙ e, decode_header-ne-panic (take 32 raw))

-- A successful decoding, inverted.
packet_of_inv :
    (raw : Bytes) (p : Packet)
    → packet_of raw ≡ ok p
    → (35 + byte_at raw 32 * 2 ≤ length raw)
      × (decode_header (take 32 raw) ≡ ok p.header)
      × (p.parameters ≡ slice raw 33 (byte_at raw 32 * 2))
      × (p.content ≡ drop (35 + byte_at raw 32 * 2) raw)
packet_of_inv raw p e = (ground arith, ground arith, ground arith, ground arith)

-- Where bytes decode as a packet, its header has the SMB1 signature and fields that fit their
-- types, there are as many parameter bytes as its word count says, and the bytes are the header's
-- encoding, the word count, the parameters, two bytes of byte count and all of the data, in that
-- order and with nothing left over.
pub decode_packet_sound :
    (raw : Bytes) {p : Packet}
    → AllBytes raw
    → decode_packet raw ≡ ok p
    → IsHeader p.header
      × (p.header.protocol ≡ protocol_smb1)
      × (length p.parameters ≡ byte_at raw 32 * 2)
      × (raw
          ≡ laid_out
              (encode p.header)
              p.parameters
              p.content
              (byte_at raw 32)
              (byte_at raw (33 + byte_at raw 32 * 2))
              (byte_at raw (34 + byte_at raw 32 * 2)))
decode_packet_sound raw {p} v e =
    let (long, header, params, content) = packet_of_inv raw p (sym (decode_packet_lem raw) ∙ e) in
    let (front, fields, signed) =
      encode-decode (take 32 raw) p.header (All-take IsByte 32 raw v) header in
    (
      fields,
      signed,
      rw params (length-slice raw 33 (byte_at raw 32 * 2) (omega arith)),
      rw (params, content, front, take_all 32 (take 32 raw) (omega (arith, length-take 32 raw)))
          (laid_out_of raw (byte_at raw 32 * 2) long),
    )
