-- ===== src/Smb1/FileOps/Transfer.antt =====
-- Where a transfer's data stands in its message.
use smb1client.Common.{
  ℕ, ◌+◌, ◌-◌, ◌*◌, ◌≤◌, ◌<◌, ◌⊎◌, ◌/◌, ◌%◌, ◌^◌, ◌≡◌, ◌≢◌, refl, sym, ap, ◌∙◌, Bool, true, false,
  some, [], ◌++◌, length, ltb, ◌==◌, if◌then◌else◌, Outcome, ok, err, panic, ◌>>=◌, arith, drop,
  Bool-cases, inl, inr, ltb_false→le, ==_iff,
}
use smb1client.Wire.{Bytes, u16_at, u32_at, slice, put_u32}
use smb1client.Wire.Cuts.{cut-slice, length-slice}
use smb1client.Smb1.Header.{Header, encode, header_size}
use smb1client.Smb1.Packet.{encode_packet}
use smb1client.Smb1.Packet.RoundTrip.{encode_packet_inv}
use smb1client.Smb1.FileOps.{
  FileOpError, WriteRequest, encode_write_request, write_params_front, ReadResponse, total_length,
  read_padding, read_content, decode_read_response, read_response_of, read_data_length,
  params_too_short,
}

-- The data of a write request stands in the packet at the offset that the request states.
pub write_data_placed :
    (h : Header) (req : WriteRequest) (supports_large_files : Bool) {params content raw : Bytes}
    → encode_write_request (some req) supports_large_files ≡ ok (params, content)
    → encode_packet (some h) params content ≡ ok raw
    → drop (u16_at params 22) raw ≡ req.content
unfolding encode_write_request encode
write_data_placed h req true {params} {content} {raw} e p =
    let (_, _, bytes) = encode_packet_inv h params content p in
    let ps : write_params_front req 28 ++ put_u32 (req.offset / 2 ^ 32 % 2 ^ 32) ≡ params = cc in
    let cs : req.content ≡ content = cc in rw (← bytes, ← ps, ← cs) refl
write_data_placed h req false {params} {content} {raw} e p =
    let (_, _, bytes) = encode_packet_inv h params content p in
    let ps : write_params_front req 24 ≡ params = cc in
    let cs : req.content ≡ content = cc in rw (← bytes, ← ps, ← cs) refl

read_content_inv :
    (total padding : ℕ) (bytes : Bytes) {found : Bytes}
    → read_content total padding bytes ≡ ok found
    → (found ≡ slice bytes padding total) × (length found ≡ total)
unfolding read_content
read_content_inv total padding bytes {found} e = elim (Bool-cases (total == 0)) [
  | inl nothing ↦
      let none_left : total ≡ 0 = (==_iff total 0).0 nothing in
      let same : [] ≡ found = ground (arith, nothing) in rw (none_left, ← same) (refl, refl)
  | inr some_bytes ↦ elim (Bool-cases (ltb (length bytes) (padding + total))) [
    | inl short ↦ ground (arith, some_bytes, short)
    | inr long ↦
        let same : slice bytes padding total ≡ found = ground (
          arith,
          some_bytes,
          long,
          cut-slice {E = FileOpError} bytes padding total (padding + total) refl
              (ltb_false→le _ _ long),
        ) in
        (sym same, ap length (sym same) ∙ length-slice bytes padding total (ltb_false→le _ _ long))
  ]
]

read_content-ne-panic :
    (total padding : ℕ) (bytes : Bytes) → read_content total padding bytes ≢ panic
unfolding read_content
read_content-ne-panic total padding bytes e =
    elim (Bool-cases (ltb (length bytes) (padding + total))) [
      | inl short ↦ ground (arith, short)
      | inr long ↦ ground (
        arith,
        long,
        cut-slice {E = FileOpError} bytes padding total (padding + total) refl
            (ltb_false→le _ _ long),
      )
    ]

-- `DecodeReadResponse` never panics, on any message.
pub decode_read_response-ne-panic :
    (params bytes : Bytes) → decode_read_response params bytes ≢ panic
unfolding decode_read_response
decode_read_response-ne-panic params bytes e = ground (
  arith,
  read_content-ne-panic (total_length (u16_at params 10) (u32_at params 14))
      (read_padding (u16_at params 12) (header_size + 1 + length params + 2) (length bytes)) bytes,
)

decode_read_response-content :
    (params bytes : Bytes) {r : ReadResponse}
    → decode_read_response params bytes ≡ ok r
    → (r ≡ read_response_of params r.content)
      × (length r.content ≡ read_data_length r)
      × (r.content
          ≡ slice bytes
              (read_padding r.data_offset (header_size + 1 + length params + 2) (length bytes))
              (read_data_length r))
unfolding decode_read_response
decode_read_response-content params bytes {r} e = elim (Bool-cases (ltb (length params) 24)) [
  | inl short ↦ absurd (ground (arith, e, short))
  | inr long ↦
      let reduced : (read_content (total_length (u16_at params 10) (u32_at params 14))
              (read_padding (u16_at params 12) (header_size + 1 + length params + 2) (length bytes))
              bytes
            >>= λ content. ok (read_response_of params content))
          ≡ ok r =
        sym (
          ap
            (λ (b : Bool).
              if b
              then err params_too_short
              else (read_content (total_length (u16_at params 10) (u32_at params 14))
                    (read_padding (u16_at params 12) (header_size + 1 + length params + 2)
                      (length bytes))
                    bytes
                  >>= λ content. ok (read_response_of params content)))
            long)
        ∙ e in
      found _ refl reduced
]
  where
    found :
        (o : Outcome FileOpError Bytes)
        → read_content
            (total_length (u16_at params 10) (u32_at params 14))
            (read_padding (u16_at params 12) (header_size + 1 + length params + 2) (length bytes))
            bytes
          ≡ o
        → (o >>= λ content. ok (read_response_of params content)) ≡ ok r
        → (r ≡ read_response_of params r.content)
          × (length r.content ≡ read_data_length r)
          × (r.content
              ≡ slice bytes
                  (read_padding r.data_offset (header_size + 1 + length params + 2) (length bytes))
                  (read_data_length r))
    found (ok content) h e =
        let same : read_response_of params content ≡ r = ground (arith, e) in
        let (is, len) = read_content_inv _ _ bytes h in rw (← same) (refl, len, is)
    found (err x) h e = absurd (ground (arith, e))
    found panic h e = absurd (ground (arith, e))

-- A read response that decodes states its data's length in two halves, of 16 bits and above, and the
-- data's offset from the start of the message, in the parameters from bytes 10, 14 and 12 on; it carries
-- just so many bytes. If the offset is within the data section, which starts two bytes behind the
-- parameters, they are the section's bytes from there on; if it is outside of it, they are the
-- section's first ones.
pub decode_read_response_sound :
    (params bytes : Bytes) {r : ReadResponse}
    → decode_read_response params bytes ≡ ok r
    → (length r.content ≡ u16_at params 10 + 65536 * u32_at params 14)
      × (((at : ℕ) × (35 + length params + at ≡ u16_at params 12)
            × (at ≤ length bytes)
            × (r.content ≡ slice bytes at (length r.content)))
          ⊎ ((u16_at params 12 < 35 + length params)
              ⊎ (35 + length params + length bytes < u16_at params 12))
            × (r.content ≡ slice bytes 0 (length r.content)))
decode_read_response_sound params bytes {r} e =
    let (same, len, is) = decode_read_response-content params bytes e in
    let offset : r.data_offset ≡ u16_at params 12 = ap (λ (x : ReadResponse). x.data_offset) same in
    let low : r.data_length ≡ u16_at params 10 = ap (λ (x : ReadResponse). x.data_length) same in
    let high : r.data_length_high ≡ u32_at params 14 =
      ap (λ (x : ReadResponse). x.data_length_high) same in
    let start : header_size + 1 + length params + 2 ≡ 35 + length params = omega arith in
    (
      omega (arith, len, low, high),
      placed r.content (u16_at params 12) (35 + length params) (
          is
          ∙ ap
              (λ (k : ℕ).
                slice bytes (read_padding k (header_size + 1 + length params + 2) (length bytes))
                  (read_data_length r))
              offset
          ∙ ap
              (λ (k : ℕ).
                slice bytes
                  (read_padding (u16_at params 12) (header_size + 1 + length params + 2)
                    (length bytes))
                  k)
              (sym len)
          ∙ ap
              (λ (k : ℕ).
                slice bytes (read_padding (u16_at params 12) k (length bytes)) (length r.content))
              start),
    )
  where
    placed :
        (content : Bytes) (offset start : ℕ)
        → content ≡ slice bytes (read_padding offset start (length bytes)) (length content)
        → ((at : ℕ) × (start + at ≡ offset)
            × (at ≤ length bytes)
            × (content ≡ slice bytes at (length content)))
          ⊎ ((offset < start) ⊎ (start + length bytes < offset))
            × (content ≡ slice bytes 0 (length content))
    placed content offset start is = elim (Bool-cases (ltb offset start)) [
      | inl before ↦ inr (inl (ground (arith, before)), ground (arith, is, before))
      | inr from ↦ elim (Bool-cases (ltb (length bytes) (offset - start))) [
        | inl behind ↦ inr (inr (ground (arith, from, behind)), ground (arith, is, from, behind))
        | inr inside ↦ inl (
          offset - start,
          ground (arith, from),
          ground (arith, inside),
          ground (arith, is, from, inside),
        )
      ]
    ]
