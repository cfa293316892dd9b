-- ===== src/Client/File/Requests.antt =====
-- internal/client/file.go: what the read requests of a file ask of the server.
use smb1client.Common.{
  ℕ, ◌+◌, ◌*◌, ◌%◌, ◌^◌, ◌<◌, ◌≡◌, ◌⊎◌, inl, inr, refl, Bool, true, false, some, [], ok, arith,
  Bool-cases,
}
use smb1client.Wire.{Bytes, IsU64, IsU32, u16_at, u32_at}
use smb1client.Smb1.FileOps.{encode_read_request}
use smb1client.Client.File.{
  File, read_request, max_read_chunk, clamp_to_negotiated_buffer, has_capability, cap_large_readx,
}

-- What a server reads out of a READ_ANDX request's parameters, of either form.
abbrev pub asked_offset : Bytes → ℕ
asked_offset params = u32_at params 6 + 2 ^ 32 * u32_at params 20

abbrev pub asked_count : Bytes → ℕ
asked_count params = u16_at params 10 + 2 ^ 16 * u16_at params 14

-- Whether a request can bear the offset.
abbrev pub IsAddressable : Bool → ℕ → Type 0
IsAddressable supports_large_files offset =
    IsU32 offset ⊎ (supports_large_files ≡ true) × IsU64 offset

pub read_request_asks :
    (f : File) (offset size : ℕ) (supports_large_files supports_large_readx : Bool)
    → size < 2 ^ 16
    → IsAddressable supports_large_files offset
    → (params : Bytes) × (encode_read_request
          (some (read_request f offset size))
          supports_large_files
          supports_large_readx
        ≡ ok (params, []))
      × (u16_at params 4 ≡ f.fid % 2 ^ 16)
      × (asked_offset params ≡ offset)
      × (asked_count params ≡ size)
unfolding encode_read_request
read_request_asks f offset size true true s (inl a) =
    (_, refl, omega arith, omega arith, omega arith)
read_request_asks f offset size true true s (inr a) =
    (_, refl, omega arith, omega (arith, a.1), omega arith)
read_request_asks f offset size true false s (inl a) =
    (_, refl, omega arith, omega arith, omega arith)
read_request_asks f offset size true false s (inr a) =
    (_, refl, omega arith, omega (arith, a.1), omega arith)
read_request_asks f offset size false x s (inl a) = (_, refl, omega arith, omega arith, omega arith)
read_request_asks f offset size false x s (inr a) = absurd (ground arith)

pub max_read_chunk_fits : (f : File) → (0 < max_read_chunk f) × (max_read_chunk f < 2 ^ 16)
unfolding max_read_chunk clamp_to_negotiated_buffer
max_read_chunk_fits f = elim (Bool-cases (has_capability f cap_large_readx)) [
  | inl large ↦ ground (arith, large)
  | inr small ↦ ground (arith, small)
]
