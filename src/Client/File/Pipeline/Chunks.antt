-- ===== src/Client/File/Pipeline/Chunks.antt =====
-- How a pipelined read is divided into chunks.
use native.Mathlib.Nat.{mul-le-mul_right, suc-mul}
use smb1client.Common.{
  ℕ, zero, suc, ◌+◌, ◌*◌, ◌^◌, ◌≤◌, ◌<◌, ◌≡◌, ◌⊎◌, inl, inr, List, [], ◌∷◌, ap, refl, min, ltb,
  arith, Bool-cases,
}
use smb1client.Client.File.{chunk_count, pipeline_depth}
use smb1client.Client.File.Pipeline.{ReadChunk, read_chunks}

-- Chunks that follow one another, from a position in the buffer to its end.
abbrev pub IsLine : ℕ → ℕ → ℕ → List ReadChunk → Type 0
IsLine offset room pos [] = pos ≡ room
IsLine offset room pos (c ∷ cs) =
    (c.buf_offset ≡ pos)
    × (c.offset ≡ offset + pos)
    × (0 < c.size)
    × (c.size < 2 ^ 16)
    × (pos + c.size ≤ room)
    × IsLine offset room (pos + c.size) cs

pub line_fits : (offset room pos : ℕ) (cs : List ReadChunk) → IsLine offset room pos cs → pos ≤ room
line_fits offset room pos [] e = omega arith
line_fits offset room pos (c ∷ cs) (b, o, some_bytes, small, fits, rest) = omega arith

-- As many chunks as it takes, and no more.
chunk_count_reaches : (total chunk : ℕ) → 0 < chunk → total ≤ chunk_count total chunk * chunk
chunk_count_reaches total chunk h = omega arith

chunk_starts : (total chunk i : ℕ) → 0 < chunk → i < chunk_count total chunk → i * chunk < total
chunk_starts total chunk i h k =
    let below : suc i ≤ chunk_count total chunk = omega arith in
    omega (arith, mul-le-mul_right chunk below, suc-mul i chunk)

chunks-IsLine :
    (total chunk offset n i pos : ℕ)
    → 0 < chunk
    → chunk < 2 ^ 16
    → pos ≡ min (i * chunk) total
    → i + n ≡ chunk_count total chunk
    → IsLine offset total pos (read_chunks n i total chunk offset)
unfolding read_chunks
chunks-IsLine total chunk offset zero i pos some_bytes small at all =
    let last : i ≡ chunk_count total chunk = omega arith in
    omega (arith, chunk_count_reaches total chunk some_bytes, ap (λ (k : ℕ). k * chunk) last)
chunks-IsLine total chunk offset (suc n) i pos some_bytes small at all =
    let inside : i * chunk < total = chunk_starts total chunk i some_bytes (omega arith) in
    elim (Bool-cases (ltb total (i * chunk + chunk))) [
      | inl last ↦ rw last (
        omega arith,
        omega arith,
        omega arith,
        ground (arith, last),
        omega arith,
        chunks-IsLine total chunk offset n (suc i) _ some_bytes small (ground (arith, last))
            (omega arith),
      )
      | inr whole ↦ rw whole (
        omega arith,
        omega arith,
        some_bytes,
        small,
        ground (arith, whole),
        chunks-IsLine total chunk offset n (suc i) _ some_bytes small (ground (arith, whole))
            (omega arith),
      )
    ]

-- The chunks of a read follow one another from the buffer's start to its end, none of them empty.
pub read_chunks-IsLine :
    (total chunk offset : ℕ)
    → 0 < chunk
    → chunk < 2 ^ 16
    → IsLine offset total 0 (read_chunks (chunk_count total chunk) 0 total chunk offset)
read_chunks-IsLine total chunk offset some_bytes small =
    chunks-IsLine total chunk offset (chunk_count total chunk) 0 0 some_bytes small (omega arith)
      (omega arith)

pipeline_depth_some : (max_mpx_count : ℕ) → 0 < (pipeline_depth max_mpx_count).0
unfolding pipeline_depth
pipeline_depth_some max_mpx_count = ground arith

-- Where there is a chunk, the first batch has one.
pub deep_enough :
    (max_mpx_count count total chunk offset : ℕ)
    → (0 < min (pipeline_depth max_mpx_count).0 count)
      ⊎ (read_chunks count 0 total chunk offset ≡ [])
unfolding read_chunks
deep_enough max_mpx_count zero total chunk offset = inr refl
deep_enough max_mpx_count (suc count) total chunk offset =
    inl (omega (arith, pipeline_depth_some max_mpx_count))
