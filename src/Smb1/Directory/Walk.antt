-- ===== src/Smb1/Directory/Walk.antt =====
-- The walk along the entries of a listing: its end and its bounds.
use smb1client.Common.{ℕ, zero, suc, ◌+◌, ◌*◌, ◌≤◌, ◌<◌, ◌≡◌, ◌≢◌, length, arith, All}
use smb1client.Wire.{Bytes, u32_at}
use smb1client.Wire.Cuts.{length-slice}
use smb1client.Smb1.Directory.{
  FileBothDirectoryInfo, fixed_size, gave_up, entry_at, parse_from, parse_file_both_directory_info,
}

parse_from-ends :
    (fuel : ℕ) (raw : Bytes) (offset : ℕ)
    → offset ≤ length raw
    → length raw < offset + fuel
    → (parse_from fuel raw offset).ending ≢ gave_up
unfolding parse_from
parse_from-ends zero raw offset h enough e = omega arith
parse_from-ends (suc fuel) raw offset h enough e =
    ground (arith, parse_from-ends fuel raw (offset + u32_at raw offset))

parse_from-few :
    (fuel : ℕ) (raw : Bytes) (offset : ℕ)
    → offset ≤ length raw
    → offset + fixed_size * length (parse_from fuel raw offset).files ≤ length raw
unfolding parse_from
parse_from-few zero raw offset h = omega arith
parse_from-few (suc fuel) raw offset h =
    ground (arith, parse_from-few fuel raw (offset + u32_at raw offset))

-- An entry whose parts are all there: as many name bytes as it states, and a short name's 24.
abbrev pub IsWhole : FileBothDirectoryInfo → Type 0
IsWhole f = (length f.file_name ≡ f.file_name_length) × (length f.short_name ≡ 24)

entry_at-IsWhole :
    (raw : Bytes) (offset : ℕ)
    → offset + fixed_size + u32_at raw (offset + 60) ≤ length raw
    → IsWhole (entry_at raw offset)
unfolding entry_at
entry_at-IsWhole raw offset h = (
  length-slice raw (offset + fixed_size) (u32_at raw (offset + 60)) h,
  length-slice raw (offset + 70) 24 (omega arith),
)

parse_from-IsWhole :
    (fuel : ℕ) (raw : Bytes) (offset : ℕ) → All IsWhole (parse_from fuel raw offset).files
unfolding parse_from
parse_from-IsWhole zero raw offset = tt
parse_from-IsWhole (suc fuel) raw offset =
    ground
      (arith, parse_from-IsWhole fuel raw (offset + u32_at raw offset), entry_at-IsWhole raw offset)

-- Whatever bytes a server sends as a directory listing: the walk along its entries ends, it finds no
-- more entries than one for each 94 bytes, and every entry found has its whole name within the reply.
pub parse_file_both_directory_info_lem :
    (raw : Bytes)
    → ((parse_file_both_directory_info raw).ending ≢ gave_up)
      × (fixed_size * length (parse_file_both_directory_info raw).files ≤ length raw)
      × All IsWhole (parse_file_both_directory_info raw).files
unfolding parse_file_both_directory_info
parse_file_both_directory_info_lem raw = (
  parse_from-ends (length raw + 1) raw 0 (omega arith) (omega arith),
  omega (arith, parse_from-few (length raw + 1) raw 0 (omega arith)),
  parse_from-IsWhole (length raw + 1) raw 0,
)
