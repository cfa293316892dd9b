-- ===== src/Smb1/Directory.antt =====
-- internal/smb1/trans2.go: the entries of a directory listing, chained by their offsets.
pub mod Walk
use Prim.Native.Nat.{bit_and}
use smb1client.Common.{
  ℕ, zero, suc, ◌+◌, ◌-◌, Bool, true, false, not, List, [], ◌∷◌, length, ltb, leb, ◌==◌,
  if◌then◌else◌,
}
use smb1client.Wire.{Bytes, byte_at, slice, u32_at, u64_at}

-- `FileName` is kept as the bytes that `DecodeToString` is given.
pub record FileBothDirectoryInfo : Type 0 where
  pub next_entry_offset : ℕ
  pub file_index : ℕ
  pub creation_time : ℕ
  pub last_access_time : ℕ
  pub last_write_time : ℕ
  pub change_time : ℕ
  pub end_of_file : ℕ
  pub allocation_size : ℕ
  pub file_attributes : ℕ
  pub file_name_length : ℕ
  pub ea_size : ℕ
  pub short_name_length : ℕ
  pub reserved : ℕ
  pub short_name : Bytes
  pub file_name : Bytes

abbrev pub fixed_size : ℕ
fixed_size = 94

-- `gave_up` is no ending of the source's loop.
pub data Ending : Type 0 where
  all_read truncated gave_up : Ending

pub record ParseResult : Type 0 where
  pub files : List FileBothDirectoryInfo
  pub ending : Ending

-- The entry at an offset, of which the caller has checked that its fixed part and its name are there.
unfoldable pub entry_at : Bytes → ℕ → FileBothDirectoryInfo
entry_at raw offset = record {
  next_entry_offset = u32_at raw offset;
  file_index = u32_at raw (offset + 4);
  creation_time = u64_at raw (offset + 8);
  last_access_time = u64_at raw (offset + 16);
  last_write_time = u64_at raw (offset + 24);
  change_time = u64_at raw (offset + 32);
  end_of_file = u64_at raw (offset + 40);
  allocation_size = u64_at raw (offset + 48);
  file_attributes = u32_at raw (offset + 56);
  file_name_length = u32_at raw (offset + 60);
  ea_size = u32_at raw (offset + 64);
  short_name_length = byte_at raw (offset + 68);
  reserved = byte_at raw (offset + 69);
  short_name = slice raw (offset + 70) 24;
  file_name = slice raw (offset + fixed_size) (u32_at raw (offset + 60));
}

abbrev stop : Ending → ParseResult
stop e = record { files = []; ending = e }

abbrev last : FileBothDirectoryInfo → Ending → ParseResult
last file e = record { files = file ∷ []; ending = e }

unfoldable pub parse_from : ℕ → Bytes → ℕ → ParseResult
parse_from zero raw offset = stop gave_up
parse_from (suc fuel) raw offset =
    let file = entry_at raw offset in
    let following = u32_at raw offset in
    let name_length = u32_at raw (offset + 60) in
    let rest = parse_from fuel raw (offset + following) in
    if leb (length raw) offset
    then stop all_read
    else if ltb (length raw - offset) fixed_size
    then stop truncated
    else if ltb (length raw) (offset + fixed_size + name_length)
    then stop truncated
    else if following == 0
    then last file all_read
    else if ltb following (fixed_size + name_length)
    then last file truncated
    else if leb (length raw) (offset + following)
    then last file all_read
    else record { files = file ∷ rest.files; ending = rest.ending }

-- An entry takes more than one byte, so that there are fewer rounds than bytes.
unfoldable pub parse_file_both_directory_info : Bytes → ParseResult
parse_file_both_directory_info raw = parse_from (length raw + 1) raw 0

abbrev pub file_attribute_hidden : ℕ
file_attribute_hidden = 0x02

abbrev pub file_attribute_system : ℕ
file_attribute_system = 0x04

abbrev pub file_attribute_directory : ℕ
file_attribute_directory = 0x10

unfoldable pub is_directory : FileBothDirectoryInfo → Bool
is_directory f = not (bit_and f.file_attributes file_attribute_directory == 0)

unfoldable pub is_hidden : FileBothDirectoryInfo → Bool
is_hidden f = not (bit_and f.file_attributes file_attribute_hidden == 0)

unfoldable pub is_system : FileBothDirectoryInfo → Bool
is_system f = not (bit_and f.file_attributes file_attribute_system == 0)
