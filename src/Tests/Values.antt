-- ===== src/Tests/Values.antt =====
-- Parameter values, file information and directory listings, as bytes.
use smb1client.Common.{All, replicate, ◌*◌, ◌≡◌, ◌≢◌, refl, [], ◌∷◌, ◌++◌, arith, length, ◌≤◌, ok}
use smb1client.Wire.{Bytes}
use smb1client.Smb1.FileInfo.{FileBasicInfo, FileStandardInfo, IsBasicInfo, IsStandardInfo}
use smb1client.Smb1.Values.{uint8, uint32, append_values, pad_even, value_bytes, encode_parameters}
use smb1client.Smb1.Values.ReadBack.{IsRead, encode_parameters-IsRead}
use smb1client.Smb1.Directory.{gave_up, fixed_size, parse_file_both_directory_info}
use smb1client.Smb1.Directory.Walk.{IsWhole, parse_file_both_directory_info_lem}

abbrev basic_info : FileBasicInfo
basic_info = record {
  creation_time = 1;
  last_access_time = 2;
  last_write_time = 3;
  change_time = 4;
  attributes = 0x20;
  reserved = 0;
}

basic_info-IsBasicInfo : IsBasicInfo basic_info
basic_info-IsBasicInfo = record {
  creation_u64 = omega arith;
  access_u64 = omega arith;
  write_u64 = omega arith;
  change_u64 = omega arith;
  attributes_u32 = omega arith;
  reserved_u32 = omega arith;
}

abbrev standard_info : FileStandardInfo
standard_info = record {
  allocation_size = 4096;
  end_of_file = 100;
  number_of_links = 1;
  delete_pending = 0;
  directory = 0;
  reserved = 0;
}

standard_info-IsStandardInfo : IsStandardInfo standard_info
standard_info-IsStandardInfo = record {
  allocation_u64 = omega arith;
  end_u64 = omega arith;
  links_u32 = omega arith;
  delete_byte = omega arith;
  directory_byte = omega arith;
  reserved_u16 = omega arith;
}

-- A byte, a 32-bit value and a pad byte.
abbrev built : Bytes
built = 10 ∷ 0x78 ∷ 0x56 ∷ 0x34 ∷ 0x12 ∷ 0 ∷ []

values_built : encode_parameters (uint8 10 ∷ uint32 0x1234_5678 ∷ []) ≡ ok built
unfolding encode_parameters append_values value_bytes pad_even
values_built = refl

encode_parameters-IsRead_example :
    (front : Bytes) × (append_values [] (uint8 10 ∷ []) ≡ ok front)
    × IsRead (uint32 0x1234_5678) built (length front)
encode_parameters-IsRead_example =
    encode_parameters-IsRead (uint8 10 ∷ []) (uint32 0x1234_5678) [] (omega arith) values_built
      (omega arith)

-- One entry, with a name of two bytes.
abbrev listing : Bytes
listing = replicate 60 0 ++ ((2 ∷ replicate 33 0) ++ (0x41 ∷ 0 ∷ []))

parse_file_both_directory_info_lem_example :
    ((parse_file_both_directory_info listing).ending ≢ gave_up)
    × (fixed_size * length (parse_file_both_directory_info listing).files ≤ length listing)
    × All IsWhole (parse_file_both_directory_info listing).files
parse_file_both_directory_info_lem_example = parse_file_both_directory_info_lem listing
