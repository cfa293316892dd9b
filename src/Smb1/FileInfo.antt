-- ===== src/Smb1/FileInfo.antt =====
-- internal/smb1/trans2.go: FILE_BASIC_INFO and FILE_STANDARD_INFO.
use smb1client.Common.{
  ℕ, ◌≡◌, [], ◌∷◌, ◌++◌, length, ltb, leb, if◌then◌else◌, Outcome, ok, err, arith, le→leb, le→ltb,
  true, false,
}
use smb1client.Wire.{
  Bytes, IsByte, IsU16, IsU32, IsU64, put_u16, put_u32, put_u64, byte_at, u16_at, u32_at, u64_at,
}
use smb1client.Wire.Codec.{u16_of-put, u32_of-put, u64_of-put}

pub data FileInfoError : Type 0 where
  basic_info_too_short standard_info_too_short : FileInfoError

pub record FileBasicInfo : Type 0 where
  pub creation_time : ℕ
  pub last_access_time : ℕ
  pub last_write_time : ℕ
  pub change_time : ℕ
  pub attributes : ℕ
  pub reserved : ℕ

-- The ranges of the field types.
pub record IsBasicInfo (info : FileBasicInfo) : Type 0 where
  pub creation_u64 : IsU64 info.creation_time
  pub access_u64 : IsU64 info.last_access_time
  pub write_u64 : IsU64 info.last_write_time
  pub change_u64 : IsU64 info.change_time
  pub attributes_u32 : IsU32 info.attributes
  pub reserved_u32 : IsU32 info.reserved

unfoldable pub encode_file_basic_info : FileBasicInfo → Bytes
encode_file_basic_info info =
    put_u64 info.creation_time
    ++ (put_u64 info.last_access_time
        ++ (put_u64 info.last_write_time
            ++ (put_u64 info.change_time ++ (put_u32 info.attributes ++ put_u32 info.reserved))))

-- The reserved field is read where the server has sent it.
unfoldable pub decode_file_basic_info : Bytes → Outcome FileInfoError FileBasicInfo
decode_file_basic_info raw =
    if ltb (length raw) 36
    then err basic_info_too_short
    else ok (record {
      creation_time = u64_at raw 0;
      last_access_time = u64_at raw 8;
      last_write_time = u64_at raw 16;
      change_time = u64_at raw 24;
      attributes = u32_at raw 32;
      reserved = if leb 40 (length raw) then u32_at raw 36 else 0;
    })

pub record FileStandardInfo : Type 0 where
  pub allocation_size : ℕ
  pub end_of_file : ℕ
  pub number_of_links : ℕ
  pub delete_pending : ℕ
  pub directory : ℕ
  pub reserved : ℕ

pub record IsStandardInfo (info : FileStandardInfo) : Type 0 where
  pub allocation_u64 : IsU64 info.allocation_size
  pub end_u64 : IsU64 info.end_of_file
  pub links_u32 : IsU32 info.number_of_links
  pub delete_byte : IsByte info.delete_pending
  pub directory_byte : IsByte info.directory
  pub reserved_u16 : IsU16 info.reserved

unfoldable pub encode_file_standard_info : FileStandardInfo → Bytes
encode_file_standard_info info =
    put_u64 info.allocation_size
    ++ (put_u64 info.end_of_file
        ++ (put_u32 info.number_of_links
            ++ (info.delete_pending ∷ info.directory ∷ put_u16 info.reserved)))

unfoldable pub decode_file_standard_info : Bytes → Outcome FileInfoError FileStandardInfo
decode_file_standard_info raw =
    if ltb (length raw) 24
    then err standard_info_too_short
    else ok (record {
      allocation_size = u64_at raw 0;
      end_of_file = u64_at raw 8;
      number_of_links = u32_at raw 16;
      delete_pending = byte_at raw 20;
      directory = byte_at raw 21;
      reserved = u16_at raw 22;
    })

-- The encoding of a FILE_BASIC_INFO whose fields fit their types, with anything behind it, is
-- decoded to the fields that were encoded.
pub decode-encode_file_basic_info :
    (info : FileBasicInfo) (rest : Bytes)
    → IsBasicInfo info
    → decode_file_basic_info (encode_file_basic_info info ++ rest) ≡ ok info
unfolding decode_file_basic_info encode_file_basic_info
decode-encode_file_basic_info info rest v =
    let whole : leb 40 (length (encode_file_basic_info info ++ rest)) ≡ true =
      le→leb 40 (length (encode_file_basic_info info ++ rest)) (omega arith) in
    let long : ltb (length (encode_file_basic_info info ++ rest)) 36 ≡ false =
      le→ltb (length (encode_file_basic_info info ++ rest)) 36 (omega arith) in
    rw (whole, long)
      (λ i. ok (record {
        creation_time = u64_of-put info.creation_time [] v.creation_u64 i;
        last_access_time = u64_of-put info.last_access_time [] v.access_u64 i;
        last_write_time = u64_of-put info.last_write_time [] v.write_u64 i;
        change_time = u64_of-put info.change_time [] v.change_u64 i;
        attributes = u32_of-put info.attributes [] v.attributes_u32 i;
        reserved = u32_of-put info.reserved [] v.reserved_u32 i;
      }))

-- The encoding of a FILE_STANDARD_INFO whose fields fit their types, with anything behind it, is
-- decoded to the fields that were encoded.
pub decode-encode_file_standard_info :
    (info : FileStandardInfo) (rest : Bytes)
    → IsStandardInfo info
    → decode_file_standard_info (encode_file_standard_info info ++ rest) ≡ ok info
unfolding decode_file_standard_info encode_file_standard_info
decode-encode_file_standard_info info rest v =
    let long : ltb (length (encode_file_standard_info info ++ rest)) 24 ≡ false =
      le→ltb (length (encode_file_standard_info info ++ rest)) 24 (omega arith) in
    rw long (λ i. ok (record {
      allocation_size = u64_of-put info.allocation_size [] v.allocation_u64 i;
      end_of_file = u64_of-put info.end_of_file [] v.end_u64 i;
      number_of_links = u32_of-put info.number_of_links [] v.links_u32 i;
      delete_pending = info.delete_pending;
      directory = info.directory;
      reserved = u16_of-put info.reserved [] v.reserved_u16 i;
    }))
