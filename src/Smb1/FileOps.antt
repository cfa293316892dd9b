-- ===== src/Smb1/FileOps.antt =====
-- internal/smb1/file_ops.go: the messages that open, read, write and close a file.
pub mod Transfer
use smb1client.Common.{
  ℕ, ◌+◌, ◌-◌, ◌*◌, ◌/◌, ◌%◌, ◌^◌, Bool, true, false, not, ◌||◌, Option, none, some, List, [], ◌∷◌,
  ◌++◌, length, ltb, ◌==◌, if◌then◌else◌, Outcome, ok, err, panic, ◌>>=◌,
}
use smb1client.Wire.{Bytes, put_u16, put_u32, put_u64, byte_at, u16_at, u32_at, u64_at, cut}
use smb1client.Smb1.Header.{header_size}

pub data FileOpError : Type 0 where
  nil_request empty_name params_too_short content_too_short unexpected_params unexpected_content :
      FileOpError

-- The fields of an AndX command that leads every block of parameters.
abbrev pub andx_bytes : ℕ → ℕ → ℕ → Bytes
andx_bytes command reserved offset = command ∷ reserved ∷ put_u16 offset

pub record NtCreateRequest : Type 0 where
  pub andx_command : ℕ
  pub andx_reserved : ℕ
  pub andx_offset : ℕ
  pub reserved : ℕ
  pub name_length : ℕ
  pub flags : ℕ
  pub root_directory_fid : ℕ
  pub desired_access : ℕ
  pub allocation_size : ℕ
  pub file_attributes : ℕ
  pub share_access : ℕ
  pub create_disposition : ℕ
  pub create_options : ℕ
  pub impersonation_level : ℕ
  pub security_flags : ℕ
  pub file_name : Bytes
  pub use_unicode : Bool

abbrev pub nt_create_params : NtCreateRequest → Bytes
nt_create_params req =
    andx_bytes req.andx_command req.andx_reserved req.andx_offset
    ++ (req.reserved ∷ put_u16 req.name_length
        ++ (put_u32 req.flags
            ++ (put_u32 req.root_directory_fid
                ++ (put_u32 req.desired_access
                    ++ (put_u64 req.allocation_size
                        ++ (put_u32 req.file_attributes
                            ++ (put_u32 req.share_access
                                ++ (put_u32 req.create_disposition
                                    ++ (put_u32 req.create_options
                                        ++ (put_u32 req.impersonation_level
                                            ++ (req.security_flags ∷ [])))))))))))

-- `encode_string` is `utf16le.EncodeStringToBytes`, which rests on the standard library.
unfoldable pub encode_nt_create_request :
    (Bytes → Bytes) → Option NtCreateRequest → Outcome FileOpError (Bytes × Bytes)
encode_nt_create_request encode_string none = err nil_request
encode_nt_create_request encode_string (some req) =
    if length req.file_name == 0
    then err empty_name
    else ok (
      nt_create_params req,
      if req.use_unicode
          then 0 ∷ encode_string req.file_name ++ (0 ∷ 0 ∷ [])
          else req.file_name ++ (0 ∷ []),
    )

pub record NtCreateResponse : Type 0 where
  pub andx_command : ℕ
  pub andx_reserved : ℕ
  pub andx_offset : ℕ
  pub op_lock_level : ℕ
  pub fid : ℕ
  pub create_action : ℕ
  pub creation_time : ℕ
  pub last_access_time : ℕ
  pub last_write_time : ℕ
  pub change_time : ℕ
  pub file_attributes : ℕ
  pub allocation_size : ℕ
  pub end_of_file : ℕ
  pub file_type : ℕ
  pub ipc_state : ℕ
  pub is_directory : ℕ

unfoldable pub decode_nt_create_response : Bytes → Outcome FileOpError NtCreateResponse
decode_nt_create_response params =
    if ltb (length params) 68
    then err params_too_short
    else ok (record {
      andx_command = byte_at params 0;
      andx_reserved = byte_at params 1;
      andx_offset = u16_at params 2;
      op_lock_level = byte_at params 4;
      fid = u16_at params 5;
      create_action = u32_at params 7;
      creation_time = u64_at params 11;
      last_access_time = u64_at params 19;
      last_write_time = u64_at params 27;
      change_time = u64_at params 35;
      file_attributes = u32_at params 43;
      allocation_size = u64_at params 47;
      end_of_file = u64_at params 55;
      file_type = u16_at params 63;
      ipc_state = u16_at params 65;
      is_directory = byte_at params 67;
    })

pub record ReadRequest : Type 0 where
  pub andx_command : ℕ
  pub andx_reserved : ℕ
  pub andx_offset : ℕ
  pub fid : ℕ
  pub offset : ℕ
  pub max_count_of_bytes_to_return : ℕ
  pub min_count_of_bytes_to_return : ℕ
  pub max_count_high : ℕ
  pub timeout : ℕ
  pub remaining : ℕ

-- What the longer and the shorter form have in common, up to the count's high half.
abbrev pub read_params_front : ReadRequest → Bytes
read_params_front req =
    andx_bytes req.andx_command req.andx_reserved req.andx_offset
    ++ (put_u16 req.fid
        ++ (put_u32 (req.offset % 2 ^ 32)
            ++ (put_u16 req.max_count_of_bytes_to_return
                ++ put_u16 req.min_count_of_bytes_to_return)))

unfoldable pub encode_read_request :
    Option ReadRequest → Bool → Bool → Outcome FileOpError (Bytes × Bytes)
encode_read_request none supports_large_files supports_large_readx = err nil_request
encode_read_request (some req) supports_large_files supports_large_readx =
    if supports_large_files
    then ok (
      read_params_front req
          ++ ((if supports_large_readx
                then put_u16 req.max_count_high ++ put_u16 0
                else put_u32 req.timeout)
              ++ (put_u16 req.remaining ++ put_u32 (req.offset / 2 ^ 32 % 2 ^ 32))),
      [],
    )
    else ok (read_params_front req ++ (put_u32 req.timeout ++ put_u16 req.remaining), [])

pub record ReadResponse : Type 0 where
  pub andx_command : ℕ
  pub andx_reserved : ℕ
  pub andx_offset : ℕ
  pub remaining : ℕ
  pub data_compaction_mode : ℕ
  pub reserved : ℕ
  pub data_length : ℕ
  pub data_offset : ℕ
  pub data_length_high : ℕ
  pub content : Bytes

-- `uint64(low) | uint64(high) << 16`, of a low half below 2^16.
abbrev pub total_length : ℕ → ℕ → ℕ
total_length low high = low + 65536 * high

-- The bytes ahead of the data, where the offset names a place within the section; else none.
abbrev pub read_padding : ℕ → ℕ → ℕ → ℕ
read_padding data_offset section_offset available =
    if ltb data_offset section_offset || ltb available (data_offset - section_offset)
    then 0
    else data_offset - section_offset

unfoldable pub read_content : ℕ → ℕ → Bytes → Outcome FileOpError Bytes
read_content total padding bytes =
    if total == 0
    then ok []
    else if ltb (length bytes) (padding + total)
    then err content_too_short
    else cut bytes padding (padding + total)

abbrev pub read_response_of : Bytes → Bytes → ReadResponse
read_response_of params content = record {
  andx_command = byte_at params 0;
  andx_reserved = byte_at params 1;
  andx_offset = u16_at params 2;
  remaining = u16_at params 4;
  data_compaction_mode = u16_at params 6;
  reserved = u16_at params 8;
  data_length = u16_at params 10;
  data_offset = u16_at params 12;
  data_length_high = u32_at params 14;
  content = content;
}

unfoldable pub decode_read_response : Bytes → Bytes → Outcome FileOpError ReadResponse
decode_read_response params bytes = if ltb (length params) 24 then err params_too_short else do
  content ←
      read_content (total_length (u16_at params 10) (u32_at params 14))
        (read_padding (u16_at params 12) (header_size + 1 + length params + 2) (length bytes)) bytes
  ok (read_response_of params content)

pub record WriteRequest : Type 0 where
  pub andx_command : ℕ
  pub andx_reserved : ℕ
  pub andx_offset : ℕ
  pub fid : ℕ
  pub offset : ℕ
  pub timeout : ℕ
  pub write_mode : ℕ
  pub remaining : ℕ
  pub data_length_high : ℕ
  pub data_length : ℕ
  pub content : Bytes

-- The parameters up to the data's offset, which is where the data begins behind so many parameters.
abbrev pub write_params_front : WriteRequest → ℕ → Bytes
write_params_front req params_len =
    andx_bytes req.andx_command req.andx_reserved req.andx_offset
    ++ (put_u16 req.fid
        ++ (put_u32 (req.offset % 2 ^ 32)
            ++ (put_u32 req.timeout
                ++ (put_u16 req.write_mode
                    ++ (put_u16 req.remaining
                        ++ (put_u16 req.data_length_high
                            ++ (put_u16 req.data_length
                                ++ put_u16 ((header_size + 1 + params_len + 2) % 2 ^ 16))))))))

unfoldable pub encode_write_request :
    Option WriteRequest → Bool → Outcome FileOpError (Bytes × Bytes)
encode_write_request none supports_large_files = err nil_request
encode_write_request (some req) supports_large_files =
    if supports_large_files
    then ok (write_params_front req 28 ++ put_u32 (req.offset / 2 ^ 32 % 2 ^ 32), req.content)
    else ok (write_params_front req 24, req.content)

pub record WriteResponse : Type 0 where
  pub andx_command : ℕ
  pub andx_reserved : ℕ
  pub andx_offset : ℕ
  pub count : ℕ
  pub remaining : ℕ
  pub count_high : ℕ

unfoldable pub decode_write_response : Bytes → Outcome FileOpError WriteResponse
decode_write_response params =
    if ltb (length params) 12
    then err params_too_short
    else ok (record {
      andx_command = byte_at params 0;
      andx_reserved = byte_at params 1;
      andx_offset = u16_at params 2;
      count = u16_at params 4;
      remaining = u16_at params 6;
      count_high = u32_at params 8;
    })

abbrev pub bytes_written : WriteResponse → ℕ
bytes_written r = total_length r.count r.count_high

abbrev pub read_data_length : ReadResponse → ℕ
read_data_length r = total_length r.data_length r.data_length_high

abbrev pub is_dir : NtCreateResponse → Bool
is_dir r = not (r.is_directory == 0)

pub record CloseRequest : Type 0 where
  pub fid : ℕ
  pub last_write_time : ℕ

unfoldable pub encode_close_request : Option CloseRequest → Outcome FileOpError (Bytes × Bytes)
encode_close_request none = err nil_request
encode_close_request (some req) = ok (put_u16 req.fid ++ put_u32 req.last_write_time, [])

unfoldable pub decode_close_response : Bytes → Bytes → Outcome FileOpError (Unit {0})
decode_close_response params content =
    if not (length params == 0)
    then err unexpected_params
    else if not (length content == 0)
    then err unexpected_content
    else ok tt
