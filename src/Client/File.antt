-- ===== src/Client/File.antt =====
-- internal/client/file.go: an open file, the sizes of its transfers, and the requests it sends.
pub mod Requests
pub mod Reads
pub mod Pipeline
pub mod Collect
pub mod Position
pub mod Writes
pub mod Pouring
pub mod Listing
use Prim.Native.Nat.{bit_and}
use smb1client.Common.{
  ℕ, ◌+◌, ◌-◌, ◌*◌, ◌/◌, ◌%◌, ◌^◌, Bool, true, false, not, ◌&&◌, Option, none, some, List, [], ◌∷◌,
  length, ltb, leb, ◌==◌, if◌then◌else◌, min,
}
use smb1client.Wire.{Bytes}
use smb1client.Smb1.Header.{Header, new_header, smb_com_no_andx_command}
use smb1client.Smb1.Packet.{max_data_size, max_small_data_size}
use smb1client.Smb1.FileOps.{FileOpError, ReadRequest, WriteRequest}
use smb1client.Client.Conn.{ConnError, Response}
use smb1client.Client.Calls.{Returned}

abbrev pub smb_protocol_overhead : ℕ
smb_protocol_overhead = 1024

abbrev pub max_pipeline_depth : ℕ
max_pipeline_depth = 50

abbrev pub cap_large_files : ℕ
cap_large_files = 0x0000_0008

abbrev pub cap_large_readx : ℕ
cap_large_readx = 0x0000_4000

abbrev pub cap_large_writex : ℕ
cap_large_writex = 0x0000_8000

abbrev pub smb_com_read_andx : ℕ
smb_com_read_andx = 0x2E

abbrev pub smb_com_write_andx : ℕ
smb_com_write_andx = 0x2F

abbrev pub status_end_of_file : ℕ
status_end_of_file = 0xC000_0011

-- A `File`, with the fields of its session and its connection that a transfer reads.
pub record File : Type 0 where
  pub uid : ℕ
  pub tid : ℕ
  pub fid : ℕ
  pub name : Bytes
  pub offset : ℕ
  pub capabilities : ℕ
  pub max_buffer_size : ℕ
  pub max_mpx_count : ℕ

-- `cancelled` is the context's error; the rest wrap the error of the part that failed.
pub data FileError : Type 0 where
  eof short_write cancelled : FileError
  bad_request bad_reply : FileOpError → FileError
  call_failed : ConnError → FileError

-- `capabilities & mask != 0`
unfoldable pub has_capability : File → ℕ → Bool
has_capability f mask = not (bit_and f.capabilities mask == 0)

unfoldable pub clamp_to_negotiated_buffer : ℕ → ℕ → ℕ
clamp_to_negotiated_buffer ceiling max_buffer_size =
    if max_buffer_size == 0
    then ceiling
    else if ltb smb_protocol_overhead max_buffer_size
        && ltb (max_buffer_size - smb_protocol_overhead) ceiling
    then max_buffer_size - smb_protocol_overhead
    else ceiling

unfoldable pub max_read_chunk : File → ℕ
max_read_chunk f =
    if has_capability f cap_large_readx
    then max_small_data_size
    else clamp_to_negotiated_buffer max_small_data_size f.max_buffer_size

unfoldable pub max_write_chunk : File → ℕ
max_write_chunk f =
    if has_capability f cap_large_writex
    then max_data_size
    else clamp_to_negotiated_buffer max_small_data_size f.max_buffer_size

unfoldable pub pipeline_depth : ℕ → ℕ × Bool
pipeline_depth max_mpx_count =
    if leb max_mpx_count 1
    then (1, false)
    else if ltb max_pipeline_depth max_mpx_count
    then (max_pipeline_depth, true)
    else (max_mpx_count, true)

-- The header of a request that concerns the file.
abbrev pub file_header : File → ℕ → Header
file_header f command = record (new_header command) { uid = f.uid; tid = f.tid }

abbrev pub read_request : File → ℕ → ℕ → ReadRequest
read_request f offset size = record {
  andx_command = smb_com_no_andx_command;
  andx_reserved = 0;
  andx_offset = 0;
  fid = f.fid;
  offset = offset;
  max_count_of_bytes_to_return = size % 2 ^ 16;
  min_count_of_bytes_to_return = 0;
  max_count_high = size / 2 ^ 16 % 2 ^ 16;
  timeout = 0;
  remaining = 0;
}

abbrev pub write_request : File → ℕ → Bytes → WriteRequest
write_request f offset content = record {
  andx_command = smb_com_no_andx_command;
  andx_reserved = 0;
  andx_offset = 0;
  fid = f.fid;
  offset = offset;
  timeout = 0;
  write_mode = 0;
  remaining = 0;
  data_length_high = length content / 2 ^ 16 % 2 ^ 16;
  data_length = length content % 2 ^ 16;
  content = content;
}

-- The chunks of a pipelined transfer of so many bytes: as many as it takes.
abbrev pub chunk_count : ℕ → ℕ → ℕ
chunk_count total chunk = (total + chunk - 1) / chunk

abbrev pub chunk_size : ℕ → ℕ → ℕ → ℕ
chunk_size total chunk at = if ltb total (at + chunk) then total - at else chunk

-- What a transfer waits for on one of its pipelined requests.
pub data Awaited : Type 0 where
  replied : Response → Awaited
  context_ends : Awaited
  connection_ends : ConnError → Awaited

-- The connection, as a transfer uses it, with the server behind it. `exchange` is what
-- `sendRecvSettled` returns for the request of a header, parameters and data; `dispatch` what
-- registering and writing such a request gives, no error being success; `await` what comes of it. The
-- number is that of the calls made before, so that an answer may be another each time.
pub record Transport : Type 0 where
  pub exchange : ℕ → Header → Bytes → Bytes → Returned
  pub dispatch : ℕ → Header → Bytes → Bytes → Option ConnError
  pub await : ℕ → Bytes → Awaited
