-- ===== src/Client/File/Reads.antt =====
-- internal/client/file.go: `readAtChunk`, `ReadAt` and `readSequential`.
pub mod Content
pub mod Sequential
use smb1client.Common.{
  ℕ, zero, suc, ◌+◌, ◌-◌, ◌%◌, ◌^◌, Bool, true, false, Option, none, some, List, [], ◌∷◌, ◌++◌,
  length, ltb, ◌==◌, if◌then◌else◌, min, take, Outcome, ok, err, panic,
}
use smb1client.Wire.{Bytes}
use smb1client.Smb1.Header.{Header}
use smb1client.Smb1.FileOps.{FileOpError, ReadResponse, encode_read_request, decode_read_response}
use smb1client.Client.Conn.{Conn, ConnError, Response}
use smb1client.Client.Calls.{Returned, answered, unanswered, crashed}
use smb1client.Client.File.{
  File, FileError, eof, bad_request, bad_reply, call_failed, has_capability, cap_large_files,
  cap_large_readx, smb_com_read_andx, status_end_of_file, max_read_chunk, file_header, read_request,
}

-- What a read ends in: the bytes put at the front of the buffer, the error, and the number of calls
-- made until then. `unfinished` is no outcome of the source.
pub data Reading : Type 0 where
  stored : Bytes → Option FileError → ℕ → Reading
  crashes : Reading
  unfinished : Reading

-- `copy(buf, readResp.Data)`, into a buffer with so many bytes left. An empty reply ends the file.
unfoldable pub store_reply : ℕ → ℕ → Outcome FileOpError ReadResponse → Reading
store_reply calls room (err e) = stored [] (some (bad_reply e)) calls
store_reply calls room panic = crashes
store_reply calls room (ok r) =
    stored (take room r.content) (if length (take room r.content) == 0 then some eof else none)
      calls

-- What the response's `params` and `data` are read from: nil where there is no packet.
abbrev pub decode_reply : Response → Outcome FileOpError ReadResponse
decode_reply r = elim r.packet [
  | none ↦ decode_read_response [] []
  | some p ↦ decode_read_response p.parameters p.content
]

-- A reply with an error: only `STATUS_END_OF_FILE` ends the file. A response without a header cannot
-- be asked for its status.
unfoldable pub refuse_reply : ℕ → Response → ConnError → Reading
refuse_reply calls r e = elim r.packet [
  | none ↦ crashes
  | some p ↦
      if p.header.status == status_end_of_file
      then stored [] (some eof) calls
      else stored [] (some (call_failed e)) calls
]

unfoldable pub take_reply : ℕ → ℕ → Returned → Reading
take_reply calls room (answered r (some e) c) = refuse_reply calls r e
take_reply calls room (answered r none c) = elim r.error [
  | some e ↦ stored [] (some (call_failed e)) calls
  | none ↦ store_reply calls room (decode_reply r)
]
take_reply calls room (unanswered e c) = stored [] (some (call_failed e)) calls
take_reply calls room crashed = crashes

-- A round of a loop that reads on where it has stored something and met no error.
unfoldable pub prepend : Bytes → Reading → Reading
prepend front (stored rest e calls) = stored (front ++ rest) e calls
prepend front crashes = crashes
prepend front unfinished = unfinished

unfoldable pub read_on : Reading → (Bytes → ℕ → Reading) → Reading
read_on (stored content none calls) next = prepend content (next content calls)
read_on (stored content (some e) calls) next = stored content (some e) calls
read_on crashes next = crashes
read_on unfinished next = unfinished

-- `readSequential` hands over what it has with a nil error when the file ends.
unfoldable pub forgive_eof : ℕ → Option FileError → Option FileError
forgive_eof total (some eof) = if ltb 0 total then none else some eof
forgive_eof total e = e

unfoldable pub read_piece : ℕ → Reading → (Bytes → ℕ → Reading) → Reading
read_piece total (stored content none calls) next = prepend content (next content calls)
read_piece total (stored content (some e) calls) next =
    stored content (forgive_eof (total + length content) (some e)) calls
read_piece total crashes next = crashes
read_piece total unfinished next = unfinished

-- `exchange` is what `sendRecvSettled` returns for the request of a header, parameters and data, at
-- its first, second and later call: the connection and the server are behind it.
module _ (exchange : ℕ → Header → Bytes → Bytes → Returned) where
  unfoldable pub send_read : File → ℕ → ℕ → Outcome FileOpError (Bytes × Bytes) → Reading
  send_read f calls room (ok (params, content)) =
      take_reply (calls + 1) room (exchange calls (file_header f smb_com_read_andx) params content)
  send_read f calls room (err e) = stored [] (some (bad_request e)) calls
  send_read f calls room panic = crashes

  unfoldable pub read_at_chunk : File → ℕ → ℕ → ℕ → Reading
  read_at_chunk f calls room offset = send_read f calls room (
      encode_read_request (some (read_request f offset (min room (max_read_chunk f))))
        (has_capability f cap_large_files) (has_capability f cap_large_readx))

  -- The loop of `ReadAt`, on fuel; a round that goes on has stored at least a byte.
  unfoldable pub read_loop : ℕ → File → ℕ → ℕ → ℕ → Reading
  read_loop zero f calls room offset = if room == 0 then stored [] none calls else unfinished
  read_loop (suc fuel) f calls room offset =
      if room == 0
      then stored [] none calls
      else read_on (read_at_chunk f calls room offset) (λ content calls'.
        read_loop fuel f calls' (room - length content) (offset + length content))

  unfoldable pub read_at : File → ℕ → ℕ → ℕ → Reading
  read_at f calls room offset = read_loop room f calls room offset

  -- The loop of `readSequential`, of which `total` bytes have been read.
  unfoldable pub sequential_loop : ℕ → File → ℕ → ℕ → ℕ → ℕ → Reading
  sequential_loop zero f calls total room offset =
      if room == 0 then stored [] none calls else unfinished
  sequential_loop (suc fuel) f calls total room offset =
      if room == 0
      then stored [] none calls
      else read_piece total (read_at f calls (min room (max_read_chunk f)) offset)
          (λ content calls'.
            sequential_loop fuel f calls' (total + length content) (room - length content)
              (offset + length content))

  unfoldable pub read_sequential : File → ℕ → ℕ → ℕ → Reading
  read_sequential f calls room offset = sequential_loop room f calls 0 room offset
