-- ===== src/Client/File/Pipeline.antt =====
-- internal/client/file.go: `readPipelined` and `sendReadRequest`.
pub mod Chunks
pub mod Sends
pub mod Accounts
pub mod Pieces
pub mod Content
use smb1client.Common.{
  ℕ, zero, suc, ◌+◌, ◌-◌, ◌*◌, Bool, true, false, Option, none, some, List, [], ◌∷◌, ◌++◌, map,
  length, ltb, ◌==◌, if◌then◌else◌, min, take, drop, Outcome, ok, err, panic,
}
use smb1client.Wire.{Bytes}
use smb1client.Smb1.Header.{Header}
use smb1client.Smb1.FileOps.{
  FileOpError, ReadResponse, nil_request, encode_read_request, decode_read_response,
}
use smb1client.Client.Conn.{ConnError, Response}
use smb1client.Client.File.{
  File, FileError, eof, cancelled, bad_request, bad_reply, call_failed, has_capability,
  cap_large_files, cap_large_readx, smb_com_read_andx, status_end_of_file, max_read_chunk,
  file_header, read_request, pipeline_depth, chunk_count, chunk_size, Awaited, replied,
  context_ends, connection_ends, Transport,
}
use smb1client.Client.File.Reads.{decode_reply}

pub record ReadChunk : Type 0 where
  pub offset : ℕ
  pub size : ℕ
  pub buf_offset : ℕ

-- A chunk whose request is on the wire, with the request's parameters.
abbrev pub Flight : Type 0
Flight = List (ReadChunk × Bytes)

-- The chunks from the i-th on, so many of them.
unfoldable pub read_chunks : ℕ → ℕ → ℕ → ℕ → ℕ → List ReadChunk
read_chunks zero i total chunk offset = []
read_chunks (suc n) i total chunk offset =
    record {
      offset = offset + i * chunk;
      size = chunk_size total chunk (i * chunk);
      buf_offset = i * chunk;
    }
    ∷ read_chunks n (suc i) total chunk offset

-- How `readPipelined` ends: the buffer, `totalRead` and the error; the chunks whose replies were
-- taken, the chunks in flight that were left then, and those that were never sent. What is left is
-- passed to `collectReplies` unless the connection is gone.
pub record Piped : Type 0 where
  pub buffer : Bytes
  pub total : ℕ
  pub error : Option FileError
  pub taken : List ReadChunk
  pub left : List ReadChunk
  pub is_connection_gone : Bool
  pub unsent : List ReadChunk

-- What a reply brings.
pub data Brought : Type 0 where
  bytes_for : Bytes → Brought
  file_ends : Brought
  reply_fails : FileError → Brought

-- `DecodeReadResponse` has no run that panics.
abbrev pub brought_by : Outcome FileOpError ReadResponse → Brought
brought_by (ok r) = bytes_for r.content
brought_by (err e) = reply_fails (bad_reply e)
brought_by panic = reply_fails (bad_reply nil_request)

abbrev pub brought_error : Response → ConnError → Brought
brought_error r e = elim r.packet [
  | none ↦ reply_fails (call_failed e)
  | some p ↦
      if p.header.status == status_end_of_file then file_ends else reply_fails (call_failed e)
]

unfoldable pub brought : Response → Brought
brought r = elim r.error [ some e ↦ brought_error r e | none ↦ brought_by (decode_reply r) ]

-- `copy(buf[at:at+size], data)`: the bytes copied, and the buffer with them.
abbrev pub place : Bytes → ℕ → Bytes → Bytes
place buf at copied = take at buf ++ (copied ++ drop (at + length copied) buf)

-- A file that ends is an error only to a read that has nothing.
abbrev pub end_error : ℕ → Option FileError
end_error total = if ltb 0 total then none else some eof

abbrev pub chunks_of : Flight → List ReadChunk
chunks_of flight = map (λ (p : ReadChunk × Bytes). p.0) flight

abbrev pub stop :
    Bytes → ℕ → Option FileError → List ReadChunk → List ReadChunk → Bool → List ReadChunk → Piped
stop buf total e taken left gone unsent = record {
  buffer = buf;
  total = total;
  error = e;
  taken = taken;
  left = left;
  is_connection_gone = gone;
  unsent = unsent;
}

pub data Sent : Type 0 where
  is_sent : Bytes → Sent
  not_sent : FileError → Sent

unfoldable pub dispatch_encoded : Transport → ℕ → File → Outcome FileOpError (Bytes × Bytes) → Sent
dispatch_encoded t calls f (ok (params, content)) =
    elim (t.dispatch calls (file_header f smb_com_read_andx) params content) [
      | none ↦ is_sent params
      | some e ↦ not_sent (call_failed e)
    ]
dispatch_encoded t calls f (err e) = not_sent (bad_request e)
dispatch_encoded t calls f panic = not_sent (bad_request nil_request)

unfoldable pub send_read_request : Transport → ℕ → File → ReadChunk → Sent
send_read_request t calls f chunk = dispatch_encoded t calls f (
    encode_read_request (some (read_request f chunk.offset chunk.size))
      (has_capability f cap_large_files) (has_capability f cap_large_readx))

-- The initial batch: what is on the wire of it, and the error that broke it off.
unfoldable pub send_batch : Transport → ℕ → File → List ReadChunk → Flight × Option FileError
send_batch t calls f [] = ([], none)
send_batch t calls f (c ∷ cs) = elim (send_read_request t calls f c) [
  | not_sent e ↦ ([], some e)
  | is_sent params ↦ let (flight, e) = send_batch t calls f cs in ((c, params) ∷ flight, e)
]

-- After a chunk that is complete: the next request, if any remain, and the rounds that follow.
unfoldable pub feed :
    Transport
    → ℕ
    → File
    → Bytes
    → ℕ
    → List ReadChunk
    → Flight
    → List ReadChunk
    → (Flight → List ReadChunk → Piped)
    → Piped
feed t calls f buf total taken flight [] next = next flight []
feed t calls f buf total taken flight (c ∷ cs) next = elim (send_read_request t calls f c) [
  | not_sent e ↦ stop buf total (some e) taken (chunks_of flight) false (c ∷ cs)
  | is_sent params ↦ next (flight ++ ((c, params) ∷ [])) cs
]

-- The chunk's copied bytes; a short chunk ends the call.
unfoldable pub take_bytes :
    Transport
    → ℕ
    → File
    → Bytes
    → ℕ
    → List ReadChunk
    → ReadChunk
    → Flight
    → List ReadChunk
    → Bytes
    → (Bytes → ℕ → Flight → List ReadChunk → Piped)
    → Piped
take_bytes t calls f buf total taken c flight unsent copied next =
    let buf' = place buf c.buf_offset copied in
    let total' = total + length copied in
    if ltb (length copied) c.size
    then stop buf' total' (end_error total') taken (chunks_of flight) false unsent
    else feed t calls f buf' total' taken flight unsent (next buf' total')

unfoldable pub take_chunk :
    Transport
    → ℕ
    → File
    → Bytes
    → ℕ
    → List ReadChunk
    → ReadChunk
    → Flight
    → List ReadChunk
    → Brought
    → (Bytes → ℕ → Flight → List ReadChunk → Piped)
    → Piped
take_chunk t calls f buf total taken c flight unsent (bytes_for found) next =
    take_bytes t calls f buf total taken c flight unsent (take c.size found) next
take_chunk t calls f buf total taken c flight unsent file_ends next =
    stop buf total (end_error total) taken (chunks_of flight) false unsent
take_chunk t calls f buf total taken c flight unsent (reply_fails e) next =
    stop buf total (some e) taken (chunks_of flight) false unsent

-- The wait for the oldest chunk.
unfoldable pub take_awaited :
    Transport
    → ℕ
    → File
    → Bytes
    → ℕ
    → List ReadChunk
    → ReadChunk
    → Flight
    → List ReadChunk
    → Awaited
    → (Bytes → ℕ → Flight → List ReadChunk → Piped)
    → Piped
take_awaited t calls f buf total taken c flight unsent context_ends next =
    stop buf total (some cancelled) taken (c ∷ chunks_of flight) false unsent
take_awaited t calls f buf total taken c flight unsent (connection_ends e) next =
    stop buf total (some (call_failed e)) taken (c ∷ chunks_of flight) true unsent
take_awaited t calls f buf total taken c flight unsent (replied r) next =
    take_chunk t calls f buf total (taken ++ (c ∷ [])) c flight unsent (brought r) next

-- The loop over the chunks, of which so many rounds are left.
unfoldable pub pipeline_rounds :
    Transport → ℕ → File → ℕ → List ReadChunk → Bytes → ℕ → Flight → List ReadChunk → Piped
pipeline_rounds t calls f zero taken buf total flight unsent =
    stop buf total none taken (chunks_of flight) false unsent
pipeline_rounds t calls f (suc rounds) taken buf total [] unsent =
    stop buf total none taken [] false unsent
pipeline_rounds t calls f (suc rounds) taken buf total ((c, params) ∷ flight) unsent =
    take_awaited t calls f buf total taken c flight unsent (t.await calls params)
      (λ buf' total' flight' unsent'.
        pipeline_rounds t calls f rounds (taken ++ (c ∷ [])) buf' total' flight' unsent')

-- A batch that was broken off ends the call with nothing read.
unfoldable pub start_pipeline :
    Transport → ℕ → File → Bytes → List ReadChunk → ℕ → Flight × Option FileError → Piped
start_pipeline t calls f buf chunks depth (flight, some e) =
    stop buf 0 (some e) [] (chunks_of flight) false (drop (length flight) chunks)
start_pipeline t calls f buf chunks depth (flight, none) =
    pipeline_rounds t calls f (length chunks) [] buf 0 flight (drop depth chunks)

unfoldable pub read_pipelined : Transport → ℕ → File → Bytes → ℕ → Piped
read_pipelined t calls f buf offset =
    let count = chunk_count (length buf) (max_read_chunk f) in
    let depth = min (pipeline_depth f.max_mpx_count).0 count in
    let chunks = read_chunks count 0 (length buf) (max_read_chunk f) offset in
    start_pipeline t calls f buf chunks depth (send_batch t calls f (take depth chunks))
