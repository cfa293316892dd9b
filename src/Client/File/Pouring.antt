-- ===== src/Client/File/Pouring.antt =====
-- internal/client/file.go: `writePipelined` and `sendWriteRequest`.
pub mod Sends
pub mod Rounds
pub mod Accounts
use smb1client.Common.{
  ℕ, zero, suc, ◌+◌, ◌-◌, ◌*◌, Bool, true, false, Option, none, some, List, [], ◌∷◌, ◌++◌, map,
  length, ltb, if◌then◌else◌, min, take, drop, Outcome, ok, err, panic,
}
use smb1client.Wire.{Bytes, slice}
use smb1client.Smb1.Header.{Header}
use smb1client.Smb1.FileOps.{
  FileOpError, WriteResponse, bytes_written, nil_request, encode_write_request,
}
use smb1client.Client.Conn.{ConnError, Response}
use smb1client.Client.File.{
  File, FileError, short_write, cancelled, bad_request, bad_reply, call_failed, has_capability,
  cap_large_files, smb_com_write_andx, max_write_chunk, file_header, write_request, pipeline_depth,
  chunk_count, chunk_size, Awaited, replied, context_ends, connection_ends,
}
use smb1client.Client.File.Writes.{decode_write_reply}

pub record WriteChunk : Type 0 where
  pub offset : ℕ
  pub content : Bytes

-- A chunk whose request is on the wire, with the request's parameters.
abbrev pub Flight : Type 0
Flight = List (WriteChunk × Bytes)

-- What a drain ends in for one chunk.
pub data Drained : Type 0 where
  late_reply : Response → Drained
  deadline_passes : Drained
  connection_lost : ConnError → Drained

-- The connection and the caller, as the transfer meets them: what registering and writing a request
-- gives, no error being success; what comes of waiting for a chunk while the write is live, and while
-- it is draining; whether the context is done, once so many chunks are left to take; and whether it is
-- by the time that a request has failed to be sent.
pub record Feed : Type 0 where
  pub dispatch : Header → Bytes → Bytes → Option ConnError
  pub await : Bytes → Awaited
  pub drain : Bytes → Drained
  pub context_done : ℕ → Bool
  pub send_cancelled : ℕ → Bool

-- The chunks from the i-th on, so many of them.
unfoldable pub write_chunks : ℕ → ℕ → ℕ → Bytes → ℕ → List WriteChunk
write_chunks zero i chunk content offset = []
write_chunks (suc n) i chunk content offset =
    record {
      offset = offset + i * chunk;
      content = slice content (i * chunk) (chunk_size (length content) chunk (i * chunk));
    }
    ∷ write_chunks n (suc i) chunk content offset

-- How `writePipelined` ends: the count and the error; the chunks that were taken, those left in flight,
-- and those never sent. What is left is given up, or collected first, or the connection is gone.
pub record Poured : Type 0 where
  pub total : ℕ
  pub error : Option FileError
  pub taken : List WriteChunk
  pub left : List WriteChunk
  pub is_collected : Bool
  pub unsent : List WriteChunk

abbrev pub stop :
    ℕ → Option FileError → List WriteChunk → List WriteChunk → Bool → List WriteChunk → Poured
stop total e taken left collected unsent = record {
  total = total;
  error = e;
  taken = taken;
  left = left;
  is_collected = collected;
  unsent = unsent;
}

abbrev pub chunks_of : Flight → List WriteChunk
chunks_of flight = map (λ (p : WriteChunk × Bytes). p.0) flight

pub data Sent : Type 0 where
  is_sent : Bytes → Sent
  not_sent : FileError → Sent

-- `EncodeWriteRequest` has no run that panics.
unfoldable pub dispatch_encoded : Feed → File → Outcome FileOpError (Bytes × Bytes) → Sent
dispatch_encoded t f (ok (params, content)) =
    elim (t.dispatch (file_header f smb_com_write_andx) params content) [
      | none ↦ is_sent params
      | some e ↦ not_sent (call_failed e)
    ]
dispatch_encoded t f (err e) = not_sent (bad_request e)
dispatch_encoded t f panic = not_sent (bad_request nil_request)

unfoldable pub send_write_request : Feed → File → WriteChunk → Sent
send_write_request t f chunk = dispatch_encoded t f (
    encode_write_request (some (write_request f chunk.offset chunk.content))
      (has_capability f cap_large_files))

-- The initial batch: what is on the wire of it, and the error that broke it off.
unfoldable pub send_batch : Feed → File → List WriteChunk → Flight × Option FileError
send_batch t f [] = ([], none)
send_batch t f (c ∷ cs) = elim (send_write_request t f c) [
  | not_sent e ↦ ([], some e)
  | is_sent params ↦ let (flight, e) = send_batch t f cs in ((c, params) ∷ flight, e)
]

-- `stopFeeding`, of a write that is live: the error that is deferred.
abbrev pub deferred : Bool → FileError → FileError
deferred context_is_done cause = if context_is_done then cancelled else cause

-- What waiting for a chunk ends in, with the deferred error of a write that is draining.
pub data Waited : Type 0 where
  response_came : Response → Option FileError → Waited
  wait_fails : FileError → Waited

unfoldable pub await_drained : FileError → Drained → Waited
await_drained cause (late_reply r) = response_came r (some cause)
await_drained cause deadline_passes = wait_fails cause
await_drained cause (connection_lost e) = wait_fails (call_failed e)

-- `awaitChunk`: a context that ends turns the write into a draining one, which waits on.
unfoldable pub await_live : Feed → Bytes → Awaited → Waited
await_live t params (replied r) = response_came r none
await_live t params context_ends = await_drained cancelled (t.drain params)
await_live t params (connection_ends e) = wait_fails (call_failed e)

unfoldable pub await_chunk : Feed → Bytes → Option FileError → Waited
await_chunk t params none = await_live t params (t.await params)
await_chunk t params (some cause) = await_drained cause (t.drain params)

-- What a response brings: a count, or the error that ends the write.
abbrev pub count_brought : Outcome FileOpError WriteResponse → Outcome FileError ℕ
count_brought (ok r) = ok (bytes_written r)
count_brought (err e) = err (bad_reply e)
count_brought panic = panic

unfoldable pub brought : Response → Outcome FileError ℕ
brought r = elim r.error [
  | some e ↦ err (call_failed e)
  | none ↦ count_brought (decode_write_reply r)
]

-- After a whole chunk: the next request, while the write is live. `next` is given the deferred error.
unfoldable pub feed :
    Feed
    → File
    → ℕ
    → Option FileError
    → Flight
    → List WriteChunk
    → (Option FileError → Flight → List WriteChunk → Poured)
    → Poured
feed t f rounds (some cause) flight unsent next = next (some cause) flight unsent
feed t f rounds none flight unsent next =
    if t.context_done rounds then next (some cancelled) flight unsent else elim unsent [
      | [] ↦ next none flight []
      | c ∷ cs ↦ elim (send_write_request t f c) [
        | not_sent e ↦ next (some (deferred (t.send_cancelled rounds) e)) flight (c ∷ cs)
        | is_sent params ↦ next none (flight ++ ((c, params) ∷ [])) cs
      ]
    ]

-- `DecodeWriteResponse` has no run that panics.
unfoldable pub take_count :
    ℕ
    → List WriteChunk
    → WriteChunk
    → Flight
    → List WriteChunk
    → Outcome FileError ℕ
    → (ℕ → Poured)
    → Poured
take_count total taken c flight unsent (err e) next =
    stop total (some e) taken (chunks_of flight) true unsent
take_count total taken c flight unsent panic next =
    stop total (some (bad_reply nil_request)) taken (chunks_of flight) true unsent
take_count total taken c flight unsent (ok n) next =
    if ltb n (length c.content)
    then stop (total + n) (some short_write) taken (chunks_of flight) true unsent
    else next (total + n)

unfoldable pub take_waited :
    Feed
    → File
    → ℕ
    → ℕ
    → List WriteChunk
    → WriteChunk
    → Flight
    → List WriteChunk
    → Waited
    → (ℕ → Option FileError → Flight → List WriteChunk → Poured)
    → Poured
take_waited t f rounds total taken c flight unsent (wait_fails e) next =
    stop total (some e) taken (c ∷ chunks_of flight) false unsent
take_waited t f rounds total taken c flight unsent (response_came r draining) next =
    take_count total (taken ++ (c ∷ [])) c flight unsent (brought r)
      (λ total'. feed t f rounds draining flight unsent (next total'))

-- The loop over the chunks, of which so many rounds are left.
unfoldable pub pouring_rounds :
    Feed → File → ℕ → List WriteChunk → ℕ → Option FileError → Flight → List WriteChunk → Poured
pouring_rounds t f zero taken total draining flight unsent =
    stop total draining taken (chunks_of flight) false unsent
pouring_rounds t f (suc rounds) taken total draining [] unsent =
    stop total draining taken [] false unsent
pouring_rounds t f (suc rounds) taken total draining ((c, params) ∷ flight) unsent =
    take_waited t f rounds total taken c flight unsent (await_chunk t params draining)
      (λ total' draining' flight' unsent'.
        pouring_rounds t f rounds (taken ++ (c ∷ [])) total' draining' flight' unsent')

-- A batch that was broken off is drained.
abbrev pub first_cause : Feed → ℕ → Option FileError → Option FileError
first_cause t rounds none = none
first_cause t rounds (some e) = some (deferred (t.send_cancelled rounds) e)

abbrev pub start_pouring : Feed → File → List WriteChunk → Flight × Option FileError → Poured
start_pouring t f chunks (flight, e) =
    pouring_rounds t f (length chunks) [] 0 (first_cause t (length chunks) e) flight
      (drop (length flight) chunks)

unfoldable pub write_pipelined : Feed → File → Bytes → ℕ → Poured
write_pipelined t f content offset =
    let count = chunk_count (length content) (max_write_chunk f) in
    let depth = min (pipeline_depth f.max_mpx_count).0 count in
    let chunks = write_chunks count 0 (max_write_chunk f) content offset in
    start_pouring t f chunks (send_batch t f (take depth chunks))
