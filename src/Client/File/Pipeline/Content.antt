-- ===== src/Client/File/Pipeline/Content.antt =====
-- What a pipelined read puts into the buffer, when the server serves one file.
use smb1client.Common.{
  ℕ, zero, suc, ◌+◌, ◌%◌, ◌^◌, ◌≤◌, ◌<◌, ◌≡◌, ◌⊎◌, inl, inr, refl, Bool, true, false, Option, none,
  some, List, [], ◌∷◌, ◌++◌, All, All-append, All-take, length, ltb, take, drop, arith, Bool-cases,
  length-take, length-drop, length-append, take_all,
}
use smb1client.Wire.{Bytes, u16_at}
use smb1client.Client.Conn.{ConnError}
use smb1client.Client.File.{
  File, FileError, call_failed, max_read_chunk, Awaited, replied, context_ends, connection_ends,
  Transport, has_capability, cap_large_files,
}
use smb1client.Client.File.Requests.{asked_offset, asked_count, IsAddressable, max_read_chunk_fits}
use smb1client.Client.File.Reads.Content.{IsPieceOf, earlier-IsAddressable}
use smb1client.Client.File.Pipeline.Chunks.{IsLine, line_fits, read_chunks-IsLine, deep_enough}
use smb1client.Client.File.Pipeline.Accounts.{
  IsBatch, chunks_of-append, batch_order, send_batch-IsBatch,
}
use smb1client.Client.File.Pipeline.{
  ReadChunk, Flight, Piped, Brought, bytes_for, file_ends, reply_fails, brought, place, chunks_of,
  stop, send_batch, feed, take_bytes, take_chunk, take_awaited, pipeline_rounds, start_pipeline,
  read_pipelined,
}
use smb1client.Client.File.Pipeline.Pieces.{
  ServesAwaited, EndsPiped, IsFilled, IsPiped, Asks, place-IsFilled, nothing_filled,
  end_error-EndsPiped, IsBrought, brought-IsBrought, send_read_request-Asks, IsWithin,
  line-IsWithin, busy_batch,
}

-- A read of `before`'s length, from an offset of a file that is served.
module _ (file : Bytes) (f : File) (t : Transport) (calls offset : ℕ) (before : Bytes)
    (fits : IsAddressable (has_capability f cap_large_files) (offset + length before))
    (serves : (params : Bytes)
      → u16_at params 4 ≡ f.fid % 2 ^ 16
      → ServesAwaited file (asked_offset params) (asked_count params) (t.await calls params)) where
  record IsRunning (rounds : ℕ) (buf : Bytes) (total : ℕ) (flight : Flight)
      (unsent : List ReadChunk) : Type 0 where
    filled : IsFilled file offset before buf total
    line : IsLine offset (length before) total (chunks_of flight ++ unsent)
    asked : All (Asks f.fid) flight
    enough : length flight + length unsent ≤ rounds
    busy : (0 < length flight) ⊎ (unsent ≡ [])

  stop-IsPiped :
      (buf : Bytes) (total : ℕ) (e : Option FileError) (taken left : List ReadChunk) (gone : Bool)
      (unsent : List ReadChunk)
      → IsFilled file offset before buf total
      → total ≤ length before
      → EndsPiped file offset (length before) total e
      → IsPiped file offset before (stop buf total e taken left gone unsent)
  stop-IsPiped buf total e taken left gone unsent filled within ends = record {
    filled = filled;
    fits = within;
    ends = ends;
  }

  feed-IsPiped :
      (rounds : ℕ) (buf : Bytes) (total : ℕ) (taken : List ReadChunk) (flight : Flight)
      (unsent : List ReadChunk) (next : Flight → List ReadChunk → Piped)
      → IsFilled file offset before buf total
      → IsLine offset (length before) total (chunks_of flight ++ unsent)
      → All (Asks f.fid) flight
      → length flight + length unsent ≤ rounds
      → ((flight' : Flight) (unsent' : List ReadChunk)
          → IsRunning rounds buf total flight' unsent'
          → IsPiped file offset before (next flight' unsent'))
      → IsPiped file offset before (feed t calls f buf total taken flight unsent next)
  unfolding feed
  feed-IsPiped rounds buf total taken flight [] next filled line asked enough rest =
      rest flight []
        (record { filled = filled; line = line; asked = asked; enough = enough; busy = inr refl })
  feed-IsPiped rounds buf total taken flight (c ∷ cs) next filled line asked enough rest =
      let (pos, small, far) = next_chunk flight total line in
      let (params, asks, outcome) =
        send_read_request-Asks t calls f c small
          (earlier-IsAddressable _ c.offset _ (omega arith) fits) in
      elim outcome [
        | inl sent ↦
            rw (feed, sent)
              (rest _ _ (record {
                filled = filled;
                line = rw (chunks_of-append flight c params cs) line;
                asked = All-append _ flight _ asked (asks, tt);
                enough = omega (arith, length-append flight ((c, params) ∷ []));
                busy = inl (omega (arith, length-append flight ((c, params) ∷ [])));
              }))
        | inr (b, refused) ↦
            rw (feed, refused)
              (stop-IsPiped buf total _ taken _ false _ filled
                (line_fits offset (length before) total (chunks_of flight ++ (c ∷ cs)) line) tt)
      ]
    where
      next_chunk :
          (flight : Flight) (pos : ℕ)
          → IsLine offset (length before) pos (chunks_of flight ++ (c ∷ cs))
          → (pos ≤ length before) × (c.size < 2 ^ 16) × (c.offset + c.size ≤ offset + length before)
      next_chunk [] pos (b, o, some_bytes, small, within, l) = (omega arith, small, omega arith)
      next_chunk (d ∷ flight) pos (b, o, some_bytes, small, within, l) =
          let (later, small', far) = next_chunk flight _ l in (omega arith, small', far)

  take_bytes-IsPiped :
      (rounds : ℕ) (buf : Bytes) (total : ℕ) (taken : List ReadChunk) (c : ReadChunk)
      (flight : Flight) (unsent : List ReadChunk) (copied : Bytes)
      (next : Bytes → ℕ → Flight → List ReadChunk → Piped)
      → IsFilled file offset before buf total
      → IsLine offset (length before) total (c ∷ chunks_of flight ++ unsent)
      → All (Asks f.fid) flight
      → length flight + length unsent ≤ rounds
      → IsPieceOf file c.offset copied
      → length copied ≤ c.size
      → (0 < length copied) ⊎ (length file ≤ c.offset)
      → ((buf' : Bytes) (total' : ℕ) (flight' : Flight) (unsent' : List ReadChunk)
          → IsRunning rounds buf' total' flight' unsent'
          → IsPiped file offset before (next buf' total' flight' unsent'))
      → IsPiped file offset before
          (take_bytes t calls f buf total taken c flight unsent copied next)
  unfolding take_bytes
  take_bytes-IsPiped rounds buf total taken c flight unsent copied next filled
        (at, same, some_bytes, small, within, line) asked enough piece short more rest =
      let grown : IsFilled file offset before (place buf c.buf_offset copied)
          (total + length copied) =
        rw at (place-IsFilled file offset before buf copied total filled (rw same at piece)) in
      elim (Bool-cases (ltb (length copied) c.size)) [
        | inl cut_short ↦ rw cut_short (
            stop-IsPiped _ _ _ taken _ false unsent grown (omega arith) (
              end_error-EndsPiped file offset (length before) (total + length copied)
                (ground (arith, more, same))))
        | inr full ↦
            let all : length copied ≡ c.size = ground (arith, full) in
            rw full (
              feed-IsPiped rounds _ _ taken flight unsent _ grown (rw all line) asked enough
                (rest _ _))
      ]

  take_chunk-IsPiped :
      (rounds : ℕ) (buf : Bytes) (total : ℕ) (taken : List ReadChunk) (c : ReadChunk)
      (flight : Flight) (unsent : List ReadChunk) (b : Brought)
      (next : Bytes → ℕ → Flight → List ReadChunk → Piped)
      → IsFilled file offset before buf total
      → IsLine offset (length before) total (c ∷ chunks_of flight ++ unsent)
      → All (Asks f.fid) flight
      → length flight + length unsent ≤ rounds
      → IsBrought file c.offset c.size b
      → ((buf' : Bytes) (total' : ℕ) (flight' : Flight) (unsent' : List ReadChunk)
          → IsRunning rounds buf' total' flight' unsent'
          → IsPiped file offset before (next buf' total' flight' unsent'))
      → IsPiped file offset before (take_chunk t calls f buf total taken c flight unsent b next)
  unfolding take_chunk
  take_chunk-IsPiped rounds buf total taken c flight unsent (bytes_for found) next filled line asked
        enough (piece, short, more) rest =
      rw (take_all c.size found short) (
        take_bytes-IsPiped rounds buf total taken c flight unsent found next filled line asked
          enough piece short more rest)
  take_chunk-IsPiped rounds buf total taken c flight unsent file_ends next filled line asked enough
        ends rest =
      stop-IsPiped _ _ _ taken _ false unsent filled
        (line_fits offset (length before) total (c ∷ chunks_of flight ++ unsent) line)
        (end_error-EndsPiped file offset (length before) total (inr (omega (arith, line.1))))
  take_chunk-IsPiped rounds buf total taken c flight unsent (reply_fails e) next filled line asked
        enough (b, is) rest =
      stop-IsPiped _ _ _ taken _ false unsent filled
        (line_fits offset (length before) total (c ∷ chunks_of flight ++ unsent) line) (rw is tt)

  take_awaited-IsPiped :
      (rounds : ℕ) (buf : Bytes) (total : ℕ) (taken : List ReadChunk) (c : ReadChunk)
      (flight : Flight) (unsent : List ReadChunk) (a : Awaited)
      (next : Bytes → ℕ → Flight → List ReadChunk → Piped)
      → IsFilled file offset before buf total
      → IsLine offset (length before) total (c ∷ chunks_of flight ++ unsent)
      → All (Asks f.fid) flight
      → length flight + length unsent ≤ rounds
      → ServesAwaited file c.offset c.size a
      → ((buf' : Bytes) (total' : ℕ) (flight' : Flight) (unsent' : List ReadChunk)
          → IsRunning rounds buf' total' flight' unsent'
          → IsPiped file offset before (next buf' total' flight' unsent'))
      → IsPiped file offset before (take_awaited t calls f buf total taken c flight unsent a next)
  unfolding take_awaited
  take_awaited-IsPiped rounds buf total taken c flight unsent context_ends next filled line asked
        enough served rest =
      stop-IsPiped _ _ _ taken _ false unsent filled
        (line_fits offset (length before) total (c ∷ chunks_of flight ++ unsent) line) tt
  take_awaited-IsPiped rounds buf total taken c flight unsent (connection_ends e) next filled line
        asked enough served rest =
      stop-IsPiped _ _ _ taken _ true unsent filled
        (line_fits offset (length before) total (c ∷ chunks_of flight ++ unsent) line) tt
  take_awaited-IsPiped rounds buf total taken c flight unsent (replied r) next filled line asked
        enough served rest =
      take_chunk-IsPiped rounds buf total _ c flight unsent (brought r) next filled line asked
        enough (brought-IsBrought file c.offset c.size r served) rest

  pipeline_rounds-IsPiped :
      (rounds : ℕ) (taken : List ReadChunk) (buf : Bytes) (total : ℕ) (flight : Flight)
      (unsent : List ReadChunk)
      → IsRunning rounds buf total flight unsent
      → IsPiped file offset before (pipeline_rounds t calls f rounds taken buf total flight unsent)
  unfolding pipeline_rounds
  pipeline_rounds-IsPiped zero taken buf total [] [] run =
      stop-IsPiped _ _ _ taken _ false _ run.filled
        (line_fits offset (length before) total [] run.line) (ground (arith, run.line))
  pipeline_rounds-IsPiped zero taken buf total [] (c ∷ cs) run = absurd (omega (arith, run.enough))
  pipeline_rounds-IsPiped zero taken buf total (d ∷ flight) unsent run =
      absurd (omega (arith, run.enough))
  pipeline_rounds-IsPiped (suc rounds) taken buf total [] [] run =
      stop-IsPiped _ _ _ taken _ false _ run.filled
        (line_fits offset (length before) total [] run.line) (ground (arith, run.line))
  pipeline_rounds-IsPiped (suc rounds) taken buf total [] (c ∷ cs) run =
      absurd (ground (arith, run.busy))
  pipeline_rounds-IsPiped (suc rounds) taken buf total ((c, params) ∷ flight) unsent run =
      let (fid, place, count) = run.asked.0 in
      take_awaited-IsPiped rounds buf total taken c flight unsent (t.await calls params) _
        run.filled run.line run.asked.1 (omega (arith, run.enough))
        (rw place at (rw count at (serves params fid)))
        (λ buf' total' flight' unsent' r.
          pipeline_rounds-IsPiped rounds _ buf' total' flight' unsent' r)

  -- The initial batch: each request asks for its chunk, and only the connection can break it off.
  send_batch-Asks :
      (chunks : List ReadChunk)
      → All (IsWithin (offset + length before)) chunks
      → All (Asks f.fid) (send_batch t calls f chunks).0
        × (((send_batch t calls f chunks).1 ≡ none)
            ⊎ (b : ConnError) × ((send_batch t calls f chunks).1 ≡ some (call_failed b)))
  unfolding send_batch
  send_batch-Asks [] within = (tt, inl refl)
  send_batch-Asks (c ∷ cs) ((small, short), within) =
      let (params, asks, outcome) =
        send_read_request-Asks t calls f c small
          (earlier-IsAddressable _ c.offset _ (omega arith) fits) in
      let (asked, ended) = send_batch-Asks cs within in
      elim outcome [
        | inl sent ↦ rw (send_batch, sent) ((asks, asked), ended)
        | inr (b, refused) ↦ rw (send_batch, refused) (tt, inr (b, refl))
      ]

  start_pipeline-IsPiped :
      (chunks : List ReadChunk) (depth : ℕ) (b : Flight × Option FileError)
      → IsLine offset (length before) 0 chunks
      → (0 < depth) ⊎ (chunks ≡ [])
      → IsBatch (take depth chunks) b
      → All (Asks f.fid) b.0
      → (b.1 ≡ none) ⊎ (e : ConnError) × (b.1 ≡ some (call_failed e))
      → IsPiped file offset before (start_pipeline t calls f before chunks depth b)
  unfolding start_pipeline
  start_pipeline-IsPiped chunks depth (flight, some e) line deep batch asked (inl none_failed) =
      absurd (cc)
  start_pipeline-IsPiped chunks depth (flight, some e) line deep batch asked (inr (b, is)) = rw is (
      stop-IsPiped before 0 (some (call_failed b)) [] _ false _ (nothing_filled file offset before)
        (omega arith) tt)
  start_pipeline-IsPiped chunks depth (flight, none) line deep batch asked ended =
      let order = batch_order chunks depth flight batch in
      pipeline_rounds-IsPiped (length chunks) [] before 0 flight (drop depth chunks) (record {
        filled = nothing_filled file offset before;
        line = rw order line;
        asked = asked;
        enough =
            omega (arith, batch.whole refl, length-take depth chunks, length-drop depth chunks);
        busy = busy_batch chunks depth (length flight) deep (batch.whole refl);
      })

  -- Against a server that serves the file's bytes, or fails, a pipelined read puts the file's bytes from
  -- the offset on at the front of the buffer and leaves the rest as it was. It returns no error only
  -- with at least a byte, or for an empty buffer, and `io.EOF` only with nothing at or behind the end.
  pub read_pipelined-IsPiped : IsPiped file offset before (read_pipelined t calls f before offset)
  unfolding read_pipelined
  read_pipelined-IsPiped =
      let chunk = max_read_chunk_fits f in
      let line = read_chunks-IsLine (length before) (max_read_chunk f) offset chunk.0 chunk.1 in
      let (asked, ended) =
        send_batch-Asks _ (All-take _ _ _ (line-IsWithin _ offset (length before) 0 line)) in
      start_pipeline-IsPiped _ _ _ line (deep_enough f.max_mpx_count _ _ _ _)
        (send_batch-IsBatch t calls f _) asked ended
