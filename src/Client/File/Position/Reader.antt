-- ===== src/Client/File/Position/Reader.antt =====
-- `Read` as an `io.Reader` of one file, and `readAll` over it.
use smb1client.Common.{
  ℕ, zero, suc, ◌+◌, ◌-◌, ◌%◌, ◌^◌, ◌≤◌, ◌<◌, ◌≡◌, inl, inr, refl, ap, ◌∙◌, not, ◌||◌, Option, none,
  some, [], ◌++◌, length, ltb, ◌==◌, drop, arith, Bool-cases, ==_iff, take-append, take_all,
  length-append, length-drop, replicate, length-replicate,
}
use smb1client.Wire.{Bytes, u16_at}
use smb1client.Client.File.{
  File, FileError, eof, call_failed, has_capability, cap_large_files, smb_com_read_andx,
  file_header, pipeline_depth, Transport,
}
use smb1client.Client.File.Requests.{asked_offset, asked_count, IsAddressable}
use smb1client.Client.File.Reads.{Reading, stored, crashes, unfinished}
use smb1client.Client.File.Reads.Content.{
  IsPieceOf, Serves, length-slice_le, append-IsPieceOf, no_bytes, earlier-IsAddressable,
}
use smb1client.Client.File.Reads.Sequential.{EndsLike, IsSequential, read_sequential-IsSequential}
use smb1client.Client.File.Pipeline.{Piped}
use smb1client.Client.File.Pipeline.Pieces.{ServesAwaited, EndsPiped, IsFilled, IsPiped}
use smb1client.Client.File.Pipeline.Content.{read_pipelined-IsPiped}
use smb1client.Client.File.Position.{
  ReadResult, returns, read_crashes, read_unfinished, pipeline_threshold, finish_reading,
  finish_piped, read, AllRead, all_read, all_crashes, all_unfinished, forget_eof, extend,
  read_all_rounds,
}

-- What a reader promises: the next bytes of the file at the front of the buffer, the offset moved
-- behind them, no error only with a byte or for an empty buffer, `io.EOF` only with nothing at the end.
abbrev pub IsReader : Bytes → File → Bytes → ReadResult → Type 0
IsReader file f before (returns f' buf n e calls) =
    (f' ≡ record f { offset = f.offset + n })
    × (n ≤ length before)
    × IsFilled file f.offset before buf n
    × EndsPiped file f.offset (length before) n e
IsReader file f before read_crashes = ⊥
IsReader file f before read_unfinished = ⊥

sequential-EndsPiped :
    (file : Bytes) (offset room n : ℕ) (e : Option FileError)
    → EndsLike file offset room 0 n e
    → EndsPiped file offset room n e
sequential-EndsPiped file offset room n none (inl full) = ground (arith, full)
sequential-EndsPiped file offset room n none (inr (something, ended)) = inl (omega arith)
sequential-EndsPiped file offset room n (some eof) (nothing, ended) = (omega arith, ended)
sequential-EndsPiped file offset room n (some FileError.short_write) h = tt
sequential-EndsPiped file offset room n (some FileError.cancelled) h = tt
sequential-EndsPiped file offset room n (some (FileError.bad_request e)) h = tt
sequential-EndsPiped file offset room n (some (FileError.bad_reply e)) h = tt
sequential-EndsPiped file offset room n (some (call_failed e)) h = tt

finish_reading-IsReader :
    (file : Bytes) (f : File) (before : Bytes) (r : Reading)
    → IsSequential file f.offset (length before) 0 r
    → IsReader file f before (finish_reading f before r)
unfolding finish_reading
finish_reading-IsReader file f before (stored content e calls) (piece, short, ends) = (
  refl,
  short,
  (content, refl, piece, refl),
  sequential-EndsPiped file f.offset (length before) (length content) e ends,
)
finish_reading-IsReader file f before crashes h = absurd h
finish_reading-IsReader file f before unfinished h = absurd h

finish_piped-IsReader :
    (file : Bytes) (f : File) (before : Bytes) (calls : ℕ) (p : Piped)
    → IsPiped file f.offset before p
    → IsReader file f before (finish_piped f calls p)
unfolding finish_piped
finish_piped-IsReader file f before calls p h = (refl, h.fits, h.filled, h.ends)

-- Where the offset and the buffer's length together stay below 2^32, or, with CAP_LARGE_FILES, below
-- 2^64: against a server that serves the file's bytes in pieces of its choice, or fails, `Read` keeps the
-- contract of a reader, sequential or pipelined: the next bytes of the file at the front of the buffer
-- and the rest of the buffer as it was, the offset moved by the count, no error only with at least a
-- byte or for an empty buffer, and `io.EOF` only with nothing at or behind the end of the file.
pub read-IsReader :
    (file : Bytes) (f : File) (t : Transport) (calls : ℕ) (before : Bytes)
    → IsAddressable (has_capability f cap_large_files) (f.offset + length before)
    → ((calls : ℕ) (params : Bytes)
        → u16_at params 4 ≡ f.fid % 2 ^ 16
        → Serves file
            (asked_offset params)
            (asked_count params)
            (t.exchange calls (file_header f smb_com_read_andx) params []))
    → ((calls : ℕ) (params : Bytes)
        → u16_at params 4 ≡ f.fid % 2 ^ 16
        → ServesAwaited file (asked_offset params) (asked_count params) (t.await calls params))
    → IsReader file f before (read t calls f before)
unfolding read
read-IsReader file f t calls before fits serves awaits = elim (Bool-cases (length before == 0)) [
  | inl empty ↦ rw empty (
    ap (λ (at : ℕ). record f { offset = at }) (omega arith),
    omega arith,
    ([], refl, no_bytes file f.offset, refl),
    inr ((==_iff (length before) 0).0 empty),
  )
  | inr some_room ↦
      elim (Bool-cases
        (not (pipeline_depth f.max_mpx_count).1 || ltb (length before) pipeline_threshold)) [
          | inl small ↦
              rw (some_room, small)
                (finish_reading-IsReader file f before _ (
                  read_sequential-IsSequential file f t.exchange serves calls (length before)
                    f.offset fits))
          | inr large ↦
              rw (some_room, large)
                (finish_piped-IsReader file f before calls _
                  (read_pipelined-IsPiped file f t calls f.offset before fits (awaits calls)))
        ]
]

-- What is read of a file from an offset on: the rest of it, or a part and an error.
abbrev pub IsAllOf : Bytes → ℕ → AllRead → Type 0
IsAllOf file start (all_read content none) = content ≡ drop start file
IsAllOf file start (all_read content (some e)) = IsPieceOf file start content
IsAllOf file start all_crashes = ⊥
IsAllOf file start all_unfinished = ⊥

to_the_end :
    (file : Bytes) (start : ℕ) (content : Bytes)
    → IsPieceOf file start content
    → length file ≤ start + length content
    → content ≡ drop start file
to_the_end file start content piece h =
    piece ∙ take_all (length content) (drop start file) (omega (arith, length-drop start file))

piece_inside :
    (file : Bytes) (start : ℕ) (content : Bytes)
    → IsPieceOf file start content
    → 0 < length content
    → start + length content ≤ length file
piece_inside file start content piece some_bytes =
    omega (arith, ap length piece, length-slice_le file start (length content))

forget_eof-IsAllOf :
    (file : Bytes) (start : ℕ) (content : Bytes) (at n room : ℕ) (e : FileError)
    → IsPieceOf file start content
    → at + n ≡ start + length content
    → EndsPiped file at room n (some e)
    → IsAllOf file start (all_read content (forget_eof e))
forget_eof-IsAllOf file start content at n room eof piece from (nothing, ended) =
    to_the_end file start content piece (omega arith)
forget_eof-IsAllOf file start content at n room FileError.short_write piece from ends = piece
forget_eof-IsAllOf file start content at n room FileError.cancelled piece from ends = piece
forget_eof-IsAllOf file start content at n room (FileError.bad_request e) piece from ends = piece
forget_eof-IsAllOf file start content at n room (FileError.bad_reply e) piece from ends = piece
forget_eof-IsAllOf file start content at n room (call_failed e) piece from ends = piece

extend-IsAllOf :
    (file : Bytes) (start : ℕ) (f : File) (so_far before : Bytes) (r : ReadResult)
    (next : File → Bytes → ℕ → AllRead)
    → IsPieceOf file start so_far
    → f.offset ≡ start + length so_far
    → 0 < length before
    → IsReader file f before r
    → ((content : Bytes) (calls : ℕ)
        → IsPieceOf file start (so_far ++ content)
        → 0 < length content
        → f.offset + length content ≤ length file
        → IsAllOf file start
            (next (record f { offset = f.offset + length content }) (so_far ++ content) calls))
    → IsAllOf file start (extend so_far r next)
unfolding extend
extend-IsAllOf file start f so_far before (returns f' buf n none calls) next piece at room
      (moved, short, (content, len, more, is), ends) rest =
    let joined : IsPieceOf file start (so_far ++ content) =
      append-IsPieceOf file start so_far content piece (rw at at more) in
    let some_bytes : 0 < length content = ground (arith, ends, len, room) in
    rw (is, moved, take-append n content (drop n before) len)
      (rw len at
        (rest content calls joined some_bytes (piece_inside file f.offset content more some_bytes)))
extend-IsAllOf file start f so_far before (returns f' buf n (some e) calls) next piece at room
      (moved, short, (content, len, more, is), ends) rest =
    let joined : IsPieceOf file start (so_far ++ content) =
      append-IsPieceOf file start so_far content piece (rw at at more) in
    rw (is, take-append n content (drop n before) len)
      (forget_eof-IsAllOf file start (so_far ++ content) f.offset n (length before) e joined
        (omega (arith, length-append so_far content)) ends)
extend-IsAllOf file start f so_far before read_crashes next piece at room h rest = absurd h
extend-IsAllOf file start f so_far before read_unfinished next piece at room h rest = absurd h

-- A server that serves the file, whatever its other answers are, and a buffer that always has room.
module _ (file : Bytes) (f : File) (t : Transport) (room : ℕ → ℕ) (has_room : (n : ℕ) → 0 < room n)
    (fits : (n : ℕ)
      → n ≤ length file
      → IsAddressable (has_capability f cap_large_files) (f.offset + n + room n))
    (serves : (calls : ℕ) (params : Bytes)
      → u16_at params 4 ≡ f.fid % 2 ^ 16
      → Serves file
          (asked_offset params)
          (asked_count params)
          (t.exchange calls (file_header f smb_com_read_andx) params []))
    (awaits : (calls : ℕ) (params : Bytes)
      → u16_at params 4 ≡ f.fid % 2 ^ 16
      → ServesAwaited file (asked_offset params) (asked_count params) (t.await calls params)) where
  read_all_rounds-IsAllOf :
      (fuel calls at : ℕ) (so_far : Bytes)
      → IsPieceOf file f.offset so_far
      → at ≡ f.offset + length so_far
      → length file - at < fuel
      → IsAllOf file f.offset (read_all_rounds t room fuel calls (record f { offset = at }) so_far)
  unfolding read_all_rounds has_capability
  read_all_rounds-IsAllOf zero calls at so_far piece is enough = absurd (omega arith)
  read_all_rounds-IsAllOf (suc fuel) calls at so_far piece is enough =
      extend-IsAllOf file f.offset (record f { offset = at }) so_far
        (replicate (room (length so_far)) 0) _ _ piece is
        (omega (arith, has_room (length so_far), length-replicate {A = ℕ} (room (length so_far)) 0))
        (read-IsReader file (record f { offset = at }) t calls _
          (earlier-IsAddressable _ _ _
            (omega (arith, length-replicate {A = ℕ} (room (length so_far)) 0))
            (fits (length so_far)
              (omega (arith, ap length piece, length-slice_le file f.offset (length so_far)))))
          serves awaits)
        (λ content calls' joined some_bytes inside.
          read_all_rounds-IsAllOf fuel calls' _ (so_far ++ content) joined
            (omega (arith, length-append so_far content)) (omega arith))

  -- Where every offset that is reached and the room behind it together stay below 2^32, or, with
  -- CAP_LARGE_FILES, below 2^64: against a server that serves the file's bytes in pieces of its choice, or
  -- fails, and with a buffer that always has room, `readAll` ends, after at most one round more than
  -- there are bytes, with the whole rest of the file and no error, or with an error and a part of it.
  pub read_all_whole :
      (calls : ℕ) → IsAllOf file f.offset (read_all_rounds t room (suc (length file)) calls f [])
  read_all_whole calls =
      read_all_rounds-IsAllOf (suc (length file)) calls f.offset [] (no_bytes file f.offset)
        (omega arith) (omega arith)
