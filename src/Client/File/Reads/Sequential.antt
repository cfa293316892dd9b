-- ===== src/Client/File/Reads/Sequential.antt =====
-- What `readSequential` puts into the buffer, when the server serves one file.
use smb1client.Common.{
  ℕ, zero, suc, ◌+◌, ◌-◌, ◌%◌, ◌^◌, ◌≤◌, ◌<◌, ◌≡◌, ◌⊎◌, inl, inr, sym, Option, none, some, [],
  length, ltb, ◌==◌, min, arith, length-append, Bool-cases, ==_iff,
}
use smb1client.Wire.{Bytes, u16_at}
use smb1client.Smb1.Header.{Header}
use smb1client.Client.Calls.{Returned}
use smb1client.Client.File.{
  File, FileError, eof, has_capability, cap_large_files, smb_com_read_andx, max_read_chunk,
  file_header,
}
use smb1client.Client.File.Requests.{asked_offset, asked_count, IsAddressable, max_read_chunk_fits}
use smb1client.Client.File.Reads.{
  Reading, stored, crashes, unfinished, prepend, forgive_eof, read_piece, sequential_loop,
  read_sequential,
}
use smb1client.Client.File.Reads.Content.{
  IsPieceOf, Serves, EndsAs, IsReading, append-IsPieceOf, no_bytes, earlier-IsAddressable,
  read_at-IsReading,
}

-- What the error says of a read that had `total` bytes before these `n`: the end of the file is an
-- error only to a read that has nothing.
abbrev pub EndsLike : Bytes → ℕ → ℕ → ℕ → ℕ → Option FileError → Type 0
EndsLike file offset room total n none = (n ≡ room) ⊎ (0 < total + n) × (length file ≤ offset + n)
EndsLike file offset room total n (some eof) = (total + n ≡ 0) × (length file ≤ offset)
EndsLike file offset room total n (some e) = Unit

abbrev pub IsSequential : Bytes → ℕ → ℕ → ℕ → Reading → Type 0
IsSequential file offset room total (stored content e calls) =
    IsPieceOf file offset content
    × (length content ≤ room)
    × EndsLike file offset room total (length content) e
IsSequential file offset room total crashes = ⊥
IsSequential file offset room total unfinished = ⊥

forgive_eof-EndsLike :
    (file : Bytes) (offset room total n piece : ℕ) (e : FileError)
    → EndsAs file offset piece n (some e)
    → EndsLike file offset room total n (forgive_eof (total + n) (some e))
unfolding forgive_eof
forgive_eof-EndsLike file offset room total n piece eof h = elim (Bool-cases (ltb 0 (total + n))) [
  | inl something ↦ rw something (inr (ground (arith, something), h))
  | inr nothing ↦ rw nothing (ground (arith, nothing, h))
]
forgive_eof-EndsLike file offset room total n piece FileError.short_write h = tt
forgive_eof-EndsLike file offset room total n piece FileError.cancelled h = tt
forgive_eof-EndsLike file offset room total n piece (FileError.bad_request e) h = tt
forgive_eof-EndsLike file offset room total n piece (FileError.bad_reply e) h = tt
forgive_eof-EndsLike file offset room total n piece (FileError.call_failed e) h = tt

prepend-EndsLike :
    (file : Bytes) (offset room total n k m : ℕ) (e : Option FileError)
    → n ≤ room
    → n + k ≡ m
    → EndsLike file (offset + n) (room - n) (total + n) k e
    → EndsLike file offset room total m e
prepend-EndsLike file offset room total n k m none fits whole h = ground (arith, h)
prepend-EndsLike file offset room total n k m (some eof) fits whole h = ground (arith, h)
prepend-EndsLike file offset room total n k m (some FileError.short_write) fits whole h = tt
prepend-EndsLike file offset room total n k m (some FileError.cancelled) fits whole h = tt
prepend-EndsLike file offset room total n k m (some (FileError.bad_request e)) fits whole h = tt
prepend-EndsLike file offset room total n k m (some (FileError.bad_reply e)) fits whole h = tt
prepend-EndsLike file offset room total n k m (some (FileError.call_failed e)) fits whole h = tt

prepend-IsSequential :
    (file : Bytes) (offset room total : ℕ) (content : Bytes) (r : Reading)
    → IsPieceOf file offset content
    → length content ≤ room
    → IsSequential file (offset + length content) (room - length content) (total + length content) r
    → IsSequential file offset room total (prepend content r)
unfolding prepend
prepend-IsSequential file offset room total content (stored rest e calls) piece fits
      (next, short, ends) =
    (
      append-IsPieceOf file offset content rest piece next,
      omega (arith, length-append content rest),
      prepend-EndsLike file offset room total (length content) (length rest) _ e fits
          (sym (length-append content rest)) ends,
    )
prepend-IsSequential file offset room total content crashes piece fits h = absurd h
prepend-IsSequential file offset room total content unfinished piece fits h = absurd h

read_piece-IsSequential :
    (file : Bytes) (offset room piece_size total : ℕ) (r : Reading) (next : Bytes → ℕ → Reading)
    → piece_size ≤ room
    → IsReading file offset piece_size r
    → ((content : Bytes) (calls : ℕ)
        → length content ≡ piece_size
        → IsSequential file
            (offset + length content)
            (room - length content)
            (total + length content)
            (next content calls))
    → IsSequential file offset room total (read_piece total r next)
unfolding read_piece
read_piece-IsSequential file offset room size total (stored content none calls) next within
      (piece, fits, full) rest =
    prepend-IsSequential file offset room total content (next content calls) piece (omega arith)
      (rest content calls full)
read_piece-IsSequential file offset room size total (stored content (some e) calls) next within
      (piece, fits, ends) rest =
    (piece, omega arith, forgive_eof-EndsLike file offset room total (length content) size e ends)
read_piece-IsSequential file offset room size total crashes next within h rest = absurd h
read_piece-IsSequential file offset room size total unfinished next within h rest = absurd h

nothing_to_read :
    (file : Bytes) (offset room total calls : ℕ)
    → room ≡ 0
    → IsSequential file offset room total (stored [] none calls)
nothing_to_read file offset room total calls e = (no_bytes file offset, omega arith, inl (sym e))

-- A server that serves the file, whatever its other answers are.
module _ (file : Bytes) (f : File) (exchange : ℕ → Header → Bytes → Bytes → Returned)
    (serves : (calls : ℕ) (params : Bytes)
      → u16_at params 4 ≡ f.fid % 2 ^ 16
      → Serves file
          (asked_offset params)
          (asked_count params)
          (exchange calls (file_header f smb_com_read_andx) params [])) where
  sequential_loop-IsSequential :
      (fuel calls total room offset : ℕ)
      → room ≤ fuel
      → IsAddressable (has_capability f cap_large_files) (offset + room)
      → IsSequential file offset room total
          (sequential_loop exchange fuel f calls total room offset)
  unfolding sequential_loop
  sequential_loop-IsSequential zero calls total room offset enough fits =
      let none_left : room ≡ 0 = omega arith in
      rw ((==_iff room 0).1 none_left) (nothing_to_read file offset room total calls none_left)
  sequential_loop-IsSequential (suc fuel) calls total room offset enough fits =
      elim (Bool-cases (room == 0)) [
        | inl done ↦ rw done (nothing_to_read file offset room total calls ((==_iff room 0).0 done))
        | inr more ↦
            let some_room : 0 < min room (max_read_chunk f) =
              ground (arith, more, (max_read_chunk_fits f).0) in
            rw more (
              read_piece-IsSequential file offset room (min room (max_read_chunk f)) total _ _
                (omega arith)
                (read_at-IsReading file f exchange serves calls _ offset
                  (earlier-IsAddressable _ _ _ (omega arith) fits))
                (λ content calls' full.
                  sequential_loop-IsSequential fuel calls' _ _ _ (omega arith)
                    (earlier-IsAddressable _ _ _ (omega arith) fits)))
      ]

  -- Against such a server `readSequential` stores the file's bytes from the offset on. It returns no
  -- error only with a full buffer, or with at least a byte where the file ends, and `io.EOF` only with
  -- nothing at or behind the end; it ends.
  pub read_sequential-IsSequential :
      (calls room offset : ℕ)
      → IsAddressable (has_capability f cap_large_files) (offset + room)
      → IsSequential file offset room 0 (read_sequential exchange f calls room offset)
  unfolding read_sequential
  read_sequential-IsSequential calls room offset fits =
      sequential_loop-IsSequential room calls 0 room offset (omega arith) fits
