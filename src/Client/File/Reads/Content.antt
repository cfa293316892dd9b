-- ===== src/Client/File/Reads/Content.antt =====
-- What reads put into the buffer, when the server serves one file.
use smb1client.Common.{
  ℕ, zero, suc, ◌+◌, ◌-◌, ◌%◌, ◌^◌, ◌≤◌, ◌<◌, ◌≡◌, ◌≢◌, ◌⊎◌, inl, inr, refl, sym, ap, ◌∙◌, Bool,
  Option, none, some, [], ◌∷◌, ◌++◌, length, ◌==◌, min, take, drop, ok, arith, take_all,
  length-append, length-take, length-drop, Bool-cases, ==_iff,
}
use smb1client.Wire.{Bytes, slice, u16_at}
use smb1client.Wire.Cuts.{drop-drop}
use smb1client.Smb1.Header.{Header}
use smb1client.Smb1.Packet.{Packet}
use smb1client.Smb1.FileOps.{ReadResponse, decode_read_response}
use smb1client.Client.Conn.{ConnError, Response}
use smb1client.Client.Calls.{Returned, answered, unanswered, crashed}
use smb1client.Client.File.{
  File, FileError, eof, has_capability, cap_large_files, cap_large_readx, smb_com_read_andx,
  status_end_of_file, max_read_chunk, file_header, call_failed,
}
use smb1client.Client.File.Requests.{
  asked_offset, asked_count, IsAddressable, read_request_asks, max_read_chunk_fits,
}
use smb1client.Client.File.Reads.{
  Reading, stored, crashes, unfinished, store_reply, refuse_reply, take_reply, prepend, read_on,
  send_read, read_at_chunk, read_loop, read_at,
}

-- The file's bytes from an offset on, as many as the piece has.
abbrev pub IsPieceOf : Bytes → ℕ → Bytes → Type 0
IsPieceOf file offset piece = piece ≡ slice file offset (length piece)

-- A reply with a piece of the file, which is empty only at its end.
abbrev pub GivesPiece : Bytes → ℕ → ℕ → Response → Type 0
GivesPiece file offset count r =
    (p : Packet) × (reply : ReadResponse) × (r.packet ≡ some p)
    × (decode_read_response p.parameters p.content ≡ ok reply)
    × IsPieceOf file offset reply.content
    × (length reply.content ≤ count)
    × ((0 < length reply.content) ⊎ (length file ≤ offset))

-- A reply with an error, `STATUS_END_OF_FILE` only at the end.
abbrev pub RefusesPiece : Bytes → ℕ → Response → Type 0
RefusesPiece file offset r =
    (p : Packet) × (r.packet ≡ some p)
    × ((p.header.status ≢ status_end_of_file) ⊎ (length file ≤ offset))

-- A call that serves a file, or fails.
abbrev pub Serves : Bytes → ℕ → ℕ → Returned → Type 0
Serves file offset count (answered r none c) = (r.error ≡ none) × GivesPiece file offset count r
Serves file offset count (answered r (some e) c) = RefusesPiece file offset r
Serves file offset count (unanswered e c) = Unit
Serves file offset count crashed = ⊥

-- What the error of a read of `room` bytes says, once `n` have been read.
abbrev pub EndsAs : Bytes → ℕ → ℕ → ℕ → Option FileError → Type 0
EndsAs file offset room n none = n ≡ room
EndsAs file offset room n (some eof) = length file ≤ offset + n
EndsAs file offset room n (some e) = Unit

abbrev pub IsReading : Bytes → ℕ → ℕ → Reading → Type 0
IsReading file offset room (stored content e calls) =
    IsPieceOf file offset content
    × (length content ≤ room)
    × EndsAs file offset room (length content) e
IsReading file offset room crashes = ⊥
IsReading file offset room unfinished = ⊥

-- A single call stores at least a byte, or meets an error.
abbrev IsChunk : Bytes → ℕ → ℕ → Reading → Type 0
IsChunk file offset room (stored content none calls) =
    IsPieceOf file offset content × (length content ≤ room) × (0 < length content)
IsChunk file offset room (stored content (some e) calls) =
    IsPieceOf file offset content
    × (length content ≤ room)
    × EndsAs file offset room (length content) (some e)
IsChunk file offset room crashes = ⊥
IsChunk file offset room unfinished = ⊥

pub no_bytes : (file : Bytes) (offset : ℕ) → IsPieceOf file offset []
no_bytes file offset = refl

-- A slice ends where the file does.
pub length-slice_le :
    (file : Bytes) (offset n : ℕ) → length (slice file offset n) ≤ length file - offset
length-slice_le file offset n =
    omega (arith, length-take n (drop offset file), length-drop offset file)

pub take-add : (n m k : ℕ) (xs : Bytes) → n + m ≡ k → take k xs ≡ take n xs ++ take m (drop n xs)
take-add zero m k xs e = ap (λ (j : ℕ). take j xs) (omega arith)
take-add (suc n) m zero xs e = absurd (omega arith)
take-add (suc n) zero (suc k) [] e = refl
take-add (suc n) (suc m) (suc k) [] e = refl
take-add (suc n) m (suc k) (x ∷ xs) e = ap (λ (t : Bytes). x ∷ t) (take-add n m k xs (omega arith))

pub append-IsPieceOf :
    (file : Bytes) (offset : ℕ) (xs ys : Bytes)
    → IsPieceOf file offset xs
    → IsPieceOf file (offset + length xs) ys
    → IsPieceOf file offset (xs ++ ys)
append-IsPieceOf file offset xs ys hx hy =
    ap (λ (t : Bytes). t ++ ys) hx
    ∙ ap (λ (t : Bytes). slice file offset (length xs) ++ t) hy
    ∙ ap (λ (t : Bytes). slice file offset (length xs) ++ take (length ys) t)
        (sym (drop-drop file offset (length xs) (offset + length xs) refl))
    ∙ sym (
        take-add (length xs) (length ys) (length (xs ++ ys)) (drop offset file)
          (sym (length-append xs ys)))

-- One call.
store_reply-IsChunk :
    (file : Bytes) (offset room calls : ℕ) (r : ReadResponse)
    → IsPieceOf file offset r.content
    → length r.content ≤ room
    → (0 < length r.content) ⊎ (length file ≤ offset)
    → IsChunk file offset room (store_reply calls room (ok r))
unfolding store_reply
store_reply-IsChunk file offset room calls r piece fits more =
    rw (take_all room r.content fits) (elim (Bool-cases (length r.content == 0)) [
      | inl empty ↦ rw empty (piece, fits, ground (arith, more, empty))
      | inr some_bytes ↦ rw some_bytes (piece, fits, ground (arith, some_bytes))
    ])

refuse_reply-IsChunk :
    (file : Bytes) (offset room calls : ℕ) (r : Response) (e : ConnError) (p : Packet)
    → r.packet ≡ some p
    → (p.header.status ≢ status_end_of_file) ⊎ (length file ≤ offset)
    → IsChunk file offset room (refuse_reply calls r e)
unfolding refuse_reply
refuse_reply-IsChunk file offset room calls r e p h ends =
    rw h (elim (Bool-cases (p.header.status == status_end_of_file)) [
      | inl at_end ↦ rw at_end (no_bytes file offset, omega arith, ground (arith, ends, at_end))
      | inr other ↦ rw other (no_bytes file offset, omega arith, tt)
    ])

take_reply-IsChunk :
    (file : Bytes) (offset room count calls : ℕ) (returned : Returned)
    → count ≤ room
    → Serves file offset count returned
    → IsChunk file offset room (take_reply calls room returned)
unfolding take_reply
take_reply-IsChunk file offset room count calls (answered r none c) fits
      (fine, (p, reply, is, decoded, piece, short, more)) =
    rw (fine, is, decoded)
      (store_reply-IsChunk file offset room calls reply piece (omega arith) more)
take_reply-IsChunk file offset room count calls (answered r (some e) c) fits (p, is, ends) =
    refuse_reply-IsChunk file offset room calls r e p is ends
take_reply-IsChunk file offset room count calls (unanswered e c) fits h =
    (no_bytes file offset, omega arith, tt)
take_reply-IsChunk file offset room count calls crashed fits h = absurd h

-- The rest of a read goes behind what has been read.
prepend-EndsAs :
    (file : Bytes) (offset room n k m : ℕ) (e : Option FileError)
    → n ≤ room
    → n + k ≡ m
    → EndsAs file (offset + n) (room - n) k e
    → EndsAs file offset room m e
prepend-EndsAs file offset room n k m none fits whole h = omega (arith, h)
prepend-EndsAs file offset room n k m (some eof) fits whole h = omega (arith, h)
prepend-EndsAs file offset room n k m (some FileError.short_write) fits whole h = tt
prepend-EndsAs file offset room n k m (some FileError.cancelled) fits whole h = tt
prepend-EndsAs file offset room n k m (some (FileError.bad_request e)) fits whole h = tt
prepend-EndsAs file offset room n k m (some (FileError.bad_reply e)) fits whole h = tt
prepend-EndsAs file offset room n k m (some (call_failed e)) fits whole h = tt

prepend-IsReading :
    (file : Bytes) (offset room : ℕ) (content : Bytes) (r : Reading)
    → IsPieceOf file offset content
    → length content ≤ room
    → IsReading file (offset + length content) (room - length content) r
    → IsReading file offset room (prepend content r)
unfolding prepend
prepend-IsReading file offset room content (stored rest e calls) piece fits (next, short, ends) = (
  append-IsPieceOf file offset content rest piece next,
  omega (arith, length-append content rest),
  prepend-EndsAs file offset room (length content) (length rest) _ e fits
      (sym (length-append content rest)) ends,
)
prepend-IsReading file offset room content crashes piece fits h = absurd h
prepend-IsReading file offset room content unfinished piece fits h = absurd h

read_on-IsReading :
    (file : Bytes) (offset room : ℕ) (r : Reading) (next : Bytes → ℕ → Reading)
    → IsChunk file offset room r
    → ((content : Bytes) (calls : ℕ)
        → length content ≤ room
        → 0 < length content
        → IsReading file (offset + length content) (room - length content) (next content calls))
    → IsReading file offset room (read_on r next)
unfolding read_on
read_on-IsReading file offset room (stored content none calls) next (piece, fits, some_bytes) rest =
    prepend-IsReading file offset room content (next content calls) piece fits
      (rest content calls fits some_bytes)
read_on-IsReading file offset room (stored content (some e) calls) next h rest = h
read_on-IsReading file offset room crashes next h rest = absurd h
read_on-IsReading file offset room unfinished next h rest = absurd h

nothing_to_read :
    (file : Bytes) (offset room calls : ℕ)
    → room ≡ 0
    → IsReading file offset room (stored [] none calls)
nothing_to_read file offset room calls e = (no_bytes file offset, omega arith, omega arith)

pub earlier-IsAddressable :
    (large : Bool) (near far : ℕ) → near ≤ far → IsAddressable large far → IsAddressable large near
earlier-IsAddressable large near far h (inl far_fits) = inl (omega arith)
earlier-IsAddressable large near far h (inr (supported, far_fits)) = inr (supported, omega arith)

-- A server that serves the file, whatever its other answers are.
module _ (file : Bytes) (f : File) (exchange : ℕ → Header → Bytes → Bytes → Returned)
    (serves : (calls : ℕ) (params : Bytes)
      → u16_at params 4 ≡ f.fid % 2 ^ 16
      → Serves file
          (asked_offset params)
          (asked_count params)
          (exchange calls (file_header f smb_com_read_andx) params [])) where
  read_at_chunk-IsChunk :
      (calls room offset : ℕ)
      → IsAddressable (has_capability f cap_large_files) offset
      → IsChunk file offset room (read_at_chunk exchange f calls room offset)
  unfolding read_at_chunk send_read
  read_at_chunk-IsChunk calls room offset fits =
      let (params, encoded, fid, same_offset, count) =
        read_request_asks f offset (min room (max_read_chunk f)) (has_capability f cap_large_files)
          (has_capability f cap_large_readx) (omega (arith, (max_read_chunk_fits f).1)) fits in
      rw encoded (
        rw same_offset at (
          take_reply-IsChunk file (asked_offset params) room (asked_count params) (calls + 1) _
            (omega arith) (serves calls params fid)))

  read_loop-IsReading :
      (fuel calls room offset : ℕ)
      → room ≤ fuel
      → IsAddressable (has_capability f cap_large_files) (offset + room)
      → IsReading file offset room (read_loop exchange fuel f calls room offset)
  unfolding read_loop
  read_loop-IsReading zero calls room offset enough fits =
      let none_left : room ≡ 0 = omega arith in
      rw ((==_iff room 0).1 none_left) (nothing_to_read file offset room calls none_left)
  read_loop-IsReading (suc fuel) calls room offset enough fits = elim (Bool-cases (room == 0)) [
    | inl done ↦ rw done (nothing_to_read file offset room calls ((==_iff room 0).0 done))
    | inr more ↦ rw more (
        read_on-IsReading file offset room _ _
          (read_at_chunk-IsChunk calls room offset
            (earlier-IsAddressable _ offset _ (omega arith) fits))
          (λ content calls' short some_bytes.
            read_loop-IsReading fuel calls' _ _ (omega arith)
              (earlier-IsAddressable _ _ _ (omega arith) fits)))
  ]

  -- Against a server that serves the file's bytes in pieces of its choice, or fails, `ReadAt` stores
  -- the file's bytes from the offset on. It returns no error only once the buffer is full, and
  -- `io.EOF` only where the file ends; it ends after at most one round for each byte of the buffer.
  pub read_at-IsReading :
      (calls room offset : ℕ)
      → IsAddressable (has_capability f cap_large_files) (offset + room)
      → IsReading file offset room (read_at exchange f calls room offset)
  unfolding read_at
  read_at-IsReading calls room offset fits =
      read_loop-IsReading room calls room offset (omega arith) fits
