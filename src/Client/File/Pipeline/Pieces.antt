-- ===== src/Client/File/Pipeline/Pieces.antt =====
-- The pieces of a file that a pipelined read asks for and gets.
use smb1client.Common.{
  ℕ, zero, suc, ◌+◌, ◌%◌, ◌^◌, ◌≤◌, ◌<◌, ◌≡◌, ◌⊎◌, inl, inr, refl, sym, ap, ◌∙◌, Option, none, some,
  List, [], ◌∷◌, ◌++◌, All, length, ltb, ◌==◌, take, drop, ok, arith, append_assoc, Bool-cases,
  length-append, take-append, drop-append, Option-cases,
}
use smb1client.Wire.{Bytes, u16_at}
use smb1client.Wire.Cuts.{drop-drop}
use smb1client.Client.Conn.{ConnError, Response}
use smb1client.Client.File.{
  File, FileError, eof, call_failed, Awaited, replied, context_ends, connection_ends, Transport,
  has_capability, cap_large_files, cap_large_readx, status_end_of_file, file_header,
  smb_com_read_andx,
}
use smb1client.Client.File.Requests.{asked_offset, asked_count, IsAddressable, read_request_asks}
use smb1client.Client.File.Reads.Content.{
  IsPieceOf, GivesPiece, RefusesPiece, append-IsPieceOf, no_bytes,
}
use smb1client.Client.File.Pipeline.Chunks.{IsLine}
use smb1client.Client.File.Pipeline.{
  ReadChunk, Piped, Brought, bytes_for, file_ends, reply_fails, brought, brought_error, place,
  end_error, is_sent, not_sent, dispatch_encoded, send_read_request,
}

-- A wait that ends in a piece of the file, in a refusal, in a response that was made up to wake the
-- waiter, or in no response.
abbrev pub ServesAwaited : Bytes → ℕ → ℕ → Awaited → Type 0
ServesAwaited file offset count (replied r) =
    (r.error ≡ none) × GivesPiece file offset count r
    ⊎ ((e : ConnError) × (r.error ≡ some e) × RefusesPiece file offset r)
    ⊎ (e : ConnError) × (r.error ≡ some e) × (r.packet ≡ none)
ServesAwaited file offset count context_ends = Unit
ServesAwaited file offset count (connection_ends e) = Unit

-- What the error says of a read that got `total` bytes.
abbrev pub EndsPiped : Bytes → ℕ → ℕ → ℕ → Option FileError → Type 0
EndsPiped file offset room total none = (0 < total) ⊎ (room ≡ 0)
EndsPiped file offset room total (some eof) = (total ≡ 0) × (length file ≤ offset)
EndsPiped file offset room total (some e) = Unit

-- The first `total` bytes of the buffer are the file's, and the rest is as it was.
abbrev pub IsFilled : Bytes → ℕ → Bytes → Bytes → ℕ → Type 0
IsFilled file offset before buf total =
    (content : Bytes) × (length content ≡ total)
    × IsPieceOf file offset content
    × (buf ≡ content ++ drop total before)

pub record IsPiped (file : Bytes) (offset : ℕ) (before : Bytes) (p : Piped) : Type 0 where
  pub filled : IsFilled file offset before p.buffer p.total
  pub fits : p.total ≤ length before
  pub ends : EndsPiped file offset (length before) p.total p.error

-- A request asks for its chunk.
abbrev pub Asks : ℕ → ReadChunk × Bytes → Type 0
Asks fid (c, params) =
    (u16_at params 4 ≡ fid % 2 ^ 16)
    × (asked_offset params ≡ c.offset)
    × (asked_count params ≡ c.size)

pub place-IsFilled :
    (file : Bytes) (offset : ℕ) (before buf copied : Bytes) (total : ℕ)
    → IsFilled file offset before buf total
    → IsPieceOf file (offset + total) copied
    → IsFilled file offset before (place buf total copied) (total + length copied)
place-IsFilled file offset before buf copied total (content, len, piece, is) more = (
  content ++ copied,
  length-append content copied ∙ omega arith,
  append-IsPieceOf file offset content copied piece (rw len more),
  rw is (
      ap
        (λ (l : Bytes).
          l ++ (copied ++ drop (total + length copied) (content ++ drop total before)))
        (take-append total content (drop total before) len)
      ∙ ap (λ (l : Bytes). content ++ (copied ++ l)) past
      ∙ sym (append_assoc content copied (drop (total + length copied) before))),
)
  where
    past :
        drop (total + length copied) (content ++ drop total before)
        ≡ drop (total + length copied) before
    past =
        sym (drop-drop (content ++ drop total before) total (length copied) _ refl)
        ∙ ap (λ (l : Bytes). drop (length copied) l)
            (drop-append total content (drop total before) len)
        ∙ drop-drop before total (length copied) _ refl

pub nothing_filled :
    (file : Bytes) (offset : ℕ) (before : Bytes) → IsFilled file offset before before 0
nothing_filled file offset before = ([], refl, no_bytes file offset, refl)

pub end_error-EndsPiped :
    (file : Bytes) (offset room total : ℕ)
    → (0 < total) ⊎ (length file ≤ offset + total)
    → EndsPiped file offset room total (end_error total)
end_error-EndsPiped file offset room total h = elim (Bool-cases (ltb 0 total)) [
  | inl something ↦ rw something (inl (ground (arith, something)))
  | inr nothing ↦ rw nothing (ground (arith, nothing, h))
]

-- What a reply brings of a chunk.
abbrev pub IsBrought : Bytes → ℕ → ℕ → Brought → Type 0
IsBrought file offset count (bytes_for found) =
    IsPieceOf file offset found
    × (length found ≤ count)
    × ((0 < length found) ⊎ (length file ≤ offset))
IsBrought file offset count file_ends = length file ≤ offset
IsBrought file offset count (reply_fails e) = (b : ConnError) × (e ≡ call_failed b)

brought_error-IsBrought :
    (file : Bytes) (offset count : ℕ) (r : Response) (e : ConnError)
    → RefusesPiece file offset r
    → IsBrought file offset count (brought_error r e)
brought_error-IsBrought file offset count r e (p, is, ends) =
    rw is (elim (Bool-cases (p.header.status == status_end_of_file)) [
      | inl at_end ↦ rw at_end (ground (arith, ends, at_end))
      | inr other ↦ rw other (e, refl)
    ])

pub brought-IsBrought :
    (file : Bytes) (offset count : ℕ) (r : Response)
    → ServesAwaited file offset count (replied r)
    → IsBrought file offset count (brought r)
unfolding brought
brought-IsBrought file offset count r (inl (fine, (p, reply, is, decoded, piece, short, more))) =
    rw (fine, is, decoded) (piece, short, more)
brought-IsBrought file offset count r (inr (inr (e, is, woken))) = rw (is, woken) (e, refl)
brought-IsBrought file offset count r (inr (inl (e, is, refuses))) =
    rw is (brought_error-IsBrought file offset count r e refuses)

dispatch_encoded_cases :
    (t : Transport) (calls : ℕ) (f : File) (params content : Bytes)
    → (dispatch_encoded t calls f (ok (params, content)) ≡ is_sent params)
      ⊎ (b : ConnError) × (dispatch_encoded t calls f (ok (params, content))
          ≡ not_sent (call_failed b))
unfolding dispatch_encoded
dispatch_encoded_cases t calls f params content =
    elim (Option-cases (t.dispatch calls (file_header f smb_com_read_andx) params content)) [
      | inl sent ↦ rw (dispatch_encoded, sent) (inl refl)
      | inr (b, refused) ↦ rw (dispatch_encoded, refused) (inr (b, refl))
    ]

-- Sending a chunk's request: it asks for the chunk, or the connection refused it.
pub send_read_request-Asks :
    (t : Transport) (calls : ℕ) (f : File) (c : ReadChunk)
    → c.size < 2 ^ 16
    → IsAddressable (has_capability f cap_large_files) c.offset
    → (params : Bytes) × Asks f.fid (c, params)
      × ((send_read_request t calls f c ≡ is_sent params)
          ⊎ (b : ConnError) × (send_read_request t calls f c ≡ not_sent (call_failed b)))
unfolding send_read_request
send_read_request-Asks t calls f c small fits =
    let (params, encoded, fid, place, count) =
      read_request_asks f c.offset c.size (has_capability f cap_large_files)
        (has_capability f cap_large_readx) small fits in
    (params, (fid, place, count), rw encoded (dispatch_encoded_cases t calls f params []))

-- A chunk that is small and ends before a position in the file.
abbrev pub IsWithin : ℕ → ReadChunk → Type 0
IsWithin end c = (c.size < 2 ^ 16) × (c.offset + c.size ≤ end)

pub line-IsWithin :
    (cs : List ReadChunk) (offset room pos : ℕ)
    → IsLine offset room pos cs
    → All (IsWithin (offset + room)) cs
line-IsWithin [] offset room pos line = tt
line-IsWithin (c ∷ cs) offset room pos (at, same, some_bytes, small, short, line) =
    ((small, omega arith), line-IsWithin cs offset room (pos + c.size) line)

-- A batch of at least one chunk, if there is any, leaves a chunk in flight.
pub busy_batch :
    (chunks : List ReadChunk) (depth n : ℕ)
    → (0 < depth) ⊎ (chunks ≡ [])
    → n ≡ length (take depth chunks)
    → (0 < n) ⊎ (drop depth chunks ≡ [])
busy_batch [] zero n deep e = inr refl
busy_batch [] (suc depth) n deep e = inr refl
busy_batch (c ∷ cs) zero n (inl deep) e = absurd (omega arith)
busy_batch (c ∷ cs) zero n (inr none_at_all) e = absurd (cc)
busy_batch (c ∷ cs) (suc depth) n deep e = inl (omega arith)
