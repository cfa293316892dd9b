-- ===== src/Client/File/Writes/Applied.antt =====
-- What writes leave in the file, when the server applies what it confirms.
use smb1client.Common.{
  ℕ, zero, suc, ◌+◌, ◌*◌, ◌%◌, ◌^◌, ◌≤◌, ◌<◌, ◌≡◌, ◌≢◌, inl, inr, refl, sym, ap, ◌∙◌, Bool, true,
  false, Option, none, some, [], ◌∷◌, length, ltb, ◌==◌, min, take, drop, ok, arith, Bool-cases,
  length-take, length-drop, take_all,
}
use smb1client.Wire.{Bytes, u16_at, u32_at}
use smb1client.Smb1.Header.{Header}
use smb1client.Smb1.Packet.{Packet}
use smb1client.Smb1.FileOps.{
  WriteResponse, bytes_written, encode_write_request, decode_write_response,
}
use smb1client.Client.Calls.{Returned, answered, unanswered, crashed}
use smb1client.Client.File.{
  File, FileError, short_write, cancelled, call_failed, bad_reply, bad_request, eof, has_capability,
  cap_large_files, cap_large_writex, smb_com_write_andx, max_write_chunk,
  clamp_to_negotiated_buffer, file_header, write_request,
}
use smb1client.Client.File.Requests.{IsAddressable}
use smb1client.Client.File.Reads.Content.{take-add, earlier-IsAddressable}
use smb1client.Client.File.Writes.{
  take_write_reply, count_written, Writing, written, write_crashes, write_unfinished,
  settle_exchange, send_write, write_at, write_on, write_loop, write_sequential, add_written,
}
use smb1client.Client.File.Writes.Overwrite.{overwrite, overwrite-overwrite}

-- What a server reads out of a WRITE_ANDX request's parameters, of either form.
abbrev pub written_offset : Bytes → ℕ
written_offset params = u32_at params 6 + 2 ^ 32 * u32_at params 24

write_request_asks :
    (f : File) (offset : ℕ) (content : Bytes) (supports_large_files : Bool)
    → IsAddressable supports_large_files offset
    → (params : Bytes) × (encode_write_request
          (some (write_request f offset content))
          supports_large_files
        ≡ ok (params, content))
      × (u16_at params 4 ≡ f.fid % 2 ^ 16)
      × (written_offset params ≡ offset)
unfolding encode_write_request
write_request_asks f offset content true (inl a) = (_, refl, omega arith, omega arith)
write_request_asks f offset content true (inr a) = (_, refl, omega arith, omega (arith, a.1))
write_request_asks f offset content false (inl a) = (_, refl, omega arith, omega arith)
write_request_asks f offset content false (inr a) = absurd (ground arith)

max_write_chunk_some : (f : File) → 0 < max_write_chunk f
unfolding max_write_chunk clamp_to_negotiated_buffer
max_write_chunk_some f = elim (Bool-cases (has_capability f cap_large_writex)) [
  | inl large ↦ ground (arith, large)
  | inr small ↦ ground (arith, small)
]

-- A front of what was to be written has been.
abbrev pub IsApplied : Bytes → ℕ → Bytes → ℕ → Bytes → Type 0
IsApplied file offset content n after =
    (n ≤ length content) × (after ≡ overwrite file offset (take n content))

-- A call that applies as much as it confirms, or some unknown front of it if it confirms nothing.
abbrev pub Applies : Bytes → ℕ → Bytes → Bytes → Returned → Type 0
Applies file offset content after (answered r none c) =
    (p : Packet) × (reply : WriteResponse) × (r.packet ≡ some p)
    × (r.error ≡ none)
    × (decode_write_response p.parameters ≡ ok reply)
    × IsApplied file offset content (bytes_written reply) after
Applies file offset content after (answered r (some e) c) =
    (m : ℕ) × IsApplied file offset content m after
Applies file offset content after (unanswered e c) = (m : ℕ) × IsApplied file offset content m after
Applies file offset content after crashed = ⊥

-- What the error says of a write that counts `n` bytes of `size`, where `m` are in the file.
abbrev pub WriteEnds : ℕ → ℕ → ℕ → Option FileError → Type 0
WriteEnds size n m none = (n ≡ size) × (m ≡ n)
WriteEnds size n m (some short_write) = m ≡ n
WriteEnds size n m (some e) = n ≤ m

take-take : (m n : ℕ) (xs : Bytes) → m ≤ n → take m (take n xs) ≡ take m xs
take-take zero n xs h = refl
take-take (suc m) zero xs h = absurd (omega arith)
take-take (suc m) (suc n) [] h = refl
take-take (suc m) (suc n) (x ∷ xs) h = ap (λ (l : Bytes). x ∷ l) (take-take m n xs (omega arith))

take-length : (n : ℕ) (xs : Bytes) → take (length (take n xs)) xs ≡ take n xs
take-length zero xs = refl
take-length (suc n) [] = refl
take-length (suc n) (x ∷ xs) = ap (λ (l : Bytes). x ∷ l) (take-length n xs)

other-WriteEnds :
    (size n m : ℕ) (e : FileError) → some e ≢ some short_write → n ≤ m → WriteEnds size n m (some e)
other-WriteEnds size n m short_write other h = absurd (other refl)
other-WriteEnds size n m eof other h = h
other-WriteEnds size n m cancelled other h = h
other-WriteEnds size n m (bad_request e) other h = h
other-WriteEnds size n m (bad_reply e) other h = h
other-WriteEnds size n m (call_failed e) other h = h

-- The rest of a write counts on from what has been counted.
add-WriteEnds :
    (size rest whole n m : ℕ) (e : Option FileError)
    → size + rest ≡ whole
    → WriteEnds rest n m e
    → WriteEnds whole (size + n) (size + m) e
add-WriteEnds size rest whole n m none within h = omega (arith, h)
add-WriteEnds size rest whole n m (some short_write) within h = omega (arith, h)
add-WriteEnds size rest whole n m (some eof) within h = omega (arith, h)
add-WriteEnds size rest whole n m (some cancelled) within h = omega (arith, h)
add-WriteEnds size rest whole n m (some (bad_request e)) within h = omega (arith, h)
add-WriteEnds size rest whole n m (some (bad_reply e)) within h = omega (arith, h)
add-WriteEnds size rest whole n m (some (call_failed e)) within h = omega (arith, h)

add-IsApplied :
    (file content before after : Bytes) (offset size m : ℕ)
    → size ≤ length content
    → before ≡ overwrite file offset (take size content)
    → IsApplied before (offset + size) (drop size content) m after
    → IsApplied file offset content (size + m) after
add-IsApplied file content before after offset size m within is (few, applied) = (
  omega (arith, length-drop size content),
  applied
      ∙ ap (λ (l : Bytes). overwrite l (offset + size) (take m (drop size content))) is
      ∙ overwrite-overwrite file offset (offset + size) (take size content)
          (take m (drop size content)) (omega (arith, length-take size content))
      ∙ ap (λ (l : Bytes). overwrite file offset l) (sym (take-add size m (size + m) content refl)),
)

-- A world whose server applies what it confirms, whatever its other answers are.
module _ {ℓ} {World : Type ℓ} (exchange : World → Header → Bytes → Bytes → Returned × World)
    (holds : World → Bytes) (f : File)
    (applies : (w : World) (params content : Bytes)
      → u16_at params 4 ≡ f.fid % 2 ^ 16
      → Applies
          (holds w)
          (written_offset params)
          content
          (holds (exchange w (file_header f smb_com_write_andx) params content).1)
          (exchange w (file_header f smb_com_write_andx) params content).0) where
  -- What a write promises of the file before it: a front of the content is in it, at least as much as
  -- is counted, and exactly as much where the error is none or `io.ErrShortWrite`.
  abbrev pub IsWritten : Bytes → ℕ → Bytes → Writing World → Type 0
  IsWritten file offset content (written n e w) =
      (m : ℕ) × IsApplied file offset content m (holds w) × WriteEnds (length content) n m e
  IsWritten file offset content write_crashes = ⊥
  IsWritten file offset content write_unfinished = ⊥

  -- A single call confirms no more than it was given.
  abbrev IsChunk : Bytes → ℕ → Bytes → Writing World → Type 0
  IsChunk file offset content (written n none w) = IsApplied file offset content n (holds w)
  IsChunk file offset content (written n (some e) w) =
      (n ≡ 0) × (m : ℕ) × IsApplied file offset content m (holds w) × (some e ≢ some short_write)
  IsChunk file offset content write_crashes = ⊥
  IsChunk file offset content write_unfinished = ⊥

  settle_exchange-IsChunk :
      (file : Bytes) (offset : ℕ) (content : Bytes) (returned : Returned) (w : World)
      → Applies file offset content (holds w) returned
      → IsChunk file offset content (settle_exchange (returned, w))
  unfolding take_write_reply count_written
  settle_exchange-IsChunk file offset content (answered r none c) w
        (p, reply, is, fine, decoded, applied) =
      rw (fine, is, decoded) applied
  settle_exchange-IsChunk file offset content (answered r (some e) c) w (m, applied) =
      (refl, m, applied, λ h. absurd (cc))
  settle_exchange-IsChunk file offset content (unanswered e c) w (m, applied) =
      (refl, m, applied, λ h. absurd (cc))
  settle_exchange-IsChunk file offset content crashed w h = absurd h

  write_at-IsChunk :
      (w : World) (content : Bytes) (offset : ℕ)
      → 0 < length content
      → length content ≤ max_write_chunk f
      → IsAddressable (has_capability f cap_large_files) offset
      → IsChunk (holds w) offset content (write_at exchange f w content offset)
  unfolding write_at send_write
  write_at-IsChunk w content offset some_bytes small fits =
      let (params, encoded, fid, same_offset) =
        write_request_asks f offset content (has_capability f cap_large_files) fits in
      let more : (length content == 0) ≡ false = ground (arith, some_bytes) in
      rw (more, take_all (max_write_chunk f) content small, encoded)
        (settle_exchange-IsChunk (holds w) offset content _ _
          (rw same_offset at (applies w params content fid)))

  add_written-IsWritten :
      (file content : Bytes) (offset size : ℕ) (w : World) (r : Writing World)
      → size ≤ length content
      → holds w ≡ overwrite file offset (take size content)
      → IsWritten (holds w) (offset + size) (drop size content) r
      → IsWritten file offset content (add_written size r)
  add_written-IsWritten file content offset size w (written n e w') within is (m, applied, ends) = (
    size + m,
    add-IsApplied file content (holds w) (holds w') offset size m within is applied,
    add-WriteEnds size _ (length content) n m e (omega (arith, length-drop size content)) ends,
  )
  add_written-IsWritten file content offset size w write_crashes within is h = absurd h
  add_written-IsWritten file content offset size w write_unfinished within is h = absurd h

  -- A chunk at the front of the content, and what follows it.
  write_on-IsWritten :
      (file content : Bytes) (offset size : ℕ) (chunk : Writing World)
      (next : ℕ → World → Writing World)
      → IsChunk file offset (take size content) chunk
      → size ≤ length content
      → ((w : World)
          → holds w ≡ overwrite file offset (take size content)
          → IsWritten (holds w) (offset + size) (drop size content) (next size w))
      → IsWritten file offset content (write_on size chunk next)
  unfolding write_on
  write_on-IsWritten file content offset size (written n (some e) w) next
        (none_counted, m, (few, after), other) within rest =
      let fewer : m ≤ size = omega (arith, length-take size content) in
      (
        m,
        (omega arith, rw (take-take m size content fewer) at after),
        other-WriteEnds (length content) n m e other (omega arith),
      )
  write_on-IsWritten file content offset size (written n none w) next (few, after) within rest =
      let fewer : n ≤ size = omega (arith, length-take size content) in
      let applied : holds w ≡ overwrite file offset (take n content) =
        rw (take-take n size content fewer) at after in
      elim (Bool-cases (ltb n size)) [
        | inl short ↦ rw short (n, (omega arith, applied), refl)
        | inr full ↦
            let all : n ≡ size = ground (arith, full) in
            rw (full, all)
              (add_written-IsWritten file content offset size w (next size w) within
                (rw all at applied) (rest w (rw all at applied)))
      ]
  write_on-IsWritten file content offset size write_crashes next h within rest = absurd h
  write_on-IsWritten file content offset size write_unfinished next h within rest = absurd h

  module _ (gives_up : World → Bool) where
    write_loop-IsWritten :
        (fuel : ℕ) (w : World) (content : Bytes) (offset : ℕ)
        → length content ≤ fuel
        → IsAddressable (has_capability f cap_large_files) (offset + length content)
        → IsWritten (holds w) offset content (write_loop exchange gives_up fuel f w content offset)
    unfolding write_loop
    write_loop-IsWritten fuel w [] offset enough fits = (0, (omega arith, refl), (refl, refl))
    write_loop-IsWritten zero w (b ∷ content) offset enough fits = absurd (omega arith)
    write_loop-IsWritten (suc fuel) w (b ∷ content) offset enough fits =
        elim (Bool-cases (gives_up w)) [
          | inl done ↦ rw done (0, (omega arith, refl), omega arith)
          | inr live ↦
              let size = length (take (max_write_chunk f) (b ∷ content)) in
              let measured : size ≡ min (max_write_chunk f) (length (b ∷ content)) =
                length-take (max_write_chunk f) (b ∷ content) in
              let same_chunk : take size (b ∷ content) ≡ take (max_write_chunk f) (b ∷ content) =
                take-length (max_write_chunk f) (b ∷ content) in
              let some_chunk = max_write_chunk_some f in
              rw live (
                write_on-IsWritten (holds w) (b ∷ content) offset size _ _
                  (rw same_chunk (
                    write_at-IsChunk w (take (max_write_chunk f) (b ∷ content)) offset (omega arith)
                      (omega arith) (earlier-IsAddressable _ offset _ (omega arith) fits)))
                  (omega arith)
                  (λ w' is.
                    write_loop-IsWritten fuel w' (drop size (b ∷ content)) (offset + size)
                      (omega (arith, length-drop size (b ∷ content)))
                      (earlier-IsAddressable _ _ _ (omega (arith, length-drop size (b ∷ content)))
                        fits)))
        ]

    -- Where the offset and the content's length together stay below 2^32, or, with CAP_LARGE_FILES, below
    -- 2^64: against a server that applies what it confirms, and fails as it likes, `writeSequential` leaves a
    -- front of the content in the file, at its offset and with the file as it was around it: all of the
    -- content where there is no error, exactly the bytes counted after `io.ErrShortWrite`, and at least
    -- the bytes counted after any other error. It ends after at most a round for each byte.
    pub write_sequential-IsWritten :
        (w : World) (content : Bytes) (offset : ℕ)
        → IsAddressable (has_capability f cap_large_files) (offset + length content)
        → IsWritten (holds w) offset content (write_sequential exchange gives_up f w content offset)
    unfolding write_sequential
    write_sequential-IsWritten w content offset fits =
        write_loop-IsWritten (length content) w content offset (omega arith) fits
