-- ===== src/Client/File/Writes.antt =====
-- internal/client/file.go: `WriteAt` and `writeSequential`.
pub mod Overwrite
pub mod Applied
use smb1client.Common.{
  ℕ, zero, suc, ◌+◌, ◌-◌, Bool, true, false, Option, none, some, List, [], ◌∷◌, length, ltb, ◌==◌,
  if◌then◌else◌, take, drop, Outcome, ok, err, panic,
}
use smb1client.Wire.{Bytes}
use smb1client.Smb1.Header.{Header}
use smb1client.Smb1.FileOps.{
  FileOpError, WriteResponse, bytes_written, encode_write_request, decode_write_response,
}
use smb1client.Client.Conn.{Conn, ConnError, Response}
use smb1client.Client.Calls.{Returned, answered, unanswered, crashed}
use smb1client.Client.File.{
  File, FileError, short_write, cancelled, bad_request, bad_reply, call_failed, has_capability,
  cap_large_files, smb_com_write_andx, max_write_chunk, file_header, write_request,
}

abbrev pub decode_write_reply : Response → Outcome FileOpError WriteResponse
decode_write_reply r = elim r.packet [
  | none ↦ decode_write_response []
  | some p ↦ decode_write_response p.parameters
]

-- The count and the error of a single call; no result is a panic.
unfoldable pub count_written : Outcome FileOpError WriteResponse → Option (ℕ × Option FileError)
count_written (ok r) = some (bytes_written r, none)
count_written (err e) = some (0, some (bad_reply e))
count_written panic = none

unfoldable pub take_write_reply : Returned → Option (ℕ × Option FileError)
take_write_reply (answered r (some e) c) = some (0, some (call_failed e))
take_write_reply (answered r none c) = elim r.error [
  | some e ↦ some (0, some (call_failed e))
  | none ↦ count_written (decode_write_reply r)
]
take_write_reply (unanswered e c) = some (0, some (call_failed e))
take_write_reply crashed = none

-- What a write returns: the count, the error and the world, which is the server and the connection to
-- it. `unfinished` is no outcome of the source.
pub data Writing {ℓ} (World : Type ℓ) : Type ℓ where
  written : ℕ → Option FileError → World → Writing World
  write_crashes : Writing World
  write_unfinished : Writing World

module _ {ℓ} {World : Type ℓ} where
  abbrev pub settled_in : World → Option (ℕ × Option FileError) → Writing World
  settled_in w none = write_crashes
  settled_in w (some (n, e)) = written n e w

  abbrev pub settle_exchange : Returned × World → Writing World
  settle_exchange (returned, w) = settled_in w (take_write_reply returned)

  abbrev pub add_written : ℕ → Writing World → Writing World
  add_written n (written m e w) = written (n + m) e w
  add_written n write_crashes = write_crashes
  add_written n write_unfinished = write_unfinished

  -- After a chunk of so many bytes: a short count ends the write.
  unfoldable pub write_on : ℕ → Writing World → (ℕ → World → Writing World) → Writing World
  write_on size (written n (some e) w) next = written n (some e) w
  write_on size (written n none w) next =
      if ltb n size then written n (some short_write) w else add_written n (next n w)
  write_on size write_crashes next = write_crashes
  write_on size write_unfinished next = write_unfinished

-- `exchange` is what `sendRecvSettled` returns for a request, and the world after it.
module _ {ℓ} {World : Type ℓ} (exchange : World → Header → Bytes → Bytes → Returned × World) where
  unfoldable pub send_write : File → World → Outcome FileOpError (Bytes × Bytes) → Writing World
  send_write f w (ok (params, content)) =
      settle_exchange (exchange w (file_header f smb_com_write_andx) params content)
  send_write f w (err e) = written 0 (some (bad_request e)) w
  send_write f w panic = write_crashes

  -- `WriteAt`: one request, of the front of what it is given.
  unfoldable pub write_at : File → World → Bytes → ℕ → Writing World
  write_at f w content offset =
      if length content == 0
      then written 0 none w
      else send_write f w (
          encode_write_request (some (write_request f offset (take (max_write_chunk f) content)))
            (has_capability f cap_large_files))

  -- The loop of `writeSequential`, on fuel; a round that goes on has written a chunk. `gives_up` says
  -- whether the caller's context is done.
  unfoldable pub write_loop : (World → Bool) → ℕ → File → World → Bytes → ℕ → Writing World
  write_loop gives_up fuel f w [] offset = written 0 none w
  write_loop gives_up zero f w (b ∷ content) offset = write_unfinished
  write_loop gives_up (suc fuel) f w (b ∷ content) offset =
      if gives_up w
      then written 0 (some cancelled) w
      else write_on (length (take (max_write_chunk f) (b ∷ content)))
          (write_at f w (take (max_write_chunk f) (b ∷ content)) offset)
          (λ n w'. write_loop gives_up fuel f w' (drop n (b ∷ content)) (offset + n))

  unfoldable pub write_sequential : (World → Bool) → File → World → Bytes → ℕ → Writing World
  write_sequential gives_up f w content offset =
      write_loop gives_up (length content) f w content offset
