-- ===== src/Client/File/Position.antt =====
-- internal/client/file.go: `Read`, `GetOffset` and `SeekContext`, which move a file's offset; and
-- session.go: `readAll`, the loop of `ReadFile`.
pub mod Reader
use smb1client.Common.{
  ℕ, zero, suc, ◌+◌, ◌-◌, Bool, true, false, not, ◌||◌, Option, none, some, List, [], ◌∷◌, ◌++◌,
  length, ltb, leb, ◌==◌, if◌then◌else◌, take, drop, replicate,
}
use smb1client.Common.Int.{ℤ, pos, negsuc}
use smb1client.Wire.{Bytes}
use smb1client.Client.File.{File, FileError, eof, pipeline_depth, Transport}
use smb1client.Client.File.Reads.{Reading, stored, crashes, unfinished, read_sequential}
use smb1client.Client.File.Pipeline.{Piped, read_pipelined}

-- What `Read` returns: the file, the buffer, the count, the error and the calls made until then.
pub data ReadResult : Type 0 where
  returns : File → Bytes → ℕ → Option FileError → ℕ → ReadResult
  read_crashes : ReadResult
  read_unfinished : ReadResult

abbrev pub pipeline_threshold : ℕ
pipeline_threshold = 131072

unfoldable pub finish_reading : File → Bytes → Reading → ReadResult
finish_reading f buf (stored content e calls) =
    returns (record f { offset = f.offset + length content }) (content ++ drop (length content) buf)
      (length content) e calls
finish_reading f buf crashes = read_crashes
finish_reading f buf unfinished = read_unfinished

-- The requests of a pipelined read count as one call.
unfoldable pub finish_piped : File → ℕ → Piped → ReadResult
finish_piped f calls p =
    returns (record f { offset = f.offset + p.total }) p.buffer p.total p.error (calls + 1)

unfoldable pub read : Transport → ℕ → File → Bytes → ReadResult
read t calls f buf =
    if length buf == 0
    then returns f buf 0 none calls
    else if not (pipeline_depth f.max_mpx_count).1 || ltb (length buf) pipeline_threshold
    then finish_reading f buf (read_sequential t.exchange f calls (length buf) f.offset)
    else finish_piped f calls (read_pipelined t calls f buf f.offset)

-- `io.SeekStart`, `io.SeekCurrent`, `io.SeekEnd` or another value. `stat` is the file's size, or the
-- error of `Stat`, which only `SeekEnd` asks for.
pub data Whence : Type 0 where
  seek_start seek_current seek_end other_whence : Whence

pub data SeekError : Type 0 where
  size_unknown invalid_whence negative_position : SeekError

-- The offset plus a signed distance; below 0 it is refused and the offset is set to 0.
abbrev pub shifted : ℕ → ℤ → Option ℕ
shifted at (pos n) = some (at + n)
shifted at (negsuc n) = if leb at n then none else some (at - suc n)

unfoldable pub move_to : File → Option ℕ → File × Option SeekError × ℕ
move_to f (some at) = (record f { offset = at }, none, at)
move_to f none = (record f { offset = 0 }, some negative_position, 0)

unfoldable pub seek : Option ℕ → ℤ → Whence → File → File × Option SeekError × ℕ
seek stat distance seek_start f = move_to f (shifted 0 distance)
seek stat distance seek_current f = move_to f (shifted f.offset distance)
seek (some size) distance seek_end f = move_to f (shifted size distance)
seek none distance seek_end f = (f, some size_unknown, 0)
seek stat distance other_whence f = (f, some invalid_whence, 0)

-- What `readAll` returns: the bytes and the error.
pub data AllRead : Type 0 where
  all_read : Bytes → Option FileError → AllRead
  all_crashes : AllRead
  all_unfinished : AllRead

-- `io.EOF` is the end that is looked for, and no error.
abbrev pub forget_eof : FileError → Option FileError
forget_eof eof = none
forget_eof e = some e

-- A round of the loop: `data = data[:len(data)+n]`, of a buffer behind the data so far.
unfoldable pub extend : Bytes → ReadResult → (File → Bytes → ℕ → AllRead) → AllRead
extend so_far (returns f buf n none calls) next = next f (so_far ++ take n buf) calls
extend so_far (returns f buf n (some e) calls) next = all_read (so_far ++ take n buf) (forget_eof e)
extend so_far read_crashes next = all_crashes
extend so_far read_unfinished next = all_unfinished

-- `room` is the capacity behind so many bytes, after `append` has made some: never none.
unfoldable pub read_all_rounds : Transport → (ℕ → ℕ) → ℕ → ℕ → File → Bytes → AllRead
read_all_rounds t room zero calls f so_far = all_unfinished
read_all_rounds t room (suc fuel) calls f so_far =
    extend so_far (read t calls f (replicate (room (length so_far)) 0))
      (λ f' so_far' calls'. read_all_rounds t room fuel calls' f' so_far')
