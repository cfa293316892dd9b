-- ===== src/Client/File/Pouring/Accounts.antt =====
-- What becomes of the chunks of a pipelined write, whatever the connection and the caller do.
use smb1client.Common.{◌≤◌, ◌≡◌, ◌⊎◌, Option, some, List, ◌++◌, length, drop}
use smb1client.Client.File.{File, FileError}
use smb1client.Client.File.Pouring.{WriteChunk, Flight, chunks_of}

-- The initial batch is sent in order, up to the request that fails.
record IsBatch (chunks : List WriteChunk) (b : Flight × Option FileError) : Type 0 where
  in_order : chunks_of (b.0) ++ drop (length (b.0)) chunks ≡ chunks
  few : length (b.0) ≤ length chunks
  whole : ((e : FileError) × (b.1 ≡ some e)) ⊎ (length (b.0) ≡ length chunks)
