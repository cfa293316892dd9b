-- ===== src/Client/File/Pouring/Sends.antt =====
-- What a pipelined write has put on the wire.
use smb1client.Common.{
  ◌/◌, ◌%◌, ◌^◌, ◌≡◌, ◌⊎◌, inl, inr, refl, Bool, true, false, Option, none, some, List, [], ◌∷◌,
  ◌++◌, ok, length, All, Option-cases, arith,
}
use smb1client.Wire.{Bytes, u16_at, u32_at}
use smb1client.Smb1.FileOps.{encode_write_request}
use smb1client.Client.File.{
  File, FileError, has_capability, cap_large_files, smb_com_write_andx, file_header, write_request,
}
use smb1client.Client.File.Pouring.{
  WriteChunk, Flight, Feed, Sent, is_sent, not_sent, dispatch_encoded, send_write_request,
  send_batch, chunks_of,
}

-- The connection has accepted a WRITE_ANDX on the file with this chunk's content: its offset, of which
-- the high half is there if the server takes it, and its length, in the fields of the request.
pub record IsOnWire (t : Feed) (f : File) (c : WriteChunk) : Type 0 where
  pub params : Bytes
  pub accepted : t.dispatch (file_header f smb_com_write_andx) params c.content ≡ none
  pub of_file : u16_at params 4 ≡ f.fid % 2 ^ 16
  pub at_offset : u32_at params 6 ≡ c.offset % 2 ^ 32
  pub at_high_offset :
      (has_capability f cap_large_files ≡ false) ⊎ (u32_at params 24 ≡ c.offset / 2 ^ 32 % 2 ^ 32)
  pub of_length : u16_at params 20 ≡ length c.content % 2 ^ 16

dispatched :
    (t : Feed) (f : File) (params content : Bytes) {sent_params : Bytes}
    → dispatch_encoded t f (ok (params, content)) ≡ is_sent sent_params
    → t.dispatch (file_header f smb_com_write_andx) params content ≡ none
unfolding dispatch_encoded
dispatched t f params content e =
    elim (Option-cases (t.dispatch (file_header f smb_com_write_andx) params content)) [
      | inl accepted ↦ accepted
      | inr (x, refused) ↦ absurd (ground (arith, e, refused))
    ]

by_capability :
    (t : Feed) (f : File) (c : WriteChunk) (large_files : Bool) {sent_params : Bytes}
    → has_capability f cap_large_files ≡ large_files
    → dispatch_encoded t f
        (encode_write_request (some (write_request f c.offset c.content)) large_files)
      ≡ is_sent sent_params
    → IsOnWire t f c
unfolding encode_write_request
by_capability t f c true h e = record {
  params = _;
  accepted = dispatched t f _ c.content e;
  of_file = omega arith;
  at_offset = omega arith;
  at_high_offset = inr (omega arith);
  of_length = omega arith;
}
by_capability t f c false h e = record {
  params = _;
  accepted = dispatched t f _ c.content e;
  of_file = omega arith;
  at_offset = omega arith;
  at_high_offset = inl h;
  of_length = omega arith;
}

pub send_write_request-IsOnWire :
    (t : Feed) (f : File) (c : WriteChunk) {params : Bytes}
    → send_write_request t f c ≡ is_sent params
    → IsOnWire t f c
unfolding send_write_request
send_write_request-IsOnWire t f c e = by_capability t f c (has_capability f cap_large_files) refl e

-- The requests that were taken, and those in flight, are on the wire.
pub record AreOnWire (t : Feed) (f : File) (taken : List WriteChunk) (flight : Flight)
    : Type 0 where
  pub taken_sent : All (IsOnWire t f) taken
  pub flight_sent : All (IsOnWire t f) (chunks_of flight)

pub append-AreOnWire :
    (t : Feed) (f : File) (taken : List WriteChunk) (flight : Flight) (c : WriteChunk)
    (params : Bytes)
    → AreOnWire t f taken flight
    → IsOnWire t f c
    → AreOnWire t f taken (flight ++ ((c, params) ∷ []))
append-AreOnWire t f taken flight c params wire sent = record {
  taken_sent = wire.taken_sent;
  flight_sent = all_of flight wire.flight_sent;
}
  where
    all_of :
        (flight : Flight)
        → All (IsOnWire t f) (chunks_of flight)
        → All (IsOnWire t f) (chunks_of (flight ++ ((c, params) ∷ [])))
    all_of [] h = (sent, tt)
    all_of (d ∷ flight) (h, rest) = (h, all_of flight rest)

abbrev pub IsBatchSent : Feed → File → Flight × Option FileError → Type 0
IsBatchSent t f b = All (IsOnWire t f) (chunks_of (b.0))

pub send_batch-AreOnWire :
    (t : Feed) (f : File) (chunks : List WriteChunk) → IsBatchSent t f (send_batch t f chunks)
unfolding send_batch
send_batch-AreOnWire t f [] = tt
send_batch-AreOnWire t f (c ∷ cs) =
    by_sending (send_write_request t f c) refl (send_batch-AreOnWire t f cs)
  where
    by_sending :
        (s : Sent)
        → send_write_request t f c ≡ s
        → IsBatchSent t f (send_batch t f cs)
        → IsBatchSent t f (elim s [
          | not_sent e ↦ ([], some e)
          | is_sent params ↦ let (flight, e) = send_batch t f cs in ((c, params) ∷ flight, e)
        ])
    by_sending (not_sent e) h rest = tt
    by_sending (is_sent params) h rest = (send_write_request-IsOnWire t f c h, rest)
