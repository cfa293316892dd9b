-- ===== src/Client/File/Pipeline/Sends.antt =====
-- What a pipelined read has put on the wire.
use smb1client.Common.{
  ℕ, ◌/◌, ◌%◌, ◌^◌, ◌≡◌, ◌⊎◌, inl, inr, refl, Bool, true, false, Option, none, some, List, [], ◌∷◌,
  ok, All, Option-cases, arith,
}
use smb1client.Wire.{Bytes, u16_at, u32_at}
use smb1client.Smb1.FileOps.{encode_read_request}
use smb1client.Client.File.{
  File, FileError, Transport, has_capability, cap_large_files, cap_large_readx, smb_com_read_andx,
  file_header, read_request,
}
use smb1client.Client.File.Pipeline.{
  ReadChunk, Flight, Sent, is_sent, not_sent, dispatch_encoded, send_read_request, send_batch,
  chunks_of,
}

-- The connection has accepted a READ_ANDX on the file that asks for this chunk: its offset, of which
-- the high half is there if the server takes it, and its size, in the fields of 32 and 16 bits.
pub record IsOnWire (t : Transport) (calls : ℕ) (f : File) (c : ReadChunk) : Type 0 where
  pub params : Bytes
  pub accepted : t.dispatch calls (file_header f smb_com_read_andx) params [] ≡ none
  pub of_file : u16_at params 4 ≡ f.fid % 2 ^ 16
  pub at_offset : u32_at params 6 ≡ c.offset % 2 ^ 32
  pub at_high_offset :
      (has_capability f cap_large_files ≡ false) ⊎ (u32_at params 20 ≡ c.offset / 2 ^ 32 % 2 ^ 32)
  pub of_size : u16_at params 10 ≡ c.size % 2 ^ 16

dispatched :
    (t : Transport) (calls : ℕ) (f : File) (params content : Bytes) {sent_params : Bytes}
    → dispatch_encoded t calls f (ok (params, content)) ≡ is_sent sent_params
    → t.dispatch calls (file_header f smb_com_read_andx) params content ≡ none
unfolding dispatch_encoded
dispatched t calls f params content e =
    elim (Option-cases (t.dispatch calls (file_header f smb_com_read_andx) params content)) [
      | inl accepted ↦ accepted
      | inr (x, refused) ↦ absurd (ground (arith, e, refused))
    ]

by_capabilities :
    (t : Transport) (calls : ℕ) (f : File) (c : ReadChunk) (large_files large_readx : Bool)
    {sent_params : Bytes}
    → has_capability f cap_large_files ≡ large_files
    → dispatch_encoded t calls f
        (encode_read_request (some (read_request f c.offset c.size)) large_files large_readx)
      ≡ is_sent sent_params
    → IsOnWire t calls f c
unfolding encode_read_request
by_capabilities t calls f c true true h e = record {
  params = _;
  accepted = dispatched t calls f _ [] e;
  of_file = omega arith;
  at_offset = omega arith;
  at_high_offset = inr (omega arith);
  of_size = omega arith;
}
by_capabilities t calls f c true false h e = record {
  params = _;
  accepted = dispatched t calls f _ [] e;
  of_file = omega arith;
  at_offset = omega arith;
  at_high_offset = inr (omega arith);
  of_size = omega arith;
}
by_capabilities t calls f c false readx h e = record {
  params = _;
  accepted = dispatched t calls f _ [] e;
  of_file = omega arith;
  at_offset = omega arith;
  at_high_offset = inl h;
  of_size = omega arith;
}

pub send_read_request-IsOnWire :
    (t : Transport) (calls : ℕ) (f : File) (c : ReadChunk) {params : Bytes}
    → send_read_request t calls f c ≡ is_sent params
    → IsOnWire t calls f c
unfolding send_read_request
send_read_request-IsOnWire t calls f c e =
    by_capabilities t calls f c (has_capability f cap_large_files)
      (has_capability f cap_large_readx) refl e

-- The requests that were taken, and those in flight, are on the wire.
pub record AreOnWire (t : Transport) (calls : ℕ) (f : File) (taken : List ReadChunk)
    (flight : Flight) : Type 0 where
  pub taken_sent : All (IsOnWire t calls f) taken
  pub flight_sent : All (IsOnWire t calls f) (chunks_of flight)

abbrev pub IsBatchSent : Transport → ℕ → File → Flight × Option FileError → Type 0
IsBatchSent t calls f b = All (IsOnWire t calls f) (chunks_of (b.0))

pub send_batch-AreOnWire :
    (t : Transport) (calls : ℕ) (f : File) (chunks : List ReadChunk)
    → IsBatchSent t calls f (send_batch t calls f chunks)
unfolding send_batch
send_batch-AreOnWire t calls f [] = tt
send_batch-AreOnWire t calls f (c ∷ cs) =
    by_sending (send_read_request t calls f c) refl (send_batch-AreOnWire t calls f cs)
  where
    by_sending :
        (s : Sent)
        → send_read_request t calls f c ≡ s
        → IsBatchSent t calls f (send_batch t calls f cs)
        → IsBatchSent t calls f (elim s [
          | not_sent e ↦ ([], some e)
          | is_sent params ↦ let (flight, e) = send_batch t calls f cs in ((c, params) ∷ flight, e)
        ])
    by_sending (not_sent e) h rest = tt
    by_sending (is_sent params) h rest = (send_read_request-IsOnWire t calls f c h, rest)
