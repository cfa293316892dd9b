-- ===== src/Tests/Files.antt =====
-- Transfers of a file of three bytes, and the messages that carry them.
use smb1client.Common.{
  replicate, length-replicate, ◌+◌, ◌*◌, ◌≤◌, ◌<◌, ◌⊎◌, ℕ, ◌≡◌, refl, sym, ap, true, false, ◌&&◌,
  none, some, [], ◌∷◌, ◌++◌, length, leb, ◌==◌, if◌then◌else◌, drop, ok, arith, inl, inr,
  Bool-cases, ==_iff, take_all,
}
use smb1client.Wire.{Bytes, u16_at, u32_at, slice}
use smb1client.Smb1.Header.{Header, new_header, encode}
use smb1client.Smb1.Packet.{Packet, encode_packet}
use smb1client.Smb1.FileOps.{
  ReadResponse, encode_write_request, write_params_front, decode_read_response, read_content,
  decode_write_response, read_response_of,
}
use smb1client.Smb1.FileOps.Transfer.{write_data_placed, decode_read_response_sound}
use smb1client.Client.Conn.{Conn, new_conn, context_done}
use smb1client.Client.Calls.{Returned, answered, unanswered}
use smb1client.Client.File.{
  File, smb_com_write_andx, file_header, status_end_of_file, Transport, Awaited, replied,
  context_ends, write_request,
}
use smb1client.Client.File.Requests.{asked_offset, asked_count}
use smb1client.Client.File.Reads.Content.{Serves}
use smb1client.Client.File.Pipeline.Pieces.{ServesAwaited}
use smb1client.Client.File.Position.{read, read_all_rounds}
use smb1client.Client.File.Position.Reader.{IsReader, IsAllOf, read-IsReader, read_all_whole}
use smb1client.Client.File.Writes.{write_sequential}
use smb1client.Client.File.Writes.Overwrite.{overwrite}
use smb1client.Client.File.Writes.Applied.{
  Applies, IsWritten, written_offset, write_sequential-IsWritten,
}
use smb1client.Client.File.Pouring.{Feed, deadline_passes}
use smb1client.Client.File.Listing.{FileStat, listed, end_of_listing, read_pages}
use smb1client.Client.File.Listing.Pages.{read_pages_lem}

abbrev three_bytes : Bytes
three_bytes = 10 ∷ 20 ∷ 30 ∷ []

abbrev file : File
file = record {
  uid = 1;
  tid = 2;
  fid = 3;
  name = [];
  offset = 0;
  capabilities = 0;
  max_buffer_size = 0;
  max_mpx_count = 10;
}

abbrev conn : Conn
conn = new_conn (record { written = []; fault = none })

-- A reply with all three bytes, behind their length of 3.
abbrev read_words : Bytes
read_words =
    255 ∷ 0 ∷ 0 ∷ 0 ∷ 0 ∷ 0 ∷ 0 ∷ 0 ∷ 0 ∷ 0 ∷ 3 ∷ 0 ∷ 0 ∷ 0 ∷ 0 ∷ 0 ∷ 0 ∷ 0 ∷ 0 ∷ 0 ∷ 0 ∷ 0 ∷ 0 ∷ 0
    ∷ []

abbrev whole_packet : Packet
whole_packet = record { header = new_header 0x2E; parameters = read_words; content = three_bytes }

abbrev end_packet : Packet
end_packet = record {
  header = record (new_header 0x2E) { status = status_end_of_file };
  parameters = [];
  content = [];
}

whole_reply_read :
    decode_read_response read_words three_bytes ≡ ok (read_response_of read_words three_bytes)
unfolding decode_read_response read_content smb1client.Wire.cut
whole_reply_read = refl

-- A server of the three bytes, which answers whoever asks for all of them or from behind them.
abbrev serve : ℕ → ℕ → Returned
serve offset count =
    if offset == 0 && leb 3 count
    then answered (record { packet = some whole_packet; error = none }) none conn
    else if leb 3 offset
    then answered (record { packet = some end_packet; error = some context_done })
        (some context_done) conn
    else unanswered context_done conn

serve-Serves : (offset count : ℕ) → Serves three_bytes offset count (serve offset count)
serve-Serves offset count = elim (Bool-cases (offset == 0 && leb 3 count)) [
  | inl start ↦
      let at_start : offset ≡ 0 = ground (arith, start) in
      rw start (
        refl,
        (
          whole_packet,
          read_response_of read_words three_bytes,
          refl,
          whole_reply_read,
          ap (λ (k : ℕ). slice three_bytes k 3) (sym at_start),
          ground (arith, start),
          inl (omega arith),
        ),
      )
  | inr other ↦ elim (Bool-cases (leb 3 offset)) [
    | inl behind ↦ rw (other, behind) (end_packet, refl, inr (ground (arith, behind)))
    | inr inside ↦ rw (other, inside) tt
  ]
]

abbrev transport : Transport
transport = record {
  exchange = λ calls header params content. serve (asked_offset params) (asked_count params);
  dispatch = λ calls header params content. none;
  await = λ calls params. context_ends;
}

-- The server's answers to the requests of a pipelined read.
abbrev serve_awaited : ℕ → ℕ → Awaited
serve_awaited offset count =
    if offset == 0 && leb 3 count
    then replied (record { packet = some whole_packet; error = none })
    else if leb 3 offset
    then replied (record { packet = some end_packet; error = some context_done })
    else replied (record { packet = none; error = some context_done })

serve_awaited-ServesAwaited :
    (offset count : ℕ) → ServesAwaited three_bytes offset count (serve_awaited offset count)
serve_awaited-ServesAwaited offset count = elim (Bool-cases (offset == 0 && leb 3 count)) [
  | inl start ↦
      let at_start : offset ≡ 0 = ground (arith, start) in
      rw start (
        inl (
          refl,
          (
            whole_packet,
            read_response_of read_words three_bytes,
            refl,
            whole_reply_read,
            ap (λ (k : ℕ). slice three_bytes k 3) (sym at_start),
            ground (arith, start),
            inl (omega arith),
          ),
        ))
  | inr other ↦ elim (Bool-cases (leb 3 offset)) [
    | inl behind ↦
        rw (other, behind)
          (inr (inl (context_done, refl, (end_packet, refl, inr (ground (arith, behind))))))
    | inr inside ↦ rw (other, inside) (inr (inr (context_done, refl, refl)))
  ]
]

abbrev piped_transport : Transport
piped_transport = record transport {
  await = λ calls params. serve_awaited (asked_offset params) (asked_count params);
}

-- As much room as makes a read pipelined.
abbrev much_room : Bytes
much_room = replicate 131072 0

read-IsReader_example : IsReader three_bytes file much_room (read piped_transport 0 file much_room)
read-IsReader_example =
    read-IsReader three_bytes file piped_transport 0 much_room
      (inl (omega (arith, length-replicate {A = ℕ} 131072 0)))
      (λ calls params fid. serve-Serves (asked_offset params) (asked_count params))
      (λ calls params fid. serve_awaited-ServesAwaited (asked_offset params) (asked_count params))

read_all_whole_example : IsAllOf three_bytes 0 (read_all_rounds transport (λ n. 4) 4 0 file [])
read_all_whole_example =
    read_all_whole three_bytes file transport (λ n. 4) (λ n. omega arith) (λ n h. inl (omega arith))
      (λ calls params fid. serve-Serves (asked_offset params) (asked_count params))
      (λ calls params fid. tt) 0

-- A server that confirms writes of three bytes, and answers no others.
abbrev confirm_words : Bytes
confirm_words = 255 ∷ 0 ∷ 0 ∷ 0 ∷ 3 ∷ 0 ∷ 0 ∷ 0 ∷ 0 ∷ 0 ∷ 0 ∷ 0 ∷ []

abbrev confirm_packet : Packet
confirm_packet = record { header = new_header 0x2F; parameters = confirm_words; content = [] }

abbrev apply : Bytes → Header → Bytes → Bytes → Returned × Bytes
apply held header params content =
    if length content == 3
    then (
      answered (record { packet = some confirm_packet; error = none }) none conn,
      overwrite held (written_offset params) content,
    )
    else (unanswered context_done conn, held)

apply-Applies :
    (held : Bytes) (header : Header) (params content : Bytes)
    → Applies held
        (written_offset params)
        content
        (apply held header params content).1
        (apply held header params content).0
unfolding decode_write_response
apply-Applies held header params content = elim (Bool-cases (length content == 3)) [
  | inl three ↦
      let len : length content ≡ 3 = (==_iff (length content) 3).0 three in
      rw three (
        confirm_packet,
        _,
        refl,
        refl,
        refl,
        (
          omega arith,
          ap (λ (l : Bytes). overwrite held (written_offset params) l)
              (sym (take_all 3 content (omega arith))),
        ),
      )
  | inr other ↦ rw other (0, (omega arith, refl))
]

write_sequential-IsWritten_example :
    IsWritten apply
      (λ held. held)
      file
      (λ held params content fid.
        apply-Applies held (file_header file smb_com_write_andx) params content)
      (5 ∷ 5 ∷ 5 ∷ 5 ∷ [])
      1
      three_bytes
      (write_sequential apply (λ held. false) file (5 ∷ 5 ∷ 5 ∷ 5 ∷ []) three_bytes 1)
write_sequential-IsWritten_example =
    write_sequential-IsWritten apply (λ held. held) file
      (λ held params content fid.
        apply-Applies held (file_header file smb_com_write_andx) params content)
      (λ held. false) (5 ∷ 5 ∷ 5 ∷ 5 ∷ []) three_bytes 1 (inl (omega arith))

abbrev drained_feed : Feed
drained_feed = record {
  dispatch = λ header params content. none;
  await = λ params. context_ends;
  drain = λ params. deadline_passes;
  context_done = λ left. true;
  send_cancelled = λ left. true;
}

abbrev entry : FileStat
entry = record {
  creation_time = 0;
  last_access_time = 0;
  last_write_time = 0;
  change_time = 0;
  end_of_file = 3;
  allocation_size = 8;
  file_attributes = 0;
  file_name = b'a' ∷ [];
}

read_pages_lem_example :
    read_pages 4 (listed (entry ∷ entry ∷ entry ∷ [])) 2 file
    ≡ some (entry ∷ entry ∷ entry ∷ [], some end_of_listing)
read_pages_lem_example =
    read_pages_lem 4 1 (entry ∷ entry ∷ entry ∷ []) file (omega arith) (omega arith)

abbrev whole_response : ReadResponse
whole_response = read_response_of read_words three_bytes

decode_read_response_sound_example :
    (length whole_response.content ≡ u16_at read_words 10 + 65536 * u32_at read_words 14)
    × (((at : ℕ) × (35 + length read_words + at ≡ u16_at read_words 12)
          × (at ≤ length three_bytes)
          × (whole_response.content ≡ slice three_bytes at (length whole_response.content)))
        ⊎ ((u16_at read_words 12 < 35 + length read_words)
            ⊎ (35 + length read_words + length three_bytes < u16_at read_words 12))
          × (whole_response.content ≡ slice three_bytes 0 (length whole_response.content)))
decode_read_response_sound_example =
    decode_read_response_sound read_words three_bytes whole_reply_read

abbrev write_words : Bytes
write_words = write_params_front (write_request file 7 three_bytes) 24

write_encoded :
    encode_write_request (some (write_request file 7 three_bytes)) false
    ≡ ok (write_words, three_bytes)
unfolding encode_write_request
write_encoded = refl

abbrev write_packet_bytes : Bytes
write_packet_bytes = encode (new_header 0x2F) ++ (12 ∷ write_words ++ (3 ∷ 0 ∷ three_bytes))

write_packet_built :
    encode_packet (some (new_header 0x2F)) write_words three_bytes ≡ ok write_packet_bytes
unfolding encode_packet
write_packet_built = refl

write_data_placed_example : drop (u16_at write_words 22) write_packet_bytes ≡ three_bytes
write_data_placed_example =
    write_data_placed (new_header 0x2F) (write_request file 7 three_bytes) false write_encoded
      write_packet_built
