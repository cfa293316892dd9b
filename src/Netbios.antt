-- ===== src/Netbios.antt =====
-- internal/netbios/session.go: the session service's framing of messages on a byte stream.
pub mod Framing
pub mod Faults
use smb1client.Common.{
  ℕ, ◌+◌, ◌*◌, ◌/◌, ◌%◌, Bool, true, false, ◌||◌, Option, none, some, List, [], ◌∷◌, ◌++◌, length,
  take, drop, ltb, leb, ◌==◌, if◌then◌else◌,
}
use smb1client.Wire.{Bytes, byte_at}

abbrev pub message_type_session_message : ℕ
message_type_session_message = 0x00

abbrev pub message_type_positive_response : ℕ
message_type_positive_response = 0x82

abbrev pub message_type_negative_response : ℕ
message_type_negative_response = 0x83

abbrev pub message_type_retarget_response : ℕ
message_type_retarget_response = 0x84

abbrev pub message_type_session_keep_alive : ℕ
message_type_session_keep_alive = 0x85

abbrev pub max_message_size : ℕ
max_message_size = 131072

-- `context_done` is `ctx.Err()`; `connection_closed` is `ErrConnectionClosed`; the context's error
-- under `ErrNotSent` is `not_sent`; the others are messages of their own.
pub data NetbiosError : Type 0 where
  context_done connection_closed not_sent deadline_failed read_failed write_failed : NetbiosError
  message_too_large keep_alive_with_data unknown_type : NetbiosError

-- How a stream ends after its last byte: the peer hangs up, or the read fails otherwise.
pub data Ending : Type 0 where
  hangup broken : Ending

-- The receiving side of a `net.Conn`: what it still has to give.
pub record Source : Type 0 where
  pub incoming : Bytes
  pub ending : Ending

-- What the context and the deadline calls answer during one read.
pub record Conditions : Type 0 where
  pub done_before_header : Bool
  pub clear_deadline_fails : Bool
  pub done_before_body : Bool
  pub arm_deadline_fails : Bool

-- A message, or an error, and in either case what is left to read.
pub data ReadResult : Type 0 where
  message : Bytes → Source → ReadResult
  read_error : NetbiosError → Source → ReadResult

-- The errors of `io.ReadFull`: a peer that has hung up gives `io.EOF` if no byte was read before, else
-- `io.ErrUnexpectedEOF`.
pub data IoError : Type 0 where
  io_eof io_unexpected_eof io_other : IoError

abbrev pub end_of_file : Bytes → IoError
end_of_file [] = io_eof
end_of_file (b ∷ bs) = io_unexpected_eof

abbrev pub read_full_error : Ending → Bytes → IoError
read_full_error hangup read_before = end_of_file read_before
read_full_error broken read_before = io_other

-- `isHangup`
abbrev pub is_hangup : IoError → Bool
is_hangup io_eof = true
is_hangup io_unexpected_eof = true
is_hangup io_other = false

abbrev pub read_error_of : IoError → NetbiosError
read_error_of e = if is_hangup e then connection_closed else read_failed

-- `io.ReadFull`: `none` is a stream that ends before `n` bytes, all of which it uses up.
unfoldable pub read_full : ℕ → Source → Option (Bytes × Source)
read_full n s =
    if leb n (length s.incoming)
    then some (take n s.incoming, record s { incoming = drop n s.incoming })
    else none

-- `uint32(header[1])<<16 | uint32(header[2])<<8 | uint32(header[3])`, over bytes.
abbrev pub frame_length : Bytes → ℕ
frame_length header = byte_at header 1 * 65536 + byte_at header 2 * 256 + byte_at header 3

abbrev pub used_up : Source → Source
used_up s = record s { incoming = [] }

-- The payload that a header has announced.
unfoldable pub read_body : Conditions → ℕ → Source → ReadResult
read_body c n s =
    if n == 0
    then message [] s
    else if c.done_before_body
    then read_error context_done s
    else if c.arm_deadline_fails
    then read_error deadline_failed s
    else elim (read_full n s) [
      | none ↦ read_error (read_error_of (read_full_error s.ending s.incoming)) (used_up s)
      | some (payload, rest) ↦ message payload rest
    ]

abbrev pub is_establishment_response : ℕ → Bool
is_establishment_response t =
    t == message_type_positive_response
    || (t == message_type_negative_response || t == message_type_retarget_response)

-- The checks on a header, and the switch on the message's type.
unfoldable pub read_message : Conditions → ℕ → ℕ → Source → ReadResult
read_message c message_type n s =
    if ltb max_message_size n
    then read_error message_too_large s
    else if message_type == message_type_session_message
    then read_body c n s
    else if message_type == message_type_session_keep_alive
    then (if n == 0 then message [] s else read_error keep_alive_with_data s)
    else if is_establishment_response message_type
    then read_body c n s
    else read_error unknown_type s

unfoldable pub read_packet : Conditions → Source → ReadResult
read_packet c s =
    if c.done_before_header
    then read_error context_done s
    else if c.clear_deadline_fails
    then read_error deadline_failed s
    else elim (read_full 4 s) [
      | none ↦ read_error (read_error_of (read_full_error s.ending s.incoming)) (used_up s)
      | some (header, rest) ↦ read_message c (byte_at header 0) (frame_length header) rest
    ]

-- The sending side: the bytes that have reached the connection, and whether the next write fails
-- after so many bytes.
pub record Sink : Type 0 where
  pub written : Bytes
  pub fault : Option ℕ

pub data WriteResult : Type 0 where
  sent : Sink → WriteResult
  write_error : NetbiosError → Sink → WriteResult

abbrev pub write_bytes : Bytes → Bytes → Option ℕ → WriteResult
write_bytes b written none = sent (record { written = written ++ b; fault = none })
write_bytes b written (some k) =
    write_error write_failed (record { written = written ++ take k b; fault = some k })

-- `[Type:1 byte][Length:3 bytes big-endian]`
abbrev pub frame_header : ℕ → ℕ → Bytes
frame_header message_type n = message_type ∷ n / 65536 % 256 ∷ n / 256 % 256 ∷ n % 256 ∷ []

-- With no data the header alone is written; `header ++ []` is the header.
unfoldable pub write_packet_type : Bool → ℕ → Bytes → Sink → WriteResult
write_packet_type context_is_done message_type payload s =
    if context_is_done
    then write_error not_sent s
    else if ltb max_message_size (length payload)
    then write_error message_too_large s
    else write_bytes (frame_header message_type (length payload) ++ payload) s.written s.fault

unfoldable pub write_packet : Bool → Bytes → Sink → WriteResult
write_packet context_is_done = write_packet_type context_is_done message_type_session_message
