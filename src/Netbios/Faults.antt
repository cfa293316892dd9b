-- ===== src/Netbios/Faults.antt =====
-- Truncated frames, the size of messages, and what a write leaves on the wire.
use smb1client.Common.{
  Bool-cases, Option-cases, ltb→lt, ℕ, zero, suc, ◌+◌, ◌≤◌, ◌<◌, ◌≡◌, ◌⊎◌, inl, inr, refl, ◌∙◌,
  Bool, true, false, none, some, [], ◌∷◌, ◌++◌, length, take, drop, ltb, arith, length-take,
  length-drop, le→ltb, lt→leb, take-append-drop,
}
use smb1client.Wire.{Bytes}
use smb1client.Netbios.{
  Source, Sink, hangup, Conditions, message, read_error, sent, write_error, read_full, read_body,
  read_message, read_packet, write_packet_type, write_packet, frame_length, max_message_size,
  connection_closed, read_error_of, read_full_error, not_sent, write_failed, message_too_large,
}
use smb1client.Netbios.Framing.{undisturbed, frame, read_packet-header}

read_full_short : (n : ℕ) (s : Source) → length s.incoming < n → read_full n s ≡ none
unfolding read_full
read_full_short n s h = rw (lt→leb n (length s.incoming) h)

-- At whatever byte it comes, the peer's hanging up closes the connection.
hangup_closes : (bytes : Bytes) → read_error_of (read_full_error hangup bytes) ≡ connection_closed
hangup_closes [] = refl
hangup_closes (b ∷ bs) = refl

read_body_short :
    (n : ℕ) (s : Source)
    → length s.incoming < n
    → s.ending ≡ hangup
    → read_body undisturbed n s
      ≡ read_error connection_closed (record { incoming = []; ending = hangup })
unfolding read_body
read_body_short n s h e = ground (arith, e, read_full_short n s h, hangup_closes s.incoming)

-- A peer that hangs up before the whole frame of a message of at most `MaxMessageSize` bytes has
-- arrived gives `ErrConnectionClosed`, at whatever byte of the header or of the payload the stream
-- stops: before the first byte that was waited for, or part-way.
pub read_packet_truncated :
    (payload : Bytes) (k : ℕ)
    → length payload ≤ max_message_size
    → k < 4 + length payload
    → read_packet undisturbed (record { incoming = take k (frame payload); ending = hangup })
      ≡ read_error connection_closed (record { incoming = []; ending = hangup })
unfolding read_packet read_full read_message
read_packet_truncated payload zero h lt = refl
read_packet_truncated payload (suc zero) h lt = refl
read_packet_truncated payload (suc (suc zero)) h lt = refl
read_packet_truncated payload (suc (suc (suc zero))) h lt = refl
read_packet_truncated payload (suc (suc (suc (suc k)))) h lt =
    read_packet-header undisturbed 0 (length payload) (take k payload) hangup h refl refl
    ∙ rw (le→ltb max_message_size (length payload) h) (
        read_body_short (length payload) (record { incoming = take k payload; ending = hangup })
          (omega (arith, length-take k payload)) refl)

-- A message is never longer than `MaxMessageSize`, and reading it takes exactly its four header
-- bytes and its own bytes off the stream.
pub read_packet_takes :
    (c : Conditions) (s : Source) {m : Bytes} {s' : Source}
    → read_packet c s ≡ message m s'
    → (length m ≤ max_message_size)
      × (length s.incoming ≡ 4 + length m + length s'.incoming)
      × (drop 4 s.incoming ≡ m ++ s'.incoming)
unfolding read_packet read_message read_body read_full
read_packet_takes c s e = ground (
  arith,
  take-append-drop (frame_length (take 4 s.incoming)) (drop 4 s.incoming),
  length-take (frame_length (take 4 s.incoming)) (drop 4 s.incoming),
  length-drop (frame_length (take 4 s.incoming)) (drop 4 s.incoming),
  length-drop 4 s.incoming,
)

-- Writing a message has four ends, each just under its condition: a context that is done refuses it
-- with nothing written; so does, of a context that is not, a message above `MaxMessageSize`; of one
-- that is not above, a connection that fails after `k` bytes leaves that part of the frame behind what
-- was on the wire; and otherwise the whole frame is there.
pub write_packet_cases :
    (done : Bool) (m : Bytes) (s : Sink)
    → (done ≡ true) × (write_packet done m s ≡ write_error not_sent s)
      ⊎ (done ≡ false)
        × (max_message_size < length m)
        × (write_packet done m s ≡ write_error message_too_large s)
      ⊎ ((k : ℕ) × (done ≡ false)
          × (length m ≤ max_message_size)
          × (s.fault ≡ some k)
          × (write_packet done m s
              ≡ write_error write_failed (record s { written = s.written ++ take k (frame m) })))
      ⊎ (done ≡ false)
        × (length m ≤ max_message_size)
        × (s.fault ≡ none)
        × (write_packet done m s ≡ sent (record s { written = s.written ++ frame m }))
unfolding write_packet write_packet_type
write_packet_cases true m s = inl (refl, refl)
write_packet_cases false m s = elim (Bool-cases (ltb max_message_size (length m))) [
  | inl long ↦ inr (inl (refl, ltb→lt _ _ long, rw long))
  | inr fits ↦ inr (
      inr (elim (Option-cases s.fault) [
        | inl sound ↦ inr (refl, ground (arith, fits), sound, ground (arith, fits, sound))
        | inr (k, broken) ↦
            inl (k, refl, ground (arith, fits), broken, ground (arith, fits, broken))
      ]))
]
