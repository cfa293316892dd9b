-- ===== src/Tests/Frames.antt =====
-- NetBIOS frames on a stream.
use smb1client.Common.{
  ℕ, ◌+◌, ◌≡◌, ◌⊎◌, refl, true, false, none, some, [], ◌∷◌, ◌++◌, arith, length, take, drop, ◌<◌,
  ◌≤◌,
}
use smb1client.Wire.{Bytes}
use smb1client.Netbios.{
  Source, Sink, hangup, message, sent, write_error, not_sent, message_too_large, write_failed,
  read_error, connection_closed, max_message_size, read_packet, write_packet, read_full,
  read_message, read_body,
}
use smb1client.Netbios.Framing.{undisturbed, frame, write_all, read_all, read_all-write_all}
use smb1client.Netbios.Faults.{read_packet_truncated, read_packet_takes, write_packet_cases}

read_all-write_all_example :
    (b : Bytes) × (write_all ((1 ∷ 2 ∷ []) ∷ [] ∷ []) (record { written = []; fault = none })
      ≡ sent (record { written = b; fault = none }))
    × (read_all 2 (record { incoming = b ++ (9 ∷ []); ending = hangup })
        ≡ some ((1 ∷ 2 ∷ []) ∷ [] ∷ [], record { incoming = 9 ∷ []; ending = hangup }))
read_all-write_all_example =
    read_all-write_all ((1 ∷ 2 ∷ []) ∷ [] ∷ []) (9 ∷ []) hangup (omega arith, (omega arith, tt))

read_packet_truncated_example :
    read_packet undisturbed (record { incoming = take 5 (frame (1 ∷ 2 ∷ [])); ending = hangup })
    ≡ read_error connection_closed (record { incoming = []; ending = hangup })
read_packet_truncated_example = read_packet_truncated (1 ∷ 2 ∷ []) 5 (omega arith) (omega arith)

abbrev two_bytes : Bytes
two_bytes = 1 ∷ 2 ∷ []

abbrev framed : Source
framed = record { incoming = frame two_bytes ++ (9 ∷ []); ending = hangup }

abbrev behind : Source
behind = record { incoming = 9 ∷ []; ending = hangup }

framed_read : read_packet undisturbed framed ≡ message two_bytes behind
unfolding read_packet read_full read_message read_body
framed_read = refl

read_packet_takes_example :
    (length two_bytes ≤ max_message_size)
    × (length framed.incoming ≡ 4 + length two_bytes + length behind.incoming)
    × (drop 4 framed.incoming ≡ two_bytes ++ behind.incoming)
read_packet_takes_example = read_packet_takes undisturbed framed framed_read

abbrev failing_sink : Sink
failing_sink = record { written = []; fault = some 3 }

write_packet_cases_example :
    (false ≡ true) × (write_packet false two_bytes failing_sink ≡ write_error not_sent failing_sink)
    ⊎ (false ≡ false)
      × (max_message_size < length two_bytes)
      × (write_packet false two_bytes failing_sink ≡ write_error message_too_large failing_sink)
    ⊎ ((k : ℕ) × (false ≡ false)
        × (length two_bytes ≤ max_message_size)
        × (failing_sink.fault ≡ some k)
        × (write_packet false two_bytes failing_sink
            ≡ write_error write_failed
                (record failing_sink { written = [] ++ take k (frame two_bytes) })))
    ⊎ (false ≡ false)
      × (length two_bytes ≤ max_message_size)
      × (failing_sink.fault ≡ none)
      × (write_packet false two_bytes failing_sink
          ≡ sent (record failing_sink { written = [] ++ frame two_bytes }))
write_packet_cases_example = write_packet_cases false two_bytes failing_sink
