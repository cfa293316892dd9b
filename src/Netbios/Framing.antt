-- ===== src/Netbios/Framing.antt =====
-- What was written as frames is read back as messages.
use mathlib.Core.Option
use smb1client.Common.{
  zero, suc, le→leb, ℕ, ◌≤◌, ◌≡◌, refl, ap, ◌∙◌, false, Option, none, some, List, [], ◌∷◌, ◌++◌,
  length, arith, take-append, drop-append, length-append, append_assoc, append-nil, All, le→ltb,
}
use smb1client.Wire.{Bytes}
use smb1client.Netbios.{
  Source, Sink, Ending, Conditions, message, read_error, WriteResult, sent, write_error, read_full,
  read_body, read_message, read_packet, write_packet_type, write_packet, frame_header, frame_length,
  max_message_size, message_type_session_message,
}

-- No context is cancelled and no deadline call fails.
abbrev pub undisturbed : Conditions
undisturbed = record {
  done_before_header = false;
  clear_deadline_fails = false;
  done_before_body = false;
  arm_deadline_fails = false;
}

abbrev pub frame : Bytes → Bytes
frame payload = frame_header message_type_session_message (length payload) ++ payload

frame_length-header : (t n : ℕ) → n ≤ max_message_size → frame_length (frame_header t n) ≡ n
frame_length-header t n h = omega arith

pub read_full-append :
    (n : ℕ) (front rest : Bytes) (e : Ending)
    → length front ≡ n
    → read_full n (record { incoming = front ++ rest; ending = e })
      ≡ some (front, record { incoming = rest; ending = e })
unfolding read_full
read_full-append n front rest e h = rw (
  le→leb n (length (front ++ rest)) (omega (arith, length-append front rest)),
  take-append n front rest h,
  drop-append n front rest h,
)

-- The payload after a header that has been checked.
pub read_body-append :
    (payload rest : Bytes) (e : Ending)
    → read_body undisturbed (length payload) (record { incoming = payload ++ rest; ending = e })
      ≡ message payload (record { incoming = rest; ending = e })
unfolding read_body
read_body-append [] rest e = refl
read_body-append (x ∷ payload) rest e =
    ground (arith, read_full-append (length (x ∷ payload)) (x ∷ payload) rest e refl)

pub read_packet-header :
    (c : Conditions) (message_type n : ℕ) (rest : Bytes) (e : Ending)
    → n ≤ max_message_size
    → c.done_before_header ≡ false
    → c.clear_deadline_fails ≡ false
    → read_packet c (record { incoming = frame_header message_type n ++ rest; ending = e })
      ≡ read_message c message_type n (record { incoming = rest; ending = e })
unfolding read_packet
read_packet-header c message_type n rest e h d k = simp (
  d,
  k,
  read_full-append 4 (frame_header message_type n) rest e refl,
  frame_length-header message_type n h,
)

-- A frame at the front of the stream is read whole, and nothing after it is touched.
pub read_packet-frame :
    (payload rest : Bytes) (e : Ending)
    → length payload ≤ max_message_size
    → read_packet undisturbed (record { incoming = frame payload ++ rest; ending = e })
      ≡ message payload (record { incoming = rest; ending = e })
unfolding read_message
read_packet-frame payload rest e h =
    read_packet-header undisturbed 0 (length payload) (payload ++ rest) e h refl refl
    ∙ rw (le→ltb max_message_size (length payload) h) (read_body-append payload rest e)

-- Write messages in turn, until one is refused.
pub write_all : List Bytes → Sink → WriteResult
write_all [] s = sent s
write_all (m ∷ ms) s = elim (write_packet false m s) [
  | sent s' ↦ write_all ms s'
  | write_error x s' ↦ write_error x s'
]

-- Read so many messages.
pub read_all : ℕ → Source → Option (List Bytes × Source)
read_all zero s = some ([], s)
read_all (suc n) s = elim (read_packet undisturbed s) [
  | read_error _ _ ↦ none
  | message m s' ↦ Option.map (λ (ms, s''). (m ∷ ms, s'')) (read_all n s')
]

frames : List Bytes → Bytes
frames [] = []
frames (m ∷ ms) = frame m ++ frames ms

-- An undisturbed write puts one whole frame behind what is on the wire.
pub write_packet-frame :
    (m b : Bytes)
    → length m ≤ max_message_size
    → write_packet false m (record { written = b; fault = none })
      ≡ sent (record { written = b ++ frame m; fault = none })
unfolding write_packet write_packet_type
write_packet-frame m b h = rw (le→ltb max_message_size (length m) h)

write_all-frames :
    (ms : List Bytes) (b : Bytes)
    → All (λ m. length m ≤ max_message_size) ms
    → write_all ms (record { written = b; fault = none })
      ≡ sent (record { written = b ++ frames ms; fault = none })
unfolding write_all frames
write_all-frames [] b h = rw append-nil
write_all-frames (m ∷ ms) b h =
    rw (write_packet-frame m b h.0, write_all)
      (write_all-frames ms (b ++ frame m) h.1
        ∙ ap (λ (t : Bytes). sent (record { written = t; fault = none }))
            (append_assoc b (frame m) (frames ms)))

read_all-frames :
    (ms : List Bytes) (rest : Bytes) (e : Ending)
    → All (λ m. length m ≤ max_message_size) ms
    → read_all (length ms) (record { incoming = frames ms ++ rest; ending = e })
      ≡ some (ms, record { incoming = rest; ending = e })
unfolding read_all frames
read_all-frames [] rest e h = refl
read_all-frames (m ∷ ms) rest e h = rw (
  append_assoc (frame m) (frames ms) rest,
  read_packet-frame m (frames ms ++ rest) e h.0,
  read_all,
  read_all-frames ms rest e h.1,
)

-- Messages of at most `MaxMessageSize` bytes that are written to a connection, one after the other,
-- are read back from it: the same messages in the same order, and what was on the wire behind
-- them is left.
pub read_all-write_all :
    (ms : List Bytes) (rest : Bytes) (e : Ending)
    → All (λ m. length m ≤ max_message_size) ms
    → (b : Bytes) × (write_all ms (record { written = []; fault = none })
        ≡ sent (record { written = b; fault = none }))
      × (read_all (length ms) (record { incoming = b ++ rest; ending = e })
          ≡ some (ms, record { incoming = rest; ending = e }))
read_all-write_all ms rest e h = (frames ms, write_all-frames ms [] h, read_all-frames ms rest e h)
