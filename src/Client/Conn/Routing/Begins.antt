-- ===== src/Client/Conn/Routing/Begins.antt =====
-- The invariant, as a request is registered and written.
use smb1client.Common.{
  Outcome, ok, err, panic, ℕ, ◌+◌, ◌%◌, ◌≡◌, Bool, true, false, Option, none, some, arith,
  Bool-cases, inl, inr, ==_refl,
}
use smb1client.Common.Dict.{delete-nil}
use smb1client.Wire.{Bytes}
use smb1client.Smb1.Header.{Header}
use smb1client.Netbios.{Sink, WriteResult, sent, write_error}
use smb1client.Smb1.Packet.{PacketError}
use smb1client.Client.Conn.{
  Allocation, Conn, ConnError, reserved, refused, stuck, Reservation, reserve, transmit,
  mids_exhausted, set_error, mid_count, cleanup, register, allocate_mid, allocated, exhausted,
  out_of_fuel, settle_write, write_encoded,
}
use smb1client.Client.Conn.Mids.{Allocates, first_free, all_held, allocate_mid-Allocates}
use smb1client.Client.Conn.Routing.{Ticket, Tickets, put_ticket, Inv}
use smb1client.Client.Conn.Routing.Keep.{Live-counter, Live-register, Live-delete}
use smb1client.Client.Conn.Routing.Stops.{Inv-Live, Inv-done, set_error-Inv, torn_down-Inv}
use smb1client.Client.Conn.Routing.Answers.{end-Inv}

-- What a reservation leaves: the invariant, with a ticket for the new request.
abbrev Reserves : Tickets → Bool → Reservation → Type 0
Reserves tickets transaction (reserved mid ch c') = Inv (record {
  conn = c';
  tickets = put_ticket mid (some (record { resp_ch = ch; transaction = transaction })) tickets;
})
Reserves tickets transaction (refused e c') = Inv (record { conn = c'; tickets = tickets })
Reserves tickets transaction stuck = ⊥

register-Reserves :
    (c : Conn) (tickets : Tickets) (transaction : Bool) (a : Allocation)
    → Inv (record { conn = c; tickets = tickets })
    → c.done ≡ false
    → Allocates c.next_mid c a
    → Reserves tickets transaction (register transaction a)
unfolding register
register-Reserves c tickets transaction (allocated mid c') v d
      (first_free k at_k free before moved) =
    let l = Live-counter c tickets (v.live d) ((mid + 1) % mid_count) in
    rw moved (
      Inv-Live (omega arith) d (
        Live-register (record c { next_mid = (mid + 1) % mid_count }) tickets l mid transaction
          (ground arith) (ground arith)))
register-Reserves c tickets transaction (exhausted c') v d (all_held held torn) = rw torn (
    torn_down-Inv c
      (record (set_error mids_exhausted (record c { next_mid = c.next_mid })) {
        socket_closed = true;
      })
      tickets v.counter (set_error-Inv mids_exhausted c v.swept))
register-Reserves c tickets transaction out_of_fuel v d a = elim a [ ]

pub reserve-Reserves :
    (c : Conn) (tickets : Tickets) (transaction : Bool)
    → Inv (record { conn = c; tickets = tickets })
    → Reserves tickets transaction (reserve transaction c)
unfolding reserve
reserve-Reserves c tickets transaction v = elim (Bool-cases c.done) [
  | inl d ↦ simp d v
  | inr d ↦ simp d (
      register-Reserves c tickets transaction (allocate_mid c) v d
        (allocate_mid-Allocates c v.counter))
]

cleanup-Inv :
    (c : Conn) (tickets : Tickets) (mid : ℕ)
    → Inv (record { conn = c; tickets = tickets })
    → tickets mid ≡ none
    → Inv (record { conn = cleanup mid c; tickets = tickets })
unfolding cleanup
cleanup-Inv c tickets mid v gone = elim (Bool-cases c.done) [
  | inl d ↦ Inv-done v.counter d (rw (v.swept d, delete-nil mid))
  | inr d ↦ Inv-Live v.counter d (Live-delete c tickets (v.live d) mid gone)
]

socket-Inv :
    (c : Conn) (tickets : Tickets) (s : Sink)
    → Inv (record { conn = c; tickets = tickets })
    → Inv (record { conn = record c { socket = s }; tickets = tickets })
socket-Inv c tickets s v = record {
  counter = v.counter;
  swept = v.swept;
  live = λ d.
      let l = v.live d in
      record {
        owned = l.owned;
        quiet = l.quiet;
        made = l.made;
        apart = l.apart;
        unreserved = l.unreserved;
      };
}

-- After a write, successful or not, with the ticket gone in the second case.
abbrev Transmits : ℕ → Tickets → Option ConnError × Conn → Type 0
Transmits mid tickets (none, c') = Inv (record { conn = c'; tickets = tickets })
Transmits mid tickets (some e, c') =
    Inv (record { conn = c'; tickets = put_ticket mid none tickets })

pub put_ticket_self :
    (mid : ℕ) (t : Option Ticket) (tickets : Tickets) → put_ticket mid t tickets mid ≡ t
put_ticket_self mid t tickets = rw ==_refl

unsent-Inv :
    (c : Conn) (tickets : Tickets) (mid : ℕ)
    → Inv (record { conn = c; tickets = tickets })
    → Inv (record { conn = cleanup mid c; tickets = put_ticket mid none tickets })
unsent-Inv c tickets mid v =
    cleanup-Inv c (put_ticket mid none tickets) mid
      (end-Inv (record { conn = c; tickets = tickets }) mid v) (put_ticket_self mid none tickets)

settle_write-Transmits :
    (c : Conn) (tickets : Tickets) (mid : ℕ) (w : WriteResult)
    → Inv (record { conn = c; tickets = tickets })
    → Transmits mid tickets (settle_write mid w c)
unfolding settle_write
settle_write-Transmits c tickets mid (sent s) v = socket-Inv c tickets s v
settle_write-Transmits c tickets mid (write_error e s) v =
    unsent-Inv (record c { socket = s }) tickets mid (socket-Inv c tickets s v)

write_encoded-Transmits :
    (done : Bool) (c : Conn) (tickets : Tickets) (mid : ℕ) (r : Outcome PacketError Bytes)
    → Inv (record { conn = c; tickets = tickets })
    → Transmits mid tickets (write_encoded done mid r c)
unfolding write_encoded
write_encoded-Transmits done c tickets mid (ok packet) v = settle_write-Transmits c tickets mid _ v
write_encoded-Transmits done c tickets mid (err e) v = unsent-Inv c tickets mid v
write_encoded-Transmits done c tickets mid panic v = unsent-Inv c tickets mid v

pub transmit-Transmits :
    (done : Bool) (c : Conn) (tickets : Tickets) (mid : ℕ) (h : Header) (params content : Bytes)
    → Inv (record { conn = c; tickets = tickets })
    → Transmits mid tickets (transmit done mid h params content c)
unfolding transmit
transmit-Transmits done c tickets mid h params content v =
    write_encoded-Transmits done c tickets mid _ v
