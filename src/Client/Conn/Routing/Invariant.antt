-- ===== src/Client/Conn/Routing/Invariant.antt =====
-- The invariant, over every kind of step.
use smb1client.Common.{
  ℕ, ◌≡◌, Bool, true, false, none, some, if◌then◌else◌, arith, Bool-cases, inl, inr,
}
use smb1client.Smb1.Packet.{Packet}
use smb1client.Client.Conn.{dispatch, set_error, close, update_channel, reserved_mid}
use smb1client.Client.Conn.Routing.{
  Ticket, put_ticket, System, take_message, Step, begins, is_refused, writes, fails_to_write,
  replies, notifies, takes, abandons, settles, breaks, closes, closes_on, poisons, Inv,
}
use smb1client.Client.Conn.Routing.{Reach, here, next}
use smb1client.Client.Conn.Routing.Keep.{Live-take}
use smb1client.Client.Conn.Routing.Stops.{
  close-Inv, set_error-Inv, torn_down-Inv, close_next-Inv, poison-Inv,
}
use smb1client.Client.Conn.Routing.Answers.{
  dispatch-Inv, dispatch_absent, end-Inv, lookup_swept, release-Inv,
}
use smb1client.Client.Conn.Routing.Begins.{put_ticket_self, reserve-Reserves, transmit-Transmits}

replies-Inv :
    (s : System) (t : Ticket) (last : Bool) (p : Packet)
    → Inv s
    → s.tickets p.header.mid ≡ some t
    → (t.transaction ≡ false → last ≡ true)
    → Inv (record {
      conn = dispatch p s.conn;
      tickets = if last then put_ticket p.header.mid none s.tickets else s.tickets;
    })
replies-Inv s t true p v e finishes =
    dispatch-Inv s.conn (put_ticket p.header.mid none s.tickets) p (end-Inv s p.header.mid v)
      (rw put_ticket_self tt)
replies-Inv s t false p v e finishes =
    dispatch-Inv s.conn s.tickets p v (rw e (ground (arith, finishes)))

notifies-Inv :
    (s : System) (p : Packet)
    → Inv s
    → p.header.mid ≡ reserved_mid
    → Inv (record s { conn = dispatch p s.conn })
notifies-Inv s p v e =
    rw
      (dispatch_absent s.conn p (elim (Bool-cases (s.conn).done) [
        | inl d ↦ lookup_swept s.conn p.header.mid (v.swept d)
        | inr d ↦ rw e (v.live d).unreserved
      ]))
      v

takes-Inv :
    (s : System) (ch : ℕ)
    → Inv s
    → Inv (record s {
      conn = record (s.conn) { channels = update_channel ch take_message (s.conn).channels };
    })
takes-Inv s ch v = record {
  counter = v.counter;
  swept = v.swept;
  live = λ d. Live-take s.conn s.tickets (v.live d) ch;
}

-- Every step keeps the invariant.
pub Step-Inv : {s s' : System} → Step s s' → Inv s → Inv s'
Step-Inv {s} (begins transaction mid ch c' e) v =
    rw e at (reserve-Reserves s.conn s.tickets transaction v)
Step-Inv {s} (is_refused transaction x c' e) v =
    rw e at (reserve-Reserves s.conn s.tickets transaction v)
Step-Inv {s} (writes done mid h params content c' e) v =
    rw e at (transmit-Transmits done s.conn s.tickets mid h params content v)
Step-Inv {s} (fails_to_write done mid h params content x c' e) v =
    rw e at (transmit-Transmits done s.conn s.tickets mid h params content v)
Step-Inv {s} (replies t last p e finishes) v = replies-Inv s t last p v e finishes
Step-Inv {s} (notifies p e) v = notifies-Inv s p v e
Step-Inv {s} (takes ch) v = takes-Inv s ch v
Step-Inv {s} (abandons mid ch) v = release-Inv s.conn s.tickets mid ch true v (λ a d. cc)
Step-Inv {s} (settles mid ch gone) v = release-Inv s.conn s.tickets mid ch false v (λ a d. gone d)
Step-Inv {s} (breaks e) v =
    torn_down-Inv s.conn (set_error e s.conn) s.tickets v.counter (set_error-Inv e s.conn v.swept)
Step-Inv {s} closes v =
    torn_down-Inv s.conn (close s.conn) s.tickets v.counter (close-Inv s.conn v.swept)
Step-Inv {s} (closes_on d) v = close_next-Inv s.conn s.tickets d v
Step-Inv {s} (poisons e) v = poison-Inv e s.conn s.tickets v

pub Reach-Inv : {s t : System} → Reach s t → Inv s → Inv t
Reach-Inv here v = v
Reach-Inv (next r st) v = Step-Inv st (Reach-Inv r v)
