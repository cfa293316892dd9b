-- ===== src/Client/Conn/Routing.antt =====
-- Requests, replies and message IDs as an interleaved system: who owns which ID, and where a reply
-- goes. A ticket is the server's side of a request: an answer that it has still to finish.
pub mod Keep
pub mod Stops
pub mod Answers
pub mod Begins
pub mod Invariant
pub mod Safety
pub mod Teardown
use smb1client.Common.{
  ℕ, ◌+◌, ◌<◌, ◌≡◌, ◌≢◌, Bool, true, false, Option, none, some, List, [], ◌∷◌, length, ◌==◌,
  if◌then◌else◌,
}
use smb1client.Common.Dict.{lookup}
use smb1client.Wire.{Bytes}
use smb1client.Smb1.Header.{Header}
use smb1client.Smb1.Packet.{Packet}
use smb1client.Client.Conn.{
  Conn, ConnError, Response, Channel, PendingRequest, Pending, reserved, refused, reserve, transmit,
  dispatch, release, set_error, close, close_next, poison, update_channel, reserved_mid, mid_count,
}

pub record Ticket : Type 0 where
  pub resp_ch : ℕ
  pub transaction : Bool

abbrev pub Tickets : Type 0
Tickets = ℕ → Option Ticket

abbrev pub put_ticket : ℕ → Option Ticket → Tickets → Tickets
put_ticket mid t tickets m = if mid == m then t else tickets m

pub record System : Type 0 where
  pub conn : Conn
  pub tickets : Tickets

-- The waiter on a channel takes its next message.
abbrev pub take_message : Channel → Channel
take_message ch = record ch { queue = elim ch.queue [ [] ↦ [] | _ ∷ rest ↦ rest ] }

-- One step of some goroutine of the client, or of the server. A single-message request is
-- answered once; a transaction by any number of messages, the last of which ends its ticket.
-- `settles` is the call of `finish` by a sender that has the whole reply, or saw the connection go.
-- `closes` is the locked section of `Close`, and each `closes_on` a piece of what follows it; `poisons` is
-- the call of `setError` that follows a failed write, in a locked section of its own.
pub data Step : System → System → Type 0 where
  begins :
      {s : System} (transaction : Bool) (mid ch : ℕ) (c' : Conn)
      → reserve transaction s.conn ≡ reserved mid ch c'
      → Step s (record {
        conn = c';
        tickets =
            put_ticket mid (some (record { resp_ch = ch; transaction = transaction })) s.tickets;
      })
  is_refused :
      {s : System} (transaction : Bool) (e : Option ConnError) (c' : Conn)
      → reserve transaction s.conn ≡ refused e c'
      → Step s (record s { conn = c' })
  writes :
      {s : System} (context_is_done : Bool) (mid : ℕ) (h : Header) (params content : Bytes)
      (c' : Conn)
      → transmit context_is_done mid h params content s.conn ≡ (none, c')
      → Step s (record s { conn = c' })
  fails_to_write :
      {s : System} (context_is_done : Bool) (mid : ℕ) (h : Header) (params content : Bytes)
      (e : ConnError) (c' : Conn)
      → transmit context_is_done mid h params content s.conn ≡ (some e, c')
      → Step s (record { conn = c'; tickets = put_ticket mid none s.tickets })
  replies :
      {s : System} (t : Ticket) (last : Bool) (p : Packet)
      → s.tickets p.header.mid ≡ some t
      → (t.transaction ≡ false → last ≡ true)
      → Step s (record {
        conn = dispatch p s.conn;
        tickets = if last then put_ticket p.header.mid none s.tickets else s.tickets;
      })
  notifies :
      {s : System} (p : Packet)
      → p.header.mid ≡ reserved_mid
      → Step s (record s { conn = dispatch p s.conn })
  takes :
      {s : System} (ch : ℕ)
      → Step s (record s {
        conn = record (s.conn) { channels = update_channel ch take_message (s.conn).channels };
      })
  abandons : {s : System} (mid ch : ℕ) → Step s (record s { conn = release mid ch true s.conn })
  settles :
      {s : System} (mid ch : ℕ)
      → ((s.conn).done ≡ false → s.tickets mid ≡ none)
      → Step s (record s { conn = release mid ch false s.conn })
  breaks : {s : System} (e : ConnError) → Step s (record s { conn = set_error e s.conn })
  closes : {s : System} → Step s (record s { conn = close s.conn })
  closes_on : {s : System} → (s.conn).done ≡ true → Step s (record s { conn = close_next s.conn })
  poisons : {s : System} (e : Option ConnError) → Step s (record s { conn = poison e s.conn })

pub data Reach (s : System) : System → Type 0 where
  here : Reach s s
  next : {t u : System} → Reach s t → Step t u → Reach s u

-- The ID of a ticket is held by the request that the ticket answers.
abbrev pub Owns : Option Ticket → Option PendingRequest → Type 0
Owns none _ = Unit {0}
Owns (some t) none = ⊥
Owns (some t) (some r) = (r.resp_ch ≡ t.resp_ch) × (r.transaction ≡ t.transaction)

-- A single-message request that is not answered yet has nothing in its channel.
abbrev pub IsQuiet : Option Ticket → (ℕ → Channel) → Type 0
IsQuiet none channels = Unit {0}
IsQuiet (some t) channels = t.transaction ≡ false → (channels t.resp_ch).queue ≡ []

-- The channel of a pending request was made, and is open.
abbrev pub IsOpen : Option PendingRequest → (ℕ → Channel) → ℕ → Type 0
IsOpen none channels n = Unit {0}
IsOpen (some r) channels n = (r.resp_ch < n) × ((channels r.resp_ch).closed ≡ false)

abbrev pub IsApart : ℕ → ℕ → Option PendingRequest → Option PendingRequest → Type 0
IsApart m n none _ = Unit {0}
IsApart m n (some r) none = Unit {0}
IsApart m n (some r) (some q) = r.resp_ch ≡ q.resp_ch → m ≡ n

pub record Live (c : Conn) (tickets : Tickets) : Type 0 where
  pub owned : (m : ℕ) → Owns (tickets m) (lookup m c.pending)
  pub quiet : (m : ℕ) → IsQuiet (tickets m) c.channels
  pub made : (m : ℕ) → IsOpen (lookup m c.pending) c.channels c.next_channel
  pub apart : (m n : ℕ) → IsApart m n (lookup m c.pending) (lookup n c.pending)
  pub unreserved : lookup reserved_mid c.pending ≡ none

-- Until the connection is done every open ticket is owned; afterwards nothing is pending.
pub record Inv (s : System) : Type 0 where
  pub counter : (s.conn).next_mid < mid_count
  pub swept : (s.conn).done ≡ true → (s.conn).pending ≡ []
  pub live : (s.conn).done ≡ false → Live s.conn s.tickets
