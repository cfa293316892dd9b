-- ===== src/Client/Conn/Routing/Safety.antt =====
-- What the invariant says of replies and of new requests.
use smb1client.Common.{
  ℕ, ◌<◌, ◌≡◌, ◌≢◌, refl, sym, ◌∙◌, Bool, true, false, Option, none, some, ◌==◌, if◌then◌else◌,
  arith, Bool-cases, inl, inr,
}
use smb1client.Common.Dict.{lookup, lookup-nil}
use smb1client.Netbios.{Sink}
use smb1client.Smb1.Packet.{Packet}
use smb1client.Client.Conn.{
  Conn, PendingRequest, reserved, refused, reserve, register, dispatch, deliver, new_conn, offer,
  response_of, reserved_mid, allocate_mid, allocated, exhausted, out_of_fuel, Allocation,
}
use smb1client.Client.Conn.Mids.{Allocates, first_free, allocate_mid-Allocates}
use smb1client.Client.Conn.Routing.{Ticket, Tickets, System, Reach, Inv, Live, Owns}
use smb1client.Client.Conn.Routing.Invariant.{Reach-Inv}
use smb1client.Client.Conn.Routing.Answers.{dispatch_absent, lookup_swept}

-- A connection before its first request.
abbrev pub start : Sink → System
start s = record { conn = new_conn s; tickets = λ _. none }

start-Inv : (s : Sink) → Inv (start s)
unfolding new_conn
start-Inv s = record {
  counter = omega arith;
  swept = λ _. refl;
  live = λ _. record {
    owned = λ m. tt;
    quiet = λ m. tt;
    made = λ m. rw lookup-nil tt;
    apart = λ m n. simp lookup-nil tt;
    unreserved = lookup-nil reserved_mid;
  };
}

-- The request that a reply's ticket belongs to.
abbrev pub IsAnswered : Conn → Packet → Ticket → PendingRequest → Type 0
IsAnswered c p t r =
    (lookup p.header.mid c.pending ≡ some r)
    × (r.resp_ch ≡ t.resp_ch)
    × ((ch : ℕ)
        → (dispatch p c).channels ch ≡ (
            if r.cancelled
            then c.channels ch
            else if t.resp_ch == ch
            then offer (response_of p) (c.channels ch)
            else c.channels ch))

deliver-channels :
    (c : Conn) (p : Packet) (r : PendingRequest) (ch : ℕ)
    → (deliver p (some r) c).channels ch ≡ (
        if r.cancelled
        then c.channels ch
        else if r.resp_ch == ch
        then offer (response_of p) (c.channels ch)
        else c.channels ch)
unfolding deliver
deliver-channels c p r ch = ground arith

-- In every state that is reached from a new connection and is not done, a reply under the ID of a
-- request that the server has still to answer is offered to that request's channel or, once its
-- sender has given up, to none, and no other channel changes; whatever requests were begun,
-- abandoned and settled meanwhile.
pub reply_routed :
    (sink : Sink) {s : System} (t : Ticket) (p : Packet)
    → Reach (start sink) s
    → (s.conn).done ≡ false
    → s.tickets p.header.mid ≡ some t
    → (r : PendingRequest) × IsAnswered s.conn p t r
unfolding dispatch
reply_routed sink {s} t p reach d e =
    found (lookup p.header.mid (s.conn).pending) refl (rw e at (l.owned p.header.mid))
  where
    l : Live s.conn s.tickets
    l = (Reach-Inv reach (start-Inv sink)).live d

    found :
        (o : Option PendingRequest)
        → lookup p.header.mid (s.conn).pending ≡ o
        → Owns (some t) (lookup p.header.mid (s.conn).pending)
        → (r : PendingRequest) × IsAnswered s.conn p t r
    found none h o = absurd (rw h at o)
    found (some r) h o =
        let (same, _) : (r.resp_ch ≡ t.resp_ch) × (r.transaction ≡ t.transaction) = rw h at o in
        (r, (h, same, λ ch. rw (h, ← same) (deliver-channels s.conn p r ch)))

reserve_done :
    (c : Conn) (transaction : Bool) → c.done ≡ true → reserve transaction c ≡ refused c.error c
unfolding reserve
reserve_done c transaction d = simp d

reserve_open :
    (c : Conn) (transaction : Bool)
    → c.done ≡ false
    → reserve transaction c ≡ register transaction (allocate_mid c)
unfolding reserve
reserve_open c transaction d = simp d

registered :
    (c : Conn) (tickets : Tickets) (transaction : Bool) (a : Allocation) {mid ch : ℕ} {c' : Conn}
    → Live c tickets
    → Allocates c.next_mid c a
    → register transaction a ≡ reserved mid ch c'
    → (mid < reserved_mid)
      × (tickets mid ≡ none)
      × ((m : ℕ) (t : Ticket) → tickets m ≡ some t → t.resp_ch ≢ ch)
unfolding register
registered c tickets transaction (allocated n c₁) l (first_free k at_k free before moved) e =
    (ground arith, ground (arith, l.owned n), λ m t h same. ground (arith, l.owned m, l.made m))
registered c tickets transaction (exhausted c₁) l _ e = cc
registered c tickets transaction out_of_fuel l _ e = cc

-- In every state that is reached from a new connection, a new request is given neither the reserved
-- ID nor that of a request whose answer is still on the way, and its channel is no such request's
-- either.
pub new_mid_unanswered :
    (sink : Sink) {s : System} (transaction : Bool) {mid ch : ℕ} {c' : Conn}
    → Reach (start sink) s
    → reserve transaction s.conn ≡ reserved mid ch c'
    → (mid < reserved_mid)
      × (s.tickets mid ≡ none)
      × ((m : ℕ) (t : Ticket) → s.tickets m ≡ some t → t.resp_ch ≢ ch)
new_mid_unanswered sink {s} transaction {mid} {ch} {c'} reach e = elim (Bool-cases (s.conn).done) [
  | inl d ↦ ground (arith, reserve_done s.conn transaction d)
  | inr d ↦
      registered s.conn s.tickets transaction (allocate_mid s.conn) (v.live d)
        (allocate_mid-Allocates s.conn v.counter) (sym (reserve_open s.conn transaction d) ∙ e)
]
  where
    v : Inv s
    v = Reach-Inv reach (start-Inv sink)

-- In every state that is reached from a new connection, a notification that the server sends
-- unbidden, under the reserved ID, changes nothing.
pub notification_ignored :
    (sink : Sink) {s : System} (p : Packet)
    → Reach (start sink) s
    → p.header.mid ≡ reserved_mid
    → dispatch p s.conn ≡ s.conn
notification_ignored sink {s} p reach e =
    dispatch_absent s.conn p (elim (Bool-cases (s.conn).done) [
      | inl d ↦ lookup_swept s.conn p.header.mid (v.swept d)
      | inr d ↦ rw e (v.live d).unreserved
    ])
  where
    v : Inv s
    v = Reach-Inv reach (start-Inv sink)

-- In every state that is reached from a new connection, the channel of a pending request is open,
-- so that sending a reply on it does not panic.
pub pending_channel_open :
    (sink : Sink) {s : System} (mid : ℕ) (r : PendingRequest)
    → Reach (start sink) s
    → lookup mid (s.conn).pending ≡ some r
    → ((s.conn).channels r.resp_ch).closed ≡ false
pending_channel_open sink {s} mid r reach e = elim (Bool-cases (s.conn).done) [
  | inl d ↦ cc (e, lookup_swept s.conn mid (v.swept d))
  | inr d ↦ ground (arith, (v.live d).made mid)
]
  where
    v : Inv s
    v = Reach-Inv reach (start-Inv sink)
