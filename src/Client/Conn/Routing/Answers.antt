-- ===== src/Client/Conn/Routing/Answers.antt =====
-- The invariant, as replies are dispatched and requests are released.
use smb1client.Common.{
  ℕ, ◌≡◌, refl, ◌∙◌, Bool, true, false, not, ◌&&◌, Option, none, some, [], length, ltb, ◌==◌, arith,
  Bool-cases, inl, inr,
}
use smb1client.Common.Dict.{lookup, lookup-nil}
use smb1client.Smb1.Packet.{Packet}
use smb1client.Client.Conn.{
  Conn, PendingRequest, dispatch, deliver, release, release_found, release_on, response_of,
}
use smb1client.Client.Conn.Routing.{Tickets, put_ticket, System, Live, Inv}
use smb1client.Client.Conn.Routing.Keep.{TakesMore, Live-delete, Live-cancel, Live-end, Live-offer}
use smb1client.Client.Conn.Routing.Stops.{Inv-Live}

-- Delivery, where the map has `found` for the reply's ID.
deliver-Live :
    (c : Conn) (tickets : Tickets) (p : Packet) (found : Option PendingRequest)
    → Live c tickets
    → lookup p.header.mid c.pending ≡ found
    → TakesMore (tickets p.header.mid)
    → Live (deliver p found c) tickets
unfolding deliver
deliver-Live c tickets p none v e more = v
deliver-Live c tickets p (some r) v e more = elim (Bool-cases r.cancelled) [
  | inr waiting ↦ rw waiting (Live-offer c tickets v p.header.mid r (response_of p) e more)
  | inl gone ↦ elim (Bool-cases r.transaction) [
    | inl several ↦ rw (gone, several) v
    | inr single ↦
        rw (gone, single)
          (Live-delete c tickets v p.header.mid (ground (arith, v.owned p.header.mid, more)))
  ]
]

deliver-kept :
    (p : Packet) (found : Option PendingRequest) (c : Conn)
    → ((deliver p found c).next_mid ≡ c.next_mid) × ((deliver p found c).done ≡ c.done)
unfolding deliver
deliver-kept p none c = (refl, refl)
deliver-kept p (some r) c = (ground arith, ground arith)

pub lookup_swept : (c : Conn) (mid : ℕ) → c.pending ≡ [] → lookup mid c.pending ≡ none
lookup_swept c mid e = rw (e, lookup-nil mid)

-- A reply whose ID no request holds changes nothing.
pub dispatch_absent :
    (c : Conn) (p : Packet) → lookup p.header.mid c.pending ≡ none → dispatch p c ≡ c
unfolding dispatch deliver
dispatch_absent c p e = rw e

pub dispatch-Inv :
    (c : Conn) (tickets : Tickets) (p : Packet)
    → Inv (record { conn = c; tickets = tickets })
    → TakesMore (tickets p.header.mid)
    → Inv (record { conn = dispatch p c; tickets = tickets })
unfolding dispatch
dispatch-Inv c tickets p v more = elim (Bool-cases c.done) [
  | inl d ↦ rw (dispatch_absent c p (lookup_swept c p.header.mid (v.swept d))) v
  | inr d ↦
      let (same_counter, same_done) = deliver-kept p (lookup p.header.mid c.pending) c in
      Inv-Live (rw same_counter v.counter) (same_done ∙ d)
        (deliver-Live c tickets p (lookup p.header.mid c.pending) (v.live d) refl more)
]

pub end-Inv :
    (s : System) (mid : ℕ) → Inv s → Inv (record s { tickets = put_ticket mid none s.tickets })
end-Inv s mid v = record {
  counter = v.counter;
  swept = v.swept;
  live = λ d. Live-end s.conn s.tickets (v.live d) mid;
}

release_found-Live :
    (c : Conn) (tickets : Tickets) (mid : ℕ) (r : PendingRequest) (abandoned : Bool)
    → Live c tickets
    → lookup mid c.pending ≡ some r
    → (abandoned ≡ false → tickets mid ≡ none)
    → Live (release_found mid r abandoned c) tickets
unfolding release_found
release_found-Live c tickets mid r true v e settled =
    elim (Bool-cases (ltb 0 (length (c.channels r.resp_ch).queue) && not r.transaction)) [
      | inl answered ↦
          rw answered (Live-delete c tickets v mid (ground (arith, v.owned mid, v.quiet mid)))
      | inr waiting ↦ rw waiting (Live-cancel c tickets v mid r e)
    ]
release_found-Live c tickets mid r false v e settled = Live-delete c tickets v mid (settled refl)

release_found-kept :
    (mid : ℕ) (r : PendingRequest) (abandoned : Bool) (c : Conn)
    → ((release_found mid r abandoned c).next_mid ≡ c.next_mid)
      × ((release_found mid r abandoned c).done ≡ c.done)
unfolding release_found
release_found-kept mid r abandoned c = (ground arith, ground arith)

release_on-Inv :
    (c : Conn) (tickets : Tickets) (mid ch : ℕ) (abandoned : Bool) (found : Option PendingRequest)
    → Inv (record { conn = c; tickets = tickets })
    → lookup mid c.pending ≡ found
    → (abandoned ≡ false → c.done ≡ false → tickets mid ≡ none)
    → Inv (record { conn = release_on mid ch abandoned found c; tickets = tickets })
unfolding release_on
release_on-Inv c tickets mid ch abandoned none v e settled = v
release_on-Inv c tickets mid ch abandoned (some r) v e settled =
    elim (Bool-cases (r.resp_ch == ch)) [
      | inr other ↦ rw other v
      | inl same ↦
          let (same_counter, same_done) = release_found-kept mid r abandoned c in
          elim (Bool-cases c.done) [
            | inl d ↦ cc (e, lookup_swept c mid (v.swept d))
            | inr d ↦ rw same (
                Inv-Live (rw same_counter v.counter) (same_done ∙ d)
                  (release_found-Live c tickets mid r abandoned (v.live d) e (λ a. settled a d)))
          ]
    ]

pub release-Inv :
    (c : Conn) (tickets : Tickets) (mid ch : ℕ) (abandoned : Bool)
    → Inv (record { conn = c; tickets = tickets })
    → (abandoned ≡ false → c.done ≡ false → tickets mid ≡ none)
    → Inv (record { conn = release mid ch abandoned c; tickets = tickets })
unfolding release
release-Inv c tickets mid ch abandoned v settled =
    release_on-Inv c tickets mid ch abandoned (lookup mid c.pending) v refl settled
