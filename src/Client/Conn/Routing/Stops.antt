-- ===== src/Client/Conn/Routing/Stops.antt =====
-- The invariant, where a connection stops.
use smb1client.Common.{◌<◌, ◌≡◌, ◌∙◌, refl, true, false, Option, none, some, [], ◌∷◌, arith}
use smb1client.Client.Conn.{
  Conn, ConnError, set_error, close, close_next, close_found, poison, send_failed, netbios_error,
  mid_count,
}
use smb1client.Netbios.{not_sent}
use smb1client.Client.Conn.{Pending}
use smb1client.Client.Conn.Routing.{Tickets, Live, Inv}

pub Inv-done :
    {c : Conn} {tickets : Tickets}
    → c.next_mid < mid_count
    → c.done ≡ true
    → c.pending ≡ []
    → Inv (record { conn = c; tickets = tickets })
Inv-done h d p = record { counter = h; swept = λ _. p; live = λ e. cc }

pub Inv-Live :
    {c : Conn} {tickets : Tickets}
    → c.next_mid < mid_count
    → c.done ≡ false
    → Live c tickets
    → Inv (record { conn = c; tickets = tickets })
Inv-Live h d l = record { counter = h; swept = λ e. cc; live = λ _. l }

pub set_error-Inv :
    (e : ConnError) (c : Conn)
    → (c.done ≡ true → c.pending ≡ [])
    → ((set_error e c).next_mid ≡ c.next_mid)
      × ((set_error e c).done ≡ true)
      × ((set_error e c).pending ≡ [])
unfolding set_error
set_error-Inv e c swept = (ground arith, ground arith, ground arith)

pub close-Inv :
    (c : Conn)
    → (c.done ≡ true → c.pending ≡ [])
    → ((close c).next_mid ≡ c.next_mid) × ((close c).done ≡ true) × ((close c).pending ≡ [])
unfolding close
close-Inv c swept = (ground arith, ground arith, ground arith)

pub torn_down-Inv :
    (c c' : Conn) (tickets : Tickets)
    → c.next_mid < mid_count
    → (c'.next_mid ≡ c.next_mid) × (c'.done ≡ true) × (c'.pending ≡ [])
    → Inv (record { conn = c'; tickets = tickets })
torn_down-Inv c c' tickets h (m, d, p) = Inv-done (rw m h) d p

close_found-Inv :
    (closing : Option Pending) (c : Conn)
    → ((close_found closing c).next_mid ≡ c.next_mid)
      × ((close_found closing c).done ≡ c.done)
      × ((close_found closing c).pending ≡ c.pending)
unfolding close_found
close_found-Inv none c = (refl, refl, refl)
close_found-Inv (some []) c = (refl, refl, refl)
close_found-Inv (some (r ∷ rest)) c = (refl, refl, refl)

pub close_next-Inv :
    (c : Conn) (tickets : Tickets)
    → c.done ≡ true
    → Inv (record { conn = c; tickets = tickets })
    → Inv (record { conn = close_next c; tickets = tickets })
unfolding close_next
close_next-Inv c tickets d v =
    let (m, e, p) = close_found-Inv c.closing c in
    torn_down-Inv c (close_found c.closing c) tickets v.counter (m, e ∙ d, p ∙ v.swept d)

pub poison-Inv :
    (e : Option ConnError) (c : Conn) (tickets : Tickets)
    → Inv (record { conn = c; tickets = tickets })
    → Inv (record { conn = poison e c; tickets = tickets })
unfolding poison
poison-Inv none c tickets v = v
poison-Inv (some (netbios_error not_sent)) c tickets v = v
poison-Inv (some (netbios_error e)) c tickets v =
    torn_down-Inv c (set_error (send_failed e) c) tickets v.counter
      (set_error-Inv (send_failed e) c v.swept)
poison-Inv (some e) c tickets v = v
