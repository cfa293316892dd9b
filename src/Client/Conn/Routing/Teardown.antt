-- ===== src/Client/Conn/Routing/Teardown.antt =====
-- What the steps do to a connection that is done.
use smb1client.Common.{
  ℕ, ◌≡◌, refl, ap, ◌∙◌, Bool, true, false, Option, none, some, Outcome, ok, err, panic, arith,
}
use smb1client.Common.Dict.{lookup}
use smb1client.Wire.{Bytes}
use smb1client.Smb1.Header.{Header}
use smb1client.Smb1.Packet.{Packet, PacketError}
use smb1client.Netbios.{WriteResult, write_packet, not_sent}
use smb1client.Client.Conn.{
  Conn, ConnError, Pending, PendingRequest, reserve, transmit, write_encoded, settle_write, cleanup,
  dispatch, deliver, release, release_on, release_found, set_error, close, close_next, close_found,
  poison, netbios_error, send_failed,
}
use smb1client.Client.Conn.Routing.{
  System, Step, Reach, here, next, begins, is_refused, writes, fails_to_write, replies, notifies,
  takes, abandons, settles, breaks, closes, closes_on, poisons,
}

-- Still done, with no `Close` under way, and its socket as it was.
abbrev pub IsKept : Conn → Conn → Type 0
IsKept c c' = (c'.done ≡ true) × (c'.closing ≡ c.closing) × (c'.socket_closed ≡ c.socket_closed)

set_error-IsKept : (e : ConnError) (c : Conn) → c.done ≡ true → IsKept c (set_error e c)
unfolding set_error
set_error-IsKept e c d = ground (arith, d)

close-IsKept : (c : Conn) → c.done ≡ true → IsKept c (close c)
unfolding close
close-IsKept c d = ground (arith, d)

deliver-IsKept :
    (p : Packet) (o : Option PendingRequest) (c : Conn) → c.done ≡ true → IsKept c (deliver p o c)
unfolding deliver
deliver-IsKept p o c d = ground (arith, d)

release-IsKept :
    (mid ch : ℕ) (abandoned : Bool) (c : Conn)
    → c.done ≡ true
    → IsKept c (release mid ch abandoned c)
unfolding release release_on release_found
release-IsKept mid ch abandoned c d = ground (arith, d)

settle_write-IsKept :
    (mid : ℕ) (w : WriteResult) (c : Conn) → c.done ≡ true → IsKept c (settle_write mid w c).1
unfolding settle_write cleanup set_error
settle_write-IsKept mid w c d = ground (arith, d)

write_encoded-IsKept :
    (done : Bool) (mid : ℕ) (o : Outcome PacketError Bytes) (c : Conn)
    → c.done ≡ true
    → IsKept c (write_encoded done mid o c).1
unfolding write_encoded cleanup
write_encoded-IsKept done mid (ok packet) c d =
    settle_write-IsKept mid (write_packet done packet c.socket) c d
write_encoded-IsKept done mid (err e) c d = (d, refl, refl)
write_encoded-IsKept done mid panic c d = (d, refl, refl)

transmit-IsKept :
    (done : Bool) (mid : ℕ) (h : Header) (params content : Bytes) (c : Conn)
    → c.done ≡ true
    → IsKept c (transmit done mid h params content c).1
unfolding transmit
transmit-IsKept done mid h params content c d = write_encoded-IsKept done mid _ c d

transmitted-IsKept :
    (done : Bool) (mid : ℕ) (h : Header) (params content : Bytes) (c c' : Conn)
    {o : Option ConnError}
    → c.done ≡ true
    → transmit done mid h params content c ≡ (o, c')
    → IsKept c c'
transmitted-IsKept done mid h params content c c' d e =
    let same : (transmit done mid h params content c).1 ≡ c' =
      ap (λ (x : Option ConnError × Conn). x.1) e in
    rw same at (transmit-IsKept done mid h params content c d)

idle_conn : (c : Conn) → c.done ≡ true → IsKept c (close_found none c)
unfolding close_found
idle_conn c d = (d, refl, refl)

close_next-IsKept : (c : Conn) → c.done ≡ true → c.closing ≡ none → IsKept c (close_next c)
unfolding close_next
close_next-IsKept c d q = idle c.closing q
  where
    idle : (closing : Option Pending) → closing ≡ none → IsKept c (close_found closing c)
    idle none e = idle_conn c d
    idle (some r) e = absurd (cc)

poison-IsKept : (e : Option ConnError) (c : Conn) → c.done ≡ true → IsKept c (poison e c)
unfolding poison
poison-IsKept none c d = (d, refl, refl)
poison-IsKept (some (netbios_error not_sent)) c d = (d, refl, refl)
poison-IsKept (some (netbios_error e)) c d = set_error-IsKept (send_failed e) c d
poison-IsKept (some e) c d = (d, refl, refl)

Step-IsKept :
    {s t : System}
    → Step s t
    → (s.conn).done ≡ true
    → (s.conn).closing ≡ none
    → IsKept s.conn t.conn
unfolding reserve dispatch
Step-IsKept {s} (begins transaction mid ch c' e) d q = ground (arith, d)
Step-IsKept {s} (is_refused transaction e c' h) d q = ground (arith, d)
Step-IsKept {s} (writes k mid h params content c' e) d q =
    transmitted-IsKept k mid h params content s.conn c' d e
Step-IsKept {s} (fails_to_write k mid h params content e c' h') d q =
    transmitted-IsKept k mid h params content s.conn c' d h'
Step-IsKept {s} (replies t last p h q') d q =
    deliver-IsKept p (lookup p.header.mid (s.conn).pending) s.conn d
Step-IsKept {s} (notifies p h) d q =
    deliver-IsKept p (lookup p.header.mid (s.conn).pending) s.conn d
Step-IsKept {s} (takes ch) d q = (d, refl, refl)
Step-IsKept {s} (abandons mid ch) d q = release-IsKept mid ch true s.conn d
Step-IsKept {s} (settles mid ch h) d q = release-IsKept mid ch false s.conn d
Step-IsKept {s} (breaks e) d q = set_error-IsKept e s.conn d
Step-IsKept {s} closes d q = close-IsKept s.conn d
Step-IsKept {s} (closes_on h) d q = close_next-IsKept s.conn d q
Step-IsKept {s} (poisons e) d q = poison-IsKept e s.conn d

-- Once a connection is done and no `Close` of it is under way, as after an error, then whatever the
-- goroutines go on to do, a `Close` included, it stays done, no `Close` gets past its check, and its
-- socket is closed afterwards just if it was closed before.
pub done_conn-IsKept :
    {s t : System}
    → Reach s t
    → (s.conn).done ≡ true
    → (s.conn).closing ≡ none
    → IsKept s.conn t.conn
done_conn-IsKept here d q = (d, refl, refl)
done_conn-IsKept (next reach step) d q =
    let before = done_conn-IsKept reach d q in
    let after = Step-IsKept step before.0 (before.1 ∙ q) in
    (after.0, after.1 ∙ before.1, after.2 ∙ before.2)
