-- ===== src/Client/File/Collect.antt =====
-- internal/client/file.go: `collectReplies` and `abandonChunks`, which settle the requests that a
-- pipelined transfer leaves in flight.
pub mod Waits
pub mod Others
pub mod Settled
use smb1client.Common.{ℕ, ◌+◌, Bool, true, Option, List, [], ◌∷◌}
use smb1client.Common.Dict.{delete}
use smb1client.Wire.{Bytes}
use smb1client.Smb1.Header.{Header}
use smb1client.Client.Conn.{
  Conn, Reservation, reserved, refused, stuck, reserve, transmit, receive, release, close,
  close_next, poison, set_error, ConnError, update_channel,
}
use smb1client.Client.Conn.Routing.{take_message}

-- A chunk on the wire: the message ID and the channel of its request.
pub record WireChunk : Type 0 where
  pub mid : ℕ
  pub resp_ch : ℕ

unfoldable pub abandon_chunks : List WireChunk → Conn → Conn
abandon_chunks [] c = c
abandon_chunks (w ∷ ws) c = abandon_chunks ws (release w.mid w.resp_ch true c)

-- What the `select` of `collectReplies` finds first.
pub data Found : Type 0 where
  reply_found deadline_passed connection_done : Found

abbrev pub collect_reply : WireChunk → Conn → Conn
collect_reply w c = record c {
  channels = update_channel w.resp_ch take_message c.channels;
  pending = delete w.mid c.pending;
}

-- What another goroutine may do to the connection while a reply is awaited; `finishes` is the call of
-- `finish`, and `closes_on` a piece of what follows the locked section of `Close`.
pub data Other : Type 0 where
  begins : Bool → Other
  writes : Bool → ℕ → Header → Bytes → Bytes → Other
  receives : Option Bytes → Other
  finishes : ℕ → ℕ → Bool → Other
  closes closes_on : Other
  breaks : ConnError → Other
  poisons : Option ConnError → Other

abbrev pub conn_of : Reservation → Conn → Conn
conn_of (reserved mid ch c') c = c'
conn_of (refused e c') c = c'
conn_of stuck c = c

unfoldable pub act : Other → Conn → Conn
act (begins transaction) c = conn_of (reserve transaction c) c
act (writes context_is_done mid h params content) c =
    (transmit context_is_done mid h params content c).1
act (receives read) c = receive read c
act (finishes mid ch abandoned) c = release mid ch abandoned c
act closes c = close c
act closes_on c = close_next c
act (breaks e) c = set_error e c
act (poisons e) c = poison e c

unfoldable pub act_all : List Other → Conn → Conn
act_all [] c = c
act_all (o ∷ os) c = act_all os (act o c)

-- `others` is what the other goroutines do while the i-th reply is awaited.
unfoldable pub collect_replies : (ℕ → List Other) → (ℕ → Found) → ℕ → List WireChunk → Conn → Conn
collect_replies others found i [] c = c
collect_replies others found i (w ∷ ws) c = elim (found i) [
  | reply_found ↦ collect_replies others found (i + 1) ws (collect_reply w (act_all (others i) c))
  | deadline_passed ↦ abandon_chunks (w ∷ ws) (act_all (others i) c)
  | connection_done ↦ act_all (others i) c
]
