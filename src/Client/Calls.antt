-- ===== src/Client/Calls.antt =====
-- internal/client/conn.go: `awaitResponse`, and what `sendRecv`, `sendRecvSettled` and `send` do once a
-- request has begun. The receive loop may run between the parts.
pub mod Settled
use smb1client.Common.{
  ℕ, Bool, true, false, Option, none, some, List, [], ◌∷◌, Outcome, ok, err, panic, if◌then◌else◌,
}
use smb1client.Wire.{Bytes}
use smb1client.Smb1.Header.{Header}
use smb1client.Smb1.Packet.{PacketError, encode_packet}
use smb1client.Netbios.{WriteResult, sent, write_error, write_packet}
use smb1client.Client.Conn.{
  Conn, ConnError, Response, Allocation, allocated, exhausted, out_of_fuel, allocate_mid,
  mids_exhausted, encode_failed, netbios_error, send_failed, set_error, release, connection_closed,
  context_done,
}
use smb1client.Client.Transaction.{first_of}

-- What `awaitResponse`'s `select` chooses.
pub data Wake : Type 0 where
  arrives : Response → Wake
  context_ends : Wake
  connection_ends : Wake

-- `connError()` of a connection that is done is never nil; a nil error with a nil response would be
-- dereferenced by the caller.
unfoldable pub closed_with : Option ConnError → Outcome ConnError Response
closed_with (some e) = err e
closed_with none = panic

unfoldable pub await_response : Wake → Conn → Outcome ConnError Response
await_response (arrives r) c = elim r.packet [
  | none ↦ err (first_of r.error c.error)
  | some _ ↦ ok r
]
await_response context_ends c = err context_done
await_response connection_ends c = closed_with c.error

-- What a call returns, and the connection after it.
pub data Returned : Type 0 where
  answered : Response → Option ConnError → Conn → Returned
  unanswered : ConnError → Conn → Returned
  crashed : Returned

-- `sendRecv`, from what it waited for on.
unfoldable pub finish_call : Bool → ℕ → ℕ → Outcome ConnError Response → Conn → Returned
finish_call context_is_done mid resp_ch (ok r) c = answered r r.error (release mid resp_ch false c)
finish_call context_is_done mid resp_ch (err e) c =
    unanswered e (release mid resp_ch context_is_done c)
finish_call context_is_done mid resp_ch panic c = crashed

-- `sendRecvSettled`'s second wait, for a reply that is discarded.
pub data Settling : Type 0 where
  late_reply timed_out connection_gone : Settling

abbrev pub is_abandoned : Settling → Bool
is_abandoned late_reply = false
is_abandoned timed_out = true
is_abandoned connection_gone = false

unfoldable pub finish_settled :
    Bool → Settling → ℕ → ℕ → Outcome ConnError Response → Conn → Returned
finish_settled context_is_done settling mid resp_ch (ok r) c =
    answered r r.error (release mid resp_ch false c)
finish_settled context_is_done settling mid resp_ch (err e) c =
    unanswered e (release mid resp_ch (if context_is_done then is_abandoned settling else false) c)
finish_settled context_is_done settling mid resp_ch panic c = crashed

-- `send`: nothing is registered, and the write has no context.
unfoldable pub finish_send : WriteResult → Conn → Option ConnError × Conn
finish_send (sent s) c = (none, record c { socket = s })
finish_send (write_error e s) c =
    (some (netbios_error e), set_error (send_failed e) (record c { socket = s }))

unfoldable pub send_encoded : Outcome PacketError Bytes → Conn → Option ConnError × Conn
send_encoded (ok packet) c = finish_send (write_packet false packet c.socket) c
send_encoded (err e) c = (some (encode_failed e), c)
send_encoded panic c = (some connection_closed, c)

-- `out_of_fuel` is no outcome of `allocateMID`.
unfoldable pub send_allocated : Header → Bytes → Bytes → Conn → Allocation → Option ConnError × Conn
send_allocated header params content before (allocated mid c) =
    send_encoded (encode_packet (some (record header { mid = mid })) params content) c
send_allocated header params content before (exhausted c) = (some mids_exhausted, c)
send_allocated header params content before out_of_fuel = (some mids_exhausted, before)

unfoldable pub send : Header → Bytes → Bytes → Conn → Option ConnError × Conn
send header params content c =
    if c.done then (c.error, c) else send_allocated header params content c (allocate_mid c)
