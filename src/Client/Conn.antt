-- ===== src/Client/Conn.antt =====
-- internal/client/conn.go: message IDs, requests in flight, and the dispatch of replies. Every
-- function here is what one goroutine does while it holds `c.mu`, or between two such sections.
pub mod Mids
pub mod Routing
use smb1client.Common.{
  ℕ, zero, suc, ◌+◌, ◌%◌, ◌^◌, Bool, true, false, not, ◌&&◌, ◌||◌, Option, none, some, List, [],
  ◌∷◌, ◌++◌, length, ltb, ◌==◌, if◌then◌else◌, Outcome, ok, err, panic,
}
use smb1client.Common.Dict.{lookup, insert, delete}
use smb1client.Wire.{Bytes}
use smb1client.Smb1.Header.{Header, is_error}
use smb1client.Smb1.Packet.{PacketError, Packet, encode_packet, decode_packet}
use smb1client.Netbios.{NetbiosError, not_sent, Sink, WriteResult, sent, write_error, write_packet}

abbrev pub response_queue_depth : ℕ
response_queue_depth = 64

abbrev pub reserved_mid : ℕ
reserved_mid = 0xFFFF

abbrev pub mid_count : ℕ
mid_count = 2 ^ 16

-- `send_failed` and `read_failed` wrap what the NetBIOS session returned, `netbios_error` is that
-- error as it is; `status_error` is
-- `StatusToError` of a reply's status.
pub data ConnError : Type 0 where
  connection_closed mids_exhausted context_done read_failed : ConnError
  send_failed netbios_error : NetbiosError → ConnError
  encode_failed : PacketError → ConnError
  status_error : ℕ → ConnError

-- A response with no packet was made up to wake a waiter.
pub record Response : Type 0 where
  pub packet : Option Packet
  pub error : Option ConnError

-- A buffered channel of `responseQueueDepth` slots.
pub record Channel : Type 0 where
  pub queue : List Response
  pub closed : Bool

-- `pendingRequest`; a channel is known by its number in `channels`.
pub record PendingRequest : Type 0 where
  pub resp_ch : ℕ
  pub cancelled : Bool
  pub transaction : Bool

abbrev pub Pending : Type 0
Pending = List (ℕ × PendingRequest)

-- The fields that requests share. `next_channel` numbers the channels that `make` gives;
-- `socket` is the sending side of the NetBIOS session and `socket_closed` its being closed. `closing` is
-- the local variable `pending` of a `Close` that is past its locked section: the requests that it has
-- yet to wake before it closes the socket.
pub record Conn : Type 0 where
  pub next_mid : ℕ
  pub pending : Pending
  pub done : Bool
  pub error : Option ConnError
  pub channels : ℕ → Channel
  pub next_channel : ℕ
  pub socket : Sink
  pub socket_closed : Bool
  pub closing : Option Pending

abbrev pub empty_channel : Channel
empty_channel = record { queue = []; closed = false }

unfoldable pub new_conn : Sink → Conn
new_conn s = record {
  next_mid = 0;
  pending = [];
  done = false;
  error = none;
  channels = λ _. empty_channel;
  next_channel = 0;
  socket = s;
  socket_closed = false;
  closing = none;
}

-- `select { case ch <- resp: default: }`: dropped when the buffer is full.
abbrev pub offer : Response → Channel → Channel
offer r ch =
    if ltb (length ch.queue) response_queue_depth
    then record ch { queue = ch.queue ++ (r ∷ []) }
    else ch

abbrev pub update_channel : ℕ → (Channel → Channel) → (ℕ → Channel) → ℕ → Channel
update_channel k f channels j = if k == j then f (channels j) else channels j

-- Wake every pending request.
unfoldable pub wake_all : Response → Pending → (ℕ → Channel) → ℕ → Channel
wake_all r [] channels = channels
wake_all r ((_, req) ∷ rest) channels =
    wake_all r rest (update_channel req.resp_ch (offer r) channels)

abbrev pub first_error : Option ConnError → ConnError → ConnError
first_error none e = e
first_error (some e') e = e'

-- `setErrorLocked`: only the first error is kept.
unfoldable pub set_error : ConnError → Conn → Conn
set_error e c = if c.done then c else record c {
  error = some (first_error c.error e);
  channels = wake_all (record { packet = none; error = some e }) c.pending c.channels;
  pending = [];
  done = true;
}

-- The locked section of `Close`.
unfoldable pub close : Conn → Conn
close c = if c.done then c else record c {
  done = true;
  error = some connection_closed;
  pending = [];
  closing = some c.pending;
}

-- What follows the locked section of `Close`, one piece at a time: the next request is woken and its
-- channel closed; after the last one the NetBIOS session is closed.
abbrev pub wake_and_close : Channel → Channel
wake_and_close ch = record (offer (record { packet = none; error = some connection_closed }) ch) {
  closed = true;
}

unfoldable pub close_found : Option Pending → Conn → Conn
close_found none c = c
close_found (some []) c = record c { socket_closed = true; closing = none }
close_found (some ((_, req) ∷ rest)) c = record c {
  channels = update_channel req.resp_ch wake_and_close c.channels;
  closing = some rest;
}

unfoldable pub close_next : Conn → Conn
close_next c = close_found c.closing c

-- `out_of_fuel` is no outcome of the source's loop.
pub data Allocation : Type 0 where
  allocated : ℕ → Conn → Allocation
  exhausted : Conn → Allocation
  out_of_fuel : Allocation

abbrev pub is_free : ℕ → Pending → Bool
is_free mid pending =
    not (mid == reserved_mid) && (elim (lookup mid pending) [ none ↦ true | some _ ↦ false ])

-- One pass over the ID space takes `mid_count` rounds.
unfoldable pub allocate_loop : ℕ → ℕ → Conn → Allocation
allocate_loop zero start c = out_of_fuel
allocate_loop (suc fuel) start c =
    let mid = c.next_mid in
    let c' = record c { next_mid = (mid + 1) % mid_count } in
    let again = allocate_loop fuel start c' in
    if is_free mid c.pending
    then allocated mid c'
    else if c'.next_mid == start
    then exhausted (record (set_error mids_exhausted c') { socket_closed = true })
    else again

unfoldable pub allocate_mid : Conn → Allocation
allocate_mid c = allocate_loop mid_count c.next_mid c

-- The locked part of `beginRequest`: the request's ID, its channel and the connection.
pub data Reservation : Type 0 where
  reserved : ℕ → ℕ → Conn → Reservation
  refused : Option ConnError → Conn → Reservation
  stuck : Reservation

unfoldable pub register : Bool → Allocation → Reservation
register transaction (allocated mid c) = reserved mid c.next_channel (record c {
  channels = update_channel c.next_channel (λ _. empty_channel) c.channels;
  next_channel = c.next_channel + 1;
  pending =
      insert mid (record { resp_ch = c.next_channel; cancelled = false; transaction = transaction })
        c.pending;
})
register transaction (exhausted c) = refused (some mids_exhausted) c
register transaction out_of_fuel = stuck

unfoldable pub reserve : Bool → Conn → Reservation
reserve transaction c = if c.done then refused c.error c else register transaction (allocate_mid c)

-- `cleanup`: the request never reached the wire.
unfoldable pub cleanup : ℕ → Conn → Conn
cleanup mid c = record c { pending = delete mid c.pending }

-- The rest of `beginRequest`: encode, write, and clean up after a failure. `none` is success;
-- `EncodePacket` has no run that panics.
unfoldable pub settle_write : ℕ → WriteResult → Conn → Option ConnError × Conn
settle_write mid (sent s) c = (none, record c { socket = s })
settle_write mid (write_error e s) c =
    (some (netbios_error e), cleanup mid (record c { socket = s }))

-- The call of `setError` that follows, in a locked section of its own: only a write that failed, not
-- one that was never begun, poisons the connection.
unfoldable pub poison : Option ConnError → Conn → Conn
poison (some (netbios_error not_sent)) c = c
poison (some (netbios_error e)) c = set_error (send_failed e) c
poison e c = c

unfoldable pub write_encoded : Bool → ℕ → Outcome PacketError Bytes → Conn → Option ConnError × Conn
write_encoded context_is_done mid (err e) c = (some (encode_failed e), cleanup mid c)
write_encoded context_is_done mid panic c = (some connection_closed, cleanup mid c)
write_encoded context_is_done mid (ok packet) c =
    settle_write mid (write_packet context_is_done packet c.socket) c

unfoldable pub transmit : Bool → ℕ → Header → Bytes → Bytes → Conn → Option ConnError × Conn
transmit context_is_done mid header params content c =
    write_encoded context_is_done mid
      (encode_packet (some (record header { mid = mid })) params content) c

abbrev pub response_of : Packet → Response
response_of p = record {
  packet = some p;
  error = if is_error p.header then some (status_error p.header.status) else none;
}

-- What the receive loop does with a reply, under `c.mu`.
unfoldable pub deliver : Packet → Option PendingRequest → Conn → Conn
deliver p none c = c
deliver p (some req) c =
    if req.cancelled
    then (if req.transaction then c else record c { pending = delete p.header.mid c.pending })
    else record c { channels = update_channel req.resp_ch (offer (response_of p)) c.channels }

unfoldable pub dispatch : Packet → Conn → Conn
dispatch p c = deliver p (lookup p.header.mid c.pending) c

-- One round of `Receive`: what `ReadPacket` returned, or `none` for its error. A malformed packet is
-- discarded. The deferred `Close` that follows an error finds the connection done.
unfoldable pub receive : Option Bytes → Conn → Conn
receive read c = if c.done then close c else elim read [
  | none ↦ close (set_error read_failed c)
  | some raw ↦ elim (decode_packet raw) [ ok p ↦ dispatch p c | _ ↦ c ]
]

-- `releaseLocked`, once the request has been found in the map.
unfoldable pub release_found : ℕ → PendingRequest → Bool → Conn → Conn
release_found mid req abandoned c =
    if not abandoned || (ltb 0 (length (c.channels req.resp_ch).queue) && not req.transaction)
    then record c { pending = delete mid c.pending }
    else record c { pending = insert mid (record req { cancelled = true }) c.pending }

-- A request that is no longer in the map, or whose ID has another request's channel, is settled.
unfoldable pub release_on : ℕ → ℕ → Bool → Option PendingRequest → Conn → Conn
release_on mid resp_ch abandoned none c = c
release_on mid resp_ch abandoned (some req) c =
    if req.resp_ch == resp_ch then release_found mid req abandoned c else c

unfoldable pub release : ℕ → ℕ → Bool → Conn → Conn
release mid resp_ch abandoned c = release_on mid resp_ch abandoned (lookup mid c.pending) c
