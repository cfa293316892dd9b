-- ===== src/Tests/Conns.antt =====
-- One client on one connection: a request, its reply, and message IDs.
use smb1client.Common.{
  ℕ, zero, suc, List, ◌&&◌, not, ◌≡◌, refl, true, false, none, some, [], ◌∷◌, arith, ◌+◌, ◌%◌, ◌<◌,
  ◌≢◌, ◌⊎◌, ok, err,
}
use smb1client.Common.Dict.{lookup, insert, delete}
use smb1client.Netbios.{Sink}
use smb1client.Smb1.Header.{new_header}
use smb1client.Smb1.Packet.{Packet}
use smb1client.Client.Conn.{
  Response, release, release_on, release_found, close, read_failed, context_done, update_channel,
  empty_channel, mid_count, Conn, new_conn, reserve, reserved, allocate_mid, allocated, exhausted,
  register, allocate_loop, reserved_mid, set_error, PendingRequest,
}
use smb1client.Client.Conn.Mids.{Held, nth_mid, allocate_mid_fresh, allocate_mid_total}
use smb1client.Client.Conn.Routing.{System, Ticket, Reach, here, next, begins, closes, put_ticket}
use smb1client.Client.Conn.Routing.Safety.{
  start, IsAnswered, reply_routed, new_mid_unanswered, pending_channel_open,
}
use smb1client.Client.Conn.Routing.Teardown.{IsKept, done_conn-IsKept}
use smb1client.Client.Calls.{finish_call, finish_settled, timed_out}
use smb1client.Client.Calls.Settled.{
  IsSettled, GivesUp, GivesUpLate, finish_call-IsSettled, finish_settled-IsSettled,
}
use smb1client.Client.File.Collect.{
  WireChunk, collect_replies, begins, reply_found, deadline_passed, connection_done, Found,
}
use smb1client.Client.File.Collect.Waits.{is_waited, is_waited_on, names_request}
use smb1client.Client.File.Collect.Settled.{collect_replies_unwaited}

abbrev quiet_sink : Sink
quiet_sink = record { written = []; fault = none }

-- The connection after its first request, a single-message one.
abbrev one_request : Conn
one_request = record (new_conn quiet_sink) { next_mid = 1 }

first_reserve : allocate_mid (new_conn quiet_sink) ≡ allocated 0 one_request
unfolding allocate_mid allocate_loop new_conn lookup
first_reserve = refl

abbrev first_request : PendingRequest
first_request = record { resp_ch = 0; cancelled = false; transaction = false }

abbrev waiting_conn : Conn
waiting_conn = record one_request {
  channels = update_channel 0 (λ _. empty_channel) (λ _. empty_channel);
  next_channel = 1;
  pending = (0, first_request) ∷ [];
}

abbrev first_ticket : Ticket
first_ticket = record { resp_ch = 0; transaction = false }

abbrev waiting_system : System
waiting_system = record {
  conn = waiting_conn;
  tickets = put_ticket 0 (some first_ticket) (λ _. none);
}

waiting_reserve : reserve false (new_conn quiet_sink) ≡ reserved 0 0 waiting_conn
unfolding reserve register allocate_mid allocate_loop new_conn lookup insert delete
waiting_reserve = refl

waiting_Reach : Reach (start quiet_sink) waiting_system
waiting_Reach = next here (begins false 0 0 waiting_conn waiting_reserve)

abbrev reply : Packet
reply = record { header = record (new_header 0x2B) { mid = 0 }; parameters = []; content = [] }

abbrev notification : Packet
notification = record {
  header = record (new_header 0x24) { mid = 0xFFFF };
  parameters = [];
  content = [];
}

reply_routed_example : (r : PendingRequest) × IsAnswered waiting_conn reply first_ticket r
unfolding new_conn
reply_routed_example = reply_routed quiet_sink first_ticket reply waiting_Reach refl refl

-- A second request, begun while the first is on its way.
abbrev two_requests : Conn
two_requests = record waiting_conn {
  next_mid = 2;
  channels = update_channel 1 (λ _. empty_channel) (waiting_conn.channels);
  next_channel = 2;
  pending =
      (1, record { resp_ch = 1; cancelled = false; transaction = true }) ∷ (0, first_request) ∷ [];
}

second_reserve : reserve true waiting_conn ≡ reserved 1 1 two_requests
unfolding reserve register allocate_mid allocate_loop new_conn lookup insert delete
second_reserve = refl

new_mid_unanswered_example :
    (1 < reserved_mid)
    × (waiting_system.tickets 1 ≡ none)
    × ((m : ℕ) (t : Ticket) → waiting_system.tickets m ≡ some t → t.resp_ch ≢ 1)
new_mid_unanswered_example = new_mid_unanswered quiet_sink true waiting_Reach second_reserve

pending_channel_open_example : (waiting_conn.channels 0).closed ≡ false
unfolding lookup
pending_channel_open_example = pending_channel_open quiet_sink 0 first_request waiting_Reach refl

allocate_mid_fresh_example :
    (0 < reserved_mid)
    × (lookup 0 (new_conn quiet_sink).pending ≡ none)
    × (one_request ≡ record (new_conn quiet_sink) { next_mid = (0 + 1) % mid_count })
    × ((k : ℕ) × (0 ≡ nth_mid (new_conn quiet_sink).next_mid k)
        × ((j : ℕ)
            → j < k
            → Held (nth_mid (new_conn quiet_sink).next_mid j) (new_conn quiet_sink).pending))
unfolding new_conn
allocate_mid_fresh_example = allocate_mid_fresh (new_conn quiet_sink) (omega arith) first_reserve

allocate_mid_total_example :
    ((mid : ℕ) × (c' : Conn) × (allocate_mid waiting_conn ≡ allocated mid c'))
    ⊎ ((c' : Conn) × (allocate_mid waiting_conn ≡ exhausted c')
        × ((m : ℕ) → m < reserved_mid → lookup m waiting_conn.pending ≢ none)
        × (c'.done ≡ true)
        × (c'.socket_closed ≡ true))
allocate_mid_total_example = allocate_mid_total waiting_conn (omega arith)

-- The first request, answered.
abbrev answer : Response
answer = record { packet = some reply; error = none }

abbrev settled_conn : Conn
settled_conn = record waiting_conn { pending = [] }

finish_call-IsSettled_example :
    IsSettled (GivesUp true (ok answer)) 0 first_request waiting_conn settled_conn
unfolding finish_call release release_on release_found lookup delete new_conn
finish_call-IsSettled_example =
    finish_call-IsSettled true 0 0 (ok answer) waiting_conn refl refl refl

-- The first request, given up after both waits.
abbrev abandoned_conn : Conn
abandoned_conn = record waiting_conn {
  pending = (0, record first_request { cancelled = true }) ∷ [];
}

finish_settled-IsSettled_example :
    IsSettled
      (GivesUpLate true timed_out (err context_done))
      0
      first_request
      waiting_conn
      abandoned_conn
unfolding finish_settled release release_on release_found lookup delete insert new_conn
finish_settled-IsSettled_example =
    finish_settled-IsSettled true timed_out 0 0 (err context_done) waiting_conn refl refl refl

-- After a read has failed, the connection is done and its socket open; then it is closed.
abbrev failed_system : System
failed_system = record waiting_system { conn = set_error read_failed waiting_conn }

done_conn-IsKept_example : IsKept failed_system.conn (close failed_system.conn)
unfolding set_error new_conn
done_conn-IsKept_example = done_conn-IsKept {s = failed_system} (next here closes) refl refl

-- Two chunks were on the wire; the first is replied to, the second one is given up on, and another
-- request begins meanwhile.
abbrev second_given_up : ℕ → Found
second_given_up zero = reply_found
second_given_up (suc n) = deadline_passed

second_given_up-up : (j : ℕ) → second_given_up j ≢ connection_done
second_given_up-up zero = λ e. cc
second_given_up-up (suc n) = λ e. cc

abbrev wire_chunks : List WireChunk
wire_chunks = record { mid = 9; resp_ch = 8 } ∷ record { mid = 0; resp_ch = 0 } ∷ []

chunk_left : (is_waited 0 0 waiting_conn && not (names_request 0 0 wire_chunks)) ≡ false
unfolding lookup is_waited_on names_request insert delete
chunk_left = refl

collect_replies_unwaited_example :
    is_waited 0 0
      (collect_replies (λ _. begins false ∷ []) second_given_up 0 wire_chunks waiting_conn)
    ≡ false
collect_replies_unwaited_example =
    collect_replies_unwaited (λ _. begins false ∷ []) second_given_up 0 wire_chunks 0 0 waiting_conn
      second_given_up-up (omega arith) chunk_left
