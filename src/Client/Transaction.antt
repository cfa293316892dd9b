-- ===== src/Client/Transaction.antt =====
-- internal/client/conn.go: waiting for replies, and the reassembly of a transaction's reply.
pub mod Place
pub mod Reassembly
use smb1client.Common.{
  ℕ, zero, suc, ◌+◌, ◌%◌, ◌^◌, ◌≤◌, Bool, true, false, not, ◌&&◌, ◌||◌, Option, none, some, List,
  [], ◌∷◌, ◌++◌, length, ltb, leb, ◌==◌, if◌then◌else◌, replicate, take, drop, Outcome, ok, err,
  panic,
}
use smb1client.Wire.{Bytes}
use smb1client.Smb1.Header.{is_error}
use smb1client.Smb1.Packet.{Packet}
use smb1client.Smb1.Trans2.{Trans2Response, Trans2Error, decode_trans2_response}
use smb1client.Client.Conn.{ConnError, Response, connection_closed}

abbrev pub max_trans2_fragments : ℕ
max_trans2_fragments = 64

pub data TransactionError : Type 0 where
  conn_error : ConnError → TransactionError
  bad_response : Trans2Error → TransactionError
  parameter_overflow data_overflow stalled too_many_fragments : TransactionError

-- What `awaitResponse` makes of a message from the channel. The connection's own error stands in for
-- a wake-up that carries none, and `ErrConnectionClosed` for both.
abbrev pub first_of : Option ConnError → Option ConnError → ConnError
first_of (some e) _ = e
first_of none (some e) = e
first_of none none = connection_closed

unfoldable pub received : Option ConnError → Response → Outcome ConnError Packet
received closed_by r = elim r.packet [ none ↦ err (first_of r.error closed_by) | some p ↦ ok p ]

-- `placeFragment`: an empty fragment is placed nowhere.
unfoldable pub place_fragment :
    TransactionError → Bytes → Bytes → ℕ → Outcome TransactionError Bytes
place_fragment overflow buf [] displacement = ok buf
place_fragment overflow buf (b ∷ frag) displacement =
    if ltb (length buf) (displacement + length (b ∷ frag))
    then err overflow
    else ok (take displacement buf ++ ((b ∷ frag) ++ drop (displacement + length (b ∷ frag)) buf))

-- The variables of the loop, from the first message on.
pub record Assembly : Type 0 where
  pub first : Packet
  pub assembled : Trans2Response
  pub param_buf : Bytes
  pub data_buf : Bytes
  pub got_params : ℕ
  pub got_data : ℕ
  pub want_params : ℕ
  pub want_data : ℕ
  pub fragments_read : ℕ
  pub empty_fragments : ℕ

abbrev pub first_assembly : Packet → Trans2Response → Assembly
first_assembly p frag = record {
  first = p;
  assembled = frag;
  param_buf = replicate frag.total_parameter_count 0;
  data_buf = replicate frag.total_data_count 0;
  got_params = 0;
  got_data = 0;
  want_params = frag.total_parameter_count;
  want_data = frag.total_data_count;
  fragments_read = 0;
  empty_fragments = 0;
}

-- How a round, and the whole function, ends. `complete` is what `finish` is told: whether the
-- server has sent the whole reply. `waiting` is a loop that still wants a message.
pub data Round : Type 0 where
  again : Assembly → Round
  finished : Packet → Trans2Response → Round
  failed : Bool → TransactionError → Round
  waiting panicked : Round

abbrev pub whole_reply : Assembly → Trans2Response
whole_reply a = record (a.assembled) {
  parameters = a.param_buf;
  content = a.data_buf;
  parameter_count = a.want_params % 2 ^ 16;
  data_count = a.want_data % 2 ^ 16;
}

-- The guards behind a fragment that leaves the reply incomplete.
unfoldable pub guard_progress : Trans2Response → Assembly → Round
guard_progress frag a =
    let is_empty = length frag.parameters == 0 && length frag.content == 0 in
    let empty_fragments = if is_empty then a.empty_fragments + 1 else a.empty_fragments in
    let fragments_read = a.fragments_read + 1 in
    if is_empty && ltb 1 empty_fragments
    then failed false stalled
    else if ltb max_trans2_fragments fragments_read
    then failed false too_many_fragments
    else again (record a { fragments_read = fragments_read; empty_fragments = empty_fragments })

unfoldable pub check_complete : Trans2Response → Assembly → Round
check_complete frag a =
    if leb a.want_params a.got_params && leb a.want_data a.got_data
    then finished a.first (whole_reply a)
    else guard_progress frag a

-- Both parts of a message are placed and counted.
unfoldable pub place_data : Trans2Response → Assembly → Outcome TransactionError Bytes → Round
place_data frag a (ok data_buf) = check_complete frag (record a {
  data_buf = data_buf;
  got_params = a.got_params + length frag.parameters;
  got_data = a.got_data + length frag.content;
})
place_data frag a (err e) = failed false e
place_data frag a panic = panicked

unfoldable pub place_parameters : Trans2Response → Assembly → Outcome TransactionError Bytes → Round
place_parameters frag a (ok param_buf) =
    place_data frag (record a { param_buf = param_buf })
      (place_fragment data_overflow a.data_buf frag.content frag.data_displacement)
place_parameters frag a (err e) = failed false e
place_parameters frag a panic = panicked

abbrev pub assembly_of : Option Assembly → Packet → Trans2Response → Assembly
assembly_of none p frag = first_assembly p frag
assembly_of (some a) p frag = a

unfoldable pub add_fragment : Option Assembly → Packet → Outcome Trans2Error Trans2Response → Round
add_fragment state p (err e) = failed (is_error p.header) (bad_response e)
add_fragment state p panic = panicked
add_fragment state p (ok frag) =
    let a = assembly_of state p frag in
    if is_error p.header
    then finished p frag
    else place_parameters frag a
        (place_fragment parameter_overflow a.param_buf frag.parameters frag.parameter_displacement)

-- The loop over what `awaitResponse` returns.
unfoldable pub reassemble : Option Assembly → List (Outcome ConnError Packet) → Round
reassemble state [] = waiting
reassemble state (err e ∷ _) = failed false (conn_error e)
reassemble state (panic ∷ _) = panicked
reassemble state (ok p ∷ rest) =
    elim (add_fragment state p (decode_trans2_response p.parameters p.content)) [
      | again a ↦ reassemble (some a) rest
      | finished first reply ↦ finished first reply
      | failed complete e ↦ failed complete e
      | waiting ↦ waiting
      | panicked ↦ panicked
    ]
