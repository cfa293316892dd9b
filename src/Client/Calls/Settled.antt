-- ===== src/Client/Calls/Settled.antt =====
-- What a call leaves of its request when it returns.
use smb1client.Common.{
  ℕ, ◌<◌, ◌≡◌, ◌⊎◌, inl, inr, Bool, true, false, not, ◌&&◌, Option, none, some, length, ltb,
  Outcome, ok, err, panic, arith, ==_refl, Bool-cases,
}
use smb1client.Common.Dict.{lookup, lookup-insert, lookup-delete}
use smb1client.Client.Conn.{
  Conn, ConnError, Response, PendingRequest, release, release_on, release_found,
}
use smb1client.Client.Calls.{
  Returned, answered, unanswered, crashed, finish_call, finish_settled, Settling, late_reply,
  timed_out, connection_gone,
}

-- The connection that a call leaves, if it returns.
abbrev pub conn_after : Returned → Option Conn
conn_after (answered r e c) = some c
conn_after (unanswered e c) = some c
conn_after crashed = none

-- A sender gives up if its context has ended and the wait brought it no reply; one that waits on, only
-- if the second wait timed out as well.
pub data GivesUp : Bool → Outcome ConnError Response → Type 0 where
  gives_up : {e : ConnError} → GivesUp true (err e)

pub data GivesUpLate : Bool → Settling → Outcome ConnError Response → Type 0 where
  gives_up_late : {e : ConnError} → GivesUpLate true timed_out (err e)

GivesUp-ok : (d : Bool) (x : Response) → ¬ GivesUp d (ok x)
GivesUp-ok true x g = elim g [ ]
GivesUp-ok false x g = elim g [ ]

GivesUpLate-ok : (d : Bool) (t : Settling) (x : Response) → ¬ GivesUpLate d t (ok x)
GivesUpLate-ok true timed_out x g = elim g [ ]
GivesUpLate-ok true late_reply x g = elim g [ ]
GivesUpLate-ok true connection_gone x g = elim g [ ]
GivesUpLate-ok false t x g = elim g [ ]

-- A message waits in the channel of a request that one message answers.
abbrev pub IsReplied : PendingRequest → Conn → Type 0
IsReplied r c = (0 < length (c.channels r.resp_ch).queue) × (r.transaction ≡ false)

-- The ID is free if the sender did not give up, or its reply is there; it is held by the request,
-- marked as cancelled, if the sender gave up and its reply is not there.
abbrev pub IsSettled : Type 0 → ℕ → PendingRequest → Conn → Conn → Type 0
IsSettled GaveUp mid r c c' =
    (lookup mid c'.pending ≡ none) × ((¬ GaveUp) ⊎ IsReplied r c)
    ⊎ (lookup mid c'.pending ≡ some (record r { cancelled = true })) × GaveUp × (¬ IsReplied r c)

release_mine :
    (c : Conn) (mid ch : ℕ) (r : PendingRequest) (abandoned : Bool)
    → lookup mid c.pending ≡ some r
    → r.resp_ch ≡ ch
    → release mid ch abandoned c ≡ release_found mid r abandoned c
unfolding release release_on
release_mine c mid ch r abandoned h e = rw (h, ← e, ==_refl r.resp_ch)

-- A release that is no abandonment frees the ID; one that is keeps it unless the reply is there.
kept_mine :
    {GaveUp : Type 0} (c : Conn) {c' : Conn} (mid ch : ℕ) (r : PendingRequest)
    → lookup mid c.pending ≡ some r
    → r.resp_ch ≡ ch
    → (¬ GaveUp)
    → release mid ch false c ≡ c'
    → IsSettled GaveUp mid r c c'
unfolding release_found
kept_mine c mid ch r h own stays e =
    rw (← e, release_mine c mid ch r false h own)
      (inl (ground (arith, lookup-delete mid mid c.pending), inl stays))

left_mine :
    {GaveUp : Type 0} (c : Conn) {c' : Conn} (mid ch : ℕ) (r : PendingRequest)
    → lookup mid c.pending ≡ some r
    → r.resp_ch ≡ ch
    → GaveUp
    → release mid ch true c ≡ c'
    → IsSettled GaveUp mid r c c'
unfolding release_found
left_mine c mid ch r h own gave e =
    rw (← e, release_mine c mid ch r true h own)
      (elim (Bool-cases (ltb 0 (length (c.channels r.resp_ch).queue) && not r.transaction)) [
        | inl replied ↦ inl (
          ground (arith, replied, lookup-delete mid mid c.pending),
          inr (ground (arith, replied), ground (arith, replied)),
        )
        | inr waiting ↦ inr (
          ground (arith, waiting, lookup-insert mid mid (record r { cancelled = true }) c.pending),
          gave,
          λ (some_reply, single). ground (arith, waiting, some_reply, single),
        )
      ])

-- When a call returns whose request was pending, the sender gave up just if its context had ended and
-- it had taken no reply. If it did not give up, or the reply has come meanwhile, its message ID is free
-- again; otherwise the ID stays held by the request, marked as cancelled.
pub finish_call-IsSettled :
    (context_is_done : Bool) (mid ch : ℕ) (o : Outcome ConnError Response) (c : Conn) {c' : Conn}
    {r : PendingRequest}
    → lookup mid c.pending ≡ some r
    → r.resp_ch ≡ ch
    → conn_after (finish_call context_is_done mid ch o c) ≡ some c'
    → IsSettled (GivesUp context_is_done o) mid r c c'
unfolding finish_call
finish_call-IsSettled d mid ch (ok x) c {c'} {r} h own e =
    kept_mine c {c' = c'} mid ch r h own (GivesUp-ok d x) (ground (arith, e))
finish_call-IsSettled true mid ch (err x) c {c'} {r} h own e =
    left_mine c {c' = c'} mid ch r h own gives_up (ground (arith, e))
finish_call-IsSettled false mid ch (err x) c {c'} {r} h own e =
    kept_mine c {c' = c'} mid ch r h own (λ g. elim g [ ]) (ground (arith, e))
finish_call-IsSettled d mid ch panic c h own e = absurd (cc)

-- When a call returns that waits on for the reply to its pending request, the sender gave up just if
-- its context had ended, it had taken no reply and the second wait timed out. If it did not give up,
-- or the reply has come meanwhile, its message ID is free again; otherwise the ID stays held by the
-- request, marked as cancelled.
pub finish_settled-IsSettled :
    (context_is_done : Bool) (settling : Settling) (mid ch : ℕ) (o : Outcome ConnError Response)
    (c : Conn) {c' : Conn} {r : PendingRequest}
    → lookup mid c.pending ≡ some r
    → r.resp_ch ≡ ch
    → conn_after (finish_settled context_is_done settling mid ch o c) ≡ some c'
    → IsSettled (GivesUpLate context_is_done settling o) mid r c c'
unfolding finish_settled
finish_settled-IsSettled d t mid ch (ok x) c {c'} {r} h own e =
    kept_mine c {c' = c'} mid ch r h own (GivesUpLate-ok d t x) (ground (arith, e))
finish_settled-IsSettled false t mid ch (err x) c {c'} {r} h own e =
    kept_mine c {c' = c'} mid ch r h own (λ g. elim g [ ]) (ground (arith, e))
finish_settled-IsSettled true late_reply mid ch (err x) c {c'} {r} h own e =
    kept_mine c {c' = c'} mid ch r h own (λ g. elim g [ ]) (ground (arith, e))
finish_settled-IsSettled true connection_gone mid ch (err x) c {c'} {r} h own e =
    kept_mine c {c' = c'} mid ch r h own (λ g. elim g [ ]) (ground (arith, e))
finish_settled-IsSettled true timed_out mid ch (err x) c {c'} {r} h own e =
    left_mine c {c' = c'} mid ch r h own gives_up_late (ground (arith, e))
finish_settled-IsSettled d t mid ch panic c h own e = absurd (cc)
