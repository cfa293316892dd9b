-- ===== src/Pool.antt =====
-- pool.go: the connection pool. Every function is one section of the source that holds `p.mu`, with
-- the calls that follow it outside the lock.
pub mod Limits
pub mod Gets
use smb1client.Common.{
  ℕ, zero, suc, ◌+◌, ◌-◌, Bool, true, false, not, ◌&&◌, ◌||◌, Option, none, some, List, [], ◌∷◌,
  ◌++◌, length, ltb, leb, ◌==◌, if◌then◌else◌,
}
use smb1client.Common.Int.{ℤ, pos, increment, decrement, is_below}

pub data PoolError : Type 0 where
  pool_closed pool_exhausted context_done create_failed : PoolError

-- `WaitTimeout` is 0 or not; what the timer does is the environment's choice.
pub record PoolConfig : Type 0 where
  pub max_idle : ℕ
  pub max_active : ℕ
  pub idle_timeout : ℕ
  pub may_wait : Bool

-- The clamps of `NewConnectionPool`; negative limits become 0 before.
unfoldable pub normalize : PoolConfig → PoolConfig
normalize c =
    if ltb 0 c.max_active && ltb c.max_active c.max_idle
    then record c { max_idle = c.max_active }
    else c

-- A session's bookkeeping. The session and the TCP connection are there or nil.
pub record PooledSession : Type 0 where
  pub last_used : ℕ
  pub in_use : Bool
  pub real_closed : Bool
  pub has_session : Bool
  pub has_tcp : Bool

-- Sessions are known by number. `idle` is in the source's order, the most recently used last;
-- `signalled` is the one slot of `waitChan`; `closed_sessions` is the log of `closeSession`.
pub record Pool : Type 0 where
  pub config : PoolConfig
  pub idle : List ℕ
  pub active : ℤ
  pub closed : Bool
  pub signalled : Bool
  pub sessions : ℕ → PooledSession
  pub closed_sessions : List ℕ

unfoldable pub new_pool : PoolConfig → (ℕ → PooledSession) → Pool
new_pool c sessions = record {
  config = normalize c;
  idle = [];
  active = pos 0;
  closed = false;
  signalled = false;
  sessions = sessions;
  closed_sessions = [];
}

abbrev pub update_session : ℕ → PooledSession → (ℕ → PooledSession) → ℕ → PooledSession
update_session k s sessions j = if k == j then s else sessions j

unfoldable pub close_session : ℕ → Pool → Pool
close_session id p = record p { closed_sessions = id ∷ p.closed_sessions }

-- The last element and those before it.
unfoldable pub unsnoc : List ℕ → Option (List ℕ × ℕ)
unsnoc [] = none
unsnoc (x ∷ xs) = elim (unsnoc xs) [ none ↦ some ([], x) | some (front, y) ↦ some (x ∷ front, y) ]

-- `health` is the configured callback, as whether it answers `(true, nil)`.
unfoldable pub is_alive : Option (ℕ → Bool) → ℕ → PooledSession → Bool
is_alive health id s =
    if s.real_closed
    then false
    else if not s.has_tcp || not s.has_session
    then false
    else elim health [ none ↦ true | some check ↦ check id ]

-- One round of `Get`'s loop, up to the point where it returns, waits, or dials.
pub data Round : Type 0 where
  got : ℕ → Pool → Round
  retry : Pool → Round
  dials : Pool → Round
  waits : Pool → Round
  fails : PoolError → Pool → Round

abbrev pub can_create : Pool → Bool
can_create p = p.config.max_active == 0 || is_below p.active p.config.max_active

-- With no idle session: reserve a place for a new one, or wait, or give up.
unfoldable pub get_new : Pool → Round
get_new p =
    if can_create p
    then dials (record p { active = increment p.active })
    else if p.config.may_wait
    then waits p
    else fails pool_exhausted p

-- A session that was taken from the idle list is checked outside the lock.
unfoldable pub check_taken : Option (ℕ → Bool) → ℕ → Pool → Round
check_taken health id p =
    if is_alive health id (p.sessions id) then got id p else retry (close_session id p)

unfoldable pub take_idle : Option (ℕ → Bool) → ℕ → Pool → Option (List ℕ × ℕ) → Round
take_idle health now p none = get_new p
take_idle health now p (some (front, id)) = check_taken health id (record p {
  idle = front;
  sessions =
      update_session id (record (p.sessions id) { in_use = true; last_used = now }) p.sessions;
})

unfoldable pub get_round : Option (ℕ → Bool) → ℕ → Pool → Round
get_round health now p =
    let p' = record p { signalled = false } in
    if p.closed then fails pool_closed p' else take_idle health now p' (unsnoc p.idle)

-- The loop of `Get` until it returns, waits or dials, in at most so many rounds.
unfoldable pub follow : Round → (Pool → Round) → Round
follow (retry p) next = next p
follow (got id p) next = got id p
follow (dials p) next = dials p
follow (waits p) next = waits p
follow (fails e p) next = fails e p

unfoldable pub get_rounds : Option (ℕ → Bool) → ℕ → ℕ → Pool → Round
get_rounds health now zero p = retry p
get_rounds health now (suc rounds) p =
    follow (get_round health now p) (λ p'. get_rounds health now rounds p')

-- What dialling ends in: a new session, or an error that gives the place back.
unfoldable pub dialled : Option (ℕ × PooledSession) → Pool → Round
dialled none p = fails create_failed (record p { active = decrement p.active })
dialled (some (id, s)) p = got id (record p { sessions = update_session id s p.sessions })

-- `put`, with the signal to one waiter.
unfoldable pub put : ℕ → ℕ → Pool → Pool
put now id p =
    if (p.sessions id).real_closed || p.closed
    then p
    else let sessions =
        update_session id (record (p.sessions id) { in_use = false; last_used = now }) p.sessions in
      if p.config.max_idle == 0 || leb p.config.max_idle (length p.idle)
      then close_session id (record p { active = decrement p.active; sessions = sessions })
      else record p { idle = p.idle ++ (id ∷ []); signalled = true; sessions = sessions }

-- The idle list without the first place of `id`; nothing if it is not there.
unfoldable pub remove_first : ℕ → List ℕ → Option (List ℕ)
remove_first id [] = none
remove_first id (x ∷ xs) =
    if x == id
    then some xs
    else (elim (remove_first id xs) [ none ↦ none | some rest ↦ some (x ∷ rest) ])

unfoldable pub remove_idle : Pool → Option (List ℕ) → Pool
remove_idle p none = p
remove_idle p (some rest) = record p { idle = rest; active = decrement p.active }

unfoldable pub remove : ℕ → Pool → Pool
remove id p =
    let s = p.sessions id in
    let gone =
      λ (b : Bool). update_session id (record s { real_closed = true; in_use = b }) p.sessions in
    close_session id (
      if s.in_use
      then record p { active = decrement p.active; sessions = gone false }
      else remove_idle (record p { sessions = gone false }) (remove_first id p.idle))

-- `cleanupExpired`, one idle session after the other; `now.Sub(lastUsed)` past the timeout.
abbrev pub is_expired : Pool → ℕ → ℕ → Bool
is_expired p now id = ltb p.config.idle_timeout (now - (p.sessions id).last_used)

unfoldable pub sweep : ℕ → List ℕ → Pool → Pool
sweep now [] p = p
sweep now (id ∷ ids) p = sweep now ids (
    if is_expired p now id
    then close_session id (record p { active = decrement p.active })
    else record p { idle = p.idle ++ (id ∷ []) })

unfoldable pub cleanup_expired : ℕ → Pool → Pool
cleanup_expired now p = sweep now p.idle (record p { idle = [] })

unfoldable pub close_sessions : List ℕ → Pool → Pool
close_sessions [] p = p
close_sessions (id ∷ ids) p = close_sessions ids (close_session id p)

unfoldable pub close : Pool → Pool
close p = if p.closed then p else close_sessions p.idle (record p { closed = true; idle = [] })

-- The pool that a round leaves.
unfoldable pub pool_of : Round → Pool
pool_of (got id p) = p
pool_of (retry p) = p
pool_of (dials p) = p
pool_of (waits p) = p
pool_of (fails e p) = p

-- What may happen to a pool, in the order in which its lock is taken.
pub data Event : Type 0 where
  gets : Option (ℕ → Bool) → ℕ → Event
  dial_ends : Option (ℕ × PooledSession) → Event
  puts : ℕ → ℕ → Event
  removes : ℕ → Event
  cleans_up : ℕ → Event
  closes : Event

unfoldable pub step : Event → Pool → Pool
step (gets health now) p = pool_of (get_round health now p)
step (dial_ends r) p = pool_of (dialled r p)
step (puts now id) p = put now id p
step (removes id) p = remove id p
step (cleans_up now) p = cleanup_expired now p
step closes p = close p

unfoldable pub steps : List Event → Pool → Pool
steps [] p = p
steps (e ∷ es) p = steps es (step e p)
