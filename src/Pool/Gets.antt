-- ===== src/Pool/Gets.antt =====
-- `Get`: the end of its loop, and what becomes of dead sessions.
use smb1client.Common.{
  ℕ, zero, suc, ◌+◌, ◌<◌, ◌≡◌, ◌≢◌, refl, ap, sym, Bool, true, false, Option, none, some, List, [],
  ◌∷◌, ◌++◌, length, ◌==◌, ==_iff, arith, length-append, inl, inr, ◌∙◌, Option-cases, Bool-cases,
  All, append_assoc,
}
use smb1client.Pool.{
  Pool, PooledSession, Round, got, retry, dials, waits, fails, pool_exhausted, unsnoc, is_alive,
  get_new, can_create, check_taken, take_idle, get_round, follow, get_rounds, close_session,
  update_session,
}
use smb1client.Pool.Limits.{unsnoc-some}

-- A round that is not the last takes a session off the idle list.
check_taken-retry :
    (health : Option (ℕ → Bool)) (id : ℕ) (p p' : Pool)
    → check_taken health id p ≡ retry p'
    → p'.idle ≡ p.idle
unfolding check_taken close_session
check_taken-retry health id p p' e = elim (Bool-cases (is_alive health id (p.sessions id))) [
  | inl alive ↦ ground (arith, alive)
  | inr dead ↦ ground (arith, dead)
]

take_idle-retry :
    (health : Option (ℕ → Bool)) (now : ℕ) (p p' : Pool) (r : Option (List ℕ × ℕ))
    → unsnoc p.idle ≡ r
    → take_idle health now p r ≡ retry p'
    → length p.idle ≡ suc (length p'.idle)
unfolding take_idle get_new
take_idle-retry health now p p' none e h = ground arith
take_idle-retry health now p p' (some (front, id)) e h =
    let all : length p.idle ≡ length front + 1 =
      ap length (unsnoc-some p.idle e) ∙ length-append front (id ∷ []) in
    let rest : length p'.idle ≡ length front = ap length (check_taken-retry health id _ p' h) in
    omega arith

get_round-retry :
    (health : Option (ℕ → Bool)) (now : ℕ) (p p' : Pool)
    → get_round health now p ≡ retry p'
    → length p.idle ≡ suc (length p'.idle)
unfolding get_round
get_round-retry health now p p' e = elim (Bool-cases p.closed) [
  | inl shut ↦ ground (arith, shut)
  | inr opened ↦ take_idle-retry health now _ p' (unsnoc p.idle) refl (simp opened at e)
]

-- The loop of `Get` ends: one round more than there are idle sessions is always enough.
pub get_rounds_end :
    (health : Option (ℕ → Bool)) (now rounds : ℕ) (p p' : Pool)
    → length p.idle < rounds
    → get_rounds health now rounds p ≢ retry p'
unfolding get_rounds follow
get_rounds_end health now zero p p' h e = absurd (omega arith)
get_rounds_end health now (suc rounds) p p' h e =
    ends (get_round health now p) refl (λ q one. get_rounds_end health now rounds q p' one) e
  where
    ends :
        (r : Round)
        → get_round health now p ≡ r
        → ((q : Pool) → length q.idle < rounds → get_rounds health now rounds q ≢ retry p')
        → follow r (λ q. get_rounds health now rounds q) ≢ retry p'
    ends (got id q) same later e = ground arith
    ends (retry q) same later e =
        let one : length p.idle ≡ suc (length q.idle) = get_round-retry health now p q same in
        later q (omega arith) e
    ends (dials q) same later e = ground arith
    ends (waits q) same later e = ground arith
    ends (fails w q) same later e = ground arith

-- A session that `Get` is about to check, and those that it has not taken.
is_alive-update :
    (health : Option (ℕ → Bool)) (now id j : ℕ) (sessions : ℕ → PooledSession)
    → is_alive health j
        (update_session id (record (sessions id) { in_use = true; last_used = now }) sessions j)
      ≡ is_alive health j (sessions j)
unfolding is_alive
is_alive-update health now id j sessions = elim (Bool-cases (id == j)) [
  | inl same ↦ let e : id ≡ j = (==_iff id j).0 same in rw (same, e)
  | inr other ↦ rw other
]

-- The pool after a dead idle session is dropped: the count stays.
abbrev dropped : ℕ → List ℕ → ℕ → Pool → Pool
dropped now front id p = close_session id (record p {
  signalled = false;
  idle = front;
  sessions =
      update_session id (record (p.sessions id) { in_use = true; last_used = now }) p.sessions;
})

get_round-dead :
    (health : Option (ℕ → Bool)) (now : ℕ) (p : Pool) {front : List ℕ} {id : ℕ}
    → p.closed ≡ false
    → unsnoc p.idle ≡ some (front, id)
    → is_alive health id (p.sessions id) ≡ false
    → get_round health now p ≡ retry (dropped now front id p)
unfolding get_round take_idle check_taken close_session
get_round-dead health now p {front} {id} opened last dead =
    let still : is_alive health id (
          update_session id (record (p.sessions id) { in_use = true; last_used = now }) p.sessions
            id)
        ≡ false =
      is_alive-update health now id id p.sessions ∙ dead in
    rw (opened, last, still)

-- Every session of a list fails the check of `isAlive`.
abbrev pub AreDead : Option (ℕ → Bool) → (ℕ → PooledSession) → List ℕ → Type 0
AreDead health sessions ids = All (λ id. is_alive health id (sessions id) ≡ false) ids

AreDead-update :
    (health : Option (ℕ → Bool)) (now id : ℕ) (sessions : ℕ → PooledSession) (ids : List ℕ)
    → AreDead health sessions ids
    → AreDead health
        (update_session id (record (sessions id) { in_use = true; last_used = now }) sessions)
        ids
AreDead-update health now id sessions [] d = tt
AreDead-update health now id sessions (j ∷ ids) d =
    (is_alive-update health now id j sessions ∙ d.0, AreDead-update health now id sessions ids d.1)

AreDead-split :
    (health : Option (ℕ → Bool)) (sessions : ℕ → PooledSession) (front : List ℕ) (id : ℕ)
    → AreDead health sessions (front ++ (id ∷ []))
    → AreDead health sessions front × (is_alive health id (sessions id) ≡ false)
AreDead-split health sessions [] id d = (tt, d.0)
AreDead-split health sessions (x ∷ front) id d =
    let rest = AreDead-split health sessions front id d.1 in ((d.0, rest.0), rest.1)

-- With nothing idle, no room and no waiting, `Get` gives up.
get_round-full :
    (health : Option (ℕ → Bool)) (now : ℕ) (p : Pool)
    → p.closed ≡ false
    → unsnoc p.idle ≡ none
    → can_create p ≡ false
    → p.config.may_wait ≡ false
    → get_round health now p ≡ fails pool_exhausted (record p { signalled = false })
unfolding get_round take_idle get_new
get_round-full health now p opened empty full hasty = rw (opened, empty, full, hasty)

unsnoc-none : (xs : List ℕ) → unsnoc xs ≡ none → xs ≡ []
unfolding unsnoc
unsnoc-none [] e = refl
unsnoc-none (x ∷ xs) e = elim (Option-cases (unsnoc xs)) [
  | inl empty ↦ ground (arith, empty)
  | inr (r, more) ↦ ground (arith, more)
]

-- What is left of a pool whose idle sessions are all dead and whose count stands at the limit.
pub record Exhausts (p : Pool) (r : Round) : Type 0 where
  pub left : Pool
  pub gives_up : r ≡ fails pool_exhausted left
  pub none_left : left.idle ≡ []
  pub still_counted : left.active ≡ p.active
  pub all_closed : left.closed_sessions ≡ p.idle ++ p.closed_sessions

Exhausts-back :
    (p : Pool) (front : List ℕ) (id now : ℕ) {r : Round}
    → p.idle ≡ front ++ (id ∷ [])
    → Exhausts (dropped now front id p) r
    → Exhausts p r
unfolding close_session
Exhausts-back p front id now parts x = record {
  left = x.left;
  gives_up = x.gives_up;
  none_left = x.none_left;
  still_counted = x.still_counted;
  all_closed =
      x.all_closed
      ∙ sym (
          ap (λ (l : List ℕ). l ++ p.closed_sessions) parts
          ∙ append_assoc front (id ∷ []) p.closed_sessions);
}

-- An open pool at its limit that does not wait, all of whose idle sessions are dead, does not
-- recover: `Get` closes every one of them, counts them all still, and then reports that the pool is
-- exhausted.
pub dead_sessions_exhaust :
    (health : Option (ℕ → Bool)) (now rounds : ℕ) (p : Pool)
    → length p.idle < rounds
    → p.closed ≡ false
    → can_create p ≡ false
    → p.config.may_wait ≡ false
    → AreDead health p.sessions p.idle
    → Exhausts p (get_rounds health now rounds p)
unfolding get_rounds follow close_session
dead_sessions_exhaust health now zero p h opened full hasty dead = absurd (omega arith)
dead_sessions_exhaust health now (suc rounds) p h opened full hasty dead =
    elim (Option-cases (unsnoc p.idle)) [
      | inl empty ↦ rw (get_round-full health now p opened empty full hasty) (record {
        left = record p { signalled = false };
        gives_up = refl;
        none_left = unsnoc-none p.idle empty;
        still_counted = refl;
        all_closed = rw (unsnoc-none p.idle empty);
      })
      | inr ((front, id), last) ↦
          let parts : p.idle ≡ front ++ (id ∷ []) = unsnoc-some p.idle last in
          let split = AreDead-split health p.sessions front id (rw parts at dead) in
          let one : length p.idle ≡ length front + 1 =
            ap length parts ∙ length-append front (id ∷ []) in
          let rest : Exhausts (dropped now front id p)
              (get_rounds health now rounds (dropped now front id p)) =
            dead_sessions_exhaust health now rounds (dropped now front id p) (omega arith) opened
              full hasty (AreDead-update health now id p.sessions front split.0) in
          rw (get_round-dead health now p opened last split.1)
            (Exhausts-back p front id now parts rest)
    ]
