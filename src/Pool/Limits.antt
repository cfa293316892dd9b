-- ===== src/Pool/Limits.antt =====
-- The limits of the pool: how many sessions it keeps, and how many it counts.
use smb1client.Common.{
  ℕ, zero, suc, ◌+◌, ◌≤◌, ◌≡◌, refl, ap, Bool, ◌||◌, true, Option, none, some, List, [], ◌∷◌, ◌++◌,
  length, leb, ◌==◌, arith, length-append, ◌⊎◌, inl, inr, ◌∙◌, Option-cases, Bool-cases,
}
use smb1client.Common.Int.{ℤ, pos, negsuc, increment, decrement, is_below, AtMost}
use smb1client.Pool.{
  PoolConfig, Pool, PooledSession, normalize, new_pool, close_session, unsnoc, is_alive, get_new,
  can_create, check_taken, take_idle, get_round, dialled, put, remove_first, remove_idle, remove,
  sweep, is_expired, cleanup_expired, close_sessions, close, pool_of, Event, gets, dial_ends, puts,
  removes, cleans_up, closes, step, steps,
}

-- A count of sessions against `MaxActive`, where 0 sets no limit.
abbrev pub Counts : ℕ → ℤ → Type 0
Counts n z = (n ≡ 0) ⊎ AtMost n z

-- Within the limits of a configuration.
pub record IsWithin (c : PoolConfig) (p : Pool) : Type 0 where
  pub same_config : p.config ≡ c
  pub few_idle : length p.idle ≤ c.max_idle
  pub few_active : Counts c.max_active p.active

decrement-AtMost : (n : ℕ) (z : ℤ) → AtMost n z → AtMost n (decrement z)
decrement-AtMost n (pos zero) h = tt
decrement-AtMost n (pos (suc m)) h = omega arith
decrement-AtMost n (negsuc m) h = tt

decrement-Counts : (n : ℕ) (z : ℤ) → Counts n z → Counts n (decrement z)
decrement-Counts n z (inl free) = inl free
decrement-Counts n z (inr h) = inr (decrement-AtMost n z h)

increment-AtMost : (n : ℕ) (z : ℤ) → is_below z n ≡ true → AtMost n (increment z)
increment-AtMost n (pos m) h = ground arith
increment-AtMost n (negsuc zero) h = omega arith
increment-AtMost n (negsuc (suc m)) h = tt

-- Fewer idle sessions, and a count that is the same or one lower.
fewer :
    (c : PoolConfig) (p p' : Pool)
    → IsWithin c p
    → p'.config ≡ p.config
    → length p'.idle ≤ length p.idle
    → (p'.active ≡ p.active) ⊎ (p'.active ≡ decrement p.active)
    → IsWithin c p'
fewer c p p' w e l a = record {
  same_config = e ∙ w.same_config;
  few_idle = let few = w.few_idle in omega arith;
  few_active = elim a [
    | inl same ↦ rw same w.few_active
    | inr less ↦ rw less (decrement-Counts c.max_active p.active w.few_active)
  ];
}

pub unsnoc-some :
    (xs : List ℕ) {front : List ℕ} {y : ℕ} → unsnoc xs ≡ some (front, y) → xs ≡ front ++ (y ∷ [])
unfolding unsnoc
unsnoc-some [] e = absurd (cc)
unsnoc-some (x ∷ xs) e = elim (Option-cases (unsnoc xs)) [
  | inl empty ↦ ground (arith, empty)
  | inr ((rest, last), more) ↦ ground (arith, more, unsnoc-some xs more)
]

counted :
    (c : PoolConfig) (p : Pool)
    → IsWithin c p
    → can_create p ≡ true
    → Counts c.max_active (increment p.active)
counted c p w h =
    let same : p.config.max_active ≡ c.max_active =
      ap (λ (d : PoolConfig). d.max_active) w.same_config in
    elim (Bool-cases (p.config.max_active == 0)) [
      | inl free ↦ inl (ground (arith, free, same))
      | inr bounded ↦ inr (increment-AtMost c.max_active p.active (ground (arith, bounded, same)))
    ]

get_new-IsWithin : (c : PoolConfig) (p : Pool) → IsWithin c p → IsWithin c (pool_of (get_new p))
unfolding get_new pool_of
get_new-IsWithin c p w = elim (Bool-cases (can_create p)) [
  | inl room ↦ simp room (record {
    same_config = w.same_config;
    few_idle = w.few_idle;
    few_active = counted c p w room;
  })
  | inr full ↦ elim (Bool-cases p.config.may_wait) [
    | inl wait ↦ simp (full, wait) w
    | inr give_up ↦ simp (full, give_up) w
  ]
]

check_taken-IsWithin :
    (c : PoolConfig) (health : Option (ℕ → Bool)) (id : ℕ) (p : Pool)
    → IsWithin c p
    → IsWithin c (pool_of (check_taken health id p))
unfolding check_taken pool_of close_session
check_taken-IsWithin c health id p w = elim (Bool-cases (is_alive health id (p.sessions id))) [
  | inl alive ↦ simp alive w
  | inr dead ↦ simp dead (fewer c p _ w refl (omega arith) (inl refl))
]

take_idle-IsWithin :
    (c : PoolConfig) (health : Option (ℕ → Bool)) (now : ℕ) (p : Pool) (r : Option (List ℕ × ℕ))
    → unsnoc p.idle ≡ r
    → IsWithin c p
    → IsWithin c (pool_of (take_idle health now p r))
unfolding take_idle
take_idle-IsWithin c health now p none e w = get_new-IsWithin c p w
take_idle-IsWithin c health now p (some (front, id)) e w =
    let all : length p.idle ≡ length front + 1 =
      ap length (unsnoc-some p.idle e) ∙ length-append front (id ∷ []) in
    check_taken-IsWithin c health id _ (fewer c p _ w refl (omega arith) (inl refl))

get_round-IsWithin :
    (c : PoolConfig) (health : Option (ℕ → Bool)) (now : ℕ) (p : Pool)
    → IsWithin c p
    → IsWithin c (pool_of (get_round health now p))
unfolding get_round pool_of
get_round-IsWithin c health now p w = elim (Bool-cases p.closed) [
  | inl shut ↦ simp shut (fewer c p _ w refl (omega arith) (inl refl))
  | inr opened ↦ simp opened (
      take_idle-IsWithin c health now _ (unsnoc p.idle) refl
        (fewer c p _ w refl (omega arith) (inl refl)))
]

dialled-IsWithin :
    (c : PoolConfig) (r : Option (ℕ × PooledSession)) (p : Pool)
    → IsWithin c p
    → IsWithin c (pool_of (dialled r p))
unfolding dialled pool_of
dialled-IsWithin c none p w = fewer c p _ w refl (omega arith) (inr refl)
dialled-IsWithin c (some (id, s)) p w = fewer c p _ w refl (omega arith) (inl refl)

put-IsWithin : (c : PoolConfig) (now id : ℕ) (p : Pool) → IsWithin c p → IsWithin c (put now id p)
unfolding put close_session
put-IsWithin c now id p w = elim (Bool-cases ((p.sessions id).real_closed || p.closed)) [
  | inl gone ↦ simp gone w
  | inr kept ↦ elim (Bool-cases (p.config.max_idle == 0 || leb p.config.max_idle (length p.idle))) [
    | inl full ↦ simp (kept, full) (fewer c p _ w refl (omega arith) (inr refl))
    | inr room ↦
        simp (kept, room)
          (record {
            same_config = w.same_config;
            few_idle = ground (
              arith,
              room,
              length-append p.idle (id ∷ []),
              ap (λ (d : PoolConfig). d.max_idle) w.same_config,
            );
            few_active = w.few_active;
          })
  ]
]

remove_first-length :
    (id : ℕ) (xs : List ℕ) {rest : List ℕ}
    → remove_first id xs ≡ some rest
    → length xs ≡ suc (length rest)
unfolding remove_first
remove_first-length id [] e = absurd (cc)
remove_first-length id (x ∷ xs) e = elim (Option-cases (remove_first id xs)) [
  | inl absent ↦ ground (arith, absent)
  | inr (more, found) ↦ ground (arith, found, remove_first-length id xs found)
]

remove_idle-IsWithin :
    (c : PoolConfig) (p : Pool) (r : Option (List ℕ))
    → ((rest : List ℕ) → r ≡ some rest → length p.idle ≡ suc (length rest))
    → IsWithin c p
    → IsWithin c (remove_idle p r)
unfolding remove_idle
remove_idle-IsWithin c p none shorter w = w
remove_idle-IsWithin c p (some rest) shorter w =
    let one : length p.idle ≡ suc (length rest) = shorter rest refl in
    fewer c p _ w refl (omega arith) (inr refl)

remove-IsWithin : (c : PoolConfig) (id : ℕ) (p : Pool) → IsWithin c p → IsWithin c (remove id p)
unfolding remove close_session
remove-IsWithin c id p w = elim (Bool-cases (p.sessions id).in_use) [
  | inl lent ↦ simp lent (fewer c p _ w refl (omega arith) (inr refl))
  | inr free ↦ simp free (
      fewer c _ _
        (remove_idle-IsWithin c _ (remove_first id p.idle)
          (λ rest e. remove_first-length id p.idle e) (fewer c p _ w refl (omega arith) (inl refl)))
        refl (omega arith) (inl refl))
]

sweep-IsWithin :
    (c : PoolConfig) (now : ℕ) (ids : List ℕ) (p : Pool)
    → p.config ≡ c
    → length p.idle + length ids ≤ c.max_idle
    → Counts c.max_active p.active
    → IsWithin c (sweep now ids p)
unfolding sweep close_session
sweep-IsWithin c now [] p e few active = record {
  same_config = e;
  few_idle = omega arith;
  few_active = active;
}
sweep-IsWithin c now (id ∷ ids) p e few active = elim (Bool-cases (is_expired p now id)) [
  | inl expired ↦
      simp expired
        (sweep-IsWithin c now ids _ e (omega arith) (decrement-Counts c.max_active p.active active))
  | inr valid ↦ simp valid (
      sweep-IsWithin c now ids _ e
        (let more : length (p.idle ++ (id ∷ [])) ≡ length p.idle + 1 =
            length-append p.idle (id ∷ []) in
          omega arith)
        active)
]

close_sessions-IsWithin :
    (c : PoolConfig) (ids : List ℕ) (p : Pool) → IsWithin c p → IsWithin c (close_sessions ids p)
unfolding close_sessions close_session
close_sessions-IsWithin c [] p w = w
close_sessions-IsWithin c (id ∷ ids) p w =
    close_sessions-IsWithin c ids _ (fewer c p _ w refl (omega arith) (inl refl))

close-IsWithin : (c : PoolConfig) (p : Pool) → IsWithin c p → IsWithin c (close p)
unfolding close
close-IsWithin c p w = elim (Bool-cases p.closed) [
  | inl shut ↦ simp shut w
  | inr opened ↦
      simp opened (close_sessions-IsWithin c p.idle _ (fewer c p _ w refl (omega arith) (inl refl)))
]

step-IsWithin : (c : PoolConfig) (e : Event) (p : Pool) → IsWithin c p → IsWithin c (step e p)
unfolding step cleanup_expired
step-IsWithin c (gets health now) p w = get_round-IsWithin c health now p w
step-IsWithin c (dial_ends r) p w = dialled-IsWithin c r p w
step-IsWithin c (puts now id) p w = put-IsWithin c now id p w
step-IsWithin c (removes id) p w = remove-IsWithin c id p w
step-IsWithin c (cleans_up now) p w =
    let few = w.few_idle in sweep-IsWithin c now p.idle _ w.same_config (omega arith) w.few_active
step-IsWithin c closes p w = close-IsWithin c p w

steps-IsWithin :
    (c : PoolConfig) (es : List Event) (p : Pool) → IsWithin c p → IsWithin c (steps es p)
unfolding steps
steps-IsWithin c [] p w = w
steps-IsWithin c (e ∷ es) p w = steps-IsWithin c es (step e p) (step-IsWithin c e p w)

-- Whatever happens to a new pool, and in whatever order, it never keeps more than `MaxIdle` sessions
-- and, if `MaxActive` is not 0, never counts more than that many; `MaxIdle` is then at most `MaxActive`.
pub new_pool-IsWithin :
    (c : PoolConfig) (sessions : ℕ → PooledSession) (es : List Event)
    → IsWithin (normalize c) (steps es (new_pool c sessions))
      × Counts c.max_active (pos (normalize c).max_idle)
unfolding normalize new_pool
new_pool-IsWithin c sessions es = (
  steps-IsWithin (normalize c) es (new_pool c sessions)
      (record { same_config = refl; few_idle = omega arith; few_active = inr (omega arith) }),
  ground arith,
)
