-- ===== src/Tests/Pools.antt =====
-- A pool of one session that has died.
use smb1client.Common.{refl, true, false, none, [], ◌∷◌, arith}
use smb1client.Common.Int.{pos}
use smb1client.Pool.{
  PoolConfig, PooledSession, Pool, new_pool, normalize, steps, gets, dial_ends, puts, cleans_up,
  closes, get_rounds, is_alive,
}
use smb1client.Pool.Limits.{IsWithin, Counts, new_pool-IsWithin}
use smb1client.Pool.Gets.{dead_sessions_exhaust, Exhausts}

abbrev config : PoolConfig
config = record { max_idle = 5; max_active = 1; idle_timeout = 300; may_wait = false }

abbrev dead_session : PooledSession
dead_session = record {
  last_used = 0;
  in_use = false;
  real_closed = true;
  has_session = true;
  has_tcp = true;
}

-- One session is kept, it is counted, and it is dead.
abbrev dead_pool : Pool
dead_pool = record {
  config = config;
  idle = 7 ∷ [];
  active = pos 1;
  closed = false;
  signalled = false;
  sessions = λ _. dead_session;
  closed_sessions = [];
}

new_pool-IsWithin_example :
    IsWithin (normalize config) (
      steps
        (gets none 1 ∷ dial_ends none ∷ puts 2 7 ∷ cleans_up 400 ∷ closes ∷ [])
        (new_pool config (λ _. dead_session)))
    × Counts 1 (pos (normalize config).max_idle)
new_pool-IsWithin_example =
    new_pool-IsWithin config (λ _. dead_session)
      (gets none 1 ∷ dial_ends none ∷ puts 2 7 ∷ cleans_up 400 ∷ closes ∷ [])

dead_sessions_exhaust_example : Exhausts dead_pool (get_rounds none 1 2 dead_pool)
unfolding is_alive
dead_sessions_exhaust_example =
    dead_sessions_exhaust none 1 2 dead_pool (omega arith) refl refl refl (refl, tt)
