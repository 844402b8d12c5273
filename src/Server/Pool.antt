-- ===== src/Server/Pool.antt =====
-- server/db/pool.cpp: the pool of connections. A step is what one thread does while it holds the
-- mutex; `connecting` counts the threads that are between their two locks, and `held` the leases.
pub mod Bounds
use capi_net.Base.{
  ℕ, zero, suc, ◌+◌, ◌-◌, Bool, true, false, not, ◌||◌, Option, none, some, ltb, ◌==◌,
  if◌then◌else◌, ◌≡◌, ◌<◌,
}

-- `created_` and the number of connections in `idle_`, with the connections outside the pool
pub record PoolState : Type 0 where
  pub created : ℕ
  pub idle : ℕ
  pub connecting : ℕ
  pub held : ℕ

-- ConnectionPool::ConnectionPool
abbrev pub new_pool : PoolState
new_pool = record { created = 0; idle = 0; connecting = 0; held = 0 }

-- the condition that `acquire` waits for
unfoldable pub can_acquire : ℕ → PoolState → Bool
can_acquire size s = not (s.idle == 0) || ltb s.created size

-- what follows the wait: an idle connection, or a place for a new one
unfoldable pub take_place : PoolState → PoolState
take_place s =
    if not (s.idle == 0)
    then record s { idle = s.idle - 1; held = s.held + 1 }
    else record s { created = s.created + 1; connecting = s.connecting + 1 }

-- the connection is made outside the lock, or an exception gives the place back
unfoldable pub connect : Bool → PoolState → PoolState
connect true s = record s { connecting = s.connecting - 1; held = s.held + 1 }
connect false s = record s { created = s.created - 1; connecting = s.connecting - 1 }

-- an open connection goes back to the pool, a broken one is dropped
unfoldable pub release : Bool → PoolState → PoolState
release true s = record s { idle = s.idle + 1; held = s.held - 1 }
release false s = record s { created = s.created - 1; held = s.held - 1 }

-- The steps of the threads. A thread connects after it took a place, and releases what it holds.
pub data PoolStep (size : ℕ) : PoolState → PoolState → Type 0 where
  acquires : {s : PoolState} → can_acquire size s ≡ true → PoolStep size s (take_place s)
  connects : {s : PoolState} (ok : Bool) → 0 < s.connecting → PoolStep size s (connect ok s)
  releases : {s : PoolState} (open_ : Bool) → 0 < s.held → PoolStep size s (release open_ s)

pub data PoolRun (size : ℕ) : PoolState → PoolState → Type 0 where
  stays : {s : PoolState} → PoolRun size s s
  then_step : {s t u : PoolState} → PoolRun size s t → PoolStep size t u → PoolRun size s u
