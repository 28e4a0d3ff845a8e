-- ===== src/Pool/Init.antt =====
-- The opening of a pool: the constructor, `Init`, `Connect` and `DoConnect` of
-- src/detail/connection_pool.cpp, over `PoolSettings` of include/cassandra/options.hpp.
-- The connecting tasks run in any order; they stand here in the order in which they ask for the size
-- semaphore for the last time. A connection keeps its permit of that semaphore.
pub mod Size
use cassandra_driver.Base.{
  ℕ, zero, suc, [], Bool, true, false, ltb, leb, ◌==◌, if◌then◌else◌, Option, none, some,
}
use cassandra_driver.Base.Result.{Result, ok, throws, invalid_config}
use cassandra_driver.Pool.{Connection, ConnectionPool, push}

pub record PoolSettings : Type 0 where
  pub min_size : ℕ
  pub max_size : ℕ
  pub max_queue_size : ℕ
  pub connecting_limit : ℕ
  pub prepared_statement_cache_ways : ℕ
  pub prepared_statement_cache_way_size : ℕ
  pub prepared_statement_cache_enabled : Bool

-- The free permits of `_size_semaphore`; `none` is `kUnlimitedConnecting`.
abbrev pub Permits : Type 0
Permits = Option ℕ

-- `_size_semaphore` of the constructor.
unfoldable pub size_semaphore : PoolSettings → Permits
size_semaphore settings =
    if settings.connecting_limit == 0 then none else some settings.connecting_limit

-- A SemaphoreLock: the permits that are left, or no lock.
unfoldable pub lock_permit : Permits → Option Permits
lock_permit none = some none
lock_permit (some zero) = none
lock_permit (some (suc n)) = some (some n)

pub record Opening : Type 0 where
  pub pool : ConnectionPool
  pub permits : Permits

-- `DoConnect`, after the lock of `Connect`. `attempt` is what `Connection::Connect` gives, or `none` if
-- it throws, which gives the permit back.
pub do_connect : ℕ → Option Connection → Opening → Bool × Opening
do_connect now attempt o = elim (lock_permit o.permits) [
  | none ↦ (false, o)
  | some left ↦ elim attempt [
    | none ↦ (false, o)
    | some c ↦ (true, record { pool = push now c o.pool; permits = left })
  ]
]

-- The tasks of `Init`, the last `count` of them.
pub connect_all : ℕ → (ℕ → Option Connection) → ℕ → Opening → Opening
connect_all now attempts zero o = o
connect_all now attempts (suc count) o =
    connect_all now attempts count (do_connect now (attempts count) o).1

-- `Init` of a new pool, once its tasks are through.
pub init : ℕ → PoolSettings → (ℕ → Option Connection) → Result Opening
init now settings attempts =
    if ltb settings.max_size settings.min_size
    then throws invalid_config
    else ok (
        connect_all now attempts settings.min_size (record {
          pool = record { connections = []; deleted = [] };
          permits = size_semaphore settings;
        }))

-- The `try_to_lock` of so many tasks: the permits that are left.
pub take_locks : ℕ → Permits → Permits
take_locks zero permits = permits
take_locks (suc count) permits = elim (lock_permit permits) [
  | none ↦ take_locks count permits
  | some left ↦ take_locks count left
]

-- `Init` in its asynchronous mode: the tasks have their locks, are detached, and push their connections
-- when they are through. What the caller has is the pool before them, and the number of them.
unfoldable pub init_async : PoolSettings → Result (Opening × ℕ)
unfolding take_locks
init_async settings =
    if ltb settings.max_size settings.min_size
    then throws invalid_config
    else ok (
      record {
        pool = record { connections = []; deleted = [] };
        permits = take_locks settings.min_size (size_semaphore settings);
      },
      settings.min_size,
    )

-- `kPendingConnectsMax`
abbrev pub pending_connects_max : ℕ
pending_connects_max = 1

-- `TryCreateConnectionAsync`: whether a task is detached, and the permits behind its `try_to_lock`. The
-- errors of the last seconds and the tasks that are active are arguments.
unfoldable pub try_create_connection_async : ℕ → ℕ → ℕ → Permits → Bool × Permits
try_create_connection_async errors threshold active permits =
    if ltb errors threshold
    then elim (lock_permit permits) [
      | some left ↦ (true, left)
      | none ↦ (leb active pending_connects_max, permits)
    ]
    else (false, permits)
