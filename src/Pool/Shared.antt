-- ===== src/Pool/Shared.antt =====
-- The pool of src/detail/connection_pool.cpp under many tasks: calls that hold a connection, the
-- maintenance, the connecting tasks, and the tasks that close what was deleted. A critical section of
-- `_connections` is one step, and reads the flags and counters of the connections as they are then. So are
-- the tests of `Maintain`, and the deletion behind its `Close`, which waits in between.
pub mod Alone
pub mod Gone
pub mod Objects
pub mod Room
pub mod Returned
pub mod Lost
use cassandra_driver.Base.{
  ℕ, zero, suc, ◌∷◌, ◌⊎◌, ◌++◌, ◌-◌, ◌<◌, ◌≡◌, List, [], map, Bool, true, ◌==◌, if◌then◌else◌,
  Option, none, some, length, Occurs,
}
use mathlib.Core.List.{Mem}
use cassandra_driver.Connection.Streams.{max_streams}
use cassandra_driver.Pool.{
  Connection, ConnectionPool, acquire, acquire_immediate, push, release, delete_connection,
}
use cassandra_driver.Pool.Init.{PoolSettings, Permits, size_semaphore, lock_permit}
use cassandra_driver.Pool.Maintain.{drops_idle}
use cassandra_driver.Pool.Closing.{give_permit}
use cassandra_driver.Pool.Release.{members, held}

-- What `Maintain` does with the connection that it has taken: it has yet to test it, waits for its `Close`,
-- or keeps it, in a call of the ping or not.
pub data Phase : Type 0 where
  holds closing keeps pings : Phase

-- The pool, the connection that `Maintain` holds, what it does with it, the rounds and the closings that it
-- has left, which connections it began to close while a call held them, the `_broken` flags, for each connection the calls that
-- hold it without a stream and those that have one, the permits, the connecting tasks that have one, and
-- the close tasks that gave theirs back.
pub record Shared : Type 0 where
  pub now : ℕ
  pub pool : ConnectionPool
  pub taken : Option Connection
  pub phase : Phase
  pub pool_size : ℕ
  pub drop_left : ℕ
  pub surprised : List ℕ
  pub broken : ℕ → Bool
  pub waiting : ℕ → ℕ
  pub guards : ℕ → ℕ
  pub permits : Permits
  pub connecting : ℕ
  pub closed : ℕ

-- A pool that is about to open.
unfoldable pub unopened : PoolSettings → Shared
unopened settings = record {
  now = 0;
  pool = record { connections = []; deleted = [] };
  taken = none;
  phase = Phase.holds;
  pool_size = 0;
  drop_left = 0;
  surprised = [];
  broken = λ id. Bool.false;
  waiting = λ id. 0;
  guards = λ id. 0;
  permits = size_semaphore settings;
  connecting = 0;
  closed = 0;
}

unfoldable pub bump : ℕ → (ℕ → ℕ) → ℕ → ℕ
bump id f other = if other == id then suc (f other) else f other

pub lower : ℕ → (ℕ → ℕ) → ℕ → ℕ
lower id f other = if other == id then f other - 1 else f other

unfoldable pub raise : ℕ → (ℕ → Bool) → ℕ → Bool
raise id f other = if other == id then true else f other

-- A connection with the flag and the counter that it has now.
unfoldable pub current : Shared → Connection → Connection
current s c = record c { broken = s.broken c.id; used_streams = s.guards c.id }

unfoldable pub current_pool : Shared → ConnectionPool
unfolding current
current_pool s = record s.pool { connections = map (current s) s.pool.connections }

-- The call that `Acquire` gives a connection holds it from then on; it does not with the null pointer.
unfoldable pub held_by : Option Connection → (ℕ → ℕ) → ℕ → ℕ
unfolding bump
held_by none waiting = waiting
held_by (some c) waiting = bump c.id waiting

unfoldable pub acquired : Shared → Shared
unfolding current_pool held_by
acquired s =
    let (found, left) = acquire s.now Bool.false (current_pool s) in
    record s { pool = left; waiting = held_by found s.waiting }

-- Without a connection that is free, `Maintain` leaves its loop.
unfoldable pub rounds_left : Option Connection → ℕ → ℕ
rounds_left none pool_size = 0
rounds_left (some c) pool_size = pool_size

-- A connection that calls hold without a stream is noted.
unfoldable pub note : ℕ → ℕ → List ℕ → List ℕ
note id zero surprised = surprised
note id (suc holders) surprised = id ∷ surprised

-- The objects that the pool has deleted.
abbrev pub deleted_ids : Shared → List ℕ
deleted_ids s = map (λ (c : Connection). c.id) s.pool.deleted

-- Those, and the ones in the pool or with `Maintain`.
abbrev pub object_ids : Shared → List ℕ
object_ids s = map (λ (c : Connection). c.id) (held s.taken ++ members s.pool)

-- The states of a pool with these settings. A new connection is another object than those before it, and
-- a call takes and gives back streams only while its connection is not deleted.
pub data Reaches (settings : PoolSettings) : Shared → Type 0 where
  start : Reaches settings (unopened settings)
  -- `Connect` has its lock; the attempt throws, or it gives a connection.
  connects :
      {s : Shared} (left : Permits)
      → lock_permit s.permits ≡ some left
      → Reaches settings s
      → Reaches settings (record s { permits = left; connecting = suc s.connecting })
  fails :
      {s : Shared} (others : ℕ)
      → s.connecting ≡ suc others
      → Reaches settings s
      → Reaches settings (record s { permits = give_permit s.permits; connecting = others })
  connected :
      {s : Shared} (others : ℕ) (c : Connection)
      → s.connecting ≡ suc others
      → ¬ Mem c.id (object_ids s)
      → Reaches settings s
      → Reaches settings (record s { pool = push s.now (current s c) s.pool; connecting = others })
  -- A call: `Acquire`, then any number of guards one behind the other, and its return.
  acquires : {s : Shared} → Reaches settings s → Reaches settings (acquired s)
  guarded :
      {s : Shared} (id : ℕ)
      → 0 < s.waiting id
      → s.guards id < max_streams
      → ¬ Occurs id (deleted_ids s)
      → Reaches settings s
      → Reaches settings (record s { waiting = lower id s.waiting; guards = bump id s.guards })
  unguarded :
      {s : Shared} (id : ℕ)
      → 0 < s.guards id
      → ¬ Occurs id (deleted_ids s)
      → Reaches settings s
      → Reaches settings (record s { waiting = bump id s.waiting; guards = lower id s.guards })
  returns :
      {s : Shared} (id : ℕ)
      → 0 < s.waiting id
      → Reaches settings s
      → Reaches settings (record s { waiting = lower id s.waiting })
  -- `MarkBroken`, by a call or by the receiver loop.
  breaks :
      {s : Shared} (id : ℕ)
      → Reaches settings s
      → Reaches settings (record s { broken = raise id s.broken })
  -- `Maintain` begins, and takes a connection for a round.
  begins :
      {s : Shared}
      → s.taken ≡ none
      → s.pool_size ≡ 0
      → Reaches settings s
      → Reaches settings (record s { pool_size = length s.pool.connections; drop_left = 1 })
  takes :
      {s : Shared}
      → s.taken ≡ none
      → 0 < s.pool_size
      → Reaches settings s
      → Reaches settings (record s {
        taken = (acquire_immediate s.now (current_pool s)).0;
        phase = Phase.holds;
        pool = (acquire_immediate s.now (current_pool s)).1;
        pool_size = rounds_left (acquire_immediate s.now (current_pool s)).0 s.pool_size;
      })
  -- It finds the connection idle and closes it, which waits, and behind that deletes it.
  drops :
      {s : Shared} (c : Connection)
      → s.taken ≡ some c
      → s.phase ≡ Phase.holds
      → drops_idle s.pool_size settings.min_size s.drop_left (current s c) ≡ true
      → Reaches settings s
      → Reaches settings (record s {
        phase = Phase.closing;
        drop_left = s.drop_left - 1;
        surprised = note c.id (s.waiting c.id) s.surprised;
      })
  deletes :
      {s : Shared} (c : Connection)
      → s.taken ≡ some c
      → s.phase ≡ Phase.closing
      → Reaches settings s
      → Reaches settings (record s {
        taken = none;
        pool_size = s.pool_size - 1;
        pool = delete_connection (current s c) s.pool;
      })
  -- Or it keeps it, pings it, which is a call or two, and releases it. An exception that is not a
  -- RuntimeError ends the rounds.
  spares :
      {s : Shared} (c : Connection)
      → s.taken ≡ some c
      → s.phase ≡ Phase.holds
      → drops_idle s.pool_size settings.min_size s.drop_left (current s c) ≡ Bool.false
      → Reaches settings s
      → Reaches settings (record s { phase = Phase.keeps })
  pings :
      {s : Shared} (c : Connection)
      → s.taken ≡ some c
      → s.phase ≡ Phase.keeps
      → s.guards c.id < max_streams
      → ¬ Occurs c.id (deleted_ids s)
      → Reaches settings s
      → Reaches settings (record s { phase = Phase.pings; guards = bump c.id s.guards })
  pinged :
      {s : Shared} (c : Connection)
      → s.taken ≡ some c
      → s.phase ≡ Phase.pings
      → ¬ Occurs c.id (deleted_ids s)
      → Reaches settings s
      → Reaches settings (record s { phase = Phase.keeps; guards = lower c.id s.guards })
  releases :
      {s : Shared} (c : Connection) (rounds : ℕ)
      → s.taken ≡ some c
      → s.phase ≡ Phase.keeps
      → (rounds ≡ s.pool_size - 1) ⊎ (rounds ≡ 0)
      → Reaches settings s
      → Reaches settings
          (record s { taken = none; pool_size = rounds; pool = release s.now (current s c) s.pool })
  -- The close task of a deleted connection is through.
  closes :
      {s : Shared}
      → s.closed < length s.pool.deleted
      → Reaches settings s
      → Reaches settings (record s { permits = give_permit s.permits; closed = suc s.closed })
  passes : {s : Shared} → Reaches settings s → Reaches settings (record s { now = suc s.now })
