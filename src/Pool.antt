-- ===== src/Pool.antt =====
-- The connection pool: src/detail/connection_pool.hpp and connection_pool.cpp, over what it asks of
-- a connection (src/detail/connection.hpp and connection_impl.hpp). A call sees one state of the
-- connections: the flags and counters that other tasks change are read once for each call.
pub mod Acquire
pub mod Release
pub mod Client
pub mod Close
pub mod Closing
pub mod Maintain
pub mod Statements
pub mod Init
pub mod Options
pub mod Shared
use cassandra_driver.Base.{
  ℕ, ◌+◌, ◌-◌, List, [], ◌∷◌, ◌++◌, Bool, true, false, not, ◌&&◌, ltb, ◌==◌, if◌then◌else◌, Option,
  none, some,
}

-- A connection: `_broken`, `_expires_at` and the used streams. `id` stands for the object's address.
pub record Connection : Type 0 where
  pub id : ℕ
  pub broken : Bool
  pub expires_at : Option ℕ
  pub used_streams : ℕ

-- `_expires_at.has_value() && SteadyNow() > _expires_at`
unfoldable pub is_expired : ℕ → Connection → Bool
is_expired now c = elim c.expires_at [ none ↦ false | some at ↦ ltb at now ]

unfoldable pub is_idle : Connection → Bool
is_idle c = c.used_streams == 0

-- `_connections`, and the connections that the pool has deleted, in the order of deletion.
pub record ConnectionPool : Type 0 where
  pub connections : List Connection
  pub deleted : List Connection

-- `DeleteConnection`; `DropBrokenConnection` and `DropExpiredConnection` log and call it.
unfoldable pub delete_connection : Connection → ConnectionPool → ConnectionPool
delete_connection c p = record p { deleted = deleted ++ c ∷ [] }
  where
    open p use {deleted}

-- What the first loop of `Acquire` keeps, and what it drops.
unfoldable pub sweep : ℕ → List Connection → List Connection × List Connection
unfolding is_expired is_idle
sweep now [] = ([], [])
sweep now (c ∷ cs) =
    let rest = sweep now cs in
    if c.broken
    then (rest.0, c ∷ rest.1)
    else if is_expired now c && is_idle c
    then (rest.0, c ∷ rest.1)
    else (c ∷ rest.0, rest.1)

-- One round of the second loop.
less_loaded : ℕ → Option Connection → Connection → Option Connection
unfolding is_expired
less_loaded now best c = if is_expired now c then best else elim best [
  | none ↦ some c
  | some b ↦ if ltb c.used_streams b.used_streams then some c else some b
]

unfoldable pub select : ℕ → Option Connection → List Connection → Option Connection
unfolding less_loaded
select now best [] = best
select now best (c ∷ cs) = select now (less_loaded now best c) cs

-- `Acquire`; `reached` is `deadline.IsReached()`. The connection stays in the pool.
unfoldable pub acquire : ℕ → Bool → ConnectionPool → Option Connection × ConnectionPool
unfolding sweep select
acquire now reached p = if reached then (none, p) else (
  select now none (sweep now p.connections).0,
  record {
    connections = (sweep now p.connections).0;
    deleted = p.deleted ++ (sweep now p.connections).1;
  },
)

-- `Push`
unfoldable pub push : ℕ → Connection → ConnectionPool → ConnectionPool
unfolding is_expired is_idle delete_connection
push now c p =
    if is_expired now c && is_idle c
    then delete_connection c p
    else if c.broken
    then delete_connection c p
    else record p { connections = p.connections ++ c ∷ [] }

-- `Release`
pub release : ℕ → Connection → ConnectionPool → ConnectionPool
unfolding push
release now c p =
    if is_expired now c && is_idle c
    then delete_connection c p
    else if c.broken
    then delete_connection c p
    else push now c p

-- The loop of `AcquireImmediate`: the connection taken out, what is left, and what was dropped.
pub record Taken : Type 0 where
  pub taken : Option Connection
  pub left : List Connection
  pub dropped : List Connection

unfoldable pub take_first : ℕ → List Connection → Taken
unfolding is_expired is_idle
take_first now [] = record { taken = none; left = []; dropped = [] }
take_first now (c ∷ cs) =
    let rest = take_first now cs in
    if is_expired now c
    then (if is_idle c
        then record rest { dropped = c ∷ rest.dropped }
        else record rest { left = c ∷ rest.left })
    else if c.broken
    then record rest { dropped = c ∷ rest.dropped }
    else record { taken = some c; left = cs; dropped = [] }

-- `AcquireImmediate`
unfoldable pub acquire_immediate : ℕ → ConnectionPool → Option Connection × ConnectionPool
unfolding take_first
acquire_immediate now p =
    let t = take_first now p.connections in
    (t.taken, record { connections = t.left; deleted = p.deleted ++ t.dropped })
