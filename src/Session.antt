-- ===== src/Session.antt =====
-- Sessions: include/cassandra/session.hpp, src/session.cpp, src/session_impl.hpp and
-- src/session_impl.cpp. A session has a pool for each node, with the pool's cache of statements.
pub mod Nodes
pub mod Args
pub mod Topology
pub mod Typed
pub mod Sound
pub mod Usable
pub mod Upkeep
pub mod Maintained
pub mod History
pub mod Events
pub mod Batches
use cassandra_driver.Base.{ℕ, List, [], ◌∷◌, map, Bool, Option, none, some}
use cassandra_driver.Base.Result.{Result, ok, throws, fault, stuck, session_error, ◌>>=◌}
use cassandra_driver.Io.{RawBuffer}
use cassandra_driver.Io.Cells.{CellType}
use cassandra_driver.Protocol.Requests.{Consistency, QueryParameters}
use cassandra_driver.Rows.{Tuple}
use cassandra_driver.Queries.{Query, get_statement, static_parameters, BatchQueryStore}
use cassandra_driver.Pool.{Connection, ConnectionPool}
use cassandra_driver.Pool.Client.{Client, StatementCache, CommandControl, OptionalCommandControl}
use cassandra_driver.Pool.Init.{PoolSettings, Opening, init_async}
use cassandra_driver.Pool.Statements.{Called, execute, batch_execute}
use cassandra_driver.Pool.Maintain.{maintain}
use cassandra_driver.Session.Nodes.{NodeDescription}

module _ (client : Client) (cache : StatementCache) where
  -- A `ConnectionPool` with its `_description`, `_prepared_statements_map` and
  -- `_prepared_statements_cache_enabled`.
  pub record PoolState : Type 0 where
    pub description : NodeDescription
    pub pool : ConnectionPool
    pub statements : cache.State
    pub cache_enabled : Bool

  -- `_pools`
  abbrev pub SessionImpl : Type 0
  SessionImpl = List PoolState

  -- How a call ends, the session, and the peers behind it.
  pub record Ended : Type 0 where
    pub outcome : Result client.Rows
    pub session : SessionImpl
    pub world : client.World

  -- The pool as a call finds it: with the flags and counters that its connections have then.
  pub found : client.World → ConnectionPool → ConnectionPool
  found w pool = record pool { connections = map (client.refresh w) pool.connections }

  -- A call of the pool of `FindPool`, which is the first; `front()` of no pools is undefined.
  pub on_first :
      (PoolState → Called client cache client.Rows × ConnectionPool)
      → SessionImpl
      → client.World
      → Ended
  on_first call [] w = record { outcome = fault; session = []; world = w }
  on_first call (p ∷ ps) w =
      let (r, pool) = call p in
      record {
        outcome = r.outcome;
        session = record p { pool = pool; statements = r.statements } ∷ ps;
        world = r.world;
      }

  -- `Session::DoExecute` and `SessionImpl::Execute`
  pub do_execute :
      ℕ
      → Consistency
      → Query
      → QueryParameters
      → OptionalCommandControl
      → SessionImpl
      → client.World
      → Ended
  unfolding on_first found get_statement
  do_execute now level query params control session w =
      on_first
        (λ p.
          execute client cache now p.cache_enabled level (get_statement query) params control
            (found w p.pool) p.statements w)
        session w

  -- `Session::Execute` with an optional command control, on which the other overloads call.
  pub execute_args :
      ℕ
      → (ts : List CellType) → Consistency
      → OptionalCommandControl
      → Query
      → Tuple ts
      → SessionImpl
      → client.World
      → Ended
  unfolding do_execute
  execute_args now ts level control query args session w = elim (static_parameters ts args) [
    | ok params ↦ do_execute now level query params control session w
    | throws e ↦ record { outcome = throws e; session = session; world = w }
    | fault ↦ record { outcome = fault; session = session; world = w }
    | stuck ↦ record { outcome = stuck; session = session; world = w }
  ]

  -- `Session::Execute` with no command control, and with one.
  unfoldable pub execute_default :
      ℕ → (ts : List CellType) → Consistency → Query → Tuple ts → SessionImpl → client.World → Ended
  unfolding execute_args
  execute_default now ts level query args session w =
      execute_args now ts level none query args session w

  unfoldable pub execute_controlled :
      ℕ
      → (ts : List CellType) → Consistency
      → CommandControl
      → Query
      → Tuple ts
      → SessionImpl
      → client.World
      → Ended
  unfolding execute_args
  execute_controlled now ts level control query args session w =
      execute_args now ts level (some control) query args session w

  -- `SessionImpl::BatchExecute`
  pub execute_store :
      ℕ → BatchQueryStore → OptionalCommandControl → SessionImpl → client.World → Ended
  unfolding on_first found
  execute_store now store control session w =
      on_first
        (λ p.
          batch_execute client cache now p.cache_enabled store.consistency store.queries control
            (found w p.pool) p.statements w)
        session w

  -- `Session::BatchExecute`, without a command control and with one.
  pub session_batch : ℕ → BatchQueryStore → SessionImpl → client.World → Ended
  unfolding execute_store
  session_batch now store session w = execute_store now store none session w

  unfoldable pub session_batch_controlled :
      ℕ → BatchQueryStore → CommandControl → SessionImpl → client.World → Ended
  unfolding execute_store
  session_batch_controlled now store control session w =
      execute_store now store (some control) session w

  -- `Maintain` of the first pool, as its periodic task calls it. Nothing counts `_wait_count` up.
  pub maintain_first : ℕ → ℕ → SessionImpl → client.World → SessionImpl × client.World
  unfolding found
  maintain_first now min_size [] w = ([], w)
  maintain_first now min_size (p ∷ ps) w =
      let m = (maintain client cache now min_size 0 (found w p.pool) p.statements w).1 in
      (record p { pool = m.pool; statements = m.statements } ∷ ps, m.world)

  -- The loop of `CreateTopology`: each node's pool is opened asynchronously, with an empty cache.
  pub create_pools : PoolSettings → cache.State → List NodeDescription → Result SessionImpl
  create_pools settings empty [] = ok []
  create_pools settings empty (node ∷ nodes) = init_async settings >>= λ (opening, tasks).
      create_pools settings empty nodes >>= λ pools. ok (
        record {
          description = node;
          pool = opening.pool;
          statements = empty;
          cache_enabled = settings.prepared_statement_cache_enabled;
        }
        ∷ pools)

  -- `SessionImpl::SessionImpl` and `CreateTopology`
  pub create_topology : PoolSettings → cache.State → List NodeDescription → Result SessionImpl
  unfolding create_pools
  create_topology settings empty [] = throws session_error
  create_topology settings empty (node ∷ nodes) = create_pools settings empty (node ∷ nodes)
