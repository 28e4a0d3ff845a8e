-- ===== src/Pool/Client.antt =====
-- What the pool asks of a connection (src/detail/connection.hpp) and of the cache of prepared
-- statements (userver's NWayLRU), as parameters, and `CommandControl` of
-- include/cassandra/options.hpp.
use cassandra_driver.Base.{ℕ, ◌≡◌, ◌⊎◌, List, Option, some}
use cassandra_driver.Base.Result.{Result}
use cassandra_driver.Io.{RawBuffer}
use cassandra_driver.Protocol.Requests.{Consistency, QueryParameters, BatchStatement}
use cassandra_driver.Pool.{Connection}

-- `CommandControl::PreparedStatementsOptionOverride`
pub data PreparedStatementsOptionOverride : Type 0 where
  no_override enabled disabled : PreparedStatementsOptionOverride

-- The timeouts are milliseconds.
pub record CommandControl : Type 0 where
  pub network_timeout_ms : ℕ
  pub statement_timeout_ms : ℕ
  pub prepared_statements_enabled : PreparedStatementsOptionOverride

-- `WithExecuteTimeout` and `WithStatementTimeout`: the third argument of the constructor has its default.
unfoldable with_execute_timeout : ℕ → CommandControl → CommandControl
with_execute_timeout n c = record {
  network_timeout_ms = n;
  statement_timeout_ms = c.statement_timeout_ms;
  prepared_statements_enabled = PreparedStatementsOptionOverride.no_override;
}

unfoldable with_statement_timeout : ℕ → CommandControl → CommandControl
with_statement_timeout s c = record {
  network_timeout_ms = c.network_timeout_ms;
  statement_timeout_ms = s;
  prepared_statements_enabled = PreparedStatementsOptionOverride.no_override;
}

abbrev pub OptionalCommandControl : Type 0
OptionalCommandControl = Option CommandControl

-- `World` is the state of the connections' peers and of the clock. Each call runs in it, and may
-- throw. `Rows` is a ResultSet. `refresh` is a connection's flags and counters as they then are.
pub record Client : Type 1 where
  pub World : Type 0
  pub Rows : Type 0
  pub prepare : Connection → RawBuffer → World → Result RawBuffer × World
  pub execute :
      Connection
      → Consistency
      → RawBuffer
      → QueryParameters
      → OptionalCommandControl
      → World
      → Result Rows × World
  pub execute_prepared :
      Connection
      → Consistency
      → RawBuffer
      → QueryParameters
      → OptionalCommandControl
      → World
      → Result Rows × World
  pub batch_execute :
      Connection
      → Consistency
      → List BatchStatement
      → OptionalCommandControl
      → World
      → Result Rows × World
  pub refresh : World → Connection → Connection

-- A connection stays the same object.
abbrev pub KeepsIds : Client → Type 0
KeepsIds k = (w : k.World) (c : Connection) → (k.refresh w c).id ≡ c.id

-- The cache from statements to the ids that the node gave them. A `get` may change what the cache
-- evicts next.
pub record StatementCache : Type 1 where
  pub State : Type 0
  pub get : State → RawBuffer → Option RawBuffer × State
  pub put : State → RawBuffer → RawBuffer → State
  pub invalidate : State → State

-- What NWayLRU documents: an entry is there right after it was put, and a `get` evicts nothing.
pub record CacheDocumented (m : StatementCache) : Type 0 where
  pub get-put : (s : m.State) (text id : RawBuffer) → (m.get (m.put s text id) text).0 ≡ some id
  pub get-get :
      (s : m.State) (text other : RawBuffer) → (m.get (m.get s text).1 other).0 ≡ (m.get s other).0

-- What NWayLRU documents besides: an entry is one that was put, and the last one of its key.
pub record CacheFaithful (m : StatementCache) : Type 0 where
  pub get-put_other :
      (s : m.State) (text id other found : RawBuffer)
      → (m.get (m.put s text id) other).0 ≡ some found
      → ((other ≡ text) × (found ≡ id)) ⊎ ((m.get s other).0 ≡ some found)
