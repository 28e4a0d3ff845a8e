-- ===== src/Pool/Statements.antt =====
-- `Execute` and `BatchExecute` of src/detail/connection_pool.cpp: which statements are prepared, and
-- which ids are sent. A call through the null pointer that `Acquire` may answer with is a `fault`.
pub mod Again
pub mod Keeps
pub mod Steps
use cassandra_driver.Base.{ℕ, List, [], ◌∷◌, Bool, true, false, if◌then◌else◌, Option, none, some}
use cassandra_driver.Base.Result.{Result, ok, throws, fault, stuck}
use cassandra_driver.Io.{RawBuffer}
use cassandra_driver.Protocol.Requests.{
  Consistency, QueryParameters, BatchStatement, by_string, by_id,
}
use cassandra_driver.Queries.{BatchQuery}
use cassandra_driver.Pool.{Connection, ConnectionPool, acquire}
use cassandra_driver.Pool.Client.{
  Client, StatementCache, CommandControl, OptionalCommandControl, PreparedStatementsOptionOverride,
}

-- `CanPrepareStatement`
unfoldable pub can_prepare_statement : OptionalCommandControl → Bool → Bool
can_prepare_statement none enabled = enabled
can_prepare_statement (some control) enabled = elim control.prepared_statements_enabled [
  | PreparedStatementsOptionOverride.no_override ↦ enabled
  | PreparedStatementsOptionOverride.enabled ↦ true
  | PreparedStatementsOptionOverride.disabled ↦ false
]

module _ (client : Client) (cache : StatementCache) where
  -- How a call ends, and the cache and the peers behind it.
  pub record Called (A : Type 0) : Type 0 where
    pub outcome : Result A
    pub statements : cache.State
    pub world : client.World

  abbrev pub calls : {A : Type 0} → cache.State → Result A × client.World → Called A
  calls s r = record { outcome = r.0; statements = s; world = r.1 }

  -- The id for a statement: from the cache, or prepared and put into it.
  unfoldable pub prepared_id :
      Option Connection → RawBuffer → cache.State → client.World → Called RawBuffer
  prepared_id conn text s w =
      let (found, s') = cache.get s text in
      elim found [
        | some id ↦ record { outcome = ok id; statements = s'; world = w }
        | none ↦ elim conn [
          | none ↦ record { outcome = fault; statements = s'; world = w }
          | some c ↦
              let (r, w') = client.prepare c text w in
              elim r [
                | ok id ↦ record { outcome = ok id; statements = cache.put s' text id; world = w' }
                | throws e ↦ record { outcome = throws e; statements = s'; world = w' }
                | fault ↦ record { outcome = fault; statements = s'; world = w' }
                | stuck ↦ record { outcome = stuck; statements = s'; world = w' }
              ]
        ]
      ]

  -- `conn->` of a call that runs behind the preparation of its statements.
  pub then_call :
      {A B : Type 0}
      → Called A
      → Option Connection
      → (A → Connection → client.World → Result B × client.World)
      → Called B
  then_call p conn call = elim p.outcome [
    | ok a ↦ elim conn [
      | none ↦ record { outcome = fault; statements = p.statements; world = p.world }
      | some c ↦ calls p.statements (call a c p.world)
    ]
    | throws e ↦ record { outcome = throws e; statements = p.statements; world = p.world }
    | fault ↦ record { outcome = fault; statements = p.statements; world = p.world }
    | stuck ↦ record { outcome = stuck; statements = p.statements; world = p.world }
  ]

  -- The loop of `BatchExecute` that prepares its queries in order.
  unfoldable pub prepare_batch :
      Option Connection
      → List BatchQuery
      → cache.State
      → client.World
      → Called (List BatchStatement)
  prepare_batch conn [] s w = record { outcome = ok []; statements = s; world = w }
  prepare_batch conn ((text, params) ∷ queries) s w =
      let first = prepared_id conn text s w in
      let rest = prepare_batch conn queries first.statements first.world in
      elim first.outcome [
        | ok id ↦ elim rest.outcome [
          | ok statements ↦ record rest { outcome = ok (by_id id params ∷ statements) }
          | throws e ↦ rest
          | fault ↦ rest
          | stuck ↦ rest
        ]
        | throws e ↦ record {
          outcome = throws e;
          statements = first.statements;
          world = first.world;
        }
        | fault ↦ record { outcome = fault; statements = first.statements; world = first.world }
        | stuck ↦ record { outcome = stuck; statements = first.statements; world = first.world }
      ]

  -- The loop of `BatchExecute` that sends its queries as text.
  unfoldable pub text_batch : List BatchQuery → List BatchStatement
  text_batch [] = []
  text_batch ((text, params) ∷ queries) = by_string text params ∷ text_batch queries

  module _ (now : ℕ) (cache_enabled : Bool) where
    -- `Execute`
    pub execute :
        Consistency
        → RawBuffer
        → QueryParameters
        → OptionalCommandControl
        → ConnectionPool
        → cache.State
        → client.World
        → Called client.Rows × ConnectionPool
    execute level text params control pool s w =
        let (conn, pool') = acquire now false pool in
        (
          if can_prepare_statement control cache_enabled
              then then_call (prepared_id conn text s w) conn
                  (λ id c. client.execute_prepared c level id params control)
              else then_call (record { outcome = ok text; statements = s; world = w }) conn
                  (λ query c. client.execute c level query params control),
          pool',
        )

    -- `BatchExecute`
    pub batch_execute :
        Consistency
        → List BatchQuery
        → OptionalCommandControl
        → ConnectionPool
        → cache.State
        → client.World
        → Called client.Rows × ConnectionPool
    batch_execute level queries control pool s w =
        let (conn, pool') = acquire now false pool in
        let statements =
          if can_prepare_statement control cache_enabled
          then prepare_batch conn queries s w
          else record { outcome = ok (text_batch queries); statements = s; world = w } in
        (then_call statements conn (λ batch c. client.batch_execute c level batch control), pool')
