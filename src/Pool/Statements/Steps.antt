-- ===== src/Pool/Statements/Steps.antt =====
-- The branches of `Execute` and `BatchExecute` in src/detail/connection_pool.cpp on a connection, each with what decides it.
use cassandra_driver.Base.{ℕ, ◌≡◌, List, ◌∷◌, Bool, true, false, Option, none, some, arith, refl}
use cassandra_driver.Base.Result.{ok}
use cassandra_driver.Io.{RawBuffer}
use cassandra_driver.Protocol.Requests.{Consistency, QueryParameters, BatchStatement, by_id}
use cassandra_driver.Queries.{BatchQuery}
use cassandra_driver.Pool.{Connection, ConnectionPool, acquire}
use cassandra_driver.Pool.Client.{Client, StatementCache, OptionalCommandControl}
use cassandra_driver.Pool.Statements.{
  calls, can_prepare_statement, prepared_id, then_call, execute, prepare_batch, text_batch,
  batch_execute,
}

module _ (client : Client) (cache : StatementCache) where
  pub prepared_id_found :
      (conn : Option Connection) (text : RawBuffer) (s : cache.State) (w : client.World)
      {id : RawBuffer}
      → (cache.get s text).0 ≡ some id
      → prepared_id client cache conn text s w
        ≡ record { outcome = ok id; statements = (cache.get s text).1; world = w }
  unfolding prepared_id
  prepared_id_found conn text s w found = ground (arith, found)

  pub prepared_id_asked :
      (c : Connection) (text : RawBuffer) (s : cache.State) (w : client.World) {id : RawBuffer}
      → (cache.get s text).0 ≡ none
      → (client.prepare c text w).0 ≡ ok id
      → prepared_id client cache (some c) text s w ≡ record {
        outcome = ok id;
        statements = cache.put (cache.get s text).1 text id;
        world = (client.prepare c text w).1;
      }
  unfolding prepared_id
  prepared_id_asked c text s w missing prepared = ground (arith, missing, prepared)

  -- Behind a call the pool is as `Acquire` left it.
  pub execute-pool :
      (now : ℕ) (cache_enabled : Bool) (level : Consistency) (text : RawBuffer)
      (params : QueryParameters) (control : OptionalCommandControl) (pool : ConnectionPool)
      (s : cache.State) (w : client.World)
      → (execute client cache now cache_enabled level text params control pool s w).1
        ≡ (acquire now false pool).1
  unfolding execute
  execute-pool now cache_enabled level text params control pool s w = refl

  pub prepare_batch_step :
      (conn : Option Connection) (text : RawBuffer) (params : QueryParameters)
      (queries : List BatchQuery) (s : cache.State) (w : client.World) {id : RawBuffer}
      {statements : List BatchStatement}
      → let first = prepared_id client cache conn text s w in
        let rest = prepare_batch client cache conn queries first.statements first.world in
        first.outcome ≡ ok id
        → rest.outcome ≡ ok statements
        → prepare_batch client cache conn ((text, params) ∷ queries) s w
          ≡ record rest { outcome = ok (by_id id params ∷ statements) }
  unfolding prepare_batch
  prepare_batch_step conn text params queries s w first rest = rw (prepare_batch, first, rest) refl

  module _ (now : ℕ) (cache_enabled : Bool) (level : Consistency) (queries : List BatchQuery)
      (control : OptionalCommandControl) (pool : ConnectionPool) (s : cache.State)
      (w : client.World) where
    pub batch-pool :
        (batch_execute client cache now cache_enabled level queries control pool s w).1
        ≡ (acquire now false pool).1
    unfolding batch_execute
    batch-pool = refl

    pub batch_by_ids :
        (c : Connection) {statements : List BatchStatement}
        → (acquire now false pool).0 ≡ some c
        → can_prepare_statement control cache_enabled ≡ true
        → (prepare_batch client cache (some c) queries s w).outcome ≡ ok statements
        → (batch_execute client cache now cache_enabled level queries control pool s w).0 ≡ (
            let p = prepare_batch client cache (some c) queries s w in
            calls client cache p.statements
              (client.batch_execute c level statements control p.world))
    unfolding batch_execute then_call
    batch_by_ids c acquired can prepared = rw (can, acquired, prepared) refl

    pub batch_by_texts :
        (c : Connection)
        → (acquire now false pool).0 ≡ some c
        → can_prepare_statement control cache_enabled ≡ false
        → (batch_execute client cache now cache_enabled level queries control pool s w).0
          ≡ calls client cache s
              (client.batch_execute c level (text_batch client cache queries) control w)
    unfolding batch_execute then_call
    batch_by_texts c acquired cannot = rw (cannot, acquired) refl

  module _ (now : ℕ) (cache_enabled : Bool) (level : Consistency) (text : RawBuffer)
      (params : QueryParameters) (control : OptionalCommandControl) (pool : ConnectionPool)
      (s : cache.State) (w : client.World) (c : Connection)
      (acquired : (acquire now false pool).0 ≡ some c) where
    pub execute_by_id :
        {id : RawBuffer}
        → can_prepare_statement control cache_enabled ≡ true
        → (prepared_id client cache (some c) text s w).outcome ≡ ok id
        → (execute client cache now cache_enabled level text params control pool s w).0 ≡ (
            let p = prepared_id client cache (some c) text s w in
            calls client cache p.statements
              (client.execute_prepared c level id params control p.world))
    unfolding execute then_call
    execute_by_id {id} can prepared = rw (can, acquired, prepared) refl

    pub execute_by_text :
        can_prepare_statement control cache_enabled ≡ false
        → (execute client cache now cache_enabled level text params control pool s w).0
          ≡ calls client cache s (client.execute c level text params control w)
    unfolding execute then_call
    execute_by_text cannot = rw (cannot, acquired) refl
