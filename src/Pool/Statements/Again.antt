-- ===== src/Pool/Statements/Again.antt =====
-- What the cache of prepared statements saves, and what the calls of the pool do without a
-- connection or with an id that the node has forgotten.
use cassandra_driver.Base.{
  ℕ, ◌≡◌, List, [], ◌∷◌, map, Bool, true, false, Option, none, some, All, arith,
}
use cassandra_driver.Base.Result.{Result, ok, fault}
use cassandra_driver.Io.{RawBuffer}
use cassandra_driver.Protocol.Requests.{
  Consistency, QueryParameters, BatchStatement, by_string, by_id,
}
use cassandra_driver.Queries.{BatchQuery}
use cassandra_driver.Pool.{Connection, ConnectionPool, acquire}
use cassandra_driver.Pool.Acquire.{IsEligible, acquire-none_iff}
use cassandra_driver.Pool.Client.{Client, StatementCache, CacheDocumented, OptionalCommandControl}
use cassandra_driver.Pool.Statements.{
  Called, can_prepare_statement, prepared_id, then_call, prepare_batch, execute,
}

abbrev pub params_of : BatchStatement → QueryParameters
params_of (by_string text params) = params
params_of (by_id id params) = params

abbrev pub IsById : BatchStatement → Type 0
IsById (by_id id params) = Unit {0}
IsById (by_string text params) = ⊥

module _ (client : Client) (cache : StatementCache) where
  -- The id is in the cache behind a successful preparation, and the next one asks no node.
  abbrev Knows : cache.State → RawBuffer → RawBuffer → Type 0
  Knows s text id = (cache.get s text).0 ≡ some id

  prepared_id-Knows :
      CacheDocumented cache
      → (conn : Option Connection) (text : RawBuffer) (s : cache.State) (w : client.World)
        {id : RawBuffer}
      → (prepared_id client cache conn text s w).outcome ≡ ok id
      → Knows (prepared_id client cache conn text s w).statements text id
  unfolding prepared_id
  prepared_id-Knows documented conn text s w {id} e =
      grind (arith, documented.get-put, documented.get-get)

  then_call-statements :
      {A B : Type 0} (p : Called client cache A) (conn : Option Connection)
      (call : A → Connection → client.World → Result B × client.World)
      → (then_call client cache p conn call).statements ≡ p.statements
  unfolding then_call
  then_call-statements p conn call = ground arith

module _ (client : Client) (cache : StatementCache) where
  prepared_unconnected :
      {B : Type 0} (text : RawBuffer) (s : cache.State) (w : client.World)
      (call : RawBuffer → Connection → client.World → Result B × client.World)
      → (then_call client cache (prepared_id client cache none text s w) none call).outcome ≡ fault
  unfolding then_call prepared_id
  prepared_unconnected text s w call = ground arith

  -- A batch that succeeds in preparing its statements has them by their ids, in the order of its queries and
  -- each with its parameters.
  pub prepare_batch-params :
      (conn : Option Connection) (queries : List BatchQuery) (s : cache.State) (w : client.World)
      {statements : List BatchStatement}
      → (prepare_batch client cache conn queries s w).outcome ≡ ok statements
      → All IsById statements × (map params_of statements ≡ map (λ (q : BatchQuery). q.1) queries)
  unfolding prepare_batch
  prepare_batch-params conn [] s w {statements} e = ground arith
  prepare_batch-params conn ((text, params) ∷ queries) s w {statements} e =
      let first = prepared_id client cache conn text s w in
      grind (
        arith,
        (λ (rest : List BatchStatement).
            prepare_batch-params conn queries first.statements first.world {statements = rest}),
      )

module _ (client : Client) (cache : StatementCache) (now : ℕ) (cache_enabled : Bool) where
  -- On a pool without a connection that is neither broken nor expired, `Execute` calls through a null
  -- pointer.
  pub execute_unconnected :
      (level : Consistency) (text : RawBuffer) (params : QueryParameters)
      (control : OptionalCommandControl) (pool : ConnectionPool) (s : cache.State)
      (w : client.World)
      → All (λ c. ¬ IsEligible now c) pool.connections
      → (execute client cache now cache_enabled level text params control pool s w).0.outcome
        ≡ fault
  unfolding execute then_call
  execute_unconnected level text params control pool s w h =
      let e = (acquire-none_iff now pool).1 h in
      ground (
        arith,
        e,
        prepared_unconnected client cache text s w
            (λ id c. client.execute_prepared c level id params control),
      )

  execute-Knows :
      (documented : CacheDocumented cache) (level : Consistency) (text : RawBuffer)
      (params : QueryParameters) (control : OptionalCommandControl) (pool : ConnectionPool)
      (s : cache.State) (w : client.World) {id : RawBuffer}
      → can_prepare_statement control cache_enabled ≡ true
      → (prepared_id client cache (acquire now false pool).0 text s w).outcome ≡ ok id
      → Knows client cache
          (execute client cache now cache_enabled level text params control pool s w).0.statements
          text
          id
  unfolding execute
  execute-Knows documented level text params control pool s w {id} can known =
      let conn = (acquire now false pool).0 in
      let p = prepared_id client cache conn text s w in
      let same =
        then_call-statements client cache p conn
          (λ id' c. client.execute_prepared c level id' params control) in
      rw (can, same) (prepared_id-Knows client cache documented conn text s w known)

  execute_known :
      (level : Consistency) (text : RawBuffer) (params : QueryParameters)
      (control : OptionalCommandControl) (pool : ConnectionPool) (s : cache.State)
      (w : client.World) {c : Connection} {id : RawBuffer}
      → can_prepare_statement control cache_enabled ≡ true
      → (acquire now false pool).0 ≡ some c
      → Knows client cache s text id
      → let r = (execute client cache now cache_enabled level text params control pool s w).0 in
        (r.outcome, r.world) ≡ client.execute_prepared c level id params control w
  unfolding execute prepared_id then_call
  execute_known level text params control pool s w can found known =
      ground (arith, can, found, known)

  -- With a cache that does what it documents, and where statements are prepared: once an `Execute` has
  -- the id of a statement, from the cache or from a node, the next `Execute` of that statement that
  -- finds a connection is the prepared call with that id, and prepares nothing.
  pub execute_again :
      (documented : CacheDocumented cache) (level : Consistency) (text : RawBuffer)
      (params : QueryParameters) (control : OptionalCommandControl) (pool : ConnectionPool)
      (s : cache.State) (w : client.World) {id : RawBuffer} (next_level : Consistency)
      (next_params : QueryParameters) (next_pool : ConnectionPool) (next_world : client.World)
      {c : Connection}
      → can_prepare_statement control cache_enabled ≡ true
      → (prepared_id client cache (acquire now false pool).0 text s w).outcome ≡ ok id
      → (acquire now false next_pool).0 ≡ some c
      → let run = execute client cache now cache_enabled in
        let first = (run level text params control pool s w).0 in
        let next =
          (run next_level text next_params control next_pool first.statements next_world).0 in
        (next.outcome, next.world)
        ≡ client.execute_prepared c next_level id next_params control next_world
  execute_again documented level text params control pool s w {id} next_level next_params next_pool
        next_world {c} can known found =
      execute_known next_level text next_params control next_pool
        (execute client cache now cache_enabled level text params control pool s w).0.statements
        next_world can found (execute-Knows documented level text params control pool s w can known)
