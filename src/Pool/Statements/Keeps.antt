-- ===== src/Pool/Statements/Keeps.antt =====
-- What every call of a connection keeps, the calls of the pool in src/detail/connection_pool.cpp keep.
use cassandra_driver.Base.{
  ℕ, List, [], ◌∷◌, Bool, false, Option, none, some, arith, Bool-cases, inl, inr,
}
use cassandra_driver.Base.Result.{Result, ok, throws, fault, stuck}
use cassandra_driver.Io.{RawBuffer}
use cassandra_driver.Protocol.Requests.{Consistency, QueryParameters, BatchStatement}
use cassandra_driver.Queries.{BatchQuery}
use cassandra_driver.Pool.{Connection, ConnectionPool, acquire}
use cassandra_driver.Pool.Client.{Client, StatementCache, OptionalCommandControl}
use cassandra_driver.Pool.Statements.{
  Called, can_prepare_statement, prepared_id, then_call, prepare_batch, text_batch, execute,
  batch_execute,
}

pub record Keeping (client : Client) (P : client.World → Type 0) : Type 0 where
  pub prepare :
      (c : Connection) (text : RawBuffer) (w : client.World) → P w → P (client.prepare c text w).1
  pub execute :
      (c : Connection) (level : Consistency) (text : RawBuffer) (params : QueryParameters)
      (control : OptionalCommandControl) (w : client.World)
      → P w
      → P (client.execute c level text params control w).1
  pub execute_prepared :
      (c : Connection) (level : Consistency) (id : RawBuffer) (params : QueryParameters)
      (control : OptionalCommandControl) (w : client.World)
      → P w
      → P (client.execute_prepared c level id params control w).1
  pub batch_execute :
      (c : Connection) (level : Consistency) (statements : List BatchStatement)
      (control : OptionalCommandControl) (w : client.World)
      → P w
      → P (client.batch_execute c level statements control w).1

module _ (client : Client) (cache : StatementCache) (P : client.World → Type 0)
    (keeping : Keeping client P) where
  prepared_id-keeps :
      (conn : Option Connection) (text : RawBuffer) (s : cache.State) (w : client.World)
      → P w
      → P (prepared_id client cache conn text s w).world
  unfolding prepared_id
  prepared_id-keeps none text s w h = ground (arith, h)
  prepared_id-keeps (some c) text s w h = ground (arith, h, keeping.prepare c text w h)

  connected-keeps :
      {A B : Type 0} (outcome : Result A) (s : cache.State) (w : client.World) (c : Connection)
      (call : A → Connection → client.World → Result B × client.World)
      → P w
      → ((a : A) (c : Connection) → P (call a c w).1)
      → P
          (then_call client cache
            (record { outcome = outcome; statements = s; world = w })
            (some c)
            call).world
  unfolding then_call
  connected-keeps (ok a) s w c call h kept = kept a c
  connected-keeps (throws e) s w c call h kept = h
  connected-keeps fault s w c call h kept = h
  connected-keeps stuck s w c call h kept = h

  then_call-keeps :
      {A B : Type 0} (p : Called client cache A) (conn : Option Connection)
      (call : A → Connection → client.World → Result B × client.World)
      → P p.world
      → ((a : A) (c : Connection) → P (call a c p.world).1)
      → P (then_call client cache p conn call).world
  unfolding then_call
  then_call-keeps p none call h kept = ground (arith, h)
  then_call-keeps p (some c) call h kept =
      connected-keeps p.outcome p.statements p.world c call h kept

  prepare_batch-keeps :
      (conn : Option Connection) (queries : List BatchQuery) (s : cache.State) (w : client.World)
      → P w
      → P (prepare_batch client cache conn queries s w).world
  unfolding prepare_batch
  prepare_batch-keeps conn [] s w h = h
  prepare_batch-keeps conn ((text, params) ∷ queries) s w h =
      let first = prepared_id client cache conn text s w in
      let kept = prepared_id-keeps conn text s w h in
      ground (arith, kept, prepare_batch-keeps conn queries first.statements first.world kept)

  module _ (now : ℕ) (cache_enabled : Bool) where
    pub execute-keeps :
        (level : Consistency) (text : RawBuffer) (params : QueryParameters)
        (control : OptionalCommandControl) (pool : ConnectionPool) (s : cache.State)
        (w : client.World)
        → P w
        → P (execute client cache now cache_enabled level text params control pool s w).0.world
    unfolding execute
    execute-keeps level text params control pool s w h =
        let conn = (acquire now false pool).0 in
        elim (Bool-cases (can_prepare_statement control cache_enabled)) [
          | inl e ↦ rw e (
              then_call-keeps (prepared_id client cache conn text s w) conn _
                (prepared_id-keeps conn text s w h)
                λ id c.
                  keeping.execute_prepared c level id params control _
                    (prepared_id-keeps conn text s w h))
          | inr e ↦ rw e (
              then_call-keeps (record { outcome = ok text; statements = s; world = w }) conn _ h
                λ query c. keeping.execute c level query params control w h)
        ]

    pub batch_execute-keeps :
        (level : Consistency) (queries : List BatchQuery) (control : OptionalCommandControl)
        (pool : ConnectionPool) (s : cache.State) (w : client.World)
        → P w
        → P (batch_execute client cache now cache_enabled level queries control pool s w).0.world
    unfolding batch_execute
    batch_execute-keeps level queries control pool s w h =
        let conn = (acquire now false pool).0 in
        elim (Bool-cases (can_prepare_statement control cache_enabled)) [
          | inl e ↦ rw e (
              then_call-keeps (prepare_batch client cache conn queries s w) conn _
                (prepare_batch-keeps conn queries s w h)
                λ batch c.
                  keeping.batch_execute c level batch control _
                    (prepare_batch-keeps conn queries s w h))
          | inr e ↦ rw e (
              then_call-keeps
                (record {
                  outcome = ok (text_batch client cache queries);
                  statements = s;
                  world = w;
                })
                conn _ h λ batch c. keeping.batch_execute c level batch control w h)
        ]
