-- ===== src/Wire/Node/Batches/Runs.antt =====
-- `BatchExecute` of src/detail/connection_pool.cpp on such a node.
use cassandra_driver.Base.{
  ℕ, ◌≡◌, refl, sym, subst, ◌∙◌, List, [], ◌∷◌, Bool, false, Bool-cases, inl, inr, none, some, All,
}
use cassandra_driver.Base.Result.{ok}
use cassandra_driver.Protocol.Requests.{Consistency, BatchStatement, RequestBody}
use cassandra_driver.Rows.{ResultSet, result_set}
use cassandra_driver.Queries.{BatchQuery}
use cassandra_driver.Pool.{Connection, ConnectionPool, acquire}
use cassandra_driver.Pool.Client.{
  StatementCache, CacheDocumented, CacheFaithful, OptionalCommandControl,
}
use cassandra_driver.Pool.Statements.{
  Called, can_prepare_statement, prepared_id, prepare_batch, text_batch, batch_execute,
}
use cassandra_driver.Pool.Statements.Steps.{prepare_batch_step, batch_by_ids, batch_by_texts}
use cassandra_driver.Wire.{Peer, World, connections}
use cassandra_driver.Wire.Streams.{connections-Keeping}
use cassandra_driver.Wire.Node.{Database, Serves}
use cassandra_driver.Wire.Node.Reached.{FitsFrame, SameFlags}
use cassandra_driver.Wire.Node.Refines.{
  Ready, Ready-kept, IsReadyWorld, IsConsistent, prepared_id_served,
}
use cassandra_driver.Wire.Node.Batches.{
  run_batch, StandsFor, ServesBatch, named, named-StandsFor, batch_served,
}

module _ (peer : Peer) (db : Database) (serves : Serves peer db) (cache : StatementCache) where
  text_batch-StandsFor :
      (queries : List BatchQuery)
      → StandsFor peer db serves (text_batch (connections peer) cache queries) queries
  unfolding text_batch
  text_batch-StandsFor [] = tt
  text_batch-StandsFor (query ∷ queries) = (refl, text_batch-StandsFor queries)

  -- The requests that a batch may send fit their prefixes and a frame.
  pub record FitsBatch (level : Consistency) (queries : List BatchQuery) : Type 0 where
    pub prepare : All (λ (q : BatchQuery). FitsFrame (RequestBody.prepare q.0)) queries
    pub by_ids : FitsFrame (RequestBody.batch (named peer db serves queries) level)
    pub by_texts : FitsFrame (RequestBody.batch (text_batch (connections peer) cache queries) level)

  -- The ids of a batch's statements, and the database as it was.
  record BatchPrepared (queries : List BatchQuery) (w : World peer)
      (p : Called (connections peer) cache (List BatchStatement)) : Type 0 where
    outcome : p.outcome ≡ ok (named peer db serves queries)
    ready : IsReadyWorld peer db serves cache p.world
    same : serves.contents p.world.node ≡ serves.contents w.node
    flags : SameFlags peer w p.world
    consistent : IsConsistent peer db serves cache p.statements

  prepare_batch_served :
      CacheDocumented cache
      → CacheFaithful cache
      → (c : Connection) (queries : List BatchQuery) (s : cache.State) (w : World peer)
      → IsConsistent peer db serves cache s
      → IsReadyWorld peer db serves cache w
      → All (λ (q : BatchQuery). FitsFrame (RequestBody.prepare q.0)) queries
      → BatchPrepared queries w (prepare_batch (connections peer) cache (some c) queries s w)
  unfolding prepare_batch
  prepare_batch_served documented faithful c [] s w consistent ready fits = record {
    outcome = refl;
    ready = ready;
    same = refl;
    flags = λ id. refl;
    consistent = consistent;
  }
  prepare_batch_served documented faithful c ((text, params) ∷ queries) s w consistent ready fits =
      let first = prepared_id (connections peer) cache (some c) text s w in
      let p =
        prepared_id_served peer db serves cache documented faithful c text s w consistent ready
          fits.0 in
      let rest =
        prepare_batch_served documented faithful c queries first.statements first.world p.consistent
          p.ready fits.1 in
      subst (BatchPrepared ((text, params) ∷ queries) w)
        (sym (
          prepare_batch_step (connections peer) cache (some c) text params queries s w p.outcome
            rest.outcome))
        (record {
          outcome = refl;
          ready = rest.ready;
          same = rest.same ∙ p.same;
          flags = λ id. rest.flags id ∙ p.flags id;
          consistent = rest.consistent;
        })

  -- What a call of the pool that runs a batch comes to.
  pub record RunsBatch (queries : List BatchQuery) (w : World peer)
      (r : Called (connections peer) cache ResultSet) : Type 0 where
    pub outcome : r.outcome ≡ ok (result_set none)
    pub contents : serves.contents r.world.node ≡ run_batch db queries (serves.contents w.node)
    pub consistent : IsConsistent peer db serves cache r.statements
    pub ready : IsReadyWorld peer db serves cache r.world
    pub flags : SameFlags peer w r.world

  -- Over a node that serves a database and its batches, and a cache that does what it documents: if
  -- `BatchExecute` finds a connection, the cached ids are the node's, the connections are uncompressed
  -- with a free stream each, and the requests fit, then each query has run once, in the batch's order,
  -- whether they were sent as texts or by ids, of which some were prepared before and some now; and what
  -- was asked of the cache and of the connections holds again.
  pub batch_execute-RunsBatch :
      (batches : ServesBatch peer db serves) (documented : CacheDocumented cache)
      (faithful : CacheFaithful cache) (now : ℕ) (cache_enabled : Bool) (level : Consistency)
      (queries : List BatchQuery) (control : OptionalCommandControl) (pool : ConnectionPool)
      (s : cache.State) (w : World peer) {c : Connection}
      → (acquire now false pool).0 ≡ some c
      → IsConsistent peer db serves cache s
      → IsReadyWorld peer db serves cache w
      → FitsBatch level queries
      → RunsBatch queries w
          (batch_execute
            (connections peer)
            cache
            now
            cache_enabled
            level
            queries
            control
            pool
            s
            w).0
  batch_execute-RunsBatch batches documented faithful now cache_enabled level queries control pool s
        w {c} found consistent ready fits =
      let keeping = connections-Keeping peer Ready (Ready-kept peer) in
      elim (Bool-cases (can_prepare_statement control cache_enabled)) [
        | inl can ↦
            let p =
              prepare_batch_served documented faithful c queries s w consistent ready
                fits.prepare in
            let called = prepare_batch (connections peer) cache (some c) queries s w in
            let (rows, after, flags) =
              batch_served peer db serves batches c called.world (p.ready c.id) level
                (named peer db serves queries) queries control fits.by_ids
                (named-StandsFor peer db serves queries) in
            subst (RunsBatch queries w)
              (sym (
                batch_by_ids (connections peer) cache now cache_enabled level queries control pool s
                  w c found can p.outcome))
              (record {
                outcome = rows;
                contents = rw (← p.same) after;
                consistent = p.consistent;
                ready =
                    keeping.batch_execute c level (named peer db serves queries) control
                      called.world p.ready;
                flags = λ id. flags id ∙ p.flags id;
              })
        | inr cannot ↦
            let statements = text_batch (connections peer) cache queries in
            let (rows, after, flags) =
              batch_served peer db serves batches c w (ready c.id) level statements queries control
                fits.by_texts (text_batch-StandsFor queries) in
            subst (RunsBatch queries w)
              (sym (
                batch_by_texts (connections peer) cache now cache_enabled level queries control pool
                  s w c found cannot))
              (record {
                outcome = rows;
                contents = after;
                consistent = consistent;
                ready = keeping.batch_execute c level statements control w ready;
                flags = flags;
              })
      ]
