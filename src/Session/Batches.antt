-- ===== src/Session/Batches.antt =====
-- The batches of a session (include/cassandra/batch_query.hpp and src/session_impl.cpp) against the
-- database of its first node.
use cassandra_driver.Base.{ℕ, ◌≡◌, refl, List, ◌∷◌, map, none}
use cassandra_driver.Base.Result.{ok}
use cassandra_driver.Protocol.Requests.{Consistency}
use cassandra_driver.Rows.{result_set}
use cassandra_driver.Queries.{BatchQuery, BatchQueryStore, new_batch}
use cassandra_driver.Queries.Bound.{Addition, add_queries, query_of, add_queries_lem}
use cassandra_driver.Pool.Client.{StatementCache, CacheDocumented, CacheFaithful}
use cassandra_driver.Pool.Statements.{batch_execute}
use cassandra_driver.Pool.Statements.Steps.{batch-pool}
use cassandra_driver.Wire.{Peer, World, connections}
use cassandra_driver.Wire.Node.{Database, Serves}
use cassandra_driver.Wire.Node.Batches.{ServesBatch, run_batch}
use cassandra_driver.Wire.Node.Batches.Runs.{FitsBatch, batch_execute-RunsBatch}
use cassandra_driver.Session.{PoolState, SessionImpl, Ended, found, session_batch}
use cassandra_driver.Session.Sound.{IsSound, first_acquired, still-IsSound}

module _ (peer : Peer) (db : Database) (serves : Serves peer db) (cache : StatementCache) where
  -- A batch that ran, and left the session able to run the next call.
  pub record ServedBatch (queries : List BatchQuery) (w : World peer)
      (ps : SessionImpl (connections peer) cache) (r : Ended (connections peer) cache)
      : Type 0 where
    pub outcome : r.outcome ≡ ok (result_set none)
    pub contents : serves.contents r.world.node ≡ run_batch db queries (serves.contents w.node)
    pub head : PoolState (connections peer) cache
    pub session : r.session ≡ head ∷ ps
    pub sound : IsSound peer db serves cache head r.world

  module _ (batches : ServesBatch peer db serves) (documented : CacheDocumented cache)
      (faithful : CacheFaithful cache) where
    session_batch-ServedBatch :
        (now : ℕ) (store : BatchQueryStore) (p : PoolState (connections peer) cache)
        (ps : SessionImpl (connections peer) cache) (w : World peer)
        → IsSound peer db serves cache p w
        → FitsBatch peer db serves cache store.consistency store.queries
        → ServedBatch store.queries w ps
            (session_batch (connections peer) cache now store (p ∷ ps) w)
    unfolding session_batch
    session_batch-ServedBatch now store p ps w sound fits =
        let level = store.consistency in
        let queries = store.queries in
        let pool = found (connections peer) cache w p.pool in
        let ((c, got), _) = first_acquired peer db serves cache now p w sound in
        let ran =
          batch_execute-RunsBatch peer db serves cache batches documented faithful now
            p.cache_enabled level queries none pool p.statements w got sound.consistent sound.ready
            fits in
        let (r, q) =
          batch_execute (connections peer) cache now p.cache_enabled level queries none pool
            p.statements w in
        let unchanged =
          batch-pool (connections peer) cache now p.cache_enabled level queries none pool
            p.statements w in
        record {
          outcome = ran.outcome;
          contents = ran.contents;
          head = record p { pool = q; statements = r.statements };
          session = refl;
          sound =
              still-IsSound peer db serves cache now p w r.world r.statements sound unchanged
                ran.consistent ran.ready ran.flags;
        }

    -- Over a node that serves a database and its batches, and a cache that does what it documents: if the
    -- session's first pool has a connection, its connections are neither broken nor ever expire and are
    -- uncompressed with a free stream each, the cache has no id but the node's, and the requests fit,
    -- then a batch to which queries were added one behind the other can be built, has no rows as its
    -- outcome, and leaves the database with what the queries do in that order; and the session can run
    -- the next call.
    pub add_queries-run_batch :
        (now : ℕ) (level : Consistency) (additions : List Addition)
        (p : PoolState (connections peer) cache) (ps : SessionImpl (connections peer) cache)
        (w : World peer)
        → IsSound peer db serves cache p w
        → FitsBatch peer db serves cache level (map query_of additions)
        → (store : BatchQueryStore) × (add_queries additions (new_batch level) ≡ ok store)
          × (let r = session_batch (connections peer) cache now store (p ∷ ps) w in
              (r.outcome ≡ ok (result_set none))
              × (serves.contents r.world.node
                  ≡ run_batch db (map query_of additions) (serves.contents w.node))
              × ((head : PoolState (connections peer) cache) × (r.session ≡ head ∷ ps)
                  × IsSound peer db serves cache head r.world))
    unfolding new_batch
    add_queries-run_batch now level additions p ps w sound fits =
        let store : BatchQueryStore = record {
          consistency = level;
          queries = map query_of additions;
        } in
        let served = session_batch-ServedBatch now store p ps w sound fits in
        (
          store,
          add_queries_lem additions (new_batch level),
          (served.outcome, served.contents, (served.head, served.session, served.sound)),
        )
