-- ===== src/Session/Sound.antt =====
-- What a call of a session (src/session_impl.cpp) leaves, where the pool of its first node can serve.
use cassandra_driver.Base.{ℕ, ◌≡◌, refl, ap, ◌∙◌, List, [], ◌∷◌, map, false, some, none, All, arith}
use cassandra_driver.Base.Result.{ok}
use cassandra_driver.Io.{RawBuffer}
use cassandra_driver.Protocol.Requests.{Consistency, QueryParameters}
use cassandra_driver.Rows.{result_set}
use cassandra_driver.Queries.{Query, get_statement}
use cassandra_driver.Pool.{acquire, Connection, ConnectionPool, is_expired}
use cassandra_driver.Pool.Acquire.{IsEligible, acquire_eligible}
use cassandra_driver.Pool.Client.{
  StatementCache, CacheDocumented, CacheFaithful, OptionalCommandControl,
}
use cassandra_driver.Wire.{Peer, World, connections, refresh_connection}
use cassandra_driver.Wire.Node.{Database, Serves}
use cassandra_driver.Wire.Node.Reached.{SameFlags}
use cassandra_driver.Wire.Node.Refines.{IsReadyWorld, IsConsistent, FitsStatement, execute-Runs}
use cassandra_driver.Session.{PoolState, SessionImpl, Ended, do_execute, found}
use cassandra_driver.Pool.Statements.{execute}
use cassandra_driver.Pool.Statements.Steps.{execute-pool}

-- A connection that is not broken, and that no time expires.
abbrev pub IsHealthy : (peer : Peer) → World peer → Connection → Type 0
IsHealthy peer w c = ((w.impls c.id).broken ≡ false) × (c.expires_at ≡ none)

healthy-IsEligible :
    (peer : Peer) (now : ℕ) (w : World peer) (cs : List Connection)
    → All (IsHealthy peer w) cs
    → All (IsEligible now) (map (refresh_connection peer w) cs)
unfolding refresh_connection is_expired
healthy-IsEligible peer now w [] h = tt
healthy-IsEligible peer now w (c ∷ cs) ((unbroken, forever), h) =
    ((unbroken, ground (arith, forever)), healthy-IsEligible peer now w cs h)

-- The same connections are healthy behind calls that broke none.
SameFlags-IsHealthy :
    (peer : Peer) (w w' : World peer) (cs : List Connection)
    → ((id : ℕ) → (w'.impls id).broken ≡ (w.impls id).broken)
    → All (IsHealthy peer w) cs
    → All (IsHealthy peer w') (map (refresh_connection peer w) cs)
unfolding refresh_connection
SameFlags-IsHealthy peer w w' [] flags h = tt
SameFlags-IsHealthy peer w w' (c ∷ cs) flags ((unbroken, forever), h) =
    ((flags c.id ∙ unbroken, forever), SameFlags-IsHealthy peer w w' cs flags h)

module _ (peer : Peer) (db : Database) (serves : Serves peer db) (cache : StatementCache) where
  -- A pool that can serve: some connections, all healthy, the ids of the node in its cache, and all
  -- connections uncompressed with a free stream.
  pub record IsSound (p : PoolState (connections peer) cache) (w : World peer) : Type 0 where
    pub first : Connection
    pub others : List Connection
    pub opened : p.pool.connections ≡ first ∷ others
    pub healthy : All (IsHealthy peer w) (first ∷ others)
    pub consistent : IsConsistent peer db serves cache p.statements
    pub ready : IsReadyWorld peer db serves cache w

  -- A call that ran one statement, and left the session able to run the next.
  pub record Served (text : RawBuffer) (params : QueryParameters) (w : World peer)
      (r : Ended (connections peer) cache) : Type 0 where
    pub outcome : r.outcome ≡ ok (result_set (some (db.run (serves.contents w.node) text params).0))
    pub contents : serves.contents r.world.node ≡ (db.run (serves.contents w.node) text params).1
    pub head : PoolState (connections peer) cache
    pub tail : SessionImpl (connections peer) cache
    pub session : r.session ≡ head ∷ tail
    pub sound : IsSound head r.world

  -- A call finds a connection, and leaves the pool as it found it.
  pub first_acquired :
      (now : ℕ) (p : PoolState (connections peer) cache) (w : World peer)
      → IsSound p w
      → let pool = found (connections peer) cache w p.pool in
        ((c : Connection) × ((acquire now false pool).0 ≡ some c))
        × ((acquire now false pool).1 ≡ pool)
  first_acquired now p w sound =
      let cs = map (refresh_connection peer w) (sound.first ∷ sound.others) in
      let opened : (found (connections peer) cache w p.pool).connections ≡ cs =
        unfold found in ap (map (refresh_connection peer w)) sound.opened in
      acquire_eligible now (found (connections peer) cache w p.pool)
        (refresh_connection peer w sound.first) (map (refresh_connection peer w) sound.others)
        opened (healthy-IsEligible peer now w (sound.first ∷ sound.others) sound.healthy)

  -- A call that broke no connection, and kept what the cache and the streams must have, leaves the pool
  -- able to serve.
  pub still-IsSound :
      (now : ℕ) (p : PoolState (connections peer) cache) (w w' : World peer) (s : cache.State)
      {q : ConnectionPool}
      → IsSound p w
      → q ≡ (acquire now false (found (connections peer) cache w p.pool)).1
      → IsConsistent peer db serves cache s
      → IsReadyWorld peer db serves cache w'
      → SameFlags peer w w'
      → IsSound (record p { pool = q; statements = s }) w'
  still-IsSound now p w w' s {q} sound same consistent ready flags =
      let (_, kept) = first_acquired now p w sound in
      record {
        first = refresh_connection peer w sound.first;
        others = map (refresh_connection peer w) sound.others;
        opened =
            ap (λ (pool : ConnectionPool). pool.connections) (same ∙ kept)
            ∙ (unfold found in ap (map (refresh_connection peer w)) sound.opened);
        healthy = SameFlags-IsHealthy peer w w' (sound.first ∷ sound.others) flags sound.healthy;
        consistent = consistent;
        ready = ready;
      }

  module _ (documented : CacheDocumented cache) (faithful : CacheFaithful cache) where
    pub do_execute-Served :
        (now : ℕ) (level : Consistency) (query : Query) (params : QueryParameters)
        (control : OptionalCommandControl) (p : PoolState (connections peer) cache)
        (ps : SessionImpl (connections peer) cache) (w : World peer)
        → IsSound p w
        → FitsStatement peer db serves cache level query.statement params
        → Served query.statement params w
            (do_execute (connections peer) cache now level query params control (p ∷ ps) w)
    unfolding do_execute get_statement
    do_execute-Served now level query params control p ps w sound fits =
        let text = query.statement in
        let pool = found (connections peer) cache w p.pool in
        let ((c, got), _) = first_acquired now p w sound in
        let ran =
          execute-Runs peer db serves cache documented faithful now p.cache_enabled level text
            params control pool p.statements w got sound.consistent sound.ready fits in
        let (r, q) =
          execute (connections peer) cache now p.cache_enabled level text params control pool
            p.statements w in
        let unchanged =
          execute-pool (connections peer) cache now p.cache_enabled level text params control pool
            p.statements w in
        record {
          outcome = ran.outcome;
          contents = ran.contents;
          head = record p { pool = q; statements = r.statements };
          tail = ps;
          session = refl;
          sound =
              still-IsSound now p w r.world r.statements sound unchanged ran.consistent ran.ready
                ran.flags;
        }
