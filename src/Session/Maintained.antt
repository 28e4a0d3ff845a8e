-- ===== src/Session/Maintained.antt =====
-- The maintenance of a session's first pool (src/detail/connection_pool.cpp) over a node that serves a
-- database: what it leaves of the pool, and of the database.
use cassandra_driver.Base.{ℕ, ◌≤◌, ◌≡◌, inr, refl, ap, List, [], ◌∷◌, map, length, All, arith}
use cassandra_driver.Protocol.Requests.{Consistency}
use cassandra_driver.Pool.{Connection}
use cassandra_driver.Pool.Client.{StatementCache, CacheDocumented, CacheFaithful}
use cassandra_driver.Pool.Maintain.{Maintaining, ping_text, maintain_loop, maintain}
use cassandra_driver.Wire.{Peer, World, connections, refresh_connection}
use cassandra_driver.Wire.Node.{Database, Serves}
use cassandra_driver.Wire.Node.Refines.{FitsStatement}
use cassandra_driver.Session.{PoolState, SessionImpl, found, maintain_first}
use cassandra_driver.Session.Usable.{IsUsable, refreshed-IsUsable}
use cassandra_driver.Session.Upkeep.{pings, maintain_loop-Went}
use cassandra_driver.Session.Sound.{IsHealthy, IsSound}

module _ (peer : Peer) (db : Database) (serves : Serves peer db) (cache : StatementCache) where
  module _ (documented : CacheDocumented cache) (faithful : CacheFaithful cache) (now min_size : ℕ)
      (fits : FitsStatement peer db serves cache Consistency.local_one ping_text []) where
    found-IsUsable :
        (w : World peer) (cs : List Connection)
        → All (IsHealthy peer w) cs
        → All (IsUsable peer w) (map (refresh_connection peer w) cs)
    found-IsUsable w [] h = tt
    found-IsUsable w (c ∷ cs) (healthy, h) =
        (refreshed-IsUsable peer w c healthy, found-IsUsable w cs h)

    -- The maintenance of a pool that can serve.
    pub record Maintains (w : World peer) (p : PoolState (connections peer) cache)
        (after : SessionImpl (connections peer) cache × World peer) : Type 0 where
      pub count : ℕ
      pub contents : serves.contents after.1.node ≡ pings db count (serves.contents w.node)
      pub head : PoolState (connections peer) cache
      pub tail : SessionImpl (connections peer) cache
      pub session : after.0 ≡ head ∷ tail
      pub sound : IsSound peer db serves cache head after.1

    usable-IsHealthy :
        (w : World peer) (cs : List Connection)
        → All (IsUsable peer w) cs
        → All (IsHealthy peer w) cs
    usable-IsHealthy w [] h = tt
    usable-IsHealthy w (c ∷ cs) h = (h.0.1, usable-IsHealthy w cs h.1)

    pub maintain_first-Maintains :
        (p : PoolState (connections peer) cache) (ps : SessionImpl (connections peer) cache)
        (w : World peer)
        → 1 ≤ min_size
        → IsSound peer db serves cache p w
        → Maintains w p (maintain_first (connections peer) cache now min_size (p ∷ ps) w)
    unfolding maintain_first maintain found
    maintain_first-Maintains p ps w floor sound =
        let pool = found (connections peer) cache w p.pool in
        let start : Maintaining (connections peer) cache = record {
          pool = pool;
          statements = p.statements;
          world = w;
          drop_left = 1;
        } in
        let went =
          maintain_loop-Went peer db serves cache documented faithful now min_size fits
            (length pool.connections) start floor (inr (refl, omega arith))
            (record {
              first = refresh_connection peer w sound.first;
              others = map (refresh_connection peer w) sound.others;
              opened = ap (map (refresh_connection peer w)) sound.opened;
              usable = found-IsUsable w (sound.first ∷ sound.others) sound.healthy;
              consistent = sound.consistent;
              ready = sound.ready;
            }) in
        let up = went.upkeep in
        let m =
          (maintain_loop (connections peer) cache now min_size (length pool.connections) start).1 in
        record {
          count = went.count;
          contents = went.contents;
          head = record p { pool = m.pool; statements = m.statements };
          tail = ps;
          session = refl;
          sound = record {
            first = up.first;
            others = up.others;
            opened = up.opened;
            healthy = usable-IsHealthy m.world (up.first ∷ up.others) up.usable;
            consistent = up.consistent;
            ready = up.ready;
          };
        }
