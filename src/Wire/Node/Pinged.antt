-- ===== src/Wire/Node/Pinged.antt =====
-- The ping of `Maintain` (src/detail/connection_pool.cpp) over such a node.
use cassandra_driver.Base.{◌≡◌, ◌∙◌, inl, inr, refl, sym, ap, subst, [], none, some, Option-cases}
use cassandra_driver.Base.Result.{ok}
use cassandra_driver.Protocol.Requests.{Consistency}
use cassandra_driver.Pool.{Connection}
use cassandra_driver.Pool.Client.{StatementCache, CacheDocumented, CacheFaithful}
use cassandra_driver.Pool.Maintain.{Pinged, ping, ping_text}
use cassandra_driver.Pool.Maintain.Rounds.{ping_found, ping_asked}
use cassandra_driver.Wire.{Peer, World, connections}
use cassandra_driver.Wire.Streams.{connections-Keeping}
use cassandra_driver.Wire.Node.{Database, Serves}
use cassandra_driver.Wire.Node.Reached.{SameFlags}
use cassandra_driver.Wire.Node.Served.{prepare_served, execute_prepared_served}
use cassandra_driver.Wire.Node.Refines.{
  Ready, Ready-kept, IsReadyWorld, IsConsistent, FitsStatement, get-IsConsistent, put-IsConsistent,
}

module _ (peer : Peer) (db : Database) (serves : Serves peer db) (cache : StatementCache) where
  -- A ping that ran its statement once.
  pub record IsPing (w : World peer) (r : Pinged (connections peer) cache) : Type 0 where
    pub outcome : r.outcome ≡ ok tt
    pub contents : serves.contents r.world.node ≡ (db.run (serves.contents w.node) ping_text []).1
    pub consistent : IsConsistent peer db serves cache r.statements
    pub ready : IsReadyWorld peer db serves cache r.world
    pub flags : SameFlags peer w r.world

  -- A ping of any connection prepares its statement or finds it prepared, and runs it once.
  pub ping-IsPing :
      CacheDocumented cache
      → CacheFaithful cache
      → (c : Connection) (s : cache.State) (w : World peer) → IsConsistent peer db serves cache s
      → IsReadyWorld peer db serves cache w
      → FitsStatement peer db serves cache Consistency.local_one ping_text []
      → IsPing w (ping (connections peer) cache c s w)
  ping-IsPing documented faithful c s w consistent ready fits =
      let keeping = connections-Keeping peer Ready (Ready-kept peer) in
      let id = (serves.describe ping_text).id in
      elim (Option-cases (cache.get s ping_text).0) [
        | inl missing ↦
            let w' = ((connections peer).prepare c ping_text w).1 in
            let (prepared, same, flags) =
              prepare_served peer db serves c w (ready c.id) ping_text fits.prepare in
            let ready' = keeping.prepare c ping_text w ready in
            let (rows, after, flags') =
              execute_prepared_served peer db serves c w' (ready' c.id) Consistency.local_one
                ping_text [] none fits.execute in
            subst (IsPing w) (sym (ping_asked (connections peer) cache c s w missing prepared rows))
              (record {
                outcome = refl;
                contents = rw (← same) after;
                consistent =
                    put-IsConsistent peer db serves cache faithful _ ping_text
                      (get-IsConsistent peer db serves cache documented s ping_text consistent);
                ready = keeping.execute_prepared c Consistency.local_one id [] none w' ready';
                flags = λ at. flags' at ∙ flags at;
              })
        | inr (found, e) ↦
            let known : (cache.get s ping_text).0 ≡ some id =
              e ∙ ap some (consistent.at ping_text found e) in
            let (rows, after, flags) =
              execute_prepared_served peer db serves c w (ready c.id) Consistency.local_one
                ping_text [] none fits.execute in
            subst (IsPing w) (sym (ping_found (connections peer) cache c s w known rows)) (record {
              outcome = refl;
              contents = after;
              consistent = get-IsConsistent peer db serves cache documented s ping_text consistent;
              ready = keeping.execute_prepared c Consistency.local_one id [] none w ready;
              flags = flags;
            })
      ]
