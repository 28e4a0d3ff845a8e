-- ===== src/Session/Upkeep.antt =====
-- The rounds of a pool's maintenance (src/detail/connection_pool.cpp) over a node that serves a database:
-- what each leaves of the pool, and of the database.
use cassandra_driver.Base.{
  ℕ, zero, suc, ◌-◌, ◌≤◌, ◌≡◌, ◌⊎◌, ◌∙◌, inl, inr, refl, sym, ap, subst, List, [], ◌∷◌, ◌++◌,
  length, length-append, All, All-append, Bool-cases, arith,
}
use cassandra_driver.Base.Result.{Result, ok}
use cassandra_driver.Protocol.Requests.{Consistency}
use cassandra_driver.Pool.{Connection, ConnectionPool, delete_connection}
use cassandra_driver.Pool.Client.{StatementCache, CacheDocumented, CacheFaithful}
use cassandra_driver.Pool.Maintain.{
  Maintaining, ping, ping_text, drops_idle, ping_round, close_round, maintain_loop,
}
use cassandra_driver.Pool.Maintain.Rounds.{
  drops_idle-bounds, acquire_immediate_first, release_eligible, maintain_loop_closes,
  maintain_loop_pings,
}
use cassandra_driver.Wire.{Peer, connections, refresh_connection}
use cassandra_driver.Wire.Node.{Database, Serves}
use cassandra_driver.Wire.Node.Refines.{IsReadyWorld, IsConsistent, FitsStatement}
use cassandra_driver.Wire.Node.Pinged.{IsPing, ping-IsPing}
use cassandra_driver.Session.Usable.{
  IsUsable, usable-IsEligible, SameFlags-IsUsable, refreshed-IsUsable,
}

-- So many runs of the ping.
pub pings : (db : Database) → ℕ → db.Contents → db.Contents
pings db zero d = d
pings db (suc count) d = pings db count (db.run d ping_text []).1

pub pings-unchanged :
    (db : Database) (unchanged : (d : db.Contents) → (db.run d ping_text []).1 ≡ d) (count : ℕ)
    (d : db.Contents)
    → pings db count d ≡ d
unfolding pings
pings-unchanged db unchanged zero d = refl
pings-unchanged db unchanged (suc count) d =
    pings-unchanged db unchanged count (db.run d ping_text []).1 ∙ unchanged d

module _ (peer : Peer) (db : Database) (serves : Serves peer db) (cache : StatementCache) where
  -- Between two rounds: a pool of usable connections, and what the next ping needs.
  pub record IsUpkeep (m : Maintaining (connections peer) cache) : Type 0 where
    pub first : Connection
    pub others : List Connection
    pub opened : m.pool.connections ≡ first ∷ others
    pub usable : All (IsUsable peer m.world) (first ∷ others)
    pub consistent : IsConsistent peer db serves cache m.statements
    pub ready : IsReadyWorld peer db serves cache m.world

  rebuilt :
      (m : Maintaining (connections peer) cache) (others : List Connection) (last : Connection)
      → m.pool.connections ≡ others ++ last ∷ []
      → All (IsUsable peer m.world) (others ++ last ∷ [])
      → IsConsistent peer db serves cache m.statements
      → IsReadyWorld peer db serves cache m.world
      → IsUpkeep m
  rebuilt m [] last e usable consistent ready = record {
    first = last;
    others = [];
    opened = e;
    usable = usable;
    consistent = consistent;
    ready = ready;
  }
  rebuilt m (d ∷ ds) last e usable consistent ready = record {
    first = d;
    others = ds ++ last ∷ [];
    opened = e;
    usable = usable;
    consistent = consistent;
    ready = ready;
  }

  -- What so many rounds may still close leaves a connection.
  abbrev LeavesOne : ℕ → Maintaining (connections peer) cache → Type 0
  LeavesOne pool_size m =
      (m.drop_left ≡ 0) ⊎ ((m.drop_left ≡ 1) × (pool_size ≤ length m.pool.connections))

  -- Rounds that ended as they should.
  pub record Went (m : Maintaining (connections peer) cache)
      (r : Result (Unit {0}) × Maintaining (connections peer) cache) : Type 0 where
    pub outcome : r.0 ≡ ok tt
    pub count : ℕ
    pub contents : serves.contents r.1.world.node ≡ pings db count (serves.contents m.world.node)
    pub upkeep : IsUpkeep r.1

  module _ (documented : CacheDocumented cache) (faithful : CacheFaithful cache) (now min_size : ℕ)
      (fits : FitsStatement peer db serves cache Consistency.local_one ping_text []) where
    -- A connection that is closed leaves the others.
    closed-IsUpkeep :
        (m : Maintaining (connections peer) cache) (c : Connection) (left : ConnectionPool)
        (others : List Connection)
        → left.connections ≡ others
        → 1 ≤ length others
        → All (IsUsable peer m.world) others
        → IsConsistent peer db serves cache m.statements
        → IsReadyWorld peer db serves cache m.world
        → IsUpkeep (close_round (connections peer) cache now min_size c left m)
    unfolding close_round delete_connection
    closed-IsUpkeep m c left [] e some_left usable consistent ready =
        absurd (omega (arith, some_left))
    closed-IsUpkeep m c left (d ∷ ds) e some_left usable consistent ready = record {
      first = d;
      others = ds;
      opened = e;
      usable = usable;
      consistent = consistent;
      ready = ready;
    }

    pinged-IsUpkeep :
        (m : Maintaining (connections peer) cache) (c : Connection) (left : ConnectionPool)
        (others : List Connection)
        → left.connections ≡ others
        → All (IsUsable peer m.world) (c ∷ others)
        → IsPing peer db serves cache m.world (ping (connections peer) cache c m.statements m.world)
        → let n = (ping_round (connections peer) cache now min_size c left m).1 in
          IsUpkeep n × (length n.pool.connections ≡ suc (length others))
    unfolding ping_round
    pinged-IsUpkeep m c left others e (usable, usables) went =
        let w' = (ping (connections peer) cache c m.statements m.world).world in
        let kept = SameFlags-IsUsable peer m.world w' (c ∷ others) went.flags (usable, usables) in
        let back = refreshed-IsUsable peer w' c kept.0.1 in
        let released =
          release_eligible now (refresh_connection peer w' c) left
            (usable-IsEligible peer now w' (refresh_connection peer w' c) back) in
        let all = released ∙ ap (λ cs. cs ++ refresh_connection peer w' c ∷ []) e in
        (
          rebuilt (ping_round (connections peer) cache now min_size c left m).1 others
              (refresh_connection peer w' c) all
              (All-append (IsUsable peer w') others (refresh_connection peer w' c ∷ []) kept.1
                (back, tt))
              went.consistent went.ready,
          ap length all ∙ omega (arith, length-append others (refresh_connection peer w' c ∷ [])),
        )

    last_drop :
        (pool_size : ℕ) (m : Maintaining (connections peer) cache) (others : List Connection)
        → length m.pool.connections ≡ suc (length others)
        → suc min_size ≤ suc pool_size
        → 1 ≤ m.drop_left
        → 1 ≤ min_size
        → LeavesOne (suc pool_size) m
        → (m.drop_left - 1 ≡ 0) × (1 ≤ length others)
    last_drop pool_size m others as_many above may floor (inl none_left) =
        absurd (omega (arith, may, none_left))
    last_drop pool_size m others as_many above may floor (inr (one, le)) =
        (omega (arith, one), omega (arith, as_many, above, floor, le))

    still_leaves :
        (pool_size : ℕ) (m n : Maintaining (connections peer) cache)
        → LeavesOne (suc pool_size) m
        → n.drop_left ≡ m.drop_left
        → length n.pool.connections ≡ length m.pool.connections
        → LeavesOne pool_size n
    still_leaves pool_size m n (inl none_left) same len = inl (same ∙ none_left)
    still_leaves pool_size m n (inr (one, le)) same len = inr (same ∙ one, omega (arith, len, le))

    pub maintain_loop-Went :
        (pool_size : ℕ) (m : Maintaining (connections peer) cache)
        → 1 ≤ min_size
        → LeavesOne pool_size m
        → IsUpkeep m
        → Went m (maintain_loop (connections peer) cache now min_size pool_size m)
    unfolding maintain_loop ping_round close_round pings
    maintain_loop-Went zero m floor leaves up = record {
      outcome = refl;
      count = 0;
      contents = refl;
      upkeep = up;
    }
    maintain_loop-Went (suc pool_size) m floor leaves up =
        let c = up.first in
        let left : ConnectionPool = record {
          connections = up.others;
          deleted = m.pool.deleted ++ [];
        } in
        let taken =
          acquire_immediate_first now m.pool c up.others up.opened
            (usable-IsEligible peer now m.world c up.usable.0) in
        let as_many : length m.pool.connections ≡ suc (length up.others) = ap length up.opened in
        elim (Bool-cases (drops_idle (suc pool_size) min_size m.drop_left c)) [
          | inl idle ↦
              let n = close_round (connections peer) cache now min_size c left m in
              let (above, may) = drops_idle-bounds min_size (suc pool_size) m.drop_left c idle in
              let (none_left, some_left) =
                last_drop pool_size m up.others as_many above may floor leaves in
              let rest = maintain_loop-Went pool_size n floor (inl none_left) (
                closed-IsUpkeep m c left up.others refl some_left up.usable.1 up.consistent
                  up.ready) in
              subst (Went m)
                (sym (
                  maintain_loop_closes (connections peer) cache now min_size pool_size m c left
                    taken idle))
                (record {
                  outcome = rest.outcome;
                  count = rest.count;
                  contents = rest.contents;
                  upkeep = rest.upkeep;
                })
          | inr busy ↦
              let n = (ping_round (connections peer) cache now min_size c left m).1 in
              let went =
                ping-IsPing peer db serves cache documented faithful c m.statements m.world
                  up.consistent up.ready fits in
              let (upkeep, len) = pinged-IsUpkeep m c left up.others refl up.usable went in
              let rest =
                maintain_loop-Went pool_size n floor
                  (still_leaves pool_size m n leaves refl (len ∙ sym as_many)) upkeep in
              subst (Went m)
                (sym (
                  maintain_loop_pings (connections peer) cache now min_size pool_size m c left taken
                    busy went.outcome))
                (record {
                  outcome = rest.outcome;
                  count = suc rest.count;
                  contents = rest.contents ∙ ap (pings db rest.count) went.contents;
                  upkeep = rest.upkeep;
                })
        ]
