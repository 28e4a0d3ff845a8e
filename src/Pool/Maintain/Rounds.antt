-- ===== src/Pool/Maintain/Rounds.antt =====
-- The rounds of `Maintain` (src/detail/connection_pool.cpp), by what the ping of a connection gives.
use cassandra_driver.Base.{
  ℕ, suc, ◌≤◌, ◌≡◌, ap, List, [], ◌∷◌, ◌++◌, true, false, none, some, arith,
}
use cassandra_driver.Base.Result.{ok}
use cassandra_driver.Io.{RawBuffer}
use cassandra_driver.Protocol.Requests.{Consistency}
use cassandra_driver.Pool.{Connection, ConnectionPool, acquire_immediate, take_first, release}
use cassandra_driver.Pool.Acquire.{IsEligible}
use cassandra_driver.Pool.Client.{Client, StatementCache}
use cassandra_driver.Pool.Maintain.{
  Maintaining, ping_text, ping, drops_idle, close_round, ping_round, maintain_loop, goes_on,
}

-- The first connection of a pool that may take a request is the one that `AcquireImmediate` takes.
pub acquire_immediate_first :
    (now : ℕ) (p : ConnectionPool) (c : Connection) (cs : List Connection)
    → p.connections ≡ c ∷ cs
    → IsEligible now c
    → acquire_immediate now p ≡ (some c, record { connections = cs; deleted = p.deleted ++ [] })
unfolding acquire_immediate take_first
acquire_immediate_first now p c cs e h = ground (arith, e, h)

-- A connection that may take a request goes back to the end of the pool.
pub release_eligible :
    (now : ℕ) (c : Connection) (p : ConnectionPool)
    → IsEligible now c
    → (release now c p).connections ≡ p.connections ++ c ∷ []
unfolding release
release_eligible now c p h = ground (arith, h)

-- What `Maintain` has asked before it closes a connection.
pub drops_idle-bounds :
    (min_size pool_size drop_left : ℕ) (c : Connection)
    → drops_idle pool_size min_size drop_left c ≡ true
    → (suc min_size ≤ pool_size) × (1 ≤ drop_left)
unfolding drops_idle
drops_idle-bounds min_size pool_size drop_left c e = ground arith

module _ (client : Client) (cache : StatementCache) where
  pub ping_found :
      (c : Connection) (s : cache.State) (w : client.World) {id : RawBuffer} {rows : client.Rows}
      → (cache.get s ping_text).0 ≡ some id
      → (client.execute_prepared c Consistency.local_one id [] none w).0 ≡ ok rows
      → ping client cache c s w ≡ record {
        outcome = ok tt;
        statements = (cache.get s ping_text).1;
        world = (client.execute_prepared c Consistency.local_one id [] none w).1;
      }
  unfolding ping
  ping_found c s w found answered = rw (ping, found, answered)

  pub ping_asked :
      (c : Connection) (s : cache.State) (w : client.World) {id : RawBuffer} {rows : client.Rows}
      → (cache.get s ping_text).0 ≡ none
      → (client.prepare c ping_text w).0 ≡ ok id
      → (client.execute_prepared c Consistency.local_one id [] none
          (client.prepare c ping_text w).1).0
        ≡ ok rows
      → ping client cache c s w ≡ record {
        outcome = ok tt;
        statements = cache.put (cache.get s ping_text).1 ping_text id;
        world =
            (client.execute_prepared c Consistency.local_one id [] none
              (client.prepare c ping_text w).1).1;
      }
  unfolding ping
  ping_asked c s w missing prepared answered = rw (ping, missing, prepared, answered)

  module _ (now min_size : ℕ) where
    pub maintain_loop_closes :
        (pool_size : ℕ) (m : Maintaining client cache) (c : Connection) (left : ConnectionPool)
        → acquire_immediate now m.pool ≡ (some c, left)
        → drops_idle (suc pool_size) min_size m.drop_left c ≡ true
        → maintain_loop client cache now min_size (suc pool_size) m
          ≡ maintain_loop client cache now min_size pool_size
              (close_round client cache now min_size c left m)
    unfolding maintain_loop
    maintain_loop_closes pool_size m c left taken idle =
        rw (maintain_loop, taken, idle)
          (ap
            (λ t.
              maintain_loop client cache now min_size pool_size
                (close_round client cache now min_size c t.1 m))
            taken)

    pub maintain_loop_pings :
        (pool_size : ℕ) (m : Maintaining client cache) (c : Connection) (left : ConnectionPool)
        → acquire_immediate now m.pool ≡ (some c, left)
        → drops_idle (suc pool_size) min_size m.drop_left c ≡ false
        → (ping client cache c m.statements m.world).outcome ≡ ok tt
        → maintain_loop client cache now min_size (suc pool_size) m
          ≡ maintain_loop client cache now min_size pool_size
              (ping_round client cache now min_size c left m).1
    unfolding maintain_loop ping_round goes_on
    maintain_loop_pings pool_size m c left taken busy pinged =
        rw (maintain_loop, taken, busy, pinged)
          (ap
            (λ t.
              maintain_loop client cache now min_size pool_size
                (ping_round client cache now min_size c t.1 m).1)
            taken)
