-- ===== src/Pool/Maintain.antt =====
-- The periodic maintenance: `ConnectionPool::Maintain` of src/detail/connection_pool.cpp.
pub mod Keeps
pub mod Floor
pub mod Rounds
use cassandra_driver.Base.{
  ℕ, zero, suc, ◌-◌, List, [], ◌∷◌, Bool, true, false, ◌&&◌, ltb, if◌then◌else◌, Option, none, some,
  length, codes,
}
use cassandra_driver.Base.Result.{
  Result, ok, throws, fault, stuck, Exception, ErrorCode, frame_error, session_error,
  invalid_config, connection_error, pool_error,
}
use cassandra_driver.Io.{RawBuffer}
use cassandra_driver.Protocol.Requests.{Consistency}
use cassandra_driver.Pool.{
  Connection, ConnectionPool, is_idle, delete_connection, acquire_immediate, release,
}
use cassandra_driver.Pool.Client.{Client, StatementCache}

-- `kPing`
abbrev pub ping_text : RawBuffer
ping_text = codes "SELECT cluster_name FROM system.local"

-- The classes that `catch (const exceptions::RuntimeError&)` takes.
is_runtime_error : Exception → Bool
is_runtime_error session_error = true
is_runtime_error invalid_config = true
is_runtime_error connection_error = true
is_runtime_error pool_error = true
is_runtime_error (frame_error code message) = true
is_runtime_error _ = false

-- Goes on after a value or a caught exception.
pub goes_on : Result (Unit {0}) → Bool
unfolding is_runtime_error
goes_on (ok _) = true
goes_on (throws e) = is_runtime_error e
goes_on fault = false
goes_on stuck = false

-- The tests of a round that decide between closing and pinging.
unfoldable pub drops_idle : ℕ → ℕ → ℕ → Connection → Bool
unfolding is_idle
drops_idle pool_size min_size drop_left c = ltb min_size pool_size && (ltb 0 drop_left && is_idle c)

module _ (client : Client) (cache : StatementCache) where
  pub record Pinged : Type 0 where
    pub outcome : Result (Unit {0})
    pub statements : cache.State
    pub world : client.World

  -- The value of a call is dropped; its exception is not.
  drop_value : Result client.Rows → Result (Unit {0})
  drop_value (ok rows) = ok tt
  drop_value (throws e) = throws e
  drop_value fault = fault
  drop_value stuck = stuck

  -- `catch (const exceptions::Unprepared&)` empties the cache.
  after_cached : Result client.Rows → cache.State → client.World → Pinged
  unfolding drop_value
  after_cached (throws (frame_error ErrorCode.unprepared message)) s w = record {
    outcome = ok tt;
    statements = cache.invalidate s;
    world = w;
  }
  after_cached r s w = record { outcome = drop_value r; statements = s; world = w }

  after_prepare : Connection → Result RawBuffer → cache.State → client.World → Pinged
  unfolding drop_value
  after_prepare c (ok id) s w =
      let (r, w') = client.execute_prepared c Consistency.local_one id [] none w in
      record { outcome = drop_value r; statements = cache.put s ping_text id; world = w' }
  after_prepare c (throws e) s w = record { outcome = throws e; statements = s; world = w }
  after_prepare c fault s w = record { outcome = fault; statements = s; world = w }
  after_prepare c stuck s w = record { outcome = stuck; statements = s; world = w }

  -- The ping of one connection.
  pub ping : Connection → cache.State → client.World → Pinged
  unfolding after_cached after_prepare
  ping c s w =
      let (found, s') = cache.get s ping_text in
      elim found [
        | none ↦ let (r, w') = client.prepare c ping_text w in after_prepare c r s' w'
        | some id ↦
            let (r, w') = client.execute_prepared c Consistency.local_one id [] none w in
            after_cached r s' w'
      ]

  pub record Maintaining : Type 0 where
    pub pool : ConnectionPool
    pub statements : cache.State
    pub world : client.World
    pub drop_left : ℕ

  -- What the rounds see of the time and the settings.
  module _ (now min_size : ℕ) where
    -- After the ping the connection goes back through `Release`, also when the ping threw.
    unfoldable pub ping_round :
        Connection → ConnectionPool → Maintaining → Result (Unit {0}) × Maintaining
    unfolding ping
    ping_round c left m =
        let pinged = ping c m.statements m.world in
        (
          pinged.outcome,
          record {
            pool = release now (client.refresh pinged.world c) left;
            statements = pinged.statements;
            world = pinged.world;
            drop_left = m.drop_left;
          },
        )

    -- `conn->Close()`, and then the deleter.
    unfoldable pub close_round : Connection → ConnectionPool → Maintaining → Maintaining
    unfolding delete_connection
    close_round c left m = record m { pool = delete_connection c left; drop_left = m.drop_left - 1 }

    -- `while (pool_size > 0) { …; --pool_size; }`
    unfoldable pub maintain_loop : ℕ → Maintaining → Result (Unit {0}) × Maintaining
    maintain_loop zero m = (ok tt, m)
    maintain_loop (suc pool_size) m =
        let (taken, left) = acquire_immediate now m.pool in
        elim taken [
          | none ↦ (ok tt, record m { pool = left })
          | some c ↦ elim (drops_idle (suc pool_size) min_size m.drop_left c) [
            | true ↦ maintain_loop pool_size (close_round c left m)
            | false ↦
                let (r, m') = ping_round c left m in
                elim (goes_on r) [ true ↦ maintain_loop pool_size m' | false ↦ (r, m') ]
          ]
        ]

    -- `Maintain`: nothing while clients wait; otherwise as many rounds as there are connections, and
    -- one idle connection at most is closed.
    unfoldable pub maintain :
        ℕ → ConnectionPool → cache.State → client.World → Result (Unit {0}) × Maintaining
    unfolding maintain_loop
    maintain wait_count p s w =
        let start : Maintaining = record { pool = p; statements = s; world = w; drop_left = 1 } in
        if ltb 0 wait_count then (ok tt, start) else maintain_loop (length p.connections) start
