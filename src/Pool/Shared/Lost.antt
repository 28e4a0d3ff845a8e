-- ===== src/Pool/Shared/Lost.antt =====
-- A call of a pool (src/detail/connection_pool.cpp) whose connection goes before it has a stream.
use cassandra_driver.Base.{ℕ, Bool, ◌<◌, ◌≡◌, List, Occurs}
use cassandra_driver.Pool.Init.{PoolSettings}
use cassandra_driver.Pool.Shared.{Shared, deleted_ids, Reaches}

-- The connection is deleted while a call holds it, and while one has a stream of it.
abbrev IsLost : PoolSettings → (ℕ → Bool) → ℕ → Type 0
IsLost settings broken id =
    ((t : Shared) × Reaches settings t
      × Occurs id (deleted_ids t)
      × (0 < t.waiting id)
      × (t.broken ≡ broken))
    × ((u : Shared) × Reaches settings u
        × Occurs id (deleted_ids u)
        × (0 < u.guards id)
        × (u.broken ≡ broken))
