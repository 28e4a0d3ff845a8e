-- ===== src/Pool/Shared/Returned.antt =====
-- That the permits of a pool (src/detail/connection_pool.cpp) can come back.
use cassandra_driver.Pool.Shared.{Shared}
