-- ===== src/Examples/OpeningExamples.antt =====
-- Settings of a pool.
use cassandra_driver.Base.{ℕ, true}
use cassandra_driver.Pool.Init.{PoolSettings}

-- Settings with these sizes and this limit.
abbrev pub default_settings : ℕ → ℕ → ℕ → PoolSettings
default_settings min_size max_size connecting_limit = record {
  min_size = min_size;
  max_size = max_size;
  max_queue_size = 200;
  connecting_limit = connecting_limit;
  prepared_statement_cache_ways = 1;
  prepared_statement_cache_way_size = 100;
  prepared_statement_cache_enabled = true;
}
