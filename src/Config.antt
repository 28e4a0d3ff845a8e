-- ===== src/Config.antt =====
-- The settings of the component and what reads them: src/cassandra_configs.cpp, over the settings of
-- include/cassandra/options.hpp. The members of a YAML value are read by userver, which is a parameter.
pub mod Secdist
pub mod Written
pub mod Component
pub mod Schema
use cassandra_driver.Base.{
  ℕ, ◌+◌, ◌-◌, ◌^◌, Bool, true, ltb, if◌then◌else◌, Option, none, some, codes,
}
use cassandra_driver.Base.Result.{Result, ok, ◌>>=◌}
use cassandra_driver.Io.{RawBuffer}
use cassandra_driver.Pool.Init.{PoolSettings}

-- `config[key].As<std::optional<T>>()` for the types that the driver takes: nothing if the member is
-- missing, and an exception if it is of another type. An int is its bit pattern.
pub record YamlConfig : Type 1 where
  pub Config : Type 0
  pub as_size : Config → RawBuffer → Result (Option ℕ)
  pub as_int : Config → RawBuffer → Result (Option ℕ)
  pub as_bool : Config → RawBuffer → Result (Option Bool)
  pub as_string : Config → RawBuffer → Result (Option RawBuffer)

-- `max_ttl` is the bit pattern of its count of seconds.
pub record ConnectionSettings : Type 0 where
  pub max_ttl : Option ℕ
  pub recent_errors_threshold : ℕ

pub record SessionSettings : Type 0 where
  pub keyspace_name : RawBuffer
  pub pool_settings : PoolSettings
  pub connection_settings : ConnectionSettings

-- `As<T>(default)`
abbrev pub value_or : {A : Type 0} → A → Option A → A
value_or default none = default
value_or default (some a) = a

abbrev pub with_default : {A : Type 0} → A → Result (Option A) → Result A
with_default default member = member >>= λ found. ok (value_or default found)

-- The bits of an int, as those of the 64 bits of std::chrono::seconds.
pub to_seconds : ℕ → ℕ
to_seconds n = if ltb n (2 ^ 31) then n else n + (2 ^ 64 - 2 ^ 32)

pub seconds_of : Option ℕ → Option ℕ
unfolding to_seconds
seconds_of none = none
seconds_of (some n) = some (to_seconds n)

module _ (yaml : YamlConfig) where
  -- `Parse(config, To<ConnectionSettings>)`
  unfoldable pub parse_connection_settings : yaml.Config → Result ConnectionSettings
  unfolding seconds_of
  parse_connection_settings config = do
    max_ttl ← yaml.as_int config (codes "max-ttl-sec")
    threshold ← with_default 2 (yaml.as_size config (codes "recent-errors-threshold"))
    ok (record { max_ttl = seconds_of max_ttl; recent_errors_threshold = threshold })

  -- `Parse(config, To<PoolSettings>)`: `connecting_limit` keeps its initialiser.
  unfoldable pub parse_pool_settings : yaml.Config → Result PoolSettings
  parse_pool_settings config = do
    min_size ← with_default 4 (yaml.as_size config (codes "min-pool-size"))
    max_size ← with_default 15 (yaml.as_size config (codes "max-pool-size"))
    max_queue_size ← with_default 200 (yaml.as_size config (codes "max-queue-size"))
    ways ← with_default 16 (yaml.as_size config (codes "prepared-statement-cache-ways"))
    way_size ← with_default 200 (yaml.as_size config (codes "prepared-statement-cache-way-size"))
    enabled ← with_default true (yaml.as_bool config (codes "persistentprepared-statement"))
    ok (record {
      min_size = min_size;
      max_size = max_size;
      max_queue_size = max_queue_size;
      connecting_limit = 0;
      prepared_statement_cache_ways = ways;
      prepared_statement_cache_way_size = way_size;
      prepared_statement_cache_enabled = enabled;
    })
