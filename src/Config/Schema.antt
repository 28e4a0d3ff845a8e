-- ===== src/Config/Schema.antt =====
-- The members that the schema of src/component.cpp allows, and what the settings are then.
use cassandra_driver.Base.{
  ◌≡◌, refl, inl, inr, List, [], ◌∷◌, Bool, true, false, none, Occurs, codes, arith,
}
use cassandra_driver.Base.Result.{ok}
use cassandra_driver.Io.{RawBuffer}
use cassandra_driver.Io.Containers.Maps.{same_text, same_text_refl}
use cassandra_driver.Pool.Init.{PoolSettings, size_semaphore}
use cassandra_driver.Pool.Statements.{can_prepare_statement}
use cassandra_driver.Config.{
  YamlConfig, ConnectionSettings, parse_connection_settings, parse_pool_settings,
}

-- `properties` of `kFullStaticConfigSchema`
unfoldable pub schema_properties : List RawBuffer
schema_properties =
    codes "keyspace"
    ∷ codes "blocking_task_processor"
    ∷ codes "min-pool-size"
    ∷ codes "max-pool-size"
    ∷ codes "sync-start"
    ∷ codes "dns_resolver"
    ∷ codes "persistent-prepared-statements"
    ∷ codes "max-ttl-sec"
    ∷ codes "prepared-statement-cache-ways"
    ∷ codes "prepared-statement-cache-way-size"
    ∷ codes "max-queue-size"
    ∷ []

unfoldable pub is_among : RawBuffer → List RawBuffer → Bool
is_among key [] = false
is_among key (other ∷ others) =
    let rest = is_among key others in elim (same_text key other) [ true ↦ true | false ↦ rest ]

pub is_among-false :
    (key : RawBuffer) (keys : List RawBuffer) → is_among key keys ≡ false → ¬ Occurs key keys
unfolding is_among
is_among-false key [] e o = absurd o
is_among-false key (other ∷ others) e (inl same) = ground (arith, same, same_text_refl key)
is_among-false key (other ∷ others) e (inr o) = is_among-false key others (ground arith) o

module _ (yaml : YamlConfig) where
  -- `additionalProperties: false`: a member that is no property, also not of the base component, is not
  -- there.
  abbrev pub IsSchematic : List RawBuffer → yaml.Config → Type 0
  IsSchematic base config =
      (key : RawBuffer)
      → ¬ Occurs key schema_properties
      → ¬ Occurs key base
      → (yaml.as_size config key ≡ ok none) × (yaml.as_bool config key ≡ ok none)

  -- If the configuration keeps to the schema, and the base component has neither key that is read besides,
  -- the settings that it is read as let statements be prepared unless a call says otherwise, whatever
  -- `persistent-prepared-statements` is, and open connections without a limit, and the threshold of recent
  -- errors is 2.
  pub parse_pool_settings-schema :
      (base : List RawBuffer) (config : yaml.Config) {settings : PoolSettings}
      {connection_settings : ConnectionSettings}
      → IsSchematic base config
      → ¬ Occurs (codes "persistentprepared-statement") base
      → ¬ Occurs (codes "recent-errors-threshold") base
      → parse_pool_settings yaml config ≡ ok settings
      → parse_connection_settings yaml config ≡ ok connection_settings
      → (can_prepare_statement none settings.prepared_statement_cache_enabled ≡ true)
        × (size_semaphore settings ≡ none)
        × (connection_settings.recent_errors_threshold ≡ 2)
  unfolding is_among schema_properties same_text parse_pool_settings parse_connection_settings
      can_prepare_statement size_semaphore
  parse_pool_settings-schema base config schematic absent absent' p c =
      let no_flag =
        (schematic (codes "persistentprepared-statement")
          (is_among-false (codes "persistentprepared-statement") schema_properties refl)
          absent).1 in
      let no_threshold =
        (schematic (codes "recent-errors-threshold")
          (is_among-false (codes "recent-errors-threshold") schema_properties refl) absent').0 in
      (ground (arith, p, no_flag), ground (arith, p), ground (arith, c, no_threshold))
