-- ===== src/Examples/ConfigExamples.antt =====
-- A configuration and a document with the nodes of two keyspaces.
use cassandra_driver.Base.{
  ℕ, ◌≡◌, refl, inl, inr, List, [], ◌∷◌, map, Bool, true, false, Option, none, some, Occurs, codes,
  if◌then◌else◌, Bool-cases,
}
use cassandra_driver.Base.Result.{Result, ok, throws, runtime_error, format_exception, ◌>>=◌}
use cassandra_driver.Io.{RawBuffer}
use cassandra_driver.Io.Containers.Maps.{same_text, same_text→eq}
use cassandra_driver.Pool.Init.{PoolSettings, size_semaphore}
use cassandra_driver.Pool.Statements.{can_prepare_statement}
use cassandra_driver.Session.Nodes.{NodeDescription}
use cassandra_driver.Wire.{connections}
use cassandra_driver.Config.{
  YamlConfig, ConnectionSettings, parse_connection_settings, parse_pool_settings,
}
use cassandra_driver.Config.Secdist.{parse_secdist, get_sharded_cluster_description}
use cassandra_driver.Config.Written.{
  write_document, get_sharded_cluster_description-write_document, nodes_named,
}
use cassandra_driver.Config.Component.{
  get_session_ptr, cassandra, session_of, pools, cassandra-write_document,
}
use cassandra_driver.Config.Schema.{
  IsSchematic, schema_properties, is_among, is_among-false, parse_pool_settings-schema,
}
use cassandra_driver.Examples.PoolExamples.{keeping}
use cassandra_driver.Examples.NodeExamples.{counting}

data YamlValue : Type 0 where
  integer : ℕ → YamlValue
  boolean : Bool → YamlValue
  string : RawBuffer → YamlValue

abbrev member : List (RawBuffer × YamlValue) → RawBuffer → Option YamlValue
member [] key = none
member ((other, value) ∷ entries) key =
    let rest = member entries key in if same_text key other then some value else rest

abbrev as_integer : Option YamlValue → Result (Option ℕ)
as_integer none = ok none
as_integer (some (integer n)) = ok (some n)
as_integer (some (boolean b)) = throws format_exception
as_integer (some (string s)) = throws format_exception

abbrev as_boolean : Option YamlValue → Result (Option Bool)
as_boolean none = ok none
as_boolean (some (integer n)) = throws format_exception
as_boolean (some (boolean b)) = ok (some b)
as_boolean (some (string s)) = throws format_exception

abbrev as_text : Option YamlValue → Result (Option RawBuffer)
as_text none = ok none
as_text (some (integer n)) = throws format_exception
as_text (some (boolean b)) = throws format_exception
as_text (some (string s)) = ok (some s)

abbrev entries_yaml : YamlConfig
entries_yaml = record {
  Config = List (RawBuffer × YamlValue);
  as_size = λ c key. as_integer (member c key);
  as_int = λ c key. as_integer (member c key);
  as_bool = λ c key. as_boolean (member c key);
  as_string = λ c key. as_text (member c key);
}

abbrev config : List (RawBuffer × YamlValue)
config =
    (codes "keyspace", string (codes "ks"))
    ∷ (codes "min-pool-size", integer 2)
    ∷ (codes "persistent-prepared-statements", boolean false)
    ∷ (codes "max-ttl-sec", integer 60)
    ∷ []

abbrev settings : PoolSettings
settings = record {
  min_size = 2;
  max_size = 15;
  max_queue_size = 200;
  connecting_limit = 0;
  prepared_statement_cache_ways = 16;
  prepared_statement_cache_way_size = 200;
  prepared_statement_cache_enabled = true;
}

abbrev connection_settings : ConnectionSettings
connection_settings = record { max_ttl = some 60; recent_errors_threshold = 2 }

settings_parsed : parse_pool_settings entries_yaml config ≡ ok settings
unfolding parse_pool_settings same_text
settings_parsed = refl

connection_settings_parsed : parse_connection_settings entries_yaml config ≡ ok connection_settings
unfolding parse_connection_settings same_text
connection_settings_parsed = refl

member_keyspace : entries_yaml.as_string config (codes "keyspace") ≡ ok (some (codes "ks"))
unfolding same_text
member_keyspace = refl

member_processor : entries_yaml.as_string config (codes "blocking_task_processor") ≡ ok none
unfolding same_text
member_processor = refl

missing :
    (key : RawBuffer) (c : List (RawBuffer × YamlValue))
    → ¬ Occurs key (map (λ e. e.0) c)
    → member c key ≡ none
missing key [] h = refl
missing key ((other, value) ∷ entries) h = elim (Bool-cases (same_text key other)) [
  | inl same ↦ absurd (h (inl (same_text→eq key other same)))
  | inr differs ↦ rw (differs, missing key entries (λ o. h (inr o)))
]

in_schema : (key : RawBuffer) → Occurs key (map (λ e. e.0) config) → Occurs key schema_properties
unfolding schema_properties
in_schema key (inl e) = inl e
in_schema key (inr (inl e)) = inr (inr (inl e))
in_schema key (inr (inr (inl e))) = inr (inr (inr (inr (inr (inr (inl e))))))
in_schema key (inr (inr (inr (inl e)))) = inr (inr (inr (inr (inr (inr (inr (inl e)))))))
in_schema key (inr (inr (inr (inr o)))) = absurd o

config-IsSchematic : IsSchematic entries_yaml (codes "load-enabled" ∷ []) config
config-IsSchematic key outside other =
    let gone : member config key ≡ none = missing key config (λ o. outside (in_schema key o)) in
    (rw gone, rw gone)

never_disabled :
    (can_prepare_statement none true ≡ true)
    × (size_semaphore settings ≡ none)
    × (connection_settings.recent_errors_threshold ≡ 2)
unfolding is_among same_text
never_disabled =
    parse_pool_settings-schema entries_yaml (codes "load-enabled" ∷ []) config config-IsSchematic
      (is_among-false (codes "persistentprepared-statement") (codes "load-enabled" ∷ []) refl)
      (is_among-false (codes "recent-errors-threshold") (codes "load-enabled" ∷ []) refl)
      settings_parsed connection_settings_parsed

abbrev node : ℕ → NodeDescription
node port = record {
  use_ssl = false;
  use_compression = true;
  allow_all = true;
  password_authetificator = none;
  contact_point = codes "10.0.0.1";
  port = port;
}

abbrev guarded : NodeDescription
guarded = record {
  use_ssl = true;
  use_compression = false;
  allow_all = false;
  password_authetificator = some (record { username = codes "user"; password = codes "pw" });
  contact_point = codes "10.0.0.2";
  port = 9142;
}

abbrev keyspaces : List (RawBuffer × List NodeDescription)
keyspaces =
    (codes "ks", node 9042 ∷ guarded ∷ [])
    ∷ (codes "other", node 9043 ∷ [])
    ∷ (codes "ks", node 9044 ∷ [])
    ∷ []

described :
    (parse_secdist (write_document keyspaces) >>= get_sharded_cluster_description (codes "ks"))
    ≡ ok (node 9042 ∷ guarded ∷ node 9044 ∷ [])
unfolding nodes_named same_text
described =
    get_sharded_cluster_description-write_document (codes "ks") keyspaces
      ((refl, (refl, tt)), ((refl, tt), ((refl, tt), tt)))

three_pools :
    (parse_secdist (write_document keyspaces) >>= λ secdist.
    cassandra entries_yaml
      (connections counting)
      keeping
      (λ ways size. [])
      (λ name. throws runtime_error)
      config
      secdist
    >>= λ database. ok (
        get_session_ptr entries_yaml
          (connections counting)
          keeping
          (λ ways size. [])
          (λ name. throws runtime_error)
          database))
    ≡ ok (
        pools entries_yaml
          (connections counting)
          keeping
          (λ ways size. [])
          (λ name. throws runtime_error)
          settings
          (node 9042 ∷ guarded ∷ node 9044 ∷ []))
unfolding nodes_named same_text session_of
three_pools =
    cassandra-write_document entries_yaml (connections counting) keeping (λ ways size. [])
      (λ name. throws runtime_error) config (codes "ks") settings connection_settings keyspaces
      member_keyspace member_processor settings_parsed connection_settings_parsed
      ((refl, (refl, tt)), ((refl, tt), ((refl, tt), tt)))
