-- ===== src/Config/Component.antt =====
-- The component: src/component.cpp, with the holder of its session in include/cassandra/database.hpp and
-- src/database.cpp. The task processors of the service are a parameter, as is the cache of statements
-- of a pool, which is made with its ways and their size.
use cassandra_driver.Base.{
  ℕ, ◌≡◌, List, [], ◌∷◌, map, ltb, if◌then◌else◌, Option, none, some, All, codes, Bool-cases, inl,
  inr,
}
use cassandra_driver.Base.Result.{
  Result, ok, throws, format_exception, runtime_error, session_error, invalid_config, fault, stuck,
  ◌>>=◌,
}
use cassandra_driver.Io.{RawBuffer}
use cassandra_driver.Pool.Client.{Client, StatementCache}
use cassandra_driver.Pool.Init.{PoolSettings}
use cassandra_driver.Session.{SessionImpl, create_topology}
use cassandra_driver.Session.Nodes.{NodeDescription}
use cassandra_driver.Session.Topology.{create_topology_lem}
use cassandra_driver.Config.{
  YamlConfig, ConnectionSettings, SessionSettings, parse_connection_settings, parse_pool_settings,
}
use cassandra_driver.Config.Secdist.{
  CassandraSecdist, parse_secdist, get_sharded_cluster_description,
}
use cassandra_driver.Config.Written.{
  IsAuthorized, write_document, nodes_named, get_sharded_cluster_description-write_document,
  or_missing,
}

-- `As<std::string>()`: a member that is missing is userver's exception.
abbrev required : {A : Type 0} → Result (Option A) → Result A
required member = member >>= λ found. elim found [ none ↦ throws format_exception | some a ↦ ok a ]

-- The choice of `bg_task_processor`; `context.GetTaskProcessor` is the argument.
pub get_task_processor : (RawBuffer → Result (Unit {0})) → Option RawBuffer → Result (Unit {0})
get_task_processor named none = ok tt
get_task_processor named (some name) = named name

module _ (yaml : YamlConfig) (client : Client) (cache : StatementCache)
    (new_cache : ℕ → ℕ → cache.State) (named : RawBuffer → Result (Unit {0})) where
  pub record Database : Type 0 where
    pub session : SessionImpl client cache

  -- `Database::GetSessionPtr` and `Cassandra::GetSessionPtr`
  pub get_session_ptr : Database → SessionImpl client cache
  get_session_ptr database = database.session

  -- `Session::Session`
  pub new_session : List NodeDescription → SessionSettings → Result (SessionImpl client cache)
  new_session nodes settings =
      let pool = settings.pool_settings in
      create_topology client cache pool
        (new_cache pool.prepared_statement_cache_ways pool.prepared_statement_cache_way_size) nodes

  -- `Cassandra::Cassandra`
  pub cassandra : yaml.Config → CassandraSecdist → Result Database
  unfolding get_task_processor new_session
  cassandra config secdist = do
    keyspace ← required (yaml.as_string config (codes "keyspace"))
    nodes ← get_sharded_cluster_description keyspace secdist
    name ← yaml.as_string config (codes "blocking_task_processor")
    processor ← get_task_processor named name
    pool_settings ← parse_pool_settings yaml config
    connection_settings ← parse_connection_settings yaml config
    session ← new_session nodes (record {
      keyspace_name = keyspace;
      pool_settings = pool_settings;
      connection_settings = connection_settings;
    })
    ok (record { session = session })

  -- A pool for each node, none of them connected yet.
  pub pools : PoolSettings → List NodeDescription → SessionImpl client cache
  pools settings = map λ node. record {
    description = node;
    pool = record { connections = []; deleted = [] };
    statements =
        new_cache settings.prepared_statement_cache_ways settings.prepared_statement_cache_way_size;
    cache_enabled = settings.prepared_statement_cache_enabled;
  }

  -- What there is of a keyspace's nodes.
  unfoldable pub session_of :
      PoolSettings → Option (List NodeDescription) → Result (SessionImpl client cache)
  unfolding pools
  session_of settings none = throws runtime_error
  session_of settings (some []) = throws session_error
  session_of settings (some (node ∷ nodes)) =
      if ltb settings.max_size settings.min_size
      then throws invalid_config
      else ok (pools settings (node ∷ nodes))

  created :
      (config : yaml.Config) (keyspace : RawBuffer) (settings : PoolSettings)
      (connection_settings : ConnectionSettings) (secdist : CassandraSecdist)
      (nodes : Option (List NodeDescription))
      → yaml.as_string config (codes "keyspace") ≡ ok (some keyspace)
      → yaml.as_string config (codes "blocking_task_processor") ≡ ok none
      → parse_pool_settings yaml config ≡ ok settings
      → parse_connection_settings yaml config ≡ ok connection_settings
      → get_sharded_cluster_description keyspace secdist ≡ or_missing nodes
      → (cassandra config secdist >>= λ database. ok (get_session_ptr database))
        ≡ session_of settings nodes
  unfolding cassandra session_of get_session_ptr pools
  created config keyspace settings connection_settings secdist none k p s c e = rw (k, e)
  created config keyspace settings connection_settings secdist (some []) k p s c e =
      rw (k, e, p, s, c, create_topology_lem)
  created config keyspace settings connection_settings secdist (some (node ∷ nodes)) k p s c e =
      elim (Bool-cases (ltb settings.max_size settings.min_size)) [
        | inl over ↦ rw (k, e, p, s, c, create_topology_lem, over)
        | inr under ↦ rw (k, e, p, s, c, create_topology_lem, under)
      ]

  loaded :
      (config : yaml.Config) (keyspace : RawBuffer) (settings : PoolSettings)
      (connection_settings : ConnectionSettings) (secdist : Result CassandraSecdist)
      (nodes : Option (List NodeDescription))
      → yaml.as_string config (codes "keyspace") ≡ ok (some keyspace)
      → yaml.as_string config (codes "blocking_task_processor") ≡ ok none
      → parse_pool_settings yaml config ≡ ok settings
      → parse_connection_settings yaml config ≡ ok connection_settings
      → (secdist >>= get_sharded_cluster_description keyspace) ≡ or_missing nodes
      → (secdist >>= λ found. cassandra config found >>= λ database. ok (get_session_ptr database))
        ≡ session_of settings nodes
  unfolding session_of
  loaded config keyspace settings connection_settings (ok secdist) nodes k p s c e =
      created config keyspace settings connection_settings secdist nodes k p s c e
  loaded config keyspace settings connection_settings (throws x) none k p s c e = cc
  loaded config keyspace settings connection_settings (throws x) (some nodes) k p s c e = cc
  loaded config keyspace settings connection_settings fault none k p s c e = cc
  loaded config keyspace settings connection_settings fault (some nodes) k p s c e = cc
  loaded config keyspace settings connection_settings stuck none k p s c e = cc
  loaded config keyspace settings connection_settings stuck (some nodes) k p s c e = cc

  -- With the settings that its configuration has, on its own task processor, and a document in which each
  -- node has credentials exactly if it does not let everybody in, a component gives a session whose
  -- pools are those of the nodes of its keyspace, in their order, each with its node's description. A keyspace that the document does not name is a
  -- SecdistError, one without nodes a SessionError, and a minimum size above the maximum InvalidConfig.
  pub cassandra-write_document :
      (config : yaml.Config) (keyspace : RawBuffer) (settings : PoolSettings)
      (connection_settings : ConnectionSettings)
      (keyspaces : List (RawBuffer × List NodeDescription))
      → yaml.as_string config (codes "keyspace") ≡ ok (some keyspace)
      → yaml.as_string config (codes "blocking_task_processor") ≡ ok none
      → parse_pool_settings yaml config ≡ ok settings
      → parse_connection_settings yaml config ≡ ok connection_settings
      → All (λ (k : RawBuffer × List NodeDescription). All IsAuthorized k.1) keyspaces
      → (parse_secdist (write_document keyspaces) >>= λ secdist.
          cassandra config secdist >>= λ database. ok (get_session_ptr database))
        ≡ session_of settings (nodes_named keyspace keyspaces)
  cassandra-write_document config keyspace settings connection_settings keyspaces k p s c h =
      loaded config keyspace settings connection_settings (parse_secdist (write_document keyspaces))
        (nodes_named keyspace keyspaces) k p s c
        (get_sharded_cluster_description-write_document keyspace keyspaces h)
