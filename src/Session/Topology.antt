-- ===== src/Session/Topology.antt =====
-- Which sessions include/cassandra/node_description.hpp and src/session_impl.cpp make, and what they are
-- before a connection is there.
use cassandra_driver.Base.{
  ℕ, ◌≤◌, ◌≡◌, ◌↔◌, inl, inr, refl, subst, List, [], ◌∷◌, Bool, true, false, ltb, le→ltb, arith,
  map, Bool-cases, if◌then◌else◌,
}
use cassandra_driver.Base.Result.{
  ◌>>=◌, ok, throws, fault, runtime_error, session_error, invalid_config,
}
use cassandra_driver.Io.Cells.{CellType}
use cassandra_driver.Protocol.Requests.{Consistency}
use cassandra_driver.Rows.{Tuple}
use cassandra_driver.Rows.Extract.{write_tuple}
use cassandra_driver.Queries.{Query}
use cassandra_driver.Session.Args.{execute_args_lem}
use cassandra_driver.Pool.Client.{Client, StatementCache, OptionalCommandControl}
use cassandra_driver.Pool.Init.{PoolSettings, init_async}
use cassandra_driver.Pool.Statements.Again.{execute_unconnected}
use cassandra_driver.Session.{
  SessionImpl, PoolState, execute_args, do_execute, create_pools, create_topology,
}
use cassandra_driver.Session.Nodes.{JsonNode, NodeDescription, parse_node, or_default, has_value}

-- A node is refused exactly if it lets everybody in and has credentials, or neither; and one that is
-- accepted has the credentials that are there.
pub parse_node_iff :
    (j : JsonNode)
    → ((parse_node j ≡ throws runtime_error) ↔ (or_default j.allow_all true ≡ has_value j.auth))
      × ((parse_node j >>= λ d. ok d.password_authetificator) ≡ (parse_node j >>= λ d. ok j.auth))
unfolding parse_node
parse_node_iff j = ground arith

module _ (client : Client) (cache : StatementCache) where
  -- A pool before the first of its connecting tasks is through.
  abbrev unconnected : Bool → cache.State → NodeDescription → PoolState client cache
  unconnected cache_enabled empty node = record {
    description = node;
    pool = record { connections = []; deleted = [] };
    statements = empty;
    cache_enabled = cache_enabled;
  }

  create_pools_lem :
      (settings : PoolSettings) (empty : cache.State) (nodes : List NodeDescription)
      → settings.min_size ≤ settings.max_size
      → create_pools client cache settings empty nodes
        ≡ ok (map (unconnected settings.prepared_statement_cache_enabled empty) nodes)
  unfolding create_pools init_async
  create_pools_lem settings empty [] sizes = refl
  create_pools_lem settings empty (node ∷ nodes) sizes = rw (
    le→ltb settings.max_size settings.min_size sizes,
    create_pools_lem settings empty nodes sizes,
  )

  abbrev is_nil : List NodeDescription → Bool
  is_nil [] = true
  is_nil (node ∷ nodes) = false

  -- A session without nodes is refused, and then one whose `min_size` is above its `max_size`. Every other
  -- one has a pool for each node, in their order, and no connection.
  pub create_topology_lem :
      (settings : PoolSettings) (empty : cache.State) (nodes : List NodeDescription)
      → create_topology client cache settings empty nodes ≡ (
          if is_nil nodes
          then throws session_error
          else if ltb settings.max_size settings.min_size
          then throws invalid_config
          else ok (map (unconnected settings.prepared_statement_cache_enabled empty) nodes))
  unfolding create_topology create_pools init_async
  create_topology_lem settings empty [] = refl
  create_topology_lem settings empty (node ∷ nodes) =
      elim (Bool-cases (ltb settings.max_size settings.min_size)) [
        | inl e ↦ rw e refl
        | inr e ↦ rw (e, create_pools_lem settings empty nodes (ground arith)) refl
      ]

  execute_first_unconnected :
      (cache_enabled : Bool) (empty : cache.State) (node : NodeDescription)
      (others : SessionImpl client cache) (now : ℕ) (ts : List CellType) (level : Consistency)
      (control : OptionalCommandControl) (query : Query) (args : Tuple ts) (w : client.World)
      → (execute_args client cache now ts level control query args
          (unconnected cache_enabled empty node ∷ others)
          w).outcome
        ≡ fault
  unfolding do_execute
  execute_first_unconnected cache_enabled empty node others now ts level control query args w =
      rw
        (execute_args_lem client cache now ts level control query args
          (unconnected cache_enabled empty node ∷ others) w)
        (execute_unconnected client cache now cache_enabled level query.statement
          (write_tuple ts args) control (record { connections = []; deleted = [] }) empty w tt)

  -- A call on a session that was just created, before a connection is there, calls through a null pointer,
  -- whatever the statement, its arguments and its command control are.
  pub execute_created :
      (settings : PoolSettings) (empty : cache.State) (nodes : List NodeDescription)
      {session : SessionImpl client cache} (now : ℕ) (ts : List CellType) (level : Consistency)
      (control : OptionalCommandControl) (query : Query) (args : Tuple ts) (w : client.World)
      → create_topology client cache settings empty nodes ≡ ok session
      → (execute_args client cache now ts level control query args session w).outcome ≡ fault
  execute_created settings empty [] now ts level control query args w e =
      cc (create_topology_lem settings empty [])
  execute_created settings empty (node ∷ nodes) {session} now ts level control query args w e =
      elim (Bool-cases (ltb settings.max_size settings.min_size)) [
        | inl over ↦ cc (rw over at (create_topology_lem settings empty (node ∷ nodes)))
        | inr under ↦
            let made = rw under at (create_topology_lem settings empty (node ∷ nodes)) in
            let others = map (unconnected settings.prepared_statement_cache_enabled empty) nodes in
            let same : unconnected settings.prepared_statement_cache_enabled empty node ∷ others
                ≡ session =
              cc in
            subst
              (λ s. (execute_args client cache now ts level control query args s w).outcome ≡ fault)
              same
              (execute_first_unconnected settings.prepared_statement_cache_enabled empty node others
                now ts level control query args w)
      ]
