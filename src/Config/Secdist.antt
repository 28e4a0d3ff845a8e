-- ===== src/Config/Secdist.antt =====
-- The nodes of each keyspace: include/cassandra/secdist.hpp and src/secdist.cpp. The members of a JSON
-- value are read by userver; a value of another kind than is asked for is told apart.
use cassandra_driver.Base.{List, [], ◌∷◌, ◌++◌, if◌then◌else◌, Option, none, some}
use cassandra_driver.Base.Result.{Result, ok, throws, runtime_error, format_exception, ◌>>=◌}
use cassandra_driver.Io.{RawBuffer}
use cassandra_driver.Io.Containers.Maps.{same_text}
use cassandra_driver.Session.Nodes.{NodeDescription, JsonNode, parse_node}

-- A value that should be an object.
pub data JsonObject (A : Type 0) : Type 0 where
  not_object : JsonObject A
  members : A → JsonObject A

-- The member `nodes` of a keyspace.
pub data JsonNodes : Type 0 where
  not_array : JsonNodes
  elements : List (JsonObject JsonNode) → JsonNodes

-- The keyspaces by their names, in the order of the document.
abbrev pub JsonKeyspaces : Type 0
JsonKeyspaces = List (RawBuffer × JsonObject JsonNodes)

-- The document, its member `cassandra_settings`, and the member `keyspaces` of that.
abbrev pub JsonDocument : Type 0
JsonDocument = JsonObject (JsonObject (JsonObject JsonKeyspaces))

-- `_sharded_cluster_descs`
pub record CassandraSecdist : Type 0 where
  pub sharded_cluster_descs : List (RawBuffer × List NodeDescription)

-- `_sharded_cluster_descs[name]`, and a `push_back` of each of these nodes.
unfoldable pub add_nodes :
    RawBuffer
    → List NodeDescription
    → List (RawBuffer × List NodeDescription)
    → List (RawBuffer × List NodeDescription)
add_nodes name nodes [] = (name, nodes) ∷ []
add_nodes name nodes ((other, before) ∷ descs) =
    let rest = add_nodes name nodes descs in
    if same_text other name then (other, before ++ nodes) ∷ descs else (other, before) ∷ rest

-- The loop over the nodes of a keyspace: `CheckIsObject` and `As<NodeDescription>`.
unfoldable pub parse_nodes : List (JsonObject JsonNode) → Result (List NodeDescription)
parse_nodes [] = ok []
parse_nodes (not_object ∷ shards) = throws runtime_error
parse_nodes (members shard ∷ shards) = do
  node ← parse_node shard
  nodes ← parse_nodes shards
  ok (node ∷ nodes)

-- `(*it)["nodes"]` and `CheckIsArray`. The subscript of a value that is no object is userver's exception.
unfoldable pub nodes_of : JsonObject JsonNodes → Result (List (JsonObject JsonNode))
nodes_of not_object = throws format_exception
nodes_of (members not_array) = throws runtime_error
nodes_of (members (elements shards)) = ok shards

-- The loop over the keyspaces.
unfoldable pub parse_keyspaces :
    JsonKeyspaces
    → List (RawBuffer × List NodeDescription)
    → Result (List (RawBuffer × List NodeDescription))
unfolding add_nodes parse_nodes nodes_of
parse_keyspaces [] descs = ok descs
parse_keyspaces ((name, keyspace) ∷ keyspaces) descs = do
  shards ← nodes_of keyspace
  nodes ← parse_nodes shards
  parse_keyspaces keyspaces (add_nodes name nodes descs)

-- `CassandraSecdist::CassandraSecdist`
unfoldable pub parse_secdist : JsonDocument → Result CassandraSecdist
unfolding parse_keyspaces
parse_secdist not_object = throws runtime_error
parse_secdist (members not_object) = throws runtime_error
parse_secdist (members (members not_object)) = throws runtime_error
parse_secdist (members (members (members keyspaces))) =
    parse_keyspaces keyspaces [] >>= λ descs. ok (record { sharded_cluster_descs = descs })

unfoldable pub find_nodes :
    RawBuffer → List (RawBuffer × List NodeDescription) → Option (List NodeDescription)
find_nodes name [] = none
find_nodes name ((other, nodes) ∷ descs) =
    let rest = find_nodes name descs in if same_text other name then some nodes else rest

-- `GetShardedClusterDescription`
unfoldable pub get_sharded_cluster_description :
    RawBuffer → CassandraSecdist → Result (List NodeDescription)
unfolding find_nodes
get_sharded_cluster_description name secdist =
    elim (find_nodes name secdist.sharded_cluster_descs) [
      | none ↦ throws runtime_error
      | some nodes ↦ ok nodes
    ]
