-- ===== src/Examples/TopologyExamples.antt =====
-- Descriptions of nodes, and a session that has no connection yet.
use cassandra_driver.Base.{◌≡◌, ◌↔◌, [], ◌∷◌, true, false, none, some, codes}
use cassandra_driver.Base.Result.{◌>>=◌, ok, ok, throws, fault, runtime_error}
use cassandra_driver.Io.Cells.{text}
use cassandra_driver.Protocol.Requests.{Consistency}
use cassandra_driver.Pool.Client.{OptionalCommandControl}
use cassandra_driver.Examples.OpeningExamples.{default_settings}
use cassandra_driver.Pool.Init.{PoolSettings}
use cassandra_driver.Wire.{World, connections}
use cassandra_driver.Session.{SessionImpl, execute_args, create_topology}
use cassandra_driver.Session.Nodes.{JsonNode, NodeDescription, parse_node}
use cassandra_driver.Session.Topology.{parse_node_iff, create_topology_lem, execute_created}
use cassandra_driver.Examples.PoolExamples.{keeping}
use cassandra_driver.Examples.NodeExamples.{counting}

abbrev no_control : OptionalCommandControl
no_control = none

abbrev world : World counting
world = record {
  impls = λ id. record { broken = false; stream_pool = 0 ∷ []; sent = [] };
  compressors = λ id. none;
  node = 5;
}

abbrev guarded_node : JsonNode
guarded_node = record {
  use_ssl = none;
  use_compression = some true;
  allow_all = some false;
  auth = some (record { username = codes "user"; password = codes "pw" });
  contact_point = none;
  port = some 9142;
}

guarded_parsed :
    ((parse_node guarded_node ≡ throws runtime_error) ↔ (false ≡ true))
    × ((parse_node guarded_node >>= λ d. ok d.password_authetificator) ≡ (
        parse_node guarded_node >>= λ d.
        ok (some (record { username = codes "user"; password = codes "pw" }))))
guarded_parsed = parse_node_iff guarded_node

abbrev described : NodeDescription
described = record {
  use_ssl = false;
  use_compression = true;
  allow_all = true;
  password_authetificator = none;
  contact_point = codes "127.0.0.1";
  port = 9042;
}

abbrev settings : PoolSettings
settings = default_settings 1 2 0

abbrev created : SessionImpl (connections counting) keeping
created =
    record {
      description = described;
      pool = record { connections = []; deleted = [] };
      statements = [];
      cache_enabled = true;
    }
    ∷ []

just_created :
    create_topology (connections counting) keeping settings [] (described ∷ []) ≡ ok created
just_created = create_topology_lem (connections counting) keeping settings [] (described ∷ [])

created_faults :
    (execute_args
      (connections counting)
      keeping
      10
      (text ∷ [])
      Consistency.one
      no_control
      (record { statement = codes "SELECT 1" })
      (codes "x", tt)
      created
      world).outcome
    ≡ fault
created_faults =
    execute_created (connections counting) keeping settings [] (described ∷ []) 10 (text ∷ [])
      Consistency.one no_control (record { statement = codes "SELECT 1" }) (codes "x", tt) world
      just_created
