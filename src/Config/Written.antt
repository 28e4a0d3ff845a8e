-- ===== src/Config/Written.antt =====
-- What `CassandraSecdist` of src/secdist.cpp reads from a document as include/cassandra/component.hpp
-- lays it out.
use cassandra_driver.Base.{
  ◌≡◌, refl, sym, ap, subst, ◌∙◌, inl, inr, List, [], ◌∷◌, ◌++◌, append_assoc, Bool, true, false,
  not, if◌then◌else◌, Option, none, some, All, Bool-cases, arith,
}
use cassandra_driver.Base.Result.{Result, ok, throws, fault, stuck, runtime_error, ◌>>=◌}
use cassandra_driver.Io.{RawBuffer}
use cassandra_driver.Io.Containers.Maps.{same_text, same_text_refl, same_text→eq}
use cassandra_driver.Session.Nodes.{NodeDescription, JsonNode, parse_node, has_value}
use cassandra_driver.Config.Secdist.{
  JsonObject, members, elements, JsonKeyspaces, JsonDocument, add_nodes, parse_nodes, nodes_of,
  parse_keyspaces, parse_secdist, find_nodes, get_sharded_cluster_description,
}

-- A node that lets everybody in has no credentials, and every other one has.
abbrev pub IsAuthorized : NodeDescription → Type 0
IsAuthorized node = has_value node.password_authetificator ≡ not node.allow_all

-- A node with all its members.
pub write_node : NodeDescription → JsonNode
write_node node = record {
  use_ssl = some node.use_ssl;
  use_compression = some node.use_compression;
  allow_all = some node.allow_all;
  auth = node.password_authetificator;
  contact_point = some node.contact_point;
  port = some node.port;
}

write_nodes : List NodeDescription → List (JsonObject JsonNode)
unfolding write_node
write_nodes [] = []
write_nodes (node ∷ nodes) = members (write_node node) ∷ write_nodes nodes

pub write_keyspaces : List (RawBuffer × List NodeDescription) → JsonKeyspaces
unfolding write_nodes
write_keyspaces [] = []
write_keyspaces ((name, nodes) ∷ keyspaces) =
    (name, members (elements (write_nodes nodes))) ∷ write_keyspaces keyspaces

pub write_document : List (RawBuffer × List NodeDescription) → JsonDocument
unfolding write_keyspaces
write_document keyspaces = members (members (members (write_keyspaces keyspaces)))

-- The nodes of the keyspaces with this name, one after the other; none if there is no such keyspace.
merge :
    Option (List NodeDescription) → Option (List NodeDescription) → Option (List NodeDescription)
merge none after = after
merge (some before) none = some before
merge (some before) (some after) = some (before ++ after)

unfoldable pub nodes_named :
    RawBuffer → List (RawBuffer × List NodeDescription) → Option (List NodeDescription)
unfolding merge
nodes_named name [] = none
nodes_named name ((other, nodes) ∷ keyspaces) =
    let rest = nodes_named name keyspaces in
    if same_text other name then merge (some nodes) rest else rest

parse_node-write_node :
    (node : NodeDescription) → IsAuthorized node → parse_node (write_node node) ≡ ok node
unfolding parse_node write_node
parse_node-write_node node authorized = ground (arith, authorized)

parse_nodes-write_nodes :
    (nodes : List NodeDescription)
    → All IsAuthorized nodes
    → parse_nodes (write_nodes nodes) ≡ ok nodes
unfolding parse_nodes write_nodes
parse_nodes-write_nodes [] h = refl
parse_nodes-write_nodes (node ∷ nodes) h =
    rw (parse_node-write_node node h.0, parse_nodes-write_nodes nodes h.1)

-- Two keys that are both this name are the same.
same_text_euclid :
    (key other name : RawBuffer)
    → same_text key name ≡ true
    → same_text other name ≡ true
    → same_text key other ≡ true
same_text_euclid key other name e f =
    subst (λ k. same_text k other ≡ true)
      (same_text→eq other name f ∙ sym (same_text→eq key name e)) (same_text_refl other)

-- Nodes that are added to a keyspace stand behind those that it has.
find_nodes-add_nodes :
    (name other : RawBuffer) (nodes : List NodeDescription)
    (descs : List (RawBuffer × List NodeDescription))
    → find_nodes name (add_nodes other nodes descs) ≡ (
        if same_text other name
        then merge (find_nodes name descs) (some nodes)
        else find_nodes name descs)
unfolding find_nodes add_nodes merge
find_nodes-add_nodes name other nodes [] = ground arith
find_nodes-add_nodes name other nodes ((key, before) ∷ descs) =
    let behind = find_nodes-add_nodes name other nodes descs in
    elim (Bool-cases (same_text key other)) [
      | inl same ↦
          let e = same_text→eq key other same in
          rw (same, sym e) (ground (arith, same_text_refl key))
      | inr differs ↦ rw differs (ground (arith, behind, same_text_euclid key other name, differs))
    ]

merge_assoc : (a b c : Option (List NodeDescription)) → merge (merge a b) c ≡ merge a (merge b c)
unfolding merge
merge_assoc none b c = refl
merge_assoc (some a) none c = refl
merge_assoc (some a) (some b) none = refl
merge_assoc (some a) (some b) (some c) = ap some (append_assoc a b c)

merge-none : (a : Option (List NodeDescription)) → merge a none ≡ a
unfolding merge
merge-none none = refl
merge-none (some a) = refl

merge_if :
    (same : Bool) (a b c : Option (List NodeDescription))
    → merge (if same then merge a b else a) c ≡ merge a (if same then merge b c else c)
merge_if true a b c = merge_assoc a b c
merge_if false a b c = refl

parse_keyspaces-write_keyspaces :
    (name : RawBuffer) (keyspaces descs : List (RawBuffer × List NodeDescription))
    → All (λ (k : RawBuffer × List NodeDescription). All IsAuthorized k.1) keyspaces
    → (parse_keyspaces (write_keyspaces keyspaces) descs >>= λ found. ok (find_nodes name found))
      ≡ ok (merge (find_nodes name descs) (nodes_named name keyspaces))
unfolding parse_keyspaces write_keyspaces nodes_of nodes_named
parse_keyspaces-write_keyspaces name [] descs h = ap ok (sym (merge-none (find_nodes name descs)))
parse_keyspaces-write_keyspaces name ((other, nodes) ∷ keyspaces) descs h =
    rw
      (
        parse_nodes-write_nodes nodes h.0,
        parse_keyspaces-write_keyspaces name keyspaces (add_nodes other nodes descs) h.1,
        find_nodes-add_nodes,
      )
      (ap ok (
        merge_if (same_text other name) (find_nodes name descs) (some nodes)
          (nodes_named name keyspaces)))

-- `GetShardedClusterDescription` of what there is of a name.
abbrev pub or_missing : Option (List NodeDescription) → Result (List NodeDescription)
or_missing none = throws runtime_error
or_missing (some nodes) = ok nodes

looked_up :
    (name : RawBuffer) (parsed : Result (List (RawBuffer × List NodeDescription)))
    → ((parsed >>= λ descs. ok (record { sharded_cluster_descs = descs }))
        >>= get_sharded_cluster_description name)
      ≡ ((parsed >>= λ descs. ok (find_nodes name descs)) >>= or_missing)
unfolding get_sharded_cluster_description
looked_up name (ok descs) = found (find_nodes name descs)
  where
    found :
        (nodes : Option (List NodeDescription))
        → elim nodes [ none ↦ throws runtime_error | some here ↦ ok here ] ≡ or_missing nodes
    found none = refl
    found (some here) = refl
looked_up name (throws e) = refl
looked_up name fault = refl
looked_up name stuck = refl

-- A document in which each node has credentials exactly if it does not let everybody in is read, and the
-- description of a keyspace is then that of its nodes, in their order, with all their members; a
-- keyspace that the document does not name is a SecdistError.
pub get_sharded_cluster_description-write_document :
    (name : RawBuffer) (keyspaces : List (RawBuffer × List NodeDescription))
    → All (λ (k : RawBuffer × List NodeDescription). All IsAuthorized k.1) keyspaces
    → (parse_secdist (write_document keyspaces) >>= get_sharded_cluster_description name)
      ≡ or_missing (nodes_named name keyspaces)
unfolding parse_secdist write_document merge find_nodes
get_sharded_cluster_description-write_document name keyspaces h =
    looked_up name (parse_keyspaces (write_keyspaces keyspaces) [])
    ∙ ap (λ found. found >>= or_missing) (parse_keyspaces-write_keyspaces name keyspaces [] h)
