-- ===== src/Examples/SessionExamples.antt =====
-- Calls of a session on the node of NodeExamples.
use cassandra_driver.Base.{ℕ, ◌≡◌, refl, map, List, [], ◌∷◌, true, false, none, codes, arith}
use cassandra_driver.Base.Result.{ok, ◌>>=◌}
use cassandra_driver.Io.{RawBuffer, be_bytes, is_positive}
use cassandra_driver.Io.Strings.{string_formatter, bytes_formatter}
use cassandra_driver.Io.Containers.{list_formatter, write_elements}
use cassandra_driver.Io.Containers.Codecs.{bytes_codec, FitsList}
use cassandra_driver.Io.Cells.{text, integral, write_cell}
use cassandra_driver.Protocol.Requests.{
  write_batch_statement, consistency_value, Consistency, serialize_body, write_query_parameters,
}
use cassandra_driver.Rows.{result_set, extract_tuple, as_container, as_single_row, front}
use cassandra_driver.Rows.Extract.{WideTuple, write_wide, write_tuple}
use cassandra_driver.Queries.Bound.{Addition, add_queries, query_of}
use cassandra_driver.Session.Batches.{add_queries-run_batch}
use cassandra_driver.Wire.Node.Batches.{run_batch}
use cassandra_driver.Wire.Node.Batches.Runs.{FitsBatch}
use cassandra_driver.Queries.{get_statement, BatchQueryStore, new_batch, BatchQuery}
use cassandra_driver.Pool.Client.{OptionalCommandControl}
use cassandra_driver.Connection.{ConnectionImpl}
use cassandra_driver.Wire.{World, connections, refresh_connection}
use cassandra_driver.Wire.Streams.{execute_streams}
use cassandra_driver.Pool.Statements.{text_batch, execute, batch_execute}
use mathlib.Core.List.{Perm}
use cassandra_driver.Session.{session_batch, PoolState, execute_args}
use cassandra_driver.Session.Nodes.{NodeDescription}
use cassandra_driver.Session.Sound.{IsSound}
use cassandra_driver.Session.History.{SessionCall, FitsCall}
use cassandra_driver.Session.Typed.{execute_args-tuples}
use cassandra_driver.Examples.PoolExamples.{busy, keeping, keeping-documented, find_id}
use cassandra_driver.Examples.ResponseExamples.{one_row, letters}
use cassandra_driver.Examples.NodeExamples.{
  counting, counted, counting_serves, counting_batches, keeping-faithful,
}

abbrev no_control : OptionalCommandControl
no_control = none

-- The call at a time, with these values.
abbrev pub select : ℕ → Consistency → ℕ → RawBuffer → SessionCall
select at level number word = record {
  now = at;
  level = level;
  control = no_control;
  query = record { statement = codes "SELECT 1" };
  types = integral 2 ∷ text ∷ [];
  args = (number, (word, tt));
}

abbrev two_streams : ConnectionImpl
two_streams = record { broken = false; stream_pool = 0 ∷ 1 ∷ []; sent = [] }

abbrev pub world : World counting
world = record { impls = λ id. two_streams; compressors = λ id. none; node = 5 }

abbrev pub one_node : NodeDescription
one_node = record {
  use_ssl = false;
  use_compression = false;
  allow_all = true;
  password_authetificator = none;
  contact_point = codes "a";
  port = 9042;
}

abbrev pub one_pool : PoolState (connections counting) keeping
one_pool = record {
  description = one_node;
  pool = record { connections = busy ∷ []; deleted = [] };
  statements = [];
  cache_enabled = true;
}

pub one_pool-IsSound : IsSound counting counted counting_serves keeping one_pool world
unfolding find_id
one_pool-IsSound = record {
  first = busy;
  others = [];
  opened = refl;
  healthy = ((refl, refl), tt);
  consistent = record { at = λ text found e. cc };
  ready = λ id. record {
    plain = refl;
    stocked = record { fits = omega arith; known = (omega arith, (omega arith, tt)) };
    some_free = omega arith;
  };
}

values_fit :
    (number a b : ℕ)
    → FitsList (bytes_codec 4) 2 (write_tuple (integral 2 ∷ text ∷ []) (number, (a ∷ b ∷ [], tt)))
unfolding write_tuple write_cell be_bytes
values_fit number a b = record {
  in_width = omega arith;
  in_int = omega arith;
  elements = (
    record { in_width = omega arith; in_int = omega arith },
    (record { in_width = omega arith; in_int = omega arith }, tt),
  );
}

pub select_fits :
    (at : ℕ) (level : Consistency) (number a b : ℕ)
    → FitsCall counting counted counting_serves keeping (select at level number (a ∷ b ∷ []))
unfolding serialize_body write_query_parameters string_formatter bytes_formatter list_formatter
    write_elements be_bytes is_positive write_tuple write_cell counting_serves
select_fits at level number a b = record {
  prepare = (record { in_width = omega arith; in_int = omega arith }, omega arith);
  query = (
    (record { in_width = omega arith; in_int = omega arith }, values_fit number a b),
    omega arith,
  );
  execute = ((letters 1 2, values_fit number a b), omega arith);
}

abbrev byte_rows : List (WideTuple (integral 1 ∷ []))
byte_rows = ((5, tt), []) ∷ []

byte_rows_written : one_row.rows_content ≡ map (write_wide (integral 1 ∷ [])) byte_rows
unfolding write_tuple write_cell be_bytes
byte_rows_written = refl

byte_selected :
    let call = select 10 Consistency.one 7 (3 ∷ 4 ∷ []) in
    let tuples = map (λ (t : WideTuple (integral 1 ∷ [])). t.0) byte_rows in
    let outcome =
      (execute_args
        (connections counting)
        keeping
        call.now
        call.types
        call.level
        call.control
        call.query
        call.args
        (one_pool ∷ [])
        world).outcome in
    (extract_tuple call.types 0 (write_tuple call.types call.args) ≡ ok call.args)
    × ((outcome >>= as_container (integral 1 ∷ [])) ≡ ok tuples)
    × ((outcome >>= as_single_row (integral 1 ∷ [])) ≡ front tuples)
byte_selected =
    execute_args-tuples counting counted counting_serves keeping keeping-documented keeping-faithful
      (select 10 Consistency.one 7 (3 ∷ 4 ∷ [])) one_pool [] world (integral 1 ∷ []) byte_rows
      one_row one_pool-IsSound (select_fits 10 Consistency.one 7 3 4) (omega arith, (tt, tt)) refl
      byte_rows_written (((omega arith, tt), refl), tt)

-- An INSERT with a number, and a statement without values.
abbrev additions : List Addition
additions =
    record {
      types = integral 2 ∷ [];
      query = record { statement = codes "INSERT" };
      args = (300, tt);
    }
    ∷ record { types = []; query = record { statement = codes "TRUNCATE" }; args = tt }
    ∷ []

additions_fit :
    FitsBatch counting counted counting_serves keeping Consistency.quorum (map query_of additions)
unfolding serialize_body write_batch_statement write_query_parameters string_formatter
    bytes_formatter list_formatter write_elements be_bytes is_positive write_tuple write_cell
    get_statement counting_serves text_batch consistency_value
additions_fit = record {
  prepare = (
    (record { in_width = omega arith; in_int = omega arith }, omega arith),
    ((record { in_width = omega arith; in_int = omega arith }, omega arith), tt),
  );
  by_ids = (
    record {
      in_width = omega arith;
      in_int = omega arith;
      elements = ((letters 1 2, number_fits), ((letters 1 2, no_values_fit), tt));
    },
    omega arith,
  );
  by_texts = (
    record {
      in_width = omega arith;
      in_int = omega arith;
      elements = (
        (record { in_width = omega arith; in_int = omega arith }, number_fits),
        ((record { in_width = omega arith; in_int = omega arith }, no_values_fit), tt),
      );
    },
    omega arith,
  );
}
  where
    number_fits : FitsList (bytes_codec 4) 2 ((1 ∷ 44 ∷ []) ∷ [])
    number_fits = record {
      in_width = omega arith;
      in_int = omega arith;
      elements = (record { in_width = omega arith; in_int = omega arith }, tt);
    }

    no_values_fit : FitsList (bytes_codec 4) 2 []
    no_values_fit = record { in_width = omega arith; in_int = omega arith; elements = tt }

two_added :
    (store : BatchQueryStore) × (add_queries additions (new_batch Consistency.quorum) ≡ ok store)
    × (let r = session_batch (connections counting) keeping 10 store (one_pool ∷ []) world in
        (r.outcome ≡ ok (result_set none))
        × (r.world.node ≡ 6)
        × ((head : PoolState (connections counting) keeping) × (r.session ≡ head ∷ [])
            × IsSound counting counted counting_serves keeping head r.world))
unfolding counting_serves run_batch write_tuple
two_added =
    add_queries-run_batch counting counted counting_serves keeping counting_batches
      keeping-documented keeping-faithful 10 Consistency.quorum additions one_pool [] world
      one_pool-IsSound additions_fit

-- Whatever the node answers, the streams come back, for a statement and for a batch.
busy_streams :
    let c = connections counting in
    let pool = one_pool.pool in
    let batch : List BatchQuery = (codes "SELECT 1", []) ∷ [] in
    let executed =
      (execute c keeping 10 true Consistency.one
        (codes "SELECT 1")
        []
        no_control
        pool
        []
        world).0.world in
    let batched =
      (batch_execute c keeping 10 true Consistency.one batch no_control pool [] world).0.world in
    Perm (executed.impls 1).stream_pool (0 ∷ 1 ∷ [])
    × ((refresh_connection counting executed busy).used_streams
        ≡ (refresh_connection counting world busy).used_streams)
    × Perm (batched.impls 1).stream_pool (0 ∷ 1 ∷ [])
    × ((refresh_connection counting batched busy).used_streams
        ≡ (refresh_connection counting world busy).used_streams)
busy_streams =
    execute_streams counting keeping 10 true Consistency.one (codes "SELECT 1") []
      ((codes "SELECT 1", []) ∷ []) no_control one_pool.pool [] world
      (λ id. record { fits = omega arith; known = (omega arith, (omega arith, tt)) }) busy
