-- ===== src/Examples/EventExamples.antt =====
-- Calls and maintenance of a session on the node of NodeExamples.
use cassandra_driver.Base.{◌++◌, ◌+◌, ◌⊎◌, ◌≤◌, length, ◌≡◌, map, List, [], ◌∷◌, some, arith}
use cassandra_driver.Base.Result.{ok}
use cassandra_driver.Io.{be_bytes, is_positive}
use cassandra_driver.Io.Strings.{string_formatter, bytes_formatter}
use cassandra_driver.Io.Containers.{list_formatter, write_elements}
use cassandra_driver.Io.Containers.Codecs.{bytes_codec, FitsList}
use cassandra_driver.Protocol.Requests.{Consistency, serialize_body, write_query_parameters}
use cassandra_driver.Protocol.Responses.{RowKind}
use cassandra_driver.Rows.{result_set}
use cassandra_driver.Pool.{Connection}
use cassandra_driver.Pool.Maintain.{ping_text, maintain}
use cassandra_driver.Pool.Maintain.Floor.{healthy, maintain-floor}
use cassandra_driver.Wire.{connections}
use cassandra_driver.Wire.Node.Refines.{FitsStatement}
use cassandra_driver.Session.History.{run_all}
use cassandra_driver.Session.Events.{
  Event, called, maintained, calls_of, run_events, run_events-run_all,
}
use cassandra_driver.Examples.PoolExamples.{keeping, keeping-documented}
use cassandra_driver.Examples.ResponseExamples.{letters}
use cassandra_driver.Examples.NodeExamples.{counting, counted, counting_serves, keeping-faithful}
use cassandra_driver.Examples.SessionExamples.{
  select, world, one_pool, one_pool-IsSound, select_fits,
}

no_values_fit : FitsList (bytes_codec 4) 2 []
no_values_fit = record { in_width = omega arith; in_int = omega arith; elements = tt }

ping_fits :
    FitsStatement counting counted counting_serves keeping Consistency.local_one ping_text []
unfolding serialize_body write_query_parameters string_formatter bytes_formatter list_formatter
    write_elements be_bytes is_positive counting_serves
ping_fits = record {
  prepare = (record { in_width = omega arith; in_int = omega arith }, omega arith);
  query = ((record { in_width = omega arith; in_int = omega arith }, no_values_fit), omega arith);
  execute = ((letters 1 2, no_values_fit), omega arith);
}

abbrev events : List Event
events =
    called (select 10 Consistency.one 7 (3 ∷ 4 ∷ []))
    ∷ maintained 20
    ∷ called (select 30 Consistency.quorum 300 (0 ∷ 9 ∷ []))
    ∷ []

selected_maintained :
    let (rows, after) = run_all counted (calls_of events) 5 in
    let (outcomes, w) = run_events counting keeping 1 events (one_pool ∷ []) world in
    (outcomes ≡ map (λ (r : RowKind). ok (result_set (some r))) rows) × (w.node ≡ after)
unfolding counting_serves
selected_maintained =
    run_events-run_all counting counted counting_serves keeping 1 keeping-documented
      keeping-faithful (λ n. omega arith) events one_pool [] world (omega arith) ping_fits
      one_pool-IsSound
      (select_fits 10 Consistency.one 7 3 4, (tt, (select_fits 30 Consistency.quorum 300 0 9, tt)))

-- The maintenance of that pool over its connections, where all of them are more than it is to keep.
one_floor :
    let q = (maintain (connections counting) keeping 10 0 0 one_pool.pool [] world).1.pool in
    (gone : List Connection) × (q.deleted ≡ [] ++ gone)
    × (length q.connections + length gone ≡ 1)
    × ((healthy 10 gone ≡ 0) ⊎ ((healthy 10 gone ≡ 1) × (1 ≤ 1)))
one_floor = maintain-floor (connections counting) keeping 10 0 0 one_pool.pool [] world
