-- ===== src/Session/Typed.antt =====
-- From the arguments of a call of include/cassandra/session.hpp to the values that a caller takes from
-- its ResultSet.
use cassandra_driver.Base.{◌≡◌, subst, List, ◌∷◌, map, All}
use cassandra_driver.Base.Result.{ok, ◌>>=◌}
use cassandra_driver.Io.Cells.{CellType}
use cassandra_driver.Protocol.Responses.{RowKind}
use cassandra_driver.Protocol.Responses.RoundTrip.{FitsRows}
use cassandra_driver.Rows.{extract_tuple, as_container, as_single_row, front}
use cassandra_driver.Rows.Extract.{FitsTuple, WideTuple, FitsWide, write_wide, tuples_back}
use cassandra_driver.Queries.Bound.{write_tuple_back}
use cassandra_driver.Pool.Client.{StatementCache, CacheDocumented, CacheFaithful}
use cassandra_driver.Wire.{Peer, World, connections}
use cassandra_driver.Wire.Node.{Database, Serves}
use cassandra_driver.Session.{PoolState, SessionImpl, execute_args}
use cassandra_driver.Session.Sound.{IsSound}
use cassandra_driver.Session.History.{
  SessionCall, text_of, values_of, FitsCall, execute_args-Served,
}

module _ (peer : Peer) (db : Database) (serves : Serves peer db) (cache : StatementCache)
    (documented : CacheDocumented cache) (faithful : CacheFaithful cache) where
  -- Over a node that serves a database, and a cache that does what it documents: if the session's first
  -- pool has a connection, its connections are neither broken nor ever expire and are uncompressed with
  -- a free stream each, the cache has no id but the node's, the call's requests fit, and its arguments
  -- fit their types, then the values that reach the database are the arguments, read by their types;
  -- and if the rows that it gives for them are those of tuples, in columns that may be more than the
  -- tuple's members, the caller's `AsContainer` has these tuples in their order, and `AsSingleRow` the
  -- first of them.
  pub execute_args-tuples :
      (call : SessionCall) (p : PoolState (connections peer) cache)
      (ps : SessionImpl (connections peer) cache) (w : World peer) (us : List CellType)
      (table : List (WideTuple us)) (rows : RowKind)
      → IsSound peer db serves cache p w
      → FitsCall peer db serves cache call
      → FitsTuple call.types call.args
      → (db.run (serves.contents w.node) (text_of call) (values_of call)).0 ≡ rows
      → rows.rows_content ≡ map (write_wide us) table
      → All (FitsWide us rows.columns_count) table
      → let tuples = map (λ (t : WideTuple us). t.0) table in
        let outcome =
          (execute_args
            (connections peer)
            cache
            call.now
            call.types
            call.level
            call.control
            call.query
            call.args
            (p ∷ ps)
            w).outcome in
        (extract_tuple call.types 0 (values_of call) ≡ ok call.args)
        × ((outcome >>= as_container us) ≡ ok tuples)
        × ((outcome >>= as_single_row us) ≡ front tuples)
  execute_args-tuples call p ps w us table rows sound fits fit_args run written wide =
      let served =
        execute_args-Served peer db serves cache documented faithful call p ps w sound fits in
      let d = serves.contents w.node in
      let fits_rows = subst FitsRows run (serves.rows_fit d (text_of call) (values_of call)) in
      let (all, first) = tuples_back us rows table fits_rows.columns_lt wide written in
      let outcome = rw run at served.outcome in
      (write_tuple_back call.types call.args fit_args, rw outcome all, rw outcome first)
