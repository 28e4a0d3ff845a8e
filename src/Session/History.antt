-- ===== src/Session/History.antt =====
-- The calls of a session (src/session_impl.cpp), one behind the other, against the database of its first
-- node.
use cassandra_driver.Base.{ℕ, ◌≡◌, refl, sym, subst, ap, List, [], ◌∷◌, map, some, All}
use cassandra_driver.Base.Result.{Result, ok}
use cassandra_driver.Io.{RawBuffer}
use cassandra_driver.Io.Cells.{CellType}
use cassandra_driver.Protocol.Requests.{Consistency, QueryParameters}
use cassandra_driver.Protocol.Responses.{RowKind}
use cassandra_driver.Rows.{ResultSet, Tuple, result_set}
use cassandra_driver.Rows.Extract.{write_tuple}
use cassandra_driver.Queries.{Query}
use cassandra_driver.Pool.Client.{
  StatementCache, CacheDocumented, CacheFaithful, OptionalCommandControl,
}
use cassandra_driver.Wire.{Peer, World, connections}
use cassandra_driver.Wire.Node.{Database, Serves}
use cassandra_driver.Wire.Node.Refines.{FitsStatement}
use cassandra_driver.Session.{PoolState, SessionImpl, execute_args}
use cassandra_driver.Session.Args.{execute_args_lem}
use cassandra_driver.Session.Sound.{IsSound, Served, do_execute-Served}

-- A call of `Session::Execute`, at its time.
pub record SessionCall : Type 0 where
  pub now : ℕ
  pub level : Consistency
  pub control : OptionalCommandControl
  pub query : Query
  pub types : List CellType
  pub args : Tuple types

-- The statement and the values that a call sends.
abbrev pub text_of : SessionCall → RawBuffer
text_of call = call.query.statement

abbrev pub values_of : SessionCall → QueryParameters
values_of call = write_tuple call.types call.args

-- What a list of calls gives on the database alone, and the contents behind it.
unfoldable pub run_all :
    (db : Database) → List SessionCall → db.Contents → List RowKind × db.Contents
run_all db [] d = ([], d)
run_all db (call ∷ calls) d =
    let (rows, d') = db.run d (text_of call) (values_of call) in
    let (others, after) = run_all db calls d' in (rows ∷ others, after)

module _ (peer : Peer) (db : Database) (serves : Serves peer db) (cache : StatementCache) where
  -- The outcomes of calls that are made one behind the other, and the world behind the last.
  execute_all :
      List SessionCall
      → SessionImpl (connections peer) cache
      → World peer
      → List (Result ResultSet) × World peer
  execute_all [] session w = ([], w)
  execute_all (call ∷ calls) session w =
      let r =
        execute_args (connections peer) cache call.now call.types call.level call.control call.query
          call.args session w in
      let rest = execute_all calls r.session r.world in (r.outcome ∷ rest.0, rest.1)

  abbrev pub FitsCall : SessionCall → Type 0
  FitsCall call = FitsStatement peer db serves cache call.level (text_of call) (values_of call)

  pub execute_args-Served :
      (documented : CacheDocumented cache) (faithful : CacheFaithful cache) (call : SessionCall)
      (p : PoolState (connections peer) cache) (ps : SessionImpl (connections peer) cache)
      (w : World peer)
      → IsSound peer db serves cache p w
      → FitsCall call
      → Served peer db serves cache (text_of call) (values_of call) w (
          execute_args
            (connections peer)
            cache
            call.now
            call.types
            call.level
            call.control
            call.query
            call.args
            (p ∷ ps)
            w)
  execute_args-Served documented faithful call p ps w sound fits =
      subst (Served peer db serves cache (text_of call) (values_of call) w)
        (sym (
          execute_args_lem (connections peer) cache call.now call.types call.level call.control
            call.query call.args (p ∷ ps) w))
        (do_execute-Served peer db serves cache documented faithful call.now call.level call.query
          (values_of call) call.control p ps w sound fits)

  -- Over a node that serves a database, and a cache that does what it documents: on a session whose first
  -- pool has a connection, where its connections are neither broken nor ever expire, are uncompressed
  -- with a free stream each, and the cache has no id but the node's, calls whose requests fit give one
  -- behind the other what the database gives for their statements and values, and leave it with the
  -- contents that these leave, whichever calls prepare their statements and whichever find them prepared.
  execute_all-run_all :
      (documented : CacheDocumented cache) (faithful : CacheFaithful cache)
      (calls : List SessionCall) (p : PoolState (connections peer) cache)
      (ps : SessionImpl (connections peer) cache) (w : World peer)
      → IsSound peer db serves cache p w
      → All FitsCall calls
      → let (rows, after) = run_all db calls (serves.contents w.node) in
        let (outcomes, w') = execute_all calls (p ∷ ps) w in
        (outcomes ≡ map (λ (r : RowKind). ok (result_set (some r))) rows)
        × (serves.contents w'.node ≡ after)
  unfolding run_all execute_all
  execute_all-run_all documented faithful [] p ps w sound fits = (refl, refl)
  execute_all-run_all documented faithful (call ∷ calls) p ps w sound fits =
      let served = execute_args-Served documented faithful call p ps w sound fits.0 in
      let r =
        execute_args (connections peer) cache call.now call.types call.level call.control call.query
          call.args (p ∷ ps) w in
      let (outcomes, after) =
        execute_all-run_all documented faithful calls served.head served.tail r.world served.sound
          fits.1 in
      rw (← served.contents, served.outcome, served.session)
        (
          ap
              (◌∷◌ (
                ok (
                  result_set
                    (some (db.run (serves.contents w.node) (text_of call) (values_of call)).0))))
              outcomes,
          after,
        )
