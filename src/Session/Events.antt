-- ===== src/Session/Events.antt =====
-- The calls of a session (src/session_impl.cpp) and the maintenance of its first pool
-- (src/detail/connection_pool.cpp), in any order, against the database of its first node.
use cassandra_driver.Base.{ℕ, ◌≤◌, ◌≡◌, ◌∙◌, refl, sym, subst, ap, List, [], ◌∷◌, map, some, All}
use cassandra_driver.Base.Result.{Result, ok}
use cassandra_driver.Protocol.Requests.{Consistency}
use cassandra_driver.Protocol.Responses.{RowKind}
use cassandra_driver.Rows.{ResultSet, result_set}
use cassandra_driver.Pool.Client.{StatementCache, CacheDocumented, CacheFaithful}
use cassandra_driver.Pool.Maintain.{ping_text}
use cassandra_driver.Wire.{Peer, World, connections}
use cassandra_driver.Wire.Node.{Database, Serves}
use cassandra_driver.Wire.Node.Refines.{FitsStatement}
use cassandra_driver.Session.{PoolState, SessionImpl, execute_args, maintain_first}
use cassandra_driver.Session.Sound.{IsSound}
use cassandra_driver.Session.History.{
  SessionCall, text_of, values_of, run_all, FitsCall, execute_args-Served,
}
use cassandra_driver.Session.Upkeep.{pings, pings-unchanged}
use cassandra_driver.Session.Maintained.{maintain_first-Maintains}

-- A call, or a round of the maintenance at its time.
pub data Event : Type 0 where
  called : SessionCall → Event
  maintained : ℕ → Event

-- What events come to on the database alone: a call runs its statement with its values, and a maintenance
-- runs the ping some times. The rows are those of the calls.
pub data RunsTo (db : Database)
    : List Event → db.Contents → List RowKind → db.Contents → Type 0 where
  nothing : {d : db.Contents} → RunsTo db [] d [] d
  runs :
      (call : SessionCall) {events : List Event} {d : db.Contents} {rows : List RowKind}
      {after : db.Contents}
      → RunsTo db events (db.run d (text_of call) (values_of call)).1 rows after
      → RunsTo db
          (called call ∷ events)
          d
          ((db.run d (text_of call) (values_of call)).0 ∷ rows)
          after
  pinged :
      (at count : ℕ) {events : List Event} {d : db.Contents} {rows : List RowKind}
      {after : db.Contents}
      → RunsTo db events (pings db count d) rows after
      → RunsTo db (maintained at ∷ events) d rows after

pub calls_of : List Event → List SessionCall
calls_of [] = []
calls_of (called call ∷ events) = call ∷ calls_of events
calls_of (maintained at ∷ events) = calls_of events

module _ (db : Database) (unchanged : (d : db.Contents) → (db.run d ping_text []).1 ≡ d) where
  RunsTo-run_all :
      {events : List Event} {d after : db.Contents} {rows : List RowKind}
      → RunsTo db events d rows after
      → run_all db (calls_of events) d ≡ (rows, after)
  unfolding calls_of run_all
  RunsTo-run_all nothing = refl
  RunsTo-run_all (runs call {events} {d} {rows} {after} run) =
      let first = (db.run d (text_of call) (values_of call)).0 in
      ap (λ (r : List RowKind × db.Contents). (first ∷ r.0, r.1)) (RunsTo-run_all run)
  RunsTo-run_all (pinged at count {events} {d} {rows} {after} run) =
      ap (run_all db (calls_of events)) (sym (pings-unchanged db unchanged count d))
      ∙ RunsTo-run_all run

module _ (peer : Peer) (cache : StatementCache) (min_size : ℕ) where
  -- The outcomes of the calls, and the world behind the last event.
  pub run_events :
      List Event
      → SessionImpl (connections peer) cache
      → World peer
      → List (Result ResultSet) × World peer
  run_events [] session w = ([], w)
  run_events (called call ∷ events) session w =
      let r =
        execute_args (connections peer) cache call.now call.types call.level call.control call.query
          call.args session w in
      let rest = run_events events r.session r.world in (r.outcome ∷ rest.0, rest.1)
  run_events (maintained at ∷ events) session w =
      let r = maintain_first (connections peer) cache at min_size session w in
      run_events events r.0 r.1

module _ (peer : Peer) (db : Database) (serves : Serves peer db) (cache : StatementCache)
    (min_size : ℕ) where
  -- The requests of a call fit.
  abbrev pub FitsEvent : Event → Type 0
  FitsEvent (called call) = FitsCall peer db serves cache call
  FitsEvent (maintained at) = Unit {0}

  run_events-RunsTo :
      (documented : CacheDocumented cache) (faithful : CacheFaithful cache) (events : List Event)
      (p : PoolState (connections peer) cache) (ps : SessionImpl (connections peer) cache)
      (w : World peer)
      → 1 ≤ min_size
      → FitsStatement peer db serves cache Consistency.local_one ping_text []
      → IsSound peer db serves cache p w
      → All FitsEvent events
      → let (outcomes, w') = run_events peer cache min_size events (p ∷ ps) w in
        (rows : List RowKind) × RunsTo db events
          (serves.contents w.node)
          rows
          (serves.contents w'.node)
        × (outcomes ≡ map (λ (r : RowKind). ok (result_set (some r))) rows)
  unfolding run_events
  run_events-RunsTo documented faithful [] p ps w floor ping sound fits = ([], nothing, refl)
  run_events-RunsTo documented faithful (called call ∷ events) p ps w floor ping sound fits =
      let served =
        execute_args-Served peer db serves cache documented faithful call p ps w sound fits.0 in
      let r =
        execute_args (connections peer) cache call.now call.types call.level call.control call.query
          call.args (p ∷ ps) w in
      let (rows, run, outcomes) =
        run_events-RunsTo documented faithful events served.head served.tail r.world floor ping
          served.sound fits.1 in
      let first = (db.run (serves.contents w.node) (text_of call) (values_of call)).0 in
      let after = (run_events peer cache min_size events (served.head ∷ served.tail) r.world).1 in
      rw (served.outcome, served.session)
        (
          first ∷ rows,
          runs call (
              subst (λ (d : db.Contents). RunsTo db events d rows (serves.contents after.node))
                served.contents run),
          ap (◌∷◌ (ok (result_set (some first)))) outcomes,
        )
  run_events-RunsTo documented faithful (maintained at ∷ events) p ps w floor ping sound fits =
      let kept =
        maintain_first-Maintains peer db serves cache documented faithful at min_size ping p ps w
          floor sound in
      let (left, w') = maintain_first (connections peer) cache at min_size (p ∷ ps) w in
      let (rows, run, outcomes) =
        run_events-RunsTo documented faithful events kept.head kept.tail w' floor ping kept.sound
          fits.1 in
      let after = (run_events peer cache min_size events (kept.head ∷ kept.tail) w').1 in
      rw (run_events, kept.session)
        (
          rows,
          pinged at kept.count (
              subst (λ (d : db.Contents). RunsTo db events d rows (serves.contents after.node))
                kept.contents run),
          outcomes,
        )

  -- Over a node that serves a database that the ping does not change, and a cache that does what it
  -- documents: on a session whose first pool has a connection and is to keep one at least, where its
  -- connections are neither broken nor ever expire and are uncompressed with a free stream each, and the
  -- cache has no id but the node's, calls whose requests fit, as those of the ping do, give, one behind the
  -- other, what the database gives for their statements and values alone, and leave it with the contents
  -- that these leave, wherever the maintenance of the pool comes between them, whichever connection it
  -- closes, and whichever calls prepare their statements and whichever find them prepared.
  pub run_events-run_all :
      (documented : CacheDocumented cache) (faithful : CacheFaithful cache)
      (unchanged : (d : db.Contents) → (db.run d ping_text []).1 ≡ d) (events : List Event)
      (p : PoolState (connections peer) cache) (ps : SessionImpl (connections peer) cache)
      (w : World peer)
      → 1 ≤ min_size
      → FitsStatement peer db serves cache Consistency.local_one ping_text []
      → IsSound peer db serves cache p w
      → All FitsEvent events
      → let (rows, after) = run_all db (calls_of events) (serves.contents w.node) in
        let (outcomes, w') = run_events peer cache min_size events (p ∷ ps) w in
        (outcomes ≡ map (λ (r : RowKind). ok (result_set (some r))) rows)
        × (serves.contents w'.node ≡ after)
  run_events-run_all documented faithful unchanged events p ps w floor ping sound fits =
      let (rows, run, outcomes) =
        run_events-RunsTo documented faithful events p ps w floor ping sound fits in
      let alone = RunsTo-run_all db unchanged run in
      (
        outcomes
            ∙ ap
                (λ (r : List RowKind × db.Contents).
                  map (λ (r : RowKind). ok (result_set (some r))) r.0)
                (sym alone),
        ap (λ (r : List RowKind × db.Contents). r.1) (sym alone),
      )
