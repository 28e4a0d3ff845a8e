-- ===== src/Wire/Node/Batches.antt =====
-- Batches (`BatchExecute` of src/detail/connection_impl.cpp) on such a node.
pub mod Runs
use cassandra_driver.Base.{
  ℕ, ◌≡◌, refl, sym, subst, ap, ◌∙◌, List, [], ◌∷◌, append-nil, map, Bool, true, false, Bool-cases,
  inl, inr, Option, none, some, length, All, arith,
}
use cassandra_driver.Base.Result.{ok}
use cassandra_driver.Io.{RawBuffer}
use cassandra_driver.Protocol.Requests.{
  Consistency, QueryParameters, BatchStatement, by_string, by_id, RequestBody, new_request,
}
use cassandra_driver.Protocol.Responses.{RowKind}
use cassandra_driver.Connection.Answers.{result_header, void_body, void_message, batch_answered}
use cassandra_driver.Connection.Calls.{execute_message_async_answered}
use cassandra_driver.Connection.Statements.{execute_batch}
use cassandra_driver.Rows.{ResultSet, result_set}
use cassandra_driver.Queries.{BatchQuery}
use cassandra_driver.Pool.{Connection, ConnectionPool, acquire}
use cassandra_driver.Pool.Client.{
  StatementCache, CacheDocumented, CacheFaithful, OptionalCommandControl,
}
use cassandra_driver.Pool.Statements.{
  Called, calls, can_prepare_statement, prepared_id, prepare_batch, text_batch, then_call,
  batch_execute,
}
use cassandra_driver.Pool.Statements.Steps.{
  prepare_batch_step, batch_by_ids, batch_by_texts, batch-pool,
}
use cassandra_driver.Wire.{Peer, World, Call, run_on, connections, as_result_set}
use cassandra_driver.Wire.Streams.{connections-Keeping}
use cassandra_driver.Wire.Node.{Database, Receives, Serves, answered}
use cassandra_driver.Wire.Node.Reached.{
  FitsFrame, IsReady, SameFlags, Reached, read_routed, run_on-outcome, run_on-node, run_on-broken,
  reaches,
}
use cassandra_driver.Wire.Node.Refines.{
  Ready, Ready-kept, IsReadyWorld, IsConsistent, prepared_id_served,
}

-- What the queries of a batch do, in their order.
unfoldable pub run_batch : (db : Database) → List BatchQuery → db.Contents → db.Contents
run_batch db [] d = d
run_batch db ((text, params) ∷ queries) d = run_batch db queries (db.run d text params).1

module _ (peer : Peer) (db : Database) (serves : Serves peer db) where
  -- The statements of a request stand for queries: as their texts, or as the ids of the texts.
  abbrev pub StandsFor : List BatchStatement → List BatchQuery → Type 0
  StandsFor [] [] = Unit {0}
  StandsFor [] (query ∷ queries) = ⊥
  StandsFor (statement ∷ statements) [] = ⊥
  StandsFor (by_string text params ∷ statements) (query ∷ queries) =
      ((text, params) ≡ query) × StandsFor statements queries
  StandsFor (by_id id params ∷ statements) (query ∷ queries) =
      (id ≡ (serves.describe query.0).id) × (params ≡ query.1) × StandsFor statements queries

  -- The node runs a batch whole, and answers with a Void result.
  pub record ServesBatch : Type 0 where
    pub on_batch :
        (s : peer.State) (bytes : RawBuffer) (stream : ℕ) (level : Consistency)
        (statements : List BatchStatement) (queries : List BatchQuery)
        → Receives bytes stream (RequestBody.batch statements level)
        → StandsFor statements queries
        → ((peer.serve s bytes).0 ≡ some (answered stream void_body))
          × (serves.contents (peer.serve s bytes).1 ≡ run_batch db queries (serves.contents s))

  abbrev pub named : List BatchQuery → List BatchStatement
  named queries = map (λ (q : BatchQuery). by_id (serves.describe q.0).id q.1) queries

  pub named-StandsFor : (queries : List BatchQuery) → StandsFor (named queries) queries
  named-StandsFor [] = tt
  named-StandsFor (query ∷ queries) = (refl, refl, named-StandsFor queries)

  -- BATCH: its queries in their order, and no rows.
  pub batch_served :
      (batches : ServesBatch) (conn : Connection) (w : World peer)
      → IsReady (w.compressors conn.id) (w.impls conn.id)
      → (level : Consistency) (statements : List BatchStatement) (queries : List BatchQuery)
        (control : OptionalCommandControl)
      → FitsFrame (RequestBody.batch statements level)
      → StandsFor statements queries
      → let r = (connections peer).batch_execute conn level statements control w in
        (r.0 ≡ ok (result_set none))
        × (serves.contents r.1.node ≡ run_batch db queries (serves.contents w.node))
        × SameFlags peer w r.1
  unfolding as_result_set execute_batch
  batch_served batches conn w ready level statements queries control fits stands =
      let request = RequestBody.batch statements level in
      let x = reaches peer db serves conn w ready request fits in
      let h = result_header x.id (length void_body) in
      let (sent, run) =
        batches.on_batch w.node x.bytes x.id level statements queries x.received stands in
      let (read, found) =
        batch_answered x.choice level statements (w.impls conn.id) x.id [] x.acquired
          (omega (arith, x.id_lt)) in
      let call : Call (Option RowKind) =
        λ k choice answer. execute_batch k choice answer level statements in
      let got =
        read_routed x.id (answered x.id void_body) (void_message h)
          (rw (append-nil void_body) at read) refl in
      let outcome : (run_on peer conn.id request call w).0 ≡ ok none =
        run_on-outcome peer conn request call w ready.plain x ∙ rw (sent, got) found in
      (
        rw outcome refl,
        rw (run_on-node peer conn request call w ready.plain x) run,
        run_on-broken peer conn request call w ready.plain x (rw sent got) (
            execute_message_async_answered none x.choice (void_message h) (new_request request)
              (w.impls conn.id)),
      )
