-- ===== src/Wire/Node/Served.antt =====
-- The calls of a connection (src/detail/connection_impl.cpp) on such a node.
use cassandra_driver.Base.{◌≡◌, refl, [], append-nil, Option, none, some, length, arith, ◌∙◌}
use cassandra_driver.Base.Result.{ok}
use cassandra_driver.Io.{RawBuffer}
use cassandra_driver.Protocol.Requests.{Consistency, QueryParameters, RequestBody, new_request}
use cassandra_driver.Connection.Calls.{execute_message_async_answered}
use cassandra_driver.Connection.Answers.{
  result_header, prepared_body, rows_body, prepared_message, rows_message, prepare_answered,
  execute_answered, query_answered,
}
use cassandra_driver.Connection.Statements.{prepare_statement, execute_query, execute_prepared}
use cassandra_driver.Pool.{Connection}
use cassandra_driver.Protocol.Responses.{RowKind}
use cassandra_driver.Rows.{result_set}
use cassandra_driver.Pool.Client.{OptionalCommandControl}
use cassandra_driver.Wire.{Peer, World, Call, run_on, connections, as_result_set}
use cassandra_driver.Wire.Node.{Database, Serves, answered}
use cassandra_driver.Wire.Node.Reached.{
  FitsFrame, IsReady, SameFlags, read_routed, run_on-outcome, run_on-node, run_on-broken, reaches,
}

module _ (peer : Peer) (db : Database) (serves : Serves peer db) (conn : Connection)
    (w : World peer) (ready : IsReady (w.compressors conn.id) (w.impls conn.id)) where
  -- PREPARE: the statement's id, and no change of the database.
  pub prepare_served :
      (text : RawBuffer)
      → FitsFrame (RequestBody.prepare text)
      → let r = (connections peer).prepare conn text w in
        (r.0 ≡ ok (serves.describe text).id)
        × (serves.contents r.1.node ≡ serves.contents w.node)
        × SameFlags peer w r.1
  unfolding prepare_statement
  prepare_served text fits =
      let x = reaches peer db serves conn w ready (RequestBody.prepare text) fits in
      let p = serves.describe text in
      let h = result_header x.id (length (prepared_body p)) in
      let (sent, same) = serves.on_prepare w.node x.bytes x.id text x.received in
      let (read, found) =
        prepare_answered x.choice text (w.impls conn.id) x.id p [] x.acquired
          (omega (arith, x.id_lt)) (serves.describe_small text) (serves.describe_fits text) in
      let call : Call RawBuffer = λ k choice answer. prepare_statement k choice answer text in
      let got =
        read_routed x.id (answered x.id (prepared_body p)) (prepared_message h p)
          (rw (append-nil (prepared_body p)) at read) refl in
      (
        run_on-outcome peer conn (RequestBody.prepare text) call w ready.plain x
            ∙ rw (sent, got) found,
        rw (run_on-node peer conn (RequestBody.prepare text) call w ready.plain x) same,
        run_on-broken peer conn (RequestBody.prepare text) call w ready.plain x (rw sent got) (
            execute_message_async_answered none x.choice (prepared_message h p)
              (new_request (RequestBody.prepare text)) (w.impls conn.id)),
      )

  -- EXECUTE of the statement's id: its rows, and one run of it.
  pub execute_prepared_served :
      (level : Consistency) (text : RawBuffer) (params : QueryParameters)
      (control : OptionalCommandControl)
      → FitsFrame (RequestBody.execute level (serves.describe text).id params)
      → let r =
          (connections peer).execute_prepared conn level
            (serves.describe text).id
            params
            control
            w in
        let (rows, after) = db.run (serves.contents w.node) text params in
        (r.0 ≡ ok (result_set (some rows)))
        × (serves.contents r.1.node ≡ after)
        × SameFlags peer w r.1
  unfolding as_result_set execute_prepared
  execute_prepared_served level text params control fits =
      let id = (serves.describe text).id in
      let request = RequestBody.execute level id params in
      let x = reaches peer db serves conn w ready request fits in
      let d = serves.contents w.node in
      let rows = (db.run d text params).0 in
      let h = result_header x.id (length (rows_body rows)) in
      let (sent, run) = serves.on_execute w.node x.bytes x.id level text params x.received in
      let (read, found) =
        execute_answered x.choice level id params (w.impls conn.id) x.id rows [] x.acquired
          (omega (arith, x.id_lt)) (serves.rows_small d text params)
          (serves.rows_fit d text params) in
      let call : Call (Option RowKind) =
        λ k choice answer. execute_prepared k choice answer level id params in
      let got =
        read_routed x.id (answered x.id (rows_body rows)) (rows_message h rows)
          (rw (append-nil (rows_body rows)) at read) refl in
      let outcome : (run_on peer conn.id request call w).0 ≡ ok (some rows) =
        run_on-outcome peer conn request call w ready.plain x ∙ rw (sent, got) found in
      (
        rw outcome refl,
        rw (run_on-node peer conn request call w ready.plain x) run,
        run_on-broken peer conn request call w ready.plain x (rw sent got) (
            execute_message_async_answered none x.choice (rows_message h rows) (new_request request)
              (w.impls conn.id)),
      )

  -- QUERY: the same.
  pub execute_served :
      (level : Consistency) (text : RawBuffer) (params : QueryParameters)
      (control : OptionalCommandControl)
      → FitsFrame (RequestBody.query level text params)
      → let r = (connections peer).execute conn level text params control w in
        let (rows, after) = db.run (serves.contents w.node) text params in
        (r.0 ≡ ok (result_set (some rows)))
        × (serves.contents r.1.node ≡ after)
        × SameFlags peer w r.1
  unfolding as_result_set execute_query
  execute_served level text params control fits =
      let request = RequestBody.query level text params in
      let x = reaches peer db serves conn w ready request fits in
      let d = serves.contents w.node in
      let rows = (db.run d text params).0 in
      let h = result_header x.id (length (rows_body rows)) in
      let (sent, run) = serves.on_query w.node x.bytes x.id level text params x.received in
      let (read, _) =
        execute_answered x.choice level [] params (w.impls conn.id) x.id rows [] x.acquired
          (omega (arith, x.id_lt)) (serves.rows_small d text params)
          (serves.rows_fit d text params) in
      let found = query_answered x.choice level text params (w.impls conn.id) h rows x.acquired in
      let call : Call (Option RowKind) =
        λ k choice answer. execute_query k choice answer level text params in
      let got =
        read_routed x.id (answered x.id (rows_body rows)) (rows_message h rows)
          (rw (append-nil (rows_body rows)) at read) refl in
      let outcome : (run_on peer conn.id request call w).0 ≡ ok (some rows) =
        run_on-outcome peer conn request call w ready.plain x ∙ rw (sent, got) found in
      (
        rw outcome refl,
        rw (run_on-node peer conn request call w ready.plain x) run,
        run_on-broken peer conn request call w ready.plain x (rw sent got) (
            execute_message_async_answered none x.choice (rows_message h rows) (new_request request)
              (w.impls conn.id)),
      )
