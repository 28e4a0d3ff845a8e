-- ===== src/Connection/Answers.antt =====
-- From the bytes of the socket to the caller: what the protocol's results come to.
use cassandra_driver.Base.{
  ℕ, ◌≡◌, ◌<◌, ◌^◌, refl, List, [], ◌++◌, append-nil, Option, none, some, length, arith,
}
use cassandra_driver.Base.Result.{ok}
use cassandra_driver.Io.{RawBuffer, be_bytes, read_int_be}
use cassandra_driver.Io.Integers.{read_int_be-be_bytes}
use cassandra_driver.Protocol.Frame.{Opcode, FrameHeader, response_version, serialize_header}
use cassandra_driver.Protocol.Frame.Layout.{IsHeader}
use cassandra_driver.Protocol.Requests.{Consistency, QueryParameters, BatchStatement}
use cassandra_driver.Protocol.Responses.{
  PreparedKind, RowKind, Payload, ResultKind, result_kind, ResponseMessage, parse_result,
  do_parse_body, parse_body, check_response_header, result,
}
use cassandra_driver.Protocol.Responses.RoundTrip.{
  write_prepared, FitsPrepared, parse_prepared-write_prepared, write_rows, FitsRows,
  parse_rows-write_rows,
}
use cassandra_driver.Protocol.Responses.Errors.{check_error}
use cassandra_driver.Connection.{
  ConnectionImpl, read_frame, execute_message_async, as_result, get_result_set,
  get_prepared_statement_id,
}
use cassandra_driver.Connection.Frames.{read_frame-frame}
use cassandra_driver.Connection.Statements.{
  prepare_statement, execute_query, execute_prepared, execute_batch,
}
use cassandra_driver.Connection.Streams.{StreamPool, acquire_stream}

-- The header of an uncompressed result on a stream.
abbrev pub result_header : ℕ → ℕ → FrameHeader
result_header stream n = record {
  version = response_version;
  flags = 0;
  stream = stream;
  opcode = Opcode.result;
  length = n;
}

result_header-IsHeader :
    (stream n : ℕ) → stream < 2 ^ 16 → n < 2 ^ 31 → IsHeader (result_header stream n)
result_header-IsHeader stream n hs hn = record {
  version_lt = omega arith;
  flags_lt = omega arith;
  stream_lt = hs;
  opcode_known = tt;
  length_lt = omega (arith, hn);
}

result_header_response : (stream n : ℕ) → check_response_header (result_header stream n) ≡ ok tt
unfolding check_response_header
result_header_response stream n = refl

-- The bodies of a Prepared and of a Rows result, with their kinds.
abbrev pub prepared_body : PreparedKind → RawBuffer
prepared_body p = be_bytes 4 4 ++ write_prepared p

abbrev pub rows_body : RowKind → RawBuffer
rows_body r = be_bytes 4 2 ++ write_rows r

abbrev pub prepared_message : FrameHeader → PreparedKind → ResponseMessage
prepared_message h p = record {
  header = h;
  body = result (record { kind = ResultKind.prepared; payload = Payload.prepared p });
}

abbrev pub rows_message : FrameHeader → RowKind → ResponseMessage
rows_message h r = record {
  header = h;
  body = result (record { kind = ResultKind.rows; payload = Payload.rows r });
}

parse_result_prepared :
    (p : PreparedKind)
    → FitsPrepared p
    → parse_result (be_bytes 4 4 ++ (write_prepared p ++ []))
      ≡ ok (record { kind = ResultKind.prepared; payload = Payload.prepared p }, [])
unfolding parse_result result_kind
parse_result_prepared p fits =
    simp (read_int_be-be_bytes 4 4 (omega arith), parse_prepared-write_prepared p fits)

parse_result_rows :
    (r : RowKind)
    → FitsRows r
    → parse_result (be_bytes 4 2 ++ (write_rows r ++ []))
      ≡ ok (record { kind = ResultKind.rows; payload = Payload.rows r }, [])
unfolding parse_result result_kind
parse_result_rows r fits =
    simp (read_int_be-be_bytes 4 2 (omega arith), parse_rows-write_rows r fits)

parse_body_prepared :
    (stream n : ℕ) (p : PreparedKind)
    → FitsPrepared p
    → parse_body none (result_header stream n) (prepared_body p)
      ≡ ok (prepared_message (result_header stream n) p)
unfolding parse_body do_parse_body
parse_body_prepared stream n p fits =
    simp (rw (append-nil (write_prepared p)) at (parse_result_prepared p fits))

parse_body_rows :
    (stream n : ℕ) (r : RowKind)
    → FitsRows r
    → parse_body none (result_header stream n) (rows_body r)
      ≡ ok (rows_message (result_header stream n) r)
unfolding parse_body do_parse_body
parse_body_rows stream n r fits =
    simp (rw (append-nil (write_rows r)) at (parse_result_rows r fits))

-- A node that answers PREPARE, uncompressed, with a result that fits and is below 2 GiB, on a 16-bit
-- stream: its bytes are read as that message, and `Prepare` that got a stream and waits for the message
-- answers with the node's id.
pub prepare_answered :
    (choice : Option ℕ) (text : RawBuffer) (c : ConnectionImpl) (stream : ℕ) (p : PreparedKind)
    (rest : RawBuffer) {id : ℕ} {left : StreamPool}
    → acquire_stream choice c.stream_pool ≡ (ok id, left)
    → stream < 2 ^ 16
    → length (prepared_body p) < 2 ^ 31
    → FitsPrepared p
    → let h = result_header stream (length (prepared_body p)) in
      (read_frame none (serialize_header h [] ++ (prepared_body p ++ rest))
        ≡ ok (prepared_message h p, rest))
      × ((prepare_statement none choice (some (prepared_message h p)) text c).0 ≡ ok p.id)
unfolding prepare_statement execute_message_async check_error as_result get_prepared_statement_id
prepare_answered choice text c stream p rest {id} {left} got hs small fits =
    let n = length (prepared_body p) in
    let h = result_header stream n in
    let framed =
      read_frame-frame none h (prepared_body p) rest (result_header-IsHeader stream n hs small) refl
        small (result_header_response stream n) in
    (rw (parse_body_prepared stream n p fits) at framed, ground (arith, got))

-- A node that answers EXECUTE, uncompressed, with rows that fit and are below 2 GiB, on a 16-bit
-- stream: its bytes are read as that message, and `ExecutePrepared` that got a stream and waits for the
-- message answers with these rows.
pub execute_answered :
    (choice : Option ℕ) (level : Consistency) (statement_id : RawBuffer) (params : QueryParameters)
    (c : ConnectionImpl) (stream : ℕ) (r : RowKind) (rest : RawBuffer) {id : ℕ} {left : StreamPool}
    → acquire_stream choice c.stream_pool ≡ (ok id, left)
    → stream < 2 ^ 16
    → length (rows_body r) < 2 ^ 31
    → FitsRows r
    → let h = result_header stream (length (rows_body r)) in
      (read_frame none (serialize_header h [] ++ (rows_body r ++ rest))
        ≡ ok (rows_message h r, rest))
      × ((execute_prepared none choice (some (rows_message h r)) level statement_id params c).0
          ≡ ok (some r))
unfolding execute_prepared execute_message_async check_error as_result get_result_set
execute_answered choice level statement_id params c stream r rest {id} {left} got hs small fits =
    let n = length (rows_body r) in
    let h = result_header stream n in
    let framed =
      read_frame-frame none h (rows_body r) rest (result_header-IsHeader stream n hs small) refl
        small (result_header_response stream n) in
    (rw (parse_body_rows stream n r fits) at framed, ground (arith, got))

-- `Execute` takes the rows of an answer as `ExecutePrepared` does.
pub query_answered :
    (choice : Option ℕ) (level : Consistency) (text : RawBuffer) (params : QueryParameters)
    (c : ConnectionImpl) (h : FrameHeader) (r : RowKind) {id : ℕ} {left : StreamPool}
    → acquire_stream choice c.stream_pool ≡ (ok id, left)
    → (execute_query none choice (some (rows_message h r)) level text params c).0 ≡ ok (some r)
unfolding execute_query execute_message_async check_error as_result get_result_set
query_answered choice level text params c h r {id} {left} got = ground (arith, got)

-- The body of a Void result.
abbrev pub void_body : RawBuffer
void_body = be_bytes 4 1

abbrev pub void_message : FrameHeader → ResponseMessage
void_message h = record {
  header = h;
  body = result (record { kind = ResultKind.void; payload = Payload.nothing });
}

-- A node that answers BATCH, uncompressed, with a Void result: its bytes are read as that message, and
-- `BatchExecute` that got a stream and waits for the message answers without rows.
pub batch_answered :
    (choice : Option ℕ) (level : Consistency) (statements : List BatchStatement)
    (c : ConnectionImpl) (stream : ℕ) (rest : RawBuffer) {id : ℕ} {left : StreamPool}
    → acquire_stream choice c.stream_pool ≡ (ok id, left)
    → stream < 2 ^ 16
    → let h = result_header stream (length void_body) in
      (read_frame none (serialize_header h [] ++ (void_body ++ rest)) ≡ ok (void_message h, rest))
      × ((execute_batch none choice (some (void_message h)) level statements c).0 ≡ ok none)
unfolding execute_batch execute_message_async check_error as_result get_result_set parse_body
    do_parse_body parse_result result_kind be_bytes read_int_be
batch_answered choice level statements c stream rest {id} {left} got hs =
    let h = result_header stream (length void_body) in
    let framed =
      read_frame-frame none h void_body rest (result_header-IsHeader stream 4 hs (omega arith)) refl
        (omega arith) (result_header_response stream 4) in
    (framed, ground (arith, got))
