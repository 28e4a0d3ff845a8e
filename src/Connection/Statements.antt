-- ===== src/Connection/Statements.antt =====
-- `Prepare`, `Execute`, `ExecutePrepared` and `BatchExecute` of src/detail/connection_impl.cpp: the
-- request of each, and what it takes from the answer. The command control only sets the deadline.
use cassandra_driver.Base.{ℕ, Option, List}
use cassandra_driver.Base.Result.{Result, ok, ◌>>=◌}
use cassandra_driver.Io.{RawBuffer}
use cassandra_driver.Protocol.Lz4.{Compressor}
use cassandra_driver.Protocol.Requests.{
  Consistency, QueryParameters, BatchStatement, RequestBody, new_request,
}
use cassandra_driver.Protocol.Responses.{ResponseMessage, ResultMessage, RowKind}
use cassandra_driver.Connection.{
  ConnectionImpl, execute_message_async, as_result, get_result_set, get_prepared_statement_id,
}

module _ (compressor : Option Compressor) (choice : Option ℕ)
    (answer : Option ResponseMessage) where
  -- The call of a request, and the result message that must answer it.
  result_of : RequestBody → ConnectionImpl → Result ResultMessage × ConnectionImpl
  result_of request c =
      let (response, c') = execute_message_async compressor choice answer (new_request request) c in
      ((response >>= as_result), c')

  -- `Prepare`
  unfoldable pub prepare_statement : RawBuffer → ConnectionImpl → Result RawBuffer × ConnectionImpl
  unfolding result_of
  prepare_statement query_name c =
      let (r, c') = result_of (RequestBody.prepare query_name) c in
      ((r >>= λ m. ok (get_prepared_statement_id m)), c')

  -- `Execute`
  unfoldable pub execute_query :
      Consistency
      → RawBuffer
      → QueryParameters
      → ConnectionImpl
      → Result (Option RowKind) × ConnectionImpl
  unfolding result_of
  execute_query level text params c =
      let (r, c') = result_of (RequestBody.query level text params) c in
      ((r >>= λ m. ok (get_result_set m)), c')

  -- `ExecutePrepared`
  unfoldable pub execute_prepared :
      Consistency
      → RawBuffer
      → QueryParameters
      → ConnectionImpl
      → Result (Option RowKind) × ConnectionImpl
  unfolding result_of
  execute_prepared level statement_id params c =
      let (r, c') = result_of (RequestBody.execute level statement_id params) c in
      ((r >>= λ m. ok (get_result_set m)), c')

  -- `BatchExecute`
  unfoldable pub execute_batch :
      Consistency → List BatchStatement → ConnectionImpl → Result (Option RowKind) × ConnectionImpl
  unfolding result_of
  execute_batch level store c =
      let (r, c') = result_of (RequestBody.batch store level) c in
      ((r >>= λ m. ok (get_result_set m)), c')
