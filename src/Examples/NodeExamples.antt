-- ===== src/Examples/NodeExamples.antt =====
-- A node that keeps one row and counts the values of the statements that it has run.
use cassandra_driver.Base.{
  ℕ, ◌+◌, List, length, ◌≡◌, inl, inr, refl, ap, append-nil, [], ◌∷◌, Option, none, some,
  Bool-cases, arith,
}
use cassandra_driver.Base.Result.{ok, throws, fault, stuck}
use cassandra_driver.Io.{RawBuffer}
use cassandra_driver.Io.Containers.Maps.{same_text, same_text→eq}
use cassandra_driver.Protocol.Frame.{parse_header}
use cassandra_driver.Protocol.Requests.{
  RequestBody, query, prepare, execute, batch, BatchStatement, by_string, by_id,
}
use cassandra_driver.Protocol.Requests.Bodies.{decode_body}
use cassandra_driver.Connection.Answers.{prepared_body, rows_body, void_body}
use cassandra_driver.Connection.Streams.{StreamPool}
use cassandra_driver.Pool.Client.{CacheFaithful}
use cassandra_driver.Wire.{Peer}
use cassandra_driver.Queries.{BatchQuery}
use cassandra_driver.Wire.Node.Batches.{run_batch, StandsFor, ServesBatch}
use cassandra_driver.Wire.Node.{Database, Receives, Serves, answered}
use cassandra_driver.Examples.ResponseExamples.{one_row, one_row_fits, statement, statement_fits}
use cassandra_driver.Examples.HandshakeExamples.{statement_small, one_row_small}
use cassandra_driver.Examples.PoolExamples.{keeping, find_id}

pub values_in : List BatchStatement → ℕ
values_in [] = 0
values_in (by_string text params ∷ statements) = length params + values_in statements
values_in (by_id id params ∷ statements) = length params + values_in statements

pub reply : ℕ → RequestBody → ℕ → Option RawBuffer × ℕ
reply stream (prepare text) n = (some (answered stream (prepared_body statement)), n)
reply stream (query level text params) n =
    (some (answered stream (rows_body one_row)), n + length params)
reply stream (execute level id params) n =
    (some (answered stream (rows_body one_row)), n + length params)
reply stream (batch statements level) n =
    (some (answered stream void_body), n + values_in statements)
reply stream _ n = (none, n)

pub read_and_reply : ℕ → RawBuffer → Option RawBuffer × ℕ
unfolding reply
read_and_reply n bytes = elim (parse_header bytes) [
  | ok (h, body) ↦ elim (decode_body h.opcode body) [
    | ok (request, rest) ↦ reply h.stream request n
    | throws e ↦ (none, n)
    | fault ↦ (none, n)
    | stuck ↦ (none, n)
  ]
  | throws e ↦ (none, n)
  | fault ↦ (none, n)
  | stuck ↦ (none, n)
]

pub choose_first : StreamPool → Option ℕ
choose_first [] = none
choose_first (id ∷ ids) = some 0

abbrev pub counting : Peer
counting = record { State = ℕ; serve = read_and_reply; choose = λ n free. choose_first free }

abbrev pub counted : Database
counted = record { Contents = ℕ; run = λ n text params. (one_row, n + length params) }

pub received :
    (n : ℕ) (bytes : RawBuffer) (stream : ℕ) (request : RequestBody)
    → Receives bytes stream request
    → read_and_reply n bytes ≡ reply stream request n
unfolding read_and_reply
received n bytes stream request r =
    let parsed : parse_header bytes ≡ ok (r.header, r.body) =
      rw (append-nil bytes, append-nil r.body) at (r.framed.1 []) in
    rw (read_and_reply, parsed, r.decoded, r.on_stream) refl

unfoldable pub counting_serves : Serves counting counted
unfolding reply choose_first
counting_serves = record {
  contents = λ n. n;
  describe = λ text. statement;
  describe_fits = λ text. statement_fits;
  describe_small = λ text. statement_small;
  rows_fit = λ n text params. one_row_fits;
  rows_small = λ n text params. one_row_small;
  on_prepare = λ n bytes stream text r. rw (received n bytes stream (prepare text) r) (refl, refl);
  on_query = λ n bytes stream level text params r.
      rw (received n bytes stream (query level text params) r) (refl, refl);
  on_execute = λ n bytes stream level text params r.
      rw (received n bytes stream (execute level (statement.id) params) r) (refl, refl);
  hands_out = λ n id ids. (0, refl);
}

-- A batch counts the values of its queries.
StandsFor-values_in :
    (statements : List BatchStatement) (queries : List BatchQuery) (n : ℕ)
    → StandsFor counting counted counting_serves statements queries
    → n + values_in statements ≡ run_batch counted queries n
unfolding values_in run_batch
StandsFor-values_in [] [] n stands = omega arith
StandsFor-values_in [] (q ∷ queries) n stands = absurd stands
StandsFor-values_in (b ∷ statements) [] n stands = absurd stands
StandsFor-values_in (by_string text params ∷ statements) ((t, ps) ∷ queries) n (same, stands) =
    let len : length params ≡ length ps = ap (λ (q : BatchQuery). length q.1) same in
    omega (arith, len, StandsFor-values_in statements queries (n + length ps) stands)
StandsFor-values_in (by_id id params ∷ statements) ((t, ps) ∷ queries) n (_, same, stands) =
    let len : length params ≡ length ps = ap length same in
    omega (arith, len, StandsFor-values_in statements queries (n + length ps) stands)

pub counting_batches : ServesBatch counting counted counting_serves
unfolding reply counting_serves
counting_batches = record {
  on_batch = λ n bytes stream level statements queries r stands.
      rw (received n bytes stream (batch statements level) r)
        (refl, StandsFor-values_in statements queries n stands);
}

pub keeping-faithful : CacheFaithful keeping
unfolding find_id
keeping-faithful = record {
  get-put_other = λ s text id other found e. elim (Bool-cases (same_text text other)) [
    | inl same ↦
        let same_id : id ≡ found = cc (rw same at e) in
        let same_key = same_text→eq text other same in inl (cc, cc)
    | inr different ↦ inr (rw different at e)
  ];
}
