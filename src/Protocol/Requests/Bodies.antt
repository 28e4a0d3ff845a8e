-- ===== src/Protocol/Requests/Bodies.antt =====
-- The bodies of requests (src/io/protocol/request_message.hpp), read as the protocol describes them.
use cassandra_driver.Base.{
  ℕ, ◌%◌, ◌<◌, ◌^◌, ◌≡◌, refl, [], ◌∷◌, ◌++◌, append_assoc, ◌==◌, if◌then◌else◌, arith,
}
use cassandra_driver.Base.Result.{Result, ok, throws, runtime_error}
use cassandra_driver.Io.{RawBuffer, Reader, ◌>>=◌, pure, lift, read_int_be}
use cassandra_driver.Io.Integers.{read_int_be-be_bytes}
use cassandra_driver.Io.Strings.{read_string, read_long_string, read_short_bytes, read_bytes}
use cassandra_driver.Io.Strings.RoundTrip.{
  FitsPrefix, string_parser-string_formatter, bytes_parser-bytes_formatter,
}
use cassandra_driver.Io.Containers.{Codec, list_parser, map_parser}
use cassandra_driver.Io.Containers.Codecs.{
  string_codec, bytes_codec, FitsList, list_parser-list_formatter,
}
use cassandra_driver.Io.Containers.Maps.{same_text, FitsMap, map_parser-map_formatter}
use cassandra_driver.Protocol.Frame.{Opcode}
use cassandra_driver.Protocol.Requests.{
  Consistency, consistency_value, QueryParameters, BatchStatement, by_string, by_id, RequestBody,
  options, startup, query, prepare, execute, batch, write_query_parameters, write_batch_statement,
  serialize_body, body_opcode,
}

consistency_of : ℕ → Result Consistency
consistency_of n =
    if n == 0
    then ok Consistency.any
    else if n == 1
    then ok Consistency.one
    else if n == 2
    then ok Consistency.two
    else if n == 3
    then ok Consistency.three
    else if n == 4
    then ok Consistency.quorum
    else if n == 5
    then ok Consistency.all
    else if n == 6
    then ok Consistency.local_quorum
    else if n == 7
    then ok Consistency.each_quorum
    else if n == 8
    then ok Consistency.serial
    else if n == 9
    then ok Consistency.local_serial
    else if n == 10
    then ok Consistency.local_one
    else throws runtime_error

consistency_of-consistency_value : (c : Consistency) → consistency_of (consistency_value c) ≡ ok c
unfolding consistency_of consistency_value
consistency_of-consistency_value Consistency.any = refl
consistency_of-consistency_value _ = refl

consistency_value-lt : (c : Consistency) → consistency_value c < 256 ^ 2
unfolding consistency_value
consistency_value-lt Consistency.any = omega arith
consistency_value-lt _ = omega arith

-- [short] n and n values as [bytes].
abbrev read_values : Reader QueryParameters
read_values = list_parser 2 read_bytes

-- [short] consistency, [byte] flags, and the values if the lowest flag is set.
decode_parameters : Reader (Consistency × QueryParameters)
decode_parameters = do
  n ← read_int_be 2
  level ← lift (consistency_of n)
  flags ← read_int_be 1
  values ← if flags % 2 == 1 then read_values else pure []
  pure (level, values)

-- [byte] kind, then [long string] for 0 and [short bytes] for 1, and the values.
pub decode_statement : Reader BatchStatement
decode_statement = do
  kind ← read_int_be 1
  if kind == 0
      then (do text ← read_long_string; params ← read_values; pure (by_string text params))
      else (do id ← read_short_bytes; params ← read_values; pure (by_id id params))

pub decode_body : Opcode → Reader RequestBody
unfolding decode_parameters decode_statement
decode_body Opcode.options = pure options
decode_body Opcode.startup = do m ← map_parser same_text 2 read_string read_string; pure (startup m)
decode_body Opcode.query = do
  text ← read_long_string
  (level, params) ← decode_parameters
  pure (query level text params)
decode_body Opcode.prepare = do text ← read_long_string; pure (prepare text)
decode_body Opcode.execute = do
  id ← read_short_bytes
  (level, params) ← decode_parameters
  pure (execute level id params)
decode_body Opcode.batch = do
  type ← read_int_be 1
  statements ← list_parser 2 decode_statement
  n ← read_int_be 2
  level ← lift (consistency_of n)
  flags ← read_int_be 1
  pure (batch statements level)
decode_body _ = lift (throws runtime_error)

-- The values of a statement: fewer than 2 ^ 16 of them, each below 2 GiB.
abbrev pub FitsValues : QueryParameters → Type 0
FitsValues = FitsList (bytes_codec 4) 2

abbrev pub FitsStatement : BatchStatement → Type 0
FitsStatement (by_string text params) = FitsPrefix 4 text × FitsValues params
FitsStatement (by_id id params) = FitsPrefix 2 id × FitsValues params

pub decode_statement-write_batch_statement :
    (s : BatchStatement)
    → FitsStatement s
    → (rest : RawBuffer) → decode_statement (write_batch_statement s ++ rest) ≡ ok (s, rest)
unfolding decode_statement write_batch_statement
decode_statement-write_batch_statement (by_string text params) fits rest = simp (
  append_assoc,
  read_int_be-be_bytes 1 0 (omega arith),
  string_parser-string_formatter 4 text fits.0,
  list_parser-list_formatter (bytes_codec 4) 2 params fits.1,
)
decode_statement-write_batch_statement (by_id id params) fits rest = simp (
  append_assoc,
  read_int_be-be_bytes 1 1 (omega arith),
  bytes_parser-bytes_formatter 2 id fits.0,
  list_parser-list_formatter (bytes_codec 4) 2 params fits.1,
)

abbrev pub statement_codec : Codec BatchStatement
statement_codec = record {
  read = decode_statement;
  write = write_batch_statement;
  Fits = FitsStatement;
  read-write = decode_statement-write_batch_statement;
}

-- What the length prefixes of the request can say.
abbrev pub FitsBody : RequestBody → Type 0
FitsBody options = Unit {0}
FitsBody (startup m) = FitsMap same_text (string_codec 2) (string_codec 2) 2 m
FitsBody (query level text params) = FitsPrefix 4 text × FitsValues params
FitsBody (prepare text) = FitsPrefix 4 text
FitsBody (execute level id params) = FitsPrefix 2 id × FitsValues params
FitsBody (batch statements level) = FitsList statement_codec 2 statements

decode_parameters-write :
    (level : Consistency) (params : QueryParameters)
    → FitsValues params
    → (rest : RawBuffer)
    → decode_parameters (write_query_parameters level params ++ rest) ≡ ok ((level, params), rest)
unfolding decode_parameters write_query_parameters
decode_parameters-write level [] fits rest = simp (
  append_assoc,
  read_int_be-be_bytes 2 (consistency_value level) (consistency_value-lt level),
  consistency_of-consistency_value level,
  read_int_be-be_bytes 1 2 (omega arith),
)
decode_parameters-write level (p ∷ ps) fits rest = simp (
  append_assoc,
  read_int_be-be_bytes 2 (consistency_value level) (consistency_value-lt level),
  consistency_of-consistency_value level,
  read_int_be-be_bytes 1 3 (omega arith),
  list_parser-list_formatter (bytes_codec 4) 2 (p ∷ ps) fits,
)

-- A server that knows the opcode reads the body of a request back whole, and nothing behind it, if
-- the request's texts, ids, values and lists fit their length prefixes and no option stands twice.
pub decode_body-serialize_body :
    (body : RequestBody)
    → FitsBody body
    → (rest : RawBuffer)
    → decode_body (body_opcode body) (serialize_body body ++ rest) ≡ ok (body, rest)
unfolding decode_body serialize_body body_opcode
decode_body-serialize_body options fits rest = refl
decode_body-serialize_body (startup m) fits rest =
    rw (map_parser-map_formatter same_text (string_codec 2) (string_codec 2) 2 m fits rest)
decode_body-serialize_body (query level text params) fits rest = simp (
  append_assoc,
  string_parser-string_formatter 4 text fits.0,
  decode_parameters-write level params fits.1,
)
decode_body-serialize_body (prepare text) fits rest =
    rw (string_parser-string_formatter 4 text fits rest)
decode_body-serialize_body (execute level id params) fits rest = simp (
  append_assoc,
  bytes_parser-bytes_formatter 2 id fits.0,
  decode_parameters-write level params fits.1,
)
decode_body-serialize_body (batch statements level) fits rest = simp (
  append_assoc,
  read_int_be-be_bytes 1 0 (omega arith),
  list_parser-list_formatter statement_codec 2 statements fits,
  read_int_be-be_bytes 2 (consistency_value level) (consistency_value-lt level),
  consistency_of-consistency_value level,
)
