-- ===== src/Protocol/Requests.antt =====
-- The requests: src/io/protocol/request_message.hpp, include/cassandra/io/protocol/message.hpp, and
-- the parts of include/cassandra/options.hpp, batch_query.hpp and detail/query_parameters.hpp that
-- they carry. Query parameters are the list of the already serialized values.
pub mod Framing
pub mod Bodies
use cassandra_driver.Base.{
  ℕ, ◌+◌, ◌-◌, ◌%◌, ◌^◌, List, [], ◌∷◌, ◌++◌, Option, none, some, if◌then◌else◌, length, codes,
}
use cassandra_driver.Base.Result.{Result, ok, ◌>>=◌}
use cassandra_driver.Io.{RawBuffer, write_int_be, is_positive}
use cassandra_driver.Io.Strings.{write_string, write_long_string, write_short_bytes, write_bytes}
use cassandra_driver.Io.Containers.{write_elements, list_formatter, map_formatter}
use cassandra_driver.Protocol.Frame.{
  Opcode, FrameHeader, request_version, header_size, serialize_header, update_length,
}
use cassandra_driver.Protocol.Lz4.{Compressor}
use Prim.Native.Nat.{bit_or}

pub data Consistency : Type 0 where
  any one two three quorum all local_quorum each_quorum serial local_serial local_one : Consistency

unfoldable pub consistency_value : Consistency → ℕ
consistency_value Consistency.any = 0x0
consistency_value Consistency.one = 0x1
consistency_value Consistency.two = 0x2
consistency_value Consistency.three = 0x3
consistency_value Consistency.quorum = 0x4
consistency_value Consistency.all = 0x5
consistency_value Consistency.local_quorum = 0x6
consistency_value Consistency.each_quorum = 0x7
consistency_value Consistency.serial = 0x8
consistency_value Consistency.local_serial = 0x9
consistency_value Consistency.local_one = 0xa

abbrev pub QueryParameters : Type 0
QueryParameters = List RawBuffer

-- `BatchStatement`: its kind is the constructor.
pub data BatchStatement : Type 0 where
  by_string by_id : RawBuffer → QueryParameters → BatchStatement

abbrev pub StringMap : Type 0
StringMap = List (RawBuffer × RawBuffer)

pub data RequestBody : Type 0 where
  options : RequestBody
  startup : StringMap → RequestBody
  query : Consistency → RawBuffer → QueryParameters → RequestBody
  prepare : RawBuffer → RequestBody
  execute : Consistency → RawBuffer → QueryParameters → RequestBody
  batch : List BatchStatement → Consistency → RequestBody

-- The options of `StartupMessage`. An unordered map has no fixed order; they stand as inserted.
unfoldable pub startup_options : Option RawBuffer → StringMap
startup_options none = (codes "CQL_VERSION", codes "3.0.0") ∷ []
startup_options (some compression) =
    (codes "CQL_VERSION", codes "3.0.0") ∷ (codes "COMPRESSION", compression) ∷ []

-- `QueryFlags`
abbrev pub values_flag : ℕ
values_flag = 0x01

abbrev pub skip_metadata_flag : ℕ
skip_metadata_flag = 0x02

-- The count, as a Short, and each value as [bytes].
abbrev pub write_values : QueryParameters → RawBuffer
write_values params = list_formatter 2 write_bytes params

-- What a query and an execution say after the statement.
unfoldable pub write_query_parameters : Consistency → QueryParameters → RawBuffer
unfolding consistency_value
write_query_parameters level [] =
    write_int_be 2 (consistency_value level) ++ write_int_be 1 skip_metadata_flag
write_query_parameters level (p ∷ ps) =
    write_int_be 2 (consistency_value level)
    ++ (write_int_be 1 (bit_or skip_metadata_flag values_flag) ++ write_values (p ∷ ps))

unfoldable pub write_batch_statement : BatchStatement → RawBuffer
write_batch_statement (by_string text params) =
    write_int_be 1 0 ++ (write_long_string text ++ write_values params)
write_batch_statement (by_id id params) =
    write_int_be 1 1 ++ (write_short_bytes id ++ write_values params)

-- `SerializeBody`
unfoldable pub serialize_body : RequestBody → RawBuffer
unfolding write_query_parameters write_batch_statement consistency_value
serialize_body options = []
serialize_body (startup m) = map_formatter 2 write_string write_string m
serialize_body (query level text params) =
    write_long_string text ++ write_query_parameters level params
serialize_body (prepare text) = write_long_string text
serialize_body (execute level id params) =
    write_short_bytes id ++ write_query_parameters level params
serialize_body (batch statements level) =
    write_int_be 1 0
    ++ (list_formatter 2 write_batch_statement statements
        ++ (write_int_be 2 (consistency_value level) ++ write_int_be 1 0))

pub body_opcode : RequestBody → Opcode
body_opcode options = Opcode.options
body_opcode (startup m) = Opcode.startup
body_opcode (query level text params) = Opcode.query
body_opcode (prepare text) = Opcode.prepare
body_opcode (execute level id params) = Opcode.execute
body_opcode (batch statements level) = Opcode.batch

pub record RequestMessage : Type 0 where
  pub header : FrameHeader
  pub body : RequestBody

-- The constructors' `FrameHeader{.opcode = …}`, and `SetStreamId`.
pub new_request : RequestBody → RequestMessage
unfolding body_opcode
new_request body = record {
  header = record {
    version = request_version;
    flags = 0;
    stream = 0;
    opcode = body_opcode body;
    length = 0;
  };
  body = body;
}

pub set_stream_id : ℕ → RequestMessage → RequestMessage
set_stream_id id m = record m { header = record header { stream = id } }
  where
    open m use {header}

abbrev pub compression_flag : ℕ
compression_flag = 0x01

-- `_header.flags |= kCompression`
abbrev pub flagged : FrameHeader → FrameHeader
flagged h = record h { flags = bit_or h.flags compression_flag }

-- The last step of `RequestMessage::Serialize`: an int32_t difference of two sizes.
pub finish_length : RawBuffer → RawBuffer
finish_length buffer =
    let body_length = (length buffer + 2 ^ 32 - header_size) % 2 ^ 32 in
    if is_positive body_length then update_length buffer body_length else buffer

-- `RequestMessage::Serialize`
pub serialize : Option Compressor → RequestMessage → RawBuffer → Result RawBuffer
unfolding finish_length
serialize none m buffer =
    ok (finish_length (serialize_header m.header buffer ++ serialize_body m.body))
serialize (some c) m buffer = do
  packed ← c.compress (serialize_body m.body) (serialize_header (flagged m.header) buffer)
  ok (finish_length packed)
