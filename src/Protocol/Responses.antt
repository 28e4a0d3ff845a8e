-- ===== src/Protocol/Responses.antt =====
-- The responses: src/io/protocol/response_message.hpp and the opcode switch of
-- src/detail/connection_impl.cpp. An Int is kept as its bit pattern.
pub mod Schema
pub mod Errors
pub mod Total
pub mod Shape
pub mod Metadata
pub mod RoundTrip
use cassandra_driver.Base.{
  ℕ, ◌+◌, List, [], ◌∷◌, Bool, not, ◌==◌, if◌then◌else◌, Option, none, some, length,
}
use cassandra_driver.Base.Result
use cassandra_driver.Base.Result.{Result, ok, throws, runtime_error}
use cassandra_driver.Io.{RawBuffer, Reader, ◌>>=◌, ◌>>◌, pure, lift, read_int_be, is_negative}
use cassandra_driver.Io.Strings.{read_string, read_bytes, read_short_bytes, reserve}
use cassandra_driver.Io.Containers.{read_elements, list_parser, map_parser}
use cassandra_driver.Io.Containers.Maps.{same_text}
use cassandra_driver.Protocol.Frame.{Opcode, FrameHeader, response_version}
use cassandra_driver.Protocol.Lz4.{Compressor}
use cassandra_driver.Protocol.Columns.{ColumnOption, parse_column_option}
use Schema.{SchemaChange, parse_schema_change}
use Prim.Native.Nat.{bit_and}

pub record ResultColumn : Type 0 where
  pub key_space : RawBuffer
  pub table : RawBuffer
  pub name : RawBuffer
  pub type : ColumnOption

pub record RowKind : Type 0 where
  pub flags : ℕ
  pub columns_count : ℕ
  pub paging_state : RawBuffer
  pub global_key_space : RawBuffer
  pub global_table : RawBuffer
  pub columns : List ResultColumn
  pub rows_count : ℕ
  pub rows_content : List (List RawBuffer)

pub record PreparedKind : Type 0 where
  pub id : RawBuffer
  pub flags : ℕ
  pub column_count : ℕ
  pub partition_key_indexes : List ℕ
  pub global_key_space : RawBuffer
  pub global_table : RawBuffer
  pub columns : List ResultColumn

pub data Payload : Type 0 where
  nothing : Payload
  rows : RowKind → Payload
  keyspace : RawBuffer → Payload
  prepared : PreparedKind → Payload
  schema_change : SchemaChange → Payload

-- `ResultMessage::Flags`

unfoldable pub has_flag : ℕ → ℕ → Bool
has_flag flags mask = not (bit_and flags mask == 0)

-- The rounds of `for (Int i = 0; i < count; ++i)`.
pub rounds : ℕ → ℕ
unfolding is_negative
rounds count = if is_negative count then 0 else count

abbrev pub global_table_spec : ℕ
global_table_spec = 0x0001

abbrev pub has_more_pages : ℕ
has_more_pages = 0x0002

abbrev pub no_metadata : ℕ
no_metadata = 0x0004

-- The key space and the table, where they are written.
pub read_table : Bool → Reader (RawBuffer × RawBuffer)
read_table written =
    if written
    then (do key_space ← read_string; table ← read_string; pure (key_space, table))
    else pure ([], [])

-- `ResultColumn::Parse`
pub parse_result_column : Bool → Reader ResultColumn
unfolding read_table
parse_result_column global_table_spec_enabled = do
  (key_space, table) ← read_table (not global_table_spec_enabled)
  name ← read_string
  type ← parse_column_option
  pure (record { key_space = key_space; table = table; name = name; type = type })

-- The metadata of rows: the global table, then the columns.
pub parse_metadata : ℕ → ℕ → Reader (RawBuffer × RawBuffer × List ResultColumn)
unfolding read_table
parse_metadata flags columns_count = do
  (key_space, table) ← read_table (has_flag flags global_table_spec)
  lift (reserve columns_count)
  columns ←
      read_elements (parse_result_column (has_flag flags global_table_spec)) (rounds columns_count)
  pure (key_space, table, columns)

pub parse_paging_state : ℕ → Reader RawBuffer
parse_paging_state flags = if has_flag flags has_more_pages then read_bytes else pure []

pub parse_some_metadata : ℕ → ℕ → Reader (RawBuffer × RawBuffer × List ResultColumn)
unfolding parse_metadata
parse_some_metadata flags columns_count =
    if has_flag flags no_metadata then pure ([], [], []) else parse_metadata flags columns_count

-- `ResultMessage::ParseRows`
pub parse_rows : Reader RowKind
parse_rows = do
  flags ← read_int_be 4
  columns_count ← read_int_be 4
  paging_state ← parse_paging_state flags
  (key_space, table, columns) ← parse_some_metadata flags columns_count
  rows_count ← read_int_be 4
  lift (reserve rows_count)
  content ← read_elements (read_elements read_bytes (rounds columns_count)) (rounds rows_count)
  pure (record {
    flags = flags;
    columns_count = columns_count;
    paging_state = paging_state;
    global_key_space = key_space;
    global_table = table;
    columns = columns;
    rows_count = rows_count;
    rows_content = content;
  })

-- `PreparedKind::Parse`; its `partition_key_count` is the length of the indexes.
pub parse_prepared : Reader PreparedKind
unfolding read_table
parse_prepared = do
  id ← read_short_bytes
  flags ← read_int_be 4
  column_count ← read_int_be 4
  indexes ← list_parser 4 (read_int_be 2)
  (key_space, table) ← read_table (has_flag flags global_table_spec)
  columns ←
      read_elements (parse_result_column (has_flag flags global_table_spec)) (rounds column_count)
  pure (record {
    id = id;
    flags = flags;
    column_count = column_count;
    partition_key_indexes = indexes;
    global_key_space = key_space;
    global_table = table;
    columns = columns;
  })

-- `ResultKind`; the switch has no default, so an unlisted kind leaves the payload empty.
pub data ResultKind : Type 0 where
  void rows set_keyspace prepared schema_change : ResultKind
  unlisted : ℕ → ResultKind

unfoldable pub result_kind : ℕ → ResultKind
result_kind n =
    if n == 1
    then ResultKind.void
    else if n == 2
    then ResultKind.rows
    else if n == 3
    then ResultKind.set_keyspace
    else if n == 4
    then ResultKind.prepared
    else if n == 5
    then ResultKind.schema_change
    else ResultKind.unlisted n

pub record ResultMessage : Type 0 where
  pub kind : ResultKind
  pub payload : Payload

pub parse_result_payload : ResultKind → Reader Payload
parse_result_payload ResultKind.rows = do r ← parse_rows; pure (Payload.rows r)
parse_result_payload ResultKind.set_keyspace = do k ← read_string; pure (Payload.keyspace k)
parse_result_payload ResultKind.prepared = do p ← parse_prepared; pure (Payload.prepared p)
parse_result_payload ResultKind.schema_change = do
  c ← parse_schema_change
  pure (Payload.schema_change c)
parse_result_payload _ = pure nothing

-- `ResultMessage::DoParseBody`
unfoldable pub parse_result : Reader ResultMessage
unfolding parse_result_payload
parse_result = do
  n ← read_int_be 4
  payload ← parse_result_payload (result_kind n)
  pure (record { kind = result_kind n; payload = payload })

abbrev pub StringMultiMap : Type 0
StringMultiMap = List (RawBuffer × List RawBuffer)

pub data ResponseBody : Type 0 where
  supported : StringMultiMap → ResponseBody
  ready : ResponseBody
  authenticate : RawBuffer → ResponseBody
  error : ℕ → RawBuffer → ResponseBody
  result : ResultMessage → ResponseBody

-- The subclass of ResponseMessage that a header asks for, and `DoParseBody` of that class.
unfoldable pub do_parse_body : Opcode → Reader ResponseBody
do_parse_body Opcode.supported = do
  m ← map_parser same_text 2 read_string (list_parser 2 read_string)
  pure (supported m)
do_parse_body Opcode.ready = pure ready
do_parse_body Opcode.authenticate = do challenge ← read_string; pure (authenticate challenge)
do_parse_body Opcode.error = do
  code ← read_int_be 4
  message ← read_string
  pure (error code message)
do_parse_body Opcode.result = do m ← parse_result; pure (result m)
do_parse_body _ = lift (throws runtime_error)

has_response_opcode : Opcode → Bool
has_response_opcode Opcode.supported = Bool.true
has_response_opcode Opcode.ready = Bool.true
has_response_opcode Opcode.authenticate = Bool.true
has_response_opcode Opcode.error = Bool.true
has_response_opcode Opcode.result = Bool.true
has_response_opcode _ = Bool.false

pub record ResponseMessage : Type 0 where
  pub header : FrameHeader
  pub body : ResponseBody

-- `GetResponseMessageFromHeader`: the direction, then the opcode.
unfoldable pub check_response_header : FrameHeader → Result (Unit {0})
unfolding has_response_opcode
check_response_header h =
    if h.version == response_version
    then (if has_response_opcode h.opcode then ok tt else throws runtime_error)
    else throws runtime_error

pub uncompressed : Option Compressor → RawBuffer → Result RawBuffer
uncompressed none bs = ok bs
uncompressed (some c) bs = c.decompress bs

-- `ResponseMessage::ParseBody`; what the body has behind the message is ignored.
unfoldable pub parse_body : Option Compressor → FrameHeader → RawBuffer → Result ResponseMessage
unfolding uncompressed
parse_body compressor h bs = Result.◌>>=◌ (uncompressed compressor bs) λ plain.
    Result.◌>>=◌ (do_parse_body h.opcode plain) λ (body, _). ok (record { header = h; body = body })
