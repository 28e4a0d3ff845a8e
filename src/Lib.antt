-- ===== src/Lib.antt =====
-- A model of an asynchronous Cassandra driver (protocol version 4) over the userver framework.
--
-- The program's parts, from the socket up, and the files that model them:
--
-- - Io: big-endian integers, texts, byte strings, lists and maps. Io.antt models
--   include/cassandra/io/buffer_io_base.hpp, buffer_reader.hpp and integral_types.hpp (`ReadIntBE` is
--   read_int_be, `WriteIntBE` is be_bytes, `EnsureSize` is ensure_size), Io/Strings string_types.hpp
--   and the byte strings of list_types.hpp, Io/Containers list_types.hpp and map_types.hpp. A buffer is
--   the list of its bytes, a reader gives back the bytes behind what it took, and a formatter is the
--   bytes that it appends. `Codec` is the interface of an element: a reader, a writer and their round
--   trip. Io/Shortens, Io/Ends and Io/Gives are the rules by which a reader ends and what it gives.
--   Io/Cells models the readers and writers of one whole cell (`Read(const Bytes&)`), and Io/Floats
--   floating_point_types.hpp.
-- - Protocol: Protocol/Frame models include/cassandra/io/protocol/frame.hpp and
--   src/io/protocol/frame.cpp, Protocol/Lz4 src/io/protocol/lz4_utils.cpp, Protocol/Requests
--   src/io/protocol/request_message.hpp, Protocol/Columns src/io/protocol/column_option.cpp,
--   Protocol/Responses src/io/protocol/response_message.hpp, Responses/Schema
--   src/io/protocol/events/schema_change.cpp, Responses/Errors `CheckError` of
--   src/detail/connection_impl.cpp. What a peer reads or writes is described on its own: decode_body
--   for requests, write_rows, write_prepared, write_option and write_schema_change for responses.
-- - Connection: Connection.antt models `ReadFrame`, `SendMessage`, `ExecuteMessageAsync` and
--   `ReceiverLoop` of src/detail/connection_impl.cpp, Connection/Statements its `Prepare`, `Execute`,
--   `ExecutePrepared` and `BatchExecute`, Connection/Handshake its `ExecuteMessage` and `CqlHandshake`,
--   and Connection/Streams the stream ids of src/detail/stream_pool.cpp. The bytes of the socket, the
--   answer that comes in time and the stream that the queue hands out are arguments; guards come and
--   go as the relation `Step`.
--   Connection/Queues is the queue of one stream between `ExecuteMessageAsync`, `ReceiverLoop` and the
--   node, as the relation `Reaches`. Connection/Received is `ReceiverLoop` over the bytes of a socket and
--   the queues that it fills. Connection/Connect models `Connect` of src/detail/connection.cpp
--   with `TcpConnect` and `AsyncConnect`.
-- - Rows: Rows.antt models include/cassandra/row.hpp, result_set.hpp and detail/result_wrapper.hpp
--   (`Row::To` is as_field and as_row). A C++ tuple type is the list of its members' cell types.
--   Rows/Types models include/cassandra/io/row_types.hpp, which says what types those are.
-- - Queries: Queries.antt models include/cassandra/query.hpp, detail/query_parameters.hpp and
--   batch_query.hpp.
-- - Pool: Pool.antt models `Acquire`, `Push`, `Release` and `AcquireImmediate` of
--   src/detail/connection_pool.cpp, Pool/Init its `Init`, `Connect`, `DoConnect` and
--   `TryCreateConnectionAsync`, Pool/Close `Clear`, Pool/Maintain `Maintain`, Pool/Statements
--   `CanPrepareStatement`, `Execute` and `BatchExecute`, Pool/Options the comparisons of
--   include/cassandra/options.hpp. `Client` (Pool/Client) is what the pool asks of its connections,
--   and `StatementCache` what it asks of userver's cache. Pool/Closing is `ConnectionImpl::Close`, the
--   destructor behind it, and `Connection::Close`. Pool/Shared is the pool under many tasks: the calls,
--   `Maintain`, the connecting tasks and the close tasks, each lock of `_connections` a step of the
--   relation `Reaches`, and so the tests of `Maintain` and the deletion behind its `Close`, which waits.
-- - Wire: Wire.antt fills `Client` with the connections of src/detail/connection_impl.cpp, as
--   src/detail/connection.cpp hands the calls on, over a `Peer` that takes the bytes of a request's frame
--   and gives the bytes of an answer's. Wire/Node describes a peer that serves a database, in the terms of
--   the protocol: `Serves` asks for answers to PREPARE, QUERY and EXECUTE frames, `ServesBatch` to BATCH.
-- - Session: Session.antt models include/cassandra/session.hpp, src/session.cpp and src/session_impl.cpp,
--   Session/Nodes include/cassandra/node_description.hpp. Session/History has the abstract view of a
--   session: statements with their values, run on a database one behind the other (run_all),
--   Session/Events puts the maintenance of the first pool between them, from Session/Upkeep and
--   Session/Maintained, and Session/Batches is that of a batch (run_batch).
-- - Config: Config.antt models src/cassandra_configs.cpp, Config/Secdist src/secdist.cpp, Config/Component
--   the constructor of src/component.cpp with src/database.cpp, Config/Schema its schema. The component
--   makes a session of the nodes that the secdist has for its keyspace. Config/Written is a document as
--   include/cassandra/component.hpp lays it out.
-- - Base: the tests, lists and results that all share. `Result` has the exceptions of
--   include/cassandra/exception.hpp, `fault` for undefined behaviour, and `stuck` for a recursion of the
--   model that ran out of fuel. Examples: the theorems on concrete inputs.
--
-- Numbers: an integer of w bytes is its bit pattern, a number below 256 ^ w; is_negative and to_size
-- are the tests and the conversion of a signed Int. Fuel: parse_column_option gives the recursive
-- parser of column types fuel by the length of the buffer, of which every type takes two bytes at least
-- (Protocol/Columns/Fuel). All other loops are structural, over a list or a count that the source bounds.
--
-- Parameters: liblz4 (Lz4Library, with Lz4Documented), the cache of prepared statements
-- (StatementCache, with CacheDocumented and CacheFaithful), the connections as the pool sees them
-- (Client), the node (Peer, with Serves and ServesBatch), the resolver, getaddrinfo and the sockets'
-- connects and release, the members of JSON and YAML values (JsonNode, JsonObject, YamlConfig), the task
-- processors of the service, and what the compiler and boost::pfr say of a type (TypeTraits).
--
-- Not modelled: metrics and logs, the samples, benchmarks and unit tests, and a member of a
-- node's JSON that is of another type than the code reads. Tasks are modelled by the order in
-- which their effects come: a call of the pool reads a connection's flags once; in Wire the
-- calls on one connection follow each other, and an answer behind its deadline is lost, where in
-- the code it may meet a later call on the same stream, which Connection/Queues models on its
-- own; `Serves` is about uncompressed connections.
pub mod Base
pub mod Io
pub mod Protocol
pub mod Rows
pub mod Queries
pub mod Connection
pub mod Pool
pub mod Wire
pub mod Session
pub mod Config
pub mod Examples
