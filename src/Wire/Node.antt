-- ===== src/Wire/Node.antt =====
-- A node of the protocol behind the connections of src/detail/connection_impl.cpp: it reads the frames of
-- requests as the protocol describes them, and runs their statements on a database.
pub mod Reached
pub mod Served
pub mod Refines
pub mod Batches
pub mod Pinged
use cassandra_driver.Base.{ℕ, ◌^◌, ◌<◌, ◌≡◌, List, [], ◌∷◌, ◌++◌, Option, none, some, length}
use cassandra_driver.Base.Result.{ok}
use cassandra_driver.Io.{RawBuffer}
use cassandra_driver.Protocol.Frame.{FrameHeader, request_version, serialize_header}
use cassandra_driver.Protocol.Requests.{Consistency, QueryParameters, RequestBody}
use cassandra_driver.Protocol.Requests.Bodies.{decode_body}
use cassandra_driver.Protocol.Requests.Framing.{FramesAs}
use cassandra_driver.Protocol.Responses.{PreparedKind, RowKind}
use cassandra_driver.Protocol.Responses.RoundTrip.{FitsPrepared, FitsRows}
use cassandra_driver.Connection.Answers.{result_header, prepared_body, rows_body}
use cassandra_driver.Connection.Streams.{StreamPool}
use cassandra_driver.Wire.{Peer}

-- What a statement with its values does, and the rows that it gives.
pub record Database : Type 1 where
  pub Contents : Type 0
  pub run : Contents → RawBuffer → QueryParameters → RowKind × Contents

-- The bytes are the frame of this request on this stream.
pub record Receives (bytes : RawBuffer) (stream : ℕ) (request : RequestBody) : Type 0 where
  pub header : FrameHeader
  pub body : RawBuffer
  pub framed : FramesAs bytes header body
  pub version : header.version ≡ request_version
  pub flags : header.flags ≡ 0
  pub on_stream : header.stream ≡ stream
  pub decoded : decode_body header.opcode body ≡ ok (request, [])

-- An uncompressed RESULT on a stream.
abbrev pub answered : ℕ → RawBuffer → RawBuffer
answered stream body = serialize_header (result_header stream (length body)) [] ++ body

-- The node has the database: in each of its states some contents, that only a statement changes. It
-- answers PREPARE with a description, which has the id of the statement, and QUERY and EXECUTE with
-- the rows that the database gives; all in time, and of a size that a frame can have.
pub record Serves (peer : Peer) (db : Database) : Type 0 where
  pub contents : peer.State → db.Contents
  pub describe : RawBuffer → PreparedKind
  pub describe_fits : (text : RawBuffer) → FitsPrepared (describe text)
  pub describe_small : (text : RawBuffer) → length (prepared_body (describe text)) < 2 ^ 31
  pub rows_fit :
      (d : db.Contents) (text : RawBuffer) (params : QueryParameters)
      → FitsRows (db.run d text params).0
  pub rows_small :
      (d : db.Contents) (text : RawBuffer) (params : QueryParameters)
      → length (rows_body (db.run d text params).0) < 2 ^ 31
  pub on_prepare :
      (s : peer.State) (bytes : RawBuffer) (stream : ℕ) (text : RawBuffer)
      → Receives bytes stream (RequestBody.prepare text)
      → ((peer.serve s bytes).0 ≡ some (answered stream (prepared_body (describe text))))
        × (contents (peer.serve s bytes).1 ≡ contents s)
  pub on_query :
      (s : peer.State) (bytes : RawBuffer) (stream : ℕ) (level : Consistency) (text : RawBuffer)
      (params : QueryParameters)
      → Receives bytes stream (RequestBody.query level text params)
      → ((peer.serve s bytes).0
          ≡ some (answered stream (rows_body (db.run (contents s) text params).0)))
        × (contents (peer.serve s bytes).1 ≡ (db.run (contents s) text params).1)
  pub on_execute :
      (s : peer.State) (bytes : RawBuffer) (stream : ℕ) (level : Consistency) (text : RawBuffer)
      (params : QueryParameters)
      → Receives bytes stream (RequestBody.execute level (describe text).id params)
      → ((peer.serve s bytes).0
          ≡ some (answered stream (rows_body (db.run (contents s) text params).0)))
        × (contents (peer.serve s bytes).1 ≡ (db.run (contents s) text params).1)
  -- A queue that is not empty hands out an id.
  pub hands_out :
      (s : peer.State) (id : ℕ) (ids : StreamPool)
      → (choice : ℕ) × (peer.choose s (id ∷ ids) ≡ some choice)
