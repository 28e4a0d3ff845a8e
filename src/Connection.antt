-- ===== src/Connection.antt =====
-- A connection: src/detail/connection_impl.hpp and connection_impl.cpp. What the socket and the
-- other tasks do to it comes as arguments: the bytes that a socket still has, the response that
-- arrives in time, the frames of the receiver loop.
pub mod Queues
pub mod Streams
pub mod Frames
pub mod Received
pub mod Calls
pub mod Statements
pub mod Answers
pub mod Handshake
pub mod Connect
use cassandra_driver.Base.{
  ℕ, zero, suc, ◌^◌, ◌++◌, ◌+◌, ◌-◌, List, [], ◌∷◌, Bool, true, false, ltb, leb, ◌==◌, not,
  if◌then◌else◌, Option, none, some, length, take, drop,
}
use cassandra_driver.Base.Result.{
  Result, ok, throws, fault, stuck, ◌>>=◌, ◌>>◌, ensure, runtime_error, connection_error,
}
use cassandra_driver.Io.{RawBuffer}
use cassandra_driver.Io.Strings.{reserve}
use cassandra_driver.Protocol.Frame.{FrameHeader, header_size, parse_header}
use cassandra_driver.Protocol.Lz4.{Compressor}
use cassandra_driver.Protocol.Requests.{RequestMessage, set_stream_id, serialize}
use cassandra_driver.Protocol.Responses.{
  ResponseMessage, ResponseBody, ResultMessage, ResultKind, Payload, RowKind, result,
  check_response_header, parse_body,
}
use cassandra_driver.Protocol.Responses.Errors.{check_error}
use cassandra_driver.Connection.Streams.{StreamPool, acquire_stream, release_stream, max_streams}

-- A buffer of `size` zero bytes.
pub zeros : ℕ → RawBuffer
zeros zero = []
zeros (suc n) = 0 ∷ zeros n

-- `RecvAll` into a zeroed buffer of `size` bytes, from a socket that gives `bytes` and then ends: the
-- number received, the buffer, and what the socket still has.
pub recv_all : ℕ → RawBuffer → ℕ × RawBuffer × RawBuffer
unfolding zeros
recv_all size bytes =
    let taken = take size bytes in
    (length taken, taken ++ zeros (size - length taken), drop size bytes)

-- `ReadFrame`. Any byte of a header counts as a header.
pub read_frame : Option Compressor → RawBuffer → Result (ResponseMessage × RawBuffer)
read_frame compressor bytes =
    let (len, header_buffer, behind) = recv_all header_size bytes in
    ensure (ltb 0 len) runtime_error
    >> (parse_header header_buffer >>= λ (header, _).
        check_response_header header
        >> (reserve header.length
            >> (let (body_len, body_buffer, rest) = recv_all header.length behind in
                ensure (not (ltb body_len header.length)) runtime_error
                >> (parse_body compressor header body_buffer >>= λ message. ok (message, rest)))))

-- `_broken`, the stream pool, and what was sent.
pub record ConnectionImpl : Type 0 where
  pub broken : Bool
  pub stream_pool : StreamPool
  pub sent : List RawBuffer

-- `SendMessage`, in its own task: what it throws stays in the task, which is only waited for.
pub send_message : Option Compressor → RequestMessage → ConnectionImpl → ConnectionImpl
send_message compressor message c = elim (serialize compressor message []) [
  | ok buffer ↦ record c { sent = c.sent ++ buffer ∷ [] }
  | throws e ↦ c
  | fault ↦ c
  | stuck ↦ c
]

-- `ExecuteMessageAsync`. `choice` is the stream that the pool gives, `answer` the response that is
-- put into that stream's queue before the deadline. The guard gives the stream back on every way out.
pub execute_message_async :
    Option Compressor
    → Option ℕ
    → Option ResponseMessage
    → RequestMessage
    → ConnectionImpl
    → Result ResponseMessage × ConnectionImpl
execute_message_async compressor choice answer message c =
    let (stream, left) = acquire_stream choice c.stream_pool in
    elim stream [
      | ok id ↦
          let c' =
            send_message compressor (set_stream_id id message) (record c { stream_pool = left }) in
          elim answer [
            | none ↦ (
              throws connection_error,
              record {
                broken = true;
                stream_pool = release_stream id c'.stream_pool;
                sent = c'.sent;
              },
            )
            | some response ↦ (
              (check_error response.body >> ok response),
              record {
                broken = c'.broken;
                stream_pool = release_stream id c'.stream_pool;
                sent = c'.sent;
              },
            )
          ]
      | throws e ↦ (throws e, c)
      | fault ↦ (fault, c)
      | stuck ↦ (stuck, c)
    ]

-- `dynamic_cast<ResultMessage*>`, and the test behind it.
pub as_result : ResponseMessage → Result ResultMessage
as_result response = elim response.body [ result m ↦ ok m | _ ↦ throws runtime_error ]

-- `GetResultSet`: the rows, or no rows for another kind of result.
pub get_result_set : ResultMessage → Option RowKind
get_result_set m = elim m.kind [
  | ResultKind.rows ↦ elim m.payload [ Payload.rows r ↦ some r | _ ↦ none ]
  | _ ↦ none
]

-- `GetPreparedStatementId`: the id, or the empty id for another kind of result.
pub get_prepared_statement_id : ResultMessage → RawBuffer
get_prepared_statement_id m = elim m.kind [
  | ResultKind.prepared ↦ elim m.payload [ Payload.prepared p ↦ p.id | _ ↦ [] ]
  | _ ↦ []
]

-- What the receiver loop meets in one round: a frame or an exception of `ReadFrame`, and whether the
-- stream's queue takes the frame in time.
pub record Arrival : Type 0 where
  pub frame : Result ResponseMessage
  pub accepted : Bool

-- Whether the loop still runs, `_broken`, and the responses put into the queues of their streams.
pub record Receiver : Type 0 where
  pub running : Bool
  pub broken : Bool
  pub delivered : List (ℕ × ResponseMessage)

-- One round of `ReceiverLoop`. A stream id is an int16_t, kept as its bits; a negative one is skipped.
pub receive : Arrival → Receiver → Receiver
receive a r = elim a.frame [
  | ok m ↦
      let id = m.header.stream in
      if leb (2 ^ 15) id
      then r
      else if leb max_streams id
      then record r { running = false }
      else if a.accepted
      then record r { delivered = r.delivered ++ (id, m) ∷ [] }
      else record r { running = false }
  | throws e ↦ record r { running = false; broken = true }
  | fault ↦ record r { running = false }
  | stuck ↦ record r { running = false }
]

-- `ReceiverLoop`, until it is left or cancelled.
pub receiver_loop : List Arrival → Receiver → Receiver
receiver_loop [] r = r
receiver_loop (a ∷ arrivals) r =
    let rest = receiver_loop arrivals (receive a r) in if r.running then rest else r
