-- ===== src/Wire.antt =====
-- The connections of src/detail/connection_impl.cpp as the pool of src/detail/connection_pool.cpp calls
-- them, through src/detail/connection.cpp: the pool's `Client` interface, filled. A node takes the bytes
-- of a frame and gives the bytes of one; which free stream a queue hands out is the node's choice too.
-- Calls follow each other: an answer behind its deadline is lost, and never meets a later call.
pub mod Streams
pub mod Node
use cassandra_driver.Base.{ℕ, [], Bool, ◌==◌, if◌then◌else◌, Option, none, some}
use cassandra_driver.Base.Result.{Result, ok, throws, fault, stuck, ◌>>=◌}
use cassandra_driver.Io.{RawBuffer}
use cassandra_driver.Protocol.Lz4.{Compressor}
use cassandra_driver.Protocol.Requests.{RequestBody, new_request, set_stream_id, serialize}
use cassandra_driver.Protocol.Responses.{ResponseMessage, RowKind}
use cassandra_driver.Rows.{ResultSet, result_set}
use cassandra_driver.Connection.{ConnectionImpl, read_frame}
use cassandra_driver.Connection.Streams.{StreamPool, acquire_stream, get_used_streams}
use cassandra_driver.Connection.Statements.{
  prepare_statement, execute_query, execute_prepared, execute_batch,
}
use cassandra_driver.Pool.{Connection}
use cassandra_driver.Pool.Client.{Client}

-- `serve` gives no bytes if none come before the deadline of the call.
pub record Peer : Type 1 where
  pub State : Type 0
  pub serve : State → RawBuffer → Option RawBuffer × State
  pub choose : State → StreamPool → Option ℕ

-- The connection at each address, its compressor, and the node.
pub record World (peer : Peer) : Type 0 where
  pub impls : ℕ → ConnectionImpl
  pub compressors : ℕ → Option Compressor
  pub node : peer.State

-- The frame that `ReceiverLoop` reads, if it puts it into the queue of the stream that waits.
pub routed : Option Compressor → ℕ → Option RawBuffer → Option ResponseMessage
routed compressor id none = none
routed compressor id (some bytes) = elim (read_frame compressor bytes) [
  | ok (m, rest) ↦ if m.header.stream == id then some m else none
  | throws e ↦ none
  | fault ↦ none
  | stuck ↦ none
]

pub record Exchanged (State : Type 0) : Type 0 where
  pub choice : Option ℕ
  pub answer : Option ResponseMessage
  pub node : State

pub set_impl : (ℕ → ConnectionImpl) → ℕ → ConnectionImpl → ℕ → ConnectionImpl
set_impl impls at c id = if id == at then c else impls id

-- A call of a connection, once its compressor, its stream and its answer are known.
abbrev pub Call : Type 0 → Type 0
Call A =
    Option Compressor
    → Option ℕ
    → Option ResponseMessage
    → ConnectionImpl
    → Result A × ConnectionImpl

module _ (peer : Peer) where
  -- What the node sees and answers while a connection executes a request: nothing, if no stream is free.
  pub exchange :
      Option Compressor → RequestBody → ConnectionImpl → peer.State → Exchanged peer.State
  unfolding routed
  exchange compressor request c s =
      let choice = peer.choose s c.stream_pool in
      elim (acquire_stream choice c.stream_pool).0 [
        | ok id ↦ elim (serialize compressor (set_stream_id id (new_request request)) []) [
          | ok frame ↦
              let (bytes, s') = peer.serve s frame in
              record { choice = choice; answer = routed compressor id bytes; node = s' }
          | throws e ↦ record { choice = choice; answer = none; node = s }
          | fault ↦ record { choice = choice; answer = none; node = s }
          | stuck ↦ record { choice = choice; answer = none; node = s }
        ]
        | throws e ↦ record { choice = choice; answer = none; node = s }
        | fault ↦ record { choice = choice; answer = none; node = s }
        | stuck ↦ record { choice = choice; answer = none; node = s }
      ]

  -- A call of a connection, over that exchange.
  pub run_on : {A : Type 0} → ℕ → RequestBody → Call A → World peer → Result A × World peer
  unfolding set_impl
  run_on at request call w =
      let c = w.impls at in
      let e = exchange (w.compressors at) request c w.node in
      let (r, c') = call (w.compressors at) e.choice e.answer c in
      (r, record w { impls = set_impl w.impls at c'; node = e.node })

  -- The rows of an answer as a result set.
  pub as_result_set : Result (Option RowKind) × World peer → Result ResultSet × World peer
  as_result_set (r, w) = ((r >>= λ rows. ok (result_set rows)), w)

  -- `IsBroken` and `GetUsedStreams`, as they are.
  unfoldable pub refresh_connection : World peer → Connection → Connection
  refresh_connection w c = record c { broken = broken; used_streams = get_used_streams stream_pool }
    where
      open (w.impls c.id) use {broken, stream_pool}

  -- `Prepare`, `Execute`, `ExecutePrepared` and `BatchExecute` of `Connection`, which call those of
  -- its `_pimpl`.
  abbrev pub connections : Client
  connections = record {
    World = World peer;
    Rows = ResultSet;
    prepare = λ c text w.
        run_on c.id (RequestBody.prepare text)
          (λ k choice answer. prepare_statement k choice answer text) w;
    execute = λ c level text params control w. as_result_set (
        run_on c.id (RequestBody.query level text params)
          (λ k choice answer. execute_query k choice answer level text params) w);
    execute_prepared = λ c level id params control w. as_result_set (
        run_on c.id (RequestBody.execute level id params)
          (λ k choice answer. execute_prepared k choice answer level id params) w);
    batch_execute = λ c level statements control w. as_result_set (
        run_on c.id (RequestBody.batch statements level)
          (λ k choice answer. execute_batch k choice answer level statements) w);
    refresh = refresh_connection;
  }
