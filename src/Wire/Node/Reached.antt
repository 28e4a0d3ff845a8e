-- ===== src/Wire/Node/Reached.antt =====
-- How a request of a connection (src/detail/connection_impl.cpp) reaches such a node, and its answer the
-- caller.
use cassandra_driver.Base.{
  ℕ, ◌^◌, ◌<◌, ◌≡◌, refl, [], ◌∷◌, append-nil, Option, none, some, length, arith,
}
use cassandra_driver.Base.Result.{ok}
use cassandra_driver.Io.{RawBuffer}
use cassandra_driver.Protocol.Lz4.{Compressor}
use cassandra_driver.Protocol.Requests.{
  RequestBody, serialize_body, serialize, set_stream_id, new_request,
}
use cassandra_driver.Protocol.Requests.Bodies.{FitsBody, decode_body-serialize_body}
use cassandra_driver.Protocol.Requests.Framing.{frame, request_header, serialize-FramesAs}
use cassandra_driver.Connection.{ConnectionImpl, read_frame}
use cassandra_driver.Wire.Streams.{set_impl_each}
use cassandra_driver.Pool.{Connection}
use cassandra_driver.Protocol.Responses.{ResponseMessage}
use cassandra_driver.Connection.Streams.{StreamPool, acquire_stream, max_streams}
use cassandra_driver.Connection.Streams.Balance.{
  IsStocked, acquire_stream-IsStocked, acquire_stream_nonempty,
}
use cassandra_driver.Wire.{Peer, World, Call, exchange, routed, run_on}
use cassandra_driver.Wire.Node.{Database, Receives, Serves}

-- A request that its prefixes and a frame can hold.
abbrev pub FitsFrame : RequestBody → Type 0
FitsFrame request = FitsBody request × (length (serialize_body request) < 2 ^ 31)

-- An uncompressed connection that has a free stream.
pub record IsReady (k : Option Compressor) (c : ConnectionImpl) : Type 0 where
  pub plain : k ≡ none
  pub stocked : IsStocked c.stream_pool
  pub some_free : 0 < length c.stream_pool

frame-Receives :
    (request : RequestBody) (id : ℕ)
    → id < max_streams
    → FitsFrame request
    → Receives (frame (request_header request 0 id 0) (serialize_body request)) id request
frame-Receives request id id_lt fits = record {
  header = request_header request 0 id (length (serialize_body request));
  body = serialize_body request;
  framed = (serialize-FramesAs request id (omega arith) fits.1).1;
  version = refl;
  flags = refl;
  on_stream = refl;
  decoded =
      rw (append-nil (serialize_body request)) at (decode_body-serialize_body request fits.0 []);
}

-- The request's frame reaches the node, on a stream that the connection has free.
pub record Reached (peer : Peer) (request : RequestBody) (c : ConnectionImpl) (s : peer.State)
    : Type 0 where
  pub id : ℕ
  pub left : StreamPool
  pub bytes : RawBuffer
  pub choice : Option ℕ
  pub acquired : acquire_stream choice c.stream_pool ≡ (ok id, left)
  pub id_lt : id < max_streams
  pub received : Receives bytes id request
  pub exchanged : exchange peer none request c s ≡ record {
    choice = choice;
    answer = routed none id (peer.serve s bytes).0;
    node = (peer.serve s bytes).1;
  }

exchange_sent :
    (peer : Peer) (request : RequestBody) (c : ConnectionImpl) (s : peer.State) (choice : Option ℕ)
    {id : ℕ} {left : StreamPool} {bytes : RawBuffer}
    → peer.choose s c.stream_pool ≡ choice
    → acquire_stream choice c.stream_pool ≡ (ok id, left)
    → serialize none (set_stream_id id (new_request request)) [] ≡ ok bytes
    → exchange peer none request c s ≡ record {
      choice = choice;
      answer = routed none id (peer.serve s bytes).0;
      node = (peer.serve s bytes).1;
    }
unfolding exchange
exchange_sent peer request c s choice {id} {left} {bytes} chose got sent =
    ground (arith, chose, got, sent)

module _ (peer : Peer) (db : Database) (serves : Serves peer db) where
  chosen :
      (s : peer.State) (free : StreamPool)
      → 0 < length free
      → (choice : ℕ) × (peer.choose s free ≡ some choice)
  chosen s [] h = absurd (omega arith)
  chosen s (id ∷ ids) h = serves.hands_out s id ids

  exchange_lem :
      (request : RequestBody) (c : ConnectionImpl) (s : peer.State)
      → IsReady none c
      → FitsFrame request
      → Reached peer request c s
  exchange_lem request c s ready fits =
      let (choice, chose) = chosen s c.stream_pool ready.some_free in
      let (id, left, got) = acquire_stream_nonempty choice c.stream_pool ready.some_free in
      let id_lt = (acquire_stream-IsStocked (some choice) c.stream_pool got ready.stocked).0 in
      record {
        id = id;
        left = left;
        bytes = frame (request_header request 0 id 0) (serialize_body request);
        choice = some choice;
        acquired = got;
        id_lt = id_lt;
        received = frame-Receives request id id_lt fits;
        exchanged =
            exchange_sent peer request c s (some choice) chose got
              (serialize-FramesAs request id (omega (arith, id_lt)) fits.1).0;
      }

pub read_routed :
    (id : ℕ) (bytes : RawBuffer) (m : ResponseMessage)
    → read_frame none bytes ≡ ok (m, [])
    → m.header.stream ≡ id
    → routed none id (some bytes) ≡ some m
unfolding routed
read_routed id bytes m e on = ground (arith, e, on)

-- No connection has become broken, or has been mended.
abbrev pub SameFlags : (peer : Peer) → World peer → World peer → Type 0
SameFlags peer w w' = (id : ℕ) → (w'.impls id).broken ≡ (w.impls id).broken

-- How a call ends whose request has reached the node.
module _ (peer : Peer) {A : Type 0} (conn : Connection) (request : RequestBody) (call : Call A)
    (w : World peer) (plain : w.compressors conn.id ≡ none)
    (x : Reached peer request (w.impls conn.id) w.node) where
  pub run_on-outcome :
      (run_on peer conn.id request call w).0
      ≡ (call none x.choice (routed none x.id (peer.serve w.node x.bytes).0) (w.impls conn.id)).0
  unfolding run_on
  run_on-outcome = rw (plain, x.exchanged) refl

  pub run_on-node : (run_on peer conn.id request call w).1.node ≡ (peer.serve w.node x.bytes).1
  unfolding run_on
  run_on-node = rw (plain, x.exchanged) refl

  -- A call that is answered breaks no connection.
  pub run_on-broken :
      {m : ResponseMessage}
      → routed none x.id (peer.serve w.node x.bytes).0 ≡ some m
      → (call none x.choice (some m) (w.impls conn.id)).1.broken ≡ (w.impls conn.id).broken
      → SameFlags peer w (run_on peer conn.id request call w).1
  unfolding run_on
  run_on-broken {m} got kept =
      rw (plain, x.exchanged, got)
        (set_impl_each (λ id c. c.broken ≡ (w.impls id).broken) w.impls conn.id
          (call none x.choice (some m) (w.impls conn.id)).1 kept λ id. refl)

module _ (peer : Peer) (db : Database) (serves : Serves peer db) (conn : Connection)
    (w : World peer) (ready : IsReady (w.compressors conn.id) (w.impls conn.id)) where
  pub reaches :
      (request : RequestBody) → FitsFrame request → Reached peer request (w.impls conn.id) w.node
  reaches request fits =
      exchange_lem peer db serves request (w.impls conn.id) w.node
        (record { plain = refl; stocked = ready.stocked; some_free = ready.some_free }) fits
