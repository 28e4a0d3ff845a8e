-- ===== src/Connection/Connect.antt =====
-- How a connection comes about: `TryResolveContactPoint` and `Connect` of src/detail/connection.cpp,
-- `TcpConnect` and `AsyncConnect` of src/detail/connection_impl.cpp. A socket is the bytes that the peer
-- behind it will send. The resolver, getaddrinfo, the sockets' `Connect` and liblz4 are arguments, and so
-- is how far the receiver loop is when `Connect` returns.
pub mod Opened
use cassandra_driver.Base.{ℕ, List, [], ◌∷◌, map, Bool, Option, none, some, if◌then◌else◌}
use cassandra_driver.Base.Result.{
  Result, ok, throws, fault, stuck, Exception, runtime_error, length_error, out_of_range,
  io_exception, connection_error, ◌>>=◌, ◌>>◌,
}
use cassandra_driver.Io.{RawBuffer}
use cassandra_driver.Protocol.Lz4.{Compressor}
use cassandra_driver.Protocol.Requests.{RequestBody}
use cassandra_driver.Connection.{ConnectionImpl, Receiver, receiver_loop}
use cassandra_driver.Connection.Received.{arrivals}
use cassandra_driver.Connection.Streams.{new_stream_pool}
use cassandra_driver.Connection.Handshake.{Handshaken, cql_handshake}

pub record Address : Type 0 where
  pub host : RawBuffer
  pub port : ℕ

-- `addr.SetPort(port)`
abbrev pub set_port : ℕ → Address → Address
set_port port a = record a { port = port }

-- `catch (const std::exception&)` around the resolver.
pub resolve_contact_point : Result (List Address) → Result (List Address)
resolve_contact_point (ok addresses) = ok addresses
resolve_contact_point (throws e) = throws connection_error
resolve_contact_point fault = fault
resolve_contact_point stuck = stuck

-- The addresses that were found, with the port; none is a ConnectionError.
pub with_port : ℕ → List Address → Result (List Address)
with_port port [] = throws connection_error
with_port port (a ∷ others) = ok (map (set_port port) (a ∷ others))

-- `TryResolveContactPoint`: the resolver's answer, if there is a resolver, or else getaddrinfo's, which
-- is empty if it fails.
unfoldable pub try_resolve :
    Option (Result (List Address)) → List Address → ℕ → Result (List Address)
unfolding resolve_contact_point with_port
try_resolve resolver getaddrinfo port =
    let found : Result (List Address) = elim resolver [
      | some answer ↦ resolve_contact_point answer
      | none ↦ ok getaddrinfo
    ] in
    found >>= with_port port

-- The loop of `TcpConnect`: an IoException of an address is caught and the next one tried; any other
-- exception leaves the loop; and without a socket behind it, std::runtime_error.
unfoldable pub tcp_connect : (Address → Result RawBuffer) → List Address → Result RawBuffer
tcp_connect connect [] = throws runtime_error
tcp_connect connect (a ∷ addresses) =
    let rest = tcp_connect connect addresses in
    elim (connect a) [
      | ok socket ↦ ok socket
      | throws e ↦ elim e [ io_exception ↦ rest | other ↦ throws other ]
      | fault ↦ fault
      | stuck ↦ stuck
    ]

-- A connection that is open: what the caller holds, `_compressor_ptr`, and what the socket has for the
-- receiver loop.
pub record OpenConnection : Type 0 where
  pub impl : ConnectionImpl
  pub compressed : Bool
  pub socket : RawBuffer
  pub handshake : List RequestBody

-- `ConnectionImpl::ConnectionImpl`
unfoldable pub new_connection : ConnectionImpl
new_connection = record { broken = Bool.false; stream_pool = new_stream_pool; sent = [] }

-- The compressor of `_compressor_ptr`.
abbrev pub compressor_of : Compressor → Bool → Option Compressor
compressor_of lz4 compressed = if compressed then some lz4 else none

-- `StartReceiverLoop`: the rounds that the loop has made when the caller is given the connection.
pub start_receiver_loop :
    Option Compressor → List Bool → RawBuffer → ConnectionImpl → ConnectionImpl
start_receiver_loop compressor rounds socket c =
    let started : Receiver = record { running = Bool.true; broken = c.broken; delivered = [] } in
    record c { broken = (receiver_loop (arrivals compressor rounds socket) started).broken }

-- `AsyncConnect`, on a new connection. A handshake that throws takes the connection with it. The first
-- arguments are liblz4's compressor and the rounds of the receiver loop.
unfoldable pub async_connect :
    Compressor
    → List Bool
    → (Address → Result RawBuffer)
    → List Address
    → Bool
    → Result OpenConnection
unfolding tcp_connect start_receiver_loop
async_connect lz4 rounds connect addresses use_compression =
    tcp_connect connect addresses >>= λ socket.
    (let h = cql_handshake use_compression socket in
      h.outcome >>= λ rest. ok (record {
        impl =
            start_receiver_loop (compressor_of lz4 h.compressed) rounds rest
              (record new_connection { broken = h.broken });
        compressed = h.compressed;
        socket = rest;
        handshake = h.sent;
      }))

-- `Connection::Connect`
unfoldable pub connect :
    Compressor
    → List Bool
    → Option (Result (List Address))
    → List Address
    → ℕ
    → (Address → Result RawBuffer)
    → Bool
    → Result OpenConnection
unfolding try_resolve async_connect
connect lz4 rounds resolver getaddrinfo port sockets use_compression =
    try_resolve resolver getaddrinfo port >>= λ addresses.
    async_connect lz4 rounds sockets addresses use_compression
