-- ===== src/Connection/Connect/Opened.antt =====
-- What `Connection::Connect` of src/detail/connection.cpp gives.
use cassandra_driver.Base.{
  ℕ, ◌≡◌, ◌⊎◌, ◌∙◌, inl, inr, refl, sym, subst, map, List, [], ◌∷◌, ◌++◌, append-nil, Bool, true,
  false, Option, length, All, Occurs, All-Occurs, Bool-cases, arith,
}
use cassandra_driver.Base.Result.{
  Result, Exception, ok, throws, fault, stuck, runtime_error, io_exception, ◌>>=◌,
}
use cassandra_driver.Io.{RawBuffer}
use cassandra_driver.Protocol.Lz4.{Compressor}
use cassandra_driver.Protocol.Responses.{ResponseMessage}
use cassandra_driver.Connection.{Arrival, Receiver, receive, receiver_loop}
use cassandra_driver.Connection.Received.{arrivals}
use cassandra_driver.Connection.Streams.{max_streams}
use cassandra_driver.Connection.Streams.Balance.{IsStocked, new_stream_pool-IsStocked}
use cassandra_driver.Connection.Handshake.{cql_handshake, startup_requests}
use cassandra_driver.Connection.Handshake.Through.{cql_handshake-IsThrough}
use cassandra_driver.Connection.Connect.{
  Address, set_port, with_port, try_resolve, tcp_connect, OpenConnection, new_connection,
  compressor_of, start_receiver_loop, async_connect, connect,
}

-- The two steps of a call that gave a value.
record GoesThrough {A B : Type 0} (first : Result A) (then : A → Result B) (end : B) : Type 0 where
  between : A
  came : first ≡ ok between
  went : then between ≡ ok end

>>=-GoesThrough :
    {A B : Type 0} {end : B} (then : A → Result B) (first : Result A)
    → (first >>= then) ≡ ok end
    → GoesThrough first then end
>>=-GoesThrough then (ok a) e = record { between = a; came = refl; went = e }
>>=-GoesThrough then (throws x) e = cc
>>=-GoesThrough then fault e = cc
>>=-GoesThrough then stuck e = cc

receive-broken :
    (a : Arrival) (r : Receiver)
    → r.broken ≡ false
    → ((receive a r).broken ≡ false) ⊎ ((e : Exception) × (throws e ≡ a.frame))
unfolding receive
receive-broken a r unbroken = received a.frame refl
  where
    received :
        (frame : Result ResponseMessage)
        → a.frame ≡ frame
        → ((receive a r).broken ≡ false) ⊎ ((e : Exception) × (throws e ≡ a.frame))
    received (ok m) same = inl (ground (arith, same, unbroken))
    received (throws e) same = inr (e, sym same)
    received fault same = inl (ground (arith, same, unbroken))
    received stuck same = inl (ground (arith, same, unbroken))

abbrev frame_of : Arrival → Result ResponseMessage
frame_of a = a.frame

-- The receiver loop breaks the connection only if a `ReadFrame` of its throws.
receiver_loop-broken :
    (met : List Arrival) (r : Receiver)
    → r.broken ≡ false
    → ((receiver_loop met r).broken ≡ false)
      ⊎ ((e : Exception) × Occurs (throws e) (map frame_of met))
unfolding receiver_loop
receiver_loop-broken [] r unbroken = inl unbroken
receiver_loop-broken (a ∷ met) r unbroken = elim (Bool-cases r.running) [
  | inr stopped ↦ inl (ground (arith, stopped, unbroken))
  | inl running ↦ elim (receive-broken a r unbroken) [
    | inr (e, threw) ↦ inr (e, inl threw)
    | inl still ↦ elim (receiver_loop-broken met (receive a r) still) [
      | inl fine ↦ inl (ground (arith, running, fine))
      | inr (e, threw) ↦ inr (e, inr threw)
    ]
  ]
]

-- A connection that `Connect` gives: over a socket to the port whose handshake went through, with every
-- stream free, and broken only if the receiver loop has met a `ReadFrame` that throws.
pub record IsOpen (lz4 : Compressor) (rounds : List Bool) (sockets : Address → Result RawBuffer)
    (port : ℕ) (use_compression : Bool) (o : OpenConnection) : Type 0 where
  pub address : Address
  pub on_port : address.port ≡ port
  pub bytes : RawBuffer
  pub accepted : sockets address ≡ ok bytes
  pub shaken : (cql_handshake use_compression bytes).outcome ≡ ok o.socket
  pub said : o.handshake ≡ startup_requests o.compressed
  pub stocked : IsStocked o.impl.stream_pool
  pub all_free : length o.impl.stream_pool ≡ max_streams
  pub unbroken :
      (o.impl.broken ≡ false)
      ⊎ ((e : Exception) × Occurs
            (throws e)
            (map frame_of (arrivals (compressor_of lz4 o.compressed) rounds o.socket)))

tcp_connect-accepted :
    (sockets : Address → Result RawBuffer) (addresses : List Address) {bytes : RawBuffer}
    → tcp_connect sockets addresses ≡ ok bytes
    → (a : Address) × Occurs a addresses × (sockets a ≡ ok bytes)
unfolding tcp_connect
tcp_connect-accepted sockets [] e = cc
tcp_connect-accepted sockets (a ∷ addresses) {bytes} e =
    tried (λ further. tcp_connect-accepted sockets addresses further) (sockets a) refl
  where
    tried :
        (tcp_connect sockets addresses ≡ ok bytes
          → (b : Address) × Occurs b addresses × (sockets b ≡ ok bytes))
        → (r : Result RawBuffer) → sockets a ≡ r
        → (b : Address) × Occurs b (a ∷ addresses) × (sockets b ≡ ok bytes)
    tried next (ok socket) same = (a, inl refl, same ∙ rw (tcp_connect, same) at e)
    tried next (throws io_exception) same =
        let (b, among, accepted) = next (rw (tcp_connect, same) at e) in (b, inr among, accepted)
    tried next (throws x) same = cc (rw (tcp_connect, same) at e)
    tried next fault same = cc (rw (tcp_connect, same) at e)
    tried next stuck same = cc (rw (tcp_connect, same) at e)

async_connect-IsOpen :
    (lz4 : Compressor) (rounds : List Bool) (sockets : Address → Result RawBuffer) (port : ℕ)
    (addresses : List Address) (use_compression : Bool) {o : OpenConnection}
    → All (λ (a : Address). a.port ≡ port) addresses
    → async_connect lz4 rounds sockets addresses use_compression ≡ ok o
    → IsOpen lz4 rounds sockets port use_compression o
unfolding async_connect start_receiver_loop new_connection
async_connect-IsOpen lz4 rounds sockets port addresses use_compression {o} on_port e =
    let tcp = >>=-GoesThrough _ (tcp_connect sockets addresses) e in
    let socket = tcp.between in
    let h = cql_handshake use_compression socket in
    let shaken = >>=-GoesThrough _ h.outcome tcp.went in
    let (unbroken, sent) = cql_handshake-IsThrough use_compression socket shaken.came in
    let (stocked, all_free) = new_stream_pool-IsStocked in
    let (a, among, accepted) = tcp_connect-accepted sockets addresses tcp.came in
    let compressor = compressor_of lz4 h.compressed in
    let built : OpenConnection = record {
      impl =
          start_receiver_loop compressor rounds shaken.between
            (record new_connection { broken = h.broken });
      compressed = h.compressed;
      socket = shaken.between;
      handshake = h.sent;
    } in
    let same : built ≡ o = cc shaken.went in
    let started : Receiver = record { running = true; broken = h.broken; delivered = [] } in
    subst (IsOpen lz4 rounds sockets port use_compression) same (record {
      address = a;
      on_port = All-Occurs (λ (a : Address). a.port ≡ port) addresses on_port among;
      bytes = socket;
      accepted = accepted;
      shaken = shaken.came;
      said = sent;
      stocked = stocked;
      all_free = all_free;
      unbroken = receiver_loop-broken (arrivals compressor rounds shaken.between) started unbroken;
    })

set_port-All :
    (port : ℕ) (addresses : List Address)
    → All (λ (a : Address). a.port ≡ port) (map (set_port port) addresses)
set_port-All port [] = tt
set_port-All port (a ∷ addresses) = (refl, set_port-All port addresses)

with_port-All :
    (port : ℕ) (found : List Address) {addresses : List Address}
    → with_port port found ≡ ok addresses
    → All (λ (a : Address). a.port ≡ port) addresses
unfolding with_port
with_port-All port [] e = cc
with_port-All port (a ∷ others) {addresses} e =
    let same : map (set_port port) (a ∷ others) ≡ addresses = cc in
    subst (All (λ (a : Address). a.port ≡ port)) same (set_port-All port (a ∷ others))

try_resolve-port :
    (resolver : Option (Result (List Address))) (getaddrinfo : List Address) (port : ℕ)
    {addresses : List Address}
    → try_resolve resolver getaddrinfo port ≡ ok addresses
    → All (λ (a : Address). a.port ≡ port) addresses
unfolding try_resolve
try_resolve-port resolver getaddrinfo port e =
    let found = >>=-GoesThrough (with_port port) _ e in with_port-All port found.between found.went

-- Whatever the resolver, the hosts and the peer do: a connection that `Connect` gives is over a socket
-- that accepted on its port, and whose bytes took the handshake through; it has sent OPTIONS and the
-- STARTUP that says whether it compresses, has all of the 1024 streams free, each an id below 1024, and
-- is broken only if the receiver loop, which runs already, has met a `ReadFrame` that throws.
pub connect-IsOpen :
    (lz4 : Compressor) (rounds : List Bool) (resolver : Option (Result (List Address)))
    (getaddrinfo : List Address) (port : ℕ) (sockets : Address → Result RawBuffer)
    (use_compression : Bool) {o : OpenConnection}
    → connect lz4 rounds resolver getaddrinfo port sockets use_compression ≡ ok o
    → IsOpen lz4 rounds sockets port use_compression o
unfolding connect
connect-IsOpen lz4 rounds resolver getaddrinfo port sockets use_compression e =
    let found = >>=-GoesThrough _ (try_resolve resolver getaddrinfo port) e in
    async_connect-IsOpen lz4 rounds sockets port found.between use_compression
      (try_resolve-port resolver getaddrinfo port found.came) found.went

-- An address that refuses with an IoException.
abbrev pub Refuses : (Address → Result RawBuffer) → Address → Type 0
Refuses sockets a = sockets a ≡ throws io_exception

tcp_connect_refused :
    (sockets : Address → Result RawBuffer) (refused others : List Address)
    → All (Refuses sockets) refused
    → tcp_connect sockets (refused ++ others) ≡ tcp_connect sockets others
unfolding tcp_connect
tcp_connect_refused sockets [] others h = refl
tcp_connect_refused sockets (a ∷ refused) others (r, h) =
    rw r (tcp_connect_refused sockets refused others h)

tcp_connect_accepted :
    (sockets : Address → Result RawBuffer) (a : Address) (others : List Address)
    {socket : RawBuffer}
    → sockets a ≡ ok socket
    → tcp_connect sockets (a ∷ others) ≡ ok socket
unfolding tcp_connect
tcp_connect_accepted sockets a others h = rw (h, tcp_connect) refl

-- Addresses are tried in their order: those that refuse with an IoException are passed over, the first
-- that accepts is the one that the handshake goes over, and the ones behind it are not asked; if all
-- refuse, std::runtime_error is thrown.
pub async_connect_first :
    (lz4 : Compressor) (rounds : List Bool) (sockets : Address → Result RawBuffer)
    (refused : List Address) (a : Address) (others : List Address) (use_compression : Bool)
    {socket rest : RawBuffer}
    → All (Refuses sockets) refused
    → sockets a ≡ ok socket
    → (cql_handshake use_compression socket).outcome ≡ ok rest
    → ((o : OpenConnection) × (async_connect lz4 rounds sockets
            (refused ++ a ∷ others)
            use_compression
          ≡ ok o)
        × (o.socket ≡ rest)
        × (o.compressed ≡ (cql_handshake use_compression socket).compressed))
      × (async_connect lz4 rounds sockets refused use_compression ≡ throws runtime_error)
unfolding async_connect
async_connect_first lz4 rounds sockets refused a others use_compression {socket} {rest} h accepted
      through =
    let h' = cql_handshake use_compression socket in
    (
      (
        record {
          impl =
              start_receiver_loop (compressor_of lz4 h'.compressed) rounds rest
                (record new_connection { broken = h'.broken });
          compressed = h'.compressed;
          socket = rest;
          handshake = h'.sent;
        },
        rw
            (
              tcp_connect_refused sockets refused (a ∷ others) h,
              tcp_connect_accepted sockets a others accepted,
              through,
            )
            refl,
        refl,
        refl,
      ),
      rw (rw (append-nil refused) at (tcp_connect_refused sockets refused [] h))
          (unfold tcp_connect in refl),
    )
