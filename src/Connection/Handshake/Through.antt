-- ===== src/Connection/Handshake/Through.antt =====
-- What a handshake of src/detail/connection_impl.cpp leaves that succeeds, whatever the peer sent.
use cassandra_driver.Base.{◌≡◌, Bool, false, arith}
use cassandra_driver.Base.Result.{Result, ok, throws, fault, stuck}
use cassandra_driver.Io.{RawBuffer}
use cassandra_driver.Protocol.Responses.{ResponseMessage}
use cassandra_driver.Connection.Handshake.{
  Handshaken, execute_message, negotiate, startup_requests, after_startup, after_options,
  cql_handshake,
}

abbrev IsThrough : Handshaken → Type 0
IsThrough h = (h.broken ≡ false) × (h.sent ≡ startup_requests h.compressed)

after_startup-IsThrough :
    (compressed : Bool) (answer : Result (ResponseMessage × RawBuffer)) {rest : RawBuffer}
    → (after_startup compressed answer).outcome ≡ ok rest
    → IsThrough (after_startup compressed answer)
unfolding after_startup
after_startup-IsThrough compressed (ok (m, behind)) e = ground arith
after_startup-IsThrough compressed (throws x) e = cc
after_startup-IsThrough compressed fault e = cc
after_startup-IsThrough compressed stuck e = cc

after_options-IsThrough :
    (r : Result (Bool × RawBuffer)) {rest : RawBuffer}
    → (after_options r).outcome ≡ ok rest
    → IsThrough (after_options r)
unfolding after_options
after_options-IsThrough (ok (compressed, behind)) e =
    after_startup-IsThrough compressed (execute_message behind) e
after_options-IsThrough (throws x) e = cc
after_options-IsThrough fault e = cc
after_options-IsThrough stuck e = cc

-- A handshake that succeeds has not broken the connection, and has sent OPTIONS and the STARTUP that says
-- whether it compresses.
pub cql_handshake-IsThrough :
    (use_compression : Bool) (bytes : RawBuffer) {rest : RawBuffer}
    → (cql_handshake use_compression bytes).outcome ≡ ok rest
    → let h = cql_handshake use_compression bytes in
      (h.broken ≡ false) × (h.sent ≡ startup_requests h.compressed)
unfolding cql_handshake
cql_handshake-IsThrough use_compression bytes e =
    after_options-IsThrough (negotiate use_compression bytes) e
