-- ===== src/Connection/Handshake.antt =====
-- `ExecuteMessage` and `CqlHandshake` of src/detail/connection_impl.cpp, over the bytes that the peer
-- sends. No compressor is in use before the handshake is through.
pub mod Ready
pub mod Through
use cassandra_driver.Base.{
  List, [], ◌∷◌, Bool, true, false, ◌&&◌, if◌then◌else◌, Option, none, some, codes,
}
use cassandra_driver.Base.Result.{
  Result, ok, throws, fault, stuck, out_of_range, runtime_error, ◌>>=◌, ◌>>◌,
}
use cassandra_driver.Io.{RawBuffer}
use cassandra_driver.Io.Containers.Maps.{same_text}
use cassandra_driver.Protocol.Frame.{Opcode}
use cassandra_driver.Protocol.Requests.{RequestBody, options, startup, startup_options}
use cassandra_driver.Protocol.Responses.{ResponseMessage, ResponseBody, supported, StringMultiMap}
use cassandra_driver.Protocol.Responses.Errors.{check_error}
use cassandra_driver.Connection.{read_frame}

-- `ExecuteMessage`: what it reads once the request is sent, and what the socket still has.
pub execute_message : RawBuffer → Result (ResponseMessage × RawBuffer)
execute_message bytes = read_frame none bytes >>= λ (m, rest). check_error m.body >> ok (m, rest)

-- `dynamic_cast<SupportMessage*>(…)->GetOptions()`, through a null pointer for another message.
pub get_options : ResponseBody → Result StringMultiMap
get_options (supported m) = ok m
get_options _ = fault

-- `options.at(key)`
unfoldable pub option_at : RawBuffer → StringMultiMap → Result (List RawBuffer)
option_at key [] = throws out_of_range
option_at key ((k, values) ∷ m) =
    let rest = option_at key m in if same_text k key then ok values else rest

-- `std::ranges::find(values, value) != values.end()`
unfoldable pub offers : RawBuffer → List RawBuffer → Bool
offers value [] = false
offers value (v ∷ values) =
    let rest = offers value values in if same_text v value then true else rest

-- The OPTIONS exchange: whether to compress, and what the socket still has.
pub negotiate : Bool → RawBuffer → Result (Bool × RawBuffer)
negotiate use_compression bytes = execute_message bytes >>= λ (m, rest).
    get_options m.body >>= λ found. option_at (codes "COMPRESSION") found >>= λ offered.
    ok (use_compression && offers (codes "lz4") offered, rest)

-- What the handshake leaves: how it ends, `_compressor_ptr`, `_broken`, and the requests sent.
pub record Handshaken : Type 0 where
  pub outcome : Result RawBuffer
  pub compressed : Bool
  pub broken : Bool
  pub sent : List RequestBody

unfoldable pub startup_request : Bool → RequestBody
startup_request compressed =
    startup (startup_options (if compressed then some (codes "lz4") else none))

abbrev pub startup_requests : Bool → List RequestBody
startup_requests compressed = options ∷ startup_request compressed ∷ []

-- Behind the STARTUP exchange; the compressor is set once an answer is there, whichever it is.
pub after_startup : Bool → Result (ResponseMessage × RawBuffer) → Handshaken
after_startup compressed (ok (m, rest)) = elim m.header.opcode [
  | Opcode.ready ↦ record {
    outcome = ok rest;
    compressed = compressed;
    broken = false;
    sent = startup_requests compressed;
  }
  | _ ↦ record {
    outcome = throws runtime_error;
    compressed = compressed;
    broken = true;
    sent = startup_requests compressed;
  }
]
after_startup compressed (throws e) = record {
  outcome = throws e;
  compressed = false;
  broken = false;
  sent = startup_requests compressed;
}
after_startup compressed fault = record {
  outcome = fault;
  compressed = false;
  broken = false;
  sent = startup_requests compressed;
}
after_startup compressed stuck = record {
  outcome = stuck;
  compressed = false;
  broken = false;
  sent = startup_requests compressed;
}

-- Behind the OPTIONS exchange.
pub after_options : Result (Bool × RawBuffer) → Handshaken
after_options (ok (compressed, rest)) = after_startup compressed (execute_message rest)
after_options (throws e) = record {
  outcome = throws e;
  compressed = false;
  broken = false;
  sent = options ∷ [];
}
after_options fault = record {
  outcome = fault;
  compressed = false;
  broken = false;
  sent = options ∷ [];
}
after_options stuck = record {
  outcome = stuck;
  compressed = false;
  broken = false;
  sent = options ∷ [];
}

-- `CqlHandshake`
pub cql_handshake : Bool → RawBuffer → Handshaken
unfolding after_options
cql_handshake use_compression bytes = after_options (negotiate use_compression bytes)
