-- ===== src/Connection/Handshake/Ready.antt =====
-- The handshake with a peer that follows the protocol, and with one that answers OPTIONS otherwise.
use cassandra_driver.Base.{
  ℕ, ◌≡◌, ◌<◌, ◌^◌, refl, ap, ◌∙◌, [], ◌∷◌, ◌++◌, append-nil, List, Bool, false, ◌&&◌, none, length,
  codes, arith,
}
use cassandra_driver.Base.Result.{ok, fault}
use cassandra_driver.Io.{RawBuffer}
use cassandra_driver.Io.Strings.{write_string}
use cassandra_driver.Io.Containers.{map_formatter, list_formatter}
use cassandra_driver.Io.Containers.Codecs.{string_codec, list_codec}
use cassandra_driver.Io.Containers.Maps.{same_text, FitsMap, map_parser-map_formatter}
use cassandra_driver.Protocol.Frame.{Opcode, FrameHeader, response_version, serialize_header}
use cassandra_driver.Protocol.Frame.Layout.{IsHeader, IsOpcode}
use cassandra_driver.Protocol.Requests.{options}
use cassandra_driver.Protocol.Responses.{
  supported, ready, StringMultiMap, do_parse_body, parse_body, check_response_header,
}
use cassandra_driver.Protocol.Responses.Errors.{check_error}
use cassandra_driver.Connection.{read_frame}
use cassandra_driver.Connection.Frames.{read_frame-frame}
use cassandra_driver.Connection.Handshake.{
  execute_message, get_options, option_at, offers, negotiate, startup_request, after_startup,
  after_options, cql_handshake,
}

-- The header of an answer on stream 0.
abbrev pub answer_header : Opcode → ℕ → FrameHeader
answer_header opcode n = record {
  version = response_version;
  flags = 0;
  stream = 0;
  opcode = opcode;
  length = n;
}

-- The body of SUPPORTED, a [string multimap].
abbrev pub supported_body : StringMultiMap → RawBuffer
supported_body m = map_formatter 2 write_string (list_formatter 2 write_string) m

abbrev pub FitsSupported : StringMultiMap → Type 0
FitsSupported = FitsMap same_text (string_codec 2) (list_codec 2 (string_codec 2)) 2

abbrev pub supported_frame : StringMultiMap → RawBuffer → RawBuffer
supported_frame m rest =
    serialize_header (answer_header Opcode.supported (length (supported_body m))) []
    ++ (supported_body m ++ rest)

abbrev pub ready_frame : RawBuffer → RawBuffer
ready_frame rest = serialize_header (answer_header Opcode.ready 0) [] ++ rest

answer_header-IsHeader :
    (opcode : Opcode) (n : ℕ) → IsOpcode opcode → n < 2 ^ 31 → IsHeader (answer_header opcode n)
answer_header-IsHeader opcode n known h = record {
  version_lt = omega arith;
  flags_lt = omega arith;
  stream_lt = omega arith;
  opcode_known = known;
  length_lt = omega (arith, h);
}

supported_response : (n : ℕ) → check_response_header (answer_header Opcode.supported n) ≡ ok tt
unfolding check_response_header
supported_response n = refl

ready_response : (n : ℕ) → check_response_header (answer_header Opcode.ready n) ≡ ok tt
unfolding check_response_header
ready_response n = refl

supported_parsed :
    (m : StringMultiMap) (n : ℕ)
    → FitsSupported m
    → parse_body none (answer_header Opcode.supported n) (supported_body m)
      ≡ ok (record { header = answer_header Opcode.supported n; body = supported m })
unfolding parse_body do_parse_body
supported_parsed m n fits =
    let back =
      map_parser-map_formatter same_text (string_codec 2) (list_codec 2 (string_codec 2)) 2 m fits
        [] in
    simp (rw (append-nil (supported_body m)) at back)

ready_parsed :
    parse_body none (answer_header Opcode.ready 0) []
    ≡ ok (record { header = answer_header Opcode.ready 0; body = ready })
unfolding parse_body do_parse_body
ready_parsed = refl

supported_read :
    (m : StringMultiMap) (rest : RawBuffer)
    → FitsSupported m
    → length (supported_body m) < 2 ^ 31
    → read_frame none (supported_frame m rest)
      ≡ ok (
        record {
          header = answer_header Opcode.supported (length (supported_body m));
          body = supported m;
        },
        rest,
      )
supported_read m rest fits small =
    let n = length (supported_body m) in
    rw (supported_parsed m n fits) at (
      read_frame-frame none (answer_header Opcode.supported n) (supported_body m) rest
        (answer_header-IsHeader Opcode.supported n tt small) refl small (supported_response n))

ready_read :
    (rest : RawBuffer)
    → read_frame none (ready_frame rest)
      ≡ ok (record { header = answer_header Opcode.ready 0; body = ready }, rest)
ready_read rest = rw ready_parsed at (
    read_frame-frame none (answer_header Opcode.ready 0) [] rest
      (answer_header-IsHeader Opcode.ready 0 tt (omega arith)) refl (omega arith)
      (ready_response 0))

negotiate_supported :
    (use_compression : Bool) (m : StringMultiMap) (rest : RawBuffer) {offered : List RawBuffer}
    → FitsSupported m
    → length (supported_body m) < 2 ^ 31
    → option_at (codes "COMPRESSION") m ≡ ok offered
    → negotiate use_compression (supported_frame m rest)
      ≡ ok (use_compression && offers (codes "lz4") offered, rest)
unfolding negotiate execute_message check_error get_options
negotiate_supported use_compression m rest fits small found =
    simp (supported_read m rest fits small, found)

ready_executed :
    (rest : RawBuffer)
    → execute_message (ready_frame rest)
      ≡ ok (record { header = answer_header Opcode.ready 0; body = ready }, rest)
unfolding execute_message check_error
ready_executed rest = simp (ready_read rest)

-- A peer that answers OPTIONS with SUPPORTED, whose options fit their prefixes, are below 2 GiB and
-- tell the compressions, and then answers READY: the handshake succeeds, takes the two answers and
-- nothing behind them off the socket, and compresses exactly if it may and the peer offers lz4; it has
-- sent OPTIONS and the STARTUP that says so.
pub handshake_ready :
    (use_compression : Bool) (m : StringMultiMap) (rest : RawBuffer) {offered : List RawBuffer}
    → FitsSupported m
    → length (supported_body m) < 2 ^ 31
    → option_at (codes "COMPRESSION") m ≡ ok offered
    → let compressed = use_compression && offers (codes "lz4") offered in
      cql_handshake use_compression (supported_frame m (ready_frame rest)) ≡ record {
        outcome = ok rest;
        compressed = compressed;
        broken = false;
        sent = options ∷ startup_request compressed ∷ [];
      }
unfolding cql_handshake after_startup
handshake_ready use_compression m rest {offered} fits small found =
    ap after_options (negotiate_supported use_compression m (ready_frame rest) fits small found)
    ∙ ap (after_startup (use_compression && offers (codes "lz4") offered)) (ready_executed rest)

negotiate_unsupported :
    (use_compression : Bool) (rest : RawBuffer)
    → negotiate use_compression (ready_frame rest) ≡ fault
unfolding negotiate get_options
negotiate_unsupported use_compression rest = simp (ready_executed rest)

-- If the peer answers OPTIONS with READY, whatever follows, the handshake reads options through a null
-- pointer.
handshake_unsupported :
    (use_compression : Bool) (rest : RawBuffer)
    → (cql_handshake use_compression (ready_frame rest)).outcome ≡ fault
unfolding cql_handshake
handshake_unsupported use_compression rest =
    ap (λ r. (after_options r).outcome) (negotiate_unsupported use_compression rest)
