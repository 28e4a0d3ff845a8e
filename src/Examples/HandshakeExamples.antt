-- ===== src/Examples/HandshakeExamples.antt =====
-- The handshake and the first answers of a node.
use cassandra_driver.Base.{◌≡◌, ◌<◌, ◌^◌, refl, [], ◌∷◌, Bool, true, length, codes, arith}
use cassandra_driver.Base.Result.{ok}
use cassandra_driver.Io.{be_bytes, is_positive}
use cassandra_driver.Io.Strings.{string_formatter, bytes_formatter}
use cassandra_driver.Io.Containers.{contains, list_formatter, map_formatter, write_elements}
use cassandra_driver.Io.Containers.Maps.{same_text}
use cassandra_driver.Protocol.Requests.{options}
use cassandra_driver.Protocol.Columns.RoundTrip.{write_option}
use cassandra_driver.Protocol.Responses.{StringMultiMap, has_flag}
use cassandra_driver.Protocol.Responses.Metadata.{write_result_column}
use cassandra_driver.Protocol.Responses.RoundTrip.{write_rows, write_prepared}
use cassandra_driver.Connection.Answers.{prepared_body, rows_body}
use cassandra_driver.Connection.Handshake.{option_at, offers, startup_request, cql_handshake}
use cassandra_driver.Connection.Handshake.Ready.{
  FitsSupported, supported_body, supported_frame, ready_frame, handshake_ready,
}
use cassandra_driver.Examples.ResponseExamples.{one_row, statement}

pub statement_small : length (prepared_body statement) < 2 ^ 31
unfolding write_prepared write_result_column write_option be_bytes string_formatter bytes_formatter
    list_formatter write_elements is_positive has_flag
statement_small = omega arith

pub one_row_small : length (rows_body one_row) < 2 ^ 31
unfolding write_rows write_result_column write_option be_bytes string_formatter bytes_formatter
    write_elements is_positive has_flag
one_row_small = omega arith

abbrev pub offering : StringMultiMap
offering = (codes "COMPRESSION", codes "snappy" ∷ codes "lz4" ∷ []) ∷ []

offering_fits : FitsSupported offering
unfolding contains
offering_fits = record {
  in_width = omega arith;
  in_int = omega arith;
  distinct = (refl, tt);
  entries = (
    record { in_width = omega arith; in_int = omega arith },
    record {
      in_width = omega arith;
      in_int = omega arith;
      elements = (
        record { in_width = omega arith; in_int = omega arith },
        (record { in_width = omega arith; in_int = omega arith }, tt),
      );
    },
    tt,
  );
}

offering_small : length (supported_body offering) < 2 ^ 31
unfolding map_formatter list_formatter write_elements string_formatter be_bytes
offering_small = omega arith

offered : option_at (codes "COMPRESSION") offering ≡ ok (codes "snappy" ∷ codes "lz4" ∷ [])
unfolding option_at same_text
offered = refl

pub shaken : cql_handshake true (supported_frame offering (ready_frame (7 ∷ []))) ≡ record {
  outcome = ok (7 ∷ []);
  compressed = true;
  broken = Bool.false;
  sent = options ∷ startup_request true ∷ [];
}
unfolding offers same_text
shaken = handshake_ready true offering (7 ∷ []) offering_fits offering_small offered
