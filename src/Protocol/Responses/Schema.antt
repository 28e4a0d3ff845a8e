-- ===== src/Protocol/Responses/Schema.antt =====
-- Schema changes: src/io/protocol/events/schema_change.hpp and schema_change.cpp.
use cassandra_driver.Base.{
  ◌≡◌, refl, List, [], ◌||◌, ◌++◌, append_assoc, arith, Bool, true, false, if◌then◌else◌, codes,
}
use cassandra_driver.Base.Result.{ok}
use cassandra_driver.Io.{RawBuffer, Reader, ◌>>=◌, pure}
use cassandra_driver.Io.Strings.{read_string, write_string}
use cassandra_driver.Io.Strings.RoundTrip.{FitsPrefix, string_parser-string_formatter}
use cassandra_driver.Io.Containers.{list_parser, list_formatter}
use cassandra_driver.Io.Containers.Codecs.{FitsList, string_codec, list_parser-list_formatter}
use cassandra_driver.Io.Containers.Maps.{same_text}

-- The variant starts as an empty `Keyspace`.
pub data TargetOptions : Type 0 where
  keyspace : RawBuffer → TargetOptions
  table : RawBuffer → RawBuffer → TargetOptions
  function : RawBuffer → RawBuffer → List RawBuffer → TargetOptions

pub record SchemaChange : Type 0 where
  pub change_type : RawBuffer
  pub target : RawBuffer
  pub target_options : TargetOptions

-- The three branches of `Parse`; the test for FUNCTION looks at the change's type.
unfoldable pub parse_target_options : RawBuffer → RawBuffer → Reader TargetOptions
parse_target_options change_type target =
    if same_text target (codes "KEYSPACE")
    then (do k ← read_string; pure (keyspace k))
    else if same_text target (codes "TABLE") || same_text target (codes "TYPE")
    then (do k ← read_string; name ← read_string; pure (table k name))
    else if same_text change_type (codes "FUNCTION") || same_text target (codes "AGGREGATE")
    then (do
      k ← read_string
      name ← read_string
      args ← list_parser 2 read_string
      pure (function k name args))
    else pure (keyspace [])

-- `SchemaChange::Parse`
unfoldable pub parse_schema_change : Reader SchemaChange
unfolding parse_target_options
parse_schema_change = do
  change_type ← read_string
  target ← read_string
  options ← parse_target_options change_type target
  pure (record { change_type = change_type; target = target; target_options = options })

-- What the protocol lets a change be about, with the description that follows the target's name.
pub data Subject : Type 0 where
  on_keyspace : RawBuffer → Subject
  on_table on_type : RawBuffer → RawBuffer → Subject
  on_function on_aggregate : RawBuffer → RawBuffer → List RawBuffer → Subject

abbrev pub target_name : Subject → RawBuffer
target_name (on_keyspace k) = codes "KEYSPACE"
target_name (on_table k n) = codes "TABLE"
target_name (on_type k n) = codes "TYPE"
target_name (on_function k n args) = codes "FUNCTION"
target_name (on_aggregate k n args) = codes "AGGREGATE"

abbrev pub described : Subject → TargetOptions
described (on_keyspace k) = keyspace k
described (on_table k n) = table k n
described (on_type k n) = table k n
described (on_function k n args) = function k n args
described (on_aggregate k n args) = function k n args

pub write_options : TargetOptions → RawBuffer
write_options (keyspace k) = write_string k
write_options (table k n) = write_string k ++ write_string n
write_options (function k n args) =
    write_string k ++ (write_string n ++ list_formatter 2 write_string args)

pub write_schema_change : RawBuffer → Subject → RawBuffer
write_schema_change change_type s =
    write_string change_type ++ (write_string (target_name s) ++ write_options (described s))

abbrev pub FitsOptions : TargetOptions → Type 0
FitsOptions (keyspace k) = FitsPrefix 2 k
FitsOptions (table k n) = FitsPrefix 2 k × FitsPrefix 2 n
FitsOptions (function k n args) = FitsPrefix 2 k × FitsPrefix 2 n × FitsList (string_codec 2) 2 args

abbrev pub is_function : Subject → Bool
is_function (on_function k n args) = true
is_function _ = false

or_true : (b : Bool) → (b || true) ≡ true
or_true true = refl
or_true false = refl

parse_target_options-write_options :
    (change_type : RawBuffer) (s : Subject)
    → is_function s ≡ false
    → FitsOptions (described s)
    → (rest : RawBuffer)
    → parse_target_options change_type (target_name s) (write_options (described s) ++ rest)
      ≡ ok (described s, rest)
unfolding parse_target_options write_options same_text
parse_target_options-write_options ct (on_keyspace k) h fits rest =
    simp (string_parser-string_formatter 2 k fits)
parse_target_options-write_options ct (on_table k n) h fits rest = simp (
  append_assoc,
  string_parser-string_formatter 2 k fits.0,
  string_parser-string_formatter 2 n fits.1,
)
parse_target_options-write_options ct (on_type k n) h fits rest = simp (
  append_assoc,
  string_parser-string_formatter 2 k fits.0,
  string_parser-string_formatter 2 n fits.1,
)
parse_target_options-write_options ct (on_function k n args) h fits rest = cc
parse_target_options-write_options ct (on_aggregate k n args) h fits rest =
    rw (or_true (same_text ct (codes "FUNCTION"))) (
      simp (
        append_assoc,
        string_parser-string_formatter 2 k fits.0,
        string_parser-string_formatter 2 n fits.1,
        list_parser-list_formatter (string_codec 2) 2 args fits.2,
      ))

target_name-Fits : (s : Subject) → FitsPrefix 2 (target_name s)
target_name-Fits (on_keyspace k) = omega arith
target_name-Fits _ = omega arith

-- A change of a key space, a table, a type or an aggregate, whose texts fit their prefixes, is read as
-- the protocol writes it.
pub parse_schema_change-write :
    (change_type : RawBuffer) (s : Subject)
    → is_function s ≡ false
    → FitsPrefix 2 change_type
    → FitsOptions (described s)
    → (rest : RawBuffer)
    → parse_schema_change (write_schema_change change_type s ++ rest)
      ≡ ok (
        record { change_type = change_type; target = target_name s; target_options = described s },
        rest,
      )
unfolding parse_schema_change write_schema_change
parse_schema_change-write change_type s not_function fits_type fits rest = simp (
  append_assoc,
  string_parser-string_formatter 2 change_type fits_type,
  string_parser-string_formatter 2 (target_name s) (target_name-Fits s),
  parse_target_options-write_options change_type s not_function fits,
)

no_keyspace : same_text (codes "FUNCTION") (codes "KEYSPACE") ≡ false
unfolding same_text
no_keyspace = refl

no_table :
    same_text (codes "FUNCTION") (codes "TABLE") || same_text (codes "FUNCTION") (codes "TYPE")
    ≡ false
unfolding same_text
no_table = refl

no_aggregate : same_text (codes "FUNCTION") (codes "AGGREGATE") ≡ false
unfolding same_text
no_aggregate = refl

parse_target_options_function :
    (change_type bs : RawBuffer)
    → same_text change_type (codes "FUNCTION") ≡ false
    → parse_target_options change_type (codes "FUNCTION") bs ≡ ok (keyspace [], bs)
unfolding parse_target_options
parse_target_options_function change_type bs other = rw (no_keyspace, no_table, other, no_aggregate)

-- A change of a function, as the protocol writes it, is read as a change of an empty key space, and
-- its description stays unread, if the change type fits its prefix and is not itself "FUNCTION".
parse_schema_change_function :
    (change_type k n : RawBuffer) (args : List RawBuffer)
    → same_text change_type (codes "FUNCTION") ≡ false
    → FitsPrefix 2 change_type
    → (rest : RawBuffer)
    → parse_schema_change (write_schema_change change_type (on_function k n args) ++ rest)
      ≡ ok (
        record {
          change_type = change_type;
          target = codes "FUNCTION";
          target_options = TargetOptions.keyspace [];
        },
        write_options (function k n args) ++ rest,
      )
unfolding parse_schema_change write_schema_change
parse_schema_change_function change_type k n args other fits rest = simp (
  append_assoc,
  string_parser-string_formatter 2 change_type fits,
  string_parser-string_formatter 2 (codes "FUNCTION") (target_name-Fits (on_function k n args)),
  parse_target_options_function change_type (write_options (function k n args) ++ rest) other,
)
