-- ===== src/Protocol/Columns/RoundTrip.antt =====
-- Column types (src/io/protocol/column_option.cpp) as the protocol's [option] writes them.
use cassandra_driver.Base.{
  ℕ, zero, suc, ◌+◌, ◌^◌, ◌<◌, ◌≤◌, ◌≡◌, refl, [], ◌++◌, append_assoc, length, length-append, arith,
}
use cassandra_driver.Base.Result.{ok}
use cassandra_driver.Io.{RawBuffer, write_int_be, be_bytes}
use cassandra_driver.Io.Integers.{read_int_be-be_bytes, length-be_bytes}
use cassandra_driver.Io.Strings.{write_string}
use cassandra_driver.Io.Strings.RoundTrip.{FitsPrefix, string_parser-string_formatter}
use cassandra_driver.Protocol.Columns.{
  ColumnOption, plain, custom, list, set, map, udt, tuple, Elements, no_elements, element, Fields,
  no_fields, field, PayloadType, is_plain, payload_type, parse_option, parse_payload,
  parse_elements, parse_fields, parse_column_option,
}

-- The [option] notation: a [short] code, then what the type holds.
unfoldable mutual
  pub write_option : ColumnOption → RawBuffer
  write_option (plain n) = write_int_be 2 n
  write_option (custom name) = write_int_be 2 0x00 ++ write_string name
  write_option (list t) = write_int_be 2 0x20 ++ write_option t
  write_option (set t) = write_int_be 2 0x22 ++ write_option t
  write_option (map k v) = write_int_be 2 0x21 ++ (write_option k ++ write_option v)
  write_option (udt keyspace name fs) =
      write_int_be 2 0x30
      ++ (write_string keyspace
          ++ (write_string name ++ (write_int_be 2 (count_fields fs) ++ write_fields fs)))
  write_option (tuple es) =
      write_int_be 2 0x31 ++ (write_int_be 2 (count_elements es) ++ write_elements es)

  pub write_elements : Elements → RawBuffer
  write_elements no_elements = []
  write_elements (element t es) = write_option t ++ write_elements es

  write_fields : Fields → RawBuffer
  write_fields no_fields = []
  write_fields (field name t fs) = write_string name ++ (write_option t ++ write_fields fs)

  pub count_elements : Elements → ℕ
  count_elements no_elements = 0
  count_elements (element t es) = suc (count_elements es)

  pub count_fields : Fields → ℕ
  count_fields no_fields = 0
  count_fields (field name t fs) = suc (count_fields fs)

-- Type codes with no payload, and texts and counts that two bytes can announce.
abbrev mutual
  pub FitsOption : ColumnOption → Type 0
  FitsOption (plain n) = (n < 256 ^ 2) × (payload_type n ≡ is_plain)
  FitsOption (custom name) = FitsPrefix 2 name
  FitsOption (list t) = FitsOption t
  FitsOption (set t) = FitsOption t
  FitsOption (map k v) = FitsOption k × FitsOption v
  FitsOption (udt keyspace name fs) =
      FitsPrefix 2 keyspace × FitsPrefix 2 name × (count_fields fs < 256 ^ 2) × FitsFields fs
  FitsOption (tuple es) = (count_elements es < 256 ^ 2) × FitsElements es

  FitsElements : Elements → Type 0
  FitsElements no_elements = Unit {0}
  FitsElements (element t es) = FitsOption t × FitsElements es

  FitsFields : Fields → Type 0
  FitsFields no_fields = Unit {0}
  FitsFields (field name t fs) = FitsPrefix 2 name × FitsOption t × FitsFields fs

length-write_option_ge : (t : ColumnOption) → 2 ≤ length (write_option t)
unfolding write_option be_bytes
length-write_option_ge (plain n) = omega arith
length-write_option_ge _ = omega arith

length-append_bytes : (xs ys : RawBuffer) → length (xs ++ ys) ≡ length xs + length ys
length-append_bytes = length-append

ruleset lengths = (arith, length-append_bytes, length-be_bytes)

plain_payload :
    (fuel : ℕ) (p : PayloadType) (type : ℕ) (bs : RawBuffer)
    → p ≡ is_plain
    → parse_payload (suc fuel) p type bs ≡ ok (plain type, bs)
unfolding parse_payload
plain_payload fuel is_plain type bs e = refl
plain_payload fuel _ type bs e = cc

-- With fuel above the number of bytes written, each part is read back.
mutual
  unfolding parse_option write_option payload_type

  option_back :
      (t : ColumnOption) (fuel : ℕ)
      → FitsOption t
      → length (write_option t) < fuel
      → (rest : RawBuffer) → parse_option fuel (write_option t ++ rest) ≡ ok (t, rest)
  option_back (plain n) (suc (suc fuel)) fits h rest =
      rw (read_int_be-be_bytes 2 n fits.0 rest) (plain_payload fuel (payload_type n) n rest fits.1)
  option_back (custom name) (suc (suc fuel)) fits h rest = simp (
    append_assoc,
    read_int_be-be_bytes 2 0x00 (omega arith),
    string_parser-string_formatter 2 name fits,
  )
  option_back (list t) (suc (suc fuel)) fits h rest = simp (
    append_assoc,
    read_int_be-be_bytes 2 0x20 (omega arith),
    option_back t fuel fits (omega lengths),
  )
  option_back (set t) (suc (suc fuel)) fits h rest = simp (
    append_assoc,
    read_int_be-be_bytes 2 0x22 (omega arith),
    option_back t fuel fits (omega lengths),
  )
  option_back (map k v) (suc (suc fuel)) fits h rest = simp (
    append_assoc,
    read_int_be-be_bytes 2 0x21 (omega arith),
    option_back k fuel fits.0 (omega lengths),
    option_back v fuel fits.1 (omega lengths),
  )
  option_back (udt keyspace name fs) (suc (suc fuel)) fits h rest = simp (
    append_assoc,
    read_int_be-be_bytes 2 0x30 (omega arith),
    string_parser-string_formatter 2 keyspace fits.0,
    string_parser-string_formatter 2 name fits.1,
    read_int_be-be_bytes 2 (count_fields fs) fits.2,
    fields_back fs fuel fits.3 (omega lengths),
  )
  option_back (tuple es) (suc (suc fuel)) fits h rest = simp (
    append_assoc,
    read_int_be-be_bytes 2 0x31 (omega arith),
    read_int_be-be_bytes 2 (count_elements es) fits.0,
    elements_back es fuel fits.1 (omega lengths),
  )
  option_back t _ fits h rest = absurd (omega (arith, length-write_option_ge t))

  elements_back :
      (es : Elements) (fuel : ℕ)
      → FitsElements es
      → length (write_elements es) + 1 < fuel
      → (rest : RawBuffer)
      → parse_elements fuel (count_elements es) (write_elements es ++ rest) ≡ ok (es, rest)
  elements_back no_elements (suc fuel) fits h rest = refl
  elements_back (element t es) (suc fuel) fits h rest = simp (
    append_assoc,
    option_back t fuel fits.0 (omega lengths),
    elements_back es fuel fits.1 (omega (lengths, length-write_option_ge t)),
  )
  elements_back es zero fits h rest = absurd (omega arith)

  fields_back :
      (fs : Fields) (fuel : ℕ)
      → FitsFields fs
      → length (write_fields fs) + 1 < fuel
      → (rest : RawBuffer)
      → parse_fields fuel (count_fields fs) (write_fields fs ++ rest) ≡ ok (fs, rest)
  fields_back no_fields (suc fuel) fits h rest = refl
  fields_back (field name t fs) (suc fuel) fits h rest = simp (
    append_assoc,
    string_parser-string_formatter 2 name fits.0,
    option_back t fuel fits.1 (omega lengths),
    fields_back fs fuel fits.2 (omega (lengths, length-write_option_ge t)),
  )
  fields_back fs zero fits h rest = absurd (omega arith)

-- A column type that its prefixes can announce is read back, whatever follows it.
pub parse_column_option-write_option :
    (t : ColumnOption)
    → FitsOption t
    → (rest : RawBuffer) → parse_column_option (write_option t ++ rest) ≡ ok (t, rest)
unfolding parse_column_option
parse_column_option-write_option t fits rest =
    option_back t (suc (length (write_option t ++ rest))) fits
      (omega (arith, length-append (write_option t) rest)) rest
