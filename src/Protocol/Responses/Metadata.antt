-- ===== src/Protocol/Responses/Metadata.antt =====
-- The metadata of results (src/io/protocol/response_message.hpp) as the protocol writes it.
use cassandra_driver.Base.{
  All, Bool, List, [], append_assoc, arith, false, if◌then◌else◌, length, not, true, ℕ, ◌++◌, ◌<◌,
  ◌^◌, ◌≡◌,
}
use cassandra_driver.Base.Result.{ok}
use cassandra_driver.Io.{RawBuffer, is_negative, pure}
use cassandra_driver.Io.Strings.{read_bytes, write_bytes, write_string}
use cassandra_driver.Io.Strings.RoundTrip.{
  FitsPrefix, bytes_parser-bytes_formatter, reserve_small, string_parser-string_formatter,
}
use cassandra_driver.Io.Containers.{Codec, write_elements}
use cassandra_driver.Protocol.Columns.RoundTrip.{
  FitsOption, parse_column_option-write_option, write_option,
}
use cassandra_driver.Protocol.Responses.{
  ResultColumn, global_table_spec, has_flag, has_more_pages, no_metadata, parse_metadata,
  parse_paging_state, parse_result_column, parse_some_metadata, read_table, rounds,
}
use cassandra_driver.Io.Containers.Codecs.{read_elements-write_elements}

pub rounds_small : (n : ℕ) → n < 2 ^ 31 → rounds n ≡ n
unfolding rounds is_negative
rounds_small n h = ground arith

abbrev pub write_table : Bool → RawBuffer → RawBuffer → RawBuffer
write_table written k t = if written then write_string k ++ write_string t else []

-- A field that is written fits its prefix; one that is not is empty.
abbrev pub FitsWhen : Bool → ℕ → RawBuffer → Type 0
FitsWhen true width value = FitsPrefix width value
FitsWhen false width value = value ≡ []

pub read_table-write_table :
    (written : Bool) (k t : RawBuffer)
    → FitsWhen written 2 k
    → FitsWhen written 2 t
    → (rest : RawBuffer) → read_table written (write_table written k t ++ rest) ≡ ok ((k, t), rest)
unfolding read_table
read_table-write_table true k t fk ft rest =
    simp
      (append_assoc, string_parser-string_formatter 2 k fk, string_parser-string_formatter 2 t ft)
read_table-write_table false k t fk ft rest = rw (fk, ft)

unfoldable pub write_result_column : Bool → ResultColumn → RawBuffer
write_result_column enabled c =
    write_table (not enabled) c.key_space c.table ++ (write_string c.name ++ write_option c.type)

pub record FitsColumn (enabled : Bool) (c : ResultColumn) : Type 0 where
  pub key_space_fits : FitsWhen (not enabled) 2 c.key_space
  pub table_fits : FitsWhen (not enabled) 2 c.table
  pub name_fits : FitsPrefix 2 c.name
  pub type_fits : FitsOption c.type

pub column_back :
    (enabled : Bool) (c : ResultColumn)
    → FitsColumn enabled c
    → (rest : RawBuffer)
    → parse_result_column enabled (write_result_column enabled c ++ rest) ≡ ok (c, rest)
unfolding parse_result_column write_result_column
column_back enabled c fits rest = simp (
  append_assoc,
  read_table-write_table (not enabled) c.key_space c.table fits.key_space_fits fits.table_fits,
  string_parser-string_formatter 2 c.name fits.name_fits,
  parse_column_option-write_option c.type fits.type_fits,
)

abbrev pub column_codec : Bool → Codec ResultColumn
column_codec enabled = record {
  read = parse_result_column enabled;
  write = write_result_column enabled;
  Fits = FitsColumn enabled;
  read-write = column_back enabled;
}

-- [<global table>] and the columns.
abbrev pub write_metadata : Bool → RawBuffer → RawBuffer → List ResultColumn → RawBuffer
write_metadata global k t cs =
    write_table global k t ++ write_elements (write_result_column global) cs

pub record FitsMetadata (global : Bool) (n : ℕ) (k t : RawBuffer) (cs : List ResultColumn)
    : Type 0 where
  pub k_fits : FitsWhen global 2 k
  pub t_fits : FitsWhen global 2 t
  pub counted : length cs ≡ n
  pub all_fit : All (FitsColumn global) cs

metadata_back :
    (flags n : ℕ) (k t : RawBuffer) (cs : List ResultColumn)
    → n < 2 ^ 31
    → FitsMetadata (has_flag flags global_table_spec) n k t cs
    → (rest : RawBuffer)
    → parse_metadata flags n (write_metadata (has_flag flags global_table_spec) k t cs ++ rest)
      ≡ ok ((k, t, cs), rest)
unfolding parse_metadata
metadata_back flags n k t cs small fits rest =
    let global = has_flag flags global_table_spec in
    simp (
      append_assoc,
      read_table-write_table global k t fits.k_fits fits.t_fits,
      reserve_small n small,
      rounds_small n small,
      ← fits.counted,
      read_elements-write_elements (column_codec global) cs fits.all_fit,
    )

abbrev pub write_when : Bool → RawBuffer → RawBuffer
write_when b bytes = if b then bytes else []

pub paging_back :
    (flags : ℕ) (p : RawBuffer)
    → FitsWhen (has_flag flags has_more_pages) 4 p
    → (rest : RawBuffer)
    → parse_paging_state flags (write_when (has_flag flags has_more_pages) (write_bytes p) ++ rest)
      ≡ ok (p, rest)
unfolding parse_paging_state
paging_back flags p fits rest = paging (has_flag flags has_more_pages) fits
  where
    paging :
        (b : Bool)
        → FitsWhen b 4 p
        → (if b then read_bytes else pure []) (write_when b (write_bytes p) ++ rest) ≡ ok (p, rest)
    paging true fits = bytes_parser-bytes_formatter 4 p fits rest
    paging false fits = rw (fits)

-- Without metadata, nothing of it is known.
abbrev pub FitsSomeMetadata : Bool → Bool → ℕ → RawBuffer → RawBuffer → List ResultColumn → Type 0
FitsSomeMetadata true global n k t cs = (k ≡ []) × (t ≡ []) × (cs ≡ [])
FitsSomeMetadata false global n k t cs = FitsMetadata global n k t cs

abbrev pub write_some_metadata : Bool → Bool → RawBuffer → RawBuffer → List ResultColumn → RawBuffer
write_some_metadata none global k t cs = if none then [] else write_metadata global k t cs

pub some_metadata_back :
    (flags n : ℕ) (k t : RawBuffer) (cs : List ResultColumn)
    → n < 2 ^ 31
    → FitsSomeMetadata (has_flag flags no_metadata) (has_flag flags global_table_spec) n k t cs
    → (rest : RawBuffer)
    → parse_some_metadata flags n (
        write_some_metadata (has_flag flags no_metadata) (has_flag flags global_table_spec) k t cs
        ++ rest)
      ≡ ok ((k, t, cs), rest)
unfolding parse_some_metadata
some_metadata_back flags n k t cs small fits rest = some_metadata (has_flag flags no_metadata) fits
  where
    some_metadata :
        (b : Bool)
        → FitsSomeMetadata b (has_flag flags global_table_spec) n k t cs
        → (if b then pure ([], [], []) else parse_metadata flags n)
            (write_some_metadata b (has_flag flags global_table_spec) k t cs ++ rest)
          ≡ ok ((k, t, cs), rest)
    some_metadata true fits = rw (fits.0, fits.1, fits.2)
    some_metadata false fits = metadata_back flags n k t cs small fits rest
