-- ===== src/Protocol/Responses/RoundTrip.antt =====
-- The bodies of results (src/io/protocol/response_message.hpp) as the protocol writes them.
use cassandra_driver.Base.{All, List, append_assoc, arith, length, ℕ, ◌++◌, ◌<◌, ◌^◌, ◌≡◌}
use cassandra_driver.Base.Result.{ok}
use cassandra_driver.Io.{RawBuffer, write_int_be}
use cassandra_driver.Io.Integers.{read_int_be-be_bytes}
use cassandra_driver.Io.Strings.{read_bytes, write_bytes, write_short_bytes}
use cassandra_driver.Io.Strings.RoundTrip.{FitsPrefix, bytes_parser-bytes_formatter, reserve_small}
use cassandra_driver.Io.Containers.{Codec, list_formatter, read_elements, write_elements}
use cassandra_driver.Io.Containers.Codecs.{
  FitsList, bytes_codec, int_codec, list_parser-list_formatter, read_elements-write_elements,
}
use cassandra_driver.Protocol.Responses.Metadata.{
  FitsMetadata, FitsSomeMetadata, FitsWhen, column_codec, paging_back, read_table-write_table,
  rounds_small, some_metadata_back, write_metadata, write_result_column, write_some_metadata,
  write_when,
}
use cassandra_driver.Protocol.Responses.{
  PreparedKind, RowKind, global_table_spec, has_flag, has_more_pages, no_metadata, parse_prepared,
  parse_result_column, parse_rows,
}

-- A row of `n` values.
abbrev pub FitsRow : ℕ → List RawBuffer → Type 0
FitsRow n row = (length row ≡ n) × All (FitsPrefix 4) row

row_back :
    (n : ℕ) (row : List RawBuffer)
    → FitsRow n row
    → (rest : RawBuffer)
    → read_elements read_bytes n (write_elements write_bytes row ++ rest) ≡ ok (row, rest)
row_back n row fits rest =
    rw (← fits.0) (read_elements-write_elements (bytes_codec 4) row fits.1 rest)

abbrev row_codec : ℕ → Codec (List RawBuffer)
row_codec n = record {
  read = read_elements read_bytes n;
  write = write_elements write_bytes;
  Fits = FitsRow n;
  read-write = row_back n;
}

-- The body of a Rows result behind its kind.
unfoldable pub write_rows : RowKind → RawBuffer
write_rows r =
    write_int_be 4 r.flags
    ++ (write_int_be 4 r.columns_count
        ++ (write_when (has_flag r.flags has_more_pages) (write_bytes r.paging_state)
            ++ (write_some_metadata (has_flag r.flags no_metadata)
                  (has_flag r.flags global_table_spec) r.global_key_space r.global_table r.columns
                ++ (write_int_be 4 r.rows_count
                    ++ write_elements (write_elements write_bytes) r.rows_content))))

-- The flags decide what is written, the counts are those of the lists, and all fits its prefixes.
pub record FitsRows (r : RowKind) : Type 0 where
  pub flags_lt : r.flags < 2 ^ 32
  pub columns_lt : r.columns_count < 2 ^ 31
  pub paging_fits : FitsWhen (has_flag r.flags has_more_pages) 4 r.paging_state
  pub metadata_fits :
      FitsSomeMetadata
        (has_flag r.flags no_metadata)
        (has_flag r.flags global_table_spec)
        r.columns_count
        r.global_key_space
        r.global_table
        r.columns
  pub rows_lt : r.rows_count < 2 ^ 31
  pub rows_counted : length r.rows_content ≡ r.rows_count
  pub rows_fit : All (FitsRow r.columns_count) r.rows_content

-- Rows are read back with their paging state, their metadata and every value of every row, whatever
-- the flags say is there, if the counts are those of the lists and all fits its prefixes.
pub parse_rows-write_rows :
    (r : RowKind)
    → FitsRows r
    → (rest : RawBuffer) → parse_rows (write_rows r ++ rest) ≡ ok (r, rest)
unfolding parse_rows write_rows
parse_rows-write_rows r fits rest = simp (
  append_assoc,
  read_int_be-be_bytes 4 r.flags fits.flags_lt,
  read_int_be-be_bytes 4 r.columns_count (omega (arith, fits.columns_lt)),
  paging_back r.flags r.paging_state fits.paging_fits,
  some_metadata_back r.flags r.columns_count r.global_key_space r.global_table r.columns
      fits.columns_lt fits.metadata_fits,
  read_int_be-be_bytes 4 r.rows_count (omega (arith, fits.rows_lt)),
  reserve_small r.rows_count fits.rows_lt,
  rounds_small r.columns_count fits.columns_lt,
  rounds_small r.rows_count fits.rows_lt,
  rows_back,
)
  where
    rows_back :
        read_elements
          (read_elements read_bytes r.columns_count)
          r.rows_count
          (write_elements (write_elements write_bytes) r.rows_content ++ rest)
        ≡ ok (r.rows_content, rest)
    rows_back =
        rw (fits.rows_counted) at (
          read_elements-write_elements (row_codec r.columns_count) r.rows_content fits.rows_fit
            rest)

-- The body of a Prepared result behind its kind.
unfoldable pub write_prepared : PreparedKind → RawBuffer
write_prepared p =
    write_short_bytes p.id
    ++ (write_int_be 4 p.flags
        ++ (write_int_be 4 p.column_count
            ++ (list_formatter 4 (write_int_be 2) p.partition_key_indexes
                ++ write_metadata (has_flag p.flags global_table_spec) p.global_key_space
                    p.global_table p.columns)))

pub record FitsPrepared (p : PreparedKind) : Type 0 where
  pub id_fits : FitsPrefix 2 p.id
  pub flags_lt : p.flags < 2 ^ 32
  pub columns_lt : p.column_count < 2 ^ 31
  pub indexes_fit : FitsList (int_codec 2) 4 p.partition_key_indexes
  pub metadata_fits :
      FitsMetadata
        (has_flag p.flags global_table_spec)
        p.column_count
        p.global_key_space
        p.global_table
        p.columns

-- A prepared statement's answer is read back with its id, its partition key and its columns, if the
-- counts are those of the lists and all fits its prefixes.
pub parse_prepared-write_prepared :
    (p : PreparedKind)
    → FitsPrepared p
    → (rest : RawBuffer) → parse_prepared (write_prepared p ++ rest) ≡ ok (p, rest)
unfolding parse_prepared write_prepared
parse_prepared-write_prepared p fits rest =
    let global = has_flag p.flags global_table_spec in
    simp (
      append_assoc,
      bytes_parser-bytes_formatter 2 p.id fits.id_fits,
      read_int_be-be_bytes 4 p.flags fits.flags_lt,
      read_int_be-be_bytes 4 p.column_count (omega (arith, fits.columns_lt)),
      list_parser-list_formatter (int_codec 2) 4 p.partition_key_indexes fits.indexes_fit,
      read_table-write_table global p.global_key_space p.global_table fits.metadata_fits.k_fits
          fits.metadata_fits.t_fits,
      rounds_small p.column_count fits.columns_lt,
      columns_back,
    )
  where
    columns_back :
        read_elements (parse_result_column (has_flag p.flags global_table_spec)) p.column_count (
          write_elements (write_result_column (has_flag p.flags global_table_spec)) p.columns
          ++ rest)
        ≡ ok (p.columns, rest)
    columns_back = rw (fits.metadata_fits.counted) at (
        read_elements-write_elements (column_codec (has_flag p.flags global_table_spec)) p.columns
          fits.metadata_fits.all_fit rest)
