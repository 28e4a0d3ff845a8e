-- ===== src/Examples/ResponseExamples.antt =====
-- Responses on a table of one row, a prepared statement, changes of the schema and errors.
use cassandra_driver.Base.{ℕ, ◌≡◌, refl, subst, [], ◌∷◌, ◌++◌, none, some, codes, arith}
use cassandra_driver.Base.Result.{ok}
use cassandra_driver.Io.{RawBuffer}
use cassandra_driver.Io.Strings.RoundTrip.{FitsPrefix}
use cassandra_driver.Protocol.Lz4.{Compressor, Lz4Library, lz4_compressor}
use cassandra_driver.Protocol.Columns.{
  ColumnOption, plain, list, map, tuple, element, no_elements, payload_type, parse_column_option,
}
use cassandra_driver.Protocol.Columns.RoundTrip.{
  write_option, count_elements, FitsOption, parse_column_option-write_option,
}
use cassandra_driver.Protocol.Responses.{
  ResultColumn, RowKind, PreparedKind, has_flag, parse_rows, parse_prepared,
}
use cassandra_driver.Protocol.Responses.RoundTrip.{
  write_rows, FitsRows, parse_rows-write_rows, write_prepared, FitsPrepared,
  parse_prepared-write_prepared,
}
use cassandra_driver.Protocol.Responses.Schema.{
  table, on_table, parse_schema_change, write_schema_change, parse_schema_change-write,
}
use cassandra_driver.Protocol.Responses.Total.{Answers, lz4-Answers}

pub letters : (a b : ℕ) → FitsPrefix 2 (a ∷ b ∷ [])
letters a b = record { in_width = omega arith; in_int = omega arith }

-- map<varchar, list<int>> in a tuple.
abbrev pub nested : ColumnOption
nested = tuple (element (map (plain 0x0d) (list (plain 0x09))) no_elements)

nested_fits : FitsOption nested
unfolding payload_type count_elements
nested_fits = (omega arith, (((omega arith, refl), (omega arith, refl)), tt))

nested_read : parse_column_option (write_option nested ++ 1 ∷ []) ≡ ok (nested, 1 ∷ [])
nested_read = parse_column_option-write_option nested nested_fits (1 ∷ [])

abbrev pub id_column : ResultColumn
id_column = record { key_space = []; table = []; name = codes "id"; type = nested }

-- The flags: a global table, and more pages.
abbrev pub one_row : RowKind
one_row = record {
  flags = 3;
  columns_count = 1;
  paging_state = 7 ∷ 8 ∷ [];
  global_key_space = codes "ks";
  global_table = codes "tb";
  columns = id_column ∷ [];
  rows_count = 1;
  rows_content = ((5 ∷ []) ∷ []) ∷ [];
}

pub one_row_fits : FitsRows one_row
unfolding has_flag
one_row_fits = record {
  flags_lt = omega arith;
  columns_lt = omega arith;
  paging_fits = record { in_width = omega arith; in_int = omega arith };
  metadata_fits = record {
    k_fits = letters 107 115;
    t_fits = letters 116 98;
    counted = refl;
    all_fit = (
      record {
        key_space_fits = refl;
        table_fits = refl;
        name_fits = letters 105 100;
        type_fits = nested_fits;
      },
      tt,
    );
  };
  rows_lt = omega arith;
  rows_counted = refl;
  rows_fit = ((refl, (record { in_width = omega arith; in_int = omega arith }, tt)), tt);
}

one_row_read : parse_rows (write_rows one_row ++ 1 ∷ []) ≡ ok (one_row, 1 ∷ [])
one_row_read = parse_rows-write_rows one_row one_row_fits (1 ∷ [])

abbrev pub statement : PreparedKind
statement = record {
  id = 1 ∷ 2 ∷ [];
  flags = 1;
  column_count = 1;
  partition_key_indexes = 0 ∷ [];
  global_key_space = codes "ks";
  global_table = codes "tb";
  columns = id_column ∷ [];
}

pub statement_fits : FitsPrepared statement
unfolding has_flag
statement_fits = record {
  id_fits = letters 1 2;
  flags_lt = omega arith;
  columns_lt = omega arith;
  indexes_fit = record {
    in_width = omega arith;
    in_int = omega arith;
    elements = (omega arith, tt);
  };
  metadata_fits = record {
    k_fits = letters 107 115;
    t_fits = letters 116 98;
    counted = refl;
    all_fit = (
      record {
        key_space_fits = refl;
        table_fits = refl;
        name_fits = letters 105 100;
        type_fits = nested_fits;
      },
      tt,
    );
  };
}

statement_read : parse_prepared (write_prepared statement ++ 1 ∷ []) ≡ ok (statement, 1 ∷ [])
statement_read = parse_prepared-write_prepared statement statement_fits (1 ∷ [])

abbrev pub broken_lz4 : Lz4Library
broken_lz4 = record {
  compress_bound = λ n. n;
  compress_default = λ b n. none;
  decompress_safe = λ b n. none;
}

pub broken-Answers : (c : Compressor) → some (lz4_compressor broken_lz4) ≡ some c → Answers c
broken-Answers c e = subst Answers (some-inj e) (lz4-Answers broken_lz4)
  where
    some-inj : some (lz4_compressor broken_lz4) ≡ some c → lz4_compressor broken_lz4 ≡ c
    some-inj e = cc

abbrev created : RawBuffer
created = codes "CREATED"

created_fits : FitsPrefix 2 created
created_fits = record { in_width = omega arith; in_int = omega arith }

table_created :
    parse_schema_change (write_schema_change created (on_table (codes "ks") (codes "tb")) ++ 1 ∷ [])
    ≡ ok (
      record {
        change_type = created;
        target = codes "TABLE";
        target_options = table (codes "ks") (codes "tb");
      },
      1 ∷ [],
    )
table_created =
    parse_schema_change-write created (on_table (codes "ks") (codes "tb")) refl created_fits
      (letters 107 115, letters 116 98) (1 ∷ [])
