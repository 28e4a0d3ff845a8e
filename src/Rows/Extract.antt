-- ===== src/Rows/Extract.antt =====
-- Tuples written by a node and read by the client: include/cassandra/row.hpp and
-- include/cassandra/result_set.hpp over the Rows result of src/io/protocol/response_message.hpp.
use cassandra_driver.Base.{
  ℕ, suc, ◌+◌, ◌^◌, ◌<◌, ◌≡◌, refl, List, [], ◌∷◌, ◌++◌, map, some, length, All, arith, le→ltb, ap,
}
use cassandra_driver.Base.Result.{ok, ◌>>=◌}
use cassandra_driver.Io.{RawBuffer}
use cassandra_driver.Io.Containers.Codecs.{to_size_small}
use cassandra_driver.Io.Cells.{CellType, write_cell}
use cassandra_driver.Io.Cells.RoundTrip.{FitsCell, read_cell-write_cell}
use cassandra_driver.Protocol.Responses.{RowKind, parse_rows}
use cassandra_driver.Protocol.Responses.RoundTrip.{FitsRows, write_rows, parse_rows-write_rows}
use cassandra_driver.Rows.{
  Tuple, size, cell_at, extract_tuple, as_row, push_rows, as_container, as_single_row, front,
  result_set,
}

-- The cells of a tuple, each in the notation of its type.
unfoldable pub write_tuple : (ts : List CellType) → Tuple ts → List RawBuffer
write_tuple [] values = []
write_tuple (t ∷ ts) (value, values) = write_cell t value [] ∷ write_tuple ts values

abbrev pub FitsTuple : (ts : List CellType) → Tuple ts → Type 0
FitsTuple [] values = Unit {0}
FitsTuple (t ∷ ts) (value, values) = FitsCell t value × FitsTuple ts values

pub length-write_tuple :
    (ts : List CellType) (values : Tuple ts) → length (write_tuple ts values) ≡ length ts
unfolding write_tuple
length-write_tuple [] values = refl
length-write_tuple (t ∷ ts) (value, values) = ap suc (length-write_tuple ts values)

-- The members for the columns behind the first read the columns behind it.
pub extract_tuple_shift :
    (ts : List CellType) (column_index : ℕ) (cell : RawBuffer) (cells : List RawBuffer)
    → extract_tuple ts (suc column_index) (cell ∷ cells) ≡ extract_tuple ts column_index cells
unfolding extract_tuple cell_at
extract_tuple_shift [] column_index cell cells = refl
extract_tuple_shift (t ∷ ts) column_index cell cells =
    simp (extract_tuple_shift ts (suc column_index) cell cells)

-- A tuple's cells give the tuple, whatever columns stand behind.
pub extract_tuple-write_tuple :
    (ts : List CellType) (values : Tuple ts) (more : List RawBuffer)
    → FitsTuple ts values
    → extract_tuple ts 0 (write_tuple ts values ++ more) ≡ ok values
unfolding extract_tuple write_tuple cell_at
extract_tuple-write_tuple [] values more fits = refl
extract_tuple-write_tuple (t ∷ ts) (value, values) more fits = rw (
  read_cell-write_cell t value fits.0,
  extract_tuple_shift ts 0 (write_cell t value []) (write_tuple ts values ++ more),
  extract_tuple-write_tuple ts values more fits.1,
)

-- A row of a node: a tuple, and the columns behind it that the tuple has no member for.
abbrev pub WideTuple : List CellType → Type 0
WideTuple ts = Tuple ts × List RawBuffer

abbrev pub write_wide : (ts : List CellType) → WideTuple ts → List RawBuffer
write_wide ts (values, more) = write_tuple ts values ++ more

abbrev pub FitsWide : (ts : List CellType) → ℕ → WideTuple ts → Type 0
FitsWide ts columns_count (values, more) =
    FitsTuple ts values × (length ts + length more ≡ columns_count)

as_row-write_wide :
    (ts : List CellType) (columns_count : ℕ) (values : Tuple ts) (more : List RawBuffer)
    → columns_count < 2 ^ 31
    → FitsWide ts columns_count (values, more)
    → as_row ts
        (record { row_content = write_wide ts (values, more); columns_count = columns_count })
      ≡ ok values
unfolding as_row size
as_row-write_wide ts columns_count values more small (fits, counted) = rw (
  to_size_small columns_count small,
  le→ltb columns_count (length ts) (omega (arith, counted)),
  extract_tuple-write_tuple ts values more fits,
)

push_rows-write_wide :
    (ts : List CellType) (columns_count : ℕ) (table : List (WideTuple ts))
    → columns_count < 2 ^ 31
    → All (FitsWide ts columns_count) table
    → push_rows ts columns_count (map (write_wide ts) table)
      ≡ ok (map (λ (w : WideTuple ts). w.0) table)
unfolding push_rows
push_rows-write_wide ts columns_count [] small fits = refl
push_rows-write_wide ts columns_count ((values, more) ∷ table) small (fits, rest) = rw (
  as_row-write_wide ts columns_count values more small fits,
  push_rows-write_wide ts columns_count table small rest,
)

front_row-write_wide :
    (ts : List CellType) (r : RowKind) (table : List (WideTuple ts))
    → r.columns_count < 2 ^ 31
    → All (FitsWide ts r.columns_count) table
    → r.rows_content ≡ map (write_wide ts) table
    → as_single_row ts (result_set (some r)) ≡ front (map (λ (w : WideTuple ts). w.0) table)
unfolding as_single_row result_set
front_row-write_wide ts r [] small fits e = rw e
front_row-write_wide ts r ((values, more) ∷ table) small (fits, rest) e =
    rw e (as_row-write_wide ts r.columns_count values more small fits)

-- The result set of such rows.
pub tuples_back :
    (ts : List CellType) (r : RowKind) (table : List (WideTuple ts))
    → r.columns_count < 2 ^ 31
    → All (FitsWide ts r.columns_count) table
    → r.rows_content ≡ map (write_wide ts) table
    → let tuples = map (λ (w : WideTuple ts). w.0) table in
      (as_container ts (result_set (some r)) ≡ ok tuples)
      × (as_single_row ts (result_set (some r)) ≡ front tuples)
unfolding as_container result_set
tuples_back ts r table small wide e = (
  rw e (push_rows-write_wide ts r.columns_count table small wide),
  front_row-write_wide ts r table small wide e,
)

-- Rows that a node writes for tuples, in columns that may be more than the tuple's members, are read by
-- `AsContainer` as these tuples in their order, and by `AsSingleRow` as the first of them, where an
-- empty result is read through `front()` of an empty vector; if the rows fit their prefixes, and the
-- integers their widths.
pub as_container-write_rows :
    (ts : List CellType) (r : RowKind) (table : List (WideTuple ts)) (rest : RawBuffer)
    → FitsRows r
    → All (FitsWide ts r.columns_count) table
    → r.rows_content ≡ map (write_wide ts) table
    → let tuples = map (λ (w : WideTuple ts). w.0) table in
      ((parse_rows (write_rows r ++ rest) >>= λ (m, _). as_container ts (result_set (some m)))
        ≡ ok tuples)
      × ((parse_rows (write_rows r ++ rest) >>= λ (m, _). as_single_row ts (result_set (some m)))
          ≡ front tuples)
as_container-write_rows ts r table rest fits wide e =
    let (all, first) = tuples_back ts r table fits.columns_lt wide e in
    (rw (parse_rows-write_rows r fits rest) all, rw (parse_rows-write_rows r fits rest) first)
