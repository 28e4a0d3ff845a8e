-- ===== src/Rows.antt =====
-- Rows and result sets: include/cassandra/row.hpp, include/cassandra/result_set.hpp and
-- include/cassandra/detail/result_wrapper.hpp. A C++ tuple (or an aggregate, through its structure_tie)
-- is the list of its members' types; no member is itself a row.
pub mod Extract
pub mod Total
pub mod Types
use cassandra_driver.Base.{
  ℕ, zero, suc, List, [], ◌∷◌, Bool, true, false, ltb, if◌then◌else◌, Option, none, some, length,
}
use cassandra_driver.Base.Result.{Result, ok, throws, fault, error, ◌>>=◌}
use cassandra_driver.Io.{RawBuffer, to_size}
use cassandra_driver.Io.Cells.{CellType, CellValue, read_cell}
use cassandra_driver.Protocol.Responses.{RowKind}

-- `std::tuple<T...>`
abbrev pub Tuple : List CellType → Type 0
Tuple [] = Unit {0}
Tuple (t ∷ ts) = CellValue t × Tuple ts

pub record Row : Type 0 where
  pub row_content : List RawBuffer
  pub columns_count : ℕ

-- `Row::Size`: an int as a size_t.
pub size : Row → ℕ
size r = to_size r.columns_count

-- `front()` of a span or a vector.
abbrev pub front {ℓ} : {A : Type ℓ} → List A → Result A
front [] = fault
front (x ∷ xs) = ok x

-- `buffer_view[index]`
pub cell_at : ℕ → List RawBuffer → Result RawBuffer
cell_at index [] = fault
cell_at zero (cell ∷ cells) = ok cell
cell_at (suc index) (cell ∷ cells) = cell_at index cells

-- `Row::To(val, io::FieldTag)`
pub as_field : (t : CellType) → Row → Result (CellValue t)
as_field t r = front r.row_content >>= read_cell t

-- `ExtractTuple`, from the member for the column `column_index` on.
pub extract_tuple : (ts : List CellType) → ℕ → List RawBuffer → Result (Tuple ts)
unfolding cell_at
extract_tuple [] column_index cells = ok tt
extract_tuple (t ∷ ts) column_index cells = cell_at column_index cells >>= λ cell.
    read_cell t cell >>= λ value.
    extract_tuple ts (suc column_index) cells >>= λ values. ok (value, values)

-- `Row::To(val, io::RowTag)`; further columns are only logged.
pub as_row : (ts : List CellType) → Row → Result (Tuple ts)
unfolding size extract_tuple
as_row ts r = if ltb (size r) (length ts) then throws error else extract_tuple ts 0 r.row_content

pub record ResultWrapper : Type 0 where
  pub rows_content : List (List RawBuffer)
  pub columns_count : ℕ
  pub rows_count : ℕ

-- `_pimpl` may be null.
abbrev pub ResultSet : Type 0
ResultSet = Option ResultWrapper

-- The end of `ResultMessage::GetResultSet`.
pub result_set : Option RowKind → ResultSet
result_set none = none
result_set (some r) = some (record {
  rows_content = r.rows_content;
  columns_count = r.columns_count;
  rows_count = r.rows_count;
})

-- `_pimpl->`
abbrev pub through : ResultSet → Result ResultWrapper
through none = fault
through (some w) = ok w

unfoldable pub is_empty : ResultSet → Bool
is_empty none = true
is_empty (some w) = elim w.rows_content [ [] ↦ true | row ∷ rows ↦ false ]

unfoldable pub rows_affected : ResultSet → Result ℕ
rows_affected s = through s >>= λ w. ok w.rows_count

unfoldable pub columns_affected : ResultSet → Result ℕ
columns_affected s = through s >>= λ w. ok w.columns_count

-- `ResultSet::Front`
pub front_row : ResultSet → Result Row
front_row s = through s >>= λ w. front w.rows_content >>= λ row.
    ok (record { row_content = row; columns_count = w.columns_count })

-- `AsSingleRow(io::FieldTag)` and `AsSingleRow(io::RowTag)`
unfoldable pub as_single_field : (t : CellType) → ResultSet → Result (CellValue t)
unfolding front_row as_field
as_single_field t s = front_row s >>= as_field t

pub as_single_row : (ts : List CellType) → ResultSet → Result (Tuple ts)
unfolding front_row
as_single_row ts s = front_row s >>= as_row ts

-- The loop of `AsContainer`.
pub push_rows : (ts : List CellType) → ℕ → List (List RawBuffer) → Result (List (Tuple ts))
push_rows ts columns_count [] = ok []
push_rows ts columns_count (row ∷ rows) =
    as_row ts (record { row_content = row; columns_count = columns_count }) >>= λ value.
    push_rows ts columns_count rows >>= λ values. ok (value ∷ values)

-- `AsContainer`
pub as_container : (ts : List CellType) → ResultSet → Result (List (Tuple ts))
as_container ts s = through s >>= λ w. push_rows ts w.columns_count w.rows_content
