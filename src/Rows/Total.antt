-- ===== src/Rows/Total.antt =====
-- The reads of include/cassandra/row.hpp and result_set.hpp stay within the row, whatever the node
-- sent.
use cassandra_driver.Base.{
  ℕ, ◌^◌, ◌<◌, ◌≤◌, ◌≡◌, List, [], ◌∷◌, length, All, arith, Bool-cases, inl, inr, ltb, leb, some,
  ◌∙◌,
}
use cassandra_driver.Base.Result.{Result, ok, throws, fault, stuck, ◌>>=◌}
use cassandra_driver.Io.{RawBuffer, read_int_be, ensure_size}
use cassandra_driver.Io.Containers.Codecs.{to_size_small}
use cassandra_driver.Io.Cells.{CellType, boolean, text, integral, read_cell}
use cassandra_driver.Protocol.Responses.{RowKind, parse_rows, rounds}
use cassandra_driver.Protocol.Responses.Metadata.{rounds_small}
use cassandra_driver.Protocol.Responses.Shape.{parse_rows-IsRectangular}
use cassandra_driver.Rows.{
  extract_tuple, cell_at, as_row, size, push_rows, as_container, result_set,
}
use cassandra_driver.Rows.Extract.{extract_tuple_shift}

-- The types that every byte is a value of.
abbrev pub IsPlain : CellType → Type 0
IsPlain boolean = ⊥
IsPlain text = Unit {0}
IsPlain (integral width) = Unit {0}

-- A call that ends with a value or an exception.
abbrev pub IsDefined : {A : Type 0} → Result A → Type 0
IsDefined (ok a) = Unit {0}
IsDefined (throws e) = Unit {0}
IsDefined fault = ⊥
IsDefined stuck = ⊥

IsDefined-bind :
    {A B : Type 0} (m : Result A) (f : A → Result B)
    → IsDefined m
    → ((a : A) → IsDefined (f a))
    → IsDefined (m >>= f)
IsDefined-bind (ok a) f hm hf = hf a
IsDefined-bind (throws e) f hm hf = tt
IsDefined-bind fault f hm hf = hm
IsDefined-bind stuck f hm hf = hm

read_cell-IsDefined : (t : CellType) (cell : RawBuffer) → IsPlain t → IsDefined (read_cell t cell)
unfolding read_cell read_int_be ensure_size
read_cell-IsDefined boolean cell h = absurd h
read_cell-IsDefined text cell h = tt
read_cell-IsDefined (integral width) cell h = elim (Bool-cases (leb width (length cell))) [
  | inl e ↦ rw e tt
  | inr e ↦ rw e tt
]

extract_tuple-IsDefined :
    (ts : List CellType) (cells : List RawBuffer)
    → All IsPlain ts
    → length ts ≤ length cells
    → IsDefined (extract_tuple ts 0 cells)
unfolding extract_tuple cell_at
extract_tuple-IsDefined [] cells plain enough = tt
extract_tuple-IsDefined (t ∷ ts) [] plain enough = absurd (omega arith)
extract_tuple-IsDefined (t ∷ ts) (cell ∷ cells) (p, plain) enough =
    IsDefined-bind (read_cell t cell) _ (read_cell-IsDefined t cell p) λ value.
      rw (extract_tuple_shift ts 0 cell cells) (
        IsDefined-bind (extract_tuple ts 0 cells) _
          (extract_tuple-IsDefined ts cells plain (omega arith)) λ values. tt)

-- With a value for each column the members that there are columns for are read.
as_row-IsDefined :
    (ts : List CellType) (columns_count : ℕ) (row : List RawBuffer)
    → All IsPlain ts
    → columns_count < 2 ^ 31
    → length row ≡ columns_count
    → IsDefined (as_row ts (record { row_content = row; columns_count = columns_count }))
unfolding as_row size
as_row-IsDefined ts columns_count row plain small counted =
    elim (Bool-cases (ltb columns_count (length ts))) [
      | inl e ↦ rw (to_size_small columns_count small, e) tt
      | inr e ↦
          rw (to_size_small columns_count small, e)
            (extract_tuple-IsDefined ts row plain (ground arith))
    ]

push_rows-IsDefined :
    (ts : List CellType) (columns_count : ℕ) (rows : List (List RawBuffer))
    → All IsPlain ts
    → columns_count < 2 ^ 31
    → All (λ row. length row ≡ rounds columns_count) rows
    → IsDefined (push_rows ts columns_count rows)
unfolding push_rows
push_rows-IsDefined ts columns_count [] plain small shape = tt
push_rows-IsDefined ts columns_count (row ∷ rows) plain small (counted, shape) =
    IsDefined-bind (as_row ts (record { row_content = row; columns_count = columns_count })) _
      (as_row-IsDefined ts columns_count row plain small
        (counted ∙ rounds_small columns_count small))
      λ value.
        IsDefined-bind (push_rows ts columns_count rows) _
          (push_rows-IsDefined ts columns_count rows plain small shape) λ values. tt

-- Whatever bytes were read as rows, with a column count that is not negative, and whatever tuple without
-- bool members is asked for: `AsContainer` gives values or throws, and reads no cell that the row does
-- not have.
pub as_container-IsDefined :
    (ts : List CellType) (bytes rest : RawBuffer) (r : RowKind)
    → parse_rows bytes ≡ ok (r, rest)
    → r.columns_count < 2 ^ 31
    → All IsPlain ts
    → IsDefined (as_container ts (result_set (some r)))
unfolding as_container result_set
as_container-IsDefined ts bytes rest r parsed small plain =
    push_rows-IsDefined ts r.columns_count r.rows_content plain small
      (parse_rows-IsRectangular.at bytes r rest parsed)
