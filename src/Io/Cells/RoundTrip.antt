-- ===== src/Io/Cells/RoundTrip.antt =====
-- What include/cassandra/io/integral_types.hpp and string_types.hpp write into a fresh cell.
use cassandra_driver.Base.{ℕ, ◌^◌, ◌<◌, ◌≡◌, refl, [], append-nil, true, false, arith}
use cassandra_driver.Base.Result.{ok}
use cassandra_driver.Io.{read_int_be, be_bytes}
use cassandra_driver.Io.Integers.{read_int_be-be_bytes}
use cassandra_driver.Io.Cells.{CellType, boolean, text, integral, CellValue, read_cell, write_cell}

-- The values that the cell's type holds.
abbrev pub FitsCell : (t : CellType) → CellValue t → Type 0
FitsCell boolean value = Unit {0}
FitsCell text value = Unit {0}
FitsCell (integral width) value = value < 256 ^ width

read_int_be-be_bytes_whole :
    (width value : ℕ)
    → value < 256 ^ width
    → read_int_be width (be_bytes width value) ≡ ok (value, [])
read_int_be-be_bytes_whole width value h =
    rw (append-nil (be_bytes width value)) at (read_int_be-be_bytes width value h [])

-- A value written into an empty cell is read back.
pub read_cell-write_cell :
    (t : CellType) (value : CellValue t)
    → FitsCell t value
    → read_cell t (write_cell t value []) ≡ ok value
unfolding read_cell write_cell
read_cell-write_cell boolean true fits = rw (read_int_be-be_bytes_whole 1 1 (omega arith))
read_cell-write_cell boolean false fits = rw (read_int_be-be_bytes_whole 1 0 (omega arith))
read_cell-write_cell text value fits = refl
read_cell-write_cell (integral width) value fits = rw (read_int_be-be_bytes_whole width value fits)
