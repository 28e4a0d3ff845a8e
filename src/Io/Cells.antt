-- ===== src/Io/Cells.antt =====
-- One cell of a row, or one bound parameter: the readers and writers of a whole `Bytes` value in
-- include/cassandra/io/integral_types.hpp and string_types.hpp, picked by `Read` and `Write` of
-- include/cassandra/io/buffer_io_base.hpp. No other type of include/cassandra/io has them.
pub mod RoundTrip
use cassandra_driver.Base.{ℕ, List, [], ◌∷◌, ◌++◌, Bool, true, false, ◌==◌, if◌then◌else◌}
use cassandra_driver.Base.Result.{Result, ok, fault, ◌>>=◌}
use cassandra_driver.Io.{RawBuffer, read_int_be, write_int_be}

-- A bool, an integer of so many bytes (Byte and TinyInt 1, SmallInt and Short 2, Int 4, BigInt 8), or
-- a std::string.
pub data CellType : Type 0 where
  boolean text : CellType
  integral : ℕ → CellType

-- A signed integer is its bit pattern.
abbrev pub CellValue : CellType → Type 0
CellValue boolean = Bool
CellValue text = RawBuffer
CellValue (integral width) = ℕ

-- The byte of a bool; a byte that is neither 0 nor 1 is no value of the type.
pub as_boolean : ℕ → Result Bool
as_boolean n = if n == 0 then ok false else if n == 1 then ok true else fault

-- `detail::Read<T>(const Bytes&)`: an integer is read at offset 0, and the rest of the cell is left; a
-- string is the whole cell.
unfoldable pub read_cell : (t : CellType) → RawBuffer → Result (CellValue t)
unfolding as_boolean
read_cell boolean cell = read_int_be 1 cell >>= λ (n, _). as_boolean n
read_cell text cell = ok cell
read_cell (integral width) cell = read_int_be width cell >>= λ (n, _). ok n

-- `detail::Write<T>(Bytes&, const T&)`: an integer goes behind what the cell holds, a string replaces it.
unfoldable pub write_cell : (t : CellType) → CellValue t → RawBuffer → RawBuffer
write_cell boolean value cell = cell ++ write_int_be 1 (if value then 1 else 0)
write_cell text value cell = value
write_cell (integral width) value cell = cell ++ write_int_be width value
