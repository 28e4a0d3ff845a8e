-- ===== src/Io/Floats.antt =====
-- Floating-point values: include/cassandra/io/floating_point_types.hpp. A value is its bit pattern, which
-- is all that the reader and the writer copy.
use cassandra_driver.Base.{ℕ, ◌^◌, ◌<◌, ◌≡◌, ◌++◌}
use cassandra_driver.Base.Result.{ok, ◌>>=◌}
use cassandra_driver.Io.{RawBuffer, Reader, read_int_be, write_int_be}
use cassandra_driver.Io.Integers.{read_int_be-be_bytes}

-- `FloatingPointType`: Float with Int, Double with BigInt.
pub data FloatingPointType : Type 0 where
  float double : FloatingPointType

pub size_of : FloatingPointType → ℕ
size_of float = 4
size_of double = 8

pub record FloatValue (t : FloatingPointType) : Type 0 where
  pub pattern : ℕ

-- `FloatingPointBySizeParser::ParseBuffer`
pub parse_buffer : (t : FloatingPointType) → Reader (FloatValue t)
unfolding size_of
parse_buffer t bytes =
    read_int_be (size_of t) bytes >>= λ (tmp, rest). ok (record { pattern = tmp }, rest)

-- `FloatingPointBySizeFormatter::FormatBuffer`
pub format_buffer : (t : FloatingPointType) → FloatValue t → RawBuffer
unfolding size_of
format_buffer t value = write_int_be (size_of t) value.pattern

-- Every value comes back with all its bits, a NaN's and a negative zero's too.
pub parse_buffer-format_buffer :
    (t : FloatingPointType) (value : FloatValue t) (rest : RawBuffer)
    → value.pattern < 256 ^ size_of t
    → parse_buffer t (format_buffer t value ++ rest) ≡ ok (value, rest)
unfolding parse_buffer format_buffer
parse_buffer-format_buffer t value rest fits =
    rw (read_int_be-be_bytes (size_of t) value.pattern fits rest)
