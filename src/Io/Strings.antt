-- ===== src/Io/Strings.antt =====
-- Length-prefixed notations: include/cassandra/io/string_types.hpp, and the byte strings of
-- include/cassandra/io/list_types.hpp. A prefix of `width` bytes is a Short (2) or an Int (4).
-- A text of 2 GiB or more, whose length wraps to a negative Int, is outside the model of the writer.
pub mod RoundTrip
use cassandra_driver.Base.{ℕ, ◌+◌, ◌%◌, ◌^◌, [], ◌++◌, not, leb, if◌then◌else◌, length, take, drop}
use cassandra_driver.Base.Result
use cassandra_driver.Base.Result.{Result, ok, length_error, ensure, in_bounds}
use cassandra_driver.Io.{
  RawBuffer, Reader, ◌>>=◌, ◌>>◌, pure, lift, read_int_be, write_int_be, is_negative, is_positive,
}

-- `reserve(size)`: a negative Int becomes a huge size_t, which `reserve` refuses.
unfoldable pub reserve : ℕ → Result (Unit {0})
unfolding is_negative
reserve size = ensure (not (is_negative size)) length_error

-- `memcpy` of `size` bytes at the offset, and `offset += size`, with no check of its own.
unfoldable pub copy_out : ℕ → Reader RawBuffer
copy_out size bs = Result.◌>>◌ (in_bounds (leb size (length bs))) (ok (take size bs, drop size bs))

-- `StringBinaryParser`
unfoldable pub string_parser : ℕ → Reader RawBuffer
string_parser width = do size ← read_int_be width; lift (reserve size); copy_out size

-- `StringBinaryFormatter`
unfoldable pub string_formatter : ℕ → RawBuffer → RawBuffer
string_formatter width value =
    let size = length value % 256 ^ width in write_int_be width size ++ take size value

-- `BytesBinaryParser`: a length that is not positive gives the empty value and takes no more bytes.
unfoldable pub bytes_parser : ℕ → Reader RawBuffer
bytes_parser width = do len ← read_int_be width; if is_positive len then copy_out len else pure []

-- `BytesBinaryFormatter`
unfoldable pub bytes_formatter : ℕ → RawBuffer → RawBuffer
bytes_formatter width value =
    let size = length value % 256 ^ width in
    write_int_be width size ++ (if is_positive size then take size value else [])

-- The protocol's names for these, by the width of `T::TagType`.
abbrev pub read_string : Reader RawBuffer
read_string = string_parser 2

abbrev pub write_string : RawBuffer → RawBuffer
write_string = string_formatter 2

abbrev pub read_long_string : Reader RawBuffer
read_long_string = string_parser 4

abbrev pub write_long_string : RawBuffer → RawBuffer
write_long_string = string_formatter 4

abbrev pub read_short_bytes : Reader RawBuffer
read_short_bytes = bytes_parser 2

abbrev pub write_short_bytes : RawBuffer → RawBuffer
write_short_bytes = bytes_formatter 2

abbrev pub read_bytes : Reader RawBuffer
read_bytes = bytes_parser 4

abbrev pub write_bytes : RawBuffer → RawBuffer
write_bytes = bytes_formatter 4
