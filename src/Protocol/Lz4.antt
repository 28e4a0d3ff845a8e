-- ===== src/Protocol/Lz4.antt =====
-- Body compression: include/cassandra/io/protocol/lz4_utils.hpp and src/io/protocol/lz4_utils.cpp.
-- liblz4 is a parameter; what it documents is `Lz4Documented`.
pub mod RoundTrip
use cassandra_driver.Base.{
  ℕ, ◌+◌, ◌≤◌, ◌<◌, ◌^◌, ◌≡◌, ◌++◌, Option, none, some, ◌==◌, if◌then◌else◌, length,
}
use cassandra_driver.Base.Result.{Result, ok, throws, error, ◌>>=◌, ◌>>◌}
use cassandra_driver.Io.{RawBuffer, read_int_be, write_int_be}
use cassandra_driver.Io.Strings.{reserve}

-- `compress bytes buffer` appends to the buffer.
pub record Compressor : Type 0 where
  pub compress : RawBuffer → RawBuffer → Result RawBuffer
  pub decompress : RawBuffer → Result RawBuffer

-- `LZ4_compressBound`, and `LZ4_compress_default` and `LZ4_decompress_safe` at a capacity. `none`
-- is a return value that reports failure: at most 0 for the first, below 0 for the second.
pub record Lz4Library : Type 0 where
  pub compress_bound : ℕ → ℕ
  pub compress_default : RawBuffer → ℕ → Option RawBuffer
  pub decompress_safe : RawBuffer → ℕ → Option RawBuffer

-- `LZ4_MAX_INPUT_SIZE`
abbrev pub max_input_size : ℕ
max_input_size = 0x7e000000

-- What lz4.h documents: within the largest input size, compression into a buffer of `compress_bound`
-- bytes succeeds, the bound is n + n / 255 + 16, and decompression gives the input back.
pub record Lz4Documented (lz4 : Lz4Library) : Type 0 where
  pub bound_lt : (n : ℕ) → n ≤ max_input_size → lz4.compress_bound n + 4 < 2 ^ 31
  pub succeeds :
      (bytes : RawBuffer)
      → length bytes ≤ max_input_size
      → (packed : RawBuffer) × (lz4.compress_default bytes (lz4.compress_bound (length bytes))
          ≡ some packed)
        × (length packed ≤ lz4.compress_bound (length bytes))
        × (lz4.decompress_safe packed (length bytes) ≡ some bytes)

append_packed : RawBuffer → RawBuffer → Option RawBuffer → Result RawBuffer
append_packed bytes buffer none = throws error
append_packed bytes buffer (some packed) = ok (buffer ++ (write_int_be 4 (length bytes) ++ packed))

unfoldable pub check_unpacked : ℕ → Option RawBuffer → Result RawBuffer
check_unpacked size none = throws error
check_unpacked size (some bytes) = if length bytes == size then ok bytes else throws error

module _ (lz4 : Lz4Library) where
  -- `Lz4Compressor::Compress`
  pub lz4_compress : RawBuffer → RawBuffer → Result RawBuffer
  unfolding append_packed
  lz4_compress bytes buffer =
      append_packed bytes buffer (lz4.compress_default bytes (lz4.compress_bound (length bytes)))

  -- `Lz4Compressor::Decompress`
  unfoldable pub lz4_decompress : RawBuffer → Result RawBuffer
  unfolding check_unpacked
  lz4_decompress bytes = do
    (size, packed) ← read_int_be 4 bytes
    reserve size
    check_unpacked size (lz4.decompress_safe packed size)

  abbrev pub lz4_compressor : Compressor
  lz4_compressor = record { compress = lz4_compress; decompress = lz4_decompress }
