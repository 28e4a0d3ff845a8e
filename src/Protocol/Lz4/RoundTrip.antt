-- ===== src/Protocol/Lz4/RoundTrip.antt =====
-- What a compressor (src/io/protocol/lz4_utils.cpp) owes its users.
use cassandra_driver.Base.{◌≤◌, ◌<◌, ◌^◌, ◌≡◌, ◌++◌, length, length-append, some, arith}
use cassandra_driver.Base.Result.{ok}
use cassandra_driver.Io.{RawBuffer, write_int_be, be_bytes}
use cassandra_driver.Io.Integers.{read_int_be-be_bytes, length-be_bytes}
use cassandra_driver.Io.Strings.RoundTrip.{reserve_small}
use cassandra_driver.Protocol.Lz4.{
  Compressor, Lz4Library, Lz4Documented, max_input_size, lz4_compress, lz4_decompress,
  check_unpacked, lz4_compressor,
}

-- What a compressor makes of a body: some bytes behind the buffer, few enough for a frame, that
-- decompress to the body.
pub record Packs (c : Compressor) (body buffer packed : RawBuffer) : Type 0 where
  pub packs : c.compress body buffer ≡ ok (buffer ++ packed)
  pub unpacks : c.decompress packed ≡ ok body
  pub some_bytes : 0 < length packed
  pub in_frame : length packed < 2 ^ 31

same_size : (body : RawBuffer) → check_unpacked (length body) (some body) ≡ ok body
unfolding check_unpacked
same_size body = ground arith

module _ (lz4 : Lz4Library) (documented : Lz4Documented lz4) where
  -- With an LZ4 that does what it documents, compressing a body within LZ4's input limit appends some
  -- bytes, fewer than 2 GiB, and decompressing these gives the body.
  pub lz4_compress-Packs :
      (body buffer : RawBuffer)
      → length body ≤ max_input_size
      → (packed : RawBuffer) × Packs (lz4_compressor lz4) body buffer packed
  unfolding lz4_compress lz4_decompress
  lz4_compress-Packs body buffer h =
      let (packed, compressed, small, back) = documented.succeeds body h in
      (
        write_int_be 4 (length body) ++ packed,
        record {
          packs = rw (compressed);
          unpacks = rw (
            read_int_be-be_bytes 4 (length body) (omega arith) packed,
            reserve_small (length body) (omega arith),
            back,
            same_size body,
          );
          some_bytes = omega (
            arith,
            length-append (be_bytes 4 (length body)) packed,
            length-be_bytes 4 (length body),
          );
          in_frame = omega (
            arith,
            documented.bound_lt (length body) h,
            length-append (be_bytes 4 (length body)) packed,
            length-be_bytes 4 (length body),
          );
        },
      )
