-- ===== src/Examples/FrameExamples.antt =====
-- Requests, frames and compression on a concrete statement.
use cassandra_driver.Base.{
  ℕ, ◌+◌, ◌≡◌, refl, [], ◌∷◌, ◌++◌, Option, none, some, length, codes, arith,
}
use cassandra_driver.Base.Result.{ok}
use cassandra_driver.Io.{RawBuffer, be_bytes, is_positive}
use cassandra_driver.Io.Strings.{string_formatter, bytes_formatter}
use cassandra_driver.Io.Containers.{list_formatter, write_elements}
use cassandra_driver.Protocol.Lz4.{Lz4Library, Lz4Documented, lz4_compressor, lz4_decompress}
use cassandra_driver.Protocol.Requests.{
  Consistency, RequestBody, query, new_request, set_stream_id, serialize_body, body_opcode,
  serialize, write_query_parameters, consistency_value, compression_flag,
}
use cassandra_driver.Protocol.Requests.Bodies.{decode_body, decode_body-serialize_body}
use cassandra_driver.Protocol.Requests.Framing.{
  frame, request_header, FramesAs, serialize-FramesAs, serialize-FramesAs_lz4,
}

abbrev insert : RequestBody
insert = query Consistency.quorum (codes "INSERT") ((1 ∷ 2 ∷ []) ∷ [] ∷ [])

insert_read :
    decode_body (body_opcode insert) (serialize_body insert ++ 5 ∷ []) ≡ ok (insert, 5 ∷ [])
insert_read =
    decode_body-serialize_body insert
      (
        record { in_width = omega arith; in_int = omega arith },
        record {
          in_width = omega arith;
          in_int = omega arith;
          elements = (
            record { in_width = omega arith; in_int = omega arith },
            (record { in_width = omega arith; in_int = omega arith }, tt),
          );
        },
      )
      (5 ∷ [])

insert_length : length (serialize_body insert) ≡ 25
unfolding serialize_body write_query_parameters string_formatter bytes_formatter list_formatter
    write_elements be_bytes is_positive consistency_value
insert_length = refl

insert_framed :
    let bytes = serialize_body insert in
    (serialize none (set_stream_id 3 (new_request insert)) []
      ≡ ok (frame (request_header insert 0 3 0) bytes))
    × FramesAs
        (frame (request_header insert 0 3 0) bytes)
        (request_header insert 0 3 (length bytes))
        bytes
insert_framed = serialize-FramesAs insert 3 (omega arith) (omega (arith, insert_length))

-- A compressor that stores: a byte 0, and the input.
abbrev store : RawBuffer → ℕ → Option RawBuffer
store bytes capacity = some (0 ∷ bytes)

abbrev unstore : RawBuffer → ℕ → Option RawBuffer
unstore [] size = none
unstore (b ∷ bytes) size = some bytes

abbrev storing : Lz4Library
storing = record {
  compress_bound = λ n. n + 16;
  compress_default = store;
  decompress_safe = unstore;
}

storing-documented : Lz4Documented storing
storing-documented = record {
  bound_lt = λ n h. omega arith;
  succeeds = λ bytes h. (0 ∷ bytes, refl, omega arith, refl);
}

insert_framed_lz4 :
    (packed : RawBuffer) × (serialize
        (some (lz4_compressor storing))
        (set_stream_id 3 (new_request insert))
        []
      ≡ ok (frame (request_header insert compression_flag 3 0) packed))
    × FramesAs
        (frame (request_header insert compression_flag 3 0) packed)
        (request_header insert compression_flag 3 (length packed))
        packed
    × (lz4_decompress storing packed ≡ ok (serialize_body insert))
insert_framed_lz4 =
    serialize-FramesAs_lz4 storing storing-documented insert 3 (omega arith)
      (omega (arith, insert_length))
