-- ===== src/Protocol/Requests/Framing.antt =====
-- The frame of a request: a header that tells the body's length, then the body.
use cassandra_driver.Base.{
  ℕ, ◌+◌, ◌-◌, ◌%◌, ◌<◌, ◌^◌, ◌≡◌, refl, true, [], ◌∷◌, ◌++◌, append_assoc, ◌≤◌, none, some, length,
  length-append, arith,
}
use cassandra_driver.Base.Result.{ok}
use cassandra_driver.Io.{RawBuffer, is_positive}
use cassandra_driver.Protocol.Frame.{
  FrameHeader, request_version, header_size, serialize_header, parse_header,
}
use cassandra_driver.Protocol.Frame.Layout.{
  IsOpcode, length-serialize_header, update_length-serialize_header, IsHeader,
  parse_header-serialize_header,
}
use cassandra_driver.Protocol.Lz4.{
  Compressor, Lz4Library, Lz4Documented, max_input_size, lz4_compressor, lz4_decompress,
}
use cassandra_driver.Protocol.Lz4.RoundTrip.{Packs, lz4_compress-Packs}
use cassandra_driver.Protocol.Requests.{
  RequestMessage, RequestBody, options, body_opcode, new_request, set_stream_id, flagged, serialize,
  serialize_body, finish_length, compression_flag,
}

size_behind_header :
    (h : FrameHeader) (body : RawBuffer)
    → length body < 2 ^ 31
    → (length (serialize_header h [] ++ body) + 2 ^ 32 - header_size) % 2 ^ 32 ≡ length body
size_behind_header h body fits =
    omega (arith, length-append (serialize_header h []) body, length-serialize_header h)

positive_size :
    (x : ℕ) (xs : RawBuffer) → length (x ∷ xs) < 2 ^ 31 → is_positive (length (x ∷ xs)) ≡ true
unfolding is_positive
positive_size x xs h = ground arith

-- What a peer reads off the stream: a header, then as many bytes as it announces.
abbrev pub frame : FrameHeader → RawBuffer → RawBuffer
frame h body = serialize_header (record h { length = length body }) [] ++ body

-- The length is written over the header's field; an empty body leaves the 0 that stands there.
finish_length-frame :
    (h : FrameHeader) (body : RawBuffer)
    → h.length ≡ 0
    → length body < 2 ^ 31
    → finish_length (serialize_header h [] ++ body) ≡ frame h body
unfolding finish_length
finish_length-frame h [] z fits =
    rw (size_behind_header h [] fits)
      (unfold is_positive in λ i. serialize_header (record h { length = z i }) [] ++ [])
finish_length-frame h (x ∷ xs) z fits =
    rw (size_behind_header h (x ∷ xs) fits, positive_size x xs fits)
      (update_length-serialize_header h (x ∷ xs) (length (x ∷ xs)))

-- Without a compressor, a request's bytes are the frame of its body.
serialize-frame :
    (m : RequestMessage)
    → m.header.length ≡ 0
    → length (serialize_body m.body) < 2 ^ 31
    → serialize none m [] ≡ ok (frame m.header (serialize_body m.body))
unfolding serialize
serialize-frame m z fits = rw (finish_length-frame m.header (serialize_body m.body) z fits)

-- With one, they are the frame of the packed body, and the header has the compression flag.
serialize-frame_packed :
    (c : Compressor) (m : RequestMessage) (packed : RawBuffer)
    → m.header.length ≡ 0
    → Packs c (serialize_body m.body) (serialize_header (flagged m.header) []) packed
    → serialize (some c) m [] ≡ ok (frame (flagged m.header) packed)
unfolding serialize
serialize-frame_packed c m packed z packs =
    rw (packs.packs, finish_length-frame (flagged m.header) packed z packs.in_frame)

-- The header of a request with this body, on this stream.
abbrev pub request_header : RequestBody → ℕ → ℕ → ℕ → FrameHeader
request_header body flags id n = record {
  version = request_version;
  flags = flags;
  stream = id;
  opcode = body_opcode body;
  length = n;
}

body_opcode-IsOpcode : (body : RequestBody) → IsOpcode (body_opcode body)
unfolding body_opcode
body_opcode-IsOpcode options = tt
body_opcode-IsOpcode _ = tt

-- A peer that parses `bytes` finds the header, and behind it a body of the length that it tells.
abbrev pub FramesAs : RawBuffer → FrameHeader → RawBuffer → Type 0
FramesAs bytes h body =
    (h.length ≡ length body)
    × ((rest : RawBuffer) → parse_header (bytes ++ rest) ≡ ok (h, body ++ rest))

frame-FramesAs :
    (h : FrameHeader) (body : RawBuffer)
    → IsHeader (record h { length = length body })
    → FramesAs (frame h body) (record h { length = length body }) body
frame-FramesAs h body valid = (
  refl,
  λ rest.
      rw append_assoc
        (parse_header-serialize_header (record h { length = length body }) valid (body ++ rest)),
)

-- A request on a stream, with a 16-bit id and a body below 2 GiB, becomes a frame that a peer can cut
-- off the connection: version 4, no flags, the request's opcode and stream, the body's length, and
-- then exactly the body.
pub serialize-FramesAs :
    (body : RequestBody) (id : ℕ)
    → id < 2 ^ 16
    → length (serialize_body body) < 2 ^ 31
    → let bytes = serialize_body body in
      (serialize none (set_stream_id id (new_request body)) []
        ≡ ok (frame (request_header body 0 id 0) bytes))
      × FramesAs
          (frame (request_header body 0 id 0) bytes)
          (request_header body 0 id (length bytes))
          bytes
unfolding set_stream_id new_request
serialize-FramesAs body id small fits = (
  serialize-frame (set_stream_id id (new_request body)) refl fits,
  frame-FramesAs (request_header body 0 id 0) (serialize_body body) (record {
    version_lt = omega arith;
    flags_lt = omega arith;
    stream_lt = small;
    opcode_known = body_opcode-IsOpcode body;
    length_lt = omega arith;
  }),
)

-- With an LZ4 that does what it documents, and a body within LZ4's input limit, the frame of a request
-- on a 16-bit stream has the compression flag and the length of its packed body, and that body
-- decompresses to the request's.
pub serialize-FramesAs_lz4 :
    (lz4 : Lz4Library)
    → Lz4Documented lz4
    → (body : RequestBody) (id : ℕ) → id < 2 ^ 16
    → length (serialize_body body) ≤ max_input_size
    → (packed : RawBuffer) × (serialize
          (some (lz4_compressor lz4))
          (set_stream_id id (new_request body))
          []
        ≡ ok (frame (request_header body compression_flag id 0) packed))
      × FramesAs
          (frame (request_header body compression_flag id 0) packed)
          (request_header body compression_flag id (length packed))
          packed
      × (lz4_decompress lz4 packed ≡ ok (serialize_body body))
unfolding set_stream_id new_request
serialize-FramesAs_lz4 lz4 documented body id small fits =
    let m = set_stream_id id (new_request body) in
    let (packed, packs) =
      lz4_compress-Packs lz4 documented (serialize_body body)
        (serialize_header (flagged m.header) []) fits in
    (
      packed,
      serialize-frame_packed (lz4_compressor lz4) m packed refl packs,
      frame-FramesAs (request_header body compression_flag id 0) packed (record {
        version_lt = omega arith;
        flags_lt = omega arith;
        stream_lt = small;
        opcode_known = body_opcode-IsOpcode body;
        length_lt = omega (arith, packs.in_frame);
      }),
      packs.unpacks,
    )
