-- ===== src/Protocol/Frame/Layout.antt =====
-- The bytes of the header of include/cassandra/io/protocol/frame.hpp.
use cassandra_driver.Base.{ℕ, ◌^◌, ◌<◌, ◌≡◌, refl, [], ◌++◌, append_assoc, length, arith}
use cassandra_driver.Base.Result.{ok}
use cassandra_driver.Io.{RawBuffer, be_bytes}
use cassandra_driver.Io.Integers.{read_int_be-be_bytes}
use cassandra_driver.Protocol.Frame.{
  Opcode, opcode_value, opcode_of, FrameHeader, header_size, serialize_header, overwrite,
  update_length, parse_header,
}

-- A listed opcode, or a byte that no listed opcode has.
abbrev pub IsOpcode : Opcode → Type 0
IsOpcode (Opcode.unlisted n) = (0x10 < n) × (n < 256)
IsOpcode o = Unit {0}

opcode_of-opcode_value : (o : Opcode) → IsOpcode o → opcode_of (opcode_value o) ≡ o
unfolding opcode_of opcode_value
opcode_of-opcode_value Opcode.error h = refl
opcode_of-opcode_value (Opcode.unlisted n) h = ground arith
opcode_of-opcode_value _ h = refl

opcode_value-lt : (o : Opcode) → IsOpcode o → opcode_value o < 256
unfolding opcode_value
opcode_value-lt (Opcode.unlisted n) h = h.1
opcode_value-lt _ h = omega arith

pub record IsHeader (h : FrameHeader) : Type 0 where
  pub version_lt : h.version < 2 ^ 8
  pub flags_lt : h.flags < 2 ^ 8
  pub stream_lt : h.stream < 2 ^ 16
  pub opcode_known : IsOpcode h.opcode
  pub length_lt : h.length < 2 ^ 32

-- A header whose fields fit their widths is read back field by field, and the reader stops behind its
-- nine bytes.
pub parse_header-serialize_header :
    (h : FrameHeader)
    → IsHeader h
    → (rest : RawBuffer) → parse_header (serialize_header h [] ++ rest) ≡ ok (h, rest)
unfolding parse_header serialize_header
parse_header-serialize_header h valid rest = simp (
  append_assoc,
  read_int_be-be_bytes 1 h.version valid.version_lt,
  read_int_be-be_bytes 1 h.flags valid.flags_lt,
  read_int_be-be_bytes 2 h.stream valid.stream_lt,
  read_int_be-be_bytes 1 (opcode_value h.opcode) (opcode_value-lt h.opcode valid.opcode_known),
  read_int_be-be_bytes 4 h.length valid.length_lt,
  opcode_of-opcode_value h.opcode valid.opcode_known,
)

pub length-serialize_header : (h : FrameHeader) → length (serialize_header h []) ≡ header_size
unfolding serialize_header be_bytes
length-serialize_header h = refl

-- Writing the length of a header's frame in place is serializing the header with that length.
pub update_length-serialize_header :
    (h : FrameHeader) (body : RawBuffer) (n : ℕ)
    → update_length (serialize_header h [] ++ body) n
      ≡ serialize_header (record h { length = n }) [] ++ body
unfolding update_length serialize_header be_bytes overwrite
update_length-serialize_header h body n = refl
