-- ===== src/Protocol/Frame.antt =====
-- The frame header: include/cassandra/io/protocol/frame.hpp and src/io/protocol/frame.cpp.
pub mod Layout
use cassandra_driver.Base.{
  ℕ, ◌+◌, ◌≡◌, refl, List, [], ◌∷◌, ◌++◌, ◌==◌, if◌then◌else◌, length, take, drop,
}
use cassandra_driver.Base.Result.{ok}
use cassandra_driver.Io.{RawBuffer, Reader, ◌>>=◌, ◌>>◌, pure, read_int_be, write_int_be}

pub data Opcode : Type 0 where
  error startup ready authenticate credentials options supported query result prepare execute
        register event batch auth_challenge auth_response auth_success :
      Opcode
  -- a byte that the enumeration does not list, kept by `static_cast<Opcode>`
  unlisted : ℕ → Opcode

pub opcode_value : Opcode → ℕ
opcode_value Opcode.error = 0x00
opcode_value Opcode.startup = 0x01
opcode_value Opcode.ready = 0x02
opcode_value Opcode.authenticate = 0x03
opcode_value Opcode.credentials = 0x04
opcode_value Opcode.options = 0x05
opcode_value Opcode.supported = 0x06
opcode_value Opcode.query = 0x07
opcode_value Opcode.result = 0x08
opcode_value Opcode.prepare = 0x09
opcode_value Opcode.execute = 0x0a
opcode_value Opcode.register = 0x0b
opcode_value Opcode.event = 0x0c
opcode_value Opcode.batch = 0x0d
opcode_value Opcode.auth_challenge = 0x0e
opcode_value Opcode.auth_response = 0x0f
opcode_value Opcode.auth_success = 0x10
opcode_value (Opcode.unlisted n) = n

abbrev listed_opcodes : List Opcode
listed_opcodes =
    Opcode.error ∷ Opcode.startup ∷ Opcode.ready ∷ Opcode.authenticate ∷ Opcode.credentials
    ∷ Opcode.options ∷ Opcode.supported ∷ Opcode.query ∷ Opcode.result ∷ Opcode.prepare
    ∷ Opcode.execute ∷ Opcode.register ∷ Opcode.event ∷ Opcode.batch ∷ Opcode.auth_challenge
    ∷ Opcode.auth_response ∷ Opcode.auth_success ∷ []

find_opcode : ℕ → List Opcode → Opcode
unfolding opcode_value
find_opcode n [] = Opcode.unlisted n
find_opcode n (o ∷ os) = let rest = find_opcode n os in if opcode_value o == n then o else rest

-- `static_cast<Opcode>(byte)`
pub opcode_of : ℕ → Opcode
unfolding find_opcode
opcode_of n = find_opcode n listed_opcodes

-- `MessageDirection`
abbrev pub request_version : ℕ
request_version = 0x04

abbrev pub response_version : ℕ
response_version = 0x84

-- `stream` is an int16_t and `length` an int32_t, both as bit patterns.
pub record FrameHeader : Type 0 where
  pub version : ℕ
  pub flags : ℕ
  pub stream : ℕ
  pub opcode : Opcode
  pub length : ℕ

abbrev pub header_size : ℕ
header_size = 9

-- `FrameHeader::Serialize`
pub serialize_header : FrameHeader → RawBuffer → RawBuffer
serialize_header h buffer =
    buffer
    ++ (write_int_be 1 h.version
        ++ (write_int_be 1 h.flags
            ++ (write_int_be 2 h.stream
                ++ (write_int_be 1 (opcode_value h.opcode) ++ write_int_be 4 h.length))))

-- A copy of `bytes` over the buffer, from `position` on.
pub overwrite : ℕ → RawBuffer → RawBuffer → RawBuffer
overwrite position bytes buffer =
    take position buffer ++ (bytes ++ drop (position + length bytes) buffer)

-- `FrameHeader::UpdateLength`, on a buffer of at least nine bytes.
pub update_length : RawBuffer → ℕ → RawBuffer
unfolding overwrite
update_length buffer body_length = overwrite 5 (write_int_be 4 body_length) buffer

-- `FrameHeader::Parse`
unfoldable pub parse_header : Reader FrameHeader
parse_header = do
  version ← read_int_be 1
  flags ← read_int_be 1
  stream ← read_int_be 2
  opcode ← read_int_be 1
  length ← read_int_be 4
  pure (record {
    version = version;
    flags = flags;
    stream = stream;
    opcode = opcode_of opcode;
    length = length;
  })
