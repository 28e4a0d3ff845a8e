-- ===== src/Protocol/Responses/Errors.antt =====
-- Error responses: `CheckError` of src/detail/connection_impl.cpp, over the codes of
-- include/cassandra/io/protocol/types.hpp and the classes of include/cassandra/exception.hpp.
use cassandra_driver.Base.{ℕ, ◌≡◌, ◌≢◌, refl, List, [], ◌∷◌, ◌==◌, if◌then◌else◌, arith}
use cassandra_driver.Base.Result.{Result, ok, throws, ErrorCode, frame_error}
use cassandra_driver.Io.{RawBuffer}
use cassandra_driver.Protocol.Responses.{ResponseBody, error}

pub code_value : ErrorCode → ℕ
code_value ErrorCode.server_error = 0x0000
code_value ErrorCode.protocol_error = 0x000a
code_value ErrorCode.authentication_error = 0x0100
code_value ErrorCode.unavailable = 0x1000
code_value ErrorCode.overloaded = 0x1001
code_value ErrorCode.is_bootstrapping = 0x1002
code_value ErrorCode.truncate_error = 0x1003
code_value ErrorCode.write_timeout = 0x1100
code_value ErrorCode.read_timeout = 0x1200
code_value ErrorCode.read_failure = 0x1300
code_value ErrorCode.function_failure = 0x1400
code_value ErrorCode.write_failure = 0x1500
code_value ErrorCode.syntax_error = 0x2000
code_value ErrorCode.unauthorized = 0x2100
code_value ErrorCode.invalid = 0x2200
code_value ErrorCode.config_error = 0x2300
code_value ErrorCode.already_exists = 0x2400
code_value ErrorCode.unprepared = 0x2500

-- The cases of the switch, in its order.
abbrev cases : List ErrorCode
cases =
    ErrorCode.server_error ∷ ErrorCode.protocol_error ∷ ErrorCode.authentication_error
    ∷ ErrorCode.unavailable ∷ ErrorCode.overloaded ∷ ErrorCode.is_bootstrapping
    ∷ ErrorCode.truncate_error ∷ ErrorCode.write_timeout ∷ ErrorCode.read_timeout
    ∷ ErrorCode.read_failure ∷ ErrorCode.function_failure ∷ ErrorCode.write_failure
    ∷ ErrorCode.syntax_error ∷ ErrorCode.unauthorized ∷ ErrorCode.invalid ∷ ErrorCode.config_error
    ∷ ErrorCode.already_exists ∷ ErrorCode.unprepared ∷ []

throw_case : ℕ → RawBuffer → List ErrorCode → Result (Unit {0})
unfolding code_value
throw_case code message [] = ok tt
throw_case code message (c ∷ cs) =
    let rest = throw_case code message cs in
    if code_value c == code then throws (frame_error c message) else rest

-- `CheckError`: the switch has no default, so a code that it does not list throws nothing.
unfoldable pub check_error : ResponseBody → Result (Unit {0})
unfolding throw_case
check_error (error code message) = throw_case code message cases
check_error _ = ok tt

-- An error response with a code of `ErrorCode` throws the exception class of that code, with the
-- server's message.
pub check_error_listed :
    (c : ErrorCode) (message : RawBuffer)
    → check_error (error (code_value c) message) ≡ throws (frame_error c message)
unfolding check_error
check_error_listed ErrorCode.server_error message = refl
check_error_listed _ message = refl

throw_case_unlisted :
    (code : ℕ) (message : RawBuffer) (cs : List ErrorCode)
    → ((c : ErrorCode) → code_value c ≢ code)
    → throw_case code message cs ≡ ok tt
unfolding throw_case
throw_case_unlisted code message [] other = refl
throw_case_unlisted code message (c ∷ cs) other =
    rw (throw_case_unlisted code message cs other) (ground (arith, other c))

-- An error response whose code is none of `ErrorCode` passes as if it were no error.
check_error_unlisted :
    (code : ℕ) (message : RawBuffer)
    → ((c : ErrorCode) → code_value c ≢ code)
    → check_error (error code message) ≡ ok tt
unfolding check_error
check_error_unlisted code message other = throw_case_unlisted code message cases other
