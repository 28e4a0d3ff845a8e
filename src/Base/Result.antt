-- ===== src/Base/Result.antt =====
-- How a call of the program ends, after include/cassandra/exception.hpp and
-- include/cassandra/io/protocol/types.hpp.
use Prim.Native.Nat.{ℕ}
use mathlib.Core.Path.{refl}
use mathlib.Core.Logic.{◌≢◌}
use mathlib.Core.Bool.{Bool, true, false}
use mathlib.Core.List.{List}

-- `io::protocol::ErrorCode`.
pub data ErrorCode : Type 0 where
  server_error protocol_error authentication_error unavailable overloaded is_bootstrapping
        truncate_error write_timeout read_timeout read_failure function_failure write_failure
        syntax_error unauthorized invalid config_error already_exists unprepared :
      ErrorCode

-- The exception classes. A subclass of FrameError fixes its ErrorCode, so the code names the class;
-- it carries the server's message. The first five are the standard library's and userver's.
pub data Exception : Type 0 where
  runtime_error length_error out_of_range io_exception format_exception : Exception
  error session_error invalid_config connection_error pool_error : Exception
  frame_error : ErrorCode → List ℕ → Exception

-- `fault` is undefined behaviour in the source: a read past a buffer's end, or through a null
-- pointer. `stuck` is no outcome of the source: a recursion of the model ran out of fuel.
pub data Result {ℓ} (A : Type ℓ) : Type ℓ where
  ok : A → Result A
  throws : Exception → Result A
  fault stuck : Result A

-- `if (!test) throw e;`
abbrev pub ensure : Bool → Exception → Result (Unit {0})
ensure true e = ok tt
ensure false e = throws e

-- A memory access that the language allows only when `test` holds.
abbrev pub in_bounds : Bool → Result (Unit {0})
in_bounds true = ok tt
in_bounds false = fault

infixl 5 ◌>>=◌ ◌>>◌
abbrev pub ◌>>=◌ {ℓ κ} : {A : Type ℓ} {B : Type κ} → Result A → (A → Result B) → Result B
stuck >>= next = stuck
fault >>= next = fault
throws e >>= next = throws e
ok a >>= next = next a

abbrev pub ◌>>◌ {ℓ} : {B : Type ℓ} → Result (Unit {0}) → Result B → Result B
first >> second = first >>= λ done. second

pub bind-ne-stuck {ℓ κ} :
    {A : Type ℓ} {B : Type κ} (m : Result A) (f : A → Result B)
    → m ≢ stuck
    → ((a : A) → f a ≢ stuck)
    → (m >>= f) ≢ stuck
bind-ne-stuck (ok a) f hm hf = hf a
bind-ne-stuck (throws e) f hm hf = λ p. cc
bind-ne-stuck fault f hm hf = λ p. cc
bind-ne-stuck stuck f hm hf = absurd (hm refl)
