-- ===== src/Io/Shortens.antt =====
-- A postcondition of readers: the call ends, and what it leaves is at least `k` bytes shorter than `n`.
use cassandra_driver.Base.{
  ℕ, ◌+◌, ◌≤◌, [], ◌≢◌, Bool-cases, inl, inr, leb, arith, length, length-drop, if◌then◌else◌, Bool,
  true, false,
}
use cassandra_driver.Base.Result.{Result, ok, throws, fault, stuck, Exception, ensure, in_bounds}
use cassandra_driver.Base.Result
use cassandra_driver.Io.{RawBuffer, Reader, pure, lift, read_int_be, is_negative, is_positive}
use cassandra_driver.Io.Strings.{copy_out, string_parser, bytes_parser, reserve}

pub data Shortens {ℓ} {A : Type ℓ} (k n : ℕ) : Result (A × RawBuffer) → Type ℓ where
  done : {a : A} {rest : RawBuffer} → length rest + k ≤ n → Shortens k n (ok (a, rest))
  thrown : {e : Exception} → Shortens k n (throws e)
  faulty : Shortens k n fault

module _ {ℓ} {A : Type ℓ} {k n : ℕ} where
  pub Shortens-ne-stuck : {r : Result (A × RawBuffer)} → Shortens k n r → r ≢ stuck
  Shortens-ne-stuck (done h) = λ e. cc
  Shortens-ne-stuck thrown = λ e. cc
  Shortens-ne-stuck faulty = λ e. cc

  pub Shortens-weaken :
      {r : Result (A × RawBuffer)} (j m : ℕ) → n + j ≤ m + k → Shortens k n r → Shortens j m r
  Shortens-weaken j m h (done le) = done (omega arith)
  Shortens-weaken j m h thrown = thrown
  Shortens-weaken j m h faulty = faulty

  pub Shortens-bind {κ} :
      {B : Type κ} (j : ℕ) (m : Result (A × RawBuffer)) (f : A → Reader B)
      → Shortens k n m
      → ((a : A) (rest : RawBuffer) → length rest + k ≤ n → Shortens j n (f a rest))
      → Shortens j n (Result.◌>>=◌ m λ (a, rest). f a rest)
  Shortens-bind j m f (done {a} {rest} h) g = g a rest h
  Shortens-bind j m f thrown g = thrown
  Shortens-bind j m f faulty g = faulty

pub read_int_be-Shortens :
    (width : ℕ) (bs : RawBuffer) → Shortens width (length bs) (read_int_be width bs)
unfolding read_int_be
read_int_be-Shortens width bs = elim (Bool-cases (leb width (length bs))) [
  | inl e ↦ rw e (done (ground (arith, length-drop width bs)))
  | inr e ↦ rw e thrown
]

pub copy_out-Shortens : (size : ℕ) (bs : RawBuffer) → Shortens size (length bs) (copy_out size bs)
unfolding copy_out
copy_out-Shortens size bs = elim (Bool-cases (leb size (length bs))) [
  | inl e ↦ rw e (done (ground (arith, length-drop size bs)))
  | inr e ↦ rw e faulty
]

pub lift-reserve-Shortens :
    (size : ℕ) (bs : RawBuffer) → Shortens 0 (length bs) (lift (reserve size) bs)
unfolding reserve
lift-reserve-Shortens size bs = elim (Bool-cases (is_negative size)) [
  | inl e ↦ rw e thrown
  | inr e ↦ rw e (done (omega arith))
]

pub string_parser-Shortens :
    (width : ℕ) (bs : RawBuffer) → Shortens width (length bs) (string_parser width bs)
unfolding string_parser
string_parser-Shortens width bs =
    Shortens-bind width (read_int_be width bs) _ (read_int_be-Shortens width bs) λ size rest h.
      Shortens-bind width (lift (reserve size) rest) _
        (Shortens-weaken width (length bs) (omega arith) (lift-reserve-Shortens size rest))
        λ _ rest' h'. Shortens-weaken width (length bs) (omega arith) (copy_out-Shortens size rest')

empty_or_copy-Shortens :
    (positive : Bool) (len : ℕ) (bs : RawBuffer)
    → Shortens 0 (length bs) ((if positive then copy_out len else pure []) bs)
empty_or_copy-Shortens true len bs =
    Shortens-weaken 0 (length bs) (omega arith) (copy_out-Shortens len bs)
empty_or_copy-Shortens false len bs = done (omega arith)

pub bytes_parser-Shortens :
    (width : ℕ) (bs : RawBuffer) → Shortens width (length bs) (bytes_parser width bs)
unfolding bytes_parser
bytes_parser-Shortens width bs =
    Shortens-bind width (read_int_be width bs) _ (read_int_be-Shortens width bs) λ len rest h.
      Shortens-weaken width (length bs) (omega arith)
        (empty_or_copy-Shortens (is_positive len) len rest)
