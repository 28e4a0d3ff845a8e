-- ===== src/Io/Integers.antt =====
-- The integers of include/cassandra/io/integral_types.hpp, written and read.
use cassandra_driver.Base.{
  ℕ, zero, suc, ◌+◌, ◌*◌, ◌/◌, ◌%◌, ◌^◌, ◌≤◌, ◌<◌, ◌≡◌, refl, ◌∙◌, [], ◌∷◌, ◌++◌, arith, leb,
  length, length-append, take-append, drop-append, true,
}
use cassandra_driver.Base.Result.{ok, throws, runtime_error}
use cassandra_driver.Io.{RawBuffer, be_bytes, be_value, read_int_be, ensure_size}
use native.Mathlib.Nat.{pow-suc}

pub length-be_bytes : (width value : ℕ) → length (be_bytes width value) ≡ width
unfolding be_bytes
length-be_bytes zero value = refl
length-be_bytes (suc width) value = omega (
  arith,
  length-append (be_bytes width (value / 256)) (value % 256 ∷ []),
  length-be_bytes width (value / 256),
)

be_value-append :
    (acc : ℕ) (xs ys : RawBuffer) → be_value acc (xs ++ ys) ≡ be_value (be_value acc xs) ys
unfolding be_value
be_value-append acc [] ys = refl
be_value-append acc (x ∷ xs) ys = be_value-append (acc * 256 + x) xs ys

be_value-be_bytes :
    (width value : ℕ) → value < 256 ^ width → be_value 0 (be_bytes width value) ≡ value
unfolding be_bytes be_value
be_value-be_bytes zero value h = omega arith
be_value-be_bytes (suc width) value h =
    be_value-append 0 (be_bytes width (value / 256)) (value % 256 ∷ [])
    ∙ omega (arith, be_value-be_bytes width (value / 256) (omega (arith, pow-suc 256 width)))

pub leb-le : (a b : ℕ) → a ≤ b → leb a b ≡ true
leb-le a b h = ground arith

-- Any `width` bytes are taken off the front.
read_int_be-append :
    (bs rest : RawBuffer) → read_int_be (length bs) (bs ++ rest) ≡ ok (be_value 0 bs, rest)
unfolding read_int_be
read_int_be-append bs rest = rw (
  take-append bs rest,
  drop-append bs rest,
  leb-le (length bs) (length (bs ++ rest)) (omega (arith, length-append bs rest)),
)

-- An integer that fits its width is read back, and the reader stops behind it.
pub read_int_be-be_bytes :
    (width value : ℕ)
    → value < 256 ^ width
    → (rest : RawBuffer) → read_int_be width (be_bytes width value ++ rest) ≡ ok (value, rest)
read_int_be-be_bytes width value h rest =
    rw (length-be_bytes width value, be_value-be_bytes width value h) at
      (read_int_be-append (be_bytes width value) rest)

-- With fewer bytes than the width the bounds check throws.
pub read_int_be_short :
    (width : ℕ) (bs : RawBuffer) → length bs < width → read_int_be width bs ≡ throws runtime_error
unfolding read_int_be ensure_size
read_int_be_short width bs h = ground arith
