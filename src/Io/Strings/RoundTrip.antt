-- ===== src/Io/Strings/RoundTrip.antt =====
-- Texts and byte strings of include/cassandra/io/string_types.hpp and list_types.hpp, whole and cut
-- short.
use cassandra_driver.Base.{
  ℕ, ◌∷◌, ◌^◌, ◌<◌, ◌≤◌, ◌≡◌, refl, [], ◌++◌, append_assoc, arith, if◌then◌else◌, true, length,
  length-append, take-append, drop-append, take_all,
}
use cassandra_driver.Base.Result.{ok, fault}
use cassandra_driver.Io.{RawBuffer, pure, be_bytes, is_negative, is_positive}
use cassandra_driver.Io.Integers.{read_int_be-be_bytes, leb-le}
use native.Mathlib.Nat.{mod-eq_of_lt}
use cassandra_driver.Io.Strings.{
  reserve, copy_out, string_parser, string_formatter, bytes_parser, bytes_formatter,
}

-- The lengths that a prefix of `width` bytes can say, and an Int can hold.
pub record FitsPrefix (width : ℕ) (value : RawBuffer) : Type 0 where
  pub in_width : length value < 256 ^ width
  pub in_int : length value < 2 ^ 31

-- A prefix of known length is within bounds.
copy_out-append : (xs rest : RawBuffer) → copy_out (length xs) (xs ++ rest) ≡ ok (xs, rest)
unfolding copy_out
copy_out-append xs rest = rw (
  take-append xs rest,
  drop-append xs rest,
  leb-le (length xs) (length (xs ++ rest)) (omega (arith, length-append xs rest)),
)

pub reserve_small : (size : ℕ) → size < 2 ^ 31 → reserve size ≡ ok tt
unfolding reserve is_negative
reserve_small size h = ground arith

-- The bytes of a text that fits: its length, then itself.
string_formatter-fits :
    (width : ℕ) (value : RawBuffer)
    → FitsPrefix width value
    → string_formatter width value ≡ be_bytes width (length value) ++ value
unfolding string_formatter
string_formatter-fits width value fits = rw (mod-eq_of_lt fits.in_width, take_all value)

bytes_formatter-fits :
    (width : ℕ) (value : RawBuffer)
    → FitsPrefix width value
    → bytes_formatter width value ≡ be_bytes width (length value) ++ value
unfolding bytes_formatter is_positive
bytes_formatter-fits width [] fits = rw (mod-eq_of_lt fits.in_width)
bytes_formatter-fits width (x ∷ xs) fits =
    rw (mod-eq_of_lt fits.in_width, take_all (x ∷ xs), positive_lem) refl
  where
    positive_lem : is_positive (length (x ∷ xs)) ≡ true
    positive_lem = ground (arith, fits.in_int)

-- A text whose length fits its prefix and an Int is read back, and the reader stops behind it.
pub string_parser-string_formatter :
    (width : ℕ) (value : RawBuffer)
    → FitsPrefix width value
    → (rest : RawBuffer)
    → string_parser width (string_formatter width value ++ rest) ≡ ok (value, rest)
unfolding string_parser
string_parser-string_formatter width value fits rest =
    rw
      (
        string_formatter-fits width value fits,
        append_assoc,
        read_int_be-be_bytes width (length value) fits.in_width,
        reserve_small (length value) fits.in_int,
      )
      (copy_out-append value rest)

bytes_body :
    (value rest : RawBuffer)
    → length value < 2 ^ 31
    → (if is_positive (length value) then copy_out (length value) else pure []) (value ++ rest)
      ≡ ok (value, rest)
unfolding is_positive
bytes_body [] rest h = refl
bytes_body (x ∷ xs) rest h = ground (arith, copy_out-append (x ∷ xs) rest)

-- So is a byte string, also the empty one.
pub bytes_parser-bytes_formatter :
    (width : ℕ) (value : RawBuffer)
    → FitsPrefix width value
    → (rest : RawBuffer)
    → bytes_parser width (bytes_formatter width value ++ rest) ≡ ok (value, rest)
unfolding bytes_parser
bytes_parser-bytes_formatter width value fits rest =
    rw
      (
        bytes_formatter-fits width value fits,
        append_assoc,
        read_int_be-be_bytes width (length value) fits.in_width,
      )
      (bytes_body value rest fits.in_int)

copy_out_overread : (size : ℕ) (body : RawBuffer) → length body < size → copy_out size body ≡ fault
unfolding copy_out
copy_out_overread size body short = ground arith

-- A text whose prefix announces more bytes than the buffer has is copied past the end of the buffer:
-- no check stands between the prefix and the copy.
pub string_parser_overread :
    (width size : ℕ) (body : RawBuffer)
    → size < 256 ^ width
    → size < 2 ^ 31
    → length body < size
    → string_parser width (be_bytes width size ++ body) ≡ fault
unfolding string_parser
string_parser_overread width size body h small short =
    rw (read_int_be-be_bytes width size h, reserve_small size small)
      (copy_out_overread size body short)

-- A [bytes] with a negative length, which the protocol reads as null, is read as the empty one.
pub bytes_parser_null :
    (len : ℕ) (rest : RawBuffer)
    → 2 ^ 31 ≤ len
    → len < 2 ^ 32
    → bytes_parser 4 (be_bytes 4 len ++ rest) ≡ bytes_parser 4 (bytes_formatter 4 [] ++ rest)
bytes_parser_null len rest h small =
    rw (bytes_parser-bytes_formatter 4 [] (record { in_width = omega arith; in_int = omega arith }))
      (unfold bytes_parser is_positive in rw (read_int_be-be_bytes 4 len small) (ground arith))
