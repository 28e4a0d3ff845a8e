-- ===== src/Io/Containers/Codecs.antt =====
-- The codecs of `detail::IO`: for integers and texts, and for a sequence over any element's codec.
use cassandra_driver.Base.{
  ℕ, ◌^◌, ◌<◌, ◌≡◌, refl, List, [], ◌∷◌, ◌++◌, append_assoc, arith, length, All,
}
use cassandra_driver.Base.Result.{ok}
use cassandra_driver.Io.{RawBuffer, read_int_be, write_int_be, to_size, is_negative}
use cassandra_driver.Io.Integers.{read_int_be-be_bytes}
use cassandra_driver.Io.Strings.{string_parser, string_formatter, bytes_parser, bytes_formatter}
use cassandra_driver.Io.Strings.RoundTrip.{
  FitsPrefix, string_parser-string_formatter, bytes_parser-bytes_formatter,
}
use cassandra_driver.Io.Containers.{
  Codec, read_elements, write_elements, list_parser, list_formatter,
}
use native.Mathlib.Nat.{mod-eq_of_lt}

abbrev pub int_codec : ℕ → Codec ℕ
int_codec width = record {
  read = read_int_be width;
  write = write_int_be width;
  Fits = λ n. n < 256 ^ width;
  read-write = read_int_be-be_bytes width;
}

abbrev pub string_codec : ℕ → Codec RawBuffer
string_codec width = record {
  read = string_parser width;
  write = string_formatter width;
  Fits = FitsPrefix width;
  read-write = string_parser-string_formatter width;
}

abbrev pub bytes_codec : ℕ → Codec RawBuffer
bytes_codec width = record {
  read = bytes_parser width;
  write = bytes_formatter width;
  Fits = FitsPrefix width;
  read-write = bytes_parser-bytes_formatter width;
}

pub to_size_small : (n : ℕ) → n < 2 ^ 31 → to_size n ≡ n
unfolding to_size is_negative
to_size_small n h = ground arith

module _ {ℓ} {A : Type ℓ} (c : Codec A) where
  pub read_elements-write_elements :
      (xs : List A)
      → All c.Fits xs
      → (rest : RawBuffer)
      → read_elements c.read (length xs) (write_elements c.write xs ++ rest) ≡ ok (xs, rest)
  unfolding read_elements write_elements
  read_elements-write_elements [] fits rest = refl
  read_elements-write_elements (x ∷ xs) fits rest =
      rw (append_assoc, c.read-write x fits.0, read_elements-write_elements xs fits.1)

  -- The sequences that a count of `width` bytes can announce.
  pub record FitsList (width : ℕ) (xs : List A) : Type ℓ where
    pub in_width : length xs < 256 ^ width
    pub in_int : length xs < 2 ^ 31
    pub elements : All c.Fits xs

  -- A list whose length fits its prefix and an Int, and whose elements fit, is read back, and the reader
  -- stops behind it.
  pub list_parser-list_formatter :
      (width : ℕ) (xs : List A)
      → FitsList width xs
      → (rest : RawBuffer)
      → list_parser width c.read (list_formatter width c.write xs ++ rest) ≡ ok (xs, rest)
  unfolding list_parser list_formatter
  list_parser-list_formatter width xs fits rest =
      rw
        (
          mod-eq_of_lt fits.in_width,
          append_assoc,
          read_int_be-be_bytes width (length xs) fits.in_width,
          to_size_small (length xs) fits.in_int,
        )
        (read_elements-write_elements xs fits.elements rest)

-- So a sequence of sequences has a codec in its turn.
abbrev pub list_codec {ℓ} : {A : Type ℓ} → ℕ → Codec A → Codec (List A)
list_codec width c = record {
  read = list_parser width c.read;
  write = list_formatter width c.write;
  Fits = FitsList c width;
  read-write = list_parser-list_formatter c width;
}
