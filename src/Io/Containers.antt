-- ===== src/Io/Containers.antt =====
-- Sequences and maps: include/cassandra/io/list_types.hpp and include/cassandra/io/map_types.hpp.
-- `Codec` is the pair of types that `detail::IO<T>` picks for an element type, with the law that a
-- container needs of them.
pub mod Codecs
pub mod Maps
use cassandra_driver.Base.{
  ℕ, zero, suc, ◌+◌, ◌%◌, ◌^◌, List, [], ◌∷◌, ◌++◌, Bool, ◌≡◌, if◌then◌else◌, length,
}
use cassandra_driver.Base.Result.{ok}
use cassandra_driver.Base.Result
use cassandra_driver.Io.{RawBuffer, Reader, ◌>>=◌, ◌>>◌, pure, read_int_be, write_int_be, to_size}

pub record Codec {ℓ} (A : Type ℓ) : Type (ℓ + 1) where
  pub read : Reader A
  pub write : A → RawBuffer
  pub Fits : A → Type ℓ
  pub read-write : (a : A) → Fits a → (rest : RawBuffer) → read (write a ++ rest) ≡ ok (a, rest)

module _ {ℓ} {A : Type ℓ} where
  -- `for (i = 0; i < count; ++i) value.push_back(Read<ElementType>(data, offset));`
  unfoldable pub read_elements : Reader A → ℕ → Reader (List A)
  read_elements read zero = pure []
  read_elements read (suc count) = do x ← read; xs ← read_elements read count; pure (x ∷ xs)

  unfoldable pub write_elements : (A → RawBuffer) → List A → RawBuffer
  write_elements write [] = []
  write_elements write (x ∷ xs) = write x ++ write_elements write xs

  -- `ListBinaryParser<Container, Size>`
  unfoldable pub list_parser : ℕ → Reader A → Reader (List A)
  list_parser width read = do count ← read_int_be width; read_elements read (to_size count)

  -- `ListBinaryFormatter<Container, Size>`
  unfoldable pub list_formatter : ℕ → (A → RawBuffer) → List A → RawBuffer
  list_formatter width write xs =
      write_int_be width (length xs % 256 ^ width) ++ write_elements write xs

-- A map is the list of its entries in the order of its iteration.
module _ {ℓ κ} {K : Type ℓ} {V : Type κ} where
  unfoldable pub contains : (K → K → Bool) → K → List (K × V) → Bool
  contains same key [] = Bool.false
  contains same key ((k, v) ∷ m) = if same k key then Bool.true else contains same key m

  -- `emplace` leaves an entry alone whose key is there already.
  pub emplace : (K → K → Bool) → K → V → List (K × V) → List (K × V)
  emplace same key value m = if contains same key m then m else m ++ (key, value) ∷ []

  unfoldable pub read_entries :
      (K → K → Bool) → Reader K → Reader V → ℕ → List (K × V) → Reader (List (K × V))
  read_entries same read_key read_value zero m = pure m
  read_entries same read_key read_value (suc count) m = do
    key ← read_key
    value ← read_value
    read_entries same read_key read_value count (emplace same key value m)

  -- `MapBinaryParser<Map, Size>`
  unfoldable pub map_parser : (K → K → Bool) → ℕ → Reader K → Reader V → Reader (List (K × V))
  map_parser same width read_key read_value = do
    count ← read_int_be width
    read_entries same read_key read_value (to_size count) []

  -- `MapBinaryFormatter<Map, Size>`
  unfoldable pub map_formatter : ℕ → (K → RawBuffer) → (V → RawBuffer) → List (K × V) → RawBuffer
  map_formatter width write_key write_value m =
      write_int_be width (length m % 256 ^ width)
      ++ write_elements (λ (k, v). write_key k ++ write_value v) m
