-- ===== src/Io.antt =====
-- include/cassandra/io/buffer_io_base.hpp, buffer_reader.hpp and buffer_writer.hpp: big-endian
-- integers, the bounds check, and readers that go through a buffer.
-- A buffer is the list of its bytes; a `BufferView` is the list of its bytes from `offset` on, so a
-- reader hands back the bytes behind what it took. A formatter only appends, so a writer is the
-- bytes that it appends.
pub mod Integers
pub mod Strings
pub mod Shortens
pub mod Ends
pub mod Gives
pub mod Containers
pub mod Cells
pub mod Floats
use cassandra_driver.Base.{
  ℕ, zero, suc, ◌+◌, ◌-◌, ◌*◌, ◌/◌, ◌%◌, ◌^◌, ◌<◌, List, [], ◌∷◌, ◌++◌, Bool, leb, ltb, ◌&&◌,
  if◌then◌else◌, length, take, drop,
}
use cassandra_driver.Base.Result
use cassandra_driver.Base.Result.{Result, ok, runtime_error, ensure}

abbrev pub RawBuffer : Type 0
RawBuffer = List ℕ

abbrev pub Reader {ℓ} : Type ℓ → Type ℓ
Reader A = RawBuffer → Result (A × RawBuffer)

infixl 5 ◌>>=◌ ◌>>◌
abbrev pub ◌>>=◌ {ℓ κ} : {A : Type ℓ} {B : Type κ} → Reader A → (A → Reader B) → Reader B
m >>= f = λ bs. Result.◌>>=◌ (m bs) λ (a, rest). f a rest

abbrev pub ◌>>◌ {ℓ κ} : {A : Type ℓ} {B : Type κ} → Reader A → Reader B → Reader B
m >> n = m >>= λ _. n

abbrev pub pure {ℓ} : {A : Type ℓ} → A → Reader A
pure a bs = ok (a, bs)

abbrev pub lift {ℓ} : {A : Type ℓ} → Result A → Reader A
lift r bs = Result.◌>>=◌ r λ a. ok (a, bs)

-- The bytes of a value of `width` bytes in network order: `native_to_big`, then a copy of the object.
unfoldable pub be_bytes : ℕ → ℕ → RawBuffer
be_bytes zero value = []
be_bytes (suc width) value = be_bytes width (value / 256) ++ value % 256 ∷ []

-- `big_to_native` of the bytes, as the number that they spell.
pub be_value : ℕ → RawBuffer → ℕ
be_value acc [] = acc
be_value acc (b ∷ bs) = be_value (acc * 256 + b) bs

unfoldable pub ensure_size : ℕ → ℕ → Result (Unit {0})
ensure_size required remaining = ensure (leb required remaining) runtime_error

-- `ReadIntBE<T>` for a T of `width` bytes. A signed T is read as its bit pattern.
unfoldable pub read_int_be : ℕ → Reader ℕ
unfolding ensure_size be_value
read_int_be width bs =
    Result.◌>>◌ (ensure_size width (length bs)) (ok (be_value 0 (take width bs), drop width bs))

-- `WriteIntBE<T>`; a narrowing conversion to T keeps the low bytes.
abbrev pub write_int_be : ℕ → ℕ → RawBuffer
write_int_be width value = be_bytes width value

-- An `Int` is an int32_t, kept as its bit pattern: this is `value < 0`, and the next `value > 0`.
unfoldable pub is_negative : ℕ → Bool
is_negative value = leb (2 ^ 31) value

unfoldable pub is_positive : ℕ → Bool
is_positive value = ltb 0 value && ltb value (2 ^ 31)

-- `size_t n = value` for an `Int` value: the sign is extended to 64 bits.
pub to_size : ℕ → ℕ
unfolding is_negative
to_size value = if is_negative value then value + (2 ^ 64 - 2 ^ 32) else value
