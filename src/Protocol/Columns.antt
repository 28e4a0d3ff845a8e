-- ===== src/Protocol/Columns.antt =====
-- Column types: src/io/protocol/column_option.hpp and column_option.cpp. A type may hold further
-- types; the nested `Parse` calls take fuel.
pub mod Fuel
pub mod RoundTrip
use cassandra_driver.Base.{
  ℕ, zero, suc, ◌+◌, ◌*◌, ◌-◌, List, [], ◌∷◌, ◌++◌, ◌==◌, if◌then◌else◌, length,
}
use cassandra_driver.Base.Result.{Result, ok, stuck}
use cassandra_driver.Io.{RawBuffer, Reader, ◌>>=◌, ◌>>◌, pure, lift, read_int_be}
use cassandra_driver.Io.Strings.{read_string}

-- `ColumnOption`: the constructor is the payload, and `plain` has none. `plain` keeps any type code
-- without a payload, as `static_cast<ColumnType>` does.
mutual
  pub data ColumnOption : Type 0 where
    plain : ℕ → ColumnOption
    custom : RawBuffer → ColumnOption
    list set : ColumnOption → ColumnOption
    map : ColumnOption → ColumnOption → ColumnOption
    udt : RawBuffer → RawBuffer → Fields → ColumnOption
    tuple : Elements → ColumnOption

  pub data Elements : Type 0 where
    no_elements : Elements
    element : ColumnOption → Elements → Elements

  pub data Fields : Type 0 where
    no_fields : Fields
    field : RawBuffer → ColumnOption → Fields → Fields

-- The codes of `ColumnType` that have a payload.
pub data PayloadType : Type 0 where
  is_custom is_list is_map is_set is_udt is_tuple is_plain : PayloadType

unfoldable pub payload_type : ℕ → PayloadType
payload_type n =
    if n == 0x00
    then is_custom
    else if n == 0x20
    then is_list
    else if n == 0x21
    then is_map
    else if n == 0x22
    then is_set
    else if n == 0x30
    then is_udt
    else if n == 0x31
    then is_tuple
    else is_plain

unfoldable mutual
  -- `ColumnOption::Parse`
  pub parse_option : ℕ → Reader ColumnOption
  parse_option zero bs = stuck
  parse_option (suc fuel) bs =
      (do type ← read_int_be 2; parse_payload fuel (payload_type type) type) bs

  -- `Parse` of the payload that the type has.
  pub parse_payload : ℕ → PayloadType → ℕ → Reader ColumnOption
  parse_payload fuel is_plain type bs = pure (plain type) bs
  parse_payload zero p type bs = stuck
  parse_payload (suc fuel) is_custom type bs = (do value ← read_string; pure (custom value)) bs
  parse_payload (suc fuel) is_list type bs = (do t ← parse_option fuel; pure (list t)) bs
  parse_payload (suc fuel) is_set type bs = (do t ← parse_option fuel; pure (set t)) bs
  parse_payload (suc fuel) is_map type bs =
      (do k ← parse_option fuel; v ← parse_option fuel; pure (map k v)) bs
  parse_payload (suc fuel) is_udt type bs =
      (do
        keyspace ← read_string
        name ← read_string
        count ← read_int_be 2
        fields ← parse_fields fuel count
        pure (udt keyspace name fields))
        bs
  parse_payload (suc fuel) is_tuple type bs =
      (do count ← read_int_be 2; es ← parse_elements fuel count; pure (tuple es)) bs

  pub parse_elements : ℕ → ℕ → Reader Elements
  parse_elements zero count bs = stuck
  parse_elements (suc fuel) zero bs = pure no_elements bs
  parse_elements (suc fuel) (suc count) bs =
      (do t ← parse_option fuel; es ← parse_elements fuel count; pure (element t es)) bs

  pub parse_fields : ℕ → ℕ → Reader Fields
  parse_fields zero count bs = stuck
  parse_fields (suc fuel) zero bs = pure no_fields bs
  parse_fields (suc fuel) (suc count) bs =
      (do
        name ← read_string
        t ← parse_option fuel
        fs ← parse_fields fuel count
        pure (field name t fs))
        bs

-- A call of `parse_option` reads two bytes, which pay for it and for the payload's call.
pub parse_column_option : Reader ColumnOption
unfolding parse_option
parse_column_option bs = parse_option (suc (length bs)) bs
