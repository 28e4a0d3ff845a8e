-- ===== src/Protocol/Columns/Fuel.antt =====
-- The fuel of the nested `Parse` calls of src/io/protocol/column_option.cpp.
use cassandra_driver.Base.{ℕ, zero, suc, ◌+◌, ◌<◌, ◌≤◌, ◌≢◌, length, arith}
use cassandra_driver.Base.Result.{stuck}
use cassandra_driver.Io.{RawBuffer, read_int_be}
use cassandra_driver.Io.Shortens.{
  Shortens, done, Shortens-bind, Shortens-weaken, Shortens-ne-stuck, read_int_be-Shortens,
  string_parser-Shortens,
}
use cassandra_driver.Io.Strings.{read_string}
use cassandra_driver.Protocol.Columns.{
  PayloadType, is_custom, is_list, is_map, is_set, is_udt, is_tuple, is_plain, payload_type,
  parse_option, parse_payload, parse_elements, parse_fields, parse_column_option,
}

mutual
  unfolding parse_option

  option-Shortens :
      (fuel : ℕ) (bs : RawBuffer) → length bs < fuel → Shortens 2 (length bs) (parse_option fuel bs)
  option-Shortens zero bs h = absurd (omega arith)
  option-Shortens (suc fuel) bs h =
      Shortens-bind 2 (read_int_be 2 bs) _ (read_int_be-Shortens 2 bs) λ type rest le.
        Shortens-weaken 2 (length bs) (omega arith)
          (payload-Shortens fuel (payload_type type) type rest (omega arith))

  payload-Shortens :
      (fuel : ℕ) (p : PayloadType) (type : ℕ) (bs : RawBuffer)
      → length bs + 2 ≤ fuel
      → Shortens 0 (length bs) (parse_payload fuel p type bs)
  payload-Shortens zero p type bs h = absurd (omega arith)
  payload-Shortens (suc fuel) is_plain type bs h = done (omega arith)
  payload-Shortens (suc fuel) is_custom type bs h =
      Shortens-bind 0 (read_string bs) _ (string_parser-Shortens 2 bs)
        λ value rest le. done (omega arith)
  payload-Shortens (suc fuel) is_list type bs h =
      Shortens-bind 0 (parse_option fuel bs) _ (option-Shortens fuel bs (omega arith))
        λ t rest le. done (omega arith)
  payload-Shortens (suc fuel) is_set type bs h =
      Shortens-bind 0 (parse_option fuel bs) _ (option-Shortens fuel bs (omega arith))
        λ t rest le. done (omega arith)
  payload-Shortens (suc fuel) is_map type bs h =
      Shortens-bind 0 (parse_option fuel bs) _ (option-Shortens fuel bs (omega arith)) λ k rest le.
        Shortens-bind 0 (parse_option fuel rest) _
          (Shortens-weaken 2 (length bs) (omega arith) (option-Shortens fuel rest (omega arith)))
          λ v rest' le'. done (omega arith)
  payload-Shortens (suc fuel) is_udt type bs h =
      Shortens-bind 0 (read_string bs) _ (string_parser-Shortens 2 bs) λ keyspace r1 h1.
        Shortens-bind 0 (read_string r1) _
          (Shortens-weaken 2 (length bs) (omega arith) (string_parser-Shortens 2 r1))
          λ name r2 h2.
            Shortens-bind 0 (read_int_be 2 r2) _
              (Shortens-weaken 2 (length bs) (omega arith) (read_int_be-Shortens 2 r2))
              λ count r3 h3.
                Shortens-bind 0 (parse_fields fuel count r3) _
                  (Shortens-weaken 0 (length bs) (omega arith)
                    (fields-Shortens fuel count r3 (omega arith)))
                  λ fs r4 h4. done (omega arith)
  payload-Shortens (suc fuel) is_tuple type bs h =
      Shortens-bind 0 (read_int_be 2 bs) _ (read_int_be-Shortens 2 bs) λ count r1 h1.
        Shortens-bind 0 (parse_elements fuel count r1) _
          (Shortens-weaken 0 (length bs) (omega arith)
            (elements-Shortens fuel count r1 (omega arith)))
          λ es r2 h2. done (omega arith)

  elements-Shortens :
      (fuel count : ℕ) (bs : RawBuffer)
      → length bs + 2 ≤ fuel
      → Shortens 0 (length bs) (parse_elements fuel count bs)
  elements-Shortens zero count bs h = absurd (omega arith)
  elements-Shortens (suc fuel) zero bs h = done (omega arith)
  elements-Shortens (suc fuel) (suc count) bs h =
      Shortens-bind 0 (parse_option fuel bs) _ (option-Shortens fuel bs (omega arith)) λ t r1 h1.
        Shortens-bind 0 (parse_elements fuel count r1) _
          (Shortens-weaken 0 (length bs) (omega arith)
            (elements-Shortens fuel count r1 (omega arith)))
          λ es r2 h2. done (omega arith)

  fields-Shortens :
      (fuel count : ℕ) (bs : RawBuffer)
      → length bs + 2 ≤ fuel
      → Shortens 0 (length bs) (parse_fields fuel count bs)
  fields-Shortens zero count bs h = absurd (omega arith)
  fields-Shortens (suc fuel) zero bs h = done (omega arith)
  fields-Shortens (suc fuel) (suc count) bs h =
      Shortens-bind 0 (read_string bs) _ (string_parser-Shortens 2 bs) λ name r1 h1.
        Shortens-bind 0 (parse_option fuel r1) _
          (Shortens-weaken 4 (length bs) (omega arith) (option-Shortens fuel r1 (omega arith)))
          λ t r2 h2.
            Shortens-bind 0 (parse_fields fuel count r2) _
              (Shortens-weaken 0 (length bs) (omega arith)
                (fields-Shortens fuel count r2 (omega arith)))
              λ fs r3 h3. done (omega arith)

-- A column type takes two bytes at least, whether or not it has a payload.
pub parse_column_option-Shortens :
    (bs : RawBuffer) → Shortens 2 (length bs) (parse_column_option bs)
unfolding parse_column_option
parse_column_option-Shortens bs = option-Shortens (suc (length bs)) bs (omega arith)

-- The parse of a column type ends on every input, however deep its types are nested.
pub parse_column_option-ne-stuck : (bs : RawBuffer) → parse_column_option bs ≢ stuck
parse_column_option-ne-stuck bs = Shortens-ne-stuck (parse_column_option-Shortens bs)
