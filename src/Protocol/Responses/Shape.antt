-- ===== src/Protocol/Responses/Shape.antt =====
-- The shape of the rows that `ParseRows` of src/io/protocol/response_message.hpp gives.
use cassandra_driver.Base.{ℕ, ◌≡◌, List, length, All}
use cassandra_driver.Io.{RawBuffer, read_int_be, lift}
use cassandra_driver.Io.Gives.{
  Gives, Gives-any, Gives-next, Gives-bind, Gives-pure, Gives-read_elements, Gives-imp,
}
use cassandra_driver.Io.Strings.{read_bytes, reserve}
use cassandra_driver.Io.Containers.{read_elements}
use cassandra_driver.Protocol.Responses.{
  RowKind, parse_rows, rounds, parse_paging_state, parse_some_metadata,
}

-- Every row has as many values as the result says that it has columns.
abbrev pub IsRectangular : RowKind → Type 0
IsRectangular r = All (λ row. length row ≡ rounds r.columns_count) r.rows_content

abbrev HasRows : ℕ → ℕ → List (List RawBuffer) → Type 0
HasRows rows_count columns_count content =
    (length content ≡ rounds rows_count) × All (λ row. length row ≡ rounds columns_count) content

content_lem :
    (rows_count columns_count : ℕ)
    → Gives
        (HasRows rows_count columns_count)
        (read_elements (read_elements read_bytes (rounds columns_count)) (rounds rows_count))
content_lem rows_count columns_count =
    Gives-read_elements (λ row. length row ≡ rounds columns_count)
      (read_elements read_bytes (rounds columns_count)) (rounds rows_count)
      (Gives-imp (λ row. length row ≡ rounds columns_count)
        (λ row. (length row ≡ rounds columns_count) × All (λ value. Unit {0}) row) _ (λ row h. h.0)
        (Gives-read_elements (λ value. Unit {0}) read_bytes (rounds columns_count)
          (Gives-any read_bytes)))

pub parse_rows-IsRectangular : Gives IsRectangular parse_rows
unfolding parse_rows
parse_rows-IsRectangular = Gives-next IsRectangular (read_int_be 4) _ λ flags.
    Gives-next IsRectangular (read_int_be 4) _ λ columns_count.
      Gives-next IsRectangular (parse_paging_state flags) _ λ paging_state.
        Gives-next IsRectangular (parse_some_metadata flags columns_count) _ λ metadata.
          Gives-next IsRectangular (read_int_be 4) _ λ rows_count.
            Gives-next IsRectangular (lift (reserve rows_count)) _ λ _.
              Gives-bind IsRectangular (HasRows rows_count columns_count) _ _
                (content_lem rows_count columns_count) λ content h. Gives-pure IsRectangular _ h.1
