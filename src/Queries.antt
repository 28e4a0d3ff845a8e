-- ===== src/Queries.antt =====
-- What a caller gives to a session: include/cassandra/query.hpp, the holders of bound parameters in
-- include/cassandra/detail/query_parameters.hpp, and the batches of include/cassandra/batch_query.hpp.
-- The arguments of a variadic call are a tuple, and their types its types.
pub mod Bound
use cassandra_driver.Base.{ℕ, zero, suc, List, [], ◌∷◌, ◌++◌, length}
use cassandra_driver.Base.Result.{Result, ok, throws, fault, out_of_range, ◌>>=◌}
use cassandra_driver.Io.{RawBuffer}
use cassandra_driver.Io.Cells.{CellType, CellValue, write_cell}
use cassandra_driver.Protocol.Requests.{Consistency, QueryParameters}
use cassandra_driver.Rows.{Tuple}

-- `Query`: its constructors differ in where they copy the text from.
pub record Query : Type 0 where
  pub statement : RawBuffer

-- `Query::GetStatement`
unfoldable pub get_statement : Query → RawBuffer
get_statement q = q.statement

-- `Write(index, arg)` of a holder; `missing` is what its access does beyond the end.
pub write_at :
    Result (List RawBuffer)
    → ℕ
    → (t : CellType) → CellValue t
    → List RawBuffer
    → Result (List RawBuffer)
write_at missing index t arg [] = missing
write_at missing zero t arg (cell ∷ args) = ok (write_cell t arg cell ∷ args)
write_at missing (suc index) t arg (cell ∷ args) =
    write_at missing index t arg args >>= λ written. ok (cell ∷ written)

-- `(Write(index++, args), ...);`
pub write_args :
    Result (List RawBuffer)
    → (ts : List CellType) → ℕ
    → Tuple ts
    → List RawBuffer
    → Result (List RawBuffer)
unfolding write_at
write_args missing [] index values args = ok args
write_args missing (t ∷ ts) index (value, values) args =
    write_at missing index t value args >>= λ written.
    write_args missing ts (suc index) values written

-- So many empty cells: a new `std::array<io::Bytes, ParamsCount>`.
pub fresh : ℕ → List RawBuffer
fresh zero = []
fresh (suc count) = [] ∷ fresh count

-- `StaticQueryParameters::Write` of a new holder: `operator[]` does not check its index.
pub static_parameters : (ts : List CellType) → Tuple ts → Result QueryParameters
unfolding write_args fresh
static_parameters ts values = write_args fault ts 0 values (fresh (length ts))

-- `_args->resize(count)`
pub resize : ℕ → List RawBuffer → List RawBuffer
unfolding fresh
resize zero args = []
resize (suc count) [] = fresh (suc count)
resize (suc count) (cell ∷ args) = cell ∷ resize count args

-- `DynamicQueryParameters::Write`: `at` throws.
pub dynamic_write : (ts : List CellType) → Tuple ts → List RawBuffer → Result (List RawBuffer)
unfolding write_args resize
dynamic_write ts values args =
    write_args (throws out_of_range) ts 0 values (resize (length ts) args)

-- `BatchQuery`: the statement and its parameters.
abbrev pub BatchQuery : Type 0
BatchQuery = RawBuffer × QueryParameters

-- The constructors of `BatchQuery`, over a new `DynamicQueryParameters`.
pub new_batch_query : (ts : List CellType) → Query → Tuple ts → Result BatchQuery
unfolding dynamic_write get_statement
new_batch_query ts query values =
    dynamic_write ts values [] >>= λ params. ok (get_statement query, params)

pub record BatchQueryStore : Type 0 where
  pub consistency : Consistency
  pub queries : List BatchQuery

unfoldable pub new_batch : Consistency → BatchQueryStore
new_batch level = record { consistency = level; queries = [] }

-- `AddQuery`
pub add_query : (ts : List CellType) → Query → Tuple ts → BatchQueryStore → Result BatchQueryStore
unfolding new_batch_query
add_query ts query values store =
    new_batch_query ts query values >>= λ q. ok (record store { queries = store.queries ++ q ∷ [] })
