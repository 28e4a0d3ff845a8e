-- ===== src/Queries/Bound.antt =====
-- The parameters that the holders of include/cassandra/detail/query_parameters.hpp bind, and the batches
-- that include/cassandra/batch_query.hpp builds with them.
use cassandra_driver.Base.{
  ℕ, zero, suc, ◌≡◌, refl, List, [], ◌∷◌, ◌++◌, map, append-nil, append_assoc, length,
}
use cassandra_driver.Base.Result.{Result, ok, throws, fault, stuck, out_of_range, ◌>>=◌}
use cassandra_driver.Io.{RawBuffer}
use cassandra_driver.Io.Cells.{CellType, write_cell}
use cassandra_driver.Protocol.Requests.{QueryParameters}
use cassandra_driver.Rows.{Tuple, extract_tuple}
use cassandra_driver.Rows.Extract.{
  write_tuple, length-write_tuple, FitsTuple, extract_tuple-write_tuple,
}
use cassandra_driver.Queries.{
  Query, get_statement, write_at, write_args, fresh, static_parameters, resize, dynamic_write,
  BatchQuery, new_batch_query, BatchQueryStore, add_query,
}

behind :
    (cell : RawBuffer) (m : Result (List RawBuffer))
    (f g : List RawBuffer → Result (List RawBuffer))
    → ((args : List RawBuffer) → f (cell ∷ args) ≡ (g args >>= λ written. ok (cell ∷ written)))
    → ((m >>= λ args. ok (cell ∷ args)) >>= f) ≡ ((m >>= g) >>= λ written. ok (cell ∷ written))
behind cell (ok args) f g same = same args
behind cell (throws e) f g same = refl
behind cell fault f g same = refl
behind cell stuck f g same = refl

-- The arguments behind the first are written behind its cell.
write_args_shift :
    (missing : Result (List RawBuffer)) (ts : List CellType) (index : ℕ) (values : Tuple ts)
    (cell : RawBuffer) (args : List RawBuffer)
    → write_args missing ts (suc index) values (cell ∷ args)
      ≡ (write_args missing ts index values args >>= λ written. ok (cell ∷ written))
unfolding write_args write_at
write_args_shift missing [] index values cell args = refl
write_args_shift missing (t ∷ ts) index (value, values) cell args =
    behind cell (write_at missing index t value args) _ _
      (write_args_shift missing ts (suc index) values cell)

write_args-fresh :
    (missing : Result (List RawBuffer)) (ts : List CellType) (values : Tuple ts)
    → write_args missing ts 0 values (fresh (length ts)) ≡ ok (write_tuple ts values)
unfolding write_args write_at fresh write_tuple
write_args-fresh missing [] values = refl
write_args-fresh missing (t ∷ ts) (value, values) = rw (
  write_args_shift missing ts 0 values (write_cell t value []) (fresh (length ts)),
  write_args-fresh missing ts values,
)

resize_new : (count : ℕ) → resize count [] ≡ fresh count
unfolding resize
resize_new zero = refl
resize_new (suc count) = refl

pub static_parameters_lem :
    (ts : List CellType) (values : Tuple ts)
    → static_parameters ts values ≡ ok (write_tuple ts values)
unfolding static_parameters
static_parameters_lem ts values = write_args-fresh fault ts values

pub write_tuple_back :
    (ts : List CellType) (values : Tuple ts)
    → FitsTuple ts values
    → extract_tuple ts 0 (write_tuple ts values) ≡ ok values
write_tuple_back ts values fits =
    rw (append-nil (write_tuple ts values)) at (extract_tuple-write_tuple ts values [] fits)

-- The arguments of a query are bound in their order, each alone in its cell, by the holder of a session's
-- call and by that of a batch alike; and read as a row of their types they are the arguments again, if
-- the integers fit their widths.
pub static_parameters-extract :
    (ts : List CellType) (values : Tuple ts)
    → FitsTuple ts values
    → (params : QueryParameters) × (static_parameters ts values ≡ ok params)
      × (dynamic_write ts values [] ≡ ok params)
      × (length params ≡ length ts)
      × (extract_tuple ts 0 params ≡ ok values)
unfolding dynamic_write
static_parameters-extract ts values fits = (
  write_tuple ts values,
  static_parameters_lem ts values,
  rw (resize_new (length ts)) (write_args-fresh (throws out_of_range) ts values),
  length-write_tuple ts values,
  write_tuple_back ts values fits,
)

-- A statement of a batch with its arguments.
pub record Addition : Type 0 where
  pub types : List CellType
  pub query : Query
  pub args : Tuple types

-- `AddQuery` of each, in a chain.
pub add_queries : List Addition → BatchQueryStore → Result BatchQueryStore
add_queries [] store = ok store
add_queries (a ∷ additions) store =
    add_query a.types a.query a.args store >>= λ grown. add_queries additions grown

abbrev pub query_of : Addition → BatchQuery
query_of a = (get_statement a.query, write_tuple a.types a.args)

add_query_lem :
    (a : Addition) (store : BatchQueryStore)
    → add_query a.types a.query a.args store
      ≡ ok (record store { queries = store.queries ++ query_of a ∷ [] })
unfolding add_query new_batch_query dynamic_write
add_query_lem a store =
    rw (resize_new (length a.types), write_args-fresh (throws out_of_range) a.types a.args)

pub add_queries_lem :
    (additions : List Addition) (store : BatchQueryStore)
    → add_queries additions store
      ≡ ok (record store { queries = store.queries ++ map query_of additions })
unfolding add_queries
add_queries_lem [] store = rw append-nil
add_queries_lem (a ∷ additions) store = rw (
  add_query_lem a store,
  add_queries_lem additions (record store { queries = store.queries ++ query_of a ∷ [] }),
  append_assoc,
)
