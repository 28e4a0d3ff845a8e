-- ===== src/Session/Args.antt =====
-- The arguments of `Session::Execute` (include/cassandra/session.hpp) as `DoExecute` is given them.
use cassandra_driver.Base.{ℕ, ◌≡◌, refl, List}
use cassandra_driver.Io.Cells.{CellType}
use cassandra_driver.Protocol.Requests.{Consistency}
use cassandra_driver.Rows.{Tuple}
use cassandra_driver.Rows.Extract.{write_tuple}
use cassandra_driver.Queries.{Query}
use cassandra_driver.Queries.Bound.{static_parameters_lem}
use cassandra_driver.Pool.Client.{Client, StatementCache, OptionalCommandControl}
use cassandra_driver.Session.{SessionImpl, execute_args, do_execute}

pub execute_args_lem :
    (client : Client) (cache : StatementCache) (now : ℕ) (ts : List CellType) (level : Consistency)
    (control : OptionalCommandControl) (query : Query) (args : Tuple ts)
    (session : SessionImpl client cache) (w : client.World)
    → execute_args client cache now ts level control query args session w
      ≡ do_execute client cache now level query (write_tuple ts args) control session w
unfolding execute_args
execute_args_lem client cache now ts level control query args session w =
    rw (static_parameters_lem ts args, execute_args) refl
