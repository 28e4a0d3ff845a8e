-- ===== src/Examples/RowExamples.antt =====
-- Rows, bound parameters and new connections.
use cassandra_driver.Base.{
  Bool, false, ◌≡◌, refl, map, List, [], ◌∷◌, ◌++◌, true, none, some, length, All, codes, arith,
}
use cassandra_driver.Base.Result.{Result, ok, throws, io_exception, runtime_error, ◌>>=◌}
use cassandra_driver.Io.{RawBuffer, be_bytes}
use cassandra_driver.Io.Cells.{CellType, text, integral, boolean, write_cell}
use cassandra_driver.Protocol.Requests.{QueryParameters}
use cassandra_driver.Protocol.Responses.{parse_rows}
use cassandra_driver.Protocol.Responses.RoundTrip.{write_rows, parse_rows-write_rows}
use cassandra_driver.Rows.{Tuple, result_set, extract_tuple, as_container, as_single_row, front}
use cassandra_driver.Rows.Extract.{WideTuple, write_wide, write_tuple, as_container-write_rows}
use cassandra_driver.Rows.Total.{IsDefined, as_container-IsDefined}
use cassandra_driver.Queries.{static_parameters, dynamic_write}
use cassandra_driver.Queries.Bound.{static_parameters-extract}
use cassandra_driver.Connection.Handshake.{cql_handshake}
use cassandra_driver.Connection.Handshake.Ready.{supported_frame, ready_frame}
use cassandra_driver.Connection.Connect.{
  Address, OpenConnection, async_connect, connect, tcp_connect, new_connection, try_resolve,
  start_receiver_loop,
}
use cassandra_driver.Connection.Connect.Opened.{
  IsOpen, connect-IsOpen, Refuses, async_connect_first,
}
use cassandra_driver.Protocol.Lz4.{lz4_compressor}
use cassandra_driver.Examples.ResponseExamples.{one_row, one_row_fits, broken_lz4}
use cassandra_driver.Examples.HandshakeExamples.{shaken, offering}

abbrev bytes_of : List (WideTuple (integral 1 ∷ []))
bytes_of = ((5, tt), []) ∷ []

bytes_of_written : one_row.rows_content ≡ map (write_wide (integral 1 ∷ [])) bytes_of
unfolding write_tuple write_cell be_bytes
bytes_of_written = refl

one_row_extracted :
    let read = parse_rows (write_rows one_row ++ 1 ∷ []) in
    let tuples = map (λ (w : WideTuple (integral 1 ∷ [])). w.0) bytes_of in
    ((read >>= λ (m, _). as_container (integral 1 ∷ []) (result_set (some m))) ≡ ok tuples)
    × ((read >>= λ (m, _). as_single_row (integral 1 ∷ []) (result_set (some m))) ≡ front tuples)
one_row_extracted =
    as_container-write_rows (integral 1 ∷ []) one_row bytes_of (1 ∷ []) one_row_fits
      (((omega arith, tt), refl), tt) bytes_of_written

-- An integer of eight bytes is asked for where the cell has one.
one_row-IsDefined : IsDefined (as_container (integral 8 ∷ []) (result_set (some one_row)))
one_row-IsDefined =
    as_container-IsDefined (integral 8 ∷ []) (write_rows one_row ++ 1 ∷ []) (1 ∷ []) one_row
      (parse_rows-write_rows one_row one_row_fits (1 ∷ [])) (omega arith) (tt, tt)

abbrev bound_types : List CellType
bound_types = integral 4 ∷ boolean ∷ text ∷ []

abbrev bound : Tuple bound_types
bound = (70000, (true, (codes "x", tt)))

three_bound :
    (params : QueryParameters) × (static_parameters bound_types bound ≡ ok params)
    × (dynamic_write bound_types bound [] ≡ ok params)
    × (length params ≡ 3)
    × (extract_tuple bound_types 0 params ≡ ok bound)
three_bound = static_parameters-extract bound_types bound (omega arith, (tt, (tt, tt)))

abbrev host : RawBuffer → Address
host name = record { host = name; port = 9042 }

abbrev accepted : RawBuffer
accepted = supported_frame offering (ready_frame (7 ∷ []))

-- The host whose name is empty refuses.
sockets : Address → Result RawBuffer
sockets a = elim a.host [ [] ↦ throws io_exception | letter ∷ name ↦ ok accepted ]

refused-Refuses : All (Refuses sockets) (host [] ∷ [])
unfolding sockets
refused-Refuses = (refl, tt)

name_accepts : sockets (host (codes "b")) ≡ ok accepted
unfolding sockets
name_accepts = refl

shaken_outcome : (cql_handshake true accepted).outcome ≡ ok (7 ∷ [])
shaken_outcome = rw shaken refl

-- The receiver loop has made two rounds: the one byte behind the handshake is no frame.
abbrev rounds : List Bool
rounds = true ∷ true ∷ []

second_tried :
    let connected = async_connect (lz4_compressor broken_lz4) rounds sockets in
    ((o : OpenConnection) × (connected (host [] ∷ host (codes "b") ∷ []) true ≡ ok o)
      × (o.socket ≡ 7 ∷ [])
      × (o.compressed ≡ (cql_handshake true accepted).compressed))
    × (connected (host [] ∷ []) true ≡ throws runtime_error)
second_tried =
    async_connect_first (lz4_compressor broken_lz4) rounds sockets (host [] ∷ []) (host (codes "b"))
      [] true refused-Refuses name_accepts shaken_outcome

abbrev opened : OpenConnection
opened = record {
  impl =
      start_receiver_loop (some (lz4_compressor broken_lz4)) rounds (7 ∷ [])
        (record new_connection { broken = false });
  compressed = true;
  socket = 7 ∷ [];
  handshake = (cql_handshake true accepted).sent;
}

connected :
    connect (lz4_compressor broken_lz4) rounds none (host (codes "b") ∷ []) 9042 sockets true
    ≡ ok opened
unfolding connect try_resolve async_connect tcp_connect new_connection sockets
connected = rw shaken refl

opened-IsOpen : IsOpen (lz4_compressor broken_lz4) rounds sockets 9042 true opened
opened-IsOpen =
    connect-IsOpen (lz4_compressor broken_lz4) rounds none (host (codes "b") ∷ []) 9042 sockets true
      connected
