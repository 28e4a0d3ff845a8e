-- ===== src/Examples/StatementExamples.antt =====
-- Statements on the pool of PoolExamples.
use cassandra_driver.Base.{◌≡◌, refl, List, [], ◌∷◌, true, false, none, some, codes}
use cassandra_driver.Base.Result.{ok}
use cassandra_driver.Io.{RawBuffer}
use cassandra_driver.Io.Containers.Maps.{same_text}
use cassandra_driver.Protocol.Requests.{Consistency}
use cassandra_driver.Pool.{acquire}
use cassandra_driver.Pool.Client.{OptionalCommandControl}
use cassandra_driver.Pool.Statements.{can_prepare_statement, prepared_id, execute}
use cassandra_driver.Pool.Statements.Again.{execute_again}
use cassandra_driver.Examples.PoolExamples.{
  idle, two, answering, keeping, keeping-documented, find_id,
}

abbrev select_text : RawBuffer
select_text = codes "SELECT 1"

abbrev no_control : OptionalCommandControl
no_control = none

can : can_prepare_statement no_control true ≡ true
unfolding can_prepare_statement
can = refl

idle_found : (acquire 10 false two).0 ≡ some idle
unfolding acquire
idle_found = refl

abbrev cached : List (RawBuffer × RawBuffer)
cached = (select_text, 1 ∷ 2 ∷ []) ∷ []

cached_found : find_id cached select_text ≡ some (1 ∷ 2 ∷ [])
unfolding find_id same_text
cached_found = refl

first_prepared :
    (prepared_id answering keeping (acquire 10 false two).0 select_text [] 0).outcome
    ≡ ok (1 ∷ 2 ∷ [])
unfolding prepared_id acquire find_id
first_prepared = refl

select_again :
    let run = execute answering keeping 10 true in
    let first = (run Consistency.one select_text [] no_control two [] 0).0 in
    let next =
      (run Consistency.quorum select_text ((9 ∷ []) ∷ []) no_control two first.statements 5).0 in
    (next.outcome, next.world)
    ≡ answering.execute_prepared idle Consistency.quorum (1 ∷ 2 ∷ []) ((9 ∷ []) ∷ []) no_control 5
select_again =
    execute_again answering keeping 10 true keeping-documented Consistency.one select_text []
      no_control two [] 0 Consistency.quorum ((9 ∷ []) ∷ []) two 5 can first_prepared idle_found
