-- ===== src/Wire/Streams.antt =====
-- The stream ids of the connections (src/detail/stream_pool.hpp) over the calls of the pool in
-- src/detail/connection_pool.cpp.
use cassandra_driver.Base.{
  ℕ, ◌≡◌, ◌∙◌, refl, subst, sym, List, Bool, true, ◌==◌, Option, Bool-cases, inl, inr, length,
  arith,
}
use mathlib.Core.List.{Perm}
use mathlib.Core.List.Perm
use cassandra_driver.Io.{RawBuffer}
use cassandra_driver.Protocol.Lz4.{Compressor}
use cassandra_driver.Protocol.Requests.{Consistency, QueryParameters, RequestBody, new_request}
use cassandra_driver.Protocol.Responses.{ResponseMessage}
use cassandra_driver.Queries.{BatchQuery}
use cassandra_driver.Connection.{ConnectionImpl, execute_message_async}
use cassandra_driver.Connection.Calls.{execute_message_async-IsStocked, execute_message_async-keeps}
use cassandra_driver.Connection.Streams.{StreamPool}
use cassandra_driver.Connection.Streams.Balance.{IsStocked, get_used_streams_same}
use cassandra_driver.Connection.Statements.{
  prepare_statement, execute_query, execute_prepared, execute_batch,
}
use cassandra_driver.Pool.{Connection, ConnectionPool}
use cassandra_driver.Pool.Client.{StatementCache, OptionalCommandControl}
use cassandra_driver.Pool.Statements.{execute, batch_execute}
use cassandra_driver.Pool.Statements.Keeps.{Keeping, execute-keeps, batch_execute-keeps}
use cassandra_driver.Wire.{
  Peer, World, Call, exchange, set_impl, run_on, as_result_set, connections, refresh_connection,
}

==-eq : (a b : ℕ) → (a == b) ≡ true → a ≡ b
==-eq a b h = ground arith

pub set_impl_each :
    (P : ℕ → ConnectionImpl → Type 0) (impls : ℕ → ConnectionImpl) (at : ℕ) (c : ConnectionImpl)
    → P at c
    → ((id : ℕ) → P id (impls id))
    → (id : ℕ) → P id (set_impl impls at c id)
unfolding set_impl
set_impl_each P impls at c here each id = elim (Bool-cases (id == at)) [
  | inl e ↦ rw e (subst (λ i. P i c) (sym (==-eq id at e)) here)
  | inr e ↦ rw e (each id)
]

-- What holds of each connection and is kept by the execution of a message holds of each behind every
-- call.
module _ (peer : Peer) (Q : ℕ → Option Compressor → ConnectionImpl → Type 0) where
  abbrev pub Each : World peer → Type 0
  Each w = (id : ℕ) → Q id (w.compressors id) (w.impls id)

  abbrev pub IsKept : Type 0
  IsKept =
      (id : ℕ) (k : Option Compressor) (choice : Option ℕ) (answer : Option ResponseMessage)
      (request : RequestBody) (c : ConnectionImpl)
      → Q id k c
      → Q id k (execute_message_async k choice answer (new_request request) c).1

  run_on-Each :
      {A : Type 0} (at : ℕ) (request : RequestBody) (call : Call A) (w : World peer)
      → ((choice : Option ℕ) (answer : Option ResponseMessage)
          → Q at (w.compressors at) (call (w.compressors at) choice answer (w.impls at)).1)
      → Each w
      → Each (run_on peer at request call w).1
  unfolding run_on
  run_on-Each at request call w kept h =
      let e = exchange peer (w.compressors at) request (w.impls at) w.node in
      set_impl_each (λ id c. Q id (w.compressors id) c) w.impls at
        (call (w.compressors at) e.choice e.answer (w.impls at)).1 (kept e.choice e.answer) h

  pub connections-Keeping : IsKept → Keeping (connections peer) Each
  unfolding prepare_statement execute_query execute_prepared execute_batch as_result_set
  connections-Keeping kept = record {
    prepare = λ c text w h.
        run_on-Each c.id (RequestBody.prepare text)
          (λ k choice answer. prepare_statement k choice answer text) w
          (λ choice answer. kept c.id _ choice answer (RequestBody.prepare text) _ (h c.id)) h;
    execute = λ c level text params control w h.
        run_on-Each c.id (RequestBody.query level text params)
          (λ k choice answer. execute_query k choice answer level text params) w
          (λ choice answer.
            kept c.id _ choice answer (RequestBody.query level text params) _ (h c.id))
          h;
    execute_prepared = λ c level id params control w h.
        run_on-Each c.id (RequestBody.execute level id params)
          (λ k choice answer. execute_prepared k choice answer level id params) w
          (λ choice answer.
            kept c.id _ choice answer (RequestBody.execute level id params) _ (h c.id))
          h;
    batch_execute = λ c level statements control w h.
        run_on-Each c.id (RequestBody.batch statements level)
          (λ k choice answer. execute_batch k choice answer level statements) w
          (λ choice answer.
            kept c.id _ choice answer (RequestBody.batch statements level) _ (h c.id))
          h;
  }

-- The free streams of a connection are those of `base`.
abbrev HasStreams : (ℕ → StreamPool) → ℕ → Option Compressor → ConnectionImpl → Type 0
HasStreams base id k c =
    IsStocked c.stream_pool
    × Perm c.stream_pool (base id)
    × (length c.stream_pool ≡ length (base id))

HasStreams-kept : (peer : Peer) (base : ℕ → StreamPool) → IsKept peer (HasStreams base)
HasStreams-kept peer base id k choice answer request c (stocked, same, len) =
    let m = new_request request in
    let (stocked', len') = execute_message_async-IsStocked k choice answer m c stocked in
    let kept = execute_message_async-keeps k choice answer m c stocked.fits in
    (stocked', Perm.trans kept.0 same, len' ∙ len)

module _ (peer : Peer) where
  -- Over connections of which each has at most 1024 free streams, each id below 1024: behind `Execute`
  -- and behind `BatchExecute` of a pool each connection has the free streams that it had, whichever
  -- answers came or did not come, and so counts as busy as before.
  pub execute_streams :
      (cache : StatementCache) (now : ℕ) (cache_enabled : Bool) (level : Consistency)
      (text : RawBuffer) (params : QueryParameters) (queries : List BatchQuery)
      (control : OptionalCommandControl) (pool : ConnectionPool) (s : cache.State) (w : World peer)
      → ((id : ℕ) → IsStocked (w.impls id).stream_pool)
      → (c : Connection)
      → let executed =
          (execute
            (connections peer)
            cache
            now
            cache_enabled
            level
            text
            params
            control
            pool
            s
            w).0.world in
        let batched =
          (batch_execute
            (connections peer)
            cache
            now
            cache_enabled
            level
            queries
            control
            pool
            s
            w).0.world in
        Perm (executed.impls c.id).stream_pool (w.impls c.id).stream_pool
        × ((refresh_connection peer executed c).used_streams
            ≡ (refresh_connection peer w c).used_streams)
        × Perm (batched.impls c.id).stream_pool (w.impls c.id).stream_pool
        × ((refresh_connection peer batched c).used_streams
            ≡ (refresh_connection peer w c).used_streams)
  unfolding refresh_connection
  execute_streams cache now cache_enabled level text params queries control pool s w stocked c =
      let base = λ (id : ℕ). (w.impls id).stream_pool in
      let P = Each peer (HasStreams base) in
      let before : P w = λ id. (stocked id, Perm.refl (base id), refl) in
      let keeping = connections-Keeping peer (HasStreams base) (HasStreams-kept peer base) in
      let (_, p, len) =
        execute-keeps (connections peer) cache P keeping now cache_enabled level text params control
          pool s w before c.id in
      let (_, p', len') =
        batch_execute-keeps (connections peer) cache P keeping now cache_enabled level queries
          control pool s w before c.id in
      (p, get_used_streams_same _ _ len, p', get_used_streams_same _ _ len')
