-- ===== src/Wire/Node/Refines.antt =====
-- `Execute` of src/detail/connection_pool.cpp over such a node refines the database.
use cassandra_driver.Base.{
  ℕ, ◌≡◌, inl, inr, refl, sym, subst, ap, ◌∙◌, Bool, false, Bool-cases, Option, some, Option-cases,
  arith,
}
use cassandra_driver.Base.Result.{ok}
use cassandra_driver.Io.{RawBuffer}
use cassandra_driver.Protocol.Lz4.{Compressor}
use cassandra_driver.Protocol.Requests.{Consistency, QueryParameters, RequestBody, new_request}
use cassandra_driver.Rows.{ResultSet, result_set}
use cassandra_driver.Connection.{ConnectionImpl}
use cassandra_driver.Connection.Calls.{execute_message_async-IsStocked}
use cassandra_driver.Pool.{Connection, ConnectionPool, acquire}
use cassandra_driver.Pool.Client.{
  StatementCache, CacheDocumented, CacheFaithful, OptionalCommandControl,
}
use cassandra_driver.Pool.Statements.{Called, can_prepare_statement, prepared_id, execute}
use cassandra_driver.Pool.Statements.Steps.{
  prepared_id_found, prepared_id_asked, execute_by_id, execute_by_text,
}
use cassandra_driver.Wire.{Peer, World, connections}
use cassandra_driver.Wire.Streams.{Each, IsKept, connections-Keeping}
use cassandra_driver.Wire.Node.{Database, Serves}
use cassandra_driver.Wire.Node.Reached.{FitsFrame, IsReady, SameFlags}
use cassandra_driver.Wire.Node.Served.{prepare_served, execute_served, execute_prepared_served}

-- Every connection is uncompressed and has a free stream.
abbrev pub Ready : ℕ → Option Compressor → ConnectionImpl → Type 0
Ready id k c = IsReady k c

pub Ready-kept : (peer : Peer) → IsKept peer Ready
Ready-kept peer id k choice answer request c ready =
    let (stocked, len) =
      execute_message_async-IsStocked k choice answer (new_request request) c ready.stocked in
    record {
      plain = ready.plain;
      stocked = stocked;
      some_free = omega (arith, len, ready.some_free);
    }

module _ (peer : Peer) (db : Database) (serves : Serves peer db) (cache : StatementCache) where
  abbrev pub IsReadyWorld : World peer → Type 0
  IsReadyWorld w = Each peer Ready w

  -- The cache has no id but the node's.
  pub record IsConsistent (s : cache.State) : Type 0 where
    pub at :
        (text found : RawBuffer)
        → (cache.get s text).0 ≡ some found
        → found ≡ (serves.describe text).id

  -- The requests that the execution of a statement may send fit their prefixes and a frame.
  pub record FitsStatement (level : Consistency) (text : RawBuffer) (params : QueryParameters)
      : Type 0 where
    pub prepare : FitsFrame (RequestBody.prepare text)
    pub query : FitsFrame (RequestBody.query level text params)
    pub execute : FitsFrame (RequestBody.execute level (serves.describe text).id params)

  -- The id of a statement: from the cache or from the node, and the database as it was.
  pub record IsPrepared (text : RawBuffer) (w : World peer)
      (p : Called (connections peer) cache RawBuffer) : Type 0 where
    pub outcome : p.outcome ≡ ok (serves.describe text).id
    pub consistent : IsConsistent p.statements
    pub ready : IsReadyWorld p.world
    pub same : serves.contents p.world.node ≡ serves.contents w.node
    pub flags : SameFlags peer w p.world

  pub get-IsConsistent :
      CacheDocumented cache
      → (s : cache.State) (text : RawBuffer) → IsConsistent s
      → IsConsistent (cache.get s text).1
  get-IsConsistent documented s text h = record {
    at = λ other found e. h.at other found (sym (documented.get-get s text other) ∙ e);
  }

  pub put-IsConsistent :
      CacheFaithful cache
      → (s : cache.State) (text : RawBuffer) → IsConsistent s
      → IsConsistent (cache.put s text (serves.describe text).id)
  put-IsConsistent faithful s text h = record {
    at = λ other found e.
        elim (faithful.get-put_other s text (serves.describe text).id other found e) [
          | inl (same, e') ↦ rw same e'
          | inr e' ↦ h.at other found e'
        ];
  }

  pub prepared_id_served :
      CacheDocumented cache
      → CacheFaithful cache
      → (c : Connection) (text : RawBuffer) (s : cache.State) (w : World peer) → IsConsistent s
      → IsReadyWorld w
      → FitsFrame (RequestBody.prepare text)
      → IsPrepared text w (prepared_id (connections peer) cache (some c) text s w)
  prepared_id_served documented faithful c text s w consistent ready fits =
      let Outcome = IsPrepared text w in
      elim (Option-cases (cache.get s text).0) [
        | inl missing ↦
            let (id, same, flags) = prepare_served peer db serves c w (ready c.id) text fits in
            subst Outcome (sym (prepared_id_asked (connections peer) cache c text s w missing id))
              (record {
                outcome = refl;
                consistent =
                    put-IsConsistent faithful _ text
                      (get-IsConsistent documented s text consistent);
                ready = (connections-Keeping peer Ready (Ready-kept peer)).prepare c text w ready;
                same = same;
                flags = flags;
              })
        | inr (found, e) ↦
            subst Outcome (sym (prepared_id_found (connections peer) cache (some c) text s w e))
              (record {
                outcome = ap ok (consistent.at text found e);
                consistent = get-IsConsistent documented s text consistent;
                ready = ready;
                same = refl;
                flags = λ at. refl;
              })
      ]

  -- What a call of the pool that runs a statement comes to.
  pub record Runs (text : RawBuffer) (params : QueryParameters) (w : World peer)
      (r : Called (connections peer) cache ResultSet) : Type 0 where
    pub outcome : r.outcome ≡ ok (result_set (some (db.run (serves.contents w.node) text params).0))
    pub contents : serves.contents r.world.node ≡ (db.run (serves.contents w.node) text params).1
    pub consistent : IsConsistent r.statements
    pub ready : IsReadyWorld r.world
    pub flags : SameFlags peer w r.world

  -- Over a node that serves a database, and a cache that does what it documents: if `Execute` finds a
  -- connection, the cached ids are the node's, the connections are uncompressed with a free stream each,
  -- and the requests fit, then its outcome is the rows of the statement, which has run exactly once,
  -- whether it was sent as text, prepared before, or prepared now; and what was asked of the cache and
  -- of the connections holds again.
  pub execute-Runs :
      (documented : CacheDocumented cache) (faithful : CacheFaithful cache) (now : ℕ)
      (cache_enabled : Bool) (level : Consistency) (text : RawBuffer) (params : QueryParameters)
      (control : OptionalCommandControl) (pool : ConnectionPool) (s : cache.State) (w : World peer)
      {c : Connection}
      → (acquire now false pool).0 ≡ some c
      → IsConsistent s
      → IsReadyWorld w
      → FitsStatement level text params
      → Runs text params w
          (execute (connections peer) cache now cache_enabled level text params control pool s w).0
  execute-Runs documented faithful now cache_enabled level text params control pool s w {c} found
        consistent ready fits =
      let keeping = connections-Keeping peer Ready (Ready-kept peer) in
      elim (Bool-cases (can_prepare_statement control cache_enabled)) [
        | inl can ↦
            let p =
              prepared_id_served documented faithful c text s w consistent ready fits.prepare in
            let called = prepared_id (connections peer) cache (some c) text s w in
            let (rows, after, flags) =
              execute_prepared_served peer db serves c called.world (p.ready c.id) level text params
                control fits.execute in
            subst (Runs text params w)
              (sym (
                execute_by_id (connections peer) cache now cache_enabled level text params control
                  pool s w c found can p.outcome))
              (record {
                outcome = rw (← p.same) rows;
                contents = rw (← p.same) after;
                consistent = p.consistent;
                ready =
                    keeping.execute_prepared c level (serves.describe text).id params control
                      called.world p.ready;
                flags = λ at. flags at ∙ p.flags at;
              })
        | inr cannot ↦
            let (rows, after, flags) =
              execute_served peer db serves c w (ready c.id) level text params control fits.query in
            subst (Runs text params w)
              (sym (
                execute_by_text (connections peer) cache now cache_enabled level text params control
                  pool s w c found cannot))
              (record {
                outcome = rows;
                contents = after;
                consistent = consistent;
                ready = keeping.execute c level text params control w ready;
                flags = flags;
              })
      ]
