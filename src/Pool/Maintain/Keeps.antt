-- ===== src/Pool/Maintain/Keeps.antt =====
-- The connections of a pool before and behind `Maintain` of src/detail/connection_pool.cpp.
use cassandra_driver.Base.{ℕ, zero, suc, length, ◌≡◌, subst, List, ◌∷◌, ◌++◌, none, some, arith}
use mathlib.Core.List.{Perm}
use mathlib.Core.List.Perm
use mathlib.Core.List as List
use cassandra_driver.Pool.{Connection, ConnectionPool, acquire_immediate, release}
use cassandra_driver.Pool.Release.{
  members, held, delete_connection-Perm, release-Perm, acquire_immediate-Perm,
}
use cassandra_driver.Pool.Client.{Client, KeepsIds, StatementCache}
use cassandra_driver.Pool.Maintain.{
  Maintaining, ping, close_round, ping_round, maintain_loop, maintain,
}

-- The objects that the pool has or had.
abbrev pub ids : ConnectionPool → List ℕ
ids p = List.map (λ (c : Connection). c.id) (members p)

-- Putting a connection back, whatever its flags have become.
released-ids :
    (now i : ℕ) (c : Connection) (p : ConnectionPool)
    → c.id ≡ i
    → Perm (ids (release now c p)) (i ∷ ids p)
released-ids now i c p e =
    subst (λ j. Perm (ids (release now c p)) (j ∷ ids p)) e
      (Perm.map (λ (d : Connection). d.id) (release-Perm now c p))

taken-ids :
    (now : ℕ) (p : ConnectionPool) (c : Connection)
    → (acquire_immediate now p).0 ≡ some c
    → Perm (c.id ∷ ids (acquire_immediate now p).1) (ids p)
taken-ids now p c e =
    subst
      (λ t.
        Perm (List.map (λ (d : Connection). d.id) (held t ++ members (acquire_immediate now p).1))
          (ids p))
      e (Perm.symm (Perm.map (λ (d : Connection). d.id) (acquire_immediate-Perm now p)))

untaken-ids :
    (now : ℕ) (p : ConnectionPool)
    → (acquire_immediate now p).0 ≡ none
    → Perm (ids (acquire_immediate now p).1) (ids p)
untaken-ids now p e =
    subst
      (λ t.
        Perm (List.map (λ (d : Connection). d.id) (held t ++ members (acquire_immediate now p).1))
          (ids p))
      e (Perm.symm (Perm.map (λ (d : Connection). d.id) (acquire_immediate-Perm now p)))

module _ (client : Client) (cache : StatementCache) (keeps : KeepsIds client)
    (now min_size : ℕ) where
  closed-ids :
      (c : Connection) (m : Maintaining client cache)
      → (acquire_immediate now m.pool).0 ≡ some c
      → let left = (acquire_immediate now m.pool).1 in
        Perm (ids (close_round client cache now min_size c left m).pool) (ids m.pool)
  unfolding close_round
  closed-ids c m e =
      Perm.trans
        (Perm.map (λ (d : Connection). d.id)
          (delete_connection-Perm c (acquire_immediate now m.pool).1))
        (taken-ids now m.pool c e)

  pinged-ids :
      (c : Connection) (m : Maintaining client cache)
      → (acquire_immediate now m.pool).0 ≡ some c
      → let left = (acquire_immediate now m.pool).1 in
        Perm (ids (ping_round client cache now min_size c left m).1.pool) (ids m.pool)
  unfolding ping_round
  pinged-ids c m e =
      let w = (ping client cache c m.statements m.world).world in
      Perm.trans
        (released-ids now c.id (client.refresh w c) (acquire_immediate now m.pool).1 (keeps w c))
        (taken-ids now m.pool c e)

  maintain_loop-ids :
      (pool_size : ℕ) (m : Maintaining client cache)
      → Perm (ids (maintain_loop client cache now min_size pool_size m).1.pool) (ids m.pool)
  unfolding maintain_loop
  maintain_loop-ids zero m = Perm.refl (ids m.pool)
  maintain_loop-ids (suc pool_size) m =
      let left = (acquire_immediate now m.pool).1 in
      grind (
        arith,
        untaken-ids now m.pool,
        (λ (c : Connection) (e : (acquire_immediate now m.pool).0 ≡ some c).
            Perm.trans
              (maintain_loop-ids pool_size (close_round client cache now min_size c left m))
              (closed-ids c m e)),
        (λ (c : Connection) (e : (acquire_immediate now m.pool).0 ≡ some c).
            Perm.trans
              (maintain_loop-ids pool_size (ping_round client cache now min_size c left m).1)
              (pinged-ids c m e)),
        (λ (c : Connection). pinged-ids c m),
      )

-- If a connection stays the same object, maintenance neither loses nor doubles one: the connections in
-- the pool together with those it has deleted are the same before and after, whatever the peers answer.
pub maintain-ids :
    (client : Client) (cache : StatementCache) (now min_size wait_count : ℕ) (p : ConnectionPool)
    (s : cache.State) (w : client.World)
    → KeepsIds client
    → Perm (ids (maintain client cache now min_size wait_count p s w).1.pool) (ids p)
unfolding maintain
maintain-ids client cache now min_size wait_count p s w keeps = ground (
  arith,
  maintain_loop-ids client cache keeps now min_size (length p.connections)
      (record { pool = p; statements = s; world = w; drop_left = 1 }),
  Perm.refl (ids p),
)
