-- ===== src/Pool/Shared/Objects.antt =====
-- That no task of a pool (src/detail/connection_pool.cpp) loses, doubles or deletes twice a connection.
use cassandra_driver.Base.{
  ℕ, false, ◌≡◌, ◌∙◌, refl, sym, ap, subst, List, [], ◌∷◌, ◌++◌, map, Option, none, some,
  append_assoc,
}
use mathlib.Core.List.{Perm, perm_append_comm, Nodup, Nodup-cons, Nodup-nil}
use mathlib.Core.List.Perm
use cassandra_driver.Pool.{Connection, ConnectionPool, acquire, acquire_immediate}
use cassandra_driver.Pool.Acquire.{acquire-Perm}
use cassandra_driver.Pool.Release.{
  members, held, delete_connection-Perm, push-Perm, release-Perm, acquire_immediate-Perm,
}
use cassandra_driver.Pool.Maintain.Keeps.{ids}
use cassandra_driver.Pool.Init.{PoolSettings}
use cassandra_driver.Pool.Shared.{
  Shared, unopened, current, current_pool, acquired, object_ids, Reaches, start, connects, fails,
  connected, acquires, guarded, unguarded, returns, breaks, begins, takes, drops, deletes, spares,
  pings, pinged, releases, closes, passes,
}

abbrev pub id_of : Connection → ℕ
id_of c = c.id

current-ids : (s : Shared) (cs : List Connection) → map id_of (map (current s) cs) ≡ map id_of cs
unfolding current
current-ids s [] = refl
current-ids s (c ∷ cs) = ap (◌∷◌ c.id) (current-ids s cs)

pub map-append : (cs ds : List Connection) → map id_of (cs ++ ds) ≡ map id_of cs ++ map id_of ds
map-append [] ds = refl
map-append (c ∷ cs) ds = ap (◌∷◌ c.id) (map-append cs ds)

current_pool-ids : (s : Shared) → ids (current_pool s) ≡ ids s.pool
unfolding current_pool
current_pool-ids s = rw (map-append, map-append, current-ids)

acquire-members :
    (now : ℕ) (p : ConnectionPool) → Perm (members p) (members (acquire now false p).1)
acquire-members now p =
    let (dropped, e, kept, dead, live) = acquire-Perm now p in
    let q = (acquire now false p).1 in
    subst (λ deleted. Perm (members p) (q.connections ++ deleted)) (sym e)
      (Perm.trans (Perm.append_right p.deleted kept) (
        rw (append_assoc q.connections dropped p.deleted)
          (Perm.append_left q.connections (perm_append_comm dropped p.deleted))))

pub acquired-ids : (s : Shared) → Perm (ids s.pool) (ids (acquired s).pool)
unfolding acquired
acquired-ids s =
    subst (λ before. Perm before (ids (acquired s).pool)) (current_pool-ids s)
      (Perm.map id_of (acquire-members s.now (current_pool s)))

-- More of what the pool has, behind the connection that `Maintain` holds.
pub behind_held :
    (taken : Option Connection) (p q : ConnectionPool)
    → Perm (ids p) (ids q)
    → Perm (map id_of (held taken ++ members p)) (map id_of (held taken ++ members q))
behind_held none p q h = h
behind_held (some c) p q h = Perm.cons c.id h

pub new_object :
    (taken : Option Connection) (c : Connection) (p q : ConnectionPool)
    → Perm (members q) (c ∷ members p)
    → Perm (c.id ∷ map id_of (held taken ++ members p)) (map id_of (held taken ++ members q))
new_object none c p q h = Perm.map id_of (Perm.symm h)
new_object (some d) c p q h =
    Perm.trans (Perm.swap d.id c.id (ids p)) (Perm.cons d.id (Perm.map id_of (Perm.symm h)))

-- The connection that `Maintain` held is with the pool's again.
pub put_back :
    (taken : Option Connection) (c d : Connection) (p q : ConnectionPool)
    → taken ≡ some c
    → c.id ≡ d.id
    → Perm (members q) (d ∷ members p)
    → Perm (map id_of (held taken ++ members p)) (ids q)
put_back none c d p q e same h = cc
put_back (some b) c d p q e same h =
    let same_object : b ≡ c = cc in
    subst (λ i. Perm (i ∷ ids p) (ids q)) (sym (ap id_of same_object ∙ same))
      (Perm.map id_of (Perm.symm h))

pub taken_out :
    (s : Shared)
    → let r = acquire_immediate s.now (current_pool s) in
      Perm (ids s.pool) (map id_of (held r.0 ++ members r.1))
taken_out s =
    let r = acquire_immediate s.now (current_pool s) in
    subst (λ before. Perm before (map id_of (held r.0 ++ members r.1))) (current_pool-ids s)
      (Perm.map id_of (acquire_immediate-Perm s.now (current_pool s)))

-- However the tasks of a pool follow each other, no connection is twice among those in the pool, the one
-- that `Maintain` holds and those that are deleted: none is deleted twice, or in use by the pool behind
-- its deletion.
pub object_ids-Nodup :
    (settings : PoolSettings) (s : Shared) → Reaches settings s → Nodup (object_ids s)
unfolding unopened current acquired
object_ids-Nodup settings s start = Nodup-nil
object_ids-Nodup settings s (connects {s = before} left e r) = object_ids-Nodup settings before r
object_ids-Nodup settings s (fails {s = before} others e r) = object_ids-Nodup settings before r
object_ids-Nodup settings s (connected {s = before} others c e fresh r) =
    Perm.nodup
      (new_object before.taken (current before c) before.pool s.pool
        (push-Perm before.now (current before c) before.pool))
      (Nodup-cons.1 (fresh, object_ids-Nodup settings before r))
object_ids-Nodup settings s (acquires {s = before} r) =
    Perm.nodup (behind_held before.taken before.pool s.pool (acquired-ids before))
      (object_ids-Nodup settings before r)
object_ids-Nodup settings s (guarded {s = before} id waits free alive r) =
    object_ids-Nodup settings before r
object_ids-Nodup settings s (unguarded {s = before} id has alive r) =
    object_ids-Nodup settings before r
object_ids-Nodup settings s (returns {s = before} id waits r) = object_ids-Nodup settings before r
object_ids-Nodup settings s (breaks {s = before} id r) = object_ids-Nodup settings before r
object_ids-Nodup settings s (takes {s = before} free more r) = Perm.nodup (taken_out before) (
    subst (λ t. Nodup (map id_of (held t ++ members before.pool))) free
      (object_ids-Nodup settings before r))
object_ids-Nodup settings s (begins {s = before} free ended r) = object_ids-Nodup settings before r
object_ids-Nodup settings s (drops {s = before} c e holds idle r) =
    object_ids-Nodup settings before r
object_ids-Nodup settings s (spares {s = before} c e holds busy r) =
    object_ids-Nodup settings before r
object_ids-Nodup settings s (pinged {s = before} c e pinging alive r) =
    object_ids-Nodup settings before r
object_ids-Nodup settings s (deletes {s = before} c e closing r) =
    Perm.nodup
      (put_back before.taken c (current before c) before.pool s.pool e refl
        (delete_connection-Perm (current before c) before.pool))
      (object_ids-Nodup settings before r)
object_ids-Nodup settings s (pings {s = before} c e keeps free alive r) =
    object_ids-Nodup settings before r
object_ids-Nodup settings s (releases {s = before} c rounds e keeps left r) =
    Perm.nodup
      (put_back before.taken c (current before c) before.pool s.pool e refl
        (release-Perm before.now (current before c) before.pool))
      (object_ids-Nodup settings before r)
object_ids-Nodup settings s (closes {s = before} more r) = object_ids-Nodup settings before r
object_ids-Nodup settings s (passes {s = before} r) = object_ids-Nodup settings before r
