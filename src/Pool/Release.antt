-- ===== src/Pool/Release.antt =====
-- Where connections are behind `Release`, `Push` and `AcquireImmediate` of
-- src/detail/connection_pool.cpp.
use cassandra_driver.Base.{
  ℕ, List, [], ◌∷◌, ◌++◌, append-nil, append_assoc, Option, none, some, arith,
}
use mathlib.Core.List.{Perm, perm_middle, perm_append_comm}
use mathlib.Core.List.Perm
use cassandra_driver.Pool.{
  Connection, ConnectionPool, delete_connection, push, release, take_first, acquire_immediate,
}

-- All that the pool has or had.
abbrev pub members : ConnectionPool → List Connection
members p = p.connections ++ p.deleted

abbrev pub held : Option Connection → List Connection
held none = []
held (some c) = c ∷ []

perm_last :
    (c : Connection) (xs ys : List Connection) → Perm (xs ++ (ys ++ c ∷ [])) (c ∷ (xs ++ ys))
perm_last c xs ys =
    rw (← append_assoc xs ys (c ∷ []))
      (rw (append-nil (xs ++ ys)) at (perm_middle {a = c} (xs ++ ys) []))

perm_inner :
    (c : Connection) (xs ys : List Connection) → Perm ((xs ++ c ∷ []) ++ ys) (c ∷ (xs ++ ys))
perm_inner c xs ys = rw (append_assoc xs (c ∷ []) ys) (perm_middle {a = c} xs ys)

perm_between :
    (c : Connection) (xs ys zs : List Connection)
    → Perm (xs ++ (ys ++ c ∷ zs)) (c ∷ (xs ++ (ys ++ zs)))
perm_between c xs ys zs =
    rw (← append_assoc xs ys (c ∷ zs), ← append_assoc xs ys zs) (perm_middle {a = c} (xs ++ ys) zs)

pub delete_connection-Perm :
    (c : Connection) (p : ConnectionPool) → Perm (members (delete_connection c p)) (c ∷ members p)
unfolding delete_connection
delete_connection-Perm c p = perm_last c p.connections p.deleted

pub push-Perm :
    (now : ℕ) (c : Connection) (p : ConnectionPool) → Perm (members (push now c p)) (c ∷ members p)
unfolding push
push-Perm now c p =
    ground (arith, perm_last c p.connections p.deleted, perm_inner c p.connections p.deleted)

-- A released connection is in the pool again, or deleted.
pub release-Perm :
    (now : ℕ) (c : Connection) (p : ConnectionPool)
    → Perm (members (release now c p)) (c ∷ members p)
unfolding release
release-Perm now c p =
    ground (arith, perm_last c p.connections p.deleted, perm_inner c p.connections p.deleted)

take_first-Perm :
    (now : ℕ) (cs : List Connection)
    → let t = take_first now cs in Perm cs (held t.taken ++ (t.left ++ t.dropped))
unfolding take_first
take_first-Perm now [] = Perm.refl []
take_first-Perm now (c ∷ cs) = take_cons (take_first-Perm now cs)
  where
    take_cons :
        let t = take_first now cs in
        Perm cs (held t.taken ++ (t.left ++ t.dropped))
        → let u = take_first now (c ∷ cs) in Perm (c ∷ cs) (held u.taken ++ (u.left ++ u.dropped))
    take_cons h =
        let t = take_first now cs in
        let front = Perm.cons c h in
        let to_left =
          Perm.trans front (Perm.symm (perm_middle {a = c} (held t.taken) (t.left ++ t.dropped))) in
        let to_dropped =
          Perm.trans front (Perm.symm (perm_between c (held t.taken) t.left t.dropped)) in
        let whole : Perm (c ∷ cs) (c ∷ (cs ++ [])) = rw (append-nil cs) (Perm.refl (c ∷ cs)) in
        ground (arith, to_left, to_dropped, whole)

-- `AcquireImmediate` takes one connection at most out of the pool; every other stays or is deleted.
pub acquire_immediate-Perm :
    (now : ℕ) (p : ConnectionPool)
    → let r = acquire_immediate now p in Perm (members p) (held r.0 ++ members r.1)
unfolding acquire_immediate
acquire_immediate-Perm now p =
    let t = take_first now p.connections in
    Perm.trans (Perm.append_right p.deleted (take_first-Perm now p.connections)) (
      rw
        (
          append_assoc (held t.taken) (t.left ++ t.dropped) p.deleted,
          append_assoc t.left t.dropped p.deleted,
        )
        (Perm.append_left (held t.taken)
          (Perm.append_left t.left (perm_append_comm t.dropped p.deleted))))
