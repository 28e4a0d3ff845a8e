-- ===== src/Pool/Shared/Gone.antt =====
-- Which connections the tasks of a pool (src/detail/connection_pool.cpp) can have lost.
use cassandra_driver.Base.{
  ℕ, zero, suc, ◌<◌, ◌≡◌, ◌⊎◌, inl, inr, List, [], ◌∷◌, map, true, Occurs, All, All-append,
  All-Occurs, arith,
}
use cassandra_driver.Pool.{
  Connection, ConnectionPool, is_expired, is_idle, sweep, acquire, take_first, acquire_immediate,
  push, release, delete_connection,
}
use cassandra_driver.Pool.Init.{PoolSettings}
use cassandra_driver.Pool.Shared.Alone.{IsAlone, closing-IsAlone}
use cassandra_driver.Pool.Shared.{
  Shared, unopened, bump, lower, current, current_pool, acquired, Reaches, start, connects, fails,
  connected, acquires, guarded, unguarded, returns, breaks, begins, takes, drops, deletes, spares,
  pings, pinged, releases, closes, passes, note,
}

-- A deleted connection that was broken, or on which no call has a stream, or one of these.
abbrev IsGone : List ℕ → (ℕ → ℕ) → Connection → Type 0
IsGone surprised guards d = (d.broken ≡ true) ⊎ ((guards d.id ≡ 0) ⊎ Occurs d.id surprised)

bump-IsGone :
    (surprised : List ℕ) (id : ℕ) (guards : ℕ → ℕ) (ds : List Connection)
    → ¬ Occurs id (map (λ (d : Connection). d.id) ds)
    → All (IsGone surprised guards) ds
    → All (IsGone surprised (bump id guards)) ds
unfolding bump
bump-IsGone surprised id guards [] other h = tt
bump-IsGone surprised id guards (d ∷ ds) other h = (
  ground (arith, h.0, (λ (e : id ≡ d.id). other (inl e))),
  bump-IsGone surprised id guards ds (λ o. other (inr o)) h.1,
)

lower-IsGone :
    (surprised : List ℕ) (id : ℕ) (guards : ℕ → ℕ) (ds : List Connection)
    → All (IsGone surprised guards) ds
    → All (IsGone surprised (lower id guards)) ds
unfolding lower
lower-IsGone surprised id guards [] h = tt
lower-IsGone surprised id guards (d ∷ ds) h =
    (ground (arith, h.0), lower-IsGone surprised id guards ds h.1)

sweep-IsGone :
    (s : Shared) (cs : List Connection)
    → All (IsGone s.surprised s.guards) (sweep s.now (map (current s) cs)).1
unfolding sweep is_expired is_idle current
sweep-IsGone s [] = tt
sweep-IsGone s (c ∷ cs) = ground (arith, sweep-IsGone s cs)

take_first-IsGone :
    (s : Shared) (cs : List Connection)
    → All (IsGone s.surprised s.guards) (take_first s.now (map (current s) cs)).dropped
unfolding take_first is_expired is_idle current
take_first-IsGone s [] = tt
take_first-IsGone s (c ∷ cs) = ground (arith, take_first-IsGone s cs)

delete_connection-IsGone :
    (surprised : List ℕ) (guards : ℕ → ℕ) (c : Connection) (p : ConnectionPool)
    → IsGone surprised guards c
    → All (IsGone surprised guards) p.deleted
    → All (IsGone surprised guards) (delete_connection c p).deleted
unfolding delete_connection
delete_connection-IsGone surprised guards c p gone h =
    All-append (IsGone surprised guards) p.deleted (c ∷ []) h (gone, tt)

push-IsGone :
    (s : Shared) (c : Connection)
    → All (IsGone s.surprised s.guards) s.pool.deleted
    → All (IsGone s.surprised s.guards) (push s.now (current s c) s.pool).deleted
unfolding push is_idle current
push-IsGone s c h =
    ground (arith, h, delete_connection-IsGone s.surprised s.guards (current s c) s.pool)

release-IsGone :
    (s : Shared) (c : Connection)
    → All (IsGone s.surprised s.guards) s.pool.deleted
    → All (IsGone s.surprised s.guards) (release s.now (current s c) s.pool).deleted
unfolding release is_idle current
release-IsGone s c h =
    ground
      (arith, push-IsGone s c h, delete_connection-IsGone s.surprised s.guards (current s c) s.pool)

note-IsGone :
    (id holders : ℕ) (surprised : List ℕ) (guards : ℕ → ℕ) (ds : List Connection)
    → All (IsGone surprised guards) ds
    → All (IsGone (note id holders surprised) guards) ds
unfolding note
note-IsGone id zero surprised guards ds h = h
note-IsGone id (suc holders) surprised guards [] h = tt
note-IsGone id (suc holders) surprised guards (d ∷ ds) (gone, h) =
    (noted gone, note-IsGone id (suc holders) surprised guards ds h)
  where
    noted : IsGone surprised guards d → IsGone (id ∷ surprised) guards d
    noted (inl broken) = inl broken
    noted (inr (inl unused)) = inr (inl unused)
    noted (inr (inr o)) = inr (inr (inr o))

Reaches-IsGone :
    (settings : PoolSettings) (s : Shared)
    → Reaches settings s
    → All (IsGone s.surprised s.guards) s.pool.deleted
unfolding unopened acquired current_pool acquire acquire_immediate is_idle current
Reaches-IsGone settings s start = tt
Reaches-IsGone settings s (connects {s = before} left e r) = Reaches-IsGone settings before r
Reaches-IsGone settings s (fails {s = before} others e r) = Reaches-IsGone settings before r
Reaches-IsGone settings s (connected {s = before} others c e fresh r) =
    push-IsGone before c (Reaches-IsGone settings before r)
Reaches-IsGone settings s (acquires {s = before} r) =
    All-append (IsGone before.surprised before.guards) before.pool.deleted
      (sweep before.now (map (current before) before.pool.connections)).1
      (Reaches-IsGone settings before r) (sweep-IsGone before before.pool.connections)
Reaches-IsGone settings s (guarded {s = before} id waits free alive r) =
    bump-IsGone before.surprised id before.guards before.pool.deleted alive
      (Reaches-IsGone settings before r)
Reaches-IsGone settings s (unguarded {s = before} id has alive r) =
    lower-IsGone before.surprised id before.guards before.pool.deleted
      (Reaches-IsGone settings before r)
Reaches-IsGone settings s (returns {s = before} id waits r) = Reaches-IsGone settings before r
Reaches-IsGone settings s (breaks {s = before} id r) = Reaches-IsGone settings before r
Reaches-IsGone settings s (begins {s = before} free ended r) = Reaches-IsGone settings before r
Reaches-IsGone settings s (takes {s = before} free more r) =
    All-append (IsGone before.surprised before.guards) before.pool.deleted
      (take_first before.now (map (current before) before.pool.connections)).dropped
      (Reaches-IsGone settings before r) (take_first-IsGone before before.pool.connections)
Reaches-IsGone settings s (drops {s = before} c e holds idle r) =
    note-IsGone c.id (before.waiting c.id) before.surprised before.guards before.pool.deleted
      (Reaches-IsGone settings before r)
Reaches-IsGone settings s (deletes {s = before} c e closing r) =
    delete_connection-IsGone before.surprised before.guards (current before c) before.pool
      (unnoticed (closing-IsAlone settings before c e closing r)) (Reaches-IsGone settings before r)
  where
    unnoticed : IsAlone before c → IsGone before.surprised before.guards (current before c)
    unnoticed (inl o) = inr (inr o)
    unnoticed (inr (nobody, unused)) = inr (inl unused)
Reaches-IsGone settings s (spares {s = before} c e holds busy r) = Reaches-IsGone settings before r
Reaches-IsGone settings s (pings {s = before} c e keeps free alive r) =
    bump-IsGone before.surprised c.id before.guards before.pool.deleted alive
      (Reaches-IsGone settings before r)
Reaches-IsGone settings s (pinged {s = before} c e pinging alive r) =
    lower-IsGone before.surprised c.id before.guards before.pool.deleted
      (Reaches-IsGone settings before r)
Reaches-IsGone settings s (releases {s = before} c rounds e keeps left r) =
    release-IsGone before c (Reaches-IsGone settings before r)
Reaches-IsGone settings s (closes {s = before} more r) = Reaches-IsGone settings before r
Reaches-IsGone settings s (passes {s = before} r) = Reaches-IsGone settings before r

-- However the calls, the maintenance, the connecting tasks and the close tasks of a pool follow each
-- other: a connection on which a call has a stream is deleted only if it was broken, or by `Maintain`, which
-- found it idle while a call that had yet to take its stream held it.
pub deleted-IsBroken :
    (settings : PoolSettings) (s : Shared) (d : Connection)
    → Reaches settings s
    → Occurs d s.pool.deleted
    → 0 < s.guards d.id
    → (d.broken ≡ true) ⊎ Occurs d.id s.surprised
deleted-IsBroken settings s d r o used =
    used_gone
      (All-Occurs (IsGone s.surprised s.guards) s.pool.deleted (Reaches-IsGone settings s r) o)
  where
    used_gone : IsGone s.surprised s.guards d → (d.broken ≡ true) ⊎ Occurs d.id s.surprised
    used_gone (inl broken) = inl broken
    used_gone (inr (inl unused)) = absurd (omega (arith, used, unused))
    used_gone (inr (inr o)) = inr o
