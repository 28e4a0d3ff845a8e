-- ===== src/Pool/Shared/Room.antt =====
-- How many connections a pool (src/detail/connection_pool.cpp) has while its tasks run.
use cassandra_driver.Base.{
  ℕ, zero, suc, ◌+◌, ◌≤◌, ◌<◌, ◌≡◌, refl, ap, sym, subst, ◌∙◌, List, [], ◌∷◌, ◌++◌, map, none, some,
  length, length-append, arith,
}
use mathlib.Core.List.{Perm}
use mathlib.Core.List.{Permᴰ}
use mathlib.Core.Logic.{∥∥₁_elim}
use native.Mathlib.Nat.{ℕ_set}
use cassandra_driver.Pool.{
  Connection, ConnectionPool, sweep, take_first, acquire, acquire_immediate, push, release,
  delete_connection,
}
use cassandra_driver.Pool.Release.{members, held, delete_connection-Perm, push-Perm, release-Perm}
use cassandra_driver.Pool.Init.{PoolSettings, Permits, size_semaphore, lock_permit}
use cassandra_driver.Pool.Closing.{give_permit}
use cassandra_driver.Pool.Shared.{
  Shared, unopened, current, current_pool, acquired, object_ids, Reaches, start, connects, fails,
  connected, acquires, guarded, unguarded, returns, breaks, begins, takes, drops, deletes, spares,
  pings, pinged, releases, closes, passes,
}
use cassandra_driver.Pool.Shared.Objects.{
  id_of, acquired-ids, behind_held, new_object, put_back, taken_out,
}

length-Permᴰ : {xs ys : List ℕ} → Permᴰ xs ys → length xs ≡ length ys
length-Permᴰ Permᴰ.nil = refl
length-Permᴰ (Permᴰ.cons e d) = omega (arith, length-Permᴰ d)
length-Permᴰ (Permᴰ.swap {l = l} e f) = refl
length-Permᴰ (Permᴰ.trans d d') = omega (arith, length-Permᴰ d, length-Permᴰ d')

length-Perm : {xs ys : List ℕ} → Perm xs ys → length xs ≡ length ys
length-Perm {xs} {ys} h = ∥∥₁_elim h (ℕ_set (length xs) (length ys)) length-Permᴰ

-- With this limit: each permit is free, or a connecting task has it, or a connection that lives or is
-- being closed.
abbrev pub IsBalanced : ℕ → Shared → Type 0
IsBalanced limit s =
    (free : ℕ) × (s.permits ≡ some free)
    × (free + s.connecting + length (object_ids s) ≡ limit + s.closed)
    × (s.closed ≤ length s.pool.deleted)

-- The deleted connections stay.
push-deleted :
    (now : ℕ) (c : Connection) (p : ConnectionPool)
    → length p.deleted ≤ length (push now c p).deleted
unfolding push delete_connection
push-deleted now c p = ground (arith, length-append p.deleted (c ∷ []))

release-deleted :
    (now : ℕ) (c : Connection) (p : ConnectionPool)
    → length p.deleted ≤ length (release now c p).deleted
unfolding release delete_connection
release-deleted now c p = ground (arith, push-deleted now c p, length-append p.deleted (c ∷ []))

grown : (cs ds : List Connection) → length cs ≤ length (cs ++ ds)
grown cs ds = omega (arith, length-append cs ds)

-- The pool has other connections, as many as before.
moved :
    (limit : ℕ) (s t : Shared)
    → Perm (object_ids s) (object_ids t)
    → t.permits ≡ s.permits
    → t.connecting ≡ s.connecting
    → t.closed ≡ s.closed
    → length s.pool.deleted ≤ length t.pool.deleted
    → IsBalanced limit s
    → IsBalanced limit t
moved limit s t perm e1 e2 e3 more (free, e, sum, bound) =
    (free, e1 ∙ e, omega (arith, length-Perm perm, e2, e3, sum), omega (arith, e3, more, bound))

locked :
    (permits left : Permits) (free : ℕ)
    → permits ≡ some free
    → lock_permit permits ≡ some left
    → (fewer : ℕ) × (left ≡ some fewer) × (free ≡ suc fewer)
unfolding lock_permit
locked none left free e l = cc
locked (some zero) left free e l = cc
locked (some (suc n)) left free e l = (n, cc, ground (arith, e))

pub Reaches-IsBalanced :
    (settings : PoolSettings) (s : Shared)
    → 0 < settings.connecting_limit
    → Reaches settings s
    → IsBalanced settings.connecting_limit s
unfolding unopened size_semaphore acquired acquire acquire_immediate current current_pool
    lock_permit give_permit delete_connection
Reaches-IsBalanced settings s some_limit start =
    (settings.connecting_limit, ground (arith, some_limit), ground arith, ground arith)
Reaches-IsBalanced settings s some_limit (connects {s = before} left e r) =
    let (free, available, sum, bound) = Reaches-IsBalanced settings before some_limit r in
    let (fewer, others, one) = locked before.permits left free available e in
    (fewer, others, omega (arith, one, sum), bound)
Reaches-IsBalanced settings s some_limit (fails {s = before} others e r) =
    let (free, available, sum, bound) = Reaches-IsBalanced settings before some_limit r in
    (suc free, ap give_permit available, omega (arith, e, sum), bound)
Reaches-IsBalanced settings s some_limit (connected {s = before} others c e fresh r) =
    let (free, available, sum, bound) = Reaches-IsBalanced settings before some_limit r in
    let one_more = length-Perm (
      new_object before.taken (current before c) before.pool s.pool
        (push-Perm before.now (current before c) before.pool)) in
    (
      free,
      available,
      omega (arith, e, sum, one_more),
      omega (arith, bound, push-deleted before.now (current before c) before.pool),
    )
Reaches-IsBalanced settings s some_limit (acquires {s = before} r) =
    moved settings.connecting_limit before s
      (behind_held before.taken before.pool s.pool (acquired-ids before)) refl refl refl
      (grown before.pool.deleted
        (sweep before.now (map (current before) before.pool.connections)).1)
      (Reaches-IsBalanced settings before some_limit r)
Reaches-IsBalanced settings s some_limit (guarded {s = before} id waits free alive r) =
    Reaches-IsBalanced settings before some_limit r
Reaches-IsBalanced settings s some_limit (unguarded {s = before} id has alive r) =
    Reaches-IsBalanced settings before some_limit r
Reaches-IsBalanced settings s some_limit (returns {s = before} id waits r) =
    Reaches-IsBalanced settings before some_limit r
Reaches-IsBalanced settings s some_limit (breaks {s = before} id r) =
    Reaches-IsBalanced settings before some_limit r
Reaches-IsBalanced settings s some_limit (takes {s = before} free more r) =
    moved settings.connecting_limit before s
      (subst (λ t. Perm (map id_of (held t ++ members before.pool)) (object_ids s)) (sym free)
        (taken_out before))
      refl refl refl
      (grown before.pool.deleted
        (take_first before.now (map (current before) before.pool.connections)).dropped)
      (Reaches-IsBalanced settings before some_limit r)
Reaches-IsBalanced settings s some_limit (begins {s = before} free ended r) =
    Reaches-IsBalanced settings before some_limit r
Reaches-IsBalanced settings s some_limit (drops {s = before} c e holds idle r) =
    Reaches-IsBalanced settings before some_limit r
Reaches-IsBalanced settings s some_limit (spares {s = before} c e holds busy r) =
    Reaches-IsBalanced settings before some_limit r
Reaches-IsBalanced settings s some_limit (pinged {s = before} c e pinging alive r) =
    Reaches-IsBalanced settings before some_limit r
Reaches-IsBalanced settings s some_limit (deletes {s = before} c e closing r) =
    moved settings.connecting_limit before s
      (put_back before.taken c (current before c) before.pool s.pool e refl
        (delete_connection-Perm (current before c) before.pool))
      refl refl refl (grown before.pool.deleted (current before c ∷ []))
      (Reaches-IsBalanced settings before some_limit r)
Reaches-IsBalanced settings s some_limit (pings {s = before} c e keeps free alive r) =
    Reaches-IsBalanced settings before some_limit r
Reaches-IsBalanced settings s some_limit (releases {s = before} c rounds e keeps left r) =
    moved settings.connecting_limit before s
      (put_back before.taken c (current before c) before.pool s.pool e refl
        (release-Perm before.now (current before c) before.pool))
      refl refl refl (release-deleted before.now (current before c) before.pool)
      (Reaches-IsBalanced settings before some_limit r)
Reaches-IsBalanced settings s some_limit (closes {s = before} more r) =
    let (free, available, sum, bound) = Reaches-IsBalanced settings before some_limit r in
    (suc free, ap give_permit available, omega (arith, sum), omega (arith, more))
Reaches-IsBalanced settings s some_limit (passes {s = before} r) =
    Reaches-IsBalanced settings before some_limit r
