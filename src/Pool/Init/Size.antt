-- ===== src/Pool/Init/Size.antt =====
-- How large a pool is when it is open.
use cassandra_driver.Base.{
  ℕ, zero, suc, ◌+◌, ◌≤◌, ◌<◌, ◌≡◌, [], ◌∷◌, Option, none, some, length, length-append, arith,
}
use cassandra_driver.Base.Result.{ok}
use cassandra_driver.Pool.{Connection, ConnectionPool, push}
use cassandra_driver.Pool.Acquire.{IsEligible}
use cassandra_driver.Pool.Init.{
  PoolSettings, size_semaphore, lock_permit, Opening, do_connect, connect_all, init,
}

-- The connections in the pool and those it has deleted.
abbrev opened : ConnectionPool → ℕ
opened p = length p.connections + length p.deleted

opened-push :
    (now : ℕ) (c : Connection) (p : ConnectionPool) → opened (push now c p) ≡ suc (opened p)
unfolding push
opened-push now c p =
    ground (arith, length-append p.connections (c ∷ []), length-append p.deleted (c ∷ []))

-- With `n` permits left.
do_connect-opened :
    (now n : ℕ) (attempt : Option Connection) (o : Opening)
    → o.permits ≡ some n
    → (m : ℕ) × ((do_connect now attempt o).1.permits ≡ some m)
      × (opened (do_connect now attempt o).1.pool + m ≡ opened o.pool + n)
unfolding do_connect lock_permit
do_connect-opened now zero attempt o e = (zero, ground (arith, e), ground (arith, e))
do_connect-opened now (suc n) none o e = (suc n, ground (arith, e), ground (arith, e))
do_connect-opened now (suc n) (some c) o e =
    (n, ground (arith, e), ground (arith, e, opened-push now c o.pool))

connect_all-opened :
    (now n count : ℕ) (attempts : ℕ → Option Connection) (o : Opening)
    → o.permits ≡ some n
    → opened (connect_all now attempts count o).pool ≤ opened o.pool + n
unfolding connect_all
connect_all-opened now n zero attempts o e = omega arith
connect_all-opened now n (suc count) attempts o e =
    let (m, left, balance) = do_connect-opened now n (attempts count) o e in
    omega (
      arith,
      balance,
      connect_all-opened now m count attempts (do_connect now (attempts count) o).1 left,
    )

-- If `connecting_limit` is set, an opened pool has opened no more connections than that: the limit is
-- one on the connections, not on those being established.
init-limit :
    (now : ℕ) (settings : PoolSettings) (attempts : ℕ → Option Connection) {o : Opening}
    → 0 < settings.connecting_limit
    → init now settings attempts ≡ ok o
    → length o.pool.connections ≤ settings.connecting_limit
unfolding init size_semaphore
init-limit now settings attempts {o} limited e =
    let fresh : Opening = record {
      pool = record { connections = []; deleted = [] };
      permits = size_semaphore settings;
    } in
    let bound =
      connect_all-opened now settings.connecting_limit settings.min_size attempts fresh
        (ground (arith, limited)) in
    ground (arith, e, bound, limited)

do_connect-fills :
    (now : ℕ) (c : Connection) (o : Opening)
    → o.permits ≡ none
    → IsEligible now c
    → ((do_connect now (some c) o).1.permits ≡ none)
      × (length (do_connect now (some c) o).1.pool.connections ≡ suc (length o.pool.connections))
unfolding do_connect lock_permit push
do_connect-fills now c o free h = ground (arith, free, h, length-append o.pool.connections (c ∷ []))

connect_all-fills :
    (now count : ℕ) (connected : ℕ → Connection) (o : Opening)
    → o.permits ≡ none
    → ((i : ℕ) → IsEligible now (connected i))
    → length (connect_all now (λ i. some (connected i)) count o).pool.connections
      ≡ length o.pool.connections + count
unfolding connect_all
connect_all-fills now zero connected o free h = omega arith
connect_all-fills now (suc count) connected o free h =
    let (still_free, more) = do_connect-fills now (connected count) o free (h count) in
    omega (
      arith,
      more,
      connect_all-fills now count connected (do_connect now (some (connected count)) o).1 still_free
          h,
    )

-- With `min_size` at most `max_size`, no `connecting_limit`, and only connections that are neither
-- broken nor expired, an opened pool has `min_size` of them.
init-fills :
    (now : ℕ) (settings : PoolSettings) (connected : ℕ → Connection)
    → settings.min_size ≤ settings.max_size
    → settings.connecting_limit ≡ 0
    → ((i : ℕ) → IsEligible now (connected i))
    → (o : Opening) × (init now settings (λ i. some (connected i)) ≡ ok o)
      × (length o.pool.connections ≡ settings.min_size)
unfolding init size_semaphore
init-fills now settings connected fits unlimited h =
    let fresh : Opening = record {
      pool = record { connections = []; deleted = [] };
      permits = size_semaphore settings;
    } in
    (
      connect_all now (λ i. some (connected i)) settings.min_size fresh,
      ground (arith, fits),
      omega (
        arith,
        connect_all-fills now settings.min_size connected fresh (ground (arith, unlimited)) h,
      ),
    )
