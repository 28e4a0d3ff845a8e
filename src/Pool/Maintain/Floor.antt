-- ===== src/Pool/Maintain/Floor.antt =====
-- What `Maintain` of src/detail/connection_pool.cpp takes out of a pool, whatever its peers answer.
use cassandra_driver.Base.{
  ℕ, zero, suc, ◌+◌, ◌-◌, ◌≤◌, ◌≡◌, ◌⊎◌, ◌∙◌, inl, inr, refl, sym, ap, List, [], ◌∷◌, ◌++◌,
  append-nil, append_assoc, ◌||◌, ◌&&◌, ltb, leb, if◌then◌else◌, none, some, length, length-append,
  Option-cases, Bool-cases, arith,
}
use cassandra_driver.Pool.{
  Connection, ConnectionPool, is_expired, is_idle, delete_connection, take_first, acquire_immediate,
  push, release,
}
use cassandra_driver.Pool.Client.{Client, StatementCache}
use cassandra_driver.Pool.Maintain.Rounds.{drops_idle-bounds}
use cassandra_driver.Pool.Maintain.{
  Maintaining, drops_idle, goes_on, close_round, ping_round, maintain_loop, maintain,
}

-- How many of the connections are neither broken nor expired.
pub healthy : ℕ → List Connection → ℕ
healthy now [] = 0
healthy now (c ∷ cs) =
    let rest = healthy now cs in if c.broken || is_expired now c then rest else suc rest

healthy-append :
    (now : ℕ) (cs ds : List Connection) → healthy now (cs ++ ds) ≡ healthy now cs + healthy now ds
unfolding healthy
healthy-append now [] ds = omega arith
healthy-append now (c ∷ cs) ds = ground (arith, healthy-append now cs ds)

-- A pool that has deleted some of its connections, so many of them healthy, and kept the others.
abbrev pub Lost : ℕ → ℕ → ConnectionPool → ConnectionPool → Type 0
Lost now count p q =
    (gone : List Connection) × (q.deleted ≡ p.deleted ++ gone)
    × (length q.connections + length gone ≡ length p.connections)
    × (healthy now gone ≡ count)

Lost-trans :
    (now j k : ℕ) (p q r : ConnectionPool) → Lost now j p q → Lost now k q r → Lost now (j + k) p r
Lost-trans now j k p q r (gone, e, len, n) (gone', e', len', n') = (
  gone ++ gone',
  e' ∙ (ap (λ ds. ds ++ gone') e ∙ append_assoc p.deleted gone gone'),
  omega (arith, len, len', length-append gone gone'),
  omega (arith, healthy-append now gone gone', n, n'),
)

take_first-dead :
    (now : ℕ) (cs : List Connection) → let t = take_first now cs in (healthy now t.dropped ≡ 0)
unfolding take_first healthy
take_first-dead now [] = refl
take_first-dead now (c ∷ cs) = ground (arith, take_first-dead now cs)

take_first-length :
    (now : ℕ) (cs : List Connection) {c : Connection}
    → let t = take_first now cs in
      t.taken ≡ some c → length t.left + length t.dropped + 1 ≡ length cs
unfolding take_first
take_first-length now [] e = cc
take_first-length now (d ∷ cs) {c} e = ground (arith, take_first-length now cs {c = c})

take_first-none :
    (now : ℕ) (cs : List Connection)
    → let t = take_first now cs in t.taken ≡ none → length t.left + length t.dropped ≡ length cs
unfolding take_first
take_first-none now [] e = refl
take_first-none now (d ∷ cs) e = ground (arith, take_first-none now cs)

release-dead :
    (now : ℕ) (c : Connection) (p : ConnectionPool)
    → let q = release now c p in
      ((q.connections ≡ p.connections ++ c ∷ []) × (q.deleted ≡ p.deleted))
      ⊎ ((q.connections ≡ p.connections)
          × (q.deleted ≡ p.deleted ++ c ∷ [])
          × (healthy now (c ∷ []) ≡ 0))
unfolding release push delete_connection healthy
release-dead now c p = elim (Bool-cases (is_expired now c && is_idle c)) [
  | inl over ↦ inr (ground (arith, over))
  | inr under ↦ elim (Bool-cases c.broken) [
    | inl b ↦ inr (ground (arith, under, b))
    | inr b ↦ inl (ground (arith, under, b))
  ]
]

module _ (now : ℕ) (p : ConnectionPool) where
  nothing_taken : (acquire_immediate now p).0 ≡ none → Lost now 0 p (acquire_immediate now p).1
  unfolding acquire_immediate
  nothing_taken e = (
    (take_first now p.connections).dropped,
    refl,
    take_first-none now p.connections e,
    take_first-dead now p.connections,
  )

  taken_deleted :
      (c : Connection)
      → (acquire_immediate now p).0 ≡ some c
      → Lost now (healthy now (c ∷ [])) p (delete_connection c (acquire_immediate now p).1)
  unfolding acquire_immediate delete_connection
  taken_deleted c e =
      let t = take_first now p.connections in
      (
        t.dropped ++ c ∷ [],
        append_assoc p.deleted t.dropped (c ∷ []),
        omega (arith, length-append t.dropped (c ∷ []), take_first-length now p.connections e),
        omega (arith, healthy-append now t.dropped (c ∷ []), take_first-dead now p.connections),
      )

  taken_released :
      (c d : Connection)
      → (acquire_immediate now p).0 ≡ some c
      → Lost now 0 p (release now d (acquire_immediate now p).1)
  unfolding acquire_immediate
  taken_released c d e =
      let t = take_first now p.connections in
      let left : ConnectionPool = record {
        connections = t.left;
        deleted = p.deleted ++ t.dropped;
      } in
      let len = take_first-length now p.connections e in
      let dead = take_first-dead now p.connections in
      elim (release-dead now d left) [
        | inl (back, same) ↦ (
          t.dropped,
          same,
          omega (arith, len, ap length back, length-append t.left (d ∷ [])),
          dead,
        )
        | inr (same, deleted, none_healthy) ↦ (
          t.dropped ++ d ∷ [],
          deleted ∙ append_assoc p.deleted t.dropped (d ∷ []),
          omega (arith, len, ap length same, length-append t.dropped (d ∷ [])),
          omega (arith, healthy-append now t.dropped (d ∷ []), dead, none_healthy),
        )
      ]

healthy_one : (now : ℕ) (c : Connection) → healthy now (c ∷ []) ≤ 1
unfolding healthy
healthy_one now c = ground arith

module _ (client : Client) (cache : StatementCache) (now min_size : ℕ) where
  -- No healthy connection is lost, or one of more than `min_size`.
  abbrev FewLost : ℕ → ℕ → ConnectionPool → ConnectionPool → Type 0
  FewLost pool_size drop_left p q =
      Lost now 0 p q ⊎ (Lost now 1 p q × (drop_left ≡ 1) × (suc min_size ≤ pool_size))

  after_closing :
      (pool_size drop_left : ℕ) (c : Connection) (p q r : ConnectionPool)
      → drop_left ≤ 1
      → (suc min_size ≤ suc pool_size) × (1 ≤ drop_left)
      → Lost now (healthy now (c ∷ [])) p q
      → FewLost pool_size (drop_left - 1) q r
      → FewLost (suc pool_size) drop_left p r
  after_closing pool_size drop_left c p q r one (above, may) closed (inr (_, again, _)) =
      absurd (omega (arith, one, again))
  after_closing pool_size drop_left c p q r one (above, may) closed (inl rest) =
      let (gone, deleted, len, n) = Lost-trans now (healthy now (c ∷ [])) 0 p q r closed rest in
      elim (Bool-cases (leb 1 (healthy now (c ∷ [])))) [
        | inl some_healthy ↦
            let count : healthy now gone ≡ 1 = ground (arith, n, some_healthy, healthy_one now c) in
            inr ((gone, deleted, len, count), omega (arith, one, may), above)
        | inr none_healthy ↦
            let count : healthy now gone ≡ 0 = ground (arith, n, none_healthy) in
            inl (gone, deleted, len, count)
      ]

  after_pinging :
      (pool_size drop_left : ℕ) (p q r : ConnectionPool)
      → Lost now 0 p q
      → FewLost pool_size drop_left q r
      → FewLost (suc pool_size) drop_left p r
  after_pinging pool_size drop_left p q r pinged (inl rest) =
      inl (Lost-trans now 0 0 p q r pinged rest)
  after_pinging pool_size drop_left p q r pinged (inr (rest, may, above)) =
      inr (Lost-trans now 0 1 p q r pinged rest, may, omega (arith, above))

  maintain_loop-FewLost :
      (pool_size : ℕ) (m : Maintaining client cache)
      → m.drop_left ≤ 1
      → FewLost pool_size m.drop_left m.pool
          (maintain_loop client cache now min_size pool_size m).1.pool
  unfolding maintain_loop close_round ping_round healthy
  maintain_loop-FewLost zero m one = inl ([], sym (append-nil m.pool.deleted), omega arith, refl)
  maintain_loop-FewLost (suc pool_size) m one =
      let (taken, left) = acquire_immediate now m.pool in
      elim (Option-cases taken) [
        | inl e ↦ rw (maintain_loop, e) (inl (nothing_taken now m.pool e))
        | inr (c, e) ↦ elim (Bool-cases (drops_idle (suc pool_size) min_size m.drop_left c)) [
          | inl idle ↦
              let n = close_round client cache now min_size c left m in
              rw (maintain_loop, e, idle)
                (after_closing pool_size m.drop_left c m.pool n.pool _ one
                  (drops_idle-bounds min_size (suc pool_size) m.drop_left c idle)
                  (taken_deleted now m.pool c e)
                  (maintain_loop-FewLost pool_size n (omega (arith, one))))
          | inr busy ↦
              let pinged = ping_round client cache now min_size c left m in
              let d = client.refresh pinged.1.world c in
              let lost = taken_released now m.pool c d e in
              elim (Bool-cases (goes_on pinged.0)) [
                | inl on ↦
                    rw (maintain_loop, e, busy, on)
                      (after_pinging pool_size m.drop_left m.pool pinged.1.pool _ lost
                        (maintain_loop-FewLost pool_size pinged.1 one))
                | inr off ↦ rw (maintain_loop, e, busy, off) (inl lost)
              ]
        ]
      ]

-- Whatever the peers answer, one maintenance deletes what it takes out of the pool and keeps the rest;
-- of what it deletes one connection at most is neither broken nor expired, and one only if the pool had
-- more than `min_size` connections.
pub maintain-floor :
    (client : Client) (cache : StatementCache) (now min_size wait_count : ℕ) (p : ConnectionPool)
    (s : cache.State) (w : client.World)
    → let q = (maintain client cache now min_size wait_count p s w).1.pool in
      (gone : List Connection) × (q.deleted ≡ p.deleted ++ gone)
      × (length q.connections + length gone ≡ length p.connections)
      × ((healthy now gone ≡ 0) ⊎ ((healthy now gone ≡ 1) × (suc min_size ≤ length p.connections)))
unfolding maintain
maintain-floor client cache now min_size wait_count p s w =
    let start : Maintaining client cache = record {
      pool = p;
      statements = s;
      world = w;
      drop_left = 1;
    } in
    elim (Bool-cases (ltb 0 wait_count)) [
      | inl waits ↦
          rw waits ([], sym (append-nil p.deleted), omega arith, inl (unfold healthy in refl))
      | inr none_waits ↦
          elim (maintain_loop-FewLost client cache now min_size (length p.connections) start
            (omega arith)) [
              | inl (gone, deleted, len, n) ↦ rw none_waits (gone, deleted, len, inl n)
              | inr ((gone, deleted, len, n), may, above) ↦
                  rw none_waits (gone, deleted, len, inr (n, above))
            ]
    ]
