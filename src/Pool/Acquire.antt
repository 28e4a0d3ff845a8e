-- ===== src/Pool/Acquire.antt =====
-- Which connection `Acquire` of src/detail/connection_pool.cpp answers with, and which it deletes.
use cassandra_driver.Base.{
  ℕ, ◌≤◌, ◌<◌, ◌≡◌, ◌↔◌, ◌⊎◌, inl, inr, refl, ap, subst, append-nil, List, [], ◌∷◌, ◌++◌, true,
  false, ◌&&◌, Option, none, some, All, Occurs, Occurs-append_right, All-Occurs, Option-cases,
  arith,
}
use mathlib.Core.List.{Perm, perm_middle}
use mathlib.Core.List.Perm
use cassandra_driver.Pool.{Connection, ConnectionPool, is_expired, is_idle, sweep, select, acquire}

-- A connection that `Acquire` deletes: broken, or expired and idle.
abbrev pub IsDead : ℕ → Connection → Type 0
IsDead now c = (c.broken ≡ true) ⊎ ((is_expired now c ≡ true) × (is_idle c ≡ true))

abbrev pub IsLive : ℕ → Connection → Type 0
IsLive now c = (c.broken ≡ false) × ((is_expired now c && is_idle c) ≡ false)

sweep-kept : (now : ℕ) (cs : List Connection) → All (IsLive now) (sweep now cs).0
unfolding sweep
sweep-kept now [] = tt
sweep-kept now (c ∷ cs) = ground (arith, sweep-kept now cs)

sweep-dropped : (now : ℕ) (cs : List Connection) → All (IsDead now) (sweep now cs).1
unfolding sweep
sweep-dropped now [] = tt
sweep-dropped now (c ∷ cs) = ground (arith, sweep-dropped now cs)

-- A connection that may take a new request.
abbrev pub IsEligible : ℕ → Connection → Type 0
IsEligible now c = (c.broken ≡ false) × (is_expired now c ≡ false)

abbrev NotBusier : Connection → Option Connection → Type 0
NotBusier c none = Unit {0}
NotBusier c (some b) = c.used_streams ≤ b.used_streams

abbrev pub Least : ℕ → Connection → List Connection → Type 0
Least now c =
    All λ d. (d.broken ≡ true) ⊎ ((is_expired now d ≡ true) ⊎ (c.used_streams ≤ d.used_streams))

select-sweep :
    (now : ℕ) (best : Option Connection) (cs : List Connection) {c : Connection}
    → select now best (sweep now cs).0 ≡ some c
    → ((best ≡ some c) ⊎ (Occurs c cs × IsEligible now c)) × NotBusier c best × Least now c cs
unfolding select sweep
select-sweep now none [] e = cc
select-sweep now (some b) [] e = ground arith
select-sweep now none (d ∷ ds) {c} e =
    ground (arith, select-sweep now none ds {c = c}, select-sweep now (some d) ds {c = c})
select-sweep now (some b) (d ∷ ds) {c} e =
    ground (arith, select-sweep now (some b) ds {c = c}, select-sweep now (some d) ds {c = c})

select-sweep-none :
    (now : ℕ) (best : Option Connection) (cs : List Connection)
    → select now best (sweep now cs).0 ≡ none
    → (best ≡ none) × All (λ d. ¬ IsEligible now d) cs
unfolding select sweep
select-sweep-none now none [] e = (refl, tt)
select-sweep-none now (some b) [] e = cc
select-sweep-none now none (d ∷ ds) e =
    ground (arith, select-sweep-none now none ds, select-sweep-none now (some d) ds)
select-sweep-none now (some b) (d ∷ ds) e =
    ground (arith, select-sweep-none now (some b) ds, select-sweep-none now (some d) ds)

-- What `Acquire` answers with, unless its deadline has passed.
pub acquire-Eligible :
    (now : ℕ) (p : ConnectionPool) {c : Connection}
    → (acquire now false p).0 ≡ some c
    → Occurs c p.connections × IsEligible now c × Least now c p.connections
unfolding acquire
acquire-Eligible now p {c} e = ground (arith, select-sweep now none p.connections {c = c} e)

-- Unless its deadline has passed, `Acquire` answers with the null pointer exactly if the pool has no
-- connection that is neither broken nor expired.
pub acquire-none_iff :
    (now : ℕ) (p : ConnectionPool)
    → ((acquire now false p).0 ≡ none) ↔ All (λ d. ¬ IsEligible now d) p.connections
unfolding acquire
acquire-none_iff now p = (
  λ e. (select-sweep-none now none p.connections e).1,
  λ h. elim (Option-cases (acquire now false p).0) [
    | inl e ↦ e
    | inr (c, e) ↦
        let least = acquire-Eligible now p e in
        absurd (All-Occurs (λ d. ¬ IsEligible now d) p.connections h least.0 least.1)
  ],
)

-- With its deadline passed, `Acquire` answers with the null pointer and leaves the pool as it is. Before,
-- it answers with the null pointer exactly if every connection of the pool is broken or expired, and in
-- every other case with a connection of the pool that is neither, and no such connection of the pool has
-- fewer streams in use.
pub acquire-Least :
    (now : ℕ) (p : ConnectionPool)
    → (acquire now true p ≡ (none, p))
      × (((acquire now false p).0 ≡ none) ↔ All (λ d. ¬ IsEligible now d) p.connections)
      × (((acquire now false p).0 ≡ none)
          ⊎ ((c : Connection) × ((acquire now false p).0 ≡ some c)
              × Occurs c p.connections
              × IsEligible now c
              × Least now c p.connections))
unfolding acquire
acquire-Least now p = (
  refl,
  acquire-none_iff now p,
  elim (Option-cases (acquire now false p).0) [
    | inl e ↦ inl e
    | inr (c, e) ↦
        let (among, eligible, least) = acquire-Eligible now p e in
        inr (c, e, among, eligible, least)
  ],
)

sweep-Perm : (now : ℕ) (cs : List Connection) → Perm cs ((sweep now cs).0 ++ (sweep now cs).1)
unfolding sweep
sweep-Perm now [] = Perm.refl []
sweep-Perm now (c ∷ cs) = sweep_cons (sweep-Perm now cs)
  where
    sweep_cons :
        Perm cs ((sweep now cs).0 ++ (sweep now cs).1)
        → Perm (c ∷ cs) ((sweep now (c ∷ cs)).0 ++ (sweep now (c ∷ cs)).1)
    sweep_cons h =
        let front = Perm.cons c h in
        let behind =
          Perm.trans front (Perm.symm (perm_middle {a = c} (sweep now cs).0 (sweep now cs).1)) in
        ground (arith, front, behind)

-- Unless its deadline has passed, what `Acquire` takes out of the pool it deletes, and these are the
-- connections that are broken, or expired and idle. All others stay.
pub acquire-Perm :
    (now : ℕ) (p : ConnectionPool)
    → let q = (acquire now false p).1 in
      (dropped : List Connection) × (q.deleted ≡ p.deleted ++ dropped)
      × Perm p.connections (q.connections ++ dropped)
      × All (IsDead now) dropped
      × All (IsLive now) q.connections
unfolding acquire
acquire-Perm now p = (
  (sweep now p.connections).1,
  refl,
  sweep-Perm now p.connections,
  sweep-dropped now p.connections,
  sweep-kept now p.connections,
)

sweep-dropped_broken :
    (now : ℕ) (c : Connection) (cs : List Connection)
    → Occurs c cs
    → c.broken ≡ true
    → Occurs c (sweep now cs).1
unfolding sweep
sweep-dropped_broken now c [] h b = absurd h
sweep-dropped_broken now c (d ∷ ds) (inl e) b = ground (arith, ap (λ (x : Connection). x.broken) e)
sweep-dropped_broken now c (d ∷ ds) (inr h) b = ground (arith, sweep-dropped_broken now c ds h b)

-- Unless its deadline has passed, `Acquire` deletes a broken connection of the pool also while some of
-- its streams are in use.
pub acquire_deletes_busy :
    (now : ℕ) (p : ConnectionPool) (c : Connection)
    → Occurs c p.connections
    → c.broken ≡ true
    → 0 < c.used_streams
    → Occurs c (acquire now false p).1.deleted
unfolding acquire
acquire_deletes_busy now p c h b busy =
    Occurs-append_right c p.deleted (sweep now p.connections).1
      (sweep-dropped_broken now c p.connections h b)

sweep_eligible :
    (now : ℕ) (cs : List Connection) → All (IsEligible now) cs → sweep now cs ≡ (cs, [])
unfolding sweep
sweep_eligible now [] h = refl
sweep_eligible now (c ∷ cs) h = ground (arith, sweep_eligible now cs h.1)

-- A pool of connections that may all take a request gives one of them, and stays as it is.
pub acquire_eligible :
    (now : ℕ) (p : ConnectionPool) (c : Connection) (cs : List Connection)
    → p.connections ≡ c ∷ cs
    → All (IsEligible now) (c ∷ cs)
    → ((found : Connection) × ((acquire now false p).0 ≡ some found))
      × ((acquire now false p).1 ≡ p)
acquire_eligible now p c cs e h = (
  elim (Option-cases (acquire now false p).0) [
    | inl missing ↦
        let nobody = subst (All (λ d. ¬ IsEligible now d)) e ((acquire-none_iff now p).0 missing) in
        absurd (nobody.0 h.0)
    | inr found ↦ found
  ],
  unfold acquire in ground (arith, e, sweep_eligible now (c ∷ cs) h, append-nil p.deleted),
)
