-- ===== src/Pool/Shared/Alone.antt =====
-- The connection that `Maintain` of a pool (src/detail/connection_pool.cpp) closes, and who else has it.
use cassandra_driver.Base.{
  ℕ, zero, suc, ◌≡◌, ◌≢◌, ◌⊎◌, ◌∙◌, inl, inr, refl, sym, ap, subst, List, [], ◌∷◌, ◌++◌, map, false,
  none, some, Option, Occurs, arith,
}
use mathlib.Core.List.{Mem, Nodup, Nodup-cons, mem-append_left, mem-cons_self, mem-cons_of_mem}
use cassandra_driver.Pool.{Connection, acquire, is_idle}
use cassandra_driver.Pool.Acquire.{acquire-Eligible}
use cassandra_driver.Pool.Release.{members, held}
use cassandra_driver.Pool.Init.{PoolSettings}
use cassandra_driver.Pool.Maintain.{drops_idle}
use cassandra_driver.Pool.Shared.Objects.{id_of, map-append, object_ids-Nodup}
use cassandra_driver.Pool.Shared.{
  Shared, Phase, unopened, bump, lower, note, held_by, current, current_pool, acquired, Reaches,
  start, connects, fails, connected, acquires, guarded, unguarded, returns, breaks, begins, takes,
  drops, deletes, spares, pings, pinged, releases, closes, passes,
}

-- No call holds the connection, with a stream or without, or one did as `Maintain` began to close it.
abbrev pub IsAlone : Shared → Connection → Type 0
IsAlone s c = Occurs c.id s.surprised ⊎ ((s.waiting c.id ≡ 0) × (s.guards c.id ≡ 0))

Occurs-ids :
    (s : Shared) (c : Connection) (cs : List Connection)
    → Occurs c (map (current s) cs)
    → Mem c.id (map id_of cs)
unfolding current
Occurs-ids s c (d ∷ cs) (inl e) =
    subst (λ i. Mem i (map id_of (d ∷ cs))) (sym (ap id_of e)) mem-cons_self
Occurs-ids s c (d ∷ cs) (inr o) = mem-cons_of_mem d.id (Occurs-ids s c cs o)
Occurs-ids s c [] o = absurd o

-- `Acquire` gives no call the connection that `Maintain` has.
acquired_other :
    (settings : PoolSettings) (s : Shared) (c d : Connection)
    → Reaches settings s
    → s.taken ≡ some c
    → (acquire s.now false (current_pool s)).0 ≡ some d
    → d.id ≢ c.id
unfolding current_pool
acquired_other settings s c d r e found same =
    let (among, eligible, least) = acquire-Eligible s.now (current_pool s) found in
    let all : Nodup (map id_of (held (some c) ++ members s.pool)) =
      subst (λ t. Nodup (map id_of (held t ++ members s.pool))) e (object_ids-Nodup settings s r) in
    let in_pool : Mem d.id (map id_of (members s.pool)) =
      subst (Mem d.id) (sym (map-append s.pool.connections s.pool.deleted))
        (mem-append_left (map id_of s.pool.deleted) (Occurs-ids s d s.pool.connections among)) in
    (Nodup-cons.0 all).0 (subst (λ i. Mem i (map id_of (members s.pool))) same in_pool)

held_by-same :
    (found : Option Connection) (waiting : ℕ → ℕ) (id : ℕ)
    → ((d : Connection) → found ≡ some d → d.id ≢ id)
    → held_by found waiting id ≡ waiting id
unfolding held_by bump
held_by-same none waiting id other = refl
held_by-same (some d) waiting id other = ground (arith, other d refl)

noted :
    (id holders : ℕ) (surprised : List ℕ) → Occurs id (note id holders surprised) ⊎ (holders ≡ 0)
unfolding note
noted id zero surprised = inr refl
noted id (suc holders) surprised = inl (inl refl)

-- While `Maintain` waits for the `Close` of a connection: no call takes it, unless one held it already.
pub closing-IsAlone :
    (settings : PoolSettings) (s : Shared) (c : Connection)
    → s.taken ≡ some c
    → s.phase ≡ Phase.closing
    → Reaches settings s
    → IsAlone s c
unfolding unopened acquired bump lower note drops_idle is_idle current
closing-IsAlone settings s c e closing start = cc
closing-IsAlone settings s c e closing (connects {s = before} left l r) =
    closing-IsAlone settings before c e closing r
closing-IsAlone settings s c e closing (fails {s = before} others l r) =
    closing-IsAlone settings before c e closing r
closing-IsAlone settings s c e closing (connected {s = before} others d l fresh r) =
    closing-IsAlone settings before c e closing r
closing-IsAlone settings s c e closing (acquires {s = before} r) =
    let found = (acquire before.now false (current_pool before)).0 in
    let same =
      held_by-same found before.waiting c.id (λ d f. acquired_other settings before c d r e f) in
    elim (closing-IsAlone settings before c e closing r) [
      | inl o ↦ inl o
      | inr (nobody, unused) ↦ inr (same ∙ nobody, unused)
    ]
closing-IsAlone settings s c e closing (guarded {s = before} id waits free alive r) =
    elim (closing-IsAlone settings before c e closing r) [
      | inl o ↦ inl o
      | inr (nobody, unused) ↦
          let other : id ≢ c.id = λ same. omega (arith, waits, ap before.waiting same, nobody) in
          inr (ground (arith, other, nobody), ground (arith, other, unused))
    ]
closing-IsAlone settings s c e closing (unguarded {s = before} id has alive r) =
    elim (closing-IsAlone settings before c e closing r) [
      | inl o ↦ inl o
      | inr (nobody, unused) ↦
          let other : id ≢ c.id = λ same. omega (arith, has, ap before.guards same, unused) in
          inr (ground (arith, other, nobody), ground (arith, other, unused))
    ]
closing-IsAlone settings s c e closing (returns {s = before} id waits r) =
    elim (closing-IsAlone settings before c e closing r) [
      | inl o ↦ inl o
      | inr (nobody, unused) ↦ inr (ground (arith, nobody), unused)
    ]
closing-IsAlone settings s c e closing (breaks {s = before} id r) =
    closing-IsAlone settings before c e closing r
closing-IsAlone settings s c e closing (begins {s = before} free ended r) =
    closing-IsAlone settings before c e closing r
closing-IsAlone settings s c e closing (takes {s = before} free more r) = cc
closing-IsAlone settings s c e closing (drops {s = before} d e' holds idle r) =
    let same : d ≡ c = cc in
    subst (IsAlone s) same (elim (noted d.id (before.waiting d.id) before.surprised) [
      | inl o ↦ inl o
      | inr nobody ↦ inr (nobody, ground (arith, idle))
    ])
closing-IsAlone settings s c e closing (deletes {s = before} d e' phase r) = cc
closing-IsAlone settings s c e closing (spares {s = before} d e' holds busy r) = cc
closing-IsAlone settings s c e closing (pings {s = before} d e' keeps free alive r) = cc
closing-IsAlone settings s c e closing (pinged {s = before} d e' pinging alive r) = cc
closing-IsAlone settings s c e closing (releases {s = before} d rounds e' keeps left r) = cc
closing-IsAlone settings s c e closing (closes {s = before} more r) =
    closing-IsAlone settings before c e closing r
closing-IsAlone settings s c e closing (passes {s = before} r) =
    closing-IsAlone settings before c e closing r
