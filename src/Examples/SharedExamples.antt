-- ===== src/Examples/SharedExamples.antt =====
-- A pool of one permit whose connection breaks under a call, and one that loses a call's connection between
-- `Acquire` and the stream.
use cassandra_driver.Base.{ℕ, ◌⊎◌, ◌≡◌, refl, inl, [], ◌∷◌, true, false, none, some, Occurs, arith}
use mathlib.Core.List.{Nodup, not-mem-nil}
use cassandra_driver.Pool.{
  Connection, is_expired, is_idle, sweep, select, acquire, take_first, acquire_immediate, push,
  delete_connection,
}
use cassandra_driver.Pool.Init.{PoolSettings, size_semaphore, lock_permit}
use cassandra_driver.Pool.Maintain.{drops_idle}
use cassandra_driver.Pool.Shared.{
  Shared, unopened, current, current_pool, acquired, held_by, bump, lower, raise, Reaches, start,
  connects, connected, acquires, guarded, breaks, begins, takes, drops, deletes, Phase, rounds_left,
  note,
}
use cassandra_driver.Pool.Shared.Gone.{deleted-IsBroken}
use cassandra_driver.Pool.Shared.Objects.{object_ids-Nodup}
use cassandra_driver.Examples.OpeningExamples.{default_settings}

abbrev one_permit : PoolSettings
one_permit = default_settings 0 1 1

abbrev fresh : Connection
fresh = record { id = 7; broken = false; expires_at = none; used_streams = 0 }

-- The only permit is taken, and its connection is in the pool.
abbrev connecting_one : Shared
connecting_one = record {
  now = 0;
  pool = record { connections = []; deleted = [] };
  taken = none;
  phase = Phase.holds;
  pool_size = 0;
  drop_left = 0;
  surprised = [];
  broken = λ id. false;
  waiting = λ id. 0;
  guards = λ id. 0;
  permits = some 0;
  connecting = 1;
  closed = 0;
}

reaches_connecting : Reaches one_permit connecting_one
unfolding unopened size_semaphore lock_permit
reaches_connecting = connects (some 0) refl start

abbrev opened_one : Shared
opened_one = record connecting_one {
  pool = record { connections = fresh ∷ []; deleted = [] };
  connecting = 0;
}

reaches_opened : Reaches one_permit opened_one
unfolding push current is_expired is_idle
reaches_opened = connected 0 fresh refl not-mem-nil reaches_connecting

-- A call holds it without a stream.
abbrev held_one : Shared
held_one = record opened_one { waiting = bump 7 (λ id. 0) }

reaches_held : Reaches one_permit held_one
unfolding acquired acquire current_pool current sweep select is_expired held_by
reaches_held = acquires reaches_opened

-- It is healthy, `Maintain` finds it idle and closes it, and the call still holds it.
abbrev closing_one : Shared
closing_one = record held_one {
  pool = record { connections = []; deleted = [] };
  taken = some fresh;
  phase = Phase.closing;
  pool_size = 1;
  surprised = 7 ∷ [];
}

reaches_closing : Reaches one_permit closing_one
unfolding acquire_immediate take_first current_pool current is_expired is_idle drops_idle
    rounds_left note bump
reaches_closing =
    drops fresh refl refl refl (takes refl (omega arith) (begins refl refl reaches_held))

abbrev lost_one : Shared
lost_one = record held_one {
  pool = record { connections = []; deleted = fresh ∷ [] };
  phase = Phase.closing;
  surprised = 7 ∷ [];
}

healthy_connection_lost : Reaches one_permit lost_one × (lost_one.waiting 7 ≡ 1)
unfolding current bump delete_connection
healthy_connection_lost = (deletes fresh refl refl reaches_closing, refl)

-- The call gets its stream, the connection breaks, and the next `Acquire` deletes it.
abbrev guarded_one : Shared
guarded_one = record held_one { waiting = lower 7 (bump 7 (λ id. 0)); guards = bump 7 (λ id. 0) }

reaches_guarded : Reaches one_permit guarded_one
unfolding bump
reaches_guarded = guarded 7 (omega arith) (omega arith) (λ o. o) reaches_held

abbrev torn : Connection
torn = record { id = 7; broken = true; expires_at = none; used_streams = 1 }

abbrev deleted_one : Shared
deleted_one = record guarded_one {
  broken = raise 7 (λ id. false);
  pool = record { connections = []; deleted = torn ∷ [] };
}

reaches_deleted : Reaches one_permit deleted_one
unfolding acquired acquire current_pool current sweep select is_expired held_by bump raise
reaches_deleted = acquires (breaks 7 reaches_guarded)

torn_was_broken : (torn.broken ≡ true) ⊎ Occurs {A = ℕ} 7 []
unfolding bump
torn_was_broken =
    deleted-IsBroken one_permit deleted_one torn reaches_deleted (inl refl) (omega arith)

lost_once : Nodup {A = ℕ} (7 ∷ [])
lost_once = object_ids-Nodup one_permit lost_one healthy_connection_lost.0
