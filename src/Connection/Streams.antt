-- ===== src/Connection/Streams.antt =====
-- Stream ids: src/detail/stream_pool.hpp and stream_pool.cpp.
-- `NonFifoMpmcQueue` promises no order, so a `Pop` that succeeds takes the element that `choice`
-- names; it fails on an empty queue, and may fail at its deadline (`none`).
pub mod Balance
pub mod Held
use cassandra_driver.Base.{
  ℕ, zero, suc, ◌-◌, ◌≡◌, List, [], ◌∷◌, Option, none, some, ltb, if◌then◌else◌, length,
}
use cassandra_driver.Base.Result.{Result, ok, throws, connection_error}

abbrev pub max_streams : ℕ
max_streams = 1024

-- The queue of the free ids.
abbrev pub StreamPool : Type 0
StreamPool = List ℕ

-- The rounds of the constructor's loop: `id` and the ids behind it.
unfoldable pub push_from : ℕ → ℕ → StreamPool
push_from id zero = []
push_from id (suc rounds) = id ∷ push_from (suc id) rounds

-- `StreamPool()`
unfoldable pub new_stream_pool : StreamPool
unfolding push_from
new_stream_pool = push_from 0 max_streams

-- `_consumer.Pop`
pub pop : ℕ → StreamPool → Option (ℕ × StreamPool)
pop choice [] = none
pop zero (id ∷ ids) = some (id, ids)
pop (suc choice) (id ∷ ids) = elim (pop choice ids) [
  | none ↦ some (id, ids)
  | some (found, rest) ↦ some (found, id ∷ rest)
]

-- `StreamPool::Acquire`
unfoldable pub acquire_stream : Option ℕ → StreamPool → Result ℕ × StreamPool
unfolding pop
acquire_stream none pool = (throws connection_error, pool)
acquire_stream (some choice) pool = elim (pop choice pool) [
  | none ↦ (throws connection_error, pool)
  | some (id, rest) ↦ (ok id, rest)
]

-- `StreamPool::Release`: a full queue refuses the id, which is then only logged.
unfoldable pub release_stream : ℕ → StreamPool → StreamPool
release_stream id pool = if ltb (length pool) max_streams then id ∷ pool else pool

-- `StreamPool::GetUsedStreams`
pub get_used_streams : StreamPool → ℕ
get_used_streams pool = max_streams - length pool

-- The pool and the ids of the `StreamGuard`s that live.
pub record Streams : Type 0 where
  pub free : StreamPool
  pub held : List ℕ

-- A guard is built, its constructor throws, or a guard is destroyed, in any order.
pub data Step : Streams → Streams → Type 0 where
  guarded :
      {free rest : StreamPool} {held : List ℕ} {id : ℕ} (choice : Option ℕ)
      → acquire_stream choice free ≡ (ok id, rest)
      → Step (record { free = free; held = held }) (record { free = rest; held = id ∷ held })
  refused :
      {free rest : StreamPool} {held : List ℕ} (choice : Option ℕ)
      → acquire_stream choice free ≡ (throws connection_error, rest)
      → Step (record { free = free; held = held }) (record { free = rest; held = held })
  unguarded :
      {free : StreamPool} {held rest : List ℕ} {id : ℕ} (choice : ℕ)
      → pop choice held ≡ some (id, rest)
      → Step
          (record { free = free; held = held })
          (record { free = release_stream id free; held = rest })

pub data Reaches : Streams → Type 0 where
  start : Reaches (record { free = new_stream_pool; held = [] })
  next : {s t : Streams} → Reaches s → Step s t → Reaches t
