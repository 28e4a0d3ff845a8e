-- ===== src/Connection/Streams/Held.antt =====
-- The stream ids that the live guards of src/detail/stream_pool.hpp hold.
use cassandra_driver.Base.{
  ℕ, zero, suc, ◌+◌, ◌≤◌, ◌<◌, List, [], ◌∷◌, All, ltb, Bool-cases, inl, inr, arith,
}
use mathlib.Core.Logic.{∥∥₁_elim}
use mathlib.Core.HLevel.{⊥_prop}
use mathlib.Core.List.Memᴰ
use mathlib.Core.List.Perm
use mathlib.Core.List.{
  Mem, Memᴰ, Nodup, Nodup-nil, Nodup-cons, Nodup-append, mem-append_right, mem-cons_self,
  mem-cons_of_mem,
}
use cassandra_driver.Connection.Streams.{max_streams, push_from, Streams, Reaches}
use cassandra_driver.Connection.Streams.Balance.{streams-Perm}

push_from-bounds :
    (id rounds : ℕ) {i : ℕ} → Memᴰ i (push_from id rounds) → (id ≤ i) × (i < id + rounds)
unfolding push_from
push_from-bounds id zero m = absurd (Memᴰ.not-nil m)
push_from-bounds id (suc rounds) (Memᴰ.head e) = (omega (arith, e), omega (arith, e))
push_from-bounds id (suc rounds) (Memᴰ.tail m) =
    let (le, lt) = push_from-bounds (suc id) rounds m in (omega (arith, le), omega (arith, lt))

push_from-Nodup : (id rounds : ℕ) → Nodup (push_from id rounds)
unfolding push_from
push_from-Nodup id zero = Nodup-nil
push_from-Nodup id (suc rounds) = Nodup-cons.1 (
  λ m. ∥∥₁_elim m ⊥_prop λ d. omega (arith, (push_from-bounds (suc id) rounds d).0),
  push_from-Nodup (suc id) rounds,
)

pub held-Nodup : {s : Streams} → Reaches s → Nodup s.held
held-Nodup {s} r =
    (Nodup-append.0 (Perm.nodup (Perm.symm (streams-Perm r)) (push_from-Nodup 0 1024))).1

pub held-known : {s : Streams} → Reaches s → (i : ℕ) → Mem i s.held → i < max_streams
held-known {s} r i m = elim (Bool-cases (ltb i max_streams)) [
  | inl lt ↦ ground (arith, lt)
  | inr not_lt ↦
      let known = (Perm.mem_iff (streams-Perm r)).0 (mem-append_right s.free m) in
      absurd (
        ∥∥₁_elim known ⊥_prop
          λ d. let (le, lt) = push_from-bounds 0 1024 d in ground (arith, lt, not_lt))
]

pub known-All :
    (ids : List ℕ) → ((i : ℕ) → Mem i ids → i < max_streams) → All (λ i. i < max_streams) ids
known-All [] h = tt
known-All (i ∷ ids) h = (h i mem-cons_self, known-All ids (λ j m. h j (mem-cons_of_mem i m)))
