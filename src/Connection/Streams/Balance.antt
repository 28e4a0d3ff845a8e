-- ===== src/Connection/Streams/Balance.antt =====
-- Where the stream ids of src/detail/stream_pool.hpp are.
use cassandra_driver.Base.{
  ℕ, zero, suc, ◌+◌, ◌≤◌, ◌<◌, ◌≡◌, ◌⊎◌, refl, inl, inr, List, [], ◌∷◌, ◌++◌, append-nil, Option,
  none, some, Option-cases, length, All, arith,
}
use cassandra_driver.Base.Result.{ok, throws, connection_error, Exception}
use mathlib.Core.List.{Perm, perm_middle}
use mathlib.Core.List.Perm
use cassandra_driver.Connection.Streams.{
  max_streams, StreamPool, push_from, new_stream_pool, pop, acquire_stream, release_stream,
  get_used_streams, Streams, Step, guarded, refused, unguarded, Reaches, start, next,
}

pop-Perm :
    (choice : ℕ) (ids : List ℕ) {id : ℕ} {rest : List ℕ}
    → pop choice ids ≡ some (id, rest)
    → Perm ids (id ∷ rest) × (length ids ≡ suc (length rest))
unfolding pop
pop-Perm choice [] e = cc
pop-Perm zero (i ∷ ids) e = ground (arith, Perm.refl (i ∷ ids))
pop-Perm (suc choice) (i ∷ ids) e = elim (Option-cases (pop choice ids)) [
  | inl none_left ↦ ground (arith, none_left, Perm.refl (i ∷ ids))
  | inr ((found, others), found_at) ↦
      let (h, len) = pop-Perm choice ids found_at in
      let swapped = Perm.trans (Perm.cons i h) (Perm.swap found i others) in
      ground (arith, found_at, swapped, len)
]

length-push_from : (id rounds : ℕ) → length (push_from id rounds) ≡ rounds
unfolding push_from
length-push_from id zero = refl
length-push_from id (suc rounds) = omega (arith, length-push_from (suc id) rounds)

pub acquire_stream-pop :
    (choice : Option ℕ) (free : StreamPool) {id : ℕ} {rest : StreamPool}
    → acquire_stream choice free ≡ (ok id, rest)
    → Perm free (id ∷ rest) × (length free ≡ suc (length rest))
unfolding acquire_stream
acquire_stream-pop none free e = cc
acquire_stream-pop (some choice) free {id} {rest} e = elim (Option-cases (pop choice free)) [
  | inl none_left ↦ ground (arith, none_left)
  | inr ((found, others), found_at) ↦ ground (arith, found_at, pop-Perm choice free found_at)
]

-- The free ids of a queue: no more than there are, and each one of them.
pub record IsStocked (free : StreamPool) : Type 0 where
  pub fits : length free ≤ max_streams
  pub known : All (λ id. id < max_streams) free

pop-All :
    (choice : ℕ) (ids : List ℕ) {id : ℕ} {rest : List ℕ}
    → pop choice ids ≡ some (id, rest)
    → All (λ i. i < max_streams) ids
    → (id < max_streams) × All (λ i. i < max_streams) rest
unfolding pop
pop-All choice [] e known = cc
pop-All zero (i ∷ ids) e known = ground (arith, known)
pop-All (suc choice) (i ∷ ids) e known = elim (Option-cases (pop choice ids)) [
  | inl none_left ↦ ground (arith, none_left, known)
  | inr ((found, others), found_at) ↦
      ground (arith, found_at, known, pop-All choice ids found_at known.1)
]

-- An id that was handed out is one that a queue may have, and so are those that are left.
pub acquire_stream-IsStocked :
    (choice : Option ℕ) (free : StreamPool) {id : ℕ} {rest : StreamPool}
    → acquire_stream choice free ≡ (ok id, rest)
    → IsStocked free
    → (id < max_streams) × All (λ i. i < max_streams) rest
unfolding acquire_stream
acquire_stream-IsStocked none free e stocked = cc
acquire_stream-IsStocked (some choice) free {id} {rest} e stocked =
    elim (Option-cases (pop choice free)) [
      | inl none_left ↦ ground (arith, none_left)
      | inr ((found, others), found_at) ↦
          ground (arith, found_at, pop-All choice free found_at stocked.known)
    ]

pub acquire_stream-cases :
    (choice : Option ℕ) (free : StreamPool)
    → ((id : ℕ) × (rest : StreamPool) × (acquire_stream choice free ≡ (ok id, rest)))
      ⊎ (acquire_stream choice free ≡ (throws connection_error, free))
unfolding acquire_stream
acquire_stream-cases none free = inr refl
acquire_stream-cases (some choice) free = elim (Option-cases (pop choice free)) [
  | inl none_left ↦ inr (ground (arith, none_left))
  | inr ((found, others), found_at) ↦ inl (found, others, ground (arith, found_at))
]

acquire_stream-refuses :
    (choice : Option ℕ) (free : StreamPool) {e : Exception} {rest : StreamPool}
    → acquire_stream choice free ≡ (throws e, rest)
    → free ≡ rest
unfolding acquire_stream
acquire_stream-refuses none free h = ground arith
acquire_stream-refuses (some choice) free h = elim (Option-cases (pop choice free)) [
  | inl none_left ↦ ground (arith, none_left)
  | inr ((found, others), found_at) ↦ ground (arith, found_at)
]

-- A choice from a queue that is not empty is an id.
pub acquire_stream_nonempty :
    (choice : ℕ) (free : StreamPool)
    → 0 < length free
    → (id : ℕ) × (rest : StreamPool) × (acquire_stream (some choice) free ≡ (ok id, rest))
unfolding acquire_stream pop
acquire_stream_nonempty choice [] h = absurd (omega arith)
acquire_stream_nonempty zero (i ∷ ids) h = (i, ids, refl)
acquire_stream_nonempty (suc choice) (i ∷ ids) h = elim (Option-cases (pop choice ids)) [
  | inl none_left ↦ (i, ids, ground (arith, none_left))
  | inr ((found, others), found_at) ↦ (found, i ∷ others, ground (arith, found_at))
]

pub get_used_streams_same :
    (free before : StreamPool)
    → length free ≡ length before
    → get_used_streams free ≡ get_used_streams before
unfolding get_used_streams
get_used_streams_same free before len = omega (arith, len)

push_from-known :
    (id rounds : ℕ) → id + rounds ≤ max_streams → All (λ i. i < max_streams) (push_from id rounds)
unfolding push_from
push_from-known id zero h = tt
push_from-known id (suc rounds) h = (omega arith, push_from-known (suc id) rounds (omega arith))

pub new_stream_pool-IsStocked : IsStocked new_stream_pool × (length new_stream_pool ≡ max_streams)
unfolding new_stream_pool
new_stream_pool-IsStocked =
    let len = length-push_from 0 max_streams in
    (record { fits = omega (arith, len); known = push_from-known 0 max_streams (omega arith) }, len)

abbrev IsBalanced : Streams → Type 0
IsBalanced s =
    Perm (s.free ++ s.held) new_stream_pool × (length s.free + length s.held ≡ max_streams)

Step-IsBalanced : {s t : Streams} → Step s t → IsBalanced s → IsBalanced t
unfolding release_stream
Step-IsBalanced (guarded {free} {rest} {held} {id} choice e) (h, len) =
    let (popped, fewer) = acquire_stream-pop choice free e in
    (
      Perm.trans (perm_middle {a = id} rest held)
          (Perm.trans (Perm.symm (Perm.append_right held popped)) h),
      omega (arith, fewer, len),
    )
Step-IsBalanced (refused {free} {rest} {held} choice e) (h, len) =
    ground (arith, acquire_stream-refuses choice free e, h, len)
Step-IsBalanced (unguarded {free} {held} {rest} {id} choice e) (h, len) =
    let (popped, fewer) = pop-Perm choice held e in
    let given =
      Perm.trans (Perm.symm (perm_middle {a = id} free rest))
        (Perm.trans (Perm.symm (Perm.append_left free popped)) h) in
    ground (arith, fewer, len, given)

Reaches-IsBalanced : {s : Streams} → Reaches s → IsBalanced s
unfolding new_stream_pool
Reaches-IsBalanced start = (
  rw (append-nil new_stream_pool) (Perm.refl new_stream_pool),
  omega (arith, length-push_from 0 max_streams),
)
Reaches-IsBalanced (next r step) = Step-IsBalanced step (Reaches-IsBalanced r)

-- However guards are built and destroyed, the free stream ids and those of the live guards are the
-- ids from 0 to 1023, each once: none is lost, and no two guards have the same.
pub streams-Perm : {s : Streams} → Reaches s → Perm (s.free ++ s.held) (push_from 0 1024)
unfolding new_stream_pool
streams-Perm r = (Reaches-IsBalanced r).0

-- However guards are built and destroyed, `GetUsedStreams` is the number of the live ones.
pub get_used_streams-length : {s : Streams} → Reaches s → get_used_streams s.free ≡ length s.held
unfolding get_used_streams
get_used_streams-length r = omega (arith, (Reaches-IsBalanced r).1)
