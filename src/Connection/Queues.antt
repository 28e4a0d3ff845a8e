-- ===== src/Connection/Queues.antt =====
-- The queue of one stream of src/detail/connection_impl.cpp, between `ExecuteMessageAsync`, `ReceiverLoop`
-- and the node: a request and the answer to it have the number of their call. Only the call that holds
-- the stream's guard uses the queue, and others follow it.
pub mod Late
use cassandra_driver.Base.{ℕ, suc, ◌≡◌, List, [], ◌∷◌, ◌++◌, Option, none, some}

-- The call that holds the stream, the requests that the node has yet to answer, the answers in the queue,
-- and which call was given which answer.
pub record Slot : Type 0 where
  pub caller : Option ℕ
  pub owed : List ℕ
  pub queue : List ℕ
  pub given : List (ℕ × ℕ)

abbrev pub new_slot : Slot
new_slot = record { caller = none; owed = []; queue = []; given = [] }

-- The number says of how many calls the `Pop` has failed: a call takes the stream and sends its request, or
-- fails to, the receiver loop puts an answer into the empty queue, which holds one, and a call pops an
-- answer, or meets its deadline or is cancelled first, which `Pop` answers alike. Either gives the stream
-- back.
pub data Reaches : ℕ → Slot → Type 0 where
  start : Reaches 0 new_slot
  sends :
      {n : ℕ} {s : Slot} (call : ℕ)
      → s.caller ≡ none
      → Reaches n s
      → Reaches n (record s { caller = some call; owed = s.owed ++ call ∷ [] })
  unsent :
      {n : ℕ} {s : Slot} (call : ℕ)
      → s.caller ≡ none
      → Reaches n s
      → Reaches n (record s { caller = some call })
  receives :
      {n : ℕ} {s : Slot} (before after : List ℕ) (request : ℕ)
      → s.owed ≡ before ++ request ∷ after
      → s.queue ≡ []
      → Reaches n s
      → Reaches n (record s { owed = before ++ after; queue = request ∷ [] })
  pops :
      {n : ℕ} {s : Slot} (call request : ℕ) (rest : List ℕ)
      → s.caller ≡ some call
      → s.queue ≡ request ∷ rest
      → Reaches n s
      → Reaches n (record s { caller = none; queue = rest; given = (call, request) ∷ s.given })
  times_out :
      {n : ℕ} {s : Slot} (call : ℕ)
      → s.caller ≡ some call
      → s.queue ≡ []
      → Reaches n s
      → Reaches (suc n) (record s { caller = none })
