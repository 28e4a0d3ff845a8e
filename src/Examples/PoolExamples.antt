-- ===== src/Examples/PoolExamples.antt =====
-- A pool of a busy, an idle and a broken connection.
use cassandra_driver.Base.{
  ℕ, map, suc, ◌≡◌, refl, List, [], ◌∷◌, true, false, Option, none, some, Occurs, All, ◌↔◌, ◌⊎◌,
  if◌then◌else◌,
}
use cassandra_driver.Base.Result.{ok}
use mathlib.Core.List.{Perm}
use cassandra_driver.Io.{RawBuffer}
use cassandra_driver.Io.Containers.Maps.{same_text, same_text_refl}
use cassandra_driver.Pool.{Connection, ConnectionPool, acquire}
use cassandra_driver.Pool.Acquire.{IsEligible, Least, acquire-Least}
use cassandra_driver.Pool.Client.{Client, StatementCache, CacheDocumented}
use cassandra_driver.Pool.Maintain.{maintain}
use cassandra_driver.Pool.Close.{clear, maintain-clear}

abbrev pub busy : Connection
busy = record { id = 1; broken = false; expires_at = none; used_streams = 2 }

abbrev pub idle : Connection
idle = record { id = 2; broken = false; expires_at = some 50; used_streams = 0 }

abbrev pub lost : Connection
lost = record { id = 3; broken = true; expires_at = none; used_streams = 1 }

abbrev three : ConnectionPool
three = record { connections = busy ∷ idle ∷ lost ∷ []; deleted = [] }

abbrev pub two : ConnectionPool
two = record { connections = busy ∷ idle ∷ []; deleted = [] }

idle_acquired : (acquire 10 false three).0 ≡ some idle
unfolding acquire
idle_acquired = refl

idle-Least :
    (acquire 10 true three ≡ (none, three))
    × (((acquire 10 false three).0 ≡ none) ↔ All (λ d. ¬ IsEligible 10 d) three.connections)
    × (((acquire 10 false three).0 ≡ none)
        ⊎ ((c : Connection) × ((acquire 10 false three).0 ≡ some c)
            × Occurs c three.connections
            × IsEligible 10 c
            × Least 10 c three.connections))
idle-Least = acquire-Least 10 three

-- Peers that answer every call, and a connection that never breaks.
abbrev pub answering : Client
answering = record {
  World = ℕ;
  Rows = ℕ;
  prepare = λ c text w. (ok (1 ∷ 2 ∷ []), suc w);
  execute = λ c level text params control w. (ok 7, suc w);
  execute_prepared = λ c level id params control w. (ok 7, suc w);
  batch_execute = λ c level statements control w. (ok 7, suc w);
  refresh =
      λ w c. record { id = c.id; broken = false; expires_at = none; used_streams = c.used_streams };
}

-- A cache that never evicts: its entries, the newest first.
unfoldable pub find_id : List (RawBuffer × RawBuffer) → RawBuffer → Option RawBuffer
find_id [] text = none
find_id ((key, id) ∷ entries) text =
    let rest = find_id entries text in if same_text key text then some id else rest

abbrev pub keeping : StatementCache
keeping = record {
  State = List (RawBuffer × RawBuffer);
  get = λ s text. (find_id s text, s);
  put = λ s text id. (text, id) ∷ s;
  invalidate = λ s. [];
}

pub keeping-documented : CacheDocumented keeping
unfolding find_id
keeping-documented = record {
  get-put = λ s text id. rw (same_text_refl text) refl;
  get-get = λ s text other. refl;
}

two_gone :
    let gone = clear (maintain answering keeping 10 1 0 two [] 0).1.pool in
    (gone.connections ≡ []) × Perm (map (λ (c : Connection). c.id) gone.deleted) (1 ∷ 2 ∷ [])
two_gone = maintain-clear answering keeping 10 1 0 two [] 0 (λ w c. refl)
