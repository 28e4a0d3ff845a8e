-- ===== src/Pool/Close.antt =====
-- The end of a pool: `Clear` and the destructor of src/detail/connection_pool.cpp. The tasks that the
-- destructor cancels are behind it.
use cassandra_driver.Base.{
  ℕ, ◌≡◌, refl, sym, List, [], ◌∷◌, ◌++◌, append-nil, append_assoc, map, ◌∙◌,
}
use mathlib.Core.List.{Perm, perm_append_comm}
use mathlib.Core.List.Perm
use cassandra_driver.Pool.{Connection, ConnectionPool, delete_connection}
use cassandra_driver.Pool.Client.{Client, StatementCache, KeepsIds}
use cassandra_driver.Pool.Maintain.{maintain}
use cassandra_driver.Pool.Maintain.Keeps.{ids, maintain-ids}

-- `for (auto* conn : …) DeleteConnection(conn);`
pub delete_all : List Connection → ConnectionPool → ConnectionPool
unfolding delete_connection
delete_all [] p = p
delete_all (c ∷ cs) p = delete_all cs (delete_connection c p)

-- `Clear`
pub clear : ConnectionPool → ConnectionPool
unfolding delete_all
clear p = record (delete_all p.connections p) { connections = [] }

delete_all-deleted :
    (cs : List Connection) (p : ConnectionPool) → (delete_all cs p).deleted ≡ p.deleted ++ cs
unfolding delete_all
delete_all-deleted [] p = sym (append-nil p.deleted)
delete_all-deleted (c ∷ cs) p =
    delete_all-deleted cs (delete_connection c p) ∙ append_assoc p.deleted (c ∷ []) cs

pub clear-ids :
    (p : ConnectionPool) → Perm (map (λ (c : Connection). c.id) (clear p).deleted) (ids p)
unfolding clear
clear-ids p =
    rw (delete_all-deleted p.connections p)
      (Perm.map (λ (c : Connection). c.id) (perm_append_comm p.deleted p.connections))

-- If a connection stays the same object: a pool that was maintained, whatever its peers answered, and is
-- then cleared is empty, and has deleted each connection that it had, or had deleted before, exactly once.
pub maintain-clear :
    (client : Client) (cache : StatementCache) (now min_size wait_count : ℕ) (p : ConnectionPool)
    (s : cache.State) (w : client.World)
    → KeepsIds client
    → let gone = clear (maintain client cache now min_size wait_count p s w).1.pool in
      (gone.connections ≡ []) × Perm (map (λ (c : Connection). c.id) gone.deleted) (ids p)
unfolding clear
maintain-clear client cache now min_size wait_count p s w keeps =
    let q = (maintain client cache now min_size wait_count p s w).1.pool in
    (refl, Perm.trans (clear-ids q) (maintain-ids client cache now min_size wait_count p s w keeps))
