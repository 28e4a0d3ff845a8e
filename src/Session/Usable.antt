-- ===== src/Session/Usable.antt =====
-- The connections of a session's first pool (src/detail/connection_pool.cpp) that the pool gives out and
-- takes back.
use cassandra_driver.Base.{ℕ, ◌≡◌, ◌∙◌, List, [], ◌∷◌, false, All, arith}
use cassandra_driver.Pool.{Connection, is_expired}
use cassandra_driver.Pool.Acquire.{IsEligible}
use cassandra_driver.Wire.{Peer, World, refresh_connection}
use cassandra_driver.Wire.Node.Reached.{SameFlags}
use cassandra_driver.Session.Sound.{IsHealthy}

-- A healthy connection whose flag was read as it is.
abbrev pub IsUsable : (peer : Peer) → World peer → Connection → Type 0
IsUsable peer w c = (c.broken ≡ false) × IsHealthy peer w c

pub usable-IsEligible :
    (peer : Peer) (now : ℕ) (w : World peer) (c : Connection) → IsUsable peer w c → IsEligible now c
unfolding is_expired
usable-IsEligible peer now w c (unbroken, (_, forever)) = (unbroken, ground (arith, forever))

pub SameFlags-IsUsable :
    (peer : Peer) (w w' : World peer) (cs : List Connection)
    → SameFlags peer w w'
    → All (IsUsable peer w) cs
    → All (IsUsable peer w') cs
SameFlags-IsUsable peer w w' [] flags h = tt
SameFlags-IsUsable peer w w' (c ∷ cs) flags ((read, (unbroken, forever)), h) =
    ((read, (flags c.id ∙ unbroken, forever)), SameFlags-IsUsable peer w w' cs flags h)

pub refreshed-IsUsable :
    (peer : Peer) (w : World peer) (c : Connection)
    → IsHealthy peer w c
    → IsUsable peer w (refresh_connection peer w c)
unfolding refresh_connection
refreshed-IsUsable peer w c (unbroken, forever) = (unbroken, (unbroken, forever))
