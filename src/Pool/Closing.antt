-- ===== src/Pool/Closing.antt =====
-- How a connection of the pool ends: `ConnectionImpl::Close` and the destructor of
-- src/detail/connection_impl.cpp, and `Connection::Close` of src/detail/connection.cpp. The descriptors of
-- the process, and userver's `Socket::Release`, are parameters.
use cassandra_driver.Base.{ℕ, zero, suc, ◌-◌, ◌≡◌, refl, ap, Bool, true, false, Option, none, some}
use cassandra_driver.Pool.Init.{Permits}

-- `_socket` as its descriptor, whether `_pool_size_lock` has its permit, and whether `_receiver_task` is
-- valid.
pub record Owned : Type 0 where
  pub socket : Option ℕ
  pub pool_size_lock : Bool
  pub receiver_task : Bool

-- What is left behind the moves.
abbrev pub nothing_owned : Owned
nothing_owned = record { socket = none; pool_size_lock = false; receiver_task = false }

-- The lock of a connection that is destroyed.
unfoldable pub give_permit : Permits → Permits
give_permit none = none
give_permit (some n) = some (suc n)

module _ (Descriptors : Type 0) (release : ℕ → Descriptors → Descriptors) where
  -- The descriptors, the permits of `_size_semaphore`, and the receiver loops that run.
  pub record Outside : Type 0 where
    pub descriptors : Descriptors
    pub permits : Permits
    pub receivers : ℕ

  -- `Close`: what its task has taken over, and what the connection still has.
  pub close : Owned → Owned × Owned
  close owned = (owned, nothing_owned)

  stop_receiver : Bool → ℕ → ℕ
  stop_receiver true receivers = receivers - 1
  stop_receiver false receivers = receivers

  release_socket : Option ℕ → Descriptors → Descriptors
  release_socket (some socket) descriptors = release socket descriptors
  release_socket none descriptors = descriptors

  end_lock : Bool → Permits → Permits
  unfolding give_permit
  end_lock true permits = give_permit permits
  end_lock false permits = permits

  -- The task: the receiver loop is cancelled and waited for, the socket is released, and the lock ends
  -- with the task.
  pub run_close : Owned → Outside → Outside
  unfolding stop_receiver release_socket end_lock
  run_close task w = record {
    descriptors = release_socket task.socket w.descriptors;
    permits = end_lock task.pool_size_lock w.permits;
    receivers = stop_receiver task.receiver_task w.receivers;
  }

  -- `Connection::Close`, which waits for the task.
  pub close_connection : Owned → Outside → Owned × Outside
  unfolding close run_close
  close_connection owned w = let (task, left) = close owned in (left, run_close task w)

  -- `ConnectionImpl::~ConnectionImpl`, once its task is through. The members that are left end with it.
  pub destroy : Owned → Outside → Outside
  unfolding close run_close
  destroy owned w = run_close (close owned).0 w

  -- So many calls of `Connection::Close`, one behind the other.
  pub close_times : ℕ → Owned → Outside → Owned × Outside
  unfolding close_connection
  close_times zero owned w = (owned, w)
  close_times (suc n) owned w =
      let (left, closed) = close_connection owned w in close_times n left closed

  close_times-nothing_owned :
      (n : ℕ) (w : Outside) → close_times n nothing_owned w ≡ (nothing_owned, w)
  unfolding close_times
  close_times-nothing_owned zero w = refl
  close_times-nothing_owned (suc n) w = close_times-nothing_owned n w

  -- However often an open connection of a pool is closed before it is destroyed: one permit comes back, one
  -- receiver loop ends, and its socket is given to `Release`, which does not close it, once.
  destroy-close_times :
      (n socket : ℕ) (w : Outside)
      → let (left, closed) =
          close_times n
            (record { socket = some socket; pool_size_lock = true; receiver_task = true })
            w in
        destroy left closed ≡ record {
          descriptors = release socket w.descriptors;
          permits = give_permit w.permits;
          receivers = w.receivers - 1;
        }
  unfolding close_times destroy
  destroy-close_times zero socket w = refl
  destroy-close_times (suc n) socket w =
      ap (λ (left, closed). destroy left closed)
        (close_times-nothing_owned n (record {
          descriptors = release socket w.descriptors;
          permits = give_permit w.permits;
          receivers = w.receivers - 1;
        }))
