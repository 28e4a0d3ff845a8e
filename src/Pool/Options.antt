-- ===== src/Pool/Options.antt =====
-- The comparisons of `PoolSettings` and `CommandControl`, in include/cassandra/options.hpp.
use cassandra_driver.Base.{ℕ, ◌≡◌, refl, ◌↔◌, Bool, true, ◌==◌, ◌&&◌, arith}
use cassandra_driver.Pool.Client.{
  PreparedStatementsOptionOverride, no_override, enabled, disabled, CommandControl,
}
use cassandra_driver.Pool.Init.{PoolSettings}

-- `PoolSettings::operator==`
pub same_settings : PoolSettings → PoolSettings → Bool
same_settings a b =
    a.min_size == b.min_size
    && a.max_size == b.max_size
    && a.max_queue_size == b.max_queue_size
    && a.connecting_limit == b.connecting_limit

override_code : PreparedStatementsOptionOverride → ℕ
override_code no_override = 0
override_code enabled = 1
override_code disabled = 2

-- `CommandControl::operator==`
pub same_control : CommandControl → CommandControl → Bool
unfolding override_code
same_control a b =
    a.network_timeout_ms == b.network_timeout_ms
    && a.statement_timeout_ms == b.statement_timeout_ms
    && override_code a.prepared_statements_enabled == override_code b.prepared_statements_enabled

override_code-inj :
    (x y : PreparedStatementsOptionOverride) → override_code x ≡ override_code y → x ≡ y
unfolding override_code
override_code-inj no_override no_override e = refl
override_code-inj enabled enabled e = refl
override_code-inj disabled disabled e = refl
override_code-inj no_override enabled e = absurd (omega arith)
override_code-inj no_override disabled e = absurd (omega arith)
override_code-inj enabled no_override e = absurd (omega arith)
override_code-inj enabled disabled e = absurd (omega arith)
override_code-inj disabled no_override e = absurd (omega arith)
override_code-inj disabled enabled e = absurd (omega arith)

-- `==` of command controls is equality.
pub same_control_iff : (a b : CommandControl) → (same_control a b ≡ true) ↔ (a ≡ b)
unfolding same_control
same_control_iff a b = (
  λ e.
      let network : a.network_timeout_ms ≡ b.network_timeout_ms = ground arith in
      let statement : a.statement_timeout_ms ≡ b.statement_timeout_ms = ground arith in
      let prepared : a.prepared_statements_enabled ≡ b.prepared_statements_enabled =
        override_code-inj a.prepared_statements_enabled b.prepared_statements_enabled
          (ground arith) in
      λ i. record {
        network_timeout_ms = network i;
        statement_timeout_ms = statement i;
        prepared_statements_enabled = prepared i;
      },
  λ same. rw same (ground arith),
)

-- `==` of pool settings is equality of the four that are not about the cache of statements.
pub same_settings_iff :
    (a b : PoolSettings)
    → (same_settings a b ≡ true) ↔ (
        (a.min_size ≡ b.min_size)
        × (a.max_size ≡ b.max_size)
        × (a.max_queue_size ≡ b.max_queue_size)
        × (a.connecting_limit ≡ b.connecting_limit))
unfolding same_settings
same_settings_iff a b = ground arith
