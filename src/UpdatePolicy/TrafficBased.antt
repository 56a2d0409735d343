-- ===== src/UpdatePolicy/TrafficBased.antt =====
-- `TrafficBasedUpdatePolicy` of src/encryption_provider/update_policy.rs. The byte counter is a `u64`
-- that wraps, as in a release build.
use mls_tls_protocol.Base.{ℕ, ◌+◌, Bool, leb}
use mls_tls_protocol.Base.Bytes.{as_u64}

pub record TrafficBasedUpdatePolicy : Type 0 where
  pub update_threshold : ℕ  -- u64
  pub bytes_transferred : ℕ  -- u64

unfoldable pub new : ℕ → TrafficBasedUpdatePolicy
new threshold = record { update_threshold = threshold; bytes_transferred = 0 }

unfoldable pub update_is_due : TrafficBasedUpdatePolicy → Bool
update_is_due p = leb p.update_threshold p.bytes_transferred

unfoldable pub increment_bytes_transferred : ℕ → TrafficBasedUpdatePolicy → TrafficBasedUpdatePolicy
increment_bytes_transferred n p = record p { bytes_transferred = as_u64 (p.bytes_transferred + n) }

unfoldable pub reset : TrafficBasedUpdatePolicy → TrafficBasedUpdatePolicy
reset p = record p { bytes_transferred = 0 }
