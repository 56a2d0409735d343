-- ===== src/UpdatePolicy/TimeBased.antt =====
-- `TimeBasedUpdatePolicy` of src/encryption_provider/update_policy.rs, over the types of `chrono`.
use mls_tls_protocol.Base.{Bool, Option, none, some, Result, ok, panic}

-- `chrono::DateTime<Utc>` with `std::time::Duration`: the sum, `none` where it is out of range, and
-- the order `a <= b`.
pub record Chrono : Type 1 where
  pub DateTime : Type 0
  pub Duration : Type 0
  pub add : DateTime → Duration → Option DateTime
  pub le : DateTime → DateTime → Bool

pub record TimeBasedUpdatePolicy (K : Chrono) : Type 0 where
  pub duration : K.Duration
  pub last_update : K.DateTime

module _ (K : Chrono) where
  -- The second argument is what `Utc::now()` gives.
  unfoldable pub new : K.Duration → K.DateTime → TimeBasedUpdatePolicy K
  new duration now = record { duration = duration; last_update = now }

  abbrev reached : K.DateTime → Option K.DateTime → Result ⊥ Bool
  reached now none = panic
  reached now (some due) = ok (K.le due now)

  -- `+` panics where the sum is out of range.
  unfoldable pub update_is_due : TimeBasedUpdatePolicy K → K.DateTime → Result ⊥ Bool
  update_is_due p now = reached now (K.add p.last_update p.duration)

  unfoldable pub set_update_time : K.DateTime → TimeBasedUpdatePolicy K → TimeBasedUpdatePolicy K
  set_update_time now p = record p { last_update = now }
