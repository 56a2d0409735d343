-- ===== src/UpdatePolicy.antt =====
-- `UpdatePolicy` of src/encryption_provider/update_policy.rs: when the keys are to be renewed.
pub mod TimeBased
pub mod TrafficBased
pub mod Due
use mathlib.Core.Option
use mls_tls_protocol.Base.{ℕ, Bool, false, ◌||◌, Option, none, some, Result, ok, and_then}
use TimeBased.{Chrono, TimeBasedUpdatePolicy}
use TrafficBased.{TrafficBasedUpdatePolicy}

pub record UpdatePolicy (K : Chrono) : Type 0 where
  pub time_based : Option (TimeBasedUpdatePolicy K)
  pub traffic_based : Option TrafficBasedUpdatePolicy

module _ (K : Chrono) where
  unfoldable pub from_time_based : TimeBasedUpdatePolicy K → UpdatePolicy K
  from_time_based policy = record { time_based = some policy; traffic_based = none }

  unfoldable pub from_traffic_based : TrafficBasedUpdatePolicy → UpdatePolicy K
  from_traffic_based policy = record { time_based = none; traffic_based = some policy }

  unfoldable pub new :
      Option (TimeBasedUpdatePolicy K) → Option TrafficBasedUpdatePolicy → UpdatePolicy K
  new time_based traffic_based = record { time_based = time_based; traffic_based = traffic_based }

  abbrev time_due : Option (TimeBasedUpdatePolicy K) → K.DateTime → Result ⊥ Bool
  time_due none now = ok false
  time_due (some policy) now = TimeBased.update_is_due K policy now

  abbrev traffic_due : Option TrafficBasedUpdatePolicy → Bool
  traffic_due none = false
  traffic_due (some policy) = TrafficBased.update_is_due policy

  unfoldable pub update_is_due : UpdatePolicy K → K.DateTime → Result ⊥ Bool
  unfolding TimeBased.update_is_due TrafficBased.update_is_due
  update_is_due p now =
      and_then (time_due p.time_based now) λ due. ok (due || traffic_due p.traffic_based)

  unfoldable pub reset : K.DateTime → UpdatePolicy K → UpdatePolicy K
  unfolding TimeBased.set_update_time TrafficBased.reset
  reset now p = record {
    time_based = Option.map (TimeBased.set_update_time K now) p.time_based;
    traffic_based = Option.map TrafficBased.reset p.traffic_based;
  }

  unfoldable pub increment_bytes_transferred : ℕ → UpdatePolicy K → UpdatePolicy K
  unfolding TrafficBased.increment_bytes_transferred
  increment_bytes_transferred n p = record p {
    traffic_based = Option.map (TrafficBased.increment_bytes_transferred n) p.traffic_based;
  }
