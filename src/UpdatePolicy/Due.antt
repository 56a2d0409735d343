-- ===== src/UpdatePolicy/Due.antt =====
-- When an update is due: by the bytes sent, or the time gone, since the last one.
use mls_tls_protocol.Base.{ℕ, ◌+◌, ◌<◌, ◌≡◌, ap, ◌∙◌, ◌||◌, some, ok, List, [], ◌∷◌, arith, leb}
use native.Mathlib.Nat.{add_assoc, zero-add}
use mls_tls_protocol.Base.Bytes.{as_u64}
use mls_tls_protocol.UpdatePolicy.TimeBased.{Chrono, TimeBasedUpdatePolicy}
use mls_tls_protocol.UpdatePolicy.TrafficBased.{TrafficBasedUpdatePolicy}
use mls_tls_protocol.UpdatePolicy.{UpdatePolicy, update_is_due, reset, increment_bytes_transferred}

abbrev pub sum : List ℕ → ℕ
sum [] = 0
sum (n ∷ ns) = n + sum ns

module _ (K : Chrono) where
  -- The policy after the sends of these many bytes.
  unfoldable pub sends : List ℕ → UpdatePolicy K → UpdatePolicy K
  sends [] p = p
  sends (n ∷ ns) p = sends ns (increment_bytes_transferred K n p)

  abbrev pub with_both : TimeBasedUpdatePolicy K → TrafficBasedUpdatePolicy → UpdatePolicy K
  with_both time traffic = record { time_based = some time; traffic_based = some traffic }

  abbrev counted : TrafficBasedUpdatePolicy → ℕ → TrafficBasedUpdatePolicy
  counted t n = record t { bytes_transferred = n }

  sends-counted :
      (ns : List ℕ) (time : TimeBasedUpdatePolicy K) (t : TrafficBasedUpdatePolicy) (n : ℕ)
      → n + sum ns < 18446744073709551616
      → sends ns (with_both time (counted t n)) ≡ with_both time (counted t (n + sum ns))
  unfolding sends increment_bytes_transferred
  sends-counted [] time t n h =
      let e : n ≡ n + 0 = omega arith in ap (λ k. with_both time (counted t k)) e
  sends-counted (m ∷ ns) time t n h =
      let e : as_u64 (n + m) ≡ n + m = omega arith in
      rw e (
        sends-counted ns time t (n + m) (omega arith)
        ∙ ap (λ k. with_both time (counted t k)) (add_assoc n m (sum ns)))

  -- After an update at `now`, and sends of these many bytes since, the next update is due at
  -- `later` exactly if the duration has gone by or the threshold is reached, provided that the
  -- bytes fit the counter and the date of the next update is in range.
  pub update_is_due-reset :
      (time : TimeBasedUpdatePolicy K) (t : TrafficBasedUpdatePolicy) (ns : List ℕ)
      (now later : K.DateTime) {due : K.DateTime}
      → sum ns < 18446744073709551616
      → K.add now time.duration ≡ some due
      → update_is_due K (sends ns (reset K now (with_both time t))) later
        ≡ ok (K.le due later || leb t.update_threshold (sum ns))
  unfolding update_is_due reset
  update_is_due-reset time t ns now later {due} h d =
      rw (sends-counted ns (record time { last_update = now }) t 0 (omega arith))
        (rw d (ap (λ k. ok (K.le due later || leb t.update_threshold k)) (zero-add (sum ns))))
