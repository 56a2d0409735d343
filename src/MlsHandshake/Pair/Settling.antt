-- ===== src/MlsHandshake/Pair/Settling.antt =====
-- That the messages between two handshakes of src/mls_handshake/mod.rs come to an end.
use mls_tls_protocol.Base.{ℕ, suc, ◌+◌, ◌≤◌, ◌≡◌, ap, refl, List, Option, length, arith}
use mls_tls_protocol.Base.Bytes.{Octets}
use mls_tls_protocol.TlsAead.Secrets.{TrafficSecrets}
use mls_tls_protocol.MlsHandshake.OpenMls.{OpenMls}
use mls_tls_protocol.MlsHandshake.Messages.{Wire}
use mls_tls_protocol.MlsHandshake.Group.{IsMls, ReadsBack}
use mls_tls_protocol.MlsHandshake.Pair.Run.{Pair, Reach, Deliveries, none_yet, one_more, Joined}
use mls_tls_protocol.MlsHandshake.Pair.Phases.{
  Phase, calm, asked, told, answered, Offer, no_offer, one_offer, Stale, no_update, one_update,
  Answer, answer, after_update,
}
use mls_tls_protocol.MlsHandshake.Pair.Agreement.{In, Delivery-In, Reach-In}
use mls_tls_protocol.MlsHandshake.Persistence.{Sql}
use mls_tls_protocol.MlsHandshake.Driver.{MlsHandshake}

module _ (O : OpenMls) (W : Wire O) (Q : Sql O W) (R : IsMls O) (B : ReadsBack W R) (E : Type 0)
    (id : O.GroupId) where
  open R use {Epoch}

  length-Stale : {n : ℕ} {q : List Octets} → Stale O W Q R E id n q → n ≡ length q
  length-Stale no_update = refl
  length-Stale (one_update _ q) = ap suc (length-Stale q)

  Offer-bound :
      {x : Epoch} {pending : Option Epoch} {n : ℕ} {q : List Octets}
      → Offer O W Q R E id x pending n q
      → n ≤ length q + 2
  Offer-bound no_offer = omega arith
  Offer-bound (one_offer _) = omega arith

  Answer-bound :
      {y : Epoch} {pending : Option Epoch} {n : ℕ} {q : List Octets}
      → Answer O W Q R E id y pending n q
      → n ≤ length q + 2
  Answer-bound (answer _ q) = omega (arith, Offer-bound q)
  Answer-bound (after_update _ q) = omega (arith, Answer-bound q)

  Phase-bound :
      {n : ℕ} {c s : MlsHandshake O} {k l : TrafficSecrets} {up down : List Octets}
      → Phase O W Q R E id n c s k l up down
      → n ≤ length down + length up + 2
  Phase-bound (calm _ _ _ _ offer) = omega (arith, Offer-bound offer)
  Phase-bound (asked _ _ _ _ _ stale) = omega (arith, length-Stale stale)
  Phase-bound (told _ _ _ _ _) = omega arith
  Phase-bound (answered _ _ _ _ answers) = omega (arith, Answer-bound answers)

  Deliveries-In :
      (p q : Pair O) (n k : ℕ)
      → In O W Q R B E id n p
      → Deliveries O W Q E p k q
      → (m : ℕ) × (n ≡ k + m) × In O W Q R B E id m q
  Deliveries-In p q n k phase none_yet = (n, omega arith, phase)
  Deliveries-In p r n k phase (one_more {n = j} {q = q} before d) =
      let (m, so_far, after) = Deliveries-In p q n j phase before in
      let (l, less, last) = Delivery-In O W Q R B E id q r m after d in (l, omega arith, last)

  -- In the same orders, if from some time on messages are got and no update is started, at most two more
  -- messages are got than are on their way at that time: the sides do not answer each other for ever.
  pub Deliveries-bound :
      (x : Epoch) (n : ℕ) (p q r : Pair O)
      → Joined W R id x p
      → Reach O W Q E p q
      → Deliveries O W Q E q n r
      → n ≤ length q.down + length q.up + 2
  Deliveries-bound x n p q r j run got =
      let (k, phase) = Reach-In O W Q R B E id x p q j run in
      let (m, counted, _) = Deliveries-In q r k n phase got in omega (arith, Phase-bound phase)
