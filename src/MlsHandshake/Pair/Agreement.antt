-- ===== src/MlsHandshake/Pair/Agreement.antt =====
-- That two handshakes of src/mls_handshake/mod.rs agree on their epoch and their secrets, in every order of
-- updates from both sides.
use mls_tls_protocol.Base.{ℕ, suc, ◌≡◌, sym, subst, ap, refl, ◌∙◌, List, []}
use mls_tls_protocol.Base.Bytes.{Octets}
use mls_tls_protocol.MlsHandshake.OpenMls.{OpenMls}
use mls_tls_protocol.MlsHandshake.Messages.{Wire}
use mls_tls_protocol.MlsHandshake.Group.{IsMls, ReadsBack}
use mls_tls_protocol.MlsHandshake.Pair.Run.{
  Pair, Step, client_starts, server_starts, delivers, Delivery, client_gets, server_gets, Reach,
  start, then, Joined,
}
use mls_tls_protocol.MlsHandshake.Pair.Phases.{Phase, calm, asked, told, answered, no_offer}
use mls_tls_protocol.MlsHandshake.Pair.Starts.{client_starts-Phase, server_starts-Phase}
use mls_tls_protocol.MlsHandshake.Pair.Receipts.{client_gets-Phase, server_gets-Phase}
use mls_tls_protocol.MlsHandshake.Persistence.{Sql}

module _ (O : OpenMls) (W : Wire O) (Q : Sql O W) (R : IsMls O) (B : ReadsBack W R) (E : Type 0)
    (id : O.GroupId) where
  open R use {Epoch}

  abbrev pub In : ℕ → Pair O → Type 0
  In n p = Phase O W Q R E id n p.client p.server p.client_secrets p.server_secrets p.up p.down

  Joined-In : (x : Epoch) (p : Pair O) → Joined W R id x p → In 0 p
  Joined-In x p j =
      subst (λ v. In 0 (record p { up = v })) (sym j.nothing_up)
        (subst (λ v. In 0 (record p { up = []; down = v })) (sym j.nothing_down)
          (calm j.client_side j.server_side j.client_keys j.server_keys no_offer))

  pub Delivery-In :
      (p q : Pair O) (n : ℕ) → In n p → Delivery O W Q E p q → (m : ℕ) × (n ≡ suc m) × In m q
  Delivery-In p q n phase (client_gets bytes rest u response h is_next e) =
      client_gets-Phase O W Q R B E id p.client h p.server p.client_secrets p.server_secrets p.up
        rest bytes u response n (subst (λ v. In n (record p { down = v })) is_next phase) e
  Delivery-In p q n phase (server_gets bytes rest u response h is_next e) =
      server_gets-Phase O W Q R B E id p.client p.server h p.client_secrets p.server_secrets rest
        p.down bytes u response n (subst (λ v. In n (record p { up = v })) is_next phase) e

  Step-In : (p q : Pair O) (n : ℕ) → In n p → Step O W Q E p q → (m : ℕ) × In m q
  Step-In p q n phase (client_starts u bytes h e) =
      client_starts-Phase O W Q R E id p.client h p.server p.client_secrets p.server_secrets p.up
        p.down u bytes n phase e
  Step-In p q n phase (server_starts u bytes h e) =
      server_starts-Phase O W Q R E id p.client p.server h p.client_secrets p.server_secrets p.up
        p.down u bytes n phase e
  Step-In p q n phase (delivers d) = let (m, _, after) = Delivery-In p q n phase d in (m, after)

  pub Reach-In :
      (x : Epoch) (p q : Pair O) → Joined W R id x p → Reach O W Q E p q → (n : ℕ) × In n q
  Reach-In x p q j start = (0, Joined-In x p j)
  Reach-In x p r j (then {q = q} before step) =
      let (n, phase) = Reach-In x p q j before in Step-In q r n phase step

  quiet-In :
      (q : Pair O) (n : ℕ)
      → In n (record q { up = []; down = [] })
      → (y : Epoch) × Joined W R id y (record q { up = []; down = [] })
  quiet-In q n (calm {x = x} is_c is_s keys_c keys_s no_offer) = (
    x,
    record {
      client_side = is_c;
      server_side = is_s;
      client_keys = keys_c;
      server_keys = keys_s;
      nothing_up = refl;
      nothing_down = refl;
    },
  )
  quiet-In q n (answered _ _ _ _ x) = elim x [ ]

  -- A client and a server start Running in one epoch of one group, with its secrets. They start updates
  -- and get messages in any order, also when their updates cross, and each of these operations succeeds.
  -- Whenever no message is on its way they are Running in one epoch of the group again, without a pending
  -- commit, and both use the secrets of that epoch. Groups and messages behave as IsMls and ReadsBack say.
  pub quiet-Joined :
      (x : Epoch) (p q : Pair O)
      → Joined W R id x p
      → Reach O W Q E p q
      → q.up ≡ []
      → q.down ≡ []
      → (y : Epoch) × Joined W R id y q
  quiet-Joined x p q j run no_up no_down =
      let (n, phase) = Reach-In x p q j run in
      let (y, joined) = quiet-In q n (
        subst {A = List Octets × List Octets} (λ v. In n (record q { up = v.0; down = v.1 }))
          (λ i. (no_up i, no_down i)) phase) in
      (
        y,
        subst {A = List Octets × List Octets}
            (λ v. Joined W R id y (record q { up = v.0; down = v.1 }))
            (λ i. (sym no_up i, sym no_down i)) joined,
      )

  up-In :
      (q : Pair O) (n : ℕ)
      → In n (record q { up = [] })
      → q.client_secrets.client_secret ≡ q.server_secrets.client_secret
  up-In q n (calm _ _ keys_c keys_s _) = ap (λ v. v.client_secret) (keys_c ∙ sym keys_s)
  up-In q n (answered _ _ keys_c keys_s _) =
      ap (λ v. v.client_secret) keys_c ∙ ap (λ v. v.client_secret) (sym keys_s)

  -- In the same orders, whenever no message to the server is on its way, the client's secret that the client
  -- uses is the one that the server uses, also while an update of the server is on its way.
  pub empty_up-client_secret :
      (x : Epoch) (p q : Pair O)
      → Joined W R id x p
      → Reach O W Q E p q
      → q.up ≡ []
      → q.client_secrets.client_secret ≡ q.server_secrets.client_secret
  empty_up-client_secret x p q j run no_up =
      let (n, phase) = Reach-In x p q j run in
      up-In q n (subst (λ v. In n (record q { up = v })) no_up phase)

  down-In :
      (q : Pair O) (n : ℕ)
      → In n (record q { down = [] })
      → q.client_secrets.server_secret ≡ q.server_secrets.server_secret
  down-In q n (calm _ _ keys_c keys_s _) = ap (λ v. v.server_secret) (keys_c ∙ sym keys_s)
  down-In q n (asked _ _ keys_c keys_s _ _) =
      ap (λ v. v.server_secret) keys_c ∙ ap (λ v. v.server_secret) (sym keys_s)
  down-In q n (told _ _ keys_c keys_s _) =
      ap (λ v. v.server_secret) keys_c ∙ ap (λ v. v.server_secret) (sym keys_s)
  down-In q n (answered _ _ _ _ x) = elim x [ ]

  -- In the same orders, whenever no message to the client is on its way, the server's secret that the server
  -- uses is the one that the client uses, also while an update of the client is on its way.
  pub empty_down-server_secret :
      (x : Epoch) (p q : Pair O)
      → Joined W R id x p
      → Reach O W Q E p q
      → q.down ≡ []
      → q.client_secrets.server_secret ≡ q.server_secrets.server_secret
  empty_down-server_secret x p q j run no_down =
      let (n, phase) = Reach-In x p q j run in
      down-In q n (subst (λ v. In n (record q { down = v })) no_down phase)
