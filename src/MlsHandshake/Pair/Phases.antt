-- ===== src/MlsHandshake/Pair/Phases.antt =====
-- The phases of the signaling between two handshakes of src/mls_handshake/mod.rs.
use mls_tls_protocol.Base.{ℕ, suc, ◌≡◌, List, [], ◌∷◌, Option, none, some}
use mls_tls_protocol.Base.Bytes.{Octets}
use mls_tls_protocol.TlsAead.Secrets.{TrafficSecrets}
use mls_tls_protocol.MlsHandshake.OpenMls.{OpenMls}
use mls_tls_protocol.MlsHandshake.Messages.{Wire}
use mls_tls_protocol.MlsHandshake.Group.{IsMls}
use mls_tls_protocol.MlsHandshake.Group.Operations.{secrets_of}
use mls_tls_protocol.MlsHandshake.Pair.{Carries, Confirms}
use mls_tls_protocol.MlsHandshake.Pair.Sides.{ClientSide, ServerSide}
use mls_tls_protocol.MlsHandshake.Pair.Moves.{Awaits}
use mls_tls_protocol.MlsHandshake.Pair.Run.{send}
use mls_tls_protocol.MlsHandshake.Client.State.{running}
use mls_tls_protocol.MlsHandshake.Persistence.{Sql}
use mls_tls_protocol.MlsHandshake.Driver.{MlsHandshake}

module _ (O : OpenMls) (W : Wire O) (Q : Sql O W) (R : IsMls O) (E : Type 0) (id : O.GroupId) where
  open R use {Epoch}

  -- Each of these has the number of messages that will be got before both queues are empty.

  -- Updates of the server that a client which waits will ignore
  pub data Stale : ℕ → List Octets → Type 0 where
    no_update : Stale 0 []
    one_update :
        {n : ℕ} {x y : Epoch} {b : Octets} {q : List Octets}
        → Carries O W R id x y b
        → Stale n q
        → Stale (suc n) (b ∷ q)

  -- The update of a server in x, if it made one: it is answered, and that is answered too.
  pub data Offer (x : Epoch) : Option Epoch → ℕ → List Octets → Type 0 where
    no_offer : Offer x none 0 []
    one_offer : {z : Epoch} {b : Octets} → Carries O W R id x z b → Offer x (some z) 3 (b ∷ [])

  -- The confirmation of y on its way, after ignored updates and before an update that the server made since.
  pub data Answer (y : Epoch) (pending : Option Epoch) : ℕ → List Octets → Type 0 where
    answer :
        {n : ℕ} {b : Octets} {q : List Octets}
        → Confirms O W R y b
        → Offer y pending n q
        → Answer y pending (suc n) (b ∷ q)
    after_update :
        {n : ℕ} {x z : Epoch} {b : Octets} {q : List Octets}
        → Carries O W R id x z b
        → Answer y pending n q
        → Answer y pending (suc n) (b ∷ q)

  -- The secrets of a client that moved on to y for sending, with a server that still sends in x.
  abbrev pub between : Epoch → Epoch → TrafficSecrets
  between x y = record {
    client_secret = (secrets_of O W R y).client_secret;
    server_secret = (secrets_of O W R x).server_secret;
  }

  -- The handshakes, the secrets and the messages of the two sides
  pub data Phase
      : ℕ
        → MlsHandshake O
        → MlsHandshake O
        → TrafficSecrets
        → TrafficSecrets
        → List Octets
        → List Octets
        → Type 0 where
    -- Both are in x; the server may have made an update that the client does not have yet.
    calm :
        {n : ℕ} {c s : MlsHandshake O} {k l : TrafficSecrets} {down : List Octets} {x : Epoch}
        {pending : Option Epoch}
        → ClientSide O W R id x running c
        → ServerSide O W R id x pending s
        → k ≡ secrets_of O W R x
        → l ≡ secrets_of O W R x
        → Offer x pending n down
        → Phase n c s k l [] down
    -- The client's own update is on its way.
    asked :
        {n : ℕ} {c s : MlsHandshake O} {k l : TrafficSecrets} {b : Octets} {down : List Octets}
        {x y : Epoch} {pending : Option Epoch}
        → Awaits O W Q R E id y c
        → ServerSide O W R id x pending s
        → k ≡ between x y
        → l ≡ secrets_of O W R x
        → Carries O W R id x y b
        → Stale n down
        → Phase (suc (suc n)) c s k l (b ∷ []) down
    -- The client took the server's update.
    told :
        {c s : MlsHandshake O} {k l : TrafficSecrets} {b : Octets} {x y : Epoch}
        → Awaits O W Q R E id y c
        → ServerSide O W R id x (some y) s
        → k ≡ between x y
        → l ≡ secrets_of O W R x
        → Confirms O W R y b
        → Phase 2 c s k l (b ∷ []) []
    -- The server is in y too, and its confirmation is on its way.
    answered :
        {n : ℕ} {c s : MlsHandshake O} {k l : TrafficSecrets} {down : List Octets} {x y : Epoch}
        {pending : Option Epoch}
        → Awaits O W Q R E id y c
        → ServerSide O W R id y pending s
        → k ≡ between x y
        → l ≡ secrets_of O W R y
        → Answer y pending n down
        → Phase n c s k l [] down

  pub Offer-Stale :
      {x : Epoch} {pending : Option Epoch} {n : ℕ} {q : List Octets}
      → Offer x pending n q
      → (m : ℕ) × Stale m q
  Offer-Stale no_offer = (0, no_update)
  Offer-Stale (one_offer c) = (1, one_update c no_update)

  pub Offer-send :
      {x z : Epoch} {n : ℕ} {b : Octets} {q : List Octets}
      → Offer x none n q
      → Carries O W R id x z b
      → Offer x (some z) 3 (send (some b) q)
  unfolding send
  Offer-send no_offer c = one_offer c

  pub Stale-send :
      {x z : Epoch} {n : ℕ} {b : Octets} {q : List Octets}
      → Stale n q
      → Carries O W R id x z b
      → Stale (suc n) (send (some b) q)
  unfolding send
  Stale-send no_update c = one_update c no_update
  Stale-send (one_update d q) c = one_update d (Stale-send q c)

  pub Answer-send :
      {y z : Epoch} {n : ℕ} {b : Octets} {q : List Octets}
      → Answer y none n q
      → Carries O W R id y z b
      → (m : ℕ) × Answer y (some z) m (send (some b) q)
  unfolding send
  Answer-send (answer a q) c = (4, answer a (Offer-send q c))
  Answer-send (after_update d q) c = let (m, rest) = Answer-send q c in (suc m, after_update d rest)

  pub Stale-answer :
      {y : Epoch} {n : ℕ} {b : Octets} {q : List Octets}
      → Stale n q
      → Confirms O W R y b
      → Answer y none (suc n) (send (some b) q)
  unfolding send
  Stale-answer no_update a = answer a no_offer
  Stale-answer (one_update d q) a = after_update d (Stale-answer q a)
