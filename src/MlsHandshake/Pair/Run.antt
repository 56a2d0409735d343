-- ===== src/MlsHandshake/Pair/Run.antt =====
-- The signaling of two completed handshakes of src/mls_handshake/mod.rs, with the messages between them
-- in order: a side starts an update, or gets the next message. The secrets of a side are those that its
-- channel uses, and it takes every update of them that the handshake hands out. A step is one that
-- succeeds; what an error leaves is not one.
use mls_tls_protocol.Base.{ℕ, suc, ◌≡◌, List, [], ◌∷◌, ◌++◌, Option, none, some, ok}
use mls_tls_protocol.Base.Bytes.{Octets}
use mls_tls_protocol.TlsAead.Secrets
use mls_tls_protocol.TlsAead.Secrets.{TrafficSecrets, SecretUpdate}
use mls_tls_protocol.MlsHandshake.OpenMls.{OpenMls}
use mls_tls_protocol.MlsHandshake.Messages.{Wire}
use mls_tls_protocol.MlsHandshake.Group.{IsMls}
use mls_tls_protocol.MlsHandshake.Group.Operations.{secrets_of}
use mls_tls_protocol.MlsHandshake.Pair.Sides.{ClientSide, ServerSide}
use mls_tls_protocol.MlsHandshake.Client.State.{running}
use mls_tls_protocol.MlsHandshake.Persistence.{Sql}
use mls_tls_protocol.MlsHandshake.Driver.{MlsHandshake, update_handshake, process_signaling_message}

pub record Pair (O : OpenMls) : Type 0 where
  pub client : MlsHandshake O
  pub server : MlsHandshake O
  pub client_secrets : TrafficSecrets
  pub server_secrets : TrafficSecrets
  -- The messages to the server and to the client, the oldest first
  pub up : List Octets
  pub down : List Octets

unfoldable pub take_update : Option SecretUpdate → TrafficSecrets → TrafficSecrets
unfolding Secrets.update
take_update none secrets = secrets
take_update (some u) secrets = Secrets.update u secrets

unfoldable pub send : Option Octets → List Octets → List Octets
send none queue = queue
send (some bytes) queue = queue ++ (bytes ∷ [])

module _ (O : OpenMls) (W : Wire O) (Q : Sql O W) (TransportError : Type 0) where
  -- A side gets the next message.
  pub data Delivery (p : Pair O) : Pair O → Type 0 where
    client_gets :
        (bytes : Octets) (rest : List Octets) (u : Option SecretUpdate) (response : Option Octets)
        (h : MlsHandshake O)
        → p.down ≡ bytes ∷ rest
        → process_signaling_message O W Q TransportError bytes p.client ≡ (ok (u, response), h)
        → Delivery p (record p {
          client = h;
          client_secrets = take_update u p.client_secrets;
          up = send response p.up;
          down = rest;
        })
    server_gets :
        (bytes : Octets) (rest : List Octets) (u : Option SecretUpdate) (response : Option Octets)
        (h : MlsHandshake O)
        → p.up ≡ bytes ∷ rest
        → process_signaling_message O W Q TransportError bytes p.server ≡ (ok (u, response), h)
        → Delivery p (record p {
          server = h;
          server_secrets = take_update u p.server_secrets;
          up = rest;
          down = send response p.down;
        })

  pub data Step (p : Pair O) : Pair O → Type 0 where
    client_starts :
        (u : Option SecretUpdate) (bytes : Octets) (h : MlsHandshake O)
        → update_handshake O W Q TransportError p.client ≡ (ok (u, bytes), h)
        → Step p (record p {
          client = h;
          client_secrets = take_update u p.client_secrets;
          up = send (some bytes) p.up;
        })
    server_starts :
        (u : Option SecretUpdate) (bytes : Octets) (h : MlsHandshake O)
        → update_handshake O W Q TransportError p.server ≡ (ok (u, bytes), h)
        → Step p (record p {
          server = h;
          server_secrets = take_update u p.server_secrets;
          down = send (some bytes) p.down;
        })
    delivers : {q : Pair O} → Delivery p q → Step p q

  pub data Reach (p : Pair O) : Pair O → Type 0 where
    start : Reach p p
    then : {q r : Pair O} → Reach p q → Step q r → Reach p r

  -- So many messages are got, and no update is started.
  pub data Deliveries (p : Pair O) : ℕ → Pair O → Type 0 where
    none_yet : Deliveries p 0 p
    one_more : {n : ℕ} {q r : Pair O} → Deliveries p n q → Delivery q r → Deliveries p (suc n) r

-- Both sides Running in one epoch of one group with its secrets, and no message between them.
pub record Joined {O : OpenMls} (W : Wire O) (R : IsMls O) (id : O.GroupId) (x : R.Epoch)
    (p : Pair O) : Type 0 where
  pub client_side : ClientSide O W R id x running p.client
  pub server_side : ServerSide O W R id x none p.server
  pub client_keys : p.client_secrets ≡ secrets_of O W R x
  pub server_keys : p.server_secrets ≡ secrets_of O W R x
  pub nothing_up : p.up ≡ []
  pub nothing_down : p.down ≡ []
