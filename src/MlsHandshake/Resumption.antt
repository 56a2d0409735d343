-- ===== src/MlsHandshake/Resumption.antt =====
-- Resuming a session over a new connection: `ClientHandshake::resume` of
-- src/mls_handshake/state_machine/client.rs and `ServerHandshake::start` of server.rs.
pub mod Sends
pub mod Accepts
pub mod Agreement
use mls_tls_protocol.Base.{◌≡◌, none, some}
use mls_tls_protocol.TlsAead.Secrets.{ServerSecret}
use mls_tls_protocol.MlsHandshake.OpenMls.{OpenMls}
use mls_tls_protocol.MlsHandshake.Messages.{Wire}
use mls_tls_protocol.MlsHandshake.Group.{IsMls, Commits}
use mls_tls_protocol.MlsHandshake.Group.Operations.{secrets_of}
use mls_tls_protocol.MlsHandshake.Client.State.{
  PendingUpdate, ClientInternalState, running, waiting_for_connection_confirmation,
  waiting_for_epoch_key_update, waiting_for_epoch_key_update_return,
}

module _ (O : OpenMls) (W : Wire O) (R : IsMls O) (id : O.GroupId) where
  open R use {Epoch, stored, commit_of, sent}

  -- An update from x that the client made, and merged.
  pub record Merged (x : Epoch) (p : PendingUpdate O) (s : O.Storage) : Type 0 where
    pub target : Epoch
    pub commits : Commits R p.mls_message id x target
    pub has_secrets : p.traffic_secrets ≡ secrets_of O W R target
    pub in_target : stored s id ≡ some (target, none)

  -- The epoch in which the client made the commit that it resumes with: its own without an update of its
  -- own that it waits to have confirmed, and otherwise that of the update.
  pub data Resumes (x : Epoch) : ClientInternalState O → O.Storage → Type 0 where
    fresh : {s : O.Storage} → stored s id ≡ some (x, none) → Resumes x running s
    fresh_return :
        {s : O.Storage} {secret : ServerSecret}
        → stored s id ≡ some (x, none)
        → Resumes x (waiting_for_epoch_key_update_return secret) s
    again :
        {s : O.Storage} {p : PendingUpdate O}
        → Merged x p s
        → Resumes x (waiting_for_epoch_key_update p) s
    again_confirmation :
        {s : O.Storage} {p : PendingUpdate O}
        → Merged x p s
        → Resumes x (waiting_for_connection_confirmation p) s
