-- ===== src/MlsHandshake/Pair.antt =====
-- A client and a server of src/mls_handshake/state_machine that share one group: the epoch that each is in,
-- and what the messages between them say.
pub mod ClientSteps
pub mod ClientReceives
pub mod ClientConfirmed
pub mod ServerSteps
pub mod ServerReceives
pub mod Confirming
pub mod Sides
pub mod Moves
pub mod Run
pub mod Phases
pub mod Starts
pub mod Receipts
pub mod Agreement
pub mod Settling
use mls_tls_protocol.Base.{◌≡◌, Option, none, some, ok}
use mls_tls_protocol.Base.Bytes.{Octets}
use mls_tls_protocol.MlsHandshake.OpenMls.{OpenMls, Connection}
use mls_tls_protocol.MlsHandshake.Messages.{Wire, Boolean, connection_update, epoch_key_update}
use mls_tls_protocol.MlsHandshake.Group.{IsMls, Commits}
use mls_tls_protocol.MlsHandshake.Client.State.{ClientInternalState, ClientHandshakeState}
use mls_tls_protocol.MlsHandshake.Server.{
  ServerInternalState, ServerHandshakeState, running, waiting_for_update,
}

module _ (O : OpenMls) (W : Wire O) (R : IsMls O) where
  open R use {Epoch, number, stored, commit_of, sent}

  -- The group of an id, in an epoch without a pending commit of the client's own.
  pub record ClientIn (id : O.GroupId) (x : Epoch) (state : ClientInternalState O)
      (s : ClientHandshakeState O) (c : Connection O) : Type 0 where
    pub has_group : s.mls_session.group_id ≡ id
    pub has_state : s.internal_state ≡ state
    pub in_epoch : stored c.storage id ≡ some (x, none)

  -- A server waits for the client as long as a commit of its own is pending.
  abbrev pub state_with : Option Epoch → ServerInternalState
  state_with none = running
  state_with (some _) = waiting_for_update

  pub record ServerIn (id : O.GroupId) (x : Epoch) (pending : Option Epoch)
      (s : ServerHandshakeState O) (c : Connection O) : Type 0 where
    pub has_group : s.mls_session.group_id ≡ id
    pub has_state : s.internal_state ≡ state_with pending
    pub in_epoch : stored c.storage id ≡ some (x, pending)

  -- A `ConnectionUpdate` with a commit of the group from one epoch to the next
  pub record Carries (id : O.GroupId) (x y : Epoch) (bytes : Octets) : Type 0 where
    pub message : O.MessageOut
    pub is_update :
        W.serialize_signaling
          (connection_update (record { update_requested = Boolean.false; mls_commit = message }))
        ≡ ok bytes
    pub commits : Commits R message id x y

  -- An `EpochKeyUpdate` that names an epoch
  pub record Confirms (x : Epoch) (bytes : Octets) : Type 0 where
    pub is_confirmation :
        W.serialize_signaling (epoch_key_update (record { epoch = number x })) ≡ ok bytes
