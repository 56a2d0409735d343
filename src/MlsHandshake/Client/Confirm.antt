-- ===== src/MlsHandshake/Client/Confirm.antt =====
-- The messages that confirm an epoch to the client, in src/mls_handshake/state_machine/client.rs.
use mls_tls_protocol.Base.{◌≡◌, none, some, ok, arith, Result-Cases, ok_case, err_case, panic_case}
use mls_tls_protocol.TlsAead.Secrets.{ServerSecret, server}
use mls_tls_protocol.MlsHandshake.OpenMls.{OpenMls, Connection}
use mls_tls_protocol.MlsHandshake.Messages.{
  Wire, EpochKeyUpdate, connection_confirmation, epoch_key_update,
}
use mls_tls_protocol.MlsHandshake.Method.{check_epoch_key_update}
use mls_tls_protocol.MlsHandshake.Session.{MlsSession, process_epoch_key_update, load_group}
use mls_tls_protocol.MlsHandshake.Client.{
  Client, Response, dispatch, receive_confirmation, receive_epoch_key_update,
}
use mls_tls_protocol.MlsHandshake.Client.State.{
  PendingUpdate, ClientInternalState, running, waiting_for_connection_confirmation,
  waiting_for_epoch_key_update, waiting_for_epoch_key_update_return,
}
use mls_tls_protocol.MlsHandshake.Persistence.{Sql}

module _ (O : OpenMls) (W : Wire O) (Q : Sql O W) where
  -- Whatever an `EpochKeyUpdate` or a `ConnectionConfirmation` brings, an error included, the client is
  -- `Running` after it, and its session and its profile id are the ones it had. So an unexpected message
  -- or a wrong epoch drops the pending update too.
  pub confirmations-end_running :
      (signer : O.Signer) (message : EpochKeyUpdate) (s : Client O W) (c : Connection O)
      → ((dispatch O W Q signer (epoch_key_update message) (s, c)).1.0
          ≡ record s { internal_state = running })
        × ((dispatch O W Q signer (connection_confirmation message) (s, c)).1.0
            ≡ record s { internal_state = running })
  unfolding dispatch receive_epoch_key_update receive_confirmation
  confirmations-end_running signer message s c = (ground arith, ground arith)

  -- The server secret that a state keeps until the server's keys may change.
  pub data Keeps : ClientInternalState O → ServerSecret → Type 0 where
    own_update :
        {pending : PendingUpdate O}
        → Keeps (waiting_for_epoch_key_update pending) pending.traffic_secrets.server_secret
    server_update :
        {secret : ServerSecret} → Keeps (waiting_for_epoch_key_update_return secret) secret

  pub EpochFits : O.Storage → MlsSession O → EpochKeyUpdate → Type 0
  EpochFits storage session message =
      (group : O.Group) × (O.load storage session.group_id ≡ ok (some group))
      × (O.epoch group ≡ message.epoch)

  check_epoch_key_update-EpochFits :
      (session : MlsSession O) (message : EpochKeyUpdate) (c : Connection O)
      → ((check_epoch_key_update O W session message c).0 ≡ ok tt)
      → EpochFits c.storage session message
  unfolding EpochFits check_epoch_key_update process_epoch_key_update load_group
  check_epoch_key_update-EpochFits session message c done =
      elim (Result-Cases (O.load c.storage session.group_id)) [
        | ok_case none e ↦ absurd (ground arith)
        | ok_case (some group) e ↦ (group, e, ground arith)
        | err_case x e ↦ absurd (ground arith)
        | panic_case e ↦ absurd (ground arith)
      ]

  pub Secret :
      EpochKeyUpdate → ClientInternalState O → O.Storage → MlsSession O → Response O W → Type 0
  Secret message x storage session response =
      (secret : ServerSecret) × Keeps x secret
      × (response ≡ (some (server secret), none))
      × EpochFits storage session message

  receive_epoch_key_update-Secret :
      (message : EpochKeyUpdate) (x : ClientInternalState O) (s : Client O W) (c : Connection O)
      (response : Response O W)
      → (receive_epoch_key_update O W message x (s, c)).0 ≡ ok response
      → Secret message x c.storage s.mls_session response
  unfolding Secret receive_epoch_key_update
  receive_epoch_key_update-Secret message running s c response done = absurd (ground arith)
  receive_epoch_key_update-Secret message (waiting_for_connection_confirmation _) s c response
        done =
      absurd (ground arith)
  receive_epoch_key_update-Secret message (waiting_for_epoch_key_update pending) s c response done =
      (
        pending.traffic_secrets.server_secret,
        own_update,
        ground arith,
        check_epoch_key_update-EpochFits s.mls_session message c (ground arith),
      )
  receive_epoch_key_update-Secret message (waiting_for_epoch_key_update_return secret) s c response
        done =
      (
        secret,
        server_update,
        ground arith,
        check_epoch_key_update-EpochFits s.mls_session message c (ground arith),
      )

  -- An `EpochKeyUpdate` that is accepted finds the client waiting for it with a server secret, and hands
  -- out that secret; the group of the session is in the storage, in the epoch that the message names.
  pub epoch_key_update-secret :
      (signer : O.Signer) (message : EpochKeyUpdate) (s : Client O W) (c : Connection O)
      (response : Response O W)
      → (dispatch O W Q signer (epoch_key_update message) (s, c)).0 ≡ ok response
      → (secret : ServerSecret) × Keeps s.internal_state secret
        × (response ≡ (some (server secret), none))
        × EpochFits c.storage s.mls_session message
  unfolding dispatch Secret
  epoch_key_update-secret signer message s c response done =
      receive_epoch_key_update-Secret message s.internal_state
        (record s { internal_state = running }) c response (ground arith)
