-- ===== src/MlsHandshake/Client/State.antt =====
-- The state of the client of src/mls_handshake/state_machine/client.rs, which is also what
-- src/mls_handshake/persistence.rs stores as JSON.
use mls_tls_protocol.Base.Bytes.{Octets}
use mls_tls_protocol.TlsAead.Secrets.{ServerSecret, TrafficSecrets}
use mls_tls_protocol.MlsHandshake.OpenMls.{OpenMls}
use mls_tls_protocol.MlsHandshake.Session.{MlsSession}

pub record PendingUpdate (O : OpenMls) : Type 0 where
  pub mls_message : O.MessageOut
  pub traffic_secrets : TrafficSecrets

pub data ClientInternalState (O : OpenMls) : Type 0 where
  running : ClientInternalState O
  waiting_for_connection_confirmation : PendingUpdate O → ClientInternalState O
  -- waiting for the server to confirm our own update
  waiting_for_epoch_key_update : PendingUpdate O → ClientInternalState O
  -- waiting for the server to update its keys after its own update
  waiting_for_epoch_key_update_return : ServerSecret → ClientInternalState O

pub record ClientHandshakeState (O : OpenMls) : Type 0 where
  pub profile_id : Octets
  pub mls_session : MlsSession O
  pub internal_state : ClientInternalState O
