-- ===== src/MlsHandshake/Server.antt =====
-- src/mls_handshake/state_machine/server.rs: the server's side of the handshake and of updates.
pub mod Waiting
use mls_tls_protocol.Base.{
  Bool, true, false, Option, none, some, Result, ok, err, panic, M, pure, throw, lift, continue,
  ◌>>=◌, ◌>>◌, if◌then◌else◌,
}
use mls_tls_protocol.Base.Bytes.{Octets}
use mls_tls_protocol.TlsAead.Secrets.{TrafficSecrets}
use mls_tls_protocol.MlsHandshake.OpenMls.{OpenMls, Connection}
use mls_tls_protocol.MlsHandshake.Messages.{
  EpochKeyUpdate, Wire, SignalingMessage, ConnectionUpdate, connection_update,
  connection_confirmation, epoch_key_update, key_update, ClientHello, Resumption, HandshakePayload,
  client_hello, resumption, ServerHello, to_bool, from_bool, message_type, check_version,
  unexpected_message, waiting_for_response,
}
use mls_tls_protocol.MlsHandshake.Session
use mls_tls_protocol.MlsHandshake.Session.{MlsSession, ClientIdentity}
use mls_tls_protocol.MlsHandshake.Method.{
  Error, Method, OnConnection, stored, on_connection, modify, this, coded, epoch_key_update_bytes,
  check_epoch_key_update,
}

pub data ServerInternalState : Type 0 where
  running waiting_for_update : ServerInternalState

pub record ServerHandshakeState (O : OpenMls) : Type 0 where
  pub mls_session : MlsSession O
  pub internal_state : ServerInternalState

pub record Started (O : OpenMls) : Type 0 where
  pub state : ServerHandshakeState O
  pub secrets : TrafficSecrets
  pub identity : ClientIdentity
  pub response : Octets

module _ (O : OpenMls) (W : Wire O) where
  open O use {Signer, GroupId, MessageIn, MessageOut}

  abbrev pub Server : Type 0
  Server = ServerHandshakeState O

  -- `ServerHandshake::process_client_hello`; `group_id` is the fresh id of the group.
  unfoldable pub process_client_hello :
      GroupId → Signer → ClientHello MessageIn → OnConnection O W (Started O)
  unfolding Session.create_server_session
  process_client_hello group_id signer hello c = elim (O.key_package hello.key_package) [
    | none ↦ (err (unexpected_message "KeyPackage" "Unknown"), c)
    | some key_package ↦
        (do
          (session, secrets, identity, welcome) ←
              stored O W (Session.create_server_session O W group_id signer key_package)
          bytes ← lift (coded O W (W.serialize_server_hello (record { welcome = welcome })))
          pure (record {
            state = record { mls_session = session; internal_state = running };
            secrets = secrets;
            identity = identity;
            response = bytes;
          }))
          c
  ]

  -- `create_connection_confirmation`
  unfoldable pub create_connection_confirmation : MlsSession O → OnConnection O W Octets
  unfolding Session.create_epoch_key_update
  create_connection_confirmation session = do
    message ← stored O W (Session.create_epoch_key_update O W session)
    lift (coded O W (W.serialize_signaling (connection_confirmation message)))

  unfoldable pub process_resumption : Resumption MessageIn → OnConnection O W (Started O)
  unfolding Session.process_mls_update create_connection_confirmation
  process_resumption message = do
    (secrets, session, identity) ← stored O W (Session.process_mls_update O W message.commit true)
    bytes ← create_connection_confirmation session
    pure (record {
      state = record { mls_session = session; internal_state = running };
      secrets = secrets;
      identity = identity;
      response = bytes;
    })

  abbrev pub dispatch_start :
      GroupId → Signer → HandshakePayload MessageIn → OnConnection O W (Started O)
  dispatch_start group_id signer (client_hello hello) = process_client_hello group_id signer hello
  dispatch_start group_id signer (resumption message) = process_resumption message

  unfoldable pub start : GroupId → Signer → Octets → OnConnection O W (Started O)
  unfolding process_client_hello process_resumption check_version
  start group_id signer bytes = do
    message ← lift (coded O W (W.deserialize_handshake bytes))
    lift (check_version message)
    dispatch_start group_id signer message.payload

  abbrev pub is_waiting : ServerInternalState → Bool
  is_waiting running = false
  is_waiting waiting_for_update = true

  unfoldable pub is_waiting_for_response : Server → Bool
  is_waiting_for_response s = is_waiting s.internal_state

  abbrev pub set_state : ServerInternalState → Method O W Server (Unit {0})
  set_state x = modify O W (λ s. record s { internal_state = x })

  -- The bytes of a `ConnectionUpdate`.
  abbrev pub connection_update_bytes : Bool → MessageOut → Result (Error O W) Octets
  connection_update_bytes requested commit = coded O W (
      W.serialize_signaling (
        connection_update (record { update_requested = from_bool requested; mls_commit = commit })))

  -- `self.mls_session.merge_update(connection)?`
  abbrev pub merge_session : Method O W Server TrafficSecrets
  merge_session (self, c) =
      let r = Session.merge_update O W self.mls_session c.storage in
      (r.0, (record self { mls_session = r.1.0 }, record c { storage = r.1.1 }))

  unfoldable pub update : Signer → Bool → Method O W Server Octets
  unfolding is_waiting_for_response Session.update from_bool
  update signer update_requested = do
    self ← this O W
    if is_waiting_for_response self then throw waiting_for_response else (do
      commit ← on_connection O W (stored O W (Session.update O W self.mls_session signer))
      bytes ← lift (connection_update_bytes update_requested commit)
      set_state waiting_for_update
      pure bytes)

  unfoldable pub process_update :
      Signer → ConnectionUpdate MessageIn → Method O W Server (TrafficSecrets × Octets)
  unfolding Session.process_mls_update Session.update epoch_key_update_bytes to_bool from_bool
  process_update signer message = do
    (secrets, session, _) ←
        on_connection O W (stored O W (Session.process_mls_update O W message.mls_commit true))
    set_state running
    modify O W (λ s. record s { mls_session = session })
    response ← on_connection O W (epoch_key_update_bytes O W session)
    if to_bool message.update_requested
        then (do
          commit ← on_connection O W (stored O W (Session.update O W session signer))
          set_state waiting_for_update
          bytes ← lift (connection_update_bytes false commit)
          pure (secrets, bytes))
        else pure (secrets, response)

  unfoldable pub receive_epoch_key_update :
      ServerInternalState
      → EpochKeyUpdate
      → SignalingMessage MessageIn
      → Method O W Server (TrafficSecrets × Option Octets)
  unfolding Session.merge_update epoch_key_update_bytes check_epoch_key_update message_type
  receive_epoch_key_update running message whole =
      throw (unexpected_message "None" (message_type whole))
  receive_epoch_key_update waiting_for_update message whole = do
    secrets ← merge_session
    self ← this O W
    on_connection O W (check_epoch_key_update O W self.mls_session message)
    bytes ← on_connection O W (epoch_key_update_bytes O W self.mls_session)
    set_state running
    pure (secrets, some bytes)

  -- The `match` of `receive_signaling_message`; `todo!()` panics.
  unfoldable pub dispatch :
      Signer → SignalingMessage MessageIn → Method O W Server (TrafficSecrets × Option Octets)
  unfolding process_update receive_epoch_key_update
  dispatch signer (connection_update message) = do
    (secrets, bytes) ← process_update signer message
    pure (secrets, some bytes)
  dispatch signer (connection_confirmation message) =
      throw (unexpected_message "None" "ConnectionConfirmation")
  dispatch signer (epoch_key_update message) = do
    self ← this O W
    receive_epoch_key_update self.internal_state message (epoch_key_update message)
  dispatch signer (key_update message) = lift panic

  unfoldable pub receive_signaling_message :
      Signer → Octets → Method O W Server (TrafficSecrets × Option Octets)
  unfolding dispatch
  receive_signaling_message signer bytes = do
    message ← lift (coded O W (W.deserialize_signaling bytes))
    dispatch signer message
