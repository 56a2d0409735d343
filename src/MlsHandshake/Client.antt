-- ===== src/MlsHandshake/Client.antt =====
-- src/mls_handshake/state_machine/client.rs: the client's side of the handshake and of updates.
pub mod State
pub mod Waiting
pub mod Confirm
use mls_tls_protocol.Base.{
  Bool, true, false, Option, none, some, Result, ok, err, panic, M, pure, throw, lift, continue,
  ◌>>=◌, ◌>>◌, if◌then◌else◌, map_err, not,
}
use mls_tls_protocol.Base.Bytes.{Octets}
use mls_tls_protocol.TlsAead.Secrets.{
  ClientSecret, ServerSecret, TrafficSecrets, SecretUpdate, client, server,
}
use mls_tls_protocol.MlsHandshake.OpenMls.{OpenMls, Connection}
use mls_tls_protocol.MlsHandshake.Messages.{
  EpochKeyUpdate, Wire, SignalingMessage, ConnectionUpdate, connection_update,
  connection_confirmation, epoch_key_update, key_update, Resumption, ServerHello, client_hello,
  resumption, from_payload, to_bool, from_bool, message_type, unexpected_message,
  waiting_for_response, resumption_failed, server_hello_error, verification_error,
  unexpected_verifying_key, library_error, key_package_error,
}
use mls_tls_protocol.MlsHandshake.Session
use mls_tls_protocol.MlsHandshake.Session.{MlsSession}
use mls_tls_protocol.MlsHandshake.Method.{
  Error, Method, OnConnection, stored, on_connection, modify, this, coded, epoch_key_update_bytes,
  check_epoch_key_update,
}
use mls_tls_protocol.MlsHandshake.Client.State.{
  PendingUpdate, ClientInternalState, running, waiting_for_connection_confirmation,
  waiting_for_epoch_key_update, waiting_for_epoch_key_update_return, ClientHandshakeState,
}
use mls_tls_protocol.MlsHandshake.Persistence
use mls_tls_protocol.MlsHandshake.Persistence.{Sql}

pub record WaitingForServerHello (O : OpenMls) : Type 0 where
  pub profile_id : Octets
  pub server_verifying_key : O.PublicKey

module _ (O : OpenMls) (W : Wire O) where
  open O use {Signer, MessageIn, MessageOut, Welcome, PublicKey, StagedWelcome}

  abbrev pub Client : Type 0
  Client = ClientHandshakeState O

  -- `ClientHandshake::start`
  unfoldable pub start :
      Signer → PublicKey → Octets → OnConnection O W (WaitingForServerHello O × Octets)
  unfolding from_payload
  start signer server_verifying_key client_id = do
    key_package ←
        stored O W (Session.on_storage O W key_package_error (O.build_key_package signer client_id))
    bytes ← lift (
        coded O W (
          W.serialize_handshake
            (from_payload (client_hello (record { key_package = key_package })))))
    pure (record { profile_id = client_id; server_verifying_key = server_verifying_key }, bytes)

  -- `welcome_sender()?.signature_key() != &self.server_verifying_key`
  unfoldable pub check_sender : PublicKey → StagedWelcome → Result (Error O W) (Unit {0})
  check_sender server_verifying_key staged = elim (O.welcome_sender staged) [
    | ok key ↦
        if O.same_key key server_verifying_key
        then ok tt
        else err (verification_error unexpected_verifying_key)
    | err _ ↦ err (verification_error library_error)
    | panic ↦ panic
  ]

  -- Joining the group of a welcome.
  unfoldable pub join_group :
      WaitingForServerHello O → Welcome → OnConnection O W (Client × TrafficSecrets)
  unfolding check_sender Session.export_traffic_secrets
  join_group waiting welcome = do
    staged ← stored O W (Session.on_storage O W (λ _. server_hello_error) (O.stage_welcome welcome))
    lift (check_sender waiting.server_verifying_key staged)
    group ← stored O W (Session.on_storage O W (λ _. server_hello_error) (O.into_group staged))
    secrets ← stored O W (Session.export_traffic_secrets O W group)
    pure (
      record {
        profile_id = waiting.profile_id;
        mls_session = Session.session_of O W group;
        internal_state = running;
      },
      secrets,
    )

  unfoldable pub receive_server_hello :
      WaitingForServerHello O → Octets → OnConnection O W (Client × TrafficSecrets)
  unfolding join_group
  receive_server_hello waiting bytes = do
    hello ← lift (coded O W (W.deserialize_server_hello bytes))
    elim (O.welcome hello.welcome) [
      | none ↦ throw (unexpected_message "Welcome" "Unknown")
      | some welcome ↦ join_group waiting welcome
    ]

  abbrev pub set_state : ClientInternalState O → Method O W Client (Unit {0})
  set_state x = modify O W (λ s. record s { internal_state = x })

  -- `mem::take(&mut self.internal_state)`
  abbrev pub take_state : Method O W Client (ClientInternalState O)
  take_state (self, c) = (ok self.internal_state, (record self { internal_state = running }, c))

  -- `self.mls_session.update(connection, leaf_signer)`
  abbrev pub commit_update : Signer → Method O W Client MessageOut
  commit_update signer (self, c) =
      on_connection O W (stored O W (Session.update O W self.mls_session signer)) (self, c)

  -- `self.mls_session.merge_update(connection)?`
  abbrev pub merge_session : Method O W Client TrafficSecrets
  merge_session (self, c) =
      let r = Session.merge_update O W self.mls_session c.storage in
      (r.0, (record self { mls_session = r.1.0 }, record c { storage = r.1.1 }))

  abbrev pub failed : {S A : Type 0} → M S (Error O W) A → M S (Error O W) A
  failed m s = let r = m s in (map_err resumption_failed r.0, r.1)

  -- A fresh update for a resumption.
  unfoldable pub fresh_update : Signer → Method O W Client (PendingUpdate O)
  unfolding Session.update Session.merge_update
  fresh_update signer = do
    message ← failed (commit_update signer)
    secrets ← merge_session
    pure (record { mls_message = message; traffic_secrets = secrets })

  -- The update that `resume` sends, by the state that was taken.
  unfoldable pub resumption_update :
      Signer → ClientInternalState O → Method O W Client (PendingUpdate O)
  unfolding fresh_update
  resumption_update signer (waiting_for_epoch_key_update_return _) = fresh_update signer
  resumption_update signer running = fresh_update signer
  resumption_update signer (waiting_for_epoch_key_update pending) = pure pending
  resumption_update signer (waiting_for_connection_confirmation pending) = pure pending

  unfoldable pub resume : Signer → Method O W Client (TrafficSecrets × Octets)
  unfolding resumption_update from_payload
  resume signer = do
    taken ← take_state
    pending ← resumption_update signer taken
    bytes ← lift (
        coded O W (
          W.serialize_handshake
            (from_payload (resumption (record { commit = pending.mls_message })))))
    set_state (waiting_for_connection_confirmation pending)
    pure (pending.traffic_secrets, bytes)

  abbrev pub is_waiting : ClientInternalState O → Bool
  is_waiting running = false
  is_waiting (waiting_for_connection_confirmation _) = true
  is_waiting (waiting_for_epoch_key_update _) = true
  is_waiting (waiting_for_epoch_key_update_return _) = true

  unfoldable pub is_waiting_for_response : Client → Bool
  is_waiting_for_response s = is_waiting s.internal_state

  -- The bytes of a `ConnectionUpdate`.
  abbrev pub connection_update_bytes : Bool → MessageOut → Result (Error O W) Octets
  connection_update_bytes requested commit = coded O W (
      W.serialize_signaling (
        connection_update (record { update_requested = from_bool requested; mls_commit = commit })))

  -- `process_update`
  unfoldable pub process_update :
      Signer → ConnectionUpdate MessageIn → Method O W Client (ClientSecret × Octets)
  unfolding Session.process_mls_update Session.update Session.merge_update epoch_key_update_bytes
      to_bool from_bool
  process_update signer message = do
    (secrets, session, _) ←
        on_connection O W (stored O W (Session.process_mls_update O W message.mls_commit false))
    modify O W (λ s. record s { mls_session = session })
    response ← on_connection O W (epoch_key_update_bytes O W session)
    if to_bool message.update_requested
        then (do
          commit ← commit_update signer
          new_secrets ← merge_session
          set_state (
              waiting_for_epoch_key_update
                (record { mls_message = commit; traffic_secrets = new_secrets }))
          bytes ← lift (connection_update_bytes false commit)
          pure (new_secrets.client_secret, bytes))
        else (do
          set_state (waiting_for_epoch_key_update_return secrets.server_secret)
          pure (secrets.client_secret, response))

  -- `self.process_epoch_key_update(connection, …)?`
  abbrev pub confirm : EpochKeyUpdate → Method O W Client (Unit {0})
  confirm message (self, c) =
      on_connection O W (check_epoch_key_update O W self.mls_session message) (self, c)

  abbrev pub Response : Type 0
  Response = Option SecretUpdate × Option Octets

  -- The two branches that confirm an epoch, by the state that was taken.
  unfoldable pub receive_confirmation :
      EpochKeyUpdate → ClientInternalState O → Method O W Client Response
  unfolding check_epoch_key_update message_type
  receive_confirmation message (waiting_for_connection_confirmation _) = do
    confirm message
    set_state running
    pure (none, none)
  receive_confirmation message running =
      throw (unexpected_message "ConnectionConfirmation" "ConnectionConfirmation")
  receive_confirmation message (waiting_for_epoch_key_update _) =
      throw (unexpected_message "ConnectionConfirmation" "ConnectionConfirmation")
  receive_confirmation message (waiting_for_epoch_key_update_return _) =
      throw (unexpected_message "ConnectionConfirmation" "ConnectionConfirmation")

  unfoldable pub receive_epoch_key_update :
      EpochKeyUpdate → ClientInternalState O → Method O W Client Response
  unfolding check_epoch_key_update message_type
  receive_epoch_key_update message (waiting_for_epoch_key_update_return secret) = do
    confirm message
    pure (some (server secret), none)
  receive_epoch_key_update message (waiting_for_epoch_key_update pending) = do
    confirm message
    pure (some (server pending.traffic_secrets.server_secret), none)
  receive_epoch_key_update message running =
      throw (unexpected_message "EpochKeyUpdateReturn" "EpochKeyUpdate")
  receive_epoch_key_update message (waiting_for_connection_confirmation _) =
      throw (unexpected_message "EpochKeyUpdateReturn" "EpochKeyUpdate")

  module _ (Q : Sql O W) where
    -- `self.store_update(connection)?`
    abbrev pub save : Method O W Client (Unit {0})
    save (self, c) = on_connection O W (Persistence.store_update O W Q self) (self, c)

    unfoldable pub update : Signer → Bool → Method O W Client (ClientSecret × Octets)
    unfolding is_waiting_for_response Session.update Session.merge_update from_bool
        Persistence.store_update
    update signer update_requested = do
      self ← this O W
      if is_waiting_for_response self then throw waiting_for_response else (do
        commit ← commit_update signer
        secrets ← merge_session
        bytes ← lift (connection_update_bytes update_requested commit)
        set_state (
            waiting_for_epoch_key_update
              (record { mls_message = commit; traffic_secrets = secrets }))
        save
        pure (secrets.client_secret, bytes))

    -- `ConnectionUpdate`: ignored unless the client is `Running`.
    unfoldable pub receive_connection_update :
        Signer → ConnectionUpdate MessageIn → Method O W Client Response
    unfolding process_update is_waiting_for_response Persistence.store_update
    receive_connection_update signer message = do
      self ← this O W
      if is_waiting_for_response self then pure (none, none) else (do
        (secret, bytes) ← process_update signer message
        save
        pure (some (client secret), some bytes))

    -- The `match` of `receive_signaling_message` and the `store_update` after it; `todo!()` panics.
    unfoldable pub dispatch : Signer → SignalingMessage MessageIn → Method O W Client Response
    unfolding receive_connection_update receive_confirmation receive_epoch_key_update
        Persistence.store_update
    dispatch signer (connection_update message) = receive_connection_update signer message
    dispatch signer (connection_confirmation message) = do
      taken ← take_state
      response ← receive_confirmation message taken
      save
      pure response
    dispatch signer (epoch_key_update message) = do
      taken ← take_state
      response ← receive_epoch_key_update message taken
      save
      pure response
    dispatch signer (key_update message) = lift panic

    unfoldable pub receive_signaling_message : Signer → Octets → Method O W Client Response
    unfolding dispatch
    receive_signaling_message signer bytes = do
      message ← lift (coded O W (W.deserialize_signaling bytes))
      dispatch signer message
