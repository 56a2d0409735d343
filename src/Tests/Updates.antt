-- ===== src/Tests/Updates.antt =====
-- Updates of the client and the server at concrete inputs.
use mls_tls_protocol.Base.{ℕ, ◌≡◌, ◌↔◌, refl, [], ◌∷◌, true, false, none, some, ok, err}
use mls_tls_protocol.TlsAead.Secrets.{TrafficSecrets, ServerSecret, server}
use mls_tls_protocol.MlsHandshake.OpenMls.{Connection}
use mls_tls_protocol.MlsHandshake.Messages
use mls_tls_protocol.MlsHandshake.Messages.{
  Wire, SignalingMessage, connection_update, connection_confirmation, epoch_key_update, key_update,
  EpochKeyUpdate, ConnectionUpdate, waiting_for_response, persistence_error, to_bool, from_bool,
  from_payload,
}
use mls_tls_protocol.MlsHandshake.Session
use mls_tls_protocol.MlsHandshake.Session.{MlsSession}
use mls_tls_protocol.MlsHandshake.Client.State.{
  running, waiting_for_connection_confirmation, waiting_for_epoch_key_update,
}
use mls_tls_protocol.MlsHandshake.Persistence.{store_update}
use mls_tls_protocol.MlsHandshake.Client
use mls_tls_protocol.MlsHandshake.Client.Waiting.{update-has_priority}
use mls_tls_protocol.MlsHandshake.Client.Confirm.{
  confirmations-end_running, epoch_key_update-secret, Keeps, EpochFits,
}
use mls_tls_protocol.MlsHandshake.Server
use mls_tls_protocol.MlsHandshake.Server.{
  ServerHandshakeState, ServerInternalState, waiting_for_update,
}
use mls_tls_protocol.MlsHandshake.Method
use mls_tls_protocol.MlsHandshake.Session.Validation.{Valid, validate_commit-Valid}
use mls_tls_protocol.Tests.ToyMls.{toy_mls, toy_wire, session, Client, client_in, empty_sql}

abbrev pub database : ℕ → Connection toy_mls
database n = record { storage = some (n, false); rows = some [] }

-- The secrets of epoch `n`.
abbrev pub secrets_at : ℕ → TrafficSecrets
secrets_at n = record {
  client_secret = record { octets = n ∷ 67 ∷ [] };
  server_secret = record { octets = n ∷ 83 ∷ [] };
}

abbrev pub waiting_client : Client
waiting_client = record {
  profile_id = 5 ∷ [];
  mls_session = record { group_id = tt; epoch = 5 };
  internal_state =
      waiting_for_epoch_key_update (record { mls_message = 4; traffic_secrets = secrets_at 5 });
}

client_updated :
    Client.update toy_mls toy_wire empty_sql tt true (client_in running, database 4)
    ≡ (ok ((secrets_at 5).client_secret, 1 ∷ 4 ∷ []), (waiting_client, database 5))
unfolding to_bool from_bool Client.update Session.update Session.merge_update Session.load_group
    Session.export_traffic_secrets store_update
client_updated = refl

update-has_priority_example :
    (Client.update toy_mls toy_wire empty_sql tt false (waiting_client, database 5)
      ≡ (err waiting_for_response, (waiting_client, database 5)))
    × (Client.receive_signaling_message toy_mls toy_wire empty_sql tt
          (0 ∷ 4 ∷ [])
          (waiting_client, database 5)
        ≡ (ok (none, none), (waiting_client, database 5)))
update-has_priority_example =
    update-has_priority toy_mls toy_wire empty_sql tt true false
      (record { update_requested = Messages.false; mls_commit = 4 }) (0 ∷ 4 ∷ [])
      (client_in running) waiting_client (database 4) (database 5)
      ((secrets_at 5).client_secret, 1 ∷ 4 ∷ []) client_updated refl

abbrev resumed : Client
resumed = record waiting_client {
  internal_state =
      waiting_for_connection_confirmation
        (record { mls_message = 4; traffic_secrets = secrets_at 5 });
}

client_resumed :
    Client.resume toy_mls toy_wire tt (client_in running, database 4)
    ≡ (ok (secrets_at 5, 8 ∷ 4 ∷ []), (resumed, database 5))
unfolding from_payload Client.resume Client.resumption_update Client.fresh_update Session.update
    Session.merge_update Session.load_group Session.export_traffic_secrets
client_resumed = refl

confirmations-end_running_example :
    ((Client.dispatch toy_mls toy_wire empty_sql tt
        (epoch_key_update (record { epoch = 6 }))
        (waiting_client, database 5)).1.0
      ≡ record waiting_client { internal_state = running })
    × ((Client.dispatch toy_mls toy_wire empty_sql tt
          (connection_confirmation (record { epoch = 6 }))
          (waiting_client, database 5)).1.0
        ≡ record waiting_client { internal_state = running })
confirmations-end_running_example =
    confirmations-end_running toy_mls toy_wire empty_sql tt (record { epoch = 6 }) waiting_client
      (database 5)

update_confirmed :
    (Client.dispatch toy_mls toy_wire empty_sql tt
      (epoch_key_update (record { epoch = 5 }))
      (waiting_client, database 5)).0
    ≡ ok (some (server (secrets_at 5).server_secret), none)
unfolding Client.dispatch Client.receive_epoch_key_update Method.check_epoch_key_update
    Session.process_epoch_key_update Session.load_group store_update
update_confirmed = refl

epoch_key_update-secret_example :
    (secret : ServerSecret) × Keeps toy_mls toy_wire empty_sql waiting_client.internal_state secret
    × (◌≡◌ {A = Client.Response toy_mls toy_wire}
        (some (server (secrets_at 5).server_secret), none)
        (some (server secret), none))
    × EpochFits toy_mls toy_wire empty_sql
        (some (5, false))
        waiting_client.mls_session
        (record { epoch = 5 })
epoch_key_update-secret_example =
    epoch_key_update-secret toy_mls toy_wire empty_sql tt (record { epoch = 5 }) waiting_client
      (database 5) (some (server (secrets_at 5).server_secret), none) update_confirmed

-- The server.
abbrev pub server_in : ServerInternalState → ServerHandshakeState toy_mls
server_in x = record { mls_session = session; internal_state = x }

abbrev pending_database : Connection toy_mls
pending_database = record { storage = some (4, true); rows = some [] }

server_updated :
    Server.update toy_mls toy_wire tt true (server_in ServerInternalState.running, database 4)
    ≡ (ok (1 ∷ 4 ∷ []), (server_in waiting_for_update, pending_database))
unfolding to_bool from_bool Server.update Session.update Session.load_group
server_updated = refl

abbrev settled : ServerHandshakeState toy_mls
settled = record {
  mls_session = record { group_id = tt; epoch = 5 };
  internal_state = ServerInternalState.running;
}

update_processed :
    Server.process_update toy_mls toy_wire tt
      (record { update_requested = Messages.false; mls_commit = 4 })
      (server_in waiting_for_update, pending_database)
    ≡ (ok (secrets_at 5, 3 ∷ 5 ∷ []), (settled, database 5))
unfolding to_bool from_bool Server.process_update Session.process_mls_update
    Session.process_private_message Session.load_group Session.settle_pending
    Session.validate_commit Session.export_traffic_secrets Method.epoch_key_update_bytes
    Session.create_epoch_key_update
update_processed = refl

confirmation_received :
    Server.dispatch toy_mls toy_wire tt
      (epoch_key_update (record { epoch = 5 }))
      (server_in waiting_for_update, pending_database)
    ≡ (ok (secrets_at 5, some (3 ∷ 5 ∷ [])), (settled, database 5))
unfolding to_bool from_bool Server.dispatch Server.receive_epoch_key_update Session.merge_update
    Session.load_group Session.export_traffic_secrets Method.check_epoch_key_update
    Session.process_epoch_key_update Method.epoch_key_update_bytes Session.create_epoch_key_update
confirmation_received = refl

validate_commit-Valid_example :
    (Session.validate_commit toy_mls toy_wire 4 ≡ ok (4, record { octets = 7 ∷ [] }))
    ↔ Valid toy_mls toy_wire 4 4 (record { octets = 7 ∷ [] })
validate_commit-Valid_example =
    validate_commit-Valid toy_mls toy_wire 4 4 (record { octets = 7 ∷ [] })
