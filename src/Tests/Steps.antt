-- ===== src/Tests/Steps.antt =====
-- The updates of established connections as steps, at concrete inputs.
use mls_tls_protocol.Base.{◌≡◌, refl, [], ◌∷◌, true, false, none, some, ok, chunks, arith}
use mls_tls_protocol.Base.Bytes.{Octets}
use mls_tls_protocol.TlsAead.Secrets.{client, both}
use mls_tls_protocol.TlsAead.Keys.{
  expand_client_secret, expand_server_secret, hdkf_expand_label, key_iv,
}
use mls_tls_protocol.TlsAead.Codec
use mls_tls_protocol.TlsAead.Codec.{TlsAeadCodec}
use mls_tls_protocol.TlsAead.StreamSink
use mls_tls_protocol.TlsAead.Connection.{Connection, item, plain, rekey, Step, Reach, quiet}
use mls_tls_protocol.MlsHandshake.Messages.{to_bool, from_bool}
use mls_tls_protocol.MlsHandshake.Method
use mls_tls_protocol.MlsHandshake.Session
use mls_tls_protocol.MlsHandshake.Client
use mls_tls_protocol.MlsHandshake.Persistence.{store_update}
use mls_tls_protocol.MlsHandshake.Server
use mls_tls_protocol.MlsHandshake.Server.{ServerInternalState}
use mls_tls_protocol.MlsHandshake.Driver
use mls_tls_protocol.MlsHandshake.Driver.{server_state}
use mls_tls_protocol.EncryptionProvider.Parameters.{TransportError}
use mls_tls_protocol.EncryptionProvider.Channels
use mls_tls_protocol.EncryptionProvider.Established
use mls_tls_protocol.EncryptionProvider.Established.{process_signaling}
use mls_tls_protocol.EncryptionProvider.Established.Steps.{
  update_connection-Step, process_signaling-Step, process_signaling-Step_confirmed,
  process_signaling-Reach,
}
use mls_tls_protocol.Tests.Toy.{toy_crypto, toy_aead}
use mls_tls_protocol.Tests.ToyMls.{toy_mls, toy_wire, empty_sql}
use mls_tls_protocol.Tests.Channel.{hello, receiver}
use mls_tls_protocol.Tests.Connection.{sealed_hello}
use mls_tls_protocol.Tests.Updates.{database, secrets_at, server_in}
use mls_tls_protocol.Tests.Provider.{Toy, toy_environment}
use mls_tls_protocol.Tests.Sending.{
  due_client, updated_client, update_answered, updated, waiting_toy, confirmed_toy,
  confirmation_answered, processed,
}

abbrev large : TlsAeadCodec toy_crypto → TlsAeadCodec toy_crypto
large c = record c { max_frame_size = 100 }

abbrev before : Connection toy_crypto
before = quiet toy_crypto toy_aead due_client.state.channels.cipher (large receiver)

update_connection-Step_example :
    (e : Octets) × Step toy_crypto toy_aead before (record before {
      client_codec = updated_client.state.channels.cipher;
      up = item toy_crypto toy_aead e (1 ∷ 0 ∷ 4 ∷ []) (rekey (secrets_at 5)) ∷ [];
      pending = some (secrets_at 5);
    })
update_connection-Step_example =
    update_connection-Step toy_environment toy_aead (Unit {0}) 0 due_client updated_client before
      (secrets_at 5) (0 ∷ 4 ∷ []) (1 ∷ 0 ∷ 4 ∷ []) refl refl update_answered refl
      (omega arith, omega arith) updated

-- The server gets that update.
abbrev server_toy : Toy
server_toy = record due_client {
  state = record {
    handshake = record {
      leaf_signer = tt;
      connection = database 4;
      state = server_state (server_in ServerInternalState.running);
    };
    channels = record due_client.state.channels {
      cipher = record (large receiver) { recv_seq = 1 };
    };
  };
}

abbrev answered_toy : Toy
answered_toy = (process_signaling toy_environment (Unit {0}) true (0 ∷ 4 ∷ []) server_toy).1

server_answers :
    (Driver.process_signaling_message toy_mls toy_wire empty_sql
      (TransportError toy_environment)
      (0 ∷ 4 ∷ [])
      server_toy.state.handshake).0
    ≡ ok (some (both (secrets_at 5)), some (3 ∷ 5 ∷ []))
unfolding to_bool from_bool Driver.process_signaling_message Server.receive_signaling_message
    Server.dispatch Server.process_update Session.process_mls_update Session.process_private_message
    Session.load_group Session.settle_pending Session.validate_commit Session.export_traffic_secrets
    Method.epoch_key_update_bytes Session.create_epoch_key_update
server_answers = refl

server_processed :
    process_signaling toy_environment (Unit {0}) true (0 ∷ 4 ∷ []) server_toy
    ≡ (ok tt, answered_toy)
unfolding to_bool from_bool Driver.process_signaling_message Server.receive_signaling_message
    Server.dispatch Server.process_update Session.process_mls_update Session.process_private_message
    Session.load_group Session.settle_pending Session.validate_commit Session.export_traffic_secrets
    Method.epoch_key_update_bytes Session.create_epoch_key_update process_signaling Established.send
    Established.start_send Established.poll_ready Established.poll_flush Established.update_cipher
    Channels.update_both Channels.start_send StreamSink.update_traffic_secrets StreamSink.start_send
    StreamSink.poll_ready StreamSink.poll_flush StreamSink.try_empty_buffer StreamSink.drain_buffer
    Codec.update_traffic_secrets Codec.encrypt Codec.encrypt_chunks Codec.seal Codec.make_iv
    expand_client_secret expand_server_secret key_iv hdkf_expand_label chunks
server_processed = refl

abbrev asked : Connection toy_crypto
asked = record before {
  up = item toy_crypto toy_aead sealed_hello hello (rekey (secrets_at 5)) ∷ [];
  pending = some (secrets_at 5);
}

process_signaling-Step_example :
    (e : Octets) × Step toy_crypto toy_aead asked (record asked {
      server_codec = answered_toy.state.channels.cipher;
      up = [];
      down = item toy_crypto toy_aead e (1 ∷ 3 ∷ 5 ∷ []) (rekey (secrets_at 5)) ∷ [];
    })
unfolding Codec.decrypt Codec.make_iv
process_signaling-Step_example =
    process_signaling-Step toy_environment toy_aead (Unit {0}) (0 ∷ 4 ∷ []) server_toy answered_toy
      asked (secrets_at 5) sealed_hello hello hello (3 ∷ 5 ∷ []) (1 ∷ 3 ∷ 5 ∷ []) [] refl refl
      server_answers refl (omega arith, omega arith) server_processed

-- And the client gets the confirmation.
abbrev confirming : Connection toy_crypto
confirming = record before {
  client_codec = record waiting_toy.state.channels.cipher { recv_seq = 0 };
  down = item toy_crypto toy_aead sealed_hello hello (rekey (secrets_at 5)) ∷ [];
  pending = some (secrets_at 5);
}

process_signaling-Step_confirmed_example : Step toy_crypto toy_aead confirming (record confirming {
  client_codec = confirmed_toy.state.channels.cipher;
  down = [];
  pending = none;
})
unfolding Codec.decrypt Codec.make_iv
process_signaling-Step_confirmed_example =
    process_signaling-Step_confirmed toy_environment toy_aead (Unit {0}) (3 ∷ 5 ∷ []) waiting_toy
      confirmed_toy confirming (secrets_at 5) (secrets_at 5) sealed_hello hello hello [] refl refl
      refl confirmation_answered processed

-- An update of the server, which a client that runs answers.
abbrev running_toy : Toy
running_toy = record due_client {
  state = record due_client.state {
    channels = record due_client.state.channels {
      cipher = record due_client.state.channels.cipher { recv_seq = 1 };
    };
  };
}

abbrev following_toy : Toy
following_toy = (process_signaling toy_environment (Unit {0}) false (0 ∷ 4 ∷ []) running_toy).1

client_follows :
    (Driver.process_signaling_message toy_mls toy_wire empty_sql
      (TransportError toy_environment)
      (0 ∷ 4 ∷ [])
      running_toy.state.handshake).0
    ≡ ok (some (client (secrets_at 5).client_secret), some (3 ∷ 5 ∷ []))
unfolding to_bool from_bool Driver.process_signaling_message Client.receive_signaling_message
    Client.dispatch Client.receive_connection_update Client.process_update
    Session.process_mls_update Session.process_private_message Session.load_group
    Session.settle_pending Session.validate_commit Session.export_traffic_secrets
    Method.epoch_key_update_bytes Session.create_epoch_key_update store_update
client_follows = refl

followed :
    process_signaling toy_environment (Unit {0}) false (0 ∷ 4 ∷ []) running_toy
    ≡ (ok tt, following_toy)
unfolding to_bool from_bool Driver.process_signaling_message Client.receive_signaling_message
    Client.dispatch Client.receive_connection_update Client.process_update
    Session.process_mls_update Session.process_private_message Session.load_group
    Session.settle_pending Session.validate_commit Session.export_traffic_secrets
    Method.epoch_key_update_bytes Session.create_epoch_key_update store_update process_signaling
    Established.send Established.start_send Established.poll_ready Established.poll_flush
    Established.update_cipher Channels.update_both Channels.start_send
    StreamSink.update_traffic_secrets StreamSink.start_send StreamSink.poll_ready
    StreamSink.poll_flush StreamSink.try_empty_buffer StreamSink.drain_buffer
    Codec.update_traffic_secrets Codec.encrypt Codec.encrypt_chunks Codec.seal Codec.make_iv
    expand_client_secret key_iv hdkf_expand_label chunks
followed = refl

abbrev asking : Connection toy_crypto
asking = record before { down = item toy_crypto toy_aead sealed_hello hello plain ∷ [] }

process_signaling-Reach_example :
    (e : Octets) × Reach toy_crypto toy_aead asking (record asking {
      client_codec = following_toy.state.channels.cipher;
      up = item toy_crypto toy_aead e (1 ∷ 3 ∷ 5 ∷ []) (rekey (secrets_at 5)) ∷ [];
      down = [];
      pending = some (secrets_at 5);
    })
unfolding Codec.decrypt Codec.make_iv
process_signaling-Reach_example =
    process_signaling-Reach toy_environment toy_aead (Unit {0}) (0 ∷ 4 ∷ []) running_toy
      following_toy asking (secrets_at 5) sealed_hello hello hello (3 ∷ 5 ∷ []) (1 ∷ 3 ∷ 5 ∷ []) []
      refl refl refl client_follows refl (omega arith, omega arith) followed
