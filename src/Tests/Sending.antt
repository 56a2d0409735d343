-- ===== src/Tests/Sending.antt =====
-- Sending and updating on the established connection of lists.
use mls_tls_protocol.Base.{◌≡◌, inl, refl, [], ◌∷◌, false, none, some, ok, chunks}
use mls_tls_protocol.TlsAead.Secrets.{client, server}
use mls_tls_protocol.TlsAead.StreamSink.{encryption_failed}
use mls_tls_protocol.TlsAead.Codec.{TlsAeadCodec}
use mls_tls_protocol.TlsAead.Codec
use mls_tls_protocol.UpdatePolicy
use mls_tls_protocol.UpdatePolicy.{UpdatePolicy}
use mls_tls_protocol.MlsHandshake.Driver.{client_state}
use mls_tls_protocol.EncryptionProvider.Parameters.{framed_writer, application, TransportError}
use mls_tls_protocol.TlsAead.StreamSink
use mls_tls_protocol.MlsHandshake.Messages.{to_bool, from_bool}
use mls_tls_protocol.MlsHandshake.Persistence.{store_update}
use mls_tls_protocol.MlsHandshake.Client
use mls_tls_protocol.MlsHandshake.Method
use mls_tls_protocol.MlsHandshake.Session
use mls_tls_protocol.MlsHandshake.Driver
use mls_tls_protocol.EncryptionProvider.Channels
use mls_tls_protocol.EncryptionProvider.Channels.{ProtectedChannels, update_both}
use mls_tls_protocol.EncryptionProvider.Established
use mls_tls_protocol.EncryptionProvider.Established.{Provider, read_bytes_inner, process_signaling}
use mls_tls_protocol.EncryptionProvider.SendBytes.{
  update_connection, after_update, send_bytes, send_application,
}
use mls_tls_protocol.TlsAead.Keys.{
  expand_client_secret, expand_server_secret, hdkf_expand_label, key_iv,
}
use mls_tls_protocol.UpdatePolicy.TrafficBased
use mls_tls_protocol.EncryptionProvider.Established.Sending.{
  Counted, send_bytes-send_application, send_bytes-policy,
}
use mls_tls_protocol.TlsAead.StreamSink.Progress.{IsReady}
use mls_tls_protocol.EncryptionProvider.Established.Progress.{send_succeeds}
use mls_tls_protocol.EncryptionProvider.Established.Order.{Answers, process_signaling-order}
use mls_tls_protocol.Tests.Toy.{toy_crypto}
use mls_tls_protocol.Tests.ToyMls.{toy_mls, toy_wire, empty_sql}
use mls_tls_protocol.Tests.Updates.{database, secrets_at, waiting_client}
use mls_tls_protocol.Tests.Provider.{Toy, toy_environment, client_with}

-- Sending, with an update that is due from ten bytes on.
send_bytes-send_application_example :
    send_bytes toy_environment (Unit {0}) false (8 ∷ []) 0 (client_with [] 9)
    ≡ send_application toy_environment (Unit {0}) (8 ∷ []) (client_with [] 9)
unfolding UpdatePolicy.update_is_due TrafficBased.update_is_due
send_bytes-send_application_example =
    send_bytes-send_application toy_environment (Unit {0}) false (8 ∷ []) 0 (client_with [] 9)
      (inl refl)

abbrev pub due_client : Toy
due_client = client_with [] 10

abbrev sent_client : Toy
sent_client = (send_bytes toy_environment (Unit {0}) false (8 ∷ []) 0 due_client).1

sent_after_update :
    (send_bytes toy_environment (Unit {0}) false (8 ∷ []) 0 due_client) ≡ (ok tt, sent_client)
unfolding send_bytes update_connection after_update send_application Established.send
    Established.start_send Established.poll_ready Established.poll_flush Established.update_cipher
    Channels.update_both Channels.start_send StreamSink.update_traffic_secrets StreamSink.start_send
    StreamSink.poll_ready StreamSink.poll_flush StreamSink.try_empty_buffer StreamSink.drain_buffer
    Codec.update_traffic_secrets Codec.encrypt Codec.encrypt_chunks Codec.seal Codec.make_iv
    expand_client_secret key_iv hdkf_expand_label chunks UpdatePolicy.update_is_due
    TrafficBased.update_is_due UpdatePolicy.reset Driver.update_handshake Client.update
    Session.update Session.merge_update Session.load_group Session.export_traffic_secrets
    store_update to_bool from_bool
sent_after_update = refl

send_bytes-policy_example :
    Counted toy_environment (Unit {0}) (8 ∷ []) 0 due_client sent_client.update_policy
send_bytes-policy_example =
    send_bytes-policy toy_environment (Unit {0}) false (8 ∷ []) 0 due_client sent_client
      sent_after_update

-- The update alone.
abbrev pub updated_client : Toy
updated_client = (update_connection toy_environment (Unit {0}) false 0 due_client).1

pub update_answered :
    (Driver.update_handshake toy_mls toy_wire empty_sql
      (TransportError toy_environment)
      due_client.state.handshake).0
    ≡ ok (some (client (secrets_at 5).client_secret), 0 ∷ 4 ∷ [])
unfolding Driver.update_handshake Client.update Session.update Session.merge_update
    Session.load_group Session.export_traffic_secrets store_update to_bool from_bool
update_answered = refl

pub updated :
    update_connection toy_environment (Unit {0}) false 0 due_client ≡ (ok tt, updated_client)
unfolding update_connection after_update Established.send Established.start_send
    Established.poll_ready Established.poll_flush Established.update_cipher Channels.update_both
    Channels.start_send StreamSink.update_traffic_secrets StreamSink.start_send
    StreamSink.poll_ready StreamSink.poll_flush StreamSink.try_empty_buffer StreamSink.drain_buffer
    Codec.update_traffic_secrets Codec.encrypt Codec.encrypt_chunks Codec.seal Codec.make_iv
    expand_client_secret key_iv hdkf_expand_label chunks UpdatePolicy.reset Driver.update_handshake
    Client.update Session.update Session.merge_update Session.load_group
    Session.export_traffic_secrets store_update to_bool from_bool
updated = refl

-- The server's confirmation of that update.
abbrev pub waiting_toy : Toy
waiting_toy = record due_client {
  state = record due_client.state {
    handshake = record {
      leaf_signer = tt;
      connection = database 5;
      state = client_state waiting_client;
    };
    channels = record due_client.state.channels {
      cipher = record due_client.state.channels.cipher { recv_seq = 1 };
    };
  };
}

abbrev pub confirmed_toy : Toy
confirmed_toy = (process_signaling toy_environment (Unit {0}) false (3 ∷ 5 ∷ []) waiting_toy).1

pub confirmation_answered :
    (Driver.process_signaling_message toy_mls toy_wire empty_sql
      (TransportError toy_environment)
      (3 ∷ 5 ∷ [])
      waiting_toy.state.handshake).0
    ≡ ok (some (server (secrets_at 5).server_secret), none)
unfolding Driver.process_signaling_message Client.receive_signaling_message Client.dispatch
    Client.receive_epoch_key_update Method.check_epoch_key_update Session.process_epoch_key_update
    Session.load_group store_update
confirmation_answered = refl

pub processed :
    process_signaling toy_environment (Unit {0}) false (3 ∷ 5 ∷ []) waiting_toy
    ≡ (ok tt, confirmed_toy)
unfolding process_signaling Established.update_cipher Channels.update_both
    StreamSink.update_traffic_secrets Codec.update_traffic_secrets expand_server_secret key_iv
    hdkf_expand_label Driver.process_signaling_message Client.receive_signaling_message
    Client.dispatch Client.receive_epoch_key_update Method.check_epoch_key_update
    Session.process_epoch_key_update Session.load_group store_update
processed = refl

process_signaling-order_example :
    Answers toy_environment
      (Unit {0})
      false
      none
      (some (server (secrets_at 5).server_secret))
      waiting_toy.state.channels.cipher
      confirmed_toy.state.channels.cipher
process_signaling-order_example =
    process_signaling-order toy_environment (Unit {0}) false (3 ∷ 5 ∷ []) waiting_toy confirmed_toy
      (some (server (secrets_at 5).server_secret)) none confirmation_answered processed

works : IsReady (framed_writer toy_environment)
works = record {
  readies = λ i. refl;
  flushes = λ i. refl;
  closes = λ i. refl;
  accepts = λ item i. refl;
}

encrypts : (Codec.encrypt toy_crypto (0 ∷ 8 ∷ []) (due_client.state.channels.cipher, [])).0 ≡ ok tt
unfolding Codec.encrypt Codec.encrypt_chunks Codec.seal Codec.make_iv chunks
encrypts = refl

send_succeeds_example :
    ((Established.send toy_environment (Unit {0}) (application (8 ∷ [])) due_client).0 ≡ ok tt)
    × ((Established.send toy_environment
          (Unit {0})
          (application (8 ∷ []))
          due_client).1.state.channels.writer.buffer
        ≡ [])
send_succeeds_example =
    send_succeeds toy_environment (Unit {0}) (application (8 ∷ [])) due_client (0 ∷ 8 ∷ []) works
      refl encrypts
