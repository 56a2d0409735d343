-- ===== src/Tests/Start.antt =====
-- The two ends of a connection, from the pre-handshake to its protected channels.
use mls_tls_protocol.Base.{
  ◌≡◌, refl, List, [], ◌∷◌, true, false, none, Result, ok, err, panic, chunks,
}
use mls_tls_protocol.TlsAead.Frame.{TlsPacketIn}
use mls_tls_protocol.TlsAead.Secrets.{TrafficSecrets}
use mls_tls_protocol.TlsAead.Keys.{
  generate_keys, expand_client_secret, expand_server_secret, hdkf_expand_label, key_iv,
}
use mls_tls_protocol.TlsAead.Codec
use mls_tls_protocol.TlsAead.Codec.Rekey.{Linked}
use mls_tls_protocol.UpdatePolicy.{UpdatePolicy}
use mls_tls_protocol.PreHandshake.{HandshakePayload, derive_traffic_secrets}
use mls_tls_protocol.EncryptionProvider.Parameters.{Environment, TransportError, PreHandshake}
use mls_tls_protocol.MlsHandshake.Session.{ClientIdentity}
use mls_tls_protocol.MlsHandshake.Driver
use mls_tls_protocol.MlsHandshake.Client
use mls_tls_protocol.MlsHandshake.Server
use mls_tls_protocol.MlsHandshake.Session
use mls_tls_protocol.MlsHandshake.Persistence
use mls_tls_protocol.MlsHandshake.Messages.{from_payload}
use mls_tls_protocol.TlsAead.StreamSink
use mls_tls_protocol.MlsHandshake.Driver.{MlsHandshake, no_state}
use mls_tls_protocol.EncryptionProvider.Channels
use mls_tls_protocol.EncryptionProvider.Channels.{ProtectedChannels, protected_transport}
use mls_tls_protocol.EncryptionProvider.{ProtectedHandshakeState}
use mls_tls_protocol.EncryptionProvider.Start.{
  Provider, new_with_pre_handshake, protected_client_handshake, protected_server_handshake,
}
use mls_tls_protocol.EncryptionProvider.Start.Agreement.{
  Took, new_with_pre_handshake-Linked, protected_handshakes-Linked,
}
use mls_tls_protocol.Tests.Toy.{toy_crypto, toy_clock}
use mls_tls_protocol.Tests.ToyMls.{toy_mls, toy_wire, running_sql}
use mls_tls_protocol.Tests.Channel.{sender}
use mls_tls_protocol.Tests.Provider.{toy_network, toy_environment, packet}

abbrev environment : Environment
environment = record toy_environment { Q = running_sql }

abbrev payload : HandshakePayload
payload = record { shared_secret = 4 ∷ []; session_id = none }

abbrev toy_pre : PreHandshake toy_network
toy_pre = record {
  Error = Unit {0};
  client_handshake = λ s. (ok payload, s);
  server_handshake = λ s. (ok payload, s);
}

abbrev no_policy : UpdatePolicy toy_clock
no_policy = record { time_based = none; traffic_based = none }

abbrev socket : List TlsPacketIn
socket = packet (1 ∷ []) ∷ []

-- A result that is `ok`.
abbrev value_or : {E A : Type 0} → A → Result E A → A
value_or d (ok a) = a
value_or d (err e) = d
value_or d panic = d

abbrev Begun : Type 0
Begun = Provider environment toy_pre (ProtectedHandshakeState environment)

abbrev no_channels : ProtectedChannels environment
no_channels = record { reader = []; writer = record { inner = []; buffer = [] }; cipher = sender }

abbrev no_start : Begun
no_start = record {
  state = record { channels = no_channels; session_id = none };
  address = [];
  update_policy = no_policy;
}

abbrev client_start : Begun
client_start = value_or no_start (new_with_pre_handshake environment toy_pre false socket no_policy)

abbrev server_start : Begun
server_start = value_or no_start (new_with_pre_handshake environment toy_pre true socket no_policy)

client_starts : new_with_pre_handshake environment toy_pre false socket no_policy ≡ ok client_start
unfolding new_with_pre_handshake derive_traffic_secrets Channels.new Codec.new generate_keys
    expand_client_secret expand_server_secret key_iv hdkf_expand_label
client_starts = refl

server_starts : new_with_pre_handshake environment toy_pre true socket no_policy ≡ ok server_start
unfolding new_with_pre_handshake derive_traffic_secrets Channels.new Codec.new generate_keys
    expand_client_secret expand_server_secret key_iv hdkf_expand_label
server_starts = refl

new_with_pre_handshake-Linked_example :
    Linked toy_crypto client_start.state.channels.cipher server_start.state.channels.cipher
new_with_pre_handshake-Linked_example =
    new_with_pre_handshake-Linked environment toy_pre socket socket no_policy no_policy payload
      payload refl refl refl client_starts server_starts

-- The handshake over those channels, with one packet for each side to read.
abbrev no_handshake : MlsHandshake toy_mls
no_handshake = record {
  leaf_signer = tt;
  connection = record { storage = none; rows = none };
  state = no_state;
}

abbrev client_run :
    Result (Driver.MlsHandshakeError toy_mls toy_wire (TransportError environment)) TrafficSecrets
    × (MlsHandshake toy_mls × ProtectedChannels environment)
client_run =
    Driver.client_handshake toy_mls toy_wire running_sql (protected_transport environment) (5 ∷ [])
      1 (no_handshake, client_start.state.channels)

abbrev server_run :
    Result
      (Driver.MlsHandshakeError toy_mls toy_wire (TransportError environment))
      (TrafficSecrets × ClientIdentity)
    × (MlsHandshake toy_mls × ProtectedChannels environment)
server_run =
    Driver.server_handshake toy_mls toy_wire running_sql (protected_transport environment) tt
      (no_handshake, server_start.state.channels)

abbrev exported : TrafficSecrets
exported = record {
  client_secret = record { octets = 1 ∷ 67 ∷ [] };
  server_secret = record { octets = 1 ∷ 83 ∷ [] };
}

abbrev Ran : Type 0
Ran =
    (client_run.0 ≡ ok exported)
    × (server_run.0 ≡ ok (exported, record { octets = 7 ∷ [] }))
    × Linked toy_crypto client_run.1.1.cipher server_run.1.1.cipher

ran : Ran
unfolding new_with_pre_handshake derive_traffic_secrets Channels.new Codec.new generate_keys
    expand_client_secret expand_server_secret key_iv hdkf_expand_label Driver.client_handshake
    Driver.server_handshake Persistence.create_table Persistence.delete Persistence.load
    Persistence.store Persistence.version_to_sql Client.start Client.receive_server_hello
    Client.join_group Client.check_sender Server.start Server.process_client_hello
    Session.create_server_session Session.export_traffic_secrets from_payload Channels.next
    Channels.send Channels.start_send Channels.writer_ready Channels.flush StreamSink.poll_next
    StreamSink.start_send StreamSink.poll_ready StreamSink.poll_flush StreamSink.try_empty_buffer
    StreamSink.drain_buffer Codec.encrypt Codec.encrypt_chunks Codec.seal Codec.make_iv
    Codec.decrypt chunks
ran = (
  refl,
  refl,
  record {
    up = record { same_key = refl; same_iv = refl; same_seq = refl; same_cipher = refl };
    down = record { same_key = refl; same_iv = refl; same_seq = refl; same_cipher = refl };
    same_hash = refl;
  },
)

-- The channels of both sides, after the secrets of the handshake are taken.
abbrev end_client : ProtectedChannels environment
end_client =
    value_or no_channels
      (protected_client_handshake environment toy_pre client_start.state (5 ∷ []) 1 no_handshake).0

abbrev end_server : ProtectedChannels environment × ClientIdentity
end_server =
    value_or (no_channels, record { octets = [] })
      (protected_server_handshake environment toy_pre server_start.state tt no_handshake).0

abbrev Ends : Type 0
Ends =
    ((protected_client_handshake environment toy_pre client_start.state (5 ∷ []) 1 no_handshake).0
      ≡ ok end_client)
    × ((protected_server_handshake environment toy_pre server_start.state tt no_handshake).0
        ≡ ok end_server)

ends : Ends
unfolding protected_client_handshake protected_server_handshake Channels.update_cipher
    Channels.update_both StreamSink.update_traffic_secrets Codec.update_traffic_secrets
    new_with_pre_handshake derive_traffic_secrets Channels.new Codec.new generate_keys
    expand_client_secret expand_server_secret key_iv hdkf_expand_label Driver.client_handshake
    Driver.server_handshake Persistence.create_table Persistence.delete Persistence.load
    Persistence.store Persistence.version_to_sql Client.start Client.receive_server_hello
    Client.join_group Client.check_sender Server.start Server.process_client_hello
    Session.create_server_session Session.export_traffic_secrets from_payload Channels.next
    Channels.send Channels.start_send Channels.writer_ready Channels.flush StreamSink.poll_next
    StreamSink.start_send StreamSink.poll_ready StreamSink.poll_flush StreamSink.try_empty_buffer
    StreamSink.drain_buffer Codec.encrypt Codec.encrypt_chunks Codec.seal Codec.make_iv
    Codec.decrypt chunks
ends = (refl, refl)

protected_handshakes-Linked_example :
    Took environment toy_pre exported client_run.1.1.cipher server_run.1.1.cipher end_client.cipher
      end_server.0.cipher
    × Linked toy_crypto end_client.cipher end_server.0.cipher
protected_handshakes-Linked_example =
    protected_handshakes-Linked environment toy_pre client_start.state server_start.state (5 ∷ []) 1
      tt no_handshake no_handshake exported (exported, record { octets = 7 ∷ [] }) ran.0 ran.1 ran.2
      refl ends.0 ends.1
