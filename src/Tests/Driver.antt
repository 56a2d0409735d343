-- ===== src/Tests/Driver.antt =====
-- A handshake of the client at a concrete input.
use mls_tls_protocol.Base.{◌≡◌, refl, List, [], ◌∷◌, ◌++◌, false, Option, none, some, Result, ok}
use mls_tls_protocol.Base.Bytes.{Octets}
use mls_tls_protocol.TlsAead.Frame.{TlsPacketIn}
use mls_tls_protocol.TlsAead.Secrets.{TrafficSecrets}
use mls_tls_protocol.MlsHandshake.Messages.{from_payload}
use mls_tls_protocol.MlsHandshake.Session
use mls_tls_protocol.MlsHandshake.Client
use mls_tls_protocol.MlsHandshake.Client.State.{ClientHandshakeState, running}
use mls_tls_protocol.MlsHandshake.Persistence
use mls_tls_protocol.MlsHandshake.Driver.{
  Transport, MlsHandshake, no_state, client_state, client_handshake,
}
use mls_tls_protocol.MlsHandshake.Driver.Stored.{client_handshake-stored}
use mls_tls_protocol.Tests.ToyMls.{toy_mls, toy_wire, running_sql}
use mls_tls_protocol.Tests.Rows.{reads_back}

-- Packets that come, and bytes that were sent.
abbrev take_packet :
    List TlsPacketIn × List Octets
    → Option (Result (Unit {0}) TlsPacketIn) × (List TlsPacketIn × List Octets)
take_packet ([], sent) = (none, ([], sent))
take_packet (p ∷ ps, sent) = (some (ok p), (ps, sent))

abbrev toy_transport : Transport
toy_transport = record {
  State = List TlsPacketIn × List Octets;
  Error = Unit {0};
  next = take_packet;
  send = λ bytes t. (ok tt, (t.0, t.1 ++ (bytes ∷ [])));
}

abbrev hello_packet : TlsPacketIn
hello_packet = record { header = []; body = 7 ∷ [] }

abbrev before : MlsHandshake toy_mls
before = record {
  leaf_signer = tt;
  connection = record { storage = none; rows = none };
  state = no_state;
}

abbrev joined : ClientHandshakeState toy_mls
joined = record {
  profile_id = 5 ∷ [];
  mls_session = record { group_id = tt; epoch = 7 };
  internal_state = running;
}

abbrev after : MlsHandshake toy_mls
after = record {
  leaf_signer = tt;
  connection = record {
    storage = some (7, false);
    rows = some (record { profile_id = 5 ∷ []; version = 0; handshake_state = 7 ∷ 5 ∷ [] } ∷ []);
  };
  state = client_state joined;
}

abbrev exported : TrafficSecrets
exported = record {
  client_secret = record { octets = 7 ∷ 67 ∷ [] };
  server_secret = record { octets = 7 ∷ 83 ∷ [] };
}

handshake_run :
    client_handshake toy_mls toy_wire running_sql toy_transport
      (5 ∷ [])
      7
      (before, (hello_packet ∷ [], []))
    ≡ (ok exported, (after, ([], (9 ∷ []) ∷ [])))
unfolding client_handshake Persistence.create_table Persistence.delete Persistence.load
    Persistence.store Persistence.version_to_sql Client.start Client.receive_server_hello
    Client.join_group Client.check_sender Session.export_traffic_secrets from_payload
handshake_run = refl

client_handshake-stored_example :
    (s : ClientHandshakeState toy_mls) × (after.state ≡ client_state s)
    × (s.internal_state ≡ running)
    × (s.profile_id ≡ 5 ∷ [])
    × (Persistence.load toy_mls toy_wire running_sql (5 ∷ []) after.connection
        ≡ (ok (some s), after.connection))
client_handshake-stored_example =
    client_handshake-stored toy_mls toy_wire running_sql toy_transport (5 ∷ []) 7 before after
      (hello_packet ∷ [], []) ([], (9 ∷ []) ∷ []) exported reads_back handshake_run
