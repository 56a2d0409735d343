-- ===== src/Tests/Pair.antt =====
-- A client and a server that start an update at the same time.
use mls_tls_protocol.Base.{ℕ, ◌+◌, ◌≤◌, ◌≡◌, refl, [], ◌∷◌, length, true, none, some, ok}
use mls_tls_protocol.TlsAead.Secrets
use mls_tls_protocol.TlsAead.Secrets.{client, server, both}
use mls_tls_protocol.MlsHandshake.Messages.{to_bool, from_bool}
use mls_tls_protocol.MlsHandshake.Method
use mls_tls_protocol.MlsHandshake.Session
use mls_tls_protocol.MlsHandshake.Client
use mls_tls_protocol.MlsHandshake.Client.State.{running}
use mls_tls_protocol.MlsHandshake.Persistence.{store_update}
use mls_tls_protocol.MlsHandshake.Server
use mls_tls_protocol.MlsHandshake.Server.{ServerInternalState, waiting_for_update}
use mls_tls_protocol.MlsHandshake.Driver
use mls_tls_protocol.MlsHandshake.Driver.{MlsHandshake, client_state, server_state}
use mls_tls_protocol.MlsHandshake.Pair.Run.{
  Pair, Reach, start, then, client_starts, server_starts, delivers, client_gets, server_gets,
  Deliveries, none_yet, one_more, Joined, take_update, send,
}
use mls_tls_protocol.MlsHandshake.Pair.Agreement.{
  quiet-Joined, empty_up-client_secret, empty_down-server_secret,
}
use mls_tls_protocol.MlsHandshake.Pair.Settling.{Deliveries-bound}
use mls_tls_protocol.Tests.ToyMls.{toy_mls, toy_wire, empty_sql}
use mls_tls_protocol.Tests.Laws.{toy_laws, toy_reads}
use mls_tls_protocol.Tests.Updates.{database, secrets_at, waiting_client}

abbrev client_at : ℕ → MlsHandshake toy_mls
client_at n = record {
  leaf_signer = tt;
  connection = database n;
  state = client_state (record {
    profile_id = 5 ∷ [];
    mls_session = record { group_id = tt; epoch = n };
    internal_state = running;
  });
}

abbrev waiting : MlsHandshake toy_mls
waiting = record { leaf_signer = tt; connection = database 5; state = client_state waiting_client }

abbrev server_at : ℕ → MlsHandshake toy_mls
server_at n = record {
  leaf_signer = tt;
  connection = database n;
  state = server_state (record {
    mls_session = record { group_id = tt; epoch = n };
    internal_state = ServerInternalState.running;
  });
}

abbrev offering : MlsHandshake toy_mls
offering = record {
  leaf_signer = tt;
  connection = record { storage = some (4, true); rows = some [] };
  state = server_state (record {
    mls_session = record { group_id = tt; epoch = 4 };
    internal_state = waiting_for_update;
  });
}

abbrev both_at : ℕ → Pair toy_mls
both_at n = record {
  client = client_at n;
  server = server_at n;
  client_secrets = secrets_at n;
  server_secrets = secrets_at n;
  up = [];
  down = [];
}

-- The server's update is in flight, and then the client's too.
abbrev offered : Pair toy_mls
offered = record (both_at 4) { server = offering; down = (0 ∷ 4 ∷ []) ∷ [] }

abbrev crossed : Pair toy_mls
crossed = record offered {
  client = waiting;
  client_secrets = record {
    client_secret = (secrets_at 5).client_secret;
    server_secret = (secrets_at 4).server_secret;
  };
  up = (0 ∷ 4 ∷ []) ∷ [];
}

abbrev dropped : Pair toy_mls
dropped = record crossed { down = [] }

abbrev confirmed : Pair toy_mls
confirmed = record dropped {
  server = server_at 5;
  server_secrets = secrets_at 5;
  up = [];
  down = (3 ∷ 5 ∷ []) ∷ [];
}

offers :
    Driver.update_handshake toy_mls toy_wire empty_sql (Unit {0}) (server_at 4)
    ≡ (ok (none, 0 ∷ 4 ∷ []), offering)
unfolding Driver.update_handshake Server.update Server.is_waiting_for_response Session.update
    Session.load_group from_bool to_bool
offers = refl

asks :
    Driver.update_handshake toy_mls toy_wire empty_sql (Unit {0}) (client_at 4)
    ≡ (ok (some (client (secrets_at 5).client_secret), 0 ∷ 4 ∷ []), waiting)
unfolding Driver.update_handshake Client.update Client.is_waiting_for_response Session.update
    Session.merge_update Session.export_traffic_secrets Session.load_group store_update from_bool
    to_bool
asks = refl

drops :
    Driver.process_signaling_message toy_mls toy_wire empty_sql (Unit {0}) (0 ∷ 4 ∷ []) waiting
    ≡ (ok (none, none), waiting)
unfolding Driver.process_signaling_message Client.receive_signaling_message Client.dispatch
    Client.receive_connection_update Client.is_waiting_for_response
drops = refl

answers :
    Driver.process_signaling_message toy_mls toy_wire empty_sql (Unit {0}) (0 ∷ 4 ∷ []) offering
    ≡ (ok (some (both (secrets_at 5)), some (3 ∷ 5 ∷ [])), server_at 5)
unfolding Driver.process_signaling_message Server.receive_signaling_message Server.dispatch
    Server.process_update Session.process_mls_update Session.process_private_message
    Session.settle_pending Session.validate_commit Session.export_traffic_secrets Session.load_group
    Method.epoch_key_update_bytes Session.create_epoch_key_update to_bool
answers = refl

takes :
    Driver.process_signaling_message toy_mls toy_wire empty_sql (Unit {0}) (3 ∷ 5 ∷ []) waiting
    ≡ (ok (some (server (secrets_at 5).server_secret), none), client_at 5)
unfolding Driver.process_signaling_message Client.receive_signaling_message Client.dispatch
    Client.receive_epoch_key_update Method.check_epoch_key_update Session.process_epoch_key_update
    Session.load_group store_update
takes = refl

both_at-Joined : Joined toy_wire toy_laws tt 4 (both_at 4)
both_at-Joined = record {
  client_side = record {
    self = _;
    is_client = refl;
    inside = record { has_group = refl; has_state = refl; in_epoch = refl };
  };
  server_side = record {
    self = _;
    is_server = refl;
    inside = record { has_group = refl; has_state = refl; in_epoch = refl };
  };
  client_keys = refl;
  server_keys = refl;
  nothing_up = refl;
  nothing_down = refl;
}

-- Both updates are on their way.
crossing : Reach toy_mls toy_wire empty_sql (Unit {0}) (both_at 4) crossed
unfolding take_update send Secrets.update
crossing =
    then (then start (server_starts none (0 ∷ 4 ∷ []) offering offers))
      (client_starts (some (client (secrets_at 5).client_secret)) (0 ∷ 4 ∷ []) waiting asks)

-- Every message is got.
gets : Deliveries toy_mls toy_wire empty_sql (Unit {0}) crossed 3 (both_at 5)
unfolding take_update send Secrets.update
gets =
    one_more
      (one_more (one_more none_yet (client_gets (0 ∷ 4 ∷ []) [] none none waiting refl drops)) (
        server_gets (0 ∷ 4 ∷ []) [] (some (both (secrets_at 5))) (some (3 ∷ 5 ∷ [])) (server_at 5)
          refl answers))
      (client_gets (3 ∷ 5 ∷ []) [] (some (server (secrets_at 5).server_secret)) none (client_at 5)
        refl takes)

ignoring : Reach toy_mls toy_wire empty_sql (Unit {0}) (both_at 4) dropped
unfolding take_update send Secrets.update
ignoring = then crossing (delivers (client_gets (0 ∷ 4 ∷ []) [] none none waiting refl drops))

answering : Reach toy_mls toy_wire empty_sql (Unit {0}) (both_at 4) confirmed
unfolding take_update send Secrets.update
answering = then ignoring (
    delivers (
      server_gets (0 ∷ 4 ∷ []) [] (some (both (secrets_at 5))) (some (3 ∷ 5 ∷ [])) (server_at 5)
        refl answers))

settled : Reach toy_mls toy_wire empty_sql (Unit {0}) (both_at 4) (both_at 5)
unfolding take_update send Secrets.update
settled = then answering (
    delivers (
      client_gets (3 ∷ 5 ∷ []) [] (some (server (secrets_at 5).server_secret)) none (client_at 5)
        refl takes))

quiet-Joined_example : (y : ℕ) × Joined toy_wire toy_laws tt y (both_at 5)
quiet-Joined_example =
    quiet-Joined toy_mls toy_wire empty_sql toy_laws toy_reads (Unit {0}) tt 4 (both_at 4)
      (both_at 5) both_at-Joined settled refl refl

empty_up-client_secret_example :
    confirmed.client_secrets.client_secret ≡ confirmed.server_secrets.client_secret
empty_up-client_secret_example =
    empty_up-client_secret toy_mls toy_wire empty_sql toy_laws toy_reads (Unit {0}) tt 4 (both_at 4)
      confirmed both_at-Joined answering refl

empty_down-server_secret_example :
    dropped.client_secrets.server_secret ≡ dropped.server_secrets.server_secret
empty_down-server_secret_example =
    empty_down-server_secret toy_mls toy_wire empty_sql toy_laws toy_reads (Unit {0}) tt 4
      (both_at 4) dropped both_at-Joined ignoring refl

Deliveries-bound_example : 3 ≤ length crossed.down + length crossed.up + 2
Deliveries-bound_example =
    Deliveries-bound toy_mls toy_wire empty_sql toy_laws toy_reads (Unit {0}) tt 4 3 (both_at 4)
      crossed (both_at 5) both_at-Joined crossing gets
