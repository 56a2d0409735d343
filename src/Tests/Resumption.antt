-- ===== src/Tests/Resumption.antt =====
-- Resumptions at concrete inputs.
use mls_tls_protocol.Base.{ℕ, ◌≡◌, ◌≢◌, refl, [], ◌∷◌, true, false, none, some, ok, arith}
use mls_tls_protocol.MlsHandshake.OpenMls.{Connection}
use mls_tls_protocol.MlsHandshake.Messages.{from_payload, check_version}
use mls_tls_protocol.MlsHandshake.Session
use mls_tls_protocol.MlsHandshake.Client
use mls_tls_protocol.MlsHandshake.Client.State.{running, waiting_for_connection_confirmation}
use mls_tls_protocol.MlsHandshake.Server
use mls_tls_protocol.MlsHandshake.Server.{Started, ServerInternalState}
use mls_tls_protocol.MlsHandshake.Group.Operations.{secrets_of}
use mls_tls_protocol.MlsHandshake.Group.Pending.{merges_own}
use mls_tls_protocol.MlsHandshake.Resumption.{fresh, again}
use mls_tls_protocol.MlsHandshake.Resumption.Agreement.{resume-agrees, resume-rejected}
use mls_tls_protocol.Tests.ToyMls.{toy_mls, toy_wire, empty_sql, Client}
use mls_tls_protocol.Tests.Laws.{toy_laws, toy_reads}
use mls_tls_protocol.Tests.Updates.{database, secrets_at, waiting_client}

-- A client that took the server's update, which the server still waits to have confirmed.
abbrev moved_client : Client
moved_client = record waiting_client { internal_state = running }

abbrev waiting_server : Connection toy_mls
waiting_server = record { storage = some (4, true); rows = some [] }

abbrev resumed_client : Client
resumed_client = record {
  profile_id = 5 ∷ [];
  mls_session = record { group_id = tt; epoch = 6 };
  internal_state =
      waiting_for_connection_confirmation
        (record { mls_message = 5; traffic_secrets = secrets_at 6 });
}

abbrev started_at : ℕ → Started toy_mls
started_at n = record {
  state = record {
    mls_session = record { group_id = tt; epoch = n };
    internal_state = ServerInternalState.running;
  };
  secrets = secrets_at n;
  identity = record { octets = 7 ∷ [] };
  response = 2 ∷ n ∷ [];
}

resumes :
    Client.resume toy_mls toy_wire tt (moved_client, database 5)
    ≡ (ok (secrets_at 6, 8 ∷ 5 ∷ []), (resumed_client, database 6))
unfolding from_payload Client.resume Client.resumption_update Client.fresh_update Session.update
    Session.merge_update Session.load_group Session.export_traffic_secrets
resumes = refl

accepts :
    Server.start toy_mls toy_wire tt tt (8 ∷ 5 ∷ []) waiting_server
    ≡ (ok (started_at 6), database 6)
unfolding Server.start Server.process_resumption Server.create_connection_confirmation check_version
    Session.process_mls_update Session.process_private_message Session.load_group
    Session.settle_pending Session.validate_commit Session.export_traffic_secrets
    Session.create_epoch_key_update
accepts = refl

resume-agrees_example :
    (y : ℕ) × (secrets_at 6 ≡ secrets_of toy_mls toy_wire toy_laws y)
    × (secrets_at 6 ≡ secrets_of toy_mls toy_wire toy_laws y)
    × (toy_laws.stored (some (6, false)) tt ≡ some (y, none))
    × (toy_laws.stored (some (6, false)) tt ≡ some (y, none))
resume-agrees_example =
    resume-agrees toy_mls toy_wire empty_sql toy_laws toy_reads tt tt tt tt moved_client
      resumed_client (database 5) (database 6) waiting_server (database 6) (secrets_at 6)
      (8 ∷ 5 ∷ []) (started_at 6) 5 4 (some 5) refl (fresh refl) (merges_own refl) refl resumes
      accepts

-- A client whose update the server took, without its confirmation
abbrev unconfirmed_client : Client
unconfirmed_client = record waiting_client {
  internal_state =
      waiting_for_connection_confirmation
        (record { mls_message = 4; traffic_secrets = secrets_at 5 });
}

resumes_again :
    Client.resume toy_mls toy_wire tt (waiting_client, database 5)
    ≡ (ok (secrets_at 5, 8 ∷ 4 ∷ []), (unconfirmed_client, database 5))
unfolding from_payload Client.resume Client.resumption_update
resumes_again = refl

resume-rejected_example :
    Server.start toy_mls toy_wire tt tt (8 ∷ 4 ∷ []) (database 5) ≢ (ok (started_at 6), database 6)
resume-rejected_example =
    resume-rejected toy_mls toy_wire empty_sql toy_laws toy_reads tt tt tt tt waiting_client
      unconfirmed_client (database 5) (database 5) (database 5) (database 6) (secrets_at 5)
      (8 ∷ 4 ∷ []) (started_at 6) 4 5 none refl
      (again (record {
        target = 5;
        commits = record {
          is_self_update = record {
            signer = tt;
            before = ((4, false), none);
            after = ((4, true), some (4, true));
            is_made = refl;
          };
          has_commit = refl;
        };
        has_secrets = refl;
        in_target = refl;
      }))
      refl (omega arith) refl resumes_again
