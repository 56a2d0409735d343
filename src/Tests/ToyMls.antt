-- ===== src/Tests/ToyMls.antt =====
-- An `openmls` whose groups are epochs, with codecs of a few bytes and two kinds of JSON.
use mls_tls_protocol.Base.{
  ℕ, ◌+◌, zero, suc, [], ◌∷◌, Bool, true, false, Option, none, some, Result, ok, err, get_or, ◌==◌,
  if◌then◌else◌,
}
use mls_tls_protocol.Base.Bytes.{Octets}
use mls_tls_protocol.MlsHandshake.OpenMls.{OpenMls}
use mls_tls_protocol.MlsHandshake.Messages
use mls_tls_protocol.MlsHandshake.Messages.{
  Wire, v01, HandshakePayload, client_hello, resumption, SignalingMessage, connection_update,
  connection_confirmation, epoch_key_update, key_update, EpochKeyUpdate, ConnectionUpdate,
  waiting_for_response, persistence_error, to_bool,
}
use mls_tls_protocol.MlsHandshake.Session.{MlsSession}
use mls_tls_protocol.MlsHandshake.Client.State.{
  ClientHandshakeState, ClientInternalState, running, waiting_for_connection_confirmation,
  waiting_for_epoch_key_update, waiting_for_epoch_key_update_return,
}
use mls_tls_protocol.MlsHandshake.Persistence.{Sql}

-- A group is its epoch and whether a commit is pending; a storage is the one group it may hold.
abbrev pub toy_mls : OpenMls
toy_mls = record {
  Storage = Option (ℕ × Bool);
  Group = ℕ × Bool;
  GroupId = Unit {0};
  Credential = ℕ;
  PublicKey = ℕ;
  Signer = Unit {0};
  MessageOut = ℕ;
  MessageIn = ℕ;
  PrivateMessage = ℕ;
  Welcome = ℕ;
  KeyPackageIn = ℕ;
  KeyPackage = ℕ;
  Processed = ℕ;
  StagedCommit = ℕ;
  StagedWelcome = ℕ;
  Error = Unit {0};
  private_message = some;
  welcome = some;
  key_package = some;
  load = λ s id. ok s;
  group_id = λ g. tt;
  epoch = λ g. g.0;
  hash_length = λ g. 2;
  has_pending_commit = λ g. g.1;
  export_secret = λ s g label context n. ok (g.0 ∷ get_or label 19 0 ∷ []);
  self_update = λ signer p. (ok p.0.0, ((p.0.0, true), some (p.0.0, true)));
  merge_pending_commit = λ p. (ok tt, ((p.0.0 + 1, false), some (p.0.0 + 1, false)));
  clear_pending_commit = λ p. (ok tt, ((p.0.0, false), some (p.0.0, false)));
  process_message = λ m p. (if m == p.0.0 then ok m else err tt, p);
  merge_staged_commit = λ m p. (ok tt, ((m + 1, false), some (m + 1, false)));
  delete = λ p. (ok tt, (p.0, none));
  message_group_id = λ m. tt;
  message_epoch = λ m. m;
  sender_is_member = λ p. true;
  sender_credential = λ p. 7;
  staged_commit = some;
  path_credential = λ m. some 7;
  count_proposals = λ m. 0;
  same_credential = λ a b. a == b;
  basic_identity = λ a. some (a ∷ []);
  build_group = λ id signer name s. (ok (0, false), some (0, false));
  validate = ok;
  leaf_credential = λ k. 7;
  add_members = λ signer k p. (ok 0, p);
  build_key_package = λ signer id s. (ok 0, s);
  stage_welcome = λ w s. (ok w, s);
  welcome_sender = ok;
  into_group = λ w s. (ok (w, false), some (w, false));
  same_key = λ a b. a == b;
}

-- The first byte tells what a signaling message is, and the second is its number.
abbrev pub read_signaling : Octets → Result (Unit {0}) (SignalingMessage ℕ)
read_signaling (zero ∷ n ∷ []) =
    ok (connection_update (record { update_requested = Messages.false; mls_commit = n }))
read_signaling ((suc zero) ∷ n ∷ []) =
    ok (connection_update (record { update_requested = Messages.true; mls_commit = n }))
read_signaling ((suc (suc zero)) ∷ n ∷ []) = ok (connection_confirmation (record { epoch = n }))
read_signaling ((suc (suc (suc zero))) ∷ n ∷ []) = ok (epoch_key_update (record { epoch = n }))
read_signaling _ = err tt

abbrev pub write_signaling : SignalingMessage ℕ → Result (Unit {0}) Octets
write_signaling (connection_update m) =
    ok ((if to_bool m.update_requested then 1 else 0) ∷ m.mls_commit ∷ [])
write_signaling (connection_confirmation m) = ok (2 ∷ m.epoch ∷ [])
write_signaling (epoch_key_update m) = ok (3 ∷ m.epoch ∷ [])
write_signaling (key_update m) = err tt

abbrev pub write_handshake : HandshakePayload ℕ → Result (Unit {0}) Octets
write_handshake (client_hello _) = ok (9 ∷ [])
write_handshake (resumption m) = ok (8 ∷ m.commit ∷ [])

abbrev pub read_handshake : Octets → HandshakePayload ℕ
read_handshake (kind ∷ n ∷ []) =
    if kind == 8
    then resumption (record { commit = n })
    else client_hello (record { key_package = 0 })
read_handshake _ = client_hello (record { key_package = 0 })

abbrev pub toy_wire : Wire toy_mls
toy_wire = record {
  CodecError = Unit {0};
  SqlError = Unit {0};
  serialize_handshake = λ m. write_handshake m.payload;
  deserialize_handshake = λ b. ok (record { version = v01; payload = read_handshake b });
  serialize_server_hello = λ m. ok (m.welcome ∷ []);
  deserialize_server_hello = λ b. ok (record { welcome = get_or b 0 0 });
  serialize_signaling = write_signaling;
  deserialize_signaling = read_signaling;
}

abbrev pub session : MlsSession toy_mls
session = record { group_id = tt; epoch = 4 }

abbrev pub Client : Type 0
Client = ClientHandshakeState toy_mls

abbrev pub client_in : ClientInternalState toy_mls → Client
client_in x = record { profile_id = 5 ∷ []; mls_session = session; internal_state = x }

-- A JSON that knows only the running state, and one that forgets all.
abbrev pub write_json : ClientInternalState toy_mls → Client → Result (Unit {0}) Octets
write_json running s = ok (s.mls_session.epoch ∷ s.profile_id)
write_json (waiting_for_connection_confirmation p) s = err tt
write_json (waiting_for_epoch_key_update p) s = err tt
write_json (waiting_for_epoch_key_update_return x) s = err tt

abbrev pub read_json : Octets → Result (Unit {0}) Client
read_json [] = err tt
read_json (epoch ∷ id) = ok (record {
  profile_id = id;
  mls_session = record { group_id = tt; epoch = epoch };
  internal_state = running;
})

abbrev pub running_sql : Sql toy_mls toy_wire
running_sql = record {
  to_json = λ s. write_json s.internal_state s;
  from_json = read_json;
  no_such_table = tt;
  constraint_violation = tt;
  invalid_version = tt;
}

abbrev pub empty_sql : Sql toy_mls toy_wire
empty_sql = record running_sql { to_json = λ s. ok []; from_json = λ b. err tt }
