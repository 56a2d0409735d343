-- ===== src/MlsHandshake/Session.antt =====
-- src/mls_handshake/state_machine/mls_group.rs: `MlsSession`, a group of the storage with the epoch
-- that the handshake last saw. A method's state is the storage behind the connection.
pub mod Validation
use Prim.Native.String.{String}
use mls_tls_protocol.Base.{
  not, ℕ, ◌+◌, List, [], ◌∷◌, ◌++◌, Bool, true, false, Option, none, some, Result, ok, err, panic,
  M, pure, throw, lift, get, put, continue, ◌>>=◌, ◌>>◌, and_then, map_err, ltb, ◌&&◌, ◌==◌,
  if◌then◌else◌,
}
use mls_tls_protocol.Base.Bytes.{Octets, ascii, as_u64}
use mls_tls_protocol.TlsAead.Secrets.{TrafficSecrets}
use mls_tls_protocol.MlsHandshake.OpenMls.{OpenMls}
use mls_tls_protocol.MlsHandshake.Messages.{
  EpochKeyUpdate, Wire, ErrorOf, unexpected_message, verification_error, wrong_credential_type,
  shared_secret_error, provider_error, client_hello_error, invalid_session_id, resumption_error,
  connection_update_error, storage_error, validation_error,
}

pub record MlsSession (O : OpenMls) : Type 0 where
  pub group_id : O.GroupId
  pub epoch : ℕ  -- u64

-- `ClientIdentity` of src/handshake.rs
pub record ClientIdentity : Type 0 where
  pub octets : Octets

-- `export_label`
abbrev pub export_label : Octets → Octets
export_label label = ascii "MLS-TLS 1.0" ++ label

module _ (O : OpenMls) (W : Wire O) where
  open O use {Storage, Group, GroupId}

  abbrev pub Error : Type 0
  Error = ErrorOf O W

  abbrev pub OnStorage : Type 0 → Type 0
  OnStorage A = M Storage Error A

  unfoldable pub export_traffic_secrets : Group → OnStorage TrafficSecrets
  export_traffic_secrets group s = (
    and_then
        (map_err shared_secret_error (
          O.export_secret s group (export_label (ascii "Initial Client Traffic Secret")) []
            (O.hash_length group)))
        λ client_secret.
          and_then
            (map_err shared_secret_error (
              O.export_secret s group (export_label (ascii "Initial Server Traffic Secret")) []
                (O.hash_length group)))
            λ server_secret. ok (record {
              client_secret = record { octets = client_secret };
              server_secret = record { octets = server_secret };
            }),
    s,
  )

  abbrev or_invalid : Option Group → Result Error Group
  or_invalid none = err invalid_session_id
  or_invalid (some group) = ok group

  -- `MlsGroup::load(…)?.ok_or(InvalidSessionId)?`
  unfoldable pub load_group : GroupId → OnStorage Group
  load_group id s = (and_then (map_err provider_error (O.load s id)) or_invalid, s)

  -- An operation on a group, with its error mapped: the result and the group behind it.
  abbrev pub on_group :
      {A : Type 0}
      → (O.Error → Error)
      → (Group × Storage → Result O.Error A × (Group × Storage))
      → Group
      → OnStorage (A × Group)
  on_group f op group s =
      let r = op (group, s) in (and_then (map_err f r.0) λ a. ok (a, r.1.0), r.1.1)

  -- A step on the storage alone, with its error mapped.
  abbrev pub on_storage :
      {A : Type 0} → (O.Error → Error) → (Storage → Result O.Error A × Storage) → OnStorage A
  on_storage f op s = let r = op s in (map_err f r.0, r.1)

  abbrev pub session_of : Group → MlsSession O
  session_of group = record { group_id = O.group_id group; epoch = O.epoch group }

  -- `basic.identity()`, or the error of `BasicCredential::try_from`
  abbrev pub identity_of : O.Credential → Result Error ClientIdentity
  identity_of credential = elim (O.basic_identity credential) [
    | none ↦ err (verification_error wrong_credential_type)
    | some identity ↦ ok (record { octets = identity })
  ]

  -- `create_server_session`; `group_id` is the fresh `Uuid::new_v4`.
  unfoldable pub create_server_session :
      GroupId
      → O.Signer
      → O.KeyPackageIn
      → OnStorage (MlsSession O × TrafficSecrets × ClientIdentity × O.MessageOut)
  unfolding export_traffic_secrets
  create_server_session group_id signer key_package_in = do
    key_package ← lift (map_err client_hello_error (O.validate key_package_in))
    identity ← lift (identity_of (O.leaf_credential key_package))
    group ← on_storage client_hello_error (O.build_group group_id signer (ascii "server"))
    added ← on_group client_hello_error (O.add_members signer key_package) group
    merged ← on_group client_hello_error O.merge_pending_commit added.1
    secrets ← export_traffic_secrets merged.1
    pure (session_of merged.1, secrets, identity, added.0)

  -- `update`: a commit that stays pending.
  unfoldable pub update : MlsSession O → O.Signer → OnStorage O.MessageOut
  unfolding load_group
  update session signer = do
    group ← load_group session.group_id
    updated ← on_group resumption_error (O.self_update signer) group
    pure updated.0

  -- The end of `merge_update`: the session has the new epoch even if the export fails after it.
  abbrev export_merged :
      MlsSession O
      → Result Error ((Unit {0}) × Group) × Storage
      → Result Error TrafficSecrets × (MlsSession O × Storage)
  export_merged session (ok m, t) =
      let exported = export_traffic_secrets m.1 t in
      (exported.0, (record session { epoch = O.epoch m.1 }, exported.1))
  export_merged session (err e, t) = (err e, (session, t))
  export_merged session (panic, t) = (panic, (session, t))

  unfoldable pub merge_update :
      MlsSession O → Storage → Result Error TrafficSecrets × (MlsSession O × Storage)
  unfolding load_group export_traffic_secrets
  merge_update session s =
      let loaded = load_group session.group_id s in
      export_merged session
        (continue loaded.0 loaded.1 (on_group connection_update_error O.merge_pending_commit))

  -- The choice that `process_mls_update` makes of a pending commit.
  unfoldable pub settle_pending : O.PrivateMessage → Bool → Group → OnStorage Group
  settle_pending message drop_pending_commit group =
      if O.message_epoch message == as_u64 (O.epoch group + 1) && O.has_pending_commit group
      then (do
        merged ← on_group connection_update_error O.merge_pending_commit group
        pure merged.1)
      else if drop_pending_commit
      then (do
        cleared ← on_group connection_update_error O.clear_pending_commit group
        pure cleared.1)
      else pure group

  abbrev guard : Bool → Error → Result Error (Unit {0})
  guard true e = ok tt
  guard false e = err e

  abbrev or_validation_error {ℓ} : {A : Type ℓ} → Option A → String → Result Error A
  or_validation_error none message = err (validation_error message)
  or_validation_error (some a) message = ok a

  -- The validation of `process_mls_update`: the commit and the identity of its sender.
  unfoldable pub validate_commit : O.Processed → Result Error (O.StagedCommit × ClientIdentity)
  validate_commit processed =
      and_then
        (guard (O.sender_is_member processed)
          (validation_error "Resumption message must be from a member"))
        λ _.
          and_then
            (or_validation_error (O.staged_commit processed)
              "Resumption message must contain a commit")
            λ commit.
              and_then
                (or_validation_error (O.path_credential commit)
                  "Resumption commit must contain a path")
                λ credential. and_then (identity_of credential) λ identity.
                  and_then
                    (guard (O.same_credential (O.sender_credential processed) credential)
                      (validation_error "Resumption commit must contain the same credential"))
                    λ _.
                      and_then
                        (guard (not (ltb 0 (O.count_proposals commit)))
                          (validation_error "Resumption commit must not contain any proposals"))
                        λ _. ok (commit, identity)

  unfoldable pub process_private_message :
      O.PrivateMessage → Bool → OnStorage (TrafficSecrets × MlsSession O × ClientIdentity)
  unfolding load_group settle_pending validate_commit export_traffic_secrets
  process_private_message message drop_pending_commit = do
    loaded ← load_group (O.message_group_id message)
    group ← settle_pending message drop_pending_commit loaded
    processed ← on_group connection_update_error (O.process_message message) group
    valid ← lift (validate_commit processed.0)
    merged ← on_group connection_update_error (O.merge_staged_commit valid.0) processed.1
    secrets ← export_traffic_secrets merged.1
    pure (secrets, session_of merged.1, valid.1)

  unfoldable pub process_mls_update :
      O.MessageIn → Bool → OnStorage (TrafficSecrets × MlsSession O × ClientIdentity)
  unfolding process_private_message
  process_mls_update message drop_pending_commit s = elim (O.private_message message) [
    | none ↦ (err (unexpected_message "PrivateMessage" "Unknown"), s)
    | some private ↦ process_private_message private drop_pending_commit s
  ]

  unfoldable pub process_epoch_key_update : MlsSession O → EpochKeyUpdate → OnStorage (Unit {0})
  unfolding load_group
  process_epoch_key_update session confirmation = do
    group ← load_group session.group_id
    lift (guard (O.epoch group == confirmation.epoch) (validation_error "Epoch mismatch"))

  unfoldable pub create_epoch_key_update : MlsSession O → OnStorage EpochKeyUpdate
  unfolding load_group
  create_epoch_key_update session = do
    group ← load_group session.group_id
    pure (record { epoch = O.epoch group })

  -- `delete`; the storage's own error counts as one of the database.
  unfoldable pub delete : MlsSession O → OnStorage (Unit {0})
  unfolding load_group
  delete session = do
    group ← load_group session.group_id
    deleted ← on_group storage_error O.delete group
    pure deleted.0
