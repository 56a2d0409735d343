-- ===== src/MlsHandshake/OpenMls.antt =====
-- What the handshake uses of `openmls`, `openmls_basic_credential` and `openmls_sqlite_storage`: types
-- and operations that are parameters of the model. An operation on a group gets the group and the
-- storage behind the provider, and leaves both on every outcome.
use mls_tls_protocol.Base.{ℕ, Bool, Option, Result, List}
use mls_tls_protocol.Base.Bytes.{Octets}

pub record OpenMls : Type 1 where
  pub Storage : Type 0
  pub Group : Type 0
  pub GroupId : Type 0
  pub Credential : Type 0
  pub PublicKey : Type 0
  -- `SignatureKeyPair`
  pub Signer : Type 0
  pub MessageOut : Type 0
  pub MessageIn : Type 0
  pub PrivateMessage : Type 0
  pub Welcome : Type 0
  pub KeyPackageIn : Type 0
  pub KeyPackage : Type 0
  pub Processed : Type 0
  pub StagedCommit : Type 0
  pub StagedWelcome : Type 0
  -- Any error of these operations; the code only boxes them.
  pub Error : Type 0
  -- `MlsMessageIn::extract`, by the kind of body that is looked for
  pub private_message : MessageIn → Option PrivateMessage
  pub welcome : MessageIn → Option Welcome
  pub key_package : MessageIn → Option KeyPackageIn
  -- `MlsGroup`
  pub load : Storage → GroupId → Result Error (Option Group)
  pub group_id : Group → GroupId
  pub epoch : Group → ℕ
  pub hash_length : Group → ℕ
  pub has_pending_commit : Group → Bool
  pub export_secret : Storage → Group → Octets → Octets → ℕ → Result Error Octets
  pub self_update : Signer → Group × Storage → Result Error MessageOut × (Group × Storage)
  pub merge_pending_commit : Group × Storage → Result Error (Unit {0}) × (Group × Storage)
  pub clear_pending_commit : Group × Storage → Result Error (Unit {0}) × (Group × Storage)
  pub process_message :
      PrivateMessage → Group × Storage → Result Error Processed × (Group × Storage)
  pub merge_staged_commit :
      StagedCommit → Group × Storage → Result Error (Unit {0}) × (Group × Storage)
  pub delete : Group × Storage → Result Error (Unit {0}) × (Group × Storage)
  -- `ProtocolMessage`
  pub message_group_id : PrivateMessage → GroupId
  pub message_epoch : PrivateMessage → ℕ
  -- `ProcessedMessage` and `StagedCommit`
  pub sender_is_member : Processed → Bool
  pub sender_credential : Processed → Credential
  pub staged_commit : Processed → Option StagedCommit
  pub path_credential : StagedCommit → Option Credential
  pub count_proposals : StagedCommit → ℕ
  -- Equality of credentials, and the identity of a basic one
  pub same_credential : Credential → Credential → Bool
  pub basic_identity : Credential → Option Octets
  -- Making a group with a group id, a signer and an identity, and a new member of it
  pub build_group : GroupId → Signer → Octets → Storage → Result Error Group × Storage
  pub validate : KeyPackageIn → Result Error KeyPackage
  pub leaf_credential : KeyPackage → Credential
  pub add_members :
      Signer → KeyPackage → Group × Storage → Result Error MessageOut × (Group × Storage)
  -- Making a key package for an identity, and joining by a welcome
  pub build_key_package : Signer → Octets → Storage → Result Error MessageOut × Storage
  pub stage_welcome : Welcome → Storage → Result Error StagedWelcome × Storage
  pub welcome_sender : StagedWelcome → Result Error PublicKey
  pub into_group : StagedWelcome → Storage → Result Error Group × Storage
  pub same_key : PublicKey → PublicKey → Bool

-- A row of the table `handshake_states`: the profile id, the version and the state as JSON.
pub record Row : Type 0 where
  pub profile_id : Octets
  pub version : ℕ
  pub handshake_state : Octets

-- The database: the tables of openmls, and the table of this library.
pub record Connection (O : OpenMls) : Type 0 where
  pub storage : O.Storage
  pub rows : Option (List Row)
