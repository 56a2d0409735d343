-- ===== src/MlsHandshake/Group.antt =====
-- What openmls and the codecs of the messages promise to src/mls_handshake/state_machine: RFC 9420 on the
-- states of a group, seen through the storage, and messages that are read as they were written.
pub mod Operations
pub mod Pending
pub mod Process
use mls_tls_protocol.Base.{ℕ, ◌≡◌, true, Option, none, some, Result, ok}
use mls_tls_protocol.Base.Bytes.{Octets}
use mls_tls_protocol.MlsHandshake.OpenMls.{OpenMls}
use mls_tls_protocol.MlsHandshake.Messages.{
  Wire, EpochKeyUpdate, Boolean, connection_update, epoch_key_update, from_payload, resumption,
}

-- Members in one epoch have the same key schedule, and a commit leads from one epoch to the next. A member
-- holds its epoch, and the epoch of a commit of its own that it has not merged.
pub record IsMls (O : OpenMls) : Type 1 where
  pub Epoch : Type 0
  pub number : Epoch → ℕ
  pub exporter : Epoch → Octets → Octets → ℕ → Octets
  pub secret_length : ℕ
  pub state : O.Group → Epoch × Option Epoch
  -- The group of an id in the storage.
  pub stored : O.Storage → O.GroupId → Option (Epoch × Option Epoch)
  -- The group and the epochs of a message with a commit.
  pub commit_of : O.PrivateMessage → O.GroupId × (Epoch × Epoch)
  -- The epoch that a staged commit leads to.
  pub target : O.StagedCommit → Epoch
  pub load_ok :
      (s : O.Storage) (id : O.GroupId) (g : O.Group)
      → O.load s id ≡ ok (some g)
      → (O.group_id g ≡ id) × (stored s id ≡ some (state g))
  pub has_pending_ok :
      (g : O.Group) (x y : Epoch) → state g ≡ (x, some y) → O.has_pending_commit g ≡ true
  pub epoch_ok : (g : O.Group) → O.epoch g ≡ number (state g).0
  pub length_ok : (g : O.Group) → O.hash_length g ≡ secret_length
  pub export_ok :
      (s : O.Storage) (g : O.Group) (label context : Octets) (n : ℕ) (secret : Octets)
      → O.export_secret s g label context n ≡ ok secret
      → secret ≡ exporter (state g).0 label context n
  pub message_group_id_ok : (p : O.PrivateMessage) → O.message_group_id p ≡ (commit_of p).0
  pub message_epoch_ok : (p : O.PrivateMessage) → O.message_epoch p ≡ number (commit_of p).1.0
  -- The message that a member sends for its commit.
  pub sent : O.MessageOut → O.PrivateMessage
  pub self_update_ok :
      (k : O.Signer) (g g' : O.Group) (s s' : O.Storage) (m : O.MessageOut) (x : Epoch)
      → state g ≡ (x, none)
      → O.self_update k (g, s) ≡ (ok m, (g', s'))
      → (y : Epoch) × (commit_of (sent m) ≡ (O.group_id g, (x, y)))
        × (O.group_id g' ≡ O.group_id g)
        × (state g' ≡ (x, some y))
        × (stored s' (O.group_id g) ≡ some (x, some y))
  pub merge_pending_commit_ok :
      (g g' : O.Group) (s s' : O.Storage) (x y : Epoch)
      → state g ≡ (x, some y)
      → O.merge_pending_commit (g, s) ≡ (ok tt, (g', s'))
      → (O.group_id g' ≡ O.group_id g)
        × (state g' ≡ (y, none))
        × (stored s' (O.group_id g) ≡ some (y, none))
  pub clear_pending_commit_ok :
      (g g' : O.Group) (s s' : O.Storage) (x : Epoch) (p : Option Epoch)
      → state g ≡ (x, p)
      → O.clear_pending_commit (g, s) ≡ (ok tt, (g', s'))
      → (O.group_id g' ≡ O.group_id g)
        × (state g' ≡ (x, none))
        × (stored s' (O.group_id g) ≡ some (x, none))
  -- A commit is accepted only in the epoch that it was made in; staged, it leads to its own epoch.
  pub process_message_ok :
      (m : O.PrivateMessage) (g g' : O.Group) (s s' : O.Storage) (r : O.Processed) (x : Epoch)
      → state g ≡ (x, none)
      → O.process_message m (g, s) ≡ (ok r, (g', s'))
      → ((commit_of m).1.0 ≡ x)
        × (O.group_id g' ≡ O.group_id g)
        × (state g' ≡ (x, none))
        × ((c : O.StagedCommit) → O.staged_commit r ≡ some c → target c ≡ (commit_of m).1.1)
  pub merge_staged_commit_ok :
      (c : O.StagedCommit) (g g' : O.Group) (s s' : O.Storage) (x : Epoch)
      → state g ≡ (x, none)
      → O.merge_staged_commit c (g, s) ≡ (ok tt, (g', s'))
      → (O.group_id g' ≡ O.group_id g)
        × (state g' ≡ (target c, none))
        × (stored s' (O.group_id g) ≡ some (target c, none))

-- A message that `self_update` made.
pub record SelfUpdate (O : OpenMls) (m : O.MessageOut) : Type 0 where
  pub signer : O.Signer
  pub before : O.Group × O.Storage
  pub after : O.Group × O.Storage
  pub is_made : O.self_update signer before ≡ (ok m, after)

-- A message with a commit of the group from one epoch to the next
pub record Commits {O : OpenMls} (R : IsMls O) (m : O.MessageOut) (id : O.GroupId) (x y : R.Epoch)
    : Type 0 where
  pub is_self_update : SelfUpdate O m
  pub has_commit : R.commit_of (R.sent m) ≡ (id, (x, y))

-- What is written for a signaling message is read as that message; the commit that
-- `self_update` made comes in as the private message that was sent.
pub record ReadsBack {O : OpenMls} (W : Wire O) (R : IsMls O) : Type 0 where
  pub connection_update_read :
      (requested : Boolean) (m : O.MessageOut) (bytes : Octets)
      → SelfUpdate O m
      → W.serialize_signaling
          (connection_update (record { update_requested = requested; mls_commit = m }))
        ≡ ok bytes
      → (n : O.MessageIn) × (W.deserialize_signaling bytes
          ≡ ok (connection_update (record { update_requested = requested; mls_commit = n })))
        × (O.private_message n ≡ some (R.sent m))
  pub epoch_key_update_read :
      (message : EpochKeyUpdate) (bytes : Octets)
      → W.serialize_signaling (epoch_key_update message) ≡ ok bytes
      → W.deserialize_signaling bytes ≡ ok (epoch_key_update message)
  pub resumption_read :
      (m : O.MessageOut) (bytes : Octets)
      → SelfUpdate O m
      → W.serialize_handshake (from_payload (resumption (record { commit = m }))) ≡ ok bytes
      → (n : O.MessageIn) × (W.deserialize_handshake bytes
          ≡ ok (from_payload (resumption (record { commit = n }))))
        × (O.private_message n ≡ some (R.sent m))
