-- ===== src/MlsHandshake/Session/Validation.antt =====
-- The checks of `process_mls_update` in src/mls_handshake/state_machine/mls_group.rs.
use mls_tls_protocol.Base.{◌≡◌, ◌↔◌, true, some, ok, arith, Option-cases, inl, inr}
use mls_tls_protocol.MlsHandshake.OpenMls.{OpenMls}
use mls_tls_protocol.MlsHandshake.Messages.{Wire}
use mls_tls_protocol.MlsHandshake.Session.{ClientIdentity, validate_commit}

module _ (O : OpenMls) (W : Wire O) where
  -- A commit that may be merged: a member sent it, with a path whose leaf keeps the sender's basic
  -- credential, and without proposals.
  pub record Valid (p : O.Processed) (commit : O.StagedCommit) (identity : ClientIdentity)
      : Type 0 where
    pub from_member : O.sender_is_member p ≡ true
    pub is_commit : O.staged_commit p ≡ some commit
    pub credential : O.Credential
    pub has_path : O.path_credential commit ≡ some credential
    pub is_basic : O.basic_identity credential ≡ some identity.octets
    pub same : O.same_credential (O.sender_credential p) credential ≡ true
    pub no_proposals : O.count_proposals commit ≡ 0

  validate_commit_sound :
      (p : O.Processed) (commit : O.StagedCommit) (identity : ClientIdentity)
      → validate_commit O W p ≡ ok (commit, identity)
      → Valid p commit identity
  unfolding validate_commit
  validate_commit_sound p commit identity done = elim (Option-cases (O.staged_commit p)) [
    | inl e ↦ absurd (ground arith)
    | inr (k, e) ↦ elim (Option-cases (O.path_credential k)) [
      | inl no_path ↦ absurd (ground arith)
      | inr (credential, path) ↦ record {
        from_member = ground arith;
        is_commit = ground arith;
        credential = credential;
        has_path = ground arith;
        is_basic = ground arith;
        same = ground arith;
        no_proposals = ground arith;
      }
    ]
  ]

  validate_commit_complete :
      (p : O.Processed) (commit : O.StagedCommit) (identity : ClientIdentity)
      → Valid p commit identity
      → validate_commit O W p ≡ ok (commit, identity)
  unfolding validate_commit
  validate_commit_complete p commit identity v =
      let record {
        from_member = m;
        is_commit = k;
        credential = _;
        has_path = h;
        is_basic = b;
        same = s;
        no_proposals = n;
      } =
        v in
      ground arith

  -- `process_mls_update` takes a processed message for a commit to merge, with an identity, exactly when
  -- it is valid: a member sent it, its path keeps the sender's credential, which is a basic one with that
  -- identity, and it has no proposals.
  pub validate_commit-Valid :
      (p : O.Processed) (commit : O.StagedCommit) (identity : ClientIdentity)
      → (validate_commit O W p ≡ ok (commit, identity)) ↔ Valid p commit identity
  validate_commit-Valid p commit identity =
      (validate_commit_sound p commit identity, validate_commit_complete p commit identity)
