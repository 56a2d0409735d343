-- ===== src/MlsHandshake/Group/Process.antt =====
-- A commit of another member, in `process_mls_update` of src/mls_handshake/state_machine/mls_group.rs.
use mls_tls_protocol.Base.{
  subst, sym, ap, ◌∙◌, lift, pure, ◌>>=◌, ok-injective, ◌+◌, ◌==◌, ◌≡◌, Bool, true, false, Option,
  none, some, Result, ok, arith, bind-eq-ok,
}
use mls_tls_protocol.Base.Bytes.{as_u64}
use mls_tls_protocol.TlsAead.Secrets.{TrafficSecrets}
use mls_tls_protocol.MlsHandshake.OpenMls.{OpenMls}
use mls_tls_protocol.MlsHandshake.Messages.{connection_update_error, Wire}
use mls_tls_protocol.MlsHandshake.Session
use mls_tls_protocol.MlsHandshake.Session.{
  MlsSession, ClientIdentity, Error, on_group, load_group, settle_pending, validate_commit,
}
use mls_tls_protocol.MlsHandshake.Session.Validation.{validate_commit-Valid}
use mls_tls_protocol.MlsHandshake.Group.{IsMls}
use mls_tls_protocol.MlsHandshake.Group.Operations.{
  secrets_of, load_group-holds, on_group-eq-ok, export_traffic_secrets-secrets_of,
}
use mls_tls_protocol.MlsHandshake.Group.Pending.{Settles, settle_pending-drops, settle_pending_lem}

module _ (O : OpenMls) (W : Wire O) (R : IsMls O) where
  open R use {Epoch, number, state, stored, commit_of, target}

  -- A member is in an epoch, and its group is stored so.
  abbrev pub Arrived : O.GroupId → Epoch → O.Storage → TrafficSecrets → MlsSession O → Type 0
  Arrived id y s secrets session =
      (secrets ≡ secrets_of O W R y) × (session.group_id ≡ id) × (stored s id ≡ some (y, none))

  -- The end of `process_mls_update`
  abbrev merge_and_export :
      O.StagedCommit
      → ClientIdentity
      → O.Group
      → O.Storage
      → Result (Error O W) (TrafficSecrets × MlsSession O × ClientIdentity) × O.Storage
  merge_and_export c i g = do
    merged ← on_group O W connection_update_error (O.merge_staged_commit c) g
    secrets ← Session.export_traffic_secrets O W merged.1
    pure (secrets, Session.session_of O W merged.1, i)

  merge_and_export-Arrived :
      (c : O.StagedCommit) (i : ClientIdentity) (g : O.Group) (s s' : O.Storage)
      (secrets : TrafficSecrets) (session : MlsSession O) (identity : ClientIdentity)
      (id : O.GroupId) (x y : Epoch)
      → state g ≡ (x, none)
      → O.group_id g ≡ id
      → target c ≡ y
      → merge_and_export c i g s ≡ (ok (secrets, session, identity), s')
      → Arrived id y s' secrets session
  merge_and_export-Arrived c i g s s' secrets session identity id x y holds named leads h =
      let (r, t, merged, h1) =
        bind-eq-ok (on_group O W connection_update_error (O.merge_staged_commit c) g) _ s h in
      let (kept, now, left) = R.merge_staged_commit_ok c g r.1 s t x holds (
        on_group-eq-ok O W R connection_update_error (O.merge_staged_commit c) g r.1 s t r.0
          merged) in
      let (u, t2, exported, h2) = bind-eq-ok (Session.export_traffic_secrets O W r.1) _ t h1 in
      let (same, is_secret) = export_traffic_secrets-secrets_of O W R r.1 t t2 u exported in
      let done : (u, Session.session_of O W r.1, i) ≡ (secrets, session, identity) =
        ok-injective (λ i. (h2 i).0) in
      let at_y : (state r.1).0 ≡ y = ap (λ v. v.0) now ∙ leads in
      let behind : t ≡ s' = sym same ∙ (λ i. (h2 i).1) in
      (
        sym (λ i. (done i).0) ∙ is_secret ∙ ap (secrets_of O W R) at_y,
        sym (λ i. (done i).1.group_id) ∙ kept ∙ named,
        subst (λ v. stored v id ≡ some (y, none)) behind
            (subst (λ n. stored t n ≡ some (y, none)) named
              (subst (λ v. stored t (O.group_id g) ≡ some (v, none)) leads left)),
      )

  -- `process_mls_update` after the choice of a pending commit
  abbrev process_in :
      O.PrivateMessage
      → O.Group
      → O.Storage
      → Result (Error O W) (TrafficSecrets × MlsSession O × ClientIdentity) × O.Storage
  process_in p g = do
    processed ← on_group O W connection_update_error (O.process_message p) g
    valid ← lift (validate_commit O W processed.0)
    merge_and_export valid.0 valid.1 processed.1

  process_in-Arrived :
      (p : O.PrivateMessage) (g : O.Group) (s s' : O.Storage) (secrets : TrafficSecrets)
      (session : MlsSession O) (identity : ClientIdentity) (id : O.GroupId) (x y : Epoch)
      → state g ≡ (x, none)
      → O.group_id g ≡ id
      → commit_of p ≡ (id, (x, y))
      → process_in p g s ≡ (ok (secrets, session, identity), s')
      → Arrived id y s' secrets session
  process_in-Arrived p g s s' secrets session identity id x y holds named commit h =
      let (r, t, processed, h1) =
        bind-eq-ok (on_group O W connection_update_error (O.process_message p) g) _ s h in
      let (_, kept, now, leads) = R.process_message_ok p g r.1 s t r.0 x holds (
        on_group-eq-ok O W R connection_update_error (O.process_message p) g r.1 s t r.0
          processed) in
      let (valid, u, checked, h2) = bind-eq-ok (lift (validate_commit O W r.0)) _ t h1 in
      let is_valid = (validate_commit-Valid O W r.0 valid.0 valid.1).0 (λ i. (checked i).0) in
      merge_and_export-Arrived valid.0 valid.1 r.1 u s' secrets session identity id x y now
        (kept ∙ named) (leads valid.0 is_valid.is_commit ∙ ap (λ v. v.1.1) commit) h2

  -- A commit from x to y that a member in x processes brings it to y.
  process_private_message-Arrived :
      (p : O.PrivateMessage) (drops : Bool) (s s' : O.Storage) (secrets : TrafficSecrets)
      (session : MlsSession O) (identity : ClientIdentity) (id : O.GroupId) (x v y : Epoch)
      (pending : Option Epoch)
      → Settles O W R x drops v pending
      → commit_of p ≡ (id, (x, y))
      → stored s id ≡ some (v, pending)
      → Session.process_private_message O W p drops s ≡ (ok (secrets, session, identity), s')
      → Arrived id y s' secrets session
  unfolding Session.process_private_message
  process_private_message-Arrived p drops s s' secrets session identity id x v y pending settles
        commit held h =
      let about : O.message_group_id p ≡ id = R.message_group_id_ok p ∙ ap (λ v. v.0) commit in
      let dated : O.message_epoch p ≡ number x =
        R.message_epoch_ok p ∙ ap (λ v. number v.1.0) commit in
      let (g, s1, loaded, h1) = bind-eq-ok (load_group O W (O.message_group_id p)) _ s h in
      let (_, named, holds) =
        load_group-holds O W R (O.message_group_id p) s s1 g (v, pending)
          (subst (λ n. stored s n ≡ some (v, pending)) (sym about) held) loaded in
      let (g2, s2, settled, h2) = bind-eq-ok (settle_pending O W p drops g) _ s1 h1 in
      let (kept2, now2) =
        settle_pending_lem O W R p drops g g2 s1 s2 x v pending settles holds dated settled in
      process_in-Arrived p g2 s2 s' secrets session identity id x y now2 (kept2 ∙ named ∙ about)
        commit h2

  -- `process_mls_update` on a commit from x to y, by a member in x.
  pub process_mls_update-Arrived :
      (m : O.MessageIn) (p : O.PrivateMessage) (drops : Bool) (s s' : O.Storage)
      (secrets : TrafficSecrets) (session : MlsSession O) (identity : ClientIdentity)
      (id : O.GroupId) (x v y : Epoch) (pending : Option Epoch)
      → Settles O W R x drops v pending
      → O.private_message m ≡ some p
      → commit_of p ≡ (id, (x, y))
      → stored s id ≡ some (v, pending)
      → Session.process_mls_update O W m drops s ≡ (ok (secrets, session, identity), s')
      → Arrived id y s' secrets session
  unfolding Session.process_mls_update
  process_mls_update-Arrived m p drops s s' secrets session identity id x v y pending settles
        private commit held h =
      process_private_message-Arrived p drops s s' secrets session identity id x v y pending settles
        commit held (ground arith)

  -- A server in v accepts no commit of another epoch than v and the one after it.
  process_private_message-in_epoch :
      (p : O.PrivateMessage) (s s' : O.Storage) (r : TrafficSecrets × MlsSession O × ClientIdentity)
      (id : O.GroupId) (u v y : Epoch) (pending : Option Epoch)
      → commit_of p ≡ (id, (u, y))
      → stored s id ≡ some (v, pending)
      → (number u == as_u64 (number v + 1)) ≡ false
      → Session.process_private_message O W p true s ≡ (ok r, s')
      → u ≡ v
  unfolding Session.process_private_message
  process_private_message-in_epoch p s s' r id u v y pending commit held other h =
      let about : O.message_group_id p ≡ id = R.message_group_id_ok p ∙ ap (λ v. v.0) commit in
      let dated : O.message_epoch p ≡ number u =
        R.message_epoch_ok p ∙ ap (λ v. number v.1.0) commit in
      let (g, s1, loaded, h1) = bind-eq-ok (load_group O W (O.message_group_id p)) _ s h in
      let (_, _, holds) =
        load_group-holds O W R (O.message_group_id p) s s1 g (v, pending)
          (subst (λ n. stored s n ≡ some (v, pending)) (sym about) held) loaded in
      let (g2, s2, settled, h2) = bind-eq-ok (settle_pending O W p true g) _ s1 h1 in
      let (_, now) =
        settle_pending-drops O W R p g g2 s1 s2 u v pending holds dated other settled in
      let (r3, s3, processed, _) =
        bind-eq-ok (on_group O W connection_update_error (O.process_message p) g2) _ s2 h2 in
      let (in_v, _, _, _) = R.process_message_ok p g2 r3.1 s2 s3 r3.0 v now (
        on_group-eq-ok O W R connection_update_error (O.process_message p) g2 r3.1 s2 s3 r3.0
          processed) in
      ap (λ v. v.1.0) (sym commit) ∙ in_v

  pub process_mls_update-in_epoch :
      (m : O.MessageIn) (p : O.PrivateMessage) (s s' : O.Storage)
      (r : TrafficSecrets × MlsSession O × ClientIdentity) (id : O.GroupId) (u v y : Epoch)
      (pending : Option Epoch)
      → O.private_message m ≡ some p
      → commit_of p ≡ (id, (u, y))
      → stored s id ≡ some (v, pending)
      → (number u == as_u64 (number v + 1)) ≡ false
      → Session.process_mls_update O W m true s ≡ (ok r, s')
      → u ≡ v
  unfolding Session.process_mls_update
  process_mls_update-in_epoch m p s s' r id u v y pending private commit held other h =
      process_private_message-in_epoch p s s' r id u v y pending commit held other (ground arith)
