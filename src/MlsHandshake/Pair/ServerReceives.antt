-- ===== src/MlsHandshake/Pair/ServerReceives.antt =====
-- What a message of the client does to the epoch of the server, in src/mls_handshake/state_machine/server.rs.
use mls_tls_protocol.Base.{
  ◌≡◌, sym, subst, ap, ◌∙◌, true, Option, none, some, Result, ok, bind-eq-ok, ok-injective, lift,
  pure, ◌>>=◌, ◌>>◌,
}
use mls_tls_protocol.Base.Bytes.{Octets}
use mls_tls_protocol.TlsAead.Secrets.{TrafficSecrets}
use mls_tls_protocol.MlsHandshake.OpenMls.{OpenMls, Connection}
use mls_tls_protocol.MlsHandshake.Messages.{
  Wire, Boolean, EpochKeyUpdate, SignalingMessage, epoch_key_update, to_bool,
}
use mls_tls_protocol.MlsHandshake.Method.{
  Error, stored, on_connection, epoch_key_update_bytes, check_epoch_key_update, coded,
}
use mls_tls_protocol.MlsHandshake.Session
use mls_tls_protocol.MlsHandshake.Session.{MlsSession}
use mls_tls_protocol.MlsHandshake.Group.{IsMls, ReadsBack}
use mls_tls_protocol.MlsHandshake.Group.Operations.{secrets_of, merge_update-secrets_of}
use mls_tls_protocol.MlsHandshake.Group.Process.{process_mls_update-Arrived}
use mls_tls_protocol.MlsHandshake.Group.Pending.{drops_pending}
use mls_tls_protocol.MlsHandshake.Pair.{ServerIn, Carries, Confirms}
use mls_tls_protocol.MlsHandshake.Pair.Confirming.{
  epoch_key_update_bytes-Confirms, check_epoch_key_update-storage,
}
use mls_tls_protocol.MlsHandshake.Server
use mls_tls_protocol.MlsHandshake.Server.{Server, ServerInternalState, running, waiting_for_update}

module _ (O : OpenMls) (W : Wire O) (R : IsMls O) where
  open R use {Epoch, number, commit_of, sent}

  received-dispatch :
      (k : O.Signer) (s : Server O W) (c : Connection O) (bytes : Octets)
      (m : SignalingMessage O.MessageIn)
      → W.deserialize_signaling bytes ≡ ok m
      → Server.receive_signaling_message O W k bytes (s, c) ≡ Server.dispatch O W k m (s, c)
  unfolding Server.receive_signaling_message
  received-dispatch k s c bytes m decoded =
      ap (λ r. (lift (coded O W r) >>= Server.dispatch O W k) (s, c)) decoded

  process_update-ServerIn :
      (k : O.Signer) (n : O.MessageIn) (p : O.PrivateMessage) (s t : Server O W)
      (c d : Connection O) (secrets : TrafficSecrets) (bytes : Octets) (id : O.GroupId)
      (x y : Epoch) (pending : Option Epoch)
      → O.private_message n ≡ some p
      → commit_of p ≡ (id, (x, y))
      → R.stored c.storage id ≡ some (x, pending)
      → Server.process_update O W k
          (record { update_requested = Boolean.false; mls_commit = n })
          (s, c)
        ≡ (ok (secrets, bytes), (t, d))
      → (secrets ≡ secrets_of O W R y) × Confirms O W R y bytes × ServerIn O W R id y none t d
  unfolding Server.process_update to_bool
  process_update-ServerIn k n p s t c d secrets bytes id x y pending private commit held h =
      let (r, (s1, c1), e1, h1) =
        bind-eq-ok (on_connection O W (stored O W (Session.process_mls_update O W n true))) _ (s, c)
          h in
      let (is_secret, named, now) =
        process_mls_update-Arrived O W R n p true c.storage c1.storage r.0 r.1 r.2 id x x y pending
          drops_pending private commit held (λ i. ((e1 i).0, (e1 i).1.1.storage)) in
      let s2 : Server O W = record { mls_session = r.1; internal_state = running } in
      let (b, (s3, c3), e3, h3) =
        bind-eq-ok (on_connection O W (epoch_key_update_bytes O W r.1)) _ (s2, c1) h1 in
      let (confirms, same) =
        epoch_key_update_bytes-Confirms O W R r.1 c1 c3 b id y none named now
          (λ i. ((e3 i).0, (e3 i).1.1)) in
      let done : (r.0, b) ≡ (secrets, bytes) = ok-injective (λ i. (h3 i).0) in
      let is_t : s2 ≡ t = (λ i. (e3 i).1.0) ∙ (λ i. (h3 i).1.0) in
      (
        sym (λ i. (done i).0) ∙ is_secret,
        subst (λ v. Confirms O W R y v) (λ i. (done i).1) confirms,
        record {
          has_group = ap (λ v. v.mls_session.group_id) (sym is_t) ∙ named;
          has_state = ap (λ v. v.internal_state) (sym is_t);
          in_epoch =
              subst (λ v. R.stored v id ≡ some (y, none)) (sym same ∙ (λ i. (h3 i).1.1.storage))
                now;
        },
      )

  -- A server in x that gets the client's commit to y drops its own pending commit and is in y; it confirms y.
  pub receives_update-ServerIn :
      (B : ReadsBack W R) (k : O.Signer) (s t : Server O W) (c d : Connection O) (bytes : Octets)
      (response : TrafficSecrets × Option Octets) (id : O.GroupId) (x y : Epoch)
      (pending : Option Epoch)
      → ServerIn O W R id x pending s c
      → Carries O W R id x y bytes
      → Server.receive_signaling_message O W k bytes (s, c) ≡ (ok response, (t, d))
      → (out : Octets) × (response ≡ (secrets_of O W R y, some out))
        × Confirms O W R y out
        × ServerIn O W R id y none t d
  unfolding Server.dispatch
  receives_update-ServerIn B k s t c d bytes response id x y pending inside carries h =
      let (n, decoded, private) =
        B.connection_update_read Boolean.false carries.message bytes carries.commits.is_self_update
          carries.is_update in
      let h0 = sym (received-dispatch k s c bytes _ decoded) ∙ h in
      let (r, (s1, c1), e1, h1) =
        bind-eq-ok
          (Server.process_update O W k
            (record { update_requested = Boolean.false; mls_commit = n }))
          _ (s, c) h0 in
      let (is_secret, confirms, after) =
        process_update-ServerIn k n (sent carries.message) s s1 c c1 r.0 r.1 id x y pending private
          carries.commits.has_commit inside.in_epoch e1 in
      (
        r.1,
        sym (ok-injective (λ i. (h1 i).0)) ∙ ap (λ v. (v, some r.1)) is_secret,
        confirms,
        subst (λ v. ServerIn O W R id y none v.0 v.1) (λ i. (h1 i).1) after,
      )

  -- The end of `receive_epoch_key_update`: the check of the message and the answer.
  abbrev settle :
      TrafficSecrets
      → EpochKeyUpdate
      → Server O W × Connection O
      → Result (Error O W) (TrafficSecrets × Option Octets) × (Server O W × Connection O)
  settle secrets message (self, c) =
      (do
        on_connection O W (check_epoch_key_update O W self.mls_session message)
        bytes ← on_connection O W (epoch_key_update_bytes O W self.mls_session)
        Server.set_state O W running
        pure (secrets, some bytes))
        (self, c)

  settle-ServerIn :
      (secrets : TrafficSecrets) (message : EpochKeyUpdate) (s t : Server O W) (c d : Connection O)
      (response : TrafficSecrets × Option Octets) (id : O.GroupId) (y : Epoch)
      → secrets ≡ secrets_of O W R y
      → s.mls_session.group_id ≡ id
      → R.stored c.storage id ≡ some (y, none)
      → settle secrets message (s, c) ≡ (ok response, (t, d))
      → (out : Octets) × (response ≡ (secrets_of O W R y, some out))
        × Confirms O W R y out
        × ServerIn O W R id y none t d
  settle-ServerIn secrets message s t c d response id y is_secret named held h =
      let (u, (s1, c1), e1, h1) =
        bind-eq-ok (on_connection O W (check_epoch_key_update O W s.mls_session message)) _ (s, c)
          h in
      let still =
        check_epoch_key_update-storage O W R s.mls_session message c c1 u
          (λ i. ((e1 i).0, (e1 i).1.1)) in
      let now : R.stored c1.storage id ≡ some (y, none) =
        subst (λ v. R.stored v id ≡ some (y, none)) (sym still) held in
      let (b, (s2, c2), e2, h2) =
        bind-eq-ok (on_connection O W (epoch_key_update_bytes O W s.mls_session)) _ (s1, c1) h1 in
      let (confirms, same) =
        epoch_key_update_bytes-Confirms O W R s.mls_session c1 c2 b id y none named now
          (λ i. ((e2 i).0, (e2 i).1.1)) in
      (
        b,
        sym (ok-injective (λ i. (h2 i).0)) ∙ ap (λ v. (v, some b)) is_secret,
        confirms,
        record {
          has_group =
              sym (λ i. (h2 i).1.0.mls_session.group_id)
              ∙ sym (λ i. (e2 i).1.0.mls_session.group_id)
              ∙ sym (λ i. (e1 i).1.0.mls_session.group_id)
              ∙ named;
          has_state = sym (λ i. (h2 i).1.0.internal_state);
          in_epoch =
              subst (λ v. R.stored v id ≡ some (y, none)) (sym same ∙ (λ i. (h2 i).1.1.storage))
                now;
        },
      )

  waiting_receives-ServerIn :
      (message : EpochKeyUpdate) (whole : SignalingMessage O.MessageIn) (s t : Server O W)
      (c d : Connection O) (response : TrafficSecrets × Option Octets) (id : O.GroupId)
      (x y : Epoch)
      → ServerIn O W R id x (some y) s c
      → Server.receive_epoch_key_update O W waiting_for_update message whole (s, c)
        ≡ (ok response, (t, d))
      → (out : Octets) × (response ≡ (secrets_of O W R y, some out))
        × Confirms O W R y out
        × ServerIn O W R id y none t d
  unfolding Server.receive_epoch_key_update
  waiting_receives-ServerIn message whole s t c d response id x y inside h =
      let (secrets, (s1, c1), e1, h1) = bind-eq-ok (Server.merge_session O W) _ (s, c) h in
      let (is_secret, kept, now) =
        merge_update-secrets_of O W R s.mls_session s1.mls_session c.storage c1.storage secrets x y
          (subst (λ n. R.stored c.storage n ≡ some (x, some y)) (sym inside.has_group)
            inside.in_epoch)
          (λ i. ((e1 i).0, ((e1 i).1.0.mls_session, (e1 i).1.1.storage))) in
      settle-ServerIn secrets message s1 t c1 d response id y is_secret (kept ∙ inside.has_group)
        (subst (λ n. R.stored c1.storage n ≡ some (y, none)) inside.has_group now) h1

  -- A server in x that waits, with y pending, and gets an `EpochKeyUpdate` is in y; it confirms y.
  pub receives_confirmation-ServerIn :
      (B : ReadsBack W R) (k : O.Signer) (s t : Server O W) (c d : Connection O) (bytes : Octets)
      (response : TrafficSecrets × Option Octets) (id : O.GroupId) (x y z : Epoch)
      → ServerIn O W R id x (some y) s c
      → Confirms O W R z bytes
      → Server.receive_signaling_message O W k bytes (s, c) ≡ (ok response, (t, d))
      → (out : Octets) × (response ≡ (secrets_of O W R y, some out))
        × Confirms O W R y out
        × ServerIn O W R id y none t d
  unfolding Server.dispatch
  receives_confirmation-ServerIn B k s t c d bytes response id x y z inside confirms h =
      let message : EpochKeyUpdate = record { epoch = number z } in
      let decoded = B.epoch_key_update_read message bytes confirms.is_confirmation in
      let h0 = sym (received-dispatch k s c bytes _ decoded) ∙ h in
      waiting_receives-ServerIn message (epoch_key_update message) s t c d response id x y inside (
        subst
          (λ v.
            Server.receive_epoch_key_update O W v message (epoch_key_update message) (s, c)
            ≡ (ok response, (t, d)))
          inside.has_state h0)
