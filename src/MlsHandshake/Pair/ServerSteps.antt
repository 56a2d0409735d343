-- ===== src/MlsHandshake/Pair/ServerSteps.antt =====
-- What the server of src/mls_handshake/state_machine/server.rs does to its epoch.
use mls_tls_protocol.Base.{
  ◌≡◌, ◌≢◌, sym, subst, ap, ◌∙◌, false, none, some, ok, arith, bind-eq-ok, ok-injective,
  map_err-eq-ok, lift,
}
use mls_tls_protocol.Base.Bytes.{Octets}
use mls_tls_protocol.MlsHandshake.OpenMls.{OpenMls, Connection}
use mls_tls_protocol.MlsHandshake.Messages.{Wire, from_bool, codec_error}
use mls_tls_protocol.MlsHandshake.Method.{stored, on_connection}
use mls_tls_protocol.MlsHandshake.Session
use mls_tls_protocol.MlsHandshake.Session.{MlsSession}
use mls_tls_protocol.MlsHandshake.Group.{IsMls, Commits}
use mls_tls_protocol.MlsHandshake.Group.Operations.{update-sent}
use mls_tls_protocol.MlsHandshake.Pair.{ServerIn, Carries}
use mls_tls_protocol.MlsHandshake.Server
use mls_tls_protocol.MlsHandshake.Server.{Server, ServerInternalState, running, waiting_for_update}

module _ (O : OpenMls) (W : Wire O) (R : IsMls O) where
  open R use {Epoch, number, commit_of, sent}

  running_update-ServerIn :
      (k : O.Signer) (s t : Server O W) (c d : Connection O) (bytes : Octets) (id : O.GroupId)
      (x : Epoch)
      → s.mls_session.group_id ≡ id
      → R.stored c.storage id ≡ some (x, none)
      → Server.update O W k false (record s { internal_state = running }, c) ≡ (ok bytes, (t, d))
      → (y : Epoch) × Carries O W R id x y bytes × ServerIn O W R id x (some y) t d
  unfolding Server.update Server.is_waiting_for_response from_bool
  running_update-ServerIn k s t c d bytes id x named held h =
      let (m, (s1, c1), e1, h1) =
        bind-eq-ok (on_connection O W (stored O W (Session.update O W s.mls_session k))) _
          (record s { internal_state = running }, c) h in
      let (y, commit, now) =
        update-sent O W R s.mls_session k c.storage c1.storage m x
          (subst (λ n. R.stored c.storage n ≡ some (x, none)) (sym named) held)
          (λ i. ((e1 i).0, (e1 i).1.1.storage)) in
      let (b, (s2, c2), e2, h2) =
        bind-eq-ok (lift (Server.connection_update_bytes O W false m)) _ (s1, c1) h1 in
      (
        y,
        record {
          message = m;
          is_update =
              map_err-eq-ok codec_error _ (λ i. (e2 i).0) ∙ ap ok (ok-injective (λ i. (h2 i).0));
          commits = subst (λ n. Commits R m n x y) named commit;
        },
        record {
          has_group =
              sym (λ i. (h2 i).1.0.mls_session.group_id)
              ∙ sym (λ i. (e2 i).1.0.mls_session.group_id)
              ∙ sym (λ i. (e1 i).1.0.mls_session.group_id)
              ∙ named;
          has_state = sym (λ i. (h2 i).1.0.internal_state);
          in_epoch =
              subst (λ v. R.stored v id ≡ some (x, some y))
                ((λ i. (e2 i).1.1.storage) ∙ (λ i. (h2 i).1.1.storage))
                (subst (λ n. R.stored c1.storage n ≡ some (x, some y)) named now);
        },
      )

  -- A server in x with nothing pending that starts an update stays in x, with the epoch of its commit pending.
  pub update-ServerIn :
      (k : O.Signer) (s t : Server O W) (c d : Connection O) (bytes : Octets) (id : O.GroupId)
      (x : Epoch)
      → ServerIn O W R id x none s c
      → Server.update O W k false (s, c) ≡ (ok bytes, (t, d))
      → (y : Epoch) × Carries O W R id x y bytes × ServerIn O W R id x (some y) t d
  update-ServerIn k s t c d bytes id x inside h =
      running_update-ServerIn k s t c d bytes id x inside.has_group inside.in_epoch (
        subst
          (λ v. Server.update O W k false (record s { internal_state = v }, c) ≡ (ok bytes, (t, d)))
          inside.has_state h)

  -- A server that waits refuses to start an update.
  pub waiting-update_fails :
      (k : O.Signer) (s t : Server O W) (c d : Connection O) (bytes : Octets) (id : O.GroupId)
      (x y : Epoch)
      → ServerIn O W R id x (some y) s c
      → Server.update O W k false (s, c) ≢ (ok bytes, (t, d))
  unfolding Server.update Server.is_waiting_for_response
  waiting-update_fails k s t c d bytes id x y inside h =
      let waits : s.internal_state ≡ waiting_for_update = inside.has_state in ground arith
