-- ===== src/MlsHandshake/Pair/ClientSteps.antt =====
-- What the client of src/mls_handshake/state_machine/client.rs does to its epoch.
use mls_tls_protocol.Base.{
  ◌≡◌, sym, subst, ap, refl, ◌∙◌, true, false, none, some, Result, ok, arith, bind-eq-ok,
  ok-injective, map_err-eq-ok, lift, pure, ◌>>=◌, ◌>>◌,
}
use mls_tls_protocol.Base.Bytes.{Octets}
use mls_tls_protocol.TlsAead.Secrets.{TrafficSecrets, ClientSecret, ServerSecret}
use mls_tls_protocol.MlsHandshake.OpenMls.{OpenMls, Connection}
use mls_tls_protocol.MlsHandshake.Messages.{Wire, Boolean, from_bool, codec_error}
use mls_tls_protocol.MlsHandshake.Method.{Error}
use mls_tls_protocol.MlsHandshake.Group.{Commits, IsMls, ReadsBack}
use mls_tls_protocol.MlsHandshake.Group.Operations.{
  secrets_of, update-sent, merge_update-secrets_of,
}
use mls_tls_protocol.MlsHandshake.Pair.{ClientIn, Carries}
use mls_tls_protocol.MlsHandshake.Client.State.{
  ClientInternalState, PendingUpdate, running, waiting_for_epoch_key_update,
}
use mls_tls_protocol.MlsHandshake.Client
use mls_tls_protocol.MlsHandshake.Client.Confirm.{Keeps, own_update, server_update}
use mls_tls_protocol.MlsHandshake.Client.Waiting.{waiting-ignores_updates}
use mls_tls_protocol.MlsHandshake.Client.{Client}
use mls_tls_protocol.MlsHandshake.Persistence
use mls_tls_protocol.MlsHandshake.Persistence.{Sql}

module _ (O : OpenMls) (W : Wire O) (Q : Sql O W) (R : IsMls O) where
  open R use {Epoch, number, stored, commit_of, sent}

  pub store_update-storage :
      (s : Client O W) (c d : Connection O) (u : Unit {0})
      → Persistence.store_update O W Q s c ≡ (ok u, d)
      → d.storage ≡ c.storage
  unfolding Persistence.store_update
  store_update-storage s c d u h = ground arith

  pub commit_update-Carries :
      (k : O.Signer) (s t : Client O W) (c d : Connection O) (m : O.MessageOut) (id : O.GroupId)
      (x : Epoch)
      → s.mls_session.group_id ≡ id
      → stored c.storage id ≡ some (x, none)
      → Client.commit_update O W k (s, c) ≡ (ok m, (t, d))
      → (y : Epoch) × Commits R m id x y × (stored d.storage id ≡ some (x, some y)) × (t ≡ s)
  commit_update-Carries k s t c d m id x named held h =
      let (y, commit, now) =
        update-sent O W R s.mls_session k c.storage d.storage m x
          (subst (λ n. stored c.storage n ≡ some (x, none)) (sym named) held)
          (λ i. ((h i).0, (h i).1.1.storage)) in
      (
        y,
        subst (λ n. Commits R m n x y) named commit,
        subst (λ n. stored d.storage n ≡ some (x, some y)) named now,
        sym (λ i. (h i).1.0),
      )

  pub merge_session-secrets_of :
      (s t : Client O W) (c d : Connection O) (secrets : TrafficSecrets) (id : O.GroupId)
      (x y : Epoch)
      → s.mls_session.group_id ≡ id
      → stored c.storage id ≡ some (x, some y)
      → Client.merge_session O W (s, c) ≡ (ok secrets, (t, d))
      → (secrets ≡ secrets_of O W R y)
        × (t.mls_session.group_id ≡ id)
        × (stored d.storage id ≡ some (y, none))
  merge_session-secrets_of s t c d secrets id x y named held h =
      let (is_secret, kept, now) =
        merge_update-secrets_of O W R s.mls_session t.mls_session c.storage d.storage secrets x y
          (subst (λ n. stored c.storage n ≡ some (x, some y)) (sym named) held)
          (λ i. ((h i).0, ((h i).1.0.mls_session, (h i).1.1.storage))) in
      (is_secret, kept ∙ named, subst (λ n. stored d.storage n ≡ some (y, none)) named now)

  abbrev keep_pending :
      O.MessageOut
      → TrafficSecrets
      → Octets
      → Client O W × Connection O
      → Result (Error O W) (ClientSecret × Octets) × (Client O W × Connection O)
  keep_pending m secrets bytes = do
    Client.set_state O W
        (waiting_for_epoch_key_update (record { mls_message = m; traffic_secrets = secrets }))
    Client.save O W Q
    pure (secrets.client_secret, bytes)

  -- The end of an update: it is sent, and what is pending is stored.
  abbrev announce :
      O.MessageOut
      → TrafficSecrets
      → Client O W × Connection O
      → Result (Error O W) (ClientSecret × Octets) × (Client O W × Connection O)
  announce m secrets = do
    bytes ← lift (Client.connection_update_bytes O W false m)
    keep_pending m secrets bytes

  announce-ClientIn :
      (m : O.MessageOut) (secrets : TrafficSecrets) (s t : Client O W) (c d : Connection O)
      (secret : ClientSecret) (bytes : Octets) (id : O.GroupId) (x y : Epoch)
      → Commits R m id x y
      → s.mls_session.group_id ≡ id
      → stored c.storage id ≡ some (y, none)
      → announce m secrets (s, c) ≡ (ok (secret, bytes), (t, d))
      → Carries O W R id x y bytes
        × (secret ≡ secrets.client_secret)
        × ClientIn O W R id y
            (waiting_for_epoch_key_update (record { mls_message = m; traffic_secrets = secrets }))
            t
            d
  unfolding from_bool
  announce-ClientIn m secrets s t c d secret bytes id x y commit named held h =
      let (b, _, e1, h1) =
        bind-eq-ok (lift (Client.connection_update_bytes O W false m)) _ (s, c) h in
      let s1 = record s {
        internal_state =
            waiting_for_epoch_key_update (record { mls_message = m; traffic_secrets = secrets });
      } in
      let same_0 : (s, c) ≡ _ = λ i. (e1 i).1 in
      let (u, (s2, c2), e2, h2) =
        bind-eq-ok (Client.save O W Q) _ (s1, c)
          (subst (λ v. keep_pending m secrets b v ≡ (ok (secret, bytes), (t, d))) (sym same_0)
            h1) in
      let kept = store_update-storage s1 c c2 u (λ i. ((e2 i).0, (e2 i).1.1)) in
      let written = map_err-eq-ok codec_error _ (λ i. (e1 i).0) in
      let done : (secrets.client_secret, b) ≡ (secret, bytes) = ok-injective (λ i. (h2 i).0) in
      let is_t : s1 ≡ t = (λ i. (e2 i).1.0) ∙ (λ i. (h2 i).1.0) in
      let is_d : c2 ≡ d = λ i. (h2 i).1.1 in
      (
        record { message = m; is_update = written ∙ ap ok (λ i. (done i).1); commits = commit },
        sym (λ i. (done i).0),
        record {
          has_group = ap (λ v. v.mls_session.group_id) (sym is_t) ∙ named;
          has_state = ap (λ v. v.internal_state) (sym is_t);
          in_epoch =
              subst (λ v. stored v id ≡ some (y, none)) (sym kept ∙ ap (λ v. v.storage) is_d) held;
        },
      )

  running_update-ClientIn :
      (k : O.Signer) (s t : Client O W) (c d : Connection O) (secret : ClientSecret)
      (bytes : Octets) (id : O.GroupId) (x : Epoch)
      → s.mls_session.group_id ≡ id
      → stored c.storage id ≡ some (x, none)
      → Client.update O W Q k false (record s { internal_state = running }, c)
        ≡ (ok (secret, bytes), (t, d))
      → (y : Epoch) × (pending : PendingUpdate O) × Carries O W R id x y bytes
        × (secret ≡ (secrets_of O W R y).client_secret)
        × (pending.traffic_secrets ≡ secrets_of O W R y)
        × ClientIn O W R id y (waiting_for_epoch_key_update pending) t d
  unfolding Client.update Client.is_waiting_for_response from_bool
  running_update-ClientIn k s t c d secret bytes id x named held h =
      let (m, (s1, c1), e1, h1) =
        bind-eq-ok (Client.commit_update O W k) _ (record s { internal_state = running }, c) h in
      let (y, commit, now, same) =
        commit_update-Carries k (record s { internal_state = running }) s1 c c1 m id x named held
          e1 in
      let (secrets, (s2, c2), e2, h2) = bind-eq-ok (Client.merge_session O W) _ (s1, c1) h1 in
      let (is_secret, kept, left) =
        merge_session-secrets_of s1 s2 c1 c2 secrets id x y
          (ap (λ v. v.mls_session.group_id) same ∙ named) now e2 in
      let (update, is_client, is_in) =
        announce-ClientIn m secrets s2 t c2 d secret bytes id x y commit kept left h2 in
      (
        y,
        record { mls_message = m; traffic_secrets = secrets },
        update,
        is_client ∙ ap (λ v. v.client_secret) is_secret,
        is_secret,
        is_in,
      )

  -- A client in x that starts an update is in the epoch y of its commit, and waits with the server's secret of y.
  pub update-ClientIn :
      (k : O.Signer) (s t : Client O W) (c d : Connection O) (secret : ClientSecret)
      (bytes : Octets) (id : O.GroupId) (x : Epoch)
      → ClientIn O W R id x running s c
      → Client.update O W Q k false (s, c) ≡ (ok (secret, bytes), (t, d))
      → (y : Epoch) × (state : ClientInternalState O) × Carries O W R id x y bytes
        × (secret ≡ (secrets_of O W R y).client_secret)
        × Keeps O W Q state (secrets_of O W R y).server_secret
        × ClientIn O W R id y state t d
  update-ClientIn k s t c d secret bytes id x inside h =
      let (y, pending, carries, is_client, secrets, after) =
        running_update-ClientIn k s t c d secret bytes id x inside.has_group inside.in_epoch (
          subst
            (λ v.
              Client.update O W Q k false (record s { internal_state = v }, c)
              ≡ (ok (secret, bytes), (t, d)))
            inside.has_state h) in
      (
        y,
        waiting_for_epoch_key_update pending,
        carries,
        is_client,
        subst (λ v. Keeps O W Q (waiting_for_epoch_key_update pending) v.server_secret) secrets
            own_update,
        after,
      )

  Keeps-waits :
      (state : ClientInternalState O) (secret : ServerSecret)
      → Keeps O W Q state secret
      → Client.is_waiting O W state ≡ true
  Keeps-waits state secret own_update = refl
  Keeps-waits state secret server_update = refl

  -- A client that waits refuses to start an update.
  pub waiting-update_fails :
      (k : O.Signer) (s t : Client O W) (c d : Connection O) (r : ClientSecret × Octets)
      (id : O.GroupId) (x : Epoch) (state : ClientInternalState O) (kept : ServerSecret)
      → Keeps O W Q state kept
      → ClientIn O W R id x state s c
      → ¬ (Client.update O W Q k false (s, c) ≡ (ok r, (t, d)))
  unfolding Client.update Client.is_waiting_for_response
  waiting-update_fails k s t c d r id x state kept keeps inside h =
      let waits : Client.is_waiting O W s.internal_state ≡ true =
        ap (Client.is_waiting O W) inside.has_state ∙ Keeps-waits state kept keeps in
      ground arith

  -- A client that waits drops an update of the server.
  pub waiting-drops :
      (B : ReadsBack W R) (k : O.Signer) (s t : Client O W) (c d : Connection O) (bytes : Octets)
      (response : Client.Response O W) (id : O.GroupId) (x y z : Epoch)
      (state : ClientInternalState O) (kept : ServerSecret)
      → Keeps O W Q state kept
      → ClientIn O W R id x state s c
      → Carries O W R id y z bytes
      → Client.receive_signaling_message O W Q k bytes (s, c) ≡ (ok response, (t, d))
      → (response ≡ (none, none)) × ClientIn O W R id x state t d
  unfolding Client.is_waiting_for_response
  waiting-drops B k s t c d bytes response id x y z state kept keeps inside carries h =
      let waits : Client.is_waiting O W s.internal_state ≡ true =
        ap (Client.is_waiting O W) inside.has_state ∙ Keeps-waits state kept keeps in
      let (n, decoded, _) =
        B.connection_update_read Boolean.false carries.message bytes carries.commits.is_self_update
          carries.is_update in
      let same =
        sym h
        ∙ waiting-ignores_updates O W Q k
            (record { update_requested = Boolean.false; mls_commit = n }) bytes s c waits decoded in
      (
        ok-injective (λ i. (same i).0),
        subst (λ v. ClientIn O W R id x state v.0 v.1) (λ i. (sym same i).1) inside,
      )
