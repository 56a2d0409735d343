-- ===== src/MlsHandshake/Pair/ClientReceives.antt =====
-- What a message of the server does to the epoch of the client, in src/mls_handshake/state_machine/client.rs.
use mls_tls_protocol.Base.{
  ◌≡◌, sym, subst, ap, ◌∙◌, false, none, some, Result, ok, bind-eq-ok, ok-injective, lift, pure,
  ◌>>=◌, ◌>>◌,
}
use mls_tls_protocol.Base.Bytes.{Octets}
use mls_tls_protocol.TlsAead.Secrets.{TrafficSecrets, ClientSecret, client}
use mls_tls_protocol.MlsHandshake.OpenMls.{OpenMls, Connection}
use mls_tls_protocol.MlsHandshake.Messages.{Wire, Boolean, SignalingMessage, to_bool}
use mls_tls_protocol.MlsHandshake.Method.{
  Error, stored, on_connection, epoch_key_update_bytes, coded,
}
use mls_tls_protocol.MlsHandshake.Session
use mls_tls_protocol.MlsHandshake.Session.{MlsSession}
use mls_tls_protocol.MlsHandshake.Group.{IsMls, ReadsBack}
use mls_tls_protocol.MlsHandshake.Group.Operations.{secrets_of}
use mls_tls_protocol.MlsHandshake.Group.Process.{process_mls_update-Arrived}
use mls_tls_protocol.MlsHandshake.Group.Pending.{has_none}
use mls_tls_protocol.MlsHandshake.Pair.{ClientIn, Carries, Confirms}
use mls_tls_protocol.MlsHandshake.Pair.ClientSteps.{store_update-storage}
use mls_tls_protocol.MlsHandshake.Client.State.{
  ClientInternalState, running, waiting_for_epoch_key_update_return,
}
use mls_tls_protocol.MlsHandshake.Client
use mls_tls_protocol.MlsHandshake.Client.{Client}
use mls_tls_protocol.MlsHandshake.Client.Confirm.{Keeps, server_update}
use mls_tls_protocol.MlsHandshake.Persistence.{Sql}
use mls_tls_protocol.MlsHandshake.Pair.Confirming.{epoch_key_update_bytes-Confirms}

module _ (O : OpenMls) (W : Wire O) (Q : Sql O W) (R : IsMls O) where
  open R use {Epoch, number, commit_of, sent}

  -- The end of `process_update`, after the session is set.
  abbrev answer :
      TrafficSecrets
      → MlsSession O
      → Client O W × Connection O
      → Result (Error O W) (ClientSecret × Octets) × (Client O W × Connection O)
  answer secrets session = do
    response ← on_connection O W (epoch_key_update_bytes O W session)
    Client.set_state O W (waiting_for_epoch_key_update_return secrets.server_secret)
    pure (secrets.client_secret, response)

  answer-ClientIn :
      (secrets : TrafficSecrets) (session : MlsSession O) (s t : Client O W) (c d : Connection O)
      (secret : ClientSecret) (bytes : Octets) (id : O.GroupId) (y : Epoch)
      → secrets ≡ secrets_of O W R y
      → session.group_id ≡ id
      → s.mls_session.group_id ≡ id
      → R.stored c.storage id ≡ some (y, none)
      → answer secrets session (s, c) ≡ (ok (secret, bytes), (t, d))
      → (secret ≡ (secrets_of O W R y).client_secret)
        × Confirms O W R y bytes
        × ClientIn O W R id y
            (waiting_for_epoch_key_update_return (secrets_of O W R y).server_secret)
            t
            d
  answer-ClientIn secrets session s t c d secret bytes id y is_secret named named_s held h =
      let (b, (s1, c1), e1, h1) =
        bind-eq-ok (on_connection O W (epoch_key_update_bytes O W session)) _ (s, c) h in
      let (confirms, same) =
        epoch_key_update_bytes-Confirms O W R session c c1 b id y none named held
          (λ i. ((e1 i).0, (e1 i).1.1)) in
      let done : (secrets.client_secret, b) ≡ (secret, bytes) = ok-injective (λ i. (h1 i).0) in
      (
        sym (λ i. (done i).0) ∙ ap (λ v. v.client_secret) is_secret,
        subst (λ v. Confirms O W R y v) (λ i. (done i).1) confirms,
        record {
          has_group =
              sym (λ i. (h1 i).1.0.mls_session.group_id)
              ∙ sym (λ i. (e1 i).1.0.mls_session.group_id)
              ∙ named_s;
          has_state =
              sym (λ i. (h1 i).1.0.internal_state)
              ∙ ap (λ v. waiting_for_epoch_key_update_return v.server_secret) is_secret;
          in_epoch =
              subst (λ v. R.stored v id ≡ some (y, none)) (sym same ∙ (λ i. (h1 i).1.1.storage))
                held;
        },
      )

  process_update-ClientIn :
      (k : O.Signer) (n : O.MessageIn) (p : O.PrivateMessage) (s t : Client O W)
      (c d : Connection O) (secret : ClientSecret) (bytes : Octets) (id : O.GroupId) (x y : Epoch)
      → O.private_message n ≡ some p
      → commit_of p ≡ (id, (x, y))
      → R.stored c.storage id ≡ some (x, none)
      → Client.process_update O W k
          (record { update_requested = Boolean.false; mls_commit = n })
          (s, c)
        ≡ (ok (secret, bytes), (t, d))
      → (secret ≡ (secrets_of O W R y).client_secret)
        × Confirms O W R y bytes
        × ClientIn O W R id y
            (waiting_for_epoch_key_update_return (secrets_of O W R y).server_secret)
            t
            d
  unfolding Client.process_update to_bool
  process_update-ClientIn k n p s t c d secret bytes id x y private commit held h =
      let (r, (s1, c1), e1, h1) =
        bind-eq-ok (on_connection O W (stored O W (Session.process_mls_update O W n false))) _
          (s, c) h in
      let (is_secret, named, now) =
        process_mls_update-Arrived O W R n p false c.storage c1.storage r.0 r.1 r.2 id x x y none
          (has_none {drops = false}) private commit held (λ i. ((e1 i).0, (e1 i).1.1.storage)) in
      answer-ClientIn r.0 r.1 (record s1 { mls_session = r.1 }) t c1 d secret bytes id y is_secret
        named named now h1

  pub received-dispatch :
      (k : O.Signer) (s : Client O W) (c : Connection O) (bytes : Octets)
      (m : SignalingMessage O.MessageIn)
      → W.deserialize_signaling bytes ≡ ok m
      → Client.receive_signaling_message O W Q k bytes (s, c) ≡ Client.dispatch O W Q k m (s, c)
  unfolding Client.receive_signaling_message
  received-dispatch k s c bytes m decoded =
      ap (λ r. (lift (coded O W r) >>= Client.dispatch O W Q k) (s, c)) decoded

  running_receives-ClientIn :
      (B : ReadsBack W R) (k : O.Signer) (s t : Client O W) (c d : Connection O) (bytes : Octets)
      (response : Client.Response O W) (id : O.GroupId) (x y : Epoch)
      → R.stored c.storage id ≡ some (x, none)
      → Carries O W R id x y bytes
      → Client.receive_signaling_message O W Q k bytes (record s { internal_state = running }, c)
        ≡ (ok response, (t, d))
      → (out : Octets) × (response ≡ (some (client (secrets_of O W R y).client_secret), some out))
        × Confirms O W R y out
        × ClientIn O W R id y
            (waiting_for_epoch_key_update_return (secrets_of O W R y).server_secret)
            t
            d
  unfolding Client.dispatch Client.receive_connection_update Client.is_waiting_for_response
  running_receives-ClientIn B k s t c d bytes response id x y held carries h =
      let (n, decoded, private) =
        B.connection_update_read Boolean.false carries.message bytes carries.commits.is_self_update
          carries.is_update in
      let h0 =
        sym (received-dispatch k (record s { internal_state = running }) c bytes _ decoded) ∙ h in
      let (r, (s1, c1), e1, h1) =
        bind-eq-ok
          (Client.process_update O W k
            (record { update_requested = Boolean.false; mls_commit = n }))
          _ (record s { internal_state = running }, c) h0 in
      let (is_client, confirms, after) =
        process_update-ClientIn k n (sent carries.message) (record s { internal_state = running })
          s1 c c1 r.0 r.1 id x y private carries.commits.has_commit held e1 in
      let (u, (s2, c2), e2, h2) = bind-eq-ok (Client.save O W Q) _ (s1, c1) h1 in
      let kept = store_update-storage O W Q R s1 c1 c2 u (λ i. ((e2 i).0, (e2 i).1.1)) in
      let is_response : ◌≡◌ {A = Client.Response O W} (some (client r.0), some r.1) response =
        ok-injective (λ i. (h2 i).0) in
      let is_t : s1 ≡ t = (λ i. (e2 i).1.0) ∙ (λ i. (h2 i).1.0) in
      (
        r.1,
        sym is_response ∙ ap (λ v. (some (client v), some r.1)) is_client,
        confirms,
        record {
          has_group = ap (λ v. v.mls_session.group_id) (sym is_t) ∙ after.has_group;
          has_state = ap (λ v. v.internal_state) (sym is_t) ∙ after.has_state;
          in_epoch =
              subst (λ v. R.stored v id ≡ some (y, none)) (sym kept ∙ (λ i. (h2 i).1.1.storage))
                after.in_epoch;
        },
      )

  -- A client in x that is Running and gets a commit to y is in y, and waits with the server's secret of y;
  -- it confirms y to the server.
  pub receives_update-ClientIn :
      (B : ReadsBack W R) (k : O.Signer) (s t : Client O W) (c d : Connection O) (bytes : Octets)
      (response : Client.Response O W) (id : O.GroupId) (x y : Epoch)
      → ClientIn O W R id x running s c
      → Carries O W R id x y bytes
      → Client.receive_signaling_message O W Q k bytes (s, c) ≡ (ok response, (t, d))
      → (out : Octets) × (state : ClientInternalState O) × (response
          ≡ (some (client (secrets_of O W R y).client_secret), some out))
        × Confirms O W R y out
        × Keeps O W Q state (secrets_of O W R y).server_secret
        × ClientIn O W R id y state t d
  receives_update-ClientIn B k s t c d bytes response id x y inside carries h =
      let (out, is_response, confirms, after) =
        running_receives-ClientIn B k s t c d bytes response id x y inside.in_epoch carries (
          subst
            (λ v.
              Client.receive_signaling_message O W Q k bytes (record s { internal_state = v }, c)
              ≡ (ok response, (t, d)))
            inside.has_state h) in
      (
        out,
        waiting_for_epoch_key_update_return (secrets_of O W R y).server_secret,
        is_response,
        confirms,
        server_update,
        after,
      )
