-- ===== src/MlsHandshake/Resumption/Sends.antt =====
-- What a client sends to resume, in src/mls_handshake/state_machine/client.rs.
use mls_tls_protocol.Base.{
  ◌≡◌, sym, subst, ap, ◌∙◌, none, some, ok, bind-eq-ok, ok-injective, map_err-eq-ok, lift,
}
use mls_tls_protocol.Base.Bytes.{Octets}
use mls_tls_protocol.TlsAead.Secrets.{TrafficSecrets}
use mls_tls_protocol.MlsHandshake.OpenMls.{OpenMls, Connection}
use mls_tls_protocol.MlsHandshake.Messages.{
  Wire, resumption_failed, from_payload, resumption, codec_error,
}
use mls_tls_protocol.MlsHandshake.Method.{coded}
use mls_tls_protocol.MlsHandshake.Group.{IsMls, Commits}
use mls_tls_protocol.MlsHandshake.Group.Operations.{secrets_of}
use mls_tls_protocol.MlsHandshake.Pair.ClientSteps.{commit_update-Carries, merge_session-secrets_of}
use mls_tls_protocol.MlsHandshake.Resumption.{
  Merged, Resumes, fresh, fresh_return, again, again_confirmation,
}
use mls_tls_protocol.MlsHandshake.Client.State.{PendingUpdate, ClientInternalState, running}
use mls_tls_protocol.MlsHandshake.Client
use mls_tls_protocol.MlsHandshake.Client.{Client}
use mls_tls_protocol.MlsHandshake.Persistence.{Sql}

module _ (O : OpenMls) (W : Wire O) (Q : Sql O W) (R : IsMls O) (id : O.GroupId) where
  open R use {Epoch, stored, commit_of, sent}

  fresh_update-Merged :
      (k : O.Signer) (s t : Client O W) (c d : Connection O) (p : PendingUpdate O) (x : Epoch)
      → s.mls_session.group_id ≡ id
      → stored c.storage id ≡ some (x, none)
      → Client.fresh_update O W k (s, c) ≡ (ok p, (t, d))
      → Merged O W R id x p d.storage
  unfolding Client.fresh_update
  fresh_update-Merged k s t c d p x named held h =
      let (m, (s1, c1), e1, h1) =
        bind-eq-ok (Client.failed O W (Client.commit_update O W k)) _ (s, c) h in
      let made = map_err-eq-ok resumption_failed _ (λ i. (e1 i).0) in
      let (y, commit, now, same) =
        commit_update-Carries O W Q R k s s1 c c1 m id x named held (λ i. (made i, (e1 i).1)) in
      let (secrets, (s2, c2), e2, h2) = bind-eq-ok (Client.merge_session O W) _ (s1, c1) h1 in
      let (is_secret, _, left) =
        merge_session-secrets_of O W Q R s1 s2 c1 c2 secrets id x y
          (ap (λ v. v.mls_session.group_id) same ∙ named) now e2 in
      let is_p : ◌≡◌ {A = PendingUpdate O} (record { mls_message = m; traffic_secrets = secrets })
          p =
        ok-injective (λ i. (h2 i).0) in
      record {
        target = y;
        commits = subst (λ v. Commits R v.mls_message id x y) is_p commit;
        has_secrets = subst (λ v. v.traffic_secrets ≡ secrets_of O W R y) is_p is_secret;
        in_target = subst (λ v. stored v id ≡ some (y, none)) (λ i. (h2 i).1.1.storage) left;
      }

  resumption_update-Merged :
      (k : O.Signer) (state : ClientInternalState O) (s t : Client O W) (c d : Connection O)
      (p : PendingUpdate O) (x : Epoch)
      → s.mls_session.group_id ≡ id
      → Resumes O W R id x state c.storage
      → Client.resumption_update O W k state (s, c) ≡ (ok p, (t, d))
      → Merged O W R id x p d.storage
  unfolding Client.resumption_update
  resumption_update-Merged k state s t c d p x named (fresh held) h =
      fresh_update-Merged k s t c d p x named held h
  resumption_update-Merged k state s t c d p x named (fresh_return held) h =
      fresh_update-Merged k s t c d p x named held h
  resumption_update-Merged k state s t c d p x named (again {p = old} merged) h =
      subst (λ v. Merged O W R id x v d.storage) (ok-injective (λ i. (h i).0))
        (subst (λ v. Merged O W R id x old v) (λ i. (h i).1.1.storage) merged)
  resumption_update-Merged k state s t c d p x named (again_confirmation {p = old} merged) h =
      subst (λ v. Merged O W R id x v d.storage) (ok-injective (λ i. (h i).0))
        (subst (λ v. Merged O W R id x old v) (λ i. (h i).1.1.storage) merged)

  -- A client that resumes sends an update that it made and merged, and has its secrets.
  pub resume-Merged :
      (k : O.Signer) (s t : Client O W) (c d : Connection O) (secrets : TrafficSecrets)
      (bytes : Octets) (x : Epoch)
      → s.mls_session.group_id ≡ id
      → Resumes O W R id x s.internal_state c.storage
      → Client.resume O W k (s, c) ≡ (ok (secrets, bytes), (t, d))
      → (p : PendingUpdate O) × Merged O W R id x p d.storage
        × (secrets ≡ p.traffic_secrets)
        × (W.serialize_handshake (from_payload (resumption (record { commit = p.mls_message })))
            ≡ ok bytes)
  unfolding Client.resume
  resume-Merged k s t c d secrets bytes x named resumes h =
      let s0 = record s { internal_state = running } in
      let (p, (s1, c1), e1, h1) =
        bind-eq-ok (Client.resumption_update O W k s.internal_state) _ (s0, c) h in
      let merged = resumption_update-Merged k s.internal_state s0 s1 c c1 p x named resumes e1 in
      let (b, (s2, c2), e2, h2) =
        bind-eq-ok
          (lift (
            coded O W (
              W.serialize_handshake
                (from_payload (resumption (record { commit = p.mls_message }))))))
          _ (s1, c1) h1 in
      let answer : (p.traffic_secrets, b) ≡ (secrets, bytes) = ok-injective (λ i. (h2 i).0) in
      (
        p,
        subst (λ v. Merged O W R id x p v) ((λ i. (e2 i).1.1.storage) ∙ (λ i. (h2 i).1.1.storage))
            merged,
        sym (λ i. (answer i).0),
        map_err-eq-ok codec_error _ (λ i. (e2 i).0) ∙ (λ i. ok (answer i).1),
      )
