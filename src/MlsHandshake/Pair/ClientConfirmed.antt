-- ===== src/MlsHandshake/Pair/ClientConfirmed.antt =====
-- What a confirmation of the server does to the epoch of the client, in src/mls_handshake/state_machine/client.rs.
use mls_tls_protocol.Base.{◌≡◌, sym, subst, ap, refl, ◌∙◌, none, some, ok, arith, bind-eq-ok}
use mls_tls_protocol.Base.Bytes.{Octets}
use mls_tls_protocol.TlsAead.Secrets.{ServerSecret, server}
use mls_tls_protocol.MlsHandshake.OpenMls.{OpenMls, Connection}
use mls_tls_protocol.MlsHandshake.Messages.{Wire, EpochKeyUpdate, epoch_key_update}
use mls_tls_protocol.MlsHandshake.Method.{check_epoch_key_update}
use mls_tls_protocol.MlsHandshake.Session
use mls_tls_protocol.MlsHandshake.Session.{MlsSession}
use mls_tls_protocol.MlsHandshake.Group.{IsMls, ReadsBack}
use mls_tls_protocol.MlsHandshake.Pair.{ClientIn, Confirms}
use mls_tls_protocol.MlsHandshake.Pair.ClientSteps.{store_update-storage}
use mls_tls_protocol.MlsHandshake.Client.State.{
  ClientInternalState, running, waiting_for_connection_confirmation, waiting_for_epoch_key_update,
  waiting_for_epoch_key_update_return,
}
use mls_tls_protocol.MlsHandshake.Client
use mls_tls_protocol.MlsHandshake.Client.{Client}
use mls_tls_protocol.MlsHandshake.Client.Confirm.{
  Keeps, own_update, server_update, epoch_key_update-secret, confirmations-end_running,
}
use mls_tls_protocol.MlsHandshake.Persistence.{Sql}
use mls_tls_protocol.MlsHandshake.Pair.ClientReceives.{received-dispatch}

module _ (O : OpenMls) (W : Wire O) (Q : Sql O W) (R : IsMls O) where
  open R use {Epoch, number, commit_of, sent}

  confirming-storage :
      (state : ClientInternalState O) (message : EpochKeyUpdate) (s t : Client O W)
      (c d : Connection O) (response : Client.Response O W)
      → Client.receive_epoch_key_update O W message state (s, c) ≡ (ok response, (t, d))
      → d.storage ≡ c.storage
  unfolding Client.receive_epoch_key_update check_epoch_key_update Session.process_epoch_key_update
      Session.load_group
  confirming-storage running message s t c d response h = ground arith
  confirming-storage (waiting_for_connection_confirmation _) message s t c d response h =
      ground arith
  confirming-storage (waiting_for_epoch_key_update _) message s t c d response h = ground arith
  confirming-storage (waiting_for_epoch_key_update_return _) message s t c d response h =
      ground arith

  -- Confirmations never change the storage.
  dispatch-storage :
      (k : O.Signer) (message : EpochKeyUpdate) (s t : Client O W) (c d : Connection O)
      (response : Client.Response O W)
      → Client.dispatch O W Q k (epoch_key_update message) (s, c) ≡ (ok response, (t, d))
      → d.storage ≡ c.storage
  unfolding Client.dispatch
  dispatch-storage k message s t c d response h =
      let s0 = record s { internal_state = running } in
      let (r, (s1, c1), e1, h1) =
        bind-eq-ok (Client.receive_epoch_key_update O W message s.internal_state) _ (s0, c) h in
      let (u, (s2, c2), e2, h2) = bind-eq-ok (Client.save O W Q) _ (s1, c1) h1 in
      sym (λ i. (h2 i).1.1.storage)
      ∙ store_update-storage O W Q R s1 c1 c2 u (λ i. ((e2 i).0, (e2 i).1.1))
      ∙ confirming-storage s.internal_state message s0 s1 c c1 r e1

  Keeps-unique :
      (state : ClientInternalState O) (a b : ServerSecret)
      → Keeps O W Q state a
      → Keeps O W Q state b
      → a ≡ b
  Keeps-unique state a b own_update own_update = refl
  Keeps-unique state a b server_update server_update = refl

  -- A client that waits and gets an `EpochKeyUpdate` has the server's secret that it kept, and is Running.
  pub receives_confirmation-ClientIn :
      (B : ReadsBack W R) (k : O.Signer) (s t : Client O W) (c d : Connection O) (bytes : Octets)
      (response : Client.Response O W) (id : O.GroupId) (x y : Epoch)
      (state : ClientInternalState O) (kept : ServerSecret)
      → Keeps O W Q state kept
      → ClientIn O W R id x state s c
      → Confirms O W R y bytes
      → Client.receive_signaling_message O W Q k bytes (s, c) ≡ (ok response, (t, d))
      → (response ≡ (some (server kept), none)) × ClientIn O W R id x running t d
  receives_confirmation-ClientIn B k s t c d bytes response id x y state kept keeps inside confirms
        h =
      let message : EpochKeyUpdate = record { epoch = number y } in
      let decoded = B.epoch_key_update_read message bytes confirms.is_confirmation in
      let h0 = sym (received-dispatch O W Q R k s c bytes _ decoded) ∙ h in
      let (secret, found, is_response, _) =
        epoch_key_update-secret O W Q k message s c response (λ i. (h0 i).0) in
      let same =
        Keeps-unique state secret kept (subst (λ v. Keeps O W Q v secret) inside.has_state found)
          keeps in
      let is_t = sym (confirmations-end_running O W Q k message s c).0 ∙ (λ i. (h0 i).1.0) in
      (
        is_response ∙ ap (λ v. (some (server v), none)) same,
        record {
          has_group = ap (λ v. v.mls_session.group_id) (sym is_t) ∙ inside.has_group;
          has_state = ap (λ v. v.internal_state) (sym is_t);
          in_epoch =
              subst (λ v. R.stored v id ≡ some (x, none))
                (sym (dispatch-storage k message s t c d response h0)) inside.in_epoch;
        },
      )
