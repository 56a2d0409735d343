-- ===== src/EncryptionProvider/Established/Sending.antt =====
-- `send_bytes`: what it leaves of the update policy, when it does not update, and under which keys its
-- messages go out.
use mls_tls_protocol.Base.{
  ◌≡◌, refl, sym, ap, ◌⊎◌, inl, inr, Bool, true, false, Option, none, some, List, Result, ok, err,
  panic, Result-Cases, ok_case, err_case, panic_case, length, arith, bind-eq-ok, ◌>>◌,
}
use mls_tls_protocol.Base.Bytes.{Octets, as_u64}
use mls_tls_protocol.TlsAead.Secrets.{SecretUpdate}
use mls_tls_protocol.TlsAead.Codec.{encrypt}
use mls_tls_protocol.TlsAead.StreamSink
use mls_tls_protocol.UpdatePolicy
use mls_tls_protocol.MlsHandshake.OpenMls.{Connection}
use mls_tls_protocol.MlsHandshake.Messages.{waiting_for_response}
use mls_tls_protocol.MlsHandshake.Client
use mls_tls_protocol.MlsHandshake.Server
use mls_tls_protocol.MlsHandshake.Driver
use mls_tls_protocol.MlsHandshake.Driver.{
  MlsHandshakeState, handshake_error, MlsHandshakeError, MlsHandshake, no_state, client_state,
  server_state,
}
use mls_tls_protocol.EncryptionProvider.Parameters.{
  Environment, TransportError, InnerPlaintext, application, signaling,
}
use mls_tls_protocol.EncryptionProvider.Channels
use mls_tls_protocol.EncryptionProvider.Established.{
  Provider, send, start_send, poll_ready, poll_flush, update_cipher, with_handshake, await,
}
use mls_tls_protocol.EncryptionProvider.SendBytes.{
  update_connection, after_update, send_application, send_bytes, when_due,
}

module _ (V : Environment) (PreHandshakeError : Type 0) where
  open V use {C, O, W, Q, K}

  abbrev P : Type 0
  P = Provider V PreHandshakeError

  -- A handshake that has sent an update and has no answer yet.
  abbrev pub waits : MlsHandshake O → Bool
  waits h = elim h.state [
    | no_state ↦ false
    | client_state s ↦ Client.is_waiting_for_response O W s
    | server_state s ↦ Server.is_waiting_for_response O W s
  ]

  refuses :
      (signer : O.Signer) (connection : Connection O) (x : MlsHandshakeState O)
      → let h : MlsHandshake O = record {
        leaf_signer = signer;
        connection = connection;
        state = x;
      } in
        waits h ≡ true
        → Driver.update_handshake O W Q (TransportError V) h
          ≡ (err (handshake_error waiting_for_response), h)
  unfolding Driver.update_handshake Client.update Server.update
  refuses signer connection no_state w = cc
  refuses signer connection (client_state s) w = ground arith
  refuses signer connection (server_state s) w = ground arith

  -- While the handshake waits, or no update is due, `send_bytes` sends the application data and no more.
  pub send_bytes-send_application :
      (is_server : Bool) (bytes : Octets) (now : K.DateTime) (p : P)
      → (UpdatePolicy.update_is_due K p.update_policy now ≡ ok false)
        ⊎ ((UpdatePolicy.update_is_due K p.update_policy now ≡ ok true)
            × (waits p.state.handshake ≡ true))
      → send_bytes V PreHandshakeError is_server bytes now p
        ≡ send_application V PreHandshakeError bytes p
  unfolding send_bytes update_connection after_update
  send_bytes-send_application is_server bytes now p (inl e) = ground arith
  send_bytes-send_application is_server bytes now p (inr (e, w)) =
      let h = p.state.handshake in
      let r = refuses h.leaf_signer h.connection h.state w in ground arith

  send-policy :
      (item : InnerPlaintext) (p : P)
      → (send V PreHandshakeError item p).1.update_policy ≡ p.update_policy
  unfolding send
  send-policy item p = ground arith

  -- Application data is counted, whatever comes of sending it, and its outcome does not depend on the
  -- policy.
  send_application-policy :
      (bytes : Octets) (p : P)
      → (send_application V PreHandshakeError bytes p).1.update_policy
        ≡ UpdatePolicy.increment_bytes_transferred K (as_u64 (length bytes)) p.update_policy
  unfolding send_application
  send_application-policy bytes p = rw (send-policy (application bytes) p) refl

  abbrev update_of :
      P → Result (MlsHandshakeError O W (TransportError V)) (Option SecretUpdate × Octets)
  update_of p = (Driver.update_handshake O W Q (TransportError V) p.state.handshake).0

  -- The update was tried and answered by `WaitingForResponse`.
  abbrev Refused : P → Type 0
  Refused p = update_of p ≡ err (handshake_error waiting_for_response)

  update_cipher-policy :
      (is_server : Bool) (u : SecretUpdate) (p : P)
      → (update_cipher V PreHandshakeError is_server u p).1.update_policy ≡ p.update_policy
  unfolding update_cipher
  update_cipher-policy is_server u p = refl

  after_update-policy :
      (is_server : Bool) (now : K.DateTime)
      (r : Result (MlsHandshakeError O W (TransportError V)) (Option SecretUpdate × Octets)) (p : P)
      → (after_update V PreHandshakeError is_server now r p).0 ≡ ok tt
      → ((r ≡ err (handshake_error waiting_for_response))
          × ((after_update V PreHandshakeError is_server now r p).1.update_policy
              ≡ p.update_policy))
        ⊎ ((u : Option SecretUpdate × Octets) × (r ≡ ok u)
            × ((after_update V PreHandshakeError is_server now r p).1.update_policy
                ≡ UpdatePolicy.reset K now p.update_policy))
  unfolding after_update
  after_update-policy is_server now (ok (none, m)) p h =
      let same = send-policy (signaling m) p in inr ((none, m), refl, ground arith)
  after_update-policy is_server now (ok (some u, m)) p h =
      let q = (send V PreHandshakeError (signaling m) p).1 in
      let same = send-policy (signaling m) p in
      let kept = update_cipher-policy is_server u q in inr ((some u, m), refl, ground arith)
  after_update-policy is_server now (err (handshake_error waiting_for_response)) p h =
      inl (refl, refl)
  after_update-policy is_server now (err e) p h = absurd (ground arith)
  after_update-policy is_server now panic p h = cc

  -- The policy `o` after bytes were sent, by whether `p` updated its keys before.
  abbrev pub Counted : Octets → K.DateTime → P → UpdatePolicy.UpdatePolicy K → Type 0
  Counted bytes now p o =
      let due = UpdatePolicy.update_is_due K p.update_policy now in
      let counted : UpdatePolicy.UpdatePolicy K → UpdatePolicy.UpdatePolicy K =
        UpdatePolicy.increment_bytes_transferred K (as_u64 (length bytes)) in
      (((due ≡ ok false) ⊎ ((due ≡ ok true) × Refused p)) × (o ≡ counted p.update_policy))
      ⊎ ((due ≡ ok true)
          × (u : Option SecretUpdate × Octets) × (update_of p ≡ ok u)
          × (o ≡ counted (UpdatePolicy.reset K now p.update_policy)))

  -- What `send_bytes` leaves of the policy when it succeeds. Either no update was made, since none was due
  -- or the handshake answered that it waits, and the bytes are counted; or one was due and made, and
  -- the policy was reset before they were counted.
  pub send_bytes-policy :
      (is_server : Bool) (bytes : Octets) (now : K.DateTime) (p q : P)
      → send_bytes V PreHandshakeError is_server bytes now p ≡ (ok tt, q)
      → Counted bytes now p q.update_policy
  unfolding send_bytes update_connection
  send_bytes-policy is_server bytes now p q h =
      let due = UpdatePolicy.update_is_due K p.update_policy now in
      let (_, p', before, sent) =
        bind-eq-ok (when_due V PreHandshakeError is_server now due)
          (λ _. send_application V PreHandshakeError bytes) p h in
      let counts = send_application-policy bytes p' in
      elim (Result-Cases due) [
        | ok_case false e ↦ inl ((inl e, ground arith))
        | ok_case true e ↦
            let answer = Driver.update_handshake O W Q (TransportError V) p.state.handshake in
            elim (after_update-policy is_server now answer.0
              (with_handshake V PreHandshakeError p answer.1) (ground arith)) [
                | inl (refused, kept) ↦ inl (inr (e, refused), ground arith)
                | inr (u, made, reset) ↦ inr (e, u, made, ground arith)
              ]
        | err_case x e ↦ absurd x
        | panic_case e ↦ absurd (ground arith)
      ]

  start_send-encrypt :
      (item : InnerPlaintext) (p q : P)
      → start_send V PreHandshakeError item p ≡ (ok tt, q)
      → (bytes : Octets) × (V.serialize item ≡ ok bytes)
        × (encrypt C bytes (p.state.channels.cipher, p.state.channels.writer.buffer)
            ≡ (ok tt, (q.state.channels.cipher, q.state.channels.writer.buffer)))
  unfolding start_send Channels.start_send StreamSink.start_send
  start_send-encrypt item p q h = elim (Result-Cases (V.serialize item)) [
    | ok_case bytes e ↦
        elim (Result-Cases
          (encrypt C bytes (p.state.channels.cipher, p.state.channels.writer.buffer)).0) [
            | ok_case _ f ↦ (bytes, e, ground arith)
            | err_case x f ↦ absurd (ground arith)
            | panic_case f ↦ absurd (ground arith)
          ]
    | err_case x e ↦ absurd (ground arith)
    | panic_case e ↦ absurd (ground arith)
  ]

  -- A message goes out under the keys of the codec it meets: the whole of it is encrypted, in as many
  -- records as it takes, and the codec is then the one that the encryption leaves.
  pub send-encrypt :
      (item : InnerPlaintext) (p q : P)
      → send V PreHandshakeError item p ≡ (ok tt, q)
      → (bytes : Octets) × (V.serialize item ≡ ok bytes)
        × (before after : List Octets) × (encrypt C bytes (p.state.channels.cipher, before)
            ≡ (ok tt, (q.state.channels.cipher, after)))
  unfolding send poll_ready poll_flush
  send-encrypt item p q h =
      let (_, r, front, flushed) =
        bind-eq-ok
          (await V PreHandshakeError (poll_ready V PreHandshakeError)
            >> start_send V PreHandshakeError item)
          (λ _. await V PreHandshakeError (poll_flush V PreHandshakeError)) p h in
      let (_, s, made_ready, started) =
        bind-eq-ok (await V PreHandshakeError (poll_ready V PreHandshakeError))
          (λ _. start_send V PreHandshakeError item) p front in
      let (bytes, e, sealed) = start_send-encrypt item s r started in
      let same : s.state.channels.cipher ≡ p.state.channels.cipher =
        ap (λ x. x.1.state.channels.cipher) (sym made_ready) in
      let last : r.state.channels.cipher ≡ q.state.channels.cipher =
        ap (λ x. x.1.state.channels.cipher) flushed in
      (bytes, e, s.state.channels.writer.buffer, r.state.channels.writer.buffer, cc)
