-- ===== src/EncryptionProvider/Established/Order.antt =====
-- The order of a message and an update of the keys, in src/encryption_provider/mod.rs.
use mls_tls_protocol.Base.{
  ◌≡◌, sym, ap, Bool, Option, none, some, List, ok, Result-Cases, ok_case, err_case, panic_case,
  arith, subst, continue, map_err, bind-eq-ok, ◌>>◌,
}
use mls_tls_protocol.Base.Bytes.{Octets}
use mls_tls_protocol.TlsAead.Secrets.{SecretUpdate}
use mls_tls_protocol.TlsAead.Codec.{TlsAeadCodec, encrypt, update_traffic_secrets}
use mls_tls_protocol.UpdatePolicy
use mls_tls_protocol.MlsHandshake.Driver
use mls_tls_protocol.EncryptionProvider.Parameters.{Environment, TransportError, signaling}
use mls_tls_protocol.EncryptionProvider.Channels.Updates.{update_both_once}
use mls_tls_protocol.EncryptionProvider.{handshake_error}
use mls_tls_protocol.EncryptionProvider.Established.{
  Provider, send, update_cipher, process_signaling, apply_update, send_response, with_handshake,
}
use mls_tls_protocol.EncryptionProvider.SendBytes.{update_connection, after_update, set_policy}
use mls_tls_protocol.EncryptionProvider.Established.Sending.{send-encrypt}

module _ (V : Environment) (PreHandshakeError : Type 0) (is_server : Bool) where
  open V use {C, O, W, Q, K}

  abbrev P : Type 0
  P = Provider V PreHandshakeError

  abbrev cipher_of : P → TlsAeadCodec C
  cipher_of p = p.state.channels.cipher

  -- From one codec to the next by an update, if there is one.
  abbrev pub Rekeys : Option SecretUpdate → TlsAeadCodec C → TlsAeadCodec C → Type 0
  Rekeys none c d = c ≡ d
  Rekeys (some u) c d = update_traffic_secrets C u is_server c ≡ (ok tt, d)

  -- All of a signaling message is encrypted under the old keys, and then the keys change.
  abbrev pub SentThenRekeys :
      Octets → Option SecretUpdate → TlsAeadCodec C → TlsAeadCodec C → Type 0
  SentThenRekeys message u c d =
      (bytes : Octets) × (V.serialize (signaling message) ≡ ok bytes)
      × (before after : List Octets) × (between : TlsAeadCodec C) × (encrypt C bytes (c, before)
          ≡ (ok tt, (between, after)))
      × Rekeys u between d

  -- The same of an answer, if there is one.
  abbrev pub Answers :
      Option Octets → Option SecretUpdate → TlsAeadCodec C → TlsAeadCodec C → Type 0
  Answers none u c d = Rekeys u c d
  Answers (some message) u c d = SentThenRekeys message u c d

  apply_update-Rekeys :
      (u : Option SecretUpdate) (p q : P)
      → apply_update V PreHandshakeError is_server u p ≡ (ok tt, q)
      → Rekeys u (cipher_of p) (cipher_of q)
  unfolding update_cipher
  apply_update-Rekeys none p q h = ap (λ r. cipher_of r.1) h
  apply_update-Rekeys (some u) p q h =
      let once = update_both_once V u is_server p.state.channels in
      elim (Result-Cases (update_traffic_secrets C u is_server (cipher_of p)).0) [
        | ok_case _ e ↦ ground arith
        | err_case x e ↦ absurd (ground arith)
        | panic_case e ↦ absurd (ground arith)
      ]

  send-then :
      (message : Octets) (u : Option SecretUpdate) (p q r : P)
      → send V PreHandshakeError (signaling message) p ≡ (ok tt, q)
      → apply_update V PreHandshakeError is_server u q ≡ (ok tt, r)
      → SentThenRekeys message u (cipher_of p) (cipher_of r)
  send-then message u p q r sent applied =
      let (bytes, e, before, after, sealed) =
        send-encrypt V PreHandshakeError (signaling message) p q sent in
      (bytes, e, before, after, cipher_of q, sealed, apply_update-Rekeys u q r applied)

  respond_then :
      (response : Option Octets) (u : Option SecretUpdate) (p q r : P)
      → send_response V PreHandshakeError response p ≡ (ok tt, q)
      → apply_update V PreHandshakeError is_server u q ≡ (ok tt, r)
      → Answers response u (cipher_of p) (cipher_of r)
  respond_then none u p q r sent applied =
      subst (λ c. Rekeys u c (cipher_of r)) (sym (ap (λ x. cipher_of x.1) sent))
        (apply_update-Rekeys u q r applied)
  respond_then (some message) u p q r sent applied = send-then message u p q r sent applied

  -- When an established connection updates its keys, all of its update message is encrypted under the old
  -- ones, and then the codec takes the secrets of the update, if this side has them yet.
  pub update_connection-order :
      (now : K.DateTime) (p q : P) (u : Option SecretUpdate) (message : Octets)
      → (Driver.update_handshake O W Q (TransportError V) p.state.handshake).0 ≡ ok (u, message)
      → update_connection V PreHandshakeError is_server now p ≡ (ok tt, q)
      → SentThenRekeys message u (cipher_of p) (cipher_of q)
  unfolding update_connection after_update
  update_connection-order now p q u message e h =
      let answer = Driver.update_handshake O W Q (TransportError V) p.state.handshake in
      let p' = with_handshake V PreHandshakeError p answer.1 in
      let h' : after_update V PreHandshakeError is_server now (ok (u, message)) p' ≡ (ok tt, q) =
        subst (λ r. after_update V PreHandshakeError is_server now r p' ≡ (ok tt, q)) e h in
      let (_, r, sent, rest) =
        bind-eq-ok (send V PreHandshakeError (signaling message))
          (λ _.
            apply_update V PreHandshakeError is_server u
            >> set_policy V PreHandshakeError (UpdatePolicy.reset K now))
          p' h' in
      let (_, s, applied, kept) =
        bind-eq-ok (apply_update V PreHandshakeError is_server u)
          (λ _. set_policy V PreHandshakeError (UpdatePolicy.reset K now)) r rest in
      subst (SentThenRekeys message u (cipher_of p)) (ap (λ x. cipher_of x.1) kept)
        (send-then message u p' r s sent applied)

  -- When it is asked for an update or told of one, all of its answer is encrypted under the old keys, and
  -- then the codec takes the secrets; without an answer it takes them at once.
  pub process_signaling-order :
      (received : Octets) (p q : P) (u : Option SecretUpdate) (response : Option Octets)
      → (Driver.process_signaling_message O W Q (TransportError V) received p.state.handshake).0
        ≡ ok (u, response)
      → process_signaling V PreHandshakeError is_server received p ≡ (ok tt, q)
      → Answers response u (cipher_of p) (cipher_of q)
  unfolding process_signaling
  process_signaling-order received p q u response e h =
      let answer =
        Driver.process_signaling_message O W Q (TransportError V) received p.state.handshake in
      let p' = with_handshake V PreHandshakeError p answer.1 in
      let h' : (send_response V PreHandshakeError response
              >> apply_update V PreHandshakeError is_server u)
            p'
          ≡ (ok tt, q) =
        subst
          (λ x.
            continue (map_err handshake_error x) p' (λ (v, r).
              send_response V PreHandshakeError r >> apply_update V PreHandshakeError is_server v)
            ≡ (ok tt, q))
          e h in
      let (_, s, sent, applied) =
        bind-eq-ok (send_response V PreHandshakeError response)
          (λ _. apply_update V PreHandshakeError is_server u) p' h' in
      respond_then response u p' s q sent applied
