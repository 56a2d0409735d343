-- ===== src/EncryptionProvider/SendBytes.antt =====
-- src/encryption_provider/mod.rs: `send_bytes` of an established connection, and the update of the keys
-- that it makes when one is due.
use mls_tls_protocol.Base.{
  Bool, false, Option, Result, ok, err, panic, pure, throw, lift, ◌>>◌, length,
}
use mls_tls_protocol.Base.Bytes.{Octets, as_u64}
use mls_tls_protocol.TlsAead.Secrets.{SecretUpdate}
use mls_tls_protocol.UpdatePolicy
use mls_tls_protocol.MlsHandshake.Messages.{waiting_for_response}
use mls_tls_protocol.MlsHandshake.Driver
use mls_tls_protocol.MlsHandshake.Driver.{MlsHandshake, MlsHandshakeError}
use mls_tls_protocol.EncryptionProvider.Parameters.{
  Environment, application, signaling, TransportError,
}
use mls_tls_protocol.EncryptionProvider.{handshake_error}
use mls_tls_protocol.EncryptionProvider.Established.{
  Method, send, update_cipher, apply_update, with_handshake,
}

module _ (V : Environment) (PreHandshakeError : Type 0) where
  open V use {O, W, Q, K}

  abbrev pub set_policy :
      (UpdatePolicy.UpdatePolicy K → UpdatePolicy.UpdatePolicy K)
      → Method V PreHandshakeError (Unit {0})
  set_policy f p = (ok tt, record p { update_policy = f p.update_policy })

  -- The `match` of `send_bytes` on the result of `update_handshake`.
  unfoldable pub after_update :
      Bool
      → K.DateTime
      → Result (MlsHandshakeError O W (TransportError V)) (Option SecretUpdate × Octets)
      → Method V PreHandshakeError (Unit {0})
  unfolding send update_cipher UpdatePolicy.reset
  after_update is_server now (ok (secret_update, message)) = do
    send V PreHandshakeError (signaling message)
    apply_update V PreHandshakeError is_server secret_update
    set_policy (UpdatePolicy.reset K now)
  after_update is_server now (err (Driver.handshake_error waiting_for_response)) = pure tt
  after_update is_server now (err e) = throw (handshake_error e)
  after_update is_server now panic = lift panic

  unfoldable pub update_connection : Bool → K.DateTime → Method V PreHandshakeError (Unit {0})
  unfolding after_update Driver.update_handshake
  update_connection is_server now p =
      let r = Driver.update_handshake O W Q (TransportError V) p.state.handshake in
      after_update is_server now r.0 (with_handshake V PreHandshakeError p r.1)

  abbrev pub when_due : Bool → K.DateTime → Result ⊥ Bool → Method V PreHandshakeError (Unit {0})
  when_due is_server now (ok Bool.true) = update_connection is_server now
  when_due is_server now (ok false) = pure tt
  when_due is_server now (err e) = absurd e
  when_due is_server now panic = lift panic

  -- The application data, counted whatever comes of sending it.
  unfoldable pub send_application : Octets → Method V PreHandshakeError (Unit {0})
  unfolding send UpdatePolicy.increment_bytes_transferred
  send_application bytes p =
      let r = send V PreHandshakeError (application bytes) p in
      (
        r.0,
        record r.1 {
          update_policy =
              UpdatePolicy.increment_bytes_transferred K (as_u64 (length bytes)) r.1.update_policy;
        },
      )

  unfoldable pub send_bytes : Bool → Octets → K.DateTime → Method V PreHandshakeError (Unit {0})
  unfolding update_connection send_application UpdatePolicy.update_is_due
  send_bytes is_server bytes now p =
      (when_due is_server now (UpdatePolicy.update_is_due K p.update_policy now)
          >> send_application bytes)
        p
