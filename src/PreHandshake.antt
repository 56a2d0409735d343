-- ===== src/PreHandshake.antt =====
-- src/pre_handshake: the secret that a connection may start from before the MLS handshake, and the
-- traffic secrets that come of it.
pub mod Psk
pub mod X25519
pub mod Agreement
use mls_tls_protocol.Base.{ℕ, List, [], Option, Result, ok, and_then}
use mls_tls_protocol.Base.Bytes.{Octets, ascii}
use mls_tls_protocol.Crypto.{Crypto}
use mls_tls_protocol.TlsAead.Secrets.{TrafficSecrets}

-- The session id is a `Uuid`, sixteen bytes.
pub record HandshakePayload : Type 0 where
  pub shared_secret : Octets
  pub session_id : Option Octets

module _ (C : Crypto) where
  open C use {CryptoError, sha2_512, hash_size, hkdf_extract, hkdf_expand}

  unfoldable pub derive_traffic_secrets : Octets → Result CryptoError TrafficSecrets
  derive_traffic_secrets base_secret =
      and_then (hkdf_extract sha2_512 [] base_secret) λ intermediate.
        and_then
          (hkdf_expand sha2_512 intermediate (ascii "X25519 MLS-TLS Pre-Handshake Client Secret")
            (hash_size sha2_512))
          λ client_secret.
            and_then
              (hkdf_expand sha2_512 intermediate
                (ascii "X25519 MLS-TLS Pre-Handshake Server Secret") (hash_size sha2_512))
              λ server_secret. ok (record {
                client_secret = record { octets = client_secret };
                server_secret = record { octets = server_secret };
              })
