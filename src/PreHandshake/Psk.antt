-- ===== src/PreHandshake/Psk.antt =====
-- src/pre_handshake/psk.rs: a pre-shared key is the secret, and nothing is sent.
use mls_tls_protocol.Base.{none, Result, ok}
use mls_tls_protocol.Base.Bytes.{Octets}
use mls_tls_protocol.PreHandshake.{HandshakePayload}

pub record Psk : Type 0 where
  pub key : Octets

unfoldable pub client_handshake : Psk → Result ⊥ HandshakePayload
client_handshake p = ok (record { shared_secret = p.key; session_id = none })

unfoldable pub server_handshake : Psk → Result ⊥ HandshakePayload
server_handshake p = ok (record { shared_secret = p.key; session_id = none })
