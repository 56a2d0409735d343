-- ===== src/TlsAead/Secrets.antt =====
-- The secrets of src/tls_aead/mod.rs, from which both directions of a connection get their keys.
use mls_tls_protocol.Base.Bytes.{Octets}

pub record ServerSecret : Type 0 where
  pub octets : Octets

pub record ClientSecret : Type 0 where
  pub octets : Octets

pub record TrafficSecrets : Type 0 where
  pub client_secret : ClientSecret
  pub server_secret : ServerSecret

pub data SecretUpdate : Type 0 where
  client : ClientSecret → SecretUpdate
  server : ServerSecret → SecretUpdate
  both : TrafficSecrets → SecretUpdate

-- `TrafficSecrets::update`
unfoldable pub update : SecretUpdate → TrafficSecrets → TrafficSecrets
update (client secret) s = record s { client_secret = secret }
update (server secret) s = record s { server_secret = secret }
update (both secrets) s = record s {
  client_secret = secrets.client_secret;
  server_secret = secrets.server_secret;
}
