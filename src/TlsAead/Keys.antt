-- ===== src/TlsAead/Keys.antt =====
-- src/tls_aead/key_generation.rs: keys and IVs from the traffic secrets, by HKDF-Expand-Label.
pub mod Label
use mls_tls_protocol.Base.{
  ℕ, ◌+◌, ◌∷◌, ◌++◌, List, [], Result, ok, err, and_then, length, leb, if◌then◌else◌,
}
use mls_tls_protocol.Base.Bytes.{Octets, as_u8, as_u16, to_be_bytes, ascii}
use mls_tls_protocol.Crypto.{Crypto}
use mls_tls_protocol.TlsAead.Secrets.{ServerSecret, ClientSecret, TrafficSecrets}

abbrev pub tls13_iv_size : ℕ
tls13_iv_size = 12

abbrev pub tls13_prefix : Octets
tls13_prefix = ascii "tls13 "

-- The concatenation that `hdkf_expand_label` hands to HKDF.
abbrev pub label_info : ℕ → Octets → Octets → Octets
label_info n label context =
    to_be_bytes (as_u16 n)
    ++ (as_u8 (length tls13_prefix + length label)
        ∷ (tls13_prefix ++ (label ++ (as_u8 (length context) ∷ context))))

pub record GeneratedKeys : Type 0 where
  pub server_key : Octets
  pub server_iv : Octets
  pub client_key : Octets
  pub client_iv : Octets

module _ (C : Crypto) where
  open C use {HashType, AeadType, CryptoError, invalid_length, hkdf_expand, hash_size, key_size}

  unfoldable pub hdkf_expand_label :
      HashType → Octets → Octets → Octets → ℕ → Result CryptoError Octets
  hdkf_expand_label hash secret label context n =
      if leb n 0xFFFF
      then if leb (length tls13_prefix + length label) 0xFF
        then if leb (length context) 0xFF
          then hkdf_expand hash secret (label_info n label context) n
          else err invalid_length
        else err invalid_length
      else err invalid_length

  -- The two last steps of both functions below: the key and the IV of an expanded secret.
  unfoldable pub key_iv : HashType → Octets → AeadType → Result CryptoError (Octets × Octets)
  key_iv hash secret cipher =
      and_then (hdkf_expand_label hash secret (ascii "key") [] (key_size cipher)) λ key.
        and_then (hdkf_expand_label hash secret (ascii "iv") [] tls13_iv_size) λ iv. ok (key, iv)

  unfoldable pub expand_client_secret :
      HashType → ClientSecret → Octets → AeadType → Result CryptoError (Octets × Octets)
  expand_client_secret hash client_secret handshake_hash cipher =
      and_then
        (hdkf_expand_label hash client_secret.octets (ascii "c ap traffic") handshake_hash
          (hash_size hash))
        λ secret. key_iv hash secret cipher

  unfoldable pub expand_server_secret :
      HashType → ServerSecret → Octets → AeadType → Result CryptoError (Octets × Octets)
  expand_server_secret hash server_secret handshake_hash cipher =
      and_then
        (hdkf_expand_label hash server_secret.octets (ascii "s ap traffic") handshake_hash
          (hash_size hash))
        λ secret. key_iv hash secret cipher

  unfoldable pub generate_keys :
      HashType → TrafficSecrets → Octets → AeadType → Result CryptoError GeneratedKeys
  generate_keys hash secrets handshake_hash cipher =
      and_then (expand_client_secret hash secrets.client_secret handshake_hash cipher) λ c.
        and_then (expand_server_secret hash secrets.server_secret handshake_hash cipher)
          λ s. ok (record { server_key = s.0; server_iv = s.1; client_key = c.0; client_iv = c.1 })
