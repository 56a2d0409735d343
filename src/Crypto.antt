-- ===== src/Crypto.antt =====
-- `OpenMlsCrypto` and the types of `openmls_traits`, which are not part of the repository: the
-- operations that the code calls, and what it relies on of the AEAD and of HKDF.
use mls_tls_protocol.Base.{ℕ, ◌+◌, ◌≡◌, Result, ok, length}
use mls_tls_protocol.Base.Bytes.{Octets}

pub record Crypto : Type 1 where
  pub HashType : Type 0
  pub AeadType : Type 0
  pub CryptoError : Type 0
  -- `CryptoError::InvalidLength`, `HashType::Sha2_512`, `AeadType::Aes256Gcm`
  pub invalid_length : CryptoError
  pub sha2_512 : HashType
  pub aes_256_gcm : AeadType
  pub hash_size : HashType → ℕ
  pub key_size : AeadType → ℕ
  pub tag_size : AeadType → ℕ
  pub hkdf_extract : HashType → Octets → Octets → Result CryptoError Octets
  pub hkdf_expand : HashType → Octets → Octets → ℕ → Result CryptoError Octets
  -- The cipher, the key, the message, the nonce and the associated data.
  pub aead_encrypt : AeadType → Octets → Octets → Octets → Octets → Result CryptoError Octets
  pub aead_decrypt : AeadType → Octets → Octets → Octets → Octets → Result CryptoError Octets

-- RFC 5116: what was encrypted is decrypted under the same key, nonce and associated data, and a
-- ciphertext is longer than its message by the tag.
pub record IsAead (C : Crypto) : Type 0 where
  pub decrypt-encrypt :
      (cipher : C.AeadType) (key msg nonce aad : Octets) {c : Octets}
      → C.aead_encrypt cipher key msg nonce aad ≡ ok c
      → C.aead_decrypt cipher key c nonce aad ≡ ok msg
  pub length-encrypt :
      (cipher : C.AeadType) (key msg nonce aad : Octets) {c : Octets}
      → C.aead_encrypt cipher key msg nonce aad ≡ ok c
      → length c ≡ length msg + C.tag_size cipher

-- RFC 5869: an output has the length that was asked for.
abbrev pub HkdfLength : Crypto → Type 0
HkdfLength C =
    (hash : C.HashType) (secret info : Octets) (n : ℕ) (out : Octets)
    → C.hkdf_expand hash secret info n ≡ ok out
    → length out ≡ n
