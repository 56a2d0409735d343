-- ===== src/TlsAead/Keys/Label.antt =====
-- The label that HKDF gets tells apart what a key is for.
use mls_tls_protocol.Base.{
  and_then-eq-ok, ◌/◌, ◌%◌, ℕ, ◌+◌, ◌≤◌, ◌<◌, ◌≡◌, ◌∷◌, ◌++◌, [], ok, length, arith, append-cancel,
}
use mls_tls_protocol.Base.Bytes.{ascii, Octets, as_u8, as_u16}
use mls_tls_protocol.Crypto.{Crypto, HkdfLength}
use mls_tls_protocol.TlsAead.Secrets.{ServerSecret, ClientSecret}
use mls_tls_protocol.TlsAead.Keys.{
  key_iv, label_info, tls13_iv_size, hdkf_expand_label, expand_client_secret, expand_server_secret,
}

-- Within the bounds that `hdkf_expand_label` enforces, two requests with the same HKDF info ask for
-- the same length, label and context.
pub label_info-injective :
    (n m : ℕ) (label label' context context' : Octets)
    → n < 65536
    → m < 65536
    → length label ≤ 249
    → length label' ≤ 249
    → length context < 256
    → length context' < 256
    → label_info n label context ≡ label_info m label' context'
    → (n ≡ m) × (label ≡ label') × (context ≡ context')
label_info-injective n m label label' context context' hn hm hl hl' hc hc' e =
    let hi : as_u16 n / 256 % 256 ≡ as_u16 m / 256 % 256 = cc in
    let lo : as_u16 n % 256 ≡ as_u16 m % 256 = cc in
    let len : as_u8 (6 + length label) ≡ as_u8 (6 + length label') = cc in
    let rest : label ++ (as_u8 (length context) ∷ context)
        ≡ label' ++ (as_u8 (length context') ∷ context') =
      cc in
    let (same, more) = append-cancel label label' _ _ (omega arith) rest in (omega arith, same, cc)

module _ (C : Crypto) (expand_length : HkdfLength C) where
  length-hdkf_expand_label :
      (hash : C.HashType) (secret label context : Octets) (n : ℕ) {out : Octets}
      → hdkf_expand_label C hash secret label context n ≡ ok out
      → length out ≡ n
  unfolding hdkf_expand_label
  length-hdkf_expand_label hash secret label context n {out} h =
      ground (arith, expand_length hash secret (label_info n label context) n out)

  -- The two last steps of both expansions.
  length-key_iv :
      (hash : C.HashType) (secret : Octets) (cipher : C.AeadType) {key iv : Octets}
      → key_iv C hash secret cipher ≡ ok (key, iv)
      → (length key ≡ C.key_size cipher) × (length iv ≡ tls13_iv_size)
  unfolding key_iv
  length-key_iv hash secret cipher {key} {iv} h =
      let (k, ek, h') =
        and_then-eq-ok (hdkf_expand_label C hash secret (ascii "key") [] (C.key_size cipher)) _ h in
      let (v, ev, h'') =
        and_then-eq-ok (hdkf_expand_label C hash secret (ascii "iv") [] tls13_iv_size) _ h' in
      let p : k ≡ key = cc in
      let q : v ≡ iv = cc in
      (
        rw (← p) (length-hdkf_expand_label hash secret _ _ _ ek),
        rw (← q) (length-hdkf_expand_label hash secret _ _ _ ev),
      )

  -- A client key has the cipher's key size, and its IV the twelve bytes of TLS 1.3.
  pub length-expand_client_secret :
      (hash : C.HashType) (secret : ClientSecret) (context : Octets) (cipher : C.AeadType)
      {key iv : Octets}
      → expand_client_secret C hash secret context cipher ≡ ok (key, iv)
      → (length key ≡ C.key_size cipher) × (length iv ≡ tls13_iv_size)
  unfolding expand_client_secret
  length-expand_client_secret hash secret context cipher h =
      let (s, es, h') = and_then-eq-ok (hdkf_expand_label C hash secret.octets _ context _) _ h in
      length-key_iv hash s cipher h'

  -- So does a server key and its IV.
  pub length-expand_server_secret :
      (hash : C.HashType) (secret : ServerSecret) (context : Octets) (cipher : C.AeadType)
      {key iv : Octets}
      → expand_server_secret C hash secret context cipher ≡ ok (key, iv)
      → (length key ≡ C.key_size cipher) × (length iv ≡ tls13_iv_size)
  unfolding expand_server_secret
  length-expand_server_secret hash secret context cipher h =
      let (s, es, h') = and_then-eq-ok (hdkf_expand_label C hash secret.octets _ context _) _ h in
      length-key_iv hash s cipher h'
