-- ===== src/TlsAead/Connection/Keys.antt =====
-- What the updates of the two sides make of their codecs.
use mls_tls_protocol.Base.{
  ◌≡◌, [], Result, ok, Result-Cases, ok_case, err_case, panic_case, true, false, arith,
}
use mls_tls_protocol.Base.Bytes.{Octets}
use mls_tls_protocol.Crypto.{Crypto}
use mls_tls_protocol.TlsAead.Secrets.{TrafficSecrets, client, server, both}
use mls_tls_protocol.TlsAead.Keys.{expand_client_secret, expand_server_secret}
use mls_tls_protocol.TlsAead.Codec.{TlsAeadCodec, set_send, set_recv, update_traffic_secrets}

module _ (C : Crypto) (hash : C.HashType) (algorithm : C.AeadType) where
  -- A codec of these algorithms.
  abbrev pub Uses : TlsAeadCodec C → Type 0
  Uses c = (c.hash ≡ hash) × (c.cipher ≡ algorithm)

  abbrev pub client_keys : TrafficSecrets → Result C.CryptoError (Octets × Octets)
  client_keys x = expand_client_secret C hash x.client_secret [] algorithm

  abbrev pub server_keys : TrafficSecrets → Result C.CryptoError (Octets × Octets)
  server_keys x = expand_server_secret C hash x.server_secret [] algorithm

  -- An update that succeeds has the keys of its secrets.
  pub update-client :
      (x : TrafficSecrets) (c : TlsAeadCodec C) {d : TlsAeadCodec C}
      → Uses c
      → update_traffic_secrets C (client x.client_secret) false c ≡ (ok tt, d)
      → (k : Octets × Octets) × (client_keys x ≡ ok k) × (d ≡ set_send C k c)
  unfolding update_traffic_secrets
  update-client x c p h = elim (Result-Cases (client_keys x)) [
    | ok_case k e ↦ (k, e, ground arith)
    | err_case e made ↦ absurd (ground arith)
    | panic_case made ↦ absurd (ground arith)
  ]

  pub update-server :
      (x : TrafficSecrets) (c : TlsAeadCodec C) {d : TlsAeadCodec C}
      → Uses c
      → update_traffic_secrets C (server x.server_secret) false c ≡ (ok tt, d)
      → (k : Octets × Octets) × (server_keys x ≡ ok k) × (d ≡ set_recv C k c)
  unfolding update_traffic_secrets
  update-server x c p h = elim (Result-Cases (server_keys x)) [
    | ok_case k made ↦ (k, made, ground arith)
    | err_case e made ↦ absurd (ground arith)
    | panic_case made ↦ absurd (ground arith)
  ]

  pub update-both :
      (x : TrafficSecrets) (c : TlsAeadCodec C) {d : TlsAeadCodec C}
      → Uses c
      → update_traffic_secrets C (both x) true c ≡ (ok tt, d)
      → (k l : Octets × Octets) × (client_keys x ≡ ok k)
        × (server_keys x ≡ ok l)
        × (d ≡ set_recv C k (set_send C l c))
  unfolding update_traffic_secrets
  update-both x c p h = elim (Result-Cases (client_keys x)) [
    | ok_case k made ↦ elim (Result-Cases (server_keys x)) [
      | ok_case l too ↦ (k, l, made, too, ground arith)
      | err_case e too ↦ absurd (ground arith)
      | panic_case too ↦ absurd (ground arith)
    ]
    | err_case e made ↦ absurd (ground arith)
    | panic_case made ↦ absurd (ground arith)
  ]
