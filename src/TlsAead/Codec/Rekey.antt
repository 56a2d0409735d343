-- ===== src/TlsAead/Codec/Rekey.antt =====
-- New traffic secrets during a connection: `new` and `update_traffic_secrets` on both sides.
use mls_tls_protocol.Base.{
  ◌≡◌, [], Bool, true, false, ok, ◌⊎◌, arith, Bool-cases, inl, inr, Result-Cases, ok_case, err_case,
  panic_case,
}
use mls_tls_protocol.Base.Bytes.{Octets}
use mls_tls_protocol.Crypto.{Crypto}
use mls_tls_protocol.TlsAead.Secrets
use mls_tls_protocol.TlsAead.Secrets.{TrafficSecrets, SecretUpdate, client, server, both}
use mls_tls_protocol.TlsAead.Keys.{
  GeneratedKeys, generate_keys, expand_client_secret, expand_server_secret,
}
use mls_tls_protocol.TlsAead.Codec.Channel.{Paired}
use mls_tls_protocol.TlsAead.Codec.{TlsAeadCodec, new, update_traffic_secrets}

module _ (C : Crypto) where
  -- The codec with other keys; counters, algorithms and frame size stay.
  pub rekeyed : Bool → GeneratedKeys → TlsAeadCodec C → TlsAeadCodec C
  rekeyed true keys c = record c {
    send_key = keys.server_key;
    send_iv = keys.server_iv;
    recv_key = keys.client_key;
    recv_iv = keys.client_iv;
  }
  rekeyed false keys c = record c {
    send_key = keys.client_key;
    send_iv = keys.client_iv;
    recv_key = keys.server_key;
    recv_iv = keys.server_iv;
  }

  -- Both directions of a connection agree, and so do the algorithms.
  pub record Linked (client_codec server_codec : TlsAeadCodec C) : Type 0 where
    pub up : Paired C client_codec server_codec
    pub down : Paired C server_codec client_codec
    pub same_hash : client_codec.hash ≡ server_codec.hash

  -- A client and a server that make their codecs from the same secrets, context and algorithms
  -- agree in both directions.
  pub new-Linked :
      (secrets : TrafficSecrets) (context : Octets) (h : C.HashType) (a : C.AeadType)
      {client_codec server_codec : TlsAeadCodec C}
      → new C false secrets context h a ≡ ok client_codec
      → new C true secrets context h a ≡ ok server_codec
      → Linked client_codec server_codec
  unfolding new
  new-Linked secrets context h a p q = ground arith

  -- Both sides still agree after the same update on both.
  pub update_traffic_secrets-Linked :
      (u : SecretUpdate) (client_codec server_codec : TlsAeadCodec C)
      {client' server' : TlsAeadCodec C}
      → Linked client_codec server_codec
      → update_traffic_secrets C u false client_codec ≡ (ok tt, client')
      → update_traffic_secrets C u true server_codec ≡ (ok tt, server')
      → Linked client' server'
  unfolding update_traffic_secrets
  update_traffic_secrets-Linked (client x) c s l p q = ground arith
  update_traffic_secrets-Linked (server x) c s l p q = ground arith
  update_traffic_secrets-Linked (both x) c s l p q = ground arith

  -- If the keys of a codec come from some secrets, then after an update they come from the secrets
  -- that `TrafficSecrets::update` makes of these; the rest of the codec stays as it was.
  pub update_traffic_secrets-rekeyed :
      (secrets : TrafficSecrets) (u : SecretUpdate) (is_server : Bool) (c : TlsAeadCodec C)
      {old fresh : GeneratedKeys}
      → generate_keys C c.hash secrets [] c.cipher ≡ ok old
      → generate_keys C c.hash (Secrets.update u secrets) [] c.cipher ≡ ok fresh
      → update_traffic_secrets C u is_server (rekeyed is_server old c)
        ≡ (ok tt, rekeyed is_server fresh c)
  unfolding update_traffic_secrets generate_keys Secrets.update rekeyed
  update_traffic_secrets-rekeyed secrets (client x) true c h k = ground arith
  update_traffic_secrets-rekeyed secrets (client x) false c h k = ground arith
  update_traffic_secrets-rekeyed secrets (server x) true c h k = ground arith
  update_traffic_secrets-rekeyed secrets (server x) false c h k = ground arith
  update_traffic_secrets-rekeyed secrets (both x) true c h k = ground arith
  update_traffic_secrets-rekeyed secrets (both x) false c h k = ground arith

  -- A codec that took both secrets has the keys that they expand to; the rest of it stays as it was.
  pub update_traffic_secrets-generate_keys :
      (secrets : TrafficSecrets) (is_server : Bool) (c : TlsAeadCodec C) {c' : TlsAeadCodec C}
      → update_traffic_secrets C (both secrets) is_server c ≡ (ok tt, c')
      → (keys : GeneratedKeys) × (generate_keys C c.hash secrets [] c.cipher ≡ ok keys)
        × (c' ≡ rekeyed is_server keys c)
  unfolding update_traffic_secrets generate_keys rekeyed
  update_traffic_secrets-generate_keys secrets is_server c h =
      elim (Result-Cases (expand_client_secret C c.hash secrets.client_secret [] c.cipher)) [
        | ok_case ck e ↦
            elim (Result-Cases (expand_server_secret C c.hash secrets.server_secret [] c.cipher)) [
              | ok_case sk f ↦ (
                record { client_key = ck.0; client_iv = ck.1; server_key = sk.0; server_iv = sk.1 },
                ground arith,
                elim (Bool-cases is_server) [ inl t ↦ ground arith | inr t ↦ ground arith ],
              )
              | err_case x f ↦ absurd (ground arith)
              | panic_case f ↦ absurd (ground arith)
            ]
        | err_case x e ↦ absurd (ground arith)
        | panic_case e ↦ absurd (ground arith)
      ]

  -- Doing an update twice, as the writer and the reader of one shared codec do, is doing it once.
  pub update_traffic_secrets_twice :
      (u : SecretUpdate) (is_server : Bool) (c : TlsAeadCodec C) {c' : TlsAeadCodec C}
      → update_traffic_secrets C u is_server c ≡ (ok tt, c')
      → update_traffic_secrets C u is_server c' ≡ (ok tt, c')
  unfolding update_traffic_secrets
  update_traffic_secrets_twice (client x) true c h = ground arith
  update_traffic_secrets_twice (client x) false c h = ground arith
  update_traffic_secrets_twice (server x) true c h = ground arith
  update_traffic_secrets_twice (server x) false c h = ground arith
  update_traffic_secrets_twice (both x) true c h = ground arith
  update_traffic_secrets_twice (both x) false c h = ground arith

  -- No outcome of an update moves a sequence number, and one that fails leaves the codec as it was.
  pub update_traffic_secrets-seq :
      (u : SecretUpdate) (is_server : Bool) (c : TlsAeadCodec C)
      → let (r, c') = update_traffic_secrets C u is_server c in
        (c'.send_seq ≡ c.send_seq) × (c'.recv_seq ≡ c.recv_seq) × ((r ≡ ok tt) ⊎ (c' ≡ c))
  unfolding update_traffic_secrets
  update_traffic_secrets-seq (client x) b c = ground arith
  update_traffic_secrets-seq (server x) b c = ground arith
  update_traffic_secrets-seq (both x) b c = ground arith
