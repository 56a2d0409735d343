-- ===== src/EncryptionProvider/Established/Steps.antt =====
-- The updates of an established connection as steps of two codecs with records in flight, in
-- src/encryption_provider/mod.rs.
use mls_tls_protocol.Base.{
  Bool, ◌≡◌, sym, ◌∙◌, ◌<◌, ◌≤◌, true, false, none, some, List, [], ◌∷◌, ◌++◌, ok, ok-injective,
  Result-Cases, ok_case, err_case, panic_case, arith, subst, length, chunks_one,
}
use mls_tls_protocol.Base.Bytes.{Octets}
use mls_tls_protocol.Crypto.{Crypto, IsAead}
use mls_tls_protocol.TlsAead.Secrets.{TrafficSecrets, SecretUpdate, client, server, both}
use mls_tls_protocol.TlsAead.Codec.{
  TlsAeadCodec, encrypt, encrypt_chunks, seal, sent_one, update_traffic_secrets,
}
use mls_tls_protocol.TlsAead.Connection.{
  Connection, item, plain, rekey, Item, opened, Step, Reach, here, later, client_receives,
  client_updates, server_updates, client_confirmed,
}
use mls_tls_protocol.MlsHandshake.Driver
use mls_tls_protocol.EncryptionProvider.Parameters.{Environment, TransportError, signaling}
use mls_tls_protocol.EncryptionProvider.Established.{Provider, process_signaling}
use mls_tls_protocol.EncryptionProvider.SendBytes.{update_connection}
use mls_tls_protocol.EncryptionProvider.Established.Order.{
  SentThenRekeys, update_connection-order, process_signaling-order,
}

module _ (C : Crypto) where
  -- A message of one record.
  abbrev pub Fits : TlsAeadCodec C → Octets → Type 0
  Fits c bytes = (0 < length bytes) × (length bytes ≤ c.max_frame_size)

  encrypt_one :
      (c : TlsAeadCodec C) (bytes : Octets) (before : List Octets) {d : TlsAeadCodec C}
      {after : List Octets}
      → Fits c bytes
      → encrypt C bytes (c, before) ≡ (ok tt, (d, after))
      → (e : Octets) × (seal C c bytes ≡ ok e) × (d ≡ sent_one C c)
  unfolding encrypt encrypt_chunks
  encrypt_one c bytes before (some_bytes, fits) h =
      let one = chunks_one c.max_frame_size bytes some_bytes fits in
      elim (Result-Cases (seal C c bytes)) [
        | ok_case e s ↦ (e, s, ground arith)
        | err_case x s ↦ absurd (ground arith)
        | panic_case s ↦ absurd (ground arith)
      ]

module _ (V : Environment) (L : IsAead V.C) (PreHandshakeError : Type 0) where
  open V use {C, O, W, Q, K}

  abbrev P : Type 0
  P = Provider V PreHandshakeError

  abbrev cipher_of : P → TlsAeadCodec C
  cipher_of p = p.state.channels.cipher

  -- One record under the old keys, and then the new ones.
  sealed_one :
      (is_server : Bool) (message bytes : Octets) (u : SecretUpdate) (c d : TlsAeadCodec C)
      → V.serialize (signaling message) ≡ ok bytes
      → Fits C c bytes
      → SentThenRekeys V PreHandshakeError is_server message (some u) c d
      → (e : Octets) × (seal C c bytes ≡ ok e)
        × (update_traffic_secrets C u is_server (sent_one C c) ≡ (ok tt, d))
  sealed_one is_server message bytes u c d written fits
        (bytes', e', before, after, between, all, rekeyed) =
      let same : bytes' ≡ bytes = ok-injective (sym e' ∙ written) in
      let (e, s, next) = encrypt_one C c bytes before fits (rw same at all) in
      (e, s, subst (λ x. update_traffic_secrets C u is_server x ≡ (ok tt, d)) next rekeyed)

  -- An update that a client makes by itself, with a message of one record, is a step `client_updates`.
  pub update_connection-Step :
      (now : K.DateTime) (p q : P) (k : Connection C) (x : TrafficSecrets) (message bytes : Octets)
      → k.client_codec ≡ cipher_of p
      → k.pending ≡ none
      → (Driver.update_handshake O W Q (TransportError V) p.state.handshake).0
        ≡ ok (some (client x.client_secret), message)
      → V.serialize (signaling message) ≡ ok bytes
      → Fits C (cipher_of p) bytes
      → update_connection V PreHandshakeError false now p ≡ (ok tt, q)
      → (e : Octets) × Step C L k (record k {
        client_codec = cipher_of q;
        up = k.up ++ (item C L e bytes (rekey x) ∷ []);
        pending = some x;
      })
  update_connection-Step now p q k x message bytes same idle answer written fits done =
      let (e, s, u) =
        sealed_one false message bytes (client x.client_secret) (cipher_of p) (cipher_of q) written
          fits (update_connection-order V PreHandshakeError false now p q _ message answer done) in
      (e, client_updates bytes e x (cipher_of q) idle (rw same s) (rw same u))

  -- What a server does with an update message that it has just opened, where its answer has one record, is
  -- a step `server_updates`.
  pub process_signaling-Step :
      (received : Octets) (p q : P) (k : Connection C) (x : TrafficSecrets)
      (frame chunk plaintext message bytes : Octets) (rest : List Item)
      → k.up ≡ item C L frame chunk (rekey x) ∷ rest
      → opened C L k.server_codec (item C L frame chunk (rekey x)) ≡ (ok plaintext, cipher_of p)
      → (Driver.process_signaling_message O W Q (TransportError V) received p.state.handshake).0
        ≡ ok (some (both x), some message)
      → V.serialize (signaling message) ≡ ok bytes
      → Fits C (cipher_of p) bytes
      → process_signaling V PreHandshakeError true received p ≡ (ok tt, q)
      → (e : Octets) × Step C L k (record k {
        server_codec = cipher_of q;
        up = rest;
        down = k.down ++ (item C L e bytes (rekey x) ∷ []);
      })
  process_signaling-Step received p q k x frame chunk plaintext message bytes rest first came answer
        written fits done =
      let (e, s, u) =
        sealed_one true message bytes (both x) (cipher_of p) (cipher_of q) written fits (
          process_signaling-order V PreHandshakeError true received p q (some (both x))
            (some message) answer done) in
      (
        e,
        server_updates frame chunk plaintext bytes e x rest (cipher_of p) (cipher_of q) first came s
            u,
      )

  -- What a client does with the confirmation that it has just opened is a step `client_confirmed`.
  pub process_signaling-Step_confirmed :
      (received : Octets) (p q : P) (k : Connection C) (x y : TrafficSecrets)
      (frame chunk plaintext : Octets) (rest : List Item)
      → k.down ≡ item C L frame chunk (rekey x) ∷ rest
      → k.pending ≡ some y
      → opened C L k.client_codec (item C L frame chunk (rekey x)) ≡ (ok plaintext, cipher_of p)
      → (Driver.process_signaling_message O W Q (TransportError V) received p.state.handshake).0
        ≡ ok (some (server y.server_secret), none)
      → process_signaling V PreHandshakeError false received p ≡ (ok tt, q)
      → Step C L k (record k { client_codec = cipher_of q; down = rest; pending = none })
  process_signaling-Step_confirmed received p q k x y frame chunk plaintext rest first waits came
        answer done =
      client_confirmed frame chunk plaintext x y rest (cipher_of p) (cipher_of q) first waits came (
        process_signaling-order V PreHandshakeError false received p q
          (some (server y.server_secret)) none answer done)

  -- What a client does with an update that the server asks for, in a message that it has just opened, where
  -- its answer has one record, is a step `client_receives` and then a step `client_updates`.
  pub process_signaling-Reach :
      (received : Octets) (p q : P) (k : Connection C) (x : TrafficSecrets)
      (frame chunk plaintext message bytes : Octets) (rest : List Item)
      → k.down ≡ item C L frame chunk plain ∷ rest
      → k.pending ≡ none
      → opened C L k.client_codec (item C L frame chunk plain) ≡ (ok plaintext, cipher_of p)
      → (Driver.process_signaling_message O W Q (TransportError V) received p.state.handshake).0
        ≡ ok (some (client x.client_secret), some message)
      → V.serialize (signaling message) ≡ ok bytes
      → Fits C (cipher_of p) bytes
      → process_signaling V PreHandshakeError false received p ≡ (ok tt, q)
      → (e : Octets) × Reach C L k (record k {
        client_codec = cipher_of q;
        up = k.up ++ (item C L e bytes (rekey x) ∷ []);
        down = rest;
        pending = some x;
      })
  process_signaling-Reach received p q k x frame chunk plaintext message bytes rest first idle came
        answer written fits done =
      let (e, s, u) =
        sealed_one false message bytes (client x.client_secret) (cipher_of p) (cipher_of q) written
          fits
          (process_signaling-order V PreHandshakeError false received p q
            (some (client x.client_secret)) (some message) answer done) in
      (
        e,
        later (later here (client_receives frame chunk plaintext rest (cipher_of p) first came))
            (client_updates bytes e x (cipher_of q) idle s u),
      )
