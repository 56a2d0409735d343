-- ===== src/EncryptionProvider/Start/Agreement.antt =====
-- Both ends of a connection, once it is protected.
use mls_tls_protocol.Base.{
  ap₂, Result, Bool, Result-Cases, ok_case, err_case, panic_case, ◌≡◌, sym, ap, ◌∙◌, true, false,
  [], ok, ok-injective, arith,
}
use mls_tls_protocol.Base.Bytes.{Octets}
use mls_tls_protocol.TlsAead.Secrets.{TrafficSecrets, both}
use mls_tls_protocol.TlsAead.Codec
use mls_tls_protocol.TlsAead.Codec.Rekey.{
  Linked, rekeyed, new-Linked, update_traffic_secrets-Linked, update_traffic_secrets-generate_keys,
}
use mls_tls_protocol.TlsAead.Codec.{TlsAeadCodec}
use mls_tls_protocol.TlsAead.Keys.{GeneratedKeys, generate_keys}
use mls_tls_protocol.UpdatePolicy.{UpdatePolicy}
use mls_tls_protocol.PreHandshake.{HandshakePayload, derive_traffic_secrets}
use mls_tls_protocol.EncryptionProvider.Parameters.{Environment, PreHandshake, TransportError}
use mls_tls_protocol.EncryptionProvider.Channels
use mls_tls_protocol.EncryptionProvider.Channels.{ProtectedChannels, protected_transport}
use mls_tls_protocol.EncryptionProvider.Channels.Updates.{update_both_once}
use mls_tls_protocol.MlsHandshake.Session.{ClientIdentity}
use mls_tls_protocol.MlsHandshake.Driver
use mls_tls_protocol.MlsHandshake.Driver.{MlsHandshake}
use mls_tls_protocol.EncryptionProvider.{ProtectedHandshakeState}
use mls_tls_protocol.EncryptionProvider.Start.{
  Provider, updated, pre_handshake, new_with_pre_handshake, protected_client_handshake,
  protected_server_handshake,
}

module _ (V : Environment) (H : PreHandshake V.N) where
  open V use {C, O, W, Q, N, K}

  -- The codec of a successful start is made from the secrets of the payload.
  codec_of :
      (is_server : Bool) (socket : N.Socket) (policy : UpdatePolicy K) (p : HandshakePayload)
      {provider : Provider V H (ProtectedHandshakeState V)}
      → (pre_handshake V H is_server socket).0 ≡ ok p
      → new_with_pre_handshake V H is_server socket policy ≡ ok provider
      → (secrets : TrafficSecrets) × (derive_traffic_secrets C p.shared_secret ≡ ok secrets)
        × (Codec.new C is_server secrets [] C.sha2_512 C.aes_256_gcm
            ≡ ok provider.state.channels.cipher)
  unfolding new_with_pre_handshake Channels.new
  codec_of is_server socket policy p h made =
      elim (Result-Cases (derive_traffic_secrets C p.shared_secret)) [
        | ok_case secrets e ↦ (
          secrets,
          e,
          elim (Result-Cases (Codec.new C is_server secrets [] C.sha2_512 C.aes_256_gcm)) [
            | ok_case codec n ↦ ground arith
            | err_case x n ↦ absurd (ground arith)
            | panic_case n ↦ absurd (ground arith)
          ],
        )
        | err_case x e ↦ absurd (ground arith)
        | panic_case e ↦ absurd (ground arith)
      ]

  -- If the pre-handshakes of a client and of a server end with the same secret and the two make their
  -- channels from it, then the codecs agree in both directions.
  pub new_with_pre_handshake-Linked :
      (client_socket server_socket : N.Socket) (client_policy server_policy : UpdatePolicy K)
      (p q : HandshakePayload)
      {client_provider server_provider : Provider V H (ProtectedHandshakeState V)}
      → (H.client_handshake client_socket).0 ≡ ok p
      → (H.server_handshake server_socket).0 ≡ ok q
      → p.shared_secret ≡ q.shared_secret
      → new_with_pre_handshake V H false client_socket client_policy ≡ ok client_provider
      → new_with_pre_handshake V H true server_socket server_policy ≡ ok server_provider
      → Linked C client_provider.state.channels.cipher server_provider.state.channels.cipher
  unfolding new_with_pre_handshake Channels.new
  new_with_pre_handshake-Linked x y cp sp p q hx hy same made too =
      let (s, d, n) = codec_of false x cp p hx made in
      let (t, e, m) = codec_of true y sp q hy too in
      let agree = ok-injective (sym d ∙ ap (derive_traffic_secrets C) same ∙ e) in
      new-Linked C t [] C.sha2_512 C.aes_256_gcm (rw (sym agree) n) m

  updated_cipher :
      (is_server : Bool) (secrets : TrafficSecrets) (c : ProtectedChannels V)
      {d : ProtectedChannels V}
      → updated V H is_server secrets c ≡ ok d
      → Codec.update_traffic_secrets C (both secrets) is_server c.cipher ≡ (ok tt, d.cipher)
  unfolding Channels.update_cipher
  updated_cipher is_server secrets c h =
      let once = update_both_once V (both secrets) is_server c in
      elim (Result-Cases (Codec.update_traffic_secrets C (both secrets) is_server c.cipher).0) [
        | ok_case _ e ↦ ground arith
        | err_case x e ↦ absurd (ground arith)
        | panic_case e ↦ absurd (ground arith)
      ]

  -- What the MLS handshake of one side leaves on its channels.
  abbrev client_run :
      ProtectedHandshakeState V
      → Octets
      → O.PublicKey
      → MlsHandshake O
      → Result (Driver.MlsHandshakeError O W (TransportError V)) TrafficSecrets
        × (MlsHandshake O × ProtectedChannels V)
  client_run s client_id key h =
      Driver.client_handshake O W Q (protected_transport V) client_id key (h, s.channels)

  abbrev server_run :
      ProtectedHandshakeState V
      → O.GroupId
      → MlsHandshake O
      → Result (Driver.MlsHandshakeError O W (TransportError V)) (TrafficSecrets × ClientIdentity)
        × (MlsHandshake O × ProtectedChannels V)
  server_run s group_id h =
      Driver.server_handshake O W Q (protected_transport V) group_id (h, s.channels)

  -- Two codecs that took the keys of the same secrets, each for its side: nothing else of them changed.
  pub record Took (secrets : TrafficSecrets)
      (old_client old_server new_client new_server : TlsAeadCodec C) : Type 0 where
    pub keys : GeneratedKeys
    pub from_secrets : generate_keys C old_client.hash secrets [] old_client.cipher ≡ ok keys
    pub client_took : new_client ≡ rekeyed C false keys old_client
    pub server_took : new_server ≡ rekeyed C true keys old_server

  take_both-Took :
      (secrets : TrafficSecrets) (c d : ProtectedChannels V) {c' d' : ProtectedChannels V}
      → Linked C c.cipher d.cipher
      → updated V H false secrets c ≡ ok c'
      → updated V H true secrets d ≡ ok d'
      → Took secrets c.cipher d.cipher c'.cipher d'.cipher × Linked C c'.cipher d'.cipher
  take_both-Took secrets c d {c'} {d'} l made too =
      let m = updated_cipher false secrets c {d = c'} made in
      let n = updated_cipher true secrets d {d = d'} too in
      let (keys, e, mine) = update_traffic_secrets-generate_keys C secrets false c.cipher m in
      let (others, f, theirs) = update_traffic_secrets-generate_keys C secrets true d.cipher n in
      let same : generate_keys C c.cipher.hash secrets [] c.cipher.cipher
          ≡ generate_keys C d.cipher.hash secrets [] d.cipher.cipher =
        ap₂ (λ h a. generate_keys C h secrets [] a) l.same_hash l.up.same_cipher in
      let one : others ≡ keys = ok-injective (sym f ∙ sym same ∙ e) in
      (
        record {
          keys = keys;
          from_secrets = e;
          client_took = mine;
          server_took = theirs ∙ ap (λ k. rekeyed C true k d.cipher) one;
        },
        update_traffic_secrets-Linked C (both secrets) c.cipher d.cipher l m n,
      )

  -- The MLS handshake of both sides on protected channels, after whose messages the codecs agree: if both
  -- export the same secrets, then the codec of each side that is given out is the one that the messages
  -- left, with the keys of those secrets for its side, and the two agree again.
  pub protected_handshakes-Linked :
      (client_state server_state : ProtectedHandshakeState V) (client_id : Octets)
      (key : O.PublicKey) (group_id : O.GroupId)
      (client_handshake server_handshake : MlsHandshake O) (client_secrets : TrafficSecrets)
      (exported : TrafficSecrets × ClientIdentity) {client_channels : ProtectedChannels V}
      {accepted : ProtectedChannels V × ClientIdentity}
      → (client_run client_state client_id key client_handshake).0 ≡ ok client_secrets
      → (server_run server_state group_id server_handshake).0 ≡ ok exported
      → Linked C
          (client_run client_state client_id key client_handshake).1.1.cipher
          (server_run server_state group_id server_handshake).1.1.cipher
      → client_secrets ≡ exported.0
      → (protected_client_handshake V H client_state client_id key client_handshake).0
        ≡ ok client_channels
      → (protected_server_handshake V H server_state group_id server_handshake).0 ≡ ok accepted
      → Took exported.0
          (client_run client_state client_id key client_handshake).1.1.cipher
          (server_run server_state group_id server_handshake).1.1.cipher
          client_channels.cipher
          accepted.0.cipher
        × Linked C client_channels.cipher accepted.0.cipher
  unfolding protected_client_handshake protected_server_handshake Channels.update_cipher
  protected_handshakes-Linked x y id key g h j cs es {client_channels = c} {accepted = d} e f l same
        made too =
      let r = client_run x id key h in
      let s = server_run y g j in
      take_both-Took es.0 r.1.1 s.1.1 {c' = c} {d' = d.0} l (ground arith) (ground arith)
