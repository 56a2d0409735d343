-- ===== src/EncryptionProvider/Start.antt =====
-- src/encryption_provider/mod.rs: from a socket to an established connection. A handshake consumes its
-- provider; the database is shared, so it is given out on every outcome.
pub mod Agreement
use mls_tls_protocol.Base.{
  Bool, true, false, if◌then◌else◌, Result, ok, err, panic, M, and_then, map_err,
}
use mls_tls_protocol.Base.Bytes.{Octets}
use mls_tls_protocol.TlsAead.Secrets.{TrafficSecrets}
use mls_tls_protocol.UpdatePolicy.{UpdatePolicy}
use mls_tls_protocol.PreHandshake.{HandshakePayload, derive_traffic_secrets}
use mls_tls_protocol.MlsHandshake.OpenMls.{Connection}
use mls_tls_protocol.MlsHandshake.Session.{ClientIdentity}
use mls_tls_protocol.MlsHandshake.Driver
use mls_tls_protocol.MlsHandshake.Driver.{Transport, MlsHandshake, MlsHandshakeError}
use mls_tls_protocol.EncryptionProvider.Parameters.{
  Environment, Network, PreHandshake, TransportError, plain_transport,
}
use mls_tls_protocol.EncryptionProvider.Channels
use mls_tls_protocol.EncryptionProvider.Channels.{ProtectedChannels, protected_transport}
use mls_tls_protocol.EncryptionProvider.{
  EncryptionProviderError, io_error, pre_handshake_error, handshake_error, tls_transport_error,
  key_derivation_error, UnprotectedHandshakeState, ProtectedHandshakeState, EstablishedState,
  EncryptionProvider,
}

module _ (V : Environment) (H : PreHandshake V.N) where
  open V use {C, O, W, Q, K, N}

  abbrev pub Error : Type 0
  Error = EncryptionProviderError V H.Error

  abbrev pub Provider : Type 0 → Type 0
  Provider State = EncryptionProvider V State

  unfoldable pub new_from_stream :
      N.Socket → UpdatePolicy K → Result Error (Provider (UnprotectedHandshakeState V))
  new_from_stream socket update_policy = and_then (map_err io_error (N.peer_addr socket)) λ address.
      let (reader, writer) = N.frame socket in
      ok (record {
        state = record { reader = reader; writer = writer };
        address = address;
        update_policy = update_policy;
      })

  -- The pre-handshake of one side.
  abbrev pub pre_handshake : Bool → N.Socket → Result H.Error HandshakePayload × N.Socket
  pre_handshake is_server socket =
      if is_server then H.server_handshake socket else H.client_handshake socket

  -- After the pre-handshake: the channels of its secret.
  abbrev pub protected_channels :
      Bool → Result H.Error HandshakePayload × N.Socket → Result Error (ProtectedHandshakeState V)
  protected_channels is_server (outcome, socket) =
      and_then (map_err pre_handshake_error outcome) λ payload.
        and_then (map_err key_derivation_error (derive_traffic_secrets C payload.shared_secret))
          λ traffic_secrets.
            let (reader, writer) = N.frame socket in
            and_then
              (map_err tls_transport_error (Channels.new V is_server reader writer traffic_secrets))
              λ channels. ok (record { channels = channels; session_id = payload.session_id })

  unfoldable pub new_with_pre_handshake :
      Bool → N.Socket → UpdatePolicy K → Result Error (Provider (ProtectedHandshakeState V))
  unfolding derive_traffic_secrets Channels.new
  new_with_pre_handshake is_server socket update_policy =
      and_then (map_err io_error (N.peer_addr socket)) λ address.
        and_then (protected_channels is_server (pre_handshake is_server socket))
          λ state. ok (record { state = state; address = address; update_policy = update_policy })

  -- A handshake over some transport, and what is made of the transport and the secrets.
  abbrev finish :
      {S A B : Type 0}
      → Result (MlsHandshakeError O W (TransportError V)) A × (MlsHandshake O × S)
      → (A → S → Result (TransportError V) B)
      → Result Error B × MlsHandshake O
  finish (outcome, (handshake, transport)) make = (
    and_then (map_err handshake_error outcome) λ a. map_err tls_transport_error (make a transport),
    handshake,
  )

  -- `update_cipher` on the channels of a finished handshake.
  abbrev pub updated :
      Bool → TrafficSecrets → ProtectedChannels V → Result (TransportError V) (ProtectedChannels V)
  updated is_server secrets channels =
      let r = Channels.update_cipher V is_server secrets channels in and_then r.0 λ _. ok r.1

  -- The two implementations of the trait `PreHandshakeState`.
  unfoldable pub unprotected_client_handshake :
      UnprotectedHandshakeState V
      → Octets
      → O.PublicKey
      → MlsHandshake O
      → Result Error (ProtectedChannels V) × MlsHandshake O
  unfolding Driver.client_handshake Channels.new
  unprotected_client_handshake s client_id server_verifying_key handshake =
      finish
        (Driver.client_handshake O W Q (plain_transport V) client_id server_verifying_key
          (handshake, (s.reader, s.writer)))
        λ secrets t. Channels.new V false t.0 t.1 secrets

  unfoldable pub unprotected_server_handshake :
      UnprotectedHandshakeState V
      → O.GroupId
      → MlsHandshake O
      → Result Error (ProtectedChannels V × ClientIdentity) × MlsHandshake O
  unfolding Driver.server_handshake Channels.new
  unprotected_server_handshake s group_id handshake =
      finish
        (Driver.server_handshake O W Q (plain_transport V) group_id
          (handshake, (s.reader, s.writer)))
        λ (secrets, identity) t.
          and_then (Channels.new V true t.0 t.1 secrets) λ channels. ok (channels, identity)

  unfoldable pub protected_client_handshake :
      ProtectedHandshakeState V
      → Octets
      → O.PublicKey
      → MlsHandshake O
      → Result Error (ProtectedChannels V) × MlsHandshake O
  unfolding Driver.client_handshake Channels.update_cipher
  protected_client_handshake s client_id server_verifying_key handshake =
      finish
        (Driver.client_handshake O W Q (protected_transport V) client_id server_verifying_key
          (handshake, s.channels))
        λ secrets channels. updated false secrets channels

  unfoldable pub protected_server_handshake :
      ProtectedHandshakeState V
      → O.GroupId
      → MlsHandshake O
      → Result Error (ProtectedChannels V × ClientIdentity) × MlsHandshake O
  unfolding Driver.server_handshake Channels.update_cipher
  protected_server_handshake s group_id handshake =
      finish
        (Driver.server_handshake O W Q (protected_transport V) group_id (handshake, s.channels))
        λ (secrets, identity) channels.
          and_then (updated true secrets channels) λ channels'. ok (channels', identity)

  -- `handshake` of a client and of a server, by the handshake of the state.
  unfoldable pub client_provider :
      {State : Type 0}
      → (State
          → Octets
          → O.PublicKey
          → MlsHandshake O
          → Result Error (ProtectedChannels V) × MlsHandshake O)
      → Provider State
      → Connection O
      → O.Signer
      → Octets
      → O.PublicKey
      → Result Error (Provider (EstablishedState V)) × Connection O
  unfolding Driver.new
  client_provider client_handshake p connection leaf_signer client_id server_verifying_key =
      let r =
        client_handshake p.state client_id server_verifying_key
          (Driver.new connection leaf_signer) in
      (
        and_then r.0 λ channels. ok (record {
          state = record { handshake = r.1; channels = channels };
          address = p.address;
          update_policy = p.update_policy;
        }),
        r.1.connection,
      )

  unfoldable pub server_provider :
      {State : Type 0}
      → (State
          → O.GroupId
          → MlsHandshake O
          → Result Error (ProtectedChannels V × ClientIdentity) × MlsHandshake O)
      → Provider State
      → O.GroupId
      → Connection O
      → O.Signer
      → Result Error (Provider (EstablishedState V) × ClientIdentity) × Connection O
  unfolding Driver.new
  server_provider server_handshake p group_id connection leaf_signer =
      let r = server_handshake p.state group_id (Driver.new connection leaf_signer) in
      (
        and_then r.0 λ (channels, identity). ok (
          record {
            state = record { handshake = r.1; channels = channels };
            address = p.address;
            update_policy = p.update_policy;
          },
          identity,
        ),
        r.1.connection,
      )
