-- ===== src/EncryptionProvider/Established.antt =====
-- src/encryption_provider/mod.rs: the stream, the sink and the reader of an established connection.
pub mod Reading
pub mod Sending
pub mod Order
pub mod Progress
pub mod Steps
use Prim.Native.String.{String}
use mls_tls_protocol.Base.{
  ℕ, zero, suc, Bool, false, List, Option, none, some, Result, ok, err, panic, M, pure, throw, lift,
  continue, ◌>>=◌, ◌>>◌, map_err, length, if◌then◌else◌,
}
use mls_tls_protocol.Base.Bytes.{Octets, ascii, as_u64}
use mls_tls_protocol.TlsAead.Frame.{TlsPacketIn}
use mls_tls_protocol.TlsAead.Secrets.{SecretUpdate}
use mls_tls_protocol.TlsAead.StreamSink
use mls_tls_protocol.TlsAead.StreamSink.{Poll, ready, pending, TlsAeadSink}
use mls_tls_protocol.UpdatePolicy
use mls_tls_protocol.MlsHandshake.Messages.{waiting_for_response}
use mls_tls_protocol.MlsHandshake.Driver
use mls_tls_protocol.MlsHandshake.Driver.{MlsHandshake, MlsHandshakeError}
use mls_tls_protocol.EncryptionProvider.Parameters.{
  Environment, InnerPlaintext, application, signaling, TransportError, framed_writer, awaited,
}
use mls_tls_protocol.EncryptionProvider.Channels
use mls_tls_protocol.EncryptionProvider.Channels.{ProtectedChannels, OnChannels}
use mls_tls_protocol.EncryptionProvider.{
  EncryptionProviderError, handshake_error, codec_error, unexpected_message, tls_transport_error,
  EstablishedState, EncryptionProvider,
}

abbrev map_poll : {A B : Type 0} → (A → B) → Poll A → Poll B
map_poll f (ready a) = ready (f a)
map_poll f pending = pending

module _ (V : Environment) (PreHandshakeError : Type 0) where
  open V use {C, O, W, Q, K, N, serialize, deserialize}

  abbrev pub Error : Type 0
  Error = EncryptionProviderError V PreHandshakeError

  abbrev pub Provider : Type 0
  Provider = EncryptionProvider V (EstablishedState V)

  abbrev pub Method : Type 0 → Type 0
  Method A = M Provider Error A

  abbrev pub with_channels : Provider → ProtectedChannels V → Provider
  with_channels p c = record p { state = record p.state { channels = c } }

  abbrev pub with_handshake : Provider → MlsHandshake O → Provider
  with_handshake p h = record p { state = record p.state { handshake = h } }

  abbrev pub on_channels : {A : Type 0} → OnChannels V A → Method A
  on_channels f p =
      let r = f p.state.channels in (map_err tls_transport_error r.0, with_channels p r.1)

  abbrev pub on_handshake :
      {A : Type 0} → M (MlsHandshake O) (MlsHandshakeError O W (TransportError V)) A → Method A
  on_handshake f p =
      let r = f p.state.handshake in (map_err handshake_error r.0, with_handshake p r.1)

  -- `update_cipher` of a provider
  unfoldable pub update_cipher : Bool → SecretUpdate → Method (Unit {0})
  unfolding Channels.update_both
  update_cipher is_server secret_update =
      on_channels (Channels.update_both V secret_update is_server)

  -- The provider as a stream: `poll_next` on a packet of the channels.
  abbrev plaintext_of :
      Option (Result (TransportError V) TlsPacketIn) → Option (Result Error InnerPlaintext)
  plaintext_of none = none
  plaintext_of (some (ok packet)) = some (map_err codec_error (deserialize packet.body))
  plaintext_of (some (err e)) = some (err (tls_transport_error e))
  plaintext_of (some panic) = some panic

  unfoldable pub next : Provider → Option (Result Error InnerPlaintext) × Provider
  unfolding Channels.next
  next p = let r = Channels.next V p.state.channels in (plaintext_of r.0, with_channels p r.1)

  -- The provider as a sink.
  abbrev on_writer :
      (TlsAeadSink N.Writer → Poll (Result (TransportError V) (Unit {0})) × TlsAeadSink N.Writer)
      → Provider
      → Poll (Result Error (Unit {0})) × Provider
  on_writer poll p =
      let r = poll p.state.channels.writer in
      (
        map_poll (map_err tls_transport_error) r.0,
        with_channels p (record p.state.channels { writer = r.1 }),
      )

  unfoldable pub poll_ready : Provider → Poll (Result Error (Unit {0})) × Provider
  unfolding StreamSink.poll_ready
  poll_ready = on_writer (StreamSink.poll_ready C N.IoError (framed_writer V))

  unfoldable pub start_send : InnerPlaintext → Method (Unit {0})
  unfolding Channels.start_send
  start_send item = do
    bytes ← lift (map_err codec_error (serialize item))
    on_channels (Channels.start_send V bytes)

  unfoldable pub poll_flush : Provider → Poll (Result Error (Unit {0})) × Provider
  unfolding StreamSink.poll_flush
  poll_flush = on_writer (StreamSink.poll_flush C N.IoError (framed_writer V))

  unfoldable pub poll_close : Provider → Poll (Result Error (Unit {0})) × Provider
  unfolding StreamSink.poll_close
  poll_close = on_writer (StreamSink.poll_close C N.IoError (framed_writer V))

  -- A poll that is awaited.
  abbrev pub await : (Provider → Poll (Result Error (Unit {0})) × Provider) → Method (Unit {0})
  await poll p = let r = poll p in (awaited r.0, r.1)

  -- `SinkExt::send` on the provider.
  unfoldable pub send : InnerPlaintext → Method (Unit {0})
  unfolding poll_ready start_send poll_flush
  send item = await poll_ready >> start_send item >> await poll_flush

  abbrev pub transpose : Option (Result Error InnerPlaintext) → Result Error (Option InnerPlaintext)
  transpose none = ok none
  transpose (some (ok message)) = ok (some message)
  transpose (some (err e)) = err e
  transpose (some panic) = panic

  unfoldable pub read_message : Method (Option InnerPlaintext)
  unfolding next
  read_message p = let r = next p in (transpose r.0, r.1)

  abbrev pub send_response : Option Octets → Method (Unit {0})
  send_response none = pure tt
  send_response (some message) = send (signaling message)

  abbrev pub apply_update : Bool → Option SecretUpdate → Method (Unit {0})
  apply_update is_server none = pure tt
  apply_update is_server (some secret_update) = update_cipher is_server secret_update

  -- What the loop of `read_bytes_inner` does with a signaling message.
  unfoldable pub process_signaling : Bool → Octets → Method (Unit {0})
  unfolding send update_cipher Driver.process_signaling_message
  process_signaling is_server message = do
    (secret_update, response) ←
        on_handshake (Driver.process_signaling_message O W Q (TransportError V) message)
    send_response response
    apply_update is_server secret_update

  unfoldable pub process_read_message : Bool → InnerPlaintext → Method (Option Octets)
  unfolding send update_cipher Driver.process_signaling_message
  process_read_message is_server (application b) = pure (some b)
  process_read_message is_server (signaling message) = do
    (secret_update, response) ←
        on_handshake (Driver.process_signaling_message O W Q (TransportError V) message)
    send_response response
    apply_update is_server secret_update
    pure none

  -- An outcome of a loop, or `none` where the loop still runs when the fuel is spent.
  abbrev pub Outcome : Type 0
  Outcome = Option (Result Error (Option Octets) × Provider)

  abbrev pub go_on : {A : Type 0} → Result Error A × Provider → (A → Provider → Outcome) → Outcome
  go_on (ok a, p) f = f a p
  go_on (err e, p) f = some (err e, p)
  go_on (panic, p) f = some (panic, p)

  -- The `loop` of `read_bytes_inner`, on the message that was read last. A round reads one message.
  unfoldable pub read_loop : ℕ → Bool → Option InnerPlaintext → Provider → Outcome
  unfolding process_signaling read_message
  read_loop fuel is_server none p = some (ok none, p)
  read_loop fuel is_server (some (application b)) p = some (ok (some b), p)
  read_loop zero is_server (some (signaling message)) p = none
  read_loop (suc fuel) is_server (some (signaling message)) p =
      go_on (process_signaling is_server message p)
        λ _ q. go_on (read_message q) λ next_message r. read_loop fuel is_server next_message r

  unfoldable pub read_bytes_inner : ℕ → Bool → Provider → Outcome
  unfolding read_loop
  read_bytes_inner fuel is_server p =
      go_on (read_message p) λ message q. read_loop fuel is_server message q

  -- `read_bytes` of a client and of a server.
  abbrev or_terminated : Result Error (Option Octets) → Result Error Octets
  or_terminated (ok none) =
      err (unexpected_message (ascii "Expected IpPacket, server terminated connection"))
  or_terminated (ok (some b)) = ok b
  or_terminated (err e) = err e
  or_terminated panic = panic

  unfoldable pub client_read_bytes : ℕ → Provider → Option (Result Error Octets × Provider)
  unfolding read_bytes_inner
  client_read_bytes fuel p = elim (read_bytes_inner fuel false p) [
    | none ↦ none
    | some (r, q) ↦ some (or_terminated r, q)
  ]

  unfoldable pub server_read_bytes : ℕ → Provider → Outcome
  unfolding read_bytes_inner
  server_read_bytes fuel p = read_bytes_inner fuel Bool.true p

  unfoldable pub shutdown : Method (Unit {0})
  unfolding Channels.close
  shutdown = on_channels (Channels.close V)

  unfoldable pub delete : Method (Unit {0})
  unfolding Driver.delete
  delete = on_handshake (Driver.delete O W Q (TransportError V))

  unfoldable pub epoch : Provider → ℕ
  unfolding Driver.epoch
  epoch p = Driver.epoch p.state.handshake
