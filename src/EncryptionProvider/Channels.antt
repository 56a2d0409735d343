-- ===== src/EncryptionProvider/Channels.antt =====
-- `ProtectedChannels` of src/encryption_provider/mod.rs. Its two halves share one codec behind a lock; the
-- codec is a field of the channels here. The halves belong to one task, which a panic under the lock
-- ends, so the lock is never met poisoned.
pub mod Updates
use mls_tls_protocol.Base.{
  Bool, false, [], Option, none, Result, ok, M, and_then, map_err, continue, ◌>>=◌, ◌>>◌,
}
use mls_tls_protocol.Base.Bytes.{Octets}
use mls_tls_protocol.TlsAead.Secrets.{TrafficSecrets, SecretUpdate, both}
use mls_tls_protocol.TlsAead.Frame.{TlsPacketIn}
use mls_tls_protocol.TlsAead.Codec
use mls_tls_protocol.TlsAead.Codec.{TlsAeadCodec}
use mls_tls_protocol.TlsAead.StreamSink
use mls_tls_protocol.TlsAead.StreamSink.{Poll, ready, pending, TlsAeadSink, encryption_failed}
use mls_tls_protocol.MlsHandshake.Driver.{Transport}
use mls_tls_protocol.EncryptionProvider.Parameters.{
  Environment, TransportError, framed_writer, awaited,
}

pub record ProtectedChannels (V : Environment) : Type 0 where
  pub reader : V.N.Reader
  pub writer : TlsAeadSink V.N.Writer
  pub cipher : TlsAeadCodec V.C

-- The value of a `poll_next` whose reader was ready.
abbrev awaited_next : {A : Type 0} → Poll (Option A) → Option A
awaited_next (ready r) = r
awaited_next pending = none

module _ (V : Environment) where
  open V use {C, N}

  abbrev pub OnChannels : Type 0 → Type 0
  OnChannels A = M (ProtectedChannels V) (TransportError V) A

  unfoldable pub new :
      Bool → N.Reader → N.Writer → TrafficSecrets → Result (TransportError V) (ProtectedChannels V)
  unfolding Codec.new
  new is_server reader writer traffic_secrets =
      and_then
        (map_err encryption_failed
          (Codec.new C is_server traffic_secrets [] C.sha2_512 C.aes_256_gcm))
        λ cipher. ok (record {
          reader = reader;
          writer = StreamSink.new C N.IoError (framed_writer V) writer;
          cipher = cipher;
        })

  -- A step on the codec under the lock.
  abbrev pub on_cipher : M (TlsAeadCodec C) (TransportError V) (Unit {0}) → OnChannels (Unit {0})
  on_cipher f c = let r = f c.cipher in (r.0, record c { cipher = r.1 })

  -- The same update by the writer and then by the reader, on their one codec.
  unfoldable pub update_both : SecretUpdate → Bool → OnChannels (Unit {0})
  unfolding StreamSink.update_traffic_secrets
  update_both secret_update is_server = do
    on_cipher (StreamSink.update_traffic_secrets C N.IoError false secret_update is_server)
    on_cipher (StreamSink.update_traffic_secrets C N.IoError false secret_update is_server)

  unfoldable pub update_cipher : Bool → TrafficSecrets → OnChannels (Unit {0})
  unfolding update_both
  update_cipher is_server traffic_secrets = update_both (both traffic_secrets) is_server

  -- `next` on the stream of packets.
  unfoldable pub next :
      ProtectedChannels V → Option (Result (TransportError V) TlsPacketIn) × ProtectedChannels V
  unfolding StreamSink.poll_next
  next c =
      let r = N.next c.reader in
      let p = StreamSink.poll_next C N.IoError false (ready r.0) c.cipher in
      (awaited_next p.0, record c { reader = r.1; cipher = p.1 })

  -- A poll of the sink, awaited.
  abbrev pub on_sink :
      (TlsAeadSink N.Writer → Poll (Result (TransportError V) (Unit {0})) × TlsAeadSink N.Writer)
      → OnChannels (Unit {0})
  on_sink poll c = let r = poll c.writer in (awaited r.0, record c { writer = r.1 })

  unfoldable pub start_send : Octets → OnChannels (Unit {0})
  unfolding StreamSink.start_send
  start_send bytes c =
      let r = StreamSink.start_send C N.IoError (framed_writer V) false bytes c.writer c.cipher in
      (r.0, record c { writer = r.1.0; cipher = r.1.1 })

  unfoldable pub writer_ready : OnChannels (Unit {0})
  unfolding StreamSink.poll_ready
  writer_ready = on_sink (StreamSink.poll_ready C N.IoError (framed_writer V))

  unfoldable pub flush : OnChannels (Unit {0})
  unfolding StreamSink.poll_flush
  flush = on_sink (StreamSink.poll_flush C N.IoError (framed_writer V))

  unfoldable pub close : OnChannels (Unit {0})
  unfolding StreamSink.poll_close
  close = on_sink (StreamSink.poll_close C N.IoError (framed_writer V))

  -- `SinkExt::send` on the encrypting sink.
  unfoldable pub send : Octets → OnChannels (Unit {0})
  unfolding writer_ready start_send flush
  send bytes = writer_ready >> start_send bytes >> flush

  -- The channels as a transport of the MLS handshake.
  abbrev pub protected_transport : Transport
  protected_transport = record {
    State = ProtectedChannels V;
    Error = TransportError V;
    next = next;
    send = send;
  }
