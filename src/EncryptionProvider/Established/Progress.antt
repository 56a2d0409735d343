-- ===== src/EncryptionProvider/Established/Progress.antt =====
-- Sending over a network that works, in src/encryption_provider/mod.rs.
use mls_tls_protocol.Base.{◌≡◌, List, [], ok, arith}
use mls_tls_protocol.Base.Bytes.{Octets}
use mls_tls_protocol.TlsAead.Codec.{encrypt}
use mls_tls_protocol.TlsAead.StreamSink
use mls_tls_protocol.TlsAead.StreamSink.Progress.{IsReady, polls-Finished}
use mls_tls_protocol.EncryptionProvider.Parameters.{Environment, InnerPlaintext, framed_writer}
use mls_tls_protocol.EncryptionProvider.Channels
use mls_tls_protocol.EncryptionProvider.Established.{
  Provider, send, start_send, poll_ready, poll_flush,
}

module _ (V : Environment) (PreHandshakeError : Type 0) where
  open V use {C, N}

  abbrev P : Type 0
  P = Provider V PreHandshakeError

  -- Over a network that is ready and accepts each record, a message that can be written and
  -- encrypted is sent: `send` succeeds, and leaves nothing in the buffer.
  pub send_succeeds :
      (item : InnerPlaintext) (p : P) (bytes : Octets)
      → IsReady (framed_writer V)
      → V.serialize item ≡ ok bytes
      → (encrypt C bytes (p.state.channels.cipher, [])).0 ≡ ok tt
      → let r = send V PreHandshakeError item p in
        (r.0 ≡ ok tt) × (r.1.state.channels.writer.buffer ≡ [])
  unfolding send start_send poll_ready poll_flush Channels.start_send StreamSink.start_send
  send_succeeds item p bytes works written encrypted =
      let finished = polls-Finished C N.IoError (framed_writer V) works in
      let start = p.state.channels.writer in
      let first = (finished start).0 in
      let buffer : List Octets = (encrypt C bytes (p.state.channels.cipher, [])).1.1 in
      let last =
        (finished (record (StreamSink.poll_ready C N.IoError (framed_writer V) start).1 {
          buffer = buffer;
        })).1 in
      let emptied = first.1 in (ground arith, ground arith)
