-- ===== src/EncryptionProvider/Parameters.antt =====
-- What a connection stands on: the network and the other parameters of the model, in one record. An
-- awaited operation of the network is one that has become ready.
use mathlib.Core.Option
use mathlib.Core.Option.{Option}
use mls_tls_protocol.Base.{Result, panic, M, map_err, ◌>>◌}
use mls_tls_protocol.Base.Bytes.{Octets}
use mls_tls_protocol.Crypto.{Crypto}
use mls_tls_protocol.TlsAead.Frame.{TlsPacketIn}
use mls_tls_protocol.TlsAead.StreamSink.{Poll, ready, pending, InnerSink, SinkError, io_error}
use mls_tls_protocol.UpdatePolicy.TimeBased.{Chrono}
use mls_tls_protocol.PreHandshake.{HandshakePayload}
use mls_tls_protocol.MlsHandshake.OpenMls.{OpenMls}
use mls_tls_protocol.MlsHandshake.Messages.{Wire}
use mls_tls_protocol.MlsHandshake.Persistence.{Sql}
use mls_tls_protocol.MlsHandshake.Driver.{Transport}

pub data InnerPlaintext : Type 0 where
  -- The message of a `signaling` is not interpreted by the application, but by the handshake.
  application signaling : Octets → InnerPlaintext

-- A connected socket, and the framed reader and writer over its two halves.
pub record Network : Type 1 where
  pub IoError : Type 0
  pub Socket : Type 0
  pub Reader : Type 0
  pub Writer : Type 0
  pub peer_addr : Socket → Result IoError Octets
  -- `into_split`, `FramedRead::new` and `FramedWrite::new`
  pub frame : Socket → Reader × Writer
  pub next : Reader → Option (Result IoError TlsPacketIn) × Reader
  pub writer_ready : Writer → Result IoError (Unit {0}) × Writer
  pub start_send : Octets → Writer → Result IoError (Unit {0}) × Writer
  pub flush : Writer → Result IoError (Unit {0}) × Writer
  pub close : Writer → Result IoError (Unit {0}) × Writer

-- An implementation of the trait `PreHandshake` on the socket.
pub record PreHandshake (N : Network) : Type 1 where
  pub Error : Type 0
  pub client_handshake : N.Socket → Result Error HandshakePayload × N.Socket
  pub server_handshake : N.Socket → Result Error HandshakePayload × N.Socket

pub record Environment : Type 1 where
  pub C : Crypto
  pub O : OpenMls
  pub W : Wire O
  pub Q : Sql O W
  pub K : Chrono
  pub N : Network
  -- The TLS codec that `InnerPlaintext` derives.
  pub serialize : InnerPlaintext → Result W.CodecError Octets
  pub deserialize : Octets → Result W.CodecError InnerPlaintext

-- The value of a poll that was awaited, so that it is ready.
abbrev pub awaited : {E A : Type 0} → Poll (Result E A) → Result E A
awaited (ready r) = r
awaited pending = panic

module _ (V : Environment) where
  open V use {C, N}

  abbrev pub TransportError : Type 0
  TransportError = SinkError C N.IoError

  -- The framed writer as a sink.
  abbrev pub framed_writer : InnerSink N.IoError
  framed_writer = record {
    State = N.Writer;
    poll_ready = λ w. let r = N.writer_ready w in (ready r.0, r.1);
    start_send = N.start_send;
    poll_flush = λ w. let r = N.flush w in (ready r.0, r.1);
    poll_close = λ w. let r = N.close w in (ready r.0, r.1);
  }

  -- `SinkExt::send` on the framed writer.
  abbrev send_plain : Octets → M N.Writer N.IoError (Unit {0})
  send_plain bytes = N.writer_ready >> N.start_send bytes >> N.flush

  -- The framed reader and writer as a transport of the MLS handshake.
  abbrev pub plain_transport : Transport
  plain_transport = record {
    State = N.Reader × N.Writer;
    Error = TransportError;
    next = λ t. let r = N.next t.0 in (Option.map (map_err io_error) r.0, (r.1, t.1));
    send = λ bytes t. let r = send_plain bytes t.1 in (map_err io_error r.0, (t.0, r.1));
  }
