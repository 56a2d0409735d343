-- ===== src/EncryptionProvider.antt =====
-- src/encryption_provider/mod.rs: the provider of an encrypted connection, by the state of the
-- connection. `IS_SERVER` is an argument of the methods that read it.
pub mod Parameters
pub mod Channels
pub mod Start
pub mod Established
pub mod SendBytes
use mls_tls_protocol.Base.Bytes.{Octets}
use mls_tls_protocol.Base.{Option, Result, map_err}
use mls_tls_protocol.UpdatePolicy.{UpdatePolicy}
use mls_tls_protocol.MlsHandshake.Driver.{MlsHandshake, MlsHandshakeError}
use Parameters.{Environment, TransportError}
use Channels.{ProtectedChannels}

pub data EncryptionProviderError (V : Environment) (PreHandshakeError : Type 0) : Type 0 where
  io_error : V.N.IoError → EncryptionProviderError V PreHandshakeError
  -- Boxed in the source.
  pre_handshake_error : PreHandshakeError → EncryptionProviderError V PreHandshakeError
  handshake_error :
      MlsHandshakeError V.O V.W (TransportError V) → EncryptionProviderError V PreHandshakeError
  codec_error : V.W.CodecError → EncryptionProviderError V PreHandshakeError
  unexpected_message : Octets → EncryptionProviderError V PreHandshakeError
  tls_transport_error : TransportError V → EncryptionProviderError V PreHandshakeError
  key_derivation_error : V.C.CryptoError → EncryptionProviderError V PreHandshakeError

pub record UnprotectedHandshakeState (V : Environment) : Type 0 where
  pub reader : V.N.Reader
  pub writer : V.N.Writer

pub record ProtectedHandshakeState (V : Environment) : Type 0 where
  pub channels : ProtectedChannels V
  pub session_id : Option Octets

pub record EstablishedState (V : Environment) : Type 0 where
  pub handshake : MlsHandshake V.O
  pub channels : ProtectedChannels V

pub record EncryptionProvider (V : Environment) (State : Type 0) : Type 0 where
  pub state : State
  pub address : Octets
  pub update_policy : UpdatePolicy V.K
