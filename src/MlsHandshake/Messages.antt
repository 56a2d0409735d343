-- ===== src/MlsHandshake/Messages.antt =====
-- src/mls_handshake/messages.rs, and `HandshakeError` of src/mls_handshake/state_machine/mod.rs. The
-- derived TLS codecs are the parameter `Wire`.
pub mod Alerts
use Prim.Native.String.{String}
use mls_tls_protocol.Base.{ℕ, Bool, Result, ok, err}
use mls_tls_protocol.Base.Bytes.{Octets}
use mls_tls_protocol.MlsHandshake.OpenMls.{OpenMls}

pub data ProtocolVersion : Type 0 where
  v01 : ProtocolVersion

pub data Boolean : Type 0 where
  true false : Boolean

-- `From<Boolean> for bool` and back
unfoldable pub to_bool : Boolean → Bool
to_bool true = Bool.true
to_bool false = Bool.false

unfoldable pub from_bool : Bool → Boolean
from_bool Bool.true = true
from_bool Bool.false = false

pub record EpochKeyUpdate : Type 0 where
  pub epoch : ℕ  -- u64

pub record KeyUpdate : Type 0 where
  pub update_requested : Boolean

-- The messages over the type of the MLS message that they carry: `…Out` over `MlsMessageOut`, and
-- `…In` over `MlsMessageIn`.
module _ (Message : Type 0) where
  pub record ClientHello : Type 0 where
    pub key_package : Message

  pub record ServerHello : Type 0 where
    pub welcome : Message

  pub record Resumption : Type 0 where
    pub commit : Message

  pub data HandshakePayload : Type 0 where
    client_hello : ClientHello → HandshakePayload
    resumption : Resumption → HandshakePayload

  pub record MlsTlsHandshake : Type 0 where
    pub version : ProtocolVersion
    pub payload : HandshakePayload

  pub record ConnectionUpdate : Type 0 where
    pub update_requested : Boolean
    pub mls_commit : Message

  pub data SignalingMessage : Type 0 where
    connection_update : ConnectionUpdate → SignalingMessage
    connection_confirmation : EpochKeyUpdate → SignalingMessage
    epoch_key_update : EpochKeyUpdate → SignalingMessage
    key_update : KeyUpdate → SignalingMessage

module _ {Message : Type 0} where
  unfoldable pub message_type : SignalingMessage Message → String
  message_type (connection_update _) = "ConnectionUpdate"
  message_type (connection_confirmation _) = "ConnectionConfirmation"
  message_type (epoch_key_update _) = "EpochKeyUpdate"
  message_type (key_update _) = "KeyUpdate"

  -- `From<HandshakePayloadOut> for MlsTlsHandshakeOut`, with the default version
  unfoldable pub from_payload : HandshakePayload Message → MlsTlsHandshake Message
  from_payload payload = record { version = v01; payload = payload }

-- src/authentication.rs
pub data VerificationError : Type 0 where
  wrong_credential_type unexpected_verifying_key library_error : VerificationError

-- The codec errors of `tls_codec`, the errors of `rusqlite`, and the boxed errors of `openmls`.
pub data HandshakeError (O : OpenMls) (CodecError SqlError : Type 0) : Type 0 where
  codec_error : CodecError → HandshakeError O CodecError SqlError
  wrong_protocol_version : HandshakeError O CodecError SqlError
  -- What was expected, and the actual message.
  unexpected_message : String → String → HandshakeError O CodecError SqlError
  verification_error : VerificationError → HandshakeError O CodecError SqlError
  shared_secret_error : O.Error → HandshakeError O CodecError SqlError
  server_hello_error : HandshakeError O CodecError SqlError
  provider_error : O.Error → HandshakeError O CodecError SqlError
  key_package_error : O.Error → HandshakeError O CodecError SqlError
  client_hello_error : O.Error → HandshakeError O CodecError SqlError
  invalid_session_id : HandshakeError O CodecError SqlError
  resumption_error : O.Error → HandshakeError O CodecError SqlError
  -- `ResumptionError` around an error of `MlsSession::update`
  resumption_failed : HandshakeError O CodecError SqlError → HandshakeError O CodecError SqlError
  connection_update_error : O.Error → HandshakeError O CodecError SqlError
  waiting_for_response : HandshakeError O CodecError SqlError
  -- `PersistenceError`, of a statement or of the group storage
  storage_error : O.Error → HandshakeError O CodecError SqlError
  persistence_error : SqlError → HandshakeError O CodecError SqlError
  validation_error : String → HandshakeError O CodecError SqlError

abbrev version_is_default : ProtocolVersion → Bool
version_is_default v01 = Bool.true

-- `MlsTlsHandshakeIn::check_version`
unfoldable pub check_version :
    {O : OpenMls} {CodecError SqlError Message : Type 0}
    → MlsTlsHandshake Message
    → Result (HandshakeError O CodecError SqlError) (Unit {0})
check_version m = elim (version_is_default m.version) [
  | Bool.true ↦ ok tt
  | Bool.false ↦ err wrong_protocol_version
]

-- The TLS codecs that the messages derive, and the errors beside the handshake's own.
pub record Wire (O : OpenMls) : Type 1 where
  pub CodecError : Type 0
  pub SqlError : Type 0
  pub serialize_handshake : MlsTlsHandshake O.MessageOut → Result CodecError Octets
  pub deserialize_handshake : Octets → Result CodecError (MlsTlsHandshake O.MessageIn)
  pub serialize_server_hello : ServerHello O.MessageOut → Result CodecError Octets
  pub deserialize_server_hello : Octets → Result CodecError (ServerHello O.MessageIn)
  pub serialize_signaling : SignalingMessage O.MessageOut → Result CodecError Octets
  pub deserialize_signaling : Octets → Result CodecError (SignalingMessage O.MessageIn)

abbrev pub ErrorOf : (O : OpenMls) → Wire O → Type 0
ErrorOf O W = HandshakeError O W.CodecError W.SqlError
