-- ===== src/MlsHandshake/Method.antt =====
-- Methods of the two handshake states: the state is what `&mut self` points to, beside the database.
-- Here stand the steps that both sides' methods are made of, and the trait `HandshakeState` of
-- src/mls_handshake/state_machine/mod.rs.
use mls_tls_protocol.Base.{Result, ok, M, lift, ◌>>=◌, map_err}
use mls_tls_protocol.Base.Bytes.{Octets}
use mls_tls_protocol.MlsHandshake.OpenMls.{OpenMls, Connection}
use mls_tls_protocol.MlsHandshake.Messages.{
  Wire, ErrorOf, codec_error, epoch_key_update, EpochKeyUpdate,
}
use mls_tls_protocol.MlsHandshake.Session.{
  MlsSession, process_epoch_key_update, create_epoch_key_update,
}

module _ (O : OpenMls) (W : Wire O) where
  abbrev pub Error : Type 0
  Error = ErrorOf O W

  abbrev pub Method : Type 0 → Type 0 → Type 0
  Method S A = M (S × Connection O) Error A

  -- A function of the database alone.
  abbrev pub OnConnection : Type 0 → Type 0
  OnConnection A = M (Connection O) Error A

  abbrev pub stored {ℓ} : {A : Type ℓ} → M O.Storage Error A → M (Connection O) Error A
  stored f c = let r = f c.storage in (r.0, record c { storage = r.1 })

  abbrev pub on_connection {ℓ} :
      {S : Type 0} {A : Type ℓ} → M (Connection O) Error A → M (S × Connection O) Error A
  on_connection f (self, c) = let r = f c in (r.0, (self, r.1))

  abbrev pub modify : {S : Type 0} → (S → S) → Method S (Unit {0})
  modify f (self, c) = (ok tt, (f self, c))

  -- `self`, to read its fields.
  abbrev pub this : {S : Type 0} → Method S S
  this (self, c) = (ok self, (self, c))

  abbrev pub coded {ℓ} : {A : Type ℓ} → Result W.CodecError A → Result Error A
  coded r = map_err codec_error r

  -- `create_epoch_key_update` and `process_epoch_key_update` of the trait
  unfoldable pub epoch_key_update_bytes : MlsSession O → OnConnection Octets
  unfolding create_epoch_key_update
  epoch_key_update_bytes session = do
    message ← stored (create_epoch_key_update O W session)
    lift (coded (W.serialize_signaling (epoch_key_update message)))

  unfoldable pub check_epoch_key_update : MlsSession O → EpochKeyUpdate → OnConnection (Unit {0})
  unfolding process_epoch_key_update
  check_epoch_key_update session message = stored (process_epoch_key_update O W session message)
