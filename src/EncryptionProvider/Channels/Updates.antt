-- ===== src/EncryptionProvider/Channels/Updates.antt =====
-- The update of the writer and then of the reader, in src/encryption_provider/mod.rs.
use mls_tls_protocol.Base.{
  ◌≡◌, Bool, Result, Result-Cases, ok_case, err_case, panic_case, map_err, arith,
}
use mls_tls_protocol.TlsAead.Secrets.{SecretUpdate}
use mls_tls_protocol.TlsAead.Codec
use mls_tls_protocol.TlsAead.Codec.{TlsAeadCodec}
use mls_tls_protocol.TlsAead.Codec.Rekey.{update_traffic_secrets_twice}
use mls_tls_protocol.TlsAead.StreamSink
use mls_tls_protocol.TlsAead.StreamSink.{encryption_failed}
use mls_tls_protocol.EncryptionProvider.Parameters.{Environment}
use mls_tls_protocol.EncryptionProvider.Channels.{ProtectedChannels, update_both}

module _ (V : Environment) where
  open V use {C}

  abbrev once :
      SecretUpdate
      → Bool
      → TlsAeadCodec C
      → Result (Codec.TlsAeadCodecError C) (Unit {0}) × TlsAeadCodec C
  once u is_server c = Codec.update_traffic_secrets C u is_server c

  -- The writer and the reader of the channels take an update one after the other on their one codec; both
  -- together do what one update of the codec does, whether it succeeds or fails.
  pub update_both_once :
      (u : SecretUpdate) (is_server : Bool) (c : ProtectedChannels V)
      → let r = Codec.update_traffic_secrets C u is_server c.cipher in
        update_both V u is_server c ≡ (map_err encryption_failed r.0, record c { cipher = r.1 })
  unfolding update_both StreamSink.update_traffic_secrets
  update_both_once u is_server c = elim (Result-Cases (once u is_server c.cipher).0) [
    | ok_case _ e ↦
        let again =
          update_traffic_secrets_twice C u is_server c.cipher {c' = (once u is_server c.cipher).1}
            (ground arith) in
        ground arith
    | err_case x e ↦ ground arith
    | panic_case e ↦ ground arith
  ]
