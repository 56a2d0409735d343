-- ===== src/MlsHandshake/Pair/Confirming.antt =====
-- The confirmations that both sides write and check, in src/mls_handshake/state_machine/mod.rs.
use mls_tls_protocol.Base.{◌≡◌, sym, subst, ◌∙◌, Option, some, ok, bind-eq-ok, map_err-eq-ok}
use mls_tls_protocol.Base.Bytes.{Octets}
use mls_tls_protocol.MlsHandshake.OpenMls.{OpenMls, Connection}
use mls_tls_protocol.MlsHandshake.Messages.{Wire, EpochKeyUpdate, epoch_key_update, codec_error}
use mls_tls_protocol.MlsHandshake.Method.{stored, epoch_key_update_bytes, check_epoch_key_update}
use mls_tls_protocol.MlsHandshake.Session
use mls_tls_protocol.MlsHandshake.Session.{MlsSession}
use mls_tls_protocol.MlsHandshake.Group.{IsMls}
use mls_tls_protocol.MlsHandshake.Group.Operations.{
  create_epoch_key_update_lem, process_epoch_key_update_lem,
}
use mls_tls_protocol.MlsHandshake.Pair.{Confirms}

module _ (O : OpenMls) (W : Wire O) (R : IsMls O) where
  -- An `EpochKeyUpdate` of a session names the epoch of its group, and the database stays as it is.
  pub epoch_key_update_bytes-Confirms :
      (session : MlsSession O) (c d : Connection O) (bytes : Octets) (id : O.GroupId) (x : R.Epoch)
      (pending : Option R.Epoch)
      → session.group_id ≡ id
      → R.stored c.storage id ≡ some (x, pending)
      → epoch_key_update_bytes O W session c ≡ (ok bytes, d)
      → Confirms O W R x bytes × (d.storage ≡ c.storage)
  unfolding epoch_key_update_bytes
  epoch_key_update_bytes-Confirms session c d bytes id x pending named held h =
      let (m, c1, e1, h1) =
        bind-eq-ok (stored O W (Session.create_epoch_key_update O W session)) _ c h in
      let (same, is_x) =
        create_epoch_key_update_lem O W R session c.storage c1.storage m x pending
          (subst (λ n. R.stored c.storage n ≡ some (x, pending)) (sym named) held)
          (λ i. ((e1 i).0, (e1 i).1.storage)) in
      (
        record {
          is_confirmation =
              subst (λ v. W.serialize_signaling (epoch_key_update v) ≡ ok bytes) is_x
                (map_err-eq-ok codec_error _ (λ i. (h1 i).0));
        },
        sym (λ i. (h1 i).1.storage) ∙ same,
      )

  pub check_epoch_key_update-storage :
      (session : MlsSession O) (message : EpochKeyUpdate) (c d : Connection O) (u : Unit {0})
      → check_epoch_key_update O W session message c ≡ (ok u, d)
      → d.storage ≡ c.storage
  unfolding check_epoch_key_update
  check_epoch_key_update-storage session message c d u h =
      process_epoch_key_update_lem O W R session c.storage d.storage message u
        (λ i. ((h i).0, (h i).1.storage))
