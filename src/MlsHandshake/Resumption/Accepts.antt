-- ===== src/MlsHandshake/Resumption/Accepts.antt =====
-- What a server answers to a resumption, in src/mls_handshake/state_machine/server.rs.
use mls_tls_protocol.Base.{
  ◌+◌, ◌==◌, ◌≡◌, sym, subst, ap, ◌∙◌, Option, none, some, true, false, ok, bind-eq-ok,
  ok-injective, lift, ◌>>=◌, ◌>>◌,
}
use mls_tls_protocol.Base.Bytes.{Octets, as_u64}
use mls_tls_protocol.MlsHandshake.OpenMls.{OpenMls, Connection}
use mls_tls_protocol.MlsHandshake.Messages.{Wire, from_payload, resumption, check_version}
use mls_tls_protocol.MlsHandshake.Method.{coded, stored}
use mls_tls_protocol.MlsHandshake.Session
use mls_tls_protocol.MlsHandshake.Session.{MlsSession}
use mls_tls_protocol.MlsHandshake.Group.{IsMls}
use mls_tls_protocol.MlsHandshake.Group.Operations.{secrets_of, create_epoch_key_update_lem}
use mls_tls_protocol.MlsHandshake.Group.Process.{
  process_mls_update-Arrived, process_mls_update-in_epoch,
}
use mls_tls_protocol.MlsHandshake.Group.Pending.{Settles}
use mls_tls_protocol.MlsHandshake.Server
use mls_tls_protocol.MlsHandshake.Server.{Started}

module _ (O : OpenMls) (W : Wire O) (R : IsMls O) (id : O.GroupId) where
  open R use {Epoch, number, commit_of}

  start-process_resumption :
      (fresh : O.GroupId) (k : O.Signer) (bytes : Octets) (n : O.MessageIn) (c : Connection O)
      → W.deserialize_handshake bytes ≡ ok (from_payload (resumption (record { commit = n })))
      → Server.start O W fresh k bytes c ≡ Server.process_resumption O W (record { commit = n }) c
  unfolding Server.start check_version from_payload
  start-process_resumption fresh k bytes n c decoded =
      ap
        (λ r.
          (lift (coded O W r) >>= λ m.
          (lift (check_version m) >> Server.dispatch_start O W fresh k m.payload))
            c)
        decoded

  create_connection_confirmation-storage :
      (session : MlsSession O) (c d : Connection O) (bytes : Octets) (x : Epoch)
      → session.group_id ≡ id
      → R.stored c.storage id ≡ some (x, none)
      → Server.create_connection_confirmation O W session c ≡ (ok bytes, d)
      → d.storage ≡ c.storage
  unfolding Server.create_connection_confirmation
  create_connection_confirmation-storage session c d bytes x named held h =
      let (m, c1, e1, h1) =
        bind-eq-ok (stored O W (Session.create_epoch_key_update O W session)) _ c h in
      let (same, _) =
        create_epoch_key_update_lem O W R session c.storage c1.storage m x none
          (subst (λ n. R.stored c.storage n ≡ some (x, none)) (sym named) held)
          (λ i. ((e1 i).0, (e1 i).1.storage)) in
      sym (λ i. (h1 i).1.storage) ∙ same

  -- A server that accepts a resumption is in the epoch that the commit leads to, with its secrets.
  pub start-secrets_of :
      (fresh : O.GroupId) (k : O.Signer) (bytes : Octets) (n : O.MessageIn) (p : O.PrivateMessage)
      (c d : Connection O) (started : Started O) (x v y : Epoch) (pending : Option Epoch)
      → W.deserialize_handshake bytes ≡ ok (from_payload (resumption (record { commit = n })))
      → O.private_message n ≡ some p
      → commit_of p ≡ (id, (x, y))
      → Settles O W R x true v pending
      → R.stored c.storage id ≡ some (v, pending)
      → Server.start O W fresh k bytes c ≡ (ok started, d)
      → (started.secrets ≡ secrets_of O W R y) × (R.stored d.storage id ≡ some (y, none))
  unfolding Server.process_resumption
  start-secrets_of fresh k bytes n p c d started x v y pending decoded private commit settles held
        h =
      let h0 = sym (start-process_resumption fresh k bytes n c decoded) ∙ h in
      let (r, c1, e1, h1) =
        bind-eq-ok (stored O W (Session.process_mls_update O W n true)) _ c h0 in
      let (is_secret, named, now) =
        process_mls_update-Arrived O W R n p true c.storage c1.storage r.0 r.1 r.2 id x v y pending
          settles private commit held (λ i. ((e1 i).0, (e1 i).1.storage)) in
      let (b, c2, e2, h2) = bind-eq-ok (Server.create_connection_confirmation O W r.1) _ c1 h1 in
      let same = create_connection_confirmation-storage r.1 c1 c2 b y named now e2 in
      (
        sym (ap (λ v. v.secrets) (ok-injective (λ i. (h2 i).0))) ∙ is_secret,
        subst (λ v. R.stored v id ≡ some (y, none)) (sym same ∙ (λ i. (h2 i).1.storage)) now,
      )

  -- A resumption that a server in v accepts has a commit of v, or of the epoch after it.
  pub start-in_epoch :
      (fresh : O.GroupId) (k : O.Signer) (bytes : Octets) (n : O.MessageIn) (p : O.PrivateMessage)
      (c d : Connection O) (started : Started O) (x v y : Epoch) (pending : Option Epoch)
      → W.deserialize_handshake bytes ≡ ok (from_payload (resumption (record { commit = n })))
      → O.private_message n ≡ some p
      → commit_of p ≡ (id, (x, y))
      → R.stored c.storage id ≡ some (v, pending)
      → (number x == as_u64 (number v + 1)) ≡ false
      → Server.start O W fresh k bytes c ≡ (ok started, d)
      → x ≡ v
  unfolding Server.process_resumption
  start-in_epoch fresh k bytes n p c d started x v y pending decoded private commit held other h =
      let h0 = sym (start-process_resumption fresh k bytes n c decoded) ∙ h in
      let (r, c1, e1, _) = bind-eq-ok (stored O W (Session.process_mls_update O W n true)) _ c h0 in
      process_mls_update-in_epoch O W R n p c.storage c1.storage r id x v y pending private commit
        held other (λ i. ((e1 i).0, (e1 i).1.storage))
