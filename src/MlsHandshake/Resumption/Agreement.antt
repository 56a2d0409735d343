-- ===== src/MlsHandshake/Resumption/Agreement.antt =====
-- When a client and a server agree after a resumption, in src/mls_handshake/state_machine.
use mls_tls_protocol.Base.{◌+◌, ◌==◌, ◌≡◌, ◌≢◌, ◌∙◌, Option, none, some, true, false, ok}
use mls_tls_protocol.Base.Bytes.{Octets, as_u64}
use mls_tls_protocol.TlsAead.Secrets.{TrafficSecrets}
use mls_tls_protocol.MlsHandshake.OpenMls.{OpenMls, Connection}
use mls_tls_protocol.MlsHandshake.Messages.{Wire}
use mls_tls_protocol.MlsHandshake.Group.{IsMls, ReadsBack}
use mls_tls_protocol.MlsHandshake.Group.Operations.{secrets_of}
use mls_tls_protocol.MlsHandshake.Group.Pending.{Settles}
use mls_tls_protocol.MlsHandshake.Resumption.{Resumes}
use mls_tls_protocol.MlsHandshake.Resumption.Sends.{resume-Merged}
use mls_tls_protocol.MlsHandshake.Resumption.Accepts.{start-secrets_of, start-in_epoch}
use mls_tls_protocol.MlsHandshake.Client
use mls_tls_protocol.MlsHandshake.Client.{Client}
use mls_tls_protocol.MlsHandshake.Server
use mls_tls_protocol.MlsHandshake.Server.{Started}
use mls_tls_protocol.MlsHandshake.Persistence.{Sql}

module _ (O : OpenMls) (W : Wire O) (Q : Sql O W) (R : IsMls O) (B : ReadsBack W R)
    (id : O.GroupId) where
  open R use {Epoch, number, stored}

  -- A client resumes with a commit that it made in some epoch: a new one, or that of an update which was
  -- not confirmed. The server is in that epoch, where it drops a pending commit of its own, or it has a
  -- pending commit that leads to that epoch, which it merges first. If resuming and accepting succeed,
  -- client and server have the secrets of one epoch, and the group of both is stored in it without a
  -- pending commit. Groups and messages behave as IsMls and ReadsBack say.
  pub resume-agrees :
      (k l : O.Signer) (fresh : O.GroupId) (s t : Client O W) (c c' d d' : Connection O)
      (secrets : TrafficSecrets) (bytes : Octets) (started : Started O) (x v : Epoch)
      (pending : Option Epoch)
      → s.mls_session.group_id ≡ id
      → Resumes O W R id x s.internal_state c.storage
      → Settles O W R x true v pending
      → stored d.storage id ≡ some (v, pending)
      → Client.resume O W k (s, c) ≡ (ok (secrets, bytes), (t, c'))
      → Server.start O W fresh l bytes d ≡ (ok started, d')
      → (y : Epoch) × (secrets ≡ secrets_of O W R y)
        × (started.secrets ≡ secrets_of O W R y)
        × (stored c'.storage id ≡ some (y, none))
        × (stored d'.storage id ≡ some (y, none))
  resume-agrees k l fresh s t c c' d d' secrets bytes started x v pending named resumes settles held
        resumed accepted =
      let (p, merged, has_secrets, written) =
        resume-Merged O W Q R id k s t c c' secrets bytes x named resumes resumed in
      let (n, decoded, private) =
        B.resumption_read p.mls_message bytes merged.commits.is_self_update written in
      let (is_secret, now) =
        start-secrets_of O W R id fresh l bytes n (R.sent p.mls_message) d d' started x v
          merged.target pending decoded private merged.commits.has_commit settles held accepted in
      (merged.target, has_secrets ∙ merged.has_secrets, is_secret, merged.in_target, now)

  -- A server that is neither in the epoch in which the client made its commit nor in the one before it never
  -- accepts the resumption.
  pub resume-rejected :
      (k l : O.Signer) (fresh : O.GroupId) (s t : Client O W) (c c' d d' : Connection O)
      (secrets : TrafficSecrets) (bytes : Octets) (started : Started O) (x v : Epoch)
      (pending : Option Epoch)
      → s.mls_session.group_id ≡ id
      → Resumes O W R id x s.internal_state c.storage
      → stored d.storage id ≡ some (v, pending)
      → x ≢ v
      → (number x == as_u64 (number v + 1)) ≡ false
      → Client.resume O W k (s, c) ≡ (ok (secrets, bytes), (t, c'))
      → Server.start O W fresh l bytes d ≢ (ok started, d')
  resume-rejected k l fresh s t c c' d d' secrets bytes started x v pending named resumes held left
        other resumed accepted =
      let (p, merged, _, written) =
        resume-Merged O W Q R id k s t c c' secrets bytes x named resumes resumed in
      let (n, decoded, private) =
        B.resumption_read p.mls_message bytes merged.commits.is_self_update written in
      left (
        start-in_epoch O W R id fresh l bytes n (R.sent p.mls_message) d d' started x v
          merged.target pending decoded private merged.commits.has_commit held other accepted)
