-- ===== src/MlsHandshake/Group/Operations.antt =====
-- The operations of src/mls_handshake/state_machine/mls_group.rs on the epochs of a group.
use mls_tls_protocol.Base.{
  sym, ap, ◌∙◌, ◌≡◌, subst, Option, none, some, Result, ok, arith, [], bind-eq-ok, Result-Cases,
  ok_case, err_case, panic_case, ok-injective,
}
use mls_tls_protocol.Base.Bytes.{Octets, ascii}
use mls_tls_protocol.TlsAead.Secrets.{TrafficSecrets}
use mls_tls_protocol.MlsHandshake.OpenMls.{OpenMls}
use mls_tls_protocol.MlsHandshake.Messages.{resumption_error, Wire, EpochKeyUpdate}
use mls_tls_protocol.MlsHandshake.Session
use mls_tls_protocol.MlsHandshake.Session.{
  MlsSession, ClientIdentity, Error, export_label, on_group, load_group,
}
use mls_tls_protocol.MlsHandshake.Group.{IsMls, Commits}

abbrev client_label : Octets
client_label = export_label (ascii "Initial Client Traffic Secret")

abbrev server_label : Octets
server_label = export_label (ascii "Initial Server Traffic Secret")

module _ (O : OpenMls) (W : Wire O) (R : IsMls O) where
  open R use {Epoch, number, exporter, secret_length, state, stored, commit_of, target, sent}

  -- The secrets that every member exports in an epoch.
  abbrev pub secrets_of : Epoch → TrafficSecrets
  secrets_of x = record {
    client_secret = record { octets = exporter x client_label [] secret_length };
    server_secret = record { octets = exporter x server_label [] secret_length };
  }

  load_group-stored :
      (id : O.GroupId) (s s' : O.Storage) (g : O.Group)
      → load_group O W id s ≡ (ok g, s')
      → (s' ≡ s) × (O.group_id g ≡ id) × (stored s id ≡ some (state g))
  unfolding load_group
  load_group-stored id s s' g h = elim (Result-Cases (O.load s id)) [
    | ok_case none e ↦ absurd (ground arith)
    | ok_case (some k) e ↦
        let (same, held) = R.load_ok s id k e in (ground arith, ground arith, ground arith)
    | err_case x e ↦ absurd (ground arith)
    | panic_case e ↦ absurd (ground arith)
  ]

  pub load_group-holds :
      (id : O.GroupId) (s s' : O.Storage) (g : O.Group) (v : Epoch × Option Epoch)
      → stored s id ≡ some v
      → load_group O W id s ≡ (ok g, s')
      → (s' ≡ s) × (O.group_id g ≡ id) × (state g ≡ v)
  load_group-holds id s s' g v held h =
      let (same, named, found) = load_group-stored id s s' g h in (same, named, cc)

  pub on_group-eq-ok :
      {A : Type 0} (f : O.Error → Error O W)
      (op : O.Group × O.Storage → Result O.Error A × (O.Group × O.Storage)) (g g' : O.Group)
      (s s' : O.Storage) (a : A)
      → on_group O W f op g s ≡ (ok (a, g'), s')
      → op (g, s) ≡ (ok a, (g', s'))
  on_group-eq-ok f op g g' s s' a h = elim (Result-Cases (op (g, s)).0) [
    | ok_case b e ↦ ground arith
    | err_case x e ↦ absurd (ground arith)
    | panic_case e ↦ absurd (ground arith)
  ]

  pub export_traffic_secrets-secrets_of :
      (g : O.Group) (s s' : O.Storage) (t : TrafficSecrets)
      → Session.export_traffic_secrets O W g s ≡ (ok t, s')
      → (s' ≡ s) × (t ≡ secrets_of (state g).0)
  unfolding Session.export_traffic_secrets
  export_traffic_secrets-secrets_of g s s' t h =
      let n = O.hash_length g in
      elim (Result-Cases (O.export_secret s g client_label [] n)) [
        | ok_case c e ↦ elim (Result-Cases (O.export_secret s g server_label [] n)) [
          | ok_case d f ↦
              let size = R.length_ok g in
              let on_client = R.export_ok s g client_label [] n c e in
              let on_server = R.export_ok s g server_label [] n d f in (ground arith, ground arith)
          | err_case x f ↦ absurd (ground arith)
          | panic_case f ↦ absurd (ground arith)
        ]
        | err_case x e ↦ absurd (ground arith)
        | panic_case e ↦ absurd (ground arith)
      ]

  -- `update` makes a commit for the group of the session and leaves it pending.
  pub update-sent :
      (session : MlsSession O) (k : O.Signer) (s s' : O.Storage) (m : O.MessageOut) (x : Epoch)
      → stored s session.group_id ≡ some (x, none)
      → Session.update O W session k s ≡ (ok m, s')
      → (y : Epoch) × Commits R m session.group_id x y
        × (stored s' session.group_id ≡ some (x, some y))
  unfolding Session.update
  update-sent session k s s' m x held h =
      let (g, t, loaded, rest) = bind-eq-ok (load_group O W session.group_id) _ s h in
      let (same, named, holds) = load_group-holds session.group_id s t g (x, none) held loaded in
      let (a, t', made, last) =
        bind-eq-ok (on_group O W resumption_error (O.self_update k) g) _ t rest in
      let op = on_group-eq-ok resumption_error (O.self_update k) g a.1 t t' a.0 made in
      let (y, commit, kept, now, left) = R.self_update_ok k g a.1 t t' a.0 x holds op in
      let m' : a.0 ≡ m = ok-injective (λ i. (last i).0) in
      let e : t' ≡ s' = λ i. (last i).1 in
      (
        y,
        subst (λ n. Commits R n session.group_id x y) m'
            (record {
              is_self_update = record {
                signer = k;
                before = (g, t);
                after = (a.1, t');
                is_made = op;
              };
              has_commit = subst (λ n. commit_of (sent a.0) ≡ (n, (x, y))) named commit;
            }),
        subst (λ u. stored u session.group_id ≡ some (x, some y)) e
            (subst (λ n. stored t' n ≡ some (x, some y)) named left),
      )

  -- `merge_update` takes the pending commit and exports the secrets of its epoch.
  pub merge_update-secrets_of :
      (session session' : MlsSession O) (s s' : O.Storage) (t : TrafficSecrets) (x y : Epoch)
      → stored s session.group_id ≡ some (x, some y)
      → Session.merge_update O W session s ≡ (ok t, (session', s'))
      → (t ≡ secrets_of y)
        × (session'.group_id ≡ session.group_id)
        × (stored s' session.group_id ≡ some (y, none))
  unfolding Session.merge_update
  merge_update-secrets_of session session' s s' t x y held h =
      let loaded = load_group O W session.group_id s in
      elim (Result-Cases loaded.0) [
        | ok_case g e ↦
            let (same, named, holds) =
              load_group-holds session.group_id s loaded.1 g (x, some y) held (ground arith) in
            elim (Result-Cases (O.merge_pending_commit (g, s)).0) [
              | ok_case _ f ↦
                  let r = O.merge_pending_commit (g, s) in
                  let (kept, now, left) =
                    R.merge_pending_commit_ok g r.1.0 s r.1.1 x y holds (ground arith) in
                  elim (Result-Cases (Session.export_traffic_secrets O W r.1.0 r.1.1).0) [
                    | ok_case u d ↦
                        let (rest, exported) =
                          export_traffic_secrets-secrets_of r.1.0 r.1.1
                            (Session.export_traffic_secrets O W r.1.0 r.1.1).1 u (ground arith) in
                        (ground arith, ground arith, ground arith)
                    | err_case z d ↦ absurd (ground arith)
                    | panic_case d ↦ absurd (ground arith)
                  ]
              | err_case z f ↦ absurd (ground arith)
              | panic_case f ↦ absurd (ground arith)
            ]
        | err_case z e ↦ absurd (ground arith)
        | panic_case e ↦ absurd (ground arith)
      ]

  -- The two methods that confirm an epoch leave the storage alone.
  pub create_epoch_key_update_lem :
      (session : MlsSession O) (s s' : O.Storage) (message : EpochKeyUpdate) (x : Epoch)
      (pending : Option Epoch)
      → stored s session.group_id ≡ some (x, pending)
      → Session.create_epoch_key_update O W session s ≡ (ok message, s')
      → (s' ≡ s) × (message ≡ record { epoch = number x })
  unfolding Session.create_epoch_key_update
  create_epoch_key_update_lem session s s' message x pending held h =
      let (g, t, loaded, rest) = bind-eq-ok (load_group O W session.group_id) _ s h in
      let (same, _, holds) = load_group-holds session.group_id s t g (x, pending) held loaded in
      let made : ◌≡◌ {A = EpochKeyUpdate} (record { epoch = O.epoch g }) message =
        ok-injective (λ i. (rest i).0) in
      (
        sym (λ i. (rest i).1) ∙ same,
        sym made ∙ ap (λ n. record { epoch = n }) (R.epoch_ok g ∙ ap (λ v. number v.0) holds),
      )

  pub process_epoch_key_update_lem :
      (session : MlsSession O) (s s' : O.Storage) (message : EpochKeyUpdate) (u : Unit {0})
      → Session.process_epoch_key_update O W session message s ≡ (ok u, s')
      → s' ≡ s
  unfolding Session.process_epoch_key_update load_group
  process_epoch_key_update_lem session s s' message u h = ground arith
