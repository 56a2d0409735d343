-- ===== src/MlsHandshake/Driver/Stored.antt =====
-- What a handshake leaves behind, in src/mls_handshake/mod.rs.
use mls_tls_protocol.Base.{bind-eq-ok, map_err-eq-ok, ◌∙◌, sym, subst, ◌≡◌, ok, some, arith}
use mls_tls_protocol.Base.Bytes.{Octets}
use mls_tls_protocol.TlsAead.Secrets.{TrafficSecrets}
use mls_tls_protocol.MlsHandshake.OpenMls.{OpenMls, Connection}
use mls_tls_protocol.MlsHandshake.Messages.{Wire}
use mls_tls_protocol.MlsHandshake.Client
use mls_tls_protocol.MlsHandshake.Client.State.{ClientHandshakeState, running}
use mls_tls_protocol.MlsHandshake.Persistence
use mls_tls_protocol.MlsHandshake.Persistence.{Sql}
use mls_tls_protocol.MlsHandshake.Persistence.Rows.{ReadsBack, load-store}
use mls_tls_protocol.MlsHandshake.Driver.{
  Transport, MlsHandshake, client_state, client_handshake, handshake_error, locked, with_signer,
  send_bytes, next_packet,
}

module _ (O : OpenMls) (W : Wire O) (Q : Sql O W) (T : Transport) where
  start_lem :
      (signer : O.Signer) (key : O.PublicKey) (client_id : Octets) (c : Connection O)
      (r : Client.WaitingForServerHello O × Octets)
      → (Client.start O W signer key client_id c).0 ≡ ok r
      → r.0.profile_id ≡ client_id
  unfolding Client.start
  start_lem signer key client_id c r e = ground arith

  receive_server_hello_lem :
      (waiting : Client.WaitingForServerHello O) (bytes : Octets) (c : Connection O)
      (r : ClientHandshakeState O × TrafficSecrets)
      → (Client.receive_server_hello O W waiting bytes c).0 ≡ ok r
      → (r.0.internal_state ≡ running) × (r.0.profile_id ≡ waiting.profile_id)
  unfolding Client.receive_server_hello Client.join_group
  receive_server_hello_lem waiting bytes c r e = ground arith

  -- A handshake of the client that succeeds leaves a client in the state `Running`, under the profile id
  -- it was given, and that state is what the database holds under this id, provided that `serde_json`
  -- reads back what it wrote.
  pub client_handshake-stored :
      (client_id : Octets) (key : O.PublicKey) (self done : MlsHandshake O) (t u : T.State)
      (secrets : TrafficSecrets)
      → ReadsBack O W Q
      → client_handshake O W Q T client_id key (self, t) ≡ (ok secrets, (done, u))
      → (s : ClientHandshakeState O) × (done.state ≡ client_state s)
        × (s.internal_state ≡ running)
        × (s.profile_id ≡ client_id)
        × (Persistence.load O W Q client_id done.connection ≡ (ok (some s), done.connection))
  unfolding client_handshake
  client_handshake-stored client_id key self done t u secrets back finished =
      let (_, s1, e1, h1) =
        bind-eq-ok (locked O W Q T (Persistence.create_table O W Q)) _ (self, t) finished in
      let (_, s2, e2, h2) =
        bind-eq-ok (locked O W Q T (Persistence.delete O W Q client_id)) _ s1 h1 in
      let (hello, s3, e3, h3) =
        bind-eq-ok
          (with_signer O W Q T (λ signer. locked O W Q T (Client.start O W signer key client_id))) _
          s2 h2 in
      let (_, s4, e4, h4) = bind-eq-ok (send_bytes O W Q T hello.1) _ s3 h3 in
      let (packet, s5, e5, h5) = bind-eq-ok (next_packet O W Q T) _ s4 h4 in
      let (made, s6, e6, h6) =
        bind-eq-ok (locked O W Q T (Client.receive_server_hello O W hello.0 packet.body)) _ s5 h5 in
      let (_, s7, e7, h7) = bind-eq-ok (locked O W Q T (Persistence.store O W Q made.0)) _ s6 h6 in
      let asked =
        start_lem s2.0.leaf_signer key client_id s2.0.connection hello
          (map_err-eq-ok handshake_error _ λ i. (e3 i).0) in
      let (is_running, named) =
        receive_server_hello_lem hello.0 packet.body s5.0.connection made
          (map_err-eq-ok handshake_error _ λ i. (e6 i).0) in
      let stored =
        map_err-eq-ok handshake_error (Persistence.store O W Q made.0 s6.0.connection).0
          (λ i. (e7 i).0) in
      let (loaded, _) =
        load-store O W Q made.0 s6.0.connection s7.0.connection back
          (λ i. (stored i, (e7 i).1.0.connection)) in
      (
        made.0,
        sym (λ i. (h7 i).1.0.state),
        is_running,
        named ∙ asked,
        subst
            (λ id. Persistence.load O W Q id done.connection ≡ (ok (some made.0), done.connection))
            (named ∙ asked)
            (subst (λ c. Persistence.load O W Q made.0.profile_id c ≡ (ok (some made.0), c))
              (λ i. (h7 i).1.0.connection) loaded),
      )
