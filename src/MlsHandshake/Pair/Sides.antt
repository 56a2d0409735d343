-- ===== src/MlsHandshake/Pair/Sides.antt =====
-- The methods of a completed handshake in src/mls_handshake/mod.rs, on the epochs of a client and a server.
use mls_tls_protocol.Base.{
  ◌≡◌, sym, subst, ◌∙◌, false, Option, none, some, Result, ok, bind-eq-ok, ok-injective,
  map_err-eq-ok,
}
use mls_tls_protocol.Base.Bytes.{Octets}
use mls_tls_protocol.TlsAead.Secrets.{TrafficSecrets, SecretUpdate, ClientSecret, client, both}
use mls_tls_protocol.MlsHandshake.OpenMls.{OpenMls, Connection}
use mls_tls_protocol.MlsHandshake.Messages.{Wire, ErrorOf}
use mls_tls_protocol.MlsHandshake.Group.{IsMls}
use mls_tls_protocol.MlsHandshake.Pair.{ClientIn, ServerIn}
use mls_tls_protocol.MlsHandshake.Client
use mls_tls_protocol.MlsHandshake.Client.State.{ClientInternalState, ClientHandshakeState}
use mls_tls_protocol.MlsHandshake.Server
use mls_tls_protocol.MlsHandshake.Server.{ServerHandshakeState}
use mls_tls_protocol.MlsHandshake.Persistence.{Sql}
use mls_tls_protocol.MlsHandshake.Driver.{
  MlsHandshake, client_state, server_state, handshake_error, on_client, on_server, update_handshake,
  process_signaling_message,
}

module _ (O : OpenMls) (W : Wire O) (R : IsMls O) where
  open R use {Epoch}

  pub record ClientSide (id : O.GroupId) (x : Epoch) (state : ClientInternalState O)
      (h : MlsHandshake O) : Type 0 where
    pub self : ClientHandshakeState O
    pub is_client : h.state ≡ client_state self
    pub inside : ClientIn O W R id x state self h.connection

  pub record ServerSide (id : O.GroupId) (x : Epoch) (pending : Option Epoch) (h : MlsHandshake O)
      : Type 0 where
    pub self : ServerHandshakeState O
    pub is_server : h.state ≡ server_state self
    pub inside : ServerIn O W R id x pending self h.connection

module _ (O : OpenMls) (W : Wire O) (Q : Sql O W) (E : Type 0) where
  on_client-eq-ok :
      {A : Type 0}
      (f : ClientHandshakeState O × Connection O
        → Result (ErrorOf O W) A × (ClientHandshakeState O × Connection O))
      (s : ClientHandshakeState O) (h h' : MlsHandshake O) (a : A)
      → on_client O W Q E f s h ≡ (ok a, h')
      → (t : ClientHandshakeState O) × (h'.state ≡ client_state t)
        × (f (s, h.connection) ≡ (ok a, (t, h'.connection)))
  on_client-eq-ok f s h h' a e =
      let r = f (s, h.connection) in
      let done = map_err-eq-ok handshake_error r.0 (λ i. (e i).0) in
      (r.1.0, sym (λ i. (e i).1.state), λ i. (done i, (r.1.0, (e i).1.connection)))

  on_server-eq-ok :
      {A : Type 0}
      (f : ServerHandshakeState O × Connection O
        → Result (ErrorOf O W) A × (ServerHandshakeState O × Connection O))
      (s : ServerHandshakeState O) (h h' : MlsHandshake O) (a : A)
      → on_server O W Q E f s h ≡ (ok a, h')
      → (t : ServerHandshakeState O) × (h'.state ≡ server_state t)
        × (f (s, h.connection) ≡ (ok a, (t, h'.connection)))
  on_server-eq-ok f s h h' a e =
      let r = f (s, h.connection) in
      let done = map_err-eq-ok handshake_error r.0 (λ i. (e i).0) in
      (r.1.0, sym (λ i. (e i).1.state), λ i. (done i, (r.1.0, (e i).1.connection)))

  pub client_update :
      (s : ClientHandshakeState O) (h h' : MlsHandshake O) (u : Option SecretUpdate)
      (bytes : Octets)
      → h.state ≡ client_state s
      → update_handshake O W Q E h ≡ (ok (u, bytes), h')
      → (secret : ClientSecret) × (t : ClientHandshakeState O) × (u ≡ some (client secret))
        × (h'.state ≡ client_state t)
        × (Client.update O W Q h.leaf_signer false (s, h.connection)
            ≡ (ok (secret, bytes), (t, h'.connection)))
  unfolding update_handshake
  client_update s h h' u bytes is_client e =
      let e0 =
        subst (λ v. update_handshake O W Q E (record h { state = v }) ≡ (ok (u, bytes), h'))
          is_client e in
      let (r, h1, e1, rest) =
        bind-eq-ok (on_client O W Q E (Client.update O W Q h.leaf_signer false) s) _
          (record h { state = client_state s }) e0 in
      let (t, now, done) =
        on_client-eq-ok (Client.update O W Q h.leaf_signer false) s
          (record h { state = client_state s }) h1 r e1 in
      let answer : (some (client r.0), r.1) ≡ (u, bytes) = ok-injective (λ i. (rest i).0) in
      (
        r.0,
        t,
        sym (λ i. (answer i).0),
        sym (λ i. (rest i).1.state) ∙ now,
        done ∙ (λ i. (ok (r.0, (answer i).1), (t, (rest i).1.connection))),
      )

  pub client_message :
      (s : ClientHandshakeState O) (h h' : MlsHandshake O) (bytes : Octets)
      (r : Client.Response O W)
      → h.state ≡ client_state s
      → process_signaling_message O W Q E bytes h ≡ (ok r, h')
      → (t : ClientHandshakeState O) × (h'.state ≡ client_state t)
        × (Client.receive_signaling_message O W Q h.leaf_signer bytes (s, h.connection)
            ≡ (ok r, (t, h'.connection)))
  unfolding process_signaling_message
  client_message s h h' bytes r is_client e =
      let e0 =
        subst (λ v. process_signaling_message O W Q E bytes (record h { state = v }) ≡ (ok r, h'))
          is_client e in
      on_client-eq-ok (Client.receive_signaling_message O W Q h.leaf_signer bytes) s
        (record h { state = client_state s }) h' r e0

  pub server_update :
      (s : ServerHandshakeState O) (h h' : MlsHandshake O) (u : Option SecretUpdate)
      (bytes : Octets)
      → h.state ≡ server_state s
      → update_handshake O W Q E h ≡ (ok (u, bytes), h')
      → (t : ServerHandshakeState O) × (u ≡ none)
        × (h'.state ≡ server_state t)
        × (Server.update O W h.leaf_signer false (s, h.connection) ≡ (ok bytes, (t, h'.connection)))
  unfolding update_handshake
  server_update s h h' u bytes is_server e =
      let e0 =
        subst (λ v. update_handshake O W Q E (record h { state = v }) ≡ (ok (u, bytes), h'))
          is_server e in
      let (r, h1, e1, rest) =
        bind-eq-ok (on_server O W Q E (Server.update O W h.leaf_signer false) s) _
          (record h { state = server_state s }) e0 in
      let (t, now, done) =
        on_server-eq-ok (Server.update O W h.leaf_signer false) s
          (record h { state = server_state s }) h1 r e1 in
      let answer : ◌≡◌ {A = Option SecretUpdate × Octets} (none, r) (u, bytes) =
        ok-injective (λ i. (rest i).0) in
      (
        t,
        sym (λ i. (answer i).0),
        sym (λ i. (rest i).1.state) ∙ now,
        done ∙ (λ i. (ok (answer i).1, (t, (rest i).1.connection))),
      )

  pub server_message :
      (s : ServerHandshakeState O) (h h' : MlsHandshake O) (bytes : Octets)
      (u : Option SecretUpdate) (response : Option Octets)
      → h.state ≡ server_state s
      → process_signaling_message O W Q E bytes h ≡ (ok (u, response), h')
      → (secrets : TrafficSecrets) × (t : ServerHandshakeState O) × (u ≡ some (both secrets))
        × (h'.state ≡ server_state t)
        × (Server.receive_signaling_message O W h.leaf_signer bytes (s, h.connection)
            ≡ (ok (secrets, response), (t, h'.connection)))
  unfolding process_signaling_message
  server_message s h h' bytes u response is_server e =
      let e0 =
        subst
          (λ v.
            process_signaling_message O W Q E bytes (record h { state = v })
            ≡ (ok (u, response), h'))
          is_server e in
      let (r, h1, e1, rest) =
        bind-eq-ok (on_server O W Q E (Server.receive_signaling_message O W h.leaf_signer bytes) s)
          _ (record h { state = server_state s }) e0 in
      let (t, now, done) =
        on_server-eq-ok (Server.receive_signaling_message O W h.leaf_signer bytes) s
          (record h { state = server_state s }) h1 r e1 in
      let answer : ◌≡◌ {A = Client.Response O W} (some (both r.0), r.1) (u, response) =
        ok-injective (λ i. (rest i).0) in
      (
        r.0,
        t,
        sym (λ i. (answer i).0),
        sym (λ i. (rest i).1.state) ∙ now,
        done ∙ (λ i. (ok (r.0, (answer i).1), (t, (rest i).1.connection))),
      )
