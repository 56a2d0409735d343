-- ===== src/MlsHandshake/Pair/Moves.antt =====
-- What a method of a completed handshake in src/mls_handshake/mod.rs does to the epoch of its side, and what
-- it hands out: the secrets to switch to, and the message to send.
use mls_tls_protocol.Base.{◌≡◌, ◌≢◌, ap, ◌∙◌, Option, none, some, ok}
use mls_tls_protocol.Base.Bytes.{Octets}
use mls_tls_protocol.TlsAead.Secrets.{SecretUpdate, client, server, both}
use mls_tls_protocol.MlsHandshake.OpenMls.{OpenMls}
use mls_tls_protocol.MlsHandshake.Messages.{Wire}
use mls_tls_protocol.MlsHandshake.Group.{IsMls, ReadsBack}
use mls_tls_protocol.MlsHandshake.Group.Operations.{secrets_of}
use mls_tls_protocol.MlsHandshake.Pair.{Carries, Confirms}
use mls_tls_protocol.MlsHandshake.Pair.ClientSteps
use mls_tls_protocol.MlsHandshake.Pair.ClientReceives
use mls_tls_protocol.MlsHandshake.Pair.ClientConfirmed
use mls_tls_protocol.MlsHandshake.Pair.ServerSteps
use mls_tls_protocol.MlsHandshake.Pair.ServerReceives
use mls_tls_protocol.MlsHandshake.Pair.Sides.{
  ClientSide, ServerSide, client_update, client_message, server_update, server_message,
}
use mls_tls_protocol.MlsHandshake.Client.State.{ClientInternalState, running}
use mls_tls_protocol.MlsHandshake.Client.Confirm.{Keeps}
use mls_tls_protocol.MlsHandshake.Persistence.{Sql}
use mls_tls_protocol.MlsHandshake.Driver.{MlsHandshake, update_handshake, process_signaling_message}

module _ (O : OpenMls) (W : Wire O) (Q : Sql O W) (R : IsMls O) (E : Type 0) where
  open R use {Epoch}

  -- A client in an epoch that waits for the server to use it.
  pub record Awaits (id : O.GroupId) (y : Epoch) (h : MlsHandshake O) : Type 0 where
    pub state : ClientInternalState O
    pub keeps : Keeps O W Q state (secrets_of O W R y).server_secret
    pub side : ClientSide O W R id y state h

  pub client_starts :
      (h h' : MlsHandshake O) (u : Option SecretUpdate) (bytes : Octets) (id : O.GroupId)
      (x : Epoch)
      → ClientSide O W R id x running h
      → update_handshake O W Q E h ≡ (ok (u, bytes), h')
      → (y : Epoch) × Carries O W R id x y bytes
        × (u ≡ some (client (secrets_of O W R y).client_secret))
        × Awaits id y h'
  client_starts h h' u bytes id x side e =
      let (secret, t, is_u, is_client, done) =
        client_update O W Q E side.self h h' u bytes side.is_client e in
      let (y, state, carries, is_secret, keeps, inside) =
        ClientSteps.update-ClientIn O W Q R h.leaf_signer side.self t h.connection h'.connection
          secret bytes id x side.inside done in
      (
        y,
        carries,
        is_u ∙ ap (λ v. some (client v)) is_secret,
        record {
          state = state;
          keeps = keeps;
          side = record { self = t; is_client = is_client; inside = inside };
        },
      )

  pub waiting_client_starts :
      (h h' : MlsHandshake O) (u : Option SecretUpdate) (bytes : Octets) (id : O.GroupId)
      (y : Epoch)
      → Awaits id y h
      → update_handshake O W Q E h ≢ (ok (u, bytes), h')
  waiting_client_starts h h' u bytes id y awaits e =
      let side = awaits.side in
      let (secret, t, _, _, done) = client_update O W Q E side.self h h' u bytes side.is_client e in
      ClientSteps.waiting-update_fails O W Q R h.leaf_signer side.self t h.connection h'.connection
        (secret, bytes) id y awaits.state _ awaits.keeps side.inside done

  pub client_gets_update :
      (B : ReadsBack W R) (h h' : MlsHandshake O) (u : Option SecretUpdate)
      (response : Option Octets) (bytes : Octets) (id : O.GroupId) (x y : Epoch)
      → ClientSide O W R id x running h
      → Carries O W R id x y bytes
      → process_signaling_message O W Q E bytes h ≡ (ok (u, response), h')
      → (out : Octets) × (u ≡ some (client (secrets_of O W R y).client_secret))
        × (response ≡ some out)
        × Confirms O W R y out
        × Awaits id y h'
  client_gets_update B h h' u response bytes id x y side carries e =
      let (t, is_client, done) =
        client_message O W Q E side.self h h' bytes (u, response) side.is_client e in
      let (out, state, is_r, confirms, keeps, inside) =
        ClientReceives.receives_update-ClientIn O W Q R B h.leaf_signer side.self t h.connection
          h'.connection bytes (u, response) id x y side.inside carries done in
      (
        out,
        (λ i. (is_r i).0),
        (λ i. (is_r i).1),
        confirms,
        record {
          state = state;
          keeps = keeps;
          side = record { self = t; is_client = is_client; inside = inside };
        },
      )

  pub client_drops :
      (B : ReadsBack W R) (h h' : MlsHandshake O) (u : Option SecretUpdate)
      (response : Option Octets) (bytes : Octets) (id : O.GroupId) (x y z : Epoch)
      → Awaits id x h
      → Carries O W R id y z bytes
      → process_signaling_message O W Q E bytes h ≡ (ok (u, response), h')
      → (u ≡ none) × (response ≡ none) × Awaits id x h'
  client_drops B h h' u response bytes id x y z awaits carries e =
      let side = awaits.side in
      let (t, is_client, done) =
        client_message O W Q E side.self h h' bytes (u, response) side.is_client e in
      let (is_r, inside) =
        ClientSteps.waiting-drops O W Q R B h.leaf_signer side.self t h.connection h'.connection
          bytes (u, response) id x y z awaits.state _ awaits.keeps side.inside carries done in
      (
        (λ i. (is_r i).0),
        (λ i. (is_r i).1),
        record {
          state = awaits.state;
          keeps = awaits.keeps;
          side = record { self = t; is_client = is_client; inside = inside };
        },
      )

  pub client_gets_confirmation :
      (B : ReadsBack W R) (h h' : MlsHandshake O) (u : Option SecretUpdate)
      (response : Option Octets) (bytes : Octets) (id : O.GroupId) (x y : Epoch)
      → Awaits id x h
      → Confirms O W R y bytes
      → process_signaling_message O W Q E bytes h ≡ (ok (u, response), h')
      → (u ≡ some (server (secrets_of O W R x).server_secret))
        × (response ≡ none)
        × ClientSide O W R id x running h'
  client_gets_confirmation B h h' u response bytes id x y awaits confirms e =
      let side = awaits.side in
      let (t, is_client, done) =
        client_message O W Q E side.self h h' bytes (u, response) side.is_client e in
      let (is_r, inside) =
        ClientConfirmed.receives_confirmation-ClientIn O W Q R B h.leaf_signer side.self t
          h.connection h'.connection bytes (u, response) id x y awaits.state _ awaits.keeps
          side.inside confirms done in
      (
        (λ i. (is_r i).0),
        (λ i. (is_r i).1),
        record { self = t; is_client = is_client; inside = inside },
      )

  pub server_starts :
      (h h' : MlsHandshake O) (u : Option SecretUpdate) (bytes : Octets) (id : O.GroupId)
      (x : Epoch)
      → ServerSide O W R id x none h
      → update_handshake O W Q E h ≡ (ok (u, bytes), h')
      → (y : Epoch) × Carries O W R id x y bytes × (u ≡ none) × ServerSide O W R id x (some y) h'
  server_starts h h' u bytes id x side e =
      let (t, is_u, is_server, done) =
        server_update O W Q E side.self h h' u bytes side.is_server e in
      let (y, carries, inside) =
        ServerSteps.update-ServerIn O W R h.leaf_signer side.self t h.connection h'.connection bytes
          id x side.inside done in
      (y, carries, is_u, record { self = t; is_server = is_server; inside = inside })

  pub waiting_server_starts :
      (h h' : MlsHandshake O) (u : Option SecretUpdate) (bytes : Octets) (id : O.GroupId)
      (x y : Epoch)
      → ServerSide O W R id x (some y) h
      → update_handshake O W Q E h ≢ (ok (u, bytes), h')
  waiting_server_starts h h' u bytes id x y side e =
      let (t, _, _, done) = server_update O W Q E side.self h h' u bytes side.is_server e in
      ServerSteps.waiting-update_fails O W R h.leaf_signer side.self t h.connection h'.connection
        bytes id x y side.inside done

  pub server_gets_update :
      (B : ReadsBack W R) (h h' : MlsHandshake O) (u : Option SecretUpdate)
      (response : Option Octets) (bytes : Octets) (id : O.GroupId) (x y : Epoch)
      (pending : Option Epoch)
      → ServerSide O W R id x pending h
      → Carries O W R id x y bytes
      → process_signaling_message O W Q E bytes h ≡ (ok (u, response), h')
      → (out : Octets) × (u ≡ some (both (secrets_of O W R y)))
        × (response ≡ some out)
        × Confirms O W R y out
        × ServerSide O W R id y none h'
  server_gets_update B h h' u response bytes id x y pending side carries e =
      let (secrets, t, is_u, is_server, done) =
        server_message O W Q E side.self h h' bytes u response side.is_server e in
      let (out, is_r, confirms, inside) =
        ServerReceives.receives_update-ServerIn O W R B h.leaf_signer side.self t h.connection
          h'.connection bytes (secrets, response) id x y pending side.inside carries done in
      (
        out,
        is_u ∙ (λ i. some (both (is_r i).0)),
        (λ i. (is_r i).1),
        confirms,
        record { self = t; is_server = is_server; inside = inside },
      )

  pub server_gets_confirmation :
      (B : ReadsBack W R) (h h' : MlsHandshake O) (u : Option SecretUpdate)
      (response : Option Octets) (bytes : Octets) (id : O.GroupId) (x y z : Epoch)
      → ServerSide O W R id x (some y) h
      → Confirms O W R z bytes
      → process_signaling_message O W Q E bytes h ≡ (ok (u, response), h')
      → (out : Octets) × (u ≡ some (both (secrets_of O W R y)))
        × (response ≡ some out)
        × Confirms O W R y out
        × ServerSide O W R id y none h'
  server_gets_confirmation B h h' u response bytes id x y z side confirms e =
      let (secrets, t, is_u, is_server, done) =
        server_message O W Q E side.self h h' bytes u response side.is_server e in
      let (out, is_r, answers, inside) =
        ServerReceives.receives_confirmation-ServerIn O W R B h.leaf_signer side.self t h.connection
          h'.connection bytes (secrets, response) id x y z side.inside confirms done in
      (
        out,
        is_u ∙ (λ i. some (both (is_r i).0)),
        (λ i. (is_r i).1),
        answers,
        record { self = t; is_server = is_server; inside = inside },
      )
