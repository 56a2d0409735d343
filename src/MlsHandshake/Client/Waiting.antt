-- ===== src/MlsHandshake/Client/Waiting.antt =====
-- A client that waits for the server, in src/mls_handshake/state_machine/client.rs: what it refuses,
-- what it ignores and what it sends again.
use mls_tls_protocol.Base.{◌≡◌, Bool, true, none, ok, err, arith}
use mls_tls_protocol.Base.Bytes.{Octets}
use mls_tls_protocol.TlsAead.Secrets.{TrafficSecrets, ClientSecret}
use mls_tls_protocol.MlsHandshake.OpenMls.{OpenMls, Connection}
use mls_tls_protocol.MlsHandshake.Messages.{
  Wire, connection_update, ConnectionUpdate, waiting_for_response,
}
use mls_tls_protocol.MlsHandshake.Client.{
  Client, update, resume, resumption_update, receive_signaling_message, receive_connection_update,
  dispatch, is_waiting_for_response,
}
use mls_tls_protocol.MlsHandshake.Persistence.{Sql}

module _ (O : OpenMls) (W : Wire O) (Q : Sql O W) where
  -- A client that waits ignores every `ConnectionUpdate`: it answers nothing, and neither its state nor
  -- the database changes.
  pub waiting-ignores_updates :
      (signer : O.Signer) (message : ConnectionUpdate O.MessageIn) (bytes : Octets) (s : Client O W)
      (c : Connection O)
      → is_waiting_for_response O W s ≡ true
      → W.deserialize_signaling bytes ≡ ok (connection_update message)
      → receive_signaling_message O W Q signer bytes (s, c) ≡ (ok (none, none), (s, c))
  unfolding receive_signaling_message dispatch receive_connection_update
  waiting-ignores_updates signer message bytes s c waits decoded = ground arith

  -- An update that succeeds leaves a client that waits, whatever the options.
  update-is_waiting :
      (signer : O.Signer) (requested : Bool) (s t : Client O W) (c d : Connection O)
      (r : ClientSecret × Octets)
      → update O W Q signer requested (s, c) ≡ (ok r, (t, d))
      → is_waiting_for_response O W t ≡ true
  unfolding update is_waiting_for_response
  update-is_waiting signer requested s t c d r done = ground arith

  waiting-update :
      (signer : O.Signer) (requested : Bool) (s : Client O W) (c : Connection O)
      → is_waiting_for_response O W s ≡ true
      → update O W Q signer requested (s, c) ≡ (err waiting_for_response, (s, c))
  unfolding update
  waiting-update signer requested s c waits = ground arith

  -- After an update that succeeds, a client refuses another update and ignores an update of the server,
  -- both without a change, until it has its confirmation.
  pub update-has_priority :
      (signer : O.Signer) (requested again : Bool) (message : ConnectionUpdate O.MessageIn)
      (bytes : Octets) (s t : Client O W) (c d : Connection O) (r : ClientSecret × Octets)
      → update O W Q signer requested (s, c) ≡ (ok r, (t, d))
      → W.deserialize_signaling bytes ≡ ok (connection_update message)
      → (update O W Q signer again (t, d) ≡ (err waiting_for_response, (t, d)))
        × (receive_signaling_message O W Q signer bytes (t, d) ≡ (ok (none, none), (t, d)))
  update-has_priority signer requested again message bytes s t c d r done decoded =
      let waits = update-is_waiting signer requested s t c d r done in
      (
        waiting-update signer again t d waits,
        waiting-ignores_updates signer message bytes t d waits decoded,
      )

  -- A client that resumed resumes with the same message and the same secrets until it is answered:
  -- a second `resume` makes no new commit, so it changes neither its state nor the database.
  pub resume_again :
      (signer other : O.Signer) (s t : Client O W) (c d : Connection O)
      (r : TrafficSecrets × Octets)
      → resume O W signer (s, c) ≡ (ok r, (t, d))
      → resume O W other (t, d) ≡ (ok r, (t, d))
  unfolding resume resumption_update
  resume_again signer other s t c d r done = ground arith
