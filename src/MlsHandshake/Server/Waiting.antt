-- ===== src/MlsHandshake/Server/Waiting.antt =====
-- When the server waits for a response, in src/mls_handshake/state_machine/server.rs.
use mls_tls_protocol.Base.{
  ◌≡◌, Bool, true, false, Option, some, ok, err, arith, Option-cases, inl, inr,
}
use mls_tls_protocol.Base.Bytes.{Octets}
use mls_tls_protocol.TlsAead.Secrets.{TrafficSecrets}
use mls_tls_protocol.MlsHandshake.OpenMls.{OpenMls, Connection}
use mls_tls_protocol.MlsHandshake.Messages.{
  Wire, EpochKeyUpdate, ConnectionUpdate, epoch_key_update, waiting_for_response, to_bool,
}
use mls_tls_protocol.MlsHandshake.Method.{Error}
use mls_tls_protocol.MlsHandshake.Server.{
  Server, waiting_for_update, update, process_update, dispatch, receive_epoch_key_update,
  is_waiting_for_response,
}

module _ (O : OpenMls) (W : Wire O) where
  -- An update that succeeds leaves the server waiting, with the session it had; until it is answered
  -- another update is refused without a change.
  pub update-waits :
      (signer other : O.Signer) (requested again : Bool) (s t : Server O W) (c d : Connection O)
      (bytes : Octets)
      → update O W signer requested (s, c) ≡ (ok bytes, (t, d))
      → (is_waiting_for_response O W s ≡ false)
        × (t ≡ record s { internal_state = waiting_for_update })
        × (update O W other again (t, d) ≡ (err waiting_for_response, (t, d)))
  unfolding update is_waiting_for_response
  update-waits signer other requested again s t c d bytes done =
      (ground arith, ground arith, ground arith)

  -- An update that fails leaves the server's state as it was: it may be tried again.
  pub update_failed :
      (signer : O.Signer) (requested : Bool) (s : Server O W) (c : Connection O) (e : Error O W)
      → (update O W signer requested (s, c)).0 ≡ err e
      → (update O W signer requested (s, c)).1.0 ≡ s
  unfolding update
  update_failed signer requested s c e failed = ground arith

  -- After a `ConnectionUpdate` of the client that succeeds the server waits exactly when the client asked
  -- for an update, whatever it waited for before.
  pub process_update-state :
      (signer : O.Signer) (message : ConnectionUpdate O.MessageIn) (s t : Server O W)
      (c d : Connection O) (r : TrafficSecrets × Octets)
      → process_update O W signer message (s, c) ≡ (ok r, (t, d))
      → is_waiting_for_response O W t ≡ to_bool message.update_requested
  unfolding process_update is_waiting_for_response
  process_update-state signer message s t c d r done = ground arith

  -- An `EpochKeyUpdate` is accepted only by a server that waits, and leaves it `Running`; it is answered.
  pub epoch_key_update-settles :
      (signer : O.Signer) (message : EpochKeyUpdate) (s t : Server O W) (c d : Connection O)
      (r : TrafficSecrets × Option Octets)
      → dispatch O W signer (epoch_key_update message) (s, c) ≡ (ok r, (t, d))
      → (is_waiting_for_response O W s ≡ true)
        × (is_waiting_for_response O W t ≡ false)
        × (bytes : Octets) × (r.1 ≡ some bytes)
  unfolding dispatch receive_epoch_key_update is_waiting_for_response
  epoch_key_update-settles signer message s t c d r done = elim (Option-cases r.1) [
    | inl e ↦ absurd (ground arith)
    | inr (bytes, e) ↦ (ground arith, ground arith, bytes, e)
  ]
