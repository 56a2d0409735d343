-- ===== src/MlsHandshake/Driver.antt =====
-- src/mls_handshake/mod.rs: the handshake over a framed transport, and what it answers once completed.
-- The stream and the sink are the parameter `Transport`; the lock on the database is not poisoned, since
-- it is one of tokio.
pub mod Stored
use mls_tls_protocol.Base.{
  ℕ, false, Option, none, some, Result, ok, err, panic, M, pure, throw, lift, continue, ◌>>=◌, ◌>>◌,
  map_err,
}
use mls_tls_protocol.Base.Bytes.{Octets}
use mls_tls_protocol.TlsAead.Frame.{TlsPacketIn}
use mls_tls_protocol.TlsAead.Secrets.{TrafficSecrets, SecretUpdate, client, both}
use mls_tls_protocol.MlsHandshake.OpenMls.{OpenMls, Connection}
use mls_tls_protocol.MlsHandshake.Messages.{Wire, ErrorOf}
use mls_tls_protocol.MlsHandshake.Session
use mls_tls_protocol.MlsHandshake.Session.{ClientIdentity}
use mls_tls_protocol.MlsHandshake.Method.{OnConnection, stored}
use mls_tls_protocol.MlsHandshake.Client
use mls_tls_protocol.MlsHandshake.Client.State.{ClientHandshakeState}
use mls_tls_protocol.MlsHandshake.Server
use mls_tls_protocol.MlsHandshake.Server.{ServerHandshakeState}
use mls_tls_protocol.MlsHandshake.Persistence
use mls_tls_protocol.MlsHandshake.Persistence.{Sql}

-- `rx.next()` and `tx.send(…)`
pub record Transport : Type 1 where
  pub State : Type 0
  pub Error : Type 0
  pub next : State → Option (Result Error TlsPacketIn) × State
  pub send : Octets → State → Result Error (Unit {0}) × State

-- The error of a transport is boxed in the source.
pub data MlsHandshakeError (O : OpenMls) (W : Wire O) (TransportError : Type 0) : Type 0 where
  decoding_error uninitialized : MlsHandshakeError O W TransportError
  transport_error : TransportError → MlsHandshakeError O W TransportError
  handshake_error : ErrorOf O W → MlsHandshakeError O W TransportError

pub data MlsHandshakeState (O : OpenMls) : Type 0 where
  no_state : MlsHandshakeState O
  client_state : ClientHandshakeState O → MlsHandshakeState O
  server_state : ServerHandshakeState O → MlsHandshakeState O

pub record MlsHandshake (O : OpenMls) : Type 0 where
  pub leaf_signer : O.Signer
  pub connection : Connection O
  pub state : MlsHandshakeState O

unfoldable pub new : {O : OpenMls} → Connection O → O.Signer → MlsHandshake O
new connection leaf_signer = record {
  leaf_signer = leaf_signer;
  connection = connection;
  state = no_state;
}

unfoldable pub epoch : {O : OpenMls} → MlsHandshake O → ℕ
epoch self = elim self.state [
  | no_state ↦ 0
  | client_state s ↦ s.mls_session.epoch
  | server_state s ↦ s.mls_session.epoch
]

-- The two handshakes, which read and write.
module _ (O : OpenMls) (W : Wire O) (Q : Sql O W) (T : Transport) where
  abbrev pub Error : Type 0
  Error = MlsHandshakeError O W T.Error

  abbrev pub Step : Type 0 → Type 0
  Step A = M (MlsHandshake O × T.State) Error A

  -- A step on the locked connection, with `?`.
  abbrev locked {ℓ} :
      {A : Type ℓ} → M (Connection O) (ErrorOf O W) A → M (MlsHandshake O × T.State) Error A
  locked f (self, t) =
      let r = f self.connection in
      (map_err handshake_error r.0, (record self { connection = r.1 }, t))

  abbrev with_signer {ℓ} :
      {A : Type ℓ}
      → (O.Signer → M (MlsHandshake O × T.State) Error A)
      → M (MlsHandshake O × T.State) Error A
  with_signer f (self, t) = f self.leaf_signer (self, t)

  abbrev send_bytes : Octets → Step (Unit {0})
  send_bytes bytes (self, t) = let r = T.send bytes t in (map_err transport_error r.0, (self, r.1))

  abbrev packet_or : Option (Result T.Error TlsPacketIn) → Result Error TlsPacketIn
  packet_or none = err decoding_error
  packet_or (some (ok packet)) = ok packet
  packet_or (some (err _)) = err decoding_error
  packet_or (some panic) = panic

  abbrev next_packet : Step TlsPacketIn
  next_packet (self, t) = let r = T.next t in (packet_or r.0, (self, r.1))

  abbrev set_state : MlsHandshakeState O → Step (Unit {0})
  set_state x (self, t) = (ok tt, (record self { state = x }, t))

  -- The first argument is the fresh id of the group.
  unfoldable pub server_handshake : O.GroupId → Step (TrafficSecrets × ClientIdentity)
  unfolding Server.start
  server_handshake group_id = do
    packet ← next_packet
    started ← with_signer λ signer. locked (Server.start O W group_id signer packet.body)
    set_state (server_state started.state)
    send_bytes started.response
    pure (started.secrets, started.identity)

  unfoldable pub client_handshake : Octets → O.PublicKey → Step TrafficSecrets
  unfolding Persistence.create_table Persistence.delete Client.start Client.receive_server_hello
      Persistence.store
  client_handshake client_id server_verifying_key = do
    locked (Persistence.create_table O W Q)
    locked (Persistence.delete O W Q client_id)
    (waiting, hello) ←
        with_signer λ signer. locked (Client.start O W signer server_verifying_key client_id)
    send_bytes hello
    packet ← next_packet
    (state, secrets) ← locked (Client.receive_server_hello O W waiting packet.body)
    locked (Persistence.store O W Q state)
    set_state (client_state state)
    pure secrets

-- The methods of a completed handshake, which do not.
module _ (O : OpenMls) (W : Wire O) (Q : Sql O W) (TransportError : Type 0) where
  abbrev CompletedError : Type 0
  CompletedError = MlsHandshakeError O W TransportError

  abbrev pub Alone : Type 0 → Type 0
  Alone A = M (MlsHandshake O) CompletedError A

  -- A method of one side's state, and the handshake with what it leaves.
  abbrev pub on_client {ℓ} :
      {A : Type ℓ}
      → M (ClientHandshakeState O × Connection O) (ErrorOf O W) A
      → ClientHandshakeState O
      → M (MlsHandshake O) CompletedError A
  on_client f s self =
      let r = f (s, self.connection) in
      (map_err handshake_error r.0, record self { state = client_state r.1.0; connection = r.1.1 })

  abbrev pub on_server {ℓ} :
      {A : Type ℓ}
      → M (ServerHandshakeState O × Connection O) (ErrorOf O W) A
      → ServerHandshakeState O
      → M (MlsHandshake O) CompletedError A
  on_server f s self =
      let r = f (s, self.connection) in
      (map_err handshake_error r.0, record self { state = server_state r.1.0; connection = r.1.1 })

  unfoldable pub update_handshake : Alone (Option SecretUpdate × Octets)
  unfolding Client.update Server.update
  update_handshake self = elim self.state [
    | no_state ↦ (err uninitialized, self)
    | client_state s ↦
        (do
          (secret, bytes) ← on_client (Client.update O W Q self.leaf_signer false) s
          pure (some (client secret), bytes))
          self
    | server_state s ↦
        (do bytes ← on_server (Server.update O W self.leaf_signer false) s; pure (none, bytes)) self
  ]

  unfoldable pub process_signaling_message : Octets → Alone (Option SecretUpdate × Option Octets)
  unfolding Client.receive_signaling_message Server.receive_signaling_message
  process_signaling_message bytes self = elim self.state [
    | no_state ↦ (err uninitialized, self)
    | client_state s ↦
        on_client (Client.receive_signaling_message O W Q self.leaf_signer bytes) s self
    | server_state s ↦
        (do
          (secrets, response) ←
              on_server (Server.receive_signaling_message O W self.leaf_signer bytes) s
          pure (some (both secrets), response))
          self
  ]

  -- A step on the connection alone, outside a handshake.
  abbrev on_database : OnConnection O W (Unit {0}) → Alone (Unit {0})
  on_database f self =
      let r = f self.connection in (map_err handshake_error r.0, record self { connection = r.1 })

  unfoldable pub delete : Alone (Unit {0})
  unfolding Persistence.delete Session.delete
  delete self = elim self.state [
    | no_state ↦ (ok tt, self)
    | client_state s ↦ on_database (Persistence.delete O W Q s.profile_id) self
    | server_state s ↦ on_database (stored O W (Session.delete O W s.mls_session)) self
  ]
