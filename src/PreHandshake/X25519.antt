-- ===== src/PreHandshake/X25519.antt =====
-- src/pre_handshake/x25519.rs: one public key each way, and a Diffie-Hellman secret. The
-- connection and the curve are parameters.
use mls_tls_protocol.Base.{ℕ, none, Result, M, pure, lift, ◌>>=◌, ◌>>◌, map_err}
use mls_tls_protocol.Base.Bytes.{Octets}
use mls_tls_protocol.PreHandshake.{HandshakePayload}

abbrev pub x25519_public_key_length : ℕ
x25519_public_key_length = 32

-- The two halves of a socket, with `AsyncWriteExt::write_all` and `AsyncReadExt::read_exact`.
pub record Socket : Type 1 where
  pub State : Type 0
  pub IoError : Type 0
  pub write_all : Octets → State → Result IoError (Unit {0}) × State
  pub read_exact : ℕ → State → Result IoError Octets × State

-- The curve of `x25519_dalek` with `rand_chacha` for its keys, and the error of `rand_core`.
pub record Curve : Type 1 where
  pub SecretKey : Type 0
  pub Seed : Type 0
  pub RandomError : Type 0
  -- `ChaCha20Rng::from_rng(OsRng)?` and `EphemeralSecret::random_from_rng`
  pub random_secret : Seed → Result RandomError SecretKey
  pub public_key : SecretKey → Octets
  pub diffie_hellman : SecretKey → Octets → Octets

pub data X25519Error (V : Curve) (N : Socket) : Type 0 where
  io_error : N.IoError → X25519Error V N
  random_error : V.RandomError → X25519Error V N

module _ (V : Curve) (N : Socket) where
  abbrev pub Handshake : Type 0 → Type 0
  Handshake A = M N.State (X25519Error V N) A

  -- `?` on an operation of the socket.
  abbrev io {ℓ} :
      {A : Type ℓ} → (N.State → Result N.IoError A × N.State) → M N.State (X25519Error V N) A
  io f s = let r = f s in (map_err io_error r.0, r.1)

  abbrev pub payload : V.SecretKey → Octets → HandshakePayload
  payload key peer = record { shared_secret = V.diffie_hellman key peer; session_id = none }

  unfoldable pub client_handshake : V.Seed → Handshake HandshakePayload
  client_handshake seed = do
    private_key ← lift (map_err random_error (V.random_secret seed))
    io (N.write_all (V.public_key private_key))
    server_pk ← io (N.read_exact x25519_public_key_length)
    pure (payload private_key server_pk)

  unfoldable pub server_handshake : V.Seed → Handshake HandshakePayload
  server_handshake seed = do
    client_pk ← io (N.read_exact x25519_public_key_length)
    private_key ← lift (map_err random_error (V.random_secret seed))
    io (N.write_all (V.public_key private_key))
    pure (payload private_key client_pk)
