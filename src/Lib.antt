-- ===== src/Lib.antt =====
-- Verification of the MLS-TLS protocol library: TLS-like records over a byte stream, with keys from a
-- pre-handshake and an MLS handshake, and key updates by MLS commits while the connection is open.
--
-- The program's parts and the files that model them:
-- - Base: results of fallible code (an error or a panic), methods as state passing, bytes as numbers,
--   machine integers with their wrap-around, lists and exclusive or.
-- - Crypto: the AEAD and HKDF of `openmls_traits`, a parameter, with RFC 5116 and RFC 5869 as named
--   hypotheses (IsAead, HkdfLength).
-- - TlsAead (src/tls_aead/mod.rs): constants. Frame is src/tls_aead/codec.rs (TlsFrameCodec::decode and
--   encode); Secrets and Codec are the secrets and TlsAeadCodec of mod.rs; Keys is
--   src/tls_aead/key_generation.rs; StreamSink is src/tls_aead/stream_sink.rs.
-- - PreHandshake (src/pre_handshake): the payload, Psk (psk.rs) and X25519 (x25519.rs), over a socket and
--   a curve that are parameters.
-- - UpdatePolicy (src/encryption_provider/update_policy.rs): when the keys are to be renewed.
-- - MlsHandshake: Messages (src/mls_handshake/messages.rs, and the errors of state_machine/mod.rs and
--   src/authentication.rs),
--   Session (state_machine/mls_group.rs), Method (the trait HandshakeState of state_machine/mod.rs),
--   Server and Client (state_machine/server.rs and client.rs), Persistence
--   (src/mls_handshake/persistence.rs), Driver (src/mls_handshake/mod.rs). OpenMls has the operations
--   of openmls as a parameter.
-- - MlsHandshake.Group: what RFC 9420 and openmls promise of the epochs of a group (IsMls) and the codecs of
--   what they write (ReadsBack), and what the operations of mls_group.rs do to an epoch.
-- - MlsHandshake.Pair: the handshake of a client and that of a server over one group as a step relation,
--   with the signaling messages between them in order: Run has the steps, Phases
--   the states that are reached, and the other files what each operation does to the epoch of its side.
-- - MlsHandshake.Resumption: what a client sends to resume (Sends), what a server makes of it (Accepts), and
--   when they agree.
-- - TlsAead.Connection: two codecs with records in flight as a step relation, in the orders that
--   src/encryption_provider/mod.rs sends, opens and updates in.
-- - EncryptionProvider (src/encryption_provider/mod.rs): Parameters (the network and all other parameters
--   in one record, and InnerPlaintext), Channels (ProtectedChannels), Start (from a socket to an
--   established connection: new_from_stream, new_with_pre_handshake, PreHandshakeState and the two
--   `handshake` methods), Established (the stream, the sink, read_bytes, read_message,
--   process_read_message, shutdown, delete, epoch), SendBytes (send_bytes and the update it makes).
-- - Tests: small instances of the parameters, and the results below at concrete inputs.
--
-- How they interact: the framed writer encodes what TlsAeadSink hands it, TlsAeadSink encrypts by the
-- codec, and TlsAeadStream decrypts the packets of the framed reader; both share one codec. The client
-- and the server each keep a handshake state beside the database, answer signaling messages, and give
-- out the secrets that the codec is updated with. The client's state is stored after
-- an update and after a signaling message that it processed. The provider of a connection owns the MLS
-- handshake, the channels and the update policy: it hands signaling messages to the handshake, sends
-- the answers, and gives the secrets to the codec.
--
-- Conventions: a method that takes `&mut self` maps a state to a result and the state it leaves, also on
-- an error. `u64` counters wrap as in a release build. A lock is an argument that says if it is
-- poisoned. `todo!()` and out-of-range indices panic. The framed reader of tokio_util, which calls
-- `decode` while it returns packets, is `drain` and `feed` of TlsAead.Frame.Stream. A buffer gets as many rounds
-- of `drain` as it has bytes; each record takes five at least, so these are enough. An operation of the
-- network that the source awaits is one that has become ready. A round of the loop of `read_bytes` reads
-- one message and spends one unit of fuel; as much fuel as the reader has packets left is enough. The codec
-- of ProtectedChannels is a field of the channels, and its lock is not met poisoned, since a panic under
-- it ends the one task that owns both halves.
--
-- Not modelled: initialize_storage, get_address, state and session_id of the provider, which only call
-- or read; futures that are dropped before they are ready; src/mls_handshake/openmls_provider.rs,
-- src/handshake.rs and src/lib.rs, which are glue and declarations;
-- and the tests. openmls, the TLS codecs that messages derive, serde_json,
-- rusqlite's errors, sockets and clocks are parameters.
pub mod Base
pub mod Crypto
pub mod TlsAead
pub mod PreHandshake
pub mod UpdatePolicy
pub mod MlsHandshake
pub mod EncryptionProvider
mod Tests
