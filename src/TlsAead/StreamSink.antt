-- ===== src/TlsAead/StreamSink.antt =====
-- src/tls_aead/stream_sink.rs: the encrypting sink over a framed writer and the decrypting stream
-- over a framed reader. Both hold the same codec behind a lock, so the codec is passed in and out
-- here; `lock_poisoned` says that a thread panicked while it held the lock. The inner sink is a
-- parameter.
pub mod Order
pub mod Progress
pub mod Transport
use mls_tls_protocol.Base.{
  List, [], ◌∷◌, ◌++◌, Bool, true, false, Option, none, some, Result, ok, err, panic, M, map_err,
  continue, if◌then◌else◌,
}
use mls_tls_protocol.Base.Bytes.{Octets}
use mls_tls_protocol.Crypto.{Crypto}
use mls_tls_protocol.TlsAead.Frame.{TlsPacketIn}
use mls_tls_protocol.TlsAead.Secrets.{SecretUpdate}
use mls_tls_protocol.TlsAead.Codec
use mls_tls_protocol.TlsAead.Codec.{TlsAeadCodec, TlsAeadCodecError}

-- `std::task::Poll`
pub data Poll (A : Type 0) : Type 0 where
  ready : A → Poll A
  pending : Poll A

-- `futures::Sink<Bytes>` of the writer below: each method gets the sink and leaves a new one.
pub record InnerSink (IoError : Type 0) : Type 1 where
  pub State : Type 0
  pub poll_ready : State → Poll (Result IoError (Unit {0})) × State
  pub start_send : Octets → State → Result IoError (Unit {0}) × State
  pub poll_flush : State → Poll (Result IoError (Unit {0})) × State
  pub poll_close : State → Poll (Result IoError (Unit {0})) × State

pub data TlsAeadSinkError (C : Crypto) (IoError : Type 0) : Type 0 where
  encryption_failed : TlsAeadCodecError C → TlsAeadSinkError C IoError
  io_error : IoError → TlsAeadSinkError C IoError
  poisoned_lock backpressure : TlsAeadSinkError C IoError

-- The sink without its codec.
pub record TlsAeadSink (S : Type 0) : Type 0 where
  pub inner : S
  pub buffer : List Octets

module _ (C : Crypto) (IoError : Type 0) where
  abbrev pub SinkError : Type 0
  SinkError = TlsAeadSinkError C IoError

  -- `self.cipher.lock()?`
  abbrev pub lock {ℓ} :
      {A : Type ℓ} → Bool → M (TlsAeadCodec C) SinkError A → M (TlsAeadCodec C) SinkError A
  lock true body c = (err poisoned_lock, c)
  lock false body c = body c

  -- `update_traffic_secrets` of the sink and of the stream.
  unfoldable pub update_traffic_secrets :
      Bool → SecretUpdate → Bool → M (TlsAeadCodec C) SinkError (Unit {0})
  update_traffic_secrets lock_poisoned u is_server = lock lock_poisoned λ c.
      let r = Codec.update_traffic_secrets C u is_server c in (map_err encryption_failed r.0, r.1)

  -- `poll_next` of the stream, on what the framed reader's poll gave.
  unfoldable pub poll_next :
      Bool
      → Poll (Option (Result IoError TlsPacketIn))
      → TlsAeadCodec C
      → Poll (Option (Result SinkError TlsPacketIn)) × TlsAeadCodec C
  poll_next lock_poisoned pending c = (pending, c)
  poll_next lock_poisoned (ready none) c = (ready none, c)
  poll_next lock_poisoned (ready (some (err e))) c = (ready (some (err (io_error e))), c)
  poll_next lock_poisoned (ready (some panic)) c = (ready (some panic), c)
  poll_next lock_poisoned (ready (some (ok packet))) c =
      let opened =
        lock lock_poisoned
          (λ d.
            let r = Codec.decrypt C packet.body packet.header d in
            (map_err encryption_failed r.0, r.1))
          c in
      let repacked =
        continue opened.0 opened.1 λ plaintext d. (ok (record packet { body = plaintext }), d) in
      (ready (some repacked.0), repacked.1)

  module _ (I : InnerSink IoError) where
    abbrev pub Sink : Type 0
    Sink = TlsAeadSink I.State

    abbrev pub new : I.State → Sink
    new inner = record { inner = inner; buffer = [] }

    -- `ready!(…)?` on a poll of the inner sink.
    abbrev pub when_ready :
        Poll (Result IoError (Unit {0})) × I.State
        → List Octets
        → (I.State → Poll (Result SinkError (Unit {0})) × Sink)
        → Poll (Result SinkError (Unit {0})) × Sink
    when_ready (pending, i) buffer k = (pending, record { inner = i; buffer = buffer })
    when_ready (ready (ok _), i) buffer k = k i
    when_ready (ready (err e), i) buffer k =
        (ready (err (io_error e)), record { inner = i; buffer = buffer })
    when_ready (ready panic, i) buffer k = (ready panic, record { inner = i; buffer = buffer })

    -- The `while let` loop of `try_empty_buffer`.
    unfoldable pub drain_buffer : List Octets → I.State → Poll (Result SinkError (Unit {0})) × Sink
    drain_buffer [] i = (ready (ok tt), record { inner = i; buffer = [] })
    drain_buffer (item ∷ []) i =
        let (sent, i') = I.start_send item i in
        when_ready (ready sent, i') [] λ j. (ready (ok tt), record { inner = j; buffer = [] })
    drain_buffer (item ∷ next ∷ rest) i =
        let (sent, i') = I.start_send item i in
        when_ready (ready sent, i') (next ∷ rest)
          λ j. when_ready (I.poll_ready j) (next ∷ rest) λ k. drain_buffer (next ∷ rest) k

    unfoldable pub try_empty_buffer : Sink → Poll (Result SinkError (Unit {0})) × Sink
    unfolding drain_buffer
    try_empty_buffer s = when_ready (I.poll_ready s.inner) s.buffer λ i. drain_buffer s.buffer i

    -- `try_empty_buffer`, then a poll of the inner sink, with its error mapped.
    abbrev pub after_empty :
        (I.State → Poll (Result IoError (Unit {0})) × I.State)
        → Poll (Result SinkError (Unit {0})) × Sink
        → Poll (Result SinkError (Unit {0})) × Sink
    after_empty poll (pending, s) = (pending, s)
    after_empty poll (ready (ok _), s) =
        when_ready (poll s.inner) s.buffer λ i. (ready (ok tt), record s { inner = i })
    after_empty poll (ready (err e), s) = (ready (err e), s)
    after_empty poll (ready panic, s) = (ready panic, s)

    unfoldable pub poll_ready : Sink → Poll (Result SinkError (Unit {0})) × Sink
    unfolding try_empty_buffer
    poll_ready s = after_empty I.poll_ready (try_empty_buffer s)

    unfoldable pub poll_flush : Sink → Poll (Result SinkError (Unit {0})) × Sink
    unfolding try_empty_buffer
    poll_flush s = after_empty I.poll_flush (try_empty_buffer s)

    unfoldable pub poll_close : Sink → Poll (Result SinkError (Unit {0})) × Sink
    unfolding try_empty_buffer
    poll_close s = after_empty I.poll_close (try_empty_buffer s)

    -- The `debug_assert!` of an empty buffer is not in a release build.
    unfoldable pub start_send :
        Bool
        → Octets
        → Sink
        → TlsAeadCodec C
        → Result SinkError (Unit {0}) × (Sink × TlsAeadCodec C)
    start_send true item s c = (err poisoned_lock, (s, c))
    start_send false item s c =
        let (r, (c', buffer)) = Codec.encrypt C item (c, s.buffer) in
        (map_err encryption_failed r, (record s { buffer = buffer }, c'))
