-- ===== src/TlsAead/StreamSink/Progress.antt =====
-- The sink of src/tls_aead/stream_sink.rs over a writer that is always ready.
use mls_tls_protocol.Base.{◌≡◌, refl, List, [], ◌∷◌, Result, ok, arith}
use mls_tls_protocol.Base.Bytes.{Octets}
use mls_tls_protocol.Crypto.{Crypto}
use mls_tls_protocol.TlsAead.StreamSink.{
  Poll, ready, InnerSink, SinkError, Sink, drain_buffer, try_empty_buffer, poll_ready, poll_flush,
  poll_close, after_empty,
}
use mls_tls_protocol.TlsAead.StreamSink.Order.{polls-Emptied}

-- Each poll of the writer is ready without an error, and it accepts each item.
pub record IsReady {IoError : Type 0} (I : InnerSink IoError) : Type 0 where
  pub readies : (i : I.State) → (I.poll_ready i).0 ≡ ready (ok tt)
  pub flushes : (i : I.State) → (I.poll_flush i).0 ≡ ready (ok tt)
  pub closes : (i : I.State) → (I.poll_close i).0 ≡ ready (ok tt)
  pub accepts : (item : Octets) (i : I.State) → (I.start_send item i).0 ≡ ok tt

module _ (C : Crypto) (IoError : Type 0) (I : InnerSink IoError) (works : IsReady I) where
  abbrev Done : Poll (Result (SinkError C IoError) (Unit {0})) × Sink C IoError I → Type 0
  Done r = r.0 ≡ ready (ok tt)

  drain_buffer-Done : (items : List Octets) (i : I.State) → Done (drain_buffer C IoError I items i)
  unfolding drain_buffer
  drain_buffer-Done [] i = refl
  drain_buffer-Done (item ∷ []) i = let a = works.accepts item i in ground arith
  drain_buffer-Done (item ∷ next ∷ rest) i =
      let a = works.accepts item i in
      let r = works.readies (I.start_send item i).1 in
      let ih = drain_buffer-Done (next ∷ rest) (I.poll_ready (I.start_send item i).1).1 in
      ground arith

  try_empty_buffer-Done : (s : Sink C IoError I) → Done (try_empty_buffer C IoError I s)
  unfolding try_empty_buffer
  try_empty_buffer-Done s =
      let r = works.readies s.inner in
      let d = drain_buffer-Done s.buffer (I.poll_ready s.inner).1 in ground arith

  after_empty-Done :
      (poll : I.State → Poll (Result IoError (Unit {0})) × I.State) (s : Sink C IoError I)
      → ((i : I.State) → (poll i).0 ≡ ready (ok tt))
      → Done (after_empty C IoError I poll (try_empty_buffer C IoError I s))
  after_empty-Done poll s polled =
      let t = try_empty_buffer C IoError I s in
      let e = try_empty_buffer-Done s in let r = polled t.1.inner in ground arith

  -- A poll that is done and has left nothing in the buffer.
  abbrev pub Finished : Poll (Result (SinkError C IoError) (Unit {0})) × Sink C IoError I → Type 0
  Finished r = (r.0 ≡ ready (ok tt)) × (r.1.buffer ≡ [])

  -- Over a writer that is always ready and accepts each item, every poll of the sink finishes at once and
  -- without an error, and leaves nothing in the buffer, whatever the buffer held.
  pub polls-Finished :
      (s : Sink C IoError I)
      → Finished (poll_ready C IoError I s)
        × Finished (poll_flush C IoError I s)
        × Finished (poll_close C IoError I s)
  unfolding poll_ready poll_flush poll_close
  polls-Finished s =
      let (on_ready, on_flush, on_close) = polls-Emptied C I s in
      let a = after_empty-Done I.poll_ready s works.readies in
      let b = after_empty-Done I.poll_flush s works.flushes in
      let c = after_empty-Done I.poll_close s works.closes in
      ((a, on_ready.empty a), (b, on_flush.empty b), (c, on_close.empty c))
