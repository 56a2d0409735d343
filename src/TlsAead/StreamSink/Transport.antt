-- ===== src/TlsAead/StreamSink/Transport.antt =====
-- One message from the sink of one side to the stream of the other, over bytes that arrive in pieces.
use mls_tls_protocol.Base.{
  ◌+◌, ◌<◌, ◌≡◌, ap, ◌∙◌, List, [], ◌∷◌, false, Result, ok, Option, some, map_err-eq-ok, concat,
  length, arith, Result-Cases, ok_case, err_case, panic_case,
}
use mathlib.Core.List.{flatten}
use mls_tls_protocol.Base.Bytes.{Octets, as_u16}
use mls_tls_protocol.Crypto.{Crypto, IsAead}
use mls_tls_protocol.TlsAead.Frame.{TlsPacketIn, header_bytes}
use mls_tls_protocol.TlsAead.Frame.Stream.{AllShort, packets_of, encode_all, feed, feed-encode_all}
use mls_tls_protocol.TlsAead.Codec.{TlsAeadCodec, encrypt, decrypt}
use mls_tls_protocol.TlsAead.Codec.Channel.{
  Paired, decrypt_all, encrypt-Delivers, Delivers-AllShort,
}
use mls_tls_protocol.TlsAead.StreamSink.{
  Poll, ready, InnerSink, SinkError, Sink, poll_next, encryption_failed, start_send,
}

ok_pair-injective :
    {E A S : Type 0} {a b : A} {s t : S}
    → ◌≡◌ {A = Result E A × S} (ok a, s) (ok b, t)
    → ◌≡◌ {A = A × S} (a, s) (b, t)
ok_pair-injective h = ground arith

module _ (C : Crypto) (L : IsAead C) (IoError : Type 0) where
  abbrev received :
      Poll (Option (Result (SinkError C IoError) TlsPacketIn)) × TlsAeadCodec C
      → (TlsAeadCodec C → List Octets × TlsAeadCodec C)
      → List Octets × TlsAeadCodec C
  received (ready (some (ok q)), d) rest = (q.body ∷ (rest d).0, (rest d).1)
  received (_, d) rest = ([], d)

  -- `poll_next` on packet after packet, until one is not opened.
  unfoldable pub receive_all : List TlsPacketIn → TlsAeadCodec C → List Octets × TlsAeadCodec C
  receive_all [] c = ([], c)
  receive_all (p ∷ ps) c =
      received (poll_next C IoError false (ready (some (ok p))) c) (receive_all ps)

  receive_all-decrypt_all :
      (frames : List Octets) (r : TlsAeadCodec C) {msgs : List Octets} {r' : TlsAeadCodec C}
      → AllShort frames
      → decrypt_all C L frames r ≡ (ok msgs, r')
      → receive_all (packets_of frames) r ≡ (msgs, r')
  unfolding receive_all decrypt_all poll_next
  receive_all-decrypt_all [] r s h = ground arith
  receive_all-decrypt_all (f ∷ frames) r s h =
      let same : as_u16 (length f) ≡ length f = omega arith in
      let h' = rw same at h in
      let d = decrypt C f (header_bytes (length f)) r in
      let rest = decrypt_all C L frames d.1 in
      elim (Result-Cases d.0) [
        | ok_case m q ↦ elim (Result-Cases rest.0) [
          | ok_case ms p ↦
              let ih = receive_all-decrypt_all frames d.1 s.1 (λ i. (p i, rest.1)) in
              let done = rw p at (rw q at h') in rw q (rw ih (ok_pair-injective done))
          | err_case e p ↦ let bad = rw p at (rw q at h') in absurd (ground arith)
          | panic_case p ↦ let bad = rw p at (rw q at h') in absurd (ground arith)
        ]
        | err_case e q ↦ let bad = rw q at h' in absurd (ground arith)
        | panic_case q ↦ let bad = rw q at h' in absurd (ground arith)
      ]

  start_send-encrypt :
      (I : InnerSink IoError) (message : Octets) (before : Sink C IoError I) (s : TlsAeadCodec C)
      {sink : Sink C IoError I} {s' : TlsAeadCodec C}
      → start_send C IoError I false message before s ≡ (ok tt, (sink, s'))
      → encrypt C message (s, before.buffer) ≡ (ok tt, (s', sink.buffer))
  unfolding start_send
  start_send-encrypt I message before s h =
      let result =
        map_err-eq-ok encryption_failed (encrypt C message (s, before.buffer)).0
          (ap (λ u. u.0) h) in
      λ i. (result i, ((h i).1.1, (h i).1.0.buffer))

  -- A message that the sink took into its empty buffer reaches the other side whole: let the writer
  -- encode the ciphertexts of the buffer, let the bytes arrive in pieces of any size, and poll the
  -- stream for every packet that the reader makes of them. The plaintexts, joined, are the message,
  -- and the two codecs agree again. The sizes of frame and tag must fit a record.
  pub receive_all-start_send :
      (I : InnerSink IoError) (message : Octets) (inner : I.State) (s r : TlsAeadCodec C)
      (pieces : List Octets) {sink : Sink C IoError I} {s' : TlsAeadCodec C}
      → Paired C s r
      → s.max_frame_size + C.tag_size s.cipher + 1 < 65536
      → start_send C IoError I false message (record { inner = inner; buffer = [] }) s
        ≡ (ok tt, (sink, s'))
      → flatten pieces ≡ encode_all sink.buffer []
      → let (plaintexts, r') = receive_all (feed [] pieces).0 r in
        (concat plaintexts ≡ message) × Paired C s' r'
  receive_all-start_send I message inner s r pieces {sink} {s'} p fits sent bytes =
      let taken = start_send-encrypt I message (record { inner = inner; buffer = [] }) s sent in
      let (d, whole) = encrypt-Delivers C L message [] s r p taken in
      let short = Delivers-AllShort C L message [] s r fits d in
      let arrived : feed [] pieces ≡ (packets_of d.frames, []) =
        feed-encode_all d.frames pieces short (bytes ∙ ap (λ b. encode_all b []) d.appended) in
      let opened = receive_all-decrypt_all d.frames r short d.opened in
      rw arrived (rw opened (whole, d.still_paired))
