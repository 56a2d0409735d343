-- ===== src/EncryptionProvider/Established/Reading.antt =====
-- `read_bytes` against its specification: messages are read and processed one by one until one has
-- bytes for the application.
use mls_tls_protocol.Base.{
  ℕ, zero, suc, ◌≤◌, ◌<◌, ◌≡◌, refl, ◌↔◌, Bool, Option, none, some, Result, ok, err, panic, arith,
  Option-cases, inl, inr, Result-Cases, ok_case, err_case, panic_case, subst,
}
use mls_tls_protocol.Base.Bytes.{Octets}
use mls_tls_protocol.EncryptionProvider.Parameters.{
  Environment, InnerPlaintext, application, signaling,
}
use mls_tls_protocol.EncryptionProvider.Channels
use mls_tls_protocol.EncryptionProvider.Established.{
  Error, Provider, Outcome, next, read_message, process_signaling, process_read_message, send,
  update_cipher, read_loop, read_bytes_inner,
}

module _ (V : Environment) (PreHandshakeError : Type 0) (is_server : Bool) where
  abbrev P : Type 0
  P = Provider V PreHandshakeError

  abbrev E : Type 0
  E = Error V PreHandshakeError

  -- What a failed step hands on.
  abbrev pub failure : {A : Type 0} → Result E A → Option (Result E (Option Octets))
  failure (ok a) = none
  failure (err e) = some (err e)
  failure panic = some panic

  abbrev read : P → Result E (Option InnerPlaintext) × P
  read = read_message V PreHandshakeError

  abbrev process : InnerPlaintext → P → Result E (Option Octets) × P
  process = process_read_message V PreHandshakeError is_server

  -- `read_message`, then `process_read_message`, and again while that gives nothing.
  pub data Reads : P → Result E (Option Octets) × P → Type 0 where
    unread :
        {p : P} {f : Result E (Option Octets)}
        → failure (read p).0 ≡ some f
        → Reads p (f, (read p).1)
    ended : {p : P} → (read p).0 ≡ ok none → Reads p (ok none, (read p).1)
    refused :
        {p : P} {m : InnerPlaintext} {f : Result E (Option Octets)}
        → (read p).0 ≡ ok (some m)
        → failure (process m (read p).1).0 ≡ some f
        → Reads p (f, (process m (read p).1).1)
    delivered :
        {p : P} {m : InnerPlaintext} {b : Octets}
        → (read p).0 ≡ ok (some m)
        → (process m (read p).1).0 ≡ ok (some b)
        → Reads p (ok (some b), (process m (read p).1).1)
    again :
        {p : P} {m : InnerPlaintext} {o : Result E (Option Octets) × P}
        → (read p).0 ≡ ok (some m)
        → (process m (read p).1).0 ≡ ok none
        → Reads (process m (read p).1).1 o
        → Reads p o

  abbrev run : ℕ → P → Outcome V PreHandshakeError
  run fuel p = read_bytes_inner V PreHandshakeError fuel is_server p

  abbrev handled : Octets → P → Result E (Unit {0}) × P
  handled = process_signaling V PreHandshakeError is_server

  -- All cases of the first message but a signaling one.
  run-Reads_but :
      (fuel : ℕ) (p : P) (o : Result E (Option Octets) × P)
      → ((m : Octets) → (read p).0 ≡ ok (some (signaling m)) → Reads p o)
      → run fuel p ≡ some o
      → Reads p o
  unfolding read_bytes_inner read_loop process_read_message
  run-Reads_but fuel p o h e = elim (Result-Cases (read p).0) [
    | err_case x r ↦ subst (Reads p) (ground arith) (unread {p = p} {f = err x} (ground arith))
    | panic_case r ↦ subst (Reads p) (ground arith) (unread {p = p} {f = panic} (ground arith))
    | ok_case none r ↦ subst (Reads p) (ground arith) (ended r)
    | ok_case (some (application b)) r ↦ subst (Reads p) (ground arith) (delivered {b = b} r refl)
    | ok_case (some (signaling m)) r ↦ h m r
  ]

  run-Reads :
      (fuel : ℕ) (p : P) (o : Result E (Option Octets) × P) → run fuel p ≡ some o → Reads p o
  unfolding read_bytes_inner read_loop process_read_message
  run-Reads zero p o e = run-Reads_but zero p o (λ m r. absurd (ground arith)) e
  run-Reads (suc fuel) p o e =
      run-Reads_but (suc fuel) p o
        (λ m r. elim (Result-Cases (handled m (read p).1).0) [
          | err_case x s ↦ subst (Reads p) (ground arith) (refused {f = err x} r (ground arith))
          | panic_case s ↦ subst (Reads p) (ground arith) (refused {f = panic} r (ground arith))
          | ok_case _ s ↦
              let rest = run-Reads fuel (handled m (read p).1).1 o (ground arith) in
              again r (ground arith) (subst (λ q. Reads q o) (ground arith) rest)
        ])
        e

  Reads-run :
      {p : P} {o : Result E (Option Octets) × P} → Reads p o → (fuel : ℕ) × (run fuel p ≡ some o)
  unfolding read_bytes_inner read_loop process_read_message
  Reads-run (unread e) = (0, ground arith)
  Reads-run (ended e) = (0, ground arith)
  Reads-run (refused {m = application b} e h) = (1, ground arith)
  Reads-run (refused {m = signaling m} e h) = (1, ground arith)
  Reads-run (delivered {m = application b} e h) = (1, ground arith)
  Reads-run (delivered {m = signaling m} e h) = (1, ground arith)
  Reads-run (again {m = application b} e h d) = absurd (ground arith)
  Reads-run (again {m = signaling m} e h d) = let (n, k) = Reads-run d in (suc n, ground arith)

  -- `read_bytes_inner` computes what repeated calls of `read_message` and `process_read_message` give:
  -- one of its runs ends in an outcome exactly if these do.
  pub read_bytes_inner-Reads :
      (p : P) (o : Result E (Option Octets) × P)
      → Reads p o ↔ ((fuel : ℕ) × (read_bytes_inner V PreHandshakeError fuel is_server p ≡ some o))
  read_bytes_inner-Reads p o = (Reads-run, λ r. run-Reads r.0 p o r.1)

  -- A reader that has only so many packets left, by some measure.
  pub record IsFinite (left : V.N.Reader → ℕ) : Type 0 where
    pub next_takes :
        (r : V.N.Reader) {x : _} → (V.N.next r).0 ≡ some x → left (V.N.next r).1 < left r

  module _ (left : V.N.Reader → ℕ) (finite : IsFinite left) where
    reader_of : P → V.N.Reader
    reader_of p = p.state.channels.reader

    process_signaling-reader : (m : Octets) (p : P) → reader_of (handled m p).1 ≡ reader_of p
    unfolding reader_of process_signaling send update_cipher
    process_signaling-reader m p = ground arith

    read_message-left :
        (p : P) (m : InnerPlaintext)
        → (read p).0 ≡ ok (some m)
        → left (reader_of (read p).1) < left (reader_of p)
    unfolding reader_of read_message next Channels.next
    read_message-left p m e = elim (Option-cases (V.N.next p.state.channels.reader).0) [
      | inl n ↦ absurd (ground arith)
      | inr (x, n) ↦ finite.next_takes p.state.channels.reader n
    ]

    -- The cases in which no more is read.
    run_but :
        (fuel : ℕ) (p : P)
        → ((m : Octets)
            → (read p).0 ≡ ok (some (signaling m))
            → (o : Result E (Option Octets) × P) × (run fuel p ≡ some o))
        → (o : Result E (Option Octets) × P) × (run fuel p ≡ some o)
    unfolding read_bytes_inner read_loop
    run_but fuel p h = elim (Result-Cases (read p).0) [
      | err_case x r ↦ ((err x, (read p).1), ground arith)
      | panic_case r ↦ ((panic, (read p).1), ground arith)
      | ok_case none r ↦ ((ok none, (read p).1), ground arith)
      | ok_case (some (application b)) r ↦ ((ok (some b), (read p).1), ground arith)
      | ok_case (some (signaling m)) r ↦ h m r
    ]

    -- Where the reader has at most `fuel` packets left, `fuel` rounds of the loop are enough: it ends
    -- with an outcome.
    pub read_bytes_inner_total :
        (fuel : ℕ) (p : P)
        → left p.state.channels.reader ≤ fuel
        → (o : Result E (Option Octets) × P) × (read_bytes_inner V PreHandshakeError fuel is_server
              p
            ≡ some o)
    unfolding read_bytes_inner read_loop reader_of
    read_bytes_inner_total zero p h =
        run_but zero p λ m r. let less = read_message-left p (signaling m) r in absurd (omega arith)
    read_bytes_inner_total (suc fuel) p h = run_but (suc fuel) p λ m r.
        elim (Result-Cases (handled m (read p).1).0) [
          | err_case x s ↦ ((err x, (handled m (read p).1).1), ground arith)
          | panic_case s ↦ ((panic, (handled m (read p).1).1), ground arith)
          | ok_case _ s ↦
              let less = read_message-left p (signaling m) r in
              let same = process_signaling-reader m (read p).1 in
              let (o, e) =
                read_bytes_inner_total fuel (handled m (read p).1).1 (rw same (omega arith)) in
              (o, ground arith)
        ]
