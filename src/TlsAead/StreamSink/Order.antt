-- ===== src/TlsAead/StreamSink/Order.antt =====
-- The sink hands its ciphertexts to the writer in order, each once, whatever the writer answers.
use mls_tls_protocol.Base.{
  ◌≢◌, subst, ◌≡◌, refl, ap, ◌∙◌, List, [], ◌∷◌, ◌++◌, Result, ok, err, panic, append_assoc, arith,
  length, ◌≤◌,
}
use mls_tls_protocol.Base.Bytes.{Octets}
use mls_tls_protocol.Crypto.{Crypto}
use mls_tls_protocol.TlsAead.StreamSink.{
  Poll, ready, pending, InnerSink, SinkError, Sink, when_ready, drain_buffer, try_empty_buffer,
  after_empty, poll_ready, poll_flush, poll_close,
}

-- What a sink that keeps its items in order promises: `accepted` lists what `start_send` took.
pub record IsInOrder {IoError : Type 0} (I : InnerSink IoError) (accepted : I.State → List Octets)
    : Type 0 where
  pub ready_keeps : (i : I.State) → accepted (I.poll_ready i).1 ≡ accepted i
  pub flush_keeps : (i : I.State) → accepted (I.poll_flush i).1 ≡ accepted i
  pub close_keeps : (i : I.State) → accepted (I.poll_close i).1 ≡ accepted i
  pub send_appends :
      (item : Octets) (i : I.State)
      → (I.start_send item i).0 ≡ ok tt
      → accepted (I.start_send item i).1 ≡ accepted i ++ (item ∷ [])
  pub send_fails :
      (item : Octets) (i : I.State)
      → (I.start_send item i).0 ≢ ok tt
      → accepted (I.start_send item i).1 ≡ accepted i

module _ (C : Crypto) {IoError : Type 0} (I : InnerSink IoError) (accepted : I.State → List Octets)
    (W : IsInOrder I accepted) where
  abbrev pub Outcome : Type 0
  Outcome = Poll (Result (SinkError C IoError) (Unit {0}))

  -- The items that an outcome loses: none, unless the writer refused one.
  abbrev pub LossFits : Outcome → List Octets → Type 0
  LossFits pending lost = lost ≡ []
  LossFits (ready (ok _)) lost = lost ≡ []
  LossFits (ready (err _)) lost = length lost ≤ 1
  LossFits (ready panic) lost = length lost ≤ 1

  pub record InOrder (all : List Octets) (r : Outcome × Sink C IoError I) : Type 0 where
    pub lost : List Octets
    pub kept : accepted r.1.inner ++ (lost ++ r.1.buffer) ≡ all
    pub loss : LossFits r.0 lost

  -- A poll that keeps what was accepted, and then the rest.
  when_ready-InOrder :
      (p : Poll (Result IoError (Unit {0})) × I.State) (buffer all : List Octets)
      (k : I.State → Outcome × Sink C IoError I)
      → accepted p.1 ++ buffer ≡ all
      → ((j : I.State) → accepted j ++ buffer ≡ all → InOrder all (k j))
      → InOrder all (when_ready C IoError I p buffer k)
  when_ready-InOrder (pending, i) buffer all k e h = record { lost = []; kept = e; loss = refl }
  when_ready-InOrder (ready (ok _), i) buffer all k e h = h i e
  when_ready-InOrder (ready (err x), i) buffer all k e h = record {
    lost = [];
    kept = e;
    loss = omega arith;
  }
  when_ready-InOrder (ready panic, i) buffer all k e h = record {
    lost = [];
    kept = e;
    loss = omega arith;
  }

  -- The same after a `start_send`, which may refuse its item.
  when_sent-InOrder :
      (r : Result IoError (Unit {0})) (i : I.State) (item : Octets) (before buffer : List Octets)
      (k : I.State → Outcome × Sink C IoError I)
      → (r ≡ ok tt → accepted i ≡ before ++ (item ∷ []))
      → (r ≢ ok tt → accepted i ≡ before)
      → ((j : I.State)
          → accepted j ++ buffer ≡ before ++ (item ∷ buffer)
          → InOrder (before ++ (item ∷ buffer)) (k j))
      → InOrder (before ++ (item ∷ buffer)) (when_ready C IoError I (ready r, i) buffer k)
  when_sent-InOrder (ok _) i item before buffer k sent kept h =
      h i (ap (λ l. l ++ buffer) (sent refl) ∙ append_assoc before (item ∷ []) buffer)
  when_sent-InOrder (err x) i item before buffer k sent kept h = record {
    lost = item ∷ [];
    kept = ap (λ l. l ++ (item ∷ buffer)) (kept λ e. cc);
    loss = omega arith;
  }
  when_sent-InOrder panic i item before buffer k sent kept h = record {
    lost = item ∷ [];
    kept = ap (λ l. l ++ (item ∷ buffer)) (kept λ e. cc);
    loss = omega arith;
  }

  drain_buffer-InOrder :
      (buffer : List Octets) (i : I.State)
      → InOrder (accepted i ++ buffer) (drain_buffer C IoError I buffer i)
  unfolding drain_buffer
  drain_buffer-InOrder [] i = record { lost = []; kept = refl; loss = refl }
  drain_buffer-InOrder (item ∷ []) i =
      when_sent-InOrder (I.start_send item i).0 (I.start_send item i).1 item (accepted i) [] _
        (W.send_appends item i) (W.send_fails item i)
        λ j e. record { lost = []; kept = e; loss = refl }
  drain_buffer-InOrder (item ∷ next ∷ rest) i =
      when_sent-InOrder (I.start_send item i).0 (I.start_send item i).1 item (accepted i)
        (next ∷ rest) _ (W.send_appends item i) (W.send_fails item i)
        λ j e.
          when_ready-InOrder (I.poll_ready j) (next ∷ rest) _ _
            (ap (λ l. l ++ (next ∷ rest)) (W.ready_keeps j) ∙ e)
            λ k e'.
              subst (λ all. InOrder all (drain_buffer C IoError I (next ∷ rest) k)) e'
                (drain_buffer-InOrder (next ∷ rest) k)

  try_empty_buffer-InOrder :
      (s : Sink C IoError I)
      → InOrder (accepted s.inner ++ s.buffer) (try_empty_buffer C IoError I s)
  unfolding try_empty_buffer
  try_empty_buffer-InOrder s =
      let poll = I.poll_ready s.inner in
      when_ready-InOrder poll s.buffer (accepted s.inner ++ s.buffer) _
        (ap (λ l. l ++ s.buffer) (W.ready_keeps s.inner))
        λ j e.
          subst (λ all. InOrder all (drain_buffer C IoError I s.buffer j)) e
            (drain_buffer-InOrder s.buffer j)

  -- A poll of the inner sink that accepts nothing, after the buffer was tried.
  after_empty-InOrder :
      (poll : I.State → Poll (Result IoError (Unit {0})) × I.State) (r : Outcome × Sink C IoError I)
      (all : List Octets)
      → ((i : I.State) → accepted (poll i).1 ≡ accepted i)
      → InOrder all r
      → InOrder all (after_empty C IoError I poll r)
  after_empty-InOrder poll (pending, s) all keeps o = o
  after_empty-InOrder poll (ready (err x), s) all keeps o = o
  after_empty-InOrder poll (ready panic, s) all keeps o = o
  after_empty-InOrder poll (ready (ok u), s) all keeps o =
      let whole : accepted s.inner ++ s.buffer ≡ all = rw o.loss at o.kept in
      when_ready-InOrder (poll s.inner) s.buffer all _
        (ap (λ l. l ++ s.buffer) (keeps s.inner) ∙ whole)
        λ i e. record { lost = []; kept = e; loss = refl }

  -- Whatever the writer answers to `poll_ready`, `poll_flush` or `poll_close` of the sink, what it
  -- accepted, followed by what the buffer still holds, is what both were before, in the same order.
  -- An item is missing only if the outcome is an error or a panic, and then at most one.
  pub polls-InOrder :
      (s : Sink C IoError I)
      → let all = accepted s.inner ++ s.buffer in
        InOrder all (poll_ready C IoError I s)
        × InOrder all (poll_flush C IoError I s)
        × InOrder all (poll_close C IoError I s)
  unfolding poll_ready poll_flush poll_close
  polls-InOrder s =
      let all = accepted s.inner ++ s.buffer in
      let emptied = try_empty_buffer-InOrder s in
      (
        after_empty-InOrder I.poll_ready _ all W.ready_keeps emptied,
        after_empty-InOrder I.poll_flush _ all W.flush_keeps emptied,
        after_empty-InOrder I.poll_close _ all W.close_keeps emptied,
      )

module _ (C : Crypto) {IoError : Type 0} (I : InnerSink IoError) where
  -- A successful outcome leaves an empty buffer.
  pub record Emptied (p : Poll (Result (SinkError C IoError) (Unit {0})) × Sink C IoError I)
      : Type 0 where
    pub empty : p.0 ≡ ready (ok tt) → p.1.buffer ≡ []

  when_ready-Emptied :
      (p : Poll (Result IoError (Unit {0})) × I.State) (buffer : List Octets)
      (k : I.State → Poll (Result (SinkError C IoError) (Unit {0})) × Sink C IoError I)
      → ((j : I.State) → Emptied (k j))
      → Emptied (when_ready C IoError I p buffer k)
  when_ready-Emptied (pending, i) buffer k h = record { empty = λ e. absurd (ground arith) }
  when_ready-Emptied (ready (ok _), i) buffer k h = h i
  when_ready-Emptied (ready (err x), i) buffer k h = record { empty = λ e. absurd (ground arith) }
  when_ready-Emptied (ready panic, i) buffer k h = record { empty = λ e. absurd (ground arith) }

  abbrev sent_poll : Octets → I.State → Poll (Result IoError (Unit {0})) × I.State
  sent_poll item i = (ready (I.start_send item i).0, (I.start_send item i).1)

  drain_buffer-Emptied :
      (buffer : List Octets) (i : I.State) → Emptied (drain_buffer C IoError I buffer i)
  unfolding drain_buffer
  drain_buffer-Emptied [] i = record { empty = λ e. refl }
  drain_buffer-Emptied (item ∷ []) i =
      when_ready-Emptied (sent_poll item i) []
        (λ j. (ready (ok tt), record { inner = j; buffer = [] })) λ j. record { empty = λ e. refl }
  drain_buffer-Emptied (item ∷ next ∷ rest) i =
      when_ready-Emptied (sent_poll item i) (next ∷ rest) _ λ j.
        when_ready-Emptied (I.poll_ready j) (next ∷ rest) (drain_buffer C IoError I (next ∷ rest))
          λ k. drain_buffer-Emptied (next ∷ rest) k

  after_empty-Emptied :
      (poll : I.State → Poll (Result IoError (Unit {0})) × I.State)
      (r : Poll (Result (SinkError C IoError) (Unit {0})) × Sink C IoError I)
      → Emptied r
      → Emptied (after_empty C IoError I poll r)
  after_empty-Emptied poll (pending, s) e = record { empty = λ p. absurd (ground arith) }
  after_empty-Emptied poll (ready (err x), s) e = record { empty = λ p. absurd (ground arith) }
  after_empty-Emptied poll (ready panic, s) e = record { empty = λ p. absurd (ground arith) }
  after_empty-Emptied poll (ready (ok u), s) e =
      when_ready-Emptied (poll s.inner) s.buffer _ λ i. record { empty = λ p. e.empty refl }

  -- When a poll of the sink reports success, the buffer is empty: `start_send` may be called, and
  -- after a flush or a close nothing is left behind.
  pub polls-Emptied :
      (s : Sink C IoError I)
      → Emptied (poll_ready C IoError I s)
        × Emptied (poll_flush C IoError I s)
        × Emptied (poll_close C IoError I s)
  unfolding poll_ready poll_flush poll_close try_empty_buffer
  polls-Emptied s =
      let emptied =
        when_ready-Emptied (I.poll_ready s.inner) s.buffer _ λ i. drain_buffer-Emptied s.buffer i in
      (
        after_empty-Emptied I.poll_ready _ emptied,
        after_empty-Emptied I.poll_flush _ emptied,
        after_empty-Emptied I.poll_close _ emptied,
      )
