-- ===== src/TlsAead/Frame/Stream.antt =====
-- The records of a byte stream that arrives in pieces. A framed reader calls `decode` on its buffer
-- for as long as that returns a packet, and again when more bytes have come: `drain` and `feed`.
use mathlib.Core.List.{flatten}
use mls_tls_protocol.Base.{
  ℕ, zero, suc, ◌≤◌, ◌<◌, ◌≡◌, refl, sym, ap, ◌∙◌, List, [], ◌∷◌, ◌++◌, Option, none, some, ok,
  Result, length, append-nil, append_assoc, arith, Option-cases, map, length-append, ◌⊎◌, inl, inr,
  length-drop, take-append_of_le, drop-append_of_le,
}
use mls_tls_protocol.Base.Bytes.{Octets, from_be_bytes}
use mls_tls_protocol.TlsAead.Frame.{TlsPacketIn, decode, encode}
use mls_tls_protocol.TlsAead.Frame.RoundTrip.{packet_of, decode-encode}

-- What a call of `decode` that returns a packet makes, and nothing otherwise.
abbrev packet_and_rest :
    Result (Unit {0}) (Option TlsPacketIn) × Octets → Option (TlsPacketIn × Octets)
packet_and_rest (ok (some p), rest) = some (p, rest)
packet_and_rest (_, rest) = none

pub next : Octets → Option (TlsPacketIn × Octets)
next src = packet_and_rest (decode src)

-- The buffer that a call of `decode` leaves.
left_by : Octets → Octets
left_by src = (decode {E = Unit {0}} src).1

drain_fuel : ℕ → Octets → List TlsPacketIn × Octets
drain_fuel zero src = ([], src)
drain_fuel (suc n) src = elim (next src) [
  | none ↦ ([], left_by src)
  | some (p, rest) ↦ let (ps, left) = drain_fuel n rest in (p ∷ ps, left)
]

-- All packets that the buffer holds whole, and the bytes that stay. A packet takes at least five
-- bytes, so as many rounds as there are bytes suffice.
unfoldable pub drain : Octets → List TlsPacketIn × Octets
unfolding drain_fuel next left_by decode
drain src = drain_fuel (length src) src

-- The pieces of a stream as they come, and what the reader hands on meanwhile.
unfoldable pub feed : Octets → List Octets → List TlsPacketIn × Octets
unfolding drain
feed buffer [] = ([], buffer)
feed buffer (piece ∷ pieces) =
    let (ps, left) = drain (buffer ++ piece) in
    let (qs, rest) = feed left pieces in (ps ++ qs, rest)

next_cases :
    (src : Octets)
    → (next src ≡ none) ⊎ ((p : TlsPacketIn) × (rest : Octets) × (next src ≡ some (p, rest)))
next_cases src = elim (Option-cases (next src)) [ inl e ↦ inl e | inr (q, e) ↦ inr (q.0, q.1, e) ]

-- More bytes behind a whole packet do not change it.
next-append :
    (src more : Octets) {p : TlsPacketIn} {rest : Octets}
    → next src ≡ some (p, rest)
    → next (src ++ more) ≡ some (p, rest ++ more)
unfolding next decode
next-append [] more h = cc
next-append (a ∷ []) more h = cc
next-append (a ∷ b ∷ []) more h = cc
next-append (a ∷ b ∷ c ∷ []) more h = cc
next-append (a ∷ b ∷ c ∷ d ∷ []) more h = cc
next-append (a ∷ b ∷ c ∷ d ∷ e ∷ bytes) more h =
    let len = from_be_bytes d e in
    ground (
      arith,
      take-append_of_le len bytes more,
      drop-append_of_le len bytes more,
      length-append bytes more,
    )

next_shrinks :
    (src : Octets) {p : TlsPacketIn} {rest : Octets}
    → next src ≡ some (p, rest)
    → length rest < length src
unfolding next decode
next_shrinks [] h = cc
next_shrinks (a ∷ []) h = cc
next_shrinks (a ∷ b ∷ []) h = cc
next_shrinks (a ∷ b ∷ c ∷ []) h = cc
next_shrinks (a ∷ b ∷ c ∷ d ∷ []) h = cc
next_shrinks (a ∷ b ∷ c ∷ d ∷ e ∷ bytes) h =
    let len = from_be_bytes d e in ground (arith, length-drop len bytes)

-- Without a whole packet, `decode` leaves the buffer as it is.
left_by_lem : (src : Octets) → next src ≡ none → left_by src ≡ src
unfolding next left_by decode
left_by_lem [] h = refl
left_by_lem (a ∷ []) h = refl
left_by_lem (a ∷ b ∷ []) h = refl
left_by_lem (a ∷ b ∷ c ∷ []) h = refl
left_by_lem (a ∷ b ∷ c ∷ d ∷ []) h = refl
left_by_lem (a ∷ b ∷ c ∷ d ∷ e ∷ bytes) h = ground arith

drain_fuel_enough :
    (n m : ℕ) (src : Octets) → length src ≤ n → length src ≤ m → drain_fuel n src ≡ drain_fuel m src
unfolding drain_fuel
drain_fuel_enough zero zero src h k = refl
drain_fuel_enough zero (suc m) [] h k = unfold next left_by decode in refl
drain_fuel_enough zero (suc m) (b ∷ src) h k = absurd (omega arith)
drain_fuel_enough (suc n) zero [] h k = unfold next left_by decode in refl
drain_fuel_enough (suc n) zero (b ∷ src) h k = absurd (omega arith)
drain_fuel_enough (suc n) (suc m) src h k = elim (next_cases src) [
  | inl e ↦ rw (e, drain_fuel)
  | inr (p, rest, e) ↦
      let s = next_shrinks src e in
      rw (e, drain_fuel) (rw (drain_fuel_enough n m rest (omega arith) (omega arith)))
]

drain-none : (src : Octets) → next src ≡ none → drain src ≡ ([], src)
unfolding drain_fuel drain
drain-none [] e = refl
drain-none (b ∷ src) e = rw (e, drain_fuel) (rw (left_by_lem (b ∷ src) e))

pub drain-some :
    (src : Octets) {p : TlsPacketIn} {rest : Octets}
    → next src ≡ some (p, rest)
    → drain src ≡ (p ∷ (drain rest).0, (drain rest).1)
unfolding drain_fuel drain
drain-some [] e = unfold next decode in cc
drain-some (b ∷ src) {p} {rest} e =
    let s = next_shrinks (b ∷ src) e in
    rw (e, drain_fuel)
      (rw (drain_fuel_enough (length src) (length rest) rest (omega arith) (omega arith)))

drain-append_fuel :
    (n : ℕ) (src more : Octets)
    → length src ≤ n
    → drain (src ++ more)
      ≡ ((drain src).0 ++ (drain ((drain src).1 ++ more)).0, (drain ((drain src).1 ++ more)).1)
drain-append_fuel zero [] more h = rw (drain-none [] (unfold next left_by decode in refl))
drain-append_fuel zero (b ∷ src) more h = absurd (omega arith)
drain-append_fuel (suc n) src more h = elim (next_cases src) [
  | inl e ↦ rw (drain-none src e)
  | inr (p, rest, e) ↦
      let s = next_shrinks src e in
      rw (drain-some src e, drain-some (src ++ more) (next-append src more e))
        (rw (drain-append_fuel n rest more (omega arith)))
]

drain-append :
    (src more : Octets)
    → drain (src ++ more)
      ≡ ((drain src).0 ++ (drain ((drain src).1 ++ more)).0, (drain ((drain src).1 ++ more)).1)
drain-append src more = drain-append_fuel (length src) src more (omega arith)

drain_again : (n : ℕ) (src : Octets) → length src ≤ n → drain (drain src).1 ≡ ([], (drain src).1)
drain_again zero [] h = let e = drain-none [] (unfold next left_by decode in refl) in rw (e) (rw e)
drain_again zero (b ∷ src) h = absurd (omega arith)
drain_again (suc n) src h = elim (next_cases src) [
  | inl e ↦ let d = drain-none src e in rw d (rw d)
  | inr (p, rest, e) ↦
      let s = next_shrinks src e in rw (drain-some src e) (drain_again n rest (omega arith))
]

-- However the stream is cut into pieces, a reader that drains its buffer after each piece hands on
-- the packets of the whole stream in order, and keeps the same bytes. The buffer it starts with
-- holds no whole record.
pub feed-eq-drain :
    (buffer : Octets) (pieces : List Octets)
    → drain buffer ≡ ([], buffer)
    → feed buffer pieces ≡ drain (buffer ++ flatten pieces)
unfolding feed flatten
feed-eq-drain buffer [] h = sym (ap drain (append-nil buffer) ∙ h)
feed-eq-drain buffer (piece ∷ pieces) h =
    let joined = buffer ++ piece in
    let again = drain_again (length joined) joined (omega arith) in
    rw (← append_assoc buffer piece (flatten pieces))
      (rw (drain-append joined (flatten pieces)) (rw (feed-eq-drain (drain joined).1 pieces again)))

-- The buffer after a sequence of calls of `encode`.
unfoldable pub encode_all : List Octets → Octets → Octets
encode_all [] dst = dst
encode_all (bytes ∷ payloads) dst = encode_all payloads (encode {E = Unit {0}} bytes dst).1

abbrev pub AllShort : List Octets → Type 0
AllShort [] = Unit
AllShort (bytes ∷ payloads) = (length bytes < 65536) × AllShort payloads

abbrev pub packets_of : List Octets → List TlsPacketIn
packets_of = map (λ bytes. packet_of (length bytes) bytes)

encode_all-append :
    (payloads : List Octets) (dst : Octets)
    → encode_all payloads dst ≡ dst ++ encode_all payloads []
unfolding encode_all encode
encode_all-append [] dst = rw append-nil
encode_all-append (bytes ∷ payloads) dst =
    let one = (encode {E = Unit {0}} bytes []).1 in
    encode_all-append payloads (dst ++ one)
    ∙ append_assoc dst one (encode_all payloads [])
    ∙ ap (λ r. dst ++ r) (sym (encode_all-append payloads one))

drain-encode_all :
    (payloads : List Octets)
    → AllShort payloads
    → drain (encode_all payloads []) ≡ (packets_of payloads, [])
unfolding encode_all next
drain-encode_all [] s = drain-none [] (unfold next left_by decode in refl)
drain-encode_all (bytes ∷ payloads) s =
    let rest = encode_all payloads [] in
    let first = ap packet_and_rest (decode-encode bytes rest s.0) in
    rw (encode_all-append payloads (encode {E = Unit {0}} bytes []).1) (
      drain-some ((encode {E = Unit {0}} bytes []).1 ++ rest) first
      ∙ rw (drain-encode_all payloads s.1))

-- Payloads of less than 65,536 bytes each, encoded one after another and sent in pieces of any
-- size, come out as the same payloads in order, and no byte is left over.
pub feed-encode_all :
    (payloads pieces : List Octets)
    → AllShort payloads
    → flatten pieces ≡ encode_all payloads []
    → feed [] pieces ≡ (packets_of payloads, [])
feed-encode_all payloads pieces s e =
    feed-eq-drain [] pieces (drain-none [] (unfold next left_by decode in refl))
    ∙ rw e (drain-encode_all payloads s)
