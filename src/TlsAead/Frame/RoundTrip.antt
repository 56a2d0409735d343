-- ===== src/TlsAead/Frame/RoundTrip.antt =====
-- What `decode` returns on what `encode` wrote: whole records, followed by more, or cut short.
use mls_tls_protocol.Base.{
  zero, suc, length-take, ◌∙◌, ℕ, ◌+◌, ◌%◌, ◌≤◌, ◌<◌, ◌≡◌, refl, ap, [], ◌∷◌, ◌++◌, none, some, ok,
  length, take, drop, get_or, arith, length-append, length-drop, take-append_of_le,
  drop-append_of_le, take_self, drop_self, take-append-drop,
}
use mls_tls_protocol.Base.Bytes.{Octets, as_u16, from_be_bytes, from_be_bytes-to_be_bytes}
use mls_tls_protocol.TlsAead.Frame.{TlsPacketIn, decode, encode, header_bytes}

-- The packet that a header for `len` bytes and some bytes behind it make.
abbrev pub packet_of : ℕ → Octets → TlsPacketIn
packet_of len bytes = record { header = header_bytes len; body = bytes }

module _ {E : Type 0} where
  -- One record in front of other bytes, with the length that its header announces.
  pub decode_header :
      (len : ℕ) (bytes : Octets)
      → len < 65536
      → len ≤ length bytes
      → decode {E = E} (header_bytes len ++ bytes)
        ≡ (ok (some (packet_of len (take len bytes))), drop len bytes)
  unfolding decode
  decode_header len bytes h k = ground (arith, from_be_bytes-to_be_bytes len h)

  -- A payload shorter than 65,536 bytes that was encoded into an empty buffer is decoded to the
  -- same payload with its header, and the bytes behind the record stay in the buffer.
  pub decode-encode :
      (bytes rest : Octets)
      → length bytes < 65536
      → decode {E = E} ((encode {E = E} bytes []).1 ++ rest)
        ≡ (ok (some (packet_of (length bytes) bytes)), rest)
  unfolding encode
  decode-encode bytes rest h =
      let t : take (length bytes) (bytes ++ rest) ≡ bytes =
        take-append_of_le (length bytes) bytes rest (omega arith) ∙ take_self bytes in
      let d : drop (length bytes) (bytes ++ rest) ≡ rest =
        drop-append_of_le (length bytes) bytes rest (omega arith)
        ∙ ap (λ r. r ++ rest) (drop_self bytes) in
      let n : as_u16 (length bytes) ≡ length bytes = omega arith in
      rw n (
        decode_header (length bytes) (bytes ++ rest) h (omega (arith, length-append bytes rest))
        ∙ rw (t, d))

  -- A record that has arrived only in part is left in the buffer, and `decode` asks for more.
  pub decode-take-encode :
      (n : ℕ) (bytes : Octets)
      → length bytes < 65536
      → n < length bytes + 5
      → decode {E = E} (take n (encode {E = E} bytes []).1)
        ≡ (ok none, take n (encode {E = E} bytes []).1)
  unfolding encode decode
  decode-take-encode zero bytes h k = refl
  decode-take-encode (suc zero) bytes h k = refl
  decode-take-encode (suc (suc zero)) bytes h k = refl
  decode-take-encode (suc (suc (suc zero))) bytes h k = refl
  decode-take-encode (suc (suc (suc (suc zero)))) bytes h k = refl
  decode-take-encode (suc (suc (suc (suc (suc n))))) bytes h k =
      let e : as_u16 (length bytes) ≡ length bytes = omega arith in
      rw (e, from_be_bytes-to_be_bytes (length bytes) h) (ground (arith, length-take n bytes))

  -- Whatever `decode` takes off the buffer it returns: header, body and the rest are the buffer,
  -- the header has five bytes, and the body has the length that the header announces.
  pub decode_splits :
      (src : Octets) {p : TlsPacketIn} {rest : Octets}
      → decode {E = E} src ≡ (ok (some p), rest)
      → (p.header ++ (p.body ++ rest) ≡ src)
        × (length p.header ≡ 5)
        × (length p.body ≡ from_be_bytes (get_or p.header 3 0) (get_or p.header 4 0))
  unfolding decode
  decode_splits [] h = cc
  decode_splits (a ∷ []) h = cc
  decode_splits (a ∷ b ∷ []) h = cc
  decode_splits (a ∷ b ∷ c ∷ []) h = cc
  decode_splits (a ∷ b ∷ c ∷ d ∷ []) h = cc
  decode_splits (a ∷ b ∷ c ∷ d ∷ e ∷ bytes) h =
      let len = from_be_bytes d e in
      ground (arith, take-append-drop len bytes, length-take len bytes)

  -- A longer payload is written whole behind a header that announces its length modulo 65,536, so
  -- the payload is cut there and its tail is read as further records.
  pub decode-encode_long :
      (bytes rest : Octets)
      → 65536 ≤ length bytes
      → let len = length bytes % 65536 in
        (decode {E = E} ((encode {E = E} bytes []).1 ++ rest)
          ≡ (ok (some (packet_of len (take len bytes))), drop len bytes ++ rest))
        × (65536 ≤ length (drop len bytes))
  unfolding encode
  decode-encode_long bytes rest h =
      let len = length bytes % 65536 in
      let le : len ≤ length bytes = omega arith in
      (
        decode_header len (bytes ++ rest) (omega arith) (omega (arith, length-append bytes rest))
            ∙ rw (take-append_of_le len bytes rest le, drop-append_of_le len bytes rest le),
        omega (arith, length-drop len bytes),
      )
