-- ===== src/TlsAead/Frame.antt =====
-- src/tls_aead/codec.rs: the framing of records on the byte stream. A `BytesMut` is the state of a
-- method; the error type is a parameter, since neither method makes an error.
pub mod RoundTrip
pub mod Stream
use mls_tls_protocol.Base.{
  ℕ, ◌+◌, List, ◌∷◌, ◌++◌, Option, none, some, ok, M, length, take, drop, get_or, ltb,
  if◌then◌else◌,
}
use mls_tls_protocol.Base.Bytes.{Octets, as_u16, to_be_bytes, from_be_bytes}
use mls_tls_protocol.TlsAead.{tls_app_data, tls_version, tls_hdr_size}

-- The field `data` of the source is `body` here.
pub record TlsPacketIn : Type 0 where
  pub header : Octets
  pub body : Octets

-- `self.header[0]`; `decode` makes headers of five bytes.
unfoldable pub msg_type : TlsPacketIn → ℕ
msg_type p = get_or p.header 0 0

-- `BytesMut::split_to(at)`: the first part, and what the buffer keeps.
abbrev pub split_to : ℕ → Octets → Octets × Octets
split_to at src = (take at src, drop at src)

-- Both splits of `decode`, after its tests.
abbrev split_packet : ℕ → Octets → TlsPacketIn × Octets
split_packet len src =
    let (header, rest) = split_to tls_hdr_size src in
    let (body, rest') = split_to len rest in (record { header = header; body = body }, rest')

unfoldable pub decode : {E : Type 0} → M Octets E (Option TlsPacketIn)
decode src =
    if ltb (length src) tls_hdr_size
    then (ok none, src)
    else let len = from_be_bytes (get_or src 3 0) (get_or src 4 0) in
      if ltb (length src) (len + tls_hdr_size)
      then (ok none, src)
      else let (packet, rest) = split_packet len src in (ok (some packet), rest)

-- The five bytes that `encode` writes before the data.
abbrev pub header_bytes : ℕ → Octets
header_bytes len = tls_app_data ∷ (to_be_bytes tls_version ++ to_be_bytes len)

unfoldable pub encode : {E : Type 0} → Octets → M Octets E (Unit {0})
encode bytes dst = let len = as_u16 (length bytes) in (ok tt, dst ++ (header_bytes len ++ bytes))
