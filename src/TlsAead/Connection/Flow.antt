-- ===== src/TlsAead/Connection/Flow.antt =====
-- One direction of a connection: the records in flight fit the receiver one after another, and behind
-- them the receiver fits the sender.
use mls_tls_protocol.Base.{ℕ, ◌+◌, ◌≡◌, refl, ap, subst, List, [], ◌∷◌, ◌++◌, Result, ok}
use mls_tls_protocol.Base.Bytes.{Octets, as_u64}
use mls_tls_protocol.Crypto.{Crypto, IsAead}
use mls_tls_protocol.TlsAead.Secrets.{TrafficSecrets}
use mls_tls_protocol.TlsAead.Codec.{TlsAeadCodec, seal}
use mls_tls_protocol.TlsAead.Codec.Channel.{received_one, decrypt-seal}
use mls_tls_protocol.TlsAead.Connection.{Label, plain, rekey, Item, opened}

module _ (C : Crypto) (L : IsAead C) where
  -- What a codec sends by, or receives by.
  pub record Half : Type 0 where
    pub key : Octets
    pub iv : Octets
    pub seq : ℕ
    pub algorithm : C.AeadType

  abbrev pub send_half : TlsAeadCodec C → Half
  send_half c = record { key = c.send_key; iv = c.send_iv; seq = c.send_seq; algorithm = c.cipher }

  abbrev pub recv_half : TlsAeadCodec C → Half
  recv_half c = record { key = c.recv_key; iv = c.recv_iv; seq = c.recv_seq; algorithm = c.cipher }

  abbrev pub next : Half → Half
  next h = record h { seq = as_u64 (h.seq + 1) }

  abbrev pub with_keys : Octets × Octets → Half → Half
  with_keys k h = record h { key = k.0; iv = k.1 }

  -- The item was sealed by a codec that sends as `r` receives.
  abbrev pub Sealed : Half → Item → Type 0
  Sealed r i = (v : TlsAeadCodec C) × (send_half v ≡ r) × (seal C v i.chunk ≡ ok i.frame)

  pub decrypt-Sealed :
      (s : TlsAeadCodec C) (i : Item)
      → Sealed (recv_half s) i
      → opened C L s i ≡ (ok i.chunk, received_one C L s)
  decrypt-Sealed s i (v, same, sealed) =
      decrypt-seal C L v s i.chunk
        (record {
          same_key = ap (λ h. h.key) same;
          same_iv = ap (λ h. h.iv) same;
          same_seq = ap (λ h. h.seq) same;
          same_cipher = ap (λ h. h.algorithm) same;
        })
        sealed

  module _ (keys_of : TrafficSecrets → Result C.CryptoError (Octets × Octets)) where
    -- What a label makes of the keys.
    abbrev pub Passes : Label → Half → Half → Type 0
    Passes plain r r' = r ≡ r'
    Passes (rekey x) r r' = (k : Octets × Octets) × (keys_of x ≡ ok k) × (with_keys k r ≡ r')

    abbrev pub Flow : Half → List Item → Half → Type 0
    Flow h [] r = h ≡ r
    Flow h (i ∷ items) r = (r' : Half) × Sealed r i × Passes i.label (next r) r' × Flow h items r'

    -- One more record at the end.
    pub Flow-append :
        (items : List Item) (h h' r : Half) (i : Item)
        → Flow h items r
        → Sealed h i
        → Passes i.label (next h) h'
        → Flow h' (items ++ (i ∷ [])) r
    Flow-append [] h h' r i same sealed passes = (
      h',
      subst (λ x. Sealed x i) same sealed,
      subst (λ x. Passes i.label (next x) h') same passes,
      refl,
    )
    Flow-append (j ∷ items) h h' r i (r', front, step, rest) sealed passes =
        (r', front, step, Flow-append items h h' r' i rest sealed passes)
