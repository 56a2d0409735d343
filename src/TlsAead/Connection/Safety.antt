-- ===== src/TlsAead/Connection/Safety.antt =====
-- In every order of sends, receipts and updates each record opens at its receiver.
use mls_tls_protocol.Base.{
  Result, ◌≡◌, refl, sym, ap, ap₂, ◌∙◌, subst, List, [], ◌∷◌, ◌++◌, none, ok,
}
use mls_tls_protocol.Base.Bytes.{Octets}
use mls_tls_protocol.Crypto.{Crypto, IsAead}
use mls_tls_protocol.TlsAead.Secrets.{TrafficSecrets}
use mls_tls_protocol.TlsAead.Codec.{TlsAeadCodec}
use mls_tls_protocol.TlsAead.Codec.Channel.{Paired, received_one}
use mls_tls_protocol.TlsAead.Codec.Rekey.{Linked}
use mls_tls_protocol.TlsAead.Connection.{Item, Connection, opened, Reach, here, later, quiet}
use mls_tls_protocol.TlsAead.Connection.Flow.{Half, send_half, recv_half, decrypt-Sealed, Flow}
use mls_tls_protocol.TlsAead.Connection.Pending.{rekeys, pending_list-eq-nil}
use mls_tls_protocol.TlsAead.Connection.Keys.{client_keys, server_keys}
use mls_tls_protocol.TlsAead.Connection.Invariant.{Inv, Step-Inv}

module _ (C : Crypto) (L : IsAead C) where
  half-Paired : {s r : TlsAeadCodec C} → send_half C L s ≡ recv_half C L r → Paired C s r
  half-Paired h = record {
    same_key = ap (λ x. x.key) h;
    same_iv = ap (λ x. x.iv) h;
    same_seq = ap (λ x. x.seq) h;
    same_cipher = ap (λ x. x.algorithm) h;
  }

  Paired-half : {s r : TlsAeadCodec C} → Paired C s r → send_half C L s ≡ recv_half C L r
  Paired-half p i = record {
    key = p.same_key i;
    iv = p.same_iv i;
    seq = p.same_seq i;
    algorithm = p.same_cipher i;
  }

  quiet-Inv : (c s : TlsAeadCodec C) → Linked C c s → Inv C L c.hash c.cipher (quiet C L c s)
  quiet-Inv c s l = record {
    client_uses = (refl, refl);
    server_uses = (sym l.same_hash, sym l.up.same_cipher);
    upward = Paired-half l.up;
    downward = Paired-half l.down;
    one_update = refl;
  }

  -- A property of the start that every step keeps.
  Reach-Inv :
      {c s : TlsAeadCodec C} {k : Connection C}
      → Linked C c s
      → Reach C L (quiet C L c s) k
      → Inv C L c.hash c.cipher k
  Reach-Inv {c} {s} l here = quiet-Inv c s l
  Reach-Inv l (later r st) = Step-Inv C L _ _ st (Reach-Inv l r)

  -- The first of some records, if there is one, opens to its chunk at its receiver, which counts it.
  abbrev pub FrontOpens : TlsAeadCodec C → List Item → Type 0
  FrontOpens r [] = Unit
  FrontOpens r (i ∷ rest) = opened C L r i ≡ (ok i.chunk, received_one C L r)

  Flow-FrontOpens :
      (keys_of : TrafficSecrets → Result C.CryptoError (Octets × Octets)) (r : TlsAeadCodec C)
      (h : Half C L) (items : List Item)
      → Flow C L keys_of h items (recv_half C L r)
      → FrontOpens r items
  Flow-FrontOpens keys_of r h [] flow = tt
  Flow-FrontOpens keys_of r h (i ∷ rest) flow = decrypt-Sealed C L r i flow.1

  -- The two directions, by the records in flight.
  abbrev Upward : TlsAeadCodec C → Connection C → List Item → Type 0
  Upward c k items =
      Flow C L (client_keys C c.hash c.cipher) (send_half C L k.client_codec) items
        (recv_half C L k.server_codec)

  abbrev Downward : TlsAeadCodec C → Connection C → List Item → Type 0
  Downward c k items =
      Flow C L (server_keys C c.hash c.cipher) (send_half C L k.server_codec) items
        (recv_half C L k.client_codec)

  -- Let a client and a server start with linked codecs, and let them seal, open and update in any order
  -- that the protocol allows. Then whatever record is next in either direction, sealed before or
  -- after an update, its receiver opens it to the chunk that was sealed and counts it.
  pub Reach-opened :
      (c s : TlsAeadCodec C) (k : Connection C)
      → Linked C c s
      → Reach C L (quiet C L c s) k
      → FrontOpens k.server_codec k.up × FrontOpens k.client_codec k.down
  Reach-opened c s k l r =
      let v = Reach-Inv l r in
      (
        Flow-FrontOpens (client_keys C c.hash c.cipher) k.server_codec _ k.up v.upward,
        Flow-FrontOpens (server_keys C c.hash c.cipher) k.client_codec _ k.down v.downward,
      )

  -- Whenever no record is in flight the two codecs are linked again and no update is pending.
  pub Reach-Linked :
      (c s : TlsAeadCodec C) (k : Connection C)
      → Linked C c s
      → Reach C L (quiet C L c s) k
      → k.up ≡ []
      → k.down ≡ []
      → Linked C k.client_codec k.server_codec × (k.pending ≡ none)
  Reach-Linked c s k l r p q =
      let v = Reach-Inv l r in
      let none_left =
        pending_list-eq-nil k.pending
          (ap₂ (λ us ds. rekeys us ++ rekeys ds) (sym p) (sym q) ∙ v.one_update) in
      (
        record {
          up = half-Paired (subst (Upward c k) p v.upward);
          down = half-Paired (subst (Downward c k) q v.downward);
          same_hash = v.client_uses.0 ∙ sym v.server_uses.0;
        },
        none_left,
      )
