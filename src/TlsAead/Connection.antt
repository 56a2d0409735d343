-- ===== src/TlsAead/Connection.antt =====
-- Two codecs with records in flight in both directions, under any order of sends, receipts and key
-- updates. The orders are those of src/encryption_provider/mod.rs, record by record: the client sends the
-- last record of a signaling message with its old key and then takes a new one; the server answers it
-- with its old key and then takes both new keys; the client takes the server's new key when it has the
-- answer. An update that the server asks for is, from here on, one that the client makes.
pub mod Flow
pub mod Pending
pub mod Keys
pub mod Invariant
pub mod Safety
use mls_tls_protocol.Base.{ℕ, ◌≡◌, List, [], ◌∷◌, ◌++◌, Option, none, some, Result, ok, true, false}
use mls_tls_protocol.Base.Bytes.{Octets}
use mls_tls_protocol.Crypto.{Crypto, IsAead}
use mls_tls_protocol.TlsAead.Secrets.{TrafficSecrets, client, server, both}
use mls_tls_protocol.TlsAead.Codec.{
  TlsAeadCodec, TlsAeadCodecError, seal, sent_one, decrypt, update_traffic_secrets,
}
use mls_tls_protocol.TlsAead.Codec.Channel.{record_header}

-- What the receiver of a record does after it: nothing with its keys, or the update by some secrets.
pub data Label : Type 0 where
  plain : Label
  rekey : TrafficSecrets → Label

-- A record in flight: its ciphertext, and the chunk that was sealed.
pub record Item : Type 0 where
  pub frame : Octets
  pub chunk : Octets
  pub label : Label

-- `pending` has the secrets of an update that the client waits to have confirmed.
pub record Connection (C : Crypto) : Type 0 where
  pub client_codec : TlsAeadCodec C
  pub server_codec : TlsAeadCodec C
  pub up : List Item
  pub down : List Item
  pub pending : Option TrafficSecrets

module _ (C : Crypto) (L : IsAead C) where
  abbrev pub item : Octets → Octets → Label → Item
  item frame chunk label = record { frame = frame; chunk = chunk; label = label }

  abbrev pub opened : TlsAeadCodec C → Item → Result (TlsAeadCodecError C) Octets × TlsAeadCodec C
  opened c i = decrypt C i.frame (record_header C L i.frame) c

  pub data Step (k : Connection C) : Connection C → Type 0 where
    client_sends :
        (chunk e : Octets)
        → seal C k.client_codec chunk ≡ ok e
        → Step k (record k {
          client_codec = sent_one C k.client_codec;
          up = k.up ++ (item e chunk plain ∷ []);
        })
    server_sends :
        (chunk e : Octets)
        → seal C k.server_codec chunk ≡ ok e
        → Step k (record k {
          server_codec = sent_one C k.server_codec;
          down = k.down ++ (item e chunk plain ∷ []);
        })
    client_updates :
        (chunk e : Octets) (x : TrafficSecrets) (c : TlsAeadCodec C)
        → k.pending ≡ none
        → seal C k.client_codec chunk ≡ ok e
        → update_traffic_secrets C (client x.client_secret) false (sent_one C k.client_codec)
          ≡ (ok tt, c)
        → Step k (record k {
          client_codec = c;
          up = k.up ++ (item e chunk (rekey x) ∷ []);
          pending = some x;
        })
    server_receives :
        (frame chunk m : Octets) (rest : List Item) (s : TlsAeadCodec C)
        → k.up ≡ item frame chunk plain ∷ rest
        → opened k.server_codec (item frame chunk plain) ≡ (ok m, s)
        → Step k (record k { server_codec = s; up = rest })
    server_updates :
        (frame chunk m answer e : Octets) (x : TrafficSecrets) (rest : List Item)
        (s t : TlsAeadCodec C)
        → k.up ≡ item frame chunk (rekey x) ∷ rest
        → opened k.server_codec (item frame chunk (rekey x)) ≡ (ok m, s)
        → seal C s answer ≡ ok e
        → update_traffic_secrets C (both x) true (sent_one C s) ≡ (ok tt, t)
        → Step k (record k {
          server_codec = t;
          up = rest;
          down = k.down ++ (item e answer (rekey x) ∷ []);
        })
    client_receives :
        (frame chunk m : Octets) (rest : List Item) (c : TlsAeadCodec C)
        → k.down ≡ item frame chunk plain ∷ rest
        → opened k.client_codec (item frame chunk plain) ≡ (ok m, c)
        → Step k (record k { client_codec = c; down = rest })
    client_confirmed :
        (frame chunk m : Octets) (x y : TrafficSecrets) (rest : List Item) (c d : TlsAeadCodec C)
        → k.down ≡ item frame chunk (rekey x) ∷ rest
        → k.pending ≡ some y
        → opened k.client_codec (item frame chunk (rekey x)) ≡ (ok m, c)
        → update_traffic_secrets C (server y.server_secret) false c ≡ (ok tt, d)
        → Step k (record k { client_codec = d; down = rest; pending = none })

  pub data Reach (start : Connection C) : Connection C → Type 0 where
    here : Reach start start
    later : {k l : Connection C} → Reach start k → Step k l → Reach start l

  abbrev pub quiet : TlsAeadCodec C → TlsAeadCodec C → Connection C
  quiet c s = record { client_codec = c; server_codec = s; up = []; down = []; pending = none }
