-- ===== src/Tests/Connection.antt =====
-- Two codecs and an update of the client in flight.
use mls_tls_protocol.Base.{◌≡◌, refl, [], true, false, ◌∷◌, none, some}
use mls_tls_protocol.Base.Bytes.{Octets}
use mls_tls_protocol.TlsAead.Secrets.{TrafficSecrets, client, server, both}
use mls_tls_protocol.TlsAead.Keys.{
  expand_client_secret, expand_server_secret, hdkf_expand_label, key_iv,
}
use mls_tls_protocol.TlsAead.Codec.{
  TlsAeadCodec, seal, sent_one, make_iv, decrypt, update_traffic_secrets,
}
use mls_tls_protocol.TlsAead.Codec.Rekey.{Linked}
use mls_tls_protocol.TlsAead.Connection
use mls_tls_protocol.TlsAead.Connection.{
  rekey, item, opened, client_updates, server_updates, client_confirmed, Item, Step, Reach, here,
  later, quiet,
}
use mls_tls_protocol.TlsAead.Connection.Safety.{FrontOpens, Reach-opened, Reach-Linked}
use mls_tls_protocol.Tests.Toy.{replicate, toy_crypto, toy_aead}
use mls_tls_protocol.Tests.Channel.{hello, sender, receiver}

linked : Linked toy_crypto sender receiver
linked = record {
  up = record { same_key = refl; same_iv = refl; same_seq = refl; same_cipher = refl };
  down = record { same_key = refl; same_iv = refl; same_seq = refl; same_cipher = refl };
  same_hash = refl;
}

abbrev new_secrets : TrafficSecrets
new_secrets = record {
  client_secret = record { octets = replicate 64 1 };
  server_secret = record { octets = replicate 64 2 };
}

abbrev Pair : Type 0
Pair = Connection.Connection toy_crypto

abbrev pub sealed_hello : Octets
sealed_hello = 1 ∷ 2 ∷ 3 ∷ 23 ∷ replicate 16 0

-- The codecs after the update: of the client when it has sent, of the server, and of the client at the end.
abbrev updated_sender : TlsAeadCodec toy_crypto
updated_sender =
    (update_traffic_secrets toy_crypto (client new_secrets.client_secret) false
      (sent_one toy_crypto sender)).1

abbrev received : TlsAeadCodec toy_crypto
received = record receiver { recv_seq = 1 }

abbrev updated_receiver : TlsAeadCodec toy_crypto
updated_receiver =
    (update_traffic_secrets toy_crypto (both new_secrets) true (sent_one toy_crypto received)).1

abbrev confirmed : TlsAeadCodec toy_crypto
confirmed = record updated_sender { recv_seq = 1 }

abbrev last_sender : TlsAeadCodec toy_crypto
last_sender =
    (update_traffic_secrets toy_crypto (server new_secrets.server_secret) false confirmed).1

abbrev one_item : Item
one_item = item toy_crypto toy_aead sealed_hello hello (rekey new_secrets)

abbrev asked : Pair
asked = record {
  client_codec = updated_sender;
  server_codec = receiver;
  up = one_item ∷ [];
  down = [];
  pending = some new_secrets;
}

abbrev answered : Pair
answered = record {
  client_codec = updated_sender;
  server_codec = updated_receiver;
  up = [];
  down = one_item ∷ [];
  pending = some new_secrets;
}

abbrev done : Pair
done = record {
  client_codec = last_sender;
  server_codec = updated_receiver;
  up = [];
  down = [];
  pending = none;
}

abbrev From : Pair → Type 0
From = Reach toy_crypto toy_aead (quiet toy_crypto toy_aead sender receiver)

asks : Step toy_crypto toy_aead (quiet toy_crypto toy_aead sender receiver) asked
unfolding seal make_iv update_traffic_secrets expand_client_secret key_iv hdkf_expand_label
asks = client_updates hello sealed_hello new_secrets updated_sender refl refl refl

answers : Step toy_crypto toy_aead asked answered
unfolding seal make_iv decrypt update_traffic_secrets expand_client_secret expand_server_secret
    key_iv hdkf_expand_label
answers =
    server_updates sealed_hello hello hello hello sealed_hello new_secrets [] received
      updated_receiver refl refl refl refl

confirms : Step toy_crypto toy_aead answered done
unfolding make_iv decrypt update_traffic_secrets expand_server_secret key_iv hdkf_expand_label
    expand_client_secret
confirms =
    client_confirmed sealed_hello hello hello new_secrets new_secrets [] confirmed last_sender refl
      refl refl refl

to_answered : From answered
to_answered = later (later here asks) answers

Reach-opened_example :
    FrontOpens toy_crypto toy_aead answered.server_codec answered.up
    × FrontOpens toy_crypto toy_aead answered.client_codec answered.down
Reach-opened_example = Reach-opened toy_crypto toy_aead sender receiver answered linked to_answered

Reach-Linked_example : Linked toy_crypto last_sender updated_receiver × (done.pending ≡ none)
Reach-Linked_example =
    Reach-Linked toy_crypto toy_aead sender receiver done linked (later to_answered confirms) refl
      refl
