-- ===== src/Tests/Channel.antt =====
-- Codecs, the sink and updates at concrete inputs.
use mls_tls_protocol.Base.{
  ◌≡◌, refl, List, [], ◌∷◌, ◌++◌, Bool, true, false, ok, chunks, concat, arith,
}
use mls_tls_protocol.Base.Bytes.{Octets}
use mls_tls_protocol.TlsAead.Secrets
use mls_tls_protocol.TlsAead.Secrets.{TrafficSecrets, SecretUpdate, client, both}
use mls_tls_protocol.TlsAead.Keys.{
  GeneratedKeys, generate_keys, expand_client_secret, expand_server_secret, hdkf_expand_label,
  key_iv,
}
use mls_tls_protocol.TlsAead.Frame.{encode}
use mls_tls_protocol.TlsAead.Frame.Stream.{encode_all, feed}
use mls_tls_protocol.TlsAead.Codec.{
  TlsAeadCodec, new, seal, encrypt, encrypt_chunks, encrypt_with_header, frame_chunks, make_iv,
  update_traffic_secrets, of_keys,
}
use mls_tls_protocol.TlsAead.Codec.Channel.{Paired, Delivers, encrypt-Delivers}
use mls_tls_protocol.TlsAead.Codec.Rekey.{
  rekeyed, Linked, new-Linked, update_traffic_secrets-Linked, update_traffic_secrets-rekeyed,
}
use mls_tls_protocol.TlsAead.Codec.Header.{with_header, Opens, encrypt_with_header-Opens}
use mls_tls_protocol.TlsAead.StreamSink.{TlsAeadSink, Sink, start_send}
use mls_tls_protocol.TlsAead.StreamSink
use mls_tls_protocol.TlsAead.StreamSink.Order.{InOrder, polls-InOrder}
use mls_tls_protocol.TlsAead.StreamSink.Transport.{receive_all, receive_all-start_send}
use mathlib.Core.List.{flatten}
use mls_tls_protocol.Tests.Toy.{replicate, toy_crypto, toy_aead, toy_writer, toy_order}

abbrev pub hello : Octets
hello = 1 ∷ 2 ∷ 3 ∷ []

abbrev pub sender : TlsAeadCodec toy_crypto
sender = record {
  send_key = replicate 32 5;
  send_iv = replicate 12 6;
  recv_key = replicate 32 7;
  recv_iv = replicate 12 8;
  send_seq = 0;
  recv_seq = 0;
  cipher = tt;
  hash = tt;
  max_frame_size = 2;
}

abbrev pub receiver : TlsAeadCodec toy_crypto
receiver = record {
  send_key = replicate 32 7;
  send_iv = replicate 12 8;
  recv_key = replicate 32 5;
  recv_iv = replicate 12 6;
  send_seq = 0;
  recv_seq = 0;
  cipher = tt;
  hash = tt;
  max_frame_size = 2;
}

paired : Paired toy_crypto sender receiver
paired = record { same_key = refl; same_iv = refl; same_seq = refl; same_cipher = refl }

abbrev first : Octets
first = 1 ∷ 2 ∷ 23 ∷ replicate 16 0

abbrev second : Octets
second = 3 ∷ 23 ∷ replicate 16 0

abbrev sent : TlsAeadCodec toy_crypto × List Octets
sent = (record sender { send_seq = 2 }, first ∷ second ∷ [])

hello_encrypted : encrypt toy_crypto hello (sender, []) ≡ (ok tt, sent)
unfolding encrypt encrypt_chunks seal make_iv chunks
hello_encrypted = refl

encrypt-Delivers_example :
    Delivers toy_crypto toy_aead sender receiver (chunks 2 hello) [] sent
    × (concat (chunks 2 hello) ≡ hello)
encrypt-Delivers_example =
    encrypt-Delivers toy_crypto toy_aead hello [] sender receiver paired hello_encrypted

abbrev sealed : Octets
sealed = 1 ∷ 2 ∷ 3 ∷ 23 ∷ replicate 16 0

hello-sealed : seal toy_crypto sender hello ≡ ok sealed
unfolding seal make_iv
hello-sealed = refl

-- The records of `encrypt_with_header`, for the AEAD with a tag of 16 bytes.
abbrev framed : List Octets
framed = with_header toy_crypto toy_aead first ∷ with_header toy_crypto toy_aead second ∷ []

hello-framed :
    encrypt_with_header toy_crypto hello sender ≡ (ok framed, record sender { send_seq = 2 })
unfolding encrypt_with_header frame_chunks seal make_iv chunks
hello-framed = refl

encrypt_with_header-Opens_example :
    Opens toy_crypto toy_aead sender receiver
      (chunks 2 hello)
      []
      framed
      (record sender { send_seq = 2 })
    × (concat (chunks 2 hello) ≡ hello)
encrypt_with_header-Opens_example =
    encrypt_with_header-Opens toy_crypto toy_aead hello sender receiver paired refl hello-framed

-- The sink takes the message, and the bytes arrive in two pieces.
abbrev sink_before : Sink toy_crypto (Unit {0}) toy_writer
sink_before = record { inner = []; buffer = [] }

abbrev sink_after : Sink toy_crypto (Unit {0}) toy_writer
sink_after = record { inner = []; buffer = first ∷ second ∷ [] }

hello_taken :
    start_send toy_crypto (Unit {0}) toy_writer false hello sink_before sender
    ≡ (ok tt, (sink_after, record sender { send_seq = 2 }))
unfolding start_send encrypt encrypt_chunks seal make_iv chunks
hello_taken = refl

abbrev pieces : List Octets
pieces =
    (23 ∷ 3 ∷ 3 ∷ 0 ∷ 19 ∷ 1 ∷ 2 ∷ [])
    ∷ ((23 ∷ replicate 16 0) ++ (23 ∷ 3 ∷ 3 ∷ 0 ∷ 18 ∷ second))
    ∷ []

pieces_lem : flatten pieces ≡ encode_all (first ∷ second ∷ []) []
unfolding flatten encode_all encode
pieces_lem = refl

receive_all-start_send_example :
    (concat (receive_all toy_crypto toy_aead (Unit {0}) (feed [] pieces).0 receiver).0 ≡ hello)
    × Paired toy_crypto
        (record sender { send_seq = 2 })
        (receive_all toy_crypto toy_aead (Unit {0}) (feed [] pieces).0 receiver).1
receive_all-start_send_example =
    receive_all-start_send toy_crypto toy_aead (Unit {0}) toy_writer hello [] sender receiver pieces
      paired (omega arith) hello_taken pieces_lem

polls-InOrder_example :
    InOrder toy_crypto toy_writer
      (λ i. i)
      toy_order
      (first ∷ second ∷ [])
      (StreamSink.poll_ready toy_crypto (Unit {0}) toy_writer sink_after)
    × InOrder toy_crypto toy_writer
        (λ i. i)
        toy_order
        (first ∷ second ∷ [])
        (StreamSink.poll_flush toy_crypto (Unit {0}) toy_writer sink_after)
    × InOrder toy_crypto toy_writer
        (λ i. i)
        toy_order
        (first ∷ second ∷ [])
        (StreamSink.poll_close toy_crypto (Unit {0}) toy_writer sink_after)
polls-InOrder_example = polls-InOrder toy_crypto toy_writer (λ i. i) toy_order sink_after

-- Keys.
abbrev secrets : TrafficSecrets
secrets = record {
  client_secret = record { octets = 1 ∷ [] };
  server_secret = record { octets = 2 ∷ [] };
}

abbrev keys : GeneratedKeys
keys = record {
  client_key = replicate 32 207;
  client_iv = replicate 12 205;
  server_key = replicate 32 224;
  server_iv = replicate 12 222;
}

keys_generated : generate_keys toy_crypto tt secrets [] tt ≡ ok keys
unfolding generate_keys expand_client_secret expand_server_secret hdkf_expand_label key_iv
keys_generated = refl

abbrev made : Bool → TlsAeadCodec toy_crypto
made is_server = of_keys toy_crypto is_server keys tt tt

made_lem : (is_server : Bool) → new toy_crypto is_server secrets [] tt tt ≡ ok (made is_server)
unfolding new
made_lem is_server = rw keys_generated

abbrev fresh : SecretUpdate
fresh = client (record { octets = 4 ∷ [] })

abbrev fresh_client : TlsAeadCodec toy_crypto
fresh_client = record (made false) { send_key = replicate 32 210; send_iv = replicate 12 208 }

abbrev fresh_server : TlsAeadCodec toy_crypto
fresh_server = record (made true) { recv_key = replicate 32 210; recv_iv = replicate 12 208 }

client_updated : update_traffic_secrets toy_crypto fresh false (made false) ≡ (ok tt, fresh_client)
unfolding update_traffic_secrets expand_client_secret hdkf_expand_label key_iv
client_updated = refl

server_updated : update_traffic_secrets toy_crypto fresh true (made true) ≡ (ok tt, fresh_server)
unfolding update_traffic_secrets expand_client_secret hdkf_expand_label key_iv
server_updated = refl

update_traffic_secrets-Linked_example : Linked toy_crypto fresh_client fresh_server
update_traffic_secrets-Linked_example =
    update_traffic_secrets-Linked toy_crypto fresh (made false) (made true)
      (new-Linked toy_crypto secrets [] tt tt (made_lem false) (made_lem true)) client_updated
      server_updated

abbrev fresh_keys : GeneratedKeys
fresh_keys = record keys { client_key = replicate 32 210; client_iv = replicate 12 208 }

fresh_generated : generate_keys toy_crypto tt (Secrets.update fresh secrets) [] tt ≡ ok fresh_keys
unfolding generate_keys expand_client_secret expand_server_secret hdkf_expand_label key_iv
    Secrets.update
fresh_generated = refl

update_traffic_secrets-rekeyed_example :
    update_traffic_secrets toy_crypto fresh false (rekeyed toy_crypto false keys sender)
    ≡ (ok tt, rekeyed toy_crypto false fresh_keys sender)
update_traffic_secrets-rekeyed_example =
    update_traffic_secrets-rekeyed toy_crypto secrets fresh false sender keys_generated
      fresh_generated
