-- ===== src/Tests/Records.antt =====
-- Records, labels and nonces at concrete inputs.
use mls_tls_protocol.Base.{
  ℕ, ◌%◌, ◌≤◌, ◌≡◌, refl, [], ◌∷◌, ◌++◌, some, ok, length, take, drop, subst, sym, arith,
}
use mls_tls_protocol.Base.Bytes.{Octets, ascii}
use mls_tls_protocol.TlsAead.Frame.{decode, encode}
use mls_tls_protocol.TlsAead.Frame.RoundTrip.{packet_of, decode-encode_long}
use mls_tls_protocol.TlsAead.Frame.Stream.{
  feed, drain, encode_all, packets_of, feed-eq-drain, feed-encode_all,
}
use mathlib.Core.List.{flatten}
use mls_tls_protocol.TlsAead.Keys.{hdkf_expand_label, key_iv, expand_client_secret}
use mls_tls_protocol.TlsAead.Keys.Label.{label_info-injective}
use mls_tls_protocol.TlsAead.Codec.Nonce.{make_iv-injective}
use mls_tls_protocol.Tests.Toy.{replicate, length-replicate, toy_crypto}

abbrev hello : Octets
hello = 1 ∷ 2 ∷ 3 ∷ []

abbrev hello_record : Octets
hello_record = 23 ∷ 3 ∷ 3 ∷ 0 ∷ 3 ∷ 1 ∷ 2 ∷ 3 ∷ []

hello_record_lem : (encode {E = Unit {0}} hello []).1 ≡ hello_record
unfolding encode
hello_record_lem = refl

hello_decoded : decode {E = Unit {0}} hello_record ≡ (ok (some (packet_of 3 hello)), [])
unfolding decode
hello_decoded = refl

abbrev long : Octets
long = replicate 65538 1

decode-encode_long_example :
    (decode {E = Unit {0}} ((encode {E = Unit {0}} long []).1 ++ []) ≡ (
      ok (some (packet_of (length long % 65536) (take (length long % 65536) long))),
      drop (length long % 65536) long ++ [],
    ))
    × (65536 ≤ length (drop (length long % 65536) long))
decode-encode_long_example =
    decode-encode_long long []
      (subst (λ n. 65536 ≤ n) (sym (length-replicate 65538 1)) (omega arith))

feed-eq-drain_example :
    feed (23 ∷ []) ((3 ∷ 3 ∷ 0 ∷ []) ∷ (3 ∷ 1 ∷ 2 ∷ 3 ∷ 7 ∷ []) ∷ [])
    ≡ drain ((23 ∷ []) ++ flatten ((3 ∷ 3 ∷ 0 ∷ []) ∷ (3 ∷ 1 ∷ 2 ∷ 3 ∷ 7 ∷ []) ∷ []))
unfolding drain
feed-eq-drain_example =
    feed-eq-drain (23 ∷ []) ((3 ∷ 3 ∷ 0 ∷ []) ∷ (3 ∷ 1 ∷ 2 ∷ 3 ∷ 7 ∷ []) ∷ []) refl

two_records :
    flatten ((23 ∷ 3 ∷ 3 ∷ 0 ∷ []) ∷ (1 ∷ 7 ∷ 23 ∷ 3 ∷ 3 ∷ 0 ∷ 3 ∷ 1 ∷ 2 ∷ 3 ∷ []) ∷ [])
    ≡ encode_all ((7 ∷ []) ∷ hello ∷ []) []
unfolding encode_all encode flatten
two_records = refl

feed-encode_all_example :
    feed [] ((23 ∷ 3 ∷ 3 ∷ 0 ∷ []) ∷ (1 ∷ 7 ∷ 23 ∷ 3 ∷ 3 ∷ 0 ∷ 3 ∷ 1 ∷ 2 ∷ 3 ∷ []) ∷ [])
    ≡ (packets_of ((7 ∷ []) ∷ hello ∷ []), [])
feed-encode_all_example =
    feed-encode_all ((7 ∷ []) ∷ hello ∷ [])
      ((23 ∷ 3 ∷ 3 ∷ 0 ∷ []) ∷ (1 ∷ 7 ∷ 23 ∷ 3 ∷ 3 ∷ 0 ∷ 3 ∷ 1 ∷ 2 ∷ 3 ∷ []) ∷ [])
      (omega arith, (omega arith, tt)) two_records

label_info-injective_example : (◌≡◌ {A = ℕ} 32 32) × (ascii "key" ≡ ascii "key") × (hello ≡ hello)
label_info-injective_example =
    label_info-injective 32 32 (ascii "key") (ascii "key") hello hello (omega arith) (omega arith)
      (omega arith) (omega arith) (omega arith) (omega arith) refl

client_expanded :
    expand_client_secret toy_crypto tt (record { octets = hello }) [] tt
    ≡ ok (replicate 32 207, replicate 12 205)
unfolding expand_client_secret hdkf_expand_label key_iv
client_expanded = refl

make_iv-injective_example : ◌≡◌ {A = ℕ} 5 5
make_iv-injective_example =
    make_iv-injective toy_crypto (replicate 12 7) 5 5 refl (omega arith) (omega arith) refl
