-- ===== src/Tests/Toy.antt =====
-- Small instances of the cryptography, the writer, the clock, the curve and the socket.
use mls_tls_protocol.Base.{
  ◌*◌, ◌-◌, arith, ◌+◌, ap, ℕ, zero, suc, ◌≡◌, refl, ◌∙◌, subst, List, [], ◌∷◌, ◌++◌, some, ok,
  ok-injective, length, take, drop, get_or, length-append, take-append_of_le, take_self, leb,
}
use native.Mathlib.Nat.{mul_comm}
use mls_tls_protocol.Base.Bytes.{Octets, as_u8}
use mls_tls_protocol.Crypto.{Crypto, IsAead, HkdfLength}
use mls_tls_protocol.TlsAead.StreamSink.{ready, InnerSink}
use mls_tls_protocol.TlsAead.StreamSink.Order.{IsInOrder}
use mls_tls_protocol.UpdatePolicy.TimeBased.{Chrono}
use mls_tls_protocol.PreHandshake.X25519.{Socket, Curve}
use mls_tls_protocol.PreHandshake.Agreement.{IsCurve, IsByteStream}

abbrev pub replicate : ℕ → ℕ → Octets
replicate zero b = []
replicate (suc n) b = b ∷ replicate n b

pub length-replicate : (n b : ℕ) → length (replicate n b) ≡ n
length-replicate zero b = refl
length-replicate (suc n) b = ap suc (length-replicate n b)

abbrev zero_tag : Octets
zero_tag = replicate 16 0

-- A cipher that only adds a tag, and an HKDF that repeats a byte of secret and info.
abbrev pub toy_crypto : Crypto
toy_crypto = record {
  HashType = Unit {0};
  AeadType = Unit {0};
  CryptoError = Unit {0};
  invalid_length = tt;
  sha2_512 = tt;
  aes_256_gcm = tt;
  hash_size = λ _. 64;
  key_size = λ _. 32;
  tag_size = λ _. 16;
  hkdf_extract = λ _ salt secret. ok secret;
  hkdf_expand = λ _ secret info n. ok (replicate n (as_u8 (get_or secret 0 0 + get_or info 9 0)));
  aead_encrypt = λ _ key msg nonce aad. ok (msg ++ zero_tag);
  aead_decrypt = λ _ key c nonce aad. ok (take (length c - 16) c);
}

untag : (msg : Octets) → take (length (msg ++ zero_tag) - 16) (msg ++ zero_tag) ≡ msg
untag msg =
    let size : length (msg ++ zero_tag) - 16 ≡ length msg =
      omega (arith, length-append msg zero_tag) in
    rw size (take-append_of_le (length msg) msg zero_tag (omega arith) ∙ take_self msg)

pub toy_aead : IsAead toy_crypto
toy_aead = record {
  decrypt-encrypt = λ cipher key msg nonce aad h.
      subst (λ c. toy_crypto.aead_decrypt cipher key c nonce aad ≡ ok msg) (ok-injective h)
        (ap ok (untag msg));
  length-encrypt = λ cipher key msg nonce aad h.
      subst (λ c. length c ≡ length msg + 16) (ok-injective h) (length-append msg zero_tag);
}

pub toy_expand : HkdfLength toy_crypto
toy_expand hash secret info n out h =
    subst (λ o. length o ≡ n) (ok-injective h) (length-replicate n _)

-- A writer that is always ready.
abbrev pub toy_writer : InnerSink (Unit {0})
toy_writer = record {
  State = List Octets;
  poll_ready = λ i. (ready (ok tt), i);
  start_send = λ item i. (ok tt, i ++ (item ∷ []));
  poll_flush = λ i. (ready (ok tt), i);
  poll_close = λ i. (ready (ok tt), i);
}

pub toy_order : IsInOrder toy_writer (λ i. i)
toy_order = record {
  ready_keeps = λ i. refl;
  flush_keeps = λ i. refl;
  close_keeps = λ i. refl;
  send_appends = λ item i e. refl;
  send_fails = λ item i e. absurd (e refl);
}

-- Time and durations in seconds.
abbrev pub toy_clock : Chrono
toy_clock = record { DateTime = ℕ; Duration = ℕ; add = λ a b. some (a + b); le = leb }

-- A curve that multiplies numbers, and a socket of two byte strings.
abbrev pub toy_curve : Curve
toy_curve = record {
  SecretKey = ℕ;
  Seed = ℕ;
  RandomError = Unit {0};
  random_secret = λ s. ok s;
  public_key = λ a. replicate 32 a;
  diffie_hellman = λ a k. replicate 32 (a * get_or k 0 0);
}

pub toy_curve-IsCurve : IsCurve toy_curve
toy_curve-IsCurve = record {
  agrees = λ a b. ap (replicate 32) (mul_comm a b);
  length_key = λ a. refl;
}

abbrev pub toy_socket : Socket
toy_socket = record {
  State = Octets × Octets;
  IoError = Unit {0};
  write_all = λ bytes s. (ok tt, (s.0, s.1 ++ bytes));
  read_exact = λ n s. (ok (take n s.0), (drop n s.0, s.1));
}

abbrev pub toy_socket-IsByteStream : IsByteStream toy_socket
toy_socket-IsByteStream = record {
  incoming = λ s. s.0;
  outgoing = λ s. s.1;
  IsOpen = λ s. Unit {0};
  write_all_ok = λ bytes s o. (refl, refl, refl, tt);
  read_exact_ok = λ n s h. (refl, refl, refl, λ o. tt);
}
