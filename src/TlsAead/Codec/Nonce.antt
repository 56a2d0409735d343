-- ===== src/TlsAead/Codec/Nonce.antt =====
-- The nonces of `make_iv`: one for each sequence number, and none twice.
use mls_tls_protocol.Base.{
  sym, ◌∙◌, ok-injective, ℕ, ◌/◌, ◌%◌, ◌^◌, ◌<◌, ◌≡◌, [], ◌∷◌, ok, length, arith,
}
use mls_tls_protocol.Base.Bytes.{Octets, to_le_bytes, to_le_bytes-injective}
use mls_tls_protocol.Base.Xor.{bit_xor-injective}
use mls_tls_protocol.Crypto.{Crypto}
use mls_tls_protocol.TlsAead.Codec.{make_iv, xor_loop}

-- The eight bytes that the loop mixed in can be read off its result.
xor_loop-injective :
    (n m : ℕ) (iv : Octets)
    → length iv ≡ 12
    → xor_loop 0 (to_le_bytes 8 n) iv ≡ xor_loop 0 (to_le_bytes 8 m) iv
    → to_le_bytes 8 n ≡ to_le_bytes 8 m
unfolding xor_loop to_le_bytes
xor_loop-injective n m (_ ∷ _ ∷ _ ∷ _ ∷ a ∷ b ∷ c ∷ d ∷ e ∷ f ∷ g ∷ h ∷ []) len eq = ground (
  arith,
  bit_xor-injective h (n % 256) (m % 256),
  bit_xor-injective g (n / 256 % 256) (m / 256 % 256),
  bit_xor-injective f (n / 256 / 256 % 256) (m / 256 / 256 % 256),
  bit_xor-injective e (n / 256 / 256 / 256 % 256) (m / 256 / 256 / 256 % 256),
  bit_xor-injective d (n / 256 / 256 / 256 / 256 % 256) (m / 256 / 256 / 256 / 256 % 256),
  bit_xor-injective c (n / 256 / 256 / 256 / 256 / 256 % 256)
      (m / 256 / 256 / 256 / 256 / 256 % 256),
  bit_xor-injective b (n / 256 / 256 / 256 / 256 / 256 / 256 % 256)
      (m / 256 / 256 / 256 / 256 / 256 / 256 % 256),
  bit_xor-injective a (n / 256 / 256 / 256 / 256 / 256 / 256 / 256 % 256)
      (m / 256 / 256 / 256 / 256 / 256 / 256 / 256 % 256),
)
xor_loop-injective n m _ len eq = absurd (omega arith)

module _ (C : Crypto) where
  make_iv_lem :
      (iv : Octets) (n : ℕ) → length iv ≡ 12 → make_iv C iv n ≡ ok (xor_loop 0 (to_le_bytes 8 n) iv)
  unfolding make_iv
  make_iv_lem iv n len = rw len

  -- An IV of twelve bytes gives a nonce for every sequence number.
  pub make_iv_total :
      (iv : Octets) (n : ℕ) → length iv ≡ 12 → (nonce : Octets) × (make_iv C iv n ≡ ok nonce)
  make_iv_total iv n len = (xor_loop 0 (to_le_bytes 8 n) iv, make_iv_lem iv n len)

  -- Under one IV of twelve bytes, two sequence numbers below 2^64 that give the same nonce are the
  -- same.
  pub make_iv-injective :
      (iv : Octets) (n m : ℕ)
      → length iv ≡ 12
      → n < 2 ^ 64
      → m < 2 ^ 64
      → make_iv C iv n ≡ make_iv C iv m
      → n ≡ m
  make_iv-injective iv n m len hn hm e =
      let mixed = ok-injective (sym (make_iv_lem iv n len) ∙ e ∙ make_iv_lem iv m len) in
      to_le_bytes-injective 8 n m hn hm (xor_loop-injective n m iv len mixed)
