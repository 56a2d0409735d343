-- ===== src/TlsAead/Codec.antt =====
-- `TlsAeadCodec` of src/tls_aead/mod.rs. Its field `crypto` is the parameter `C`. The `u64` sequence
-- numbers wrap, as a release build's do.
pub mod Nonce
pub mod Rekey
pub mod Channel
pub mod Header
use mls_tls_protocol.Base.{
  ℕ, zero, suc, ◌+◌, ◌-◌, List, [], ◌∷◌, ◌++◌, Bool, true, false, Result, ok, err, panic, M, pure,
  throw, lift, get, put, continue, ◌>>=◌, ◌>>◌, and_then, map_err, length, take, drop, get_or, set,
  init, chunks, ltb, ◌==◌, if◌then◌else◌,
}
use mls_tls_protocol.Base.Bytes.{Octets, as_u16, as_u64, to_le_bytes}
use Prim.Native.Nat.{bit_xor}
use mls_tls_protocol.Crypto.{Crypto}
use mls_tls_protocol.TlsAead.{tls_app_data, tls_max_record_size, tls_hdr_size, min_record_size}
use mls_tls_protocol.TlsAead.Frame.{header_bytes}
use mls_tls_protocol.TlsAead.Secrets.{TrafficSecrets, SecretUpdate, client, server, both}
use mls_tls_protocol.TlsAead.Keys.{
  tls13_iv_size, GeneratedKeys, expand_client_secret, expand_server_secret, generate_keys,
}

pub record TlsAeadCodec (C : Crypto) : Type 0 where
  pub send_key : Octets
  pub send_iv : Octets
  pub recv_key : Octets
  pub recv_iv : Octets
  pub send_seq : ℕ  -- u64
  pub recv_seq : ℕ  -- u64
  pub cipher : C.AeadType
  pub hash : C.HashType
  pub max_frame_size : ℕ  -- u16

pub data TlsAeadCodecError (C : Crypto) : Type 0 where
  not_enough_data invalid_mac invalid_length : TlsAeadCodecError C
  crypto_error : C.CryptoError → TlsAeadCodecError C

-- The `for` loop of `make_iv` over the bytes of the sequence number, from index `i` on.
unfoldable pub xor_loop : ℕ → Octets → Octets → Octets
xor_loop i [] ret = ret
xor_loop i (byte ∷ rest) ret =
    let idx = length ret - 1 - i in
    xor_loop (i + 1) rest (set ret idx (bit_xor (get_or ret idx 0) byte))

module _ (C : Crypto) where
  abbrev pub Codec : Type 0
  Codec = TlsAeadCodec C

  abbrev pub Error : Type 0
  Error = TlsAeadCodecError C

  unfoldable pub make_iv : Octets → ℕ → Result C.CryptoError Octets
  unfolding xor_loop to_le_bytes
  make_iv iv seq =
      if length iv == tls13_iv_size
      then ok (xor_loop 0 (to_le_bytes 8 seq) iv)
      else err C.invalid_length

  -- The keys by direction, for one side.
  abbrev pub of_keys : Bool → GeneratedKeys → C.HashType → C.AeadType → Codec
  of_keys true keys h a = record {
    send_key = keys.server_key;
    send_iv = keys.server_iv;
    recv_key = keys.client_key;
    recv_iv = keys.client_iv;
    send_seq = 0;
    recv_seq = 0;
    cipher = a;
    hash = h;
    max_frame_size = tls_max_record_size;
  }
  of_keys false keys h a = record {
    send_key = keys.client_key;
    send_iv = keys.client_iv;
    recv_key = keys.server_key;
    recv_iv = keys.server_iv;
    send_seq = 0;
    recv_seq = 0;
    cipher = a;
    hash = h;
    max_frame_size = tls_max_record_size;
  }

  unfoldable pub new : Bool → TrafficSecrets → Octets → C.HashType → C.AeadType → Result Error Codec
  new is_server secrets handshake_hash h a =
      and_then (map_err crypto_error (generate_keys C h secrets handshake_hash a))
        λ keys. ok (of_keys is_server keys h a)

  abbrev pub set_send : Octets × Octets → Codec → Codec
  set_send (key, iv) c = record c { send_key = key; send_iv = iv }

  abbrev pub set_recv : Octets × Octets → Codec → Codec
  set_recv (key, iv) c = record c { recv_key = key; recv_iv = iv }

  unfoldable pub update_traffic_secrets : SecretUpdate → Bool → M Codec Error (Unit {0})
  update_traffic_secrets (client secret) is_server = do
    c ← get
    keys ← lift (map_err crypto_error (expand_client_secret C c.hash secret [] c.cipher))
    put (if is_server then set_recv keys c else set_send keys c)
  update_traffic_secrets (server secret) is_server = do
    c ← get
    keys ← lift (map_err crypto_error (expand_server_secret C c.hash secret [] c.cipher))
    put (if is_server then set_send keys c else set_recv keys c)
  update_traffic_secrets (both secrets) is_server = do
    c ← get
    ck ←
        lift
          (map_err crypto_error (expand_client_secret C c.hash secrets.client_secret [] c.cipher))
    sk ←
        lift
          (map_err crypto_error (expand_server_secret C c.hash secrets.server_secret [] c.cipher))
    put (if is_server then set_recv ck (set_send sk c) else set_recv sk (set_send ck c))

  -- The associated data of a chunk: the header of the record that will carry it.
  abbrev pub associated_data : C.AeadType → ℕ → Octets
  associated_data a len = header_bytes (as_u16 (len + C.tag_size a + 1))

  -- One round of the loops of `encrypt` and `encrypt_with_header`, up to `encrypted`.
  unfoldable pub seal : Codec → Octets → Result Error Octets
  seal c chunk = and_then (map_err crypto_error (make_iv c.send_iv c.send_seq)) λ nonce.
      map_err crypto_error (
        C.aead_encrypt c.cipher c.send_key (chunk ++ (tls_app_data ∷ [])) nonce
          (associated_data c.cipher (length chunk)))

  abbrev pub sent_one : Codec → Codec
  sent_one c = record c { send_seq = as_u64 (c.send_seq + 1) }

  -- The loop of `encrypt`; the state is the codec and `buf`.
  unfoldable pub encrypt_chunks : List Octets → M (Codec × List Octets) Error (Unit {0})
  encrypt_chunks [] (c, buf) = (ok tt, (c, buf))
  encrypt_chunks (chunk ∷ rest) (c, buf) =
      continue (seal c chunk) (c, buf)
        λ encrypted _. encrypt_chunks rest (sent_one c, buf ++ (encrypted ∷ []))

  -- `chunks` panics on a size of 0.
  unfoldable pub encrypt : Octets → M (Codec × List Octets) Error (Unit {0})
  unfolding encrypt_chunks
  encrypt bytes (c, buf) =
      if c.max_frame_size == 0
      then (panic, (c, buf))
      else encrypt_chunks (chunks c.max_frame_size bytes) (c, buf)

  -- The loop of `encrypt_with_header`; the frames are a local variable, and lost on an error.
  unfoldable pub frame_chunks : List Octets → List Octets → M Codec Error (List Octets)
  frame_chunks [] frames c = (ok frames, c)
  frame_chunks (chunk ∷ rest) frames c = continue (seal c chunk) c λ encrypted _.
      frame_chunks rest (frames ++ ((header_bytes (as_u16 (length encrypted)) ++ encrypted) ∷ []))
        (sent_one c)

  unfoldable pub encrypt_with_header : Octets → M Codec Error (List Octets)
  unfolding frame_chunks
  encrypt_with_header bytes c =
      if c.max_frame_size == 0
      then (panic, c)
      else frame_chunks (chunks c.max_frame_size bytes) [] c

  -- `msg.drain(msg.len() - 1..)` panics on an empty message, after the counter has moved on.
  abbrev strip_type : Octets → Result Error Octets
  strip_type [] = panic
  strip_type (b ∷ msg) = ok (init (b ∷ msg))

  unfoldable pub decrypt : Octets → Octets → M Codec Error Octets
  decrypt ciphertext aad = do
    c ← get
    nonce ← lift (map_err crypto_error (make_iv c.recv_iv c.recv_seq))
    msg ← lift (map_err crypto_error (C.aead_decrypt c.cipher c.recv_key ciphertext nonce aad))
    put (record c { recv_seq = as_u64 (c.recv_seq + 1) })
    lift (strip_type msg)

  unfoldable pub decrypt_with_header : Octets → M Codec Error Octets
  unfolding decrypt
  decrypt_with_header bytes =
      if ltb (length bytes) min_record_size
      then throw not_enough_data
      else if length bytes == min_record_size
      then pure []
      else decrypt (drop tls_hdr_size bytes) (take tls_hdr_size bytes)
