-- ===== src/TlsAead/Codec/Channel.antt =====
-- What one side seals the other opens: two codecs whose keys, IVs and counters agree in one
-- direction stay so over every message.
use mls_tls_protocol.Base.{
  ℕ, ◌+◌, ◌<◌, ◌≡◌, refl, ap, sym, ◌∙◌, List, [], ◌∷◌, ◌++◌, Result, ok, and_then-eq-ok, subst,
  Result-Cases, ok_case, err_case, panic_case, map_err, map_err-eq-ok, continue, length,
  length-append, append-nil, append_assoc, init-append_one, chunks, concat, concat-chunks,
  chunks-AllWithin, AllWithin, ◌==◌, arith, Bool-cases, inl, inr,
}
use mls_tls_protocol.Base.Bytes.{Octets, as_u16, as_u64}
use mls_tls_protocol.Crypto.{Crypto, IsAead}
use mls_tls_protocol.TlsAead.{tls_app_data}
use mls_tls_protocol.TlsAead.Frame.{header_bytes}
use mls_tls_protocol.TlsAead.Frame.Stream.{AllShort}
use mls_tls_protocol.TlsAead.Codec.{
  TlsAeadCodec, TlsAeadCodecError, crypto_error, make_iv, seal, sent_one, associated_data,
  encrypt_chunks, encrypt, strip_type, decrypt, Error,
}

-- Each ciphertext is longer than its chunk by the type byte and the tag.
abbrev pub Sized : ℕ → List Octets → List Octets → Type 0
Sized tag [] [] = Unit
Sized tag [] (f ∷ frames) = ⊥
Sized tag (c ∷ cs) [] = ⊥
Sized tag (c ∷ cs) (f ∷ frames) = (length f ≡ length c + 1 + tag) × Sized tag cs frames

Sized-AllShort :
    (tag m : ℕ) (cs frames : List Octets)
    → m + tag + 1 < 65536
    → AllWithin m cs
    → Sized tag cs frames
    → AllShort frames
Sized-AllShort tag m [] [] h w s = tt
Sized-AllShort tag m [] (f ∷ frames) h w s = absurd s
Sized-AllShort tag m (c ∷ cs) [] h w s = tt
Sized-AllShort tag m (c ∷ cs) (f ∷ frames) h w s =
    (omega arith, Sized-AllShort tag m cs frames h w.1 s.1)

module _ (C : Crypto) where
  -- What `s` sends, `r` is set to receive.
  pub record Paired (s r : TlsAeadCodec C) : Type 0 where
    pub same_key : s.send_key ≡ r.recv_key
    pub same_iv : s.send_iv ≡ r.recv_iv
    pub same_seq : s.send_seq ≡ r.recv_seq
    pub same_cipher : s.cipher ≡ r.cipher

module _ (C : Crypto) (L : IsAead C) where
  abbrev pub received_one : TlsAeadCodec C → TlsAeadCodec C
  received_one c = record c { recv_seq = as_u64 (c.recv_seq + 1) }

  -- The header that the frame codec puts before a ciphertext.
  abbrev pub record_header : Octets → Octets
  record_header ciphertext = header_bytes (as_u16 (length ciphertext))

  seal_parts :
      (s : TlsAeadCodec C) (chunk : Octets) {e : Octets}
      → seal C s chunk ≡ ok e
      → (nonce : Octets) × (make_iv C s.send_iv s.send_seq ≡ ok nonce)
        × (C.aead_encrypt s.cipher s.send_key
              (chunk ++ (tls_app_data ∷ []))
              nonce
              (associated_data C s.cipher (length chunk))
            ≡ ok e)
  unfolding seal
  seal_parts s chunk h =
      let made : Result (TlsAeadCodecError C) Octets =
        map_err crypto_error (make_iv C s.send_iv s.send_seq) in
      let (nonce, n, c) = and_then-eq-ok made _ h in
      (nonce, map_err-eq-ok crypto_error _ n, map_err-eq-ok crypto_error _ c)

  pub length-seal :
      (s : TlsAeadCodec C) (chunk : Octets) {e : Octets}
      → seal C s chunk ≡ ok e
      → length e ≡ length chunk + 1 + C.tag_size s.cipher
  length-seal s chunk h =
      let (nonce, made, sealed) = seal_parts s chunk h in
      omega (arith, L.length-encrypt _ _ _ _ _ sealed, length-append chunk (tls_app_data ∷ []))

  strip_type-append : (chunk : Octets) (b : ℕ) → strip_type C (chunk ++ (b ∷ [])) ≡ ok chunk
  strip_type-append [] b = refl
  strip_type-append (x ∷ chunk) b = ap ok (init-append_one (x ∷ chunk) b)

  -- What the sender seals the receiver opens, with the header that the frame codec puts before it as
  -- associated data: `decrypt` gives the chunk and counts it, provided that the two are paired.
  pub decrypt-seal :
      (s r : TlsAeadCodec C) (chunk : Octets) {e : Octets}
      → Paired C s r
      → seal C s chunk ≡ ok e
      → decrypt C e (record_header e) r ≡ (ok chunk, received_one r)
  unfolding decrypt
  decrypt-seal s r chunk {e} p h =
      let (nonce, made, sealed) = seal_parts s chunk h in
      let nonce_r : make_iv C r.recv_iv r.recv_seq ≡ ok nonce =
        rw (← p.same_iv, ← p.same_seq) made in
      let aad : record_header e ≡ associated_data C s.cipher (length chunk) =
        ap (λ n. header_bytes (as_u16 n))
          (omega
            (arith, L.length-encrypt _ _ _ _ _ sealed, length-append chunk (tls_app_data ∷ []))) in
      let opened = L.decrypt-encrypt _ _ _ _ _ sealed in
      let opened_r : C.aead_decrypt r.cipher r.recv_key e nonce (record_header e)
          ≡ ok (chunk ++ (tls_app_data ∷ [])) =
        rw (← p.same_cipher, ← p.same_key, aad) opened in
      rw nonce_r (rw opened_r (rw (strip_type-append chunk tls_app_data)))

  -- The receiver's side of a run of ciphertexts.
  unfoldable pub decrypt_all :
      List Octets → TlsAeadCodec C → Result (Error C) (List Octets) × TlsAeadCodec C
  decrypt_all [] c = (ok [], c)
  decrypt_all (e ∷ es) c =
      let first = decrypt C e (record_header e) c in
      continue first.0 first.1 λ msg c'.
        let rest = decrypt_all es c' in continue rest.0 rest.1 λ msgs c''. (ok (msg ∷ msgs), c'')

  pub sent_one-Paired :
      {s r : TlsAeadCodec C} → Paired C s r → Paired C (sent_one C s) (received_one r)
  sent_one-Paired p = record {
    same_key = p.same_key;
    same_iv = p.same_iv;
    same_seq = ap (λ n. as_u64 (n + 1)) p.same_seq;
    same_cipher = p.same_cipher;
  }

  -- What the loop of `encrypt` leaves in the buffer behind `buf`, and that `r` opens it.
  pub record Delivers (s r : TlsAeadCodec C) (cs buf : List Octets)
      (t : TlsAeadCodec C × List Octets) : Type 0 where
    pub frames : List Octets
    pub receiver : TlsAeadCodec C
    pub appended : t.1 ≡ buf ++ frames
    pub opened : decrypt_all frames r ≡ (ok cs, receiver)
    pub sized : Sized (C.tag_size s.cipher) cs frames
    pub still_paired : Paired C t.0 receiver

  encrypt_chunks-Delivers :
      (cs buf : List Octets) (s r : TlsAeadCodec C) {t : TlsAeadCodec C × List Octets}
      → Paired C s r
      → encrypt_chunks C cs (s, buf) ≡ (ok tt, t)
      → Delivers s r cs buf t
  unfolding encrypt_chunks decrypt_all
  encrypt_chunks-Delivers [] buf s r {t} p h =
      let e : (s, buf) ≡ t = cc in
      record {
        frames = [];
        receiver = r;
        appended = sym (ap (λ u. u.1) e) ∙ sym (append-nil buf);
        opened = refl;
        sized = tt;
        still_paired = subst (λ u. Paired C u.0 r) e p;
      }
  encrypt_chunks-Delivers (chunk ∷ cs) buf s r {t} p h = elim (Result-Cases (seal C s chunk)) [
    | ok_case e q ↦
        let ih =
          encrypt_chunks-Delivers cs (buf ++ (e ∷ [])) (sent_one C s) (received_one r)
            (sent_one-Paired p) (rw q at h) in
        record {
          frames = e ∷ ih.frames;
          receiver = ih.receiver;
          appended = ih.appended ∙ append_assoc buf (e ∷ []) ih.frames;
          sized = (length-seal s chunk q, ih.sized);
          opened = rw (decrypt-seal s r chunk p q) (rw ih.opened);
          still_paired = ih.still_paired;
        }
    | err_case x q ↦ let h' = rw q at h in absurd (ground arith)
    | panic_case q ↦ let h' = rw q at h in absurd (ground arith)
  ]

  -- A message that `encrypt` took whole is opened by the other side: the ciphertexts that it added
  -- to the buffer decrypt, one after another, to chunks that are the message, and the two codecs
  -- still agree.
  pub encrypt-Delivers :
      (bytes : Octets) (buf : List Octets) (s r : TlsAeadCodec C) {t : TlsAeadCodec C × List Octets}
      → Paired C s r
      → encrypt C bytes (s, buf) ≡ (ok tt, t)
      → Delivers s r (chunks s.max_frame_size bytes) buf t
        × (concat (chunks s.max_frame_size bytes) ≡ bytes)
  unfolding encrypt
  encrypt-Delivers bytes buf s r p h = elim (Bool-cases (s.max_frame_size == 0)) [
    | inl z ↦ let h' = rw z at h in absurd (ground arith)
    | inr nz ↦
        let size : 0 < s.max_frame_size = ground arith in
        (
          encrypt_chunks-Delivers (chunks s.max_frame_size bytes) buf s r p (rw nz at h),
          concat-chunks s.max_frame_size bytes size,
        )
  ]

  -- With frames of at most `m` bytes, where `m`, the tag and the type byte make less than 65,536,
  -- every ciphertext fits the length field of a record.
  pub Delivers-AllShort :
      (bytes : Octets) (buf : List Octets) (s r : TlsAeadCodec C) {t : TlsAeadCodec C × List Octets}
      → s.max_frame_size + C.tag_size s.cipher + 1 < 65536
      → (d : Delivers s r (chunks s.max_frame_size bytes) buf t) → AllShort d.frames
  Delivers-AllShort bytes buf s r fits d =
      Sized-AllShort _ s.max_frame_size _ d.frames fits (chunks-AllWithin _ bytes) d.sized
