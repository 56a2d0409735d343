-- ===== src/TlsAead/Codec/Header.antt =====
-- `encrypt_with_header` and `decrypt_with_header`: records that carry their own header.
use mls_tls_protocol.Base.{
  ◌<◌, ◌≡◌, refl, sym, subst, ◌∙◌, List, [], ◌∷◌, ◌++◌, false, Result, ok, ok-injective, continue,
  length, ◌==◌, ltb, arith, Result-Cases, ok_case, err_case, panic_case, Bool-cases, inl, inr,
  append-nil, append_assoc, chunks, concat, concat-chunks, AllFull, chunks-AllFull,
}
use mls_tls_protocol.Base.Bytes.{Octets}
use mls_tls_protocol.Crypto.{Crypto, IsAead}
use mls_tls_protocol.TlsAead.Codec.Channel.{
  Paired, length-seal, decrypt-seal, received_one, record_header, sent_one-Paired,
}
use mls_tls_protocol.TlsAead.Codec.{
  TlsAeadCodec, TlsAeadCodecError, seal, sent_one, frame_chunks, encrypt_with_header,
  decrypt_with_header,
}

module _ (C : Crypto) (L : IsAead C) where
  -- A record as `encrypt_with_header` makes it.
  abbrev pub with_header : Octets → Octets
  with_header e = record_header C L e ++ e

  -- A sealed chunk that is not empty, with its header, is opened by the other side.
  pub decrypt_with_header-seal :
      (s r : TlsAeadCodec C) (chunk : Octets) {e : Octets}
      → Paired C s r
      → C.tag_size s.cipher ≡ 16
      → 0 < length chunk
      → seal C s chunk ≡ ok e
      → decrypt_with_header C (with_header e) r ≡ (ok chunk, received_one C L r)
  unfolding decrypt_with_header
  decrypt_with_header-seal s r chunk {e} p tag some_ h =
      let len = length-seal C L s chunk h in
      let low : ltb (length (with_header e)) 22 ≡ false = ground arith in
      let more : (length (with_header e) == 22) ≡ false = ground arith in
      rw (low, more) (decrypt-seal C L s r chunk p h)

  -- The receiver's side of a run of records with their headers.
  unfoldable pub open_all :
      List Octets → TlsAeadCodec C → Result (TlsAeadCodecError C) (List Octets) × TlsAeadCodec C
  unfolding decrypt_with_header
  open_all [] c = (ok [], c)
  open_all (e ∷ es) c =
      let first = decrypt_with_header C e c in
      continue first.0 first.1 λ msg c'.
        let rest = open_all es c' in continue rest.0 rest.1 λ msgs c''. (ok (msg ∷ msgs), c'')

  -- The records that the loop of `encrypt_with_header` adds to `frames`, and that `r` opens them.
  pub record Opens (s r : TlsAeadCodec C) (cs frames : List Octets) (all : List Octets)
      (s' : TlsAeadCodec C) : Type 0 where
    pub records : List Octets
    pub receiver : TlsAeadCodec C
    pub appended : all ≡ frames ++ records
    pub opened : open_all records r ≡ (ok cs, receiver)
    pub still_paired : Paired C s' receiver

  frame_chunks-Opens :
      (cs frames : List Octets) (s r : TlsAeadCodec C) {all : List Octets} {s' : TlsAeadCodec C}
      → Paired C s r
      → C.tag_size s.cipher ≡ 16
      → AllFull cs
      → frame_chunks C cs frames s ≡ (ok all, s')
      → Opens s r cs frames all s'
  unfolding frame_chunks open_all
  frame_chunks-Opens [] frames s r {all} {s'} p tag full h = record {
    records = [];
    receiver = r;
    appended = sym (ok-injective (λ i. (h i).0)) ∙ sym (append-nil frames);
    opened = refl;
    still_paired = subst (λ v. Paired C v r) (λ i. (h i).1) p;
  }
  frame_chunks-Opens (chunk ∷ cs) frames s r p tag full h = elim (Result-Cases (seal C s chunk)) [
    | ok_case e q ↦
        let ih =
          frame_chunks-Opens cs (frames ++ (with_header e ∷ [])) (sent_one C s) (received_one C L r)
            (sent_one-Paired C L p) tag full.1 (rw q at h) in
        record {
          records = with_header e ∷ ih.records;
          receiver = ih.receiver;
          appended = ih.appended ∙ append_assoc frames (with_header e ∷ []) ih.records;
          opened = rw (decrypt_with_header-seal s r chunk p tag full.0 q) (rw ih.opened);
          still_paired = ih.still_paired;
        }
    | err_case x q ↦ let h' = rw q at h in absurd (ground arith)
    | panic_case q ↦ let h' = rw q at h in absurd (ground arith)
  ]

  -- A message that `encrypt_with_header` took whole is opened by `decrypt_with_header` of the other side:
  -- the records decrypt, one after another, to chunks that are the message, and the two codecs
  -- still agree. The tag has 16 bytes, as the minimum size of a record supposes.
  pub encrypt_with_header-Opens :
      (bytes : Octets) (s r : TlsAeadCodec C) {records : List Octets} {s' : TlsAeadCodec C}
      → Paired C s r
      → C.tag_size s.cipher ≡ 16
      → encrypt_with_header C bytes s ≡ (ok records, s')
      → Opens s r (chunks s.max_frame_size bytes) [] records s'
        × (concat (chunks s.max_frame_size bytes) ≡ bytes)
  unfolding encrypt_with_header
  encrypt_with_header-Opens bytes s r p tag h = elim (Bool-cases (s.max_frame_size == 0)) [
    | inl z ↦ let h' = rw z at h in absurd (ground arith)
    | inr nz ↦
        let size : 0 < s.max_frame_size = ground arith in
        (
          frame_chunks-Opens (chunks s.max_frame_size bytes) [] s r p tag
              (chunks-AllFull s.max_frame_size bytes size) (rw nz at h),
          concat-chunks s.max_frame_size bytes size,
        )
  ]
