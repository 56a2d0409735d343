-- ===== src/MlsHandshake/Persistence/Rows.antt =====
-- What is stored is loaded: src/mls_handshake/persistence.rs.
use mls_tls_protocol.Base.{
  ◌≡◌, refl, List, [], ◌∷◌, ◌++◌, true, none, some, ok, err, arith, Option-cases, inl, inr,
  Result-Cases, ok_case, err_case, panic_case,
}
use mls_tls_protocol.Base.Bytes.{Octets, octets_eq, octets_eq_iff}
use mls_tls_protocol.MlsHandshake.OpenMls.{OpenMls, Connection, Row}
use mls_tls_protocol.MlsHandshake.Messages.{Wire, persistence_error}
use mls_tls_protocol.MlsHandshake.Session
use mls_tls_protocol.MlsHandshake.Persistence.{
  Sql, ClientState, find, write, erase, store, store_update, load, delete, version_from_sql,
  version_to_sql,
}

octets_eq_same : (a : Octets) → octets_eq a a ≡ true
octets_eq_same a = (octets_eq_iff a a).1 refl

find-append :
    (id : Octets) (rows : List Row) (row : Row)
    → find id rows ≡ none
    → octets_eq row.profile_id id ≡ true
    → find id (rows ++ (row ∷ [])) ≡ some row
find-append id [] row absent e = ground arith
find-append id (r ∷ rows) row absent e = let ih = find-append id rows row in ground arith

find-write :
    (id blob : Octets) (rows : List Row) (row : Row)
    → find id rows ≡ some row
    → find id (write id blob rows) ≡ some (record row { handshake_state = blob })
find-write id blob [] row e = absurd (ground arith)
find-write id blob (r ∷ rows) row e = let ih = find-write id blob rows row in ground arith

find-write-none :
    (id blob : Octets) (rows : List Row) → find id rows ≡ none → write id blob rows ≡ rows
find-write-none id blob [] e = refl
find-write-none id blob (r ∷ rows) e = let ih = find-write-none id blob rows in ground arith

find-erase : (id : Octets) (rows : List Row) → find id (erase id rows) ≡ none
find-erase id [] = refl
find-erase id (r ∷ rows) = let ih = find-erase id rows in ground arith

module _ (O : OpenMls) (W : Wire O) (Q : Sql O W) where
  -- `serde_json` reads back what it wrote.
  abbrev pub ReadsBack : Type 0
  ReadsBack =
      (s : ClientState O W Q) (blob : Octets) → Q.to_json s ≡ ok blob → Q.from_json blob ≡ ok s

  -- A state that was stored is loaded under its profile id, provided that `serde_json` reads back what it
  -- wrote; and storing it again breaks the key's constraint and changes nothing.
  pub load-store :
      (s : ClientState O W Q) (c d : Connection O)
      → ReadsBack
      → store O W Q s c ≡ (ok tt, d)
      → (load O W Q s.profile_id d ≡ (ok (some s), d))
        × (store O W Q s d ≡ (err (persistence_error Q.constraint_violation), d))
  unfolding load store version_from_sql version_to_sql
  load-store s c d back done = elim (Option-cases c.rows) [
    | inl e ↦ absurd (ground arith)
    | inr (rows, e) ↦ elim (Result-Cases (Q.to_json s)) [
      | err_case x e2 ↦ absurd (ground arith)
      | panic_case e2 ↦ absurd (ground arith)
      | ok_case blob e2 ↦ elim (Option-cases (find s.profile_id rows)) [
        | inr (old, e3) ↦ absurd (ground arith)
        | inl e3 ↦
            let row : Row = record {
              profile_id = s.profile_id;
              version = 0;
              handshake_state = blob;
            } in
            let added = find-append s.profile_id rows row e3 (octets_eq_same s.profile_id) in
            let read = back s blob e2 in (ground arith, ground arith)
      ]
    ]
  ]

  -- After an update of a state whose profile has a row, that state is loaded.
  pub load-store_update :
      (s : ClientState O W Q) (c d : Connection O) (rows : List Row) (row : Row)
      → ReadsBack
      → c.rows ≡ some rows
      → find s.profile_id rows ≡ some row
      → row.version ≡ 0
      → store_update O W Q s c ≡ (ok tt, d)
      → load O W Q s.profile_id d ≡ (ok (some s), d)
  unfolding load store_update version_from_sql
  load-store_update s c d rows row back e found version done = elim (Result-Cases (Q.to_json s)) [
    | err_case x e2 ↦ absurd (ground arith)
    | panic_case e2 ↦ absurd (ground arith)
    | ok_case blob e2 ↦
        let written = find-write s.profile_id blob rows row found in
        let read = back s blob e2 in ground arith
  ]

  -- An update of a state whose profile has no row reports success, yet stores nothing: the database is
  -- as before, and no state is loaded under that profile.
  pub store_update_missing :
      (s : ClientState O W Q) (c : Connection O) (rows : List Row) (blob : Octets)
      → Q.to_json s ≡ ok blob
      → c.rows ≡ some rows
      → find s.profile_id rows ≡ none
      → (store_update O W Q s c ≡ (ok tt, c)) × (load O W Q s.profile_id c ≡ (ok none, c))
  unfolding load store_update
  store_update_missing s c rows blob json e absent =
      let kept = find-write-none s.profile_id blob rows absent in (ground arith, ground arith)

  -- After a deletion that succeeds no state is loaded under the profile id: neither is one that was
  -- there, nor was there one.
  pub load-delete :
      (id : Octets) (c d : Connection O)
      → delete O W Q id c ≡ (ok tt, d)
      → load O W Q id d ≡ (ok none, d)
  unfolding load delete version_from_sql Session.delete Session.load_group
  load-delete id c d done = elim (Option-cases c.rows) [
    | inl e ↦ absurd (ground arith)
    | inr (rows, e) ↦ let erased = find-erase id rows in ground arith
  ]
