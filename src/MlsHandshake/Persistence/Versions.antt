-- ===== src/MlsHandshake/Persistence/Versions.antt =====
-- `delete_old_versions` of src/mls_handshake/persistence.rs.
use mls_tls_protocol.Base.{
  ◌≡◌, refl, List, [], ◌∷◌, some, ok, arith, ◌==◌, Bool-cases, Result-Cases, ok_case, err_case,
  panic_case, inl, inr,
}
use mls_tls_protocol.Base.Bytes.{Octets}
use mls_tls_protocol.MlsHandshake.OpenMls.{OpenMls, Connection, Row}
use mls_tls_protocol.MlsHandshake.Messages.{Wire}
use mls_tls_protocol.MlsHandshake.Session
use mls_tls_protocol.MlsHandshake.Method.{stored}
use mls_tls_protocol.MlsHandshake.Persistence.{
  Sql, ClientState, read_states, old_rows, find, current_rows, load, delete_groups,
  delete_old_versions,
}

abbrev pub AllCurrent : List Row → Type 0
AllCurrent [] = Unit
AllCurrent (row ∷ rows) = (row.version ≡ 0) × AllCurrent rows

current_rows-AllCurrent : (rows : List Row) → AllCurrent (current_rows rows)
current_rows-AllCurrent [] = tt
current_rows-AllCurrent (row ∷ rows) =
    let ih = current_rows-AllCurrent rows in
    elim (Bool-cases (row.version == 0)) [ inl z ↦ rw z (ground arith, ih) | inr z ↦ rw z ih ]

find-current_rows :
    (id : Octets) (rows : List Row) (row : Row)
    → find id rows ≡ some row
    → row.version ≡ 0
    → find id (current_rows rows) ≡ some row
find-current_rows id [] row e v = absurd (ground arith)
find-current_rows id (r ∷ rows) row e v = let ih = find-current_rows id rows row in ground arith

module _ (O : OpenMls) (W : Wire O) (Q : Sql O W) where
  delete_groups-rows :
      (states : List (ClientState O W Q)) (c : Connection O)
      → (delete_groups O W Q states c).1.rows ≡ c.rows
  unfolding delete_groups
  delete_groups-rows [] c = refl
  delete_groups-rows (s ∷ states) c =
      let ih = delete_groups-rows states (stored O W (Session.delete O W s.mls_session) c).1 in
      ground arith

  -- A `delete_old_versions` that succeeds leaves only rows of the current version, and a row of that
  -- version that was found before still is: what is loaded under its profile id stays the same.
  pub load-delete_old_versions :
      (id : Octets) (c d : Connection O) (rows : List Row) (row : Row)
      → c.rows ≡ some rows
      → find id rows ≡ some row
      → row.version ≡ 0
      → delete_old_versions O W Q c ≡ (ok tt, d)
      → (left : List Row) × (d.rows ≡ some left)
        × AllCurrent left
        × ((load O W Q id d).0 ≡ (load O W Q id c).0)
  unfolding delete_old_versions load
  load-delete_old_versions id c d rows row e found version done =
      elim (Result-Cases (read_states O W Q (old_rows rows))) [
        | err_case x r ↦ absurd (ground arith)
        | panic_case r ↦ absurd (ground arith)
        | ok_case states r ↦
            let kept = delete_groups-rows states c in
            let same = find-current_rows id rows row found version in
            (current_rows rows, ground arith, current_rows-AllCurrent rows, ground arith)
      ]
