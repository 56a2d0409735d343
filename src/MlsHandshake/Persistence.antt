-- ===== src/MlsHandshake/Persistence.antt =====
-- src/mls_handshake/persistence.rs: the client's state in the table `handshake_states`, whose key is
-- the profile id. A SQL statement is what it does to the list of rows; `none` is a missing table. A
-- version is the number that stands in its column.
pub mod Rows
pub mod Versions
use mls_tls_protocol.Base.{
  ℕ, ◌%◌, List, [], ◌∷◌, ◌++◌, Bool, true, false, not, Option, none, some, Result, ok, err, panic,
  M, pure, throw, lift, put, continue, ◌>>=◌, ◌>>◌, and_then, map_err, ◌==◌, if◌then◌else◌,
}
use mls_tls_protocol.Base.Bytes.{Octets, as_u8, octets_eq}
use mls_tls_protocol.MlsHandshake.OpenMls.{OpenMls, Connection, Row}
use mls_tls_protocol.MlsHandshake.Messages.{Wire, persistence_error}
use mls_tls_protocol.MlsHandshake.Session
use mls_tls_protocol.MlsHandshake.Method.{Error, OnConnection, stored}
use mls_tls_protocol.MlsHandshake.Client.State.{ClientHandshakeState}

-- `serde_json` on the client's state, and the errors of `rusqlite` that the statements meet.
pub record Sql (O : OpenMls) (W : Wire O) : Type 0 where
  pub to_json : ClientHandshakeState O → Result W.SqlError Octets
  pub from_json : Octets → Result W.SqlError (ClientHandshakeState O)
  pub no_such_table : W.SqlError
  pub constraint_violation : W.SqlError
  pub invalid_version : W.SqlError

pub data ClientHandshakeVersion : Type 0 where
  v1 : ClientHandshakeVersion

-- `*self as u8`
unfoldable pub version_to_sql : ClientHandshakeVersion → ℕ
version_to_sql v1 = 0

-- The statements on rows.
abbrev pub find : Octets → List Row → Option Row
find id [] = none
find id (row ∷ rows) = if octets_eq row.profile_id id then some row else find id rows

abbrev pub write : Octets → Octets → List Row → List Row
write id blob [] = []
write id blob (row ∷ rows) =
    (if octets_eq row.profile_id id then record row { handshake_state = blob } else row)
    ∷ write id blob rows

abbrev pub erase : Octets → List Row → List Row
erase id [] = []
erase id (row ∷ rows) =
    let rest = erase id rows in if octets_eq row.profile_id id then rest else row ∷ rest

-- `WHERE version != ?` and the rest
abbrev pub old_rows : List Row → List Row
old_rows [] = []
old_rows (row ∷ rows) = let rest = old_rows rows in if row.version == 0 then rest else row ∷ rest

abbrev pub current_rows : List Row → List Row
current_rows [] = []
current_rows (row ∷ rows) =
    let rest = current_rows rows in if row.version == 0 then row ∷ rest else rest

module _ (O : OpenMls) (W : Wire O) (Q : Sql O W) where
  abbrev pub ClientState : Type 0
  ClientState = ClientHandshakeState O

  abbrev pub sql {ℓ} : {A : Type ℓ} → Result W.SqlError A → Result (Error O W) A
  sql r = map_err persistence_error r

  -- The rows, for a statement that needs the table.
  abbrev pub rows_of : Connection O → Result W.SqlError (List Row)
  rows_of c = elim c.rows [ none ↦ err Q.no_such_table | some rows ↦ ok rows ]

  -- A statement that changes the rows.
  abbrev pub execute : (List Row → Result W.SqlError (List Row)) → OnConnection O W (Unit {0})
  execute f c =
      continue (sql (and_then (rows_of c) f)) c λ rows d. (ok tt, record d { rows = some rows })

  -- `ClientHandshakeVersion::column_result`
  unfoldable pub version_from_sql : ℕ → Result W.SqlError ClientHandshakeVersion
  version_from_sql n = if as_u8 n == 0 then ok v1 else err Q.invalid_version

  unfoldable pub create_table : OnConnection O W (Unit {0})
  create_table c = elim c.rows [
    | none ↦ (ok tt, record c { rows = some [] })
    | some rows ↦ (ok tt, c)
  ]

  abbrev pub insert : Row → List Row → Result W.SqlError (List Row)
  insert row rows = elim (find row.profile_id rows) [
    | none ↦ ok (rows ++ (row ∷ []))
    | some _ ↦ err Q.constraint_violation
  ]

  unfoldable pub store : ClientState → OnConnection O W (Unit {0})
  unfolding version_to_sql
  store s = execute λ rows. and_then (Q.to_json s) λ blob.
      insert
        (record { profile_id = s.profile_id; version = version_to_sql v1; handshake_state = blob })
        rows

  -- The columns of the row: the state is read first, then the version. The version that was read is
  -- the only one there is, so the test after it passes.
  abbrev pub read_row : Option Row → Result W.SqlError (Option ClientState)
  read_row none = ok none
  read_row (some row) =
      and_then (Q.from_json row.handshake_state)
        λ s. and_then (version_from_sql row.version) λ _. ok (some s)

  unfoldable pub load : Octets → OnConnection O W (Option ClientState)
  unfolding version_from_sql
  load id c = (sql (and_then (rows_of c) λ rows. read_row (find id rows)), c)

  unfoldable pub store_update : ClientState → OnConnection O W (Unit {0})
  store_update s = execute λ rows. and_then (Q.to_json s) λ blob. ok (write s.profile_id blob rows)

  abbrev delete_loaded : Octets → Option ClientState → OnConnection O W (Unit {0})
  delete_loaded id none = pure tt
  delete_loaded id (some s) = do
    stored O W (Session.delete O W s.mls_session)
    execute λ rows. ok (erase id rows)

  unfoldable pub delete : Octets → OnConnection O W (Unit {0})
  unfolding load Session.delete
  delete id = do loaded ← load id; delete_loaded id loaded

  unfoldable pub read_states : List Row → Result W.SqlError (List ClientState)
  read_states [] = ok []
  read_states (row ∷ rows) =
      and_then (Q.from_json row.handshake_state)
        λ s. and_then (read_states rows) λ rest. ok (s ∷ rest)

  unfoldable pub delete_groups : List ClientState → OnConnection O W (Unit {0})
  unfolding Session.delete
  delete_groups [] = pure tt
  delete_groups (s ∷ states) =
      stored O W (Session.delete O W s.mls_session) >>= λ _. delete_groups states

  unfoldable pub delete_old_versions : OnConnection O W (Unit {0})
  unfolding read_states delete_groups
  delete_old_versions = do
    states ← λ c. (sql (and_then (rows_of c) λ rows. read_states (old_rows rows)), c)
    delete_groups states
    execute λ rows. ok (current_rows rows)
