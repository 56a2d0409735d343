-- ===== src/Tests/Rows.antt =====
-- Rows and states of the client at concrete inputs.
use mls_tls_protocol.Base.{
  ℕ, ◌≡◌, refl, subst, ok-injective, List, [], ◌∷◌, false, none, some, ok, err, arith,
}
use mls_tls_protocol.Base.Bytes.{Octets}
use mls_tls_protocol.MlsHandshake.OpenMls.{Connection, Row}
use mls_tls_protocol.MlsHandshake.Messages.{persistence_error}
use mls_tls_protocol.MlsHandshake.Session
use mls_tls_protocol.MlsHandshake.Session.{MlsSession}
use mls_tls_protocol.MlsHandshake.Client.State.{
  ClientInternalState, running, waiting_for_connection_confirmation, waiting_for_epoch_key_update,
  waiting_for_epoch_key_update_return,
}
use mls_tls_protocol.MlsHandshake.Persistence.{
  store, store_update, load, delete, version_to_sql, version_from_sql,
}
use mls_tls_protocol.MlsHandshake.Persistence.{read_states, delete_groups, delete_old_versions}
use mls_tls_protocol.MlsHandshake.Persistence.Rows.{ReadsBack, load-store}
use mls_tls_protocol.Tests.ToyMls.{toy_mls, toy_wire, client_in, write_json, read_json, running_sql}

-- `ReadsBack`, by the state.
reads_back_at :
    (x : ClientInternalState toy_mls) (id : Octets) (e : ℕ) (blob : Octets)
    → write_json x (record {
      profile_id = id;
      mls_session = record { group_id = tt; epoch = e };
      internal_state = x;
    })
      ≡ ok blob
    → read_json blob
      ≡ ok (record {
        profile_id = id;
        mls_session = record { group_id = tt; epoch = e };
        internal_state = x;
      })
reads_back_at running id e blob h =
    subst
      (λ b.
        read_json b
        ≡ ok (record {
          profile_id = id;
          mls_session = record { group_id = tt; epoch = e };
          internal_state = running;
        }))
      (ok-injective h) refl
reads_back_at (waiting_for_connection_confirmation p) id e blob h = absurd (ground arith)
reads_back_at (waiting_for_epoch_key_update p) id e blob h = absurd (ground arith)
reads_back_at (waiting_for_epoch_key_update_return x) id e blob h = absurd (ground arith)

pub reads_back : ReadsBack toy_mls toy_wire running_sql
reads_back s blob h = reads_back_at s.internal_state s.profile_id s.mls_session.epoch blob h

abbrev database : List Row → Connection toy_mls
database rows = record { storage = some (4, false); rows = some rows }

abbrev row : Row
row = record { profile_id = 5 ∷ []; version = 0; handshake_state = 4 ∷ 5 ∷ [] }

stored_lem :
    store toy_mls toy_wire running_sql (client_in running) (database [])
    ≡ (ok tt, database (row ∷ []))
unfolding store version_to_sql
stored_lem = refl

load-store_example :
    (load toy_mls toy_wire running_sql (5 ∷ []) (database (row ∷ []))
      ≡ (ok (some (client_in running)), database (row ∷ [])))
    × (store toy_mls toy_wire running_sql (client_in running) (database (row ∷ []))
        ≡ (err (persistence_error tt), database (row ∷ [])))
load-store_example =
    load-store toy_mls toy_wire running_sql (client_in running) (database []) (database (row ∷ []))
      reads_back stored_lem

abbrev old_row : Row
old_row = record row { handshake_state = 3 ∷ 5 ∷ [] }

updated_lem :
    store_update toy_mls toy_wire running_sql (client_in running) (database (old_row ∷ []))
    ≡ (ok tt, database (row ∷ []))
unfolding store_update
updated_lem = refl

abbrev emptied : Connection toy_mls
emptied = record { storage = none; rows = some [] }

deleted_lem : delete toy_mls toy_wire running_sql (5 ∷ []) (database (row ∷ [])) ≡ (ok tt, emptied)
unfolding delete load version_from_sql Session.delete Session.load_group
deleted_lem = refl

abbrev older_row : Row
older_row = record { profile_id = 6 ∷ []; version = 1; handshake_state = 3 ∷ 6 ∷ [] }

cleaned_lem :
    delete_old_versions toy_mls toy_wire running_sql (database (older_row ∷ row ∷ []))
    ≡ (ok tt, record { storage = none; rows = some (row ∷ []) })
unfolding delete_old_versions read_states delete_groups Session.delete Session.load_group
cleaned_lem = refl
