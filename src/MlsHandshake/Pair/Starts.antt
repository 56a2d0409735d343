-- ===== src/MlsHandshake/Pair/Starts.antt =====
-- The phases of two handshakes of src/mls_handshake/mod.rs when a side starts an update.
use mls_tls_protocol.Base.{ℕ, suc, ◌≡◌, ap, ◌∙◌, List, Option, none, some, ok}
use mls_tls_protocol.Base.Bytes.{Octets}
use mls_tls_protocol.TlsAead.Secrets
use mls_tls_protocol.TlsAead.Secrets.{TrafficSecrets, SecretUpdate}
use mls_tls_protocol.MlsHandshake.OpenMls.{OpenMls}
use mls_tls_protocol.MlsHandshake.Messages.{Wire}
use mls_tls_protocol.MlsHandshake.Group.{IsMls}
use mls_tls_protocol.MlsHandshake.Group.Operations.{secrets_of}
use mls_tls_protocol.MlsHandshake.Pair.Moves
use mls_tls_protocol.MlsHandshake.Pair.Run.{take_update, send}
use mls_tls_protocol.MlsHandshake.Pair.Phases.{
  Phase, calm, asked, told, answered, Offer-Stale, Offer-send, Stale-send, Answer-send,
}
use mls_tls_protocol.MlsHandshake.Persistence.{Sql}
use mls_tls_protocol.MlsHandshake.Driver.{MlsHandshake, update_handshake}

module _ (O : OpenMls) (W : Wire O) (Q : Sql O W) (R : IsMls O) (E : Type 0) (id : O.GroupId) where
  abbrev pub InPhase :
      ℕ
      → MlsHandshake O
      → MlsHandshake O
      → TrafficSecrets
      → TrafficSecrets
      → List Octets
      → List Octets
      → Type 0
  InPhase = Phase O W Q R E id

  pub client_starts-Phase :
      (c c' s : MlsHandshake O) (k l : TrafficSecrets) (up down : List Octets)
      (u : Option SecretUpdate) (bytes : Octets) (n : ℕ)
      → InPhase n c s k l up down
      → update_handshake O W Q E c ≡ (ok (u, bytes), c')
      → (m : ℕ) × InPhase m c' s (take_update u k) l (send (some bytes) up) down
  unfolding take_update send Secrets.update
  client_starts-Phase c c' s k l up down u bytes n (calm {x = x} is_c is_s keys_c keys_s offer) e =
      let (y, carries, is_u, awaits) = Moves.client_starts O W Q R E c c' u bytes id x is_c e in
      let (m, stale) = Offer-Stale O W Q R E id offer in
      (
        suc (suc m),
        asked awaits is_s
            (ap (λ v. take_update v k) is_u
              ∙ ap {A = TrafficSecrets}
                  (λ v. record v { client_secret = (secrets_of O W R y).client_secret }) keys_c)
            keys_s carries stale,
      )
  client_starts-Phase c c' s k l up down u bytes n (asked {y = y} awaits _ _ _ _ _) e =
      absurd (Moves.waiting_client_starts O W Q R E c c' u bytes id y awaits e)
  client_starts-Phase c c' s k l up down u bytes n (told {y = y} awaits _ _ _ _) e =
      absurd (Moves.waiting_client_starts O W Q R E c c' u bytes id y awaits e)
  client_starts-Phase c c' s k l up down u bytes n (answered {y = y} awaits _ _ _ _) e =
      absurd (Moves.waiting_client_starts O W Q R E c c' u bytes id y awaits e)

  pub server_starts-Phase :
      (c s s' : MlsHandshake O) (k l : TrafficSecrets) (up down : List Octets)
      (u : Option SecretUpdate) (bytes : Octets) (n : ℕ)
      → InPhase n c s k l up down
      → update_handshake O W Q E s ≡ (ok (u, bytes), s')
      → (m : ℕ) × InPhase m c s' k (take_update u l) up (send (some bytes) down)
  unfolding take_update
  server_starts-Phase c s s' k l up down u bytes n
        (calm {x = x} {pending = none} is_c is_s keys_c keys_s offer) e =
      let (y, carries, is_u, now) = Moves.server_starts O W Q R E s s' u bytes id x is_s e in
      (
        3,
        calm is_c now keys_c (ap (λ v. take_update v l) is_u ∙ keys_s)
            (Offer-send O W Q R E id offer carries),
      )
  server_starts-Phase c s s' k l up down u bytes n (calm {x = x} {pending = some z} _ is_s _ _ _)
        e =
      absurd (Moves.waiting_server_starts O W Q R E s s' u bytes id x z is_s e)
  server_starts-Phase c s s' k l up down u bytes n
        (asked {x = x} {pending = none} awaits is_s keys_c keys_s asks stale) e =
      let (y, carries, is_u, now) = Moves.server_starts O W Q R E s s' u bytes id x is_s e in
      (
        suc n,
        asked awaits now keys_c (ap (λ v. take_update v l) is_u ∙ keys_s) asks
            (Stale-send O W Q R E id stale carries),
      )
  server_starts-Phase c s s' k l up down u bytes n (asked {x = x} {pending = some z} _ is_s _ _ _ _)
        e =
      absurd (Moves.waiting_server_starts O W Q R E s s' u bytes id x z is_s e)
  server_starts-Phase c s s' k l up down u bytes n (told {x = x} {y = y} _ is_s _ _ _) e =
      absurd (Moves.waiting_server_starts O W Q R E s s' u bytes id x y is_s e)
  server_starts-Phase c s s' k l up down u bytes n
        (answered {y = y} {pending = none} awaits is_s keys_c keys_s answers) e =
      let (z, carries, is_u, now) = Moves.server_starts O W Q R E s s' u bytes id y is_s e in
      let (m, more) = Answer-send O W Q R E id answers carries in
      (m, answered awaits now keys_c (ap (λ v. take_update v l) is_u ∙ keys_s) more)
  server_starts-Phase c s s' k l up down u bytes n
        (answered {y = y} {pending = some z} _ is_s _ _ _) e =
      absurd (Moves.waiting_server_starts O W Q R E s s' u bytes id y z is_s e)
