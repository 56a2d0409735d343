-- ===== src/MlsHandshake/Pair/Receipts.antt =====
-- The phases of two handshakes of src/mls_handshake/mod.rs when a side gets a message.
use mls_tls_protocol.Base.{ℕ, suc, ◌≡◌, sym, subst, ap, refl, ◌∙◌, List, [], ◌∷◌, Option, ok}
use mls_tls_protocol.Base.Bytes.{Octets}
use mls_tls_protocol.TlsAead.Secrets
use mls_tls_protocol.TlsAead.Secrets.{TrafficSecrets, SecretUpdate}
use mls_tls_protocol.MlsHandshake.OpenMls.{OpenMls}
use mls_tls_protocol.MlsHandshake.Messages.{Wire}
use mls_tls_protocol.MlsHandshake.Group.{IsMls, ReadsBack}
use mls_tls_protocol.MlsHandshake.Group.Operations.{secrets_of}
use mls_tls_protocol.MlsHandshake.Pair.Moves
use mls_tls_protocol.MlsHandshake.Pair.Run.{take_update, send}
use mls_tls_protocol.MlsHandshake.Pair.Phases.{
  Phase, between, calm, asked, told, answered, one_offer, no_update, one_update, answer,
  after_update, Stale-answer,
}
use mls_tls_protocol.MlsHandshake.Persistence.{Sql}
use mls_tls_protocol.MlsHandshake.Driver.{MlsHandshake, process_signaling_message}

module _ (O : OpenMls) (W : Wire O) (Q : Sql O W) (R : IsMls O) (B : ReadsBack W R) (E : Type 0)
    (id : O.GroupId) where
  open R use {Epoch}

  abbrev InPhase :
      ℕ
      → MlsHandshake O
      → MlsHandshake O
      → TrafficSecrets
      → TrafficSecrets
      → List Octets
      → List Octets
      → Type 0
  InPhase = Phase O W Q R E id

  pub client_gets-Phase :
      (c c' s : MlsHandshake O) (k l : TrafficSecrets) (up rest : List Octets) (bytes : Octets)
      (u : Option SecretUpdate) (response : Option Octets) (n : ℕ)
      → InPhase n c s k l up (bytes ∷ rest)
      → process_signaling_message O W Q E bytes c ≡ (ok (u, response), c')
      → (m : ℕ) × (n ≡ suc m) × InPhase m c' s (take_update u k) l (send response up) rest
  unfolding take_update send Secrets.update
  client_gets-Phase c c' s k l up rest bytes u response _
        (calm {x = x} is_c is_s keys_c keys_s (one_offer {z = z} carries)) e =
      let (out, is_u, is_r, confirms, awaits) =
        Moves.client_gets_update O W Q R E B c c' u response bytes id x z is_c carries e in
      let keys : take_update u k ≡ between O W Q R E id x z =
        ap (λ v. take_update v k) is_u
        ∙ ap {A = TrafficSecrets}
            (λ v. record v { client_secret = (secrets_of O W R z).client_secret }) keys_c in
      (
        2,
        refl,
        subst (λ v. InPhase 2 c' s (take_update u k) l (send v []) []) (sym is_r)
            (told awaits is_s keys keys_s confirms),
      )
  client_gets-Phase c c' s k l up rest bytes u response _
        (asked {b = b} {y = y} awaits is_s keys_c keys_s asks
          (one_update {n = m} {x = x'} {y = z} carries stale))
        e =
      let (is_u, is_r, still) =
        Moves.client_drops O W Q R E B c c' u response bytes id y x' z awaits carries e in
      (
        _,
        refl,
        subst (λ v. InPhase (suc (suc m)) c' s (take_update u k) l (send v (b ∷ [])) rest)
            (sym is_r)
            (asked still is_s (ap (λ v. take_update v k) is_u ∙ keys_c) keys_s asks stale),
      )
  client_gets-Phase c c' s k l up rest bytes u response _
        (answered {x = x} {y = y} awaits is_s keys_c keys_s (answer {n = m} confirms offer)) e =
      let (is_u, is_r, runs) =
        Moves.client_gets_confirmation O W Q R E B c c' u response bytes id y y awaits confirms e in
      let keys : take_update u k ≡ secrets_of O W R y =
        ap (λ v. take_update v k) is_u
        ∙ ap {A = TrafficSecrets}
            (λ v. record v { server_secret = (secrets_of O W R y).server_secret }) keys_c in
      (
        _,
        refl,
        subst (λ v. InPhase m c' s (take_update u k) l (send v []) rest) (sym is_r)
            (calm runs is_s keys keys_s offer),
      )
  client_gets-Phase c c' s k l up rest bytes u response _
        (answered {y = y} awaits is_s keys_c keys_s
          (after_update {n = m} {x = x'} {z = z} carries answers))
        e =
      let (is_u, is_r, still) =
        Moves.client_drops O W Q R E B c c' u response bytes id y x' z awaits carries e in
      (
        _,
        refl,
        subst (λ v. InPhase m c' s (take_update u k) l (send v []) rest) (sym is_r)
            (answered still is_s (ap (λ v. take_update v k) is_u ∙ keys_c) keys_s answers),
      )

  pub server_gets-Phase :
      (c s s' : MlsHandshake O) (k l : TrafficSecrets) (rest down : List Octets) (bytes : Octets)
      (u : Option SecretUpdate) (response : Option Octets) (n : ℕ)
      → InPhase n c s k l (bytes ∷ rest) down
      → process_signaling_message O W Q E bytes s ≡ (ok (u, response), s')
      → (m : ℕ) × (n ≡ suc m) × InPhase m c s' k (take_update u l) rest (send response down)
  unfolding take_update Secrets.update
  server_gets-Phase c s s' k l rest down bytes u response _
        (asked {n = m} {x = x} {y = y} {pending = pending} awaits is_s keys_c keys_s asks stale) e =
      let (out, is_u, is_r, confirms, now) =
        Moves.server_gets_update O W Q R E B s s' u response bytes id x y pending is_s asks e in
      (
        _,
        refl,
        subst (λ v. InPhase (suc m) c s' k (take_update u l) [] (send v down)) (sym is_r)
            (answered awaits now keys_c (ap (λ v. take_update v l) is_u)
              (Stale-answer O W Q R E id stale confirms)),
      )
  server_gets-Phase c s s' k l rest down bytes u response _
        (told {x = x} {y = y} awaits is_s keys_c keys_s told_it) e =
      let (out, is_u, is_r, confirms, now) =
        Moves.server_gets_confirmation O W Q R E B s s' u response bytes id x y y is_s told_it e in
      (
        1,
        refl,
        subst (λ v. InPhase 1 c s' k (take_update u l) [] (send v [])) (sym is_r)
            (answered awaits now keys_c (ap (λ v. take_update v l) is_u)
              (Stale-answer O W Q R E id no_update confirms)),
      )
