-- ===== src/Tests/PreHandshake.antt =====
-- The pre-handshake and the update policy at concrete inputs.
use mls_tls_protocol.Base.{◌≡◌, refl, [], ◌∷◌, ◌++◌, ok, ◌||◌, leb, arith}
use mls_tls_protocol.UpdatePolicy.{update_is_due, reset}
use mls_tls_protocol.UpdatePolicy.Due.{sends, with_both, sum, update_is_due-reset}
use mls_tls_protocol.PreHandshake.X25519.{client_handshake, server_handshake, payload}
use mls_tls_protocol.PreHandshake.Agreement.{handshakes_agree}
use mls_tls_protocol.Tests.Toy.{
  replicate, toy_clock, toy_curve, toy_curve-IsCurve, toy_socket, toy_socket-IsByteStream,
}

handshakes_agree_example :
    let cr = client_handshake toy_curve toy_socket 3 (replicate 32 5 ++ (1 ∷ []), []) in
    let sr = server_handshake toy_curve toy_socket 5 (replicate 32 3 ++ (2 ∷ []), 4 ∷ []) in
    (cr.0 ≡ ok (payload toy_curve toy_socket 3 (replicate 32 5)))
    × (sr.0 ≡ cr.0)
    × (cr.1.1 ≡ replicate 32 3)
    × (sr.1.1 ≡ (4 ∷ []) ++ replicate 32 5)
    × (cr.1.0 ≡ 1 ∷ [])
    × (sr.1.0 ≡ 2 ∷ [])
handshakes_agree_example =
    handshakes_agree toy_curve toy_curve-IsCurve toy_socket toy_socket-IsByteStream 3 5 3 5 (1 ∷ [])
      (2 ∷ []) (replicate 32 5 ++ (1 ∷ []), []) (replicate 32 3 ++ (2 ∷ []), 4 ∷ []) refl refl tt tt
      refl refl

update_is_due-reset_example :
    update_is_due toy_clock
      (sends toy_clock (30 ∷ 40 ∷ []) (
        reset toy_clock 100 (
          with_both toy_clock
            (record { duration = 10; last_update = 0 })
            (record { update_threshold = 60; bytes_transferred = 5 }))))
      105
    ≡ ok (leb 110 105 || leb 60 (sum (30 ∷ 40 ∷ [])))
update_is_due-reset_example =
    update_is_due-reset toy_clock (record { duration = 10; last_update = 0 })
      (record { update_threshold = 60; bytes_transferred = 5 }) (30 ∷ 40 ∷ []) 100 105 (omega arith)
      refl
