-- ===== src/PreHandshake/Agreement.antt =====
-- Both sides of a pre-handshake get the same secret, and so the keys of one connection.
use mls_tls_protocol.Base.{
  ℕ, ◌≤◌, ◌≡◌, refl, sym, ap, ◌∙◌, ◌++◌, none, ok, length, take, drop, arith, length-append,
  take-append_of_le, drop-append_of_le, take_self, drop_self,
}
use mls_tls_protocol.Base.Bytes.{Octets}
use mls_tls_protocol.PreHandshake.X25519.{
  Curve, Socket, payload, client_handshake, server_handshake,
}

-- RFC 7748: both sides compute one secret, and public keys have 32 bytes.
pub record IsCurve (V : Curve) : Type 0 where
  pub agrees :
      (a b : V.SecretKey)
      → V.diffie_hellman a (V.public_key b) ≡ V.diffie_hellman b (V.public_key a)
  pub length_key : (a : V.SecretKey) → length (V.public_key a) ≡ 32

-- A connected socket: what is still to be read and what was written.
pub record IsByteStream (N : Socket) : Type 1 where
  pub incoming : N.State → Octets
  pub outgoing : N.State → Octets
  pub IsOpen : N.State → Type 0
  pub write_all_ok :
      (bytes : Octets) (s : N.State)
      → IsOpen s
      → ((N.write_all bytes s).0 ≡ ok tt)
        × (outgoing (N.write_all bytes s).1 ≡ outgoing s ++ bytes)
        × (incoming (N.write_all bytes s).1 ≡ incoming s)
        × IsOpen (N.write_all bytes s).1
  pub read_exact_ok :
      (n : ℕ) (s : N.State)
      → n ≤ length (incoming s)
      → ((N.read_exact n s).0 ≡ ok (take n (incoming s)))
        × (incoming (N.read_exact n s).1 ≡ drop n (incoming s))
        × (outgoing (N.read_exact n s).1 ≡ outgoing s)
        × (IsOpen s → IsOpen (N.read_exact n s).1)

module _ (V : Curve) (W : IsCurve V) (N : Socket) (B : IsByteStream N) where
  -- The peer's key, and what stands behind it in the stream.
  read_front :
      (k rest : Octets) (s : N.State)
      → length k ≡ 32
      → B.incoming s ≡ k ++ rest
      → ((N.read_exact 32 s).0 ≡ ok k)
        × (B.incoming (N.read_exact 32 s).1 ≡ rest)
        × (B.outgoing (N.read_exact 32 s).1 ≡ B.outgoing s)
  read_front k rest s len e =
      let fits : 32 ≤ length (B.incoming s) = rw e (omega (arith, length-append k rest)) in
      let (got, left, out, _) = B.read_exact_ok 32 s fits in
      let front : take 32 (k ++ rest) ≡ k =
        rw (← len) (take-append_of_le (length k) k rest (omega arith) ∙ take_self k) in
      let back : drop 32 (k ++ rest) ≡ rest =
        rw (← len)
          (drop-append_of_le (length k) k rest (omega arith) ∙ ap (λ l. l ++ rest) (drop_self k)) in
      (got ∙ ap (λ l. ok (take 32 l)) e ∙ ap ok front, left ∙ ap (drop 32) e ∙ back, out)

  client_lem :
      (seed : V.Seed) (a : V.SecretKey) (peer rest : Octets) (s : N.State)
      → V.random_secret seed ≡ ok a
      → B.IsOpen s
      → length peer ≡ 32
      → B.incoming s ≡ peer ++ rest
      → let c = client_handshake V N seed s in
        (c.0 ≡ ok (payload V N a peer))
        × (B.outgoing c.1 ≡ B.outgoing s ++ V.public_key a)
        × (B.incoming c.1 ≡ rest)
  unfolding client_handshake
  client_lem seed a peer rest s ra open_ len e =
      let (sent, out, inc, _) = B.write_all_ok (V.public_key a) s open_ in
      let s' = (N.write_all (V.public_key a) s).1 in
      let (got, left, out') = read_front peer rest s' len (inc ∙ e) in
      rw ra (rw sent (rw got (refl, out' ∙ out, left)))

  server_lem :
      (seed : V.Seed) (b : V.SecretKey) (peer rest : Octets) (s : N.State)
      → V.random_secret seed ≡ ok b
      → B.IsOpen s
      → length peer ≡ 32
      → B.incoming s ≡ peer ++ rest
      → let c = server_handshake V N seed s in
        (c.0 ≡ ok (payload V N b peer))
        × (B.outgoing c.1 ≡ B.outgoing s ++ V.public_key b)
        × (B.incoming c.1 ≡ rest)
  unfolding server_handshake
  server_lem seed b peer rest s rb open_ len e =
      let (got, left, out') = read_front peer rest s len e in
      let s' = (N.read_exact 32 s).1 in
      let still = (B.read_exact_ok 32 s (rw e (omega (arith, length-append peer rest)))).3 open_ in
      let (sent, out, inc, _) = B.write_all_ok (V.public_key b) s' still in
      rw got (rw rb (rw sent (refl, out ∙ ap (λ o. o ++ V.public_key b) out', inc ∙ left)))

  -- Let both sides have made a key, and let each find the other's public key first in its stream.
  -- Then both handshakes succeed with the same payload, each has written exactly its public key, and
  -- what stood behind the peer's key is still to be read.
  pub handshakes_agree :
      (seed_a seed_b : V.Seed) (a b : V.SecretKey) (rest_c rest_s : Octets) (c s : N.State)
      → V.random_secret seed_a ≡ ok a
      → V.random_secret seed_b ≡ ok b
      → B.IsOpen c
      → B.IsOpen s
      → B.incoming c ≡ V.public_key b ++ rest_c
      → B.incoming s ≡ V.public_key a ++ rest_s
      → let cr = client_handshake V N seed_a c in
        let sr = server_handshake V N seed_b s in
        (cr.0 ≡ ok (payload V N a (V.public_key b)))
        × (sr.0 ≡ cr.0)
        × (B.outgoing cr.1 ≡ B.outgoing c ++ V.public_key a)
        × (B.outgoing sr.1 ≡ B.outgoing s ++ V.public_key b)
        × (B.incoming cr.1 ≡ rest_c)
        × (B.incoming sr.1 ≡ rest_s)
  handshakes_agree seed_a seed_b a b rest_c rest_s c s ra rb oc os ec es =
      let (c0, c1, c2) = client_lem seed_a a (V.public_key b) rest_c c ra oc (W.length_key b) ec in
      let (s0, s1, s2) = server_lem seed_b b (V.public_key a) rest_s s rb os (W.length_key a) es in
      let same : payload V N b (V.public_key a) ≡ payload V N a (V.public_key b) =
        λ i. record { shared_secret = W.agrees b a i; session_id = none } in
      (c0, s0 ∙ ap ok same ∙ sym c0, c1, s1, c2, s2)
