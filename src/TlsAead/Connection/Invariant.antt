-- ===== src/TlsAead/Connection/Invariant.antt =====
-- The invariant of a connection, kept by every step.
use mls_tls_protocol.Base.{◌≡◌, refl, sym, ap, ◌∙◌, subst, [], ◌∷◌, ◌++◌, ok, ok-injective}
use mls_tls_protocol.Base.Bytes.{Octets}
use mls_tls_protocol.Crypto.{Crypto, IsAead}
use mls_tls_protocol.TlsAead.Codec.{TlsAeadCodec, sent_one}
use mls_tls_protocol.TlsAead.Codec.Channel.{received_one}
use mls_tls_protocol.TlsAead.Connection.{
  plain, rekey, Item, Connection, item, opened, Step, client_sends, server_sends, client_updates,
  server_receives, server_updates, client_receives, client_confirmed,
}
use mls_tls_protocol.TlsAead.Connection.Flow.{
  send_half, recv_half, Sealed, decrypt-Sealed, Flow, Flow-append,
}
use mls_tls_protocol.TlsAead.Connection.Pending.{
  rekeys, pending_list, rekeys-append, rekeys-append_plain, append-eq-nil, moves, only,
}
use mls_tls_protocol.TlsAead.Connection.Keys.{
  Uses, client_keys, server_keys, update-client, update-server, update-both,
}

module _ (C : Crypto) (L : IsAead C) (hash : C.HashType) (algorithm : C.AeadType) where
  -- The algorithms stay, both directions flow, and every update in flight is the pending one.
  pub record Inv (k : Connection C) : Type 0 where
    pub client_uses : Uses C hash algorithm k.client_codec
    pub server_uses : Uses C hash algorithm k.server_codec
    pub upward :
        Flow C L
          (client_keys C hash algorithm)
          (send_half C L k.client_codec)
          k.up
          (recv_half C L k.server_codec)
    pub downward :
        Flow C L
          (server_keys C hash algorithm)
          (send_half C L k.server_codec)
          k.down
          (recv_half C L k.client_codec)
    pub one_update : rekeys k.up ++ rekeys k.down ≡ pending_list k.pending

  -- The front of a queue, taken as the sent bytes were.
  opens :
      (s : TlsAeadCodec C) (i : Item) {m : Octets} {s' : TlsAeadCodec C}
      → Sealed C L (recv_half C L s) i
      → opened C L s i ≡ (ok m, s')
      → s' ≡ received_one C L s
  opens s i sealed h = ap (λ r. r.1) (sym h ∙ decrypt-Sealed C L s i sealed)

  pub Step-Inv : {k l : Connection C} → Step C L k l → Inv k → Inv l
  Step-Inv {k = k} (client_sends chunk e q) v = record {
    client_uses = v.client_uses;
    server_uses = v.server_uses;
    upward =
        Flow-append C L (client_keys C hash algorithm) k.up _ _ _ _ v.upward
          (k.client_codec, refl, q) refl;
    downward = v.downward;
    one_update = rw (rekeys-append_plain k.up e chunk) v.one_update;
  }
  Step-Inv {k = k} (server_sends chunk e q) v = record {
    client_uses = v.client_uses;
    server_uses = v.server_uses;
    upward = v.upward;
    downward =
        Flow-append C L (server_keys C hash algorithm) k.down _ _ _ _ v.downward
          (k.server_codec, refl, q) refl;
    one_update = rw (rekeys-append_plain k.down e chunk) v.one_update;
  }
  Step-Inv {k = k} (client_updates chunk e x c p q u) v =
      let (keys, made, same) = update-client C hash algorithm x _ v.client_uses u in
      let (no_up, no_down) =
        append-eq-nil (rekeys k.up) (rekeys k.down) (v.one_update ∙ ap pending_list p) in
      rw same (record {
        client_uses = v.client_uses;
        server_uses = v.server_uses;
        upward =
            Flow-append C L (client_keys C hash algorithm) k.up _ _ _ _ v.upward
              (k.client_codec, refl, q) (keys, made, refl);
        downward = v.downward;
        one_update =
            rw (rekeys-append k.up (item C L e chunk (rekey x) ∷ [])) (rw no_up (rw no_down refl));
      })
  Step-Inv {k = k} (server_receives frame chunk m rest s p d) v =
      let (r', sealed, pass, flow) =
        subst
          (λ us.
            Flow C L (client_keys C hash algorithm) (send_half C L k.client_codec) us
              (recv_half C L k.server_codec))
          p v.upward in
      rw (opens k.server_codec (item C L frame chunk plain) sealed d) (record {
        client_uses = v.client_uses;
        server_uses = v.server_uses;
        upward = rw pass flow;
        downward = v.downward;
        one_update = ap (λ us. rekeys us ++ rekeys k.down) (sym p) ∙ v.one_update;
      })
  Step-Inv {k = k} (client_receives frame chunk m rest c p d) v =
      let (r', sealed, pass, flow) =
        subst
          (λ us.
            Flow C L (server_keys C hash algorithm) (send_half C L k.server_codec) us
              (recv_half C L k.client_codec))
          p v.downward in
      rw (opens k.client_codec (item C L frame chunk plain) sealed d) (record {
        client_uses = v.client_uses;
        server_uses = v.server_uses;
        upward = v.upward;
        downward = rw pass flow;
        one_update = ap (λ us. rekeys k.up ++ rekeys us) (sym p) ∙ v.one_update;
      })
  Step-Inv {k = k} (server_updates frame chunk m answer e x rest s t p d q u) v =
      let (r', sealed, (keys, made, pass), flow) =
        subst
          (λ us.
            Flow C L (client_keys C hash algorithm) (send_half C L k.client_codec) us
              (recv_half C L k.server_codec))
          p v.upward in
      let got = opens k.server_codec (item C L frame chunk (rekey x)) sealed d in
      let (up_keys, down_keys, up_made, down_made, same) =
        update-both C hash algorithm x (sent_one C s) (rw got v.server_uses) u in
      let agree = ok-injective (sym made ∙ up_made) in
      rw same (
        rw got (record {
          client_uses = v.client_uses;
          server_uses = v.server_uses;
          upward = rw (sym agree) (rw pass flow);
          downward =
              Flow-append C L (server_keys C hash algorithm) k.down _ _ _ _ v.downward
                (s, ap (send_half C L) got, q) (down_keys, down_made, refl);
          one_update = rw (rekeys-append k.down (item C L e answer (rekey x) ∷ [])) (
              moves x (rekeys rest) (rekeys k.down) k.pending
                (ap (λ us. rekeys us ++ rekeys k.down) (sym p) ∙ v.one_update));
        }))
  Step-Inv {k = k} (client_confirmed frame chunk m x y rest c d p w o u) v =
      let (r', sealed, (keys, made, pass), flow) =
        subst
          (λ us.
            Flow C L (server_keys C hash algorithm) (send_half C L k.server_codec) us
              (recv_half C L k.client_codec))
          p v.downward in
      let got = opens k.client_codec (item C L frame chunk (rekey x)) sealed o in
      let (no_up, one, no_rest) =
        only x y (rekeys k.up) (rekeys rest)
          (ap (λ us. rekeys k.up ++ rekeys us) (sym p) ∙ v.one_update ∙ ap pending_list w) in
      let (new_keys, new_made, same) =
        update-server C hash algorithm y c (rw got v.client_uses) u in
      let agree = ok-injective (sym made ∙ ap (server_keys C hash algorithm) one ∙ new_made) in
      rw same (
        rw got (record {
          client_uses = v.client_uses;
          server_uses = v.server_uses;
          upward = v.upward;
          downward = rw (sym agree) (rw pass flow);
          one_update = rw no_up no_rest;
        }))
