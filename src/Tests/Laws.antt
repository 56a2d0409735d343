-- ===== src/Tests/Laws.antt =====
-- The laws of groups and messages, for the `openmls` whose groups are epochs.
use mls_tls_protocol.Base.{
  ℕ, ◌+◌, ◌≡◌, refl, [], ◌∷◌, Bool, true, false, Option, none, some, get_or, arith,
}
use mls_tls_protocol.MlsHandshake.Messages.{to_bool, from_payload}
use mls_tls_protocol.MlsHandshake.Group.{IsMls, ReadsBack}
use mls_tls_protocol.Tests.ToyMls.{toy_mls, toy_wire}

-- A pending commit leads to the next epoch.
abbrev held : ℕ × Bool → ℕ × Option ℕ
held (n, true) = (n, some (n + 1))
held (n, false) = (n, none)

abbrev held_in : Option (ℕ × Bool) → Option (ℕ × Option ℕ)
held_in none = none
held_in (some g) = some (held g)

abbrev epoch_held : (g : ℕ × Bool) → g.0 ≡ (held g).0
epoch_held (n, true) = refl
epoch_held (n, false) = refl

abbrev pub toy_laws : IsMls toy_mls
toy_laws = record {
  Epoch = ℕ;
  number = λ x. x;
  exporter = λ x label context n. x ∷ get_or label 19 0 ∷ [];
  secret_length = 2;
  state = held;
  stored = λ s id. held_in s;
  commit_of = λ m. (tt, (m, m + 1));
  target = λ c. c + 1;
  load_ok = λ s id g e. (refl, ground arith);
  has_pending_ok = λ g x y h. ground arith;
  epoch_ok = epoch_held;
  length_ok = λ g. refl;
  export_ok = λ s g label context n secret e. ground arith;
  message_group_id_ok = λ p. refl;
  message_epoch_ok = λ p. refl;
  sent = λ m. m;
  self_update_ok = λ k g g' s s' m x h e. (x + 1, ground arith, refl, ground arith, ground arith);
  merge_pending_commit_ok = λ g g' s s' x y h e. (refl, ground arith, ground arith);
  clear_pending_commit_ok = λ g g' s s' x p h e. (refl, ground arith, ground arith);
  process_message_ok =
      λ m g g' s s' r x h e. (ground arith, refl, ground arith, λ c f. ground arith);
  merge_staged_commit_ok = λ c g g' s s' x h e. (refl, ground arith, ground arith);
}

pub toy_reads : ReadsBack toy_wire toy_laws
unfolding to_bool from_payload
toy_reads = record {
  connection_update_read = λ requested m bytes own e. (m, ground arith, refl);
  resumption_read = λ m bytes own e. (m, ground arith, refl);
  epoch_key_update_read = λ message bytes e. ground arith;
}
