-- ===== src/MlsHandshake/Group/Pending.antt =====
-- What becomes of a pending commit when another member's commit comes in, in `process_mls_update` of
-- src/mls_handshake/state_machine/mls_group.rs.
use mls_tls_protocol.Base.{
  subst, sym, ap, ◌∙◌, ℕ, ◌+◌, ◌==◌, ◌≡◌, Bool, true, false, Option, none, some, ok, arith,
  Result-Cases, ok_case, err_case, panic_case,
}
use mls_tls_protocol.Base.Bytes.{as_u64}
use mls_tls_protocol.MlsHandshake.OpenMls.{OpenMls}
use mls_tls_protocol.MlsHandshake.Messages.{Wire}
use mls_tls_protocol.MlsHandshake.Session.{settle_pending}
use mls_tls_protocol.MlsHandshake.Group.{IsMls}

not_next : (n : ℕ) → (n == as_u64 (n + 1)) ≡ false
not_next n = ground arith

module _ (O : OpenMls) (W : Wire O) (R : IsMls O) where
  open R use {Epoch, number, state, stored, commit_of, target}

  -- Only a commit of the epoch after the group's makes `process_mls_update` merge a pending commit.
  not_own :
      (p : O.PrivateMessage) (g : O.Group) (u x : Epoch) (pending : Option Epoch)
      → state g ≡ (x, pending)
      → O.message_epoch p ≡ number u
      → (number u == as_u64 (number x + 1)) ≡ false
      → (O.message_epoch p == as_u64 (O.epoch g + 1)) ≡ false
  not_own p g u x pending holds named other =
      let is_x : O.epoch g ≡ number x = R.epoch_ok g ∙ ap (λ v. number v.0) holds in
      subst (λ n. (O.message_epoch p == as_u64 (n + 1)) ≡ false) (sym is_x)
        (subst (λ n. (n == as_u64 (number x + 1)) ≡ false) (sym named) other)

  pub settle_pending-drops :
      (p : O.PrivateMessage) (g g' : O.Group) (s s' : O.Storage) (u x : Epoch)
      (pending : Option Epoch)
      → state g ≡ (x, pending)
      → O.message_epoch p ≡ number u
      → (number u == as_u64 (number x + 1)) ≡ false
      → settle_pending O W p true g s ≡ (ok g', s')
      → (O.group_id g' ≡ O.group_id g) × (state g' ≡ (x, none))
  unfolding settle_pending
  settle_pending-drops p g g' s s' u x pending holds named other h =
      let later = not_own p g u x pending holds named other in
      elim (Result-Cases (O.clear_pending_commit (g, s)).0) [
        | ok_case _ e ↦
            let r = O.clear_pending_commit (g, s) in
            let (kept, now, _) =
              R.clear_pending_commit_ok g r.1.0 s r.1.1 x pending holds (ground arith) in
            (ground arith, ground arith)
        | err_case z e ↦ absurd (ground arith)
        | panic_case e ↦ absurd (ground arith)
      ]

  settle_pending-keeps :
      (p : O.PrivateMessage) (g g' : O.Group) (s s' : O.Storage) (x : Epoch)
      → state g ≡ (x, none)
      → O.message_epoch p ≡ number x
      → settle_pending O W p false g s ≡ (ok g', s')
      → (O.group_id g' ≡ O.group_id g) × (state g' ≡ (x, none))
  unfolding settle_pending
  settle_pending-keeps p g g' s s' x holds named h =
      let later = not_own p g x x none holds named (not_next (number x)) in
      (ground arith, ground arith)

  -- The pending commit is merged if the message is from the epoch that it leads to.
  settle_pending-merges :
      (p : O.PrivateMessage) (drops : Bool) (g g' : O.Group) (s s' : O.Storage) (x y : Epoch)
      → state g ≡ (x, some y)
      → O.message_epoch p ≡ number y
      → (number y == as_u64 (number x + 1)) ≡ true
      → settle_pending O W p drops g s ≡ (ok g', s')
      → (O.group_id g' ≡ O.group_id g) × (state g' ≡ (y, none))
  unfolding settle_pending
  settle_pending-merges p drops g g' s s' x y holds named next h =
      let is_x : O.epoch g ≡ number x = R.epoch_ok g ∙ ap (λ v. number v.0) holds in
      let own : (O.message_epoch p == as_u64 (O.epoch g + 1)) ≡ true =
        subst (λ n. (O.message_epoch p == as_u64 (n + 1)) ≡ true) (sym is_x)
          (subst (λ n. (n == as_u64 (number x + 1)) ≡ true) (sym named) next) in
      let has = R.has_pending_ok g x y holds in
      elim (Result-Cases (O.merge_pending_commit (g, s)).0) [
        | ok_case _ e ↦
            let r = O.merge_pending_commit (g, s) in
            let (kept, now, _) =
              R.merge_pending_commit_ok g r.1.0 s r.1.1 x y holds (ground arith) in
            (ground arith, ground arith)
        | err_case z e ↦ absurd (ground arith)
        | panic_case e ↦ absurd (ground arith)
      ]

  -- When a member in v takes a commit of x: it has x, with a pending commit that it may drop, or it
  -- merges its own pending commit to x first.
  pub data Settles (x : Epoch) : Bool → Epoch → Option Epoch → Type 0 where
    drops_pending : {pending : Option Epoch} → Settles x true x pending
    has_none : {drops : Bool} → Settles x drops x none
    merges_own :
        {drops : Bool} {v : Epoch}
        → (number x == as_u64 (number v + 1)) ≡ true
        → Settles x drops v (some x)

  pub settle_pending_lem :
      (p : O.PrivateMessage) (drops : Bool) (g g' : O.Group) (s s' : O.Storage) (x v : Epoch)
      (pending : Option Epoch)
      → Settles x drops v pending
      → state g ≡ (v, pending)
      → O.message_epoch p ≡ number x
      → settle_pending O W p drops g s ≡ (ok g', s')
      → (O.group_id g' ≡ O.group_id g) × (state g' ≡ (x, none))
  settle_pending_lem p true g g' s s' x v pending drops_pending holds named h =
      settle_pending-drops p g g' s s' x x pending holds named (not_next (number x)) h
  settle_pending_lem p true g g' s s' x v pending has_none holds named h =
      settle_pending-drops p g g' s s' x x none holds named (not_next (number x)) h
  settle_pending_lem p false g g' s s' x v pending has_none holds named h =
      settle_pending-keeps p g g' s s' x holds named h
  settle_pending_lem p drops g g' s s' x v pending (merges_own next) holds named h =
      settle_pending-merges p drops g g' s s' v x holds named next h
