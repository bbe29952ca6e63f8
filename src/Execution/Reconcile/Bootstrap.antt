-- ===== src/Execution/Reconcile/Bootstrap.antt =====
-- The first observation of a market that is already in mid-lifecycle, `bootstrapFromL1`.
use equinox.Prelude.{ℕ, ◌<◌, ◌≡◌, true, false, Option, arith}
use equinox.Execution.{restored, reconciliation_error, ExecutionState, is_withdrawal_display_safe}
use equinox.Execution.Reconcile.{DelegationFields, bootstrap_from_l1, reconcile_from_l1}

-- A first observation shows a delegation status that is none of 0 to 3 as `restored`, so as safe
-- to withdraw from; any later observation of it is a reconciliation error, which is not safe.
pub unknown_status_shown_restored :
    (s : ExecutionState) (l1 : DelegationFields) (er : Option ℕ)
    → 3 < l1.delegation_status
    → let first = reconcile_from_l1 s l1 er true in
      let later = reconcile_from_l1 s l1 er false in
      (first.status ≡ restored)
      × (is_withdrawal_display_safe first ≡ true)
      × (later.status ≡ reconciliation_error)
      × (is_withdrawal_display_safe later ≡ false)
unfolding reconcile_from_l1 bootstrap_from_l1 is_withdrawal_display_safe
unknown_status_shown_restored s l1 er h = ground arith
