-- ===== src/Examples/Executions.antt =====
-- A market's execution record along a lifecycle, and account readings.
use equinox.Prelude.{◌≡◌, true, false, none, some, List, [], ◌∷◌, ◌⊎◌, arith}
use equinox.Execution.{
  initial_execution_state, is_withdrawal_display_safe, restored, reconciliation_error,
}
use equinox.Execution.Machine.{
  Op, delegation, er_activity, trade, scheduled, observed, finalized, apply, run, IsSound,
  run-IsSound, initial-IsSound, apply_along_edge, Refuses, ◌⟶◌,
}
use equinox.Execution.Reconcile.{DelegationFields, reconcile_from_l1}
use equinox.Execution.Reconcile.Laws.{IsOrdered, Keeps, reconcile_from_l1-Keeps}
use equinox.Execution.Reconcile.Settled.{SameView, reconcile_twice}
use equinox.Execution.Reconcile.Bootstrap.{unknown_status_shown_restored}

abbrev lifecycle : List Op
lifecycle = delegation ∷ er_activity ∷ trade 3 ∷ scheduled 3 ∷ observed 3 ∷ finalized 3 ∷ []

run-IsSound_example : IsSound (run lifecycle initial_execution_state)
run-IsSound_example = run-IsSound lifecycle initial_execution_state initial-IsSound

apply_along_edge_example :
    Refuses initial_execution_state (apply (trade 3) initial_execution_state)
    ⊎ initial_execution_state.status ⟶ (apply (trade 3) initial_execution_state).status
apply_along_edge_example = apply_along_edge (trade 3) initial_execution_state

-- Delegated, with three of the requested commits on L1.
abbrev l1_at_three : DelegationFields
l1_at_three = record {
  delegation_status = 1;
  delegation_sequence = 1;
  expected_commit_sequence = 3;
  last_committed_sequence = 3;
  pending_undelegation = false;
  global_event_sequence = 3;
}

initial-IsOrdered : IsOrdered initial_execution_state.sequences
initial-IsOrdered = ground arith

reconcile_from_l1-Keeps_example :
    IsOrdered (reconcile_from_l1 initial_execution_state l1_at_three (some 5) true).sequences
    × Keeps initial_execution_state
        (reconcile_from_l1 initial_execution_state l1_at_three (some 5) false)
reconcile_from_l1-Keeps_example =
    reconcile_from_l1-Keeps initial_execution_state l1_at_three (some 5) initial-IsOrdered

reconcile_twice_example :
    let t = reconcile_from_l1 initial_execution_state l1_at_three (some 5) false in
    SameView (reconcile_from_l1 t l1_at_three (some 5) false) t
reconcile_twice_example = reconcile_twice initial_execution_state l1_at_three (some 5)

abbrev l1_unknown : DelegationFields
l1_unknown = record l1_at_three { delegation_status = 9 }

unknown_status_shown_restored_example :
    let first = reconcile_from_l1 initial_execution_state l1_unknown none true in
    let later = reconcile_from_l1 initial_execution_state l1_unknown none false in
    (first.status ≡ restored)
    × (is_withdrawal_display_safe first ≡ true)
    × (later.status ≡ reconciliation_error)
    × (is_withdrawal_display_safe later ≡ false)
unknown_status_shown_restored_example =
    unknown_status_shown_restored initial_execution_state l1_unknown none (omega arith)
