-- ===== src/Execution/Machine.antt =====
-- Every transition of workers/src/execution-status.ts as one step of a machine: what a step may
-- do to the status, and what holds after any sequence of steps.
use equinox.Prelude.{if◌then◌else◌, ℕ, ◌≤◌, ◌≡◌, arith, List, [], ◌∷◌, ◌⊎◌}
use equinox.Execution.{
  Status, l1_only, delegating, er_active, er_accepted, commit_scheduled, commit_observed_on_l1,
  commit_finalized, undelegating, restoration_pending, restored, reconciliation_error,
  ExecutionState, SafeStatus, to_l1_only, initial_execution_state, includes, begin_delegation,
  observe_er_active, accept_er_trade, schedule_commit, observe_commit_on_l1, finalize_commit,
  begin_undelegation, begin_restoration, complete_restoration, recover_from_reconciliation_error,
}

-- A call of one of the exported transitions, with its argument.
pub data Op : Type 0 where
  delegation er_activity restoration_begun : Op
  trade scheduled observed finalized undelegation restoration_done : ℕ → Op
  recovery : SafeStatus → Op

unfoldable pub apply : Op → ExecutionState → ExecutionState
apply delegation s = begin_delegation s
apply er_activity s = observe_er_active s
apply restoration_begun s = begin_restoration s
apply (trade n) s = accept_er_trade s n
apply (scheduled n) s = schedule_commit s n
apply (observed n) s = observe_commit_on_l1 s n
apply (finalized n) s = finalize_commit s n
apply (undelegation n) s = begin_undelegation s n
apply (restoration_done n) s = complete_restoration s n
apply (recovery to) s = recover_from_reconciliation_error s to

unfoldable pub run : List Op → ExecutionState → ExecutionState
run [] s = s
run (op ∷ ops) s = run ops (apply op s)

-- The diagram of the lifecycle.
infix 40 ◌⟶◌
pub data ◌⟶◌ : Status → Status → Type 0 where
  delegate : l1_only ⟶ delegating
  delegate_again : restored ⟶ delegating
  activate : delegating ⟶ er_active
  still_active : er_active ⟶ er_active
  first_trade : er_active ⟶ er_accepted
  next_trade : er_accepted ⟶ er_accepted
  trade_after_commit : commit_finalized ⟶ er_accepted
  schedule_active : er_active ⟶ commit_scheduled
  schedule_accepted : er_accepted ⟶ commit_scheduled
  schedule_finalized : commit_finalized ⟶ commit_scheduled
  observe : commit_scheduled ⟶ commit_observed_on_l1
  observe_again : commit_observed_on_l1 ⟶ commit_observed_on_l1
  finalize : commit_observed_on_l1 ⟶ commit_finalized
  finalize_again : commit_finalized ⟶ commit_finalized
  undelegate : commit_finalized ⟶ undelegating
  restore : undelegating ⟶ restoration_pending
  restore_again : restoration_pending ⟶ restoration_pending
  confirm : restoration_pending ⟶ restored
  recover_l1 : reconciliation_error ⟶ l1_only
  recover_restored : reconciliation_error ⟶ restored

ruleset edges = (
  delegate, delegate_again, activate, still_active, first_trade, next_trade, trade_after_commit,
  schedule_active, schedule_accepted, schedule_finalized, observe, observe_again, finalize,
  finalize_again, undelegate, restore, restore_again, confirm, recover_l1, recover_restored,
)

-- The step was refused: the status is the error, with a message, and the sequences are untouched.
pub record Refuses (s t : ExecutionState) : Type 0 where
  pub in_error : t.status ≡ reconciliation_error
  pub unchanged : t.sequences ≡ s.sequences

-- Any call, in any state, is refused with the sequences untouched, or follows an edge of the
-- diagram.
pub apply_along_edge :
    (op : Op) (s : ExecutionState) → Refuses s (apply op s) ⊎ s.status ⟶ (apply op s).status
unfolding apply begin_delegation observe_er_active begin_restoration accept_er_trade schedule_commit
    observe_commit_on_l1 finalize_commit begin_undelegation complete_restoration
    recover_from_reconciliation_error
apply_along_edge delegation s = grind (arith, edges)
apply_along_edge (recovery to_l1_only) s = grind (arith, edges)
apply_along_edge _ s = grind (arith, edges)

-- A condition that is asked for only in the listed statuses.
abbrev pub In : List Status → Status → Type 0 → Type 0
In listed s P = if includes listed s then P else Unit

-- What holds of the sequences at a status: the commit sequences stand in order, the two ER
-- sequences agree, and from a finalized commit to the end of the restoration nothing that was
-- requested is still open.
pub record IsSound (s : ExecutionState) : Type 0 where
  pub finalized_le_observed : s.sequences.l1_finalized_commit ≤ s.sequences.l1_observed_commit
  pub observed_le_requested : s.sequences.l1_observed_commit ≤ s.sequences.requested_commit
  pub one_er_sequence : s.sequences.er_market_state ≡ s.sequences.er_event
  pub observed_all :
      In
        (commit_observed_on_l1 ∷ [])
        s.status
        (s.sequences.l1_observed_commit ≡ s.sequences.requested_commit)
  pub finalized_all :
      In
        (commit_finalized ∷ undelegating ∷ restoration_pending ∷ [])
        s.status
        (s.sequences.l1_finalized_commit ≡ s.sequences.requested_commit)

apply-IsSound : (op : Op) (s : ExecutionState) → IsSound s → IsSound (apply op s)
unfolding apply begin_delegation observe_er_active begin_restoration accept_er_trade schedule_commit
    observe_commit_on_l1 finalize_commit begin_undelegation complete_restoration
    recover_from_reconciliation_error
apply-IsSound delegation s h = ground arith
apply-IsSound (recovery to_l1_only) s h = ground arith
apply-IsSound _ s h = ground arith

-- After any sequence of calls from a sound state, refused ones included, the record is sound.
pub run-IsSound : (ops : List Op) (s : ExecutionState) → IsSound s → IsSound (run ops s)
unfolding run
run-IsSound [] s h = h
run-IsSound (op ∷ ops) s h = run-IsSound ops (apply op s) (apply-IsSound op s h)

pub initial-IsSound : IsSound initial_execution_state
initial-IsSound = ground arith
