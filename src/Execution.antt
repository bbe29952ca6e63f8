-- ===== src/Execution.antt =====
-- The execution status of a market, workers/src/execution-status.ts: the record that the indexer
-- keeps of a market's delegation to the ephemeral rollup (ER), and the transitions on it. A JS
-- number that holds a sequence is a natural number. `error` is the message's template with the
-- values that it prints.
pub mod Machine
pub mod Reconcile
use equinox.Prelude.{
  ℕ, Bool, Option, none, some, List, [], ◌∷◌, ◌&&◌, ◌||◌, not, false, leb, ◌==◌, if◌then◌else◌,
}

pub data Status : Type 0 where
  l1_only delegating er_active er_accepted commit_scheduled commit_observed_on_l1 commit_finalized
        undelegating restoration_pending restored reconciliation_error :
      Status

pub record Sequences : Type 0 where
  pub er_event : ℕ
  pub er_market_state : ℕ
  pub requested_commit : ℕ
  pub l1_observed_commit : ℕ
  pub l1_finalized_commit : ℕ
  pub undelegation : ℕ
  pub restoration : ℕ

pub data Message : Type 0 where
  cannot_delegate cannot_observe_er cannot_accept_trade cannot_schedule cannot_observe_commit
        cannot_finalize cannot_undelegate cannot_begin_restoration cannot_complete_restoration
        not_in_error unexpected_undelegating :
      Status → Message
  er_not_advanced commit_not_advanced observed_mismatch finalized_mismatch : ℕ → ℕ → Message
  undelegation_not_advanced restoration_not_advanced unrecognized_status : ℕ → Message

pub record ExecutionState : Type 0 where
  pub status : Status
  pub sequences : Sequences
  pub error : Option Message

abbrev pub initial_sequences : Sequences
initial_sequences = record {
  er_event = 0;
  er_market_state = 0;
  requested_commit = 0;
  l1_observed_commit = 0;
  l1_finalized_commit = 0;
  undelegation = 0;
  restoration = 0;
}

abbrev pub initial_execution_state : ExecutionState
initial_execution_state = record { status = l1_only; sequences = initial_sequences; error = none }

-- `===` on statuses, by their places in the list.
abbrev pub ordinal : Status → ℕ
ordinal l1_only = 0
ordinal delegating = 1
ordinal er_active = 2
ordinal er_accepted = 3
ordinal commit_scheduled = 4
ordinal commit_observed_on_l1 = 5
ordinal commit_finalized = 6
ordinal undelegating = 7
ordinal restoration_pending = 8
ordinal restored = 9
ordinal reconciliation_error = 10

abbrev pub is : Status → Status → Bool
is a b = ordinal a == ordinal b

-- `[...].includes(status)`.
abbrev pub includes : List Status → Status → Bool
includes [] s = false
includes (t ∷ ts) s = is s t || includes ts s

unfoldable pub error_state : ExecutionState → Message → ExecutionState
error_state state message = record state { status = reconciliation_error; error = some message }

-- `{ status, sequences }`: a fresh object, with no error.
abbrev pub moved : Status → Sequences → ExecutionState
moved s q = record { status = s; sequences = q; error = none }

unfoldable pub begin_delegation : ExecutionState → ExecutionState
unfolding error_state
begin_delegation state =
    if not (is state.status l1_only) && not (is state.status restored)
    then error_state state (cannot_delegate state.status)
    else moved delegating state.sequences

unfoldable pub observe_er_active : ExecutionState → ExecutionState
unfolding error_state
observe_er_active state =
    if not (is state.status delegating) && not (is state.status er_active)
    then error_state state (cannot_observe_er state.status)
    else moved er_active state.sequences

unfoldable pub accept_er_trade : ExecutionState → ℕ → ExecutionState
unfolding error_state
accept_er_trade state er_sequence =
    if not (includes (er_active ∷ er_accepted ∷ commit_finalized ∷ []) state.status)
    then error_state state (cannot_accept_trade state.status)
    else if leb er_sequence q.er_event
    then error_state state (er_not_advanced er_sequence q.er_event)
    else moved er_accepted (record q { er_event = er_sequence; er_market_state = er_sequence })
  where
    open state use {sequences as q}

unfoldable pub schedule_commit : ExecutionState → ℕ → ExecutionState
unfolding error_state
schedule_commit state commit_sequence =
    if not (includes (er_active ∷ er_accepted ∷ commit_finalized ∷ []) state.status)
    then error_state state (cannot_schedule state.status)
    else if leb commit_sequence q.requested_commit
    then error_state state (commit_not_advanced commit_sequence q.requested_commit)
    else moved commit_scheduled (record q { requested_commit = commit_sequence })
  where
    open state use {sequences as q}

unfoldable pub observe_commit_on_l1 : ExecutionState → ℕ → ExecutionState
unfolding error_state
observe_commit_on_l1 state observed_sequence =
    if not (is state.status commit_scheduled) && not (is state.status commit_observed_on_l1)
    then error_state state (cannot_observe_commit state.status)
    else if not (observed_sequence == q.requested_commit)
    then error_state state (observed_mismatch observed_sequence q.requested_commit)
    else if leb observed_sequence q.l1_observed_commit && is state.status commit_observed_on_l1
    then state
    else moved commit_observed_on_l1 (record q { l1_observed_commit = observed_sequence })
  where
    open state use {sequences as q}

unfoldable pub finalize_commit : ExecutionState → ℕ → ExecutionState
unfolding error_state
finalize_commit state finalized_sequence =
    if not (is state.status commit_observed_on_l1) && not (is state.status commit_finalized)
    then error_state state (cannot_finalize state.status)
    else if not (finalized_sequence == q.l1_observed_commit)
    then error_state state (finalized_mismatch finalized_sequence q.l1_observed_commit)
    else moved commit_finalized (record q { l1_finalized_commit = finalized_sequence })
  where
    open state use {sequences as q}

unfoldable pub begin_undelegation : ExecutionState → ℕ → ExecutionState
unfolding error_state
begin_undelegation state undelegation_sequence =
    if not (is state.status commit_finalized)
    then error_state state (cannot_undelegate state.status)
    else if leb undelegation_sequence q.undelegation
    then error_state state (undelegation_not_advanced undelegation_sequence)
    else moved undelegating (record q { undelegation = undelegation_sequence })
  where
    open state use {sequences as q}

unfoldable pub begin_restoration : ExecutionState → ExecutionState
unfolding error_state
begin_restoration state =
    if not (is state.status undelegating) && not (is state.status restoration_pending)
    then error_state state (cannot_begin_restoration state.status)
    else moved restoration_pending state.sequences

unfoldable pub complete_restoration : ExecutionState → ℕ → ExecutionState
unfolding error_state
complete_restoration state restoration_sequence =
    if not (is state.status restoration_pending)
    then error_state state (cannot_complete_restoration state.status)
    else if leb restoration_sequence q.restoration
    then error_state state (restoration_not_advanced restoration_sequence)
    else moved restored (record q { restoration = restoration_sequence })
  where
    open state use {sequences as q}

-- The target is `l1_only` or `restored`.
pub data SafeStatus : Type 0 where
  to_l1_only to_restored : SafeStatus

abbrev pub target : SafeStatus → Status
target to_l1_only = l1_only
target to_restored = restored

unfoldable pub recover_from_reconciliation_error : ExecutionState → SafeStatus → ExecutionState
unfolding error_state
recover_from_reconciliation_error state to =
    if not (is state.status reconciliation_error)
    then error_state state (not_in_error state.status)
    else moved (target to) state.sequences

unfoldable pub is_withdrawal_display_safe : ExecutionState → Bool
is_withdrawal_display_safe state =
    includes (l1_only ∷ commit_finalized ∷ restored ∷ []) state.status

unfoldable pub is_l1_committed : ExecutionState → Bool
is_l1_committed state =
    is state.status l1_only || is state.status commit_finalized || is state.status restored
