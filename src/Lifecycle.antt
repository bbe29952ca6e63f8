-- ===== src/Lifecycle.antt =====
-- The client's phases of a trading session, lib/lifecycle.ts. `now` is `Date.now()`; the error's
-- text is one.
pub mod Laws
use equinox.Prelude.{ℕ, ◌+◌, ◌*◌, Bool, true, false, Option, none, some, ◌==◌, if◌then◌else◌}

pub data ExecutionPhase : Type 0 where
  read_only deposit_pending funded_l1 session_pending delegated commit_pending undelegating
        withdraw_ready failed :
      ExecutionPhase

pub data LifecycleEvent : Type 0 where
  request_deposit confirm_deposit request_session confirm_delegation request_commit commit_confirmed
        request_undelegate undelegated withdraw fail reset :
      LifecycleEvent

pub record LifecycleState : Type 0 where
  pub phase : ExecutionPhase
  pub l1_sequence : ℕ
  pub er_sequence : ℕ
  pub session_expires_at : Option ℕ
  pub has_error : Bool

abbrev pub initial_lifecycle_state : LifecycleState
initial_lifecycle_state = record {
  phase = read_only;
  l1_sequence = 0;
  er_sequence = 0;
  session_expires_at = none;
  has_error = false;
}

abbrev pub number_of : ExecutionPhase → ℕ
number_of read_only = 0
number_of deposit_pending = 1
number_of funded_l1 = 2
number_of session_pending = 3
number_of delegated = 4
number_of commit_pending = 5
number_of undelegating = 6
number_of withdraw_ready = 7
number_of failed = 8

abbrev pub same_phase : ExecutionPhase → ExecutionPhase → Bool
same_phase a b = number_of a == number_of b

unfoldable pub transition : ℕ → LifecycleState → LifecycleEvent → LifecycleState
transition now state request_deposit =
    if same_phase state.phase read_only then record state { phase = deposit_pending } else state
transition now state confirm_deposit =
    if same_phase state.phase deposit_pending
    then record state { phase = funded_l1; l1_sequence = state.l1_sequence + 1 }
    else state
transition now state request_session =
    if same_phase state.phase funded_l1 then record state { phase = session_pending } else state
transition now state confirm_delegation =
    if same_phase state.phase session_pending
    then record state {
      phase = delegated;
      er_sequence = state.er_sequence + 1;
      session_expires_at = some (now + 15 * 60000);
    }
    else state
transition now state request_commit =
    if same_phase state.phase delegated then record state { phase = commit_pending } else state
transition now state commit_confirmed =
    if same_phase state.phase commit_pending
    then record state { phase = delegated; l1_sequence = state.er_sequence }
    else state
transition now state request_undelegate =
    if same_phase state.phase delegated then record state { phase = undelegating } else state
transition now state undelegated =
    if same_phase state.phase undelegating
    then record state {
      phase = withdraw_ready;
      l1_sequence = state.er_sequence;
      session_expires_at = none;
    }
    else state
transition now state withdraw =
    if same_phase state.phase withdraw_ready
    then record initial_lifecycle_state {
      l1_sequence = state.l1_sequence + 1;
      er_sequence = state.er_sequence + 1;
    }
    else state
transition now state fail = record state { phase = failed; has_error = true }
transition now state reset = initial_lifecycle_state
