-- ===== src/Commits.antt =====
-- When the commit keeper asks for a commit: workers/src/commit-policy.ts. The reasons are those
-- of the source's texts.
pub mod Laws
use equinox.Prelude.{ℕ, Bool, true, false, Option, none, some, not, leb, if◌then◌else◌}

pub data CommitAction : Type 0 where
  skip observe_only explicit_commit commit_and_undelegate : CommitAction

pub record CommitPolicyInputs : Type 0 where
  pub is_delegated : Bool
  pub current_er_sequence : ℕ
  pub last_requested_sequence : ℕ
  pub last_confirmed_sequence : ℕ
  pub open_interest_changed_materially : Bool
  pub funding_just_updated : Bool
  pub liquidation_just_happened : Bool
  pub market_just_halted_or_corp_action : Bool
  pub withdrawal_pending : Bool
  pub undelegation_planned : Bool

pub data Reason : Type 0 where
  not_delegated nothing_new planned_undelegation halt withdrawal liquidation funding open_interest
        already_covered no_trigger :
      Reason

pub record CommitDecision : Type 0 where
  pub action : CommitAction
  pub reason : Reason

unfoldable pub explicit_trigger_reason : CommitPolicyInputs → Option Reason
explicit_trigger_reason inputs =
    if inputs.market_just_halted_or_corp_action
    then some halt
    else if inputs.withdrawal_pending
    then some withdrawal
    else if inputs.liquidation_just_happened
    then some liquidation
    else if inputs.funding_just_updated
    then some funding
    else if inputs.open_interest_changed_materially
    then some open_interest
    else none

abbrev pub without_undelegation : CommitPolicyInputs → Option Reason → CommitDecision
without_undelegation inputs (some reason) = record { action = explicit_commit; reason = reason }
without_undelegation inputs none =
    if leb inputs.current_er_sequence inputs.last_confirmed_sequence
    then record { action = observe_only; reason = already_covered }
    else record { action = skip; reason = no_trigger }

unfoldable pub decide_commit_action : CommitPolicyInputs → CommitDecision
unfolding explicit_trigger_reason
decide_commit_action inputs =
    if not inputs.is_delegated
    then record { action = skip; reason = not_delegated }
    else if leb inputs.current_er_sequence inputs.last_requested_sequence
    then record { action = skip; reason = nothing_new }
    else if inputs.undelegation_planned
    then record { action = commit_and_undelegate; reason = planned_undelegation }
    else without_undelegation inputs (explicit_trigger_reason inputs)
