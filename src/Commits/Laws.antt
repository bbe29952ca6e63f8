-- ===== src/Commits/Laws.antt =====
-- Which ticks send a transaction.
use equinox.Prelude.{◌<◌, ◌≡◌, ◌↔◌, Bool, true, ◌||◌, arith}
use equinox.Commits.{
  CommitPolicyInputs, CommitAction, skip, observe_only, explicit_commit, commit_and_undelegate,
  decide_commit_action, explicit_trigger_reason,
}

-- A commit is sent, with or without an undelegation.
abbrev pub Sends : CommitAction → Type 0
Sends skip = ⊥
Sends observe_only = ⊥
Sends explicit_commit = Unit
Sends commit_and_undelegate = Unit

abbrev pub triggered : CommitPolicyInputs → Bool
triggered i =
    i.undelegation_planned
    || (i.market_just_halted_or_corp_action
        || (i.withdrawal_pending
            || (i.liquidation_just_happened
                || (i.funding_just_updated || i.open_interest_changed_materially))))

-- A commit is sent exactly if the market is delegated, the ER is ahead of what has been requested,
-- and one of the six triggers is up; and it undelegates exactly if that was planned.
pub commits_if_triggered :
    (i : CommitPolicyInputs)
    → let a = (decide_commit_action i).action in
      (Sends a ↔ (
        (i.is_delegated ≡ true)
        × (i.last_requested_sequence < i.current_er_sequence)
        × (triggered i ≡ true)))
      × ((a ≡ commit_and_undelegate) ↔ (Sends a × (i.undelegation_planned ≡ true)))
unfolding decide_commit_action explicit_trigger_reason
commits_if_triggered i = ground arith

-- After a request for the sequence that a tick saw, whether or not it succeeds, no tick sends
-- another one before the ER moves on, whatever the triggers are.
pub no_second_commit :
    (i later : CommitPolicyInputs)
    → later.last_requested_sequence ≡ i.current_er_sequence
    → later.current_er_sequence ≡ i.current_er_sequence
    → (decide_commit_action later).action ≡ skip
unfolding decide_commit_action
no_second_commit i later h k = ground arith
