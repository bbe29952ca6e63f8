-- ===== src/Execution/Reconcile/Settled.antt =====
-- Reconciliation settles in one tick: where it ends, the same readings change nothing more.
use equinox.Prelude.{
  ℕ, ◌<◌, ◌≤◌, ◌≡◌, refl, true, false, Option, none, some, arith, ◌⊎◌, inl, inr, Bool-cases, [],
  ◌∷◌,
}
use equinox.Execution.{
  l1_only, delegating, commit_finalized, restored, reconciliation_error, ExecutionState, is,
  includes, begin_delegation, observe_er_active, accept_er_trade, schedule_commit,
  observe_commit_on_l1, finalize_commit, begin_undelegation, begin_restoration,
  complete_restoration, is_withdrawal_display_safe,
}
use equinox.Execution.Reconcile.{
  DelegationFields, reconcile_commit_progress, reconcile_delegated, enter_er, accept_if_ahead,
  unless_error, reconcile_undelegating, reconcile_restored, bootstrap_from_l1, reconcile_from_l1,
}

-- The status belongs to a market that is on the ER or leaving it, or to an error.
abbrev IsEntered : ExecutionState → Type 0
IsEntered s = includes (l1_only ∷ restored ∷ delegating ∷ []) s.status ≡ false

abbrev InError : ExecutionState → Type 0
InError s = is s.status reconciliation_error ≡ true

abbrev HasAccepted : Option ℕ → ExecutionState → Type 0
HasAccepted none s = Unit
HasAccepted (some er) s = er ≤ s.sequences.er_event

enter_er-IsEntered : (s : ExecutionState) → IsEntered (enter_er s)
unfolding enter_er begin_delegation observe_er_active
enter_er-IsEntered s = ground arith

enter_er_of_IsEntered : (s : ExecutionState) → IsEntered s → enter_er s ≡ s
unfolding enter_er
enter_er_of_IsEntered s h = ground arith

accept_settles :
    (er : Option ℕ) (s : ExecutionState)
    → IsEntered s
    → let t = accept_if_ahead er s in IsEntered t × (InError t ⊎ HasAccepted er t)
unfolding accept_if_ahead accept_er_trade
accept_settles none s h = (h, inr tt)
accept_settles (some er) s h = ground arith

accept_of_HasAccepted :
    (er : Option ℕ) (s : ExecutionState) → HasAccepted er s → accept_if_ahead er s ≡ s
unfolding accept_if_ahead
accept_of_HasAccepted none s h = refl
accept_of_HasAccepted (some er) s h = ground arith

progress_settles :
    (s : ExecutionState) (l1 : DelegationFields)
    → IsEntered s
    → let t = reconcile_commit_progress s l1 in
      IsEntered t
      × (t.sequences.er_event ≡ s.sequences.er_event)
      × (InError t ⊎ l1.last_committed_sequence ≤ t.sequences.l1_finalized_commit)
unfolding reconcile_commit_progress schedule_commit observe_commit_on_l1 finalize_commit
progress_settles s l1 h = ground arith

progress_of_le :
    (s : ExecutionState) (l1 : DelegationFields)
    → l1.last_committed_sequence ≤ s.sequences.l1_finalized_commit
    → reconcile_commit_progress s l1 ≡ s
unfolding reconcile_commit_progress
progress_of_le s l1 h = ground arith

-- Where a tick on a delegated market ends: in an error, or with both readings taken in.
record Settled (l1 : DelegationFields) (er : Option ℕ) (s : ExecutionState) : Type 0 where
  entered : IsEntered s
  taken :
      InError s
      ⊎ (HasAccepted er s × (l1.last_committed_sequence ≤ s.sequences.l1_finalized_commit))

settle_commit :
    (s : ExecutionState) (l1 : DelegationFields) (er : Option ℕ)
    → IsEntered s
    → InError s ⊎ HasAccepted er s
    → Settled l1 er (unless_error s (λ t. reconcile_commit_progress t l1))
settle_commit s l1 none h k = ground (arith, progress_settles s l1 h)
settle_commit s l1 (some er) h k = ground (arith, progress_settles s l1 h)

delegated-Settled :
    (s : ExecutionState) (l1 : DelegationFields) (er : Option ℕ)
    → Settled l1 er (reconcile_delegated s l1 er)
unfolding reconcile_delegated
delegated-Settled s l1 er =
    let t = enter_er s in
    let (entered, taken) = accept_settles er t (enter_er-IsEntered s) in
    elim (Bool-cases (is t.status reconciliation_error)) [
      | inl e ↦ rw e (record { entered = enter_er-IsEntered s; taken = inl e })
      | inr e ↦ rw e (settle_commit (accept_if_ahead er t) l1 er entered taken)
    ]

delegated_of_Settled :
    (s : ExecutionState) (l1 : DelegationFields) (er : Option ℕ)
    → Settled l1 er s
    → reconcile_delegated s l1 er ≡ s
unfolding reconcile_delegated
delegated_of_Settled s l1 er h = rw (enter_er_of_IsEntered s h.entered) (elim h.taken [
  | inl e ↦ rw e refl
  | inr (a, b) ↦ rw (accept_of_HasAccepted er s a, progress_of_le s l1 b) (ground arith)
])

-- Two records show the same: their error messages may differ.
pub record SameView (s t : ExecutionState) : Type 0 where
  pub same_status : s.status ≡ t.status
  pub same_sequences : s.sequences ≡ t.sequences

undelegating_twice :
    (s : ExecutionState) (l1 : DelegationFields)
    → let t = reconcile_undelegating s l1 in SameView (reconcile_undelegating t l1) t
unfolding reconcile_undelegating begin_undelegation
undelegating_twice s l1 = ground arith

restored_twice :
    (s : ExecutionState) (l1 : DelegationFields)
    → let t = reconcile_restored s l1 in SameView (reconcile_restored t l1) t
unfolding reconcile_restored begin_restoration complete_restoration
restored_twice s l1 = ground arith

-- Outside the first observation, so for two ticks of which neither is the first: after one tick, a
-- second tick with the same readings shows the same status and sequences.
pub reconcile_twice :
    (s : ExecutionState) (l1 : DelegationFields) (er : Option ℕ)
    → let t = reconcile_from_l1 s l1 er false in SameView (reconcile_from_l1 t l1 er false) t
unfolding reconcile_from_l1
reconcile_twice s l1 er = ground (
  arith,
  delegated_of_Settled (reconcile_delegated s l1 er) l1 er (delegated-Settled s l1 er),
  undelegating_twice s l1,
  restored_twice s l1,
)

bootstrap_delegated-Settled :
    (l1 : DelegationFields) (er : Option ℕ)
    → l1.delegation_status ≡ 1
    → Settled l1 er (bootstrap_from_l1 l1 er)
unfolding bootstrap_from_l1
bootstrap_delegated-Settled l1 none d = ground arith
bootstrap_delegated-Settled l1 (some er) d = ground arith

bootstrap_undelegating :
    (l1 : DelegationFields) (er : Option ℕ)
    → l1.delegation_status ≡ 2
    → let t = bootstrap_from_l1 l1 er in reconcile_undelegating t l1 ≡ t
unfolding bootstrap_from_l1 reconcile_undelegating
bootstrap_undelegating l1 er d = rw d refl

bootstrap_restored :
    (l1 : DelegationFields) (er : Option ℕ)
    → l1.delegation_status ≡ 3
    → let t = bootstrap_from_l1 l1 er in reconcile_restored t l1 ≡ t
unfolding bootstrap_from_l1 reconcile_restored
bootstrap_restored l1 er d = rw d refl

known_status : (n : ℕ) → 0 < n → n ≤ 3 → (n ≡ 1) ⊎ ((n ≡ 2) ⊎ (n ≡ 3))
known_status n h k = omega arith

-- A first observation of a market with a known delegation status is settled at once: the next
-- tick with the same readings changes nothing.
pub bootstrap_settled :
    (l1 : DelegationFields) (er : Option ℕ) (s : ExecutionState)
    → 0 < l1.delegation_status
    → l1.delegation_status ≤ 3
    → let t = reconcile_from_l1 s l1 er true in reconcile_from_l1 t l1 er false ≡ t
unfolding reconcile_from_l1
bootstrap_settled l1 er s h k =
    let t = bootstrap_from_l1 l1 er in
    elim (known_status l1.delegation_status h k) [
      | inl d ↦ ground (arith, delegated_of_Settled t l1 er (bootstrap_delegated-Settled l1 er d))
      | inr (inl d) ↦ ground (arith, bootstrap_undelegating l1 er d)
      | inr (inr d) ↦ ground (arith, bootstrap_restored l1 er d)
    ]

-- A market that the L1 account calls delegated is shown as safe to withdraw from only as
-- `commit_finalized`, with every commit that the L1 account has recorded finalized.
pub delegated_safe_only_if_finalized :
    (s : ExecutionState) (l1 : DelegationFields) (er : Option ℕ)
    → l1.delegation_status ≡ 1
    → is_withdrawal_display_safe (reconcile_from_l1 s l1 er false) ≡ true
    → let t = reconcile_from_l1 s l1 er false in
      (t.status ≡ commit_finalized) × (l1.last_committed_sequence ≤ t.sequences.l1_finalized_commit)
unfolding reconcile_from_l1 is_withdrawal_display_safe
delegated_safe_only_if_finalized s l1 er d safe =
    let settled = delegated-Settled s l1 er in ground (arith, settled.entered, settled.taken)
