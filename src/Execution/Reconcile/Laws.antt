-- ===== src/Execution/Reconcile/Laws.antt =====
-- What reconciliation keeps: the order of the sequences and their monotonicity.
use equinox.Prelude.{
  ℕ, ◌≤◌, ◌≡◌, refl, Bool, true, false, Option, none, some, arith, ◌⊎◌, inl, inr, Bool-cases,
}
use equinox.Execution.{
  reconciliation_error, Sequences, ExecutionState, is, begin_delegation, observe_er_active,
  accept_er_trade, schedule_commit, observe_commit_on_l1, finalize_commit, begin_undelegation,
  begin_restoration, complete_restoration,
}
use equinox.Execution.Reconcile.{
  DelegationFields, reconcile_commit_progress, reconcile_delegated, enter_er, accept_if_ahead,
  unless_error, reconcile_undelegating, reconcile_restored, bootstrap_from_l1, reconcile_from_l1,
}

-- No commit is observed above the last one that was requested, or none is on its way; no commit is
-- finalized that was not observed, and both ER sequences agree.
pub record IsOrdered (q : Sequences) : Type 0 where
  pub finalized_le_observed : q.l1_finalized_commit ≤ q.l1_observed_commit
  pub requested_or_settled :
      (q.l1_observed_commit ≤ q.requested_commit) ⊎ (q.l1_observed_commit ≡ q.l1_finalized_commit)
  pub one_er_sequence : q.er_market_state ≡ q.er_event

-- No sequence goes back.
pub record Advances (p q : Sequences) : Type 0 where
  pub er_event_le : p.er_event ≤ q.er_event
  pub er_market_state_le : p.er_market_state ≤ q.er_market_state
  pub requested_le : p.requested_commit ≤ q.requested_commit
  pub observed_le : p.l1_observed_commit ≤ q.l1_observed_commit
  pub finalized_le : p.l1_finalized_commit ≤ q.l1_finalized_commit
  pub undelegation_le : p.undelegation ≤ q.undelegation
  pub restoration_le : p.restoration ≤ q.restoration

-- No commit is observed above the last one that was requested.
abbrev pub IsRequested : Sequences → Type 0
IsRequested q = q.l1_observed_commit ≤ q.requested_commit

abbrev pub Keeps : ExecutionState → ExecutionState → Type 0
Keeps s t =
    IsOrdered t.sequences
    × Advances s.sequences t.sequences
    × (IsRequested s.sequences → IsRequested t.sequences)

Keeps-trans : (s t u : ExecutionState) → Keeps s t → (IsOrdered t.sequences → Keeps t u) → Keeps s u
Keeps-trans s t u h k = let m = k h.0 in omega arith

progress-Keeps :
    (s : ExecutionState) (l1 : DelegationFields)
    → IsOrdered s.sequences
    → Keeps s (reconcile_commit_progress s l1)
unfolding reconcile_commit_progress schedule_commit observe_commit_on_l1 finalize_commit
progress-Keeps s l1 h = ground arith

enter_er-Keeps : (s : ExecutionState) → IsOrdered s.sequences → Keeps s (enter_er s)
unfolding enter_er begin_delegation observe_er_active
enter_er-Keeps s h = ground arith

accept-Keeps :
    (er : Option ℕ) (s : ExecutionState) → IsOrdered s.sequences → Keeps s (accept_if_ahead er s)
unfolding accept_if_ahead accept_er_trade
accept-Keeps none s h = omega arith
accept-Keeps (some er) s h = ground arith

unless_error-Keeps :
    (s t : ExecutionState) (rest : ExecutionState → ExecutionState)
    → Keeps s t
    → (IsOrdered t.sequences → Keeps t (rest t))
    → Keeps s (unless_error t rest)
unless_error-Keeps s t rest h k = elim (Bool-cases (is t.status reconciliation_error)) [
  | inl e ↦ rw e h
  | inr e ↦ rw e (Keeps-trans s t (rest t) h k)
]

delegated-Keeps :
    (s : ExecutionState) (l1 : DelegationFields) (er : Option ℕ)
    → IsOrdered s.sequences
    → Keeps s (reconcile_delegated s l1 er)
unfolding reconcile_delegated
delegated-Keeps s l1 er h =
    let commit = λ (t : ExecutionState). reconcile_commit_progress t l1 in
    let rest = λ (t : ExecutionState). unless_error (accept_if_ahead er t) commit in
    unless_error-Keeps s (enter_er s) rest (enter_er-Keeps s h) λ h'.
      unless_error-Keeps (enter_er s) (accept_if_ahead er (enter_er s)) commit
        (accept-Keeps er (enter_er s) h') (progress-Keeps (accept_if_ahead er (enter_er s)) l1)

undelegating-Keeps :
    (s : ExecutionState) (l1 : DelegationFields)
    → IsOrdered s.sequences
    → Keeps s (reconcile_undelegating s l1)
unfolding reconcile_undelegating begin_undelegation
undelegating-Keeps s l1 h = ground arith

restored-Keeps :
    (s : ExecutionState) (l1 : DelegationFields)
    → IsOrdered s.sequences
    → Keeps s (reconcile_restored s l1)
unfolding reconcile_restored begin_restoration complete_restoration
restored-Keeps s l1 h = ground arith

first-IsOrdered :
    (s : ExecutionState) (l1 : DelegationFields) (er : Option ℕ)
    → IsOrdered s.sequences
    → IsOrdered (reconcile_from_l1 s l1 er true).sequences
unfolding reconcile_from_l1 bootstrap_from_l1
first-IsOrdered s l1 er h = ground arith

-- From a state in which the finalized commit is not above the observed one, which is finalized or
-- not above the requested one, and in which the two ER sequences agree, a first observation leads to
-- such a state again, and so does any other tick, which moves no sequence back; and if the observed
-- commit was not above the requested one before that other tick, it is not above it after.
pub reconcile_from_l1-Keeps :
    (s : ExecutionState) (l1 : DelegationFields) (er : Option ℕ)
    → IsOrdered s.sequences
    → IsOrdered (reconcile_from_l1 s l1 er true).sequences
      × Keeps s (reconcile_from_l1 s l1 er false)
unfolding reconcile_from_l1
reconcile_from_l1-Keeps s l1 er h = (
  first-IsOrdered s l1 er h,
  ground (arith, delegated-Keeps s l1 er h, undelegating-Keeps s l1 h, restored-Keeps s l1 h),
)

progress_from_l1 :
    (s : ExecutionState) (l1 : DelegationFields)
    → let f = (reconcile_commit_progress s l1).sequences.l1_finalized_commit in
      (f ≡ s.sequences.l1_finalized_commit) ⊎ (f ≡ l1.last_committed_sequence)
unfolding reconcile_commit_progress schedule_commit observe_commit_on_l1 finalize_commit
progress_from_l1 s l1 = ground arith

accept_if_ahead-finalized :
    (er : Option ℕ) (s : ExecutionState)
    → (accept_if_ahead er s).sequences.l1_finalized_commit ≡ s.sequences.l1_finalized_commit
unfolding accept_if_ahead accept_er_trade
accept_if_ahead-finalized none s = refl
accept_if_ahead-finalized (some er) s = ground arith

enter_er-finalized :
    (s : ExecutionState)
    → (enter_er s).sequences.l1_finalized_commit ≡ s.sequences.l1_finalized_commit
unfolding enter_er begin_delegation observe_er_active
enter_er-finalized s = ground arith

delegated_from_l1 :
    (s : ExecutionState) (l1 : DelegationFields) (er : Option ℕ)
    → let f = (reconcile_delegated s l1 er).sequences.l1_finalized_commit in
      (f ≡ s.sequences.l1_finalized_commit) ⊎ (f ≡ l1.last_committed_sequence)
unfolding reconcile_delegated
delegated_from_l1 s l1 er = ground (
  arith,
  enter_er-finalized s,
  accept_if_ahead-finalized er (enter_er s),
  progress_from_l1 (accept_if_ahead er (enter_er s)) l1,
)

-- Only the L1 account moves the finalized commit: on every branch it stays, or it becomes the L1
-- account's last committed sequence. The ER reading never enters it.
pub finalized_from_l1 :
    (s : ExecutionState) (l1 : DelegationFields) (er : Option ℕ) (first : Bool)
    → let f = (reconcile_from_l1 s l1 er first).sequences.l1_finalized_commit in
      (f ≡ s.sequences.l1_finalized_commit) ⊎ (f ≡ l1.last_committed_sequence)
unfolding reconcile_from_l1 bootstrap_from_l1 reconcile_undelegating begin_undelegation
    reconcile_restored begin_restoration complete_restoration
finalized_from_l1 s l1 er true = ground (arith, delegated_from_l1 s l1 er)
finalized_from_l1 s l1 er false = ground (arith, delegated_from_l1 s l1 er)
