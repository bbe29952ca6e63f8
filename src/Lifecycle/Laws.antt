-- ===== src/Lifecycle/Laws.antt =====
-- What holds after any events.
use equinox.Prelude.{ℕ, ◌≡◌, Bool, Option, none, some, List, [], ◌∷◌, arith, ◌||◌, if◌then◌else◌}
use equinox.Lifecycle.{
  ExecutionPhase, LifecycleEvent, LifecycleState, initial_lifecycle_state, transition, failed,
  delegated, commit_pending, undelegating, withdraw_ready, same_phase,
}

-- The events with the times at which they are handled.
abbrev pub handle_all : List (ℕ × LifecycleEvent) → LifecycleState → LifecycleState
handle_all [] s = s
handle_all (e ∷ es) s = handle_all es (transition e.0 s e.1)

abbrev trades : ExecutionPhase → Bool
trades p = same_phase p delegated || (same_phase p commit_pending || same_phase p undelegating)

abbrev Expires : Option ℕ → Type 0
Expires none = ⊥
Expires (some t) = Unit

-- While the session trades it has an expiry, on the way to a withdrawal both sequences agree, and
-- an error is shown exactly in the failed phase.
pub record IsConsistent (s : LifecycleState) : Type 0 where
  pub expires : if trades s.phase then Expires s.session_expires_at else Unit
  pub agrees : if same_phase s.phase withdraw_ready then s.l1_sequence ≡ s.er_sequence else Unit
  pub shows : s.has_error ≡ same_phase s.phase failed

transition-IsConsistent :
    (now : ℕ) (s : LifecycleState) (e : LifecycleEvent)
    → IsConsistent s
    → IsConsistent (transition now s e)
unfolding transition
transition-IsConsistent now s e h = ground arith

-- After any events, in any order and at any times, from a consistent state, the state is
-- consistent.
pub handle_all-IsConsistent :
    (es : List (ℕ × LifecycleEvent)) (s : LifecycleState)
    → IsConsistent s
    → IsConsistent (handle_all es s)
handle_all-IsConsistent [] s h = h
handle_all-IsConsistent (e ∷ es) s h =
    handle_all-IsConsistent es (transition e.0 s e.1) (transition-IsConsistent e.0 s e.1 h)

pub initial-IsConsistent : IsConsistent initial_lifecycle_state
initial-IsConsistent = ground arith
