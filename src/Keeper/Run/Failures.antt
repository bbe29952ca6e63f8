-- ===== src/Keeper/Run/Failures.antt =====
-- What a failed run leaves in the dead letters, and what a later success clears.
use Prim.Native.String.{String}
use text.Mathlib.TextPositions.{eq_refl}
use equinox.Prelude.{ℕ, ◌+◌, ◌≡◌, true, Option, none, some, leb, if◌then◌else◌, arith, get_or}
use equinox.Store.{Error, Result, ok, err, Store, Action, DeadLetter, is_identifier}
use equinox.DeadLetters.{record_failure, give_up, resolve, attempts_of, retry_delay}
use equinox.Keeper.Run.{Request, run_durable_keeper, run_durable_keeper_with_dead_letter, year_ms}

-- When the next attempt is due, after a failure with so many attempts.
abbrev pub next_due : Option ℕ → ℕ → ℕ → ℕ
next_due max_attempts now attempts =
    if leb (get_or max_attempts 10) attempts then now + year_ms else now + retry_delay attempts

-- The row of a failure.
pub record IsFailure (e : Error) (attempts due : ℕ) (row : DeadLetter) : Type 0 where
  pub same_error : row.error ≡ e
  pub same_attempts : row.attempts ≡ attempts
  pub same_due : row.next_attempt_at ≡ due

abbrev pub RowIs : (DeadLetter → Type 0) → Option DeadLetter → Type 0
RowIs P none = ⊥
RowIs P (some row) = P row

module _ {A : Type 0} where
  -- What the dead letter is after an outcome, from the number of attempts before.
  abbrev pub Kept : Option ℕ → ℕ → ℕ → Result A → Option DeadLetter → Type 0
  Kept max_attempts now before (ok v) row = row ≡ none
  Kept max_attempts now before (err e) row =
      RowIs (IsFailure e (before + 1) (next_due max_attempts now (before + 1))) row

  -- A run that returns clears the dead letter. A run that throws passes the error on and records
  -- it, one attempt more than before, due again after the backoff, or after a year once the
  -- attempts are used up. The two keys are valid identifiers.
  pub dead_letter-Kept :
      (request : Request A) (id : String) (max_attempts : Option ℕ) (work : Action A A)
      (s : Store A)
      → is_identifier id ≡ true
      → is_identifier request.lease_key ≡ true
      → let (r, t) = run_durable_keeper request work s in
        let (r', t') = run_durable_keeper_with_dead_letter request id max_attempts work s in
        (r' ≡ r)
        × Kept max_attempts request.now (attempts_of (t.dead_letters id)) r (t'.dead_letters id)
  unfolding run_durable_keeper_with_dead_letter record_failure give_up resolve
  dead_letter-Kept request id max_attempts work s h k = ground (arith, eq_refl id)
