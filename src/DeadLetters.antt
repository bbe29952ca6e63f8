-- ===== src/DeadLetters.antt =====
-- `DeadLetterRepository` of workers/src/repositories.ts and `retryDelay` of workers/src/backoff.ts:
-- what failed, how often, and when to try again.
pub mod Backoff
use Prim.Native.Nat.{min}
use Prim.Native.String.{String}
use text.Mathlib.Text.{◌==◌ as str_eq}
use equinox.Prelude.{ℕ, ◌+◌, ◌-◌, ◌*◌, ◌^◌, Option, none, some}
use equinox.Store.{
  Error, Result, ok, err, put, DeadLetter, Store, Action, pure, ◌>>=◌, ◌>>◌, identifier,
}

-- `Math.max(0, attempt - 1)` is the truncated difference.
unfoldable pub retry_delay_from : ℕ → ℕ → ℕ → ℕ
retry_delay_from attempt base_ms max_ms = min max_ms (base_ms * 2 ^ (attempt - 1))

-- With the default arguments.
unfoldable pub retry_delay : ℕ → ℕ
unfolding retry_delay_from
retry_delay attempt = retry_delay_from attempt 250 30000

-- `existing?.attempts ?? 0`
abbrev pub attempts_of : Option DeadLetter → ℕ
attempts_of none = 0
attempts_of (some row) = row.attempts

abbrev pub first_seen : ℕ → Option DeadLetter → ℕ
first_seen now none = now
first_seen now (some row) = row.created_at

abbrev pub postpone : ℕ → Option DeadLetter → Option DeadLetter
postpone until none = none
postpone until (some row) = some (record row { next_attempt_at = until })

module _ {A : Type 0} where
  -- `record`, which returns the number of attempts (and the time of the next, that no caller reads).
  unfoldable pub record_failure : String → String → String → Error → ℕ → Action A ℕ
  record_failure id operation payload error now = do
    identifier id
    identifier operation
    λ s.
        let attempts = attempts_of (s.dead_letters id) + 1 in
        (
          ok attempts,
          record s {
            dead_letters =
                put id
                  (some (record {
                    operation = operation;
                    payload = payload;
                    error = error;
                    attempts = attempts;
                    next_attempt_at = now + retry_delay attempts;
                    created_at = first_seen now (s.dead_letters id);
                  }))
                  s.dead_letters;
          },
        )

  unfoldable pub resolve : String → Action A (Unit {0})
  resolve id s = (ok tt, record s { dead_letters = put id none s.dead_letters })

  unfoldable pub give_up : String → ℕ → Action A (Unit {0})
  give_up id until s = (
    ok tt,
    record s { dead_letters = put id (postpone until (s.dead_letters id)) s.dead_letters },
  )
