-- ===== src/Examples/Polling.antt =====
-- Waiting and retrying on small runs.
use equinox.Prelude.{
  ◌==◌, if◌then◌else◌, ℕ, zero, suc, ◌+◌, ◌*◌, ◌≡◌, refl, false, Option, none, some, arith,
}
use equinox.Prelude.Int.{pos}
use equinox.Confirm.{
  ConfirmOptions, Poll, Outcome, reached, confirmed, processed, to_confirmed, replied,
  confirm_transaction, poll_once, confirm_from, Attempt, success, error, ErrorClass, retryable,
  permanent, with_retry, SignatureStatus,
}
use equinox.Confirm.Polls.{Shown, confirm_transaction_ends, confirm_transaction-Shown}
use equinox.Confirm.Attempts.{Retried, with_retry-First}

abbrev each_second : ConfirmOptions
each_second = record {
  target_commitment = to_confirmed;
  last_valid_block_height = 900;
  poll_interval_ms = 1000;
  timeout_ms = 60000;
}

-- Not seen in the first round, processed in the second, confirmed from the third on.
abbrev seen_at : ℕ → Option SignatureStatus
seen_at zero = none
seen_at (suc zero) = some record { failed = false; confirmation_status = some processed }
seen_at (suc (suc n)) = some record { failed = false; confirmation_status = some confirmed }

abbrev landing : ℕ → Poll
landing i = record {
  clock = 500 + i * 1000;
  status = replied (seen_at i);
  block_height = replied 880;
}

confirm_transaction_ends_example :
    (o : Outcome) × (confirm_transaction each_second 500 landing (suc 60) ≡ some o)
confirm_transaction_ends_example =
    confirm_transaction_ends each_second 500 landing 60 (λ i. omega arith) (omega arith)
      (omega arith)

landing_confirmed : confirm_transaction each_second 500 landing 3 ≡ some (reached confirmed)
unfolding confirm_transaction confirm_from poll_once
landing_confirmed = refl

confirm_transaction-Shown_example :
    (j : ℕ) × Shown each_second 60500 (landing j) (reached confirmed)
confirm_transaction-Shown_example =
    confirm_transaction-Shown each_second 500 landing 3 landing_confirmed

abbrev class_of : ℕ → ErrorClass
class_of zero = permanent
class_of (suc code) = retryable

abbrev third_time : ℕ → Attempt ℕ ℕ
third_time attempt = if attempt == 3 then success 7 else error 429

with_retry-First_example :
    Retried class_of third_time (pos 3) (with_retry class_of third_time (pos 3))
with_retry-First_example = with_retry-First class_of third_time (pos 3)
