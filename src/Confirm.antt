-- ===== src/Confirm.antt =====
-- Waiting for a transaction and retrying a call, workers/src/chain-transports.ts: the polls of
-- `confirmTransaction` and the attempts of `withRetry`.
--
-- What the RPC node answers and what the clock shows are parameters, one reading for each round of
-- the loop. The loop of the polls is on fuel; the classification of an error by its message is a
-- parameter.
pub mod Polls
pub mod Attempts
use equinox.Prelude.{
  ℕ, zero, suc, ◌+◌, ◌*◌, Bool, true, false, not, Option, none, some, List, [], ◌∷◌, ◌++◌, ltb, leb,
  ◌==◌, if◌then◌else◌,
}
use equinox.Prelude.Int.{ℤ, pos, negsuc}
use equinox.DeadLetters.{retry_delay}

pub data Commitment : Type 0 where
  processed confirmed finalized : Commitment

-- `COMMITMENT_RANK`.
abbrev pub rank : Commitment → ℕ
rank processed = 0
rank confirmed = 1
rank finalized = 2

-- `targetCommitment`, which is never `processed`, and its rank.
pub data Target : Type 0 where
  to_confirmed to_finalized : Target

abbrev pub target_rank : Target → ℕ
target_rank to_confirmed = 1
target_rank to_finalized = 2

-- An answer of the node, or the error that the call throws.
pub data Reply (A : Type 0) : Type 0 where
  replied : A → Reply A
  thrown : Reply A

pub record SignatureStatus : Type 0 where
  pub failed : Bool
  pub confirmation_status : Option Commitment

-- What one round reads: the clock at its test, the status, and the block height where it is asked.
pub record Poll : Type 0 where
  pub clock : ℕ
  pub status : Reply (Option SignatureStatus)
  pub block_height : Reply ℕ

pub data Outcome : Type 0 where
  reached : Commitment → Outcome
  transaction_failed blockhash_expired timeout rejected : Outcome

pub record ConfirmOptions : Type 0 where
  pub target_commitment : Target
  pub last_valid_block_height : ℕ
  pub poll_interval_ms : ℕ
  pub timeout_ms : ℕ

abbrev pub reached_commitment : Commitment → Outcome
reached_commitment finalized = reached finalized
reached_commitment _ = reached confirmed

-- A status in a round, its `err` and its commitment; `none` polls again.
abbrev pub landed : ConfirmOptions → (failed : Bool) → Option Commitment → Option Outcome
landed options true c = some transaction_failed
landed options false none = none
landed options false (some c) =
    if leb (target_rank options.target_commitment) (rank c)
    then some (reached_commitment c)
    else none

abbrev pub not_observed : ConfirmOptions → Reply ℕ → Option Outcome
not_observed options thrown = some rejected
not_observed options (replied height) =
    if ltb options.last_valid_block_height height then some blockhash_expired else none

abbrev pub observed : ConfirmOptions → Reply (Option SignatureStatus) → Reply ℕ → Option Outcome
observed options thrown height = some rejected
observed options (replied (some status)) height =
    landed options status.failed status.confirmation_status
observed options (replied none) height = not_observed options height

-- The outcome of a round, if it is the last.
unfoldable pub poll_once : ConfirmOptions → (deadline : ℕ) → Poll → Option Outcome
poll_once options deadline poll =
    if ltb poll.clock deadline then observed options poll.status poll.block_height else some timeout

-- `return` in a round, or the rounds after it.
abbrev pub returned_or : Option Outcome → Option Outcome → Option Outcome
returned_or none rest = rest
returned_or (some outcome) rest = some outcome

-- The loop from round i on. `none` is out of fuel.
unfoldable pub confirm_from :
    ConfirmOptions → (deadline : ℕ) → (polls : ℕ → Poll) → (fuel : ℕ) → (i : ℕ) → Option Outcome
confirm_from options deadline polls zero i = none
confirm_from options deadline polls (suc fuel) i =
    let rest = confirm_from options deadline polls fuel (i + 1) in
    returned_or (poll_once options deadline (polls i)) rest

-- `confirmTransaction`, started at a time.
unfoldable pub confirm_transaction :
    ConfirmOptions → (started : ℕ) → (polls : ℕ → Poll) → (fuel : ℕ) → Option Outcome
confirm_transaction options started polls fuel =
    confirm_from options (started + options.timeout_ms) polls fuel 0

pub data ErrorClass : Type 0 where
  retryable permanent unknown : ErrorClass

abbrev pub is_retryable : ErrorClass → Bool
is_retryable retryable = true
is_retryable _ = false

-- An attempt: its value or its error.
pub data Attempt (A E : Type 0) : Type 0 where
  success : A → Attempt A E
  error : E → Attempt A E

-- What came of the attempts: the result of the last, or `none` where there was none and `undefined`
-- is thrown; how many there were and the waits between.
pub record Tried (A E : Type 0) : Type 0 where
  pub result : Option (Attempt A E)
  pub calls : ℕ
  pub waits : List ℕ

module _ {A E : Type 0} (classify : E → ErrorClass) (operation : ℕ → Attempt A E) where
  abbrev pub settles : (last : Bool) → Attempt A E → Bool
  settles last (success a) = true
  settles last (error e) = if last then true else not (is_retryable (classify e))

  -- The loop from an attempt on, with the number of attempts left after it.
  unfoldable pub attempts_from : (left attempt : ℕ) → List ℕ → Tried A E
  attempts_from zero attempt waits = record {
    result = some (operation attempt);
    calls = attempt;
    waits = waits;
  }
  attempts_from (suc left) attempt waits =
      let rest = attempts_from left (attempt + 1) (waits ++ retry_delay attempt ∷ []) in
      if settles false (operation attempt)
      then record { result = some (operation attempt); calls = attempt; waits = waits }
      else rest

  -- `withRetry`: the loop is not entered where the maximum is below 1.
  unfoldable pub with_retry : (max_attempts : ℤ) → Tried A E
  with_retry (pos (suc more)) = attempts_from more 1 []
  with_retry (pos zero) = record { result = none; calls = 0; waits = [] }
  with_retry (negsuc n) = record { result = none; calls = 0; waits = [] }
