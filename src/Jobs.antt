-- ===== src/Jobs.antt =====
-- The ticks of workers/src/keeper-jobs.ts: sending and recording a transaction, the ticks
-- of the Pyth, the commit and the cleanup keeper, for one market.
--
-- The identifier of an attempt is the keeper, the market and a number; the attempts of one keeper on
-- one market are rows by that number. Whether the node takes a transaction, and the outcome of
-- waiting for it, are arguments, as is whether the durable keeper admits the work (Keeper/Run). The
-- build of a transaction, which may throw, is a parameter.
pub mod Stuck
pub mod Asked
pub mod Applied
use Prim.Native.Nat.{min}
use equinox.Prelude.{
  ℕ, ◌+◌, ◌-◌, Bool, true, false, Option, none, some, is_some, get_or, List, [], ◌∷◌, not, leb, ltb,
  ◌==◌, if◌then◌else◌,
}
use equinox.Prelude.Int.{ℤ, pos, ◌-ℤ◌}
use equinox.Confirm.{
  Outcome, reached, transaction_failed, blockhash_expired, timeout, rejected, Commitment, processed,
  finalized,
}
use equinox.Records
use equinox.Records.{
  OracleUpdate, UpdateStatus, already_applied, record_update, CommitRecord, CommitStatus, requested,
  committed, last_requested_sequence, record_commit,
}

pub data AttemptStatus : Type 0 where
  submitted confirmed_attempt finalized_attempt failed_attempt expired timed_out : AttemptStatus

abbrev pub Attempts : Type 0
Attempts = List (ℕ × AttemptStatus)

abbrev pub find : Attempts → ℕ → Option AttemptStatus
find [] id = none
find ((i, status) ∷ rows) id = if i == id then some status else find rows id

-- `resolvedStatus`; `none` where `confirmTransaction` threw.
abbrev pub resolved_status : Outcome → Option AttemptStatus
resolved_status (reached finalized) = some finalized_attempt
resolved_status (reached c) = some confirmed_attempt
resolved_status transaction_failed = some failed_attempt
resolved_status blockhash_expired = some expired
resolved_status timeout = some timed_out
resolved_status rejected = none

-- `outcomeError` is null.
abbrev pub is_reached : Outcome → Bool
is_reached (reached c) = true
is_reached _ = false

-- Whether the transaction went out, whether the call returned, and the rows after it.
pub record Submission : Type 0 where
  pub sent : Bool
  pub returned : Bool
  pub rows : Attempts

-- `submitAndConfirm`. The insert of `submitted` throws on an identifier that has a row.
unfoldable pub submit_and_confirm : (id : ℕ) → (accepted : Bool) → Outcome → Attempts → Submission
submit_and_confirm id accepted outcome rows =
    if not accepted
    then record { sent = false; returned = false; rows = rows }
    else if is_some (find rows id)
    then record { sent = true; returned = false; rows = rows }
    else record {
      sent = true;
      returned = is_reached outcome;
      rows = (id, get_or (resolved_status outcome) submitted) ∷ rows;
    }

-- What a tick meets.
pub record Circumstances : Type 0 where
  pub admitted : Bool
  pub accepted : Bool
  pub outcome : Outcome

pub record CommitTick : Type 0 where
  pub now : ℕ
  pub last_commit_tick_at : ℕ
  pub current_er_sequence : ℕ
  pub commit_circumstances : Circumstances

-- The commit records and attempts of a market, and the sequences asked for so far, newest first.
pub record CommitState : Type 0 where
  pub commits : List CommitRecord
  pub attempts : Attempts
  pub asked : List ℕ

-- The work of the commit tick for a sequence.
unfoldable pub commit_work : ℕ → Circumstances → CommitState → CommitState
commit_work sequence met s =
    let noted = record_commit (record { sequence = sequence; status = requested }) s.commits in
    let submission = submit_and_confirm sequence met.accepted met.outcome s.attempts in
    record {
      commits =
          if submission.returned
          then record_commit (record { sequence = sequence; status = committed }) noted
          else noted;
      attempts = submission.rows;
      asked = sequence ∷ s.asked;
    }

-- `runMagicBlockCommitKeeperTick`, with the 30 seconds of MIN_COMMIT_TICK_MS.
unfoldable pub run_commit_tick : CommitTick → CommitState → CommitState
run_commit_tick tick s =
    let last = last_requested_sequence s.commits in
    if ltb (tick.now - tick.last_commit_tick_at) 30000
    then s
    else if leb tick.current_er_sequence last
    then s
    else if tick.commit_circumstances.admitted
    then commit_work (last + 1) tick.commit_circumstances s
    else s

abbrev pub run_commit_ticks : List CommitTick → CommitState → CommitState
run_commit_ticks [] s = s
run_commit_ticks (tick ∷ ticks) s = run_commit_ticks ticks (run_commit_tick tick s)

pub record CleanupTick : Type 0 where
  pub book_size : ℕ
  pub cleanup_circumstances : Circumstances

pub record CleanupState : Type 0 where
  pub cursor : Option ℕ
  pub cleanups : Attempts

-- A tick of the Pyth keeper: the source's update, if there is one, as its row; and whether the
-- blockhash was fetched and the transaction built.
pub record PythTick : Type 0 where
  pub update : Option OracleUpdate
  pub prepared : Bool
  pub pyth_circumstances : Circumstances

-- The rows of a market, and the timestamps of the updates that `sendTransaction` was called with so
-- far, newest first.
pub record PythState : Type 0 where
  pub updates : List OracleUpdate
  pub pyths : Attempts
  pub sends : List ℕ

abbrev submitted_update : UpdateStatus
submitted_update = Records.submitted

abbrev confirmed_update : UpdateStatus
confirmed_update = Records.confirmed

abbrev rejected_update : UpdateStatus
rejected_update = Records.rejected

abbrev at_status : OracleUpdate → UpdateStatus → OracleUpdate
at_status u status = record u { status = status }

-- The work of the Pyth tick. Only what follows the build is tried.
unfoldable pub pyth_work : OracleUpdate → (prepared : Bool) → Circumstances → PythState → PythState
pyth_work u prepared met s =
    let noted = record_update (at_status u submitted_update) s.updates in
    if not prepared
    then record s { updates = noted }
    else let submission = submit_and_confirm u.timestamp met.accepted met.outcome s.pyths in
      record {
        updates =
            record_update
              (at_status u (if submission.returned then confirmed_update else rejected_update))
              noted;
        pyths = submission.rows;
        sends = u.timestamp ∷ s.sends;
      }

abbrev pub pyth_tick_for :
    Option OracleUpdate → (prepared : Bool) → Circumstances → PythState → PythState
pyth_tick_for none prepared met s = s
pyth_tick_for (some u) prepared met s =
    if already_applied u.timestamp u.payload_hash s.updates
    then s
    else if met.admitted
    then pyth_work u prepared met s
    else s

-- `runPythKeeperTick`.
unfoldable pub run_pyth_tick : PythTick → PythState → PythState
run_pyth_tick tick s = pyth_tick_for tick.update tick.prepared tick.pyth_circumstances s

abbrev pub run_pyth_ticks : List PythTick → PythState → PythState
run_pyth_ticks [] s = s
run_pyth_ticks (tick ∷ ticks) s = run_pyth_ticks ticks (run_pyth_tick tick s)

abbrev pub sweep_end : ℕ → ℕ → ℕ
sweep_end offset book_size = min (offset + 32) book_size

abbrev pub next_offset : ℕ → ℕ → ℕ
next_offset offset book_size =
    if leb book_size (sweep_end offset book_size) then 0 else sweep_end offset book_size

module _ (builds : (max_removals : ℤ) → Bool) where
  -- The work of the cleanup tick from an offset.
  unfoldable pub cleanup_work : ℕ → ℕ → Circumstances → CleanupState → CleanupState
  cleanup_work offset book_size met s =
      if not (builds (pos (sweep_end offset book_size) -ℤ pos offset))
      then s
      else let submission = submit_and_confirm offset met.accepted met.outcome s.cleanups in
        record {
          cursor = if submission.returned then some (next_offset offset book_size) else s.cursor;
          cleanups = submission.rows;
        }

  -- `runCleanupKeeperTick`.
  unfoldable pub run_cleanup_tick : CleanupTick → CleanupState → CleanupState
  run_cleanup_tick tick s =
      if tick.book_size == 0
      then s
      else if tick.cleanup_circumstances.admitted
      then cleanup_work (get_or s.cursor 0) tick.book_size tick.cleanup_circumstances s
      else s

  abbrev pub run_cleanup_ticks : List CleanupTick → CleanupState → CleanupState
  run_cleanup_ticks [] s = s
  run_cleanup_ticks (tick ∷ ticks) s = run_cleanup_ticks ticks (run_cleanup_tick tick s)
