-- ===== src/Records.antt =====
-- The audit tables of workers/src/repositories.ts: oracle updates, commit records, execution
-- status and cursors of the keepers. JSON texts are the values themselves; times of observation
-- and the signatures are left out.
pub mod Requested
use Prim.Native.Nat.{max}
use Prim.Native.String.{String}
use text.Mathlib.Text.{◌==◌ as str_eq}
use equinox.Prelude.{
  ℕ, Bool, true, false, Option, none, some, List, [], ◌∷◌, ◌==◌, ◌&&◌, if◌then◌else◌,
}
use equinox.Execution.{ExecutionState}

pub data UpdateStatus : Type 0 where
  submitted confirmed rejected : UpdateStatus

-- A market's row of oracle_updates, whose key is the market and the timestamp.
pub record OracleUpdate : Type 0 where
  pub timestamp : ℕ
  pub feed_id : String
  pub payload_hash : String
  pub status : UpdateStatus

unfoldable pub already_applied : ℕ → String → List OracleUpdate → Bool
already_applied timestamp payload_hash [] = false
already_applied timestamp payload_hash (r ∷ rs) =
    let rest = already_applied timestamp payload_hash rs in
    if r.timestamp == timestamp then str_eq r.payload_hash payload_hash else rest

-- A conflict updates the status alone: the hash and the feed stay those of the first row.
unfoldable pub record_update : OracleUpdate → List OracleUpdate → List OracleUpdate
record_update u [] = u ∷ []
record_update u (r ∷ rs) =
    let rest = record_update u rs in
    if r.timestamp == u.timestamp then record r { status = u.status } ∷ rs else r ∷ rest

pub data CommitStatus : Type 0 where
  requested committed finalized failed : CommitStatus

-- A market's row of commit_records.
pub record CommitRecord : Type 0 where
  pub sequence : ℕ
  pub status : CommitStatus

-- `MAX(sequence)`, 0 where there is no row.
unfoldable pub last_requested_sequence : List CommitRecord → ℕ
last_requested_sequence [] = 0
last_requested_sequence (r ∷ rs) = max r.sequence (last_requested_sequence rs)

unfoldable pub record_commit : CommitRecord → List CommitRecord → List CommitRecord
record_commit c [] = c ∷ []
record_commit c (r ∷ rs) =
    let rest = record_commit c rs in
    if r.sequence == c.sequence then record r { status = c.status } ∷ rs else r ∷ rest

-- The tables execution_status and keeper_cursors.
abbrev pub get {ℓ} : {A : Type ℓ} → (String → Option A) → String → Option A
get rows market = rows market

abbrev pub set_status :
    String → ExecutionState → (String → Option ExecutionState) → String → Option ExecutionState
set_status market state rows m = if str_eq market m then some state else rows m
