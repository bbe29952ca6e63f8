-- ===== src/Keeper/Run.antt =====
-- workers/src/keepers.ts: a keeper's action under a lease, with an idempotency key, and with a
-- dead letter for its failure. The work itself is any call on the store: what other workers write
-- while it runs is part of it.
pub mod Failures
pub mod Once
use Prim.Native.String.{String}
use equinox.Prelude.{ℕ, ◌+◌, ◌*◌, Bool, true, false, Option, none, some, leb, if◌then◌else◌, get_or}
use equinox.Store.{
  Error, lease_unavailable, pending_or_failed, Result, ok, err, Lease, OperationStatus, succeeded,
  failed, Stored, value, failure, Operation, Store, Action, pure, throw, ◌>>=◌, ◌>>◌,
}
use equinox.Keeper.{acquire, release, reserve, operation, finish}
use equinox.DeadLetters.{record_failure, resolve, give_up}

pub record Request (A : Type 0) : Type 0 where
  pub lease_key : String
  pub holder : String
  pub idempotency_key : String
  pub request_hash : String
  pub now : ℕ
  pub lease_ttl_ms : ℕ
  pub idempotency_ttl_ms : ℕ

-- `365 * 24 * 60 * 60 * 1000`
abbrev pub year_ms : ℕ
year_ms = 365 * 24 * 60 * 60 * 1000

module _ {A : Type 0} where
  -- `try { ... } catch (error) { ... }`
  abbrev pub try_catch : {B : Type 0} → Action A B → (Error → Action A B) → Action A B
  try_catch body handler s =
      let (r, s') = body s in elim r [ ok b ↦ (ok b, s') | err e ↦ handler e s' ]

  -- `try { ... } finally { ... }`, where the last block does not throw.
  abbrev pub try_finally : {B C : Type 0} → Action A B → Action A C → Action A B
  try_finally body last s = let (r, s') = body s in (r, (last s').1)

  -- The operation is reserved: do the work, and put its outcome on record.
  unfoldable pub work_reserved : Request A → Lease → Action A A → Action A A
  work_reserved request lease work =
      try_catch
        (do
          v ← work
          finish request.idempotency_key request.holder succeeded (value v) lease request.now
          pure v)
        (λ error. do
          finish request.idempotency_key request.holder failed (failure error) lease request.now
          throw error)

  -- A success is never stored with an `{ error }`.
  abbrev pub replay_row : OperationStatus → Option (Stored A) → Action A A
  replay_row succeeded (some (value v)) = pure v
  replay_row _ _ = throw pending_or_failed

  -- Someone has reserved it before: only a recorded success is handed out.
  abbrev pub replay : Option (Operation A) → Action A A
  replay none = throw pending_or_failed
  replay (some row) = replay_row row.status row.result

  abbrev pub after_reserve : Request A → Lease → Action A A → Bool → Action A A
  after_reserve request lease work true = work_reserved request lease work
  after_reserve request lease work false = operation request.idempotency_key >>= replay

  abbrev pub reserve_for : Request A → Action A Bool
  reserve_for request =
      reserve request.idempotency_key request.holder request.request_hash request.idempotency_ttl_ms
        request.now

  abbrev pub under_lease : Request A → Lease → Action A A → Action A A
  under_lease request lease work = reserve_for request >>= after_reserve request lease work

  abbrev pub with_lease : Request A → Action A A → Option Lease → Action A A
  with_lease request work none = throw lease_unavailable
  with_lease request work (some l) = try_finally (under_lease request l work) (release l)

  unfoldable pub run_durable_keeper : Request A → Action A A → Action A A
  run_durable_keeper request work = do
    lease ← acquire request.lease_key request.holder request.lease_ttl_ms request.now
    with_lease request work lease

  -- The failure is recorded, and at `max_attempts` (10, if not given) retries are given up; the
  -- error goes on to the caller. The payload is the idempotency key.
  unfoldable pub run_durable_keeper_with_dead_letter :
      Request A → String → Option ℕ → Action A A → Action A A
  run_durable_keeper_with_dead_letter request dead_letter_id max_attempts work =
      try_catch (do v ← run_durable_keeper request work; resolve dead_letter_id; pure v)
        (λ error. do
          attempts ←
              record_failure dead_letter_id request.lease_key request.idempotency_key error
                request.now
          (if leb (get_or max_attempts 10) attempts
              then give_up dead_letter_id (request.now + year_ms)
              else pure tt)
          throw error)
