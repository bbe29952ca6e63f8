-- ===== src/Keeper.antt =====
-- `ProtocolRepository` of workers/src/repositories.ts: leases with fences, and the ledger of
-- operation keys, which makes a keeper's work run at most once.
pub mod Cleanup
pub mod Leases
pub mod Run
use Prim.Native.String.{String}
use text.Mathlib.Text.{◌==◌ as str_eq}
use equinox.Prelude.{
  ℕ, ◌+◌, Bool, true, false, Option, none, some, ◌&&◌, not, ltb, leb, ◌==◌, if◌then◌else◌,
}
use equinox.Store.{
  Error, ownership_lost, Result, ok, err, put, Lease, LeaseRow, OperationStatus, pending,
  is_pending, Stored, Operation, RateLimit, Store, Action, pure, ◌>>=◌, ◌>>◌, integer, expiry,
  identifier,
}

-- The row that a grant writes, and what it returns.
abbrev pub grant : {A : Type 0} → String → String → ℕ → ℕ → ℕ → Action A (Option Lease)
grant key holder until now fence s = (
  ok (some (record { key = key; holder = holder; fence = fence; expires_at = until })),
  record s {
    leases =
        put key
          (some (record { holder = holder; expires_at = until; updated_at = now; fence = fence }))
          s.leases;
  },
)

-- WHERE lease_key=? AND holder=? AND fence=?
abbrev pub holds : LeaseRow → Lease → Bool
holds row lease = str_eq row.holder lease.holder && row.fence == lease.fence

abbrev pub session_kept : ℕ → Option ℕ → Option ℕ
session_kept now none = none
session_kept now (some expires_at) = if leb expires_at now then none else some expires_at

abbrev pub limit_kept : ℕ → Option RateLimit → Option RateLimit
limit_kept now none = none
limit_kept now (some row) = if leb row.expires_at now then none else some row

module _ {A : Type 0} where
  -- The INSERT ... ON CONFLICT ... WHERE expires_at <= updated_at of `acquire`.
  abbrev pub take_lease : String → String → ℕ → ℕ → Action A (Option Lease)
  take_lease key holder until now s = elim (s.leases key) [
    | none ↦ grant key holder until now 1 s
    | some row ↦
        if leb row.expires_at now then grant key holder until now (row.fence + 1) s else pure none s
  ]

  unfoldable pub acquire : String → String → ℕ → ℕ → Action A (Option Lease)
  acquire key holder ttl now = do
    identifier key
    identifier holder
    until ← expiry now ttl
    take_lease key holder until now

  unfoldable pub renew : Lease → ℕ → ℕ → Action A (Option Lease)
  renew lease ttl now = do
    until ← expiry now ttl
    λ s. elim (s.leases lease.key) [
      | none ↦ (ok none, s)
      | some row ↦
          if holds row lease && ltb now row.expires_at
          then (
            ok (some (record lease { expires_at = until })),
            record s {
              leases =
                  put lease.key (some (record row { expires_at = until; updated_at = now }))
                    s.leases;
            },
          )
          else (ok none, s)
    ]

  unfoldable pub release : Lease → Action A Bool
  release lease s = elim (s.leases lease.key) [
    | none ↦ (ok false, s)
    | some row ↦
        if holds row lease
        then (
          ok true,
          record s { leases = put lease.key (some (record row { expires_at = 0 })) s.leases },
        )
        else (ok false, s)
  ]

  unfoldable pub reserve : String → String → String → ℕ → ℕ → Action A Bool
  reserve key owner request_hash ttl now = do
    identifier key
    identifier owner
    identifier request_hash
    until ← expiry now ttl
    λ s. elim (s.operations key) [
      | some row ↦ (ok false, s)
      | none ↦ (
        ok true,
        record s {
          operations =
              put key
                (some (record {
                  owner = owner;
                  request_hash = request_hash;
                  status = pending;
                  result = none;
                  created_at = now;
                  expires_at = until;
                }))
                s.operations;
        },
      )
    ]

  unfoldable pub operation : String → Action A (Option (Operation A))
  operation key s = (ok (s.operations key), s)

  -- EXISTS (SELECT 1 FROM keeper_leases WHERE ... AND expires_at>?)
  abbrev pub lease_lives : Lease → ℕ → Store A → Bool
  lease_lives lease now s = elim (s.leases lease.key) [
    | none ↦ false
    | some row ↦ holds row lease && ltb now row.expires_at
  ]

  unfoldable pub finish :
      String → String → OperationStatus → Stored A → Lease → ℕ → Action A (Unit {0})
  finish key owner status result lease now = do
    integer now
    λ s. elim (s.operations key) [
      | none ↦ (err ownership_lost, s)
      | some row ↦
          if str_eq row.owner owner && (is_pending row.status && lease_lives lease now s)
          then (
            ok tt,
            record s {
              operations =
                  put key (some (record row { status = status; result = some result }))
                    s.operations;
            },
          )
          else (err ownership_lost, s)
    ]

  abbrev pub operation_kept : ℕ → Option (Operation A) → Option (Operation A)
  operation_kept now none = none
  operation_kept now (some row) =
      if leb row.expires_at now && not (is_pending row.status) then none else some row

  -- The three DELETE statements of one batch.
  unfoldable pub cleanup : ℕ → Action A (Unit {0})
  cleanup now = do
    integer now
    λ s. (
      ok tt,
      record s {
        application_sessions = λ k. session_kept now (s.application_sessions k);
        rate_limits = λ k. limit_kept now (s.rate_limits k);
        operations = λ k. operation_kept now (s.operations k);
      },
    )
