-- ===== src/Examples/Keepers.antt =====
-- Leases, keeper runs, dead letters and rate limits on a small store.
use equinox.Prelude.{ℕ, ◌+◌, ◌≤◌, ◌≡◌, refl, none, some, [], ◌∷◌, arith}
use equinox.Store.{
  Store, Lease, LeaseRow, Operation, RateLimit, ok, pure, throw, work_failed, succeeded, value,
  is_identifier, put,
}
use equinox.Keeper.{acquire, renew, release, finish, reserve, operation}
use equinox.Keeper.Leases.{lease_excludes, old_lease_fenced_out, renews, perform_all}
use equinox.Keeper.Run.{
  Request, run_durable_keeper, run_durable_keeper_with_dead_letter, work_reserved,
}
use equinox.Keeper.Run.Once.{runs_agree, work_not_repeated, lease_released}
use equinox.Keeper.Run.Failures.{dead_letter-Kept, Kept}
use equinox.DeadLetters.{attempts_of}
use equinox.RateLimits.Bound.{admissions, admissions-le-limit}

abbrev empty_store : Store ℕ
empty_store = record {
  leases = λ k. none;
  operations = λ k. none;
  rate_limits = λ k. none;
  dead_letters = λ k. none;
  application_sessions = λ k. none;
}

abbrev a_lease : Lease
a_lease = record { key = "commit:m"; holder = "a"; fence = 1; expires_at = 1100 }

abbrev a_store : Store ℕ
a_store = (acquire "commit:m" "a" 100 1000 empty_store).1

abbrev b_lease : Lease
b_lease = record { key = "commit:m"; holder = "b"; fence = 2; expires_at = 1300 }

abbrev b_store : Store ℕ
b_store = (acquire "commit:m" "b" 100 1200 (perform_all (renews a_lease 150 1010 ∷ []) a_store)).1

a_granted : acquire "commit:m" "a" 100 1000 empty_store ≡ (ok (some a_lease), a_store)
unfolding acquire is_identifier
a_granted = refl

b_granted :
    acquire "commit:m" "b" 100 1200 (perform_all (renews a_lease 150 1010 ∷ []) a_store)
    ≡ (ok (some b_lease), b_store)
unfolding acquire is_identifier renew
b_granted = refl

lease_excludes_example :
    ¬ ((acquire "commit:m" "b" 100 1050 a_store).0 ≡ ok (some b_lease))
    × ((acquire "commit:m" "b" 100 1050 a_store).1 ≡ a_store)
lease_excludes_example =
    lease_excludes "commit:m" "a" "b" 100 1000 100 1050 empty_store a_store a_lease b_lease
      a_granted (omega arith)

old_lease_fenced_out_example :
    ¬ ((finish "op" "a" succeeded (value 7) a_lease 1250 b_store).0 ≡ ok tt)
    × ((finish "op" "a" succeeded (value 7) a_lease 1250 b_store).1 ≡ b_store)
old_lease_fenced_out_example =
    old_lease_fenced_out "commit:m" "a" "b" 100 100 1000 1200 empty_store a_store b_store a_lease
      b_lease (renews a_lease 150 1010 ∷ []) [] "op" "a" succeeded (value 7) 1250 a_granted
      b_granted

abbrev request : Request ℕ
request = record {
  lease_key = "commit:m";
  holder = "a";
  idempotency_key = "commit:m:1";
  request_hash = "h";
  now = 1000;
  lease_ttl_ms = 100;
  idempotency_ttl_ms = 5000;
}

abbrev again : Request ℕ
again = record request { holder = "b"; now = 3000 }

abbrev ran : Store ℕ
ran = (run_durable_keeper request (pure 7) empty_store).1

abbrev ran_again : Store ℕ
ran_again = (run_durable_keeper again (throw (work_failed "unused")) ran).1

first_ran : run_durable_keeper request (pure 7) empty_store ≡ (ok 7, ran)
unfolding run_durable_keeper acquire release reserve work_reserved finish is_identifier
first_ran = refl

second_ran : run_durable_keeper again (throw (work_failed "unused")) ran ≡ (ok 7, ran_again)
unfolding run_durable_keeper acquire release reserve operation work_reserved finish is_identifier
second_ran = refl

abbrev returned : ℕ
returned = 7

abbrev replayed : ℕ
replayed = 7

runs_agree_example : replayed ≡ returned
runs_agree_example =
    runs_agree request again (pure 7) (throw (work_failed "unused")) empty_store ran refl refl
      first_ran second_ran

dead_letter-Kept_example :
    let (r, t) = run_durable_keeper request (throw (work_failed "rpc")) empty_store in
    let (r', t') =
      run_durable_keeper_with_dead_letter request "commit:m"
        (some 3)
        (throw (work_failed "rpc"))
        empty_store in
    (r' ≡ r)
    × Kept (some 3) 1000 (attempts_of (t.dead_letters "commit:m")) r (t'.dead_letters "commit:m")
unfolding is_identifier
dead_letter-Kept_example =
    dead_letter-Kept request "commit:m" (some 3) (throw (work_failed "rpc")) empty_store refl refl

abbrev open_row : RateLimit
open_row = record { window_start = 1000; count = 2; expires_at = 1600 }

abbrev limited_store : Store ℕ
limited_store = record empty_store { rate_limits = put "ip" (some open_row) (λ k. none) }

admissions-le-limit_example :
    admissions "ip" 3
        (record { at_ms = 1100; window_ms = 600 } ∷ record { at_ms = 1200; window_ms = 600 } ∷ [])
        limited_store
      + 2
    ≤ 3
admissions-le-limit_example =
    admissions-le-limit "ip" 3 1600
      (record { at_ms = 1100; window_ms = 600 } ∷ record { at_ms = 1200; window_ms = 600 } ∷ [])
      limited_store (refl, omega arith) (omega arith, (omega arith, tt))

abbrev recorded : Operation ℕ
recorded = record {
  owner = "a";
  request_hash = "h";
  status = succeeded;
  result = some (value 7);
  created_at = 1000;
  expires_at = 6000;
}

ran_recorded : ran.operations "commit:m:1" ≡ some recorded
unfolding run_durable_keeper acquire release reserve work_reserved finish is_identifier
ran_recorded = refl

work_not_repeated_example :
    run_durable_keeper again (throw (work_failed "unused")) ran
    ≡ run_durable_keeper again (pure 5) ran
work_not_repeated_example =
    work_not_repeated again (throw (work_failed "unused")) (pure 5) ran ran_recorded

abbrev released : LeaseRow
released = record { holder = "a"; expires_at = 0; updated_at = 1000; fence = 1 }

lease_row :
    (run_durable_keeper request (throw (work_failed "rpc")) empty_store).1.leases "commit:m"
    ≡ some released
unfolding run_durable_keeper acquire release reserve work_reserved finish is_identifier
lease_row = refl

lease_released_example : released.expires_at ≡ 0
lease_released_example =
    lease_released request (throw (work_failed "rpc")) empty_store a_store a_lease released
      a_granted lease_row refl
