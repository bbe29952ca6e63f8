-- ===== src/Keeper/Run/Once.antt =====
-- A keeper's work runs at most once for an idempotency key, and its result is replayed.
use Prim.Native.String.{String}
use text.Mathlib.TextPositions.{eq_refl}
use equinox.Prelude.{
  ℕ, ◌≡◌, refl, ap, sym, subst, ◌∙◌, Bool, true, false, Option, none, some, arith,
}
use equinox.Store.{
  Result, ok, err, Lease, LeaseRow, OperationStatus, succeeded, Stored, value, Operation, Store,
  Action, ◌>>=◌, Table,
}
use equinox.Keeper.{holds, acquire, release, reserve, finish, operation}
use equinox.Keeper.Run.{
  Request, work_reserved, after_reserve, reserve_for, run_durable_keeper, under_lease, with_lease,
  replay,
}

-- The value that a row hands out: that of a recorded success.
abbrev recorded_row : {A : Type 0} → OperationStatus → Option (Stored A) → Option A
recorded_row succeeded (some (value v)) = some v
recorded_row _ _ = none

abbrev pub recorded : {A : Type 0} → Option (Operation A) → Option A
recorded none = none
recorded (some row) = recorded_row row.status row.result

module _ {A : Type 0} where
  acquire-operations :
      (key holder : String) (ttl now : ℕ) (s : Store A)
      → (acquire key holder ttl now s).1.operations ≡ s.operations
  unfolding acquire
  acquire-operations key holder ttl now s = ground arith

  under_lease_known :
      (request : Request A) (l : Lease) (work other : Action A A) (s : Store A) {row : Operation A}
      → s.operations request.idempotency_key ≡ some row
      → under_lease request l work s ≡ under_lease request l other s
  unfolding reserve
  under_lease_known request l work other s e = ground arith

  with_lease_known :
      (request : Request A) (work other : Action A A) (o : Option Lease) (s : Store A)
      {row : Operation A}
      → s.operations request.idempotency_key ≡ some row
      → with_lease request work o s ≡ with_lease request other o s
  with_lease_known request work other none s e = refl
  with_lease_known request work other (some l) s e =
      ap (λ (p : Result A × Store A). (p.0, (release l p.1).1))
        (under_lease_known request l work other s e)

  bind_same :
      {B : Type 0} (m : Action A B) (f g : B → Action A A) (s : Store A)
      → ((b : B) → f b (m s).1 ≡ g b (m s).1)
      → (m >>= f) s ≡ (m >>= g) s
  bind_same {B = B} m f g s h = by_result (m s).0 (m s).1 h
    where
      by_result :
          (r : Result B) (t : Store A)
          → ((b : B) → f b t ≡ g b t)
          → ◌≡◌ {A = Result A × Store A}
              (elim r [ ok b ↦ f b t | err e ↦ (err e, t) ])
              (elim r [ ok b ↦ g b t | err e ↦ (err e, t) ])
      by_result (ok b) t k = k b
      by_result (err e) t k = refl

  -- Where the idempotency key has a row, whatever its status, the work is not run: the call comes
  -- out the same for any other work.
  pub work_not_repeated :
      (request : Request A) (work other : Action A A) (s : Store A) {row : Operation A}
      → s.operations request.idempotency_key ≡ some row
      → run_durable_keeper request work s ≡ run_durable_keeper request other s
  unfolding run_durable_keeper
  work_not_repeated request work other s e =
      let take = acquire request.lease_key request.holder request.lease_ttl_ms request.now in
      bind_same take (with_lease request work) (with_lease request other) s (λ o.
        with_lease_known request work other o (take s).1 (
          ap (λ (t : Table (Operation A)). t request.idempotency_key)
            (acquire-operations request.lease_key request.holder request.lease_ttl_ms request.now s)
          ∙ e))

  -- If the call returned a value, it is the key's recorded success.
  abbrev Records : String → Result A × Store A → Type 0
  Records key (ok v, t) = recorded (t.operations key) ≡ some v
  Records key (err _, t) = Unit

  bind_Records :
      {B : Type 0} (key : String) (m : Action A B) (f : B → Action A A) (s : Store A)
      → ((b : B) → Records key (f b (m s).1))
      → Records key ((m >>= f) s)
  bind_Records {B = B} key m f s h = by_result (m s).0 (m s).1 h
    where
      by_result :
          (r : Result B) (t : Store A)
          → ((b : B) → Records key (f b t))
          → Records key (elim r [ ok b ↦ f b t | err e ↦ (err e, t) ])
      by_result (ok b) t k = k b
      by_result (err e) t k = tt

  work_reserved-Records :
      (request : Request A) (l : Lease) (work : Action A A) (s : Store A)
      → Records request.idempotency_key (work_reserved request l work s)
  unfolding work_reserved finish
  work_reserved-Records request l work s = ground (arith, eq_refl request.idempotency_key)

  replay-Records : (key : String) (s : Store A) → Records key ((operation key >>= replay) s)
  unfolding operation
  replay-Records key s = ground arith

  under_lease-Records :
      (request : Request A) (l : Lease) (work : Action A A) (s : Store A)
      → Records request.idempotency_key (under_lease request l work s)
  under_lease-Records request l work s =
      bind_Records request.idempotency_key (reserve_for request) (after_reserve request l work) s
        (λ b. reserved b (reserve_for request s).1)
    where
      reserved :
          (b : Bool) (t : Store A)
          → Records request.idempotency_key (after_reserve request l work b t)
      reserved true t = work_reserved-Records request l work t
      reserved false t = replay-Records request.idempotency_key t

  release-operations : (l : Lease) (s : Store A) → (release l s).1.operations ≡ s.operations
  unfolding release
  release-operations l s = ground arith

  released_Records :
      (key : String) (l : Lease) (r : Result A) (t : Store A)
      → Records key (r, t)
      → Records key (r, (release l t).1)
  released_Records key l (ok v) t h = rw (release-operations l t) h
  released_Records key l (err e) t h = tt

  with_lease-Records :
      (request : Request A) (work : Action A A) (o : Option Lease) (s : Store A)
      → Records request.idempotency_key (with_lease request work o s)
  with_lease-Records request work none s = tt
  with_lease-Records request work (some l) s =
      let (r, t) = under_lease request l work s in
      released_Records request.idempotency_key l r t (under_lease-Records request l work s)

  -- A run that returns a value leaves it on record as the key's recorded success.
  run_Records :
      (request : Request A) (work : Action A A) (s : Store A)
      → Records request.idempotency_key (run_durable_keeper request work s)
  unfolding run_durable_keeper
  run_Records request work s =
      let take = acquire request.lease_key request.holder request.lease_ttl_ms request.now in
      bind_Records request.idempotency_key take (with_lease request work) s
        (λ o. with_lease-Records request work o (take s).1)

  -- A run on a key with a recorded success can only return that value.
  run_replays :
      (request : Request A) (work : Action A A) (s : Store A) {v w : A} {s' : Store A}
      → recorded (s.operations request.idempotency_key) ≡ some v
      → run_durable_keeper request work s ≡ (ok w, s')
      → w ≡ v
  unfolding run_durable_keeper acquire reserve operation
  run_replays request work s e h = ground arith

  -- Two runs with one idempotency key never return two values: after a run that returned v, any
  -- run that finds the key's row as it was left returns v, if it returns, whatever its work is.
  pub runs_agree :
      (first second : Request A) (work other : Action A A) (s t : Store A) {v w : A}
      {s' t' : Store A}
      → second.idempotency_key ≡ first.idempotency_key
      → t.operations first.idempotency_key ≡ s'.operations first.idempotency_key
      → run_durable_keeper first work s ≡ (ok v, s')
      → run_durable_keeper second other t ≡ (ok w, t')
      → w ≡ v
  runs_agree first second work other s t {v = v} {s' = s'} k e h₁ h₂ =
      let kept : recorded (s'.operations first.idempotency_key) ≡ some v =
        subst (Records first.idempotency_key) h₁ (run_Records first work s) in
      let e' : recorded (t.operations second.idempotency_key) ≡ some v = rw (k, e) kept in
      run_replays second other t e' h₂

  bind_at :
      {B : Type 0} (m : Action A B) (f : B → Action A A) (s : Store A) {b : B} {t : Store A}
      → m s ≡ (ok b, t)
      → (m >>= f) s ≡ f b t
  bind_at m f s {b = b} e = rw (e, ◌>>=◌) (ap (λ (p : Result _ × Store A). f b p.1) e)

  release_expires :
      (l : Lease) (t : Store A) (row : LeaseRow)
      → (release l t).1.leases l.key ≡ some row
      → holds row l ≡ true
      → row.expires_at ≡ 0
  unfolding release
  release_expires l t row h k = ground (arith, eq_refl l.key)

  -- Whatever the work did, and whether it returned or threw, the lease that the run was granted is
  -- not alive afterwards: if its row is still this lease's, its expiry is 0.
  pub lease_released :
      (request : Request A) (work : Action A A) (s s₁ : Store A) (l : Lease) (row : LeaseRow)
      → acquire request.lease_key request.holder request.lease_ttl_ms request.now s
        ≡ (ok (some l), s₁)
      → (run_durable_keeper request work s).1.leases l.key ≡ some row
      → holds row l ≡ true
      → row.expires_at ≡ 0
  unfolding run_durable_keeper
  lease_released request work s s₁ l row e h k =
      let take = acquire request.lease_key request.holder request.lease_ttl_ms request.now in
      let same = bind_at take (with_lease request work) s e in
      release_expires l (under_lease request l work s₁).1 row
        (ap (λ (p : Result A × Store A). p.1.leases l.key) (sym same) ∙ h) k
