-- ===== src/Store.antt =====
-- The tables that the Worker keeps in D1 (workers/src/repositories.ts, workers/migrations), and the
-- calls on them.
--
-- A table is a function from its primary key to a row. Each method of a repository is one SQL
-- statement, which runs atomically; its conditions are those of the statement's text. A number
-- that JavaScript checks with `Number.isSafeInteger(v) && v >= 0` is a natural number, so that
-- only its upper bound is tested. The JSON text of a result is the value itself, of type `A`.
use Prim.Native.Char.{code}
use Prim.Native.String.{String}
use text.Mathlib.Text.{◌==◌ as str_eq}
use equinox.Prelude.{
  ℕ, ◌+◌, Bool, true, false, Option, ◌&&◌, ltb, leb, if◌then◌else◌, max_safe_integer,
}

pub data Error : Type 0 where
  invalid_integer ttl_not_positive invalid_identifier ownership_lost lease_unavailable
        pending_or_failed :
      Error
  work_failed : String → Error

pub data Result {ℓ} (A : Type ℓ) : Type ℓ where
  ok : A → Result A
  err : Error → Result A

abbrev pub Table {ℓ} : Type ℓ → Type ℓ
Table R = String → Option R

abbrev pub put {ℓ} : {R : Type ℓ} → String → Option R → Table R → Table R
put k row t j = if str_eq k j then row else t j

pub record Lease : Type 0 where
  pub key : String
  pub holder : String
  pub fence : ℕ
  pub expires_at : ℕ

pub record LeaseRow : Type 0 where
  pub holder : String
  pub expires_at : ℕ
  pub updated_at : ℕ
  pub fence : ℕ

pub data OperationStatus : Type 0 where
  pending succeeded failed : OperationStatus

abbrev pub is_pending : OperationStatus → Bool
is_pending pending = true
is_pending succeeded = false
is_pending failed = false

-- What `result_json` holds: a result, or `{ error }`.
pub data Stored (A : Type 0) : Type 0 where
  value : A → Stored A
  failure : Error → Stored A

pub record Operation (A : Type 0) : Type 0 where
  pub owner : String
  pub request_hash : String
  pub status : OperationStatus
  pub result : Option (Stored A)
  pub created_at : ℕ
  pub expires_at : ℕ

pub record RateLimit : Type 0 where
  pub window_start : ℕ
  pub count : ℕ
  pub expires_at : ℕ

pub record DeadLetter : Type 0 where
  pub operation : String
  pub payload : String
  pub error : Error
  pub attempts : ℕ
  pub next_attempt_at : ℕ
  pub created_at : ℕ

-- `application_sessions` is here for the sake of `cleanup`: of a row only its expiry counts.
pub record Store (A : Type 0) : Type 0 where
  pub leases : Table LeaseRow
  pub operations : Table (Operation A)
  pub rate_limits : Table RateLimit
  pub dead_letters : Table DeadLetter
  pub application_sessions : Table ℕ

-- A call: it returns or throws, and leaves a store.
abbrev pub Action : Type 0 → Type 0 → Type 0
Action A B = Store A → Result B × Store A

module _ {A : Type 0} where
  abbrev pub pure : {B : Type 0} → B → Action A B
  pure b s = (ok b, s)

  abbrev pub throw : {B : Type 0} → Error → Action A B
  throw e s = (err e, s)

  infixl 5 ◌>>=◌ ◌>>◌
  abbrev pub ◌>>=◌ : {B C : Type 0} → Action A B → (B → Action A C) → Action A C
  ◌>>=◌ m f s = let (r, s') = m s in elim r [ ok b ↦ f b s' | err e ↦ (err e, s') ]

  abbrev pub ◌>>◌ : {C : Type 0} → Action A (Unit {0}) → Action A C → Action A C
  m >> k = m >>= λ _. k

  abbrev pub check : Bool → Error → Action A (Unit {0})
  check good e s = (if good then ok tt else err e, s)

-- `value.length`: the number of UTF-16 units of a text.
abbrev pub utf16_length : String → ℕ
utf16_length String.[] = 0
utf16_length (String.◌∷◌ c s) = (if ltb (code c) 65536 then 1 else 2) + utf16_length s

unfoldable pub is_identifier : String → Bool
is_identifier v = ltb 0 (utf16_length v) && leb (utf16_length v) 512

module _ {A : Type 0} where
  abbrev pub integer : ℕ → Action A (Unit {0})
  integer v = check (leb v max_safe_integer) invalid_integer

  abbrev pub expiry : ℕ → ℕ → Action A ℕ
  expiry now ttl = do
    integer now
    integer ttl
    check (ltb 0 ttl) ttl_not_positive
    integer (now + ttl)
    pure (now + ttl)

  abbrev pub identifier : String → Action A (Unit {0})
  identifier v = check (is_identifier v) invalid_identifier
