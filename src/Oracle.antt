-- ===== src/Oracle.antt =====
-- The oracle's safety as the client shows it: lib/oracle-safety.ts. A kind of event is its name;
-- times are seconds, and the clock may stand before the timestamp.
pub mod Laws
use Prim.Native.String.{String}
use text.Mathlib.Text.{◌==◌ as str_eq}
use equinox.Prelude.{
  ℕ, ◌+◌, ◌-◌, Bool, true, false, Option, none, some, List, [], ◌∷◌, ◌||◌, not, ltb, leb,
  if◌then◌else◌, get_or,
}

pub data OracleSafetyState : Type 0 where
  fresh stale closed halted corp_action unknown : OracleSafetyState

pub record OracleSafetyInput : Type 0 where
  pub oracle_valid : Option Bool
  pub last_verified_oracle_timestamp : Option ℕ
  pub now_unix_seconds : ℕ
  pub latest_lifecycle_event_kind : Option String
  pub staleness_threshold_seconds : Option ℕ

abbrev pub lookup : String → List (String × OracleSafetyState) → Option OracleSafetyState
lookup k [] = none
lookup k (e ∷ es) = if str_eq k e.0 then some e.1 else lookup k es

abbrev pub hard_override : List (String × OracleSafetyState)
hard_override =
    ("OracleStale", stale)
    ∷ ("OracleRejected", stale)
    ∷ ("MarketPaused", halted)
    ∷ ("MarketCloseOnly", closed)
    ∷ ("MarketClosed", closed)
    ∷ ("CorporateActionEntered", corp_action)
    ∷ []

abbrev pub oracle_lifecycle_event_kinds : List String
oracle_lifecycle_event_kinds =
    "OracleUpdated" ∷ "OracleStale" ∷ "OracleRejected" ∷ "OracleRecovered" ∷ "MarketPaused"
    ∷ "MarketResumed" ∷ "MarketCloseOnly" ∷ "MarketClosed" ∷ "CorporateActionEntered"
    ∷ "CorporateActionResolved" ∷ []

abbrev pub overridden : Option String → Option OracleSafetyState
overridden none = none
overridden (some kind) = lookup kind hard_override

-- `now - timestamp <= threshold`
abbrev pub judge_age : Option ℕ → ℕ → ℕ → OracleSafetyState
judge_age none now threshold = unknown
judge_age (some timestamp) now threshold = if leb now (timestamp + threshold) then fresh else stale

abbrev pub judge_account : OracleSafetyInput → Option Bool → OracleSafetyState
judge_account input none = unknown
judge_account input (some false) = stale
judge_account input (some true) =
    judge_age input.last_verified_oracle_timestamp input.now_unix_seconds
      (get_or input.staleness_threshold_seconds 120)

abbrev pub unless_overridden : OracleSafetyInput → Option OracleSafetyState → OracleSafetyState
unless_overridden input (some state) = state
unless_overridden input none = judge_account input input.oracle_valid

unfoldable pub derive_oracle_safety : OracleSafetyInput → OracleSafetyState
derive_oracle_safety input = unless_overridden input (overridden input.latest_lifecycle_event_kind)

-- An event of the raw list; its sequence and kind may be missing.
pub record RawEvent : Type 0 where
  pub sequence : Option ℕ
  pub kind : Option String

pub record Best : Type 0 where
  pub sequence : ℕ
  pub kind : String

abbrev pub has_kind : String → List String → Bool
has_kind k [] = false
has_kind k (x ∷ xs) = str_eq k x || has_kind k xs

-- The event, if it counts.
abbrev pub counted : RawEvent → Option Best
counted e = elim e.kind [
  | none ↦ none
  | some kind ↦ elim e.sequence [
    | none ↦ none
    | some sequence ↦
        if has_kind kind oracle_lifecycle_event_kinds
        then some (record { sequence = sequence; kind = kind })
        else none
  ]
]

unfoldable pub newer : Option Best → Option Best → Option Best
newer best none = best
newer none (some e) = some e
newer (some best) (some e) = if ltb best.sequence e.sequence then some e else some best

unfoldable pub latest : Option Best → List RawEvent → Option Best
latest best [] = best
latest best (e ∷ es) = latest (newer best (counted e)) es

unfoldable pub latest_lifecycle_event_kind : List RawEvent → Option String
latest_lifecycle_event_kind events = elim (latest none events) [
  | none ↦ none
  | some b ↦ some b.kind
]
