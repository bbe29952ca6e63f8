-- ===== src/Risk.antt =====
-- The health of a trader's seat and the funding of a market: workers/src/risk-model.ts,
-- workers/src/funding-source.ts, and the re-reading of a candidate of
-- workers/src/liquidation-scanner.ts.
--
-- A bigint is an integer. `none` is a RangeError. Functions that are only given positive numbers
-- of basis points take them as natural numbers.
pub mod Dedupe
pub mod Health
pub mod Sweep
pub mod Funding
use equinox.Prelude.{
  ℕ, zero, suc, ◌+◌, ◌*◌, ◌/◌, Bool, true, false, Option, none, some, List, [], ◌∷◌, not, ltb, ◌==◌,
  if◌then◌else◌,
}
use equinox.Prelude.Int.{ℤ, pos, negsuc, neg_part, ◌+ℤ◌, ◌-ℤ◌, ◌*ℤ◌, ◌/ℤ◌, ltb_ℤ, leb_ℤ}

pub record SeatRiskInputs : Type 0 where
  pub available_collateral : ℤ
  pub reserved_margin : ℤ
  pub base_position : ℤ
  pub quote_entry_value : ℤ
  pub realized_pnl : ℤ

infixl 5 ◌>>=◌
abbrev pub ◌>>=◌ {ℓ κ} : {A : Type ℓ} {B : Type κ} → Option A → (A → Option B) → Option B
none >>= f = none
some a >>= f = f a

unfoldable pub notional : ℤ → ℤ → Option ℤ
notional quantity price =
    if leb_ℤ price (pos 0)
    then none
    else if ltb_ℤ quantity (pos 0)
    then none
    else some (quantity *ℤ price)

unfoldable pub fee_bps : ℤ → ℕ → ℤ
fee_bps notional_value bps = (notional_value *ℤ pos bps) /ℤ 10000

abbrev pub is_zero : ℤ → Bool
is_zero (pos n) = n == 0
is_zero (negsuc n) = false

unfoldable pub unrealized_pnl : SeatRiskInputs → ℤ → Option ℤ
unrealized_pnl seat mark_price =
    if leb_ℤ mark_price (pos 0)
    then none
    else some (
        (seat.base_position *ℤ mark_price)
        -ℤ (if is_zero seat.base_position then pos 0 else seat.quote_entry_value))

unfoldable pub equity : SeatRiskInputs → ℤ → Option ℤ
equity seat mark_price = do
  unrealized ← unrealized_pnl seat mark_price
  some (seat.available_collateral +ℤ seat.realized_pnl +ℤ unrealized)

-- `v < 0n ? -v : v`
abbrev pub magnitude : ℤ → ℕ
magnitude (pos n) = n
magnitude (negsuc n) = suc n

unfoldable pub is_liquidatable : SeatRiskInputs → ℤ → ℕ → Option Bool
is_liquidatable seat mark_price maintenance_bps = do
  position_notional ← notional (pos (magnitude seat.base_position)) mark_price
  e ← equity seat mark_price
  some (ltb_ℤ e (fee_bps position_notional maintenance_bps))

unfoldable pub partial_liquidation_quantity : SeatRiskInputs → ℕ
partial_liquidation_quantity seat =
    let half = magnitude seat.base_position / 2 in if ltb 1 half then half else 1

-- The fields of the market's header that the re-reading looks at.
pub record MarketHeader : Type 0 where
  pub mode : ℕ
  pub oracle_valid : Bool
  pub last_verified_oracle_price : ℤ
  pub maintenance_margin_bps : ℕ

pub record Seat : Type 0 where
  pub inputs : SeatRiskInputs
  pub sequence : ℕ

pub data ReReadOutcome : Type 0 where
  liquidatable : ℕ → ReReadOutcome
  healthy already_progressed stale_oracle market_halted not_found : ReReadOutcome

abbrev pub judged : Seat → Bool → ReReadOutcome
judged seat true = liquidatable (partial_liquidation_quantity seat.inputs)
judged seat false = healthy

-- From the decoded header and seat, `none` where there is none; a result of `none` is a throw.
unfoldable pub re_read_liquidation_candidate :
    Option MarketHeader → Option Seat → ℕ → Option ReReadOutcome
re_read_liquidation_candidate none seat projected_sequence = some not_found
re_read_liquidation_candidate (some header) none projected_sequence =
    if header.mode == 3 then some market_halted else some not_found
re_read_liquidation_candidate (some header) (some seat) projected_sequence =
    if header.mode == 3
    then some market_halted
    else if not (seat.sequence == projected_sequence)
    then some already_progressed
    else if not header.oracle_valid
    then some stale_oracle
    else (do
      verdict ←
          is_liquidatable seat.inputs header.last_verified_oracle_price
            header.maintenance_margin_bps
      some (judged seat verdict))

pub record FundingPolicy : Type 0 where
  pub interval_ms : ℕ
  pub cap_bps : ℕ
  pub scale : ℕ

-- `clamped`: the premium within the cap on either side.
abbrev pub clamp_premium : ℤ → ℕ → ℤ
clamp_premium premium cap =
    if ltb_ℤ (pos cap) premium
    then pos cap
    else if ltb_ℤ premium (pos 0 -ℤ pos cap)
    then pos 0 -ℤ pos cap
    else premium

abbrev pub delta_at : ℤ → ℤ → FundingPolicy → ℤ
delta_at (pos zero) mark_price policy = pos 0
delta_at (pos (suc n)) mark_price policy =
    let premium_bps = ((mark_price -ℤ pos (suc n)) *ℤ pos 10000) /ℤ suc n in
    (clamp_premium premium_bps policy.cap_bps *ℤ pos policy.scale) /ℤ 10000
delta_at (negsuc n) mark_price policy = pos 0

unfoldable pub compute_capped_funding_delta : ℤ → ℤ → FundingPolicy → ℤ
compute_capped_funding_delta index_price mark_price policy = delta_at index_price mark_price policy

pub data FundingMode : Type 0 where
  open_market close_only paused : FundingMode

-- The market's funding fields; timestamps are seconds.
pub record FundingState : Type 0 where
  pub oracle_valid : Bool
  pub last_verified_oracle_price : ℤ
  pub last_verified_oracle_timestamp : ℕ
  pub funding_accumulator : ℤ
  pub last_funding_timestamp : ℕ

pub data FundingRefusal : Type 0 where
  mode_forbids oracle_not_verified interval_not_elapsed : FundingRefusal

-- What an eligible tick works with. `next_accumulator` is what `computeNextAccumulator` returns.
pub record FundingInput : Type 0 where
  pub oracle_timestamp : ℕ
  pub last_funding_timestamp : ℕ
  pub funding_interval_ms : ℕ
  pub next_accumulator : ℤ
  pub now : ℕ

pub data FundingTickDecision : Type 0 where
  refused : FundingRefusal → FundingTickDecision
  eligible : FundingInput → FundingTickDecision

abbrev pub is_paused : FundingMode → Bool
is_paused paused = true
is_paused _ = false

-- `now - lastFundingTimestamp * 1000 < intervalMs`, where the difference may be negative.
unfoldable pub funding_tick_decision :
    FundingState → FundingMode → FundingPolicy → ℕ → ℤ → FundingTickDecision
funding_tick_decision market mode policy now mark_price =
    if is_paused mode
    then refused mode_forbids
    else if not market.oracle_valid
    then refused oracle_not_verified
    else if ltb now (market.last_funding_timestamp * 1000 + policy.interval_ms)
    then refused interval_not_elapsed
    else eligible (record {
      oracle_timestamp = market.last_verified_oracle_timestamp;
      last_funding_timestamp = market.last_funding_timestamp;
      funding_interval_ms = policy.interval_ms;
      next_accumulator =
          market.funding_accumulator
          +ℤ compute_capped_funding_delta market.last_verified_oracle_price mark_price policy;
      now = now;
    })

pub record LiquidationProjectionCandidate : Type 0 where
  pub seat_index : ℕ
  pub projected_sequence : ℕ

-- `Map.set`: the first candidate of a seat keeps its place, the last one its value.
abbrev pub set_candidate :
    LiquidationProjectionCandidate
    → List LiquidationProjectionCandidate
    → List LiquidationProjectionCandidate
set_candidate c [] = c ∷ []
set_candidate c (d ∷ ds) =
    let rest = set_candidate c ds in if d.seat_index == c.seat_index then c ∷ ds else d ∷ rest

abbrev pub dedupe_from :
    List LiquidationProjectionCandidate
    → List LiquidationProjectionCandidate
    → List LiquidationProjectionCandidate
dedupe_from by_seat [] = by_seat
dedupe_from by_seat (c ∷ cs) = dedupe_from (set_candidate c by_seat) cs

unfoldable pub dedupe_candidates :
    List LiquidationProjectionCandidate → List LiquidationProjectionCandidate
dedupe_candidates candidates = dedupe_from [] candidates
