-- ===== src/Risk/Health.antt =====
-- When a seat is liquidated, and how much of it.
use equinox.Prelude.{ℕ, ◌+◌, ◌*◌, ◌≤◌, ◌<◌, ◌≡◌, ◌≢◌, true, some, arith}
use equinox.Risk.{
  SeatRiskInputs, MarketHeader, Seat, liquidatable, magnitude, is_liquidatable,
  partial_liquidation_quantity, re_read_liquidation_candidate,
}

-- A partial liquidation of a position takes at least 1, no more than the position, and leaves no
-- less than it takes unless it takes all of a position of 1; it leaves at most one more than half.
pub quantity_halves :
    (seat : SeatRiskInputs)
    → 0 < magnitude seat.base_position
    → let q = partial_liquidation_quantity seat in
      let p = magnitude seat.base_position in (1 ≤ q) × (q ≤ p) × (2 * q ≤ p + 1) × (p ≤ 2 * q + 1)
unfolding partial_liquidation_quantity
quantity_halves seat h = ground arith

-- A candidate is found liquidatable only if its market is not in emergency and has a valid and
-- positive oracle price, its seat is where the projection saw it, and its equity at that price is
-- below the maintenance requirement; the quantity is the partial one.
pub liquidatable_only_if_unhealthy :
    (header : MarketHeader) (seat : Seat) (projected quantity : ℕ)
    → re_read_liquidation_candidate (some header) (some seat) projected
      ≡ some (liquidatable quantity)
    → (header.mode ≢ 3)
      × (header.oracle_valid ≡ true)
      × (seat.sequence ≡ projected)
      × (quantity ≡ partial_liquidation_quantity seat.inputs)
      × (is_liquidatable seat.inputs header.last_verified_oracle_price header.maintenance_margin_bps
          ≡ some true)
unfolding re_read_liquidation_candidate
liquidatable_only_if_unhealthy header seat projected quantity h = ground arith
