-- ===== src/Risk/Sweep.antt =====
-- The sweep over a market's seats, workers/src/liquidation-discovery.ts. `seats` is the decoder of
-- the account's seats; an outer `none` is a throw of `isLiquidatable`.
pub mod Reach
use Prim.Native.Nat.{min}
use equinox.Prelude.{
  ℕ, zero, suc, ◌+◌, ◌%◌, Bool, true, false, Option, none, some, List, [], ◌∷◌, if◌then◌else◌,
}
use equinox.Risk.{LiquidationProjectionCandidate, MarketHeader, Seat, is_liquidatable, ◌>>=◌}

abbrev pub flagged : MarketHeader → ℕ → Option Seat → Option (Option LiquidationProjectionCandidate)
flagged header seat_index none = some none
flagged header seat_index (some seat) =
    if header.oracle_valid
    then (do
      verdict ←
          is_liquidatable seat.inputs header.last_verified_oracle_price
            header.maintenance_margin_bps
      some (
          if verdict
          then some (record { seat_index = seat_index; projected_sequence = seat.sequence })
          else none))
    else some none

abbrev pub add_flagged :
    Option LiquidationProjectionCandidate
    → List LiquidationProjectionCandidate
    → List LiquidationProjectionCandidate
add_flagged none cs = cs
add_flagged (some c) cs = c ∷ cs

-- The rounds of the loop that are left, and the round `i`.
abbrev pub scan_from :
    (ℕ → Option Seat) → MarketHeader → ℕ → ℕ → ℕ → Option (List LiquidationProjectionCandidate)
scan_from seats header start i zero = some []
scan_from seats header start i (suc rounds) =
    let seat_index = (start + i) % 128 in
    flagged header seat_index (seats seat_index) >>= λ found.
    scan_from seats header start (suc i) rounds >>= λ rest. some (add_flagged found rest)

abbrev pub next_cursor : ℕ → ℕ → ℕ
next_cursor cursor batch_size = (cursor % 128 + min batch_size 128) % 128

unfoldable pub scan_liquidation_candidates :
    (ℕ → Option Seat) → MarketHeader → ℕ → ℕ → Option (List LiquidationProjectionCandidate × ℕ)
scan_liquidation_candidates seats header cursor batch_size = do
  candidates ← scan_from seats header (cursor % 128) 0 (min batch_size 128)
  some (candidates, next_cursor cursor batch_size)
