-- ===== src/Examples/Markets.antt =====
-- Marks, seats, funding and sessions on small accounts.
use Prim.Native.Nat.{min}
use equinox.Prelude.{
  ◌==◌, if◌then◌else◌, ℕ, zero, suc, ◌*◌, ◌<◌, ◌≡◌, ◌⊎◌, refl, true, Option, none, some, List, [],
  ◌∷◌, ◌++◌, All, arith,
}
use equinox.Prelude.Int.{pos, negsuc, ◌+ℤ◌, ◌-ℤ◌, ◌*ℤ◌, ◌/ℤ◌}
use equinox.Bytes.{Bytes, read_unsigned, read_signed, as_signed, to_number, to_signed_number}
use equinox.Mark.{
  MarkQuote, from_index, Leaf, fixed, pegged, executable_mark, max_mark_deviation_bps,
  best_executable_side, best_over, prices_of, leaves_of, slots, best_leaf, walk_leaf, read_u32,
  executable_price, improve, quote,
}
use equinox.Mark.Band.{IsBanded, IsExact, executable_mark-IsBanded}
use equinox.Mark.Best.{best_executable_side-IsBest, Beats, Among}
use equinox.Risk.Sweep.{flagged, scan_liquidation_candidates}
use equinox.Risk.Sweep.Reach.{sweeps_find, cursor_after, Finds}
use equinox.Risk.{
  Seat, MarketHeader, LiquidationProjectionCandidate, is_liquidatable, notional, equity,
  unrealized_pnl, fee_bps,
}

abbrev zeros : ℕ → Bytes
zeros zero = []
zeros (suc n) = 0 ∷ zeros n

-- A header with the oracle's price 100, and no book after it.
abbrev header : Bytes
header =
    83 ∷ 84 ∷ 75 ∷ 77 ∷ 82 ∷ 75 ∷ 48 ∷ 49 ∷ 2 ∷ 0 ∷ 1 ∷ 1 ∷ (zeros 282 ++ (1 ∷ 100 ∷ zeros 216))

header_price : read_signed 8 header 295 ≡ some (pos 100)
unfolding read_signed read_unsigned as_signed
header_price = refl

abbrev header_quote : MarkQuote
header_quote = record { price = 100; source = from_index }

header_marked : executable_mark header ≡ some (some header_quote)
unfolding executable_mark best_executable_side best_leaf walk_leaf read_u32 as_signed read_signed
    read_unsigned max_mark_deviation_bps executable_price improve best_over quote ◌+ℤ◌ ◌*ℤ◌
    to_number to_signed_number
header_marked = refl

header-IsExact : IsExact 100 (max_mark_deviation_bps header)
unfolding max_mark_deviation_bps as_signed
header-IsExact = record { exact_product = omega arith; exact_sum = omega arith }

executable_mark-IsBanded_example : (0 < 100) × IsBanded 100 (max_mark_deviation_bps header) 100
executable_mark-IsBanded_example =
    executable_mark-IsBanded header header_price header-IsExact header_marked

-- One bid of 5 at 101 in the first arena, which both of its roots lead to.
abbrev book : Bytes
book =
    zeros 1040
    ++ (2
        ∷ (zeros 23
            ++ (5 ∷ (zeros 7 ++ (9 ∷ (zeros 7 ++ (102 ∷ (zeros 15 ++ (101 ∷ zeros 31)))))))))

abbrev leaf : Leaf
leaf = record {
  side = some 0;
  quantity = 5;
  expires_at = 9;
  peg_limit = pos 102;
  price_or_offset = pos 101;
  tree = fixed;
}

abbrev book_leaves : List (Option Leaf)
book_leaves = some leaf ∷ some (record leaf { tree = pegged }) ∷ none ∷ none ∷ []

book_read : leaves_of book slots ≡ some book_leaves
unfolding best_leaf walk_leaf read_u32 as_signed read_signed read_unsigned ◌+ℤ◌ ◌*ℤ◌ to_number
    to_signed_number
book_read = refl

best_executable_side-IsBest_example :
    let ps = prices_of true 1 3 book_leaves in
    let b = best_over true ps none in
    (best_executable_side book true 1 3 ≡ some b)
    × All (Beats true b) ps
    × ((b ≡ none) ⊎ Among b ps)
best_executable_side-IsBest_example = best_executable_side-IsBest book true 1 3 book_read

abbrev insolvent : Seat
insolvent = record {
  inputs = record {
    available_collateral = negsuc 49;
    reserved_margin = pos 0;
    base_position = pos 1;
    quote_entry_value = pos 100;
    realized_pnl = pos 0;
  };
  sequence = 5;
}

abbrev market_header : MarketHeader
market_header = record {
  mode = 1;
  oracle_valid = true;
  last_verified_oracle_price = pos 100;
  maintenance_margin_bps = 500;
}

abbrev third_seat : ℕ → Option Seat
third_seat n = if n == 3 then some insolvent else none

abbrev third : LiquidationProjectionCandidate
third = record { seat_index = 3; projected_sequence = 5 }

third_found : flagged market_header 3 (third_seat 3) ≡ some (some third)
unfolding is_liquidatable notional equity unrealized_pnl fee_bps ◌+ℤ◌ ◌-ℤ◌ ◌*ℤ◌ ◌/ℤ◌
third_found = refl

sweeps_find_example :
    (j : ℕ) × ((j * min 2 128 < 128)
      × Finds third (scan_liquidation_candidates third_seat market_header (cursor_after j 120 2) 2))
sweeps_find_example =
    sweeps_find third_seat market_header 120 2 3 third (omega arith) (omega arith) third_found
