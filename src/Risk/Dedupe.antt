-- ===== src/Risk/Dedupe.antt =====
-- A page of candidates names each seat once.
use Prim.Native.Nat.{max, min}
use equinox.Prelude.{ℕ, ◌+◌, ◌≡◌, List, [], ◌∷◌, arith, ◌==◌, if◌then◌else◌}
use equinox.Risk.{LiquidationProjectionCandidate, set_candidate, dedupe_from, dedupe_candidates}

-- How many of the candidates are of a seat.
abbrev pub count : ℕ → List LiquidationProjectionCandidate → ℕ
count seat [] = 0
count seat (c ∷ cs) = (if c.seat_index == seat then 1 else 0) + count seat cs

set_candidate-count :
    (seat : ℕ) (c : LiquidationProjectionCandidate) (ds : List LiquidationProjectionCandidate)
    → count seat (set_candidate c ds) ≡ max (count seat ds) (if c.seat_index == seat then 1 else 0)
set_candidate-count seat c [] = ground arith
set_candidate-count seat c (d ∷ ds) = ground (arith, set_candidate-count seat c ds)

dedupe_from-count :
    (seat : ℕ) (by_seat cs : List LiquidationProjectionCandidate)
    → count seat (dedupe_from by_seat cs) ≡ max (count seat by_seat) (min 1 (count seat cs))
dedupe_from-count seat by_seat [] = omega arith
dedupe_from-count seat by_seat (c ∷ cs) =
    ground (
      arith,
      set_candidate-count seat c by_seat,
      dedupe_from-count seat (set_candidate c by_seat) cs,
    )

-- A seat is in the page once after the deduplication if it was there at all, and never twice.
pub dedupe_candidates-count :
    (seat : ℕ) (cs : List LiquidationProjectionCandidate)
    → count seat (dedupe_candidates cs) ≡ min 1 (count seat cs)
unfolding dedupe_candidates
dedupe_candidates-count seat cs = omega (arith, dedupe_from-count seat [] cs)
