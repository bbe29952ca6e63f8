-- ===== src/V3/Mark.antt =====
-- The mark of a V3 market.
use equinox.Prelude.{
  if◌then◌else◌, not, ◌||◌, ℕ, zero, suc, ◌<◌, ◌≡◌, Bool, true, false, Option, none, some, List,
  ◌++◌, arith, ap, sym, ◌∙◌, subst, some_injective,
}
use equinox.Prelude.Int.{pos}
use equinox.Mark.{quote, MarkQuote, best_over, positive}
use equinox.Mark.Band.{IsBanded, IsExact, small_number, quote-IsBanded}
use equinox.V3.{V3CoreState, V3BookNodeState, executable_v3_mark, mark_at, node_prices, is_live}

mark_at-IsBanded :
    (index now : ℕ) (nodes : List V3BookNodeState) {q : MarkQuote}
    → IsExact index 500
    → mark_at (positive (pos index)) nodes now ≡ some q
    → (0 < index) × IsBanded index 500 q.price
mark_at-IsBanded zero now nodes exact h = ground arith
mark_at-IsBanded (suc n) now nodes exact h =
    let prices = λ (side_bid : Bool). node_prices side_bid (pos (suc n)) now nodes in
    let bid = best_over true (prices true) none in
    let ask = best_over false (prices false) none in
    let whole = small_number (suc n) (omega (arith, exact.exact_sum)) in
    let same = ap (λ (k : ℕ). quote k 500 bid ask) (sym whole) ∙ some_injective h in
    (
      omega arith,
      subst (λ (q : MarkQuote). IsBanded (suc n) 500 q.price) same
          (quote-IsBanded (suc n) 500 bid ask (omega arith) exact),
    )

guarded :
    (live valid : Bool) (o : Option MarkQuote) {q : MarkQuote}
    → (if not live || not valid then none else o) ≡ some q
    → (valid ≡ true) × (o ≡ some q)
guarded live valid o h = ground arith

-- Whatever the book holds, a V3 mark lies within 500 basis points of the core's oracle price, which
-- is positive and valid then, where the price is at most 2 ^ 52 and 500 times it at most 2 ^ 53.
pub executable_v3_mark-IsBanded :
    (core : V3CoreState) (bids asks : List V3BookNodeState) (now : ℕ) {q : MarkQuote} {index : ℕ}
    → core.last_verified_oracle_price ≡ pos index
    → IsExact index 500
    → executable_v3_mark core bids asks now ≡ some q
    → (core.oracle_valid ≡ true) × (0 < index) × IsBanded index 500 q.price
unfolding executable_v3_mark
executable_v3_mark-IsBanded core bids asks now {index = index} e exact h =
    let o = mark_at (positive core.last_verified_oracle_price) (bids ++ asks) now in
    let (valid, h') = guarded (is_live core.mode) core.oracle_valid o h in
    let (above, banded) = mark_at-IsBanded index now (bids ++ asks) exact (rw e at h') in
    (valid, above, banded)
