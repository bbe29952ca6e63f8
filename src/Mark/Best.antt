-- ===== src/Mark/Best.antt =====
-- The best price of a side is the best of the orders that can be executed.
use equinox.Prelude.{
  ℕ, ◌≤◌, ◌≡◌, refl, ◌∙◌, ◌⊎◌, inl, inr, Bool, true, false, Option, none, some, List, [], ◌∷◌, All,
  arith,
}
use equinox.Bytes.{Bytes}
use equinox.Mark.{Leaf, improve, best_over, best_executable_side, leaves_of, prices_of, slots}

-- No worse than the price: not below it for a bid, not above it for an ask.
abbrev pub Beats : Bool → Option ℕ → Option ℕ → Type 0
Beats side_bid best none = Unit
Beats side_bid none (some p) = ⊥
Beats true (some b) (some p) = p ≤ b
Beats false (some b) (some p) = b ≤ p

abbrev pub Among : Option ℕ → List (Option ℕ) → Type 0
Among b [] = ⊥
Among b (p ∷ ps) = (b ≡ p) ⊎ Among b ps

improve-Beats :
    (side_bid : Bool) (best p : Option ℕ)
    → let b = improve side_bid best p in
      Beats side_bid b best × Beats side_bid b p × ((b ≡ best) ⊎ (b ≡ p))
unfolding improve
improve-Beats true best p = ground arith
improve-Beats false best p = ground arith

Beats-trans :
    (side_bid : Bool) (a b c : Option ℕ)
    → Beats side_bid a b
    → Beats side_bid b c
    → Beats side_bid a c
Beats-trans true a b c h k = ground arith
Beats-trans false a b c h k = ground arith

best_over-IsBest :
    (side_bid : Bool) (ps : List (Option ℕ)) (best : Option ℕ)
    → let b = best_over side_bid ps best in
      Beats side_bid b best × All (Beats side_bid b) ps × ((b ≡ best) ⊎ Among b ps)
unfolding best_over
best_over-IsBest true [] best = ground arith
best_over-IsBest false [] best = ground arith
best_over-IsBest side_bid (p ∷ ps) best =
    let b = improve side_bid best p in
    let (beats, beats_p, which) = improve-Beats side_bid best p in
    let (h, all, w) = best_over-IsBest side_bid ps b in
    let r = best_over side_bid ps b in
    (
      Beats-trans side_bid r b best h beats,
      (Beats-trans side_bid r b p h beats_p, all),
      (elim w [
        | inr a ↦ inr (inr a)
        | inl e ↦ elim which [ inl k ↦ inl (e ∙ k) | inr k ↦ inr (inl (e ∙ k)) ]
      ]),
    )

-- The best price of a side is no worse than that of any of the four best leaves that can be
-- executed on that side, and is one of these; there is none only if none can be executed.
pub best_executable_side-IsBest :
    (bytes : Bytes) (side_bid : Bool) (oracle now : ℕ) {leaves : List (Option Leaf)}
    → leaves_of bytes slots ≡ some leaves
    → let ps = prices_of side_bid oracle now leaves in
      let b = best_over side_bid ps none in
      (best_executable_side bytes side_bid oracle now ≡ some b)
      × All (Beats side_bid b) ps
      × ((b ≡ none) ⊎ Among b ps)
unfolding best_executable_side
best_executable_side-IsBest bytes side_bid oracle now {leaves = leaves} e =
    let ps = prices_of side_bid oracle now leaves in
    let (h, all, w) = best_over-IsBest side_bid ps none in (rw e refl, all, w)
