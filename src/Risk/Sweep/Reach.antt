-- ===== src/Risk/Sweep/Reach.antt =====
-- The sweeps reach every seat.
use Prim.Native.Nat.{min}
use native.Mathlib.Nat.{div-add-mod', mod-lt}
use equinox.Prelude.{
  subst, sym, ◌∙◌, ℕ, zero, suc, ◌+◌, ◌-◌, ◌*◌, ◌/◌, ◌%◌, ◌<◌, ◌≡◌, refl, ◌⊎◌, inl, inr, Option,
  none, some, List, [], ◌∷◌, arith,
}
use equinox.Risk.{LiquidationProjectionCandidate, MarketHeader, Seat, ◌>>=◌}
use equinox.Risk.Sweep.{flagged, add_flagged, scan_from, next_cursor, scan_liquidation_candidates}

abbrev pub Among : LiquidationProjectionCandidate → List LiquidationProjectionCandidate → Type 0
Among c [] = ⊥
Among c (d ∷ ds) = (c ≡ d) ⊎ Among c ds

add_flagged-Among :
    (found : Option LiquidationProjectionCandidate) (c : LiquidationProjectionCandidate)
    (cs : List LiquidationProjectionCandidate)
    → Among c cs
    → Among c (add_flagged found cs)
add_flagged-Among none c cs h = h
add_flagged-Among (some d) c cs h = inr h

bind_some :
    {A B : Type 0} (o : Option A) (f : A → Option B) {b : B}
    → (o >>= f) ≡ some b
    → (a : A) × ((o ≡ some a) × (f a ≡ some b))
bind_some none f h = absurd (ground arith)
bind_some (some a) f h = (a, (refl, h))

some_eq : {A : Type 0} {a b : A} → some a ≡ some b → a ≡ b
some_eq h = ground arith

-- The round `i + k` flags the candidate.
abbrev FlagsAt : (ℕ → Option Seat) → MarketHeader → ℕ → LiquidationProjectionCandidate → ℕ → Type 0
FlagsAt seats header start c m =
    flagged header ((start + m) % 128) (seats ((start + m) % 128)) ≡ some (some c)

first-Among :
    (c : LiquidationProjectionCandidate) (found : Option LiquidationProjectionCandidate)
    (rest : List LiquidationProjectionCandidate)
    → found ≡ some c
    → Among c (add_flagged found rest)
first-Among c none rest e = absurd (ground arith)
first-Among c (some d) rest e = inl (sym (some_eq e))

-- A seat that is flagged in a round that comes is among the candidates.
scan_from-Among :
    (seats : ℕ → Option Seat) (header : MarketHeader) (start i rounds k : ℕ)
    (c : LiquidationProjectionCandidate) {cs : List LiquidationProjectionCandidate}
    → scan_from seats header start i rounds ≡ some cs
    → k < rounds
    → FlagsAt seats header start c (i + k)
    → Among c cs
scan_from-Among seats header start i zero k c h l e = absurd (omega (arith, l))
scan_from-Among seats header start i (suc rounds) zero c h l e =
    let n = (start + i) % 128 in
    let (found, (e₁, h₁)) = bind_some (flagged header n (seats n)) _ h in
    let (rest, (e₂, h₂)) = bind_some (scan_from seats header start (suc i) rounds) _ h₁ in
    let same : i + 0 ≡ i = omega arith in
    let here : FlagsAt seats header start c i = subst (FlagsAt seats header start c) same e in
    subst (Among c) (some_eq h₂) (first-Among c found rest (some_eq (sym e₁ ∙ here)))
scan_from-Among seats header start i (suc rounds) (suc k) c h l e =
    let n = (start + i) % 128 in
    let (found, (e₁, h₁)) = bind_some (flagged header n (seats n)) _ h in
    let (rest, (e₂, h₂)) = bind_some (scan_from seats header start (suc i) rounds) _ h₁ in
    let same : i + suc k ≡ suc i + k = omega arith in
    let there : FlagsAt seats header start c (suc i + k) =
      subst (FlagsAt seats header start c) same e in
    subst (Among c) (some_eq h₂) (
      add_flagged-Among found c rest
        (scan_from-Among seats header start (suc i) rounds k c e₂ (omega (arith, l)) there))

-- The cursor after some sweeps.
abbrev pub cursor_after : ℕ → ℕ → ℕ → ℕ
cursor_after zero cursor batch_size = cursor
cursor_after (suc sweeps) cursor batch_size =
    next_cursor (cursor_after sweeps cursor batch_size) batch_size

cursor_after-mod :
    (sweeps cursor batch : ℕ)
    → cursor_after sweeps cursor batch % 128 ≡ (cursor + sweeps * min batch 128) % 128
cursor_after-mod zero cursor batch = omega arith
cursor_after-mod (suc sweeps) cursor batch = omega (arith, cursor_after-mod sweeps cursor batch)

-- The candidate is found, unless the sweep throws.
abbrev pub Finds :
    LiquidationProjectionCandidate → Option (List LiquidationProjectionCandidate × ℕ) → Type 0
Finds c none = Unit
Finds c (some r) = Among c r.0

by_scan :
    (c : LiquidationProjectionCandidate) (next : ℕ)
    (o : Option (List LiquidationProjectionCandidate))
    → ((cs : List LiquidationProjectionCandidate) → o ≡ some cs → Among c cs)
    → Finds c (o >>= λ cs. some (cs, next))
by_scan c next none f = tt
by_scan c next (some cs) f = f cs refl

scan-Finds :
    (seats : ℕ → Option Seat) (header : MarketHeader) (cursor batch k : ℕ)
    (c : LiquidationProjectionCandidate)
    → k < min batch 128
    → FlagsAt seats header (cursor % 128) c k
    → Finds c (scan_liquidation_candidates seats header cursor batch)
unfolding scan_liquidation_candidates
scan-Finds seats header cursor batch k c l e =
    let same : k ≡ 0 + k = omega arith in
    by_scan c (next_cursor cursor batch) (scan_from seats header (cursor % 128) 0 (min batch 128))
      λ cs h.
        scan_from-Among seats header (cursor % 128) 0 (min batch 128) k c h l
          (subst (FlagsAt seats header (cursor % 128) c) same e)

-- The place of a seat: how many sweeps come before it, and its round in the next one.
place :
    (cursor batch n : ℕ)
    → 0 < batch
    → n < 128
    → (j : ℕ) × ((k : ℕ) × ((j * min batch 128 < 128)
          × (k < min batch 128)
          × ((cursor_after j cursor batch % 128 + k) % 128 ≡ n)))
place cursor batch n h l =
    let b = min batch 128 in
    let d = (n + 128 - cursor % 128) % 128 in
    let j = d / b in
    let k = d % b in
    let positive : 0 < b = omega (arith, h) in
    let split : d / b * b + d % b ≡ d = div-add-mod' d b in
    let lt : d % b < b = mod-lt d positive in
    (j, (k, (omega (arith, split), lt, omega (arith, split, cursor_after-mod j cursor batch, l))))

-- If the market and its oracle stay as they are, a seat that is flagged is found by one of the
-- sweeps from any cursor, before they have covered 128 seats, or that sweep throws: none of the
-- 128 seats is passed over.
pub sweeps_find :
    (seats : ℕ → Option Seat) (header : MarketHeader) (cursor batch n : ℕ)
    (c : LiquidationProjectionCandidate)
    → 0 < batch
    → n < 128
    → flagged header n (seats n) ≡ some (some c)
    → (j : ℕ) × ((j * min batch 128 < 128)
        × Finds c (scan_liquidation_candidates seats header (cursor_after j cursor batch) batch))
sweeps_find seats header cursor batch n c h l e =
    let (j, (k, (few, lt, at))) = place cursor batch n h l in
    (
      j,
      (
        few,
        scan-Finds seats header (cursor_after j cursor batch) batch k c lt
            (subst (λ (m : ℕ). flagged header m (seats m) ≡ some (some c)) (sym at) e),
      ),
    )
