-- ===== src/RateLimits/Bound.antt =====
-- A window admits no more calls than its limit.
use Prim.Native.String.{String}
use text.Mathlib.TextPositions.{eq_refl}
use equinox.Prelude.{
  ℕ, ◌+◌, ◌≡◌, ◌≤◌, ◌<◌, Bool, true, false, Option, none, some, List, [], ◌∷◌, All, arith,
}
use equinox.Store.{Result, ok, err, RateLimit, Store}
use equinox.RateLimits.{allow}

-- A call at a time, with the window's length that it asks for.
pub record Attempt : Type 0 where
  pub at_ms : ℕ
  pub window_ms : ℕ

abbrev pub admitted : Result Bool → ℕ
admitted (ok true) = 1
admitted (ok false) = 0
admitted (err e) = 0

-- A window that ends at `until`, with no more calls counted than the limit.
abbrev pub IsOpen : ℕ → ℕ → Option RateLimit → Type 0
IsOpen limit until none = ⊥
IsOpen limit until (some row) = (row.expires_at ≡ until) × (row.count ≤ limit)

abbrev pub count_of : Option RateLimit → ℕ
count_of none = 0
count_of (some row) = row.count

module _ {A : Type 0} where
  -- How many of the calls are admitted.
  abbrev pub admissions : String → ℕ → List Attempt → Store A → ℕ
  admissions key limit [] s = 0
  admissions key limit (c ∷ cs) s =
      let (r, t) = allow key limit c.window_ms c.at_ms s in admitted r + admissions key limit cs t

  -- A call inside the window is admitted only below the limit, and counts itself.
  allow_inside :
      (key : String) (limit until : ℕ) (c : Attempt) (s : Store A)
      → IsOpen limit until (s.rate_limits key)
      → c.at_ms < until
      → let (r, t) = allow key limit c.window_ms c.at_ms s in
        IsOpen limit until (t.rate_limits key)
        × (count_of (t.rate_limits key) ≡ admitted r + count_of (s.rate_limits key))
  unfolding allow
  allow_inside key limit until c s w h = ground (arith, eq_refl key)

  -- Of the calls that come before the key's open window ends, at most as many are admitted as the
  -- limit leaves beside those already counted.
  pub admissions-le-limit :
      (key : String) (limit until : ℕ) (cs : List Attempt) (s : Store A)
      → IsOpen limit until (s.rate_limits key)
      → All (λ c. c.at_ms < until) cs
      → admissions key limit cs s + count_of (s.rate_limits key) ≤ limit
  admissions-le-limit key limit until [] s w h = ground arith
  admissions-le-limit key limit until (c ∷ cs) s w h =
      let t = (allow key limit c.window_ms c.at_ms s).1 in
      let (w', n) = allow_inside key limit until c s w h.0 in
      omega (arith, n, admissions-le-limit key limit until cs t w' h.1)
