-- ===== src/DeadLetters/Backoff.antt =====
-- The backoff doubles up to its cap.
use Prim.Native.Nat.{min}
use native.Mathlib.Nat.{pow-suc}
use equinox.Prelude.{ℕ, suc, ◌-◌, ◌*◌, ◌^◌, ◌≤◌, ◌≡◌, arith}
use equinox.DeadLetters.{retry_delay_from}

step_doubles : (n base : ℕ) → base * 2 ^ (suc (suc n) - 1) ≡ 2 * (base * 2 ^ (suc n - 1))
step_doubles n base =
    let e : suc (suc n) - 1 ≡ suc n = omega arith in
    let e' : suc n - 1 ≡ n = omega arith in rw (e, e', pow-suc 2 n) (omega arith)

-- From one attempt to the next the delay doubles, up to its maximum: it never falls, and never
-- passes the maximum.
pub retry_delay_doubles :
    (n base_ms max_ms : ℕ)
    → let d = retry_delay_from (suc n) base_ms max_ms in
      let d' = retry_delay_from (suc (suc n)) base_ms max_ms in
      (d' ≡ min max_ms (2 * d)) × (d ≤ d') × (d' ≤ max_ms)
unfolding retry_delay_from
retry_delay_doubles n base_ms max_ms = omega (arith, step_doubles n base_ms)
