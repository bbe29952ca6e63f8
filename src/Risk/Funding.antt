-- ===== src/Risk/Funding.antt =====
-- The funding of one interval is bounded by the cap and has the premium's sign.
use native.Mathlib.Nat.{mul-le-mul_right}
use equinox.Prelude.{ℕ, zero, suc, ◌*◌, ◌/◌, ◌≤◌, ◌≡◌, refl, arith}
use equinox.Prelude.Int.{ℤ, pos, negsuc, ◌-ℤ◌, ◌*ℤ◌, ◌/ℤ◌, sub_ℕ}
use equinox.Risk.{FundingPolicy, clamp_premium, compute_capped_funding_delta, magnitude}

clamp_bounds : (premium : ℤ) (cap : ℕ) → magnitude (clamp_premium premium cap) ≤ cap
unfolding ◌-ℤ◌
clamp_bounds premium cap = ground arith

magnitude-sub_ℕ : (n : ℕ) → magnitude (sub_ℕ 0 n) ≡ n
magnitude-sub_ℕ n = ground arith

div_magnitude : (v : ℤ) (d : ℕ) → magnitude (v /ℤ d) ≡ magnitude v / d
unfolding ◌/ℤ◌
div_magnitude (pos n) d = refl
div_magnitude (negsuc n) d = magnitude-sub_ℕ (suc n / d)

mul_magnitude : (v : ℤ) (n : ℕ) → magnitude (v *ℤ pos n) ≡ magnitude v * n
unfolding ◌*ℤ◌
mul_magnitude (pos k) n = ground arith
mul_magnitude (negsuc k) n = ground arith

-- What an interval adds to the funding is at most the cap on the rate, at the accumulator's scale,
-- in either direction, whatever the prices are.
pub delta_capped :
    (index_price mark_price : ℤ) (policy : FundingPolicy)
    → magnitude (compute_capped_funding_delta index_price mark_price policy)
      ≤ policy.cap_bps * policy.scale / 10000
unfolding compute_capped_funding_delta
delta_capped (pos zero) mark_price policy = omega arith
delta_capped (negsuc n) mark_price policy = omega arith
delta_capped (pos (suc n)) mark_price policy =
    let premium = ((mark_price -ℤ pos (suc n)) *ℤ pos 10000) /ℤ suc n in
    let c = clamp_premium premium policy.cap_bps in
    rw (div_magnitude (c *ℤ pos policy.scale) 10000, mul_magnitude c policy.scale)
      (omega (arith, mul-le-mul_right policy.scale (clamp_bounds premium policy.cap_bps)))
