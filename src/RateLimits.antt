-- ===== src/RateLimits.antt =====
-- `ProtocolRepository.allow` of workers/src/repositories.ts: a counter for each key and window.
pub mod Bound
use Prim.Native.String.{String}
use equinox.Prelude.{
  ℕ, ◌+◌, Bool, true, false, Option, none, some, ◌||◌, ltb, leb, ◌==◌, if◌then◌else◌,
}
use equinox.Store.{
  ok, put, RateLimit, Store, Action, pure, ◌>>=◌, ◌>>◌, integer, expiry, identifier,
}

-- The row that the INSERT ... ON CONFLICT DO UPDATE writes, `none` where its WHERE is false.
unfoldable pub counted : ℕ → ℕ → ℕ → Option RateLimit → Option RateLimit
counted limit now until none = some (record { window_start = now; count = 1; expires_at = until })
counted limit now until (some row) =
    if leb row.expires_at now || ltb row.count limit
    then some (record {
      window_start = if leb row.expires_at now then now else row.window_start;
      count = if leb row.expires_at now then 1 else row.count + 1;
      expires_at = if leb row.expires_at now then until else row.expires_at;
    })
    else none

module _ {A : Type 0} where
  abbrev pub count_call : String → ℕ → ℕ → ℕ → Action A Bool
  count_call key limit now until s = elim (counted limit now until (s.rate_limits key)) [
    | none ↦ (ok false, s)
    | some row ↦ (ok true, record s { rate_limits = put key (some row) s.rate_limits })
  ]

  unfoldable pub allow : String → ℕ → ℕ → ℕ → Action A Bool
  unfolding counted
  allow key limit window_ms now = do
    identifier key
    integer limit
    until ← expiry now window_ms
    if limit == 0 then pure false else count_call key limit now until
