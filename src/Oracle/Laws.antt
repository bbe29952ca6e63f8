-- ===== src/Oracle/Laws.antt =====
-- The oracle is shown as fresh only if everything that is known says so.
use equinox.Prelude.{
  ℕ, ◌+◌, ◌≤◌, ◌≡◌, ◌↔◌, true, Option, none, some, List, [], ◌∷◌, ◌++◌, arith, get_or,
}
use equinox.Oracle.{
  OracleSafetyInput, fresh, overridden, derive_oracle_safety, RawEvent, Best, counted, newer,
  latest,
}

abbrev pub IsRecent : Option ℕ → ℕ → ℕ → Type 0
IsRecent none now threshold = ⊥
IsRecent (some timestamp) now threshold = now ≤ timestamp + threshold

-- Where no event overrides it, the oracle is shown as fresh exactly if the account was read and
-- says that it is valid, and its timestamp is known and no older than the threshold, 120 s if none
-- is given.
pub fresh_while_young :
    (i : OracleSafetyInput)
    → overridden i.latest_lifecycle_event_kind ≡ none
    → (derive_oracle_safety i ≡ fresh) ↔ (
        (i.oracle_valid ≡ some true)
        × IsRecent i.last_verified_oracle_timestamp i.now_unix_seconds
            (get_or i.staleness_threshold_seconds 120))
unfolding derive_oracle_safety
fresh_while_young i h = ground arith

-- No later than the best.
abbrev pub IsNewest : Option Best → Option Best → Type 0
IsNewest best none = Unit
IsNewest none (some e) = ⊥
IsNewest (some best) (some e) = e.sequence ≤ best.sequence

newer-IsNewest : (best e : Option Best) → let b = newer best e in IsNewest b best × IsNewest b e
unfolding newer
newer-IsNewest best e = ground arith

IsNewest-trans : (a b c : Option Best) → IsNewest a b → IsNewest b c → IsNewest a c
IsNewest-trans a b c h k = ground arith

latest-start : (best : Option Best) (es : List RawEvent) → IsNewest (latest best es) best
unfolding latest
latest-start none [] = tt
latest-start (some b) [] = omega arith
latest-start best (e ∷ es) =
    let b = newer best (counted e) in
    IsNewest-trans (latest b es) b best (latest-start b es) (newer-IsNewest best (counted e)).0

-- Of the events that have a sequence and one of the known kinds, none is later than the one whose
-- kind is shown, wherever they stand in the list.
pub latest-IsNewest :
    (best : Option Best) (pre : List RawEvent) (e : RawEvent) (post : List RawEvent)
    → IsNewest (latest best (pre ++ (e ∷ post))) (counted e)
unfolding latest
latest-IsNewest best [] e post =
    let b = newer best (counted e) in
    IsNewest-trans (latest b post) b (counted e) (latest-start b post)
      (newer-IsNewest best (counted e)).1
latest-IsNewest best (x ∷ pre) e post = latest-IsNewest (newer best (counted x)) pre e post
