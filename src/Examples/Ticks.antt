-- ===== src/Examples/Ticks.antt =====
-- Keeper ticks on small runs.
use equinox.Prelude.{ℕ, ◌+◌, ◌≡◌, refl, Bool, true, some, List, [], ◌∷◌}
use equinox.Prelude.Int.{ℤ}
use equinox.Confirm.{reached, confirmed, blockhash_expired}
use equinox.Records.{last_requested_sequence}
use equinox.Jobs.{Circumstances, CommitTick, CommitState, run_commit_ticks, CleanupTick}
use equinox.Jobs.{PythTick, PythState, run_pyth_tick, run_pyth_ticks}
use equinox.Jobs.Applied.{pyth_update_once}
use equinox.Records.{OracleUpdate, submitted}
use equinox.Jobs.Asked.{Falling, commit_ticks-Falling}

abbrev landing : Circumstances
landing = record { admitted = true; accepted = true; outcome = reached confirmed }

abbrev expiring : Circumstances
expiring = record { admitted = true; accepted = true; outcome = blockhash_expired }

abbrev commit_at : ℕ → Circumstances → CommitTick
commit_at sequence met = record {
  now = 90000;
  last_commit_tick_at = 30000;
  current_er_sequence = sequence;
  commit_circumstances = met;
}

abbrev three_ticks : List CommitTick
three_ticks = commit_at 4 expiring ∷ commit_at 9 landing ∷ commit_at 9 landing ∷ []

abbrev uncommitted : CommitState
uncommitted = record { commits = []; attempts = []; asked = [] }

commit_ticks-Falling_example :
    Falling
      (last_requested_sequence (run_commit_ticks three_ticks uncommitted).commits + 1)
      (run_commit_ticks three_ticks uncommitted).asked
commit_ticks-Falling_example = commit_ticks-Falling three_ticks uncommitted refl

abbrev any_build : ℤ → Bool
any_build removals = true

abbrev five_nodes : CleanupTick
five_nodes = record { book_size = 5; cleanup_circumstances = landing }

abbrev price_update : OracleUpdate
price_update = record { timestamp = 50; feed_id = "feed"; payload_hash = "abc"; status = submitted }

abbrev pyth_with : Circumstances → PythTick
pyth_with met = record { update = some price_update; prepared = true; pyth_circumstances = met }

abbrev nothing_sent : PythState
nothing_sent = record { updates = []; pyths = []; sends = [] }

pyth_update_once_example :
    ((run_pyth_tick (pyth_with expiring) nothing_sent).sends ≡ 50 ∷ [])
    × (run_pyth_ticks (pyth_with landing ∷ []) (run_pyth_tick (pyth_with expiring) nothing_sent)
        ≡ run_pyth_tick (pyth_with expiring) nothing_sent)
pyth_update_once_example =
    pyth_update_once price_update (pyth_with expiring) (pyth_with landing ∷ []) nothing_sent refl
      refl tt (refl, tt)
