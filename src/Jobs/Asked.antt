-- ===== src/Jobs/Asked.antt =====
-- The sequences that the commit ticks ask for.
use equinox.Prelude.{
  ℕ, ◌+◌, ◌-◌, ◌<◌, ◌≡◌, sym, subst, ◌∙◌, List, [], ◌∷◌, ltb, leb, arith, branches,
}
use equinox.Records.{CommitRecord, requested, committed, last_requested_sequence, record_commit}
use equinox.Records.Requested.{last_requested_sequence-record_commit}
use equinox.Jobs.{
  Circumstances, CommitTick, CommitState, submit_and_confirm, commit_work, run_commit_tick,
  run_commit_ticks,
}

-- Strictly falling, from below a bound.
abbrev pub Falling : ℕ → List ℕ → Type 0
Falling bound [] = Unit
Falling bound (x ∷ xs) = (x < bound) × Falling x xs

abbrev last_of : CommitState → ℕ
last_of s = last_requested_sequence s.commits

commit_work_last :
    (met : Circumstances) (s : CommitState)
    → last_of (commit_work (last_of s + 1) met s) ≡ last_of s + 1
unfolding commit_work
commit_work_last met s =
    let n = last_of s in
    let asked : CommitRecord = record { sequence = n + 1; status = requested } in
    let done : CommitRecord = record { sequence = n + 1; status = committed } in
    let noted = record_commit asked s.commits in
    let first : last_requested_sequence noted ≡ n + 1 =
      last_requested_sequence-record_commit asked s.commits ∙ omega arith in
    branches (λ (rows : List CommitRecord). last_requested_sequence rows ≡ n + 1)
      (submit_and_confirm (n + 1) met.accepted met.outcome s.attempts).returned
      (last_requested_sequence-record_commit done noted ∙ omega (arith, first)) first

commit_work_falls :
    (met : Circumstances) (s : CommitState)
    → Falling (last_of s + 1) s.asked
    → Falling
        (last_of (commit_work (last_of s + 1) met s) + 1)
        (commit_work (last_of s + 1) met s).asked
unfolding commit_work
commit_work_falls met s h = (omega (arith, commit_work_last met s), h)

run_commit_tick_falls :
    (tick : CommitTick) (s : CommitState)
    → Falling (last_of s + 1) s.asked
    → Falling (last_of (run_commit_tick tick s) + 1) (run_commit_tick tick s).asked
unfolding run_commit_tick
run_commit_tick_falls tick s h =
    let falls : CommitState → Type 0 = λ u. Falling (last_of u + 1) u.asked in
    branches falls (ltb (tick.now - tick.last_commit_tick_at) 30000) h (
      branches falls (leb tick.current_er_sequence (last_of s)) h (
        branches falls tick.commit_circumstances.admitted
          (commit_work_falls tick.commit_circumstances s h) h))

run_commit_ticks_fall :
    (ticks : List CommitTick) (s : CommitState)
    → Falling (last_of s + 1) s.asked
    → Falling (last_of (run_commit_ticks ticks s) + 1) (run_commit_ticks ticks s).asked
run_commit_ticks_fall [] s h = h
run_commit_ticks_fall (tick ∷ ticks) s h =
    run_commit_ticks_fall ticks (run_commit_tick tick s) (run_commit_tick_falls tick s h)

-- The commit ticks ask for each sequence at most once, in rising order, and never again for one whose
-- commit failed: newest first, the sequences asked for fall strictly from the last one on record.
pub commit_ticks-Falling :
    (ticks : List CommitTick) (s : CommitState)
    → s.asked ≡ []
    → Falling
        (last_requested_sequence (run_commit_ticks ticks s).commits + 1)
        (run_commit_ticks ticks s).asked
commit_ticks-Falling ticks s none_yet =
    run_commit_ticks_fall ticks s
      (subst (λ (xs : List ℕ). Falling (last_of s + 1) xs) (sym none_yet) tt)
