-- ===== src/Jobs/Stuck.antt =====
-- A sweep whose offset has been recorded before never advances again.
use equinox.Prelude.{
  ℕ, ◌≡◌, refl, ap, ◌∙◌, Bool, true, false, none, some, is_some, get_or, List, [], ◌∷◌, not, ◌==◌,
  if◌then◌else◌, branches,
}
use equinox.Prelude.Int.{ℤ, pos, ◌-ℤ◌}
use equinox.Confirm.{Outcome}
use equinox.Jobs.{
  Attempts, find, submit_and_confirm, Circumstances, CleanupTick, CleanupState, sweep_end,
  next_offset, cleanup_work, run_cleanup_tick, run_cleanup_ticks,
}

-- The insert fails: the rows stay, and the call throws.
seen_before :
    (id : ℕ) (accepted : Bool) (outcome : Outcome) (rows : Attempts)
    → is_some (find rows id) ≡ true
    → ((submit_and_confirm id accepted outcome rows).returned ≡ false)
      × ((submit_and_confirm id accepted outcome rows).rows ≡ rows)
unfolding submit_and_confirm
seen_before id true outcome rows h = (simp h refl, simp h refl)
seen_before id false outcome rows h = (refl, refl)

-- The cursor stands at an offset that has a row.
abbrev pub Recorded : CleanupState → Type 0
Recorded s = is_some (find s.cleanups (get_or s.cursor 0)) ≡ true

cleanup_work_stays :
    (builds : ℤ → Bool) (book_size : ℕ) (met : Circumstances) (s : CleanupState)
    → Recorded s
    → ((cleanup_work builds (get_or s.cursor 0) book_size met s).cursor ≡ s.cursor)
      × ((cleanup_work builds (get_or s.cursor 0) book_size met s).cleanups ≡ s.cleanups)
unfolding cleanup_work
cleanup_work_stays builds book_size met s h =
    let offset = get_or s.cursor 0 in
    let (thrown, kept) = seen_before offset met.accepted met.outcome s.cleanups h in
    branches (λ (u : CleanupState). (u.cursor ≡ s.cursor) × (u.cleanups ≡ s.cleanups))
      (not (builds (pos (sweep_end offset book_size) -ℤ pos offset))) (refl, refl)
      (ap (λ b. if b then some (next_offset offset book_size) else s.cursor) thrown, kept)

run_cleanup_tick_stays :
    (builds : ℤ → Bool) (tick : CleanupTick) (s : CleanupState)
    → Recorded s
    → ((run_cleanup_tick builds tick s).cursor ≡ s.cursor)
      × ((run_cleanup_tick builds tick s).cleanups ≡ s.cleanups)
unfolding run_cleanup_tick
run_cleanup_tick_stays builds tick s h =
    let same : CleanupState → Type 0 = λ u. (u.cursor ≡ s.cursor) × (u.cleanups ≡ s.cleanups) in
    branches same (tick.book_size == 0) (refl, refl)
      (branches same tick.cleanup_circumstances.admitted
        (cleanup_work_stays builds tick.book_size tick.cleanup_circumstances s h) (refl, refl))

-- Once the attempt of the cursor's offset is on record, every later tick leaves the cursor and the
-- attempts as they are, whatever the book, the node and the outcomes.
pub run_cleanup_ticks_stay :
    (builds : ℤ → Bool) (ticks : List CleanupTick) (s : CleanupState)
    → Recorded s
    → ((run_cleanup_ticks builds ticks s).cursor ≡ s.cursor)
      × ((run_cleanup_ticks builds ticks s).cleanups ≡ s.cleanups)
run_cleanup_ticks_stay builds [] s h = (refl, refl)
run_cleanup_ticks_stay builds (tick ∷ ticks) s h =
    let (cursor, rows) = run_cleanup_tick_stays builds tick s h in
    let still : Recorded (run_cleanup_tick builds tick s) =
      ap (λ (r : Attempts). is_some (find r (get_or (run_cleanup_tick builds tick s).cursor 0)))
        rows
      ∙ ap (λ c. is_some (find s.cleanups (get_or c 0))) cursor
      ∙ h in
    let (later_cursor, later_rows) =
      run_cleanup_ticks_stay builds ticks (run_cleanup_tick builds tick s) still in
    (later_cursor ∙ cursor, later_rows ∙ rows)

abbrev pub unswept : CleanupState
unswept = record { cursor = none; cleanups = [] }
