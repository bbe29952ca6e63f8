-- ===== src/Jobs/Applied.antt =====
-- An oracle update is worked on once.
use Prim.Native.String.{String}
use text.Mathlib.Text.{◌==◌ as str_eq}
use text.Mathlib.TextPositions.{eq_refl}
use equinox.Prelude.{
  ℕ, ◌≡◌, refl, sym, ap, ◌∙◌, Bool, true, false, Bool-cases, branches, some, List, [], ◌∷◌, not,
  ◌==◌, if◌then◌else◌, All, arith, inl, inr,
}
use equinox.Records
use equinox.Records.{OracleUpdate, UpdateStatus, already_applied, record_update}
use equinox.Jobs.{
  Circumstances, PythTick, PythState, submit_and_confirm, pyth_work, pyth_tick_for, run_pyth_tick,
  run_pyth_ticks,
}

-- No row at a timestamp.
abbrev pub Unseen : ℕ → List OracleUpdate → Type 0
Unseen timestamp rows = All (λ (r : OracleUpdate). (r.timestamp == timestamp) ≡ false) rows

own : (k : ℕ) → (k == k) ≡ true
own k = ground arith

recorded_new :
    (u : OracleUpdate) (rows : List OracleUpdate)
    → Unseen u.timestamp rows
    → already_applied u.timestamp u.payload_hash (record_update u rows) ≡ true
unfolding already_applied record_update
recorded_new u [] h = simp (own u.timestamp) (eq_refl u.payload_hash)
recorded_new u (r ∷ rs) (other, h) = simp (other, other) (recorded_new u rs h)

recorded_again :
    (u : OracleUpdate) (hash : String) (rows : List OracleUpdate)
    → already_applied u.timestamp hash rows ≡ true
    → already_applied u.timestamp hash (record_update u rows) ≡ true
unfolding already_applied record_update
recorded_again u hash [] h = ground arith
recorded_again u hash (r ∷ rs) h =
    let before = already_applied u.timestamp hash rs in
    let read : Bool → Bool = λ b. if b then str_eq r.payload_hash hash else before in
    elim (Bool-cases (r.timestamp == u.timestamp)) [
      | inl same ↦ simp (same, same) (sym (ap read same) ∙ h)
      | inr other ↦ simp (other, other) (recorded_again u hash rs (sym (ap read other) ∙ h))
    ]

pyth_work_applied :
    (u : OracleUpdate) (prepared : Bool) (met : Circumstances) (s : PythState)
    → Unseen u.timestamp s.updates
    → already_applied u.timestamp u.payload_hash (pyth_work u prepared met s).updates ≡ true
unfolding pyth_work
pyth_work_applied u prepared met s h =
    let applied : PythState → Type 0 =
      λ t. already_applied u.timestamp u.payload_hash t.updates ≡ true in
    let noted = recorded_new (record u { status = Records.submitted }) s.updates h in
    branches applied (not prepared) noted (
      recorded_again
        (record u {
          status =
              if (submit_and_confirm u.timestamp met.accepted met.outcome s.pyths).returned
              then Records.confirmed
              else Records.rejected;
        })
        u.payload_hash (record_update (record u { status = Records.submitted }) s.updates) noted)

Unseen-unapplied :
    (timestamp : ℕ) (hash : String) (rows : List OracleUpdate)
    → Unseen timestamp rows
    → already_applied timestamp hash rows ≡ false
unfolding already_applied
Unseen-unapplied timestamp hash [] h = refl
Unseen-unapplied timestamp hash (r ∷ rs) (other, h) =
    simp other (Unseen-unapplied timestamp hash rs h)

first_works :
    (u : OracleUpdate) (tick : PythTick) (s : PythState)
    → tick.update ≡ some u
    → tick.pyth_circumstances.admitted ≡ true
    → Unseen u.timestamp s.updates
    → run_pyth_tick tick s ≡ pyth_work u tick.prepared tick.pyth_circumstances s
unfolding run_pyth_tick
first_works u tick s e admitted h =
    ap (λ o. pyth_tick_for o tick.prepared tick.pyth_circumstances s) e
    ∙ simp (Unseen-unapplied u.timestamp u.payload_hash s.updates h, admitted) refl

applied_idle :
    (u : OracleUpdate) (ticks : List PythTick) (s : PythState)
    → All (λ (tick : PythTick). tick.update ≡ some u) ticks
    → already_applied u.timestamp u.payload_hash s.updates ≡ true
    → run_pyth_ticks ticks s ≡ s
unfolding run_pyth_tick
applied_idle u [] s e h = refl
applied_idle u (tick ∷ ticks) s (e, es) h =
    let idle : run_pyth_tick tick s ≡ s =
      ap (λ o. pyth_tick_for o tick.prepared tick.pyth_circumstances s) e ∙ simp h refl in
    ap (λ t. run_pyth_ticks ticks t) idle ∙ applied_idle u ticks s es h

-- Of the calls of `sendTransaction`: one more if the transaction was built.
work_sends :
    (u : OracleUpdate) (prepared : Bool) (met : Circumstances) (s : PythState)
    → (pyth_work u prepared met s).sends ≡ (if prepared then u.timestamp ∷ s.sends else s.sends)
unfolding pyth_work
work_sends u true met s = refl
work_sends u false met s = refl

-- When the Pyth keeper is admitted to an update, of a timestamp that had no row, it calls
-- `sendTransaction` once if its transaction was built and not at all otherwise; and every later tick
-- with the same update changes no row and calls it no more, whether the first transaction landed,
-- failed or was never built.
pub pyth_update_once :
    (u : OracleUpdate) (tick : PythTick) (ticks : List PythTick) (s : PythState)
    → tick.update ≡ some u
    → tick.pyth_circumstances.admitted ≡ true
    → Unseen u.timestamp s.updates
    → All (λ (later : PythTick). later.update ≡ some u) ticks
    → ((run_pyth_tick tick s).sends ≡ (if tick.prepared then u.timestamp ∷ s.sends else s.sends))
      × (run_pyth_ticks ticks (run_pyth_tick tick s) ≡ run_pyth_tick tick s)
pyth_update_once u tick ticks s e admitted h es =
    let works = first_works u tick s e admitted h in
    (
      ap (λ (t : PythState). t.sends) works ∙ work_sends u tick.prepared tick.pyth_circumstances s,
      applied_idle u ticks (run_pyth_tick tick s) es (
          ap (λ (t : PythState). already_applied u.timestamp u.payload_hash t.updates) works
          ∙ pyth_work_applied u tick.prepared tick.pyth_circumstances s h),
    )
