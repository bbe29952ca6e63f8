-- ===== src/Transport/Backoff.antt =====
-- The delays of the reconnections, and what does not survive one.
use equinox.Prelude.{
  ℕ, zero, suc, ◌+◌, ◌*◌, ◌^◌, ◌≡◌, refl, ap, ◌∙◌, Bool, false, none, some, [], ◌∷◌, not,
  if◌then◌else◌, arith,
}
use Prim.Native.Nat.{min}
use equinox.Transport.{
  Transport, Options, Pending, subscribing, restoring, plain, Table, connect, schedule_reconnect,
  handle_close, fire_reconnect, reject_all, complain,
}

-- Rejections change the count of errors alone.
pub reject_all_errors :
    (t : Table Pending) (s : Transport) → (e : ℕ) × (reject_all t s ≡ record s { errors = e })
reject_all_errors [] s = (s.errors, refl)
reject_all_errors ((id, subscribing x) ∷ t) s = reject_all_errors t s
reject_all_errors ((id, restoring x) ∷ t) s = reject_all_errors t (complain s)
reject_all_errors ((id, plain) ∷ t) s = reject_all_errors t s

abbrev pub dropped : Transport → ℕ → Transport
dropped s e = record s {
  heartbeat = false;
  socket = none;
  has_connect_promise = false;
  errors = e;
  pending = [];
}

pub handle_close-dropped :
    (options : Options) (s : Transport)
    → (e : ℕ) × (handle_close options s
        ≡ (if not s.shutting_down then schedule_reconnect options (dropped s e) else dropped s e))
unfolding handle_close
handle_close-dropped options s =
    let (e, same) =
      reject_all_errors s.pending
        (record s { heartbeat = false; socket = none; has_connect_promise = false }) in
    (
      e,
      ap
          (λ (t : Transport).
            let d : Transport = record t { pending = [] } in
            if not s.shutting_down then schedule_reconnect options d else d)
          same,
    )

abbrev delay : Options → ℕ → ℕ
delay options n = min options.max_backoff_ms (options.base_backoff_ms * 2 ^ n)

scheduled :
    (options : Options) (s : Transport) (e : ℕ)
    → s.reconnect_timer ≡ none
    → schedule_reconnect options (dropped s e) ≡ record (dropped s e) {
      reconnect_timer = some (delay options s.attempt);
      attempt = s.attempt + 1;
    }
unfolding schedule_reconnect
scheduled options s e h = rw h refl

closed_scheduled :
    (options : Options) (s : Transport)
    → s.shutting_down ≡ false
    → s.reconnect_timer ≡ none
    → (e : ℕ) × (handle_close options s ≡ record (dropped s e) {
      reconnect_timer = some (delay options s.attempt);
      attempt = s.attempt + 1;
    })
closed_scheduled options s running idle =
    let (e, same) = handle_close-dropped options s in
    let branch : (if not s.shutting_down
          then schedule_reconnect options (dropped s e)
          else dropped s e)
        ≡ schedule_reconnect options (dropped s e) =
      ap (λ (b : Bool). if not b then schedule_reconnect options (dropped s e) else dropped s e)
        running in
    (e, same ∙ branch ∙ scheduled options s e idle)

-- n rounds of a connection that closes before it opens, each retried by the timer.
abbrev pub failed_rounds : Options → ℕ → Transport → Transport
failed_rounds options zero s = s
failed_rounds options (suc n) s = failed_rounds options n (fire_reconnect (handle_close options s))

round_kept :
    (options : Options) (s : Transport)
    → s.shutting_down ≡ false
    → s.reconnect_timer ≡ none
    → ((fire_reconnect (handle_close options s)).attempt ≡ s.attempt + 1)
      × ((fire_reconnect (handle_close options s)).shutting_down ≡ false)
      × ((fire_reconnect (handle_close options s)).reconnect_timer ≡ none)
unfolding fire_reconnect connect
round_kept options s running idle =
    let (e, same) = closed_scheduled options s running idle in
    (
      ap (λ (t : Transport). (fire_reconnect t).attempt) same,
      ap (λ (t : Transport). (fire_reconnect t).shutting_down) same,
      ap (λ (t : Transport). (fire_reconnect t).reconnect_timer) same,
    )

-- While no connection opens, the delay before a reconnection doubles from the base with each round,
-- up to the maximum: after n failed rounds it is the base times 2 to the attempts, at most the cap.
pub reconnect_delay_doubles :
    (options : Options) (n : ℕ) (s : Transport)
    → s.shutting_down ≡ false
    → s.reconnect_timer ≡ none
    → (handle_close options (failed_rounds options n s)).reconnect_timer
      ≡ some (min options.max_backoff_ms (options.base_backoff_ms * 2 ^ (s.attempt + n)))
reconnect_delay_doubles options zero s running idle =
    let (e, same) = closed_scheduled options s running idle in
    ap (λ (t : Transport). t.reconnect_timer) same
    ∙ ap (λ (k : ℕ). some (delay options k)) (omega arith)
reconnect_delay_doubles options (suc n) s running idle =
    let (counted, going, free) = round_kept options s running idle in
    reconnect_delay_doubles options n (fire_reconnect (handle_close options s)) going free
    ∙ ap (λ (k : ℕ). some (delay options k)) (omega (arith, counted))
