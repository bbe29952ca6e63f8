-- ===== src/Transport/Quiet.antt =====
-- A transport that has shut down stays down until it is connected again.
use equinox.Prelude.{
  ℕ, ◌≡◌, refl, sym, ap, subst, ◌∙◌, Bool, true, false, branches, Option, none, some, List, [], ◌∷◌,
  not, is_some, if◌then◌else◌, All, arith,
}
use equinox.Transport.{
  Transport, Options, Pending, subscribing, restoring, plain, Subscription, Table, Message,
  malformed, other_message, failure, answer, notification, Event, connects, fires, closes,
  beginning_shutdown, finished_shutdown, opens, beats, receives, subscribes, unsubscribes, deliver,
  Notification, schedule_reconnect, handle_close, fire_reconnect, handle_open, handle_message,
  to_notification, notify, settle, reject, answered, send, subscribe, unsubscribe, unsubscribe_all,
  beat, begin_shutdown, finish_shutdown, is_open, is_connecting, get, delete, step, run,
}
use Prim.Native.String.{String}
use equinox.Transport.Backoff.{handle_close-dropped, dropped}

-- Shut down, with no socket, no timer and no heartbeat, and these requests sent so far.
abbrev pub Down : List ℕ → Transport → Type 0
Down sent s =
    (s.shutting_down ≡ true)
    × (s.reconnect_timer ≡ none)
    × (s.socket ≡ none)
    × (s.heartbeat ≡ false)
    × (s.sent ≡ sent)

reject-Down : (sent : List ℕ) (r : Pending) (s : Transport) → Down sent s → Down sent (reject r s)
reject-Down sent (subscribing x) s d = d
reject-Down sent (restoring x) s d = d
reject-Down sent plain s d = d

settle-Down :
    (sent : List ℕ) (r : Pending) (result : ℕ) (s : Transport)
    → Down sent s
    → Down sent (settle r result s)
settle-Down sent (subscribing x) result s d = d
settle-Down sent (restoring x) result s d = d
settle-Down sent plain result s d = d

send_closed :
    (takes : ℕ → Bool) (r : Pending) (s : Transport) → s.socket ≡ none → send takes r s ≡ reject r s
unfolding send
send_closed takes r s h = simp h refl

send-Down :
    (sent : List ℕ) (takes : ℕ → Bool) (r : Pending) (s : Transport)
    → Down sent s
    → Down sent (send takes r s)
unfolding send
send-Down sent takes r s d =
    subst (λ (u : Transport). Down sent u) (sym (send_closed takes r s d.2))
      (reject-Down sent r s d)

unsubscribe-Down :
    (sent : List ℕ) (takes : ℕ → Bool) (id : ℕ) (s : Transport)
    → Down sent s
    → Down sent (unsubscribe takes id s)
unfolding unsubscribe
unsubscribe-Down sent takes id s d =
    branches (λ (u : Transport). Down sent u) (is_some (get s.subscriptions id))
      (send-Down sent takes plain (record s { subscriptions = delete s.subscriptions id }) d) d

unsubscribe_all-Down :
    (sent : List ℕ) (takes : ℕ → Bool) (t : Table Subscription) (s : Transport)
    → Down sent s
    → Down sent (unsubscribe_all takes t s)
unsubscribe_all-Down sent takes [] s d = d
unsubscribe_all-Down sent takes ((id, x) ∷ t) s d =
    unsubscribe_all-Down sent takes t (unsubscribe takes id s) (unsubscribe-Down sent takes id s d)

deliver-Down :
    (sent : List ℕ) (id : ℕ) (x : Subscription) (made : Option Notification) (s : Transport)
    → Down sent s
    → Down sent (deliver id x made s)
deliver-Down sent id x none s d = d
deliver-Down sent id x (some made) s d = branches (λ (u : Transport). Down sent u) x.one_shot d d

notify-Down :
    (sent : List ℕ) (id : ℕ) (x : Option Subscription) (slot : Option ℕ) (value : Option String)
    (now : ℕ) (s : Transport)
    → Down sent s
    → Down sent (notify id x slot value now s)
notify-Down sent id none slot value now s d = d
notify-Down sent id (some x) slot value now s d =
    deliver-Down sent id x (to_notification x slot value now) s d

answered-Down :
    (sent : List ℕ) (r : Option Pending) (id : ℕ) (result : Option ℕ) (s : Transport)
    → Down sent s
    → Down sent (answered r id result s)
answered-Down sent none id result s d = d
answered-Down sent (some r) id none s d =
    reject-Down sent r (record s { pending = delete s.pending id }) d
answered-Down sent (some r) id (some result) s d =
    settle-Down sent r result (record s { pending = delete s.pending id }) d

handle_message-Down :
    (sent : List ℕ) (message : Message) (now : ℕ) (s : Transport)
    → Down sent s
    → Down sent (handle_message message now s)
unfolding handle_message
handle_message-Down sent malformed now s d = d
handle_message-Down sent other_message now s d = d
handle_message-Down sent (failure id) now s d =
    answered-Down sent (get s.pending id) id none (record s { last_message_at = now }) d
handle_message-Down sent (answer id result) now s d =
    answered-Down sent (get s.pending id) id (some result) (record s { last_message_at = now }) d
handle_message-Down sent (notification id slot value) now s d =
    notify-Down sent id (get s.subscriptions id) slot value now (record s { last_message_at = now })
      d

handle_close-Down :
    (sent : List ℕ) (options : Options) (s : Transport)
    → Down sent s
    → Down sent (handle_close options s)
handle_close-Down sent options s d =
    let (e, same) = handle_close-dropped options s in
    let branch : (if not s.shutting_down
          then schedule_reconnect options (dropped s e)
          else dropped s e)
        ≡ dropped s e =
      ap (λ (b : Bool). if not b then schedule_reconnect options (dropped s e) else dropped s e)
        d.0 in
    subst (λ (u : Transport). Down sent u) (sym (same ∙ branch)) (d.0, d.1, refl, refl, d.4)

abbrev pub is_connects : Event → Bool
is_connects connects = true
is_connects _ = false

fire_idle : (s : Transport) → s.reconnect_timer ≡ none → fire_reconnect s ≡ s
unfolding fire_reconnect
fire_idle s h = simp h refl

beat_idle :
    (options : Options) (takes : ℕ → Bool) (now : ℕ) (s : Transport)
    → s.heartbeat ≡ false
    → beat takes options now s ≡ s
unfolding beat
beat_idle options takes now s h = simp h refl

open_idle :
    (x : Transport) (s : Transport)
    → s.socket ≡ none
    → (if is_connecting s.socket then x else s) ≡ s
open_idle x s h = simp h refl

step-Down :
    (sent : List ℕ) (options : Options) (takes : ℕ → Bool) (e : Event) (s : Transport)
    → is_connects e ≡ false
    → Down sent s
    → Down sent (step options takes e s)
unfolding step begin_shutdown finish_shutdown subscribe
step-Down sent options takes connects s n d = ground arith
step-Down sent options takes fires s n d =
    subst (λ (u : Transport). Down sent u) (sym (fire_idle s d.1)) d
step-Down sent options takes closes s n d = handle_close-Down sent options s d
step-Down sent options takes beginning_shutdown s n d =
    unsubscribe_all-Down sent takes s.subscriptions
      (record s { shutting_down = true; reconnect_timer = none; heartbeat = false })
      (refl, refl, d.2, refl, d.4)
step-Down sent options takes finished_shutdown s n d = (d.0, d.1, refl, d.3, d.4)
step-Down sent options takes (opens now) s n d =
    subst (λ (u : Transport). Down sent u) (sym (open_idle (handle_open takes now s) s d.2)) d
step-Down sent options takes (beats now) s n d =
    subst (λ (u : Transport). Down sent u) (sym (beat_idle options takes now s d.3)) d
step-Down sent options takes (receives message now) s n d = handle_message-Down sent message now s d
step-Down sent options takes (subscribes x) s n d = send-Down sent takes (subscribing x) s d
step-Down sent options takes (unsubscribes id) s n d = unsubscribe-Down sent takes id s d

run-Down :
    (sent : List ℕ) (options : Options) (takes : ℕ → Bool) (events : List Event) (s : Transport)
    → All (λ e. is_connects e ≡ false) events
    → Down sent s
    → Down sent (run options takes events s)
run-Down sent options takes [] s n d = d
run-Down sent options takes (e ∷ events) s (here, later) d =
    run-Down sent options takes events (step options takes e s) later
      (step-Down sent options takes e s here d)

-- What `shutdown` has stopped before it closes the socket.
Stopped : Transport → Type 0
Stopped s = (s.shutting_down ≡ true) × (s.reconnect_timer ≡ none) × (s.heartbeat ≡ false)

unsubscribe-Stopped :
    (takes : ℕ → Bool) (id : ℕ) (s : Transport) → Stopped s → Stopped (unsubscribe takes id s)
unfolding unsubscribe send Stopped
unsubscribe-Stopped takes id s h =
    let p : Transport → Type 0 = λ u. Stopped u in
    branches p (is_some (get s.subscriptions id))
      (branches p (not (is_open s.socket)) h (branches p (takes s.next_request_id) h h)) h

unsubscribe_all-Stopped :
    (takes : ℕ → Bool) (t : Table Subscription) (s : Transport)
    → Stopped s
    → Stopped (unsubscribe_all takes t s)
unsubscribe_all-Stopped takes [] s h = h
unsubscribe_all-Stopped takes ((id, x) ∷ t) s h =
    unsubscribe_all-Stopped takes t (unsubscribe takes id s) (unsubscribe-Stopped takes id s h)

-- After a shutdown, whatever happens but a call of `connect`: no reconnection is scheduled, there
-- is no socket, the heartbeat is off and no request is sent.
pub shutdown-Down :
    (options : Options) (takes : ℕ → Bool) (s : Transport) (events : List Event)
    → All (λ e. is_connects e ≡ false) events
    → Down
        (begin_shutdown takes s).sent
        (run options takes events (finish_shutdown (begin_shutdown takes s)))
unfolding begin_shutdown finish_shutdown Stopped
shutdown-Down options takes s events none_connects =
    let begun = begin_shutdown takes s in
    let stopped =
      unsubscribe_all-Stopped takes s.subscriptions
        (record s { shutting_down = true; reconnect_timer = none; heartbeat = false })
        (refl, refl, refl) in
    run-Down begun.sent options takes events (finish_shutdown begun) none_connects
      (stopped.0, stopped.1, refl, stopped.2, refl)
