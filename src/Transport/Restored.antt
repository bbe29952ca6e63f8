-- ===== src/Transport/Restored.antt =====
-- What becomes of the subscriptions when a connection opens again.
use equinox.Prelude.{ℕ, ◌≡◌, refl, ap, ◌∙◌, Bool, true, branches, some, [], ◌∷◌, not, is_some}
use equinox.Transport.{
  Transport, Options, restoring, Subscription, Table, connect, schedule_reconnect, handle_close,
  fire_reconnect, handle_open, restore_subscriptions, restore_all, send, is_open, opened,
}
use equinox.Transport.Backoff.{handle_close-dropped}

send_restoring_subscriptions :
    (takes : ℕ → Bool) (x : Subscription) (s : Transport)
    → (send takes (restoring x) s).subscriptions ≡ s.subscriptions
unfolding send
send_restoring_subscriptions takes x s =
    branches (λ (u : Transport). u.subscriptions ≡ s.subscriptions) (not (is_open s.socket)) refl
      (branches (λ (u : Transport). u.subscriptions ≡ s.subscriptions) (takes s.next_request_id)
        refl refl)

restore_all_subscriptions :
    (takes : ℕ → Bool) (t : Table Subscription) (s : Transport)
    → (restore_all takes t s).subscriptions ≡ s.subscriptions
unfolding restore_all
restore_all_subscriptions takes [] s = refl
restore_all_subscriptions takes ((id, x) ∷ t) s =
    branches (λ (u : Transport). u.subscriptions ≡ s.subscriptions) x.one_shot
      (restore_all_subscriptions takes t s)
      (restore_all_subscriptions takes t (send takes (restoring x) s)
        ∙ send_restoring_subscriptions takes x s)

pub handle_open_subscriptions :
    (takes : ℕ → Bool) (now : ℕ) (s : Transport) → (handle_open takes now s).subscriptions ≡ []
unfolding handle_open restore_subscriptions
handle_open_subscriptions takes now s = restore_all_subscriptions takes s.subscriptions _

handle_close_subscriptions :
    (options : Options) (s : Transport) → (handle_close options s).subscriptions ≡ s.subscriptions
unfolding schedule_reconnect
handle_close_subscriptions options s =
    let (e, same) = handle_close-dropped options s in
    ap (λ (t : Transport). t.subscriptions) same
    ∙ branches (λ (u : Transport). u.subscriptions ≡ s.subscriptions) (not s.shutting_down)
        (branches (λ (u : Transport). u.subscriptions ≡ s.subscriptions) (is_some s.reconnect_timer)
          refl refl)
        refl

fire_reconnect_subscriptions : (s : Transport) → (fire_reconnect s).subscriptions ≡ s.subscriptions
unfolding fire_reconnect connect
fire_reconnect_subscriptions s =
    branches (λ (u : Transport). u.subscriptions ≡ s.subscriptions) (is_some s.reconnect_timer)
      (branches (λ (u : Transport). u.subscriptions ≡ s.subscriptions) s.has_connect_promise refl
        refl)
      refl

reopened_empty :
    (takes : ℕ → Bool) (now : ℕ) (s : Transport)
    → s.subscriptions ≡ []
    → (handle_open takes now s).sent ≡ s.sent
unfolding handle_open restore_subscriptions restore_all
reopened_empty takes now s none_left =
    ap
      (λ (t : Table Subscription).
        (restore_all takes t (record s {
          socket = some opened;
          attempt = 0;
          last_message_at = now;
          heartbeat = true;
          subscriptions = [];
        })).sent)
      none_left

-- A connection that opens and closes before its answers arrive loses every subscription: none is
-- left after the close, and the next connection asks for none.
pub subscriptions_lost :
    (options : Options) (takes : ℕ → Bool) (now later : ℕ) (s : Transport)
    → ((handle_close options (handle_open takes now s)).subscriptions ≡ [])
      × ((handle_open takes later
            (fire_reconnect (handle_close options (handle_open takes now s)))).sent
          ≡ (fire_reconnect (handle_close options (handle_open takes now s))).sent)
subscriptions_lost options takes now later s =
    let closed = handle_close options (handle_open takes now s) in
    let gone : closed.subscriptions ≡ [] =
      handle_close_subscriptions options (handle_open takes now s)
      ∙ handle_open_subscriptions takes now s in
    (
      gone,
      reopened_empty takes later (fire_reconnect closed)
          (fire_reconnect_subscriptions closed ∙ gone),
    )
