-- ===== src/Examples/Sockets.antt =====
-- The subscription transport on small runs.
use Prim.Native.Nat.{min}
use equinox.Prelude.{ℕ, ◌+◌, ◌*◌, ◌^◌, ◌≡◌, refl, Bool, true, false, none, some, [], ◌∷◌}
use equinox.Transport.{
  Transport, Options, Subscription, logs, account, signature, connecting, handle_open, handle_close,
  fire_reconnect, begin_shutdown, finish_shutdown, run, closes, fires, subscribes, receives,
  other_message, opens, beats,
}
use equinox.Transport.Backoff.{failed_rounds, reconnect_delay_doubles}
use equinox.Transport.Restored.{subscriptions_lost}
use equinox.Transport.Resubscribed.{answers, subscriptions_restored}
use equinox.Transport.Quiet.{Down, shutdown-Down}

abbrev quick : Options
quick = record {
  base_backoff_ms = 250;
  max_backoff_ms = 30000;
  stale_timeout_ms = 45000;
  heartbeat_interval_ms = 15000;
}

abbrev ever : ℕ → Bool
ever id = true

abbrev market_logs : Subscription
market_logs = record { kind = logs; subject = "market"; commitment = none; one_shot = false }

abbrev one_signature : Subscription
one_signature = record { kind = signature; subject = "sig"; commitment = none; one_shot = true }

abbrev seat_account : Subscription
seat_account = record {
  kind = account;
  subject = "seat";
  commitment = some "finalized";
  one_shot = false;
}

abbrev reopening : Transport
reopening = record {
  socket = some connecting;
  next_request_id = 5;
  pending = [];
  subscriptions = (40, market_logs) ∷ (41, one_signature) ∷ (42, seat_account) ∷ [];
  attempt = 0;
  shutting_down = false;
  last_message_at = 0;
  heartbeat = false;
  reconnect_timer = none;
  has_connect_promise = true;
  delivered = [];
  errors = 0;
  sent = [];
}

reconnect_delay_doubles_example :
    (handle_close quick (failed_rounds quick 3 reopening)).reconnect_timer
    ≡ some (min 30000 (250 * 2 ^ (0 + 3)))
reconnect_delay_doubles_example = reconnect_delay_doubles quick 3 reopening refl refl

subscriptions_lost_example :
    ((handle_close quick (handle_open ever 9 reopening)).subscriptions ≡ [])
    × ((handle_open ever 99
          (fire_reconnect (handle_close quick (handle_open ever 9 reopening)))).sent
        ≡ (fire_reconnect (handle_close quick (handle_open ever 9 reopening))).sent)
subscriptions_lost_example = subscriptions_lost quick ever 9 99 reopening

subscriptions_restored_example :
    (answers 5 (70 ∷ 71 ∷ []) 99 (handle_open ever 9 reopening)).subscriptions
    ≡ (70, market_logs) ∷ (71, seat_account) ∷ []
subscriptions_restored_example =
    subscriptions_restored ever 9 99 reopening (70 ∷ 71 ∷ []) (λ id. refl) refl refl
      ((refl, tt), (tt, tt))

shutdown-Down_example : Down (begin_shutdown ever reopening).sent (
    run quick ever
      (closes
        ∷ fires
        ∷ opens 50
        ∷ beats 60
        ∷ subscribes market_logs
        ∷ receives other_message 70
        ∷ [])
      (finish_shutdown (begin_shutdown ever reopening)))
shutdown-Down_example =
    shutdown-Down quick ever reopening
      (closes
        ∷ fires
        ∷ opens 50
        ∷ beats 60
        ∷ subscribes market_logs
        ∷ receives other_message 70
        ∷ [])
      (refl, (refl, (refl, (refl, (refl, (refl, tt))))))
