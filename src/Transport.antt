-- ===== src/Transport.antt =====
-- The subscription transport over one WebSocket, workers/src/ws-transport.ts. The state is that of
-- the class; each event listener, timer and method is a step on it. Listeners do not look at which
-- socket an event comes from, so that an event carries none.
--
-- Parameters: whether `socket.send` takes a request (it throws otherwise), and what `JSON.parse` made
-- of a message. A promise that a step settles has its continuation in the same step. Of a
-- notification's value the transport only sees whether there is one.
pub mod Backoff
pub mod Restored
pub mod Resubscribed
pub mod Quiet
use Prim.Native.Nat.{min}
use Prim.Native.String.{String}
use equinox.Prelude.{
  ℕ, suc, ◌+◌, ◌-◌, ◌*◌, ◌^◌, Bool, true, false, not, ◌&&◌, Option, none, some, is_some, get_or,
  List, [], ◌∷◌, ◌++◌, ltb, ◌==◌, if◌then◌else◌,
}

pub data Kind : Type 0 where
  logs account signature : Kind

pub record Subscription : Type 0 where
  pub kind : Kind
  pub subject : String
  pub commitment : Option String
  pub one_shot : Bool

-- What waits for the answer to a request: `subscribe` and a restoration enter the subscription,
-- anything else only takes the result.
pub data Pending : Type 0 where
  subscribing : Subscription → Pending
  restoring : Subscription → Pending
  plain : Pending

-- `readyState` of a socket that is not null.
pub data Ready : Type 0 where
  connecting opened closing : Ready

pub record Notification : Type 0 where
  pub of : Subscription
  pub slot : Option ℕ
  pub used_commitment : String
  pub received_at : ℕ
  pub value : Option String

-- A message: not JSON, an answer with an error or a result, a notification, or anything else.
pub data Message : Type 0 where
  malformed other_message : Message
  failure : (id : ℕ) → Message
  answer : (id result : ℕ) → Message
  notification : (subscription : ℕ) (slot : Option ℕ) (value : Option String) → Message

pub record Options : Type 0 where
  pub base_backoff_ms : ℕ
  pub max_backoff_ms : ℕ
  pub stale_timeout_ms : ℕ
  pub heartbeat_interval_ms : ℕ

-- A `Map` from numbers, in the order of insertion.
abbrev pub Table : Type 0 → Type 0
Table V = List (ℕ × V)

module _ {V : Type 0} where
  abbrev pub get : Table V → ℕ → Option V
  get [] k = none
  get ((j, v) ∷ t) k = if j == k then some v else get t k

  abbrev pub set : Table V → ℕ → V → Table V
  set [] k v = (k, v) ∷ []
  set ((j, w) ∷ t) k v = if j == k then (j, v) ∷ t else (j, w) ∷ set t k v

  abbrev pub delete : Table V → ℕ → Table V
  delete [] k = []
  delete ((j, w) ∷ t) k = if j == k then t else (j, w) ∷ delete t k

-- `delivered` is what the handlers were called with, `errors` the calls of `onError` for messages
-- and restorations, `sent` the identifiers of the requests that went out.
pub record Transport : Type 0 where
  pub socket : Option Ready
  pub next_request_id : ℕ
  pub pending : Table Pending
  pub subscriptions : Table Subscription
  pub attempt : ℕ
  pub shutting_down : Bool
  pub last_message_at : ℕ
  pub heartbeat : Bool
  pub reconnect_timer : Option ℕ
  pub has_connect_promise : Bool
  pub delivered : List Notification
  pub errors : ℕ
  pub sent : List ℕ

abbrev pub is_open : Option Ready → Bool
is_open (some opened) = true
is_open _ = false

abbrev pub complain : Transport → Transport
complain s = record s { errors = s.errors + 1 }

-- A restoration that fails is reported.
abbrev pub reject : Pending → Transport → Transport
reject (restoring subscription) s = complain s
reject (subscribing subscription) s = s
reject plain s = s

-- Every waiting request is rejected when the connection closes.
abbrev pub reject_all : Table Pending → Transport → Transport
reject_all [] s = s
reject_all ((id, request) ∷ t) s = reject_all t (reject request s)

-- `connect`, up to the opening of the socket.
unfoldable pub connect : Transport → Transport
connect s =
    if s.has_connect_promise
    then s
    else record s { shutting_down = false; socket = some connecting; has_connect_promise = true }

module _ (options : Options) where
  -- `scheduleReconnect`.
  unfoldable pub schedule_reconnect : Transport → Transport
  schedule_reconnect s = if is_some s.reconnect_timer then s else record s {
    reconnect_timer = some (min options.max_backoff_ms (options.base_backoff_ms * 2 ^ s.attempt));
    attempt = s.attempt + 1;
  }

  -- The `close` listener.
  unfoldable pub handle_close : Transport → Transport
  handle_close s =
      let closed = record s { heartbeat = false; socket = none; has_connect_promise = false } in
      let dropped = record (reject_all s.pending closed) { pending = [] } in
      if not s.shutting_down then schedule_reconnect dropped else dropped

-- The reconnect timer, which fires only where it is set.
unfoldable pub fire_reconnect : Transport → Transport
fire_reconnect s =
    if is_some s.reconnect_timer then connect (record s { reconnect_timer = none }) else s

-- `toNotification`.
unfoldable pub to_notification :
    Subscription → Option ℕ → Option String → (now : ℕ) → Option Notification
to_notification subscription slot value now =
    let made : Notification = record {
      of = subscription;
      slot = slot;
      used_commitment = get_or subscription.commitment "confirmed";
      received_at = now;
      value = value;
    } in
    elim subscription.kind [
      | logs ↦ if is_some value then some made else none
      | account ↦ some made
      | signature ↦ some made
    ]

-- The continuation of an answered request.
abbrev pub settle : Pending → ℕ → Transport → Transport
settle (subscribing subscription) result s = record s {
  subscriptions = set s.subscriptions result subscription;
}
settle (restoring subscription) result s = record s {
  subscriptions = set s.subscriptions result subscription;
}
settle plain result s = s

-- The handler's call; a one-shot subscription ends with it.
abbrev pub deliver : (id : ℕ) → Subscription → Option Notification → Transport → Transport
deliver id subscription none s = s
deliver id subscription (some made) s =
    let told = record s { delivered = s.delivered ++ made ∷ [] } in
    if subscription.one_shot
    then record told { subscriptions = delete told.subscriptions id }
    else told

abbrev pub notify :
    (id : ℕ) → Option Subscription → Option ℕ → Option String → (now : ℕ) → Transport → Transport
notify id none slot value now s = s
notify id (some subscription) slot value now s =
    deliver id subscription (to_notification subscription slot value now) s

abbrev pub answered : Option Pending → (id : ℕ) → Option ℕ → Transport → Transport
answered none id result s = s
answered (some request) id result s =
    let taken = record s { pending = delete s.pending id } in
    elim result [ none ↦ reject request taken | some r ↦ settle request r taken ]

-- `handleMessage`.
unfoldable pub handle_message : Message → (now : ℕ) → Transport → Transport
handle_message message now state =
    let s = record state { last_message_at = now } in
    elim message [
      | malformed ↦ complain s
      | other_message ↦ s
      | failure id ↦ answered (get s.pending id) id none s
      | answer id result ↦ answered (get s.pending id) id (some result) s
      | notification id slot value ↦ notify id (get s.subscriptions id) slot value now s
    ]

module _ (takes : ℕ → Bool) where
  -- `send`, with what waits for the answer.
  unfoldable pub send : Pending → Transport → Transport
  send request s =
      if not (is_open s.socket)
      then reject request s
      else let id = s.next_request_id in
        if takes id
        then record s {
          next_request_id = id + 1;
          pending = set s.pending id request;
          sent = s.sent ++ id ∷ [];
        }
        else reject request (record s { next_request_id = id + 1 })

  -- `restoreSubscriptions`, over what was subscribed before.
  unfoldable pub restore_all : Table Subscription → Transport → Transport
  restore_all [] s = s
  restore_all ((id, subscription) ∷ previous) s =
      if subscription.one_shot
      then restore_all previous s
      else restore_all previous (send (restoring subscription) s)

  unfoldable pub restore_subscriptions : Transport → Transport
  restore_subscriptions s = restore_all s.subscriptions (record s { subscriptions = [] })

  -- The `open` listener.
  unfoldable pub handle_open : (now : ℕ) → Transport → Transport
  handle_open now s =
      restore_subscriptions
        (record s { socket = some opened; attempt = 0; last_message_at = now; heartbeat = true })

  -- `subscribe`; a signature is one-shot.
  unfoldable pub subscribe : Subscription → Transport → Transport
  subscribe subscription s = send (subscribing subscription) s

  -- `unsubscribe`.
  unfoldable pub unsubscribe : (id : ℕ) → Transport → Transport
  unsubscribe id s =
      if is_some (get s.subscriptions id)
      then send plain (record s { subscriptions = delete s.subscriptions id })
      else s

  -- One turn of the heartbeat, which runs only while it is started.
  unfoldable pub beat : Options → (now : ℕ) → Transport → Transport
  beat options now s =
      let idle_for = now - s.last_message_at in
      if not s.heartbeat
      then s
      else if ltb options.stale_timeout_ms idle_for
      then record s { socket = elim s.socket [ none ↦ none | some r ↦ some closing ] }
      else if ltb options.heartbeat_interval_ms idle_for
      then send plain s
      else s

  abbrev unsubscribe_all : Table Subscription → Transport → Transport
  unsubscribe_all [] s = s
  unsubscribe_all ((id, subscription) ∷ t) s = unsubscribe_all t (unsubscribe id s)

  -- `shutdown`, up to the answers to its requests.
  unfoldable pub begin_shutdown : Transport → Transport
  begin_shutdown s =
      unsubscribe_all s.subscriptions
        (record s { shutting_down = true; reconnect_timer = none; heartbeat = false })

-- `shutdown`, once its requests are settled.
unfoldable pub finish_shutdown : Transport → Transport
finish_shutdown s = record s { socket = none; has_connect_promise = false }

-- What can happen to a transport. A socket opens only while it is connecting.
pub data Event : Type 0 where
  connects fires closes beginning_shutdown finished_shutdown : Event
  opens : (now : ℕ) → Event
  beats : (now : ℕ) → Event
  receives : Message → (now : ℕ) → Event
  subscribes : Subscription → Event
  unsubscribes : (id : ℕ) → Event

abbrev pub is_connecting : Option Ready → Bool
is_connecting (some connecting) = true
is_connecting _ = false

module _ (options : Options) (takes : ℕ → Bool) where
  unfoldable pub step : Event → Transport → Transport
  step connects s = connect s
  step fires s = fire_reconnect s
  step closes s = handle_close options s
  step beginning_shutdown s = begin_shutdown takes s
  step finished_shutdown s = finish_shutdown s
  step (opens now) s = if is_connecting s.socket then handle_open takes now s else s
  step (beats now) s = beat takes options now s
  step (receives message now) s = handle_message message now s
  step (subscribes subscription) s = subscribe takes subscription s
  step (unsubscribes id) s = unsubscribe takes id s

  abbrev pub run : List Event → Transport → Transport
  run [] s = s
  run (e ∷ events) s = run events (step e s)
