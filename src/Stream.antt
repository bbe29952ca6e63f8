-- ===== src/Stream.antt =====
-- The durable object of workers/src/market-stream.ts: for each domain the sequence that it has
-- reached, whether it is waiting for a snapshot, the last snapshot, and the events since; and what
-- it sends to its sockets.
--
-- The JSON texts of snapshots and events are the values themselves. The rows of `stream_events` of
-- a domain are a list in the order of `sequence`, in which they are read. The two domains share no
-- row, so that the state here is one domain's; `publish` and `replaceSnapshot` touch only that of
-- their argument's domain.
pub mod Contiguous
pub mod Sockets
use Prim.Native.String.{String}
use text.Mathlib.Text.{◌==◌ as str_eq}
use equinox.Prelude.{
  ℕ, ◌+◌, Bool, true, false, Option, none, some, List, [], ◌∷◌, ◌++◌, ◌||◌, ◌&&◌, not, ltb, leb,
  ◌==◌, if◌then◌else◌, max_safe_integer,
}

-- An event with its domain; `id` may be empty and `sequence` anything, until they are checked.
pub record MarketEvent : Type 0 where
  pub id : String
  pub sequence : ℕ
  pub body : String

pub record MarketSnapshot : Type 0 where
  pub sequence : ℕ
  pub body : String

pub record StreamState : Type 0 where
  pub sequence : ℕ
  pub resynchronizing : Bool
  pub snapshot : Option MarketSnapshot
  pub events : List MarketEvent

-- `state(domain)` where the table has no row.
abbrev pub empty_state : StreamState
empty_state = record { sequence = 0; resynchronizing = false; snapshot = none; events = [] }

-- What `broadcast` sends to every socket. The envelope is that of the state after the call.
pub data Message : Type 0 where
  resynchronizing_at : ℕ → Message
  delta : MarketEvent → Message
  envelope : StreamState → Message

pub data Published : Type 0 where
  applied duplicate gap invalid constraint_failed : Published

abbrev has_id : String → List MarketEvent → Bool
has_id id [] = false
has_id id (e ∷ es) = str_eq e.id id || has_id id es

-- `publish` throws `invalid` for a bad event, and `constraint_failed` where the INSERT meets
-- UNIQUE(domain,id): the transaction is rolled back then.
unfoldable pub publish : StreamState → MarketEvent → Published × StreamState × List Message
publish state event =
    if leb event.sequence 0 || (ltb max_safe_integer event.sequence || str_eq event.id "")
    then (invalid, state, [])
    else if leb event.sequence state.sequence
    then (duplicate, state, [])
    else if state.resynchronizing || not (event.sequence == state.sequence + 1)
    then (gap, record state { resynchronizing = true }, resynchronizing_at state.sequence ∷ [])
    else if has_id event.id state.events
    then (constraint_failed, state, [])
    else (
      applied,
      record state { sequence = event.sequence; events = state.events ++ (event ∷ []) },
      delta event ∷ [],
    )

pub data Replaced : Type 0 where
  accepted invalid_snapshot stale_snapshot : Replaced

-- DELETE FROM stream_events WHERE domain=? AND sequence<=?
unfoldable pub delete_through : ℕ → List MarketEvent → List MarketEvent
delete_through n [] = []
delete_through n (e ∷ es) =
    if leb e.sequence n then delete_through n es else e ∷ delete_through n es

unfoldable pub replace_snapshot :
    StreamState → MarketSnapshot → Replaced × StreamState × List Message
replace_snapshot state snapshot =
    let next : StreamState = record {
      sequence = snapshot.sequence;
      resynchronizing = false;
      snapshot = some snapshot;
      events = delete_through snapshot.sequence state.events;
    } in
    if ltb max_safe_integer snapshot.sequence
    then (invalid_snapshot, state, [])
    else if ltb snapshot.sequence state.sequence
    then (stale_snapshot, state, [])
    else (accepted, next, envelope next ∷ [])

-- A socket's attachment: the messages sent and not yet acknowledged, and its private context, if
-- its token was verified.
pub record PrivateContext : Type 0 where
  pub wallet : String
  pub seat_index : ℕ

pub record Socket : Type 0 where
  pub pending : ℕ
  pub private : Option PrivateContext

-- What becomes of a socket in a send loop: it is sent the message, closed, or passed over.
-- `delivers` tells whether `send` returns; a send that throws closes the socket with 1011.
pub data Delivery : Type 0 where
  sent : Socket → Delivery
  closed : ℕ → Delivery
  passed_over : Delivery

unfoldable pub broadcast_to : Bool → Socket → Delivery
broadcast_to delivers socket =
    if leb 64 socket.pending
    then closed 1013
    else if delivers
    then sent (record socket { pending = socket.pending + 1 })
    else closed 1011

abbrev is_context : String → ℕ → Option PrivateContext → Bool
is_context wallet seat none = false
is_context wallet seat (some c) = str_eq c.wallet wallet && c.seat_index == seat

unfoldable pub publish_private_to : String → ℕ → Bool → Socket → Delivery
publish_private_to wallet seat delivers socket =
    if not (is_context wallet seat socket.private)
    then passed_over
    else if delivers
    then sent socket
    else closed 1011

pub data ClientMessage : Type 0 where
  ack snapshot_request other : ClientMessage

-- `webSocketMessage`. The answer to a request for a snapshot is sent, and counts nothing.
unfoldable pub web_socket_message : ClientMessage → Socket → Delivery
web_socket_message ack socket = sent (record socket { pending = 0 })
web_socket_message snapshot_request socket = sent socket
web_socket_message other socket = closed 1008
