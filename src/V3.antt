-- ===== src/V3.antt =====
-- The decoders of the V3 accounts, workers/src/v3-market-state.ts, of a trader's seat,
-- lib/positions.ts, and the mark of a V3 market. An address is its 32 bytes: base58 only prints
-- them. A seat's shard stands in its shard's record. `none` is `null`, and also a read out of range,
-- which the checks of a length rule out.
pub mod Mark
use equinox.Prelude.{
  ℕ, zero, suc, ◌+◌, ◌*◌, ◌/◌, ◌%◌, ◌^◌, Bool, true, false, Option, none, some, List, [], ◌∷◌, ◌++◌,
  ◌&&◌, ◌||◌, not, ltb, leb, ◌==◌, if◌then◌else◌, get_elem?, take, drop, length, max_safe_integer,
}
use equinox.Prelude.Int.{ℤ, pos, negsuc, ◌+ℤ◌, leb_ℤ}
use equinox.Bytes.{Bytes, read_unsigned, read_signed, same_bytes, byte_is, to_number}
use equinox.Mark.{Tree, fixed, pegged, ◌>>=◌, MarkQuote, positive, best_over, same_bool, quote}

abbrev pub address : Bytes → ℕ → Bytes
address bytes offset = take 32 (drop offset bytes)

abbrev pub is_number : ℕ → Option ℕ → Bool
is_number n none = false
is_number n (some v) = v == n

unfoldable pub valid_version : Bytes → Bytes → ℕ → Bool
valid_version bytes discriminator size =
    length bytes == size
    && (same_bytes (take 8 bytes) discriminator && is_number 3 (read_unsigned 2 bytes 8))

-- "STKMK003", "STKBK003", "STKST003" and "STKEV003".
abbrev pub core_discriminator : Bytes
core_discriminator = 83 ∷ 84 ∷ 75 ∷ 77 ∷ 75 ∷ 48 ∷ 48 ∷ 51 ∷ []

abbrev pub book_discriminator : Bytes
book_discriminator = 83 ∷ 84 ∷ 75 ∷ 66 ∷ 75 ∷ 48 ∷ 48 ∷ 51 ∷ []

abbrev pub seat_discriminator : Bytes
seat_discriminator = 83 ∷ 84 ∷ 75 ∷ 83 ∷ 84 ∷ 48 ∷ 48 ∷ 51 ∷ []

abbrev pub event_discriminator : Bytes
event_discriminator = 83 ∷ 84 ∷ 75 ∷ 69 ∷ 86 ∷ 48 ∷ 48 ∷ 51 ∷ []

pub record V3CoreState : Type 0 where
  pub mode : ℕ
  pub instrument : Bytes
  pub market_authority : Bytes
  pub oracle_valid : Bool
  pub last_verified_oracle_price : ℤ
  pub last_verified_oracle_timestamp : ℕ
  pub oracle_feed_id : ℕ
  pub oracle_channel : ℕ
  pub oracle_exponent : ℤ
  pub delegation_status : ℕ
  pub expected_commit_sequence : ℕ
  pub last_committed_sequence : ℕ
  pub validator : Bytes

abbrev pub core_fields : Bytes → Option V3CoreState
core_fields bytes = do
  mode ← get_elem? bytes 11
  price ← read_signed 8 bytes 181
  timestamp ← read_unsigned 8 bytes 189
  feed ← read_unsigned 4 bytes 246
  channel ← get_elem? bytes 250
  exponent ← read_signed 4 bytes 251
  status ← get_elem? bytes 197
  expected ← read_unsigned 8 bytes 198
  committed ← read_unsigned 8 bytes 206
  some (record {
    mode = mode;
    instrument = address bytes 12;
    market_authority = address bytes 44;
    oracle_valid = byte_is bytes 180 1;
    last_verified_oracle_price = price;
    last_verified_oracle_timestamp = timestamp;
    oracle_feed_id = feed;
    oracle_channel = channel;
    oracle_exponent = exponent;
    delegation_status = status;
    expected_commit_sequence = expected;
    last_committed_sequence = committed;
    validator = address bytes 214;
  })

abbrev pub is_core : Bytes → Bool
is_core bytes =
    valid_version bytes core_discriminator 4096 && (byte_is bytes 10 1 && byte_is bytes 371 2)

unfoldable pub decode_v3_core : Bytes → Option V3CoreState
decode_v3_core bytes = if is_core bytes then core_fields bytes else none

pub record Order : Type 0 where
  pub side : ℕ
  pub owner : ℕ
  pub quantity : ℕ
  pub expires_at : ℕ
  pub peg_limit : ℤ
  pub client_order_id : ℕ
  pub price_or_offset : ℤ
  pub sequence : ℕ
  pub time_in_force : ℕ
  pub post_only : Bool
  pub reduce_only : Bool

-- A leaf has an order; its tree is known once the book is annotated.
pub record V3BookNodeState : Type 0 where
  pub handle : ℕ
  pub key : ℕ
  pub order : Option Order
  pub tree : Option Tree

abbrev pub node_key : Bytes → Option ℕ
node_key bytes = do
  high ← read_unsigned 8 bytes 16
  low ← read_unsigned 8 bytes 8
  some (high * 2 ^ 64 + low)

abbrev pub order_fields : Bytes → Option Order
order_fields bytes = do
  side ← get_elem? bytes 1
  owner ← read_unsigned 4 bytes 4
  quantity ← read_unsigned 8 bytes 24
  expires ← read_unsigned 8 bytes 32
  peg ← read_signed 8 bytes 40
  client ← read_unsigned 8 bytes 48
  price ← read_signed 8 bytes 56
  sequence ← read_unsigned 8 bytes 64
  force ← get_elem? bytes 2
  flags ← get_elem? bytes 72
  some (record {
    side = side;
    owner = owner;
    quantity = quantity;
    expires_at = expires;
    peg_limit = peg;
    client_order_id = client;
    price_or_offset = price;
    sequence = sequence;
    time_in_force = force;
    post_only = flags % 2 == 1;
    reduce_only = flags / 2 % 2 == 1;
  })

unfoldable pub decode_book_node : Bytes → ℕ → Option V3BookNodeState
decode_book_node bytes handle =
    if not (length bytes == 88)
    then none
    else if byte_is bytes 0 1
    then (do
      key ← node_key bytes
      some (record { handle = handle; key = key; order = none; tree = none }))
    else if byte_is bytes 0 2
    then (do
      key ← node_key bytes
      order ← order_fields bytes
      some (record { handle = handle; key = key; order = some order; tree = none }))
    else none

abbrev pub add_if {ℓ} : {A : Type ℓ} → Option A → List A → List A
add_if none xs = xs
add_if (some a) xs = a ∷ xs

-- The slots of 88 bytes one after the other, the empty ones left out.
abbrev pub decode_nodes : ℕ → ℕ → Bytes → List V3BookNodeState
decode_nodes zero handle bytes = []
decode_nodes (suc slots) handle bytes =
    add_if (decode_book_node (take 88 bytes) handle)
      (decode_nodes slots (suc handle) (drop 88 bytes))

pub record V3BookPageState : Type 0 where
  pub side : ℕ
  pub page : ℕ
  pub core : Bytes
  pub fixed_root : ℕ
  pub pegged_root : ℕ
  pub free_head : ℕ
  pub free_count : ℕ
  pub node_count : ℕ
  pub node_bytes : Bytes
  pub nodes : List V3BookNodeState

abbrev pub page_fields : Bytes → Option V3BookPageState
page_fields bytes = do
  side ← get_elem? bytes 10
  page ← get_elem? bytes 11
  node_count ← read_unsigned 4 bytes 60
  free_count ← read_unsigned 4 bytes 56
  fixed_root ← read_unsigned 4 bytes 44
  pegged_root ← read_unsigned 4 bytes 48
  free_head ← read_unsigned 4 bytes 52
  let limit = if page == 0 then 1024 else 115
  if ltb 1 side || (leb 9 page || (ltb limit node_count || ltb limit free_count))
      then none
      else some (record {
        side = side;
        page = page;
        core = address bytes 12;
        fixed_root = fixed_root;
        pegged_root = pegged_root;
        free_head = free_head;
        free_count = free_count;
        node_count = node_count;
        node_bytes = drop 64 bytes;
        nodes = decode_nodes 115 (page * 115) (drop 64 bytes);
      })

unfoldable pub decode_v3_book_page : Bytes → Option V3BookPageState
decode_v3_book_page bytes =
    if valid_version bytes book_discriminator 10184 then page_fields bytes else none

pub record SeatState : Type 0 where
  pub trader : Bytes
  pub available_collateral : ℤ
  pub reserved_margin : ℤ
  pub base_position : ℤ
  pub quote_entry_value : ℤ
  pub realized_pnl : ℤ
  pub last_funding_accumulator : ℤ
  pub open_bid_exposure : ℤ
  pub open_ask_exposure : ℤ
  pub open_order_count : ℕ
  pub liquidation_state : ℕ
  pub sequence : ℕ

-- The fields of a seat that starts at an offset.
unfoldable pub seat_fields : Bytes → ℕ → Option SeatState
seat_fields bytes start = do
  collateral ← read_signed 16 bytes (start + 40)
  margin ← read_signed 16 bytes (start + 56)
  position ← read_signed 16 bytes (start + 72)
  entry ← read_signed 16 bytes (start + 88)
  pnl ← read_signed 16 bytes (start + 104)
  funding ← read_signed 16 bytes (start + 120)
  bids ← read_signed 16 bytes (start + 136)
  asks ← read_signed 16 bytes (start + 152)
  orders ← read_unsigned 4 bytes (start + 168)
  state ← get_elem? bytes (start + 172)
  sequence ← read_unsigned 8 bytes (start + 176)
  some (record {
    trader = address bytes (start + 1);
    available_collateral = collateral;
    reserved_margin = margin;
    base_position = position;
    quote_entry_value = entry;
    realized_pnl = pnl;
    last_funding_accumulator = funding;
    open_bid_exposure = bids;
    open_ask_exposure = asks;
    open_order_count = orders;
    liquidation_state = state;
    sequence = sequence;
  })

pub data LiquidationLabel : Type 0 where
  healthy warning liquidatable bankrupt unknown : LiquidationLabel

-- How the client shows `liquidation_state`.
unfoldable pub liquidation_label : ℕ → LiquidationLabel
liquidation_label raw =
    if raw == 0
    then healthy
    else if raw == 1
    then warning
    else if raw == 2
    then liquidatable
    else if raw == 3
    then bankrupt
    else unknown

-- `decodeSeat` of a V3 shard: 256 bytes, taken unless the first is 0.
unfoldable pub decode_seat : Bytes → Option SeatState
unfolding seat_fields
decode_seat bytes =
    if not (length bytes == 256) || byte_is bytes 0 0 then none else seat_fields bytes 0

-- `decodeTraderSeat` of a V2 market, with the liquidation state as its byte: a seat in the market's bytes, taken only if its first is 1.
unfoldable pub decode_trader_seat : Bytes → ℕ → ℕ → Option SeatState
unfolding seat_fields
decode_trader_seat market_bytes trader_seat_offset seat_index =
    let start = trader_seat_offset + seat_index * 256 in
    if leb 128 seat_index
      || (ltb (length market_bytes) (start + 256) || not (byte_is market_bytes start 1))
    then none
    else seat_fields market_bytes start

-- The price at which a node can be executed on a side.
abbrev pub pegged_price : Bool → ℤ → Order → ℤ → Option ℕ
pegged_price side_bid oracle order price =
    if leb_ℤ order.peg_limit (pos 0)
    then none
    else if (if side_bid then leb_ℤ price order.peg_limit else leb_ℤ order.peg_limit price)
    then positive price
    else none

abbrev pub if_safe : Option ℕ → Option ℕ
if_safe none = none
if_safe (some p) = if ltb max_safe_integer p then none else some p

abbrev pub order_price : Bool → ℤ → ℕ → Order → Tree → Option ℕ
order_price side_bid oracle now order tree =
    if not (same_bool (order.side == 0) side_bid)
      || (order.quantity == 0 || leb order.expires_at now)
    then none
    else if_safe (elim tree [
      | fixed ↦ positive order.price_or_offset
      | pegged ↦ pegged_price side_bid oracle order (oracle +ℤ order.price_or_offset)
    ])

-- A node that is no leaf, or is in no tree, has none.
abbrev pub node_price : Bool → ℤ → ℕ → V3BookNodeState → Option ℕ
node_price side_bid oracle now node = do
  order ← node.order
  tree ← node.tree
  order_price side_bid oracle now order tree

abbrev pub node_prices : Bool → ℤ → ℕ → List V3BookNodeState → List (Option ℕ)
node_prices side_bid oracle now [] = []
node_prices side_bid oracle now (n ∷ ns) =
    node_price side_bid oracle now n ∷ node_prices side_bid oracle now ns

abbrev pub mark_at : Option ℕ → List V3BookNodeState → ℕ → Option MarkQuote
mark_at none nodes now = none
mark_at (some oracle) nodes now = some (
    quote (to_number oracle) 500 (best_over true (node_prices true (pos oracle) now nodes) none)
      (best_over false (node_prices false (pos oracle) now nodes) none))

abbrev pub is_live : ℕ → Bool
is_live mode = mode == 1 || (mode == 2 || mode == 3)

-- `executableV3Mark`, at the time `now`.
unfoldable pub executable_v3_mark :
    V3CoreState → List V3BookNodeState → List V3BookNodeState → ℕ → Option MarkQuote
executable_v3_mark core bids asks now =
    if not (is_live core.mode) || not core.oracle_valid
    then none
    else mark_at (positive core.last_verified_oracle_price) (bids ++ asks) now

abbrev pub slotted : ℕ → Option SeatState → Option (ℕ × SeatState)
slotted slot none = none
slotted slot (some seat) = some (slot, seat)

-- The slots of 256 bytes from a number on, each seat with its slot, the unoccupied ones left out.
abbrev pub decode_seats : ℕ → ℕ → Bytes → List (ℕ × SeatState)
decode_seats zero slot bytes = []
decode_seats (suc slots) slot bytes =
    add_if (slotted slot (decode_seat (take 256 bytes)))
      (decode_seats slots (suc slot) (drop 256 bytes))

pub record V3SeatShardState : Type 0 where
  pub shard : ℕ
  pub core : Bytes
  pub seats : Bytes
  pub positions : List (ℕ × SeatState)

abbrev pub below_four : Option ℕ → Bool
below_four none = false
below_four (some n) = ltb n 4

abbrev pub is_shard : Bytes → Bytes → ℕ → Bool
is_shard bytes discriminator size =
    valid_version bytes discriminator size
    && (below_four (get_elem? bytes 10) && byte_is bytes 11 0)

unfoldable pub decode_v3_seat_shard : Bytes → Option V3SeatShardState
decode_v3_seat_shard bytes = if not (is_shard bytes seat_discriminator 8236) then none else (do
  shard ← get_elem? bytes 10
  some (record {
    shard = shard;
    core = address bytes 12;
    seats = drop 44 bytes;
    positions = decode_seats 32 0 (drop 44 bytes);
  }))

pub record V3EventRecord : Type 0 where
  pub kind : ℕ
  pub sequence : ℕ
  pub timestamp : ℕ
  pub payload : Bytes

-- A record of the kind 0 is empty.
unfoldable pub decode_v3_event_record : Bytes → Option V3EventRecord
decode_v3_event_record bytes = if not (length bytes == 100) then none else (do
  kind ← read_unsigned 2 bytes 0
  sequence ← read_unsigned 8 bytes 4
  timestamp ← read_unsigned 8 bytes 44
  if kind == 0
      then none
      else some (record {
        kind = kind;
        sequence = sequence;
        timestamp = timestamp;
        payload = drop 52 bytes;
      }))

abbrev pub decode_records : ℕ → Bytes → List (Option V3EventRecord)
decode_records zero bytes = []
decode_records (suc slots) bytes =
    decode_v3_event_record (take 100 bytes) ∷ decode_records slots (drop 100 bytes)

pub record V3EventShardState : Type 0 where
  pub shard : ℕ
  pub core : Bytes
  pub events : Bytes
  pub records : List (Option V3EventRecord)

unfoldable pub decode_v3_event_shard : Bytes → Option V3EventShardState
decode_v3_event_shard bytes = if not (is_shard bytes event_discriminator 3244) then none else (do
  shard ← get_elem? bytes 10
  some (record {
    shard = shard;
    core = address bytes 12;
    events = drop 44 bytes;
    records = decode_records 32 (drop 44 bytes);
  }))
