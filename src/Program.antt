-- ===== src/Program.antt =====
-- The instructions of the program on chain, programs/equinox/src/instruction.rs, as far as the
-- Worker sends them: `EquinoxInstruction::decode`. An integer of any width is an integer in its
-- range.
pub mod Oracle
use equinox.Prelude.{
  ℕ, ◌+◌, ◌-◌, Bool, Option, none, some, List, [], ◌∷◌, ◌&&◌, leb, ◌==◌, if◌then◌else◌, get_elem?,
  drop, take, length,
}
use equinox.Prelude.Int.{ℤ, pos}
use equinox.Bytes.{Bytes, read_unsigned, read_signed}
use equinox.Mark.{◌>>=◌}
use mathlib.Core.Option

pub record PlaceOrderData : Type 0 where
  pub side : ℤ
  pub tree : ℤ
  pub flags : ℤ
  pub seat_index : ℤ
  pub quantity : ℤ
  pub price_or_offset : ℤ
  pub expires_at : ℤ
  pub peg_limit : ℤ
  pub client_order_id : ℤ
  pub action_nonce : ℤ

-- The arguments of `AuthorizeTradingSession` and `UpdateTradingSessionLimits`.
pub record SessionLimits : Type 0 where
  pub session_seat : ℤ
  pub session_expires_at : ℤ
  pub actions : ℤ
  pub max_order_notional : ℤ
  pub max_cumulative_notional : ℤ
  pub maximum_exposure : ℤ
  pub maximum_open_orders : ℤ

pub data TransitionAction : Type 0 where
  pause_action resume_action close_only_action : TransitionAction

-- The variants that the Worker encodes, with their fields in the order of the source.
pub data ProgramInstruction : Type 0 where
  place_order : PlaceOrderData → ProgramInstruction
  cancel_order : (seat order_key nonce : ℤ) → ProgramInstruction
  cancel_all : (seat max_cancellations nonce : ℤ) → ProgramInstruction
  update_funding : (accumulator timestamp : ℤ) → ProgramInstruction
  liquidate : (seat max_quantity : ℤ) → ProgramInstruction
  initialize_vault reconcile_vault reconcile_vault_v3 consume_oracle_update : ProgramInstruction
  deposit_collateral withdraw_collateral : (seat amount : ℤ) → ProgramInstruction
  deposit_collateral_v3 withdraw_collateral_v3 : (seat amount : ℤ) → ProgramInstruction
  delegate_market : Bytes → ProgramInstruction
  commit_market commit_and_undelegate : (sequence : ℤ) → ProgramInstruction
  authorize_session update_session : SessionLimits → ProgramInstruction
  revoke_session close_session : (seat : ℤ) → ProgramInstruction
  transition_market : (mode : ℤ) → TransitionAction → ProgramInstruction
  replace_order : (old_key : ℤ) → PlaceOrderData → ProgramInstruction
  transfer_to_insurance withdraw_fees withdraw_insurance : (amount : ℤ) → ProgramInstruction
  record_bad_debt : (seat amount : ℤ) → ProgramInstruction
  resolve_bad_debt : (amount : ℤ) → ProgramInstruction

-- `read_u16` to `read_u128`, by their width in bytes, and `data[start]` for a width of one.
unfoldable pub read_unsigned_at : ℕ → Bytes → ℕ → Option ℤ
read_unsigned_at width data' start = Option.map pos (read_unsigned width data' start)

-- `read_i64` and `read_i128`.
unfoldable pub read_signed_at : ℕ → Bytes → ℕ → Option ℤ
read_signed_at width data' start = read_signed width data' start

-- `data[start..start + width]`.
unfoldable pub slice_at : ℕ → Bytes → ℕ → Option Bytes
slice_at width data' start =
    if leb (start + width) (length data') then some (take width (drop start data')) else none

-- The fields of an order from an offset on.
unfoldable pub place_fields : Bytes → ℕ → Option PlaceOrderData
place_fields data' o = do
  side ← read_unsigned_at 1 data' o
  tree ← read_unsigned_at 1 data' (o + 1)
  flags ← read_unsigned_at 1 data' (o + 2)
  seat ← read_unsigned_at 2 data' (o + 3)
  quantity ← read_unsigned_at 8 data' (o + 5)
  price ← read_signed_at 8 data' (o + 13)
  expires ← read_unsigned_at 8 data' (o + 21)
  limit ← read_signed_at 8 data' (o + 29)
  client_id ← read_unsigned_at 8 data' (o + 37)
  nonce ← read_unsigned_at 8 data' (o + 45)
  some record {
    side = side;
    tree = tree;
    flags = flags;
    seat_index = seat;
    quantity = quantity;
    price_or_offset = price;
    expires_at = expires;
    peg_limit = limit;
    client_order_id = client_id;
    action_nonce = nonce;
  }

unfoldable pub session_fields : Bytes → Option SessionLimits
session_fields data' = do
  seat ← read_unsigned_at 2 data' 1
  expires ← read_unsigned_at 8 data' 3
  actions ← read_unsigned_at 1 data' 11
  order_notional ← read_unsigned_at 8 data' 12
  cumulative ← read_unsigned_at 8 data' 20
  exposure ← read_signed_at 16 data' 28
  orders ← read_unsigned_at 2 data' 44
  some record {
    session_seat = seat;
    session_expires_at = expires;
    actions = actions;
    max_order_notional = order_notional;
    max_cumulative_notional = cumulative;
    maximum_exposure = exposure;
    maximum_open_orders = orders;
  }

-- A seat and an amount, an amount alone, and a seat alone.
unfoldable pub seat_and_amount : (ℤ → ℤ → ProgramInstruction) → Bytes → Option ProgramInstruction
seat_and_amount variant data' = do
  seat ← read_unsigned_at 2 data' 1
  amount ← read_unsigned_at 8 data' 3
  some (variant seat amount)

unfoldable pub amount_alone : (ℤ → ProgramInstruction) → Bytes → Option ProgramInstruction
amount_alone variant data' = Option.map variant (read_unsigned_at 8 data' 1)

unfoldable pub seat_alone : (ℤ → ProgramInstruction) → Bytes → Option ProgramInstruction
seat_alone variant data' = Option.map variant (read_unsigned_at 2 data' 1)

-- `EquinoxInstruction::decode` by the first byte, for the opcodes of the Worker. `none` is
-- `InvalidInstructionData`.
unfoldable pub decode_as : ℕ → Bytes → Option ProgramInstruction
decode_as op data' =
    let n = length data' in
    if op == 3 && n == 54
    then Option.map place_order (place_fields data' 1)
    else if op == 4 && n == 27
    then (do
      seat ← read_unsigned_at 2 data' 1
      key ← read_unsigned_at 16 data' 3
      nonce ← read_unsigned_at 8 data' 19
      some (cancel_order seat key nonce))
    else if op == 5 && n == 12
    then (do
      seat ← read_unsigned_at 2 data' 1
      cancellations ← read_unsigned_at 1 data' 3
      nonce ← read_unsigned_at 8 data' 4
      some (cancel_all seat cancellations nonce))
    else if op == 6 && n == 25
    then (do
      accumulator ← read_signed_at 16 data' 1
      timestamp ← read_unsigned_at 8 data' 17
      some (update_funding accumulator timestamp))
    else if op == 7 && n == 11
    then seat_and_amount liquidate data'
    else if op == 9 && n == 1
    then some initialize_vault
    else if op == 10 && n == 11
    then seat_and_amount deposit_collateral data'
    else if op == 11 && n == 11
    then seat_and_amount withdraw_collateral data'
    else if op == 12 && (leb 107 n && leb n 516)
    then some consume_oracle_update
    else if op == 13 && n == 33
    then Option.map delegate_market (slice_at 32 data' 1)
    else if op == 14 && n == 9
    then amount_alone commit_market data'
    else if op == 53 && n == 11
    then seat_and_amount deposit_collateral_v3 data'
    else if op == 54 && n == 11
    then seat_and_amount withdraw_collateral_v3 data'
    else if op == 15 && n == 9
    then amount_alone commit_and_undelegate data'
    else if op == 17 && n == 46
    then Option.map authorize_session (session_fields data')
    else if op == 18 && n == 3
    then seat_alone revoke_session data'
    else if op == 31 && n == 46
    then Option.map update_session (session_fields data')
    else if op == 32 && n == 3
    then seat_alone close_session data'
    else if op == 33 && n == 70
    then (do
      key ← read_unsigned_at 16 data' 1
      order ← place_fields data' 17
      some (replace_order key order))
    else if op == 55 && n == 1
    then some reconcile_vault_v3
    else if op == 25 && n == 1
    then some (transition_market (pos 0) pause_action)
    else if op == 26 && n == 1
    then some (transition_market (pos 1) resume_action)
    else if op == 27 && n == 1
    then some (transition_market (pos 2) close_only_action)
    else if op == 34 && n == 9
    then amount_alone transfer_to_insurance data'
    else if op == 35 && n == 9
    then amount_alone withdraw_fees data'
    else if op == 36 && n == 9
    then amount_alone withdraw_insurance data'
    else if op == 37 && n == 11
    then seat_and_amount record_bad_debt data'
    else if op == 38 && n == 9
    then amount_alone resolve_bad_debt data'
    else if op == 39 && n == 1
    then some reconcile_vault
    else none

unfoldable pub decode : Bytes → Option ProgramInstruction
decode data' = get_elem? data' 0 >>= λ op. decode_as op data'
