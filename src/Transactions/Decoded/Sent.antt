-- ===== src/Transactions/Decoded/Sent.antt =====
-- What the fields of a call stand for, and the first byte of an instruction.
use equinox.Prelude.{ℕ, ◌≡◌, Option, none, some, List, [], ◌∷◌, get_or, get_elem?, arith}
use equinox.Prelude.Int.{pos}
use equinox.Bytes.{Bytes, read_unsigned, le_prefix}
use equinox.Mark.{◌>>=◌}
use equinox.Program
use equinox.Program.{
  ProgramInstruction, decode, decode_as, place_fields, session_fields, read_unsigned_at,
  seat_and_amount, seat_alone, amount_alone, pause_action, resume_action, close_only_action,
  TransitionAction,
}
use equinox.Transactions.{
  PlaceOrderFields, SessionFields, MarketTransition, pause, resume, close_only, side_byte,
  tree_byte, flags_byte,
}
use equinox.Transactions.Writer.{int_of, raw}
use equinox.Transactions.Fields.{Field, byte_field, half_field, unsigned_field, signed_field}

pub first_byte :
    (bs : Bytes) (k : ℕ) → read_unsigned_at 1 bs 0 ≡ some (pos k) → get_elem? bs 0 ≡ some k
unfolding read_unsigned_at read_unsigned le_prefix
first_byte [] k h = ground arith
first_byte (b ∷ bs) k h = ground arith

-- The order that the fields stand for, with the values of those left out.
unfoldable pub sent_order : PlaceOrderFields → Program.PlaceOrderData
sent_order fields = record {
  side = int_of (side_byte fields.side);
  tree = int_of (tree_byte fields.tree);
  flags = int_of (flags_byte fields);
  seat_index = int_of fields.seat_index;
  quantity = fields.quantity;
  price_or_offset = fields.price_or_offset;
  expires_at = get_or fields.expires_at (pos 0);
  peg_limit = get_or fields.peg_limit (pos 0);
  client_order_id = fields.client_order_id;
  action_nonce = get_or fields.action_nonce (pos 0);
}

unfoldable pub sent_limits : SessionFields → Program.SessionLimits
sent_limits fields = record {
  session_seat = int_of fields.session_seat;
  session_expires_at = fields.session_expires_at;
  actions = int_of fields.actions;
  max_order_notional = fields.max_order_notional;
  max_cumulative_notional = fields.max_cumulative_notional;
  maximum_exposure = fields.maximum_exposure;
  maximum_open_orders = int_of fields.maximum_open_orders;
}

abbrev pub sent_transition : MarketTransition → ProgramInstruction
sent_transition pause = Program.transition_market (pos 0) pause_action
sent_transition resume = Program.transition_market (pos 1) resume_action
sent_transition close_only = Program.transition_market (pos 2) close_only_action

abbrev pub order_fields : PlaceOrderFields → List Field
order_fields fields =
    byte_field (side_byte fields.side)
    ∷ byte_field (tree_byte fields.tree)
    ∷ byte_field (flags_byte fields)
    ∷ half_field fields.seat_index
    ∷ unsigned_field 8 fields.quantity
    ∷ signed_field 8 fields.price_or_offset
    ∷ unsigned_field 8 (get_or fields.expires_at (pos 0))
    ∷ signed_field 8 (get_or fields.peg_limit (pos 0))
    ∷ unsigned_field 8 fields.client_order_id
    ∷ unsigned_field 8 (get_or fields.action_nonce (pos 0))
    ∷ []

pub nothing_raw :
    (v : Bytes) {w : Option Bytes} {bs : Bytes} → w ≡ none → (w >>= raw v) ≡ some bs → ⊥
nothing_raw v {w = none} e h = ground arith
nothing_raw v {w = some b} e h = ground arith
