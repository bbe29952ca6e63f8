-- ===== src/Transactions/Encode.antt =====
-- The encoders of workers/src/transactions.ts, up to the V3 forms: the bytes of each instruction.
-- `Uint8Array.of(n)` is a writer with one byte.
use Prim.Native.String.{String}
use equinox.Prelude.{
  ℕ, Bool, Option, none, some, List, [], ◌∷◌, ◌||◌, not, ltb, ◌==◌, if◌then◌else◌, length, drop,
}
use equinox.Prelude.Int.{ℤ}
use equinox.Bytes.{Bytes}
use equinox.Mark.{◌>>=◌}
use equinox.Transactions.{
  PlaceOrderFields, SessionFields, MarketTransition, pause, resume, close_only, AccountMeta,
  Instruction, place_order_data, instruction, start, number,
}
use equinox.Transactions.Writer.{Number, u8, u16, u64, i128, u128, raw, pubkey}

-- The data of an instruction with a seat and an amount, an amount alone, and a seat alone.
abbrev pub seat_amount : ℕ → Number → ℤ → Option Bytes
seat_amount op seat amount = start >>= u8 (number op) >>= u16 seat >>= u64 amount

abbrev pub amount_only : ℕ → ℤ → Option Bytes
amount_only op amount = start >>= u8 (number op) >>= u64 amount

abbrev pub seat_only : ℕ → Number → Option Bytes
seat_only op seat = start >>= u8 (number op) >>= u16 seat

abbrev pub session_data : ℕ → SessionFields → Option Bytes
session_data op fields =
    start
    >>= u8 (number op)
    >>= u16 fields.session_seat
    >>= u64 fields.session_expires_at
    >>= u8 fields.actions
    >>= u64 fields.max_order_notional
    >>= u64 fields.max_cumulative_notional
    >>= i128 fields.maximum_exposure
    >>= u16 fields.maximum_open_orders

abbrev pub transition_opcode : MarketTransition → ℕ
transition_opcode pause = 25
transition_opcode resume = 26
transition_opcode close_only = 27

module _ {Address : Type 0} (address : String → Option Address) (program : String)
    (accounts : List (AccountMeta Address)) where
  abbrev pub place_order_instruction : PlaceOrderFields → Option (Instruction Address)
  place_order_instruction fields = instruction address (place_order_data fields) program accounts

  abbrev pub cancel_order_instruction : Number → ℤ → ℤ → Option (Instruction Address)
  cancel_order_instruction seat key nonce =
      instruction address (start >>= u8 (number 4) >>= u16 seat >>= u128 key >>= u64 nonce) program
        accounts

  abbrev pub cancel_all_instruction : Number → Number → ℤ → Option (Instruction Address)
  cancel_all_instruction seat cancellations nonce =
      instruction address (start >>= u8 (number 5) >>= u16 seat >>= u8 cancellations >>= u64 nonce)
        program accounts

  abbrev pub replace_order_instruction : ℤ → PlaceOrderFields → Option (Instruction Address)
  replace_order_instruction old_key fields =
      (place_order_data fields >>= λ place.
      instruction address (start >>= u8 (number 33) >>= u128 old_key >>= raw (drop 1 place)) program
        accounts)

  abbrev pub update_funding_instruction : ℤ → ℤ → Option (Instruction Address)
  update_funding_instruction accumulator timestamp =
      instruction address (start >>= u8 (number 6) >>= i128 accumulator >>= u64 timestamp) program
        accounts

  abbrev pub liquidate_instruction : Number → ℤ → Option (Instruction Address)
  liquidate_instruction seat amount =
      instruction address (seat_amount 7 seat amount) program accounts

  abbrev pub deposit_collateral_instruction : Number → ℤ → Option (Instruction Address)
  deposit_collateral_instruction seat amount =
      instruction address (seat_amount 10 seat amount) program accounts

  abbrev pub withdraw_collateral_instruction : Number → ℤ → Option (Instruction Address)
  withdraw_collateral_instruction seat amount =
      instruction address (seat_amount 11 seat amount) program accounts

  abbrev pub record_bad_debt_instruction : Number → ℤ → Option (Instruction Address)
  record_bad_debt_instruction seat amount =
      instruction address (seat_amount 37 seat amount) program accounts

  abbrev pub transfer_to_insurance_fund_instruction : ℤ → Option (Instruction Address)
  transfer_to_insurance_fund_instruction amount =
      instruction address (amount_only 34 amount) program accounts

  abbrev pub withdraw_protocol_fees_instruction : ℤ → Option (Instruction Address)
  withdraw_protocol_fees_instruction amount =
      instruction address (amount_only 35 amount) program accounts

  abbrev pub withdraw_insurance_funds_instruction : ℤ → Option (Instruction Address)
  withdraw_insurance_funds_instruction amount =
      instruction address (amount_only 36 amount) program accounts

  abbrev pub resolve_bad_debt_instruction : ℤ → Option (Instruction Address)
  resolve_bad_debt_instruction amount = instruction address (amount_only 38 amount) program accounts

  abbrev pub revoke_trading_session_instruction : Number → Option (Instruction Address)
  revoke_trading_session_instruction seat = instruction address (seat_only 18 seat) program accounts

  abbrev pub close_trading_session_instruction : Number → Option (Instruction Address)
  close_trading_session_instruction seat = instruction address (seat_only 32 seat) program accounts

  abbrev pub initialize_vault_instruction : Option (Instruction Address)
  initialize_vault_instruction = instruction address (some (9 ∷ [])) program accounts

  abbrev pub reconcile_vault_instruction : Option (Instruction Address)
  reconcile_vault_instruction = instruction address (some (39 ∷ [])) program accounts

  abbrev pub transition_market_instruction : MarketTransition → Option (Instruction Address)
  transition_market_instruction mode =
      instruction address (some (transition_opcode mode ∷ [])) program accounts

  abbrev pub delegate_market_instruction : Bytes → Option (Instruction Address)
  delegate_market_instruction validator =
      if not (length validator == 32)
      then none
      else instruction address (start >>= u8 (number 13) >>= pubkey validator) program accounts

  abbrev pub commit_market_instruction : ℤ → Bool → Option (Instruction Address)
  commit_market_instruction sequence undelegate =
      instruction address (amount_only (if undelegate then 15 else 14) sequence) program accounts

  abbrev pub authorize_trading_session_instruction : SessionFields → Option (Instruction Address)
  authorize_trading_session_instruction fields =
      instruction address (session_data 17 fields) program accounts

  abbrev pub update_trading_session_limits_instruction :
      SessionFields → Option (Instruction Address)
  update_trading_session_limits_instruction fields =
      instruction address (session_data 31 fields) program accounts

  -- `[12, ed25519_instruction_index:u16, signature_index:u8, ...pyth_message]`.
  abbrev pub consume_oracle_update_instruction :
      Number → Number → Bytes → Option (Instruction Address)
  consume_oracle_update_instruction ed25519_index signature_index message =
      if length message == 0 || ltb 512 (length message)
      then none
      else instruction address
          (start >>= u8 (number 12) >>= u16 ed25519_index >>= u8 signature_index >>= raw message)
          program accounts
