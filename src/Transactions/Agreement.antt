-- ===== src/Transactions/Agreement.antt =====
-- Every instruction of the encoders, as one command, against the program's decoder.
use Prim.Native.String.{String}
use equinox.Prelude.{
  ℕ, ◌≤◌, ◌≡◌, refl, Bool, true, false, Option, none, some, List, ◌||◌, ltb, ◌==◌, if◌then◌else◌,
  length, arith, Option-cases,
}
use equinox.Prelude.Int.{ℤ}
use equinox.Bytes.{Bytes}
use equinox.Mark.{◌>>=◌}
use equinox.Program
use equinox.Program.{ProgramInstruction, decode, decode_as}
use equinox.Transactions.{
  place_order_data, PlaceOrderFields, SessionFields, MarketTransition, pause, resume, close_only,
  AccountMeta, Instruction, instruction,
}
use equinox.Transactions.Writer.{Number, int_of}
use equinox.Transactions.Encode
use equinox.Transactions.Decoded
use equinox.Transactions.Decoded.{sent_order, sent_limits, sent_transition}

-- A call of one of the encoders.
pub data Command : Type 0 where
  place : PlaceOrderFields → Command
  cancel : (seat : Number) (key nonce : ℤ) → Command
  cancel_all : (seat count : Number) (nonce : ℤ) → Command
  replace : (old_key : ℤ) → PlaceOrderFields → Command
  update_funding : (accumulator timestamp : ℤ) → Command
  liquidate deposit withdraw record_debt : (seat : Number) (amount : ℤ) → Command
  insure withdraw_fees withdraw_insurance resolve_debt : (amount : ℤ) → Command
  revoke close_session : (seat : Number) → Command
  initialize_vault reconcile_vault : Command
  transition : MarketTransition → Command
  delegate : (validator : Bytes) → Command
  commit : (sequence : ℤ) (undelegate : Bool) → Command
  authorize limit : SessionFields → Command
  consume_oracle : (ed25519_index signature_index : Number) (message : Bytes) → Command

abbrev pub issue :
    {Address : Type 0}
    → (String → Option Address)
    → String
    → List (AccountMeta Address)
    → Command
    → Option (Instruction Address)
issue address program accounts (place f) = Encode.place_order_instruction address program accounts f
issue address program accounts (cancel seat key nonce) =
    Encode.cancel_order_instruction address program accounts seat key nonce
issue address program accounts (cancel_all seat count nonce) =
    Encode.cancel_all_instruction address program accounts seat count nonce
issue address program accounts (replace key f) =
    Encode.replace_order_instruction address program accounts key f
issue address program accounts (update_funding accumulator timestamp) =
    Encode.update_funding_instruction address program accounts accumulator timestamp
issue address program accounts (liquidate seat amount) =
    Encode.liquidate_instruction address program accounts seat amount
issue address program accounts (deposit seat amount) =
    Encode.deposit_collateral_instruction address program accounts seat amount
issue address program accounts (withdraw seat amount) =
    Encode.withdraw_collateral_instruction address program accounts seat amount
issue address program accounts (record_debt seat amount) =
    Encode.record_bad_debt_instruction address program accounts seat amount
issue address program accounts (insure amount) =
    Encode.transfer_to_insurance_fund_instruction address program accounts amount
issue address program accounts (withdraw_fees amount) =
    Encode.withdraw_protocol_fees_instruction address program accounts amount
issue address program accounts (withdraw_insurance amount) =
    Encode.withdraw_insurance_funds_instruction address program accounts amount
issue address program accounts (resolve_debt amount) =
    Encode.resolve_bad_debt_instruction address program accounts amount
issue address program accounts (revoke seat) =
    Encode.revoke_trading_session_instruction address program accounts seat
issue address program accounts (close_session seat) =
    Encode.close_trading_session_instruction address program accounts seat
issue address program accounts initialize_vault =
    Encode.initialize_vault_instruction address program accounts
issue address program accounts reconcile_vault =
    Encode.reconcile_vault_instruction address program accounts
issue address program accounts (transition mode) =
    Encode.transition_market_instruction address program accounts mode
issue address program accounts (delegate validator) =
    Encode.delegate_market_instruction address program accounts validator
issue address program accounts (commit sequence undelegate) =
    Encode.commit_market_instruction address program accounts sequence undelegate
issue address program accounts (authorize f) =
    Encode.authorize_trading_session_instruction address program accounts f
issue address program accounts (limit f) =
    Encode.update_trading_session_limits_instruction address program accounts f
issue address program accounts (consume_oracle e s message) =
    Encode.consume_oracle_update_instruction address program accounts e s message

-- What the program is asked to do.
unfoldable pub meant : Command → ProgramInstruction
meant (place f) = Program.place_order (sent_order f)
meant (cancel seat key nonce) = Program.cancel_order (int_of seat) key nonce
meant (cancel_all seat count nonce) = Program.cancel_all (int_of seat) (int_of count) nonce
meant (replace key f) = Program.replace_order key (sent_order f)
meant (update_funding accumulator timestamp) = Program.update_funding accumulator timestamp
meant (liquidate seat amount) = Program.liquidate (int_of seat) amount
meant (deposit seat amount) = Program.deposit_collateral (int_of seat) amount
meant (withdraw seat amount) = Program.withdraw_collateral (int_of seat) amount
meant (record_debt seat amount) = Program.record_bad_debt (int_of seat) amount
meant (insure amount) = Program.transfer_to_insurance amount
meant (withdraw_fees amount) = Program.withdraw_fees amount
meant (withdraw_insurance amount) = Program.withdraw_insurance amount
meant (resolve_debt amount) = Program.resolve_bad_debt amount
meant (revoke seat) = Program.revoke_session (int_of seat)
meant (close_session seat) = Program.close_session (int_of seat)
meant initialize_vault = Program.initialize_vault
meant reconcile_vault = Program.reconcile_vault
meant (transition mode) = sent_transition mode
meant (delegate validator) = Program.delegate_market validator
meant (commit sequence true) = Program.commit_and_undelegate sequence
meant (commit sequence false) = Program.commit_market sequence
meant (authorize f) = Program.authorize_session (sent_limits f)
meant (limit f) = Program.update_session (sent_limits f)
meant (consume_oracle e s message) = Program.consume_oracle_update

-- The program takes oracle messages of 103 bytes and more; the encoder takes any up to 512.
abbrev pub Deliverable : Command → Type 0
Deliverable (consume_oracle e s message) = 103 ≤ length message
Deliverable c = Unit

pub built :
    {Address : Type 0} (address : String → Option Address) (bytes : Option Bytes) (program : String)
    (accounts : List (AccountMeta Address)) {i : Instruction Address}
    → instruction address bytes program accounts ≡ some i
    → (bytes ≡ some i.payload)
      × (i.accounts ≡ accounts)
      × (address program ≡ some i.program_address)
unfolding instruction
built address none program accounts h = ground arith
built address (some b) program accounts {i} h = ground (arith, Option-cases (address program))

pub refused_or :
    {A : Type 0} {c : Bool} {o : Option A} {y : A}
    → (if c then none else o) ≡ some y
    → (c ≡ false) × (o ≡ some y)
refused_or {c = true} h = ground arith
refused_or {c = false} h = (refl, h)

accepted_size : (n : ℕ) → (n == 0 || ltb 512 n) ≡ false → n ≤ 512
accepted_size n h = ground arith

pub bound :
    {A B : Type 0} (o : Option A) (f : A → Option B) {y : B}
    → (o >>= f) ≡ some y
    → (x : A) × (o ≡ some x) × (f x ≡ some y)
bound none f h = ground arith
bound (some x) f h = (x, refl, h)

-- Whatever an encoder builds, the program's decoder reads back as the same instruction, with the
-- same arguments in the same places; of oracle updates, those whose message has 103 bytes or more.
pub decode-issue :
    {Address : Type 0} (address : String → Option Address) (program : String)
    (accounts : List (AccountMeta Address)) (c : Command) {i : Instruction Address}
    → Deliverable c
    → issue address program accounts c ≡ some i
    → decode i.payload ≡ some (meant c)
unfolding meant decode decode_as
decode-issue address program accounts (place f) d h =
    Decoded.place_order_decoded f (built address _ program accounts h).0
decode-issue address program accounts (cancel seat key nonce) d h =
    Decoded.cancel_order_decoded seat key nonce (built address _ program accounts h).0
decode-issue address program accounts (cancel_all seat count nonce) d h =
    Decoded.cancel_all_decoded seat count nonce (built address _ program accounts h).0
decode-issue address program accounts (replace key f) d h =
    let (place_bytes, ordered, rest) = bound (place_order_data f) _ h in
    Decoded.replace_order_decoded key f place_bytes ordered
      (built address _ program accounts rest).0
decode-issue address program accounts (update_funding accumulator timestamp) d h =
    Decoded.update_funding_decoded accumulator timestamp (built address _ program accounts h).0
decode-issue address program accounts (liquidate seat amount) d h =
    Decoded.liquidate_decoded seat amount (built address _ program accounts h).0
decode-issue address program accounts (deposit seat amount) d h =
    Decoded.deposit_collateral_decoded seat amount (built address _ program accounts h).0
decode-issue address program accounts (withdraw seat amount) d h =
    Decoded.withdraw_collateral_decoded seat amount (built address _ program accounts h).0
decode-issue address program accounts (record_debt seat amount) d h =
    Decoded.record_bad_debt_decoded seat amount (built address _ program accounts h).0
decode-issue address program accounts (insure amount) d h =
    Decoded.transfer_to_insurance_fund_decoded amount (built address _ program accounts h).0
decode-issue address program accounts (withdraw_fees amount) d h =
    Decoded.withdraw_protocol_fees_decoded amount (built address _ program accounts h).0
decode-issue address program accounts (withdraw_insurance amount) d h =
    Decoded.withdraw_insurance_funds_decoded amount (built address _ program accounts h).0
decode-issue address program accounts (resolve_debt amount) d h =
    Decoded.resolve_bad_debt_decoded amount (built address _ program accounts h).0
decode-issue address program accounts (revoke seat) d h =
    Decoded.revoke_trading_session_decoded seat (built address _ program accounts h).0
decode-issue address program accounts (close_session seat) d h =
    Decoded.close_trading_session_decoded seat (built address _ program accounts h).0
decode-issue address program accounts initialize_vault d h =
    Decoded.lone_decoded 9 refl (built address _ program accounts h).0
decode-issue address program accounts reconcile_vault d h =
    Decoded.lone_decoded 39 refl (built address _ program accounts h).0
decode-issue address program accounts (transition pause) d h =
    Decoded.lone_decoded 25 refl (built address _ program accounts h).0
decode-issue address program accounts (transition resume) d h =
    Decoded.lone_decoded 26 refl (built address _ program accounts h).0
decode-issue address program accounts (transition close_only) d h =
    Decoded.lone_decoded 27 refl (built address _ program accounts h).0
decode-issue address program accounts (delegate validator) d h =
    Decoded.delegate_market_decoded validator (built address _ program accounts (refused_or h).1).0
decode-issue address program accounts (commit sequence true) d h =
    Decoded.commit_and_undelegate_decoded sequence (built address _ program accounts h).0
decode-issue address program accounts (commit sequence false) d h =
    Decoded.commit_market_decoded sequence (built address _ program accounts h).0
decode-issue address program accounts (authorize f) d h =
    Decoded.authorize_trading_session_decoded f (built address _ program accounts h).0
decode-issue address program accounts (limit f) d h =
    Decoded.update_trading_session_limits_decoded f (built address _ program accounts h).0
decode-issue address program accounts (consume_oracle e s message) d h =
    let (shown, rest) = refused_or h in
    Decoded.consume_decoded e s message d (accepted_size (length message) shown)
      (built address _ program accounts rest).0
