-- ===== src/Transactions/Decoded/Amounts.antt =====
-- The instructions with a seat and an amount, or one of them, decoded.
use equinox.Prelude.{◌≡◌, refl, some, [], ◌∷◌}
use equinox.Prelude.Int.{ℤ}
use equinox.Bytes.{Bytes}
use equinox.Program
use equinox.Program.{
  ProgramInstruction, decode, decode_as, place_fields, session_fields, read_unsigned_at,
  seat_and_amount, seat_alone, amount_alone, pause_action, resume_action, close_only_action,
  TransitionAction,
}
use equinox.Transactions.{number}
use equinox.Transactions.Writer.{Number, int_of}
use equinox.Transactions.Fields.{byte_field, half_field, unsigned_field, written}
use equinox.Transactions.Encode.{seat_amount, amount_only, seat_only}
use equinox.Transactions.Decoded.Sent.{first_byte}

pub liquidate_decoded :
    (seat : Number) (amount : ℤ) {bs : Bytes}
    → seat_amount 7 seat amount ≡ some bs
    → decode bs ≡ some (Program.liquidate (int_of seat) amount)
unfolding decode decode_as seat_and_amount
liquidate_decoded seat amount {bs} h =
    let (op, (f1, (f2, end))) =
      written (byte_field (number 7) ∷ half_field seat ∷ unsigned_field 8 amount ∷ []) tt h in
    rw (first_byte bs 7 op, end, f1, f2) refl

pub deposit_collateral_decoded :
    (seat : Number) (amount : ℤ) {bs : Bytes}
    → seat_amount 10 seat amount ≡ some bs
    → decode bs ≡ some (Program.deposit_collateral (int_of seat) amount)
unfolding decode decode_as seat_and_amount
deposit_collateral_decoded seat amount {bs} h =
    let (op, (f1, (f2, end))) =
      written (byte_field (number 10) ∷ half_field seat ∷ unsigned_field 8 amount ∷ []) tt h in
    rw (first_byte bs 10 op, end, f1, f2) refl

pub withdraw_collateral_decoded :
    (seat : Number) (amount : ℤ) {bs : Bytes}
    → seat_amount 11 seat amount ≡ some bs
    → decode bs ≡ some (Program.withdraw_collateral (int_of seat) amount)
unfolding decode decode_as seat_and_amount
withdraw_collateral_decoded seat amount {bs} h =
    let (op, (f1, (f2, end))) =
      written (byte_field (number 11) ∷ half_field seat ∷ unsigned_field 8 amount ∷ []) tt h in
    rw (first_byte bs 11 op, end, f1, f2) refl

pub record_bad_debt_decoded :
    (seat : Number) (amount : ℤ) {bs : Bytes}
    → seat_amount 37 seat amount ≡ some bs
    → decode bs ≡ some (Program.record_bad_debt (int_of seat) amount)
unfolding decode decode_as seat_and_amount
record_bad_debt_decoded seat amount {bs} h =
    let (op, (f1, (f2, end))) =
      written (byte_field (number 37) ∷ half_field seat ∷ unsigned_field 8 amount ∷ []) tt h in
    rw (first_byte bs 37 op, end, f1, f2) refl

pub deposit_collateral_v3_decoded :
    (seat : Number) (amount : ℤ) {bs : Bytes}
    → seat_amount 53 seat amount ≡ some bs
    → decode bs ≡ some (Program.deposit_collateral_v3 (int_of seat) amount)
unfolding decode decode_as seat_and_amount
deposit_collateral_v3_decoded seat amount {bs} h =
    let (op, (f1, (f2, end))) =
      written (byte_field (number 53) ∷ half_field seat ∷ unsigned_field 8 amount ∷ []) tt h in
    rw (first_byte bs 53 op, end, f1, f2) refl

pub withdraw_collateral_v3_decoded :
    (seat : Number) (amount : ℤ) {bs : Bytes}
    → seat_amount 54 seat amount ≡ some bs
    → decode bs ≡ some (Program.withdraw_collateral_v3 (int_of seat) amount)
unfolding decode decode_as seat_and_amount
withdraw_collateral_v3_decoded seat amount {bs} h =
    let (op, (f1, (f2, end))) =
      written (byte_field (number 54) ∷ half_field seat ∷ unsigned_field 8 amount ∷ []) tt h in
    rw (first_byte bs 54 op, end, f1, f2) refl

pub transfer_to_insurance_fund_decoded :
    (amount : ℤ) {bs : Bytes}
    → amount_only 34 amount ≡ some bs
    → decode bs ≡ some (Program.transfer_to_insurance amount)
unfolding decode decode_as amount_alone
transfer_to_insurance_fund_decoded amount {bs} h =
    let (op, (f1, end)) = written (byte_field (number 34) ∷ unsigned_field 8 amount ∷ []) tt h in
    rw (first_byte bs 34 op, end, f1) refl

pub withdraw_protocol_fees_decoded :
    (amount : ℤ) {bs : Bytes}
    → amount_only 35 amount ≡ some bs
    → decode bs ≡ some (Program.withdraw_fees amount)
unfolding decode decode_as amount_alone
withdraw_protocol_fees_decoded amount {bs} h =
    let (op, (f1, end)) = written (byte_field (number 35) ∷ unsigned_field 8 amount ∷ []) tt h in
    rw (first_byte bs 35 op, end, f1) refl

pub withdraw_insurance_funds_decoded :
    (amount : ℤ) {bs : Bytes}
    → amount_only 36 amount ≡ some bs
    → decode bs ≡ some (Program.withdraw_insurance amount)
unfolding decode decode_as amount_alone
withdraw_insurance_funds_decoded amount {bs} h =
    let (op, (f1, end)) = written (byte_field (number 36) ∷ unsigned_field 8 amount ∷ []) tt h in
    rw (first_byte bs 36 op, end, f1) refl

pub resolve_bad_debt_decoded :
    (amount : ℤ) {bs : Bytes}
    → amount_only 38 amount ≡ some bs
    → decode bs ≡ some (Program.resolve_bad_debt amount)
unfolding decode decode_as amount_alone
resolve_bad_debt_decoded amount {bs} h =
    let (op, (f1, end)) = written (byte_field (number 38) ∷ unsigned_field 8 amount ∷ []) tt h in
    rw (first_byte bs 38 op, end, f1) refl

pub commit_market_decoded :
    (amount : ℤ) {bs : Bytes}
    → amount_only 14 amount ≡ some bs
    → decode bs ≡ some (Program.commit_market amount)
unfolding decode decode_as amount_alone
commit_market_decoded amount {bs} h =
    let (op, (f1, end)) = written (byte_field (number 14) ∷ unsigned_field 8 amount ∷ []) tt h in
    rw (first_byte bs 14 op, end, f1) refl

pub commit_and_undelegate_decoded :
    (amount : ℤ) {bs : Bytes}
    → amount_only 15 amount ≡ some bs
    → decode bs ≡ some (Program.commit_and_undelegate amount)
unfolding decode decode_as amount_alone
commit_and_undelegate_decoded amount {bs} h =
    let (op, (f1, end)) = written (byte_field (number 15) ∷ unsigned_field 8 amount ∷ []) tt h in
    rw (first_byte bs 15 op, end, f1) refl

pub revoke_trading_session_decoded :
    (seat : Number) {bs : Bytes}
    → seat_only 18 seat ≡ some bs
    → decode bs ≡ some (Program.revoke_session (int_of seat))
unfolding decode decode_as seat_alone
revoke_trading_session_decoded seat {bs} h =
    let (op, (f1, end)) = written (byte_field (number 18) ∷ half_field seat ∷ []) tt h in
    rw (first_byte bs 18 op, end, f1) refl

pub close_trading_session_decoded :
    (seat : Number) {bs : Bytes}
    → seat_only 32 seat ≡ some bs
    → decode bs ≡ some (Program.close_session (int_of seat))
unfolding decode decode_as seat_alone
close_trading_session_decoded seat {bs} h =
    let (op, (f1, end)) = written (byte_field (number 32) ∷ half_field seat ∷ []) tt h in
    rw (first_byte bs 32 op, end, f1) refl
