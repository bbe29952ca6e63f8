-- ===== src/Transactions/Decoded/Others.antt =====
-- The session, delegation, one-byte and oracle instructions, decoded.
use equinox.Prelude.{
  ℕ, ◌+◌, ◌≤◌, ◌≡◌, refl, ap, subst, ◌∙◌, true, some, [], ◌∷◌, ◌++◌, leb, length, length-append,
  get_elem?, arith, Option-cases, some_injective, inl, inr,
}
use equinox.Bytes.{Bytes}
use equinox.Mark.{◌>>=◌}
use equinox.Program
use equinox.Program.{
  ProgramInstruction, decode, decode_as, place_fields, session_fields, read_unsigned_at,
  seat_and_amount, seat_alone, amount_alone, pause_action, resume_action, close_only_action,
  TransitionAction,
}
use equinox.Transactions.{SessionFields, number, start}
use equinox.Transactions.Writer.{Number, u8, u16, pubkey, raw}
use equinox.Transactions.Fields.{
  byte_field, half_field, unsigned_field, signed_field, key_field, written,
}
use equinox.Transactions.Encode.{session_data}
use equinox.Transactions.Decoded.Sent.{first_byte, sent_limits, nothing_raw}

pub authorize_trading_session_decoded :
    (fields : SessionFields) {bs : Bytes}
    → session_data 17 fields ≡ some bs
    → decode bs ≡ some (Program.authorize_session (sent_limits fields))
unfolding decode decode_as session_fields sent_limits
authorize_trading_session_decoded fields {bs} h =
    let (op, (f1, (f2, (f3, (f4, (f5, (f6, (f7, end)))))))) =
      written
        (byte_field (number 17)
          ∷ half_field fields.session_seat
          ∷ unsigned_field 8 fields.session_expires_at
          ∷ byte_field fields.actions
          ∷ unsigned_field 8 fields.max_order_notional
          ∷ unsigned_field 8 fields.max_cumulative_notional
          ∷ signed_field 16 fields.maximum_exposure
          ∷ half_field fields.maximum_open_orders
          ∷ [])
        tt h in
    rw (first_byte bs 17 op, end, f1, f2, f3, f4, f5, f6, f7) refl

pub update_trading_session_limits_decoded :
    (fields : SessionFields) {bs : Bytes}
    → session_data 31 fields ≡ some bs
    → decode bs ≡ some (Program.update_session (sent_limits fields))
unfolding decode decode_as session_fields sent_limits
update_trading_session_limits_decoded fields {bs} h =
    let (op, (f1, (f2, (f3, (f4, (f5, (f6, (f7, end)))))))) =
      written
        (byte_field (number 31)
          ∷ half_field fields.session_seat
          ∷ unsigned_field 8 fields.session_expires_at
          ∷ byte_field fields.actions
          ∷ unsigned_field 8 fields.max_order_notional
          ∷ unsigned_field 8 fields.max_cumulative_notional
          ∷ signed_field 16 fields.maximum_exposure
          ∷ half_field fields.maximum_open_orders
          ∷ [])
        tt h in
    rw (first_byte bs 31 op, end, f1, f2, f3, f4, f5, f6, f7) refl

pub delegate_market_decoded :
    (validator : Bytes) {bs : Bytes}
    → (start >>= u8 (number 13) >>= pubkey validator) ≡ some bs
    → decode bs ≡ some (Program.delegate_market validator)
unfolding decode decode_as
delegate_market_decoded validator {bs} h =
    let (op, (f1, end)) = written (byte_field (number 13) ∷ key_field validator ∷ []) tt h in
    rw (first_byte bs 13 op, end, f1) refl

-- An instruction of one byte.
pub lone_decoded :
    (op : ℕ) {bs : Bytes} {meaning : ProgramInstruction}
    → decode (op ∷ []) ≡ some meaning
    → some (op ∷ []) ≡ some bs
    → decode bs ≡ some meaning
lone_decoded op {bs} {meaning} e h =
    subst (λ (b : Bytes). decode b ≡ some meaning) (some_injective h) e

first_before :
    (front back : Bytes) {k : ℕ} → get_elem? front 0 ≡ some k → get_elem? (front ++ back) 0 ≡ some k
first_before [] back h = ground arith
first_before (b ∷ front) back h = h

pub consume_decoded :
    (e s : Number) (message : Bytes) {bs : Bytes}
    → 103 ≤ length message
    → length message ≤ 512
    → (start >>= u8 (number 12) >>= u16 e >>= u8 s >>= raw message) ≡ some bs
    → decode bs ≡ some Program.consume_oracle_update
unfolding decode decode_as
consume_decoded e s message {bs} low high h =
    elim (Option-cases (start >>= u8 (number 12) >>= u16 e >>= u8 s)) [
      | inl none_written ↦ absurd (nothing_raw message none_written h)
      | inr (header, made) ↦
          let (op, (f1, (f2, end))) =
            written (byte_field (number 12) ∷ half_field e ∷ byte_field s ∷ []) tt made in
          let whole : header ++ message ≡ bs =
            some_injective (subst (λ o. (o >>= raw message) ≡ some bs) made h) in
          let first : get_elem? (header ++ message) 0 ≡ some 12 =
            first_before header message (first_byte header 12 op) in
          let size : length (header ++ message) ≡ 4 + length message =
            length-append header message ∙ ap (λ (k : ℕ). k + length message) end in
          let from : leb 107 (4 + length message) ≡ true = ground arith in
          let to : leb (4 + length message) 516 ≡ true = ground arith in
          subst (λ (b : Bytes). decode b ≡ some Program.consume_oracle_update) whole
            (rw (first, size, from, to) refl)
    ]
