-- ===== src/Transactions/Decoded/Orders.antt =====
-- The order instructions and the funding update, decoded.
use equinox.Prelude.{
  ◌≡◌, refl, sym, ap, subst, ◌∙◌, Option, none, some, [], ◌∷◌, ◌++◌, drop, get_or, arith,
  Option-cases, some_injective, inl, inr,
}
use equinox.Prelude.Int.{ℤ, pos}
use equinox.Bytes.{Bytes}
use equinox.Mark.{◌>>=◌}
use equinox.Program
use equinox.Program.{
  ProgramInstruction, decode, decode_as, place_fields, session_fields, read_unsigned_at,
  seat_and_amount, seat_alone, amount_alone, pause_action, resume_action, close_only_action,
  TransitionAction,
}
use equinox.Transactions.{
  place_order_data, PlaceOrderFields, side_byte, tree_byte, flags_byte, number, start,
}
use equinox.Transactions.Writer.{Number, int_of, u8, u16, u64, u128, i128, raw}
use equinox.Transactions.Fields.{
  byte_field, half_field, unsigned_field, signed_field, written, write_fields,
}
use equinox.Transactions.Behind.{write_fields_after}
use mathlib.Core.Option
use equinox.Transactions.Decoded.Sent.{first_byte, sent_order, order_fields, nothing_raw}

pub place_order_decoded :
    (fields : PlaceOrderFields) {bs : Bytes}
    → place_order_data fields ≡ some bs
    → decode bs ≡ some (Program.place_order (sent_order fields))
unfolding decode decode_as place_order_data place_fields sent_order
place_order_decoded fields {bs} h =
    let (op, (f1, (f2, (f3, (f4, (f5, (f6, (f7, (f8, (f9, (f10, end))))))))))) =
      written
        (byte_field (number 3)
          ∷ byte_field (side_byte fields.side)
          ∷ byte_field (tree_byte fields.tree)
          ∷ byte_field (flags_byte fields)
          ∷ half_field fields.seat_index
          ∷ unsigned_field 8 fields.quantity
          ∷ signed_field 8 fields.price_or_offset
          ∷ unsigned_field 8 (get_or fields.expires_at (pos 0))
          ∷ signed_field 8 (get_or fields.peg_limit (pos 0))
          ∷ unsigned_field 8 fields.client_order_id
          ∷ unsigned_field 8 (get_or fields.action_nonce (pos 0))
          ∷ [])
        tt h in
    rw (first_byte bs 3 op, end, f1, f2, f3, f4, f5, f6, f7, f8, f9, f10) refl

pub cancel_order_decoded :
    (seat : Number) (key nonce : ℤ) {bs : Bytes}
    → (start >>= u8 (number 4) >>= u16 seat >>= u128 key >>= u64 nonce) ≡ some bs
    → decode bs ≡ some (Program.cancel_order (int_of seat) key nonce)
unfolding decode decode_as
cancel_order_decoded seat key nonce {bs} h =
    let (op, (f1, (f2, (f3, end)))) =
      written
        (byte_field (number 4)
          ∷ half_field seat
          ∷ unsigned_field 16 key
          ∷ unsigned_field 8 nonce
          ∷ [])
        tt h in
    rw (first_byte bs 4 op, end, f1, f2, f3) refl

pub cancel_all_decoded :
    (seat count : Number) (nonce : ℤ) {bs : Bytes}
    → (start >>= u8 (number 5) >>= u16 seat >>= u8 count >>= u64 nonce) ≡ some bs
    → decode bs ≡ some (Program.cancel_all (int_of seat) (int_of count) nonce)
unfolding decode decode_as
cancel_all_decoded seat count nonce {bs} h =
    let (op, (f1, (f2, (f3, end)))) =
      written
        (byte_field (number 5) ∷ half_field seat ∷ byte_field count ∷ unsigned_field 8 nonce ∷ [])
        tt h in
    rw (first_byte bs 5 op, end, f1, f2, f3) refl

pub update_funding_decoded :
    (accumulator timestamp : ℤ) {bs : Bytes}
    → (start >>= u8 (number 6) >>= i128 accumulator >>= u64 timestamp) ≡ some bs
    → decode bs ≡ some (Program.update_funding accumulator timestamp)
unfolding decode decode_as
update_funding_decoded accumulator timestamp {bs} h =
    let (op, (f1, (f2, end))) =
      written
        (byte_field (number 6) ∷ signed_field 16 accumulator ∷ unsigned_field 8 timestamp ∷ []) tt
        h in
    rw (first_byte bs 6 op, end, f1, f2) refl

tail_of :
    (o : Option Bytes) {place : Bytes}
    → Option.map (λ (t : Bytes). 3 ∷ t) o ≡ some place
    → o ≡ some (drop 1 place)
tail_of none h = ground arith
tail_of (some t) {place} h =
    let same : 3 ∷ t ≡ place = ground arith in ap (λ (b : Bytes). some (drop 1 b)) same

-- The bytes of the order after its opcode, on their own.
order_tail :
    (fields : PlaceOrderFields) {place : Bytes}
    → place_order_data fields ≡ some place
    → write_fields (order_fields fields) start ≡ some (drop 1 place)
unfolding place_order_data u8
order_tail fields {place} h =
    tail_of (write_fields (order_fields fields) start)
      (sym (write_fields_after (order_fields fields) (3 ∷ [])) ∙ h)

replaced_whole :
    (fields : PlaceOrderFields) (header tail : Bytes) {w : Option Bytes} {bs : Bytes}
    → w ≡ some header
    → write_fields (order_fields fields) start ≡ some tail
    → (w >>= raw tail) ≡ some bs
    → write_fields (order_fields fields) w ≡ some bs
replaced_whole fields header tail {w} {bs} e t h =
    let whole : header ++ tail ≡ bs =
      some_injective (subst (λ o. (o >>= raw tail) ≡ some bs) e h) in
    ap (write_fields (order_fields fields)) e
    ∙ write_fields_after (order_fields fields) header
    ∙ ap (Option.map (λ (b : Bytes). header ++ b)) t
    ∙ ap some whole

pub replace_order_decoded :
    (key : ℤ) (fields : PlaceOrderFields) (place : Bytes) {bs : Bytes}
    → place_order_data fields ≡ some place
    → (start >>= u8 (number 33) >>= u128 key >>= raw (drop 1 place)) ≡ some bs
    → decode bs ≡ some (Program.replace_order key (sent_order fields))
unfolding decode decode_as place_fields sent_order
replace_order_decoded key fields place {bs} hp h =
    elim (Option-cases (start >>= u8 (number 33) >>= u128 key)) [
      | inl e ↦ absurd (nothing_raw (drop 1 place) e h)
      | inr (header, e) ↦
          let (op, (old, (f1, (f2, (f3, (f4, (f5, (f6, (f7, (f8, (f9, (f10, end)))))))))))) =
            written (byte_field (number 33) ∷ unsigned_field 16 key ∷ order_fields fields) tt
              (replaced_whole fields header (drop 1 place) e (order_tail fields hp) h) in
          rw (first_byte bs 33 op, end, old, f1, f2, f3, f4, f5, f6, f7, f8, f9, f10) refl
    ]
