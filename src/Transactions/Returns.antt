-- ===== src/Transactions/Returns.antt =====
-- The encoders return on every command whose arguments are in range.
use Prim.Native.String.{String}
use equinox.Prelude.{
  ℕ, ◌≤◌, ◌<◌, ◌^◌, ◌≡◌, refl, ap, ◌∙◌, true, false, Option, some, List, [], ◌∷◌, ◌||◌, not, ltb,
  ◌==◌, length, drop, arith, All,
}
use equinox.Bytes.{Bytes}
use equinox.Mark.{◌>>=◌}
use equinox.Program.{decode}
use equinox.Transactions.{
  AccountMeta, Instruction, instruction, PlaceOrderFields, SessionFields, place_order_data, number,
  start,
}
use equinox.Transactions.Writer.{u8, u128, raw}
use equinox.Transactions.Fields.{
  Field, byte_field, half_field, unsigned_field, signed_field, key_field, write_fields,
}
use equinox.Transactions.Decoded.{order_fields}
use equinox.Transactions.Range.{Fits, fields_written, lone_instruction}
use equinox.Transactions.Agreement.{
  Command, place, cancel, cancel_all, replace, update_funding, liquidate, deposit, withdraw,
  record_debt, insure, withdraw_fees, withdraw_insurance, resolve_debt, revoke, close_session,
  initialize_vault, reconcile_vault, transition, delegate, commit, authorize, limit, consume_oracle,
  issue, meant, Deliverable, decode-issue,
}

abbrev session_list : SessionFields → List Field
session_list f =
    half_field f.session_seat
    ∷ unsigned_field 8 f.session_expires_at
    ∷ byte_field f.actions
    ∷ unsigned_field 8 f.max_order_notional
    ∷ unsigned_field 8 f.max_cumulative_notional
    ∷ signed_field 16 f.maximum_exposure
    ∷ half_field f.maximum_open_orders
    ∷ []

-- The arguments of a command with the widths they are written in.
abbrev pub arguments : Command → List Field
arguments (place f) = order_fields f
arguments (cancel seat key nonce) =
    half_field seat ∷ unsigned_field 16 key ∷ unsigned_field 8 nonce ∷ []
arguments (cancel_all seat count nonce) =
    half_field seat ∷ byte_field count ∷ unsigned_field 8 nonce ∷ []
arguments (replace key f) = unsigned_field 16 key ∷ order_fields f
arguments (update_funding accumulator timestamp) =
    signed_field 16 accumulator ∷ unsigned_field 8 timestamp ∷ []
arguments (liquidate seat amount) = half_field seat ∷ unsigned_field 8 amount ∷ []
arguments (deposit seat amount) = half_field seat ∷ unsigned_field 8 amount ∷ []
arguments (withdraw seat amount) = half_field seat ∷ unsigned_field 8 amount ∷ []
arguments (record_debt seat amount) = half_field seat ∷ unsigned_field 8 amount ∷ []
arguments (insure amount) = unsigned_field 8 amount ∷ []
arguments (withdraw_fees amount) = unsigned_field 8 amount ∷ []
arguments (withdraw_insurance amount) = unsigned_field 8 amount ∷ []
arguments (resolve_debt amount) = unsigned_field 8 amount ∷ []
arguments (revoke seat) = half_field seat ∷ []
arguments (close_session seat) = half_field seat ∷ []
arguments initialize_vault = []
arguments reconcile_vault = []
arguments (transition mode) = []
arguments (delegate validator) = key_field validator ∷ []
arguments (commit sequence undelegate) = unsigned_field 8 sequence ∷ []
arguments (authorize f) = session_list f
arguments (limit f) = session_list f
arguments (consume_oracle e s message) = half_field e ∷ byte_field s ∷ []

-- Every argument fits its width, and an oracle message has a size that the program takes.
abbrev pub Encodable : Command → Type 0
Encodable (consume_oracle e s message) =
    All Fits (arguments (consume_oracle e s message))
    × (103 ≤ length message)
    × (length message ≤ 512)
Encodable c = All Fits (arguments c)

opcode_written :
    (op : ℕ) (fs : List Field)
    → op < 2 ^ 8
    → All Fits fs
    → (bytes : Bytes) × (write_fields (byte_field (number op) ∷ fs) start ≡ some bytes)
opcode_written op fs h args = fields_written (byte_field (number op) ∷ fs) [] ((op, refl, h), args)

ordered :
    (f : PlaceOrderFields)
    → All Fits (order_fields f)
    → (bytes : Bytes) × (place_order_data f ≡ some bytes)
unfolding place_order_data
ordered f ok = opcode_written 3 (order_fields f) (omega arith) ok

thirty_two : (validator : Bytes) → length validator ≡ 32 → not (length validator == 32) ≡ false
thirty_two validator h = ground arith

message_accepted :
    (message : Bytes)
    → 103 ≤ length message
    → length message ≤ 512
    → (length message == 0 || ltb 512 (length message)) ≡ false
message_accepted message low high = ground arith

Encodable-Deliverable : (c : Command) → Encodable c → Deliverable c
Encodable-Deliverable (consume_oracle e s message) ok = ok.1
Encodable-Deliverable (place f) ok = tt
Encodable-Deliverable (cancel seat key nonce) ok = tt
Encodable-Deliverable (cancel_all seat count nonce) ok = tt
Encodable-Deliverable (replace key f) ok = tt
Encodable-Deliverable (update_funding accumulator timestamp) ok = tt
Encodable-Deliverable (liquidate seat amount) ok = tt
Encodable-Deliverable (deposit seat amount) ok = tt
Encodable-Deliverable (withdraw seat amount) ok = tt
Encodable-Deliverable (record_debt seat amount) ok = tt
Encodable-Deliverable (insure amount) ok = tt
Encodable-Deliverable (withdraw_fees amount) ok = tt
Encodable-Deliverable (withdraw_insurance amount) ok = tt
Encodable-Deliverable (resolve_debt amount) ok = tt
Encodable-Deliverable (revoke seat) ok = tt
Encodable-Deliverable (close_session seat) ok = tt
Encodable-Deliverable initialize_vault ok = tt
Encodable-Deliverable reconcile_vault ok = tt
Encodable-Deliverable (transition mode) ok = tt
Encodable-Deliverable (delegate validator) ok = tt
Encodable-Deliverable (commit sequence undelegate) ok = tt
Encodable-Deliverable (authorize f) ok = tt
Encodable-Deliverable (limit f) ok = tt

module _ {Address : Type 0} (address : String → Option Address) (program : String)
    (accounts : List (AccountMeta Address)) {a : Address} (h : address program ≡ some a) where
  returned :
      (c : Command)
      → Encodable c
      → (i : Instruction Address) × (issue address program accounts c ≡ some i)
  returned (place f) ok = lone_instruction address program accounts (ordered f ok).1 h
  returned (cancel seat key nonce) ok =
      lone_instruction address program accounts
        (opcode_written 4 (arguments (cancel seat key nonce)) (omega arith) ok).1 h
  returned (cancel_all seat count nonce) ok =
      lone_instruction address program accounts
        (opcode_written 5 (arguments (cancel_all seat count nonce)) (omega arith) ok).1 h
  returned (replace key f) ok =
      let (place_bytes, placed) = ordered f ok.1 in
      let (header, made) =
        opcode_written 33 (unsigned_field 16 key ∷ []) (omega arith) (ok.0, tt) in
      let (i, built) =
        lone_instruction address program accounts (ap (λ o. o >>= raw (drop 1 place_bytes)) made)
          h in
      (
        i,
        ap
              (λ o. o >>= λ place.
                instruction address (start >>= u8 (number 33) >>= u128 key >>= raw (drop 1 place))
                  program accounts)
              placed
            ∙ built,
      )
  returned (update_funding accumulator timestamp) ok =
      lone_instruction address program accounts
        (opcode_written 6 (arguments (update_funding accumulator timestamp)) (omega arith) ok).1 h
  returned (liquidate seat amount) ok =
      lone_instruction address program accounts
        (opcode_written 7 (arguments (liquidate seat amount)) (omega arith) ok).1 h
  returned (deposit seat amount) ok =
      lone_instruction address program accounts
        (opcode_written 10 (arguments (deposit seat amount)) (omega arith) ok).1 h
  returned (withdraw seat amount) ok =
      lone_instruction address program accounts
        (opcode_written 11 (arguments (withdraw seat amount)) (omega arith) ok).1 h
  returned (record_debt seat amount) ok =
      lone_instruction address program accounts
        (opcode_written 37 (arguments (record_debt seat amount)) (omega arith) ok).1 h
  returned (insure amount) ok =
      lone_instruction address program accounts
        (opcode_written 34 (arguments (insure amount)) (omega arith) ok).1 h
  returned (withdraw_fees amount) ok =
      lone_instruction address program accounts
        (opcode_written 35 (arguments (withdraw_fees amount)) (omega arith) ok).1 h
  returned (withdraw_insurance amount) ok =
      lone_instruction address program accounts
        (opcode_written 36 (arguments (withdraw_insurance amount)) (omega arith) ok).1 h
  returned (resolve_debt amount) ok =
      lone_instruction address program accounts
        (opcode_written 38 (arguments (resolve_debt amount)) (omega arith) ok).1 h
  returned (revoke seat) ok =
      lone_instruction address program accounts
        (opcode_written 18 (arguments (revoke seat)) (omega arith) ok).1 h
  returned (close_session seat) ok =
      lone_instruction address program accounts
        (opcode_written 32 (arguments (close_session seat)) (omega arith) ok).1 h
  returned initialize_vault ok = lone_instruction address program accounts refl h
  returned reconcile_vault ok = lone_instruction address program accounts refl h
  returned (transition mode) ok = lone_instruction address program accounts refl h
  returned (delegate validator) ok =
      let (i, built) =
        lone_instruction address program accounts
          (opcode_written 13 (key_field validator ∷ []) (omega arith) ok).1 h in
      (i, rw (thirty_two validator ok.0) built)
  returned (commit sequence true) ok =
      lone_instruction address program accounts
        (opcode_written 15 (unsigned_field 8 sequence ∷ []) (omega arith) ok).1 h
  returned (commit sequence false) ok =
      lone_instruction address program accounts
        (opcode_written 14 (unsigned_field 8 sequence ∷ []) (omega arith) ok).1 h
  returned (authorize f) ok =
      lone_instruction address program accounts
        (opcode_written 17 (arguments (authorize f)) (omega arith) ok).1 h
  returned (limit f) ok =
      lone_instruction address program accounts
        (opcode_written 31 (arguments (limit f)) (omega arith) ok).1 h
  returned (consume_oracle e s message) ok =
      let (header, made) =
        opcode_written 12 (half_field e ∷ byte_field s ∷ []) (omega arith) ok.0 in
      let (i, built) =
        lone_instruction address program accounts (ap (λ o. o >>= raw message) made) h in
      (i, rw (message_accepted message ok.1 ok.2) built)

-- A command whose arguments all fit their widths, and whose message has 103 to 512 bytes if it is an
-- oracle update, is encoded without a RangeError for a program whose address is one, and the program
-- decodes the instruction to that command.
pub issue_returns :
    {Address : Type 0} (address : String → Option Address) (program : String)
    (accounts : List (AccountMeta Address)) (c : Command) {a : Address}
    → address program ≡ some a
    → Encodable c
    → (i : Instruction Address) × (issue address program accounts c ≡ some i)
      × (decode i.payload ≡ some (meant c))
issue_returns address program accounts c h ok =
    let (i, issued) = returned address program accounts h c ok in
    (i, issued, decode-issue address program accounts c (Encodable-Deliverable c ok) issued)
