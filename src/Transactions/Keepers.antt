-- ===== src/Transactions/Keepers.antt =====
-- What the transactions of the keepers ask the program for.
use Prim.Native.String.{String}
use equinox.Prelude.{
  ◌≡◌, refl, sym, ap, subst, ◌∙◌, Bool, false, Option, some, List, [], ◌∷◌, ◌++◌, ◌||◌, length,
  some_injective, ltb, ◌==◌,
}
use equinox.Prelude.Int.{ℤ, pos}
use equinox.Bytes.{Bytes, read_unsigned, le_prefix}
use equinox.Mark.{◌>>=◌}
use equinox.Program.Oracle.{ed25519_precedes}
use equinox.Sessions.{Mode}
use equinox.Transactions.{AccountMeta, Instruction, start, number, writable, readonly_signer}
use equinox.Transactions.Writer.{Number, u8, u16, push_bytes, raw}
use equinox.Transactions.Encode
use equinox.Transactions.Builders
use equinox.Transactions.Builders.{
  KeeperContext, message_instructions, set_compute_unit_limit_instruction,
  compute_budget_program_id, default_compute_unit_limit, build, market_transition_for,
}
use equinox.Transactions.Agreement.{
  Command, update_funding, transition, liquidate, cancel_all, commit, built, bound, refused_or,
}

-- What a keeper wants done.
pub data KeeperCall : Type 0 where
  fund : (accumulator timestamp : ℤ) → KeeperCall
  set_mode : Mode → KeeperCall
  liquidate_seat : Number → ℤ → KeeperCall
  clean_up : (seat removals : Number) → KeeperCall
  commit_sequence : ℤ → (undelegate : Bool) → KeeperCall

abbrev pub command_of : KeeperCall → Command
command_of (fund accumulator timestamp) = update_funding accumulator timestamp
command_of (set_mode mode) = transition (market_transition_for mode)
command_of (liquidate_seat seat quantity) = liquidate seat quantity
command_of (clean_up seat removals) = cancel_all seat removals (pos 0)
command_of (commit_sequence sequence undelegate) = commit sequence undelegate

abbrev pub keeper_instructions :
    {Address : Type 0}
    → (String → Option Address)
    → KeeperContext
    → KeeperCall
    → Option (List (Instruction Address))
keeper_instructions address context (fund accumulator timestamp) =
    Builders.funding_keeper_builder address context accumulator timestamp
keeper_instructions address context (set_mode mode) =
    Builders.session_keeper_builder address context mode
keeper_instructions address context (liquidate_seat seat quantity) =
    Builders.liquidation_keeper_builder address context seat quantity
keeper_instructions address context (clean_up seat removals) =
    Builders.cleanup_keeper_builder address context seat removals
keeper_instructions address context (commit_sequence sequence undelegate) =
    Builders.magic_block_commit_keeper_builder address context sequence undelegate

module _ {Address : Type 0} (address : String → Option Address) where
  budgeted :
      (instructions : List (Instruction Address)) {sent : List (Instruction Address)}
      → build address instructions ≡ some sent
      → (limit : Instruction Address) × (set_compute_unit_limit_instruction address
            default_compute_unit_limit
          ≡ some limit)
        × (sent ≡ limit ∷ instructions)
  unfolding message_instructions
  budgeted instructions {sent} h =
      let (limits, made, rest) = bound _ _ h in
      let (limit, set, same) =
        bound (set_compute_unit_limit_instruction address default_compute_unit_limit) _ made in
      let listed : limits ≡ limit ∷ [] = sym (some_injective same) in
      (
        limit,
        set,
        sym (some_injective rest)
            ∙ ap (λ (t : List (Instruction Address)). t ++ [] ++ instructions) listed,
      )

-- The accounts are the market, writable, and after it the authority, which signs.
abbrev pub NamesMarket :
    {Address : Type 0}
    → (String → Option Address)
    → KeeperContext
    → List (AccountMeta Address)
    → Type 0
NamesMarket {Address} address context accounts =
    (market : Address) × (authority : Address) × (address context.market ≡ some market)
    × (address context.authority ≡ some authority)
    × (accounts
        ≡ record { account = market; role = writable }
          ∷ record { account = authority; role = readonly_signer }
          ∷ [])

header_zero :
    (start >>= u8 (number 12) >>= u16 (number 0) >>= u8 (number 0)) ≡ some (12 ∷ 0 ∷ 0 ∷ 0 ∷ [])
unfolding u8 u16 push_bytes
header_zero = refl

consume_payload :
    {Address : Type 0} (address : String → Option Address) (program : String)
    (accounts : List (AccountMeta Address)) (message : Bytes) {i : Instruction Address}
    → Encode.consume_oracle_update_instruction address program accounts
        (number 0)
        (number 0)
        message
      ≡ some i
    → (12 ∷ 0 ∷ 0 ∷ 0 ∷ []) ++ message ≡ i.payload
consume_payload address program accounts message {i} h =
    let (shown, rest) = refused_or {c = length message == 0 || ltb 512 (length message)} h in
    let written = (built address _ program accounts rest).0 in
    some_injective (subst (λ o. (o >>= raw message) ≡ some i.payload) header_zero written)

limit_named :
    {Address : Type 0} (is_ed25519 : Address → Bool) (limit e i : Instruction Address)
    (message : Bytes)
    → is_ed25519 limit.program_address ≡ false
    → i.payload ≡ (12 ∷ 0 ∷ 0 ∷ 0 ∷ []) ++ message
    → ed25519_precedes is_ed25519 (limit ∷ e ∷ i ∷ []) 2 ≡ false
unfolding ed25519_precedes read_unsigned le_prefix
limit_named is_ed25519 limit e i message other payload = rw (payload, other) refl

-- The update of the Pyth keeper names the instruction at 0 as its Ed25519 instruction, where the
-- compute limit stands: the program refuses every such transaction, whatever the Ed25519
-- instruction and the message, as long as the compute budget program is not the Ed25519 program.
pub pyth_keeper_builder_refused :
    {Address : Type 0} (address : String → Option Address) (is_ed25519 : Address → Bool)
    (context : KeeperContext) (oracle_accounts : List (AccountMeta Address))
    (ed25519_instruction : Instruction Address) (message : Bytes)
    {sent : List (Instruction Address)}
    → ((a : Address) → address compute_budget_program_id ≡ some a → is_ed25519 a ≡ false)
    → Builders.pyth_keeper_builder address context oracle_accounts ed25519_instruction message
      ≡ some sent
    → (length sent ≡ 3) × (ed25519_precedes is_ed25519 sent 2 ≡ false)
unfolding Builders.pyth_keeper_builder set_compute_unit_limit_instruction
pyth_keeper_builder_refused {Address = Address} address is_ed25519 context oracle_accounts
      ed25519_instruction message {sent} other h =
    let (i, made, last) = bound _ _ h in
    let (limit, set, same) = budgeted address (ed25519_instruction ∷ i ∷ []) last in
    let program = (built address _ compute_budget_program_id [] set).2 in
    let payload = consume_payload address context.program_address oracle_accounts message made in
    (
      ap (λ (t : List (Instruction Address)). length t) same,
      subst (λ (t : List (Instruction Address)). ed25519_precedes is_ed25519 t 2 ≡ false) (sym same)
          (limit_named is_ed25519 limit ed25519_instruction i message
            (other limit.program_address program) (sym payload)),
    )
