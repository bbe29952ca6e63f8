-- ===== src/Transactions/Builders.antt =====
-- The transactions of the keepers, workers/src/transactions.ts: the compute budget, the list of
-- instructions that `signAndSerializeTransaction` signs, and the builder of each keeper.
--
-- Compiling, signing and serialising a list of instructions belong to @solana/kit and the signer.
use Prim.Native.String.{String}
use equinox.Prelude.{Bool, Option, none, some, List, [], ◌∷◌, ◌++◌}
use equinox.Prelude.Int.{ℤ, pos}
use equinox.Bytes.{Bytes}
use equinox.Mark.{◌>>=◌}
use equinox.Transactions.{
  MarketTransition, pause, resume, close_only, AccountMeta, writable, readonly_signer, Instruction,
  instruction, meta, start, number,
}
use equinox.Transactions.Writer.{Number, u8, u32, u64}
use equinox.Transactions.Encode.{
  update_funding_instruction, transition_market_instruction, liquidate_instruction,
  cancel_all_instruction, commit_market_instruction, consume_oracle_update_instruction,
}
use equinox.Sessions
use equinox.Sessions.{Mode, open_mode}

abbrev pub compute_budget_program_id : String
compute_budget_program_id = "ComputeBudget111111111111111111111111111111"

abbrev pub default_compute_unit_limit : Number
default_compute_unit_limit = number 60000

-- `computeUnitLimit`, which may be left out, `null` or a number.
pub data UnitLimit : Type 0 where
  default_limit no_limit : UnitLimit
  given_limit : Number → UnitLimit

pub record KeeperContext : Type 0 where
  pub program_address : String
  pub market : String
  pub authority : String

abbrev pub market_transition_for : Mode → MarketTransition
market_transition_for open_mode = resume
market_transition_for Sessions.paused = pause
market_transition_for Sessions.close_only = close_only

module _ {Address : Type 0} (address : String → Option Address) where
  unfoldable pub set_compute_unit_limit_instruction : Number → Option (Instruction Address)
  set_compute_unit_limit_instruction units =
      instruction address (start >>= u8 (number 2) >>= u32 units) compute_budget_program_id []

  unfoldable pub set_compute_unit_price_instruction : ℤ → Option (Instruction Address)
  set_compute_unit_price_instruction micro_lamports =
      instruction address (start >>= u8 (number 3) >>= u64 micro_lamports) compute_budget_program_id
        []

  abbrev pub limit_of : UnitLimit → Option Number
  limit_of default_limit = some default_compute_unit_limit
  limit_of no_limit = none
  limit_of (given_limit units) = some units

  abbrev pub limited : Option Number → Option (List (Instruction Address))
  limited none = some []
  limited (some units) = set_compute_unit_limit_instruction units >>= λ i. some (i ∷ [])

  abbrev pub priced : Option ℤ → Option (List (Instruction Address))
  priced none = some []
  priced (some price) = set_compute_unit_price_instruction price >>= λ i. some (i ∷ [])

  -- The instructions of the message of `signAndSerializeTransaction`.
  unfoldable pub message_instructions :
      List (Instruction Address) → UnitLimit → Option ℤ → Option (List (Instruction Address))
  message_instructions instructions limit price = do
    limits ← limited (limit_of limit)
    prices ← priced price
    some (limits ++ prices ++ instructions)

  -- `build`.
  abbrev pub build : List (Instruction Address) → Option (List (Instruction Address))
  build instructions = message_instructions instructions default_limit none

  unfoldable pub market_and_authority : KeeperContext → Option (List (AccountMeta Address))
  market_and_authority context = do
    market ← meta address context.market writable
    authority ← meta address context.authority readonly_signer
    some (market ∷ authority ∷ [])

  -- A builder of one instruction on the market and its authority.
  abbrev pub build_one :
      KeeperContext
      → (String → List (AccountMeta Address) → Option (Instruction Address))
      → Option (List (Instruction Address))
  build_one context encode = do
    accounts ← market_and_authority context
    i ← encode context.program_address accounts
    build (i ∷ [])

  unfoldable pub funding_keeper_builder :
      KeeperContext → (accumulator timestamp : ℤ) → Option (List (Instruction Address))
  funding_keeper_builder context accumulator timestamp = build_one context (λ program accounts.
      update_funding_instruction address program accounts accumulator timestamp)

  unfoldable pub session_keeper_builder : KeeperContext → Mode → Option (List (Instruction Address))
  session_keeper_builder context mode = build_one context (λ program accounts.
      transition_market_instruction address program accounts (market_transition_for mode))

  unfoldable pub liquidation_keeper_builder :
      KeeperContext → Number → ℤ → Option (List (Instruction Address))
  liquidation_keeper_builder context seat quantity =
      build_one context
        (λ program accounts. liquidate_instruction address program accounts seat quantity)

  unfoldable pub cleanup_keeper_builder :
      KeeperContext → Number → Number → Option (List (Instruction Address))
  cleanup_keeper_builder context seat removals =
      build_one context
        (λ program accounts. cancel_all_instruction address program accounts seat removals (pos 0))

  unfoldable pub magic_block_commit_keeper_builder :
      KeeperContext → ℤ → Bool → Option (List (Instruction Address))
  magic_block_commit_keeper_builder context sequence undelegate =
      build_one context
        (λ program accounts. commit_market_instruction address program accounts sequence undelegate)

  unfoldable pub pyth_keeper_builder :
      KeeperContext
      → (oracle_accounts : List (AccountMeta Address)) → (ed25519_instruction : Instruction Address)
      → (message : Bytes) → Option (List (Instruction Address))
  pyth_keeper_builder context oracle_accounts ed25519_instruction message = do
    i ←
        consume_oracle_update_instruction address context.program_address oracle_accounts (number 0)
          (number 0) message
    build (ed25519_instruction ∷ i ∷ [])
