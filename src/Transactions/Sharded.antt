-- ===== src/Transactions/Sharded.antt =====
-- The V3 instructions of workers/src/transactions.ts: the sharded account bundle in front of the
-- data of the plain encoders, and what the bundle always is.
use Prim.Native.String.{String}
use equinox.Prelude.{
  Bool, false, Option, none, some, List, [], ◌∷◌, ◌++◌, ◌&&◌, not, ◌==◌, if◌then◌else◌, get_or,
  is_some, length,
}
use equinox.Prelude.Int.{ℤ, pos, negsuc}
use equinox.Mark.{◌>>=◌}
use equinox.Transactions.{PlaceOrderFields, AccountMeta, Instruction, instruction}
use equinox.Transactions.Writer.{Number}
use equinox.Transactions.Encode.{
  seat_amount, place_order_instruction, cancel_order_instruction, cancel_all_instruction,
  replace_order_instruction,
}

pub record ExecutionAccounts (Address : Type 0) : Type 0 where
  pub core : AccountMeta Address
  pub book_pages : List (AccountMeta Address)
  pub seat_shards : List (AccountMeta Address)
  pub event_shards : List (AccountMeta Address)
  pub authority : AccountMeta Address
  pub session : Option (AccountMeta Address)

pub record DepositAccounts (Address : Type 0) : Type 0 where
  pub deposit_core : AccountMeta Address
  pub seat_shard : AccountMeta Address
  pub deposit_events : List (AccountMeta Address)
  pub depositor : AccountMeta Address
  pub token_source : AccountMeta Address
  pub deposit_vault : AccountMeta Address
  pub deposit_mint : AccountMeta Address
  pub deposit_token : AccountMeta Address

-- `V3WithdrawAccountMetas`, which extends the execution accounts.
pub record WithdrawAccounts (Address : Type 0) : Type 0 where
  pub execution : ExecutionAccounts Address
  pub destination : AccountMeta Address
  pub mint : AccountMeta Address
  pub vault : AccountMeta Address
  pub vault_authority : AccountMeta Address
  pub token_program : AccountMeta Address

pub record ReconcileAccounts (Address : Type 0) : Type 0 where
  pub reconcile_core : AccountMeta Address
  pub reconcile_pages : List (AccountMeta Address)
  pub reconcile_seats : List (AccountMeta Address)
  pub reconcile_events : List (AccountMeta Address)
  pub reconcile_vault : AccountMeta Address
  pub reconcile_mint : AccountMeta Address
  pub reconcile_token : AccountMeta Address

abbrev pub is_zero : ℤ → Bool
is_zero (pos n) = n == 0
is_zero (negsuc n) = false

module _ {Address : Type 0} where
  abbrev pub optional : Option (AccountMeta Address) → List (AccountMeta Address)
  optional none = []
  optional (some m) = m ∷ []

  -- 18 book pages, 4 seat shards and 4 event shards.
  abbrev pub is_complete :
      List (AccountMeta Address) → List (AccountMeta Address) → List (AccountMeta Address) → Bool
  is_complete pages seats events = length pages == 18 && (length seats == 4 && length events == 4)

  unfoldable pub v3_execution_metas :
      ExecutionAccounts Address → (require_session : Bool) → Option (List (AccountMeta Address))
  v3_execution_metas a require_session =
      if not (is_complete a.book_pages a.seat_shards a.event_shards)
      then none
      else if require_session && not (is_some a.session)
      then none
      else some (
          a.core ∷ a.book_pages
          ++ a.seat_shards
          ++ a.event_shards
          ++ a.authority ∷ []
          ++ optional a.session)

  -- The account lists of the custody writes.
  abbrev pub deposit_metas : DepositAccounts Address → List (AccountMeta Address)
  deposit_metas a =
      a.deposit_core ∷ a.seat_shard ∷ a.deposit_events
      ++ a.depositor ∷ a.token_source ∷ a.deposit_vault ∷ a.deposit_mint ∷ a.deposit_token ∷ []

  abbrev pub withdraw_metas :
      List (AccountMeta Address) → WithdrawAccounts Address → List (AccountMeta Address)
  withdraw_metas metas a =
      metas ++ a.destination ∷ a.mint ∷ a.vault ∷ a.vault_authority ∷ a.token_program ∷ []

  abbrev pub reconcile_metas : ReconcileAccounts Address → List (AccountMeta Address)
  reconcile_metas a =
      a.reconcile_core ∷ a.reconcile_pages
      ++ a.reconcile_seats
      ++ a.reconcile_events
      ++ a.reconcile_vault ∷ a.reconcile_mint ∷ a.reconcile_token ∷ []

  -- `true` where `assertV3ActionNonce` throws.
  abbrev pub nonce_refused : ExecutionAccounts Address → ℤ → Bool
  nonce_refused a nonce = not (is_some a.session) && not (is_zero nonce)

module _ {Address : Type 0} (address : String → Option Address) (program : String) where
  abbrev pub place_order_v3_instruction :
      ExecutionAccounts Address → PlaceOrderFields → Option (Instruction Address)
  place_order_v3_instruction a fields =
      if nonce_refused a (get_or fields.action_nonce (pos 0))
      then none
      else v3_execution_metas a false >>= λ metas.
          place_order_instruction address program metas fields

  abbrev pub cancel_order_v3_instruction :
      ExecutionAccounts Address → Number → ℤ → ℤ → Option (Instruction Address)
  cancel_order_v3_instruction a seat key nonce =
      if nonce_refused a nonce
      then none
      else v3_execution_metas a false >>= λ metas.
          cancel_order_instruction address program metas seat key nonce

  abbrev pub cancel_all_v3_instruction :
      ExecutionAccounts Address → Number → Number → ℤ → Option (Instruction Address)
  cancel_all_v3_instruction a seat count nonce =
      if nonce_refused a nonce
      then none
      else v3_execution_metas a false >>= λ metas.
          cancel_all_instruction address program metas seat count nonce

  abbrev pub replace_order_v3_instruction :
      ExecutionAccounts Address → ℤ → PlaceOrderFields → Option (Instruction Address)
  replace_order_v3_instruction a old_key fields =
      if nonce_refused a (get_or fields.action_nonce (pos 0))
      then none
      else v3_execution_metas a false >>= λ metas.
          replace_order_instruction address program metas old_key fields

  abbrev pub deposit_collateral_v3_instruction :
      DepositAccounts Address → Number → ℤ → Option (Instruction Address)
  deposit_collateral_v3_instruction a seat amount =
      if not (length a.deposit_events == 4)
      then none
      else instruction address (seat_amount 53 seat amount) program (deposit_metas a)

  abbrev pub withdraw_collateral_v3_instruction :
      WithdrawAccounts Address → Number → ℤ → Option (Instruction Address)
  withdraw_collateral_v3_instruction a seat amount =
      if is_some a.execution.session
      then none
      else v3_execution_metas a.execution false >>= λ metas.
          instruction address (seat_amount 54 seat amount) program (withdraw_metas metas a)

  abbrev pub reconcile_vault_v3_instruction :
      ReconcileAccounts Address → Option (Instruction Address)
  reconcile_vault_v3_instruction a =
      if not (is_complete a.reconcile_pages a.reconcile_seats a.reconcile_events)
      then none
      else instruction address (some (55 ∷ [])) program (reconcile_metas a)
