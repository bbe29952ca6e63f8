-- ===== src/Examples/Wires.antt =====
-- Instructions of the Worker, encoded and decoded.
use Prim.Native.String.{String}
use equinox.Prelude.{
  subst, some_injective, zero, suc, ℕ, ◌≡◌, refl, Bool, true, false, Option, none, some, List, [],
  ◌∷◌, length, arith,
}
use equinox.Prelude.Int.{pos, negsuc, ◌+ℤ◌}
use text.Mathlib.Text.{◌==◌ as str_eq}
use equinox.Transactions
use equinox.Bytes.{Bytes}
use equinox.Mark.{fixed}
use equinox.Program.{decode}
use equinox.Program.Oracle.{ed25519_precedes}
use equinox.Transactions.{
  PlaceOrderFields, bid, AccountMeta, readonly, Instruction, instruction, number,
}
use equinox.Transactions.Writer.{u8, u16, u32, unsigned, signed, push_bytes}
use equinox.Transactions.Agreement.{issue, meant, place, commit, decode-issue}
use equinox.Transactions.Returns.{issue_returns}
use equinox.Transactions.Sharded.{ExecutionAccounts, DepositAccounts, v3_execution_metas}
use equinox.Transactions.Bundles
use equinox.Transactions.Bundles.{
  Bundled, plain, nonce_of, issue_v3-Bundled, issue_custody_complete, meant_custody,
  HasCustodyAccounts,
}
use equinox.Transactions.Builders
use equinox.Transactions.Builders.{
  KeeperContext, message_instructions, set_compute_unit_limit_instruction,
}
use equinox.Transactions.Keepers.{pyth_keeper_builder_refused}

abbrev any_address : String → Option String
any_address t = some t

abbrev market_account : AccountMeta String
market_account = record { account = "market"; role = readonly }

abbrev order : PlaceOrderFields
order = record {
  side = bid;
  post_only = some true;
  immediate_or_cancel = none;
  reduce_only = none;
  tree = some fixed;
  seat_index = number 7;
  quantity = pos 300;
  price_or_offset = negsuc 4;
  expires_at = none;
  peg_limit = none;
  client_order_id = pos 9;
  action_nonce = some (pos 2);
}

abbrev order_bytes : Bytes
order_bytes =
    3 ∷ 0 ∷ 0 ∷ 1 ∷ 7 ∷ 0 ∷ 44 ∷ 1 ∷ 0 ∷ 0 ∷ 0 ∷ 0 ∷ 0 ∷ 0 ∷ 251 ∷ 255 ∷ 255 ∷ 255 ∷ 255 ∷ 255 ∷ 255
    ∷ 255 ∷ 0 ∷ 0 ∷ 0 ∷ 0 ∷ 0 ∷ 0 ∷ 0 ∷ 0 ∷ 0 ∷ 0 ∷ 0 ∷ 0 ∷ 0 ∷ 0 ∷ 0 ∷ 0 ∷ 9 ∷ 0 ∷ 0 ∷ 0 ∷ 0 ∷ 0
    ∷ 0 ∷ 0 ∷ 2 ∷ 0 ∷ 0 ∷ 0 ∷ 0 ∷ 0 ∷ 0 ∷ 0 ∷ []

abbrev order_instruction : Instruction String
order_instruction = record { program_address = "program"; accounts = []; payload = order_bytes }

order_issued : issue any_address "program" [] (place order) ≡ some order_instruction
unfolding Transactions.place_order_data instruction u8 u16 unsigned signed push_bytes ◌+ℤ◌
order_issued = refl

decode-issue_example : decode order_bytes ≡ some (meant (place order))
decode-issue_example = decode-issue any_address "program" [] (place order) tt order_issued

issue_returns_example :
    (i : Instruction String) × (issue any_address "program" [] (commit (pos 5) true) ≡ some i)
    × (decode i.payload ≡ some (meant (commit (pos 5) true)))
issue_returns_example =
    issue_returns any_address "program" [] (commit (pos 5) true) refl ((5, refl, omega arith), tt)

abbrev copies : ℕ → List (AccountMeta String)
copies zero = []
copies (suc n) = market_account ∷ copies n

abbrev bundle : ExecutionAccounts String
bundle = record {
  core = market_account;
  book_pages = copies 18;
  seat_shards = copies 4;
  event_shards = copies 4;
  authority = market_account;
  session = some market_account;
}

abbrev sharded_instruction : Instruction String
sharded_instruction = record {
  program_address = "program";
  accounts = copies 29;
  payload = order_bytes;
}

sharded_issued :
    Bundles.issue_v3 any_address "program" bundle (Bundles.v3_place order)
    ≡ some sharded_instruction
unfolding Transactions.place_order_data v3_execution_metas instruction u8 u16 unsigned signed
    push_bytes ◌+ℤ◌
sharded_issued = refl

issue_v3-Bundled_example :
    (decode order_bytes ≡ some (meant (place order))) × Bundled bundle (pos 2) (copies 29)
issue_v3-Bundled_example =
    issue_v3-Bundled any_address "program" bundle (Bundles.v3_place order) sharded_issued

abbrev deposit_accounts : DepositAccounts String
deposit_accounts = record {
  deposit_core = market_account;
  seat_shard = market_account;
  deposit_events = copies 4;
  depositor = market_account;
  token_source = market_account;
  deposit_vault = market_account;
  deposit_mint = market_account;
  deposit_token = market_account;
}

abbrev deposit_call : Bundles.Custody String
deposit_call = Bundles.v3_deposit deposit_accounts (number 3) (pos 258)

abbrev deposit_instruction : Instruction String
deposit_instruction = record {
  program_address = "program";
  accounts = copies 11;
  payload = 53 ∷ 3 ∷ 0 ∷ 2 ∷ 1 ∷ 0 ∷ 0 ∷ 0 ∷ 0 ∷ 0 ∷ 0 ∷ [];
}

deposit_issued : Bundles.issue_custody any_address "program" deposit_call ≡ some deposit_instruction
unfolding instruction u8 u16 unsigned push_bytes
deposit_issued = refl

issue_custody_complete_example :
    (decode deposit_instruction.payload ≡ some (meant_custody deposit_call))
    × HasCustodyAccounts deposit_call deposit_instruction.accounts
issue_custody_complete_example =
    issue_custody_complete any_address "program" deposit_call deposit_issued

abbrev keeper_context : KeeperContext
keeper_context = record { program_address = "program"; market = "market"; authority = "keeper" }

abbrev budget_instruction : Instruction String
budget_instruction = record {
  program_address = "ComputeBudget111111111111111111111111111111";
  accounts = [];
  payload = 2 ∷ 96 ∷ 234 ∷ 0 ∷ 0 ∷ [];
}

abbrev fund_instruction : Instruction String
fund_instruction = record {
  program_address = "program";
  accounts =
      record { account = "market"; role = Transactions.writable }
      ∷ record { account = "keeper"; role = Transactions.readonly_signer }
      ∷ [];
  payload =
      6 ∷ 1 ∷ 0 ∷ 0 ∷ 0 ∷ 0 ∷ 0 ∷ 0 ∷ 0 ∷ 0 ∷ 0 ∷ 0 ∷ 0 ∷ 0 ∷ 0 ∷ 0 ∷ 0 ∷ 8 ∷ 0 ∷ 0 ∷ 0 ∷ 0 ∷ 0 ∷ 0
      ∷ 0 ∷ [];
}

abbrev signature_instruction : Instruction String
signature_instruction = record { program_address = "Ed25519"; accounts = []; payload = 1 ∷ [] }

abbrev update_instruction : Instruction String
update_instruction = record {
  program_address = "program";
  accounts = [];
  payload = 12 ∷ 0 ∷ 0 ∷ 0 ∷ 42 ∷ [];
}

abbrev says_ed25519 : String → Bool
says_ed25519 t = str_eq t "Ed25519"

update_built :
    Builders.pyth_keeper_builder any_address keeper_context [] signature_instruction (42 ∷ [])
    ≡ some (budget_instruction ∷ signature_instruction ∷ update_instruction ∷ [])
unfolding Builders.pyth_keeper_builder message_instructions set_compute_unit_limit_instruction
    instruction u8 u16 u32 push_bytes
update_built = refl

budget_is_other :
    (a : String) → some Builders.compute_budget_program_id ≡ some a → says_ed25519 a ≡ false
budget_is_other a h = subst (λ t. says_ed25519 t ≡ false) (some_injective h) refl

pyth_keeper_builder_refused_example :
    (length (budget_instruction ∷ signature_instruction ∷ update_instruction ∷ []) ≡ 3)
    × (ed25519_precedes says_ed25519
          (budget_instruction ∷ signature_instruction ∷ update_instruction ∷ [])
          2
        ≡ false)
pyth_keeper_builder_refused_example =
    pyth_keeper_builder_refused any_address says_ed25519 keeper_context [] signature_instruction
      (42 ∷ []) budget_is_other update_built
