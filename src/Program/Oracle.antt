-- ===== src/Program/Oracle.antt =====
-- How the program checks the Ed25519 instruction that an oracle update names,
-- `consume_oracle_update` of programs/equinox/src/handlers.rs. Whether an address is the one of
-- the Ed25519 program is a parameter.
use equinox.Prelude.{ℕ, Bool, true, false, Option, none, some, List, leb, if◌then◌else◌, get_elem?}
use equinox.Bytes.{read_unsigned}
use equinox.Transactions.{Instruction}

module _ {Address : Type 0} (is_ed25519 : Address → Bool) where
  -- Of the instruction named: its program, and the signature among those that it counts.
  abbrev signature_checked : Option (Instruction Address) → (signature_index : ℕ) → Bool
  signature_checked none signature = false
  signature_checked (some i) signature =
      if is_ed25519 i.program_address
      then elim (get_elem? i.payload 0) [
        | none ↦ false
        | some signatures ↦ if leb signatures signature then false else true
      ]
      else false

  abbrev named_checked : List (Instruction Address) → (current : ℕ) → Option ℕ → Option ℕ → Bool
  named_checked instructions current (some index) (some signature) =
      if leb current index
      then false
      else signature_checked (get_elem? instructions index) signature
  named_checked instructions current _ _ = false

  -- The check of the update at an index of a transaction. `false` is `OracleUnavailable`.
  unfoldable pub ed25519_precedes : List (Instruction Address) → (current : ℕ) → Bool
  ed25519_precedes instructions current = elim (get_elem? instructions current) [
    | none ↦ false
    | some i ↦
        named_checked instructions current (read_unsigned 2 i.payload 1) (get_elem? i.payload 3)
  ]
