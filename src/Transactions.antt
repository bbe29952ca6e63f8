-- ===== src/Transactions.antt =====
-- The instructions that the Worker builds, workers/src/transactions.ts: each encoder with the bytes
-- it writes and the accounts it names. `none` is a RangeError, or an address that is no address.
--
-- `address` of @solana/kit, which checks and brands an address, is a parameter.
pub mod Writer
pub mod Fields
pub mod Behind
pub mod Encode
pub mod Decoded
pub mod Sharded
pub mod Slices
pub mod Agreement
pub mod Range
pub mod Returns
pub mod Bundles
pub mod Builders
pub mod Keepers
use Prim.Native.String.{String}
use equinox.Prelude.{
  ℕ, ◌+◌, Bool, true, false, Option, none, some, List, [], ◌∷◌, ◌++◌, ◌&&◌, ◌||◌, not, ltb, ◌==◌,
  if◌then◌else◌, get_or, is_some, length, drop,
}
use equinox.Prelude.Int.{ℤ, pos, negsuc}
use equinox.Bytes.{Bytes}
use equinox.Mark.{Tree, fixed, pegged, ◌>>=◌}
use equinox.Transactions.Writer.{
  Number, integer, not_integer, u8, u16, u32, u64, i64, i128, u128, raw, pubkey,
}
use mathlib.Core.Option

pub data AccountRole : Type 0 where
  readonly writable readonly_signer writable_signer : AccountRole

pub data Side : Type 0 where
  bid ask : Side

-- An optional field is `none` where it is left out.
pub record PlaceOrderFields : Type 0 where
  pub side : Side
  pub post_only : Option Bool
  pub immediate_or_cancel : Option Bool
  pub reduce_only : Option Bool
  pub tree : Option Tree
  pub seat_index : Number
  pub quantity : ℤ
  pub price_or_offset : ℤ
  pub expires_at : Option ℤ
  pub peg_limit : Option ℤ
  pub client_order_id : ℤ
  pub action_nonce : Option ℤ

pub record SessionFields : Type 0 where
  pub session_seat : Number
  pub session_expires_at : ℤ
  pub actions : Number
  pub max_order_notional : ℤ
  pub max_cumulative_notional : ℤ
  pub maximum_exposure : ℤ
  pub maximum_open_orders : Number

pub data MarketTransition : Type 0 where
  pause resume close_only : MarketTransition

abbrev pub start : Option Bytes
start = some []

-- A constant of `OPCODE`, or another small number.
abbrev pub number : ℕ → Number
number n = integer (pos n)

abbrev pub flag : Option Bool → ℕ → ℕ
flag set bit = if get_or set false then bit else 0

abbrev pub side_byte : Side → Number
side_byte bid = number 0
side_byte ask = number 1

abbrev pub tree_byte : Option Tree → Number
tree_byte none = number 0
tree_byte (some fixed) = number 0
tree_byte (some pegged) = number 1

-- The flags are distinct bits, so that `|` adds them.
abbrev pub flags_byte : PlaceOrderFields → Number
flags_byte fields =
    number (flag fields.post_only 1 + flag fields.immediate_or_cancel 2 + flag fields.reduce_only 4)

unfoldable pub place_order_data : PlaceOrderFields → Option Bytes
place_order_data fields =
    start
    >>= u8 (number 3)
    >>= u8 (side_byte fields.side)
    >>= u8 (tree_byte fields.tree)
    >>= u8 (flags_byte fields)
    >>= u16 fields.seat_index
    >>= u64 fields.quantity
    >>= i64 fields.price_or_offset
    >>= u64 (get_or fields.expires_at (pos 0))
    >>= i64 (get_or fields.peg_limit (pos 0))
    >>= u64 fields.client_order_id
    >>= u64 (get_or fields.action_nonce (pos 0))

pub record AccountMeta (Address : Type 0) : Type 0 where
  pub account : Address
  pub role : AccountRole

pub record Instruction (Address : Type 0) : Type 0 where
  pub program_address : Address
  pub accounts : List (AccountMeta Address)
  pub payload : Bytes

module _ {Address : Type 0} (address : String → Option Address) where
  unfoldable pub meta : String → AccountRole → Option (AccountMeta Address)
  meta address_string role =
      address address_string >>= λ a. some record { account = a; role = role }

  -- The bytes come first, as they are built before the call.
  unfoldable pub instruction :
      Option Bytes → String → List (AccountMeta Address) → Option (Instruction Address)
  instruction data' program accounts = do
    bytes ← data'
    a ← address program
    some record { program_address = a; accounts = accounts; payload = bytes }
