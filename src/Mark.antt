-- ===== src/Mark.antt =====
-- The executable mark price, workers/src/mark-price.ts: a price from the bytes of a market account,
-- by the best orders of its book, within a band around the oracle's price.
--
-- A read past the end of the bytes is `undefined`: it counts as 0 under `|`, and `BigInt` of it
-- throws (`none`). Numbers are rounded as doubles are; a negative lower bound of the band counts as
-- 0, which the maximum with 1 hides.
pub mod Band
pub mod Best
use Prim.Native.Nat.{max, min}
use equinox.Prelude.{
  ℕ, zero, suc, ◌+◌, ◌-◌, ◌*◌, ◌/◌, ◌^◌, Bool, true, false, Option, none, some, List, [], ◌∷◌, ◌&&◌,
  ◌||◌, not, ltb, leb, ◌==◌, if◌then◌else◌, get_elem?, get_or, take, length,
}
use equinox.Prelude.Int.{ℤ, pos, negsuc, ◌+ℤ◌, ◌*ℤ◌, ltb_ℤ, leb_ℤ}
use equinox.Bytes.{
  Bytes, same_bytes, byte_is, as_signed, read_unsigned, read_signed, to_number, to_signed_number,
  floor_basis_points,
}

pub data MarkSource : Type 0 where
  from_index book_mid book_one_sided : MarkSource

pub record MarkQuote : Type 0 where
  pub price : ℕ
  pub source : MarkSource

-- `bytes[offset]`, for an offset that may be negative.
abbrev pub byte_at : Bytes → ℤ → Option ℕ
byte_at bytes (pos n) = get_elem? bytes n
byte_at bytes (negsuc n) = none

abbrev pub byte_or_zero : Bytes → ℤ → ℕ
byte_or_zero bytes offset = get_or (byte_at bytes offset) 0

-- The bits are put together by `|`, so that the result is a signed number of 32 bits.
unfoldable pub read_u32 : Bytes → ℤ → ℤ
read_u32 bytes offset = as_signed 4 (
    byte_or_zero bytes offset
    + 2 ^ 8 * byte_or_zero bytes (offset +ℤ pos 1)
    + 2 ^ 16 * byte_or_zero bytes (offset +ℤ pos 2)
    + 2 ^ 24 * byte_or_zero bytes (offset +ℤ pos 3))

-- `readU64` and `readI64`.
abbrev pub read_u64 : Bytes → ℤ → Option ℕ
read_u64 bytes (pos n) = read_unsigned 8 bytes n
read_u64 bytes (negsuc n) = none

abbrev pub read_i64 : Bytes → ℤ → Option ℤ
read_i64 bytes (pos n) = read_signed 8 bytes n
read_i64 bytes (negsuc n) = none

abbrev pub deviation_of : ℤ → ℕ
deviation_of (pos zero) = 500
deviation_of (pos (suc n)) = suc n
deviation_of (negsuc n) = 500

-- 500 where the header's value is not positive.
unfoldable pub max_mark_deviation_bps : Bytes → ℕ
max_mark_deviation_bps bytes =
    deviation_of (as_signed 2 (byte_or_zero bytes (pos 483) + 2 ^ 8 * byte_or_zero bytes (pos 484)))

pub data Tree : Type 0 where
  fixed pegged : Tree

pub record Leaf : Type 0 where
  pub side : Option ℕ
  pub quantity : ℕ
  pub expires_at : ℕ
  pub peg_limit : ℤ
  pub price_or_offset : ℤ
  pub tree : Tree

infixl 5 ◌>>=◌
abbrev pub ◌>>=◌ {ℓ κ} : {A : Type ℓ} {B : Type κ} → Option A → (A → Option B) → Option B
none >>= f = none
some a >>= f = f a

abbrev pub read_leaf : Bytes → ℤ → Tree → Option Leaf
read_leaf bytes base tree = do
  quantity ← read_u64 bytes (base +ℤ pos 24)
  expires_at ← read_u64 bytes (base +ℤ pos 32)
  peg_limit ← read_i64 bytes (base +ℤ pos 40)
  price_or_offset ← read_i64 bytes (base +ℤ pos 56)
  some (record {
    side = byte_at bytes (base +ℤ pos 1);
    quantity = to_number quantity;
    expires_at = expires_at;
    peg_limit = to_signed_number peg_limit;
    price_or_offset = to_signed_number price_or_offset;
    tree = tree;
  })

-- `handle !== NONE`, for a signed handle.
abbrev pub is_none_handle : ℤ → Bool
is_none_handle (pos n) = n == 4294967295
is_none_handle (negsuc n) = false

-- The steps of the loop: `depth < 2048`.
unfoldable pub walk_leaf : ℕ → Bytes → ℤ → ℤ → Tree → Option (Option Leaf)
walk_leaf zero bytes nodes handle tree = some none
walk_leaf (suc steps) bytes nodes handle tree =
    let base = nodes +ℤ (handle *ℤ pos 88) in
    let rest = walk_leaf steps bytes nodes (read_u32 bytes (base +ℤ pos 24)) tree in
    if is_none_handle handle
    then some none
    else if get_or (byte_at bytes base) 0 == 2
    then (do leaf ← read_leaf bytes base tree; some (some leaf))
    else if get_or (byte_at bytes base) 0 == 1
    then rest
    else some none

abbrev pub tree_index : Tree → ℕ
tree_index fixed = 0
tree_index pegged = 1

unfoldable pub best_leaf : Bytes → ℕ → Tree → Option (Option Leaf)
best_leaf bytes arena_offset tree =
    walk_leaf 2048 bytes (pos (arena_offset + 528))
      (read_u32 bytes (pos (arena_offset + 4 + tree_index tree * 4))) tree

abbrev pub positive : ℤ → Option ℕ
positive (pos zero) = none
positive (pos (suc n)) = some (suc n)
positive (negsuc n) = none

-- A pegged price beyond the order's limit is none.
abbrev pub evaluated : Bool → ℤ → Leaf → Tree → Option ℕ
evaluated side_bid oracle leaf fixed = positive leaf.price_or_offset
evaluated side_bid oracle leaf pegged =
    let price = to_signed_number (oracle +ℤ leaf.price_or_offset) in
    if leb_ℤ leaf.peg_limit (pos 0)
    then none
    else if (if side_bid then leb_ℤ price leaf.peg_limit else leb_ℤ leaf.peg_limit price)
    then positive price
    else none

abbrev pub is_bid : Option ℕ → Bool
is_bid none = false
is_bid (some side) = side == 0

abbrev pub same_bool : Bool → Bool → Bool
same_bool true b = b
same_bool false b = not b

-- The price at which a tree's best order can be executed on a side.
unfoldable pub executable_price : Bool → ℕ → ℕ → Option Leaf → Option ℕ
executable_price side_bid oracle now none = none
executable_price side_bid oracle now (some leaf) =
    if leaf.quantity == 0 || leb leaf.expires_at now
    then none
    else if not (same_bool (is_bid leaf.side) side_bid)
    then none
    else evaluated side_bid (pos oracle) leaf leaf.tree

-- One round of the loop's update of `best`.
unfoldable pub improve : Bool → Option ℕ → Option ℕ → Option ℕ
improve side_bid best none = best
improve side_bid none (some price) = some price
improve side_bid (some best) (some price) =
    some (if side_bid then max best price else min best price)

abbrev pub slots : List (ℕ × Tree)
slots = (512, fixed) ∷ (512, pegged) ∷ (91152, fixed) ∷ (91152, pegged) ∷ []

unfoldable pub best_over : Bool → List (Option ℕ) → Option ℕ → Option ℕ
best_over side_bid [] best = best
best_over side_bid (price ∷ prices) best = best_over side_bid prices (improve side_bid best price)

-- The best leaves of the listed trees; `none` if a read throws.
abbrev pub leaves_of : Bytes → List (ℕ × Tree) → Option (List (Option Leaf))
leaves_of bytes [] = some []
leaves_of bytes (s ∷ ss) = do
  leaf ← best_leaf bytes s.0 s.1
  leaves ← leaves_of bytes ss
  some (leaf ∷ leaves)

abbrev pub prices_of : Bool → ℕ → ℕ → List (Option Leaf) → List (Option ℕ)
prices_of side_bid oracle now [] = []
prices_of side_bid oracle now (l ∷ ls) =
    executable_price side_bid oracle now l ∷ prices_of side_bid oracle now ls

unfoldable pub best_executable_side : Bytes → Bool → ℕ → ℕ → Option (Option ℕ)
best_executable_side bytes side_bid oracle now = do
  leaves ← leaves_of bytes slots
  some (best_over side_bid (prices_of side_bid oracle now leaves) none)

unfoldable pub clamp_to_index : ℕ → ℕ → ℕ → ℕ
clamp_to_index mark index max_deviation_bps =
    let deviation = floor_basis_points (to_number (index * max_deviation_bps)) in
    min (max mark (max 1 (to_number (index - deviation)))) (to_number (index + deviation))

-- The last part of `executableMark`, from the best prices of both sides.
unfoldable pub quote : ℕ → ℕ → Option ℕ → Option ℕ → MarkQuote
quote index deviation none none = record { price = index; source = from_index }
quote index deviation (some bid) none = record {
  price = clamp_to_index bid index deviation;
  source = book_one_sided;
}
quote index deviation none (some ask) = record {
  price = clamp_to_index ask index deviation;
  source = book_one_sided;
}
quote index deviation (some bid) (some ask) =
    if ltb bid ask
    then record {
      price = clamp_to_index (to_number (bid + ask) / 2) index deviation;
      source = book_mid;
    }
    else record { price = index; source = from_index }

-- Where the reading of neither side throws.
abbrev pub quoted : ℕ → ℕ → Option (Option ℕ) → Option (Option ℕ) → Option (Option MarkQuote)
quoted index deviation bid ask = do
  bid_price ← bid
  ask_price ← ask
  some (some (quote index deviation bid_price ask_price))

-- "STKMRK01"
abbrev pub market_discriminator : Bytes
market_discriminator = 83 ∷ 84 ∷ 75 ∷ 77 ∷ 82 ∷ 75 ∷ 48 ∷ 49 ∷ []

abbrev pub is_live_mode : Bytes → Bool
is_live_mode bytes = byte_is bytes 11 1 || (byte_is bytes 11 2 || byte_is bytes 11 3)

abbrev pub is_version : Option ℕ → Bool
is_version none = false
is_version (some v) = v == 2

abbrev pub header_admits : Bytes → Bool
header_admits bytes =
    leb 512 (length bytes)
    && (same_bytes (take 8 bytes) market_discriminator
        && (is_version (read_unsigned 2 bytes 8)
            && (byte_is bytes 10 1 && (is_live_mode bytes && byte_is bytes 294 1))))

-- From the index on, if it is positive.
abbrev pub mark_within : Bytes → ℕ → Option ℕ → Option (Option MarkQuote)
mark_within bytes now none = some none
mark_within bytes now (some index) =
    quoted index (max_mark_deviation_bps bytes) (best_executable_side bytes true index now)
      (best_executable_side bytes false index now)

-- `none` outside is a throw, inside it is that there is no mark.
unfoldable pub executable_mark : Bytes → Option (Option MarkQuote)
executable_mark bytes = if not (header_admits bytes) then some none else (do
  price ← read_signed 8 bytes 295
  now ← read_unsigned 8 bytes 303
  mark_within bytes now (positive (to_signed_number price)))
