-- ===== src/Orders.antt =====
-- The open orders that a client shows for a seat: lib/open-orders.ts, from the aggregate that the
-- Worker serves. The numbers in it are texts; a missing field is `none`. The filled quantity, which
-- is always 0, and the slot, which is passed on, are left out.
pub mod Shown
use Prim.Native.Char.{code}
use Prim.Native.String.{String}
use equinox.Prelude.{
  ℕ, zero, suc, ◌+◌, ◌-◌, ◌*◌, ◌/◌, ◌^◌, Bool, true, false, Option, none, some, List, [], ◌∷◌, ◌++◌,
  ◌&&◌, ◌||◌, not, leb, ◌==◌, if◌then◌else◌, get_or,
}
use equinox.Prelude.Int.{ℤ, pos, negsuc, ◌+ℤ◌, ◌-ℤ◌}
use equinox.Mark.{Tree, fixed, pegged, ◌>>=◌}

pub data OrderSide : Type 0 where
  bid ask : OrderSide

pub record OpenOrderView : Type 0 where
  pub order_key : ℤ
  pub side : OrderSide
  pub tree : Tree
  pub price : ℤ
  pub quantity : ℤ
  pub post_only : Bool
  pub reduce_only : Bool
  pub expires_at : Option ℤ

pub record V3OrderNode : Type 0 where
  pub key : String
  pub side : Option ℕ
  pub owner : Option ℕ
  pub quantity : Option String
  pub expires_at : Option String
  pub price_or_offset : Option String
  pub post_only : Bool
  pub reduce_only : Bool
  pub tree : Option Tree

abbrev pub decimal : ℕ → String → Option ℕ
decimal v String.[] = some v
decimal v (String.◌∷◌ c s) =
    let rest = decimal (v * 10 + (code c - 48)) s in
    if leb 48 (code c) && leb (code c) 57 then rest else none

abbrev pub digits : String → Option ℕ
digits String.[] = none
digits (String.◌∷◌ c s) = decimal 0 (String.◌∷◌ c s)

abbrev pub negated : ℕ → ℤ
negated zero = pos 0
negated (suc n) = negsuc n

-- `/^-?\d+$/` and `BigInt(value)`.
unfoldable pub bigint_text : String → Option ℤ
bigint_text String.[] = none
bigint_text (String.◌∷◌ c s) =
    if code c == 45
    then (do n ← digits s; some (negated n))
    else (do n ← digits (String.◌∷◌ c s); some (pos n))

abbrev pub bigint_field : Option String → Option ℤ
bigint_field none = none
bigint_field (some s) = bigint_text s

-- `key >> 64n`
abbrev pub high_bits : ℤ → ℤ
high_bits (pos n) = pos (n / 2 ^ 64)
high_bits (negsuc n) = negsuc (n / 2 ^ 64)

unfoldable pub fixed_price : ℤ → OrderSide → ℤ
fixed_price key ask = high_bits key
fixed_price key bid = pos (2 ^ 64 - 1) -ℤ high_bits key

abbrev pub price_in : Option ℤ → ℤ → ℤ → OrderSide → Tree → Option ℤ
price_in mark key offset side fixed = some (fixed_price key side)
price_in none key offset side pegged = none
price_in (some mark) key offset side pegged = some (mark +ℤ offset)

abbrev pub if_positive : ℤ → Option ℤ
if_positive (pos zero) = none
if_positive (pos (suc n)) = some (pos (suc n))
if_positive (negsuc n) = none

-- `expires === 2n ** 64n - 1n ? null : expires`
abbrev pub expiry_of : ℤ → Option ℤ
expiry_of (pos n) = if n == 2 ^ 64 - 1 then none else some (pos n)
expiry_of (negsuc n) = some (negsuc n)

-- The order of a node of the seat; `none` makes the whole list unavailable.
unfoldable pub order_of : Option ℤ → V3OrderNode → OrderSide → Tree → Option OpenOrderView
order_of mark node side tree = do
  key ← bigint_text node.key
  quantity ← bigint_field node.quantity
  offset ← bigint_field node.price_or_offset
  expires ← bigint_field node.expires_at
  candidate ← price_in mark key offset side tree
  price ← if_positive candidate
  some (record {
    order_key = key;
    side = side;
    tree = tree;
    price = price;
    quantity = quantity;
    post_only = node.post_only;
    reduce_only = node.reduce_only;
    expires_at = expiry_of expires;
  })

abbrev pub side_of : Option ℕ → Option OrderSide
side_of none = none
side_of (some n) = if n == 0 then some bid else if n == 1 then some ask else none

abbrev pub is_owner : ℕ → Option ℕ → Bool
is_owner seat none = false
is_owner seat (some owner) = owner == seat

-- The side and the tree of a node that is listed for the seat; the loop passes the others over.
unfoldable pub listed : ℕ → V3OrderNode → Option (OrderSide × Tree)
listed seat node =
    if not (is_owner seat node.owner)
    then none
    else (do side ← side_of node.side; tree ← node.tree; some (side, tree))

abbrev pub add_order :
    Option OpenOrderView → Option (List OpenOrderView) → Option (List OpenOrderView)
add_order order rest = do o ← order; os ← rest; some (o ∷ os)

unfoldable pub orders_of : ℕ → Option ℤ → List V3OrderNode → Option (List OpenOrderView)
orders_of seat mark [] = some []
orders_of seat mark (node ∷ nodes) =
    let rest = orders_of seat mark nodes in
    elim (listed seat node) [
      | none ↦ rest
      | some (side, tree) ↦ add_order (order_of mark node side tree) rest
    ]

pub record Aggregate : Type 0 where
  pub complete_execution_state : Bool
  pub oracle_price : Option String
  pub order_book : Option (List V3OrderNode × List V3OrderNode)

pub data FetchResult : Type 0 where
  unavailable : FetchResult
  ready : List OpenOrderView → FetchResult

abbrev pub found : Option (List OpenOrderView) → FetchResult
found none = unavailable
found (some orders) = ready orders

-- `fetchOpenOrders`, from the aggregate; `none` where it was not fetched.
unfoldable pub fetch_open_orders : ℕ → Option Aggregate → FetchResult
fetch_open_orders seat none = unavailable
fetch_open_orders seat (some aggregate) =
    if not aggregate.complete_execution_state then unavailable else elim aggregate.order_book [
      | none ↦ unavailable
      | some (bids, asks) ↦
          found (orders_of seat (bigint_field aggregate.oracle_price) (bids ++ asks))
    ]

pub data ViewState : Type 0 where
  loading is_unavailable error_shown empty : ViewState
  shown : List OpenOrderView → Bool → ViewState

abbrev pub stale_view : ViewState → ViewState
stale_view (shown orders stale) = shown orders true
stale_view _ = error_shown

abbrev pub view_of : List OpenOrderView → ViewState
view_of [] = empty
view_of (o ∷ os) = shown (o ∷ os) false

-- `none` is a failed attempt.
unfoldable pub classify_open_orders_result : ViewState → Option FetchResult → ViewState
classify_open_orders_result previous none = stale_view previous
classify_open_orders_result previous (some unavailable) = is_unavailable
classify_open_orders_result previous (some (ready orders)) = view_of orders
