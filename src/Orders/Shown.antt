-- ===== src/Orders/Shown.antt =====
-- What is shown of a seat's orders: all of them or none, each at the price that its key stands for.
use equinox.Prelude.{
  ℕ, ◌+◌, ◌-◌, ◌*◌, ◌^◌, ◌<◌, ◌≡◌, refl, true, Option, none, some, List, [], ◌∷◌, ◌++◌, arith,
  Bool-cases, inl, inr, ◌⊎◌, ◌≢◌, some_injective, sym, ap, ◌∙◌, false,
}
use equinox.Prelude.Int.{ℤ, pos, ◌-ℤ◌, pos_part}
use equinox.Mark.{Tree, ◌>>=◌}
use equinox.Orders.{
  OrderSide, bid, ask, OpenOrderView, V3OrderNode, fixed_price, order_of, listed, orders_of,
  add_order, side_of, is_owner, bigint_text, fetch_open_orders, found, bigint_field, ready,
  Aggregate,
}

-- The key of a resting order: the price's bits, complemented for a bid, above the order's sequence.
abbrev pub key_of : ℕ → ℕ → OrderSide → ℤ
key_of price sequence ask = pos (price * 2 ^ 64 + sequence)
key_of price sequence bid = pos ((2 ^ 64 - 1 - price) * 2 ^ 64 + sequence)

-- The price of a fixed order is read back from the key that its price and sequence make, on both
-- sides, for any 64-bit price and sequence.
pub fixed_price-key_of :
    (price sequence : ℕ) (side : OrderSide)
    → price < 2 ^ 64
    → sequence < 2 ^ 64
    → fixed_price (key_of price sequence side) side ≡ pos price
unfolding fixed_price ◌-ℤ◌
fixed_price-key_of price sequence ask h k = ground arith
fixed_price-key_of price sequence bid h k = ground arith

abbrev pub HasPrice : OpenOrderView → Type 0
HasPrice o = 0 < pos_part o.price

-- An order stands for a node: it has the node's key, quantity, side, tree and flags, and is what the
-- source makes of the node, at a price above 0.
pub record StandsFor (mark : Option ℤ) (node : V3OrderNode) (order : OpenOrderView) : Type 0 where
  pub own_key : bigint_text node.key ≡ some order.order_key
  pub own_quantity : bigint_field node.quantity ≡ some order.quantity
  pub own_side : side_of node.side ≡ some order.side
  pub own_tree : node.tree ≡ some order.tree
  pub own_post_only : node.post_only ≡ order.post_only
  pub own_reduce_only : node.reduce_only ≡ order.reduce_only
  pub own_order : order_of mark node order.side order.tree ≡ some order
  pub has_price : HasPrice order

-- A node is not the seat's, or has no side or tree that is known.
abbrev pub IsPassedOver : ℕ → V3OrderNode → Type 0
IsPassedOver seat node =
    (node.owner ≢ some seat) ⊎ ((side_of node.side ≡ none) ⊎ (node.tree ≡ none))

-- The orders stand for the nodes, one for each and in their order, but for those passed over.
abbrev pub Shows : ℕ → Option ℤ → List V3OrderNode → List OpenOrderView → Type 0
Shows seat mark [] orders = orders ≡ []
Shows seat mark (n ∷ ns) orders =
    (IsPassedOver seat n × Shows seat mark ns orders)
    ⊎ ((x : OpenOrderView) × (xs : List OpenOrderView) × (orders ≡ x ∷ xs)
        × (n.owner ≡ some seat)
        × StandsFor mark n x
        × Shows seat mark ns xs)

owner_same : (seat : ℕ) (o : Option ℕ) → is_owner seat o ≡ true → o ≡ some seat
owner_same seat none h = ground arith
owner_same seat (some n) h = ap some (ground arith)

owner_other : (seat : ℕ) (o : Option ℕ) → is_owner seat o ≡ false → o ≢ some seat
owner_other seat none h e = ground arith
owner_other seat (some n) h e = let same = some_injective e in ground arith

placed_at :
    (side : Option OrderSide) (tree : Option Tree)
    → let place : Option (OrderSide × Tree) = (do s ← side; t ← tree; some (s, t)) in
      (((side ≡ none) ⊎ (tree ≡ none)) × (place ≡ none))
      ⊎ ((s : OrderSide) × (t : Tree) × (side ≡ some s) × (tree ≡ some t) × (place ≡ some (s, t)))
placed_at none tree = inl (inl refl, refl)
placed_at (some s) none = inl (inr refl, refl)
placed_at (some s) (some t) = inr (s, t, refl, refl, refl)

listed-cases :
    (seat : ℕ) (node : V3OrderNode)
    → (IsPassedOver seat node × (listed seat node ≡ none))
      ⊎ ((s : OrderSide) × (t : Tree) × (node.owner ≡ some seat)
          × (side_of node.side ≡ some s)
          × (node.tree ≡ some t)
          × (listed seat node ≡ some (s, t)))
unfolding listed
listed-cases seat node = elim (Bool-cases (is_owner seat node.owner)) [
  | inr other ↦ inl (inl (owner_other seat node.owner other), simp other refl)
  | inl own ↦ elim (placed_at (side_of node.side) node.tree) [
    | inl (unknown, at) ↦ inl (inr unknown, simp own at)
    | inr (s, t, side, tree, at) ↦
        inr (s, t, owner_same seat node.owner own, side, tree, simp own at)
  ]
]

order_fields :
    (mark : Option ℤ) (node : V3OrderNode) (side : OrderSide) (tree : Tree) {o : OpenOrderView}
    → order_of mark node side tree ≡ some o
    → (bigint_text node.key ≡ some o.order_key)
      × (bigint_field node.quantity ≡ some o.quantity)
      × (side ≡ o.side)
      × (tree ≡ o.tree)
      × (node.post_only ≡ o.post_only)
      × (node.reduce_only ≡ o.reduce_only)
      × HasPrice o
unfolding order_of
order_fields mark node side tree h = ground arith

order_of-StandsFor :
    (mark : Option ℤ) (node : V3OrderNode) (side : OrderSide) (tree : Tree) {o : OpenOrderView}
    → side_of node.side ≡ some side
    → node.tree ≡ some tree
    → order_of mark node side tree ≡ some o
    → StandsFor mark node o
order_of-StandsFor mark node side tree {o} s t h =
    let (key, quantity, same_side, same_tree, post, reduce, priced) =
      order_fields mark node side tree h in
    record {
      own_key = key;
      own_quantity = quantity;
      own_side = s ∙ ap some same_side;
      own_tree = t ∙ ap some same_tree;
      own_post_only = post;
      own_reduce_only = reduce;
      own_order =
          ap (λ d. order_of mark node d o.tree) (sym same_side)
          ∙ ap (λ d. order_of mark node side d) (sym same_tree)
          ∙ h;
      has_price = priced;
    }

add_order-some :
    (o : Option OpenOrderView) (rest : Option (List OpenOrderView)) {os : List OpenOrderView}
    → add_order o rest ≡ some os
    → (x : OpenOrderView) × ((xs : List OpenOrderView) × ((o ≡ some x)
          × (rest ≡ some xs)
          × (os ≡ x ∷ xs)))
add_order-some none rest h = absurd (ground arith)
add_order-some (some x) none h = absurd (ground arith)
add_order-some (some x) (some xs) h = (x, (xs, (refl, refl, ground arith)))

orders_of-Shows :
    (seat : ℕ) (mark : Option ℤ) (nodes : List V3OrderNode) {orders : List OpenOrderView}
    → orders_of seat mark nodes ≡ some orders
    → Shows seat mark nodes orders
unfolding orders_of
orders_of-Shows seat mark [] h = sym (some_injective h)
orders_of-Shows seat mark (n ∷ ns) {orders} h =
    let step = λ (place : Option (OrderSide × Tree)).
      elim place as (λ _. Option (List OpenOrderView)) [
        | none ↦ orders_of seat mark ns
        | some (side, tree) ↦ add_order (order_of mark n side tree) (orders_of seat mark ns)
      ] in
    elim (listed-cases seat n) [
      | inl (passed, at) ↦ inl (passed, orders_of-Shows seat mark ns (sym (ap step at) ∙ h))
      | inr (side, tree, owner, s, t, at) ↦
          let (x, (xs, (e, r, o))) =
            add_order-some (order_of mark n side tree) (orders_of seat mark ns)
              (sym (ap step at) ∙ h) in
          inr (
            x,
            xs,
            o,
            owner,
            order_of-StandsFor mark n side tree s t e,
            orders_of-Shows seat mark ns r,
          )
    ]

found_ready :
    (o : Option (List OpenOrderView)) {orders : List OpenOrderView}
    → found o ≡ ready orders
    → o ≡ some orders
found_ready none h = absurd (ground arith)
found_ready (some x) h = ground arith

-- If orders are shown for a seat, the aggregate was complete, and the orders stand for the nodes of
-- its book that the seat owns, one for each and in their order, bids before asks: each has its node's
-- key, quantity, side, tree and flags and a price above 0. Only the nodes without a known side or
-- tree are passed over, like the nodes of other seats.
pub fetch_open_orders_complete :
    (seat : ℕ) (aggregate : Aggregate) (bids asks : List V3OrderNode) {orders : List OpenOrderView}
    → aggregate.order_book ≡ some (bids, asks)
    → fetch_open_orders seat (some aggregate) ≡ ready orders
    → (aggregate.complete_execution_state ≡ true)
      × Shows seat (bigint_field aggregate.oracle_price) (bids ++ asks) orders
unfolding fetch_open_orders
fetch_open_orders_complete seat aggregate bids asks b h =
    elim (Bool-cases aggregate.complete_execution_state) [
      | inr c ↦ absurd (ground (arith, c))
      | inl c ↦ (
        c,
        orders_of-Shows seat (bigint_field aggregate.oracle_price) (bids ++ asks) (
            found_ready (orders_of seat (bigint_field aggregate.oracle_price) (bids ++ asks))
              (rw (c, b) at h)),
      )
    ]
