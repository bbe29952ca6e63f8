-- ===== src/Examples/Clients.antt =====
-- The client's views, the commit policy and the ingestion on a few inputs.
use equinox.Prelude.{◌<◌, ◌≡◌, ◌≢◌, ◌↔◌, ◌⊎◌, refl, true, false, none, some, [], ◌∷◌}
use equinox.Prelude.Int.{pos, ◌+ℤ◌}
use equinox.Execution.{initial_execution_state, delegating, undelegating}
use equinox.Routing.{derive_execution_display, to_l1, to_er}
use equinox.Routing.Laws.{routed_where_delegated, response_of}
use equinox.Commits.{CommitPolicyInputs, decide_commit_action, commit_and_undelegate}
use equinox.Commits.Laws.{commits_if_triggered, Sends, triggered}
use equinox.Mark.{pegged}
use equinox.Orders.{
  V3OrderNode, Aggregate, OpenOrderView, fetch_open_orders, ready, ask, orders_of, order_of, listed,
  bigint_text,
}
use equinox.Orders.Shown.{fetch_open_orders_complete, Shows}
use equinox.Stream.{MarketEvent, empty_state}
use equinox.Indexer.{Pipeline, ingest}
use equinox.Indexer.Agreement.{ingest-Promised, Promised}

routed_where_delegated_example :
    let d = derive_execution_display (response_of initial_execution_state) in
    ((d.order_routing_domain ≡ some to_er) ↔ (
      (d.market_delegated ≡ true)
      × (initial_execution_state.status ≢ delegating)
      × (initial_execution_state.status ≢ undelegating)))
    × ((d.order_routing_domain ≡ some to_l1)
        ↔ ((d.market_delegated ≡ false) × (d.withdrawal_safe ≡ true)))
    × ((d.degraded ≡ false) ⊎ ((d.order_routing_domain ≡ none) × (d.withdrawal_safe ≡ false)))
routed_where_delegated_example = routed_where_delegated initial_execution_state

abbrev inputs : CommitPolicyInputs
inputs = record {
  is_delegated = true;
  current_er_sequence = 9;
  last_requested_sequence = 7;
  last_confirmed_sequence = 7;
  open_interest_changed_materially = false;
  funding_just_updated = true;
  liquidation_just_happened = false;
  market_just_halted_or_corp_action = false;
  withdrawal_pending = false;
  undelegation_planned = false;
}

commits_if_triggered_example :
    let a = (decide_commit_action inputs).action in
    (Sends a ↔ ((true ≡ true) × (7 < 9) × (triggered inputs ≡ true)))
    × ((a ≡ commit_and_undelegate) ↔ (Sends a × (false ≡ true)))
commits_if_triggered_example = commits_if_triggered inputs

abbrev node : V3OrderNode
node = record {
  key = "12";
  side = some 1;
  owner = some 3;
  quantity = some "5";
  expires_at = some "900";
  price_or_offset = some "-1";
  post_only = true;
  reduce_only = false;
  tree = some pegged;
}

abbrev aggregate : Aggregate
aggregate = record {
  complete_execution_state = true;
  oracle_price = some "100";
  order_book = some ([], node ∷ record node { owner = some 4 } ∷ []);
}

abbrev view : OpenOrderView
view = record {
  order_key = pos 12;
  side = ask;
  tree = pegged;
  price = pos 99;
  quantity = pos 5;
  post_only = true;
  reduce_only = false;
  expires_at = some (pos 900);
}

fetched : fetch_open_orders 3 (some aggregate) ≡ ready (view ∷ [])
unfolding fetch_open_orders orders_of order_of listed bigint_text ◌+ℤ◌
fetched = refl

fetch_open_orders_complete_example :
    (true ≡ true)
    × Shows 3 (bigint_text "100") (node ∷ record node { owner = some 4 } ∷ []) (view ∷ [])
fetch_open_orders_complete_example =
    fetch_open_orders_complete 3 aggregate [] (node ∷ record node { owner = some 4 } ∷ []) refl
      fetched

abbrev pipeline : Pipeline
pipeline = record {
  index = record { present = λ id. false; cursor = none; snapshot = none };
  stream = empty_state;
}

abbrev first_event : MarketEvent
first_event = record { id = "a"; sequence = 1; body = "{}" }

ingest-Promised_example :
    let (r, q) = ingest "m" pipeline first_event (some 8) 1700 none in
    Promised pipeline first_event r q
ingest-Promised_example = ingest-Promised "m" pipeline first_event (some 8) 1700 none
