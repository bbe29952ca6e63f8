-- ===== src/Routing/Laws.antt =====
-- Orders are routed only where the account is.
use equinox.Prelude.{◌≡◌, ◌≢◌, ◌⊎◌, ◌↔◌, true, false, none, some, arith}
use equinox.Execution.{delegating, undelegating, ExecutionState, is_withdrawal_display_safe}
use equinox.Routing.{
  ExecutionStatusResponse, derive_execution_display, order_routing_domain, to_l1, to_er,
}

-- The response that the Worker gives for its record.
abbrev pub response_of : ExecutionState → ExecutionStatusResponse
response_of s = record {
  status = s.status;
  sequences = s.sequences;
  withdrawal_display_safe = is_withdrawal_display_safe s;
}

-- Orders go to the ER exactly where the display says that the market is delegated and it is neither
-- being delegated nor undelegated, and to L1 only where it is not delegated and withdrawals are
-- shown as safe; in a reconciliation error they go nowhere, and nothing is shown as safe.
pub routed_where_delegated :
    (s : ExecutionState)
    → let d = derive_execution_display (response_of s) in
      ((d.order_routing_domain ≡ some to_er)
        ↔ ((d.market_delegated ≡ true) × (s.status ≢ delegating) × (s.status ≢ undelegating)))
      × ((d.order_routing_domain ≡ some to_l1)
          ↔ ((d.market_delegated ≡ false) × (d.withdrawal_safe ≡ true)))
      × ((d.degraded ≡ false) ⊎ ((d.order_routing_domain ≡ none) × (d.withdrawal_safe ≡ false)))
unfolding derive_execution_display order_routing_domain is_withdrawal_display_safe
routed_where_delegated s = ground arith
