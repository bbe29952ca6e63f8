-- ===== src/Routing.antt =====
-- What the client shows of a market's execution status, and where it sends orders:
-- lib/execution-status.ts. The response's statuses and sequences are the Worker's.
pub mod Laws
use equinox.Prelude.{
  ℕ, Bool, true, false, Option, none, some, List, [], ◌∷◌, not, ◌||◌, if◌then◌else◌,
}
use equinox.Execution.{
  Status, l1_only, delegating, er_active, er_accepted, commit_scheduled, commit_observed_on_l1,
  commit_finalized, undelegating, restoration_pending, restored, reconciliation_error, Sequences,
  is, includes,
}

pub data RoutingDomain : Type 0 where
  to_l1 to_er : RoutingDomain

pub record ExecutionStatusResponse : Type 0 where
  pub status : Status
  pub sequences : Sequences
  pub withdrawal_display_safe : Bool

pub record ExecutionDisplayState : Type 0 where
  pub l1_connected : Bool
  pub er_connected : Bool
  pub market_delegated : Bool
  pub commit_pending : Bool
  pub restoration_pending : Bool
  pub restored : Bool
  pub degraded : Bool
  pub last_er_sequence : ℕ
  pub last_committed_l1_sequence : ℕ
  pub order_routing_domain : Option RoutingDomain
  pub withdrawal_safe : Bool

abbrev pub er_lifecycle_statuses : List Status
er_lifecycle_statuses =
    delegating ∷ er_active ∷ er_accepted ∷ commit_scheduled ∷ commit_observed_on_l1
    ∷ commit_finalized ∷ undelegating ∷ []

abbrev pub er_order_routable_statuses : List Status
er_order_routable_statuses =
    er_active ∷ er_accepted ∷ commit_scheduled ∷ commit_observed_on_l1 ∷ commit_finalized ∷ []

abbrev pub l1_order_routable_statuses : List Status
l1_order_routable_statuses = l1_only ∷ restored ∷ []

unfoldable pub order_routing_domain : Status → Option RoutingDomain
order_routing_domain status =
    if includes l1_order_routable_statuses status
    then some to_l1
    else if includes er_order_routable_statuses status
    then some to_er
    else none

unfoldable pub derive_execution_display : ExecutionStatusResponse → ExecutionDisplayState
unfolding order_routing_domain
derive_execution_display response =
    let status = response.status in
    record {
      l1_connected = not (is status reconciliation_error);
      er_connected = includes er_lifecycle_statuses status;
      market_delegated = includes er_lifecycle_statuses status;
      commit_pending = is status commit_scheduled || is status commit_observed_on_l1;
      restoration_pending = is status restoration_pending;
      restored = is status restored;
      degraded = is status reconciliation_error;
      last_er_sequence = response.sequences.er_event;
      last_committed_l1_sequence = response.sequences.l1_finalized_commit;
      withdrawal_safe = response.withdrawal_display_safe;
      order_routing_domain = order_routing_domain status;
    }

-- The texts of `describeExecutionStatus`.
pub data Label : Type 0 where
  unavailable reconciliation_failed restoring committing not_delegated : Label
  er_active_at : ℕ → Label

unfoldable pub describe_execution_status : Option ExecutionDisplayState → Label
describe_execution_status none = unavailable
describe_execution_status (some display) =
    if display.degraded
    then reconciliation_failed
    else if display.restoration_pending
    then restoring
    else if display.commit_pending
    then committing
    else if display.market_delegated
    then er_active_at display.last_er_sequence
    else not_delegated
