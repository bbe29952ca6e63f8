-- ===== src/Execution/Reconcile.antt =====
-- The second half of workers/src/execution-status.ts: the decoding of a market account's
-- delegation fields, and the reconciliation of the indexer's record with what the L1 account and
-- the ER account say.
pub mod Bootstrap
pub mod Laws
pub mod Settled
use equinox.Prelude.{
  ℕ, ◌+◌, ◌-◌, Bool, true, false, Option, none, some, List, [], ◌∷◌, ◌&&◌, ◌||◌, not, ltb, leb,
  ◌==◌, if◌then◌else◌, get_or, is_some, get_elem?, length, take,
}
use equinox.Bytes.{Bytes, read_unsigned, same_bytes, byte_is, to_number}
use equinox.Execution.{
  Status, l1_only, delegating, er_active, er_accepted, commit_finalized, undelegating,
  restoration_pending, restored, reconciliation_error, Sequences, ExecutionState, is, moved,
  initial_execution_state, error_state, unexpected_undelegating, unrecognized_status,
  begin_delegation, observe_er_active, accept_er_trade, schedule_commit, observe_commit_on_l1,
  finalize_commit, begin_undelegation, begin_restoration, complete_restoration,
}

pub record DelegationFields : Type 0 where
  pub delegation_status : ℕ
  pub delegation_sequence : ℕ
  pub expected_commit_sequence : ℕ
  pub last_committed_sequence : ℕ
  pub pending_undelegation : Bool
  pub global_event_sequence : ℕ

infixl 5 ◌>>=◌
abbrev ◌>>=◌ {ℓ κ} : {A : Type ℓ} {B : Type κ} → Option A → (A → Option B) → Option B
none >>= f = none
some a >>= f = f a

-- "STKMK003"
abbrev v3_core_discriminator : Bytes
v3_core_discriminator = b'S' ∷ b'T' ∷ b'K' ∷ b'M' ∷ b'K' ∷ b'0' ∷ b'0' ∷ b'3' ∷ []

abbrev u64_number : Bytes → ℕ → Option ℕ
u64_number bytes offset = do v ← read_unsigned 8 bytes offset; some (to_number v)

abbrev decode_v3 : Bytes → Option DelegationFields
decode_v3 bytes = do
  status ← get_elem? bytes 197
  last_committed ← u64_number bytes 206
  expected ← u64_number bytes 198
  event ← u64_number bytes 148
  some (record {
    delegation_status = status;
    delegation_sequence = last_committed;
    expected_commit_sequence = expected;
    last_committed_sequence = last_committed;
    pending_undelegation = status == 2;
    global_event_sequence = event;
  })

-- `bytes[448] !== 0` holds too where the byte is `undefined`.
abbrev decode_v2 : Bytes → Option DelegationFields
decode_v2 bytes = do
  status ← get_elem? bytes 329
  sequence ← u64_number bytes 428
  expected ← u64_number bytes 330
  last_committed ← u64_number bytes 338
  event ← u64_number bytes 262
  some (record {
    delegation_status = status;
    delegation_sequence = sequence;
    expected_commit_sequence = expected;
    last_committed_sequence = last_committed;
    pending_undelegation = not (byte_is bytes 448 0);
    global_event_sequence = event;
  })

-- `decodeDelegationFields`; `none` is the RangeError of a read out of range.
unfoldable pub decode_delegation_fields : Bytes → Option DelegationFields
decode_delegation_fields bytes =
    if leb 214 (length bytes) && same_bytes (take 8 bytes) v3_core_discriminator
    then decode_v3 bytes
    else decode_v2 bytes

-- `if (next.status === "reconciliation_error") return next;` before the rest.
abbrev pub unless_error : ExecutionState → (ExecutionState → ExecutionState) → ExecutionState
unless_error next rest = if is next.status reconciliation_error then next else rest next

unfoldable pub reconcile_commit_progress : ExecutionState → DelegationFields → ExecutionState
reconcile_commit_progress state l1 =
    let committed = l1.last_committed_sequence in
    if leb committed state.sequences.l1_finalized_commit
    then state
    else unless_error
        (if ltb state.sequences.requested_commit committed
          then schedule_commit state committed
          else state)
        (λ next.
          unless_error (observe_commit_on_l1 next committed)
            (λ observed. finalize_commit observed committed))

-- The delegation that this reading shows to have begun.
unfoldable pub enter_er : ExecutionState → ExecutionState
enter_er state =
    let next =
      if is state.status l1_only || is state.status restored
      then begin_delegation state
      else state in
    if is next.status delegating then observe_er_active next else next

unfoldable pub accept_if_ahead : Option ℕ → ExecutionState → ExecutionState
accept_if_ahead none next = next
accept_if_ahead (some er) next =
    if ltb next.sequences.er_event er then accept_er_trade next er else next

-- Case 1 of `reconcileFromL1`: Delegated.
unfoldable pub reconcile_delegated : ExecutionState → DelegationFields → Option ℕ → ExecutionState
reconcile_delegated state l1 er = unless_error (enter_er state) (λ next.
    unless_error (accept_if_ahead er next) (λ accepted. reconcile_commit_progress accepted l1))

-- Case 2: Undelegating.
unfoldable pub reconcile_undelegating : ExecutionState → DelegationFields → ExecutionState
unfolding error_state
reconcile_undelegating state l1 =
    if is state.status commit_finalized
    then begin_undelegation state l1.delegation_sequence
    else if is state.status undelegating || is state.status restoration_pending
    then state
    else error_state state (unexpected_undelegating state.status)

-- Case 3: Restored. `a || b` is `b` where `a` is 0.
unfoldable pub reconcile_restored : ExecutionState → DelegationFields → ExecutionState
reconcile_restored state l1 =
    let next = if is state.status undelegating then begin_restoration state else state in
    if is next.status restoration_pending
    then complete_restoration next (
        if l1.delegation_sequence == 0
        then next.sequences.restoration + 1
        else l1.delegation_sequence)
    else next

unfoldable pub bootstrap_from_l1 : DelegationFields → Option ℕ → ExecutionState
bootstrap_from_l1 l1 er =
    let er_sequence = get_or er 0 in
    let sequences : Sequences = record {
      er_event = er_sequence;
      er_market_state = er_sequence;
      requested_commit =
          if ltb 0 l1.expected_commit_sequence then l1.expected_commit_sequence - 1 else 0;
      l1_observed_commit = l1.last_committed_sequence;
      l1_finalized_commit = l1.last_committed_sequence;
      undelegation =
          if l1.pending_undelegation || l1.delegation_status == 2
          then l1.delegation_sequence
          else 0;
      restoration = if l1.delegation_status == 3 then l1.delegation_sequence else 0;
    } in
    moved
      (if l1.delegation_status == 1
        then (if ltb 0 er_sequence then er_accepted else er_active)
        else if l1.delegation_status == 2
        then undelegating
        else restored)
      sequences

unfoldable pub reconcile_from_l1 :
    ExecutionState → DelegationFields → Option ℕ → Bool → ExecutionState
unfolding error_state
reconcile_from_l1 state l1 er is_first_observation =
    if is_first_observation && not (l1.delegation_status == 0)
    then bootstrap_from_l1 l1 er
    else if l1.delegation_status == 0
    then (if is state.status l1_only then state else moved l1_only state.sequences)
    else if l1.delegation_status == 1
    then reconcile_delegated state l1 er
    else if l1.delegation_status == 2
    then reconcile_undelegating state l1
    else if l1.delegation_status == 3
    then reconcile_restored state l1
    else error_state state (unrecognized_status l1.delegation_status)

-- `JSON.stringify(a) === JSON.stringify(b)` on sequences.
abbrev pub same_sequences : Sequences → Sequences → Bool
same_sequences a b =
    a.er_event == b.er_event
    && (a.er_market_state == b.er_market_state
        && (a.requested_commit == b.requested_commit
            && (a.l1_observed_commit == b.l1_observed_commit
                && (a.l1_finalized_commit == b.l1_finalized_commit
                    && (a.undelegation == b.undelegation && a.restoration == b.restoration)))))

-- What `reconcileMarketExecutionStatus` returns, and the row that it stores, if it stores one.
pub record ReconciliationResult : Type 0 where
  pub state : ExecutionState
  pub changed : Bool
  pub stored : Option ExecutionState

abbrev settle : Option ExecutionState → ExecutionState → ExecutionState → ReconciliationResult
settle persisted state next =
    let changed =
      not (is_some persisted)
      || (not (is next.status state.status)
          || not (same_sequences next.sequences state.sequences)) in
    record { state = next; changed = changed; stored = if changed then some next else none }

-- The ER account is read only where the L1 account says Delegated or Undelegating.
abbrev er_sequence_of : DelegationFields → Option Bytes → Option (Option ℕ)
er_sequence_of l1 none = some none
er_sequence_of l1 (some bytes) =
    if l1.delegation_status == 1 || l1.delegation_status == 2
    then (do fields ← decode_delegation_fields bytes; some (some fields.global_event_sequence))
    else some none

-- One tick for one market: the stored row, the L1 account's bytes and the ER account's bytes
-- (`none` where there is no account). `none` as the result is a thrown RangeError.
unfoldable pub reconcile_market_execution_status :
    Option ExecutionState → Option Bytes → Option Bytes → Option ReconciliationResult
unfolding decode_delegation_fields reconcile_from_l1
reconcile_market_execution_status persisted none er =
    some
      (record { state = get_or persisted initial_execution_state; changed = false; stored = none })
reconcile_market_execution_status persisted (some bytes) er = do
  l1 ← decode_delegation_fields bytes
  er_sequence ← er_sequence_of l1 er
  let state = get_or persisted initial_execution_state
  some (settle persisted state (reconcile_from_l1 state l1 er_sequence (not (is_some persisted))))
