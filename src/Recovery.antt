-- ===== src/Recovery.antt =====
-- lib/sequence-recovery.ts: the client's tracker of the two event streams of a market, which tells
-- of each event whether it is new, a repetition, or a sign that something was missed.
pub mod Laws
use Prim.Native.Nat.{max}
use equinox.Prelude.{
  ℕ, suc, ◌+◌, ◌-◌, Bool, true, false, Option, none, some, List, [], ◌∷◌, ◌||◌, not, ltb, leb,
  if◌then◌else◌, get_or,
}

pub data Outcome : Type 0 where
  first in_order duplicate gap slot_regression : Outcome

pub data Domain : Type 0 where
  l1 er : Domain

abbrev pub same_domain : Domain → Domain → Bool
same_domain l1 l1 = true
same_domain er er = true
same_domain _ _ = false

pub record DomainCursor : Type 0 where
  pub sequence : ℕ
  pub slot : ℕ

-- `SequenceTrackerState`: the cursor of each domain.
pub record Tracker : Type 0 where
  pub l1 : Option DomainCursor
  pub er : Option DomainCursor

abbrev pub initial_sequence_tracker : Tracker
initial_sequence_tracker = record { l1 = none; er = none }

-- `state[domain]` and `{ ...state, [domain]: cursor }`.
abbrev pub cursor_of : Domain → Tracker → Option DomainCursor
cursor_of l1 t = t.l1
cursor_of er t = t.er

abbrev pub with_cursor : Domain → DomainCursor → Tracker → Tracker
with_cursor l1 c t = record t { l1 = some c }
with_cursor er c t = record t { er = some c }

pub record SequencedEvent : Type 0 where
  pub domain : Domain
  pub sequence : ℕ
  pub slot : Option ℕ

pub record Advance : Type 0 where
  pub state : Tracker
  pub outcome : Outcome
  pub missed : ℕ

-- `event.slot !== undefined && event.slot < prior.slot`
abbrev pub regresses : Option ℕ → ℕ → Bool
regresses none prior = false
regresses (some slot) prior = ltb slot prior

abbrev pub advance_from : Option DomainCursor → Tracker → SequencedEvent → Advance
advance_from none state event =
    let cursor : DomainCursor = record { sequence = event.sequence; slot = get_or event.slot 0 } in
    record { state = with_cursor event.domain cursor state; outcome = first; missed = 0 }
advance_from (some prior) state event =
    let moved = λ (slot : ℕ).
      let cursor : DomainCursor = record { sequence = event.sequence; slot = slot } in
      with_cursor event.domain cursor state in
    let slot = get_or event.slot prior.slot in
    if leb event.sequence prior.sequence
    then record { state = state; outcome = duplicate; missed = 0 }
    else if regresses event.slot prior.slot
    then record { state = moved prior.slot; outcome = slot_regression; missed = 0 }
    else if ltb (prior.sequence + 1) event.sequence
    then record { state = moved slot; outcome = gap; missed = event.sequence - prior.sequence - 1 }
    else record { state = moved slot; outcome = in_order; missed = 0 }

unfoldable pub advance_sequence : Tracker → SequencedEvent → Advance
advance_sequence state event = advance_from (cursor_of event.domain state) state event

-- One step of the `reduce`: a later event wins only with a higher sequence.
abbrev pub better : Option DomainCursor → SequencedEvent → Option DomainCursor
better none event = some (record { sequence = event.sequence; slot = get_or event.slot 0 })
better (some best) event =
    if ltb best.sequence event.sequence
    then some (record { sequence = event.sequence; slot = get_or event.slot 0 })
    else some best

-- The events of the domain, reduced to the highest.
unfoldable pub highest : Domain → Option DomainCursor → List SequencedEvent → Option DomainCursor
highest domain best [] = best
highest domain best (event ∷ events) =
    highest domain (if same_domain event.domain domain then better best event else best) events

-- `if (highest && (!next[domain] || highest.sequence > next[domain]!.sequence))`
abbrev pub raise : Domain → Option DomainCursor → Option DomainCursor → Tracker → Tracker
raise domain none old next = next
raise domain (some high) none next = with_cursor domain high next
raise domain (some high) (some old) next =
    if ltb old.sequence high.sequence then with_cursor domain high next else next

abbrev pub seed_domain : Domain → List SequencedEvent → Tracker → Tracker
seed_domain domain events next =
    raise domain (highest domain none events) (cursor_of domain next) next

unfoldable pub seed_from_snapshot : Tracker → List SequencedEvent → Tracker
seed_from_snapshot state events = seed_domain er events (seed_domain l1 events state)
