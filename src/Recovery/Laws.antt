-- ===== src/Recovery/Laws.antt =====
-- Cursors never go back, every sequence number is accounted for, and what a snapshot held is
-- never taken as new.
use Prim.Native.Nat.{max}
use equinox.Prelude.{
  ℕ, ◌+◌, ◌≤◌, ◌≡◌, refl, sym, subst, ◌≢◌, ◌⊎◌, inl, Bool, true, Option, none, some, List, [], ◌∷◌,
  ◌++◌, arith, if◌then◌else◌,
}
use equinox.Recovery.{
  first, in_order, duplicate, gap, slot_regression, Domain, l1, er, same_domain, DomainCursor,
  Tracker, SequencedEvent, Advance, cursor_of, advance_sequence, highest, raise, seed_domain,
  seed_from_snapshot, better,
}

-- The last sequence seen, 0 before any.
abbrev pub last_seen : Option DomainCursor → ℕ
last_seen none = 0
last_seen (some c) = c.sequence

abbrev pub last_slot : Option DomainCursor → ℕ
last_slot none = 0
last_slot (some c) = c.slot

-- How many sequence numbers an outcome accounts for: the event's own, and those missed.
abbrev pub accounted : Advance → ℕ
accounted a = elim a.outcome [
  | first ↦ 0
  | duplicate ↦ 0
  | in_order ↦ 1
  | gap ↦ a.missed + 1
  | slot_regression ↦ 0
]

pub data Input : Type 0 where
  delta : SequencedEvent → Input
  snapshot : List SequencedEvent → Input

abbrev pub receive : Tracker → Input → Tracker
receive t (delta e) = (advance_sequence t e).state
receive t (snapshot es) = seed_from_snapshot t es

abbrev pub receive_all : Tracker → List Input → Tracker
receive_all t [] = t
receive_all t (i ∷ is) = receive_all (receive t i) is

advance_monotone :
    (d : Domain) (t : Tracker) (e : SequencedEvent)
    → let t' = (advance_sequence t e).state in
      (last_seen (cursor_of d t) ≤ last_seen (cursor_of d t'))
      × (last_slot (cursor_of d t) ≤ last_slot (cursor_of d t'))
unfolding advance_sequence
advance_monotone l1 t e = ground arith
advance_monotone er t e = ground arith

raise_other :
    (d : Domain) (high old : Option DomainCursor) (t : Tracker)
    → last_seen (cursor_of d t) ≡ last_seen old
    → last_seen (cursor_of d (raise d high old t)) ≡ max (last_seen old) (last_seen high)
raise_other l1 high old t h = ground arith
raise_other er high old t h = ground arith

-- The highest sequence of a domain among the events, 0 if there is none.
abbrev pub maximum : Domain → List SequencedEvent → ℕ
maximum d [] = 0
maximum d (e ∷ es) = max (if same_domain e.domain d then e.sequence else 0) (maximum d es)

highest-maximum :
    (d : Domain) (best : Option DomainCursor) (es : List SequencedEvent)
    → last_seen (highest d best es) ≡ max (last_seen best) (maximum d es)
unfolding highest
highest-maximum d best [] = omega arith
highest-maximum d best (e ∷ es) =
    let best' = if same_domain e.domain d then better best e else best in
    ground (arith, highest-maximum d best' es)

cursor_of-seed_domain :
    (d d' : Domain) (es : List SequencedEvent) (t : Tracker)
    → last_seen (cursor_of d (seed_domain d' es t)) ≡ (
        if same_domain d' d
        then max (last_seen (cursor_of d t)) (maximum d es)
        else last_seen (cursor_of d t))
cursor_of-seed_domain l1 l1 es t = ground (arith, highest-maximum l1 none es)
cursor_of-seed_domain er er es t = ground (arith, highest-maximum er none es)
cursor_of-seed_domain l1 er es t = ground arith
cursor_of-seed_domain er l1 es t = ground arith

-- Seeding takes the maximum of what each domain's cursor was and the highest sequence of the
-- snapshot's events in that domain, in whatever order these come.
pub seed_from_snapshot-maximum :
    (d : Domain) (t : Tracker) (es : List SequencedEvent)
    → last_seen (cursor_of d (seed_from_snapshot t es))
      ≡ max (last_seen (cursor_of d t)) (maximum d es)
unfolding seed_from_snapshot
seed_from_snapshot-maximum l1 t es =
    omega (
      arith,
      cursor_of-seed_domain l1 er es (seed_domain l1 es t),
      cursor_of-seed_domain l1 l1 es t,
    )
seed_from_snapshot-maximum er t es =
    omega (
      arith,
      cursor_of-seed_domain er er es (seed_domain l1 es t),
      cursor_of-seed_domain er l1 es t,
    )

receive_monotone :
    (d : Domain) (t : Tracker) (i : Input)
    → last_seen (cursor_of d t) ≤ last_seen (cursor_of d (receive t i))
receive_monotone d t (delta e) = (advance_monotone d t e).0
receive_monotone d t (snapshot es) = omega (arith, seed_from_snapshot-maximum d t es)

-- Over any mixture of events and snapshots, late and repeated ones included, no domain's cursor
-- goes back.
pub receive_all_monotone :
    (d : Domain) (t : Tracker) (is : List Input)
    → last_seen (cursor_of d t) ≤ last_seen (cursor_of d (receive_all t is))
receive_all_monotone d t [] = omega arith
receive_all_monotone d t (i ∷ is) =
    omega (arith, receive_monotone d t i, receive_all_monotone d (receive t i) is)

abbrev pub IsPresent : Option DomainCursor → Type 0
IsPresent none = ⊥
IsPresent (some c) = Unit

highest-IsPresent :
    (d : Domain) (best : Option DomainCursor) (es : List SequencedEvent)
    → IsPresent best
    → IsPresent (highest d best es)
unfolding highest
highest-IsPresent d best [] h = h
highest-IsPresent d best (e ∷ es) h =
    highest-IsPresent d (if same_domain e.domain d then better best e else best) es (ground arith)

better-IsPresent : (best : Option DomainCursor) (e : SequencedEvent) → IsPresent (better best e)
better-IsPresent best e = ground arith

highest-of_split :
    (d : Domain) (best : Option DomainCursor) (pre : List SequencedEvent) (e : SequencedEvent)
    (post : List SequencedEvent)
    → same_domain e.domain d ≡ true
    → IsPresent (highest d best (pre ++ (e ∷ post))) × (e.sequence ≤ maximum d (pre ++ (e ∷ post)))
unfolding highest
highest-of_split d best [] e post h = (
  subst (λ (b : Bool). IsPresent (highest d (if b then better best e else best) post)) (sym h)
      (highest-IsPresent d (better best e) post (better-IsPresent best e)),
  ground arith,
)
highest-of_split d best (x ∷ pre) e post h =
    let rest =
      highest-of_split d (if same_domain x.domain d then better best x else best) pre e post h in
    (rest.0, omega (arith, rest.1))

raise-IsPresent :
    (d : Domain) (high old : Option DomainCursor) (t : Tracker)
    → cursor_of d t ≡ old
    → IsPresent high ⊎ IsPresent old
    → IsPresent (cursor_of d (raise d high old t))
raise-IsPresent l1 high old t e h = ground arith
raise-IsPresent er high old t e h = ground arith

seed_er-l1 : (es : List SequencedEvent) (t : Tracker) → (seed_domain er es t).l1 ≡ t.l1
seed_er-l1 es t = ground arith

seed-IsPresent :
    (d : Domain) (t : Tracker) (es : List SequencedEvent)
    → IsPresent (highest d none es)
    → IsPresent (cursor_of d (seed_from_snapshot t es))
unfolding seed_from_snapshot
seed-IsPresent l1 t es h =
    rw (seed_er-l1 es (seed_domain l1 es t))
      (raise-IsPresent l1 (highest l1 none es) t.l1 t refl (inl h))
seed-IsPresent er t es h =
    let t' = seed_domain l1 es t in raise-IsPresent er (highest er none es) t'.er t' refl (inl h)

old_is_duplicate :
    (t : Tracker) (e : SequencedEvent)
    → IsPresent (cursor_of e.domain t)
    → e.sequence ≤ last_seen (cursor_of e.domain t)
    → ((advance_sequence t e).outcome ≡ duplicate) × ((advance_sequence t e).state ≡ t)
unfolding advance_sequence
old_is_duplicate t e h k = ground arith

same_domain_refl : (d : Domain) → same_domain d d ≡ true
same_domain_refl l1 = refl
same_domain_refl er = refl

-- Any event of a snapshot, wherever it stood in it, is a duplicate when it is delivered after the
-- tracker was seeded from that snapshot, and changes nothing: a resync manufactures no gap.
pub snapshot_event_duplicate :
    (t : Tracker) (pre : List SequencedEvent) (e : SequencedEvent) (post : List SequencedEvent)
    → let t' = seed_from_snapshot t (pre ++ (e ∷ post)) in
      ((advance_sequence t' e).outcome ≡ duplicate) × ((advance_sequence t' e).state ≡ t')
snapshot_event_duplicate t pre e post =
    let es = pre ++ (e ∷ post) in
    let (present, le) = highest-of_split e.domain none pre e post (same_domain_refl e.domain) in
    old_is_duplicate (seed_from_snapshot t es) e (seed-IsPresent e.domain t es present)
      (omega (arith, le, seed_from_snapshot-maximum e.domain t es))

-- The sequence numbers that a run of events accounts for in one domain.
abbrev pub total : Domain → Tracker → List SequencedEvent → ℕ
total d t [] = 0
total d t (e ∷ es) =
    let a = advance_sequence t e in
    (if same_domain e.domain d then accounted a else 0) + total d a.state es

-- No event of the run reports a lower slot for a higher sequence.
abbrev pub IsHealthy : Tracker → List SequencedEvent → Type 0
IsHealthy t [] = Unit
IsHealthy t (e ∷ es) =
    ((advance_sequence t e).outcome ≢ slot_regression) × IsHealthy (advance_sequence t e).state es

abbrev pub run : Tracker → List SequencedEvent → Tracker
run t [] = t
run t (e ∷ es) = run (advance_sequence t e).state es

advance_accounts :
    (d : Domain) (t : Tracker) (e : SequencedEvent)
    → IsPresent (cursor_of d t)
    → (advance_sequence t e).outcome ≢ slot_regression
    → let a = advance_sequence t e in
      IsPresent (cursor_of d a.state)
      × (last_seen (cursor_of d a.state)
          ≡ last_seen (cursor_of d t) + (if same_domain e.domain d then accounted a else 0))
unfolding advance_sequence
advance_accounts l1 t e p h = ground arith
advance_accounts er t e p h = ground arith

-- Over a healthy run of events of both domains, each domain's cursor has moved by exactly the
-- events taken in order and those reported missed: none is lost count of or counted twice.
pub run_accounts :
    (d : Domain) (t : Tracker) (es : List SequencedEvent)
    → IsPresent (cursor_of d t)
    → IsHealthy t es
    → last_seen (cursor_of d (run t es)) ≡ last_seen (cursor_of d t) + total d t es
run_accounts d t [] p h = omega arith
run_accounts d t (e ∷ es) p h =
    let (p', step) = advance_accounts d t e p h.0 in
    omega (arith, step, run_accounts d (advance_sequence t e).state es p' h.1)
