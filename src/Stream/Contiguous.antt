-- ===== src/Stream/Contiguous.antt =====
-- The events that a stream holds are exactly those after its snapshot, with no gap.
use equinox.Prelude.{ℕ, ◌+◌, ◌≤◌, ◌≡◌, refl, Option, none, some, List, [], ◌∷◌, ◌++◌, arith}
use equinox.Stream.{
  MarketEvent, MarketSnapshot, StreamState, publish, delete_through, replace_snapshot,
}

-- The events are numbered one by one from the number after `n`, and end at `last`.
abbrev pub RunsFrom : ℕ → List MarketEvent → ℕ → Type 0
RunsFrom n [] last = n ≡ last
RunsFrom n (e ∷ es) last = (e.sequence ≡ n + 1) × RunsFrom e.sequence es last

abbrev pub base : Option MarketSnapshot → ℕ
base none = 0
base (some s) = s.sequence

-- The stream is contiguous: from its snapshot to its sequence every event is there, once and in
-- order.
abbrev pub IsContiguous : StreamState → Type 0
IsContiguous s = RunsFrom (base s.snapshot) s.events s.sequence

RunsFrom-append :
    (n last : ℕ) (es : List MarketEvent) (e : MarketEvent)
    → RunsFrom n es last
    → e.sequence ≡ last + 1
    → RunsFrom n (es ++ (e ∷ [])) e.sequence
RunsFrom-append n last [] e h k = (omega arith, refl)
RunsFrom-append n last (x ∷ es) e h k = (h.0, RunsFrom-append x.sequence last es e h.1 k)

RunsFrom-le : (n last : ℕ) (es : List MarketEvent) → RunsFrom n es last → n ≤ last
RunsFrom-le n last [] h = omega arith
RunsFrom-le n last (x ∷ es) h = omega (arith, h.0, RunsFrom-le x.sequence last es h.1)

delete_through-all :
    (n m last : ℕ) (es : List MarketEvent)
    → RunsFrom n es last
    → last ≤ m
    → delete_through m es ≡ []
unfolding delete_through
delete_through-all n m last [] h k = refl
delete_through-all n m last (x ∷ es) h k =
    ground
      (arith, RunsFrom-le x.sequence last es h.1, delete_through-all x.sequence m last es h.1 k)

-- A call on the stream.
pub data Call : Type 0 where
  publishes : MarketEvent → Call
  replaces : MarketSnapshot → Call

abbrev pub perform : Call → StreamState → StreamState
perform (publishes e) s = (publish s e).1
perform (replaces n) s = (replace_snapshot s n).1

abbrev pub perform_all : List Call → StreamState → StreamState
perform_all [] s = s
perform_all (c ∷ cs) s = perform_all cs (perform c s)

perform-IsContiguous : (c : Call) (s : StreamState) → IsContiguous s → IsContiguous (perform c s)
unfolding publish replace_snapshot
perform-IsContiguous (publishes e) s h =
    ground (arith, RunsFrom-append (base s.snapshot) s.sequence s.events e h)
perform-IsContiguous (replaces n) s h =
    ground (arith, delete_through-all (base s.snapshot) n.sequence s.sequence s.events h)

-- Whatever is published and whatever snapshots arrive, in any order, refused calls included, the
-- stream that a client is sent holds every event from its snapshot to its sequence.
pub perform_all-IsContiguous :
    (cs : List Call) (s : StreamState) → IsContiguous s → IsContiguous (perform_all cs s)
perform_all-IsContiguous [] s h = h
perform_all-IsContiguous (c ∷ cs) s h =
    perform_all-IsContiguous cs (perform c s) (perform-IsContiguous c s h)
