-- ===== src/Examples/Streams.antt =====
-- The client's tracker and the Worker's stream on a few events.
use Prim.Native.String.{String}
use equinox.Prelude.{ℕ, ◌+◌, ◌≡◌, refl, true, none, some, List, [], ◌∷◌, arith}
use equinox.Recovery.{Tracker, SequencedEvent, er, advance_sequence, cursor_of}
use equinox.Recovery.Laws.{run, total, run_accounts, last_seen}
use equinox.Stream.{MarketEvent, empty_state, StreamState, Socket, publish, ack}
use equinox.Stream.Sockets.{Traffic, broadcasts, privately, receives}
use equinox.Stream.Contiguous.{
  publishes, replaces, perform_all, IsContiguous, perform_all-IsContiguous,
}

abbrev at : ℕ → SequencedEvent
at n = record { domain = er; sequence = n; slot = none }

abbrev tracker : Tracker
tracker = record { l1 = none; er = some (record { sequence = 4; slot = 10 }) }

run_accounts_example :
    last_seen (cursor_of er (run tracker (at 5 ∷ at 9 ∷ at 7 ∷ [])))
    ≡ 4 + total er tracker (at 5 ∷ at 9 ∷ at 7 ∷ [])
unfolding advance_sequence
run_accounts_example = run_accounts er tracker (at 5 ∷ at 9 ∷ at 7 ∷ []) tt (ground arith)

abbrev event : String → ℕ → MarketEvent
event id n = record { id = id; sequence = n; body = "{}" }

perform_all-IsContiguous_example : IsContiguous (
    perform_all
      (publishes (event "a" 1)
        ∷ publishes (event "c" 3)
        ∷ replaces (record { sequence = 3; body = "{}" })
        ∷ publishes (event "d" 4)
        ∷ [])
      empty_state)
perform_all-IsContiguous_example =
    perform_all-IsContiguous
      (publishes (event "a" 1)
        ∷ publishes (event "c" 3)
        ∷ replaces (record { sequence = 3; body = "{}" })
        ∷ publishes (event "d" 4)
        ∷ [])
      empty_state refl

abbrev owner : Socket
owner = record { pending = 0; private = some (record { wallet = "w"; seat_index = 3 }) }

abbrev traffic : List Traffic
traffic =
    broadcasts true
    ∷ receives ack
    ∷ privately "w" 3 true
    ∷ privately "w" 4 true
    ∷ broadcasts true
    ∷ []

abbrev one_published : StreamState
one_published = (publish empty_state (event "a" 1)).1

abbrev synced : Tracker
synced = record { l1 = none; er = some (record { sequence = 1; slot = 0 }) }
