-- ===== src/Stream/Sockets.antt =====
-- What sockets and clients are sent.
use Prim.Native.String.{String}
use text.Mathlib.TextEquality.{eq_iff}
use equinox.Prelude.{ℕ, ◌≤◌, ◌≡◌, ◌≢◌, ◌↔◌, Bool, Option, none, some, List, [], ◌∷◌, arith}
use equinox.Recovery.{SequencedEvent, Domain}
use equinox.Stream.{
  MarketEvent, PrivateContext, Socket, Delivery, sent, closed, passed_over, broadcast_to,
  publish_private_to, ClientMessage, web_socket_message,
}

-- What happens to a socket: a broadcast, whose send returns or throws, a private message for a
-- wallet and seat, or a message from the client.
pub data Traffic : Type 0 where
  broadcasts : Bool → Traffic
  privately : String → ℕ → Bool → Traffic
  receives : ClientMessage → Traffic

abbrev pub handle : Traffic → Socket → Delivery
handle (broadcasts ok) s = broadcast_to ok s
handle (privately wallet seat ok) s = publish_private_to wallet seat ok s
handle (receives m) s = web_socket_message m s

-- The socket after the traffic, `none` once it is closed.
abbrev pub after : Delivery → Socket → Option Socket
after (sent s') s = some s'
after passed_over s = some s
after (closed c) s = none

abbrev pub serve : List Traffic → Socket → Option Socket
serve [] s = some s
serve (t ∷ ts) s = elim (after (handle t s) s) [ none ↦ none | some s' ↦ serve ts s' ]

abbrev pub Within : Option PrivateContext → Option Socket → Type 0
Within context none = Unit
Within context (some s) = (s.pending ≤ 64) × (s.private ≡ context)

abbrev pub context_of : Socket → Option (String × ℕ)
context_of s = elim s.private [ none ↦ none | some c ↦ some (c.wallet, c.seat_index) ]

-- A private message is sent, or its failure closes the socket, exactly if the socket's verified
-- context is that wallet and that seat; every other socket is passed over.
pub private_only_to_owner :
    (wallet : String) (seat : ℕ) (delivers : Bool) (s : Socket)
    → (publish_private_to wallet seat delivers s ≢ passed_over)
      ↔ (context_of s ≡ some (wallet, seat))
unfolding publish_private_to
private_only_to_owner wallet seat delivers s = grind (arith, eq_iff)

-- The client's view of a delta: the event's sequence, with no slot.
abbrev pub as_sequenced : Domain → MarketEvent → SequencedEvent
as_sequenced d e = record { domain = d; sequence = e.sequence; slot = none }
