-- ===== src/Indexer/Agreement.antt =====
-- The index and the stream agree after an ingestion, whatever they held before.
use Prim.Native.String.{String}
use equinox.Prelude.{get_or, ℕ, ◌+◌, ◌≤◌, ◌≡◌, Option, none, some, arith, true, false}
use equinox.Stream.{MarketEvent, publish, replace_snapshot}
use equinox.Indexer.{
  Pipeline, Replacement, IndexResult, was_applied, was_duplicate, resnapshotted, thrown, append,
  resnapshot, ingest, sequence_of,
}

-- What each result promises of the index's cursor and the stream.
abbrev pub Promised : Pipeline → MarketEvent → IndexResult → Pipeline → Type 0
Promised p e was_applied q =
    (sequence_of p.index.cursor + 1 ≡ e.sequence)
    × (sequence_of q.index.cursor ≡ e.sequence)
    × (e.sequence ≤ q.stream.sequence)
Promised p e was_duplicate q = q ≡ p
Promised p e resnapshotted q =
    (sequence_of q.index.cursor ≡ q.stream.sequence)
    × (q.stream.resynchronizing ≡ false)
    × (q.stream.snapshot ≡ q.index.snapshot)
Promised p e thrown q = p.stream.sequence ≤ q.stream.sequence

resnapshot-Promised :
    (p₀ p : Pipeline) (e : MarketEvent) (fetched : Option Replacement)
    → p₀.stream.sequence ≤ p.stream.sequence
    → Promised p₀ e (resnapshot p fetched).0 (resnapshot p fetched).1
unfolding resnapshot replace_snapshot
resnapshot-Promised p₀ p e none h = h
resnapshot-Promised p₀ p e (some r) h = ground arith

-- Whatever the index and the stream held, and however far apart they were: an applied event is the
-- next one of the index, its cursor stands there, and the stream has it or something later; a
-- duplicate changes nothing; after a resnapshot the cursor, the stream and both snapshots agree;
-- and where it throws, the stream has not gone back.
pub ingest-Promised :
    (market : String) (p : Pipeline) (e : MarketEvent) (slot : Option ℕ) (observed_at : ℕ)
    (fetched : Option Replacement)
    → let (r, q) = ingest market p e slot observed_at fetched in Promised p e r q
unfolding ingest append publish
ingest-Promised market p e slot observed_at fetched = ground (
  arith,
  resnapshot-Promised p p e fetched,
  resnapshot-Promised p
      (record {
        index = (append market p.index (get_or slot 0) e observed_at).1;
        stream = record p.stream { resynchronizing = true };
      })
      e fetched,
)
