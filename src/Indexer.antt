-- ===== src/Indexer.antt =====
-- Ordered ingestion of events: `IndexerRepository` of workers/src/repositories.ts and
-- `MarketIndexer` of workers/src/indexer-service.ts.
--
-- The state is that of one market and one domain, except that the ids of events are unique over
-- all of them. The store of snapshots and the fetcher of authoritative ones are not under the
-- indexer's control: what a fetch returns is an argument. No other writer comes between the
-- statements of `append`, so that the contention it checks for does not arise. The times of
-- observation are checked and not kept. A resnapshot comes after `append` has checked the market's name.
pub mod Agreement
use Prim.Native.String.{String}
use text.Mathlib.Text.{◌==◌ as str_eq}
use equinox.Prelude.{
  ℕ, ◌+◌, Bool, true, false, Option, none, some, ◌&&◌, ◌||◌, not, leb, ◌==◌, if◌then◌else◌,
  max_safe_integer, get_or,
}
use equinox.Store.{is_identifier}
use equinox.Stream.{
  MarketEvent, MarketSnapshot, StreamState, Published, applied, duplicate, gap, invalid,
  constraint_failed, publish, Replaced, accepted, invalid_snapshot, stale_snapshot,
  replace_snapshot,
}

pub record Cursor : Type 0 where
  pub sequence : ℕ
  pub slot : ℕ

-- The tables indexed_events (its primary key), indexer_cursors and market_snapshots.
pub record Index : Type 0 where
  pub present : String → Bool
  pub cursor : Option Cursor
  pub snapshot : Option MarketSnapshot

pub data IndexedWrite : Type 0 where
  written repeated rejected : IndexedWrite
  missed : ℕ → IndexedWrite

abbrev pub sequence_of : Option Cursor → ℕ
sequence_of none = 0
sequence_of (some c) = c.sequence

abbrev pub with_event : String → (String → Bool) → String → Bool
with_event id present j = str_eq id j || present j

-- `rejected` is a throw.
unfoldable pub append : String → Index → ℕ → MarketEvent → (now : ℕ) → IndexedWrite × Index
append market index slot event now =
    if not (
      is_identifier market
      && (is_identifier event.id
          && (leb event.sequence max_safe_integer
              && (leb slot max_safe_integer && leb now max_safe_integer))))
    then (rejected, index)
    else if event.sequence == 0
    then (rejected, index)
    else if index.present event.id
    then (repeated, index)
    else if not (event.sequence == sequence_of index.cursor + 1)
    then (missed (sequence_of index.cursor + 1), index)
    else (
      written,
      record index {
        present = with_event event.id index.present;
        cursor = some (record { sequence = event.sequence; slot = slot });
      },
    )

-- `replaceSnapshot` after its checks: both rows are written, whatever stood there.
unfoldable pub store_snapshot : Index → MarketSnapshot → ℕ → Index
store_snapshot index snapshot slot = record index {
  cursor = some (record { sequence = snapshot.sequence; slot = slot });
  snapshot = some snapshot;
}

-- What the fetcher returns: the sequence and slot of its reading, the snapshot with the time at which
-- it was captured, and whether it names the market and the domain that were asked for.
pub record Replacement : Type 0 where
  pub sequence : ℕ
  pub slot : ℕ
  pub snapshot : MarketSnapshot
  pub captured_at : ℕ
  pub same_market : Bool

pub record Pipeline : Type 0 where
  pub index : Index
  pub stream : StreamState

pub data IndexResult : Type 0 where
  was_applied was_duplicate resnapshotted thrown : IndexResult

abbrev pub replacement_checked : Replacement → Bool
replacement_checked r =
    r.same_market
    && (r.snapshot.sequence == r.sequence
        && (leb r.sequence max_safe_integer
            && (leb r.slot max_safe_integer && leb r.captured_at max_safe_integer)))

abbrev pub published_snapshot : Index → Replaced → StreamState → IndexResult × Pipeline
published_snapshot index accepted stream =
    (resnapshotted, record { index = index; stream = stream })
published_snapshot index _ stream = (thrown, record { index = index; stream = stream })

unfoldable pub resnapshot : Pipeline → Option Replacement → IndexResult × Pipeline
unfolding store_snapshot
resnapshot p none = (thrown, p)
resnapshot p (some r) =
    let replaced = replace_snapshot p.stream r.snapshot in
    if not (replacement_checked r)
    then (thrown, p)
    else published_snapshot (store_snapshot p.index r.snapshot r.slot) replaced.0 replaced.1

abbrev pub after_publish : Pipeline → Option Replacement → Published → IndexResult × Pipeline
after_publish p fetched applied = (was_applied, p)
after_publish p fetched duplicate = (was_applied, p)
after_publish p fetched gap = resnapshot p fetched
after_publish p fetched invalid = (thrown, p)
after_publish p fetched constraint_failed = (thrown, p)

abbrev pub after_append :
    Pipeline → MarketEvent → Option Replacement → IndexedWrite → Index → IndexResult × Pipeline
after_append p event fetched written index =
    let published = publish p.stream event in
    after_publish (record { index = index; stream = published.1 }) fetched published.0
after_append p event fetched repeated index = (was_duplicate, p)
after_append p event fetched (missed expected) index = resnapshot p fetched
after_append p event fetched rejected index = (thrown, p)

-- An event with its slot and its time of observation; `fetched` is what the snapshot fetcher
-- returns, if it is asked; `none` is a throw.
unfoldable pub ingest :
    String
    → Pipeline
    → MarketEvent
    → Option ℕ
    → (observed_at : ℕ) → Option Replacement
    → IndexResult × Pipeline
ingest market p event slot observed_at fetched =
    let appended = append market p.index (get_or slot 0) event observed_at in
    after_append p event fetched appended.0 appended.1
