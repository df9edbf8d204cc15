-- ===== src/Tests/TailRuns.antt =====
-- Runs of the live tail and of the reader's watcher.
use bam.Prelude.{
  false, ◌+◌, ◌≡◌, refl, arith, List, [], ◌∷◌, map, some, none, length, ok, err, Result, All, ◌===◌,
  if◌then◌else◌,
}
use bam.Store.{BatchRow, Db}
use bam.Reader.LogScan.{BlobBatchRegisteredEvent}
use bam.Reader.ProcessBatch.{empty_counters}
use bam.Reader.Reorg.{BlockSource, candidates, reorg_tick}
use bam.Reader.Reorg.Sweep.{swept, count_gone, count_kept, reorg_tick-swept}
use bam.Reader.LiveTail.{LiveTailOptions, Progress, Ran, TickError, follow}
use bam.Reader.LiveTail.Window.{candidates-follow}
use bam.Reader.LiveTail.Parking.{cursor_block}
use bam.Reader.LiveTail.CatchUp.{follow-cursor_block}
use bam.Tests.StoreRuns.{empty_db, batch, with_batch}
use bam.Tests.ProcessRuns.{event, reader}

-- The chain has lost every transaction but one.
abbrev source : BlockSource
source = record {
  head = 80;
  transaction_block = λ h. if h === event.tx_hash then some 70 else none;
}

-- No source has a blob.
abbrev tail : LiveTailOptions
tail = record {
  chain_id = 1;
  reorg_window_blocks = 4;
  start_block = 10;
  log_scan_chunk_blocks = 100;
  fetch_range = λ from_block to_block. ok [];
  source = source;
  get_block_header = λ b. some (record { parent_beacon_block_root = none; timestamp_unix_sec = b });
  services = record reader { fetch_blob = λ h root. none };
  now = 5;
}

-- The range of the first is refused, and the second is unreachable.
abbrev events : List BlobBatchRegisteredEvent
events = record event { block_number = 60; start_fe = some 9 } ∷ event ∷ []

abbrev progress_of : Result TickError Progress → Progress
progress_of (ok p) = p
progress_of (err e) = record {
  processed = 0;
  last_committed_block = none;
  blocked_by_transient = false;
}

follow-cursor_block_example :
    cursor_block tail (follow tail 76 events empty_db empty_counters).0 ≡ some 60
unfolding follow bam.Reader.LiveTail.Parking.committed
follow-cursor_block_example =
    follow-cursor_block tail 76 events empty_db empty_counters
      (progress_of (follow tail 76 events empty_db empty_counters).2)
      (omega arith, (omega arith, tt)) refl

-- A batch in block 76, which is the head less the window; the store has one in block 7.
abbrev last_events : List BlobBatchRegisteredEvent
last_events = record event { block_number = 76 } ∷ []

abbrev window_candidates : List BatchRow
window_candidates =
    candidates source 1 (some 4) (follow tail 76 last_events with_batch empty_counters).0

one_candidate : map (λ (b : BatchRow). b.block_number) window_candidates ≡ some 76 ∷ []
unfolding follow candidates bam.Prelude.lower_unit
one_candidate = refl

candidates-follow_example : All (λ (b : BatchRow). b.block_number ≡ some 76) window_candidates
candidates-follow_example =
    candidates-follow tail 76 last_events with_batch empty_counters (omega arith) (omega arith)
      (omega arith) (omega arith, tt)
      (λ on_chain n e. let same : 7 ≡ n = cc in omega (arith, same), tt)

-- A batch in block 76 whose transaction the chain has lost.
abbrev recent_db : Db
recent_db = record with_batch { batches = record batch { block_number = some 76 } ∷ [] }

one_gone : count_gone source (candidates source 1 none recent_db) ≡ 1
unfolding count_gone candidates
one_gone = refl

reorg_tick-swept_example :
    (reorg_tick source 1 none 5 recent_db ≡ (
      swept source 1 5 (candidates source 1 none recent_db) recent_db,
      ok (
        count_gone source (candidates source 1 none recent_db),
        count_kept source (candidates source 1 none recent_db),
      ),
    ))
    × (count_gone source (candidates source 1 none recent_db)
          + count_kept source (candidates source 1 none recent_db)
        ≡ length (candidates source 1 none recent_db))
reorg_tick-swept_example = reorg_tick-swept source 1 none 5 recent_db
