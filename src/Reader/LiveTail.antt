-- ===== src/Reader/LiveTail.antt =====
-- packages/bam-reader/src/loop/live-tail.ts, with `commitBlock` of discovery/cursor.ts, whose callers
-- pass no writes. The chain client and the clock do not change during a tick. What a tick wrote before
-- a throw stays, so the database and the counters come with every result.
pub mod Runs
pub mod Window
pub mod Events
pub mod Parking
pub mod CatchUp
use bam.Prelude.{
  ℕ, ◌+◌, ◌-◌, Bool, true, false, not, ◌&&◌, ◌||◌, List, [], ◌∷◌, ◌++◌, Option, none, some, max,
  ltb, ◌==◌, if◌then◌else◌, length,
}
use bam.Prelude.{Text, Result, ok, err}
use bam.Prelude.Sort.{sort_by}
use bam.Poster.Policy.{is_empty}
use bam.Store.{Db, StoreError}
use bam.Store.Tables.{ReaderCursorRow}
use bam.Store.Cursor.{get_cursor, set_cursor}
use bam.Reader.LogScan.{BlobBatchRegisteredEvent, FetchRange, ScanError, scan_logs}
use bam.Reader.ProcessBatch.{
  ReaderCounters, ReaderError, ProcessBatchOptions, Outcome, batch_decoded, unreachable,
  decode_failed, range_rejected, process_batch,
}
use bam.Reader.Reorg.{BlockSource, reorg_tick}

pub record BlockHeader : Type 0 where
  pub parent_beacon_block_root : Option Text
  pub timestamp_unix_sec : ℕ

-- The options. `services` holds what `buildProcessOpts` passes on for every event; `get_block_header`
-- is `none` where it throws.
pub record LiveTailOptions : Type 0 where
  pub chain_id : ℕ
  pub reorg_window_blocks : ℕ
  pub start_block : ℕ
  pub log_scan_chunk_blocks : ℕ
  pub fetch_range : FetchRange
  pub source : BlockSource
  pub get_block_header : ℕ → Option BlockHeader
  pub services : ProcessBatchOptions
  pub now : ℕ

pub data TickError : Type 0 where
  scan_failed : ScanError → TickError
  header_failed : TickError
  batch_failed : ReaderError → TickError
  reorg_failed : StoreError → TickError

abbrev pub Groups : Type 0
Groups = List (ℕ × List BlobBatchRegisteredEvent)

unfoldable pub add_to_group : BlobBatchRegisteredEvent → Groups → Groups
add_to_group e [] = (e.block_number, e ∷ []) ∷ []
add_to_group e ((b, es) ∷ gs) =
    let rest = add_to_group e gs in
    if b == e.block_number then (b, es ++ (e ∷ [])) ∷ gs else (b, es) ∷ rest

-- `groupByBlock`: the entries of the map, from those of `out` on.
unfoldable pub group_by_block : Groups → List BlobBatchRegisteredEvent → Groups
unfolding add_to_group
group_by_block out [] = out
group_by_block out (e ∷ es) = group_by_block (add_to_group e out) es

-- The entries in the order of `sortedBlocks`.
unfoldable pub sorted_groups : List BlobBatchRegisteredEvent → Groups
unfolding group_by_block sort_by
sorted_groups events =
    sort_by (λ (a b : ℕ × List BlobBatchRegisteredEvent). ltb a.0 b.0) (group_by_block [] events)

-- `buildProcessOpts`
abbrev pub build_process_opts :
    LiveTailOptions → BlobBatchRegisteredEvent → BlockHeader → ProcessBatchOptions
build_process_opts opts event header = record opts.services {
  event = event;
  parent_beacon_block_root = header.parent_beacon_block_root;
  l1_included_at_unix_sec = some header.timestamp_unix_sec;
  chain_id = opts.chain_id;
}

unfoldable pub is_unreachable : Outcome → Bool
is_unreachable batch_decoded = false
is_unreachable unreachable = true
is_unreachable decode_failed = false
is_unreachable range_rejected = false

abbrev pub Ran : Type 0 → Type 0
Ran A = Db × ReaderCounters × Result TickError A

-- The loop over a block's events: `maxTxIndex`, and whether one was unreachable.
unfoldable pub process_events :
    LiveTailOptions
    → BlockHeader
    → List BlobBatchRegisteredEvent
    → ℕ
    → Bool
    → Db
    → ReaderCounters
    → Ran (ℕ × Bool)
unfolding process_batch is_unreachable
process_events opts header [] max_tx_index has_transient db counters =
    (db, counters, ok (max_tx_index, has_transient))
process_events opts header (e ∷ es) max_tx_index has_transient db counters =
    let out = process_batch (build_process_opts opts e header) db counters in
    elim out.1 [
      | err x ↦ (db, out.0, err (batch_failed x))
      | ok (r, db') ↦
          process_events opts header es (max max_tx_index r.tx_index)
            (has_transient || is_unreachable r.outcome) db' out.0
    ]

-- `commitBlock`
abbrev pub commit_block : LiveTailOptions → ℕ → ℕ → Db → Db
commit_block opts block_number last_tx_index db =
    set_cursor
      (record {
        chain_id = opts.chain_id;
        last_block_number = block_number;
        last_tx_index = last_tx_index;
        updated_at = opts.now;
      })
      db

-- `processed`, `lastCommittedBlock` and `blockedByTransient` after the loop.
pub record Progress : Type 0 where
  pub processed : ℕ
  pub last_committed_block : Option ℕ
  pub blocked_by_transient : Bool

-- `blockEvents.sort((a, b) => a.logIndex - b.logIndex)`
abbrev pub by_log_index : List BlobBatchRegisteredEvent → List BlobBatchRegisteredEvent
by_log_index = sort_by (λ (a b : BlobBatchRegisteredEvent). ltb a.log_index b.log_index)

-- The loop over the blocks, from `progress` on.
unfoldable pub process_blocks :
    LiveTailOptions → Groups → Progress → Db → ReaderCounters → Ran Progress
unfolding process_events set_cursor sort_by
process_blocks opts [] progress db counters = (db, counters, ok progress)
process_blocks opts ((block_number, es) ∷ gs) progress db counters =
    elim (opts.get_block_header block_number) [
      | none ↦ (db, counters, err header_failed)
      | some header ↦
          let run = process_events opts header (by_log_index es) 0 false db counters in
          elim run.2 [
            | err x ↦ (run.0, run.1, err x)
            | ok (max_tx_index, has_transient) ↦
                let next : Progress = record {
                  processed = progress.processed + length es;
                  last_committed_block = some block_number;
                  blocked_by_transient = false;
                } in
                let parked : Ran Progress =
                  (run.0, counters, ok (record progress { blocked_by_transient = true })) in
                let rest =
                  process_blocks opts gs next (commit_block opts block_number max_tx_index run.0)
                    run.1 in
                if has_transient then parked else rest
          ]
    ]

unfoldable pub last_key : Groups → Option ℕ
last_key [] = none
last_key (g ∷ gs) = elim (last_key gs) [ none ↦ some g.0 | some b ↦ some b ]

-- `lastCommittedBlock === sortedBlocks[sortedBlocks.length - 1]`
unfoldable pub same_block : Option ℕ → Option ℕ → Bool
same_block none b = false
same_block (some a) none = false
same_block (some a) (some b) = a == b

-- The advance to `toBlock` after the loop.
unfoldable pub catch_up : LiveTailOptions → Groups → ℕ → Progress → Db → Db
unfolding last_key same_block set_cursor is_empty
catch_up opts groups to_block progress db =
    let all_events_committed =
      not progress.blocked_by_transient
      && (is_empty groups || same_block progress.last_committed_block (last_key groups)) in
    let behind : Bool = elim progress.last_committed_block [
      | none ↦ true
      | some b ↦ ltb b to_block
    ] in
    if all_events_committed && behind then commit_block opts to_block 0 db else db

pub record TickResult : Type 0 where
  pub from_block : ℕ
  pub to_block : ℕ
  pub scanned : ℕ
  pub processed : ℕ
  pub reorged_count : ℕ
  pub kept_count : ℕ

-- `cursor ? cursor.lastBlockNumber + 1 : opts.startBlock`
unfoldable pub from_block_of : LiveTailOptions → Db → ℕ
unfolding get_cursor
from_block_of opts db = elim (get_cursor opts.chain_id db) [
  | none ↦ opts.start_block
  | some cursor ↦ cursor.last_block_number + 1
]

-- The tick on the events of a scan, up to the watcher.
unfoldable pub follow :
    LiveTailOptions → ℕ → List BlobBatchRegisteredEvent → Db → ReaderCounters → Ran Progress
unfolding sorted_groups process_blocks catch_up
follow opts to_block events db counters =
    let groups = sorted_groups events in
    let start : Progress = record {
      processed = 0;
      last_committed_block = none;
      blocked_by_transient = false;
    } in
    let run = process_blocks opts groups start db counters in
    elim run.2 [
      | err x ↦ (run.0, run.1, err x)
      | ok progress ↦ (catch_up opts groups to_block progress run.0, run.1, ok progress)
    ]

-- `liveTailTick`
unfoldable pub live_tail_tick : LiveTailOptions → Db → ReaderCounters → Ran TickResult
unfolding from_block_of scan_logs follow reorg_tick
live_tail_tick opts db counters =
    let from_block = from_block_of opts db in
    let to_block = opts.source.head - opts.reorg_window_blocks in
    let result : ℕ → ℕ → ℕ × ℕ → TickResult = λ scanned processed watch. record {
      from_block = from_block;
      to_block = to_block;
      scanned = scanned;
      processed = processed;
      reorged_count = watch.0;
      kept_count = watch.1;
    } in
    if ltb opts.source.head (from_block + opts.reorg_window_blocks)
    then (db, counters, ok (result 0 0 (0, 0)))
    else elim (scan_logs opts.fetch_range (some opts.log_scan_chunk_blocks) from_block to_block) [
      | err e ↦ (db, counters, err (scan_failed e))
      | ok events ↦
          let run = follow opts to_block events db counters in
          elim run.2 [
            | err x ↦ (run.0, run.1, err x)
            | ok progress ↦
                let watch =
                  reorg_tick opts.source opts.chain_id (some opts.reorg_window_blocks) opts.now
                    run.0 in
                elim watch.1 [
                  | err e ↦ (watch.0, run.1, err (reorg_failed e))
                  | ok counts ↦
                      (watch.0, run.1, ok (result (length events) progress.processed counts))
                ]
          ]
    ]
