-- ===== src/Poster/Loop.antt =====
-- packages/bam-poster/src/submission/aggregator-loop.ts: what the loop does in a tick. The submission
-- (`buildAndSubmitMulti`) is an option, as in the source, and the clock is read once. The state of the
-- loop comes with every result, since a throw keeps it; a transaction that throws leaves the database
-- as it was.
pub mod Settled
use bam.Prelude.{
  ℕ, ◌+◌, ◌-◌, Bool, true, false, List, [], ◌∷◌, map, Option, none, some, if◌then◌else◌, length,
  ◌||◌, not, ◌&&◌,
}
use bam.Prelude.{Bytes, Text, ◌===◌, to_lower_case, Result, ok, err, ◌>>=◌}
use bam.Prelude.TextMap.{TextMap, lookup, insert}
use bam.Sdk.Errors.{SdkError}
use bam.Sdk.Message.{compute_message_id}
use bam.Store.{
  StoreError, MessageRow, confirmed, BatchRow, batch_confirmed, batch_reorged, Db,
  StoreTxnPendingRow, get_by_sender_nonce, upsert_observed,
}
use bam.Store.Tables.{BatchMessageSnapshotEntry}
use bam.Store.Batches.{BatchUpdate, upsert_batch, update_batch_status}
use bam.Store.Queries.{BatchesQuery, list_batches, list_pending_by_tag}
use bam.Poster.Types.{DecodedMessage, PoolView}
use bam.Poster.Policy.{is_empty}
use bam.Poster.Aggregator.{AggregatorOptions, AggregatorState, PackResult, TickError, tick}
use bam.Poster.Backoff.{BackoffConfig, HealthState, unhealthy, record_attempt, health_from_attempts}
use bam.Poster.Recording.{
  PackedSubmitIncludedEntry, Inclusion, PackedSubmitOutcome, AggregatorLoopOptions, LoopError,
  store_result, id_result, entry_id, entry_snapshot, entry_batch, confirmed_row, confirm_found,
  confirm_messages, has_hash, overlaps, replaced_by, chain_batch, chain_reorged, reorged_query,
  record_entry, record_entries, included, retryable, permanent, store_failed, tick_failed,
  id_failed,
}

pub record LoopState : Type 0 where
  pub aggregator : AggregatorState
  pub attempts : ℕ
  pub permanently_stopped : Bool
  pub last_packed_tx_hash : Option Text
  pub last_packed_tag_count : ℕ

pub data LoopOutcome : Type 0 where
  idle success retry stopped : LoopOutcome

-- `healthState`
unfoldable pub health_state : BackoffConfig → LoopState → HealthState
unfolding health_from_attempts
health_state config state =
    if state.permanently_stopped then unhealthy else health_from_attempts config state.attempts

-- `pendingRowToDecoded`
abbrev pub pending_row_to_decoded : StoreTxnPendingRow → DecodedMessage
pending_row_to_decoded row = record {
  sender = row.sender;
  nonce = row.nonce;
  contents = row.contents;
  content_tag = row.content_tag;
  signature = row.signature;
  message_hash = row.message_hash;
  ingested_at = some row.ingested_at;
}

-- Step 1: the pools of the tags.
unfoldable pub pool_map : List Text → Db → Result LoopError (TextMap (List DecodedMessage))
unfolding list_pending_by_tag insert
pool_map [] db = ok []
pool_map (tag ∷ tags) db = do
  rows ← store_result (list_pending_by_tag tag none none db)
  rest ← pool_map tags db
  ok (insert tag (map pending_row_to_decoded rows) rest)

abbrev pub pool_view : TextMap (List DecodedMessage) → PoolView
pool_view pools tag = elim (lookup tag pools) [ none ↦ [] | some ms ↦ ms ]

abbrev pub LoopRan : Type 0
LoopRan = LoopState × Db × Result LoopError LoopOutcome

-- Step 3 and what follows it, on a pack that includes something.
unfoldable pub submit_pack : AggregatorLoopOptions → PackResult → LoopState → Db → LoopRan
unfolding record_entries record_attempt
submit_pack opts pack state db = elim (opts.build_and_submit_multi pack) [
  | included o ↦ elim (record_entries opts o o.entries db) [
    | err e ↦ (state, db, err e)
    | ok db' ↦ (
      record state {
        last_packed_tx_hash = some o.tx_hash;
        last_packed_tag_count = length o.entries;
        attempts = record_attempt true state.attempts;
      },
      db',
      ok success,
    )
  ]
  | retryable detail ↦
      (record state { attempts = record_attempt false state.attempts }, db, ok retry)
  | permanent detail ↦ (
    record state { attempts = record_attempt false state.attempts; permanently_stopped = true },
    db,
    ok stopped,
  )
]

-- Step 2, on the pools.
unfoldable pub aggregate :
    AggregatorLoopOptions → TextMap (List DecodedMessage) → LoopState → Db → LoopRan
unfolding tick submit_pack is_empty lookup
aggregate opts pools state db =
    let run = tick opts.aggregator (pool_view pools) opts.now state.aggregator in
    let state' : LoopState = record state { aggregator = run.0 } in
    elim run.1 [
      | err e ↦ (state', db, err (tick_failed e))
      | ok none ↦ (state', db, ok idle)
      | ok (some pack) ↦
          if is_empty pack.plan.included
          then (state', db, ok idle)
          else submit_pack opts pack state' db
    ]

-- `AggregatorLoop.tick`
unfoldable pub loop_tick : AggregatorLoopOptions → LoopState → Db → LoopRan
unfolding pool_map aggregate
loop_tick opts state db =
    if state.permanently_stopped
    then (state, db, ok stopped)
    else elim (pool_map opts.aggregator.tags db) [
      | err e ↦ (state, db, err e)
      | ok pools ↦ aggregate opts pools state db
    ]
