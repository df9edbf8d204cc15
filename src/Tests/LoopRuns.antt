-- ===== src/Tests/LoopRuns.antt =====
-- A tick of the poster's loop on a store with one pending message, and its watcher on one whose batch
-- is gone.
use bam.Prelude.{[], ◌∷◌, some, none, length, replicate, ◌%◌}
use bam.Store.{Db, MessageRow, pending}
use bam.Poster.Aggregator.{initial_state}
use bam.Poster.Recording.{AggregatorLoopOptions, included}
use bam.Poster.Loop.{LoopState, loop_tick}
use bam.Prelude.{◌≡◌, false, map, All, refl}
use bam.Store.Queries.{list_messages}
use bam.Poster.Reorg.{attached_query, reorg_batch_and_requeue}
use bam.Poster.Reorg.Requeued.{IsQueued, reorg_batch_and_requeue-IsQueued}
use bam.Poster.Loop.Settled.{TickEffect, loop_tick-TickEffect}
use bam.Tests.Data.{message_a, tag_a, options, signature}
use bam.Tests.StoreRuns.{empty_db, db_of, batch, with_batch}

abbrev row_a : MessageRow
row_a = record {
  message_id = none;
  sender = message_a.sender;
  nonce = message_a.nonce;
  content_tag = tag_a;
  contents = message_a.contents;
  signature = signature;
  message_hash = [];
  status = pending;
  batch_ref = none;
  chain_id = some 1;
  ingested_at = some 100;
  ingest_seq = some 1;
  block_number = none;
  tx_index = none;
  message_index_within_batch = none;
}

abbrev db : Db
db = record empty_db { messages = row_a ∷ [] }

-- Whatever is packed, the message is included.
abbrev loop : AggregatorLoopOptions
loop = record {
  chain_id = 1;
  aggregator = options;
  build_and_submit_multi = λ pack. included (record {
    tx_hash = 9 ∷ [];
    block_number = 70;
    tx_index = 0;
    blob_versioned_hash = [];
    submitter = [];
    entries =
        record { content_tag = tag_a; start_fe = 0; end_fe = 4; messages = message_a ∷ [] } ∷ [];
  });
  backoff = record {
    base_ms = 100;
    cap_ms = 1000;
    degraded_after_attempts = 2;
    unhealthy_after_attempts = 4;
  };
  now = 1000;
  reorg_window_blocks = 32;
  keccak_256 = λ bs. replicate 32 (length bs % 256);
}

abbrev state : LoopState
state = record {
  aggregator = initial_state;
  attempts = 0;
  permanently_stopped = false;
  last_packed_tx_hash = none;
  last_packed_tag_count = 0;
}

loop_tick-TickEffect_example :
    TickEffect loop db (loop_tick loop state db).1 (loop_tick loop state db).2
loop_tick-TickEffect_example = loop_tick-TickEffect loop state db

abbrev requeued : Db
requeued = db_of (reorg_batch_and_requeue 1 5 batch with_batch)

-- The confirmed message of the batch waits again.
requeued_status : map (λ (m : MessageRow). m.status) requeued.messages ≡ pending ∷ []
unfolding reorg_batch_and_requeue bam.Prelude.lower_unit
requeued_status = refl

reorg_batch_and_requeue-IsQueued_example :
    All (IsQueued requeued) (list_messages (attached_query batch) with_batch)
unfolding reorg_batch_and_requeue bam.Prelude.lower_unit
reorg_batch_and_requeue-IsQueued_example =
    reorg_batch_and_requeue-IsQueued 1 5 batch with_batch requeued (refl, tt)
      ((refl, λ attached. refl), tt) refl
