-- ===== src/Poster/Recording.antt =====
-- packages/bam-poster/src/submission/aggregator-loop.ts: what the loop writes when a pack is included,
-- entry by entry, and the batches that it replaces.
use bam.Prelude.{ℕ, ◌+◌, ◌-◌, Bool, false, List, [], ◌∷◌, Option, none, some, if◌then◌else◌, ◌||◌}
use bam.Prelude.{Bytes, Text, ◌===◌, to_lower_case, Result, ok, err, ◌>>=◌}
use bam.Sdk.Errors.{SdkError}
use bam.Sdk.Message.{compute_message_id}
use bam.Store.{
  StoreError, MessageRow, confirmed, BatchRow, batch_confirmed, batch_reorged, Db,
  get_by_sender_nonce, upsert_observed,
}
use bam.Store.Tables.{BatchMessageSnapshotEntry}
use bam.Store.Batches.{BatchUpdate, upsert_batch, update_batch_status}
use bam.Store.Queries.{BatchesQuery, list_batches}
use bam.Poster.Types.{DecodedMessage}
use bam.Poster.Aggregator.{AggregatorOptions, PackResult, TickError}
use bam.Poster.Backoff.{BackoffConfig}

pub record PackedSubmitIncludedEntry : Type 0 where
  pub content_tag : Text
  pub start_fe : ℕ
  pub end_fe : ℕ
  pub messages : List DecodedMessage

pub record Inclusion : Type 0 where
  pub tx_hash : Text
  pub block_number : ℕ
  pub tx_index : ℕ
  pub blob_versioned_hash : Text
  pub submitter : Text
  pub entries : List PackedSubmitIncludedEntry

pub data PackedSubmitOutcome : Type 0 where
  included : Inclusion → PackedSubmitOutcome
  retryable permanent : Text → PackedSubmitOutcome

pub record AggregatorLoopOptions : Type 0 where
  pub chain_id : ℕ
  pub aggregator : AggregatorOptions
  pub build_and_submit_multi : PackResult → PackedSubmitOutcome
  pub backoff : BackoffConfig
  pub now : ℕ
  pub reorg_window_blocks : ℕ
  pub keccak_256 : Bytes → Bytes

pub data LoopError : Type 0 where
  store_failed : StoreError → LoopError
  tick_failed : TickError → LoopError
  id_failed : SdkError → LoopError

-- An error under the loop's name for it.
abbrev pub store_result : {A : Type 0} → Result StoreError A → Result LoopError A
store_result (ok a) = ok a
store_result (err e) = err (store_failed e)

abbrev pub id_result : Result SdkError Text → Result LoopError Text
id_result (ok a) = ok a
id_result (err e) = err (id_failed e)

abbrev pub entry_id :
    AggregatorLoopOptions → Inclusion → Text → DecodedMessage → Result LoopError Text
entry_id opts o content_tag m =
    id_result
      (compute_message_id opts.keccak_256 m.sender content_tag m.nonce o.blob_versioned_hash)

-- The snapshot of an entry, from message `i` on.
unfoldable pub entry_snapshot :
    AggregatorLoopOptions
    → Inclusion
    → Text
    → ℕ
    → List DecodedMessage
    → Result LoopError (List BatchMessageSnapshotEntry)
unfolding compute_message_id
entry_snapshot opts o content_tag i [] = ok []
entry_snapshot opts o content_tag i (m ∷ ms) = do
  message_id ← entry_id opts o content_tag m
  rest ← entry_snapshot opts o content_tag (i + 1) ms
  let entry : BatchMessageSnapshotEntry = record {
    sender = m.sender;
    nonce = m.nonce;
    message_id = message_id;
    message_index_within_batch = i;
    message_hash = m.message_hash;
  }
  ok (entry ∷ rest)

abbrev pub entry_batch :
    AggregatorLoopOptions → Inclusion → Text → List BatchMessageSnapshotEntry → BatchRow
entry_batch opts o content_tag snapshot = record {
  tx_hash = o.tx_hash;
  chain_id = opts.chain_id;
  content_tag = content_tag;
  blob_versioned_hash = o.blob_versioned_hash;
  batch_content_hash = o.blob_versioned_hash;
  block_number = some o.block_number;
  tx_index = some o.tx_index;
  status = batch_confirmed;
  replaced_by_tx_hash = none;
  submitted_at = some opts.now;
  invalidated_at = none;
  submitter = some o.submitter;
  l1_included_at_unix_sec = none;
  message_snapshot = snapshot;
}

-- The row that confirms a message, which keeps the ingest's columns of the row that is there.
abbrev pub confirmed_row :
    AggregatorLoopOptions → Inclusion → Text → ℕ → DecodedMessage → MessageRow → Text → MessageRow
confirmed_row opts o content_tag i m row message_id = record {
  message_id = some message_id;
  sender = m.sender;
  nonce = m.nonce;
  content_tag = content_tag;
  contents = m.contents;
  signature = m.signature;
  message_hash = m.message_hash;
  status = confirmed;
  batch_ref = some o.tx_hash;
  chain_id = some opts.chain_id;
  ingested_at = row.ingested_at;
  ingest_seq = row.ingest_seq;
  block_number = some o.block_number;
  tx_index = some o.tx_index;
  message_index_within_batch = some i;
}

-- The body of the loop over an entry's messages, on the row that `getBySenderNonce` found.
unfoldable pub confirm_found :
    AggregatorLoopOptions
    → Inclusion
    → Text
    → ℕ
    → DecodedMessage
    → Option MessageRow
    → Db
    → Result LoopError Db
unfolding compute_message_id upsert_observed
confirm_found opts o content_tag i m none db = ok db
confirm_found opts o content_tag i m (some row) db = do
  message_id ← entry_id opts o content_tag m
  store_result (upsert_observed (confirmed_row opts o content_tag i m row message_id) db)

unfoldable pub confirm_messages :
    AggregatorLoopOptions → Inclusion → Text → ℕ → List DecodedMessage → Db → Result LoopError Db
unfolding get_by_sender_nonce confirm_found
confirm_messages opts o content_tag i [] db = ok db
confirm_messages opts o content_tag i (m ∷ ms) db = do
  found ← store_result (get_by_sender_nonce m.sender m.nonce db)
  db' ← confirm_found opts o content_tag i m found db
  confirm_messages opts o content_tag (i + 1) ms db'

-- `includedHashSet.has(m.messageHash.toLowerCase())`
unfoldable pub has_hash : List BatchMessageSnapshotEntry → Text → Bool
unfolding ◌===◌ to_lower_case
has_hash [] hash = false
has_hash (e ∷ es) hash =
    let rest = has_hash es hash in (to_lower_case e.message_hash === to_lower_case hash) || rest

unfoldable pub overlaps : List BatchMessageSnapshotEntry → List BatchMessageSnapshotEntry → Bool
unfolding has_hash
overlaps snapshot [] = false
overlaps snapshot (m ∷ ms) =
    let rest = overlaps snapshot ms in has_hash snapshot m.message_hash || rest

-- `{ replacedByTxHash: outcome.txHash }`
abbrev pub replaced_by : Inclusion → BatchUpdate
replaced_by o = record {
  block_number = none;
  tx_index = none;
  replaced_by_tx_hash = some (some o.tx_hash);
  invalidated_at = none;
}

-- The body of the loop over the reorged batches.
unfoldable pub chain_batch :
    Inclusion → List BatchMessageSnapshotEntry → BatchRow → Db → Result StoreError Db
unfolding overlaps update_batch_status
chain_batch o snapshot b db = elim b.replaced_by_tx_hash [
  | some h ↦ ok db
  | none ↦
      if overlaps snapshot b.message_snapshot
      then update_batch_status b.chain_id b.tx_hash b.content_tag batch_reorged (replaced_by o) db
      else ok db
]

unfoldable pub chain_reorged :
    Inclusion → List BatchMessageSnapshotEntry → List BatchRow → Db → Result LoopError Db
unfolding chain_batch
chain_reorged o snapshot [] db = ok db
chain_reorged o snapshot (b ∷ bs) db =
    store_result (chain_batch o snapshot b db) >>= λ db'. chain_reorged o snapshot bs db'

abbrev pub reorged_query : AggregatorLoopOptions → Inclusion → Text → BatchesQuery
reorged_query opts o content_tag = record {
  content_tag = some content_tag;
  chain_id = some opts.chain_id;
  status = some batch_reorged;
  since_block = some (o.block_number - opts.reorg_window_blocks);
  since_included_at_unix_sec = none;
  limit = none;
}

-- The body of the loop over the entries.
unfoldable pub record_entry :
    AggregatorLoopOptions → Inclusion → PackedSubmitIncludedEntry → Db → Result LoopError Db
unfolding entry_snapshot upsert_batch confirm_messages list_batches chain_reorged
record_entry opts o entry db = do
  snapshot ← entry_snapshot opts o entry.content_tag 0 entry.messages
  db' ←
      confirm_messages opts o entry.content_tag 0 entry.messages
        (upsert_batch (entry_batch opts o entry.content_tag snapshot) db)
  chain_reorged o snapshot (list_batches (reorged_query opts o entry.content_tag) db') db'

unfoldable pub record_entries :
    AggregatorLoopOptions → Inclusion → List PackedSubmitIncludedEntry → Db → Result LoopError Db
unfolding record_entry
record_entries opts o [] db = ok db
record_entries opts o (entry ∷ entries) db =
    record_entry opts o entry db >>= λ db'. record_entries opts o entries db'
