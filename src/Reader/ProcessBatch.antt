-- ===== src/Reader/ProcessBatch.antt =====
-- packages/bam-reader/src/loop/process-batch.ts: what the reader does with one registered batch. The
-- calls that the source lets its caller replace (`fetchBlob`, `decode`, `verifyMessage`) are fields of
-- the options, as there; a fetch that throws counts as one that returns null. The counters are the
-- first component of the result, since the source mutates them even when it throws later.
pub mod Loops
pub mod Runs
pub mod Safety
use bam.Prelude.{
  ℕ, ◌+◌, ◌*◌, Bool, true, false, List, [], ◌∷◌, Option, none, some, if◌then◌else◌, ◌==◌, take,
}
use bam.Prelude.{Bytes, Text, Result, ok, err, ◌>>=◌}
use bam.Sdk.Errors.{SdkError}
use bam.Sdk.Batch.{BamMessage}
use bam.Sdk.Blob.{Blob, extract_segment_bytes, field_elements_per_blob}
use bam.Sdk.Message.{compute_message_hash_for_message, compute_message_id}
use bam.Store.{
  StoreError, different_message_hash, nonce_out_of_range, duplicate_message, no_batch, rows_updated,
  null_ingest_metadata, MessageRow, confirmed, BatchRow, batch_confirmed, Db, upsert_observed,
}
use bam.Store.Tables.{BatchMessageSnapshotEntry}
use bam.Store.Batches.{upsert_batch}
use bam.Reader.LogScan.{BlobBatchRegisteredEvent}
use bam.Reader.Decode.{DecodeError, Decoded, validate_segment_range}

pub record ReaderCounters : Type 0 where
  pub decoded : ℕ
  pub skipped_decode : ℕ
  pub skipped_verify : ℕ
  pub skipped_conflict : ℕ
  pub undecodable : ℕ
  pub skipped_range : ℕ

-- `emptyCounters`
abbrev pub empty_counters : ReaderCounters
empty_counters = record {
  decoded = 0;
  skipped_decode = 0;
  skipped_verify = 0;
  skipped_conflict = 0;
  undecodable = 0;
  skipped_range = 0;
}

-- What `processBatch` is given, the store and the counters apart. `verify_message` has the registry,
-- the message, the tag, the signature and the chain. `aborted_attempts` are the attempts of the
-- writing transaction that the database aborts for a serialization failure before the one that
-- commits: for each, how many entries it reached, and the database that it saw.
pub record ProcessBatchOptions : Type 0 where
  pub event : BlobBatchRegisteredEvent
  pub parent_beacon_block_root : Option Text
  pub l1_included_at_unix_sec : Option ℕ
  pub chain_id : ℕ
  pub fetch_blob : Text → Option Text → Option Blob
  pub decode : Text → Bytes → Result DecodeError Decoded
  pub verify_message : Text → BamMessage → Text → Bytes → ℕ → Bool
  pub keccak_256 : Bytes → Bytes
  pub aborted_attempts : BlobBatchRegisteredEvent → List (ℕ × Db)

pub data Outcome : Type 0 where
  batch_decoded unreachable decode_failed range_rejected : Outcome

pub record ProcessBatchResult : Type 0 where
  pub tx_index : ℕ
  pub block_number : ℕ
  pub outcome : Outcome
  pub messages_written : ℕ

-- What `processBatch` throws; the last two are for a message whose signature the decoder did not
-- return, and for a transaction that was aborted too often.
pub data ReaderError : Type 0 where
  sdk_failed : SdkError → ReaderError
  store_failed : StoreError → ReaderError
  missing_signature : ReaderError
  serialization_failed : ReaderError

abbrev pub sdk {ℓ} : {A : Type ℓ} → Result SdkError A → Result ReaderError A
sdk (ok a) = ok a
sdk (err e) = err (sdk_failed e)

-- `isConflictError`
unfoldable pub is_conflict_error : StoreError → Bool
is_conflict_error different_message_hash = true
is_conflict_error nonce_out_of_range = false
is_conflict_error (duplicate_message sender nonce) = false
is_conflict_error no_batch = false
is_conflict_error (rows_updated listed updated) = false
is_conflict_error null_ingest_metadata = false

pub record VerifiedEntry : Type 0 where
  pub message : BamMessage
  pub signature : Bytes
  pub index_within_batch : ℕ
  pub message_hash : Text

-- The options' event, with the defaults of its range.
abbrev pub start_of : BlobBatchRegisteredEvent → ℕ
start_of e = elim e.start_fe [ none ↦ 0 | some n ↦ n ]

abbrev pub end_of : BlobBatchRegisteredEvent → ℕ
end_of e = elim e.end_fe [ none ↦ field_elements_per_blob | some n ↦ n ]

-- `verify({ registryAddress, message, … })` of the loop.
abbrev pub passes : ProcessBatchOptions → BamMessage → Bytes → Bool
passes opts m sig =
    opts.verify_message opts.event.signature_registry m opts.event.content_tag sig opts.chain_id

-- The loop that verifies, from message `i` on: the skips that it counts, and the entries.
unfoldable pub verify_messages :
    ProcessBatchOptions
    → ℕ
    → List BamMessage
    → List Bytes
    → ℕ × Result ReaderError (List VerifiedEntry)
unfolding compute_message_hash_for_message
verify_messages opts i [] sigs = (0, ok [])
verify_messages opts i (m ∷ ms) sigs =
    elim (compute_message_hash_for_message opts.keccak_256 m opts.event.content_tag) [
      | err e ↦ (0, err (sdk_failed e))
      | ok message_hash ↦ elim sigs [
        | [] ↦ (0, err missing_signature)
        | sig ∷ rest_sigs ↦
            let rest = verify_messages opts (i + 1) ms rest_sigs in
            let v : VerifiedEntry = record {
              message = m;
              signature = sig;
              index_within_batch = i;
              message_hash = message_hash;
            } in
            if passes opts m sig
            then (rest.0, rest.1 >>= λ vs. ok (v ∷ vs))
            else (1 + rest.0, rest.1)
      ]
    ]

-- `computeMessageId` on an entry.
unfoldable pub message_id_of : ProcessBatchOptions → VerifiedEntry → Result ReaderError Text
unfolding compute_message_id
message_id_of opts v = sdk (
    compute_message_id opts.keccak_256 v.message.sender opts.event.content_tag v.message.nonce
      opts.event.versioned_hash)

unfoldable pub snapshot_of :
    ProcessBatchOptions → List VerifiedEntry → Result ReaderError (List BatchMessageSnapshotEntry)
unfolding message_id_of
snapshot_of opts [] = ok []
snapshot_of opts (v ∷ vs) = do
  message_id ← message_id_of opts v
  rest ← snapshot_of opts vs
  let entry : BatchMessageSnapshotEntry = record {
    sender = v.message.sender;
    nonce = v.message.nonce;
    message_id = message_id;
    message_index_within_batch = v.index_within_batch;
    message_hash = v.message_hash;
  }
  ok (entry ∷ rest)

abbrev pub base_batch : ProcessBatchOptions → BatchRow
base_batch opts = record {
  tx_hash = opts.event.tx_hash;
  chain_id = opts.chain_id;
  content_tag = opts.event.content_tag;
  blob_versioned_hash = opts.event.versioned_hash;
  batch_content_hash = opts.event.versioned_hash;
  block_number = some opts.event.block_number;
  tx_index = some opts.event.tx_index;
  status = batch_confirmed;
  replaced_by_tx_hash = none;
  submitted_at = none;
  invalidated_at = none;
  submitter = some opts.event.submitter;
  l1_included_at_unix_sec = opts.l1_included_at_unix_sec;
  message_snapshot = [];
}

-- The row of an entry.
abbrev pub row_of : ProcessBatchOptions → VerifiedEntry → Text → MessageRow
row_of opts v message_id = record {
  message_id = some message_id;
  sender = v.message.sender;
  nonce = v.message.nonce;
  content_tag = opts.event.content_tag;
  contents = v.message.contents;
  signature = v.signature;
  message_hash = v.message_hash;
  status = confirmed;
  batch_ref = some opts.event.tx_hash;
  chain_id = some opts.chain_id;
  ingested_at = none;
  ingest_seq = none;
  block_number = some opts.event.block_number;
  tx_index = some opts.event.tx_index;
  message_index_within_batch = some v.index_within_batch;
}

-- The loop that writes: the conflicts that it counts, the database and `written`.
unfoldable pub write_verified :
    ProcessBatchOptions → List VerifiedEntry → Db → ℕ × Result ReaderError (Db × ℕ)
unfolding message_id_of upsert_observed is_conflict_error
write_verified opts [] db = (0, ok (db, 0))
write_verified opts (v ∷ vs) db = elim (message_id_of opts v) [
  | err e ↦ (0, err e)
  | ok message_id ↦ elim (upsert_observed (row_of opts v message_id) db) [
    | ok db' ↦ let rest = write_verified opts vs db' in (rest.0, rest.1 >>= λ r. ok (r.0, r.1 + 1))
    | err e ↦
        let rest = write_verified opts vs db in
        if is_conflict_error e then (1 + rest.0, rest.1) else (0, err (store_failed e))
  ]
]

abbrev pub max_retries : ℕ
max_retries = 5

-- `withTxn` around the writes of the batch and its entries, from attempt number `attempt` on. What an
-- aborted attempt wrote is undone, but not what it counted.
unfoldable pub with_txn :
    ProcessBatchOptions
    → BatchRow
    → List VerifiedEntry
    → Db
    → ℕ
    → List (ℕ × Db)
    → ℕ × Result ReaderError (Db × ℕ)
unfolding write_verified upsert_batch
with_txn opts batch verified db attempt [] = write_verified opts verified (upsert_batch batch db)
with_txn opts batch verified db attempt ((reached, seen) ∷ aborted) =
    let run = write_verified opts (take reached verified) (upsert_batch batch seen) in
    let later = with_txn opts batch verified db (attempt + 1) aborted in
    elim run.1 [
      | err e ↦ (run.0, err e)
      | ok _ ↦
          if attempt == max_retries
          then (run.0, err serialization_failed)
          else (run.0 + later.0, later.1)
    ]

-- The result with an outcome and a number of messages written.
abbrev pub result_of : ProcessBatchOptions → Outcome → ℕ → ProcessBatchResult
result_of opts outcome written = record {
  tx_index = opts.event.tx_index;
  block_number = opts.event.block_number;
  outcome = outcome;
  messages_written = written;
}

abbrev pub ProcessOutput : Type 0
ProcessOutput = ReaderCounters × Result ReaderError (ProcessBatchResult × Db)

-- Step 4, on the entries: the snapshot, then the transaction.
unfoldable pub store_verified :
    ProcessBatchOptions → List VerifiedEntry → Db → ReaderCounters → ProcessOutput
unfolding snapshot_of with_txn
store_verified opts verified db counters = elim (snapshot_of opts verified) [
  | err e ↦ (counters, err e)
  | ok snapshot ↦
      let batch : BatchRow = record (base_batch opts) { message_snapshot = snapshot } in
      let run = with_txn opts batch verified db 0 (opts.aborted_attempts opts.event) in
      let after : ReaderCounters = record counters {
        skipped_conflict = counters.skipped_conflict + run.0;
      } in
      elim run.1 [
        | err e ↦ (after, err e)
        | ok (db', written) ↦ (
          record after { decoded = counters.decoded + written },
          ok (result_of opts batch_decoded written, db'),
        )
      ]
]

-- Steps 3 and 4, on what was decoded.
unfoldable pub process_decoded : ProcessBatchOptions → Decoded → Db → ReaderCounters → ProcessOutput
unfolding verify_messages store_verified
process_decoded opts (messages, signatures) db counters =
    let run = verify_messages opts 0 messages signatures in
    let after : ReaderCounters = record counters {
      skipped_verify = counters.skipped_verify + run.0;
    } in
    elim run.1 [ err e ↦ (after, err e) | ok verified ↦ store_verified opts verified db after ]

-- Step 2, on the bytes of the blob.
unfoldable pub process_blob : ProcessBatchOptions → Blob → Db → ReaderCounters → ProcessOutput
unfolding extract_segment_bytes process_decoded upsert_batch
process_blob opts blob db counters =
    elim (extract_segment_bytes blob (start_of opts.event) (end_of opts.event)) [
      | err e ↦ (counters, err (sdk_failed e))
      | ok usable_bytes ↦ elim (opts.decode opts.event.decoder usable_bytes) [
        | err e ↦ (
          record counters { skipped_decode = counters.skipped_decode + 1 },
          ok (result_of opts decode_failed 0, upsert_batch (base_batch opts) db),
        )
        | ok messages ↦ process_decoded opts messages db counters
      ]
    ]

-- `processBatch`
unfoldable pub process_batch : ProcessBatchOptions → Db → ReaderCounters → ProcessOutput
unfolding validate_segment_range process_blob upsert_batch
process_batch opts db counters =
    elim (validate_segment_range (start_of opts.event) (end_of opts.event)) [
      | err reason ↦ (
        record counters { skipped_range = counters.skipped_range + 1 },
        ok (result_of opts range_rejected 0, db),
      )
      | ok _ ↦ elim (opts.fetch_blob opts.event.versioned_hash opts.parent_beacon_block_root) [
        | none ↦ (
          record counters { undecodable = counters.undecodable + 1 },
          ok (result_of opts unreachable 0, upsert_batch (base_batch opts) db),
        )
        | some blob ↦ process_blob opts blob db counters
      ]
    ]
