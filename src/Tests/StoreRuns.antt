-- ===== src/Tests/StoreRuns.antt =====
-- The store's and the ingest's theorems at concrete inputs.
use bam.Prelude.{
  ℕ, ◌≡◌, refl, arith, ap, Bool, true, false, List, [], ◌∷◌, Option, none, some, Text,
  to_lower_case, Result, ok, err, ◌⊎◌,
}
use bam.Prelude.{length}
use bam.Poster.Ingest.{IngestPipelineOptions, SubmitResult, stale_nonce, ingest_txn}
use bam.Poster.Ingest.Nonces.{IsRetry, IsFresh, ingest_txn-accepted}
use bam.Store.{
  Db, MessageRow, BatchRow, BatchStatus, batch_confirmed, StoreError, StoreTxnPendingRow, pending,
  confirmed, find_row, insert_pending, mark_reorged, upsert_observed,
}
use bam.Store.Keys.{IsUnique}
use bam.Store.Steps.{Step, done, then_step, pending_inserted, marked_reorged, Steps-IsUnique}
use bam.Store.Lifecycle.{StaysFinal, Step-StaysFinal}
use bam.Poster.Ingest.NextNonce.{
  get_next_nonce, check_monotonicity-get_next_nonce, get_next_nonce_untracked,
}
use bam.Poster.Ingest.{accept, reject, check_monotonicity}
use bam.Store.{NonceTrackerRow}
use bam.Prelude.{◌≢◌}
use bam.Tests.Data.{message_a, sender_a, sender_b, tag_a, signature}

abbrev pub empty_db : Db
empty_db = record { messages = []; batches = []; nonces = []; tag_seq = []; reader_cursor = [] }

abbrev pub db_of : Result StoreError Db → Db
db_of (ok db) = db
db_of (err e) = empty_db

abbrev row_b : StoreTxnPendingRow
row_b = record {
  content_tag = tag_a;
  sender = sender_b;
  nonce = 1;
  contents = [];
  signature = signature;
  message_hash = 1 ∷ [];
  chain_id = 1;
  ingested_at = 5;
  ingest_seq = 1;
}

abbrev pub confirmed_a : MessageRow
confirmed_a = record {
  message_id = none;
  sender = sender_a;
  nonce = 2;
  content_tag = tag_a;
  contents = [];
  signature = signature;
  message_hash = 2 ∷ [];
  status = confirmed;
  batch_ref = some (9 ∷ []);
  chain_id = some 1;
  ingested_at = none;
  ingest_seq = none;
  block_number = some 7;
  tx_index = some 0;
  message_index_within_batch = some 0;
}

abbrev pub batch : BatchRow
batch = record {
  tx_hash = 9 ∷ [];
  chain_id = 1;
  content_tag = tag_a;
  blob_versioned_hash = 3 ∷ [];
  batch_content_hash = 3 ∷ [];
  block_number = some 7;
  tx_index = some 0;
  status = batch_confirmed;
  replaced_by_tx_hash = none;
  submitted_at = none;
  invalidated_at = none;
  submitter = some sender_b;
  l1_included_at_unix_sec = none;
  message_snapshot = [];
}

abbrev pub with_batch : Db
with_batch = record {
  messages = confirmed_a ∷ [];
  batches = batch ∷ [];
  nonces = [];
  tag_seq = [];
  reader_cursor = [];
}

unfoldable after_insert : Db
unfolding insert_pending
after_insert = db_of (insert_pending row_b with_batch)

unfoldable after_reorg : Db
unfolding mark_reorged after_insert
after_reorg = db_of (mark_reorged 1 (9 ∷ []) 50 after_insert)

inserted-Step : Step with_batch after_insert
unfolding after_insert bam.Prelude.lower_unit
inserted-Step = pending_inserted {a = with_batch} {b = after_insert} row_b refl

reorged-Step : Step after_insert after_reorg
unfolding after_reorg bam.Prelude.lower_unit
reorged-Step = marked_reorged {a = after_insert} {b = after_reorg} 1 (9 ∷ []) 50 refl

-- An insertion and a reorg.
Steps-IsUnique_example : IsUnique after_reorg.messages
unfolding find_row
Steps-IsUnique_example =
    Steps-IsUnique with_batch after_reorg (then_step (then_step done inserted-Step) reorged-Step)
      (refl, tt)

Step-StaysFinal_example : StaysFinal sender_a 2 confirmed_a after_insert after_reorg
unfolding after_insert bam.Prelude.lower_unit bam.Store.is_confirmed
Step-StaysFinal_example =
    Step-StaysFinal {a = after_insert} {b = after_reorg} sender_a 2 confirmed_a reorged-Step
      (refl, (refl, tt)) refl refl

abbrev ingest_options : IngestPipelineOptions
ingest_options = record {
  validator = record { validate = λ d. none; recover_signer = none };
  rate_limit = record { window_ms = 1000; max_per_window = 2 };
  allowlisted_tags = tag_a ∷ [];
  max_message_size_bytes = 1000;
  max_contents_size_bytes = 500;
  chain_id = 1;
  parse_envelope = λ raw. none;
  compute_message_hash = λ s t n c. none;
}

abbrev ingested : Result StoreError (Db × SubmitResult) → Db
ingested (ok r) = r.0
ingested (err e) = empty_db

ingest_txn-accepted_example :
    IsRetry message_a with_batch (ingested (ingest_txn ingest_options 10 message_a with_batch)) []
    ⊎ IsFresh ingest_options 10 message_a with_batch
        (ingested (ingest_txn ingest_options 10 message_a with_batch))
        []
unfolding ingest_txn bam.Prelude.lower_unit
ingest_txn-accepted_example =
    ingest_txn-accepted ingest_options 10 message_a with_batch
      (ingested (ingest_txn ingest_options 10 message_a with_batch)) [] refl

abbrev tracked_a : NonceTrackerRow
tracked_a = record { sender = sender_a; last_nonce = 2; last_message_hash = 2 ∷ [] }

abbrev tracked_db : Db
tracked_db = record with_batch { nonces = (sender_a, tracked_a) ∷ [] }

check_monotonicity-get_next_nonce_example :
    check_monotonicity sender_a (get_next_nonce sender_a tracked_db) (5 ∷ []) tracked_db
    ≡ ok (tracked_db, accept)
unfolding get_next_nonce bam.Prelude.lower_unit
check_monotonicity-get_next_nonce_example =
    check_monotonicity-get_next_nonce sender_a (5 ∷ []) tracked_db tracked_a refl

abbrev seeded_db : Db
seeded_db = record with_batch { nonces = (sender_a, tracked_a) ∷ [] }

get_next_nonce_untracked_example :
    (get_next_nonce sender_a with_batch ≡ 0) × (reject stale_nonce ≢ accept)
unfolding get_next_nonce check_monotonicity bam.Prelude.lower_unit
get_next_nonce_untracked_example =
    get_next_nonce_untracked sender_a (5 ∷ []) with_batch seeded_db confirmed_a (reject stale_nonce)
      refl refl refl
