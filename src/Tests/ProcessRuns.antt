-- ===== src/Tests/ProcessRuns.antt =====
-- Runs of the reader on two decoded messages.
use bam.Prelude.{
  ◌+◌, ◌%◌, ◌≡◌, refl, [], ◌∷◌, some, none, Text, length, replicate, Result, ok, err, ◌==◌,
}
use bam.Sdk.Blob.{zero_blob}
use bam.Store.{Db}
use bam.Reader.LogScan.{BlobBatchRegisteredEvent}
use bam.Reader.Decode.{zero_address}
use bam.Reader.ProcessBatch.{
  ProcessBatchOptions, ProcessBatchResult, ProcessOutput, ReaderError, batch_decoded, result_of,
  empty_counters, process_batch,
}
use bam.Reader.ProcessBatch.Loops.{WrittenAt, KeepsConfirmed}
use bam.Reader.ProcessBatch.Runs.{decoded_of}
use bam.Reader.ProcessBatch.Safety.{
  IsFrom, message_count_of, batch_skips, process_batch_accounts, process_batch-WrittenAt,
}
use bam.Tests.Data.{messages, signatures, sender_a}
use bam.Tests.StoreRuns.{empty_db, confirmed_a, with_batch}

-- `0x` and 64 times `1`.
abbrev tag : Text
tag = 48 ∷ 120 ∷ replicate 64 49

abbrev pub event : BlobBatchRegisteredEvent
event = record {
  block_number = 70;
  tx_index = 3;
  log_index = 0;
  tx_hash = 48 ∷ 120 ∷ replicate 64 50;
  versioned_hash = 48 ∷ 120 ∷ replicate 64 51;
  submitter = sender_a;
  content_tag = tag;
  decoder = zero_address;
  signature_registry = zero_address;
  start_fe = some 0;
  end_fe = some 1;
}

-- The signature of the message with nonce 5 is valid, the other is not.
abbrev pub reader : ProcessBatchOptions
reader = record {
  event = event;
  parent_beacon_block_root = none;
  l1_included_at_unix_sec = some 1000;
  chain_id = 1;
  fetch_blob = λ h root. some zero_blob;
  decode = λ addr bytes. ok (messages, signatures);
  verify_message = λ registry m t sig c. m.nonce == 5;
  keccak_256 = λ bs. replicate 32 (length bs % 256);
  aborted_attempts = λ e. [];
}

abbrev run : ProcessOutput
run = process_batch reader empty_db empty_counters

abbrev result : Result ReaderError (ProcessBatchResult × Db) → ProcessBatchResult × Db
result (ok r) = r
result (err e) = (result_of reader batch_decoded 0, empty_db)

run_ok : (process_batch reader empty_db empty_counters).1 ≡ ok (result run.1)
unfolding process_batch zero_blob bam.Sdk.Message.pack_prefix bam.Sdk.Hex.hex_to_bytes
    bam.Sdk.Hex.clean_hex bam.Sdk.Hex.all_hex bam.Sdk.Hex.is_hex_digit bam.Sdk.Hex.parse_pairs
run_ok = refl

process_batch_accounts_example :
    (run.0.decoded + run.0.skipped_verify + run.0.skipped_conflict
      ≡ 0 + message_count_of (decoded_of reader))
    × (run.0.skipped_range + run.0.undecodable + run.0.skipped_decode
        ≡ 0 + batch_skips (decoded_of reader))
    × (run.0.decoded ≡ 0 + (result run.1).0.messages_written)
process_batch_accounts_example =
    process_batch_accounts reader empty_db (result run.1).1 empty_counters (result run.1).0 refl
      run_ok

process_batch-WrittenAt_example :
    WrittenAt (IsFrom reader) reader sender_a 5 empty_db (result run.1).1
    × KeepsConfirmed empty_db (result run.1).1
process_batch-WrittenAt_example =
    process_batch-WrittenAt reader empty_db (result run.1).1 empty_counters (result run.1).0
      sender_a 5 run_ok

-- The message that passes is in conflict with a stored one, and the database aborts the first attempt
-- of the transaction after it reached the entry: the one conflict is counted twice.
abbrev conflict_db : Db
conflict_db = record with_batch {
  messages = record confirmed_a { sender = sender_a; nonce = 5 } ∷ [];
}

conflict_counted_twice :
    (process_batch
      (record reader { aborted_attempts = λ e. (1, conflict_db) ∷ [] })
      conflict_db
      empty_counters).0
    ≡ record empty_counters { skipped_verify = 1; skipped_conflict = 2 }
unfolding process_batch zero_blob bam.Sdk.Message.pack_prefix bam.Sdk.Hex.hex_to_bytes
    bam.Sdk.Hex.clean_hex bam.Sdk.Hex.all_hex bam.Sdk.Hex.is_hex_digit bam.Sdk.Hex.parse_pairs
    bam.Prelude.lower_unit bam.Sdk.Hex.bytes_to_hex
conflict_counted_twice = refl
