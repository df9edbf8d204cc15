-- ===== src/Reader/ProcessBatch/Runs.antt =====
-- packages/bam-reader/src/loop/process-batch.ts: its results, by outcome.
use bam.Prelude.{
  ℕ, ◌+◌, ◌==◌, ◌≡◌, refl, sym, ap, arith, take, List, [], ◌∷◌, Bool-cases, Option, none, some, ◌⊎◌,
  inl, inr,
}
use bam.Prelude.{Bytes, ok, err, Result-cases, Option-cases, ok-injective}
use bam.Sdk.Blob.{Blob, extract_segment_bytes}
use bam.Store.{BatchRow, Db}
use bam.Store.Tables.{BatchMessageSnapshotEntry}
use bam.Store.Batches.{upsert_batch}
use bam.Reader.Decode.{Decoded, validate_segment_range}
use bam.Reader.ProcessBatch.{
  ReaderCounters, ProcessBatchOptions, ProcessBatchResult, batch_decoded, unreachable,
  decode_failed, range_rejected, VerifiedEntry, verify_messages, snapshot_of, base_batch,
  write_verified, with_txn, max_retries, result_of, start_of, end_of, store_verified,
  process_decoded, process_blob, process_batch,
}
use bam.Reader.ProcessBatch.Loops.{
  IsVerified, VerifyRun, verify_messages-VerifyRun, WriteRun, write_verified-WriteRun,
}

-- What the range, the fetch and the decoder give, or `none`.
unfoldable pub decoded_of : ProcessBatchOptions → Option Decoded
unfolding extract_segment_bytes validate_segment_range
decoded_of opts = elim (validate_segment_range (start_of opts.event) (end_of opts.event)) [
  | err reason ↦ none
  | ok _ ↦ elim (opts.fetch_blob opts.event.versioned_hash opts.parent_beacon_block_root) [
    | none ↦ none
    | some blob ↦ elim (extract_segment_bytes blob (start_of opts.event) (end_of opts.event)) [
      | err e ↦ none
      | ok usable_bytes ↦ elim (opts.decode opts.event.decoder usable_bytes) [
        | err e ↦ none
        | ok decoded ↦ some decoded
      ]
    ]
  ]
]

pub decoded_of-some :
    (opts : ProcessBatchOptions) (blob : Blob) (bytes : Bytes) (d : Decoded)
    → validate_segment_range (start_of opts.event) (end_of opts.event) ≡ ok tt
    → opts.fetch_blob opts.event.versioned_hash opts.parent_beacon_block_root ≡ some blob
    → extract_segment_bytes blob (start_of opts.event) (end_of opts.event) ≡ ok bytes
    → opts.decode opts.event.decoder bytes ≡ ok d
    → decoded_of opts ≡ some d
unfolding decoded_of
decoded_of-some opts blob bytes d valid fetched sliced decoded =
    rw (valid, fetched, sliced, decoded, decoded_of) refl

abbrev pub batch_with : ProcessBatchOptions → List BatchMessageSnapshotEntry → BatchRow
batch_with opts snapshot = record (base_batch opts) { message_snapshot = snapshot }

-- The attempt that commits, and what the ones before it counted.
with_txn-committed :
    (opts : ProcessBatchOptions) (batch : BatchRow) (vs : List VerifiedEntry) (a : Db) (attempt : ℕ)
    (aborted : List (ℕ × Db)) (r : Db × ℕ)
    → (with_txn opts batch vs a attempt aborted).1 ≡ ok r
    → ((write_verified opts vs (upsert_batch batch a)).1 ≡ ok r)
      × (repeated : ℕ) × ((with_txn opts batch vs a attempt aborted).0
          ≡ repeated + (write_verified opts vs (upsert_batch batch a)).0)
      × (aborted ≡ [] → repeated ≡ 0)
unfolding with_txn
with_txn-committed opts batch vs a attempt [] r h = (h, 0, omega arith, λ e. refl)
with_txn-committed opts batch vs a attempt ((reached, seen) ∷ aborted) r h =
    let run = write_verified opts (take reached vs) (upsert_batch batch seen) in
    elim (Result-cases run.1) [
      | inr (e, failed) ↦ absurd (cc (rw (failed, with_txn) at h))
      | inl (x, went) ↦ elim (Bool-cases (attempt == max_retries)) [
        | inl last ↦ absurd (cc (rw (went, last, with_txn) at h))
        | inr again ↦
            let (committed, repeated, counts, _) =
              with_txn-committed opts batch vs a (attempt + 1) aborted r
                (rw (went, again, with_txn) at h) in
            (
              committed,
              run.0 + repeated,
              rw (went, again, with_txn) (omega (arith, counts)),
              λ e. absurd cc,
            )
      ]
    ]

-- A run whose messages were decoded.
pub record DecodedRun (opts : ProcessBatchOptions) (d : Decoded) (a b : Db) (c c' : ReaderCounters)
    (r : ProcessBatchResult) : Type 0 where
  pub verified : List VerifiedEntry
  pub snapshot : List BatchMessageSnapshotEntry
  pub skips : ℕ
  pub conflicts : ℕ
  pub repeated : ℕ
  pub written : ℕ
  pub once : opts.aborted_attempts opts.event ≡ [] → repeated ≡ 0
  pub verify_run : VerifyRun opts 0 d.0 d.1 skips verified
  pub snapshotted : snapshot_of opts verified ≡ ok snapshot
  pub write_run :
      WriteRun
        (IsVerified opts 0 d.0 d.1)
        opts
        verified
        (upsert_batch (batch_with opts snapshot) a)
        b
        conflicts
        written
  pub result : r ≡ result_of opts batch_decoded written
  pub counted : c' ≡ record c {
    skipped_verify = c.skipped_verify + skips;
    skipped_conflict = c.skipped_conflict + (repeated + conflicts);
    decoded = c.decoded + written;
  }

pub process_decoded-DecodedRun :
    (opts : ProcessBatchOptions) (d : Decoded) (a b : Db) (c : ReaderCounters)
    (r : ProcessBatchResult)
    → (process_decoded opts d a c).1 ≡ ok (r, b)
    → DecodedRun opts d a b c (process_decoded opts d a c).0 r
unfolding process_decoded
process_decoded-DecodedRun opts (ms, sigs) a b c r h =
    elim (Result-cases (verify_messages opts 0 ms sigs).1) [
      | inr (e, failed) ↦ absurd (cc (rw (failed, process_decoded) at h))
      | inl (vs, verified) ↦ elim (Result-cases (snapshot_of opts vs)) [
        | inr (e, failed) ↦
            absurd (cc (rw (verified, failed, process_decoded, store_verified) at h))
        | inl (snapshot, snapped) ↦
            let a' : Db = upsert_batch (batch_with opts snapshot) a in
            let txn =
              with_txn opts (batch_with opts snapshot) vs a 0 (opts.aborted_attempts opts.event) in
            elim (Result-cases txn.1) [
              | inr (e, failed) ↦
                  absurd (cc (rw (verified, snapped, failed, process_decoded, store_verified) at h))
              | inl ((b', written), stored) ↦
                  let h' = rw (verified, snapped, stored, process_decoded, store_verified) at h in
                  let (committed, repeated, counts, once) =
                    with_txn-committed opts (batch_with opts snapshot) vs a 0
                      (opts.aborted_attempts opts.event) (b', written) stored in
                  let done : b' ≡ b = ap (λ (x : ProcessBatchResult × Db). x.1) (ok-injective h') in
                  rw (verified, snapped, stored, process_decoded, store_verified)
                    (rw (← done) (record {
                      verified = vs;
                      snapshot = snapshot;
                      skips = (verify_messages opts 0 ms sigs).0;
                      conflicts = (write_verified opts vs a').0;
                      repeated = repeated;
                      written = written;
                      once = once;
                      verify_run = verify_messages-VerifyRun opts 0 ms sigs vs verified;
                      snapshotted = snapped;
                      write_run =
                          write_verified-WriteRun (IsVerified opts 0 ms sigs) opts vs a' b' written
                            (verify_messages-VerifyRun opts 0 ms sigs vs verified).all_verified
                            committed;
                      result = sym (ap (λ (x : ProcessBatchResult × Db). x.0) (ok-injective h'));
                      counted =
                          ap
                            (λ k. record c {
                              skipped_verify =
                                  c.skipped_verify + (verify_messages opts 0 ms sigs).0;
                              skipped_conflict = c.skipped_conflict + k;
                              decoded = c.decoded + written;
                            })
                            counts;
                    }))
            ]
      ]
    ]

-- A run that decoded nothing: the outcome, the database and the counters.
abbrev EmptyRun :
    ProcessBatchOptions → Db → Db → ReaderCounters → ReaderCounters → ProcessBatchResult → Type 0
EmptyRun opts a b c c' r =
    ((r ≡ result_of opts range_rejected 0)
      × (b ≡ a)
      × (c' ≡ record c { skipped_range = c.skipped_range + 1 }))
    ⊎ ((r ≡ result_of opts unreachable 0)
        × (b ≡ upsert_batch (base_batch opts) a)
        × (c' ≡ record c { undecodable = c.undecodable + 1 }))
    ⊎ ((r ≡ result_of opts decode_failed 0)
        × (b ≡ upsert_batch (base_batch opts) a)
        × (c' ≡ record c { skipped_decode = c.skipped_decode + 1 }))

-- What a run that does not throw did.
abbrev pub ProcessRun :
    ProcessBatchOptions → Db → Db → ReaderCounters → ReaderCounters → ProcessBatchResult → Type 0
ProcessRun opts a b c c' r =
    ((decoded_of opts ≡ none) × EmptyRun opts a b c c' r)
    ⊎ ((d : Decoded) × (decoded_of opts ≡ some d) × DecodedRun opts d a b c c' r)

pub process_batch-ProcessRun :
    (opts : ProcessBatchOptions) (a b : Db) (c : ReaderCounters) (r : ProcessBatchResult)
    → (process_batch opts a c).1 ≡ ok (r, b)
    → ProcessRun opts a b c (process_batch opts a c).0 r
unfolding process_batch decoded_of
process_batch-ProcessRun opts a b c r h =
    let first = λ (x : ProcessBatchResult × Db). x.0 in
    let second = λ (x : ProcessBatchResult × Db). x.1 in
    elim (Result-cases (validate_segment_range (start_of opts.event) (end_of opts.event))) [
      | inr (reason, rejected) ↦
          let e = ok-injective (rw (rejected, process_batch) at h) in
          rw (rejected, process_batch, decoded_of)
            (inl (refl, inl (sym (ap first e), sym (ap second e), refl)))
      | inl (_, valid) ↦
          elim (Option-cases
            (opts.fetch_blob opts.event.versioned_hash opts.parent_beacon_block_root)) [
              | inl missing ↦
                  let e = ok-injective (rw (valid, missing, process_batch) at h) in
                  rw (valid, missing, process_batch, decoded_of)
                    (inl (refl, inr (inl (sym (ap first e), sym (ap second e), refl))))
              | inr (blob, fetched) ↦
                  elim (Result-cases
                    (extract_segment_bytes blob (start_of opts.event) (end_of opts.event))) [
                      | inr (e, short) ↦
                          absurd (cc (rw (valid, fetched, short, process_batch, process_blob) at h))
                      | inl (bytes, sliced) ↦
                          elim (Result-cases (opts.decode opts.event.decoder bytes)) [
                            | inr (bad, failed) ↦
                                let h' =
                                  rw (valid, fetched, sliced, failed, process_batch, process_blob)
                                    at h in
                                let e = ok-injective h' in
                                rw
                                  (
                                    valid, fetched, sliced, failed, process_batch, process_blob,
                                    decoded_of,
                                  )
                                  (inl
                                    (refl, inr (inr (sym (ap first e), sym (ap second e), refl))))
                            | inl (d, decoded) ↦
                                let h' =
                                  rw (valid, fetched, sliced, decoded, process_batch, process_blob)
                                    at h in
                                rw
                                  (
                                    valid, fetched, sliced, decoded, process_batch, process_blob,
                                    decoded_of,
                                  )
                                  (inr (d, refl, process_decoded-DecodedRun opts d a b c r h'))
                          ]
                    ]
            ]
    ]
