-- ===== src/Reader/LiveTail/Events.antt =====
-- packages/bam-reader/src/loop/live-tail.ts: the loop over the events of a block.
use bam.Prelude.{
  ℕ, ◌≡◌, refl, sym, ap, ◌∙◌, arith, true, false, ◌||◌, max, List, [], ◌∷◌, none, some, Bool,
  Option-cases, Result-cases, inl, inr, ok, err, ok-injective,
}
use bam.Sdk.Blob.{Blob, extract_segment_bytes}
use bam.Store.{Db}
use bam.Store.Batches.{upsert_batch}
use bam.Reader.LogScan.{BlobBatchRegisteredEvent}
use bam.Reader.Decode.{validate_segment_range}
use bam.Reader.ProcessBatch.{
  ReaderCounters, ProcessBatchOptions, ProcessBatchResult, process_batch, start_of, end_of,
  process_blob,
}
use bam.Reader.ProcessBatch.Runs.{process_batch-ProcessRun, process_decoded-DecodedRun}
use bam.Reader.LiveTail.{
  LiveTailOptions, BlockHeader, build_process_opts, is_unreachable, process_events,
}

-- Whether the range is valid and no source has the blob.
unfoldable pub unreachable_of : ProcessBatchOptions → Bool
unfolding validate_segment_range
unreachable_of p = elim (validate_segment_range (start_of p.event) (end_of p.event)) [
  | err reason ↦ false
  | ok _ ↦ elim (p.fetch_blob p.event.versioned_hash p.parent_beacon_block_root) [
    | none ↦ true
    | some blob ↦ false
  ]
]

process_blob-reachable :
    (p : ProcessBatchOptions) (blob : Blob) (a b : Db) (c : ReaderCounters) (r : ProcessBatchResult)
    → (process_blob p blob a c).1 ≡ ok (r, b)
    → is_unreachable r.outcome ≡ false
unfolding process_blob is_unreachable
process_blob-reachable p blob a b c r h =
    elim (Result-cases (extract_segment_bytes blob (start_of p.event) (end_of p.event))) [
      | inr (e, short) ↦ absurd (cc (rw (short, process_blob) at h))
      | inl (bytes, sliced) ↦ elim (Result-cases (p.decode p.event.decoder bytes)) [
        | inr (bad, failed) ↦ sym (
            ap (λ (x : ProcessBatchResult × Db). is_unreachable x.0.outcome)
              (ok-injective (rw (sliced, failed, process_blob) at h)))
        | inl (d, decoded) ↦
            ap (λ (x : ProcessBatchResult). is_unreachable x.outcome)
              (process_decoded-DecodedRun p d a b c r
                (rw (sliced, decoded, process_blob) at h)).result
      ]
    ]

-- What a run says of the blob, and the cursors that it leaves.
process_batch-unreachable_of :
    (p : ProcessBatchOptions) (a b : Db) (c : ReaderCounters) (r : ProcessBatchResult)
    → (process_batch p a c).1 ≡ ok (r, b)
    → is_unreachable r.outcome ≡ unreachable_of p
unfolding process_batch unreachable_of is_unreachable
process_batch-unreachable_of p a b c r h =
    let outcome = λ (x : ProcessBatchResult × Db). is_unreachable x.0.outcome in
    elim (Result-cases (validate_segment_range (start_of p.event) (end_of p.event))) [
      | inr (reason, rejected) ↦
          rw (rejected, unreachable_of)
            (sym (ap outcome (ok-injective (rw (rejected, process_batch) at h))))
      | inl (_, valid) ↦
          elim (Option-cases (p.fetch_blob p.event.versioned_hash p.parent_beacon_block_root)) [
            | inl missing ↦
                rw (valid, missing, unreachable_of)
                  (sym (ap outcome (ok-injective (rw (valid, missing, process_batch) at h))))
            | inr (blob, fetched) ↦
                rw (valid, fetched, unreachable_of)
                  (process_blob-reachable p blob a b c r (rw (valid, fetched, process_batch) at h))
          ]
    ]

process_batch_cursor :
    (p : ProcessBatchOptions) (a b : Db) (c : ReaderCounters) (r : ProcessBatchResult)
    → (process_batch p a c).1 ≡ ok (r, b)
    → b.reader_cursor ≡ a.reader_cursor
unfolding upsert_batch
process_batch_cursor p a b c r h = elim (process_batch-ProcessRun p a b c r h) [
  | inl (_, inl (_, same, _)) ↦ rw same refl
  | inl (_, inr (inl (_, stored, _))) ↦ rw stored refl
  | inl (_, inr (inr (_, stored, _))) ↦ rw stored refl
  | inr (d, _, run) ↦ ap (λ (x : Db). x.reader_cursor) run.write_run.only_messages
]

unfoldable pub any_unreachable :
    LiveTailOptions → BlockHeader → List BlobBatchRegisteredEvent → Bool
unfolding unreachable_of
any_unreachable opts header [] = false
any_unreachable opts header (e ∷ es) =
    unreachable_of (build_process_opts opts e header) || any_unreachable opts header es

pub process_events-result :
    (opts : LiveTailOptions) (header : BlockHeader) (es : List BlobBatchRegisteredEvent) (top : ℕ)
    (t : Bool) (db : Db) (c : ReaderCounters) (top' : ℕ) (t' : Bool)
    → (process_events opts header es top t db c).2 ≡ ok (top', t')
    → (t' ≡ (t || any_unreachable opts header es))
      × ((process_events opts header es top t db c).0.reader_cursor ≡ db.reader_cursor)
unfolding process_events any_unreachable
process_events-result opts header [] top t db c top' t' h =
    let same : t ≡ t' = ap (λ (x : ℕ × Bool). x.1) (ok-injective h) in (ground arith, refl)
process_events-result opts header (e ∷ es) top t db c top' t' h =
    let p = build_process_opts opts e header in
    let out = process_batch p db c in
    elim (Result-cases out.1) [
      | inr (x, failed) ↦ absurd (cc (rw (failed, process_events) at h))
      | inl ((r, next), ran) ↦
          let u = is_unreachable r.outcome in
          let (seen, same) =
            process_events-result opts header es (max top r.tx_index) (t || u) next out.0 top' t'
              (rw (ran, process_events) at h) in
          let reached = process_batch-unreachable_of p db next c r ran in
          (
            ground (arith, seen, reached),
            rw (ran, process_events) (same ∙ process_batch_cursor p db next c r ran),
          )
    ]
