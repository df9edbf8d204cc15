-- ===== src/Reader/LiveTail/Window.antt =====
-- packages/bam-reader/src/loop/live-tail.ts and reorg-watcher.ts: the batches that a tick writes, and
-- the window that its watcher looks at.
use bam.Prelude.{
  ℕ, ◌-◌, ◌≤◌, ◌≡◌, ap, arith, true, List, [], ◌∷◌, some, All, All-imp, All-zip, Bool-cases, inl,
  inr, ◌==◌, ok,
}
use bam.Store.{Db, BatchRow}
use bam.Store.Batches.{
  upsert_batch, upsert_batches, merge_batch, has_batch_key, canonical_submitter,
}
use bam.Store.Cursor.{set_cursor}
use bam.Store.Steps.{Steps, done, then_step, Steps-trans, cursor_set}
use bam.Reader.LogScan.{BlobBatchRegisteredEvent}
use bam.Reader.ProcessBatch.{
  ReaderCounters, ProcessBatchOptions, ProcessBatchResult, process_batch, base_batch,
}
use bam.Reader.ProcessBatch.Runs.{process_batch-ProcessRun, batch_with}
use bam.Reader.ProcessBatch.Safety.{process_batch-Steps}
use bam.Reader.Reorg.{candidates, clamp_reorg_window}
use bam.Reader.Reorg.Candidates.{candidates-All, All-candidates}
use bam.Reader.LiveTail.{LiveTailOptions, build_process_opts, follow}
use bam.Reader.LiveTail.Runs.{IsKept, follow_keeps}

Steps-IsKept : (opts : LiveTailOptions) (db : Db) → IsKept opts (λ e. Unit {0}) (λ d. Steps db d)
Steps-IsKept opts db = record {
  by_batch = λ e header a b c r _ h q.
      Steps-trans q (process_batch-Steps (build_process_opts opts e header) a b c r h);
  by_cursor = λ block tx a q. then_step q (cursor_set _);
}

trivial_of : (es : List BlobBatchRegisteredEvent) → All (λ e. Unit {0}) es
trivial_of [] = tt
trivial_of (e ∷ es) = (tt, trivial_of es)

-- Whatever a live tail does with the events of a scan, whether it ends or throws, are writes of the
-- store's state machine.
pub follow-Steps :
    (opts : LiveTailOptions) (to_block : ℕ) (events : List BlobBatchRegisteredEvent) (db : Db)
    (c : ReaderCounters)
    → Steps db (follow opts to_block events db c).0
follow-Steps opts to_block events db c =
    follow_keeps opts (λ e. Unit {0}) (λ d. Steps db d) (Steps-IsKept opts db) to_block events db c
      (trivial_of events) done

-- A batch of the chain that is in no block above `to_block`.
abbrev pub IsWithin : ℕ → ℕ → BatchRow → Type 0
IsWithin chain_id to_block b =
    (b.chain_id == chain_id) ≡ true → (n : ℕ) → b.block_number ≡ some n → n ≤ to_block

upsert_batches-All :
    (P : BatchRow → Type 0) (new : BatchRow) (bs : List BatchRow)
    → P new
    → ((old : BatchRow) → P (merge_batch new old))
    → All P bs
    → All P (upsert_batches new bs)
unfolding upsert_batches
upsert_batches-All P new [] hn hm h = (hn, tt)
upsert_batches-All P new (b ∷ bs) hn hm h =
    elim (Bool-cases (has_batch_key new.chain_id new.tx_hash new.content_tag b)) [
      | inl here ↦ rw here (hm b, h.1)
      | inr other ↦ rw other (h.0, upsert_batches-All P new bs hn hm h.1)
    ]

upsert_batch-IsWithin :
    (c to_block : ℕ) (row : BatchRow) (db : Db)
    → IsWithin c to_block row
    → All (IsWithin c to_block) db.batches
    → All (IsWithin c to_block) (upsert_batch row db).batches
unfolding upsert_batch merge_batch
upsert_batch-IsWithin c to_block row db h all =
    upsert_batches-All (IsWithin c to_block)
      (record row { submitter = canonical_submitter row.submitter }) db.batches h (λ old. h) all

base_batch-IsWithin :
    (opts : ProcessBatchOptions) (to_block c : ℕ)
    → opts.event.block_number ≤ to_block
    → IsWithin c to_block (base_batch opts)
base_batch-IsWithin opts to_block c h on_chain n e =
    let same : opts.event.block_number ≡ n = cc in omega arith

process_batch-IsWithin :
    (opts : ProcessBatchOptions) (chain to_block : ℕ) (a b : Db) (c : ReaderCounters)
    (r : ProcessBatchResult)
    → opts.event.block_number ≤ to_block
    → (process_batch opts a c).1 ≡ ok (r, b)
    → All (IsWithin chain to_block) a.batches
    → All (IsWithin chain to_block) b.batches
process_batch-IsWithin opts chain to_block a b c r below h all =
    let row_within = base_batch-IsWithin opts to_block chain below in
    let blank = upsert_batch-IsWithin chain to_block (base_batch opts) a row_within all in
    elim (process_batch-ProcessRun opts a b c r h) [
      | inl (_, inl (_, same, _)) ↦ rw same all
      | inl (_, inr (inl (_, stored, _))) ↦ rw stored blank
      | inl (_, inr (inr (_, stored, _))) ↦ rw stored blank
      | inr (d, _, run) ↦
          rw (ap (λ (x : Db). x.batches) run.write_run.only_messages)
            (upsert_batch-IsWithin chain to_block (batch_with opts run.snapshot) a row_within all)
    ]

-- In a database whose batches of the chain are in no block above the safe head, as they are when the
-- live tail wrote them, the watcher of a tick that scans up to the safe head looks at the batches of
-- one block only: with a window of 4 to 128 blocks, every candidate is in the block `head - window`.
pub candidates-follow :
    (opts : LiveTailOptions) (to_block : ℕ) (events : List BlobBatchRegisteredEvent) (db : Db)
    (c : ReaderCounters)
    → to_block ≡ opts.source.head - opts.reorg_window_blocks
    → 4 ≤ opts.reorg_window_blocks
    → opts.reorg_window_blocks ≤ 128
    → All (λ (e : BlobBatchRegisteredEvent). e.block_number ≤ to_block) events
    → All (IsWithin opts.chain_id to_block) db.batches
    → All
        (λ b. b.block_number ≡ some to_block)
        (candidates opts.source opts.chain_id
          (some opts.reorg_window_blocks)
          (follow opts to_block events db c).0)
unfolding clamp_reorg_window
candidates-follow opts to_block events db c safe lo hi below within =
    let after = (follow opts to_block events db c).0 in
    let kept : IsKept opts (λ (e : BlobBatchRegisteredEvent). e.block_number ≤ to_block)
        (λ d. All (IsWithin opts.chain_id to_block) d.batches) =
      record {
        by_batch = λ e header a b c r he h q.
            process_batch-IsWithin (build_process_opts opts e header) opts.chain_id to_block a b c r
              he h q;
        by_cursor = λ block tx a q. unfold set_cursor in q;
      } in
    let still = follow_keeps opts _ _ kept to_block events db c below within in
    let cs = candidates opts.source opts.chain_id (some opts.reorg_window_blocks) after in
    All-imp _ _ cs
      (λ b h.
        let (on_chain, n, at, above, _) = h.0 in
        let under : n ≤ to_block = h.1 on_chain n at in
        let same : n ≡ to_block = omega arith in rw at (ap some same))
      (All-zip _ _ cs
        (candidates-All opts.source opts.chain_id (some opts.reorg_window_blocks) after)
        (All-candidates (IsWithin opts.chain_id to_block) opts.source opts.chain_id
          (some opts.reorg_window_blocks) after still))
