-- ===== src/Reader/LiveTail/Runs.antt =====
-- packages/bam-reader/src/loop/live-tail.ts: what the loops of a tick keep of the database, when the
-- processing of a batch and the write of the cursor keep it.
use bam.Prelude.{
  ℕ, ◌≡◌, refl, true, false, List, [], ◌∷◌, ◌||◌, max, none, All, All-append, Bool, ◌⊎◌,
  if◌then◌else◌, Bool-cases, Option-cases, Result-cases, inl, inr, ◌==◌, ok,
}
use bam.Prelude.Sort.{All-sort_by}
use bam.Store.{Db}
use bam.Reader.LogScan.{BlobBatchRegisteredEvent}
use bam.Reader.ProcessBatch.{ReaderCounters, ProcessBatchResult, process_batch}
use bam.Reader.LiveTail.{
  LiveTailOptions, BlockHeader, Groups, Progress, add_to_group, group_by_block, sorted_groups,
  build_process_opts, is_unreachable, process_events, commit_block, by_log_index, process_blocks,
  catch_up, follow,
}

module _ (E : BlobBatchRegisteredEvent → Type 0) where
  All-add_to_group :
      (e : BlobBatchRegisteredEvent) (gs : Groups)
      → E e
      → All (λ (g : ℕ × List BlobBatchRegisteredEvent). All E g.1) gs
      → All (λ (g : ℕ × List BlobBatchRegisteredEvent). All E g.1) (add_to_group e gs)
  unfolding add_to_group
  All-add_to_group e [] he h = ((he, tt), tt)
  All-add_to_group e ((b, es) ∷ gs) he h = elim (Bool-cases (b == e.block_number)) [
    | inl same ↦ rw same (All-append E es (e ∷ []) h.0 (he, tt), h.1)
    | inr other ↦ rw other (h.0, All-add_to_group e gs he h.1)
  ]

  All-group_by_block :
      (out : Groups) (es : List BlobBatchRegisteredEvent)
      → All E es
      → All (λ (g : ℕ × List BlobBatchRegisteredEvent). All E g.1) out
      → All (λ (g : ℕ × List BlobBatchRegisteredEvent). All E g.1) (group_by_block out es)
  unfolding group_by_block
  All-group_by_block out [] h k = k
  All-group_by_block out (e ∷ es) h k =
      All-group_by_block (add_to_group e out) es h.1 (All-add_to_group e out h.0 k)

  pub All-sorted_groups :
      (es : List BlobBatchRegisteredEvent)
      → All E es
      → All (λ (g : ℕ × List BlobBatchRegisteredEvent). All E g.1) (sorted_groups es)
  unfolding sorted_groups
  All-sorted_groups es h = All-sort_by _ _ (group_by_block [] es) (All-group_by_block [] es h tt)

if-cases {ℓ} :
    {A : Type ℓ} (b : Bool) (x y : A) → ((if b then x else y) ≡ y) ⊎ ((if b then x else y) ≡ x)
if-cases true x y = inr refl
if-cases false x y = inl refl

pub catch_up-cases :
    (opts : LiveTailOptions) (gs : Groups) (to_block : ℕ) (p : Progress) (db : Db)
    → (catch_up opts gs to_block p db ≡ db)
      ⊎ (catch_up opts gs to_block p db ≡ commit_block opts to_block 0 db)
unfolding catch_up
catch_up-cases opts gs to_block p db = if-cases _ (commit_block opts to_block 0 db) db

-- What the two writes of a tick keep.
pub record IsKept (opts : LiveTailOptions) (E : BlobBatchRegisteredEvent → Type 0) (Q : Db → Type 0)
    : Type 0 where
  pub by_batch :
      (e : BlobBatchRegisteredEvent) (header : BlockHeader) (a b : Db) (c : ReaderCounters)
      (r : ProcessBatchResult)
      → E e
      → (process_batch (build_process_opts opts e header) a c).1 ≡ ok (r, b)
      → Q a
      → Q b
  pub by_cursor : (block tx : ℕ) (a : Db) → Q a → Q (commit_block opts block tx a)

module _ (opts : LiveTailOptions) (E : BlobBatchRegisteredEvent → Type 0) (Q : Db → Type 0)
    (kept : IsKept opts E Q) where
  process_events_keeps :
      (header : BlockHeader) (es : List BlobBatchRegisteredEvent) (top : ℕ) (t : Bool) (db : Db)
      (c : ReaderCounters)
      → All E es
      → Q db
      → Q (process_events opts header es top t db c).0
  unfolding process_events
  process_events_keeps header [] top t db c h q = q
  process_events_keeps header (e ∷ es) top t db c h q =
      let out = process_batch (build_process_opts opts e header) db c in
      elim (Result-cases out.1) [
        | inr (x, failed) ↦ rw (failed, process_events) q
        | inl ((r, next), ran) ↦
            rw (ran, process_events)
              (process_events_keeps header es (max top r.tx_index) (t || is_unreachable r.outcome)
                next out.0 h.1 (kept.by_batch e header db next c r h.0 ran q))
      ]

  pub process_blocks_keeps :
      (gs : Groups) (p : Progress) (db : Db) (c : ReaderCounters)
      → All (λ (g : ℕ × List BlobBatchRegisteredEvent). All E g.1) gs
      → Q db
      → Q (process_blocks opts gs p db c).0
  unfolding process_blocks
  process_blocks_keeps [] p db c h q = q
  process_blocks_keeps ((b, es) ∷ gs) p db c h q = elim (Option-cases (opts.get_block_header b)) [
    | inl no_header ↦ rw (no_header, process_blocks) q
    | inr (header, found) ↦
        let run = process_events opts header (by_log_index es) 0 false db c in
        let after : Q run.0 =
          process_events_keeps header (by_log_index es) 0 false db c (All-sort_by _ E es h.0) q in
        elim (Result-cases run.2) [
          | inr (x, failed) ↦ rw (found, failed, process_blocks) after
          | inl ((top, transient), ran) ↦ elim (Bool-cases transient) [
            | inl parked ↦ rw (found, ran, parked, process_blocks) after
            | inr committed ↦
                rw (found, ran, committed, process_blocks)
                  (process_blocks_keeps gs _ (commit_block opts b top run.0) run.1 h.1
                    (kept.by_cursor b top run.0 after))
          ]
        ]
  ]

  pub follow_keeps :
      (to_block : ℕ) (events : List BlobBatchRegisteredEvent) (db : Db) (c : ReaderCounters)
      → All E events
      → Q db
      → Q (follow opts to_block events db c).0
  unfolding follow
  follow_keeps to_block events db c h q =
      let gs = sorted_groups events in
      let start : Progress = record {
        processed = 0;
        last_committed_block = none;
        blocked_by_transient = false;
      } in
      let run = process_blocks opts gs start db c in
      let after = process_blocks_keeps gs start db c (All-sorted_groups E events h) q in
      elim (Result-cases run.2) [
        | inr (x, failed) ↦ rw (failed, follow) after
        | inl (p, ran) ↦
            rw (ran, follow)
              (elim (catch_up-cases opts gs to_block p run.0) [
                | inl same ↦ rw same after
                | inr moved ↦ rw moved (kept.by_cursor to_block 0 run.0 after)
              ])
      ]
