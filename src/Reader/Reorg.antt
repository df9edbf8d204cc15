-- ===== src/Reader/Reorg.antt =====
-- packages/bam-reader/src/reorg-watcher.ts. The chain is a parameter that does not change during a
-- tick: the head, and the block of each transaction, if it has one. So is the clock. A negative
-- start of the window has the same rows as 0. Each batch is marked in a transaction of its own, so
-- what was marked before a throw stays.
pub mod Candidates
pub mod Sweep
use bam.Prelude.{
  ℕ, ◌+◌, ◌-◌, Bool, true, false, ◌&&◌, List, [], ◌∷◌, Option, none, some, min, max, if◌then◌else◌,
}
use bam.Prelude.{Text, Result, ok, err}
use bam.Store.{StoreError, BatchRow, BatchStatus, pending_tx, batch_confirmed, batch_reorged, Db}
use bam.Store.{mark_reorged}
use bam.Store.Queries.{BatchesQuery, list_batches, select}

abbrev pub min_reorg_window : ℕ
min_reorg_window = 4

abbrev pub max_reorg_window : ℕ
max_reorg_window = 128

abbrev pub default_reorg_window : ℕ
default_reorg_window = 32

-- `clampReorgWindow`; `none` is a number that is not finite.
unfoldable pub clamp_reorg_window : Option ℕ → ℕ
clamp_reorg_window none = default_reorg_window
clamp_reorg_window (some n) = min (max n min_reorg_window) max_reorg_window

-- `getBlockNumber` and `getTransactionBlock`.
pub record BlockSource : Type 0 where
  pub head : ℕ
  pub transaction_block : Text → Option ℕ

unfoldable pub is_confirmed_batch : BatchStatus → Bool
is_confirmed_batch pending_tx = false
is_confirmed_batch batch_confirmed = true
is_confirmed_batch batch_reorged = false

-- `b.status === 'confirmed' && b.blockNumber !== null`
unfoldable pub is_candidate : BatchRow → Bool
unfolding is_confirmed_batch
is_candidate b = is_confirmed_batch b.status && elim b.block_number [ none ↦ false | some n ↦ true ]

-- The query for the batches of the chain from block `head - window` on.
abbrev pub window_query : BlockSource → ℕ → Option ℕ → BatchesQuery
window_query source chain_id window = record {
  content_tag = none;
  chain_id = some chain_id;
  status = none;
  since_block = some (source.head - clamp_reorg_window window);
  since_included_at_unix_sec = none;
  limit = none;
}

-- The transaction that finds the candidates.
unfoldable pub candidates : BlockSource → ℕ → Option ℕ → Db → List BatchRow
unfolding list_batches clamp_reorg_window is_candidate select
candidates source chain_id window db =
    select is_candidate (list_batches (window_query source chain_id window) db)

-- The loop: the database, and what was reorged and kept.
unfoldable pub mark_each : BlockSource → ℕ → ℕ → List BatchRow → Db → Db × Result StoreError (ℕ × ℕ)
unfolding mark_reorged
mark_each source chain_id now [] db = (db, ok (0, 0))
mark_each source chain_id now (b ∷ bs) db = elim (source.transaction_block b.tx_hash) [
  | some current ↦
      let rest = mark_each source chain_id now bs db in
      (rest.0, elim rest.1 [ ok n ↦ ok (n.0, n.1 + 1) | err e ↦ err e ])
  | none ↦ elim (mark_reorged chain_id b.tx_hash now db) [
    | err e ↦ (db, err e)
    | ok db' ↦
        let rest = mark_each source chain_id now bs db' in
        (rest.0, elim rest.1 [ ok n ↦ ok (n.0 + 1, n.1) | err e ↦ err e ])
  ]
]

-- `ReaderReorgWatcher.tick`
unfoldable pub reorg_tick : BlockSource → ℕ → Option ℕ → ℕ → Db → Db × Result StoreError (ℕ × ℕ)
unfolding candidates mark_each
reorg_tick source chain_id window now db =
    mark_each source chain_id now (candidates source chain_id window db) db
