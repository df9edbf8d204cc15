-- ===== src/Poster/Reorg.antt =====
-- packages/bam-poster/src/submission/reorg-watcher.ts. Its window and its candidates are, line for
-- line, those of packages/bam-reader/src/reorg-watcher.ts, whose definitions stand for both. The clock
-- is read once; each batch is a transaction of its own.
pub mod Requeued
use bam.Prelude.{
  ℕ, ◌+◌, List, [], ◌∷◌, Option, none, some, ltb, if◌then◌else◌, Text, Result, ok, err, ◌>>=◌,
}
use bam.Prelude.Sort.{sort_by}
use bam.Store.{
  StoreError, MessageRow, pending, BatchRow, Db, is_pending, get_by_sender_nonce, next_ingest_seq,
  upsert_observed, mark_reorged,
}
use bam.Store.Queries.{MessagesQuery, list_messages}
use bam.Reader.Reorg.{BlockSource, candidates}

-- The query for the messages that are attached to a batch.
abbrev pub attached_query : BatchRow → MessagesQuery
attached_query batch = record {
  content_tag = some batch.content_tag;
  sender = none;
  status = none;
  batch_ref = some batch.tx_hash;
  since_block = none;
  cursor = none;
  limit = none;
}

-- `a.ingestSeq ?? 0`
abbrev pub seq_of : MessageRow → ℕ
seq_of m = elim m.ingest_seq [ none ↦ 0 | some n ↦ n ]

abbrev pub by_ingest_order : List MessageRow → List MessageRow
by_ingest_order = sort_by (λ (a b : MessageRow). ltb (seq_of a) (seq_of b))

-- The row that puts a message back into the queue.
abbrev pub requeued_row : ℕ → Text → ℕ → ℕ → MessageRow → MessageRow
requeued_row chain_id content_tag ingested_at seq m = record {
  message_id = none;
  sender = m.sender;
  nonce = m.nonce;
  content_tag = content_tag;
  contents = m.contents;
  signature = m.signature;
  message_hash = m.message_hash;
  status = pending;
  batch_ref = none;
  chain_id = some chain_id;
  ingested_at = some ingested_at;
  ingest_seq = some seq;
  block_number = none;
  tx_index = none;
  message_index_within_batch = none;
}

-- `nextIngestSeq` and `upsertObserved`.
unfoldable pub write_requeued : ℕ → Text → ℕ → MessageRow → Db → Result StoreError Db
unfolding next_ingest_seq upsert_observed
write_requeued chain_id content_tag now m db =
    let numbered = next_ingest_seq content_tag db in
    upsert_observed (requeued_row chain_id content_tag now numbered.1 m) numbered.0

-- The body of the loop, on what `getBySenderNonce` found.
unfoldable pub requeue_found :
    ℕ → Text → ℕ → MessageRow → Option MessageRow → Db → Result StoreError Db
unfolding write_requeued is_pending
requeue_found chain_id content_tag now m none db = write_requeued chain_id content_tag now m db
requeue_found chain_id content_tag now m (some existing) db =
    if is_pending existing.status then ok db else write_requeued chain_id content_tag now m db

unfoldable pub requeue : ℕ → Text → ℕ → List MessageRow → Db → Result StoreError Db
unfolding get_by_sender_nonce requeue_found
requeue chain_id content_tag now [] db = ok db
requeue chain_id content_tag now (m ∷ ms) db = do
  existing ← get_by_sender_nonce m.sender m.nonce db
  db' ← requeue_found chain_id content_tag now m existing db
  requeue chain_id content_tag now ms db'

-- `reorgBatch`
unfoldable pub reorg_batch_and_requeue : ℕ → ℕ → BatchRow → Db → Result StoreError Db
unfolding list_messages mark_reorged requeue sort_by
reorg_batch_and_requeue chain_id now batch db =
    let attached = list_messages (attached_query batch) db in
    mark_reorged chain_id batch.tx_hash now db >>= λ marked.
    requeue chain_id batch.content_tag now (by_ingest_order attached) marked

-- The loop over the candidates: the database, and what was reorged and kept.
unfoldable pub reorg_each :
    BlockSource → ℕ → ℕ → List BatchRow → Db → Db × Result StoreError (ℕ × ℕ)
unfolding reorg_batch_and_requeue
reorg_each source chain_id now [] db = (db, ok (0, 0))
reorg_each source chain_id now (b ∷ bs) db = elim (source.transaction_block b.tx_hash) [
  | some current ↦
      let rest = reorg_each source chain_id now bs db in
      (rest.0, elim rest.1 [ ok n ↦ ok (n.0, n.1 + 1) | err e ↦ err e ])
  | none ↦ elim (reorg_batch_and_requeue chain_id now b db) [
    | err e ↦ (db, err e)
    | ok db' ↦
        let rest = reorg_each source chain_id now bs db' in
        (rest.0, elim rest.1 [ ok n ↦ ok (n.0 + 1, n.1) | err e ↦ err e ])
  ]
]

-- `ReorgWatcher.tick`
unfoldable pub poster_reorg_tick :
    BlockSource → ℕ → Option ℕ → ℕ → Db → Db × Result StoreError (ℕ × ℕ)
unfolding candidates reorg_each
poster_reorg_tick source chain_id window now db =
    reorg_each source chain_id now (candidates source chain_id window db) db
