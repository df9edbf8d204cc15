-- ===== src/Store.antt =====
-- packages/bam-store/src: the tables of postgres.ts and the transaction's operations on them. A
-- table is the list of its rows, in an order that means nothing; a row is looked up by its primary
-- key. A transaction is a function of the database that returns the next one or throws; the
-- database of a transaction that throws is dropped. Nonces are stored as numbers: `encodeNonce`
-- writes them at a fixed width, so that the order of the texts is theirs, and its check of the
-- range is kept.
pub mod Tables
pub mod Keys
pub mod Batches
pub mod Writes
pub mod Queries
pub mod NonceText
pub mod Cursor
pub mod Steps
pub mod Lifecycle
use bam.Prelude.{
  zero, suc, take, drop, length, ℕ, ◌+◌, ◌^◌, Bool, true, false, not, ◌&&◌, List, [], ◌∷◌, map,
  Option, none, some, max, leb, ltb, ◌==◌, if◌then◌else◌,
}
use bam.Prelude.{Bytes, Text, ◌===◌, to_lower_case, Result, ok, err, ◌>>=◌, throw_if}
use bam.Prelude.TextMap.{TextMap, lookup, insert}
pub use Tables.{
  MessageStatus, pending, submitted, confirmed, reorged, MessageRow, BatchStatus, pending_tx,
  batch_confirmed, batch_reorged, BatchRow, NonceTrackerRow, ReaderCursorRow, Db,
}
unfoldable pub use Tables.{
  is_pending, is_reorged, is_confirmed, has_key, find_row, delete_rows, max_row, newer,
}

pub data StoreError : Type 0 where
  nonce_out_of_range : StoreError
  duplicate_message : Text → ℕ → StoreError
  different_message_hash no_batch : StoreError
  rows_updated : ℕ → ℕ → StoreError
  null_ingest_metadata : StoreError

pub record StoreTxnPendingRow : Type 0 where
  pub content_tag : Text
  pub sender : Text
  pub nonce : ℕ
  pub contents : Bytes
  pub signature : Bytes
  pub message_hash : Text
  pub chain_id : ℕ
  pub ingested_at : ℕ
  pub ingest_seq : ℕ

-- The range check of `encodeNonce`.
unfoldable pub encode_nonce : ℕ → Result StoreError ℕ
encode_nonce nonce = throw_if (ltb 0xffff_ffff_ffff_ffff nonce) nonce_out_of_range >>= λ _. ok nonce

-- The row that `insertPending` writes.
unfoldable pub pending_row : StoreTxnPendingRow → MessageRow
pending_row row = record {
  message_id = none;
  sender = to_lower_case row.sender;
  nonce = row.nonce;
  content_tag = row.content_tag;
  contents = row.contents;
  signature = row.signature;
  message_hash = row.message_hash;
  status = pending;
  batch_ref = none;
  chain_id = some row.chain_id;
  ingested_at = some row.ingested_at;
  ingest_seq = some row.ingest_seq;
  block_number = none;
  tx_index = none;
  message_index_within_batch = none;
}

-- `insertPending` on a nonce in range: the test of the row that is there, and the two statements.
unfoldable pub insert_in_range : StoreTxnPendingRow → Db → Result StoreError Db
unfolding pending_row is_reorged delete_rows find_row to_lower_case
insert_in_range row db =
    let sender = to_lower_case row.sender in
    elim (find_row sender row.nonce db.messages) [
      | none ↦ ok (record db { messages = pending_row row ∷ db.messages })
      | some existing ↦
          if is_reorged existing.status
          then ok
              (record db { messages = pending_row row ∷ delete_rows sender row.nonce db.messages })
          else err (duplicate_message row.sender row.nonce)
    ]

-- `insertPending`
unfoldable pub insert_pending : StoreTxnPendingRow → Db → Result StoreError Db
unfolding insert_in_range encode_nonce
insert_pending row db = encode_nonce row.nonce >>= λ _. insert_in_range row db

-- `nextIngestSeq`
unfoldable pub next_ingest_seq : Text → Db → Db × ℕ
unfolding lookup insert
next_ingest_seq tag db =
    let seq : ℕ = elim (lookup tag db.tag_seq) [ none ↦ 1 | some last_seq ↦ last_seq + 1 ] in
    (record db { tag_seq = insert tag seq db.tag_seq }, seq)

-- `getNonce`
unfoldable pub get_nonce : Text → Db → Option NonceTrackerRow
unfolding lookup to_lower_case
get_nonce sender db = lookup (to_lower_case sender) db.nonces

-- `setNonce`
unfoldable pub set_nonce : NonceTrackerRow → Db → Result StoreError Db
unfolding insert to_lower_case encode_nonce
set_nonce row db =
    let sender = to_lower_case row.sender in
    let stored : NonceTrackerRow = record row { sender = sender } in
    encode_nonce row.last_nonce >>= λ _. ok (record db { nonces = insert sender stored db.nonces })

-- `getMaxNonReorgedNonce`
unfoldable pub get_max_non_reorged_nonce : Text → Db → Option NonceTrackerRow
unfolding max_row to_lower_case
get_max_non_reorged_nonce sender db = elim (max_row (to_lower_case sender) db.messages) [
  | none ↦ none
  | some r ↦ some (record {
    sender = to_lower_case sender;
    last_nonce = r.nonce;
    last_message_hash = r.message_hash;
  })
]

-- `upsertObserved` on a nonce in range.
unfoldable pub upsert_in_range : MessageRow → Db → Result StoreError Db
unfolding find_row delete_rows is_confirmed ◌===◌ to_lower_case
upsert_in_range row db =
    let sender = to_lower_case row.sender in
    let written : MessageRow = record row { sender = sender } in
    let stored : Db = record db { messages = written ∷ delete_rows sender row.nonce db.messages } in
    elim (find_row sender row.nonce db.messages) [
      | none ↦ ok stored
      | some existing ↦
          if not (existing.message_hash === row.message_hash)
          then err different_message_hash
          else if is_confirmed existing.status
          then ok db
          else ok stored
    ]

-- `upsertObserved`
unfoldable pub upsert_observed : MessageRow → Db → Result StoreError Db
unfolding upsert_in_range encode_nonce
upsert_observed row db = encode_nonce row.nonce >>= λ _. upsert_in_range row db

-- The rows of `batches` that a statement on a transaction of a chain matches.
unfoldable pub of_transaction : ℕ → Text → BatchRow → Bool
unfolding ◌===◌
of_transaction chain_id tx_hash b = (b.chain_id == chain_id) && (b.tx_hash === tx_hash)

unfoldable pub count_batches : ℕ → Text → List BatchRow → ℕ
unfolding of_transaction
count_batches chain_id tx_hash [] = 0
count_batches chain_id tx_hash (b ∷ bs) =
    let rest = count_batches chain_id tx_hash bs in
    if of_transaction chain_id tx_hash b then 1 + rest else rest

-- The messages that `markReorged` cascades to.
unfoldable pub in_cascade : ℕ → Text → MessageRow → Bool
unfolding is_confirmed ◌===◌
in_cascade chain_id tx_hash m =
    elim m.batch_ref [ none ↦ false | some ref ↦ ref === tx_hash ]
    && elim m.chain_id [ none ↦ false | some c ↦ c == chain_id ]
    && is_confirmed m.status

unfoldable pub reorg_batch : ℕ → Text → ℕ → BatchRow → BatchRow
unfolding of_transaction
reorg_batch chain_id tx_hash invalidated_at b =
    if of_transaction chain_id tx_hash b
    then record b { status = batch_reorged; invalidated_at = some invalidated_at }
    else b

unfoldable pub reorg_message : ℕ → Text → MessageRow → MessageRow
unfolding in_cascade
reorg_message chain_id tx_hash m =
    if in_cascade chain_id tx_hash m then record m { status = reorged } else m

-- `markReorged`
unfoldable pub mark_reorged : ℕ → Text → ℕ → Db → Result StoreError Db
unfolding count_batches reorg_batch reorg_message
mark_reorged chain_id tx_hash invalidated_at db = do
  _ ← throw_if (count_batches chain_id tx_hash db.batches == 0) no_batch
  ok (record db {
    batches = map (reorg_batch chain_id tx_hash invalidated_at) db.batches;
    messages = map (reorg_message chain_id tx_hash) db.messages;
  })

-- `getBySenderNonce`
unfoldable pub get_by_sender_nonce : Text → ℕ → Db → Result StoreError (Option MessageRow)
unfolding find_row to_lower_case encode_nonce
get_by_sender_nonce sender nonce db = do
  n ← encode_nonce nonce
  ok (find_row (to_lower_case sender) n db.messages)

pub record PendingKey : Type 0 where
  pub sender : Text
  pub nonce : ℕ

-- `status = 'pending' AND (sender, nonce) IN (…)`
unfoldable pub is_listed : List PendingKey → MessageRow → Bool
unfolding has_key to_lower_case
is_listed [] m = false
is_listed (k ∷ ks) m =
    let rest = is_listed ks m in if has_key (to_lower_case k.sender) k.nonce m then true else rest

unfoldable pub submit_row : List PendingKey → Text → MessageRow → MessageRow
unfolding is_listed is_pending
submit_row keys batch_ref m =
    if is_pending m.status && is_listed keys m
    then record m { status = submitted; batch_ref = some batch_ref }
    else m

unfoldable pub count_listed : List PendingKey → List MessageRow → ℕ
unfolding is_listed is_pending
count_listed keys [] = 0
count_listed keys (m ∷ ms) =
    let rest = count_listed keys ms in
    if is_pending m.status && is_listed keys m then 1 + rest else rest

unfoldable pub encode_nonces : List PendingKey → Result StoreError (Unit {0})
unfolding encode_nonce
encode_nonces [] = ok tt
encode_nonces (k ∷ ks) = encode_nonce k.nonce >>= λ _. encode_nonces ks

-- The loop of `markSubmitted` over slices of 500 keys. A round takes at least one key, so as many
-- rounds as there are keys are enough.
unfoldable pub mark_submitted_from : ℕ → List PendingKey → Text → Db → Result StoreError Db
unfolding submit_row count_listed encode_nonces
mark_submitted_from zero keys batch_ref db = ok db
mark_submitted_from (suc fuel) [] batch_ref db = ok db
mark_submitted_from (suc fuel) (k ∷ keys) batch_ref db = do
  let slice = take 500 (k ∷ keys)
  let updated = count_listed slice db.messages
  _ ← encode_nonces slice
  _ ← throw_if (not (updated == length slice)) (rows_updated (length slice) updated)
  mark_submitted_from fuel (drop 500 (k ∷ keys)) batch_ref
      (record db { messages = map (submit_row slice batch_ref) db.messages })

-- `markSubmitted`
unfoldable pub mark_submitted : List PendingKey → Text → Db → Result StoreError Db
unfolding mark_submitted_from
mark_submitted keys batch_ref db = mark_submitted_from (length keys) keys batch_ref db
