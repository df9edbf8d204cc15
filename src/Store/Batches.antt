-- ===== src/Store/Batches.antt =====
-- The operations of packages/bam-store/src/postgres.ts on the table `batches`, and the bulk deletes.
-- A column that an `UPDATE` leaves out is `none`; one that it sets is `some` of the new value.
use bam.Prelude.{
  ℕ, ◌≡◌, ◌≢◌, Bool, false, ◌&&◌, List, [], ◌∷◌, map, Option, none, some, ◌==◌, if◌then◌else◌,
}
use bam.Prelude.{Text, ◌===◌, to_lower_case, Result, ok, err}
use bam.Poster.Policy.{is_empty}
use bam.Store.Tables.{BatchRow, BatchStatus, MessageRow, Db}
use bam.Store.{StoreError, no_batch, of_transaction}

-- `COALESCE(EXCLUDED.c, batches.c)`
unfoldable pub coalesce : {A : Type 0} → Option A → Option A → Option A
coalesce none old = old
coalesce (some new) old = some new

-- The primary key of `batches`.
unfoldable pub has_batch_key : ℕ → Text → Text → BatchRow → Bool
unfolding of_transaction ◌===◌
has_batch_key chain_id tx_hash content_tag b =
    of_transaction chain_id tx_hash b && (b.content_tag === content_tag)

-- `row.submitter ? row.submitter.toLowerCase() : null`
unfoldable pub canonical_submitter : Option Text → Option Text
unfolding to_lower_case is_empty
canonical_submitter none = none
canonical_submitter (some s) = if is_empty s then none else some (to_lower_case s)

-- `DO UPDATE SET` of `upsertBatch`, on the row that is there.
unfoldable pub merge_batch : BatchRow → BatchRow → BatchRow
unfolding coalesce is_empty
merge_batch new old = record new {
  replaced_by_tx_hash = coalesce new.replaced_by_tx_hash old.replaced_by_tx_hash;
  submitted_at = coalesce new.submitted_at old.submitted_at;
  submitter = coalesce new.submitter old.submitter;
  l1_included_at_unix_sec = coalesce new.l1_included_at_unix_sec old.l1_included_at_unix_sec;
  message_snapshot =
      if is_empty new.message_snapshot then old.message_snapshot else new.message_snapshot;
}

unfoldable pub upsert_batches : BatchRow → List BatchRow → List BatchRow
unfolding has_batch_key merge_batch
upsert_batches new [] = new ∷ []
upsert_batches new (b ∷ bs) =
    let rest = upsert_batches new bs in
    if has_batch_key new.chain_id new.tx_hash new.content_tag b
    then merge_batch new b ∷ bs
    else b ∷ rest

-- `upsertBatch`
unfoldable pub upsert_batch : BatchRow → Db → Db
unfolding upsert_batches canonical_submitter
upsert_batch row db =
    let new : BatchRow = record row { submitter = canonical_submitter row.submitter } in
    record db { batches = upsert_batches new db.batches }

-- The options of `updateBatchStatus`.
pub record BatchUpdate : Type 0 where
  pub block_number : Option (Option ℕ)
  pub tx_index : Option (Option ℕ)
  pub replaced_by_tx_hash : Option (Option Text)
  pub invalidated_at : Option (Option ℕ)

unfoldable pub set_column : {A : Type 0} → Option (Option A) → Option A → Option A
set_column none old = old
set_column (some new) old = new

unfoldable pub update_batch : BatchStatus → BatchUpdate → BatchRow → BatchRow
unfolding set_column
update_batch status opts b = record b {
  status = status;
  block_number = set_column opts.block_number b.block_number;
  tx_index = set_column opts.tx_index b.tx_index;
  replaced_by_tx_hash = set_column opts.replaced_by_tx_hash b.replaced_by_tx_hash;
  invalidated_at = set_column opts.invalidated_at b.invalidated_at;
}

-- `getBatch`
unfoldable pub find_batch : ℕ → Text → Text → List BatchRow → Option BatchRow
unfolding has_batch_key
find_batch chain_id tx_hash content_tag [] = none
find_batch chain_id tx_hash content_tag (b ∷ bs) =
    let rest = find_batch chain_id tx_hash content_tag bs in
    if has_batch_key chain_id tx_hash content_tag b then some b else rest

-- `updateBatchStatus`
unfoldable pub update_batch_status :
    ℕ → Text → Text → BatchStatus → BatchUpdate → Db → Result StoreError Db
unfolding find_batch update_batch has_batch_key
update_batch_status chain_id tx_hash content_tag status opts db =
    elim (find_batch chain_id tx_hash content_tag db.batches) [
      | none ↦ err no_batch
      | some found ↦ ok (record db {
        batches =
            map
              (λ b.
                if has_batch_key chain_id tx_hash content_tag b
                then update_batch status opts b
                else b)
              db.batches;
      })
    ]

unfoldable pub on_chain : ℕ → MessageRow → Bool
on_chain chain_id m = elim m.chain_id [ none ↦ false | some c ↦ c == chain_id ]

unfoldable pub drop_messages : ℕ → List MessageRow → List MessageRow
unfolding on_chain
drop_messages chain_id [] = []
drop_messages chain_id (m ∷ ms) =
    let rest = drop_messages chain_id ms in if on_chain chain_id m then rest else m ∷ rest

-- `deleteMessages`
unfoldable pub delete_messages : ℕ → Db → Db
unfolding drop_messages
delete_messages chain_id db = record db { messages = drop_messages chain_id db.messages }

unfoldable pub drop_batches : ℕ → List BatchRow → List BatchRow
drop_batches chain_id [] = []
drop_batches chain_id (b ∷ bs) =
    let rest = drop_batches chain_id bs in if b.chain_id == chain_id then rest else b ∷ rest

-- `deleteBatches`
unfoldable pub delete_batches : ℕ → Db → Db
unfolding drop_batches
delete_batches chain_id db = record db { batches = drop_batches chain_id db.batches }

-- The value, or where there is none, the other.
abbrev pub or_else : {A : Type 0} → Option A → Option A → Option A
or_else (some x) other = some x
or_else none other = other

-- What the row of a key is after a batch was written over the one that was there: the columns that
-- are replaced are the new row's, and the others are kept where the new row has none.
pub record IsMerged (new old row : BatchRow) : Type 0 where
  pub tx_hash : row.tx_hash ≡ new.tx_hash
  pub chain_id : row.chain_id ≡ new.chain_id
  pub content_tag : row.content_tag ≡ new.content_tag
  pub blob_versioned_hash : row.blob_versioned_hash ≡ new.blob_versioned_hash
  pub batch_content_hash : row.batch_content_hash ≡ new.batch_content_hash
  pub block_number : row.block_number ≡ new.block_number
  pub tx_index : row.tx_index ≡ new.tx_index
  pub status : row.status ≡ new.status
  pub invalidated_at : row.invalidated_at ≡ new.invalidated_at
  pub replaced_by_tx_hash :
      row.replaced_by_tx_hash ≡ or_else new.replaced_by_tx_hash old.replaced_by_tx_hash
  pub submitted_at : row.submitted_at ≡ or_else new.submitted_at old.submitted_at
  pub submitter : row.submitter ≡ or_else (canonical_submitter new.submitter) old.submitter
  pub l1_included_at_unix_sec :
      row.l1_included_at_unix_sec ≡ or_else new.l1_included_at_unix_sec old.l1_included_at_unix_sec
  pub empty_snapshot : new.message_snapshot ≡ [] → row.message_snapshot ≡ old.message_snapshot
  pub full_snapshot : new.message_snapshot ≢ [] → row.message_snapshot ≡ new.message_snapshot

-- The row of a key, from the given row and what the key had.
abbrev pub Written : BatchRow → Option BatchRow → BatchRow → Type 0
Written new none row = row ≡ record new { submitter = canonical_submitter new.submitter }
Written new (some old) row = IsMerged new old row

-- What is written for a key: the new row, merged with the old one if there is one.
abbrev merged : BatchRow → Option BatchRow → BatchRow
merged new none = new
merged new (some old) = merge_batch new old
