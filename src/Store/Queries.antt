-- ===== src/Store/Queries.antt =====
-- The reads of a transaction in packages/bam-store/src/postgres.ts. A `WHERE` keeps the rows that
-- pass, an `ORDER BY` sorts them (rows that tie stay in the table's order, which SQL leaves open),
-- and a `LIMIT` takes the first. A condition on a null column is not met.
pub mod Rows
use bam.Prelude.{
  ℕ, Bool, true, false, not, ◌&&◌, ◌||◌, List, [], ◌∷◌, Option, none, some, leb, ltb, ◌==◌,
  if◌then◌else◌, length, take,
}
use bam.Prelude.{Text, ◌===◌, text_ltb, to_lower_case, Result, ok, err, ◌>>=◌}
use bam.Prelude.Sort.{sort_by}
use bam.Store.Tables.{
  MessageStatus, pending, submitted, confirmed, reorged, MessageRow, BatchStatus, pending_tx,
  batch_confirmed, batch_reorged, BatchRow, Db, is_pending, find_row,
}
use bam.Store.{
  StoreError, null_ingest_metadata, StoreTxnPendingRow, PendingKey, encode_nonce, of_transaction,
}

unfoldable pub select : {A : Type 0} → (A → Bool) → List A → List A
select test [] = []
select test (x ∷ xs) = let rest = select test xs in if test x then x ∷ rest else rest

unfoldable pub limited : {A : Type 0} → Option ℕ → List A → List A
limited none xs = xs
limited (some n) xs = take n xs

-- `query.c !== undefined ? test(c) : undefined`
unfoldable pub meets : {A : Type 0} → Option A → (A → Bool) → Bool
meets none test = true
meets (some a) test = test a

-- A test of a column that may be null.
unfoldable pub column : {A : Type 0} → Option A → (A → Bool) → Bool
column none test = false
column (some a) test = test a

unfoldable pub message_status_id : MessageStatus → ℕ
message_status_id pending = 0
message_status_id submitted = 1
message_status_id confirmed = 2
message_status_id reorged = 3

unfoldable pub batch_status_id : BatchStatus → ℕ
batch_status_id pending_tx = 0
batch_status_id batch_confirmed = 1
batch_status_id batch_reorged = 2

-- `ASC NULLS LAST` and `DESC NULLS LAST`: whether the first comes strictly before the second.
unfoldable pub asc_nulls_last : Option ℕ → Option ℕ → Bool
asc_nulls_last none b = false
asc_nulls_last (some a) none = true
asc_nulls_last (some a) (some b) = ltb a b

unfoldable pub desc_nulls_last : Option ℕ → Option ℕ → Bool
desc_nulls_last none b = false
desc_nulls_last (some a) none = true
desc_nulls_last (some a) (some b) = ltb b a

-- `ORDER BY x, y`: by `y` where `x` ties.
abbrev then_by : {A : Type 0} → (A → A → Bool) → (A → A → Bool) → A → A → Bool
then_by first second a b = first a b || not (first b a) && second a b

-- `mapPending`
unfoldable pub map_pending : MessageRow → Result StoreError StoreTxnPendingRow
map_pending raw = elim raw.ingested_at [
  | none ↦ err null_ingest_metadata
  | some at ↦ elim raw.ingest_seq [
    | none ↦ err null_ingest_metadata
    | some seq ↦ elim raw.chain_id [
      | none ↦ err null_ingest_metadata
      | some chain ↦ ok (record {
        content_tag = raw.content_tag;
        sender = raw.sender;
        nonce = raw.nonce;
        contents = raw.contents;
        signature = raw.signature;
        message_hash = raw.message_hash;
        chain_id = chain;
        ingested_at = at;
        ingest_seq = seq;
      })
    ]
  ]
]

unfoldable pub map_pendings : List MessageRow → Result StoreError (List StoreTxnPendingRow)
unfolding map_pending
map_pendings [] = ok []
map_pendings (m ∷ ms) = do row ← map_pending m; rows ← map_pendings ms; ok (row ∷ rows)

unfoldable pub since_seq : Option ℕ → MessageRow → Bool
unfolding meets column
since_seq since m = meets since (λ seq. column m.ingest_seq (λ n. ltb seq n))

-- `listPendingByTag`
unfoldable pub list_pending_by_tag :
    Text → Option ℕ → Option ℕ → Db → Result StoreError (List StoreTxnPendingRow)
unfolding select limited map_pendings since_seq is_pending ◌===◌ sort_by
list_pending_by_tag tag limit since db =
    let rows =
      select
        (λ (m : MessageRow). (m.content_tag === tag) && is_pending m.status && since_seq since m)
        db.messages in
    map_pendings (
      limited limit (sort_by (λ (a b : MessageRow). asc_nulls_last a.ingest_seq b.ingest_seq) rows))

-- `listPendingAll`
unfoldable pub list_pending_all :
    Option ℕ → Option ℕ → Db → Result StoreError (List StoreTxnPendingRow)
unfolding select limited map_pendings since_seq is_pending sort_by
list_pending_all limit since db =
    let rows = select (λ (m : MessageRow). is_pending m.status && since_seq since m) db.messages in
    map_pendings (
      limited limit (
        sort_by
          (then_by (λ (a b : MessageRow). asc_nulls_last a.ingested_at b.ingested_at)
            (λ a b. asc_nulls_last a.ingest_seq b.ingest_seq))
          rows))

-- `countPendingByTag`
unfoldable pub count_pending_by_tag : Text → Db → ℕ
unfolding select is_pending ◌===◌
count_pending_by_tag tag db =
    length (select (λ (m : MessageRow). (m.content_tag === tag) && is_pending m.status) db.messages)

-- `getPendingByKey`
unfoldable pub get_pending_by_key : PendingKey → Db → Result StoreError (Option StoreTxnPendingRow)
unfolding find_row is_pending to_lower_case encode_nonce map_pending
get_pending_by_key key db = encode_nonce key.nonce >>= λ n.
    elim (find_row (to_lower_case key.sender) n db.messages) [
      | none ↦ ok none
      | some m ↦
          let found = map_pending m >>= λ row. ok (some row) in
          if is_pending m.status then found else ok none
    ]

pub record ChainCoord : Type 0 where
  pub block_number : ℕ
  pub tx_index : ℕ
  pub message_index_within_batch : ℕ

pub record MessagesQuery : Type 0 where
  pub content_tag : Option Text
  pub sender : Option Text
  pub status : Option MessageStatus
  pub batch_ref : Option Text
  pub since_block : Option ℕ
  pub cursor : Option ChainCoord
  pub limit : Option ℕ

-- The comparison of rows `(block_number, tx_index, message_index_within_batch) > (…)`.
unfoldable pub past_cursor : ChainCoord → MessageRow → Bool
unfolding column
past_cursor c m = column m.block_number λ b.
    ltb c.block_number b
    || (b == c.block_number)
      && column m.tx_index (λ t.
        ltb c.tx_index t
        || (t == c.tx_index)
          && column m.message_index_within_batch (λ i. ltb c.message_index_within_batch i))

-- The `WHERE` of `listMessages`.
unfoldable pub in_messages_query : MessagesQuery → MessageRow → Bool
unfolding meets column past_cursor ◌===◌ to_lower_case message_status_id
in_messages_query q m =
    meets q.content_tag (λ t. m.content_tag === t)
    && meets q.sender (λ s. m.sender === to_lower_case s)
    && meets q.status (λ s. message_status_id m.status == message_status_id s)
    && meets q.batch_ref (λ r. column m.batch_ref (λ x. x === r))
    && meets q.since_block (λ n. column m.block_number (λ b. leb n b))
    && meets q.cursor (λ c. past_cursor c m)

-- Its `ORDER BY`.
unfoldable pub message_before : MessageRow → MessageRow → Bool
unfolding asc_nulls_last
message_before =
    then_by (λ (a b : MessageRow). asc_nulls_last a.block_number b.block_number)
      (then_by (λ a b. asc_nulls_last a.tx_index b.tx_index)
        (then_by (λ a b. asc_nulls_last a.message_index_within_batch b.message_index_within_batch)
          (λ a b. asc_nulls_last a.ingest_seq b.ingest_seq)))

-- `listMessages`
unfoldable pub list_messages : MessagesQuery → Db → List MessageRow
unfolding select limited in_messages_query message_before sort_by
list_messages q db =
    limited q.limit (sort_by message_before (select (in_messages_query q) db.messages))

unfoldable pub first_row : {A : Type 0} → List A → Option A
first_row [] = none
first_row (x ∷ xs) = some x

-- `getByMessageId`
unfoldable pub get_by_message_id : Text → Db → Option MessageRow
unfolding select first_row column ◌===◌
get_by_message_id id db =
    first_row (select (λ (m : MessageRow). column m.message_id (λ x. x === id)) db.messages)

pub record BatchesQuery : Type 0 where
  pub content_tag : Option Text
  pub chain_id : Option ℕ
  pub status : Option BatchStatus
  pub since_block : Option ℕ
  pub since_included_at_unix_sec : Option ℕ
  pub limit : Option ℕ

-- The `WHERE` of `listBatches`.
unfoldable pub in_batches_query : BatchesQuery → BatchRow → Bool
unfolding meets column ◌===◌ batch_status_id
in_batches_query q b =
    meets q.content_tag (λ t. b.content_tag === t)
    && meets q.chain_id (λ c. b.chain_id == c)
    && meets q.status (λ s. batch_status_id b.status == batch_status_id s)
    && meets q.since_block (λ n. column b.block_number (λ x. leb n x))
    && meets q.since_included_at_unix_sec (λ n. column b.l1_included_at_unix_sec (λ x. leb n x))

-- Its `ORDER BY`.
unfoldable pub batch_before : BatchRow → BatchRow → Bool
unfolding desc_nulls_last
batch_before =
    then_by (λ (a b : BatchRow). desc_nulls_last a.block_number b.block_number)
      (then_by (λ a b. desc_nulls_last a.tx_index b.tx_index)
        (λ a b. desc_nulls_last a.submitted_at b.submitted_at))

-- `listBatches`
unfoldable pub list_batches : BatchesQuery → Db → List BatchRow
unfolding select limited in_batches_query batch_before sort_by
list_batches q db = limited q.limit (sort_by batch_before (select (in_batches_query q) db.batches))

-- `getBatchesByTxHash`
unfoldable pub get_batches_by_tx_hash : ℕ → Text → Db → List BatchRow
unfolding select of_transaction text_ltb sort_by
get_batches_by_tx_hash chain_id tx_hash db =
    sort_by (λ (a b : BatchRow). text_ltb a.content_tag b.content_tag)
      (select (of_transaction chain_id tx_hash) db.batches)
