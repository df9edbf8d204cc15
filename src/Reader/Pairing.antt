-- ===== src/Reader/Pairing.antt =====
-- packages/bam-reader/src/discovery/log-scan.ts: `fetchRange`, which pairs the two kinds of logs that
-- one call of the provider returns. The array of pending segment logs is a list with the latest first,
-- which is the order in which it is searched.
pub mod Claims
use bam.Prelude.{
  ℕ, ◌+◌, Bool, true, false, ◌&&◌, List, [], ◌∷◌, ◌++◌, Option, none, some, ltb, ◌==◌,
  if◌then◌else◌,
}
use bam.Prelude.{Text, ◌===◌, to_lower_case, Result, ok, err}
use bam.Prelude.Sort.{sort_by}
use bam.Prelude.TextMap.{TextMap, lookup, insert}
use bam.Poster.Policy.{is_empty}
use bam.Sdk.Blob.{field_elements_per_blob}
use bam.Reader.LogScan.{BlobBatchRegisteredEvent, ScanError, FetchRange}

-- The envelope with the arguments of `BlobBatchRegistered`.
pub record ScannerBatchLog : Type 0 where
  pub block_number : ℕ
  pub transaction_index : ℕ
  pub log_index : ℕ
  pub transaction_hash : Text
  pub versioned_hash : Text
  pub submitter : Text
  pub content_tag : Text
  pub decoder : Text
  pub signature_registry : Text

-- The envelope with the arguments of `BlobSegmentDeclared`.
pub record ScannerSegmentLog : Type 0 where
  pub block_number : ℕ
  pub transaction_index : ℕ
  pub log_index : ℕ
  pub transaction_hash : Text
  pub versioned_hash : Text
  pub declarer : Text
  pub start_fe : ℕ
  pub end_fe : ℕ
  pub content_tag : Text

pub data ScannerLog : Type 0 where
  batch_registered : ScannerBatchLog → ScannerLog
  segment_declared : ScannerSegmentLog → ScannerLog

pub data TxItem : Type 0 where
  bbr : ℕ → ScannerBatchLog → TxItem
  bsd : ScannerSegmentLog → TxItem

unfoldable pub log_index_of : TxItem → ℕ
log_index_of (bbr idx log) = log.log_index
log_index_of (bsd log) = log.log_index

-- `byTx.set(key, [...arr, item])`
unfoldable pub push_item : Text → TxItem → TextMap (List TxItem) → TextMap (List TxItem)
unfolding lookup insert
push_item key item by_tx =
    insert key (elim (lookup key by_tx) [ none ↦ item ∷ [] | some items ↦ items ++ (item ∷ []) ])
      by_tx

-- The loops that fill `byTx`: the batch logs, from index `i` on, and then the segment logs.
unfoldable pub push_batches :
    ℕ → List ScannerBatchLog → TextMap (List TxItem) → TextMap (List TxItem)
unfolding push_item to_lower_case
push_batches i [] by_tx = by_tx
push_batches i (log ∷ logs) by_tx =
    push_batches (i + 1) logs (push_item (to_lower_case log.transaction_hash) (bbr i log) by_tx)

unfoldable pub push_segments :
    List ScannerSegmentLog → TextMap (List TxItem) → TextMap (List TxItem)
unfolding push_item to_lower_case
push_segments [] by_tx = by_tx
push_segments (log ∷ logs) by_tx =
    push_segments logs (push_item (to_lower_case log.transaction_hash) (bsd log) by_tx)

-- `bsd.vhLower === targetVH && bsd.tagLower === targetTag`
unfoldable pub matches : ScannerSegmentLog → ScannerBatchLog → Bool
unfolding ◌===◌ to_lower_case
matches s log =
    (to_lower_case s.versioned_hash === to_lower_case log.versioned_hash)
    && (to_lower_case s.content_tag === to_lower_case log.content_tag)

-- The inner loop: the latest pending log that matches, and the others.
unfoldable pub claim :
    ScannerBatchLog → List ScannerSegmentLog → Option (ScannerSegmentLog × List ScannerSegmentLog)
unfolding matches
claim log [] = none
claim log (s ∷ pending) =
    let rest = claim log pending in
    if matches s log
    then some (s, pending)
    else elim rest [ none ↦ none | some (found, others) ↦ some (found, s ∷ others) ]

pub record SegmentRange : Type 0 where
  pub start_fe : ℕ
  pub end_fe : ℕ

abbrev pub range_of : ScannerSegmentLog → SegmentRange
range_of s = record { start_fe = s.start_fe; end_fe = s.end_fe }

-- The loop over the items of a transaction.
unfoldable pub pair_items : List TxItem → List ScannerSegmentLog → List (ℕ × SegmentRange)
unfolding claim
pair_items [] pending = []
pair_items (bsd s ∷ items) pending = pair_items items (s ∷ pending)
pair_items (bbr idx log ∷ items) pending = elim (claim log pending) [
  | none ↦ pair_items items pending
  | some (s, others) ↦ (idx, range_of s) ∷ pair_items items others
]

abbrev pub by_log_order : List TxItem → List TxItem
by_log_order = sort_by (λ (a b : TxItem). ltb (log_index_of a) (log_index_of b))

unfoldable pub pair_all : TextMap (List TxItem) → List (ℕ × SegmentRange)
unfolding pair_items sort_by log_index_of
pair_all [] = []
pair_all ((key, items) ∷ by_tx) = pair_items (by_log_order items) [] ++ pair_all by_tx

-- `pairSegmentRanges`: the entries of the map; an index has at most one.
unfoldable pub pair_segment_ranges :
    List ScannerBatchLog → List ScannerSegmentLog → List (ℕ × SegmentRange)
unfolding push_batches push_segments pair_all is_empty
pair_segment_ranges batch_logs segment_logs =
    if is_empty segment_logs
    then []
    else pair_all (push_segments segment_logs (push_batches 0 batch_logs []))

-- `ranges.get(i)`
unfoldable pub get_range : ℕ → List (ℕ × SegmentRange) → Option SegmentRange
get_range i [] = none
get_range i ((j, r) ∷ ranges) = let rest = get_range i ranges in if j == i then some r else rest

unfoldable pub batch_logs_of : List ScannerLog → List ScannerBatchLog
batch_logs_of [] = []
batch_logs_of (batch_registered log ∷ logs) = log ∷ batch_logs_of logs
batch_logs_of (segment_declared log ∷ logs) = batch_logs_of logs

unfoldable pub segment_logs_of : List ScannerLog → List ScannerSegmentLog
segment_logs_of [] = []
segment_logs_of (batch_registered log ∷ logs) = segment_logs_of logs
segment_logs_of (segment_declared log ∷ logs) = log ∷ segment_logs_of logs

-- The event of a log and its range; without one, the whole blob.
abbrev pub event_of : ScannerBatchLog → Option SegmentRange → BlobBatchRegisteredEvent
event_of log range = record {
  block_number = log.block_number;
  tx_index = log.transaction_index;
  log_index = log.log_index;
  tx_hash = log.transaction_hash;
  versioned_hash = log.versioned_hash;
  submitter = log.submitter;
  content_tag = log.content_tag;
  decoder = log.decoder;
  signature_registry = log.signature_registry;
  start_fe = some (elim range [ none ↦ 0 | some r ↦ r.start_fe ]);
  end_fe = some (elim range [ none ↦ field_elements_per_blob | some r ↦ r.end_fe ]);
}

unfoldable pub events_from :
    ℕ → List (ℕ × SegmentRange) → List ScannerBatchLog → List BlobBatchRegisteredEvent
unfolding get_range
events_from i ranges [] = []
events_from i ranges (log ∷ logs) =
    event_of log (get_range i ranges) ∷ events_from (i + 1) ranges logs

-- `fetchRange`, on a provider's `getLogs`.
unfoldable pub fetch_range : (ℕ → ℕ → Result ScanError (List ScannerLog)) → FetchRange
unfolding pair_segment_ranges batch_logs_of segment_logs_of events_from
fetch_range get_logs from_block to_block = elim (get_logs from_block to_block) [
  | err e ↦ err e
  | ok logs ↦
      let batch_logs = batch_logs_of logs in
      ok (events_from 0 (pair_segment_ranges batch_logs (segment_logs_of logs)) batch_logs)
]
