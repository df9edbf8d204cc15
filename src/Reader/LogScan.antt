-- ===== src/Reader/LogScan.antt =====
-- packages/bam-reader/src/discovery/log-scan.ts: the paging of a scan and the halving of a range that
-- the provider finds too large. What fetches one range (`fetchRange`, a call of the provider) is an
-- argument.
pub mod Complete
use bam.Prelude.{
  ℕ, zero, suc, ◌+◌, ◌-◌, ◌/◌, Bool, false, List, [], ◌∷◌, ◌++◌, min, Option, none, some, leb, ltb,
  ◌==◌, if◌then◌else◌,
}
use bam.Prelude.{Text, Result, ok, err, ◌>>=◌}
use bam.Prelude.Sort.{sort_by}

pub record BlobBatchRegisteredEvent : Type 0 where
  pub block_number : ℕ
  pub tx_index : ℕ
  pub log_index : ℕ
  pub tx_hash : Text
  pub versioned_hash : Text
  pub submitter : Text
  pub content_tag : Text
  pub decoder : Text
  pub signature_registry : Text
  pub start_fe : Option ℕ
  pub end_fe : Option ℕ

-- The family of errors that `isRangeTooLargeError` recognises, any other error of the provider, and
-- the `TypeError` for a chunk size of 0.
pub data ScanError : Type 0 where
  range_too_large bad_chunk_size : ScanError
  provider_error : Text → ScanError

abbrev pub min_chunk_blocks : ℕ
min_chunk_blocks = 64

abbrev pub FetchRange : Type 0
FetchRange = ℕ → ℕ → Result ScanError (List BlobBatchRegisteredEvent)

-- `fetchWithHalving` on fuel: a range of as many blocks as there is fuel never runs out of it, since
-- both halves are shorter.
unfoldable pub fetch_with_halving :
    ℕ → FetchRange → ℕ → ℕ → Result ScanError (List BlobBatchRegisteredEvent)
fetch_with_halving zero fetch from_block to_block = fetch from_block to_block
fetch_with_halving (suc fuel) fetch from_block to_block =
    let span = to_block - from_block + 1 in
    let mid = from_block + span / 2 - 1 in
    let left = fetch_with_halving fuel fetch from_block mid in
    let right = fetch_with_halving fuel fetch (mid + 1) to_block in
    elim (fetch from_block to_block) [
      | ok events ↦ ok events
      | err (provider_error e) ↦ err (provider_error e)
      | err bad_chunk_size ↦ err bad_chunk_size
      | err range_too_large ↦
          if leb span min_chunk_blocks
          then err range_too_large
          else left >>= λ l. right >>= λ r. ok (l ++ r)
    ]

-- The loop over chunks from `from_block` on. A round passes at least one block.
unfoldable pub scan_chunks :
    ℕ → FetchRange → ℕ → ℕ → ℕ → Result ScanError (List BlobBatchRegisteredEvent)
unfolding fetch_with_halving
scan_chunks zero fetch chunk_size from_block to_block = ok []
scan_chunks (suc fuel) fetch chunk_size from_block to_block =
    let last = min (from_block + chunk_size - 1) to_block in
    let rest = scan_chunks fuel fetch chunk_size (from_block + chunk_size) to_block in
    if ltb to_block from_block
    then ok []
    else fetch_with_halving (last - from_block + 1) fetch from_block last >>= λ chunk.
        rest >>= λ events. ok (chunk ++ events)

-- The order by block and then by log.
unfoldable pub precedes : BlobBatchRegisteredEvent → BlobBatchRegisteredEvent → Bool
precedes a b =
    if a.block_number == b.block_number
    then ltb a.log_index b.log_index
    else ltb a.block_number b.block_number

-- The fetches of `scanLogs`, before the sort.
unfoldable pub scan_unsorted :
    FetchRange → Option ℕ → ℕ → ℕ → Result ScanError (List BlobBatchRegisteredEvent)
unfolding fetch_with_halving scan_chunks
scan_unsorted fetch none from_block to_block =
    fetch_with_halving (to_block - from_block + 1) fetch from_block to_block
scan_unsorted fetch (some chunk_size) from_block to_block =
    if leb (to_block - from_block + 1) chunk_size
    then fetch_with_halving (to_block - from_block + 1) fetch from_block to_block
    else scan_chunks (to_block - from_block + 1) fetch chunk_size from_block to_block

unfoldable pub is_zero_chunk : Option ℕ → Bool
is_zero_chunk none = false
is_zero_chunk (some n) = n == 0

-- `scanLogs`
unfoldable pub scan_logs :
    FetchRange → Option ℕ → ℕ → ℕ → Result ScanError (List BlobBatchRegisteredEvent)
unfolding scan_unsorted precedes sort_by is_zero_chunk
scan_logs fetch chunk_size from_block to_block =
    if is_zero_chunk chunk_size
    then err bad_chunk_size
    else if ltb to_block from_block
    then ok []
    else scan_unsorted fetch chunk_size from_block to_block >>= λ events.
        ok (sort_by precedes events)
