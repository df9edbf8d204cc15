-- ===== src/Tests/ReaderRuns.antt =====
-- A scan of 101 blocks from a provider that refuses more than 64 at once.
use bam.Prelude.{
  ℕ, ◌+◌, ◌-◌, ◌≡◌, refl, arith, List, [], ◌∷◌, some, ok, err, leb, ◌==◌, if◌then◌else◌, Bool-cases,
  inl, inr, ok-injective, sym,
}
use bam.Prelude.Sort.{sort_by}
use bam.Reader.LogScan.{
  BlobBatchRegisteredEvent, FetchRange, ScanError, range_too_large, scan_logs, precedes,
}
use bam.Reader.LogScan.Complete.{IsHonest, events_of, scan_logs_complete}

abbrev event_at : ℕ → BlobBatchRegisteredEvent
event_at b = record {
  block_number = b;
  tx_index = 0;
  log_index = 0;
  tx_hash = [];
  versioned_hash = [];
  submitter = [];
  content_tag = [];
  decoder = [];
  signature_registry = [];
  start_fe = some 0;
  end_fe = some 4096;
}

-- One event in block 70.
abbrev chain : ℕ → List BlobBatchRegisteredEvent
chain b = if b == 70 then event_at 70 ∷ [] else []

abbrev provider : FetchRange
provider from_block to_block =
    if leb (to_block - from_block + 1) 64
    then ok (events_of chain from_block (to_block - from_block + 1))
    else err range_too_large

provider-IsHonest : IsHonest chain provider
provider-IsHonest = record {
  exact = λ first n events h. elim (Bool-cases (leb (first + n - first + 1) 64)) [
    | inl small ↦
        let span : first + n - first + 1 ≡ n + 1 = omega arith in
        sym (ok-injective (rw (small, span) at h))
    | inr large ↦ absurd (cc (rw large at h))
  ];
  only_large = λ first n e h. elim (Bool-cases (leb (first + n - first + 1) 64)) [
    | inl small ↦ absurd (cc (rw small at h))
    | inr large ↦ (cc (rw large at h), ground arith)
  ];
}

scan_logs_complete_example :
    scan_logs provider (some 80) 10 (10 + 100)
    ≡ ok (sort_by precedes (events_of chain 10 (100 + 1)))
unfolding bam.Reader.LogScan.is_zero_chunk
scan_logs_complete_example =
    scan_logs_complete chain provider (some 80) 10 100 provider-IsHonest refl
