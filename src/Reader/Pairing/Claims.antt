-- ===== src/Reader/Pairing/Claims.antt =====
-- packages/bam-reader/src/discovery/log-scan.ts: which segment log a batch log claims.
use bam.Prelude.{
  ℕ, ◌≡◌, refl, arith, true, false, List, [], ◌∷◌, ◌++◌, some, inl, inr, Option-cases, ◌==◌,
}
use bam.Reader.Pairing.{
  ScannerBatchLog, ScannerSegmentLog, TxItem, bbr, bsd, matches, claim, range_of, pair_items,
  get_range,
}

-- No batch log of the items has the index.
abbrev pub IsFreshIndex : ℕ → List TxItem → Type 0
IsFreshIndex i [] = Unit
IsFreshIndex i (bbr j log ∷ items) = ((j == i) ≡ false) × IsFreshIndex i items
IsFreshIndex i (bsd s ∷ items) = IsFreshIndex i items

claim-head :
    (s : ScannerSegmentLog) (log : ScannerBatchLog) (pending : List ScannerSegmentLog)
    → matches s log ≡ true
    → claim log (s ∷ pending) ≡ some (s, pending)
unfolding claim
claim-head s log pending h = rw h refl

-- In the logs of one transaction, in their order, a batch log that directly follows a segment log with
-- its blob and its tag gets the range of that log, whatever logs came before: no segment log that was
-- declared earlier, for the same blob and tag or another, takes its place.
pub pair_items-get_range :
    (before after : List TxItem) (pending : List ScannerSegmentLog) (s : ScannerSegmentLog) (i : ℕ)
    (log : ScannerBatchLog)
    → matches s log ≡ true
    → IsFreshIndex i before
    → get_range i (pair_items (before ++ (bsd s ∷ bbr i log ∷ after)) pending) ≡ some (range_of s)
unfolding pair_items claim get_range
pair_items-get_range [] after pending s i log h fresh =
    let same : (i == i) ≡ true = ground arith in
    rw (claim-head s log pending h, pair_items) (rw (same, get_range) refl)
pair_items-get_range (bsd t ∷ before) after pending s i log h fresh =
    pair_items-get_range before after (t ∷ pending) s i log h fresh
pair_items-get_range (bbr j other ∷ before) after pending s i log h fresh =
    elim (Option-cases (claim other pending)) [
      | inl unmatched ↦
          rw (unmatched, pair_items) (pair_items-get_range before after pending s i log h fresh.1)
      | inr ((t, others), claimed) ↦
          rw (claimed, pair_items)
            (rw (fresh.0, get_range) (pair_items-get_range before after others s i log h fresh.1))
    ]
