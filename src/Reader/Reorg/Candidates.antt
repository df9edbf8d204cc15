-- ===== src/Reader/Reorg/Candidates.antt =====
-- The batches that packages/bam-reader/src/reorg-watcher.ts looks at.
use bam.Prelude.{
  ℕ, ◌-◌, ◌≤◌, ◌≡◌, arith, true, Option, some, All, All-imp, All-zip, ◌==◌, Option-cases, inl, inr,
}
use bam.Store.{BatchRow, Db}
use bam.Store.Queries.{select, list_batches, in_batches_query, meets, column}
use bam.Store.Queries.Rows.{All-select, select-All, All-list_batches, list_batches-All}
use bam.Reader.Reorg.{
  window_query, is_candidate, is_confirmed_batch, clamp_reorg_window, BlockSource, candidates,
}

-- A candidate is a confirmed batch of the chain, from the first block of the window on.
abbrev pub IsCandidate : BlockSource → ℕ → Option ℕ → BatchRow → Type 0
IsCandidate source c window b =
    ((b.chain_id == c) ≡ true)
    × (n : ℕ) × (b.block_number ≡ some n)
    × (source.head - clamp_reorg_window window ≤ n)
    × (is_confirmed_batch b.status ≡ true)

is_candidate-IsCandidate :
    (source : BlockSource) (c : ℕ) (window : Option ℕ) (b : BatchRow)
    → in_batches_query (window_query source c window) b ≡ true
    → is_candidate b ≡ true
    → IsCandidate source c window b
unfolding in_batches_query is_candidate meets column
is_candidate-IsCandidate source c window b h k = elim (Option-cases b.block_number) [
  | inl no_block ↦ absurd (ground arith)
  | inr (n, at) ↦
      let in_window = rw (at, in_batches_query) at h in
      (ground arith, n, at, ground arith, ground arith)
]

pub candidates-All :
    (source : BlockSource) (c : ℕ) (window : Option ℕ) (db : Db)
    → All (IsCandidate source c window) (candidates source c window db)
unfolding candidates
candidates-All source c window db =
    let q = window_query source c window in
    let listed = list_batches q db in
    All-imp (λ b. (in_batches_query q b ≡ true) × (is_candidate b ≡ true))
      (IsCandidate source c window) (select is_candidate listed)
      (λ b h. is_candidate-IsCandidate source c window b h.0 h.1)
      (All-zip _ _ (select is_candidate listed)
        (All-select (λ b. in_batches_query q b ≡ true) is_candidate listed (list_batches-All q db))
        (select-All is_candidate listed))

-- What holds of all batches holds of the candidates.
pub All-candidates {κ} :
    (P : BatchRow → Type κ) (source : BlockSource) (c : ℕ) (window : Option ℕ) (db : Db)
    → All P db.batches
    → All P (candidates source c window db)
unfolding candidates
All-candidates P source c window db h =
    All-select P is_candidate _ (All-list_batches P (window_query source c window) db h)
