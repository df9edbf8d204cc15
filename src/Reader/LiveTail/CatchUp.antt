-- ===== src/Reader/LiveTail/CatchUp.antt =====
-- packages/bam-reader/src/loop/live-tail.ts: where the cursor stands after a tick.
use bam.Prelude.{
  ℕ, ◌≤◌, ◌≡◌, refl, sym, ap, ◌∙◌, arith, true, false, ◌||◌, ltb, List, [], ◌∷◌, Option, none, some,
  All, Bool, Bool-cases, Option-cases, Result-cases, inl, inr, ◌==◌, ok, if◌then◌else◌,
}
use bam.Prelude.Sort.{All-sort_by}
use bam.Poster.Policy.{is_empty}
use bam.Store.{Db}
use bam.Reader.LogScan.{BlobBatchRegisteredEvent}
use bam.Reader.ProcessBatch.{ReaderCounters}
use bam.Reader.ProcessBatch.Runs.{}
use bam.Reader.LiveTail.{
  LiveTailOptions, Groups, Progress, add_to_group, group_by_block, sorted_groups, process_blocks,
  last_key, same_block, catch_up, follow,
}
use bam.Reader.LiveTail.Parking.{
  committed, parks, cursor_block, or_else, cursor_block-commit_block, process_blocks-committed,
}

or_else-last_key :
    (gs : Groups) (b : ℕ) (last : Option ℕ)
    → or_else (last_key gs) (some b)
      ≡ or_else (elim (last_key gs) [ none ↦ some b | some x ↦ some x ]) last
or_else-last_key gs b last = ground arith

committed-last_key :
    (opts : LiveTailOptions) (gs : Groups) (last : Option ℕ)
    → (committed opts gs last).1 ≡ false
    → (committed opts gs last).0 ≡ or_else (last_key gs) last
unfolding committed last_key
committed-last_key opts [] last h = refl
committed-last_key opts (g ∷ gs) last h = elim (Bool-cases (parks opts g)) [
  | inl stop ↦ absurd (cc (rw (stop, committed) at h))
  | inr go ↦
      let rest = committed-last_key opts gs (some g.0) (rw (go, committed) at h) in
      rw (go, committed) (rest ∙ or_else-last_key gs g.0 last)
]

All-last_key :
    (P : ℕ → Type 0) (gs : Groups) (b : ℕ)
    → All (λ (g : ℕ × List BlobBatchRegisteredEvent). P g.0) gs
    → last_key gs ≡ some b
    → P b
unfolding last_key
All-last_key P [] b h e = absurd cc
All-last_key P (g ∷ gs) b h e = elim (Option-cases (last_key gs)) [
  | inl none_later ↦
      let here : some g.0 ≡ some b = rw (none_later, last_key) at e in
      let same : g.0 ≡ b = cc in rw (← same) h.0
  | inr (x, later) ↦
      let there : some x ≡ some b = rw (later, last_key) at e in
      All-last_key P gs b h.1 (later ∙ there)
]

or_else-none : (o : Option ℕ) → or_else o none ≡ o
or_else-none none = refl
or_else-none (some b) = refl

is_empty-last_key : (gs : Groups) → last_key gs ≡ none → is_empty gs ≡ true
unfolding is_empty last_key
is_empty-last_key [] h = refl
is_empty-last_key (g ∷ gs) h = absurd (ground arith)

or_true : (b : Bool) → (b || true) ≡ true
or_true true = refl
or_true false = refl

catch_up-done :
    (opts : LiveTailOptions) (gs : Groups) (to_block : ℕ) (p : Progress) (old : Option ℕ) (db : Db)
    → p.blocked_by_transient ≡ false
    → p.last_committed_block ≡ last_key gs
    → cursor_block opts db ≡ or_else p.last_committed_block old
    → All (λ (g : ℕ × List BlobBatchRegisteredEvent). g.0 ≤ to_block) gs
    → cursor_block opts (catch_up opts gs to_block p db) ≡ some to_block
unfolding catch_up same_block
catch_up-done opts gs to_block p old db free last at keys =
    let moved = cursor_block-commit_block opts to_block 0 db in
    elim (Option-cases (last_key gs)) [
      | inl nothing ↦ rw (free, last, nothing, is_empty-last_key gs nothing, catch_up) moved
      | inr (b, top) ↦
          let below : b ≤ to_block = All-last_key (λ n. n ≤ to_block) gs b keys top in
          let same : (b == b) ≡ true = ground arith in
          let caught : p.last_committed_block ≡ some b = last ∙ top in
          let all : (is_empty gs || same_block p.last_committed_block (last_key gs)) ≡ true =
            rw (caught, top, same_block) (rw same (or_true (is_empty gs))) in
          elim (Bool-cases (ltb b to_block)) [
            | inl behind ↦ rw (free, all, caught, behind, catch_up) moved
            | inr there ↦
                let equal : b ≡ to_block = ground arith in
                rw (free, all, caught, there, catch_up) (at ∙ rw caught (ap some equal))
          ]
    ]

-- The advance to `to_block`: if no block parked, the cursor ends there.
catch_up-cursor_block :
    (opts : LiveTailOptions) (gs : Groups) (to_block : ℕ) (p : Progress) (old : Option ℕ) (db : Db)
    → (p.last_committed_block, p.blocked_by_transient) ≡ committed opts gs none
    → cursor_block opts db ≡ or_else p.last_committed_block old
    → All (λ (g : ℕ × List BlobBatchRegisteredEvent). g.0 ≤ to_block) gs
    → cursor_block opts (catch_up opts gs to_block p db) ≡ (
        if (committed opts gs none).1
        then or_else (committed opts gs none).0 old
        else some to_block)
unfolding catch_up
catch_up-cursor_block opts gs to_block p old db ended at keys =
    let last = ap (λ (x : Option ℕ × Bool). x.0) ended in
    let blocked = ap (λ (x : Option ℕ × Bool). x.1) ended in
    elim (Bool-cases p.blocked_by_transient) [
      | inl parked ↦
          let c1 : (committed opts gs none).1 ≡ true = sym blocked ∙ parked in
          rw (parked, c1, catch_up) (rw (← last) at)
      | inr free ↦
          let c1 : (committed opts gs none).1 ≡ false = sym blocked ∙ free in
          rw c1 (
            catch_up-done opts gs to_block p old db free
              (last ∙ committed-last_key opts gs none c1 ∙ or_else-none (last_key gs)) at keys)
    ]

All-keys_add :
    (P : ℕ → Type 0) (e : BlobBatchRegisteredEvent) (gs : Groups)
    → P e.block_number
    → All (λ (g : ℕ × List BlobBatchRegisteredEvent). P g.0) gs
    → All (λ (g : ℕ × List BlobBatchRegisteredEvent). P g.0) (add_to_group e gs)
unfolding add_to_group
All-keys_add P e [] he h = (he, tt)
All-keys_add P e ((b, es) ∷ gs) he h = elim (Bool-cases (b == e.block_number)) [
  | inl same ↦ rw same h
  | inr other ↦ rw other (h.0, All-keys_add P e gs he h.1)
]

All-keys_group :
    (P : ℕ → Type 0) (out : Groups) (es : List BlobBatchRegisteredEvent)
    → All (λ (e : BlobBatchRegisteredEvent). P e.block_number) es
    → All (λ (g : ℕ × List BlobBatchRegisteredEvent). P g.0) out
    → All (λ (g : ℕ × List BlobBatchRegisteredEvent). P g.0) (group_by_block out es)
unfolding group_by_block
All-keys_group P out [] h k = k
All-keys_group P out (e ∷ es) h k =
    All-keys_group P (add_to_group e out) es h.1 (All-keys_add P e out h.0 k)

-- A live tail that ends without a throw, on events in no block above `to_block`, leaves the cursor
-- where it never passes a blob that no source has: with the blocks in order, at the last one before
-- the first that has an event with a valid range and no blob (or where the cursor was, if that is the
-- first block), and at `to_block` if no block has such an event.
pub follow-cursor_block :
    (opts : LiveTailOptions) (to_block : ℕ) (events : List BlobBatchRegisteredEvent) (db : Db)
    (c : ReaderCounters) (p : Progress)
    → All (λ (e : BlobBatchRegisteredEvent). e.block_number ≤ to_block) events
    → (follow opts to_block events db c).2 ≡ ok p
    → cursor_block opts (follow opts to_block events db c).0 ≡ (
        if (committed opts (sorted_groups events) none).1
        then or_else (committed opts (sorted_groups events) none).0 (cursor_block opts db)
        else some to_block)
unfolding follow
follow-cursor_block opts to_block events db c p below h =
    let gs = sorted_groups events in
    let start : Progress = record {
      processed = 0;
      last_committed_block = none;
      blocked_by_transient = false;
    } in
    let run = process_blocks opts gs start db c in
    elim (Result-cases run.2) [
      | inr (x, failed) ↦ absurd (cc (rw (failed, follow) at h))
      | inl (q, ran) ↦
          let (ended, at) =
            process_blocks-committed opts (cursor_block opts db) gs start db c q ran refl refl in
          let keys : All (λ (g : ℕ × List BlobBatchRegisteredEvent). g.0 ≤ to_block) gs =
            unfold sorted_groups in
            All-sort_by _ _ (group_by_block [] events)
              (All-keys_group (λ n. n ≤ to_block) [] events below tt) in
          rw (ran, follow)
            (catch_up-cursor_block opts gs to_block q (cursor_block opts db) run.0 ended at keys)
    ]
