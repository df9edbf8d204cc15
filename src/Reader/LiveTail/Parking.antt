-- ===== src/Reader/LiveTail/Parking.antt =====
-- packages/bam-reader/src/loop/live-tail.ts: the blocks at which a tick parks.
use bam.Prelude.{
  ℕ, ◌≡◌, refl, sym, ◌∙◌, true, false, List, [], ◌∷◌, Option, none, some, Bool, Bool-cases,
  Option-cases, Result-cases, inl, inr, ok, ok-injective, if◌then◌else◌,
}
use bam.Store.{Db}
use bam.Store.Tables.{ReaderCursorRow}
use bam.Store.Cursor.{get_cursor, get_cursor-set_cursor}
use bam.Reader.LogScan.{BlobBatchRegisteredEvent}
use bam.Reader.ProcessBatch.{ReaderCounters}
use bam.Reader.ProcessBatch.Runs.{}
use bam.Reader.LiveTail.{
  LiveTailOptions, Groups, Progress, process_events, commit_block, by_log_index, process_blocks,
}
use bam.Reader.LiveTail.Events.{any_unreachable, process_events-result}

-- A block parks if one of its events does.
unfoldable pub parks : LiveTailOptions → ℕ × List BlobBatchRegisteredEvent → Bool
unfolding any_unreachable
parks opts (b, es) = elim (opts.get_block_header b) [
  | none ↦ false
  | some header ↦ any_unreachable opts header (by_log_index es)
]

-- The last block before the first that parks, after `last`, and whether one parks.
unfoldable pub committed : LiveTailOptions → Groups → Option ℕ → Option ℕ × Bool
unfolding parks
committed opts [] last = (last, false)
committed opts (g ∷ gs) last =
    let rest = committed opts gs (some g.0) in if parks opts g then (last, true) else rest

-- The block of the chain's cursor.
unfoldable pub cursor_block : LiveTailOptions → Db → Option ℕ
unfolding get_cursor
cursor_block opts db = elim (get_cursor opts.chain_id db) [
  | none ↦ none
  | some cursor ↦ some cursor.last_block_number
]

abbrev pub or_else : Option ℕ → Option ℕ → Option ℕ
or_else none old = old
or_else (some b) old = some b

pub cursor_block-commit_block :
    (opts : LiveTailOptions) (b tx : ℕ) (db : Db)
    → cursor_block opts (commit_block opts b tx db) ≡ some b
unfolding cursor_block
cursor_block-commit_block opts b tx db =
    let row : ReaderCursorRow = record {
      chain_id = opts.chain_id;
      last_block_number = b;
      last_tx_index = tx;
      updated_at = opts.now;
    } in
    rw (get_cursor-set_cursor row db, cursor_block) refl

cursor_block-same :
    (opts : LiveTailOptions) (a b : Db)
    → b.reader_cursor ≡ a.reader_cursor
    → cursor_block opts b ≡ cursor_block opts a
unfolding cursor_block get_cursor
cursor_block-same opts a b h = rw h refl

-- The loop over the blocks: how it ends, and the cursor, where `old` was the cursor at its start.
pub process_blocks-committed :
    (opts : LiveTailOptions) (old : Option ℕ) (gs : Groups) (p : Progress) (db : Db)
    (c : ReaderCounters) (p' : Progress)
    → (process_blocks opts gs p db c).2 ≡ ok p'
    → p.blocked_by_transient ≡ false
    → cursor_block opts db ≡ or_else p.last_committed_block old
    → ((p'.last_committed_block, p'.blocked_by_transient)
        ≡ committed opts gs p.last_committed_block)
      × (cursor_block opts (process_blocks opts gs p db c).0 ≡ or_else p'.last_committed_block old)
unfolding process_blocks committed parks
process_blocks-committed opts old [] p db c p' h free at =
    let same : p ≡ p' = ok-injective h in rw (← same) (rw free refl, at)
process_blocks-committed opts old ((b, es) ∷ gs) p db c p' h free at =
    elim (Option-cases (opts.get_block_header b)) [
      | inl no_header ↦ absurd (cc (rw (no_header, process_blocks) at h))
      | inr (header, found) ↦
          let run = process_events opts header (by_log_index es) 0 false db c in
          elim (Result-cases run.2) [
            | inr (x, failed) ↦ absurd (cc (rw (found, failed, process_blocks) at h))
            | inl ((top, transient), ran) ↦
                let (seen, same) =
                  process_events-result opts header (by_log_index es) 0 false db c top transient
                    ran in
                elim (Bool-cases transient) [
                  | inl parked ↦
                      let e : record p { blocked_by_transient = true } ≡ p' =
                        ok-injective (rw (found, ran, parked, process_blocks) at h) in
                      let stop : any_unreachable opts header (by_log_index es) ≡ true =
                        sym seen ∙ parked in
                      rw (found, ran, parked, process_blocks)
                        (rw (← e) (
                          rw (found, stop, committed, parks) refl,
                          cursor_block-same opts db run.0 same ∙ at,
                        ))
                  | inr went_on ↦
                      let go : any_unreachable opts header (by_log_index es) ≡ false =
                        sym seen ∙ went_on in
                      let h' = rw (found, ran, went_on, process_blocks) at h in
                      let rest =
                        process_blocks-committed opts old gs _ (commit_block opts b top run.0) run.1
                          p' h' refl (cursor_block-commit_block opts b top run.0) in
                      rw (found, ran, went_on, process_blocks)
                        (rw (found, go, committed, parks) rest)
                ]
          ]
    ]
