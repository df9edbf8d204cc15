-- ===== src/Reader/ProcessBatch/Safety.antt =====
-- packages/bam-reader/src/loop/process-batch.ts: what a run writes and counts.
use bam.Prelude.{ℕ, ◌+◌, ◌≡◌, refl, arith, List, [], ◌∷◌, length, Option, none, some, inl, inr}
use bam.Prelude.{Text, ok, ltb, leb, false, ◌<◌, ◌≤◌}
use bam.Store.Tables.{BatchMessageSnapshotEntry}
use bam.Store.{Db}
use bam.Store.Batches.{upsert_batch}
use bam.Store.Steps.{Steps, done, prepend, batch_upserted}
use bam.Reader.Decode.{Decoded, validate_segment_range}
use bam.Reader.ProcessBatch.{
  ReaderCounters, ProcessBatchOptions, ProcessBatchResult, VerifiedEntry, process_batch, base_batch,
  message_id_of,
}
use bam.Reader.ProcessBatch.Loops.{IsVerified, KeepsConfirmed, WrittenAt}
use bam.Reader.ProcessBatch.Runs.{decoded_of, batch_with, process_batch-ProcessRun}

-- A run of `processBatch` that does not throw takes the database through writes of the store's state
-- machine only, so that what holds after any such writes holds after the run.
pub process_batch-Steps :
    (opts : ProcessBatchOptions) (a b : Db) (c : ReaderCounters) (r : ProcessBatchResult)
    → (process_batch opts a c).1 ≡ ok (r, b)
    → Steps a b
process_batch-Steps opts a b c r h = elim (process_batch-ProcessRun opts a b c r h) [
  | inl (_, inl (_, same, _)) ↦ rw same done
  | inl (_, inr (inl (_, stored, _))) ↦ rw stored (prepend (batch_upserted (base_batch opts)) done)
  | inl (_, inr (inr (_, stored, _))) ↦ rw stored (prepend (batch_upserted (base_batch opts)) done)
  | inr (d, _, run) ↦ prepend (batch_upserted (batch_with opts run.snapshot)) run.write_run.steps
]

-- The messages that a run is to account for.
abbrev pub message_count_of : Option Decoded → ℕ
message_count_of none = 0
message_count_of (some d) = length d.0

abbrev pub batch_skips : Option Decoded → ℕ
batch_skips none = 1
batch_skips (some d) = 0

-- A run of `processBatch` that does not throw, and whose writing transaction commits at its first
-- attempt, counts every decoded message once, as written, refused by the verification or in conflict
-- with a stored one, and counts the batch as out of range, unreachable or undecodable exactly if
-- nothing was decoded; and it reports as written the messages that it counts as decoded.
pub process_batch_accounts :
    (opts : ProcessBatchOptions) (a b : Db) (c : ReaderCounters) (r : ProcessBatchResult)
    → opts.aborted_attempts opts.event ≡ []
    → (process_batch opts a c).1 ≡ ok (r, b)
    → let c' = (process_batch opts a c).0 in
      (c'.decoded + c'.skipped_verify + c'.skipped_conflict
        ≡ c.decoded + c.skipped_verify + c.skipped_conflict + message_count_of (decoded_of opts))
      × (c'.skipped_range + c'.undecodable + c'.skipped_decode
          ≡ c.skipped_range + c.undecodable + c.skipped_decode + batch_skips (decoded_of opts))
      × (c'.decoded ≡ c.decoded + r.messages_written)
process_batch_accounts opts a b c r first h = elim (process_batch-ProcessRun opts a b c r h) [
  | inl (nothing, inl (result, _, counted)) ↦
      rw (nothing, counted, result) (omega arith, omega arith, omega arith)
  | inl (nothing, inr (inl (result, _, counted))) ↦
      rw (nothing, counted, result) (omega arith, omega arith, omega arith)
  | inl (nothing, inr (inr (result, _, counted))) ↦
      rw (nothing, counted, result) (omega arith, omega arith, omega arith)
  | inr (d, decoded, run) ↦
      let verified = run.verify_run.accounted in
      let wrote = run.write_run.accounted in
      let once = run.once first in
      rw (decoded, run.counted, run.result) (omega arith, omega arith, omega arith)
]

-- An entry of the decoded messages that was verified.
abbrev pub IsFrom : ProcessBatchOptions → VerifiedEntry → Type 0
IsFrom opts v = (d : Decoded) × (decoded_of opts ≡ some d) × IsVerified opts 0 d.0 d.1 v

WrittenAt-imp :
    (P Q : VerifiedEntry → Type 0) (opts : ProcessBatchOptions) (s : Text) (n : ℕ) (a b : Db)
    → ((v : VerifiedEntry) → P v → Q v)
    → WrittenAt P opts s n a b
    → WrittenAt Q opts s n a b
WrittenAt-imp P Q opts s n a b f (inl same) = inl same
WrittenAt-imp P Q opts s n a b f (inr (v, id, good, named, found)) =
    inr (v, id, f v good, named, found)

-- After a run of `processBatch` that does not throw, every key of the messages holds what it held
-- before, or the row of a message that the batch's decoder returned and whose verification with the
-- signature at the same position succeeded; and every message that was confirmed before is unchanged.
pub process_batch-WrittenAt :
    (opts : ProcessBatchOptions) (a b : Db) (c : ReaderCounters) (r : ProcessBatchResult) (s : Text)
    (n : ℕ)
    → (process_batch opts a c).1 ≡ ok (r, b)
    → WrittenAt (IsFrom opts) opts s n a b × KeepsConfirmed a b
unfolding upsert_batch
process_batch-WrittenAt opts a b c r s n h = elim (process_batch-ProcessRun opts a b c r h) [
  | inl (_, inl (_, same, _)) ↦ rw same (inl refl, λ s n m found final. found)
  | inl (_, inr (inl (_, stored, _))) ↦ rw stored (inl refl, λ s n m found final. found)
  | inl (_, inr (inr (_, stored, _))) ↦ rw stored (inl refl, λ s n m found final. found)
  | inr (d, decoded, run) ↦ (
    WrittenAt-imp (IsVerified opts 0 d.0 d.1) (IsFrom opts) opts s n
        (upsert_batch (batch_with opts run.snapshot) a) b (λ v good. (d, decoded, good))
        (run.write_run.written_at s n),
    run.write_run.keeps_confirmed,
  )
]

-- A snapshot that has an entry for each verified entry, in order.
unfoldable pub Lists :
    ProcessBatchOptions → List VerifiedEntry → List BatchMessageSnapshotEntry → Type 0
Lists opts [] [] = Unit {0}
Lists opts [] (e ∷ es) = ⊥
Lists opts (v ∷ vs) [] = ⊥
Lists opts (v ∷ vs) (e ∷ es) =
    ((e.sender ≡ v.message.sender)
      × (e.nonce ≡ v.message.nonce)
      × (e.message_hash ≡ v.message_hash)
      × (e.message_index_within_batch ≡ v.index_within_batch)
      × (message_id_of opts v ≡ ok e.message_id))
    × Lists opts vs es

pub validate_segment_range-ok :
    (lo hi : ℕ) → lo < hi → hi ≤ 4096 → validate_segment_range lo hi ≡ ok tt
unfolding validate_segment_range
validate_segment_range-ok lo hi h k =
    let c1 : ltb 4096 hi ≡ false = ground arith in
    let c2 : leb hi lo ≡ false = ground arith in simp (c1, c2)
