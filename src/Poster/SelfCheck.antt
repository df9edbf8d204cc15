-- ===== src/Poster/SelfCheck.antt =====
-- packages/bam-poster/src/submission/self-check.ts and, of build-and-submit.ts, the checks between
-- a pack and the transaction. The KZG commitment and the transaction are not modelled; the order
-- of the checks is the source's. The binary encoder is the default `encodeBatch` of the aggregator.
pub mod Passing
pub mod Refusals
use bam.Prelude.{
  ℕ, Bool, true, false, not, List, [], ◌∷◌, map, Option, none, some, ◌==◌, ◌&&◌, ◌||◌,
}
use bam.Prelude.{if◌then◌else◌, Bytes, Text, ◌===◌, length, take, Result, ok, err, ◌>>=◌, throw_if}
use bam.Prelude.TextMap.{TextMap, lookup}
use bam.Sdk.Errors.{SdkError}
use bam.Sdk.Batch.{BamMessage, encode_batch, decode_batch}
use bam.Sdk.Blob.{
  Blob, MultiSegmentInput, AssembledSegment, assemble_multi_segment_blob, extract_segment_bytes,
}
use bam.Poster.Pack.{PackPlanIncluded, PackError, validate_pack_plan_invariants}
use bam.Poster.Aggregator.{AggregatorBatchSelection, PackResult}

pub data Mismatch : Type 0 where
  no_matching_original_selection slice_bytes_mismatch : Mismatch
  decode_throw : SdkError → Mismatch
  message_count_differs : ℕ → ℕ → Mismatch
  plan_vs_assembly_mismatch : Mismatch

-- What the checks throw: an error of the plan, one of the SDK, or a `PackSelfCheckMismatch` with
-- the tag that it names; and `empty_pack`, which is returned. The last is for a segment that was
-- not assembled.
pub data BroadcastError : Type 0 where
  plan_error : PackError → BroadcastError
  sdk_error : SdkError → BroadcastError
  self_check_mismatch : Text → Mismatch → BroadcastError
  empty_pack unassembled : BroadcastError

-- An error under another name.
abbrev pub rethrow : {E F A : Type 0} → (E → F) → Result E A → Result F A
rethrow f (ok a) = ok a
rethrow f (err e) = err (f e)

-- Steps 1 to 4 of `verifyPackedBlobRoundTrips` on a segment and its original selection.
unfoldable pub check_original :
    (Bytes → Option Bytes)
    → Blob
    → PackPlanIncluded
    → AggregatorBatchSelection
    → Result BroadcastError (Unit {0})
unfolding ◌===◌
check_original fzstd_decompress blob seg original = do
  sliced ← rethrow sdk_error (extract_segment_bytes blob seg.start_fe seg.end_fe)
  let head = take (length original.payload_bytes) sliced
  _ ←
      throw_if (not (head === original.payload_bytes))
        (self_check_mismatch seg.content_tag slice_bytes_mismatch)
  (messages, _) ←
      rethrow (λ e. self_check_mismatch seg.content_tag (decode_throw e))
        (decode_batch fzstd_decompress head)
  throw_if (not (length messages == length original.messages)) (
      self_check_mismatch seg.content_tag
        (message_count_differs (length messages) (length original.messages)))

-- The body of its loop.
unfoldable pub check_segment :
    (Bytes → Option Bytes)
    → Blob
    → TextMap AggregatorBatchSelection
    → PackPlanIncluded
    → Result BroadcastError (Unit {0})
unfolding lookup check_original
check_segment fzstd_decompress blob selections seg = elim (lookup seg.content_tag selections) [
  | none ↦ err (self_check_mismatch seg.content_tag no_matching_original_selection)
  | some original ↦ check_original fzstd_decompress blob seg original
]

unfoldable pub verify_packed_blob_round_trips :
    (Bytes → Option Bytes)
    → Blob
    → List PackPlanIncluded
    → TextMap AggregatorBatchSelection
    → Result BroadcastError (Unit {0})
unfolding check_segment
verify_packed_blob_round_trips fz blob [] selections = ok tt
verify_packed_blob_round_trips fz blob (seg ∷ segs) selections = do
  _ ← check_segment fz blob selections seg
  verify_packed_blob_round_trips fz blob segs selections

-- The loop that compares the plan's ranges with the assembled ones.
unfoldable pub check_ranges :
    List PackPlanIncluded → List AssembledSegment → Result BroadcastError (Unit {0})
check_ranges [] assembled = ok tt
check_ranges (entry ∷ rest) [] = err unassembled
check_ranges (entry ∷ rest) (asm ∷ assembled) = do
  _ ←
      throw_if (not (entry.start_fe == asm.start_fe) || not (entry.end_fe == asm.end_fe))
        (self_check_mismatch entry.content_tag plan_vs_assembly_mismatch)
  check_ranges rest assembled

-- `buildAndSubmitMulti` up to the commitment: the blob that it would broadcast.
unfoldable pub pre_broadcast : (Bytes → Option Bytes) → PackResult → Result BroadcastError Blob
unfolding verify_packed_blob_round_trips check_ranges validate_pack_plan_invariants
pre_broadcast fz pack = do
  _ ← throw_if (length pack.plan.included == 0) empty_pack
  _ ← rethrow plan_error (validate_pack_plan_invariants pack.plan)
  let segments : List MultiSegmentInput =
      map (λ seg. record { content_tag = seg.content_tag; payload = seg.payload_bytes })
        pack.plan.included
  (blob, assembled) ← rethrow sdk_error (assemble_multi_segment_blob segments)
  _ ← check_ranges pack.plan.included assembled
  _ ← verify_packed_blob_round_trips fz blob pack.plan.included pack.included_selections
  ok blob

-- The default encoder: `encodeBatch(...).batchData`.
unfoldable pub binary_encoder : List BamMessage → List Bytes → Result SdkError Bytes
binary_encoder messages signatures =
    encode_batch messages signatures false >>= λ encoded. ok encoded.batch_data
