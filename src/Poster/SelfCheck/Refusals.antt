-- ===== src/Poster/SelfCheck/Refusals.antt =====
-- What the checks before the broadcast say of a blob that passes them.
use bam.Prelude.{◌≡◌, refl, arith, Bool, true, false, not, List, [], ◌∷◌, map, Option, some, ◌==◌}
use bam.Prelude.{
  Bytes, ◌===◌, ===_iff, length, get_or, take, ltb, Result, ok, err, >>=-eq-ok, Option-cases, inl,
  inr, All, throw_if,
}
use bam.Prelude.TextMap.{TextMap, lookup}
use bam.Sdk.Errors.{SdkError, batch_too_short, unsupported_version}
use bam.Sdk.Batch.{BamMessage, decode_batch}
use bam.Sdk.Blob.{Blob, extract_segment_bytes, assemble_multi_segment_blob}
use bam.Poster.Pack.{PackPlanIncluded, validate_pack_plan_invariants}
use bam.Poster.Pack.Layout.{as_input}
use bam.Poster.Aggregator.{AggregatorBatchSelection, PackResult}
use bam.Poster.SelfCheck.{
  self_check_mismatch, slice_bytes_mismatch, decode_throw, sdk_error, plan_error, empty_pack,
  rethrow, check_segment, check_original, verify_packed_blob_round_trips, check_ranges,
  pre_broadcast,
}

-- The selection decodes, as a binary batch, to as many messages as it has.
pub record Decodes (fz : Bytes → Option Bytes) (sel : AggregatorBatchSelection) : Type 0 where
  pub messages : List BamMessage
  pub signatures : List Bytes
  pub decoded : decode_batch fz sel.payload_bytes ≡ ok (messages, signatures)
  pub same_count : length messages ≡ length sel.messages
  pub version : get_or sel.payload_bytes 0 0 ≡ 2

abbrev pub Verified :
    (Bytes → Option Bytes) → TextMap AggregatorBatchSelection → PackPlanIncluded → Type 0
Verified fz selections seg =
    (sel : AggregatorBatchSelection) × (lookup seg.content_tag selections ≡ some sel)
    × Decodes fz sel

rethrow-eq-ok :
    {E F A : Type 0} (f : E → F) (r : Result E A) {a : A} → rethrow f r ≡ ok a → r ≡ ok a
rethrow-eq-ok f (ok b) h = cc
rethrow-eq-ok f (err e) h = cc

throw_if-eq-ok : {E : Type 0} (c : Bool) (e : E) {u : Unit {0}} → throw_if c e ≡ ok u → c ≡ false
throw_if-eq-ok true e h = cc
throw_if-eq-ok false e h = refl

decode_batch-version :
    (fz : Bytes → Option Bytes) (buf : Bytes) (r : List BamMessage × List Bytes)
    → decode_batch fz buf ≡ ok r
    → get_or buf 0 0 ≡ 2
unfolding decode_batch
decode_batch-version fz buf r h =
    let (_, _, h1) = >>=-eq-ok (throw_if (ltb (length buf) 10) batch_too_short) _ h in
    let version = get_or buf 0 0 in
    let (_, two, _) =
      >>=-eq-ok (throw_if (not (version == 2)) (unsupported_version version)) _ h1 in
    let same = throw_if-eq-ok (not (version == 2)) (unsupported_version version) two in
    ground (arith, same)

check_original-Decodes :
    (fz : Bytes → Option Bytes) (b : Blob) (seg : PackPlanIncluded) (sel : AggregatorBatchSelection)
    → check_original fz b seg sel ≡ ok tt
    → Decodes fz sel
unfolding check_original
check_original-Decodes fz b seg sel h =
    let (sliced, _, h1) =
      >>=-eq-ok (rethrow sdk_error (extract_segment_bytes b seg.start_fe seg.end_fe)) _ h in
    let head = take (length sel.payload_bytes) sliced in
    let mismatch = self_check_mismatch seg.content_tag slice_bytes_mismatch in
    let (_, same, h2) = >>=-eq-ok (throw_if (not (head === sel.payload_bytes)) mismatch) _ h1 in
    let equal : (head === sel.payload_bytes) ≡ true =
      ground (arith, throw_if-eq-ok (not (head === sel.payload_bytes)) mismatch same) in
    let payload : head ≡ sel.payload_bytes = (===_iff head sel.payload_bytes).0 equal in
    let thrown = λ (e : SdkError). self_check_mismatch seg.content_tag (decode_throw e) in
    let ((messages, signatures), read, h3) =
      >>=-eq-ok (rethrow thrown (decode_batch fz head)) _ h2 in
    let decoded : decode_batch fz sel.payload_bytes ≡ ok (messages, signatures) =
      rw payload at (rethrow-eq-ok thrown (decode_batch fz head) read) in
    record {
      messages = messages;
      signatures = signatures;
      decoded = decoded;
      same_count =
          ground (arith, throw_if-eq-ok (not (length messages == length sel.messages)) _ h3);
      version = decode_batch-version fz sel.payload_bytes (messages, signatures) decoded;
    }

check_segment-Verified :
    (fz : Bytes → Option Bytes) (b : Blob) (selections : TextMap AggregatorBatchSelection)
    (seg : PackPlanIncluded)
    → check_segment fz b selections seg ≡ ok tt
    → Verified fz selections seg
unfolding check_segment
check_segment-Verified fz b selections seg h =
    elim (Option-cases (lookup seg.content_tag selections)) [
      | inl absent ↦ absurd (cc (rw (absent, check_segment) at h))
      | inr (sel, found) ↦
          (sel, found, check_original-Decodes fz b seg sel (rw (found, check_segment) at h))
    ]

verify-Verified :
    (fz : Bytes → Option Bytes) (b : Blob) (selections : TextMap AggregatorBatchSelection)
    (segs : List PackPlanIncluded)
    → verify_packed_blob_round_trips fz b segs selections ≡ ok tt
    → All (Verified fz selections) segs
unfolding verify_packed_blob_round_trips
verify-Verified fz b selections [] h = tt
verify-Verified fz b selections (seg ∷ segs) h =
    let (_, one, rest) = >>=-eq-ok (check_segment fz b selections seg) _ h in
    (check_segment-Verified fz b selections seg one, verify-Verified fz b selections segs rest)

-- When a pack passes the checks before the broadcast, every segment has a selection whose payload
-- `decodeBatch` decodes to as many messages as the selection has, and whose first byte is 2, the
-- version of the binary codec.
pub pre_broadcast-Verified :
    (fz : Bytes → Option Bytes) (pack : PackResult) (b : Blob)
    → pre_broadcast fz pack ≡ ok b
    → All (Verified fz pack.included_selections) pack.plan.included
unfolding pre_broadcast
pre_broadcast-Verified fz pack b h =
    let segs = pack.plan.included in
    let (_, _, h1) = >>=-eq-ok (throw_if (length segs == 0) empty_pack) _ h in
    let (_, _, h2) =
      >>=-eq-ok (rethrow plan_error (validate_pack_plan_invariants pack.plan)) _ h1 in
    let ((blob, assembled), _, h3) =
      >>=-eq-ok (rethrow sdk_error (assemble_multi_segment_blob (map as_input segs))) _ h2 in
    let (_, _, h4) = >>=-eq-ok (check_ranges segs assembled) _ h3 in
    let (_, verified, _) =
      >>=-eq-ok (verify_packed_blob_round_trips fz blob segs pack.included_selections) _ h4 in
    verify-Verified fz blob pack.included_selections segs verified
