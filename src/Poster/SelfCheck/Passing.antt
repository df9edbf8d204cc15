-- ===== src/Poster/SelfCheck/Passing.antt =====
-- The checks before the broadcast on packs of the aggregator (self-check.ts, build-and-submit.ts).
use bam.Prelude.{
  ℕ, ◌*◌, ◌-◌, ◌^◌, ◌≤◌, ◌<◌, ◌≡◌, refl, sym, ◌∙◌, arith, true, false, List, [], ◌∷◌, ◌++◌, map,
  append-nil, Option, some,
}
use bam.Prelude.{
  Bytes, ===_refl, length, length-map, take, replicate, take-append_eq, ok, err, >>=-eq-ok,
  ok-injective, All, ◌==◌, if◌then◌else◌,
}
use bam.Prelude.Sort.{sort_by}
use bam.Prelude.{max, Bool-cases, inl, inr}
use bam.Prelude.TextMap.{TextMap, lookup}
use bam.Sdk.Batch.{BamMessage, encode_batch, decode_batch}
use bam.Sdk.Batch.Records.{canonical}
use bam.Sdk.Batch.RoundTrip.{decode_batch-encode_batch}
use bam.Sdk.Blob.{Blob, assemble_multi_segment_blob, extract_segment_bytes}
use bam.Sdk.Blob.Segments.{
  assemble_multi_segment_blob_fits, ExtractsAll, fes_of, total_fes, lay_out,
}
use bam.Poster.Types.{PoolView, to_bam_message}
use mathlib.Core.Path.{subst}
use bam.Poster.Pack.{PackCapacity, PackPlan, PackPlanIncluded, validate_pack_plan_invariants}
use bam.Poster.Pack.Checks.{validate_pack_plan_invariants-plan_pack}
use bam.Poster.Pack.Layout.{as_input, as_segment, total_bytes, plan_pack-IsLaidOut}
use bam.Poster.Aggregator.{
  AggregatorOptions, AggregatorState, AggregatorBatchSelection, PackResult, Entry, pack_entries,
  older, tick,
}
use bam.Poster.Aggregator.Entries.{Distinct}
use bam.Poster.Aggregator.Selections.{Enriched, Mirrors}
use bam.Poster.Aggregator.Ticks.{tick-Mirrors}
use bam.Poster.SelfCheck.{
  empty_pack, check_segment, check_original, verify_packed_blob_round_trips, check_ranges,
  pre_broadcast, binary_encoder,
}

-- The decoder on what the binary encoder made.
decode_batch-binary_encoder :
    (fz : Bytes → Option Bytes) (ms : List BamMessage) (sigs : List Bytes) (payload : Bytes)
    → binary_encoder ms sigs ≡ ok payload
    → length payload < 2 ^ 32
    → decode_batch fz payload ≡ ok (map canonical ms, sigs)
unfolding binary_encoder
decode_batch-binary_encoder fz ms sigs payload h small =
    let (e, encoded, eq) = >>=-eq-ok (encode_batch ms sigs false) _ h in
    let same : e.batch_data ≡ payload = ok-injective eq in
    let whole = decode_batch-encode_batch fz ms sigs e [] encoded (rw same small) in
    rw (append-nil e.batch_data, same) at whole

-- What a blob holds for the segments of a plan.
abbrev pub Holds : Blob → PackPlanIncluded → Type 0
Holds b seg =
    extract_segment_bytes b seg.start_fe seg.end_fe
    ≡ ok (seg.payload_bytes ++ replicate (fes_of (as_input seg) * 31 - length seg.payload_bytes) 0)

ExtractsAll-Holds :
    (b : Blob) (segs : List PackPlanIncluded)
    → All (λ seg. 0 < length seg.payload_bytes) segs
    → ExtractsAll b (map as_input segs) (map as_segment segs)
    → All (Holds b) segs
ExtractsAll-Holds b [] pos h = tt
ExtractsAll-Holds b (seg ∷ segs) pos h =
    let some_bytes : (length seg.payload_bytes == 0) ≡ false = ground (arith, pos.0) in
    (rw some_bytes at h.0.1, ExtractsAll-Holds b segs pos.1 h.1)

check_segment-ok :
    (fz : Bytes → Option Bytes) (opts : AggregatorOptions) (b : Blob)
    (selections : TextMap AggregatorBatchSelection) (seg : PackPlanIncluded)
    → opts.encode ≡ binary_encoder
    → Holds b seg
    → length seg.payload_bytes < 2 ^ 32
    → Enriched opts (lookup seg.content_tag selections) seg.content_tag seg.payload_bytes
    → check_segment fz b selections seg ≡ ok tt
unfolding check_segment check_original
check_segment-ok fz opts b selections seg binary holds small (sel, found, _, same, encoded) =
    let decoded =
      decode_batch-binary_encoder fz (map to_bam_message sel.messages)
        (map (λ m. m.signature) sel.messages) seg.payload_bytes (rw binary at encoded) small in
    let counts : length (map canonical (map to_bam_message sel.messages)) ≡ length sel.messages =
      length-map canonical (map to_bam_message sel.messages)
      ∙ length-map to_bam_message sel.messages in
    let pad : Bytes = replicate (fes_of (as_input seg) * 31 - length seg.payload_bytes) 0 in
    let same_count : (length (map canonical (map to_bam_message sel.messages))
          == length sel.messages)
        ≡ true =
      ground (arith, counts) in
    rw (found, check_segment)
      (simp (
        holds,
        same,
        take-append_eq (length seg.payload_bytes) seg.payload_bytes pad refl,
        ===_refl seg.payload_bytes,
        decoded,
        same_count,
      ))

verify-ok :
    (fz : Bytes → Option Bytes) (opts : AggregatorOptions) (b : Blob)
    (selections : TextMap AggregatorBatchSelection) (segs : List PackPlanIncluded)
    → opts.encode ≡ binary_encoder
    → All (Holds b) segs
    → total_bytes segs < 2 ^ 32
    → Mirrors opts selections segs
    → verify_packed_blob_round_trips fz b segs selections ≡ ok tt
unfolding verify_packed_blob_round_trips total_bytes
verify-ok fz opts b selections [] binary holds small mirrors = refl
verify-ok fz opts b selections (seg ∷ segs) binary holds small mirrors =
    rw (check_segment-ok fz opts b selections seg binary holds.0 (omega arith) mirrors.0)
      (verify-ok fz opts b selections segs binary holds.1 (omega arith) mirrors.1)

check_ranges-as_segment :
    (segs : List PackPlanIncluded) → check_ranges segs (map as_segment segs) ≡ ok tt
unfolding check_ranges
check_ranges-as_segment [] = refl
check_ranges-as_segment (seg ∷ segs) = ground (arith, check_ranges-as_segment segs)

-- What `plan_pack-IsLaidOut` says of a plan.
abbrev PlanFacts : PackCapacity → PackPlan → Type 0
PlanFacts capacity plan =
    (map as_segment plan.included ≡ lay_out 0 (map as_input plan.included))
    × (total_fes (map as_input plan.included) ≤ capacity.max_fes)
    × (total_bytes plan.included ≤ capacity.max_bytes)
    × All (λ seg. 0 < length seg.payload_bytes) plan.included

-- A plan of the aggregator is one of `plan_pack`.
pack_entries-valid :
    (opts : AggregatorOptions) (entries : List Entry)
    → opts.capacity.max_fes ≤ 4096
    → PlanFacts opts.capacity (pack_entries opts entries)
      × (validate_pack_plan_invariants (pack_entries opts entries) ≡ ok tt)
unfolding pack_entries
pack_entries-valid opts entries fits =
    let input =
      take (max 1 opts.max_tags_per_pack)
        (sort_by older (map (λ (e : Entry). e.selection) entries)) in
    (
      plan_pack-IsLaidOut input opts.capacity,
      validate_pack_plan_invariants-plan_pack input opts.capacity fits,
    )

-- What the assembly of a tick's pack gives.
pub record PackBlob (opts : AggregatorOptions) (pack : PackResult) : Type 0 where
  pub blob : Blob
  pub assembled :
      assemble_multi_segment_blob (map as_input pack.plan.included)
      ≡ ok (blob, map as_segment pack.plan.included)
  pub holds : All (Holds blob) pack.plan.included
  pub mirrors : Mirrors opts pack.included_selections pack.plan.included
  pub small : total_bytes pack.plan.included < 2 ^ 32
  pub valid : validate_pack_plan_invariants pack.plan ≡ ok tt

pub tick-PackBlob :
    (opts : AggregatorOptions) (pool : PoolView) (now : ℕ) (state : AggregatorState)
    (pack : PackResult)
    → Distinct opts.tags
    → opts.capacity.max_fes ≤ 4096
    → opts.capacity.max_bytes < 2 ^ 32
    → (tick opts pool now state).1 ≡ ok (some pack)
    → PackBlob opts pack
tick-PackBlob opts pool now state pack d fes_fit bytes_fit ticked =
    let (mirrors, (fired, passengers, _, _, _, planned)) =
      tick-Mirrors opts pool now state pack d ticked in
    let entries = fired ++ passengers in
    let segs = pack.plan.included in
    let (facts, valid) =
      subst (λ p. PlanFacts opts.capacity p × (validate_pack_plan_invariants p ≡ ok tt))
        (sym planned) (pack_entries-valid opts entries fes_fit) in
    let (ranges, fes, bytes, pos) = facts in
    let (b, assembled, extracts, _) =
      assemble_multi_segment_blob_fits (map as_input segs) (omega arith) in
    record {
      blob = b;
      assembled = rw ranges assembled;
      holds =
          ExtractsAll-Holds b segs pos
            (subst (λ gs. ExtractsAll b (map as_input segs) gs) (sym ranges) extracts);
      mirrors = mirrors;
      small = omega arith;
      valid = valid;
    }

-- A pack that a tick made with the binary encoder over distinct tags, with a capacity of at most 4096
-- field elements and fewer than 2^32 bytes, assembles into a blob whose ranges are the planned ones,
-- and every check before the broadcast passes and yields that blob; if the plan includes nothing, it
-- is refused as `empty_pack`.
pub pre_broadcast-tick :
    (fz : Bytes → Option Bytes) (opts : AggregatorOptions) (pool : PoolView) (now : ℕ)
    (state : AggregatorState) (pack : PackResult)
    → Distinct opts.tags
    → opts.encode ≡ binary_encoder
    → opts.capacity.max_fes ≤ 4096
    → opts.capacity.max_bytes < 2 ^ 32
    → (tick opts pool now state).1 ≡ ok (some pack)
    → (b : Blob) × (pre_broadcast fz pack
        ≡ (if length pack.plan.included == 0 then err empty_pack else ok b))
      × (assemble_multi_segment_blob (map as_input pack.plan.included)
          ≡ ok (b, map as_segment pack.plan.included))
unfolding pre_broadcast
pre_broadcast-tick fz opts pool now state pack d binary fes_fit bytes_fit ticked =
    let p = tick-PackBlob opts pool now state pack d fes_fit bytes_fit ticked in
    let segs = pack.plan.included in
    let verified =
      verify-ok fz opts p.blob pack.included_selections segs binary p.holds p.small p.mirrors in
    (
      p.blob,
      elim (Bool-cases (length segs == 0)) [
        | inl nothing ↦ simp nothing
        | inr something ↦
            simp (something, p.valid, p.assembled, check_ranges-as_segment segs, verified)
      ],
      p.assembled,
    )
