-- ===== src/Poster/Pack/Layout.antt =====
-- The ranges of a plan of packages/bam-poster/src/submission/pack.ts, against those of the SDK.
use bam.Prelude.{ℕ, ◌+◌, ◌≤◌, ◌<◌, ◌≡◌, refl, arith, List, [], ◌∷◌, map}
use bam.Prelude.{length, Bool-cases, inl, inr, All, ap}
use bam.Prelude.Sort.{sort_by}
use bam.Sdk.Blob.{MultiSegmentInput, AssembledSegment}
use bam.Sdk.Blob.Segments.{total_fes, lay_out}
use bam.Poster.Pack.{
  PerTagSelection, PackPlanIncluded, PackPlan, PackCapacity, is_excluded, plan_from, plan_pack,
  compare_selections, add_included, fe_count_for_payload,
}
use bam.Poster.Pack.Checks.{
  plan_from-excluded, plan_from-included, is_excluded-false, fe_count_for_payload_lem,
}

-- `pack.plan.included.map((seg) => ({ contentTag, payload }))`
abbrev pub as_input : PackPlanIncluded → MultiSegmentInput
as_input seg = record { content_tag = seg.content_tag; payload = seg.payload_bytes }

abbrev pub as_segment : PackPlanIncluded → AssembledSegment
as_segment seg = record {
  content_tag = seg.content_tag;
  start_fe = seg.start_fe;
  end_fe = seg.end_fe;
}

-- The bytes of all included payloads.
unfoldable pub total_bytes : List PackPlanIncluded → ℕ
total_bytes [] = 0
total_bytes (seg ∷ rest) = length seg.payload_bytes + total_bytes rest

-- What the included segments of a plan satisfy, from `cursor` on with `used` bytes used.
abbrev IsLaidOut : PackCapacity → ℕ → ℕ → List PackPlanIncluded → Type 0
IsLaidOut capacity cursor used segs =
    (map as_segment segs ≡ lay_out cursor (map as_input segs))
    × (cursor + total_fes (map as_input segs) ≤ capacity.max_fes)
    × (used + total_bytes segs ≤ capacity.max_bytes)
    × All (λ seg. 0 < length seg.payload_bytes) segs

IsLaidOut-add_included :
    (capacity : PackCapacity) (cursor used : ℕ) (s : PerTagSelection) (plan : PackPlan)
    → 0 < length s.payload_bytes
    → IsLaidOut capacity
        (cursor + fe_count_for_payload (length s.payload_bytes))
        (used + length s.payload_bytes)
        plan.included
    → IsLaidOut capacity cursor used (add_included cursor s plan).included
unfolding total_fes total_bytes lay_out
IsLaidOut-add_included capacity cursor used s plan pos (ranges, fes, bytes, rest) =
    let e = fe_count_for_payload_lem (length s.payload_bytes) in
    let head : AssembledSegment = record {
      content_tag = s.content_tag;
      start_fe = cursor;
      end_fe = cursor + fe_count_for_payload (length s.payload_bytes);
    } in
    (rw (← e) (ap (λ t. head ∷ t) ranges), omega (arith, e), omega arith, (pos, rest))

plan_from-IsLaidOut :
    (capacity : PackCapacity) (cursor used : ℕ) (l : List PerTagSelection)
    → cursor ≤ capacity.max_fes
    → used ≤ capacity.max_bytes
    → IsLaidOut capacity cursor used (plan_from capacity cursor used l).included
plan_from-IsLaidOut capacity cursor used [] h k =
    unfold plan_from total_fes total_bytes lay_out in (refl, omega arith, omega arith, tt)
plan_from-IsLaidOut capacity cursor used (s ∷ rest) h k =
    elim (Bool-cases (is_excluded capacity cursor used s)) [
      | inl out ↦
          rw (plan_from-excluded capacity cursor used s rest out)
            (plan_from-IsLaidOut capacity cursor used rest h k)
      | inr fits ↦
          let n = length s.payload_bytes in
          let (some_bytes, fes_fit, bytes_fit) = is_excluded-false capacity cursor used s fits in
          let next = plan_from capacity (cursor + fe_count_for_payload n) (used + n) rest in
          rw (plan_from-included capacity cursor used s rest fits) (
            IsLaidOut-add_included capacity cursor used s next some_bytes (
              plan_from-IsLaidOut capacity (cursor + fe_count_for_payload n) (used + n) rest fes_fit
                bytes_fit))
    ]

-- The included segments of a plan have payloads that are not empty; their ranges are exactly those
-- that `assembleMultiSegmentBlob` gives to their payloads, laid out from field element 0 with no
-- gap; and they keep within both capacities.
pub plan_pack-IsLaidOut :
    (input : List PerTagSelection) (capacity : PackCapacity)
    → let segs = (plan_pack input capacity).included in
      (map as_segment segs ≡ lay_out 0 (map as_input segs))
      × (total_fes (map as_input segs) ≤ capacity.max_fes)
      × (total_bytes segs ≤ capacity.max_bytes)
      × All (λ seg. 0 < length seg.payload_bytes) segs
unfolding plan_pack
plan_pack-IsLaidOut input capacity =
    let l = sort_by compare_selections input in
    let (ranges, fes, bytes, pos) =
      plan_from-IsLaidOut capacity 0 0 l (omega arith) (omega arith) in
    (ranges, omega arith, omega arith, pos)
