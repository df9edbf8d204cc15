-- ===== src/Poster/Pack/Checks.antt =====
-- The rounds of the planner's loop, and the producer's checks on a plan.
use bam.Prelude.{ℕ, ◌+◌, ◌*◌, ◌≤◌, ◌<◌, ◌≡◌, refl, arith, List, [], ◌∷◌}
use bam.Prelude.{true, false, length, ok, Bool-cases, inl, inr, ◌∙◌}
use bam.Prelude.Sort.{sort_by}
use bam.Sdk.Blob.{fe_count}
use bam.Poster.Pack.{
  PerTagSelection, PackPlan, PackCapacity, is_excluded, plan_from, plan_pack, compare_selections,
  add_excluded, add_included, validate_from, validate_pack_plan_invariants, fe_count_for_payload,
}

-- One round of the loop, by its test.
pub plan_from-excluded :
    (capacity : PackCapacity) (cursor used : ℕ) (s : PerTagSelection) (rest : List PerTagSelection)
    → is_excluded capacity cursor used s ≡ true
    → plan_from capacity cursor used (s ∷ rest)
      ≡ add_excluded s (plan_from capacity cursor used rest)
unfolding plan_from
plan_from-excluded capacity cursor used s rest e = rw (e, plan_from)

pub plan_from-included :
    (capacity : PackCapacity) (cursor used : ℕ) (s : PerTagSelection) (rest : List PerTagSelection)
    → is_excluded capacity cursor used s ≡ false
    → plan_from capacity cursor used (s ∷ rest)
      ≡ add_included cursor s (
          plan_from capacity
            (cursor + fe_count_for_payload (length s.payload_bytes))
            (used + length s.payload_bytes)
            rest)
unfolding plan_from
plan_from-included capacity cursor used s rest e = rw (e, plan_from)

-- What an included selection passed.
pub is_excluded-false :
    (capacity : PackCapacity) (cursor used : ℕ) (s : PerTagSelection)
    → is_excluded capacity cursor used s ≡ false
    → (0 < length s.payload_bytes)
      × (cursor + fe_count_for_payload (length s.payload_bytes) ≤ capacity.max_fes)
      × (used + length s.payload_bytes ≤ capacity.max_bytes)
unfolding is_excluded fe_count_for_payload
is_excluded-false capacity cursor used s h = ground arith

fe_count_bounds : (n : ℕ) → 0 < n → (1 ≤ fe_count_for_payload n) × (n ≤ fe_count_for_payload n * 31)
unfolding fe_count_for_payload
fe_count_bounds n h = omega arith

pub fe_count_for_payload_lem : (n : ℕ) → fe_count_for_payload n ≡ fe_count n
unfolding fe_count fe_count_for_payload
fe_count_for_payload_lem n = refl

-- One round of the check on a segment that the planner made.
validate_from-add_included :
    (cursor : ℕ) (s : PerTagSelection) (plan : PackPlan)
    → 0 < length s.payload_bytes
    → cursor + fe_count_for_payload (length s.payload_bytes) ≤ 4096
    → validate_from cursor (add_included cursor s plan).included
      ≡ validate_from (cursor + fe_count_for_payload (length s.payload_bytes)) plan.included
unfolding validate_from
validate_from-add_included cursor s plan h fits =
    ground (arith, fe_count_bounds (length s.payload_bytes) h)

validate_from-plan_from :
    (capacity : PackCapacity) (cursor used : ℕ) (l : List PerTagSelection)
    → capacity.max_fes ≤ 4096
    → validate_from cursor (plan_from capacity cursor used l).included ≡ ok tt
validate_from-plan_from capacity cursor used [] h = unfold plan_from validate_from in refl
validate_from-plan_from capacity cursor used (s ∷ rest) h =
    elim (Bool-cases (is_excluded capacity cursor used s)) [
      | inl out ↦
          rw (plan_from-excluded capacity cursor used s rest out)
            (validate_from-plan_from capacity cursor used rest h)
      | inr fits ↦
          let n = length s.payload_bytes in
          let (some_bytes, fes_fit, _) = is_excluded-false capacity cursor used s fits in
          let next = plan_from capacity (cursor + fe_count_for_payload n) (used + n) rest in
          rw (plan_from-included capacity cursor used s rest fits) (
            validate_from-add_included cursor s next some_bytes (omega arith)
            ∙ validate_from-plan_from capacity (cursor + fe_count_for_payload n) (used + n) rest h)
    ]

-- A plan passes `validatePackPlanInvariants`, if the capacity is at most a blob's.
pub validate_pack_plan_invariants-plan_pack :
    (input : List PerTagSelection) (capacity : PackCapacity)
    → capacity.max_fes ≤ 4096
    → validate_pack_plan_invariants (plan_pack input capacity) ≡ ok tt
unfolding validate_pack_plan_invariants plan_pack
validate_pack_plan_invariants-plan_pack input capacity h =
    validate_from-plan_from capacity 0 0 (sort_by compare_selections input) h
