-- ===== src/Poster/Pack/Choice.antt =====
-- Which selections a plan of packages/bam-poster/src/submission/pack.ts includes.
use bam.Prelude.{ℕ, ◌+◌, ◌≤◌, ◌<◌, ◌≡◌, refl, sym, arith, List, [], ◌∷◌, ◌++◌, map, true, false}
use bam.Prelude.{length, Bool-cases, inl, inr, ◌⊎◌, Text, text_ltb, All, All-imp}
use bam.Prelude.Sort.{sort_by, sort_by-perm, sort_by-first, All-of_sort_by}
use bam.Poster.Pack.{
  PerTagSelection, PackPlanIncluded, PackPlan, PackCapacity, is_excluded, plan_from, plan_pack,
  compare_selections, add_included, included_segment, fe_count_for_payload,
}
use bam.Poster.Pack.Checks.{plan_from-excluded, plan_from-included}
use bam.Poster.Pack.Layout.{total_bytes}
use mathlib.Core.List.{Perm, perm_middle}
use mathlib.Core.Path.{subst}
use mathlib.Core.List.Perm

-- The tags that a plan speaks of.
abbrev pub plan_tags : PackPlan → List Text
plan_tags plan = map (λ g. g.content_tag) plan.included ++ map (λ x. x.content_tag) plan.excluded

plan_from-perm :
    (capacity : PackCapacity) (cursor used : ℕ) (l : List PerTagSelection)
    → Perm (plan_tags (plan_from capacity cursor used l)) (map (λ s. s.content_tag) l)
plan_from-perm capacity cursor used [] = unfold plan_from in Perm.refl []
plan_from-perm capacity cursor used (s ∷ rest) =
    elim (Bool-cases (is_excluded capacity cursor used s)) [
      | inl out ↦
          let next = plan_from capacity cursor used rest in
          rw (plan_from-excluded capacity cursor used s rest out) (
            Perm.trans (perm_middle (map (λ g. g.content_tag) next.included) _)
              (Perm.cons s.content_tag (plan_from-perm capacity cursor used rest)))
      | inr fits ↦ rw (plan_from-included capacity cursor used s rest fits) (
          Perm.cons s.content_tag (
            plan_from-perm capacity (cursor + fe_count_for_payload (length s.payload_bytes))
              (used + length s.payload_bytes) rest))
    ]

-- The plan lists the tags of all selections, included or excluded, each as often as the input does.
pub plan_pack-perm :
    (input : List PerTagSelection) (capacity : PackCapacity)
    → Perm (plan_tags (plan_pack input capacity)) (map (λ s. s.content_tag) input)
unfolding plan_pack
plan_pack-perm input capacity =
    Perm.trans (plan_from-perm capacity 0 0 (sort_by compare_selections input))
      (Perm.map (λ s. s.content_tag) (sort_by-perm compare_selections input))

-- The field elements of the included payloads.
unfoldable pub used_fes : List PackPlanIncluded → ℕ
used_fes [] = 0
used_fes (g ∷ gs) = fe_count_for_payload (length g.payload_bytes) + used_fes gs

-- A segment with the tag and the payload of the selection.
abbrev pub Has : PerTagSelection → List PackPlanIncluded → Type 0
Has s [] = ⊥
Has s (g ∷ gs) = (g.content_tag ≡ s.content_tag) × (g.payload_bytes ≡ s.payload_bytes) ⊎ Has s gs

-- Why a selection may be missing: it is empty, or what is left in either capacity is too little.
abbrev pub NoRoom : PackCapacity → ℕ → ℕ → PerTagSelection → Type 0
NoRoom capacity fes bytes s =
    (length s.payload_bytes ≡ 0)
    ⊎ (capacity.max_fes < fes + fe_count_for_payload (length s.payload_bytes))
    ⊎ (capacity.max_bytes < bytes + length s.payload_bytes)

is_excluded-NoRoom :
    (capacity : PackCapacity) (cursor used fes bytes : ℕ) (s : PerTagSelection)
    → cursor ≤ fes
    → used ≤ bytes
    → is_excluded capacity cursor used s ≡ true
    → NoRoom capacity fes bytes s
unfolding is_excluded fe_count_for_payload
is_excluded-NoRoom capacity cursor used fes bytes s h k e = ground arith

abbrev Placed : PackCapacity → ℕ → ℕ → List PackPlanIncluded → PerTagSelection → Type 0
Placed capacity fes bytes segs s = Has s segs ⊎ NoRoom capacity fes bytes s

Placed-mono :
    (capacity : PackCapacity) (fes bytes : ℕ) (g : PackPlanIncluded) (gs : List PackPlanIncluded)
    (l : List PerTagSelection)
    → All (Placed capacity fes bytes gs) l
    → All (Placed capacity fes bytes (g ∷ gs)) l
Placed-mono capacity fes bytes g gs [] h = tt
Placed-mono capacity fes bytes g gs (s ∷ l) h = (
  elim h.0 [ inl has ↦ inl (inr has) | inr no_room ↦ inr no_room ],
  Placed-mono capacity fes bytes g gs l h.1,
)

plan_from-Placed :
    (capacity : PackCapacity) (cursor used fes bytes : ℕ) (l : List PerTagSelection)
    → cursor + used_fes (plan_from capacity cursor used l).included ≡ fes
    → used + total_bytes (plan_from capacity cursor used l).included ≡ bytes
    → All (Placed capacity fes bytes (plan_from capacity cursor used l).included) l
unfolding used_fes total_bytes
plan_from-Placed capacity cursor used fes bytes [] h k = tt
plan_from-Placed capacity cursor used fes bytes (s ∷ rest) h k =
    elim (Bool-cases (is_excluded capacity cursor used s)) [
      | inl out ↦
          let e = plan_from-excluded capacity cursor used s rest out in
          let h' = rw e at h in
          let k' = rw e at k in
          subst (λ p. All (Placed capacity fes bytes p.included) (s ∷ rest)) (sym e)
            (
              inr (
                  is_excluded-NoRoom capacity cursor used fes bytes s (omega arith) (omega arith)
                    out),
              plan_from-Placed capacity cursor used fes bytes rest h' k',
            )
      | inr fits ↦
          let n = length s.payload_bytes in
          let e = plan_from-included capacity cursor used s rest fits in
          let h' = rw e at h in
          let k' = rw e at k in
          subst (λ p. All (Placed capacity fes bytes p.included) (s ∷ rest)) (sym e)
            (
              inl (inl (refl, refl)),
              Placed-mono capacity fes bytes (included_segment cursor s)
                  (plan_from capacity (cursor + fe_count_for_payload n) (used + n) rest).included
                  rest
                  (plan_from-Placed capacity (cursor + fe_count_for_payload n) (used + n) fes bytes
                    rest (omega arith) (omega arith)),
            )
    ]

-- The plan is maximal: every selection of the input is included with its payload, or its payload is
-- empty, or it does not fit in what the included segments leave of the field elements or the bytes.
pub plan_pack_maximal :
    (input : List PerTagSelection) (capacity : PackCapacity)
    → let segs = (plan_pack input capacity).included in
      All (λ s. Has s segs ⊎ NoRoom capacity (used_fes segs) (total_bytes segs) s) input
unfolding plan_pack
plan_pack_maximal input capacity = All-of_sort_by compare_selections _ input (
    plan_from-Placed capacity 0 0 _ _ (sort_by compare_selections input) (omega arith)
      (omega arith))

-- The oldest message of the one is older than that of the other, or as old with a smaller tag.
abbrev pub Precedes : PerTagSelection → PerTagSelection → Type 0
Precedes s t =
    (s.oldest_ingested_at < t.oldest_ingested_at)
    ⊎ ((s.oldest_ingested_at ≡ t.oldest_ingested_at)
        × (text_ltb s.content_tag t.content_tag ≡ true))

-- The same, or both have the same age and neither tag is smaller.
abbrev pub PrecedesOrTies : PerTagSelection → PerTagSelection → Type 0
PrecedesOrTies s t =
    (s.oldest_ingested_at < t.oldest_ingested_at)
    ⊎ ((s.oldest_ingested_at ≡ t.oldest_ingested_at)
        × (text_ltb t.content_tag s.content_tag ≡ false))

compare_selections-Precedes : (s t : PerTagSelection) → Precedes s t → compare_selections s t ≡ true
unfolding compare_selections
compare_selections-Precedes s t (inl older) = ground arith
compare_selections-Precedes s t (inr (same, tag)) = ground arith

compare_selections-PrecedesOrTies :
    (s t : PerTagSelection) → PrecedesOrTies s t → compare_selections t s ≡ false
unfolding compare_selections
compare_selections-PrecedesOrTies s t (inl older) = ground arith
compare_selections-PrecedesOrTies s t (inr (same, tag)) = ground arith

-- The first segment of the blob is the oldest selection. A selection that precedes all those listed
-- before it, by the time of its oldest message and among equals by its tag, and precedes or ties with
-- those listed after it, is placed first, if it is not empty and fits on its own.
pub plan_pack_oldest :
    (before after : List PerTagSelection) (s : PerTagSelection) (capacity : PackCapacity)
    → All (Precedes s) before
    → All (PrecedesOrTies s) after
    → 0 < length s.payload_bytes
    → fe_count_for_payload (length s.payload_bytes) ≤ capacity.max_fes
    → length s.payload_bytes ≤ capacity.max_bytes
    → (rest : PackPlan) × (plan_pack (before ++ (s ∷ after)) capacity ≡ add_included 0 s rest)
unfolding plan_pack
plan_pack_oldest before after s capacity hb ha pos fes bytes =
    let (rest, e) =
      sort_by-first compare_selections before s after
        (All-imp (Precedes s) _ before (compare_selections-Precedes s) hb)
        (All-imp (PrecedesOrTies s) _ after (compare_selections-PrecedesOrTies s) ha) in
    let fits : is_excluded capacity 0 0 s ≡ false =
      unfold is_excluded fe_count_for_payload in ground arith in
    let n = length s.payload_bytes in
    (
      plan_from capacity (0 + fe_count_for_payload n) (0 + n) rest,
      rw e (plan_from-included capacity 0 0 s rest fits),
    )
