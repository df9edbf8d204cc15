-- ===== src/Poster/Aggregator/Selections.antt =====
-- The maps `enriched` and `includedSelections` of
-- packages/bam-poster/src/submission/aggregator.ts, against the plan.
use bam.Prelude.{
  ℕ, ◌+◌, ◌≡◌, refl, sym, ap, ◌∙◌, arith, false, List, [], ◌∷◌, ◌++◌, map, Option, some, take,
}
use bam.Prelude.{Bytes, Text, ◌===◌, ===_iff, length, ok, ok-injective, All, All-take}
use bam.Prelude.{Bool-cases, Option-cases, inl, inr, ◌⊎◌, max}
use bam.Prelude.Sort.{sort_by, All-sort_by}
use bam.Prelude.TextMap.{TextMap, lookup, insert, lookup-insert}
use bam.Poster.Types.{to_bam_message}
use bam.Poster.Pack.{
  PerTagSelection, PackPlanIncluded, PackCapacity, plan_pack, plan_from, compare_selections,
  is_excluded, fe_count_for_payload,
}
use bam.Poster.Pack.Checks.{plan_from-excluded, plan_from-included}
use bam.Poster.Aggregator.{
  AggregatorOptions, AggregatorBatchSelection, Entry, has_tag, enrich, prune, older, pack_entries,
  finish, PackResult, AggregatorState,
}
use bam.Prelude.{drop}
use bam.Poster.Aggregator.Entries.{tags_of, Distinct, IsEntry}

-- The segment holds the payload of an entry under its tag.
abbrev pub From : List Entry → Text → Bytes → Type 0
From [] tag payload = ⊥
From (e ∷ es) tag payload =
    (e.selection.content_tag ≡ tag) × (e.selection.payload_bytes ≡ payload) ⊎ From es tag payload

-- Every segment of a plan is made from a selection that the planner was given.
plan_from-All :
    (P : Text → Bytes → Type 0) (capacity : PackCapacity) (cursor used : ℕ)
    (l : List PerTagSelection)
    → All (λ s. P s.content_tag s.payload_bytes) l
    → All (λ g. P g.content_tag g.payload_bytes) (plan_from capacity cursor used l).included
unfolding plan_from
plan_from-All P capacity cursor used [] h = tt
plan_from-All P capacity cursor used (s ∷ rest) h =
    elim (Bool-cases (is_excluded capacity cursor used s)) [
      | inl out ↦
          rw (plan_from-excluded capacity cursor used s rest out)
            (plan_from-All P capacity cursor used rest h.1)
      | inr fits ↦ rw (plan_from-included capacity cursor used s rest fits) (
        h.0,
        plan_from-All P capacity (cursor + fe_count_for_payload (length s.payload_bytes))
            (used + length s.payload_bytes) rest h.1,
      )
    ]

plan_pack-All :
    (P : Text → Bytes → Type 0) (input : List PerTagSelection) (capacity : PackCapacity)
    → All (λ s. P s.content_tag s.payload_bytes) input
    → All (λ g. P g.content_tag g.payload_bytes) (plan_pack input capacity).included
unfolding plan_pack
plan_pack-All P input capacity h =
    plan_from-All P capacity 0 0 (sort_by compare_selections input)
      (All-sort_by compare_selections (λ s. P s.content_tag s.payload_bytes) input h)

From-mono :
    (e : Entry) (es : List Entry) (l : List PerTagSelection)
    → All (λ s. From es s.content_tag s.payload_bytes) l
    → All (λ s. From (e ∷ es) s.content_tag s.payload_bytes) l
From-mono e es [] h = tt
From-mono e es (s ∷ l) h = (inr h.0, From-mono e es l h.1)

From-self :
    (es : List Entry)
    → All (λ s. From es s.content_tag s.payload_bytes) (map (λ (e : Entry). e.selection) es)
From-self [] = tt
From-self (e ∷ es) = (inl (refl, refl), From-mono e es _ (From-self es))

pub pack_entries-From :
    (opts : AggregatorOptions) (es : List Entry)
    → All (λ g. From es g.content_tag g.payload_bytes) (pack_entries opts es).included
unfolding pack_entries
pack_entries-From opts es =
    let P = λ (t : Text) (b : Bytes). From es t b in
    let sorted = sort_by older (map (λ (e : Entry). e.selection) es) in
    plan_pack-All P (take (max 1 opts.max_tags_per_pack) sorted) opts.capacity (
      All-take (λ s. P s.content_tag s.payload_bytes) (max 1 opts.max_tags_per_pack) sorted
        (All-sort_by older (λ s. P s.content_tag s.payload_bytes) _ (From-self es)))

-- Later entries leave a tag that they do not have.
lookup-enrich_other :
    (tag : Text) (es : List Entry) (m : TextMap AggregatorBatchSelection)
    → has_tag tag (tags_of es) ≡ false
    → lookup tag (enrich es m) ≡ lookup tag m
unfolding enrich has_tag
lookup-enrich_other tag [] m h = refl
lookup-enrich_other tag (e ∷ es) m h = elim (Bool-cases (e.selection.content_tag === tag)) [
  | inl same ↦ absurd (ground arith)
  | inr other ↦
      lookup-enrich_other tag es (insert e.selection.content_tag e.enriched m) (ground arith)
      ∙ lookup-insert e.selection.content_tag tag e.enriched m
      ∙ rw other
]

-- What an entry's tag finds in `enriched` encodes the payload.
abbrev pub Enriched : AggregatorOptions → Option AggregatorBatchSelection → Text → Bytes → Type 0
Enriched opts found tag payload =
    (sel : AggregatorBatchSelection) × (found ≡ some sel)
    × (sel.content_tag ≡ tag)
    × (sel.payload_bytes ≡ payload)
    × (opts.encode (map to_bam_message sel.messages) (map (λ m. m.signature) sel.messages)
        ≡ ok payload)

enrich-From :
    (opts : AggregatorOptions) (es : List Entry) (m : TextMap AggregatorBatchSelection) (tag : Text)
    (payload : Bytes)
    → All (IsEntry opts) es
    → Distinct (tags_of es)
    → From es tag payload
    → Enriched opts (lookup tag (enrich es m)) tag payload
unfolding enrich
enrich-From opts [] m tag payload h d x = elim x [ ]
enrich-From opts (e ∷ es) m tag payload h d (inl (named, held)) =
    let m' = insert e.selection.content_tag e.enriched m in
    let found : lookup e.selection.content_tag (enrich (e ∷ es) m) ≡ some e.enriched =
      lookup-enrich_other e.selection.content_tag es m' d.0
      ∙ lookup-insert e.selection.content_tag e.selection.content_tag e.enriched m
      ∙ rw ((===_iff e.selection.content_tag e.selection.content_tag).1 refl) in
    (
      e.enriched,
      rw (← named) found,
      h.0.same_tag ∙ named,
      h.0.same_payload ∙ held,
      h.0.encoded ∙ ap ok (h.0.same_payload ∙ held),
    )
enrich-From opts (e ∷ es) m tag payload h d (inr later) =
    enrich-From opts es (insert e.selection.content_tag e.enriched m) tag payload h.1 d.1 later

-- Each segment's tag is found, and what it finds encodes the segment's payload.
abbrev pub Mirrors :
    AggregatorOptions → TextMap AggregatorBatchSelection → List PackPlanIncluded → Type 0
Mirrors opts m = All (λ g. Enriched opts (lookup g.content_tag m) g.content_tag g.payload_bytes)

-- A tag that `prune` has passed stays found.
prune_keeps :
    (enriched : TextMap AggregatorBatchSelection) (segs : List PackPlanIncluded)
    (pruned m : TextMap AggregatorBatchSelection) (tag : Text)
    → prune enriched segs pruned ≡ ok m
    → lookup tag pruned ≡ lookup tag enriched
    → lookup tag m ≡ lookup tag enriched
unfolding prune
prune_keeps enriched [] pruned m tag h same = rw (← ok-injective h) same
prune_keeps enriched (g ∷ segs) pruned m tag h same =
    elim (Option-cases (lookup g.content_tag enriched)) [
      | inl none_found ↦ cc (rw (none_found, prune) at h)
      | inr (sel, found) ↦
          let h' : prune enriched segs (insert g.content_tag sel pruned) ≡ ok m =
            rw (found, prune) at h in
          prune_keeps enriched segs (insert g.content_tag sel pruned) m tag h'
            (elim (Bool-cases (g.content_tag === tag)) [
              | inl eq ↦
                  let named : g.content_tag ≡ tag = (===_iff g.content_tag tag).0 eq in
                  lookup-insert g.content_tag tag sel pruned ∙ rw eq (rw (← named) (sym found))
              | inr ne ↦ lookup-insert g.content_tag tag sel pruned ∙ rw ne same
            ])
    ]

-- With every segment found in `enriched`, `prune` succeeds and mirrors the plan.
pub prune-Mirrors :
    (opts : AggregatorOptions) (enriched : TextMap AggregatorBatchSelection)
    (segs : List PackPlanIncluded) (pruned : TextMap AggregatorBatchSelection)
    → Mirrors opts enriched segs
    → (m : TextMap AggregatorBatchSelection) × (prune enriched segs pruned ≡ ok m)
      × Mirrors opts m segs
unfolding prune
prune-Mirrors opts enriched [] pruned h = (pruned, refl, tt)
prune-Mirrors opts enriched (g ∷ segs) pruned h =
    let (sel, found, same_tag, same_payload, encoded) = h.0 in
    let next = insert g.content_tag sel pruned in
    let (m, done, mirrors) = prune-Mirrors opts enriched segs next h.1 in
    let head : lookup g.content_tag next ≡ lookup g.content_tag enriched =
      lookup-insert g.content_tag g.content_tag sel pruned
      ∙ rw ((===_iff g.content_tag g.content_tag).1 refl) (sym found) in
    let kept : lookup g.content_tag m ≡ some sel =
      prune_keeps enriched segs next m g.content_tag done head ∙ found in
    (m, rw (found, prune) done, ((sel, kept, same_tag, same_payload, encoded), mirrors))

enrich-Mirrors :
    (opts : AggregatorOptions) (es : List Entry) (segs : List PackPlanIncluded)
    → All (IsEntry opts) es
    → Distinct (tags_of es)
    → All (λ g. From es g.content_tag g.payload_bytes) segs
    → Mirrors opts (enrich es []) segs
enrich-Mirrors opts es [] h d all = tt
enrich-Mirrors opts es (g ∷ segs) h d all = (
  enrich-From opts es [] g.content_tag g.payload_bytes h d all.0,
  enrich-Mirrors opts es segs h d all.1,
)

-- The last step of a tick on the entries of its two passes: it throws nothing, its plan is that
-- of the entries, its selections mirror the plan, and step (f) gives the state.
pub finish-Mirrors :
    (opts : AggregatorOptions) (now : ℕ) (fired : List Text) (entries : List Entry)
    (state : AggregatorState)
    → All (IsEntry opts) entries
    → Distinct (tags_of entries)
    → (pack : PackResult) × ((finish opts now fired entries state).1 ≡ ok (some pack))
      × (pack.plan ≡ pack_entries opts entries)
      × Mirrors opts pack.included_selections pack.plan.included
unfolding finish
finish-Mirrors opts now fired entries state h d =
    let (m, done, mirrors) =
      prune-Mirrors opts (enrich entries []) (pack_entries opts entries).included [] (
        enrich-Mirrors opts entries (pack_entries opts entries).included h d
          (pack_entries-From opts entries)) in
    let sorted_by_age = sort_by older (map (λ (e : Entry). e.selection) entries) in
    let capped_excluded = drop (max 1 opts.max_tags_per_pack) sorted_by_age in
    (
      record {
        plan = pack_entries opts entries;
        included_selections = m;
        excluded_tags =
            map (λ x. x.content_tag) (pack_entries opts entries).excluded
            ++ map (λ x. x.content_tag) capped_excluded;
      },
      rw done refl,
      refl,
      mirrors,
    )
