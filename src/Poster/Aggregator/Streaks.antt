-- ===== src/Poster/Aggregator/Streaks.antt =====
-- The state of the tags in packages/bam-poster/src/submission/aggregator.ts after a tick that packs.
use bam.Prelude.{
  ℕ, ◌+◌, ◌≡◌, refl, sym, ap, ◌∙◌, arith, Bool, true, false, List, [], ◌∷◌, ◌++◌, map, Option, none,
  some,
}
use bam.Prelude.{
  Text, ◌===◌, ===_iff, ===_refl, length, ok, >>=-eq-ok, ok-injective, Result-cases, Bool-cases,
  inl, inr, ◌⊎◌, if◌then◌else◌,
}
use bam.Poster.Types.{DecodedMessage, PoolView}
use bam.Poster.Pack.{PackPlanIncluded}
use bam.Poster.Aggregator.{
  AggregatorOptions, AggregatorState, PerTagState, PackResult, Entry, make_entry, entry_of,
  picked_of, select_pass, has_tag, update, settle, settle_all, tick, finish, pack_entries,
}
use bam.Poster.Aggregator.Entries.{tags_of, Distinct, IsEntry, entry_of-shape, select_pass-IsPass}
use bam.Poster.Aggregator.Ticks.{IsPacking, IsPacking-pack, tick-Outcome}

-- The trigger picked messages of the tag.
unfoldable pub fires_now : AggregatorOptions → PoolView → ℕ → Text → Bool
unfolding picked_of
fires_now opts pool now tag =
    elim (picked_of pool tag (opts.policy.select tag pool opts.blob_capacity_bytes now)) [
      | none ↦ false
      | some msgs ↦ true
    ]

update_other :
    (tag t : Text) (f : PerTagState → PerTagState) (state : AggregatorState)
    → (tag === t) ≡ false
    → update tag f state t ≡ state t
unfolding update
update_other tag t f state h = rw h refl

update_self :
    (tag : Text) (f : PerTagState → PerTagState) (state : AggregatorState)
    → update tag f state tag ≡ f (state tag)
unfolding update
update_self tag f state = rw (===_refl tag) refl

settle_all_other :
    (included fired : List Text) (now : ℕ) (tags : List Text) (state : AggregatorState) (t : Text)
    → has_tag t tags ≡ false
    → settle_all included fired now tags state t ≡ state t
unfolding settle_all has_tag
settle_all_other included fired now [] state t h = refl
settle_all_other included fired now (tag ∷ tags) state t h = elim (Bool-cases (tag === t)) [
  | inl same ↦ absurd (ground arith)
  | inr other ↦
      settle_all_other included fired now tags (update tag (settle included fired now tag) state) t
        (ground arith)
      ∙ update_other tag t (settle included fired now tag) state other
]

settle_all_lem :
    (included fired : List Text) (now : ℕ) (tags : List Text) (state : AggregatorState) (t : Text)
    → Distinct tags
    → has_tag t tags ≡ true
    → settle_all included fired now tags state t ≡ settle included fired now t (state t)
unfolding settle_all has_tag
settle_all_lem included fired now [] state t d h = absurd cc
settle_all_lem included fired now (tag ∷ tags) state t d h =
    let state' = update tag (settle included fired now tag) state in
    elim (Bool-cases (tag === t)) [
      | inl same ↦
          let eq : tag ≡ t = (===_iff tag t).0 same in
          rw (← eq) (
            settle_all_other included fired now tags state' tag d.0
            ∙ update_self tag (settle included fired now tag) state)
      | inr other ↦
          settle_all_lem included fired now tags state' t d.1 (ground arith)
          ∙ ap (settle included fired now t)
              (update_other tag t (settle included fired now tag) state other)
    ]

-- The first pass sets `pendingCount` of every tag, if it completes.
abbrev count_pending : PoolView → Text → PerTagState → PerTagState
count_pending pool tag s = record s { pending_count = length (pool tag) }

count_pending_step :
    (pool : PoolView) (tag t : Text) (state : AggregatorState) (more : Bool)
    → (if more
        then count_pending pool t (update tag (count_pending pool tag) state t)
        else update tag (count_pending pool tag) state t)
      ≡ (if (if tag === t then true else more) then count_pending pool t (state t) else state t)
count_pending_step pool tag t state more = elim (Bool-cases (tag === t)) [
  | inl same ↦
      let eq : tag ≡ t = (===_iff tag t).0 same in
      rw (same, ← eq, update_self tag (count_pending pool tag) state)
        (elim (Bool-cases more) [ inl e ↦ rw e refl | inr e ↦ rw e refl ])
  | inr other ↦ rw (other, update_other tag t (count_pending pool tag) state other) refl
]

select_pass-state :
    (opts : AggregatorOptions) (pool : PoolView) (now : ℕ) (tags : List Text)
    (state : AggregatorState) (es : List Entry) (t : Text)
    → (select_pass opts pool now tags state).1 ≡ ok es
    → (select_pass opts pool now tags state).0 t
      ≡ (if has_tag t tags then count_pending pool t (state t) else state t)
unfolding select_pass has_tag
select_pass-state opts pool now [] state es t h = refl
select_pass-state opts pool now (tag ∷ tags) state es t h =
    let picked = picked_of pool tag (opts.policy.select tag pool opts.blob_capacity_bytes now) in
    let state1 = update tag (count_pending pool tag) state in
    elim (Result-cases (entry_of opts pool now tag picked)) [
      | inl (here, eq) ↦
          let h' = rw (eq, select_pass) at h in
          let (rest, more, whole) = >>=-eq-ok (select_pass opts pool now tags state1).1 _ h' in
          rw (eq, select_pass)
            (select_pass-state opts pool now tags state1 rest t more
              ∙ count_pending_step pool tag t state (has_tag t tags))
      | inr (x, eq) ↦ absurd (cc (rw (eq, select_pass) at h))
    ]

-- A tag fires if and only if its turn in the pass made an entry.
fired_here :
    (opts : AggregatorOptions) (pool : PoolView) (now : ℕ) (tag : Text)
    (picked : Option (List DecodedMessage)) (here rest : List Entry)
    → entry_of opts pool now tag picked ≡ ok here
    → (here ≡ [])
      ⊎ ((e : Entry) × (here ≡ e ∷ []) × IsEntry opts e × (e.selection.content_tag ≡ tag))
    → has_tag tag (tags_of rest) ≡ false
    → has_tag tag (tags_of (here ++ rest)) ≡ elim picked [ none ↦ false | some msgs ↦ true ]
unfolding has_tag entry_of
fired_here opts pool now tag none here rest h shape clear = rw (← ok-injective h) clear
fired_here opts pool now tag (some msgs) here rest h (inl nothing) clear =
    let (e, made, one) = >>=-eq-ok (make_entry opts pool now tag msgs) _ h in
    absurd (cc (ok-injective one, nothing))
fired_here opts pool now tag (some msgs) here rest h (inr (e, one, _, named)) clear =
    rw (one, named, ===_refl tag) refl

fired_other :
    (opts : AggregatorOptions) (tag t : Text) (here rest : List Entry)
    → (here ≡ [])
      ⊎ ((e : Entry) × (here ≡ e ∷ []) × IsEntry opts e × (e.selection.content_tag ≡ tag))
    → (tag === t) ≡ false
    → has_tag t (tags_of (here ++ rest)) ≡ has_tag t (tags_of rest)
unfolding has_tag
fired_other opts tag t here rest (inl nothing) ne = rw nothing refl
fired_other opts tag t here rest (inr (e, one, _, named)) ne = rw (one, named, ne) refl

select_pass-fired :
    (opts : AggregatorOptions) (pool : PoolView) (now : ℕ) (tags : List Text)
    (state : AggregatorState) (es : List Entry) (t : Text)
    → Distinct tags
    → (select_pass opts pool now tags state).1 ≡ ok es
    → has_tag t tags ≡ true
    → has_tag t (tags_of es) ≡ fires_now opts pool now t
unfolding select_pass has_tag fires_now
select_pass-fired opts pool now [] state es t d h has = absurd cc
select_pass-fired opts pool now (tag ∷ tags) state es t d h has =
    let picked = picked_of pool tag (opts.policy.select tag pool opts.blob_capacity_bytes now) in
    let state1 = update tag (count_pending pool tag) state in
    elim (Result-cases (entry_of opts pool now tag picked)) [
      | inl (here, eq) ↦
          let h' = rw (eq, select_pass) at h in
          let (rest, more, whole) = >>=-eq-ok (select_pass opts pool now tags state1).1 _ h' in
          let shape = entry_of-shape opts pool now tag picked here eq in
          rw (← ok-injective whole) (elim (Bool-cases (tag === t)) [
            | inl same ↦ rw (← (===_iff tag t).0 same) (
                fired_here opts pool now tag picked here rest eq shape
                  ((select_pass-IsPass opts pool now tags state1 rest more).within tag d.0))
            | inr other ↦
                fired_other opts tag t here rest shape other
                ∙ select_pass-fired opts pool now tags state1 rest t d.1 more (ground arith)
          ])
      | inr (x, eq) ↦ absurd (cc (rw (eq, select_pass) at h))
    ]

-- The state that a tick leaves, from whether the pack includes the tag and whether it fired.
abbrev pub settled : Bool → Bool → ℕ → ℕ → PerTagState → PerTagState
settled included fired now pending before = record {
  packing_loss_streak =
      if fired
      then (if included then 0 else before.packing_loss_streak + 1)
      else before.packing_loss_streak;
  last_included_at = if included then some now else before.last_included_at;
  pending_count = pending;
}

settle-settled :
    (pool : PoolView) (included fired : List Text) (now : ℕ) (tag : Text) (s : PerTagState)
    → settle included fired now tag (count_pending pool tag s)
      ≡ settled (has_tag tag included) (has_tag tag fired) now (length (pool tag)) s
unfolding settle
settle-settled pool included fired now tag s = elim (Bool-cases (has_tag tag included)) [
  | inl i ↦ elim (Bool-cases (has_tag tag fired)) [
    | inl f ↦ rw (i, f) refl
    | inr f ↦ rw (i, f) refl
  ]
  | inr i ↦ elim (Bool-cases (has_tag tag fired)) [
    | inl f ↦ rw (i, f) refl
    | inr f ↦ rw (i, f) refl
  ]
]

IsPacking-state :
    (opts : AggregatorOptions) (pool : PoolView) (now : ℕ) (state : AggregatorState)
    (fired passengers : List Entry) (state' : AggregatorState) (tag : Text)
    → Distinct opts.tags
    → has_tag tag opts.tags ≡ true
    → IsPacking opts pool now state fired passengers state'
    → (tick opts pool now state).0 tag
      ≡ settled
          (has_tag tag
            (map (λ g. g.content_tag) (pack_entries opts (fired ++ passengers)).included))
          (fires_now opts pool now tag)
          now
          (length (pool tag))
          (state tag)
unfolding finish
IsPacking-state opts pool now state fired passengers state' tag d has packing =
    let included =
      map (λ (g : PackPlanIncluded). g.content_tag)
        (pack_entries opts (fired ++ passengers)).included in
    let selected = ap (λ r. r.1) packing.selected in
    let counted : state' tag ≡ count_pending pool tag (state tag) =
      ap (λ r. r.0 tag) (sym packing.selected)
      ∙ select_pass-state opts pool now opts.tags state fired tag selected
      ∙ rw has refl in
    let fires = select_pass-fired opts pool now opts.tags state fired tag d selected has in
    ap (λ r. r.0 tag) packing.result
    ∙ settle_all_lem included (tags_of fired) now opts.tags state' tag d has
    ∙ ap (settle included (tags_of fired) now tag) counted
    ∙ settle-settled pool included (tags_of fired) now tag (state tag)
    ∙ ap (λ f. settled (has_tag tag included) f now (length (pool tag)) (state tag)) fires

-- A tick that packs, over distinct tags, leaves every tag of the options as follows: its pending
-- count is the size of its pool; if the pack includes it, it was included now, and the streak of
-- packing losses is reset if its trigger fired and kept if it was a passenger; if the pack does
-- not include it, the streak grows by one if its trigger fired, and all else is kept.
pub tick-state :
    (opts : AggregatorOptions) (pool : PoolView) (now : ℕ) (state : AggregatorState)
    (pack : PackResult) (tag : Text)
    → Distinct opts.tags
    → (tick opts pool now state).1 ≡ ok (some pack)
    → has_tag tag opts.tags ≡ true
    → (tick opts pool now state).0 tag
      ≡ settled
          (has_tag tag (map (λ g. g.content_tag) pack.plan.included))
          (fires_now opts pool now tag)
          now
          (length (pool tag))
          (state tag)
tick-state opts pool now state pack tag d h has = elim (tick-Outcome opts pool now state) [
  | inl (e, failed) ↦ absurd cc
  | inr (inl nothing) ↦ absurd cc
  | inr (inr (fired, passengers, state', packing)) ↦
      let (pack', done, planned, _) =
        IsPacking-pack opts pool now state fired passengers state' d packing in
      let same : pack' ≡ pack = cc in
      let plan : pack_entries opts (fired ++ passengers) ≡ pack.plan =
        sym planned ∙ ap (λ (p : PackResult). p.plan) same in
      rw (← plan) (IsPacking-state opts pool now state fired passengers state' tag d has packing)
]
