-- ===== src/Poster/Aggregator.antt =====
-- packages/bam-poster/src/submission/aggregator.ts: the cross-tag aggregator. Its map from tags to
-- states is a function, read and written only at the tags of the options. The encoder may throw; a
-- tick returns the state as it was left when it did.
pub mod Entries
pub mod Selections
pub mod Ticks
pub mod Streaks
use bam.Prelude.{ℕ, ◌+◌, Bool, true, false, List, [], ◌∷◌, ◌++◌, map, Option, none, some, max}
use bam.Prelude.{ltb, ◌==◌, if◌then◌else◌, Bytes, Text, text_ltb, ◌===◌, length, take, drop}
use bam.Prelude.{Result, ok, err, ◌>>=◌}
use bam.Prelude.Sort.{sort_by}
use bam.Prelude.TextMap.{TextMap, lookup, insert}
use bam.Sdk.Errors.{SdkError}
use bam.Sdk.Batch.{BamMessage}
use bam.Poster.Types.{DecodedMessage, PoolView, BatchPolicy, to_bam_message}
use bam.Poster.Policy.{is_empty}
use bam.Poster.Pack.{PerTagSelection, PackPlan, PackPlanIncluded, PackCapacity, plan_pack}

pub record AggregatorBatchSelection : Type 0 where
  pub content_tag : Text
  pub messages : List DecodedMessage
  pub payload_bytes : Bytes

pub record PackResult : Type 0 where
  pub plan : PackPlan
  pub included_selections : TextMap AggregatorBatchSelection
  pub excluded_tags : List Text

pub record PerTagState : Type 0 where
  pub packing_loss_streak : ℕ
  pub last_included_at : Option ℕ
  pub pending_count : ℕ

abbrev pub AggregatorState : Type 0
AggregatorState = Text → PerTagState

pub record AggregatorOptions : Type 0 where
  pub policy : BatchPolicy
  pub tags : List Text
  pub max_tags_per_pack : ℕ
  pub capacity : PackCapacity
  pub blob_capacity_bytes : ℕ
  pub encode : List BamMessage → List Bytes → Result SdkError Bytes

-- What a tick throws: the encoder's error, or the broken invariant with the tag that it names.
pub data TickError : Type 0 where
  encode_failed : SdkError → TickError
  never_enriched : Text → TickError

-- A tag of `selections` with its value in `enriched`.
pub record Entry : Type 0 where
  pub selection : PerTagSelection
  pub enriched : AggregatorBatchSelection

-- `state.set(tag, …)` for every tag.
unfoldable pub initial_state : AggregatorState
initial_state tag = record { packing_loss_streak = 0; last_included_at = none; pending_count = 0 }

unfoldable pub update : Text → (PerTagState → PerTagState) → AggregatorState → AggregatorState
unfolding ◌===◌
update tag f state t = if tag === t then f (state t) else state t

-- `pool[0]!.ingestedAt ?? input.now.getTime()`
unfoldable pub oldest_in : List DecodedMessage → ℕ → ℕ
oldest_in [] now = now
oldest_in (first ∷ _) now = elim first.ingested_at [ none ↦ now | some t ↦ t ]

-- The picked messages of one tag, encoded.
unfoldable pub make_entry :
    AggregatorOptions → PoolView → ℕ → Text → List DecodedMessage → Result TickError Entry
unfolding oldest_in
make_entry opts pool now tag msgs =
    elim (opts.encode (map to_bam_message msgs) (map (λ m. m.signature) msgs)) [
      | err e ↦ err (encode_failed e)
      | ok encoded ↦ ok (record {
        selection = record {
          content_tag = tag;
          payload_bytes = encoded;
          oldest_ingested_at = oldest_in (pool tag) now;
          pending_message_count = length (pool tag);
        };
        enriched = record { content_tag = tag; messages = msgs; payload_bytes = encoded };
      })
    ]

-- What the policy picked for a tag, if its pool is not empty and the selection is not.
unfoldable pub picked_of :
    PoolView → Text → Option (List DecodedMessage) → Option (List DecodedMessage)
unfolding is_empty
picked_of pool tag none = none
picked_of pool tag (some msgs) =
    if is_empty (pool tag) then none else if is_empty msgs then none else some msgs

-- One tag of either pass: no entry, or one.
unfoldable pub entry_of :
    AggregatorOptions
    → PoolView
    → ℕ
    → Text
    → Option (List DecodedMessage)
    → Result TickError (List Entry)
unfolding make_entry
entry_of opts pool now tag none = ok []
entry_of opts pool now tag (some msgs) = make_entry opts pool now tag msgs >>= λ e. ok (e ∷ [])

-- Steps (a) and (b), over the tags that are left.
unfoldable pub select_pass :
    AggregatorOptions
    → PoolView
    → ℕ
    → List Text
    → AggregatorState
    → AggregatorState × Result TickError (List Entry)
unfolding update entry_of picked_of
select_pass opts pool now [] state = (state, ok [])
select_pass opts pool now (tag ∷ tags) state =
    let state' = update tag (λ s. record s { pending_count = length (pool tag) }) state in
    let picked = picked_of pool tag (opts.policy.select tag pool opts.blob_capacity_bytes now) in
    elim (entry_of opts pool now tag picked) [
      | err e ↦ (state', err e)
      | ok here ↦
          let (last, rest) = select_pass opts pool now tags state' in
          (last, rest >>= λ es. ok (here ++ es))
    ]

-- `firedByTrigger.has(tag)`, and the like for other lists of tags.
unfoldable pub has_tag : Text → List Text → Bool
unfolding ◌===◌
has_tag tag [] = false
has_tag tag (t ∷ ts) = let rest = has_tag tag ts in if t === tag then true else rest

-- Step (b'), the passengers.
unfoldable pub fill_pass :
    AggregatorOptions → PoolView → ℕ → List Text → List Text → Result TickError (List Entry)
unfolding entry_of picked_of has_tag
fill_pass opts pool now fired [] = ok []
fill_pass opts pool now fired (tag ∷ tags) =
    let filled = picked_of pool tag (opts.policy.fill tag pool opts.blob_capacity_bytes) in
    let candidate = if has_tag tag fired then none else filled in
    entry_of opts pool now tag candidate >>= λ here.
    fill_pass opts pool now fired tags >>= λ es. ok (here ++ es)

-- The comparison that sorts by age before the cap on the number of tags.
unfoldable pub older : PerTagSelection → PerTagSelection → Bool
unfolding text_ltb
older a b =
    if a.oldest_ingested_at == b.oldest_ingested_at
    then text_ltb a.content_tag b.content_tag
    else ltb a.oldest_ingested_at b.oldest_ingested_at

-- Step (f) for one tag.
unfoldable pub settle : List Text → List Text → ℕ → Text → PerTagState → PerTagState
unfolding has_tag
settle included fired now tag s =
    if has_tag tag included
    then record s {
      packing_loss_streak = if has_tag tag fired then 0 else s.packing_loss_streak;
      last_included_at = some now;
    }
    else if has_tag tag fired
    then record s { packing_loss_streak = s.packing_loss_streak + 1 }
    else s

unfoldable pub settle_all :
    List Text → List Text → ℕ → List Text → AggregatorState → AggregatorState
unfolding settle update
settle_all included fired now [] state = state
settle_all included fired now (tag ∷ tags) state =
    settle_all included fired now tags (update tag (settle included fired now tag) state)

-- `enriched`, entry after entry.
unfoldable pub enrich :
    List Entry → TextMap AggregatorBatchSelection → TextMap AggregatorBatchSelection
unfolding insert
enrich [] m = m
enrich (e ∷ es) m = enrich es (insert e.selection.content_tag e.enriched m)

-- Step (g).
unfoldable pub prune :
    TextMap AggregatorBatchSelection
    → List PackPlanIncluded
    → TextMap AggregatorBatchSelection
    → Result TickError (TextMap AggregatorBatchSelection)
unfolding lookup insert
prune enriched [] pruned = ok pruned
prune enriched (seg ∷ segs) pruned = elim (lookup seg.content_tag enriched) [
  | none ↦ err (never_enriched seg.content_tag)
  | some sel ↦ prune enriched segs (insert seg.content_tag sel pruned)
]

-- Steps (c) to (g), from the entries of the two passes.
unfoldable pub pack_entries : AggregatorOptions → List Entry → PackPlan
unfolding plan_pack older sort_by
pack_entries opts entries =
    plan_pack (take (max 1 opts.max_tags_per_pack) (sort_by older (map (λ e. e.selection) entries)))
      opts.capacity

unfoldable pub finish :
    AggregatorOptions
    → ℕ
    → List Text
    → List Entry
    → AggregatorState
    → AggregatorState × Result TickError (Option PackResult)
unfolding pack_entries settle_all prune enrich older sort_by
finish opts now fired entries state =
    let plan = pack_entries opts entries in
    let sorted_by_age = sort_by older (map (λ e. e.selection) entries) in
    let capped_excluded = drop (max 1 opts.max_tags_per_pack) sorted_by_age in
    let excluded =
      map (λ x. x.content_tag) plan.excluded ++ map (λ x. x.content_tag) capped_excluded in
    let included = map (λ g. g.content_tag) plan.included in
    (
      settle_all included fired now opts.tags state,
      prune (enrich entries []) plan.included [] >>= λ selections. ok (
          some
            (record { plan = plan; included_selections = selections; excluded_tags = excluded })),
    )

unfoldable pub tick :
    AggregatorOptions
    → PoolView
    → ℕ
    → AggregatorState
    → AggregatorState × Result TickError (Option PackResult)
unfolding select_pass fill_pass finish
tick opts pool now state =
    let (state', fired_entries) = select_pass opts pool now opts.tags state in
    elim fired_entries [
      | err e ↦ (state', err e)
      | ok fired ↦
          if is_empty fired
          then (state', ok none)
          else let fired_tags = map (λ (e : Entry). e.selection.content_tag) fired in
            elim (fill_pass opts pool now fired_tags opts.tags) [
              | err e ↦ (state', err e)
              | ok passengers ↦ finish opts now fired_tags (fired ++ passengers) state'
            ]
    ]
