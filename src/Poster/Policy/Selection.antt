-- ===== src/Poster/Policy/Selection.antt =====
-- What the policy of packages/bam-poster/src/policy/default.ts selects.
use bam.Prelude.{
  ℕ, ◌+◌, ◌*◌, ◌≤◌, ◌<◌, ◌≡◌, refl, sym, ap, ◌∙◌, arith, List, [], ◌∷◌, ◌++◌, map, true,
}
use bam.Prelude.{length, Bool-cases, inl, inr, ◌⊎◌, ltb, some, append-nil, append_assoc, ◌≢◌, Text}
use bam.Sdk.Batch.{BamMessage}
use bam.Poster.Types.{DecodedMessage, to_bam_message, PoolView}
use bam.Poster.Policy.{
  fill_from, greedy_fifo_fill, DefaultBatchPolicyConfig, default_select, default_fill, is_empty,
  fires, age_fires,
}

-- Why the walk stopped after `picked`: the pool is used up, or the next message would not fit.
abbrev pub Stops : ℕ → (List BamMessage → ℕ) → List DecodedMessage → List DecodedMessage → Type 0
Stops capacity estimate picked [] = Unit
Stops capacity estimate picked (next ∷ _) =
    capacity < estimate (map to_bam_message (picked ++ (next ∷ [])))

-- An empty selection, or one whose estimated size is within the capacity.
abbrev pub Fits : ℕ → (List BamMessage → ℕ) → List DecodedMessage → Type 0
Fits capacity estimate picked = (picked ≡ []) ⊎ (estimate (map to_bam_message picked) ≤ capacity)

fill_from_lem :
    (capacity : ℕ) (estimate : List BamMessage → ℕ) (picked pending : List DecodedMessage)
    → Fits capacity estimate picked
    → (more : List DecodedMessage) × (rest : List DecodedMessage) × (fill_from capacity estimate
          picked pending
        ≡ picked ++ more)
      × (pending ≡ more ++ rest)
      × Fits capacity estimate (picked ++ more)
      × Stops capacity estimate (picked ++ more) rest
unfolding fill_from
fill_from_lem capacity estimate picked [] h =
    ([], [], sym (append-nil picked), refl, rw append-nil h, tt)
fill_from_lem capacity estimate picked (next ∷ pending) h =
    let candidate = picked ++ (next ∷ []) in
    elim (Bool-cases (ltb capacity (estimate (map to_bam_message candidate)))) [
      | inl full ↦ (
        [],
        next ∷ pending,
        rw full (sym (append-nil picked)),
        refl,
        rw append-nil h,
        rw append-nil (ground arith),
      )
      | inr fits ↦
          let (more, rest, e, split, size, stop) =
            fill_from_lem capacity estimate candidate pending (inr (ground arith)) in
          let regroup = append_assoc picked (next ∷ []) more in
          (
            next ∷ more,
            rest,
            rw fits (e ∙ regroup),
            ap (λ t. next ∷ t) split,
            rw regroup at size,
            rw regroup at stop,
          )
    ]

-- The greedy walk picks a run of the pending messages from the front, whose estimated size is within
-- the capacity, and it stops only where the pool ends or the next message would exceed the capacity.
pub greedy_fifo_fill_lem :
    (pending : List DecodedMessage) (capacity : ℕ) (estimate : List BamMessage → ℕ)
    → let picked = greedy_fifo_fill pending capacity estimate in
      (rest : List DecodedMessage) × (pending ≡ picked ++ rest)
      × Fits capacity estimate picked
      × Stops capacity estimate picked rest
unfolding greedy_fifo_fill
greedy_fifo_fill_lem pending capacity estimate =
    let (more, rest, e, split, size, stop) =
      fill_from_lem capacity estimate [] pending (inl refl) in
    (rest, rw e split, rw e size, rw e stop)

default_select-eq-some :
    (config : DefaultBatchPolicyConfig) (tag : Text) (pool : PoolView) (capacity now : ℕ)
    (msgs : List DecodedMessage)
    → default_select config tag pool capacity now ≡ some msgs
    → (msgs ≡ greedy_fifo_fill (pool tag) capacity config.estimate_batch_size)
      × (msgs ≢ [])
      × (fires config (pool tag) msgs capacity now ≡ true)
      × (default_fill config tag pool capacity ≡ some msgs)
unfolding default_select default_fill is_empty
default_select-eq-some config tag pool capacity now msgs h =
    (ground arith, ground arith, ground arith, ground arith)

abbrev OldEnough : ℕ → ℕ → List DecodedMessage → Type 0
OldEnough trigger now [] = ⊥
OldEnough trigger now (p ∷ ps) = (t : ℕ) × (p.ingested_at ≡ some t) × (t + trigger ≤ now)

-- The triggers, as the documentation words them.
abbrev pub Triggered :
    DefaultBatchPolicyConfig → List DecodedMessage → List DecodedMessage → ℕ → ℕ → Type 0
Triggered config pending picked capacity now =
    (config.force_flush ≡ true)
    ⊎ (capacity * config.size_trigger_numerator
        ≤ config.estimate_batch_size (map to_bam_message picked) * config.size_trigger_denominator)
    ⊎ OldEnough config.age_trigger_ms now picked
    ⊎ ((0 < config.count_trigger) × (config.count_trigger ≤ length pending))

fires-Triggered :
    (config : DefaultBatchPolicyConfig) (pending picked : List DecodedMessage) (capacity now : ℕ)
    → fires config pending picked capacity now ≡ true
    → Triggered config pending picked capacity now
unfolding fires age_fires
fires-Triggered config pending [] capacity now h = ground arith
fires-Triggered config pending (p ∷ ps) capacity now h = ground arith

-- What `select` returns is a run of the tag's pool from its oldest message on. It is not empty, its
-- estimated size is within the capacity, the next message (if any) would exceed it, one of the four
-- triggers holds, and `fill` would return the same.
pub default_select_selection :
    (config : DefaultBatchPolicyConfig) (tag : Text) (pool : PoolView) (capacity now : ℕ)
    (msgs : List DecodedMessage)
    → default_select config tag pool capacity now ≡ some msgs
    → (rest : List DecodedMessage) × (pool tag ≡ msgs ++ rest)
      × (msgs ≢ [])
      × (config.estimate_batch_size (map to_bam_message msgs) ≤ capacity)
      × Stops capacity config.estimate_batch_size msgs rest
      × Triggered config (pool tag) msgs capacity now
      × (default_fill config tag pool capacity ≡ some msgs)
default_select_selection config tag pool capacity now msgs h =
    let (e, some_msgs, trigger, fill) =
      default_select-eq-some config tag pool capacity now msgs h in
    let (rest, split, size, stop) =
      greedy_fifo_fill_lem (pool tag) capacity config.estimate_batch_size in
    let split' = rw (← e) at split in
    let size' = rw (← e) at size in
    let stop' = rw (← e) at stop in
    (
      rest,
      split',
      some_msgs,
      elim size' [ inl none_picked ↦ absurd (some_msgs none_picked) | inr le ↦ le ],
      stop',
      fires-Triggered config (pool tag) msgs capacity now trigger,
      fill,
    )

-- A tag whose oldest message has waited for the age trigger is selected, that message first, if it
-- fits in a blob on its own.
pub default_select_old :
    (config : DefaultBatchPolicyConfig) (tag : Text) (pool : PoolView) (capacity now : ℕ)
    (first : DecodedMessage) (others : List DecodedMessage) (oldest : ℕ)
    → pool tag ≡ first ∷ others
    → first.ingested_at ≡ some oldest
    → oldest + config.age_trigger_ms ≤ now
    → config.estimate_batch_size (to_bam_message first ∷ []) ≤ capacity
    → (msgs : List DecodedMessage) × (default_select config tag pool capacity now
        ≡ some (first ∷ msgs))
unfolding default_select greedy_fifo_fill fill_from fires age_fires is_empty
default_select_old config tag pool capacity now first others oldest hp hi ha hs =
    let (more, _, e, _, _, _) =
      fill_from_lem capacity config.estimate_batch_size (first ∷ []) others (inr hs) in
    (more, ground (arith, e))
