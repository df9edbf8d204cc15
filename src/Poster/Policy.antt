-- ===== src/Poster/Policy.antt =====
-- packages/bam-poster/src/policy/default.ts. The size ratio, a fraction in the source, is a
-- quotient of natural numbers; the estimator is a parameter, as it is there.
pub mod Selection
use bam.Prelude.{ℕ, ◌+◌, ◌*◌, Bool, true, false, ◌&&◌, List, [], ◌∷◌, ◌++◌, map, Option, none, some}
use bam.Prelude.{ltb, leb, if◌then◌else◌, Text, length}
use bam.Sdk.Batch.{BamMessage}
use bam.Poster.Types.{DecodedMessage, PoolView, BatchPolicy, to_bam_message}

pub record DefaultBatchPolicyConfig : Type 0 where
  pub size_trigger_numerator : ℕ
  pub size_trigger_denominator : ℕ
  pub age_trigger_ms : ℕ
  pub count_trigger : ℕ
  pub force_flush : Bool
  pub estimate_batch_size : List BamMessage → ℕ

-- The walk of `greedyFifoFill`, with what it has picked so far.
unfoldable pub fill_from :
    ℕ → (List BamMessage → ℕ) → List DecodedMessage → List DecodedMessage → List DecodedMessage
fill_from capacity estimate picked [] = picked
fill_from capacity estimate picked (next ∷ pending) =
    let candidate = picked ++ (next ∷ []) in
    let rest = fill_from capacity estimate candidate pending in
    if ltb capacity (estimate (map to_bam_message candidate)) then picked else rest

unfoldable pub greedy_fifo_fill :
    List DecodedMessage → ℕ → (List BamMessage → ℕ) → List DecodedMessage
unfolding fill_from
greedy_fifo_fill pending capacity estimate = fill_from capacity estimate [] pending

-- The age of the first picked message reaches the trigger.
unfoldable pub age_fires : ℕ → ℕ → List DecodedMessage → Bool
age_fires trigger now [] = false
age_fires trigger now (first ∷ _) = elim first.ingested_at [
  | none ↦ false
  | some oldest ↦ leb (oldest + trigger) now
]

-- The triggers of `select`, in order, on a selection that is not empty.
unfoldable pub fires :
    DefaultBatchPolicyConfig → List DecodedMessage → List DecodedMessage → ℕ → ℕ → Bool
unfolding age_fires
fires config pending picked capacity now =
    if config.force_flush
    then true
    else if leb (capacity * config.size_trigger_numerator)
        (config.estimate_batch_size (map to_bam_message picked) * config.size_trigger_denominator)
    then true
    else if age_fires config.age_trigger_ms now picked
    then true
    else ltb 0 config.count_trigger && leb config.count_trigger (length pending)

unfoldable pub is_empty {ℓ} : {A : Type ℓ} → List A → Bool
is_empty [] = true
is_empty (x ∷ xs) = false

unfoldable pub default_select :
    DefaultBatchPolicyConfig → Text → PoolView → ℕ → ℕ → Option (List DecodedMessage)
unfolding greedy_fifo_fill fires is_empty
default_select config tag pool capacity now =
    let pending = pool tag in
    let picked = greedy_fifo_fill pending capacity config.estimate_batch_size in
    if is_empty pending
    then none
    else if is_empty picked
    then none
    else if fires config pending picked capacity now
    then some picked
    else none

unfoldable pub default_fill :
    DefaultBatchPolicyConfig → Text → PoolView → ℕ → Option (List DecodedMessage)
unfolding greedy_fifo_fill is_empty
default_fill config tag pool capacity =
    let pending = pool tag in
    let picked = greedy_fifo_fill pending capacity config.estimate_batch_size in
    if is_empty pending then none else if is_empty picked then none else some picked

unfoldable pub default_batch_policy : DefaultBatchPolicyConfig → BatchPolicy
unfolding default_select default_fill
default_batch_policy config = record { select = default_select config; fill = default_fill config }
