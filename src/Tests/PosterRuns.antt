-- ===== src/Tests/PosterRuns.antt =====
-- The poster's theorems at concrete inputs.
use bam.Prelude.{
  ℕ, ◌+◌, ◌*◌, ◌^◌, ◌<◌, ◌≤◌, ◌≡◌, ◌≢◌, ◌⊎◌, refl, arith, Bool, true, false, List, [], ◌∷◌, ◌++◌,
  map, Option, none, some, Bytes, length, ok, err, All, if◌then◌else◌, ◌==◌,
}
use bam.Sdk.Batch.{estimate_batch_size, records_size}
use bam.Sdk.Blob.{Blob, assemble_multi_segment_blob}
use bam.Sdk.Blob.Segments.{lay_out, total_fes}
use bam.Poster.Types.{DecodedMessage, to_bam_message}
use bam.Poster.Pack.{
  PackPlan, fe_count_for_payload, plan_pack, validate_pack_plan_invariants, add_included,
}
use bam.Poster.Pack.Layout.{as_input, as_segment, total_bytes, plan_pack-IsLaidOut}
use bam.Poster.Pack.Choice.{
  plan_tags, Has, NoRoom, used_fes, plan_pack-perm, plan_pack_maximal, plan_pack_oldest,
}
use bam.Poster.Pack.Checks.{validate_pack_plan_invariants-plan_pack}
use bam.Poster.Policy.{default_select, default_fill, greedy_fifo_fill}
use bam.Poster.Policy.Selection.{Stops, Triggered, default_select_selection, default_select_old}
use bam.Poster.Aggregator.{
  AggregatorOptions, Entry, select_pass, fill_pass, encode_failed, initial_state, tick,
  pack_entries, has_tag,
}
use bam.Prelude.{inl, ◌++◌}
use bam.Poster.Policy.{is_empty}
use bam.Poster.Aggregator.Entries.{tags_of}
use bam.Poster.Aggregator.Selections.{Mirrors}
use bam.Poster.Aggregator.Ticks.{FromEncoder, tick-FromEncoder, tick-Mirrors}
use bam.Poster.Aggregator.Streaks.{settled, fires_now, tick-state}
use bam.Poster.SelfCheck.{pre_broadcast, binary_encoder, empty_pack}
use bam.Poster.SelfCheck.Passing.{pre_broadcast-tick}
use bam.Poster.SelfCheck.Refusals.{Verified, pre_broadcast-Verified}
use mathlib.Core.List.{Perm}
use bam.Sdk.Errors.{signature_size}
use bam.Tests.Data.{
  no_fzstd, tag_a, tag_b, message_a, pool, config, options, pack_of, selection_a, selection_b,
  narrow,
}

-- At time 1000 the message of `tag_a` is old enough; that of `tag_b` rides along.
pre_broadcast-tick_example :
    (b : Blob) × (pre_broadcast no_fzstd (pack_of (tick options pool 1000 initial_state).1) ≡ (
      if length (pack_of (tick options pool 1000 initial_state).1).plan.included == 0
      then err empty_pack
      else ok b))
    × (assemble_multi_segment_blob
          (map as_input (pack_of (tick options pool 1000 initial_state).1).plan.included)
        ≡ ok (b, map as_segment (pack_of (tick options pool 1000 initial_state).1).plan.included))
unfolding tick bam.Poster.Policy.default_batch_policy estimate_batch_size binary_encoder
    bam.Sdk.Batch.encode_batch bam.Sdk.Batch.encode_records bam.Sdk.Batch.encode_record
    bam.Sdk.Hex.hex_to_bytes bam.Sdk.Hex.clean_hex bam.Sdk.Hex.all_hex bam.Sdk.Hex.is_hex_digit
    bam.Sdk.Hex.parse_pairs bam.Sdk.Batch.frame bam.Sdk.Endian.write_u32_be
    bam.Sdk.Endian.write_u64_be bam.Sdk.Endian.write_be
pre_broadcast-tick_example =
    pre_broadcast-tick no_fzstd options pool 1000 initial_state
      (pack_of (tick options pool 1000 initial_state).1) (refl, (refl, tt)) refl (omega arith)
      (omega arith) refl

tick-Mirrors_example :
    Mirrors options
      (pack_of (tick options pool 1000 initial_state).1).included_selections
      (pack_of (tick options pool 1000 initial_state).1).plan.included
    × ((fired : List Entry) × (passengers : List Entry) × ((select_pass options pool 1000
            options.tags initial_state).1
          ≡ ok fired)
        × (is_empty fired ≡ false)
        × (fill_pass options pool 1000 (tags_of fired) options.tags ≡ ok passengers)
        × ((pack_of (tick options pool 1000 initial_state).1).plan
            ≡ pack_entries options (fired ++ passengers)))
unfolding tick bam.Poster.Policy.default_batch_policy estimate_batch_size binary_encoder
    bam.Sdk.Batch.encode_batch bam.Sdk.Batch.encode_records bam.Sdk.Batch.encode_record
    bam.Sdk.Hex.hex_to_bytes bam.Sdk.Hex.clean_hex bam.Sdk.Hex.all_hex bam.Sdk.Hex.is_hex_digit
    bam.Sdk.Hex.parse_pairs bam.Sdk.Batch.frame bam.Sdk.Endian.write_u32_be
    bam.Sdk.Endian.write_u64_be bam.Sdk.Endian.write_be
tick-Mirrors_example =
    tick-Mirrors options pool 1000 initial_state (pack_of (tick options pool 1000 initial_state).1)
      (refl, (refl, tt)) refl

tick-state_example :
    (tick options pool 1000 initial_state).0 tag_b
    ≡ settled
        (has_tag tag_b (
          map
            (λ g. g.content_tag)
            (pack_of (tick options pool 1000 initial_state).1).plan.included))
        (fires_now options pool 1000 tag_b)
        1000
        1
        (initial_state tag_b)
unfolding tick bam.Poster.Policy.default_batch_policy estimate_batch_size binary_encoder
    bam.Sdk.Batch.encode_batch bam.Sdk.Batch.encode_records bam.Sdk.Batch.encode_record
    bam.Sdk.Hex.hex_to_bytes bam.Sdk.Hex.clean_hex bam.Sdk.Hex.all_hex bam.Sdk.Hex.is_hex_digit
    bam.Sdk.Hex.parse_pairs bam.Sdk.Batch.frame bam.Sdk.Endian.write_u32_be
    bam.Sdk.Endian.write_u64_be bam.Sdk.Endian.write_be
tick-state_example =
    tick-state options pool 1000 initial_state (pack_of (tick options pool 1000 initial_state).1)
      tag_b (refl, (refl, tt)) refl refl

-- An encoder that refuses all.
abbrev refusing : AggregatorOptions
refusing = record options { encode = λ ms sigs. err (signature_size 0) }

tick-FromEncoder_example : FromEncoder (encode_failed (signature_size 0))
unfolding tick bam.Poster.Policy.default_batch_policy estimate_batch_size
tick-FromEncoder_example =
    tick-FromEncoder refusing pool 1000 initial_state (encode_failed (signature_size 0))
      (refl, (refl, tt)) refl

plan_pack-IsLaidOut_example :
    (map as_segment (plan_pack (selection_b ∷ selection_a ∷ []) narrow).included
      ≡ lay_out 0 (map as_input (plan_pack (selection_b ∷ selection_a ∷ []) narrow).included))
    × (total_fes (map as_input (plan_pack (selection_b ∷ selection_a ∷ []) narrow).included) ≤ 4)
    × (total_bytes (plan_pack (selection_b ∷ selection_a ∷ []) narrow).included ≤ 200)
    × All
        (λ seg. 0 < length seg.payload_bytes)
        (plan_pack (selection_b ∷ selection_a ∷ []) narrow).included
plan_pack-IsLaidOut_example = plan_pack-IsLaidOut (selection_b ∷ selection_a ∷ []) narrow

plan_pack-perm_example :
    Perm (plan_tags (plan_pack (selection_b ∷ selection_a ∷ []) narrow)) (tag_b ∷ tag_a ∷ [])
plan_pack-perm_example = plan_pack-perm (selection_b ∷ selection_a ∷ []) narrow

plan_pack_maximal_example :
    All
      (λ s.
        Has s (plan_pack (selection_b ∷ selection_a ∷ []) narrow).included
        ⊎ NoRoom narrow
            (used_fes (plan_pack (selection_b ∷ selection_a ∷ []) narrow).included)
            (total_bytes (plan_pack (selection_b ∷ selection_a ∷ []) narrow).included)
            s)
      (selection_b ∷ selection_a ∷ [])
plan_pack_maximal_example = plan_pack_maximal (selection_b ∷ selection_a ∷ []) narrow

plan_pack_oldest_example :
    (rest : PackPlan) × (plan_pack (selection_b ∷ selection_a ∷ []) narrow
      ≡ add_included 0 selection_a rest)
plan_pack_oldest_example =
    plan_pack_oldest (selection_b ∷ []) [] selection_a narrow (inl (omega arith), tt) tt
      (omega arith) (unfold fe_count_for_payload in omega arith) (omega arith)

validate_pack_plan_invariants-plan_pack_example :
    validate_pack_plan_invariants (plan_pack (selection_b ∷ selection_a ∷ []) narrow) ≡ ok tt
validate_pack_plan_invariants-plan_pack_example =
    validate_pack_plan_invariants-plan_pack (selection_b ∷ selection_a ∷ []) narrow (omega arith)

default_select_selection_example :
    (rest : List DecodedMessage) × (pool tag_a ≡ (message_a ∷ []) ++ rest)
    × ((message_a ∷ []) ≢ [])
    × (estimate_batch_size (map to_bam_message (message_a ∷ [])) ≤ 1000)
    × Stops 1000 estimate_batch_size (message_a ∷ []) rest
    × Triggered config (pool tag_a) (message_a ∷ []) 1000 1000
    × (default_fill config tag_a pool 1000 ≡ some (message_a ∷ []))
unfolding default_select bam.Prelude.◌===◌ estimate_batch_size
default_select_selection_example =
    default_select_selection config tag_a pool 1000 1000 (message_a ∷ []) refl

default_select_old_example :
    (msgs : List DecodedMessage) × (default_select config tag_a pool 1000 1000
      ≡ some (message_a ∷ msgs))
unfolding bam.Prelude.◌===◌
default_select_old_example =
    default_select_old config tag_a pool 1000 1000 message_a [] 100 refl refl (omega arith)
      (unfold estimate_batch_size records_size in omega arith)

-- The blob of that pack.
packed :
    (b : Blob) × (pre_broadcast no_fzstd (pack_of (tick options pool 1000 initial_state).1) ≡ ok b)
unfolding tick bam.Poster.Policy.default_batch_policy estimate_batch_size binary_encoder
    bam.Sdk.Batch.encode_batch bam.Sdk.Batch.encode_records bam.Sdk.Batch.encode_record
    bam.Sdk.Hex.hex_to_bytes bam.Sdk.Hex.clean_hex bam.Sdk.Hex.all_hex bam.Sdk.Hex.is_hex_digit
    bam.Sdk.Hex.parse_pairs bam.Sdk.Batch.frame bam.Sdk.Endian.write_u32_be
    bam.Sdk.Endian.write_u64_be bam.Sdk.Endian.write_be
packed =
    let (b, e, _) =
      pre_broadcast-tick no_fzstd options pool 1000 initial_state
        (pack_of (tick options pool 1000 initial_state).1) (refl, (refl, tt)) refl (omega arith)
        (omega arith) refl in
    (b, e)

pre_broadcast-Verified_example :
    All
      (Verified no_fzstd (pack_of (tick options pool 1000 initial_state).1).included_selections)
      (pack_of (tick options pool 1000 initial_state).1).plan.included
pre_broadcast-Verified_example =
    pre_broadcast-Verified no_fzstd (pack_of (tick options pool 1000 initial_state).1) packed.0
      packed.1
