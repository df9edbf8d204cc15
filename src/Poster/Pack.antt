-- ===== src/Poster/Pack.antt =====
-- packages/bam-poster/src/submission/pack.ts: the plan of one blob for several content tags. Byte
-- counts and times are natural numbers.
pub mod Checks
pub mod Layout
pub mod Choice
use bam.Prelude.{
  ℕ, ◌+◌, ◌-◌, ◌*◌, ◌/◌, Bool, true, false, ◌&&◌, ◌||◌, List, [], ◌∷◌, leb, ltb, ◌==◌,
}
use bam.Prelude.{if◌then◌else◌, Bytes, Text, text_ltb, length, Result, ok, err, ◌>>=◌, throw_if}
use bam.Prelude.Sort.{sort_by}
use bam.Sdk.Blob.{field_elements_per_blob, usable_bytes_per_blob}
use bam.Sdk.Blob.{usable_bytes_per_field_element}

pub record PerTagSelection : Type 0 where
  pub content_tag : Text
  pub payload_bytes : Bytes
  pub oldest_ingested_at : ℕ
  pub pending_message_count : ℕ

pub record PackPlanIncluded : Type 0 where
  pub content_tag : Text
  pub start_fe : ℕ
  pub end_fe : ℕ
  pub payload_bytes : Bytes

pub record PackPlanExcluded : Type 0 where
  pub content_tag : Text
  pub pending_message_count : ℕ

pub record PackPlan : Type 0 where
  pub included : List PackPlanIncluded
  pub excluded : List PackPlanExcluded

pub record PackCapacity : Type 0 where
  pub max_fes : ℕ
  pub max_bytes : ℕ

-- `feCountForPayload`
unfoldable pub fe_count_for_payload : ℕ → ℕ
fe_count_for_payload byte_length = (byte_length + 30) / usable_bytes_per_field_element

-- `compareSelections(a, b) < 0`
unfoldable pub compare_selections : PerTagSelection → PerTagSelection → Bool
unfolding text_ltb
compare_selections a b =
    if a.oldest_ingested_at == b.oldest_ingested_at
    then text_ltb a.content_tag b.content_tag
    else ltb a.oldest_ingested_at b.oldest_ingested_at

-- The test that sends a selection to `excluded`.
unfoldable pub is_excluded : PackCapacity → ℕ → ℕ → PerTagSelection → Bool
unfolding fe_count_for_payload
is_excluded capacity cursor_fe used_bytes s =
    (fe_count_for_payload (length s.payload_bytes) == 0)
    || ltb capacity.max_fes (cursor_fe + fe_count_for_payload (length s.payload_bytes))
    || ltb capacity.max_bytes (used_bytes + length s.payload_bytes)

abbrev pub add_excluded : PerTagSelection → PackPlan → PackPlan
add_excluded s plan = record plan {
  excluded =
      record { content_tag = s.content_tag; pending_message_count = s.pending_message_count }
      ∷ plan.excluded;
}

abbrev pub included_segment : ℕ → PerTagSelection → PackPlanIncluded
included_segment cursor_fe s = record {
  content_tag = s.content_tag;
  start_fe = cursor_fe;
  end_fe = cursor_fe + fe_count_for_payload (length s.payload_bytes);
  payload_bytes = s.payload_bytes;
}

abbrev pub add_included : ℕ → PerTagSelection → PackPlan → PackPlan
add_included cursor_fe s plan = record plan {
  included = included_segment cursor_fe s ∷ plan.included;
}

-- The loop over the sorted selections, with the cursor and the bytes used so far.
unfoldable pub plan_from : PackCapacity → ℕ → ℕ → List PerTagSelection → PackPlan
plan_from capacity cursor_fe used_bytes [] = record { included = []; excluded = [] }
plan_from capacity cursor_fe used_bytes (s ∷ rest) =
    elim (is_excluded capacity cursor_fe used_bytes s) [
      | true ↦ add_excluded s (plan_from capacity cursor_fe used_bytes rest)
      | false ↦ add_included cursor_fe s (
          plan_from capacity (cursor_fe + fe_count_for_payload (length s.payload_bytes))
            (used_bytes + length s.payload_bytes) rest)
    ]

unfoldable pub plan_pack : List PerTagSelection → PackCapacity → PackPlan
unfolding plan_from is_excluded sort_by compare_selections
plan_pack input capacity = plan_from capacity 0 0 (sort_by compare_selections input)

unfoldable pub default_pack_capacity : PackCapacity
default_pack_capacity = record {
  max_fes = field_elements_per_blob;
  max_bytes = usable_bytes_per_blob;
}

-- The three errors of `validatePackPlanInvariants`, with the tag that each names.
pub data PackError : Type 0 where
  malformed_segment overlap payload_overflow : Text → PackError

-- Its loop, with the end of the range before.
unfoldable pub validate_from : ℕ → List PackPlanIncluded → Result PackError (Unit {0})
validate_from last_end [] = ok tt
validate_from last_end (seg ∷ rest) = do
  _ ←
      throw_if (ltb field_elements_per_blob seg.end_fe || leb seg.end_fe seg.start_fe)
        (malformed_segment seg.content_tag)
  _ ← throw_if (ltb seg.start_fe last_end) (overlap seg.content_tag)
  _ ←
      throw_if
        (ltb ((seg.end_fe - seg.start_fe) * usable_bytes_per_field_element)
          (length seg.payload_bytes))
        (payload_overflow seg.content_tag)
  validate_from seg.end_fe rest

unfoldable pub validate_pack_plan_invariants : PackPlan → Result PackError (Unit {0})
unfolding validate_from
validate_pack_plan_invariants plan = validate_from 0 plan.included
