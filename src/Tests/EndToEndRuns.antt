-- ===== src/Tests/EndToEndRuns.antt =====
-- A pack of the poster, read back by the reader.
use bam.Prelude.{
  ◌≡◌, refl, arith, List, ◌∷◌, [], some, none, map, Result, ok, err, length, replicate, ◌%◌, true,
}
use bam.Prelude.TextMap.{lookup}
use bam.Sdk.Errors.{SdkError}
use bam.Sdk.Batch.Records.{canonical}
use bam.Sdk.Blob.{Blob, AssembledSegment, zero_blob, assemble_multi_segment_blob}
use bam.Poster.Types.{to_bam_message}
use bam.Poster.Pack.{PackPlanIncluded}
use bam.Poster.Pack.Layout.{as_input}
use bam.Poster.Aggregator.{AggregatorBatchSelection, PackResult, initial_state, tick}
use bam.Reader.Decode.{decode, zero_address}
use bam.Reader.ProcessBatch.{ProcessBatchOptions}
use bam.Reader.ProcessBatch.Runs.{decoded_of}
use bam.Reader.EndToEnd.{decoded_of-tick}
use bam.Tests.Data.{no_fzstd, tag_a, pool, options, pack_of}

-- At time 1000 the pool's two tags are packed, that of `tag_a` first.
abbrev pack : PackResult
pack = pack_of (tick options pool 1000 initial_state).1

abbrev first_of : List PackPlanIncluded → PackPlanIncluded
first_of [] = record { content_tag = []; start_fe = 0; end_fe = 0; payload_bytes = [] }
first_of (seg ∷ segs) = seg

abbrev blob_from : Result SdkError (Blob × List AssembledSegment) → Blob
blob_from (ok (b, g)) = b
blob_from (err e) = zero_blob

abbrev blob : Blob
blob = blob_from (assemble_multi_segment_blob (map as_input pack.plan.included))

abbrev segment : PackPlanIncluded
segment = first_of pack.plan.included

abbrev reader : ProcessBatchOptions
reader = record {
  event = record {
    block_number = 70;
    tx_index = 3;
    log_index = 0;
    tx_hash = [];
    versioned_hash = [];
    submitter = [];
    content_tag = tag_a;
    decoder = zero_address;
    signature_registry = zero_address;
    start_fe = some segment.start_fe;
    end_fe = some segment.end_fe;
  };
  parent_beacon_block_root = none;
  l1_included_at_unix_sec = none;
  chain_id = 1;
  fetch_blob = λ h root. some blob;
  decode = decode no_fzstd none none;
  verify_message = λ registry m t sig c. true;
  keccak_256 = λ bs. replicate 32 (length bs % 256);
  aborted_attempts = λ e. [];
}

decoded_of-tick_example :
    (sel : AggregatorBatchSelection) × (lookup segment.content_tag pack.included_selections
      ≡ some sel)
    × (decoded_of reader
        ≡ some
            (map canonical (map to_bam_message sel.messages), map (λ m. m.signature) sel.messages))
unfolding tick bam.Poster.Policy.default_batch_policy bam.Sdk.Batch.estimate_batch_size
    bam.Poster.SelfCheck.binary_encoder bam.Sdk.Batch.encode_batch bam.Sdk.Batch.encode_records
    bam.Sdk.Batch.encode_record bam.Sdk.Hex.hex_to_bytes bam.Sdk.Hex.clean_hex bam.Sdk.Hex.all_hex
    bam.Sdk.Hex.is_hex_digit bam.Sdk.Hex.parse_pairs bam.Sdk.Batch.frame bam.Sdk.Endian.write_u32_be
    bam.Sdk.Endian.write_u64_be bam.Sdk.Endian.write_be assemble_multi_segment_blob
decoded_of-tick_example =
    decoded_of-tick no_fzstd none options pool 1000 initial_state pack 0 segment blob reader
      (refl, (refl, tt)) refl (omega arith) (omega arith) refl refl refl refl refl refl refl refl
