-- ===== src/Tests/SdkRuns.antt =====
-- The SDK's theorems at concrete inputs.
use bam.Prelude.{
  ℕ, ◌*◌, ◌≡◌, refl, arith, false, List, [], ◌∷◌, ◌++◌, map, length, ok, All, IsByte, replicate,
}
use bam.Sdk.Hex.{hex_to_bytes, bytes_to_hex}
use bam.Sdk.Hex.RoundTrip.{hex_to_bytes-bytes_to_hex, bytes_to_hex-hex_to_bytes, canonical_hex}
use bam.Sdk.Batch.{encode_batch, decode_batch, estimate_batch_size}
use bam.Sdk.Batch.Records.{canonical}
use bam.Sdk.Batch.RoundTrip.{decode_batch-encode_batch}
use bam.Sdk.Batch.Shape.{length-encode_batch}
use bam.Sdk.Blob.{Blob, MultiSegmentInput, fe_count, assemble_multi_segment_blob}
use bam.Sdk.Blob.Segments.{lay_out, ExtractsAll, total_fes, assemble_multi_segment_blob_fits}
use bam.Tests.Data.{messages, signatures, no_fzstd, batch_of, tag_a, tag_b, sender_b}

decode_batch-encode_batch_example :
    decode_batch no_fzstd
      ((batch_of (encode_batch messages signatures false)).batch_data ++ (0 ∷ 0 ∷ []))
    ≡ ok (map canonical messages, signatures)
unfolding encode_batch bam.Sdk.Batch.encode_records bam.Sdk.Batch.encode_record hex_to_bytes
    bam.Sdk.Hex.clean_hex bam.Sdk.Hex.all_hex bam.Sdk.Hex.is_hex_digit bam.Sdk.Hex.parse_pairs
    bam.Sdk.Batch.frame bam.Sdk.Endian.write_u32_be bam.Sdk.Endian.write_u64_be
    bam.Sdk.Endian.write_be
decode_batch-encode_batch_example =
    decode_batch-encode_batch no_fzstd messages signatures
      (batch_of (encode_batch messages signatures false)) (0 ∷ 0 ∷ []) refl (omega arith)

length-encode_batch_example :
    (length (batch_of (encode_batch messages signatures false)).batch_data
      ≡ estimate_batch_size messages)
    × ((batch_of (encode_batch messages signatures false)).size
        ≡ length (batch_of (encode_batch messages signatures false)).batch_data)
unfolding encode_batch bam.Sdk.Batch.encode_records bam.Sdk.Batch.encode_record hex_to_bytes
    bam.Sdk.Hex.clean_hex bam.Sdk.Hex.all_hex bam.Sdk.Hex.is_hex_digit bam.Sdk.Hex.parse_pairs
length-encode_batch_example =
    length-encode_batch messages signatures (batch_of (encode_batch messages signatures false)) refl

hex_to_bytes-bytes_to_hex_example : hex_to_bytes (bytes_to_hex (0 ∷ 171 ∷ [])) ≡ ok (0 ∷ 171 ∷ [])
hex_to_bytes-bytes_to_hex_example =
    hex_to_bytes-bytes_to_hex (0 ∷ 171 ∷ []) (omega arith, (omega arith, tt))

bytes_to_hex-hex_to_bytes_example :
    All IsByte (replicate 20 187) × (bytes_to_hex (replicate 20 187) ≡ canonical_hex sender_b)
unfolding hex_to_bytes bam.Sdk.Hex.clean_hex bam.Sdk.Hex.all_hex bam.Sdk.Hex.is_hex_digit
    bam.Sdk.Hex.parse_pairs bam.Sdk.Hex.digit_value
bytes_to_hex-hex_to_bytes_example = bytes_to_hex-hex_to_bytes sender_b (replicate 20 187) refl

-- 40 bytes and 3 bytes: three field elements.
abbrev inputs : List MultiSegmentInput
inputs =
    record { content_tag = tag_a; payload = replicate 40 5 }
    ∷ record { content_tag = tag_b; payload = 1 ∷ 2 ∷ 3 ∷ [] }
    ∷ []

assemble_multi_segment_blob_fits_example :
    (b : Blob) × (assemble_multi_segment_blob inputs ≡ ok (b, lay_out 0 inputs))
    × ExtractsAll b inputs (lay_out 0 inputs)
    × ((k : ℕ) → b.at (k * 32) ≡ 0)
unfolding total_fes
assemble_multi_segment_blob_fits_example =
    assemble_multi_segment_blob_fits inputs (unfold fe_count in omega arith)
