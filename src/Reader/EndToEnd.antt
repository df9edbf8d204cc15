-- ===== src/Reader/EndToEnd.antt =====
-- The two ends of a blob: what packages/bam-poster packs, as packages/bam-reader decodes it.
use bam.Prelude.{
  ℕ, ◌-◌, ◌*◌, ◌^◌, ◌≤◌, ◌<◌, ◌≡◌, refl, sym, ap, ◌∙◌, arith, false, List, [], ◌∷◌, ◌++◌, map,
  Option, none, some,
}
use bam.Prelude.{
  Bytes, length, replicate, get_elem?, All-get_elem?, ok, >>=-eq-ok, ok-injective, ltb, leb, zero,
  suc, Bool-cases, inl, inr, ◌===◌, lower_unit, to_lower_case,
}
use bam.Prelude.TextMap.{lookup}
use bam.Sdk.Batch.{BamMessage, encode_batch, frame}
use bam.Sdk.Batch.Records.{canonical}
use bam.Sdk.Batch.RoundTrip.{encode_batch-IsPlainBatch, decode_batch-encode_batch}
use bam.Sdk.Blob.{Blob, AssembledSegment, assemble_multi_segment_blob, extract_segment_bytes}
use bam.Sdk.Blob.Segments.{fes_of}
use bam.Poster.Aggregator.Selections.{Enriched}
use bam.Poster.Types.{PoolView, to_bam_message}
use bam.Poster.Pack.{PackPlanIncluded}
use bam.Poster.Pack.Layout.{as_input, as_segment, total_bytes}
use bam.Poster.Aggregator.{
  AggregatorOptions, AggregatorState, AggregatorBatchSelection, PackResult, tick,
}
use bam.Poster.Aggregator.Entries.{Distinct}
use bam.Poster.SelfCheck.{binary_encoder}
use bam.Poster.SelfCheck.Passing.{Holds, tick-PackBlob}
use bam.Reader.Decode.{
  default_decompress_multiplier, OnChainDecoder, decode, zero_address, is_zero_address,
  assert_zstd_within_bound, decode_structural, validate_segment_range,
}
use bam.Reader.ProcessBatch.{ProcessBatchOptions, start_of, end_of}
use bam.Reader.ProcessBatch.Runs.{decoded_of, decoded_of-some}
use bam.Reader.ProcessBatch.Safety.{validate_segment_range-ok}

-- The bound refuses nothing that names no codec.
assert_zstd_within_bound_plain :
    (multiplier version : ℕ) (rest : Bytes)
    → assert_zstd_within_bound multiplier (version ∷ 0 ∷ rest) ≡ ok tt
unfolding assert_zstd_within_bound
assert_zstd_within_bound_plain multiplier version rest =
    elim (Bool-cases (ltb (length (version ∷ 0 ∷ rest)) 10)) [
      | inl short ↦ rw short refl
      | inr long ↦ rw long refl
    ]

-- The multiplier that a bound's options give.
abbrev multiplier_of : Option ℕ → ℕ
multiplier_of bound = elim bound [ none ↦ default_decompress_multiplier | some m ↦ m ]

decode-zero_address :
    (fz : Bytes → Option Bytes) (client : Option OnChainDecoder) (bound : Option ℕ) (buf : Bytes)
    → assert_zstd_within_bound (multiplier_of bound) buf ≡ ok tt
    → decode fz client bound zero_address buf ≡ decode_structural fz buf
unfolding decode is_zero_address to_lower_case ◌===◌ lower_unit
decode-zero_address fz client bound buf h = rw (h, decode) refl

-- The default decoder on a buffer that begins with a batch of the binary encoder.
decode-binary_encoder :
    (fz : Bytes → Option Bytes) (client : Option OnChainDecoder) (bound : Option ℕ)
    (ms : List BamMessage) (sigs : List Bytes) (payload tail : Bytes)
    → binary_encoder ms sigs ≡ ok payload
    → length payload < 2 ^ 32
    → decode fz client bound zero_address (payload ++ tail) ≡ ok (map canonical ms, sigs)
unfolding binary_encoder frame decode_structural
decode-binary_encoder fz client bound ms sigs payload tail h small =
    let (e, encoded, eq) = >>=-eq-ok (encode_batch ms sigs false) _ h in
    let same : e.batch_data ≡ payload = ok-injective eq in
    let plain = encode_batch-IsPlainBatch ms sigs e encoded in
    let whole = decode_batch-encode_batch fz ms sigs e tail encoded (rw same small) in
    let bounded : assert_zstd_within_bound (multiplier_of bound) (e.batch_data ++ tail) ≡ ok tt =
      rw plain.framed (assert_zstd_within_bound_plain (multiplier_of bound) 2 _) in
    rw (← same) (
      decode-zero_address fz client bound (e.batch_data ++ tail) bounded
      ∙ rw (whole, decode_structural) refl)

total_bytes-get_elem? :
    (segs : List PackPlanIncluded) (i : ℕ) (seg : PackPlanIncluded)
    → get_elem? segs i ≡ some seg
    → length seg.payload_bytes ≤ total_bytes segs
unfolding total_bytes
total_bytes-get_elem? [] i seg h = absurd cc
total_bytes-get_elem? (s ∷ segs) zero seg h = let same : s ≡ seg = cc in rw (← same) (omega arith)
total_bytes-get_elem? (s ∷ segs) (suc i) seg h = omega (arith, total_bytes-get_elem? segs i seg h)

-- A range that can be sliced passes the check of the range.
validate-extract_segment_bytes :
    (b : Blob) (lo hi : ℕ) (bytes : Bytes)
    → extract_segment_bytes b lo hi ≡ ok bytes
    → validate_segment_range lo hi ≡ ok tt
unfolding extract_segment_bytes
validate-extract_segment_bytes b lo hi bytes h = elim (Bool-cases (ltb 4096 hi)) [
  | inl above ↦ absurd (cc (rw (above, extract_segment_bytes) at h))
  | inr below ↦ elim (Bool-cases (leb hi lo)) [
    | inl inverted ↦ absurd (cc (rw (below, inverted, extract_segment_bytes) at h))
    | inr ordered ↦ validate_segment_range-ok lo hi (ground arith) (ground arith)
  ]
]

-- The reader's default decoder returns what the poster's pool held: for a segment of a pack that a
-- tick made with the binary encoder over distinct tags, with a capacity of at most 4096 field elements
-- and fewer than 2^32 bytes, and a reader whose event carries the segment's range and the zero decoder
-- and whose fetch returns the blob that the pack assembles into, what `processBatch` decodes is the
-- messages of the tag's selection in order, senders in canonical form, with their signatures.
pub decoded_of-tick :
    (fz : Bytes → Option Bytes) (client : Option OnChainDecoder) (opts : AggregatorOptions)
    (pool : PoolView) (now : ℕ) (state : AggregatorState) (pack : PackResult) (i : ℕ)
    (seg : PackPlanIncluded) (blob : Blob) (reader : ProcessBatchOptions)
    → Distinct opts.tags
    → opts.encode ≡ binary_encoder
    → opts.capacity.max_fes ≤ 4096
    → opts.capacity.max_bytes < 2 ^ 32
    → (tick opts pool now state).1 ≡ ok (some pack)
    → get_elem? pack.plan.included i ≡ some seg
    → assemble_multi_segment_blob (map as_input pack.plan.included)
      ≡ ok (blob, map as_segment pack.plan.included)
    → start_of reader.event ≡ seg.start_fe
    → end_of reader.event ≡ seg.end_fe
    → reader.event.decoder ≡ zero_address
    → reader.decode ≡ decode fz client none
    → reader.fetch_blob reader.event.versioned_hash reader.parent_beacon_block_root ≡ some blob
    → (sel : AggregatorBatchSelection) × (lookup seg.content_tag pack.included_selections
        ≡ some sel)
      × (decoded_of reader
          ≡ some (
            map canonical (map to_bam_message sel.messages),
            map (λ m. m.signature) sel.messages,
          ))
decoded_of-tick fz client opts pool now state pack i seg blob reader d binary fes bytes ticked here
      assembled starts ends by_default with_default fetched =
    let p = tick-PackBlob opts pool now state pack d fes bytes ticked in
    let same : p.blob ≡ blob =
      ap (λ (x : Blob × List AssembledSegment). x.0) (ok-injective (sym p.assembled ∙ assembled)) in
    let holds : Holds blob seg =
      rw same at (All-get_elem? (Holds p.blob) pack.plan.included i seg p.holds here) in
    let (sel, found, _, _, encoded) =
      All-get_elem?
        (λ g.
          Enriched opts (lookup g.content_tag pack.included_selections) g.content_tag
            g.payload_bytes)
        pack.plan.included i seg p.mirrors here in
    let small = total_bytes-get_elem? pack.plan.included i seg here in
    let valid = validate-extract_segment_bytes blob seg.start_fe seg.end_fe _ holds in
    let read =
      decode-binary_encoder fz client none (map to_bam_message sel.messages)
        (map (λ m. m.signature) sel.messages) seg.payload_bytes
        (replicate (fes_of (as_input seg) * 31 - length seg.payload_bytes) 0) (rw binary at encoded)
        (omega (arith, p.small)) in
    (
      sel,
      found,
      decoded_of-some reader blob
          (seg.payload_bytes ++ replicate (fes_of (as_input seg) * 31 - length seg.payload_bytes) 0)
          (map canonical (map to_bam_message sel.messages), map (λ m. m.signature) sel.messages)
          (rw (starts, ends) valid) fetched (rw (starts, ends) holds)
          (rw (with_default, by_default) read),
    )
