-- ===== src/Sdk/Batch/Shape.antt =====
-- The size of a batch.
use bam.Prelude.{ℕ, ◌+◌, ◌≡◌, ◌∙◌, refl, sym, ap, arith, List, [], ◌∷◌, ◌++◌, false}
use bam.Prelude.{Bytes, length, length-append, ok, >>=-eq-ok, ok-injective}
use bam.Sdk.Endian.RoundTrip.{length-write_u64_be, length-write_u32_be}
use bam.Sdk.Endian.{write_u32_be, write_u64_be}
use bam.Sdk.Batch.{
  BamMessage, EncodedBatch, frame, encode_record, encode_records, encode_batch, records_size,
  estimate_batch_size,
}
use bam.Sdk.Batch.Records.{encode_record-IsEncoded}
use bam.Sdk.Batch.RoundTrip.{encode_batch-IsPlainBatch, length-frame}

length-encode_record :
    (i : ℕ) (m : BamMessage) (sig rec : Bytes)
    → encode_record i m sig ≡ ok rec
    → length rec ≡ 97 + length m.contents
length-encode_record i m sig rec h =
    let r = encode_record-IsEncoded i m sig rec h in
    let tail = m.contents ++ sig in
    let len = write_u32_be (length m.contents) ++ tail in
    omega (
      arith,
      ap length r.laid_out,
      length-append r.sender_bytes (write_u64_be m.nonce ++ len),
      length-append (write_u64_be m.nonce) len,
      length-append (write_u32_be (length m.contents)) tail,
      length-append m.contents sig,
      length-write_u64_be m.nonce,
      length-write_u32_be (length m.contents),
      r.sender_length,
      r.sig_length,
    )

length-encode_records :
    (i : ℕ) (ms : List BamMessage) (sigs : List Bytes) (plain : Bytes)
    → encode_records i ms sigs ≡ ok plain
    → length plain ≡ records_size ms
unfolding encode_records records_size
length-encode_records i [] sigs plain h = ap length (sym (ok-injective h))
length-encode_records i (m ∷ ms) [] plain h = absurd cc
length-encode_records i (m ∷ ms) (sig ∷ sigs) plain h =
    let (rec, one, h') = >>=-eq-ok (encode_record i m sig) _ h in
    let (recs, more, whole) = >>=-eq-ok (encode_records (i + 1) ms sigs) _ h' in
    omega (
      arith,
      ap length (ok-injective whole),
      length-append rec recs,
      length-encode_record i m sig rec one,
      length-encode_records (i + 1) ms sigs recs more,
    )

-- An uncompressed batch is exactly as long as `estimateBatchSize` says, and `size` is its length.
pub length-encode_batch :
    (ms : List BamMessage) (sigs : List Bytes) (e : EncodedBatch)
    → encode_batch ms sigs false ≡ ok e
    → (length e.batch_data ≡ estimate_batch_size ms) × (e.size ≡ length e.batch_data)
unfolding estimate_batch_size
length-encode_batch ms sigs e h =
    let b = encode_batch-IsPlainBatch ms sigs e h in
    let small = length-encode_records 0 ms sigs b.plain b.records in
    (
      ap (λ (x : EncodedBatch). length x.batch_data) b.framed
          ∙ length-frame (length ms) b.plain
          ∙ omega (arith, small),
      rw b.framed (unfold frame in refl),
    )
