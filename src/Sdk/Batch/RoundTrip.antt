-- ===== src/Sdk/Batch/RoundTrip.antt =====
-- `decodeBatch` on what `encodeBatch` wrote (packages/bam-sdk/src/batch.ts).
use bam.Prelude.{ℕ, suc, ◌+◌, ◌^◌, ◌<◌, ◌≡◌, refl, ap, ◌∙◌, arith, inl, inr}
use bam.Prelude.{false, List, [], ◌++◌, map, append_assoc, append-nil, Bytes}
use bam.Prelude.{length, length-append, drop, take-append_eq, drop-append_eq, drop-drop, ok}
use bam.Prelude.{Result-cases, Option, ltb}
use bam.Sdk.Endian.{write_u32_be}
use bam.Sdk.Endian.RoundTrip.{length-write_u32_be}
use bam.Sdk.Endian.RoundTrip.{read_u32_be-write_u32_be}
use bam.Sdk.Batch.{
  BamMessage, codec_none, EncodedBatch, encode_records, encode_batch, frame, decode_records,
  decode_batch,
}
use bam.Sdk.Batch.Records.{canonical, decode_records-encode_records}

-- What the guards of `encode_batch` leave when it returns without compression.
pub record IsPlainBatch (ms : List BamMessage) (sigs : List Bytes) (e : EncodedBatch) : Type 0 where
  pub parallel : length ms ≡ length sigs
  pub count_fits : length ms < 2 ^ 32
  pub plain : Bytes
  pub records : encode_records 0 ms sigs ≡ ok plain
  pub framed : e ≡ frame codec_none (length ms) plain

pub encode_batch-IsPlainBatch :
    (ms : List BamMessage) (sigs : List Bytes) (e : EncodedBatch)
    → encode_batch ms sigs false ≡ ok e
    → IsPlainBatch ms sigs e
unfolding encode_batch
encode_batch-IsPlainBatch ms sigs e h = elim (Result-cases (encode_records 0 ms sigs)) [
  | inl (plain, eq) ↦ record {
    parallel = ground arith;
    count_fits = ground arith;
    plain = plain;
    records = eq;
    framed = ground arith;
  }
  | inr (x, eq) ↦ absurd (ground arith)
]

pub length-frame :
    (count : ℕ) (payload : Bytes)
    → length (frame codec_none count payload).batch_data ≡ 10 + length payload
unfolding frame
length-frame count payload = omega (
  arith,
  length-append (write_u32_be count) (write_u32_be (length payload) ++ payload),
  length-append (write_u32_be (length payload)) payload,
  length-write_u32_be count,
  length-write_u32_be (length payload),
)

-- The decoder on a frame, with `tail` behind it, reads the records of the payload.
pub decode_batch-frame :
    (fz : Bytes → Option Bytes) (count : ℕ) (payload tail : Bytes) (ms : List BamMessage)
    (sigs : List Bytes)
    → count < 2 ^ 32
    → length payload < 2 ^ 32
    → decode_records 0 count payload ≡ ok (ms, sigs, [])
    → decode_batch fz ((frame codec_none count payload).batch_data ++ tail) ≡ ok (ms, sigs)
unfolding decode_batch frame
decode_batch-frame fz count payload tail ms sigs hc hp h =
    let r2 = payload ++ tail in
    let r1 = write_u32_be (length payload) ++ r2 in
    let r0 = write_u32_be count ++ r1 in
    let regroup : (write_u32_be count ++ (write_u32_be (length payload) ++ payload)) ++ tail ≡ r0 =
      simp append_assoc in
    let size : length r0 ≡ 8 + length payload + length tail = omega (
      arith,
      length-append (write_u32_be count) r1,
      length-append (write_u32_be (length payload)) r2,
      length-append payload tail,
      length-write_u32_be count,
      length-write_u32_be (length payload),
    ) in
    let long_enough : ltb (suc (suc (length r0))) 10 ≡ false = ground (arith, size) in
    let payload_fits : ltb (suc (suc (length r0))) (10 + length payload) ≡ false =
      ground (arith, size) in
    let at_length : drop 4 r0 ≡ r1 =
      drop-append_eq 4 (write_u32_be count) r1 (length-write_u32_be count) in
    let at_payload : drop 8 r0 ≡ r2 =
      drop-drop 4 4 r0
      ∙ rw at_length
          (drop-append_eq 4 (write_u32_be (length payload)) r2 (length-write_u32_be _)) in
    simp (
      regroup,
      long_enough,
      read_u32_be-write_u32_be count r1 hc,
      at_length,
      at_payload,
      read_u32_be-write_u32_be (length payload) r2 hp,
      payload_fits,
      take-append_eq (length payload) payload tail refl,
      h,
    )

-- The messages and signatures that were encoded without compression come back, each sender in
-- canonical form, from any buffer that begins with the batch, provided the batch is shorter than
-- 2^32 bytes.
pub decode_batch-encode_batch :
    (fz : Bytes → Option Bytes) (ms : List BamMessage) (sigs : List Bytes) (e : EncodedBatch)
    (tail : Bytes)
    → encode_batch ms sigs false ≡ ok e
    → length e.batch_data < 2 ^ 32
    → decode_batch fz (e.batch_data ++ tail) ≡ ok (map canonical ms, sigs)
decode_batch-encode_batch fz ms sigs e tail h hl =
    let b = encode_batch-IsPlainBatch ms sigs e h in
    let small : length b.plain < 2 ^ 32 = omega (
      arith,
      length-frame (length ms) b.plain,
      ap (λ (x : EncodedBatch). length x.batch_data) b.framed,
    ) in
    let recs = decode_records-encode_records 0 0 ms sigs b.plain [] b.parallel b.records in
    rw b.framed (
      decode_batch-frame fz (length ms) b.plain tail (map canonical ms) sigs b.count_fits small
        (rw (append-nil b.plain) at recs))
