-- ===== src/Sdk/Batch.antt =====
-- packages/bam-sdk/src/batch.ts: the ERC-8180 batch codec. A buffer that is filled front to back
-- is the concatenation of what is written; the read cursor is the list of the bytes it has not
-- passed, so `o + n > plain.length` is `length rest < n`. A nonce is a natural number: a negative
-- `bigint`, which the encoder refuses, is not representable.
pub mod Records
pub mod RoundTrip
pub mod Shape
use bam.Prelude.{ℕ, zero, suc, ◌+◌, ◌*◌, ◌^◌, Bool, true, false, ◌&&◌, ◌||◌, not, List, [], ◌∷◌}
use bam.Prelude.{◌++◌, ltb, ◌==◌, if◌then◌else◌, Bytes, Text, length, get_or, take, drop, Option}
use bam.Prelude.{Result, ok, err, ◌>>=◌, throw_if}
use bam.Sdk.Errors.{
  SdkError, not_parallel, too_many_messages, zstd_not_framed, signature_size, sender_size,
  nonce_range, contents_too_large, batch_too_short, payload_past_buffer, trailing_bytes,
  unsupported_version, unknown_codec, record_header, record_body,
}
use bam.Sdk.Hex.{hex_to_bytes, bytes_to_hex}
use bam.Sdk.Endian.{write_u32_be, read_u32_be, write_u64_be, read_u64_be}
use bam.Sdk.Compression.{compress, is_compressed, decompress}

pub record BamMessage : Type 0 where
  pub sender : Text
  pub nonce : ℕ
  pub contents : Bytes

pub data Codec : Type 0 where
  codec_none codec_zstd : Codec

pub record EncodedBatch : Type 0 where
  pub batch_data : Bytes
  pub message_count : ℕ
  pub codec : Codec
  pub size : ℕ

abbrev pub batch_version : ℕ
batch_version = 2

abbrev pub header_size : ℕ
header_size = 10

abbrev pub signature_bytes : ℕ
signature_bytes = 65

abbrev pub record_fixed_overhead : ℕ
record_fixed_overhead = 97

abbrev pub u32_max : ℕ
u32_max = 0xffff_ffff

abbrev pub u64_max : ℕ
u64_max = 0xffff_ffff_ffff_ffff

-- The body of the encoder's loop.
unfoldable pub encode_record : ℕ → BamMessage → Bytes → Result SdkError Bytes
encode_record i m sig = do
  _ ← throw_if (not (length sig == signature_bytes)) (signature_size i)
  sender_bytes ← hex_to_bytes m.sender
  _ ← throw_if (not (length sender_bytes == 20)) (sender_size i)
  _ ← throw_if (ltb u64_max m.nonce) (nonce_range i)
  _ ← throw_if (ltb u32_max (length m.contents)) (contents_too_large i)
  ok (
      sender_bytes
      ++ (write_u64_be m.nonce ++ (write_u32_be (length m.contents) ++ (m.contents ++ sig))))

-- The lists are parallel when the loop runs; the last clause is for a missing signature.
unfoldable pub encode_records : ℕ → List BamMessage → List Bytes → Result SdkError Bytes
encode_records i [] sigs = ok []
encode_records i (m ∷ ms) (sig ∷ sigs) = do
  rec ← encode_record i m sig
  recs ← encode_records (i + 1) ms sigs
  ok (rec ++ recs)
encode_records i (m ∷ ms) [] = err not_parallel

-- The header before the payload.
unfoldable pub frame : Codec → ℕ → Bytes → EncodedBatch
frame c count payload =
    let out : Bytes =
      batch_version
      ∷ elim c [ codec_none ↦ 0 | codec_zstd ↦ 1 ]
      ∷ (write_u32_be count ++ (write_u32_be (length payload) ++ payload)) in
    record { batch_data = out; message_count = count; codec = c; size = length out }

-- The Boolean is `options?.codec === 'zstd'`.
unfoldable pub encode_batch : List BamMessage → List Bytes → Bool → Result SdkError EncodedBatch
encode_batch messages signatures use_zstd = do
  _ ← throw_if (not (length messages == length signatures)) not_parallel
  _ ← throw_if (ltb u32_max (length messages)) too_many_messages
  plain ← encode_records 0 messages signatures
  let payload = if use_zstd then compress plain else plain
  let zstd_actually_applied = use_zstd && is_compressed payload
  _ ← throw_if (use_zstd && not zstd_actually_applied) zstd_not_framed
  ok (frame (if zstd_actually_applied then codec_zstd else codec_none) (length messages) payload)

-- The body of the decoder's loop: a message, its signature and the bytes that are left.
unfoldable pub decode_record : ℕ → Bytes → Result SdkError (BamMessage × Bytes × Bytes)
decode_record i rest = do
  _ ← throw_if (ltb (length rest) 32) (record_header i)
  let after_sender = drop 20 rest
  let after_nonce = drop 8 after_sender
  let contents_len = read_u32_be after_nonce
  let body = drop 4 after_nonce
  _ ← throw_if (ltb (length body) (contents_len + signature_bytes)) (record_body i)
  let after_contents = drop contents_len body
  let m : BamMessage = record {
    sender = bytes_to_hex (take 20 rest);
    nonce = read_u64_be after_sender;
    contents = take contents_len body;
  }
  ok (m, take signature_bytes after_contents, drop signature_bytes after_contents)

-- The loop from message `i` on, with `n` messages to read.
unfoldable pub decode_records :
    ℕ → ℕ → Bytes → Result SdkError (List BamMessage × List Bytes × Bytes)
decode_records i zero rest = ok ([], [], rest)
decode_records i (suc n) rest = do
  (m, sig, rest') ← decode_record i rest
  (ms, sigs, left) ← decode_records (i + 1) n rest'
  ok (m ∷ ms, sig ∷ sigs, left)

unfoldable pub decode_batch :
    (Bytes → Option Bytes) → Bytes → Result SdkError (List BamMessage × List Bytes)
decode_batch fzstd_decompress buf = do
  _ ← throw_if (ltb (length buf) header_size) batch_too_short
  let version = get_or buf 0 0
  _ ← throw_if (not (version == batch_version)) (unsupported_version version)
  let codec_id = get_or buf 1 0
  _ ← throw_if (not (codec_id == 0) && not (codec_id == 1)) (unknown_codec codec_id)
  let message_count = read_u32_be (drop 2 buf)
  let payload_len = read_u32_be (drop 6 buf)
  _ ← throw_if (ltb (length buf) (header_size + payload_len)) payload_past_buffer
  let payload = take payload_len (drop header_size buf)
  plain ← if codec_id == 1 then decompress fzstd_decompress payload else ok payload
  (messages, signatures, left) ← decode_records 0 message_count plain
  _ ← throw_if (not (length left == 0)) trailing_bytes
  ok (messages, signatures)

-- The sum that the loop of `estimateBatchSize` adds to the header's size.
unfoldable pub records_size : List BamMessage → ℕ
records_size [] = 0
records_size (m ∷ ms) = record_fixed_overhead + length m.contents + records_size ms

unfoldable pub estimate_batch_size : List BamMessage → ℕ
unfolding records_size
estimate_batch_size ms = header_size + records_size ms
