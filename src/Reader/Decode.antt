-- ===== src/Reader/Decode.antt =====
-- packages/bam-reader/src: `validateSegmentRange` of discovery/validate-range.ts, and the dispatch of
-- decode/dispatch.ts with the bound of decode/zstd-bound.ts. Field-element numbers are natural
-- numbers, so of the range checks the first three have nothing to refuse. The size that a ZSTD
-- frame declares is exact here; the source adds it up in doubles. The call of a decoder contract is
-- a parameter: `none` where it throws.
use bam.Prelude.{
  ℕ, zero, suc, ◌+◌, ◌*◌, ◌/◌, ◌%◌, ◌^◌, Bool, ◌&&◌, not, List, [], ◌∷◌, Option, none, some, leb,
  ltb, ◌==◌, if◌then◌else◌,
}
use bam.Prelude.{
  Bytes, Text, ◌===◌, length, get_or, take, drop, replicate, to_lower_case, Result, ok, err, ◌>>=◌,
  throw_if,
}
use bam.Sdk.Errors.{SdkError}
use bam.Sdk.Batch.{BamMessage, decode_batch, header_size}
use bam.Sdk.Blob.{field_elements_per_blob}

pub data RangeRejection : Type 0 where
  end_exceeds_blob inverted_or_zero_length : RangeRejection

-- `validateSegmentRange`
unfoldable pub validate_segment_range : ℕ → ℕ → Result RangeRejection (Unit {0})
validate_segment_range start_fe end_fe = do
  _ ← throw_if (ltb field_elements_per_blob end_fe) end_exceeds_blob
  throw_if (leb end_fe start_fe) inverted_or_zero_length

-- What a decode throws: an error of the SDK's decoder, or a `DecodeDispatchFailed`.
pub data DecodeError : Type 0 where
  structural : SdkError → DecodeError
  no_zstd_magic no_content_size no_public_client on_chain_failed : DecodeError
  declares_too_much : ℕ → DecodeError

-- `readU32BE` of zstd-bound.ts
unfoldable pub read_u32_be_at : Bytes → ℕ → ℕ
read_u32_be_at buf offset =
    get_or buf offset 0 * 0x1000000
    + get_or buf (offset + 1) 0 * 2 ^ 16
    + get_or buf (offset + 2) 0 * 2 ^ 8
    + get_or buf (offset + 3) 0

unfoldable pub has_zstd_magic : Bytes → Bool
has_zstd_magic payload =
    not (ltb (length payload) 4)
    && (get_or payload 0 0 == 0x28)
    && (get_or payload 1 0 == 0xb5)
    && (get_or payload 2 0 == 0x2f)
    && (get_or payload 3 0 == 0xfd)

-- The size of the Frame Content Size field, from the flag and the single-segment bit.
unfoldable pub fcs_size : ℕ → ℕ → ℕ
fcs_size flag single_segment =
    if flag == 0
    then (if single_segment == 0 then 0 else 1)
    else if flag == 1
    then 2
    else if flag == 2
    then 4
    else 8

-- The loop that adds up the field, least byte first.
unfoldable pub read_le : ℕ → ℕ → Bytes → ℕ
read_le zero weight bs = 0
read_le (suc n) weight bs = get_or bs 0 0 * weight + read_le n (weight * 256) (drop 1 bs)

-- `readFrameContentSize`
unfoldable pub read_frame_content_size : Bytes → Option ℕ
unfolding fcs_size read_le
read_frame_content_size payload =
    let descriptor = get_or payload 4 0 in
    let flag = descriptor / 64 % 4 in
    let single_segment = descriptor / 32 % 2 in
    let dict_id_size = get_or (0 ∷ 1 ∷ 2 ∷ 4 ∷ []) (descriptor % 4) 0 in
    let window_descriptor_size = if single_segment == 0 then 1 else 0 in
    let size = fcs_size flag single_segment in
    let offset = 5 + window_descriptor_size + dict_id_size in
    let declared = read_le size 1 (drop offset payload) in
    if ltb (length payload) 5
    then none
    else if size == 0
    then none
    else if ltb (length payload) (offset + size)
    then none
    else some (if flag == 1 then declared + 256 else declared)

-- `assertZstdWithinBound` on a header that names the ZSTD codec and a payload within the buffer.
unfoldable pub check_frame : ℕ → Bytes → ℕ → Result DecodeError (Unit {0})
unfolding has_zstd_magic read_frame_content_size
check_frame multiplier payload usable =
    if not (has_zstd_magic payload)
    then err no_zstd_magic
    else elim (read_frame_content_size payload) [
      | none ↦ err no_content_size
      | some declared ↦ throw_if (ltb (usable * multiplier) declared) (declares_too_much declared)
    ]

-- `assertZstdWithinBound`
unfoldable pub assert_zstd_within_bound : ℕ → Bytes → Result DecodeError (Unit {0})
unfolding read_u32_be_at check_frame
assert_zstd_within_bound multiplier usable_bytes =
    let payload_len = read_u32_be_at usable_bytes 6 in
    let checked =
      check_frame multiplier (take payload_len (drop header_size usable_bytes))
        (length usable_bytes) in
    if ltb (length usable_bytes) header_size
    then ok tt
    else if not (get_or usable_bytes 1 0 == 1)
    then ok tt
    else if ltb (length usable_bytes) (header_size + payload_len)
    then ok tt
    else checked

abbrev pub default_decompress_multiplier : ℕ
default_decompress_multiplier = 2

-- `0x` and forty zeros.
abbrev pub zero_address : Text
zero_address = 48 ∷ 120 ∷ replicate 40 48

unfoldable pub is_zero_address : Text → Bool
unfolding to_lower_case ◌===◌
is_zero_address addr = to_lower_case addr === zero_address

-- The messages and the signatures.
abbrev pub Decoded : Type 0
Decoded = List BamMessage × List Bytes

-- The call of a contract's decoder through a `publicClient`.
abbrev pub OnChainDecoder : Type 0
OnChainDecoder = Text → Bytes → Option Decoded

unfoldable pub decode_structural : (Bytes → Option Bytes) → Bytes → Result DecodeError Decoded
decode_structural fzstd_decompress usable_bytes =
    elim (decode_batch fzstd_decompress usable_bytes) [
      | ok decoded ↦ ok decoded
      | err e ↦ err (structural e)
    ]

unfoldable pub call_on_chain : Option OnChainDecoder → Text → Bytes → Result DecodeError Decoded
call_on_chain none decoder_address usable_bytes = err no_public_client
call_on_chain (some client) decoder_address usable_bytes =
    elim (client decoder_address usable_bytes) [
      | none ↦ err on_chain_failed
      | some decoded ↦ ok decoded
    ]

-- `decode`
unfoldable pub decode :
    (Bytes → Option Bytes)
    → Option OnChainDecoder
    → Option ℕ
    → Text
    → Bytes
    → Result DecodeError Decoded
unfolding is_zero_address assert_zstd_within_bound decode_structural call_on_chain
decode fzstd_decompress client zstd_bound decoder_address usable_bytes =
    let multiplier : ℕ = elim zstd_bound [ none ↦ default_decompress_multiplier | some m ↦ m ] in
    let local : Result DecodeError Decoded =
      assert_zstd_within_bound multiplier usable_bytes >>= λ _.
      decode_structural fzstd_decompress usable_bytes in
    if is_zero_address decoder_address
    then local
    else call_on_chain client decoder_address usable_bytes
