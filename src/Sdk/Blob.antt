-- ===== src/Sdk/Blob.antt =====
-- packages/bam-sdk/src/blob: constants.ts, `assembleMultiSegmentBlob` of multi-segment.ts and
-- `extractSegmentBytes` of extract.ts. A blob is its size and the byte at each offset. Offsets are
-- natural numbers: the guards against fractions and negative numbers have nothing to refuse.
pub mod Copy
pub mod Segments
use bam.Prelude.{ℕ, zero, suc, ◌+◌, ◌-◌, ◌*◌, ◌/◌, Bool, ◌&&◌, List, [], ◌∷◌, ◌++◌, leb, ltb}
use bam.Prelude.{
  if◌then◌else◌, Bytes, Text, length, get_or, take, drop, Result, ok, err, ◌>>=◌, throw_if,
}
use bam.Sdk.Errors.{SdkError, aggregate_end, end_too_large, inverted_range, blob_too_short}

abbrev pub bytes_per_field_element : ℕ
bytes_per_field_element = 32

abbrev pub usable_bytes_per_field_element : ℕ
usable_bytes_per_field_element = 31

abbrev pub field_elements_per_blob : ℕ
field_elements_per_blob = 4096

abbrev pub bytes_per_blob : ℕ
bytes_per_blob = 131072

abbrev pub usable_bytes_per_blob : ℕ
usable_bytes_per_blob = 126976

pub record Blob : Type 0 where
  pub size : ℕ
  pub at : ℕ → ℕ

-- `new Uint8Array(BYTES_PER_BLOB)`
unfoldable pub zero_blob : Blob
zero_blob = record { size = bytes_per_blob; at = λ i. 0 }

-- `blob.set(src, offset)`, at offsets where `src` fits.
unfoldable pub blob_set : Blob → Bytes → ℕ → Blob
blob_set b src offset = record b {
  at = λ i.
      if leb offset i && ltb i (offset + length src) then get_or src (i - offset) 0 else b.at i;
}

-- The `n` bytes from `offset` on.
unfoldable pub subarray : (ℕ → ℕ) → ℕ → ℕ → Bytes
subarray at offset zero = []
subarray at offset (suc n) = at offset ∷ subarray at (offset + 1) n

pub record MultiSegmentInput : Type 0 where
  pub content_tag : Text
  pub payload : Bytes

pub record AssembledSegment : Type 0 where
  pub content_tag : Text
  pub start_fe : ℕ
  pub end_fe : ℕ

-- `Math.ceil(byteLength / USABLE_BYTES_PER_FIELD_ELEMENT)`
unfoldable pub fe_count : ℕ → ℕ
fe_count byte_length = (byte_length + 30) / usable_bytes_per_field_element

-- The inner loop, with `n` field elements to go from `fe` on, and the payload from `srcOffset` on.
unfoldable pub copy_segment : ℕ → ℕ → Bytes → Blob → Blob
copy_segment zero fe rest b = b
copy_segment (suc n) fe rest b =
    copy_segment n (fe + 1) (drop usable_bytes_per_field_element rest)
      (blob_set b (take usable_bytes_per_field_element rest) (fe * bytes_per_field_element + 1))

-- The outer loop.
unfoldable pub assemble_from :
    ℕ → List MultiSegmentInput → Blob → Result SdkError (Blob × List AssembledSegment)
assemble_from cursor_fe [] b = ok (b, [])
assemble_from cursor_fe (s ∷ rest) b = do
  let segment_fes = fe_count (length s.payload)
  let end = cursor_fe + segment_fes
  _ ← throw_if (ltb field_elements_per_blob end) (aggregate_end end)
  (b', segments) ← assemble_from end rest (copy_segment segment_fes cursor_fe s.payload b)
  let seg : AssembledSegment = record {
    content_tag = s.content_tag;
    start_fe = cursor_fe;
    end_fe = end;
  }
  ok (b', seg ∷ segments)

unfoldable pub assemble_multi_segment_blob :
    List MultiSegmentInput → Result SdkError (Blob × List AssembledSegment)
unfolding assemble_from copy_segment blob_set zero_blob fe_count
assemble_multi_segment_blob segments = assemble_from 0 segments zero_blob

-- The loop of `extractSegmentBytes`: bytes 1 to 31 of `n` field elements.
unfoldable pub read_fes : ℕ → ℕ → (ℕ → ℕ) → Bytes
read_fes zero fe at = []
read_fes (suc n) fe at =
    subarray at (fe * bytes_per_field_element + 1) usable_bytes_per_field_element
    ++ read_fes n (fe + 1) at

unfoldable pub extract_segment_bytes : Blob → ℕ → ℕ → Result SdkError Bytes
unfolding read_fes subarray
extract_segment_bytes b start_fe end_fe = do
  _ ← throw_if (ltb field_elements_per_blob end_fe) end_too_large
  _ ← throw_if (leb end_fe start_fe) inverted_range
  _ ← throw_if (ltb b.size (end_fe * bytes_per_field_element)) blob_too_short
  ok (read_fes (end_fe - start_fe) start_fe b.at)
