-- ===== src/Sdk/Compression.antt =====
-- packages/bam-sdk/src/compression.ts: the parts of the ZSTD wrapper that the batch codec calls.
-- `fzstd.decompress` is a package's, so it is a parameter: `none` where it throws.
use bam.Prelude.{◌+◌, ◌*◌, Bool, false, ltb, ◌==◌, if◌then◌else◌, Bytes, length, get_or}
use bam.Prelude.{Option, none, some, Result, ok, err}
use bam.Sdk.Errors.{SdkError, decompression}

-- `compress` is a placeholder: it returns its input unchanged.
unfoldable pub compress : Bytes → Bytes
compress plain = plain

unfoldable pub is_compressed : Bytes → Bool
is_compressed buf =
    if ltb (length buf) 4
    then false
    else get_or buf 0 0
        + get_or buf 1 0 * 0x100
        + get_or buf 2 0 * 0x10000
        + get_or buf 3 0 * 0x1000000
      == 0xfd2fb528

unfoldable pub decompress : (Bytes → Option Bytes) → Bytes → Result SdkError Bytes
decompress fzstd_decompress buf = elim (fzstd_decompress buf) [
  | none ↦ err decompression
  | some plain ↦ ok plain
]
