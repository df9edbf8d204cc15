-- ===== src/Sdk/Errors.antt =====
-- The errors that the codecs of packages/bam-sdk/src throw; a number is the index that the
-- message names, or the byte that it shows.
use bam.Prelude.{ℕ}

pub data SdkError : Type 0 where
  odd_hex non_hex : SdkError
  not_parallel too_many_messages zstd_not_framed : SdkError
  signature_size sender_size nonce_range contents_too_large : ℕ → SdkError
  batch_too_short payload_past_buffer trailing_bytes decompression : SdkError
  unsupported_version unknown_codec : ℕ → SdkError
  record_header record_body : ℕ → SdkError
  aggregate_end : ℕ → SdkError
  negative_start end_too_large inverted_range blob_too_short : SdkError
  message_nonce message_sender message_tag message_content_hash : SdkError
