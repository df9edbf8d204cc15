-- ===== src/Sdk/Message.antt =====
-- packages/bam-sdk/src/message.ts: `computeMessageHash` and `computeMessageId`. `keccak_256` is a
-- package's, so it is a parameter. A nonce is a natural number: a negative one is not representable.
use bam.Prelude.{ℕ, not, ◌++◌, ltb, ◌==◌, Bytes, Text, length, Result, ok, ◌>>=◌, throw_if}
use bam.Sdk.Errors.{SdkError, message_nonce, message_sender, message_tag, message_content_hash}
use bam.Sdk.Hex.{hex_to_bytes, bytes_to_hex}
use bam.Sdk.Endian.{write_u64_be}
use bam.Sdk.Batch.{BamMessage, u64_max}

-- The three fields that both identifiers begin with: `sender`, `contentTag` and `nonce`.
unfoldable pub pack_prefix : Text → Text → ℕ → Result SdkError Bytes
pack_prefix sender content_tag nonce = do
  _ ← throw_if (ltb u64_max nonce) message_nonce
  sender_bytes ← hex_to_bytes sender
  _ ← throw_if (not (length sender_bytes == 20)) message_sender
  tag_bytes ← hex_to_bytes content_tag
  _ ← throw_if (not (length tag_bytes == 32)) message_tag
  ok (sender_bytes ++ (tag_bytes ++ write_u64_be nonce))

-- `computeMessageHash`
unfoldable pub compute_message_hash :
    (Bytes → Bytes) → Text → Text → ℕ → Bytes → Result SdkError Text
compute_message_hash keccak_256 sender content_tag nonce contents = do
  head ← pack_prefix sender content_tag nonce
  ok (bytes_to_hex (keccak_256 (head ++ contents)))

-- `computeMessageHashForMessage`
unfoldable pub compute_message_hash_for_message :
    (Bytes → Bytes) → BamMessage → Text → Result SdkError Text
unfolding compute_message_hash
compute_message_hash_for_message keccak_256 m content_tag =
    compute_message_hash keccak_256 m.sender content_tag m.nonce m.contents

-- `computeMessageId`
unfoldable pub compute_message_id : (Bytes → Bytes) → Text → Text → ℕ → Text → Result SdkError Text
compute_message_id keccak_256 sender content_tag nonce batch_content_hash = do
  head ← pack_prefix sender content_tag nonce
  bch_bytes ← hex_to_bytes batch_content_hash
  _ ← throw_if (not (length bch_bytes == 32)) message_content_hash
  ok (bytes_to_hex (keccak_256 (head ++ bch_bytes)))
