-- ===== src/Poster/Types.antt =====
-- packages/bam-poster/src/types.ts: messages as the pool holds them, and the batch policy. Times
-- are milliseconds since the epoch.
use bam.Prelude.{ℕ, Bytes, Text, Option, List}
use bam.Sdk.Batch.{BamMessage}

pub record DecodedMessage : Type 0 where
  pub sender : Text
  pub nonce : ℕ
  pub contents : Bytes
  pub content_tag : Text
  pub signature : Bytes
  pub message_hash : Text
  pub ingested_at : Option ℕ

-- `pool.list`
abbrev pub PoolView : Type 0
PoolView = Text → List DecodedMessage

-- `null` is `none`; the capacity in bytes comes before the time.
pub record BatchPolicy : Type 0 where
  pub select : Text → PoolView → ℕ → ℕ → Option (List DecodedMessage)
  pub fill : Text → PoolView → ℕ → Option (List DecodedMessage)

-- `toBAMMessage`
abbrev pub to_bam_message : DecodedMessage → BamMessage
to_bam_message d = record { sender = d.sender; nonce = d.nonce; contents = d.contents }
