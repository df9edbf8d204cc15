-- ===== src/Tests/Data.antt =====
-- Small inputs: two senders, one message of each, and the pools of two tags.
use bam.Prelude.{
  false, List, [], ◌∷◌, Option, none, some, Bytes, Text, replicate, Result, ok, err, if◌then◌else◌,
  ◌===◌,
}
use bam.Sdk.Errors.{SdkError}
use bam.Sdk.Batch.{BamMessage, EncodedBatch, codec_none}
use bam.Poster.Types.{DecodedMessage, PoolView}
use bam.Poster.Pack.{PerTagSelection, PackCapacity}
use bam.Poster.Policy.{DefaultBatchPolicyConfig, default_batch_policy}
use bam.Poster.Aggregator.{AggregatorOptions, PackResult, TickError}
use bam.Poster.SelfCheck.{binary_encoder}
use bam.Sdk.Batch.{estimate_batch_size}

-- `0x` and 40 times `a`, and 40 times `B`.
abbrev pub sender_a : Text
sender_a = 48 ∷ 120 ∷ replicate 40 97

abbrev pub sender_b : Text
sender_b = 48 ∷ 120 ∷ replicate 40 66

abbrev pub signature : Bytes
signature = replicate 65 7

abbrev pub messages : List BamMessage
messages =
    record { sender = sender_a; nonce = 5; contents = 1 ∷ 2 ∷ 3 ∷ [] }
    ∷ record { sender = sender_b; nonce = 300; contents = [] }
    ∷ []

abbrev pub signatures : List Bytes
signatures = signature ∷ signature ∷ []

abbrev pub no_fzstd : Bytes → Option Bytes
no_fzstd b = none

-- The batch that an encoding returned.
abbrev pub batch_of : Result SdkError EncodedBatch → EncodedBatch
batch_of (ok e) = e
batch_of (err x) = record { batch_data = []; message_count = 0; codec = codec_none; size = 0 }

abbrev pub tag_a : Text
tag_a = 48 ∷ 120 ∷ 97 ∷ []

abbrev pub tag_b : Text
tag_b = 48 ∷ 120 ∷ 98 ∷ []

abbrev pub message_a : DecodedMessage
message_a = record {
  sender = sender_a;
  nonce = 5;
  contents = 1 ∷ 2 ∷ 3 ∷ [];
  content_tag = tag_a;
  signature = signature;
  message_hash = [];
  ingested_at = some 100;
}

abbrev pub message_b : DecodedMessage
message_b = record {
  sender = sender_b;
  nonce = 0;
  contents = 9 ∷ [];
  content_tag = tag_b;
  signature = signature;
  message_hash = [];
  ingested_at = some 900;
}

-- One message for each of the two tags.
abbrev pub pool : PoolView
pool tag = if tag === tag_a then message_a ∷ [] else if tag === tag_b then message_b ∷ [] else []

abbrev pub config : DefaultBatchPolicyConfig
config = record {
  size_trigger_numerator = 3;
  size_trigger_denominator = 4;
  age_trigger_ms = 600;
  count_trigger = 8;
  force_flush = false;
  estimate_batch_size = estimate_batch_size;
}

-- A blob of 4096 field elements, of which the policy uses 1000 bytes for a tag.
abbrev pub options : AggregatorOptions
options = record {
  policy = default_batch_policy config;
  tags = tag_b ∷ tag_a ∷ [];
  max_tags_per_pack = 4;
  capacity = record { max_fes = 4096; max_bytes = 126976 };
  blob_capacity_bytes = 1000;
  encode = binary_encoder;
}

abbrev pub pack_of : Result TickError (Option PackResult) → PackResult
pack_of (ok (some pack)) = pack
pack_of (ok none) = record {
  plan = record { included = []; excluded = [] };
  included_selections = [];
  excluded_tags = [];
}
pack_of (err e) = record {
  plan = record { included = []; excluded = [] };
  included_selections = [];
  excluded_tags = [];
}

abbrev pub selection_a : PerTagSelection
selection_a = record {
  content_tag = tag_a;
  payload_bytes = replicate 40 1;
  oldest_ingested_at = 100;
  pending_message_count = 1;
}

abbrev pub selection_b : PerTagSelection
selection_b = record {
  content_tag = tag_b;
  payload_bytes = replicate 70 2;
  oldest_ingested_at = 900;
  pending_message_count = 2;
}

-- Room for four field elements: the older selection fits, the other does not.
abbrev pub narrow : PackCapacity
narrow = record { max_fes = 4; max_bytes = 200 }
