-- ===== src/Tests/IngestRuns.antt =====
-- The gates of the ingest and the rate limiter at concrete inputs.
use bam.Prelude.{
  ℕ, ◌≡◌, refl, Bool, true, false, ltb, List, [], ◌∷◌, ◌++◌, Option, none, some, Bytes, Text,
  replicate, ok, err, length, if◌then◌else◌, to_lower_case,
}
use bam.Prelude.TextMap.{lookup}
use bam.Poster.Ingest.{IngestPipelineOptions, RateLimiter, RateLimitConfig, check_rate}
use bam.Poster.Ingest.Limits.{IngestRun, ingest-PassesGates, those, check_rate_lem}
use bam.Store.{Db}
use bam.Prelude.{min, ◌*◌}
use bam.Tests.Data.{sender_a, tag_a, signature}

abbrev empty_db : Db
empty_db = record { messages = []; batches = []; nonces = []; tag_seq = []; reader_cursor = [] }

abbrev limits : RateLimitConfig
limits = record { window_ms = 100; max_per_window = 2 }

abbrev options : IngestPipelineOptions
options = record {
  validator = record { validate = λ d. none; recover_signer = none };
  rate_limit = limits;
  allowlisted_tags = tag_a ∷ [];
  max_message_size_bytes = 10;
  max_contents_size_bytes = 5;
  chain_id = 1;
  parse_envelope = λ raw. some (record {
    content_tag = tag_a;
    sender = sender_a;
    nonce = 3;
    contents = raw;
    signature = signature;
  });
  compute_message_hash = λ s t n c. some (7 ∷ []);
}

abbrev limiter : RateLimiter
limiter = record { timestamps = (sender_a, 10 ∷ 450 ∷ []) ∷ []; last_sweep_ms = 0 }

ingest-PassesGates_example : IngestRun options 500 (1 ∷ 2 ∷ []) limiter empty_db
ingest-PassesGates_example = ingest-PassesGates options 500 (1 ∷ 2 ∷ []) limiter empty_db

check_rate_lem_example :
    ((check_rate limits 500 sender_a limiter).1 ≡ true)
    × (lookup sender_a (check_rate limits 500 sender_a limiter).0.timestamps
        ≡ some (450 ∷ 500 ∷ []))
unfolding those lookup to_lower_case bam.Prelude.lower_unit
check_rate_lem_example = check_rate_lem limits 500 sender_a limiter (10 ∷ 450 ∷ []) refl
