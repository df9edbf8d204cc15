-- ===== src/Poster/Ingest/Limits.antt =====
-- The gates of an ingest: what an accepted submission has passed, and the rate limiter.
use bam.Prelude.{
  ℕ, Bool, ◌+◌, ◌≤◌, ◌≡◌, refl, ap, ◌∙◌, arith, true, false, List, [], ◌∷◌, ◌++◌, none, some, leb,
  ltb,
}
use bam.Prelude.{
  Bytes, Text, length, to_lower_case, ===_refl, ok, Bool-cases, Option-cases, inl, inr, ◌⊎◌,
  if◌then◌else◌,
}
use bam.Prelude.TextMap.{lookup, lookup-insert}
use bam.Poster.Types.{DecodedMessage}
use bam.Store.{Db}
use bam.Poster.Ingest.{
  IngestPipelineOptions, RateLimitConfig, RateLimiter, Envelope, within_window, PosterRejection,
  rejected, check_rate, rate_limit_key, is_allowlisted, ingest_txn, commit, ingest,
}

-- The message that the pipeline makes of an envelope.
abbrev pub decoded_of : Envelope → Text → DecodedMessage
decoded_of e message_hash = record {
  sender = e.sender;
  nonce = e.nonce;
  contents = e.contents;
  content_tag = e.content_tag;
  signature = e.signature;
  message_hash = message_hash;
  ingested_at = none;
}

-- Every gate before the transaction, passed by a submission.
pub record PassesGates (opts : IngestPipelineOptions) (now : ℕ) (raw : Bytes)
    (limiter : RateLimiter) : Type 0 where
  pub envelope : Envelope
  pub message_hash : Text
  pub small : length raw ≤ opts.max_message_size_bytes
  pub parsed : opts.parse_envelope raw ≡ some envelope
  pub small_contents : length envelope.contents ≤ opts.max_contents_size_bytes
  pub allowlisted : is_allowlisted envelope.content_tag opts.allowlisted_tags ≡ true
  pub hashed :
      opts.compute_message_hash envelope.sender envelope.content_tag envelope.nonce
        envelope.contents
      ≡ some message_hash
  pub within_rate :
      (check_rate opts.rate_limit now
        (rate_limit_key opts.validator (decoded_of envelope message_hash))
        limiter).1
      ≡ true

-- The times that pass a test, in their order.
unfoldable pub those : (ℕ → Bool) → List ℕ → List ℕ
those test [] = []
those test (t ∷ ts) = let rest = those test ts in if test t then t ∷ rest else rest

within_window-those :
    (window_ms now : ℕ) (hist : List ℕ)
    → within_window window_ms now hist ≡ those (λ t. ltb now (t + window_ms)) hist
unfolding within_window those
within_window-those w now [] = refl
within_window-those w now (t ∷ ts) = elim (Bool-cases (ltb now (t + w))) [
  | inl recent ↦ rw recent (ap (λ us. t ∷ us) (within_window-those w now ts))
  | inr old ↦ rw old (within_window-those w now ts)
]

-- For a key that the limiter knows, a check passes exactly if fewer than the maximum of its recorded
-- times are less than a window ago. Afterwards, whether or not the map was swept, the times recorded
-- for the key are those, in their order, and behind them the present if the check passed.
pub check_rate_lem :
    (config : RateLimitConfig) (now : ℕ) (key : Text) (limiter : RateLimiter) (hist : List ℕ)
    → lookup (to_lower_case key) limiter.timestamps ≡ some hist
    → let recent = those (λ t. ltb now (t + config.window_ms)) hist in
      let passes = ltb (length recent) config.max_per_window in
      ((check_rate config now key limiter).1 ≡ passes)
      × (lookup (to_lower_case key) (check_rate config now key limiter).0.timestamps
          ≡ some (if passes then recent ++ (now ∷ []) else recent))
unfolding check_rate
check_rate_lem config now key limiter hist found =
    let recent = within_window config.window_ms now hist in
    let k = to_lower_case key in
    rw (← within_window-those config.window_ms now hist)
      (elim (Bool-cases (leb config.max_per_window (length recent))) [
        | inl full ↦
            let closed : ltb (length recent) config.max_per_window ≡ false = ground arith in
            rw (found, full, closed, check_rate)
              (refl, lookup-insert k k recent _ ∙ rw (===_refl k) refl)
        | inr room ↦
            let opened : ltb (length recent) config.max_per_window ≡ true = ground arith in
            rw (found, room, opened, check_rate)
              (refl, lookup-insert k k (recent ++ (now ∷ [])) _ ∙ rw (===_refl k) refl)
      ])

-- The two ways of an ingest: it is refused before the transaction, with the database as it was, or it
-- passed every gate and is what the transaction made of it.
abbrev pub IngestRun : IngestPipelineOptions → ℕ → Bytes → RateLimiter → Db → Type 0
IngestRun opts now raw limiter db =
    (((ingest opts now raw limiter db).1 ≡ db)
      × (reason : PosterRejection) × ((ingest opts now raw limiter db).2 ≡ ok (rejected reason)))
    ⊎ ((p : PassesGates opts now raw limiter) × (commit db
            (ingest_txn opts now (decoded_of p.envelope p.message_hash) db)
          ≡ ((ingest opts now raw limiter db).1, (ingest opts now raw limiter db).2)))

-- The gates behind the parser.
parsed_gates :
    (opts : IngestPipelineOptions) (now : ℕ) (raw : Bytes) (limiter : RateLimiter) (db : Db)
    (env : Envelope)
    → ltb opts.max_message_size_bytes (length raw) ≡ false
    → opts.parse_envelope raw ≡ some env
    → IngestRun opts now raw limiter db
unfolding ingest
parsed_gates opts now raw limiter db env small parsed =
    elim (Bool-cases (ltb opts.max_contents_size_bytes (length env.contents))) [
      | inl large ↦ inl (rw (small, parsed, large, ingest) (refl, _, refl))
      | inr fits ↦ elim (Bool-cases (is_allowlisted env.content_tag opts.allowlisted_tags)) [
        | inr unknown ↦ inl (rw (small, parsed, fits, unknown, ingest) (refl, _, refl))
        | inl known ↦
            elim (Option-cases
              (opts.compute_message_hash env.sender env.content_tag env.nonce env.contents)) [
                | inl bad ↦ inl (rw (small, parsed, fits, known, bad, ingest) (refl, _, refl))
                | inr (hash, hashed) ↦
                    let decoded = decoded_of env hash in
                    let rate =
                      check_rate opts.rate_limit now (rate_limit_key opts.validator decoded)
                        limiter in
                    elim (Bool-cases rate.1) [
                      | inr limited ↦
                          inl (
                            rw (small, parsed, fits, known, hashed, limited, ingest)
                              (refl, _, refl))
                      | inl passes ↦ inr (
                        record {
                          envelope = env;
                          message_hash = hash;
                          small = ground arith;
                          parsed = parsed;
                          small_contents = ground arith;
                          allowlisted = known;
                          hashed = hashed;
                          within_rate = passes;
                        },
                        rw (small, parsed, fits, known, hashed, passes, ingest) refl,
                      )
                    ]
              ]
      ]
    ]

-- Every submission goes one of two ways. Either it is rejected before the transaction, and the
-- database is as it was; or it has passed every gate, and the database and the result are those of
-- its transaction, so that whatever is accepted has passed every gate.
pub ingest-PassesGates :
    (opts : IngestPipelineOptions) (now : ℕ) (raw : Bytes) (limiter : RateLimiter) (db : Db)
    → IngestRun opts now raw limiter db
unfolding ingest
ingest-PassesGates opts now raw limiter db =
    elim (Bool-cases (ltb opts.max_message_size_bytes (length raw))) [
      | inl large ↦ inl (rw (large, ingest) (refl, _, refl))
      | inr small ↦ elim (Option-cases (opts.parse_envelope raw)) [
        | inl bad ↦ inl (rw (small, bad, ingest) (refl, _, refl))
        | inr (env, parsed) ↦ parsed_gates opts now raw limiter db env small parsed
      ]
    ]
