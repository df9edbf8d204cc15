-- ===== src/Poster/Ingest.antt =====
-- packages/bam-poster/src/ingest: size-bound.ts, rate-limit.ts, monotonicity.ts and the pipeline of
-- pipeline.ts. The parser of the envelope (JSON), the hash (keccak) and the validator (ECDSA) are
-- parameters; the first two are `none` where they refuse or throw. The limiter's map is read and
-- written at one key at a time, and its sweep is a filter of the entries.
pub mod Monotonic
pub mod Nonces
pub mod NextNonce
pub mod Limits
use bam.Prelude.{
  ℕ, ◌+◌, ◌≡◌, Bool, true, false, not, List, [], ◌∷◌, ◌++◌, Option, none, some, leb, ltb, ◌==◌,
  if◌then◌else◌,
}
use bam.Prelude.{Bytes, Text, ◌===◌, to_lower_case, length, replicate, Result, ok, err, ◌>>=◌}
use bam.Prelude.TextMap.{TextMap, lookup, insert}
use bam.Poster.Types.{DecodedMessage}
use bam.Store.{
  StoreError, duplicate_message, nonce_out_of_range, different_message_hash, no_batch, rows_updated,
  null_ingest_metadata, Db, NonceTrackerRow, StoreTxnPendingRow, get_nonce, set_nonce,
  get_max_non_reorged_nonce, next_ingest_seq, insert_pending,
}

pub data PosterRejection : Type 0 where
  message_too_large malformed unknown_tag rate_limited stale_nonce duplicate : PosterRejection
  bad_signature unhealthy internal_error : PosterRejection

-- `SubmitResult`
pub data SubmitResult : Type 0 where
  accepted : Text → SubmitResult
  rejected : PosterRejection → SubmitResult

pub data MonotonicityOutcome : Type 0 where
  accept : MonotonicityOutcome
  no_op : Text → MonotonicityOutcome
  reject : PosterRejection → MonotonicityOutcome

-- The comparison of `checkMonotonicity` with a tracker's row.
unfoldable pub compare_nonce : ℕ → Text → NonceTrackerRow → MonotonicityOutcome
unfolding ◌===◌ to_lower_case
compare_nonce nonce message_hash row =
    if ltb row.last_nonce nonce
    then accept
    else if nonce == row.last_nonce
    then (if to_lower_case message_hash === to_lower_case row.last_message_hash
        then no_op row.last_message_hash
        else reject stale_nonce)
    else reject stale_nonce

-- `checkMonotonicity`
unfoldable pub check_monotonicity :
    Text → ℕ → Text → Db → Result StoreError (Db × MonotonicityOutcome)
unfolding get_nonce set_nonce get_max_non_reorged_nonce compare_nonce
check_monotonicity sender nonce message_hash db = elim (get_nonce sender db) [
  | some row ↦ ok (db, compare_nonce nonce message_hash row)
  | none ↦ elim (get_max_non_reorged_nonce sender db) [
    | none ↦ ok (db, accept)
    | some seed ↦ set_nonce seed db >>= λ db'. ok (db', compare_nonce nonce message_hash seed)
  ]
]

pub record RateLimitConfig : Type 0 where
  pub window_ms : ℕ
  pub max_per_window : ℕ

pub record RateLimiter : Type 0 where
  pub timestamps : TextMap (List ℕ)
  pub last_sweep_ms : ℕ

-- The history within the window: `t > now - windowMs`.
unfoldable pub within_window : ℕ → ℕ → List ℕ → List ℕ
within_window window_ms now [] = []
within_window window_ms now (t ∷ ts) =
    let rest = within_window window_ms now ts in if ltb now (t + window_ms) then t ∷ rest else rest

-- The entries that the sweep keeps: their last time is within the window.
unfoldable pub last_within : ℕ → ℕ → List ℕ → Bool
last_within window_ms now [] = false
last_within window_ms now (t ∷ []) = ltb now (t + window_ms)
last_within window_ms now (t ∷ u ∷ ts) = last_within window_ms now (u ∷ ts)

unfoldable pub sweep : ℕ → ℕ → TextMap (List ℕ) → TextMap (List ℕ)
unfolding last_within
sweep window_ms now [] = []
sweep window_ms now ((addr, hist) ∷ m) =
    let rest = sweep window_ms now m in
    if last_within window_ms now hist then (addr, hist) ∷ rest else rest

-- `RateLimiter.check` at a time: the next limiter and whether the submission passes.
unfoldable pub check_rate : RateLimitConfig → ℕ → Text → RateLimiter → RateLimiter × Bool
unfolding within_window sweep lookup insert to_lower_case
check_rate config now key limiter =
    let normalized = to_lower_case key in
    let found = lookup normalized limiter.timestamps in
    let history : List ℕ = elim found [
      | none ↦ []
      | some hist ↦ within_window config.window_ms now hist
    ] in
    let truncated : TextMap (List ℕ) = elim found [
      | none ↦ limiter.timestamps
      | some hist ↦ insert normalized history limiter.timestamps
    ] in
    let due = leb (limiter.last_sweep_ms + config.window_ms) now in
    let swept = if due then sweep config.window_ms now truncated else truncated in
    let swept_ms = if due then now else limiter.last_sweep_ms in
    if leb config.max_per_window (length history)
    then (record { timestamps = insert normalized history swept; last_sweep_ms = swept_ms }, false)
    else (
      record {
        timestamps = insert normalized (history ++ (now ∷ [])) swept;
        last_sweep_ms = swept_ms;
      },
      true,
    )

-- `MessageValidator`: `validate` gives the reason of a refusal; `recover_signer`, if there is one,
-- gives nothing where it returns `null` or throws.
pub record MessageValidator : Type 0 where
  pub validate : DecodedMessage → Option PosterRejection
  pub recover_signer : Option (DecodedMessage → Option Text)

pub record Envelope : Type 0 where
  pub content_tag : Text
  pub sender : Text
  pub nonce : ℕ
  pub contents : Bytes
  pub signature : Bytes

pub record IngestPipelineOptions : Type 0 where
  pub validator : MessageValidator
  pub rate_limit : RateLimitConfig
  pub allowlisted_tags : List Text
  pub max_message_size_bytes : ℕ
  pub max_contents_size_bytes : ℕ
  pub chain_id : ℕ
  pub parse_envelope : Bytes → Option Envelope
  pub compute_message_hash : Text → Text → ℕ → Bytes → Option Text

-- `0x` and forty zeros.
unfoldable pub recover_failed_key : Text
recover_failed_key = 48 ∷ 120 ∷ replicate 40 48

-- `rateLimitKey`
unfoldable pub rate_limit_key : MessageValidator → DecodedMessage → Text
unfolding ◌===◌ to_lower_case recover_failed_key
rate_limit_key validator decoded = elim validator.recover_signer [
  | none ↦ decoded.sender
  | some recover ↦ elim (recover decoded) [
    | none ↦ recover_failed_key
    | some recovered ↦
        if to_lower_case recovered === to_lower_case decoded.sender
        then recovered
        else recover_failed_key
  ]
]

unfoldable pub is_allowlisted : Text → List Text → Bool
unfolding ◌===◌ to_lower_case
is_allowlisted tag [] = false
is_allowlisted tag (t ∷ ts) =
    let rest = is_allowlisted tag ts in if to_lower_case t === to_lower_case tag then true else rest

-- Step 6: the tracker, the sequence number and the row.
unfoldable pub store_message : ℕ → ℕ → DecodedMessage → Db → Result StoreError (Db × SubmitResult)
unfolding set_nonce next_ingest_seq insert_pending
store_message chain_id now decoded db = do
  tracked ←
      set_nonce
        (record {
          sender = decoded.sender;
          last_nonce = decoded.nonce;
          last_message_hash = decoded.message_hash;
        })
        db
  let (sequenced, seq) = next_ingest_seq decoded.content_tag tracked
  let row : StoreTxnPendingRow = record {
    content_tag = decoded.content_tag;
    sender = decoded.sender;
    nonce = decoded.nonce;
    contents = decoded.contents;
    signature = decoded.signature;
    message_hash = decoded.message_hash;
    chain_id = chain_id;
    ingested_at = now;
    ingest_seq = seq;
  }
  db' ← insert_pending row sequenced
  ok (db', accepted decoded.message_hash)

-- The body of `withTxn`: steps 4 to 6.
unfoldable pub ingest_txn :
    IngestPipelineOptions → ℕ → DecodedMessage → Db → Result StoreError (Db × SubmitResult)
unfolding check_monotonicity store_message
ingest_txn opts now decoded db = do
  (checked, mono) ← check_monotonicity decoded.sender decoded.nonce decoded.message_hash db
  elim mono [
    | reject reason ↦ ok (checked, rejected reason)
    | no_op existing ↦ ok (checked, accepted existing)
    | accept ↦ elim (opts.validator.validate decoded) [
      | some reason ↦ ok (checked, rejected reason)
      | none ↦ store_message opts.chain_id now decoded checked
    ]
  ]

-- A transaction that throws leaves the database as it was; a `DuplicateMessageError` is a rejection.
unfoldable pub commit :
    Db → Result StoreError (Db × SubmitResult) → Db × Result StoreError SubmitResult
commit db (ok (db', result)) = (db', ok result)
commit db (err (duplicate_message sender nonce)) = (db, ok (rejected duplicate))
commit db (err nonce_out_of_range) = (db, err nonce_out_of_range)
commit db (err different_message_hash) = (db, err different_message_hash)
commit db (err no_batch) = (db, err no_batch)
commit db (err (rows_updated expected got)) = (db, err (rows_updated expected got))
commit db (err null_ingest_metadata) = (db, err null_ingest_metadata)

-- `ingest`, with the limiter and the database before and after.
unfoldable pub ingest :
    IngestPipelineOptions
    → ℕ
    → Bytes
    → RateLimiter
    → Db
    → RateLimiter × Db × Result StoreError SubmitResult
unfolding is_allowlisted rate_limit_key check_rate ingest_txn commit
ingest opts now raw limiter db =
    if ltb opts.max_message_size_bytes (length raw)
    then (limiter, db, ok (rejected message_too_large))
    else elim (opts.parse_envelope raw) [
      | none ↦ (limiter, db, ok (rejected malformed))
      | some e ↦
          if ltb opts.max_contents_size_bytes (length e.contents)
          then (limiter, db, ok (rejected message_too_large))
          else if not (is_allowlisted e.content_tag opts.allowlisted_tags)
          then (limiter, db, ok (rejected unknown_tag))
          else elim (opts.compute_message_hash e.sender e.content_tag e.nonce e.contents) [
            | none ↦ (limiter, db, ok (rejected malformed))
            | some message_hash ↦
                let decoded : DecodedMessage = record {
                  sender = e.sender;
                  nonce = e.nonce;
                  contents = e.contents;
                  content_tag = e.content_tag;
                  signature = e.signature;
                  message_hash = message_hash;
                  ingested_at = none;
                } in
                let (limiter', passes) =
                  check_rate opts.rate_limit now (rate_limit_key opts.validator decoded) limiter in
                if passes
                then (let (db', result) = commit db (ingest_txn opts now decoded db) in
                    (limiter', db', result))
                else (limiter', db, ok (rejected rate_limited))
          ]
    ]
