-- ===== src/Poster/Ingest/Nonces.antt =====
-- What the transaction of packages/bam-poster/src/ingest/pipeline.ts did when it accepted.
use bam.Prelude.{ℕ, ◌≡◌, refl, sym, ap, ◌∙◌, arith, true, none, some}
use bam.Prelude.{
  Text, ===_refl, to_lower_case, Result, ok, >>=-eq-ok, ok-injective, Option-cases, inl, inr, ◌⊎◌,
}
use bam.Prelude.TextMap.{lookup-insert}
use bam.Poster.Types.{DecodedMessage}
use bam.Store.{
  StoreError, Db, MessageRow, NonceTrackerRow, StoreTxnPendingRow, get_nonce, set_nonce,
  next_ingest_seq, insert_pending, find_row, has_key, pending_row,
}
use bam.Store.Writes.{insert_pending-IsInserted}
use bam.Poster.Ingest.{
  IngestPipelineOptions, SubmitResult, accepted, rejected, MonotonicityOutcome, accept, no_op,
  reject, check_monotonicity, store_message, ingest_txn,
}
use bam.Poster.Ingest.Monotonic.{
  Above, IsKnown, set_nonce_same, check_monotonicity_lem, check_monotonicity-no_op,
}

-- The row of a stored message.
abbrev pub stored_row : ℕ → ℕ → DecodedMessage → ℕ → MessageRow
stored_row chain_id now decoded seq = pending_row (record {
  content_tag = decoded.content_tag;
  sender = decoded.sender;
  nonce = decoded.nonce;
  contents = decoded.contents;
  signature = decoded.signature;
  message_hash = decoded.message_hash;
  chain_id = chain_id;
  ingested_at = now;
  ingest_seq = seq;
})

-- The message is stored as pending, and the tracker has its nonce.
abbrev pub IsStored : ℕ → ℕ → DecodedMessage → Db → Type 0
IsStored chain_id now decoded b =
    ((seq : ℕ) × (find_row (to_lower_case decoded.sender) decoded.nonce b.messages
        ≡ some (stored_row chain_id now decoded seq)))
    × (get_nonce decoded.sender b
        ≡ some (record {
          sender = to_lower_case decoded.sender;
          last_nonce = decoded.nonce;
          last_message_hash = decoded.message_hash;
        }))

store_message-IsStored :
    (chain_id now : ℕ) (decoded : DecodedMessage) (a b : Db) (result : SubmitResult)
    → store_message chain_id now decoded a ≡ ok (b, result)
    → IsStored chain_id now decoded b × (result ≡ accepted decoded.message_hash)
unfolding store_message next_ingest_seq get_nonce pending_row find_row has_key
store_message-IsStored chain_id now decoded a b result e =
    let tracker : NonceTrackerRow = record {
      sender = decoded.sender;
      last_nonce = decoded.nonce;
      last_message_hash = decoded.message_hash;
    } in
    let s = to_lower_case decoded.sender in
    let (tracked, set, e1) = >>=-eq-ok (set_nonce tracker a) _ e in
    let seq = (next_ingest_seq decoded.content_tag tracked).1 in
    let sequenced = (next_ingest_seq decoded.content_tag tracked).0 in
    let row : StoreTxnPendingRow = record {
      content_tag = decoded.content_tag;
      sender = decoded.sender;
      nonce = decoded.nonce;
      contents = decoded.contents;
      signature = decoded.signature;
      message_hash = decoded.message_hash;
      chain_id = chain_id;
      ingested_at = now;
      ingest_seq = seq;
    } in
    let (inserted, put, e2) = >>=-eq-ok (insert_pending row sequenced) _ e1 in
    let same : inserted ≡ b = ap (λ r. r.0) (ok-injective e2) in
    let w = insert_pending-IsInserted row sequenced inserted put in
    let mine : has_key s decoded.nonce (pending_row row) ≡ true = ground (arith, ===_refl s) in
    rw (← same) (
      (
        (seq, rw w.written (rw mine refl)),
        rw (w.same_nonces, (set_nonce_same tracker a tracked set).1)
            (lookup-insert s s _ a.nonces ∙ rw (===_refl s) refl),
      ),
      ap (λ r. r.1) (sym (ok-injective e2)),
    )

-- Fresh: the message was valid, its nonce was above all that the sender had, and it is stored.
pub record IsFresh (opts : IngestPipelineOptions) (now : ℕ) (decoded : DecodedMessage) (a b : Db)
    (h : Text) : Type 0 where
  pub same_hash : h ≡ decoded.message_hash
  pub valid : opts.validator.validate decoded ≡ none
  pub above :
      Above decoded.nonce (to_lower_case decoded.sender) (get_nonce decoded.sender a) a.messages
  pub stored : IsStored opts.chain_id now decoded b

-- A retry: the message was known under the hash that is returned.
abbrev pub IsRetry : DecodedMessage → Db → Db → Text → Type 0
IsRetry decoded a b h =
    IsKnown decoded.sender decoded.nonce h a
    × (to_lower_case decoded.message_hash ≡ to_lower_case h)
    × (b.messages ≡ a.messages)

accept_branch :
    (opts : IngestPipelineOptions) (now : ℕ) (decoded : DecodedMessage) (a checked b : Db)
    (h : Text)
    → checked.messages ≡ a.messages
    → Above decoded.nonce (to_lower_case decoded.sender) (get_nonce decoded.sender a) a.messages
    → Path
        (Result StoreError (Db × SubmitResult))
        (elim (opts.validator.validate decoded) [
          | some reason ↦ ok (checked, rejected reason)
          | none ↦ store_message opts.chain_id now decoded checked
        ])
        (ok (b, accepted h))
    → IsFresh opts now decoded a b h
accept_branch opts now decoded a checked b h same above e =
    elim (Option-cases (opts.validator.validate decoded)) [
      | inr (reason, refused) ↦ absurd (cc (ok-injective (rw refused at e)))
      | inl valid ↦
          let (stored, result) =
            store_message-IsStored opts.chain_id now decoded checked b (accepted h)
              (rw valid at e) in
          record { same_hash = cc; valid = valid; above = above; stored = stored }
    ]

-- When the transaction of an ingest accepts, it is one of two. Either it was a retry: the tracker's
-- row names the submission's nonce (or, with no tracker row, a message of the sender that is not
-- reorged has that nonce) with the hash that is returned, which is the submission's up to case, and
-- the messages are as they were. Or the submission was
-- fresh: the hash is its own, the validator passed it, its nonce was above the tracker's (or, with
-- no tracker row, above those of all the sender's messages that are not reorged), and afterwards
-- the message is stored as pending and the tracker has its nonce and hash.
pub ingest_txn-accepted :
    (opts : IngestPipelineOptions) (now : ℕ) (decoded : DecodedMessage) (a b : Db) (h : Text)
    → ingest_txn opts now decoded a ≡ ok (b, accepted h)
    → IsRetry decoded a b h ⊎ IsFresh opts now decoded a b h
unfolding ingest_txn
ingest_txn-accepted opts now decoded a b h e =
    let ((checked, mono), done, e1) =
      >>=-eq-ok (check_monotonicity decoded.sender decoded.nonce decoded.message_hash a) _ e in
    let (same, above) =
      check_monotonicity_lem decoded.sender decoded.nonce decoded.message_hash a checked mono
        done in
    outcome opts now decoded a checked b h mono done same above e1
  where
    outcome :
        (opts : IngestPipelineOptions) (now : ℕ) (decoded : DecodedMessage) (a checked b : Db)
        (h : Text) (mono : MonotonicityOutcome)
        → check_monotonicity decoded.sender decoded.nonce decoded.message_hash a
          ≡ ok (checked, mono)
        → checked.messages ≡ a.messages
        → ((mono ≡ accept)
            → Above decoded.nonce
                (to_lower_case decoded.sender)
                (get_nonce decoded.sender a)
                a.messages)
        → Path
            (Result StoreError (Db × SubmitResult))
            (elim mono [
              | reject reason ↦ ok (checked, rejected reason)
              | no_op existing ↦ ok (checked, accepted existing)
              | accept ↦ elim (opts.validator.validate decoded) [
                | some reason ↦ ok (checked, rejected reason)
                | none ↦ store_message opts.chain_id now decoded checked
              ]
            ])
            (ok (b, accepted h))
        → IsRetry decoded a b h ⊎ IsFresh opts now decoded a b h
    outcome opts now decoded a checked b h (reject reason) done same above e =
        absurd (cc (ok-injective e))
    outcome opts now decoded a checked b h (no_op g) done same above e =
        let pair = ok-injective e in
        let (known, hashes) =
          check_monotonicity-no_op decoded.sender decoded.nonce decoded.message_hash g a checked
            done in
        let eq : g ≡ h = cc (ap (λ r. r.1) pair) in
        inl (rw (← eq) known, rw (← eq) hashes, ap (λ r. r.0.messages) (sym pair) ∙ same)
    outcome opts now decoded a checked b h accept done same above e =
        inr (accept_branch opts now decoded a checked b h same (above refl) e)
