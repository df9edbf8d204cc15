-- ===== src/Reader/ProcessBatch/Loops.antt =====
-- The loops of packages/bam-reader/src/loop/process-batch.ts: over the decoded messages, and over
-- the entries that are written.
use bam.Prelude.{
  ℕ, suc, ◌+◌, ◌≡◌, refl, ap, ◌∙◌, arith, true, List, [], ◌∷◌, map, if◌then◌else◌, length,
  get_elem?, All, All-imp, some,
}
use bam.Prelude.{
  Bytes, Text, ok, >>=-eq-ok, ok-injective, Result-cases, Bool-cases, inl, inr, ◌⊎◌, to_lower_case,
}
use bam.Sdk.Batch.{BamMessage}
use bam.Sdk.Message.{compute_message_hash_for_message}
use bam.Store.{MessageRow, Db, find_row, is_confirmed, upsert_observed}
use bam.Store.Writes.{
  find_row_head, observed_row, upsert_observed-ObservedWrite, upsert_observed_messages_only,
}
use bam.Store.Steps.{Steps, observed, done, prepend}
use bam.Store.Lifecycle.{find_row_put, same_key, upsert_observed-confirmed}
use bam.Reader.ProcessBatch.{
  ProcessBatchOptions, VerifiedEntry, passes, verify_messages, write_verified, message_id_of,
  row_of, is_conflict_error,
}

-- An entry for message number `index_within_batch` of those from number `first` on, which passed
-- with its signature.
pub record IsVerified (opts : ProcessBatchOptions) (first : ℕ) (ms : List BamMessage)
    (sigs : List Bytes) (v : VerifiedEntry) : Type 0 where
  pub offset : ℕ
  pub position : v.index_within_batch ≡ first + offset
  pub message_at : get_elem? ms offset ≡ some v.message
  pub signature_at : get_elem? sigs offset ≡ some v.signature
  pub passed : passes opts v.message v.signature ≡ true
  pub hashed :
      compute_message_hash_for_message opts.keccak_256 v.message opts.event.content_tag
      ≡ ok v.message_hash

IsVerified-later :
    (opts : ProcessBatchOptions) (first : ℕ) (m : BamMessage) (ms : List BamMessage) (sig : Bytes)
    (sigs : List Bytes) (v : VerifiedEntry)
    → IsVerified opts (first + 1) ms sigs v
    → IsVerified opts first (m ∷ ms) (sig ∷ sigs) v
IsVerified-later opts first m ms sig sigs v h = record {
  offset = suc h.offset;
  position = omega (arith, h.position);
  message_at = h.message_at;
  signature_at = h.signature_at;
  passed = h.passed;
  hashed = h.hashed;
}

-- The positions, from `first` on, of the messages that pass with their signatures.
unfoldable pub passing : ProcessBatchOptions → ℕ → List BamMessage → List Bytes → List ℕ
passing opts first [] sigs = []
passing opts first (m ∷ ms) [] = []
passing opts first (m ∷ ms) (sig ∷ sigs) =
    let rest = passing opts (first + 1) ms sigs in if passes opts m sig then first ∷ rest else rest

-- What the verifying loop yields when it does not throw.
pub record VerifyRun (opts : ProcessBatchOptions) (first : ℕ) (ms : List BamMessage)
    (sigs : List Bytes) (skips : ℕ) (vs : List VerifiedEntry) : Type 0 where
  pub all_verified : All (IsVerified opts first ms sigs) vs
  pub accounted : skips + length vs ≡ length ms
  pub positions : map (λ v. v.index_within_batch) vs ≡ passing opts first ms sigs

pub verify_messages-VerifyRun :
    (opts : ProcessBatchOptions) (first : ℕ) (ms : List BamMessage) (sigs : List Bytes)
    (vs : List VerifiedEntry)
    → (verify_messages opts first ms sigs).1 ≡ ok vs
    → VerifyRun opts first ms sigs (verify_messages opts first ms sigs).0 vs
unfolding verify_messages passing
verify_messages-VerifyRun opts first [] sigs vs h =
    rw (← ok-injective h) (record { all_verified = tt; accounted = refl; positions = refl })
verify_messages-VerifyRun opts first (m ∷ ms) [] vs h =
    elim (Result-cases
      (compute_message_hash_for_message opts.keccak_256 m opts.event.content_tag)) [
        | inr (e, failed) ↦ absurd (cc (rw (failed, verify_messages) at h))
        | inl (hash, hashed) ↦ absurd (cc (rw (hashed, verify_messages) at h))
      ]
verify_messages-VerifyRun opts first (m ∷ ms) (sig ∷ sigs) vs h =
    elim (Result-cases
      (compute_message_hash_for_message opts.keccak_256 m opts.event.content_tag)) [
        | inr (e, failed) ↦ absurd (cc (rw (failed, verify_messages) at h))
        | inl (hash, hashed) ↦ elim (Bool-cases (passes opts m sig)) [
          | inl good ↦
              let h' = rw (hashed, good, verify_messages) at h in
              let (us, e, eq) = >>=-eq-ok (verify_messages opts (first + 1) ms sigs).1 _ h' in
              let rest = verify_messages-VerifyRun opts (first + 1) ms sigs us e in
              rw (hashed, good, verify_messages)
                (rw (← ok-injective eq) (record {
                  all_verified = (
                    record {
                      offset = 0;
                      position = omega arith;
                      message_at = refl;
                      signature_at = refl;
                      passed = good;
                      hashed = hashed;
                    },
                    All-imp (IsVerified opts (first + 1) ms sigs)
                        (IsVerified opts first (m ∷ ms) (sig ∷ sigs)) us
                        (IsVerified-later opts first m ms sig sigs) rest.all_verified,
                  );
                  accounted = omega (arith, rest.accounted);
                  positions = rw good (ap (λ is. first ∷ is) rest.positions);
                }))
          | inr bad ↦
              let h' = rw (hashed, bad, verify_messages) at h in
              let rest = verify_messages-VerifyRun opts (first + 1) ms sigs vs h' in
              rw (hashed, bad, verify_messages)
                (record {
                  all_verified =
                      All-imp (IsVerified opts (first + 1) ms sigs)
                        (IsVerified opts first (m ∷ ms) (sig ∷ sigs)) vs
                        (IsVerified-later opts first m ms sig sigs) rest.all_verified;
                  accounted = omega (arith, rest.accounted);
                  positions = rw bad rest.positions;
                })
        ]
      ]

-- What is under a key after the entries are written: what was there, or the row of an entry.
abbrev pub WrittenAt :
    (P : VerifiedEntry → Type 0) → ProcessBatchOptions → Text → ℕ → Db → Db → Type 0
WrittenAt P opts s n a b =
    (find_row s n b.messages ≡ find_row s n a.messages)
    ⊎ ((v : VerifiedEntry) × (message_id : Text) × P v
        × (message_id_of opts v ≡ ok message_id)
        × (find_row s n b.messages ≡ some (observed_row (row_of opts v message_id))))

-- Every confirmed message is left as it is.
abbrev pub KeepsConfirmed : Db → Db → Type 0
KeepsConfirmed a b =
    (s : Text) (n : ℕ) (m : MessageRow)
    → find_row s n a.messages ≡ some m
    → is_confirmed m.status ≡ true
    → find_row s n b.messages ≡ some m

-- What the writing loop did when it does not throw.
pub record WriteRun (P : VerifiedEntry → Type 0) (opts : ProcessBatchOptions)
    (vs : List VerifiedEntry) (a b : Db) (conflicts written : ℕ) : Type 0 where
  pub accounted : conflicts + written ≡ length vs
  pub steps : Steps a b
  pub only_messages : b ≡ record a { messages = b.messages }
  pub keeps_confirmed : KeepsConfirmed a b
  pub written_at : (s : Text) (n : ℕ) → WrittenAt P opts s n a b

-- One row.
upsert_observed-WrittenAt :
    (P : VerifiedEntry → Type 0) (opts : ProcessBatchOptions) (v : VerifiedEntry) (id : Text)
    (a b : Db)
    → P v
    → message_id_of opts v ≡ ok id
    → upsert_observed (row_of opts v id) a ≡ ok b
    → (s : Text) (n : ℕ) → WrittenAt P opts s n a b
upsert_observed-WrittenAt P opts v id a b good named h s n =
    let row : MessageRow = row_of opts v id in
    elim (upsert_observed-ObservedWrite row a b h) [
      | inl same ↦ inl (rw same refl)
      | inr (_, written) ↦ elim (same_key (to_lower_case row.sender) s row.nonce n) [
        | inl (eq, eq') ↦
            inr (v, id, good, named, rw (written, ← eq, ← eq') (find_row_head (observed_row row) _))
        | inr other ↦ inl (rw written (find_row_put (observed_row row) s n a.messages other))
      ]
    ]

WrittenAt-trans :
    (P : VerifiedEntry → Type 0) (opts : ProcessBatchOptions) (s : Text) (n : ℕ) (a b c : Db)
    → WrittenAt P opts s n a b
    → WrittenAt P opts s n b c
    → WrittenAt P opts s n a c
WrittenAt-trans P opts s n a b c first (inr there) = inr there
WrittenAt-trans P opts s n a b c (inl e) (inl e') = inl (e' ∙ e)
WrittenAt-trans P opts s n a b c (inr (v, id, good, named, found)) (inl e') =
    inr (v, id, good, named, e' ∙ found)

pub write_verified-WriteRun :
    (P : VerifiedEntry → Type 0) (opts : ProcessBatchOptions) (vs : List VerifiedEntry) (a b : Db)
    (written : ℕ)
    → All P vs
    → (write_verified opts vs a).1 ≡ ok (b, written)
    → WriteRun P opts vs a b (write_verified opts vs a).0 written
unfolding write_verified
write_verified-WriteRun P opts [] a b written good h =
    let e = ok-injective h in
    let same : a ≡ b = ap (λ (r : Db × ℕ). r.0) e in
    let none_written : 0 ≡ written = ap (λ (r : Db × ℕ). r.1) e in
    rw (← same) (record {
      accounted = omega arith;
      steps = done;
      only_messages = refl;
      keeps_confirmed = λ s n m found final. found;
      written_at = λ s n. inl refl;
    })
write_verified-WriteRun P opts (v ∷ vs) a b written good h =
    elim (Result-cases (message_id_of opts v)) [
      | inr (e, failed) ↦ absurd (cc (rw (failed, write_verified) at h))
      | inl (id, named) ↦ elim (Result-cases (upsert_observed (row_of opts v id) a)) [
        | inl (next, stored) ↦
            let h' = rw (named, stored, write_verified) at h in
            let ((c, w), e, eq) = >>=-eq-ok (write_verified opts vs next).1 _ h' in
            let rest = write_verified-WriteRun P opts vs next c w good.1 e in
            let same : c ≡ b = ap (λ (r : Db × ℕ). r.0) (ok-injective eq) in
            let count : w + 1 ≡ written = ap (λ (r : Db × ℕ). r.1) (ok-injective eq) in
            rw (named, stored, write_verified)
              (rw (← same) (record {
                accounted = omega (arith, rest.accounted);
                steps = prepend (observed (row_of opts v id) stored) rest.steps;
                only_messages =
                    rest.only_messages
                    ∙ ap (λ (d : Db). record d { messages = c.messages })
                        (upsert_observed_messages_only (row_of opts v id) a next stored);
                keeps_confirmed = λ s n m found final.
                    rest.keeps_confirmed s n m
                      (upsert_observed-confirmed (row_of opts v id) a next s n m stored found final)
                      final;
                written_at = λ s n.
                    WrittenAt-trans P opts s n a next c
                      (upsert_observed-WrittenAt P opts v id a next good.0 named stored s n)
                      (rest.written_at s n);
              }))
        | inr (e, refused) ↦ elim (Bool-cases (is_conflict_error e)) [
          | inl conflict ↦
              let h' = rw (named, refused, conflict, write_verified) at h in
              let rest = write_verified-WriteRun P opts vs a b written good.1 h' in
              rw (named, refused, conflict, write_verified)
                (record {
                  accounted = omega (arith, rest.accounted);
                  steps = rest.steps;
                  only_messages = rest.only_messages;
                  keeps_confirmed = rest.keeps_confirmed;
                  written_at = rest.written_at;
                })
          | inr fatal ↦ absurd (cc (rw (named, refused, fatal, write_verified) at h))
        ]
      ]
    ]
