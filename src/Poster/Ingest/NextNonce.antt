-- ===== src/Poster/Ingest/NextNonce.antt =====
-- packages/bam-poster/src/surfaces/nonce.ts: the next nonce of a sender, against the check that an
-- ingest makes.
use bam.Prelude.{
  ℕ, ◌+◌, ◌≡◌, ◌≢◌, refl, ap, ◌∙◌, arith, none, some, ok, >>=-eq-ok, ok-injective, Text,
  to_lower_case, true, ltb,
}
use bam.Store.{
  Db, MessageRow, NonceTrackerRow, get_nonce, set_nonce, max_row, get_max_non_reorged_nonce,
}
use bam.Poster.Ingest.{MonotonicityOutcome, accept, check_monotonicity, compare_nonce}
use bam.Poster.Ingest.Monotonic.{compare_nonce-accept}

-- `getNextNonce`
unfoldable pub get_next_nonce : Text → Db → ℕ
unfolding get_nonce
get_next_nonce sender db = elim (get_nonce sender db) [ none ↦ 0 | some row ↦ row.last_nonce + 1 ]

-- For a sender that the tracker knows, the check accepts the next nonce, whatever the message, and
-- the store stays as it is.
pub check_monotonicity-get_next_nonce :
    (sender h : Text) (db : Db) (row : NonceTrackerRow)
    → get_nonce sender db ≡ some row
    → check_monotonicity sender (get_next_nonce sender db) h db ≡ ok (db, accept)
unfolding check_monotonicity get_next_nonce compare_nonce
check_monotonicity-get_next_nonce sender h db row tracked =
    let above : ltb row.last_nonce (row.last_nonce + 1) ≡ true = ground arith in
    let next : get_next_nonce sender db ≡ row.last_nonce + 1 = rw (tracked, get_next_nonce) refl in
    let accepts : compare_nonce (get_next_nonce sender db) h row ≡ accept =
      rw next (rw (above, compare_nonce) refl) in
    rw (tracked, check_monotonicity) (ap (λ m. ok (db, m)) accepts)

-- For a sender that the tracker does not know, but that has a message that is not reorged, the next
-- nonce is 0 and the check never accepts it.
pub get_next_nonce_untracked :
    (sender h : Text) (a b : Db) (m : MessageRow) (mono : MonotonicityOutcome)
    → get_nonce sender a ≡ none
    → max_row (to_lower_case sender) a.messages ≡ some m
    → check_monotonicity sender (get_next_nonce sender a) h a ≡ ok (b, mono)
    → (get_next_nonce sender a ≡ 0) × (mono ≢ accept)
unfolding check_monotonicity get_max_non_reorged_nonce get_next_nonce
get_next_nonce_untracked sender h a b m mono untracked top e =
    let seed : NonceTrackerRow = record {
      sender = to_lower_case sender;
      last_nonce = m.nonce;
      last_message_hash = m.message_hash;
    } in
    let zero : get_next_nonce sender a ≡ 0 = rw (untracked, get_next_nonce) refl in
    let (_, _, e1) =
      >>=-eq-ok (set_nonce seed a) _
        (rw (untracked, top, check_monotonicity, get_max_non_reorged_nonce) at (rw zero at e)) in
    (
      zero,
      λ acc.
          absurd
            (omega (arith, compare_nonce-accept 0 h seed (ap (λ r. r.1) (ok-injective e1) ∙ acc))),
    )
