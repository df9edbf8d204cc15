-- ===== src/Store/Writes.antt =====
-- What `insertPending` and `upsertObserved` did when they succeed.
use bam.Prelude.{ℕ, ◌≡◌, refl, sym, ap, ◌∙◌, arith, true, false, List, [], ◌∷◌, none, some}
use bam.Prelude.{
  Text, ◌===◌, ===_iff, ===_refl, to_lower_case, ok, >>=-eq-ok, ok-injective, Bool-cases,
  Option-cases, inl, inr, ◌⊎◌,
}
use bam.Store.{
  MessageRow, Db, StoreTxnPendingRow, has_key, find_row, delete_rows, encode_nonce, is_reorged,
  is_confirmed, is_pending, insert_pending, insert_in_range, upsert_in_range, upsert_observed,
  pending_row,
}

pub delete_rows_absent :
    (s : Text) (n : ℕ) (ms : List MessageRow) → find_row s n ms ≡ none → delete_rows s n ms ≡ ms
unfolding find_row delete_rows
delete_rows_absent s n [] h = refl
delete_rows_absent s n (m ∷ ms) h = elim (Bool-cases (has_key s n m)) [
  | inl here ↦ absurd (ground arith)
  | inr other ↦ rw other (ap (λ t. m ∷ t) (delete_rows_absent s n ms (ground arith)))
]

-- The key was free, or held by a reorged row, which the new one replaces.
pub record IsInserted (row : StoreTxnPendingRow) (a b : Db) : Type 0 where
  pub free :
      (find_row (to_lower_case row.sender) row.nonce a.messages ≡ none)
      ⊎ ((old : MessageRow) × (find_row (to_lower_case row.sender) row.nonce a.messages ≡ some old)
          × (is_reorged old.status ≡ true))
  pub written :
      b.messages ≡ pending_row row ∷ delete_rows (to_lower_case row.sender) row.nonce a.messages
  pub same_nonces : b.nonces ≡ a.nonces

pub insert_pending-IsInserted :
    (row : StoreTxnPendingRow) (a b : Db) → insert_pending row a ≡ ok b → IsInserted row a b
unfolding insert_pending insert_in_range
insert_pending-IsInserted row a b h =
    let s = to_lower_case row.sender in
    let (_, _, h') = >>=-eq-ok (encode_nonce row.nonce) _ h in
    elim (Option-cases (find_row s row.nonce a.messages)) [
      | inl absent ↦
          let e = ok-injective (rw (absent, insert_in_range) at h') in
          record {
            free = inl absent;
            written =
                ap (λ (d : Db). d.messages) (sym e)
                ∙ ap (λ t. pending_row row ∷ t)
                    (sym (delete_rows_absent s row.nonce a.messages absent));
            same_nonces = ap (λ (d : Db). d.nonces) (sym e);
          }
      | inr (old, found) ↦ elim (Bool-cases (is_reorged old.status)) [
        | inl freed ↦
            let e = ok-injective (rw (found, freed, insert_in_range) at h') in
            record {
              free = inr (old, found, freed);
              written = ap (λ (d : Db). d.messages) (sym e);
              same_nonces = ap (λ (d : Db). d.nonces) (sym e);
            }
        | inr taken ↦ absurd (cc (rw (found, taken, insert_in_range) at h'))
      ]
    ]

-- The row that `upsertObserved` writes.
abbrev pub observed_row : MessageRow → MessageRow
observed_row row = record row { sender = to_lower_case row.sender }

-- The key was free or its row was not confirmed and had the same message hash, and the row is
-- written; or the row of the key is confirmed, with that hash, and nothing changes.
abbrev pub ObservedWrite : MessageRow → Db → Db → Type 0
ObservedWrite row a b =
    ((find_row (to_lower_case row.sender) row.nonce a.messages ≡ none)
      ⊎ ((old : MessageRow) × (find_row (to_lower_case row.sender) row.nonce a.messages ≡ some old)
          × (is_confirmed old.status ≡ false)
          × (old.message_hash ≡ row.message_hash)))
    × (b.messages ≡ observed_row row ∷ delete_rows (to_lower_case row.sender) row.nonce a.messages)

pub upsert_observed-ObservedWrite :
    (row : MessageRow) (a b : Db) → upsert_observed row a ≡ ok b → (b ≡ a) ⊎ ObservedWrite row a b
unfolding upsert_observed upsert_in_range
upsert_observed-ObservedWrite row a b h =
    let s = to_lower_case row.sender in
    let (_, _, h') = >>=-eq-ok (encode_nonce row.nonce) _ h in
    elim (Option-cases (find_row s row.nonce a.messages)) [
      | inl absent ↦
          let e = ok-injective (rw (absent, upsert_in_range) at h') in
          inr (inl absent, ap (λ (d : Db). d.messages) (sym e))
      | inr (old, found) ↦ elim (Bool-cases (old.message_hash === row.message_hash)) [
        | inr differ ↦ absurd (cc (rw (found, differ, upsert_in_range) at h'))
        | inl same ↦ elim (Bool-cases (is_confirmed old.status)) [
          | inl final ↦ inl (sym (ok-injective (rw (found, same, final, upsert_in_range) at h')))
          | inr open_row ↦
              let e = ok-injective (rw (found, same, open_row, upsert_in_range) at h') in
              inr (
                inr (old, found, open_row, (===_iff old.message_hash row.message_hash).0 same),
                ap (λ (d : Db). d.messages) (sym e),
              )
        ]
      ]
    ]

pub find_row_head :
    (m : MessageRow) (ms : List MessageRow) → find_row m.sender m.nonce (m ∷ ms) ≡ some m
unfolding find_row has_key
find_row_head m ms = ground (arith, ===_refl m.sender)

-- `upsertObserved` writes no other table.
pub upsert_observed_messages_only :
    (row : MessageRow) (a b : Db)
    → upsert_observed row a ≡ ok b
    → b ≡ record a { messages = b.messages }
unfolding upsert_observed upsert_in_range
upsert_observed_messages_only row a b h =
    let s = to_lower_case row.sender in
    let (_, _, h') = >>=-eq-ok (encode_nonce row.nonce) _ h in
    elim (Option-cases (find_row s row.nonce a.messages)) [
      | inl absent ↦ rw (← ok-injective (rw (absent, upsert_in_range) at h')) refl
      | inr (old, found) ↦ elim (Bool-cases (old.message_hash === row.message_hash)) [
        | inr differ ↦ absurd (cc (rw (found, differ, upsert_in_range) at h'))
        | inl same ↦ elim (Bool-cases (is_confirmed old.status)) [
          | inl final ↦ rw (← ok-injective (rw (found, same, final, upsert_in_range) at h')) refl
          | inr open_row ↦
              rw (← ok-injective (rw (found, same, open_row, upsert_in_range) at h')) refl
        ]
      ]
    ]

-- A confirmed row that is observed leaves a confirmed row under its key.
pub upsert_observed_confirms :
    (row : MessageRow) (a b : Db)
    → is_confirmed row.status ≡ true
    → upsert_observed row a ≡ ok b
    → (found : MessageRow) × (find_row (to_lower_case row.sender) row.nonce b.messages ≡ some found)
      × (is_confirmed found.status ≡ true)
unfolding upsert_observed upsert_in_range
upsert_observed_confirms row a b final h =
    let s = to_lower_case row.sender in
    let (_, _, h') = >>=-eq-ok (encode_nonce row.nonce) _ h in
    elim (Option-cases (find_row s row.nonce a.messages)) [
      | inl absent ↦
          rw (← ok-injective (rw (absent, upsert_in_range) at h'))
            (observed_row row, find_row_head (observed_row row) _, final)
      | inr (old, found) ↦ elim (Bool-cases (old.message_hash === row.message_hash)) [
        | inr differ ↦ absurd (cc (rw (found, differ, upsert_in_range) at h'))
        | inl same ↦ elim (Bool-cases (is_confirmed old.status)) [
          | inl kept ↦
              rw (← ok-injective (rw (found, same, kept, upsert_in_range) at h')) (old, found, kept)
          | inr open_row ↦
              rw (← ok-injective (rw (found, same, open_row, upsert_in_range) at h'))
                (observed_row row, find_row_head (observed_row row) _, final)
        ]
      ]
    ]

-- A pending row that is observed leaves a pending row under its key, or the confirmed row that was
-- there.
pub upsert_observed_queues :
    (row : MessageRow) (a b : Db)
    → is_pending row.status ≡ true
    → upsert_observed row a ≡ ok b
    → (found : MessageRow) × (find_row (to_lower_case row.sender) row.nonce b.messages ≡ some found)
      × ((is_pending found.status ≡ true) ⊎ (is_confirmed found.status ≡ true))
unfolding upsert_observed upsert_in_range
upsert_observed_queues row a b queued h =
    let s = to_lower_case row.sender in
    let (_, _, h') = >>=-eq-ok (encode_nonce row.nonce) _ h in
    elim (Option-cases (find_row s row.nonce a.messages)) [
      | inl absent ↦
          rw (← ok-injective (rw (absent, upsert_in_range) at h'))
            (observed_row row, find_row_head (observed_row row) _, inl queued)
      | inr (old, found) ↦ elim (Bool-cases (old.message_hash === row.message_hash)) [
        | inr differ ↦ absurd (cc (rw (found, differ, upsert_in_range) at h'))
        | inl same ↦ elim (Bool-cases (is_confirmed old.status)) [
          | inl kept ↦
              rw (← ok-injective (rw (found, same, kept, upsert_in_range) at h'))
                (old, found, inr kept)
          | inr open_row ↦
              rw (← ok-injective (rw (found, same, open_row, upsert_in_range) at h'))
                (observed_row row, find_row_head (observed_row row) _, inl queued)
        ]
      ]
    ]
