-- ===== src/Store/Steps.antt =====
-- The store as a state machine: its writes as steps, and sequences of them.
use bam.Prelude.{ℕ, zero, suc, ◌≡◌, refl, sym, ap, arith, List, [], ◌∷◌, map, take, drop, none}
use bam.Prelude.{
  Text, to_lower_case, ok, >>=-eq-ok, ok-injective, Bool-cases, Option-cases, inl, inr, throw_if,
  not, length, ◌==◌,
}
use bam.Store.{
  MessageRow, BatchRow, BatchStatus, Db, NonceTrackerRow, StoreTxnPendingRow, PendingKey, find_row,
  encode_nonce, encode_nonces, insert_pending, upsert_observed, mark_reorged, mark_submitted,
  mark_submitted_from, submit_row, pending_row, set_nonce, reorg_message, count_batches, no_batch,
  count_listed, rows_updated, next_ingest_seq,
}
use bam.Store.Batches.{
  BatchUpdate, upsert_batch, update_batch_status, delete_batches, delete_messages, drop_messages,
  on_chain, find_batch,
}
use bam.Store.Cursor.{set_cursor, delete_cursor}
use bam.Store.Tables.{ReaderCursorRow}
use bam.Store.Keys.{
  IsUnique, find_row-delete_rows, delete_rows-IsUnique, map-IsUnique, reorg_message-KeepsKeys,
  submit_row-KeepsKeys,
}
use bam.Store.Writes.{insert_pending-IsInserted, upsert_observed-ObservedWrite}

-- A write of a transaction that succeeds.
pub data Step : Db → Db → Type 0 where
  pending_inserted : {a b : Db} (row : StoreTxnPendingRow) → insert_pending row a ≡ ok b → Step a b
  observed : {a b : Db} (row : MessageRow) → upsert_observed row a ≡ ok b → Step a b
  marked_submitted :
      {a b : Db} (keys : List PendingKey) (ref : Text) → mark_submitted keys ref a ≡ ok b → Step a b
  marked_reorged :
      {a b : Db} (chain_id : ℕ) (tx_hash : Text) (at : ℕ)
      → mark_reorged chain_id tx_hash at a ≡ ok b
      → Step a b
  nonce_set : {a b : Db} (row : NonceTrackerRow) → set_nonce row a ≡ ok b → Step a b
  seq_taken : {a : Db} (tag : Text) → Step a (next_ingest_seq tag a).0
  batch_upserted : {a : Db} (row : BatchRow) → Step a (upsert_batch row a)
  batch_updated :
      {a b : Db} (chain_id : ℕ) (tx_hash content_tag : Text) (status : BatchStatus)
      (opts : BatchUpdate)
      → update_batch_status chain_id tx_hash content_tag status opts a ≡ ok b
      → Step a b
  batches_deleted : {a : Db} (chain_id : ℕ) → Step a (delete_batches chain_id a)
  messages_deleted : {a : Db} (chain_id : ℕ) → Step a (delete_messages chain_id a)
  cursor_set : {a : Db} (row : ReaderCursorRow) → Step a (set_cursor row a)
  cursor_deleted : {a : Db} (chain_id : ℕ) → Step a (delete_cursor chain_id a)

-- Any number of writes.
pub data Steps : Db → Db → Type 0 where
  done : {a : Db} → Steps a a
  then_step : {a b c : Db} → Steps a b → Step b c → Steps a c

pub Steps-trans : {a b c : Db} → Steps a b → Steps b c → Steps a c
Steps-trans first done = first
Steps-trans first (then_step before last) = then_step (Steps-trans first before) last

-- A write before the others.
pub prepend : {a b c : Db} → Step a b → Steps b c → Steps a c
prepend first rest = Steps-trans (then_step done first) rest

insert_pending-IsUnique :
    (row : StoreTxnPendingRow) (a b : Db)
    → insert_pending row a ≡ ok b
    → IsUnique a.messages
    → IsUnique b.messages
unfolding pending_row
insert_pending-IsUnique row a b h u =
    let s = to_lower_case row.sender in
    rw (insert_pending-IsInserted row a b h).written
      (find_row-delete_rows s row.nonce a.messages, delete_rows-IsUnique s row.nonce a.messages u)

upsert_observed-IsUnique :
    (row : MessageRow) (a b : Db)
    → upsert_observed row a ≡ ok b
    → IsUnique a.messages
    → IsUnique b.messages
upsert_observed-IsUnique row a b h u =
    let s = to_lower_case row.sender in
    elim (upsert_observed-ObservedWrite row a b h) [
      | inl same ↦ rw same u
      | inr (_, written) ↦ rw written (
        find_row-delete_rows s row.nonce a.messages,
        delete_rows-IsUnique s row.nonce a.messages u,
      )
    ]

mark_reorged-IsUnique :
    (c : ℕ) (h : Text) (at : ℕ) (a b : Db)
    → mark_reorged c h at a ≡ ok b
    → IsUnique a.messages
    → IsUnique b.messages
unfolding mark_reorged
mark_reorged-IsUnique c h at a b e u =
    let (_, _, e') = >>=-eq-ok (throw_if (count_batches c h a.batches == 0) no_batch) _ e in
    rw (← ap (λ (d : Db). d.messages) (ok-injective e'))
      (map-IsUnique (reorg_message c h) (reorg_message-KeepsKeys c h) a.messages u)

mark_submitted_from-IsUnique :
    (fuel : ℕ) (keys : List PendingKey) (ref : Text) (a b : Db)
    → mark_submitted_from fuel keys ref a ≡ ok b
    → IsUnique a.messages
    → IsUnique b.messages
unfolding mark_submitted_from
mark_submitted_from-IsUnique zero keys ref a b e u =
    rw (← ap (λ (d : Db). d.messages) (ok-injective e)) u
mark_submitted_from-IsUnique (suc fuel) [] ref a b e u =
    rw (← ap (λ (d : Db). d.messages) (ok-injective e)) u
mark_submitted_from-IsUnique (suc fuel) (k ∷ keys) ref a b e u =
    let slice = take 500 (k ∷ keys) in
    let (_, _, e1) = >>=-eq-ok (encode_nonces slice) _ e in
    let (_, _, e2) =
      >>=-eq-ok
        (throw_if (not (count_listed slice a.messages == length slice))
          (rows_updated (length slice) (count_listed slice a.messages)))
        _ e1 in
    mark_submitted_from-IsUnique fuel (drop 500 (k ∷ keys)) ref
      (record a { messages = map (submit_row slice ref) a.messages }) b e2
      (map-IsUnique (submit_row slice ref) (submit_row-KeepsKeys slice ref) a.messages u)

pub drop_messages_keeps :
    (c : ℕ) (s : Text) (n : ℕ) (ms : List MessageRow)
    → find_row s n ms ≡ none
    → find_row s n (drop_messages c ms) ≡ none
unfolding drop_messages find_row
drop_messages_keeps c s n [] h = refl
drop_messages_keeps c s n (m ∷ ms) h = ground (arith, drop_messages_keeps c s n ms)

drop_messages-IsUnique :
    (c : ℕ) (ms : List MessageRow) → IsUnique ms → IsUnique (drop_messages c ms)
unfolding drop_messages
drop_messages-IsUnique c [] u = tt
drop_messages-IsUnique c (m ∷ ms) u = elim (Bool-cases (on_chain c m)) [
  | inl gone ↦ rw gone (drop_messages-IsUnique c ms u.1)
  | inr kept ↦
      rw kept (drop_messages_keeps c m.sender m.nonce ms u.0, drop_messages-IsUnique c ms u.1)
]

pub set_nonce_messages :
    (row : NonceTrackerRow) (a b : Db) → set_nonce row a ≡ ok b → b.messages ≡ a.messages
unfolding set_nonce
set_nonce_messages row a b e =
    let (_, _, e') = >>=-eq-ok (encode_nonce row.last_nonce) _ e in
    ap (λ (d : Db). d.messages) (sym (ok-injective e'))

pub update_batch_status_messages :
    (c : ℕ) (h t : Text) (status : BatchStatus) (opts : BatchUpdate) (a b : Db)
    → update_batch_status c h t status opts a ≡ ok b
    → b.messages ≡ a.messages
unfolding update_batch_status
update_batch_status_messages c h t status opts a b e =
    elim (Option-cases (find_batch c h t a.batches)) [
      | inl absent ↦ absurd (cc (rw (absent, update_batch_status) at e))
      | inr (old, found) ↦
          ap (λ (d : Db). d.messages) (sym (ok-injective (rw (found, update_batch_status) at e)))
    ]

Step-IsUnique : {a b : Db} → Step a b → IsUnique a.messages → IsUnique b.messages
Step-IsUnique {a} {b} (pending_inserted row h) u = insert_pending-IsUnique row a b h u
Step-IsUnique {a} {b} (observed row h) u = upsert_observed-IsUnique row a b h u
Step-IsUnique {a} {b} (marked_submitted keys ref h) u =
    mark_submitted_from-IsUnique (length keys) keys ref a b (unfold mark_submitted in h) u
Step-IsUnique {a} {b} (marked_reorged c tx at h) u = mark_reorged-IsUnique c tx at a b h u
Step-IsUnique {a} {b} (nonce_set row h) u = rw (set_nonce_messages row a b h) u
Step-IsUnique {a} (seq_taken tag) u = unfold next_ingest_seq in u
Step-IsUnique {a} (batch_upserted row) u = unfold upsert_batch in u
Step-IsUnique {a} {b} (batch_updated c tx tag status opts h) u =
    rw (update_batch_status_messages c tx tag status opts a b h) u
Step-IsUnique {a} (batches_deleted c) u = unfold delete_batches in u
Step-IsUnique {a} (messages_deleted c) u =
    unfold delete_messages in drop_messages-IsUnique c a.messages u
Step-IsUnique {a} (cursor_set row) u = unfold set_cursor in u
Step-IsUnique {a} (cursor_deleted c) u = unfold delete_cursor in u

-- If no two messages of a database have the same sender and nonce, the same holds after any number
-- of successful writes.
pub Steps-IsUnique : (a b : Db) → Steps a b → IsUnique a.messages → IsUnique b.messages
Steps-IsUnique a b done u = u
Steps-IsUnique a b (then_step {b = middle} before last) u =
    Step-IsUnique last (Steps-IsUnique a middle before u)
