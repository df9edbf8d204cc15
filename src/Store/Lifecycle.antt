-- ===== src/Store/Lifecycle.antt =====
-- Confirmed messages of packages/bam-store/src/postgres.ts under later writes.
use bam.Prelude.{
  ℕ, zero, suc, ◌≡◌, refl, ap, ◌∙◌, arith, true, false, not, List, [], ◌∷◌, map, take, drop, length,
  none, some, ◌&&◌, ◌==◌,
}
use bam.Prelude.{
  Text, ◌===◌, ===_iff, to_lower_case, ok, >>=-eq-ok, ok-injective, Bool-cases, Option-cases, inl,
  inr, ◌⊎◌, if◌then◌else◌, throw_if,
}
use bam.Store.{
  MessageRow, MessageStatus, pending, submitted, confirmed, reorged, Db, StoreTxnPendingRow,
  PendingKey, has_key, find_row, delete_rows, encode_nonces, is_reorged, is_confirmed, is_pending,
  insert_pending, upsert_observed, mark_reorged, mark_submitted, mark_submitted_from, submit_row,
  pending_row, reorg_message, in_cascade, count_batches, no_batch, count_listed, rows_updated,
  next_ingest_seq,
}
use bam.Store.Batches.{upsert_batch, delete_batches, delete_messages, drop_messages, on_chain}
use bam.Store.Cursor.{set_cursor, delete_cursor}
use bam.Store.Keys.{
  IsUnique, has_key-same, KeepsKeys, reorg_message-KeepsKeys, submit_row-KeepsKeys,
}
use bam.Store.Writes.{insert_pending-IsInserted, upsert_observed-ObservedWrite}
use bam.Store.Steps.{
  Step, pending_inserted, observed, marked_submitted, marked_reorged, nonce_set, seq_taken,
  batch_upserted, batch_updated, batches_deleted, messages_deleted, cursor_set, cursor_deleted,
  set_nonce_messages, update_batch_status_messages, drop_messages_keeps,
}

pub find_row-map :
    (f : MessageRow → MessageRow) (same : KeepsKeys f) (s : Text) (n : ℕ) (ms : List MessageRow)
    (m : MessageRow)
    → find_row s n ms ≡ some m
    → find_row s n (map f ms) ≡ some (f m)
unfolding find_row has_key
find_row-map f same s n [] m h = absurd cc
find_row-map f same s n (x ∷ ms) m h = elim (Bool-cases (has_key s n x)) [
  | inl here ↦
      let here' : has_key s n (f x) ≡ true = rw ((same x).0, (same x).1) here in
      let eq : some x ≡ some m = rw here at h in
      rw here' (ap (λ o. elim o [ none ↦ none | some r ↦ some (f r) ]) eq)
  | inr other ↦
      let other' : has_key s n (f x) ≡ false = rw ((same x).0, (same x).1) other in
      rw other' (find_row-map f same s n ms m (rw other at h))
]

-- A deletion under another key leaves what a key finds.
find_row-delete_rows_other :
    (s t : Text) (n k : ℕ) (ms : List MessageRow)
    → ((t === s) && (k == n)) ≡ false
    → find_row s n (delete_rows t k ms) ≡ find_row s n ms
unfolding find_row delete_rows has_key
find_row-delete_rows_other s t n k [] h = refl
find_row-delete_rows_other s t n k (m ∷ ms) h = ground (
  arith,
  find_row-delete_rows_other s t n k ms,
  ===_iff m.sender s,
  ===_iff m.sender t,
  ===_iff t s,
)

-- What a write under one key leaves under another.
pub find_row_put :
    (new : MessageRow) (s : Text) (n : ℕ) (ms : List MessageRow)
    → ((new.sender === s) && (new.nonce == n)) ≡ false
    → find_row s n (new ∷ delete_rows new.sender new.nonce ms) ≡ find_row s n ms
unfolding find_row has_key
find_row_put new s n ms h = rw h (find_row-delete_rows_other s new.sender n new.nonce ms h)

-- A key is that of the row, or the row has another.
pub same_key : (t s : Text) (k n : ℕ) → ((t ≡ s) × (k ≡ n)) ⊎ (((t === s) && (k == n)) ≡ false)
same_key t s k n = elim (Bool-cases ((t === s) && (k == n))) [
  | inl same ↦ inl ((===_iff t s).0 (ground arith), ground arith)
  | inr other ↦ inr other
]

not_reorged : (status : MessageStatus) → is_confirmed status ≡ true → is_reorged status ≡ false
unfolding is_confirmed is_reorged
not_reorged pending h = absurd cc
not_reorged submitted h = absurd cc
not_reorged confirmed h = refl
not_reorged reorged h = absurd cc

not_pending : (status : MessageStatus) → is_confirmed status ≡ true → is_pending status ≡ false
unfolding is_confirmed is_pending
not_pending pending h = absurd cc
not_pending submitted h = absurd cc
not_pending confirmed h = refl
not_pending reorged h = absurd cc

insert_pending-confirmed :
    (row : StoreTxnPendingRow) (a b : Db) (s : Text) (n : ℕ) (m : MessageRow)
    → insert_pending row a ≡ ok b
    → find_row s n a.messages ≡ some m
    → is_confirmed m.status ≡ true
    → find_row s n b.messages ≡ some m
unfolding pending_row
insert_pending-confirmed row a b s n m h found final =
    let w = insert_pending-IsInserted row a b h in
    elim (same_key (to_lower_case row.sender) s row.nonce n) [
      | inl (eq, eq') ↦ elim w.free [
        | inl absent ↦ absurd (cc (rw (eq, eq') at absent, found))
        | inr (old, held, freed) ↦
            let same : old ≡ m = cc (rw (eq, eq') at held, found) in
            absurd (cc (not_reorged m.status final, rw same at freed))
      ]
      | inr other ↦ rw w.written (find_row_put (pending_row row) s n a.messages other ∙ found)
    ]

pub upsert_observed-confirmed :
    (row : MessageRow) (a b : Db) (s : Text) (n : ℕ) (m : MessageRow)
    → upsert_observed row a ≡ ok b
    → find_row s n a.messages ≡ some m
    → is_confirmed m.status ≡ true
    → find_row s n b.messages ≡ some m
upsert_observed-confirmed row a b s n m h found final =
    elim (upsert_observed-ObservedWrite row a b h) [
      | inl same ↦ rw same found
      | inr (free, written) ↦ elim (same_key (to_lower_case row.sender) s row.nonce n) [
        | inl (eq, eq') ↦ elim free [
          | inl absent ↦ absurd (cc (rw (eq, eq') at absent, found))
          | inr (old, held, open_row, _) ↦
              let same : old ≡ m = cc (rw (eq, eq') at held, found) in
              absurd (cc (final, rw same at open_row))
        ]
        | inr other ↦ rw written (
            find_row_put (record row { sender = to_lower_case row.sender }) s n a.messages other
            ∙ found)
      ]
    ]

submit_row-confirmed :
    (keys : List PendingKey) (ref : Text) (m : MessageRow)
    → is_confirmed m.status ≡ true
    → submit_row keys ref m ≡ m
unfolding submit_row
submit_row-confirmed keys ref m final = rw (not_pending m.status final, submit_row) refl

mark_submitted_from-confirmed :
    (fuel : ℕ) (keys : List PendingKey) (ref : Text) (a b : Db) (s : Text) (n : ℕ) (m : MessageRow)
    → mark_submitted_from fuel keys ref a ≡ ok b
    → find_row s n a.messages ≡ some m
    → is_confirmed m.status ≡ true
    → find_row s n b.messages ≡ some m
unfolding mark_submitted_from
mark_submitted_from-confirmed zero keys ref a b s n m e found final =
    rw (← ap (λ (d : Db). d.messages) (ok-injective e)) found
mark_submitted_from-confirmed (suc fuel) [] ref a b s n m e found final =
    rw (← ap (λ (d : Db). d.messages) (ok-injective e)) found
mark_submitted_from-confirmed (suc fuel) (k ∷ keys) ref a b s n m e found final =
    let slice = take 500 (k ∷ keys) in
    let (_, _, e1) = >>=-eq-ok (encode_nonces slice) _ e in
    let (_, _, e2) =
      >>=-eq-ok
        (throw_if (not (count_listed slice a.messages == length slice))
          (rows_updated (length slice) (count_listed slice a.messages)))
        _ e1 in
    mark_submitted_from-confirmed fuel (drop 500 (k ∷ keys)) ref
      (record a { messages = map (submit_row slice ref) a.messages }) b s n m e2
      (find_row-map (submit_row slice ref) (submit_row-KeepsKeys slice ref) s n a.messages m found
        ∙ ap some (submit_row-confirmed slice ref m final))
      final

find_row-drop_messages :
    (c : ℕ) (s : Text) (n : ℕ) (ms : List MessageRow) (m : MessageRow)
    → IsUnique ms
    → find_row s n ms ≡ some m
    → find_row s n (drop_messages c ms) ≡ (if on_chain c m then none else some m)
unfolding find_row drop_messages
find_row-drop_messages c s n [] m u h = absurd cc
find_row-drop_messages c s n (x ∷ ms) m u h = elim (Bool-cases (has_key s n x)) [
  | inl here ↦
      let eq : some x ≡ some m = rw here at h in
      let same : x ≡ m = cc in
      let names = has_key-same s n x here in
      elim (Bool-cases (on_chain c x)) [
        | inl gone ↦
            rw (gone, ← same)
              (rw gone (rw (names.0, names.1) at (drop_messages_keeps c x.sender x.nonce ms u.0)))
        | inr kept ↦ rw (kept, ← same) (rw (here, kept) refl)
      ]
  | inr other ↦
      let rest = find_row-drop_messages c s n ms m u.1 (rw other at h) in
      elim (Bool-cases (on_chain c x)) [
        | inl gone ↦ rw gone rest
        | inr kept ↦ rw kept (rw other rest)
      ]
]

pub mark_reorged-find_row :
    (c : ℕ) (h : Text) (at : ℕ) (a b : Db) (s : Text) (n : ℕ) (m : MessageRow)
    → mark_reorged c h at a ≡ ok b
    → find_row s n a.messages ≡ some m
    → find_row s n b.messages ≡ some (reorg_message c h m)
unfolding mark_reorged
mark_reorged-find_row c h at a b s n m e found =
    let (_, _, e') = >>=-eq-ok (throw_if (count_batches c h a.batches == 0) no_batch) _ e in
    rw (← ap (λ (d : Db). d.messages) (ok-injective e'))
      (find_row-map (reorg_message c h) (reorg_message-KeepsKeys c h) s n a.messages m found)

-- What a key whose message was confirmed may hold after one more write, and by which write.
abbrev pub StaysFinal : Text → ℕ → MessageRow → Db → Db → Type 0
StaysFinal s n m a b =
    (find_row s n b.messages ≡ some m)
    ⊎ ((find_row s n b.messages ≡ some (record m { status = reorged }))
        × (c : ℕ) × (tx : Text) × (at : ℕ) × (m.chain_id ≡ some c)
        × (m.batch_ref ≡ some tx)
        × (mark_reorged c tx at a ≡ ok b))
    ⊎ ((find_row s n b.messages ≡ none)
        × (c : ℕ) × (m.chain_id ≡ some c)
        × (b ≡ delete_messages c a))

in_cascade-named :
    (c : ℕ) (h : Text) (m : MessageRow)
    → in_cascade c h m ≡ true
    → (m.chain_id ≡ some c) × (m.batch_ref ≡ some h)
unfolding in_cascade
in_cascade-named c h m e = elim (Option-cases m.batch_ref) [
  | inl nowhere ↦ absurd (cc (rw (nowhere, in_cascade) at e))
  | inr (ref, attached) ↦ elim (Option-cases m.chain_id) [
    | inl chainless ↦ absurd (ground (arith, rw (attached, chainless, in_cascade) at e))
    | inr (k, on) ↦
        let e' = rw (attached, on, in_cascade) at e in
        let same_chain : k ≡ c = ground (arith, e') in
        let same_tx : (ref === h) ≡ true = ground (arith, e') in
        (on ∙ ap some same_chain, attached ∙ ap some ((===_iff ref h).0 same_tx))
  ]
]

on_chain-named : (c : ℕ) (m : MessageRow) → on_chain c m ≡ true → m.chain_id ≡ some c
unfolding on_chain
on_chain-named c m e = elim (Option-cases m.chain_id) [
  | inl chainless ↦ absurd (cc (rw (chainless, on_chain) at e))
  | inr (k, on) ↦
      let e' = rw (on, on_chain) at e in let same : k ≡ c = ground (arith, e') in on ∙ ap some same
]

marked_reorged-StaysFinal :
    (c : ℕ) (h : Text) (at : ℕ) (a b : Db) (s : Text) (n : ℕ) (m : MessageRow)
    → mark_reorged c h at a ≡ ok b
    → find_row s n b.messages ≡ some (reorg_message c h m)
    → StaysFinal s n m a b
unfolding reorg_message
marked_reorged-StaysFinal c h at a b s n m marked e = elim (Bool-cases (in_cascade c h m)) [
  | inl in_it ↦
      let (on, attached) = in_cascade-named c h m in_it in
      inr (inl (rw in_it at e, c, h, at, on, attached, marked))
  | inr out ↦ inl (rw out at e)
]

-- In a database without duplicate keys, a confirmed message is final: after any one successful
-- write its key still holds it unchanged; or the write was `markReorged` of the message's chain and
-- transaction, and the key holds it with the status `reorged` and all else unchanged; or the write
-- was `deleteMessages` of the message's chain, and the key holds nothing.
pub Step-StaysFinal :
    {a b : Db} (s : Text) (n : ℕ) (m : MessageRow)
    → Step a b
    → IsUnique a.messages
    → find_row s n a.messages ≡ some m
    → is_confirmed m.status ≡ true
    → StaysFinal s n m a b
unfolding delete_messages
Step-StaysFinal {a} {b} s n m (pending_inserted row h) u found final =
    inl (insert_pending-confirmed row a b s n m h found final)
Step-StaysFinal {a} {b} s n m (observed row h) u found final =
    inl (upsert_observed-confirmed row a b s n m h found final)
Step-StaysFinal {a} {b} s n m (marked_submitted keys ref h) u found final = inl (
    mark_submitted_from-confirmed (length keys) keys ref a b s n m (unfold mark_submitted in h)
      found final)
Step-StaysFinal {a} {b} s n m (marked_reorged c tx at h) u found final =
    marked_reorged-StaysFinal c tx at a b s n m h (mark_reorged-find_row c tx at a b s n m h found)
Step-StaysFinal {a} {b} s n m (nonce_set row h) u found final =
    inl (rw (set_nonce_messages row a b h) found)
Step-StaysFinal {a} s n m (seq_taken tag) u found final = inl (unfold next_ingest_seq in found)
Step-StaysFinal {a} s n m (batch_upserted row) u found final = inl (unfold upsert_batch in found)
Step-StaysFinal {a} {b} s n m (batch_updated c tx tag status opts h) u found final =
    inl (rw (update_batch_status_messages c tx tag status opts a b h) found)
Step-StaysFinal {a} s n m (batches_deleted c) u found final = inl (unfold delete_batches in found)
Step-StaysFinal {a} s n m (cursor_set row) u found final = inl (unfold set_cursor in found)
Step-StaysFinal {a} s n m (cursor_deleted c) u found final = inl (unfold delete_cursor in found)
Step-StaysFinal {a} s n m (messages_deleted c) u found final =
    let e = find_row-drop_messages c s n a.messages m u found in
    (elim (Bool-cases (on_chain c m)) [
      | inl gone ↦ inr (inr (rw gone at e, c, on_chain-named c m gone, refl))
      | inr kept ↦ inl (rw kept at e)
    ])
