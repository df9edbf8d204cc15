-- ===== src/Poster/Reorg/Requeued.antt =====
-- packages/bam-poster/src/submission/reorg-watcher.ts: the messages of a batch that it reorged.
use bam.Prelude.{
  ℕ, ◌≡◌, refl, sym, ap, ◌∙◌, arith, true, false, List, [], ◌∷◌, Option, none, some, All, All-imp,
  All-zip, inl, inr, Bool-cases, Option-cases,
}
use bam.Prelude.{Text, ◌===◌, ===_iff, ===_refl, to_lower_case, ok, >>=-eq-ok, ok-injective}
use bam.Prelude.Sort.{All-of_sort_by, All-sort_by}
use mathlib.Core.Path.{subst}
use bam.Store.{
  MessageRow, MessageStatus, pending, BatchRow, Db, reorg_message, in_cascade, is_confirmed,
  is_pending, find_row, get_by_sender_nonce, next_ingest_seq, mark_reorged,
}
use bam.Store.Queries.{list_messages, in_messages_query, meets, column}
use bam.Store.Queries.Rows.{All-list_messages, list_messages-All}
use bam.Store.Keys.{IsUnique, IsUnique-finds}
use bam.Store.Writes.{
  observed_row, find_row_head, upsert_observed-ObservedWrite, upsert_observed_queues,
}
use bam.Store.Lifecycle.{find_row_put, same_key, mark_reorged-find_row}
use bam.Poster.Loop.Settled.{get_by_sender_nonce-find_row}
use bam.Poster.Reorg.{
  attached_query, by_ingest_order, requeued_row, write_requeued, requeue_found, requeue,
  reorg_batch_and_requeue,
}

-- The key holds a message with the hash and a status of which `P` holds.
abbrev pub At : (MessageStatus → Type 0) → Text → ℕ → Text → Db → Type 0
At P s n g db =
    (row : MessageRow) × (find_row s n db.messages ≡ some row)
    × P row.status
    × (row.message_hash ≡ g)

abbrev IsOpen : MessageStatus → Type 0
IsOpen status = is_confirmed status ≡ false

abbrev pub IsWaiting : MessageStatus → Type 0
IsWaiting status = is_pending status ≡ true

-- The message's key holds a pending message with its hash.
abbrev pub IsQueued : Db → MessageRow → Type 0
IsQueued db m = At IsWaiting (to_lower_case m.sender) m.nonce m.message_hash db

-- What is written leaves a key as it is, or puts a pending message with the same hash there.
write_requeued-At :
    (P : MessageStatus → Type 0)
    → P pending
    → (c : ℕ) (tag : Text) (now : ℕ) (m : MessageRow) (a b : Db) (s : Text) (n : ℕ) (g : Text)
    → write_requeued c tag now m a ≡ ok b
    → At P s n g a
    → At P s n g b
unfolding write_requeued next_ingest_seq
write_requeued-At P waits c tag now m a b s n g h (row, found, status, hash) =
    let numbered : Db = (next_ingest_seq tag a).0 in
    let new : MessageRow = requeued_row c tag now (next_ingest_seq tag a).1 m in
    elim (upsert_observed-ObservedWrite new numbered b h) [
      | inl same ↦ (row, rw same found, status, hash)
      | inr (free, written) ↦ elim (same_key (to_lower_case m.sender) s m.nonce n) [
        | inl (eq, eq') ↦ elim free [
          | inl absent ↦ absurd (cc (rw (eq, eq') at absent, found))
          | inr (old, held, _, same_hash) ↦
              let same : old ≡ row = cc (rw (eq, eq') at held, found) in
              let head : find_row (to_lower_case m.sender) m.nonce b.messages
                  ≡ some (observed_row new) =
                rw written (find_row_head (observed_row new) _) in
              (
                observed_row new,
                subst (λ x. find_row x n b.messages ≡ some (observed_row new)) eq
                    (subst
                      (λ x.
                        find_row (to_lower_case m.sender) x b.messages ≡ some (observed_row new))
                      eq' head),
                waits,
                sym same_hash ∙ ap (λ (x : MessageRow). x.message_hash) same ∙ hash,
              )
        ]
        | inr other ↦ (
          row,
          rw written (find_row_put (observed_row new) s n a.messages other ∙ found),
          status,
          hash,
        )
      ]
    ]

-- Under its own key, where the row was not confirmed, it is pending then.
write_requeued-IsQueued :
    (c : ℕ) (tag : Text) (now : ℕ) (m : MessageRow) (a b : Db)
    → write_requeued c tag now m a ≡ ok b
    → At IsOpen (to_lower_case m.sender) m.nonce m.message_hash a
    → IsQueued b m
unfolding write_requeued is_pending
write_requeued-IsQueued c tag now m a b h open_row =
    let (row, found, status, hash) =
      write_requeued-At IsOpen (unfold is_confirmed in refl) c tag now m a b
        (to_lower_case m.sender) m.nonce m.message_hash h open_row in
    let (row', found', either) =
      upsert_observed_queues (requeued_row c tag now (next_ingest_seq tag a).1 m)
        (next_ingest_seq tag a).0 b refl h in
    let same : row' ≡ row = cc (found, found') in
    elim either [
      | inl queued ↦ (row, found, rw (← same) queued, hash)
      | inr final ↦ absurd (cc (status, rw same at final))
    ]

-- Every key that has a status which pending has too keeps one.
abbrev Keeps : Db → Db → Type 1
Keeps a b =
    (P : MessageStatus → Type 0)
    → P pending
    → (s : Text) (n : ℕ) (g : Text) → At P s n g a
    → At P s n g b

requeue_found-IsQueued :
    (c : ℕ) (tag : Text) (now : ℕ) (m : MessageRow) (found : Option MessageRow) (a b : Db)
    → found ≡ find_row (to_lower_case m.sender) m.nonce a.messages
    → requeue_found c tag now m found a ≡ ok b
    → At IsOpen (to_lower_case m.sender) m.nonce m.message_hash a
    → IsQueued b m × Keeps a b
unfolding requeue_found
requeue_found-IsQueued c tag now m none a b at h (row, held, _, _) = absurd (cc (at, held))
requeue_found-IsQueued c tag now m (some existing) a b at h (row, held, status, hash) =
    elim (Bool-cases (is_pending existing.status)) [
      | inl queued ↦
          let same : a ≡ b = ok-injective (rw (queued, requeue_found) at h) in
          let here : existing ≡ row = cc (at, held) in
          rw (← same) ((row, held, rw (← here) queued, hash), λ P waits s n g q. q)
      | inr other ↦
          let h' = rw (other, requeue_found) at h in
          (
            write_requeued-IsQueued c tag now m a b h' (row, held, status, hash),
            λ P waits s n g q. write_requeued-At P waits c tag now m a b s n g h' q,
          )
    ]

requeue-IsQueued :
    (c : ℕ) (tag : Text) (now : ℕ) (ms : List MessageRow) (a b : Db)
    → requeue c tag now ms a ≡ ok b
    → All (λ (m : MessageRow). At IsOpen (to_lower_case m.sender) m.nonce m.message_hash a) ms
    → All (IsQueued b) ms × Keeps a b
unfolding requeue
requeue-IsQueued c tag now [] a b h open_rows = rw (← ok-injective h) (tt, λ P waits s n g q. q)
requeue-IsQueued c tag now (m ∷ ms) a b h open_rows =
    let (found, e, h1) = >>=-eq-ok (get_by_sender_nonce m.sender m.nonce a) _ h in
    let (next, e', h2) = >>=-eq-ok (requeue_found c tag now m found a) _ h1 in
    let at = get_by_sender_nonce-find_row m.sender m.nonce a found e in
    let (here, keep) = requeue_found-IsQueued c tag now m found a next at e' open_rows.0 in
    let still =
      All-imp _ _ ms
        (λ (x : MessageRow) q.
          keep IsOpen (unfold is_confirmed in refl) (to_lower_case x.sender) x.nonce x.message_hash
            q)
        open_rows.1 in
    let (rest, keep') = requeue-IsQueued c tag now ms next b h2 still in
    (
      (
        keep' IsWaiting (unfold is_pending in refl) (to_lower_case m.sender) m.nonce m.message_hash
            here,
        rest,
      ),
      λ P waits s n g q. keep' P waits s n g (keep P waits s n g q),
    )

-- A row that the poster's store may hold: the sender is in lower case, and a message that is attached
-- to the transaction is of the chain.
abbrev pub IsStored : ℕ → Text → MessageRow → Type 0
IsStored c tx m =
    (to_lower_case m.sender ≡ m.sender) × (m.batch_ref ≡ some tx → m.chain_id ≡ some c)

attached-batch_ref :
    (batch : BatchRow) (m : MessageRow)
    → in_messages_query (attached_query batch) m ≡ true
    → m.batch_ref ≡ some batch.tx_hash
unfolding in_messages_query meets column
attached-batch_ref batch m h = elim (Option-cases m.batch_ref) [
  | inl nowhere ↦ absurd (ground (arith, rw nowhere at h))
  | inr (ref, attached) ↦
      let same : (ref === batch.tx_hash) ≡ true = ground (arith, rw attached at h) in
      attached ∙ ap some ((===_iff ref batch.tx_hash).0 same)
]

reorg_message-IsOpen :
    (c : ℕ) (tx : Text) (m : MessageRow)
    → m.batch_ref ≡ some tx
    → m.chain_id ≡ some c
    → IsOpen (reorg_message c tx m).status × ((reorg_message c tx m).message_hash ≡ m.message_hash)
unfolding reorg_message in_cascade
reorg_message-IsOpen c tx m attached on = elim (Bool-cases (is_confirmed m.status)) [
  | inl final ↦
      let in_it : in_cascade c tx m ≡ true =
        rw (attached, on, final, in_cascade) (ground (arith, ===_refl tx)) in
      rw (in_it, reorg_message) (unfold is_confirmed in refl, refl)
  | inr open_row ↦
      let out : in_cascade c tx m ≡ false =
        rw (attached, on, open_row, in_cascade) (ground (arith, ===_refl tx)) in
      rw (out, reorg_message) (open_row, refl)
]

-- In a store without duplicate keys whose senders are in lower case, and in which the messages that
-- name a batch's transaction are of the poster's chain: when the watcher has reorged the batch,
-- the key of every message that was attached to the batch holds a pending message with the same
-- hash. None is left out of the queue, and none is still confirmed.
pub reorg_batch_and_requeue-IsQueued :
    (c now : ℕ) (batch : BatchRow) (a b : Db)
    → IsUnique a.messages
    → All (IsStored c batch.tx_hash) a.messages
    → reorg_batch_and_requeue c now batch a ≡ ok b
    → All (IsQueued b) (list_messages (attached_query batch) a)
unfolding reorg_batch_and_requeue
reorg_batch_and_requeue-IsQueued c now batch a b u stored h =
    let q = attached_query batch in
    let attached = list_messages q a in
    let (marked, done, h') = >>=-eq-ok (mark_reorged c batch.tx_hash now a) _ h in
    let facts =
      All-zip _ _ attached (All-list_messages _ q a (IsUnique-finds a.messages u))
        (All-zip _ _ attached (All-list_messages _ q a stored) (list_messages-All q a)) in
    let open_rows =
      All-imp _
        (λ (m : MessageRow). At IsOpen (to_lower_case m.sender) m.nonce m.message_hash marked)
        attached
        (λ (m : MessageRow) f.
          let ref = attached-batch_ref batch m f.1.1 in
          let (status, hash) = reorg_message-IsOpen c batch.tx_hash m ref (f.1.0.1 ref) in
          (
            reorg_message c batch.tx_hash m,
            rw f.1.0.0
                (mark_reorged-find_row c batch.tx_hash now a marked m.sender m.nonce m done f.0),
            status,
            hash,
          ))
        facts in
    All-of_sort_by _ _ attached
      (requeue-IsQueued c batch.content_tag now (by_ingest_order attached) marked b h'
        (All-sort_by _ _ attached open_rows)).0
