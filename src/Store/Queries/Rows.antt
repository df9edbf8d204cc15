-- ===== src/Store/Queries/Rows.antt =====
-- The rows that the reads of packages/bam-store/src/postgres.ts return.
use bam.Prelude.{
  ℕ, ◌≡◌, arith, true, false, Bool, List, [], ◌∷◌, All, All-imp, All-take, Bool-cases, inl, inr,
  ◌==◌, Option, none, some, ===_refl,
}
use bam.Prelude.Sort.{All-sort_by}
use bam.Store.Tables.{BatchRow, MessageRow, Db}
use bam.Store.{count_batches, of_transaction}
use bam.Store.Queries.{
  select, limited, BatchesQuery, in_batches_query, list_batches, batch_before, MessagesQuery,
  in_messages_query, list_messages, message_before,
}

pub All-select {κ} :
    {A : Type 0} (P : A → Type κ) (test : A → Bool) (xs : List A)
    → All P xs
    → All P (select test xs)
unfolding select
All-select P test [] h = tt
All-select P test (x ∷ xs) h = elim (Bool-cases (test x)) [
  | inl in_it ↦ rw in_it (h.0, All-select P test xs h.1)
  | inr out ↦ rw out (All-select P test xs h.1)
]

pub select-All :
    {A : Type 0} (test : A → Bool) (xs : List A) → All (λ x. test x ≡ true) (select test xs)
unfolding select
select-All test [] = tt
select-All test (x ∷ xs) = elim (Bool-cases (test x)) [
  | inl in_it ↦ rw in_it (in_it, select-All test xs)
  | inr out ↦ rw out (select-All test xs)
]

pub All-limited {κ} :
    {A : Type 0} (P : A → Type κ) (limit : Option ℕ) (xs : List A)
    → All P xs
    → All P (limited limit xs)
unfolding limited
All-limited P none xs h = h
All-limited P (some n) xs h = All-take P n xs h

-- What holds of all batches holds of those that a query lists.
pub All-list_batches {κ} :
    (P : BatchRow → Type κ) (q : BatchesQuery) (db : Db)
    → All P db.batches
    → All P (list_batches q db)
unfolding list_batches
All-list_batches P q db h =
    All-limited P q.limit _
      (All-sort_by batch_before P _ (All-select P (in_batches_query q) db.batches h))

pub list_batches-All :
    (q : BatchesQuery) (db : Db) → All (λ b. in_batches_query q b ≡ true) (list_batches q db)
unfolding list_batches
list_batches-All q db =
    All-limited _ q.limit _
      (All-sort_by batch_before _ _ (select-All (in_batches_query q) db.batches))

-- What holds of all messages holds of those that a query lists, which are those that it asks for.
pub All-list_messages {κ} :
    (P : MessageRow → Type κ) (q : MessagesQuery) (db : Db)
    → All P db.messages
    → All P (list_messages q db)
unfolding list_messages
All-list_messages P q db h =
    All-limited P q.limit _
      (All-sort_by message_before P _ (All-select P (in_messages_query q) db.messages h))

pub list_messages-All :
    (q : MessagesQuery) (db : Db) → All (λ m. in_messages_query q m ≡ true) (list_messages q db)
unfolding list_messages
list_messages-All q db =
    All-limited _ q.limit _
      (All-sort_by message_before _ _ (select-All (in_messages_query q) db.messages))

-- A batch of a chain is counted under its transaction.
pub count_batches-All :
    (c : ℕ) (bs : List BatchRow)
    → All (λ b. (b.chain_id == c) ≡ true → (count_batches c b.tx_hash bs == 0) ≡ false) bs
unfolding count_batches of_transaction
count_batches-All c [] = tt
count_batches-All c (b ∷ bs) = (
  λ on_chain. ground (arith, ===_refl b.tx_hash),
  All-imp _ _ bs (λ x h on_chain. ground (arith, h on_chain)) (count_batches-All c bs),
)
