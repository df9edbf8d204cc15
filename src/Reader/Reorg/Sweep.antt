-- ===== src/Reader/Reorg/Sweep.antt =====
-- What packages/bam-reader/src/reorg-watcher.ts does to the tables.
use bam.Prelude.{
  ℕ, ◌+◌, ◌≡◌, refl, arith, Bool, false, ◌&&◌, ◌||◌, List, [], ◌∷◌, map, length, Option, none, some,
  All, All-imp, All-zip, ◌==◌, if◌then◌else◌, Option-cases, inl, inr,
}
use bam.Prelude.{Text, ◌===◌, ok}
use bam.Store.{
  MessageRow, reorged, is_confirmed, BatchRow, batch_reorged, Db, mark_reorged, count_batches,
  of_transaction, reorg_batch, reorg_message, in_cascade,
}
use bam.Store.Queries.Rows.{count_batches-All}
use bam.Reader.Reorg.Candidates.{candidates-All, All-candidates}
use bam.Reader.Reorg.{BlockSource, candidates, mark_each, reorg_tick}

-- Whether a list of batches names a transaction that is not on the chain any more.
unfoldable pub gone_in : BlockSource → List BatchRow → Text → Bool
unfolding ◌===◌
gone_in source [] tx_hash = false
gone_in source (b ∷ bs) tx_hash =
    let rest = gone_in source bs tx_hash in
    elim (source.transaction_block b.tx_hash) [
      | none ↦ (tx_hash === b.tx_hash) || rest
      | some n ↦ rest
    ]

unfoldable pub count_gone : BlockSource → List BatchRow → ℕ
count_gone source [] = 0
count_gone source (b ∷ bs) =
    let rest = count_gone source bs in
    elim (source.transaction_block b.tx_hash) [ none ↦ rest + 1 | some n ↦ rest ]

-- One batch and one message of the database that the loop over `bs` leaves.
unfoldable pub swept_batch : BlockSource → ℕ → ℕ → List BatchRow → BatchRow → BatchRow
swept_batch source chain_id now bs b =
    if (b.chain_id == chain_id) && gone_in source bs b.tx_hash
    then record b { status = batch_reorged; invalidated_at = some now }
    else b

unfoldable pub swept_message : BlockSource → ℕ → List BatchRow → MessageRow → MessageRow
swept_message source chain_id bs m =
    if elim m.batch_ref [ none ↦ false | some ref ↦ gone_in source bs ref ]
      && elim m.chain_id [ none ↦ false | some c ↦ c == chain_id ]
      && is_confirmed m.status
    then record m { status = reorged }
    else m

abbrev pub swept : BlockSource → ℕ → ℕ → List BatchRow → Db → Db
swept source chain_id now bs db = record db {
  batches = map (swept_batch source chain_id now bs) db.batches;
  messages = map (swept_message source chain_id bs) db.messages;
}

map_id {ℓ} : {A : Type ℓ} (f : A → A) (xs : List A) → ((x : A) → f x ≡ x) → map f xs ≡ xs
map_id f [] h = refl
map_id f (x ∷ xs) h = rw (h x, map_id f xs h) refl

map_fuse {ℓ} :
    {A : Type ℓ} (f g h : A → A) (xs : List A)
    → ((x : A) → f (g x) ≡ h x)
    → map f (map g xs) ≡ map h xs
map_fuse f g h [] e = refl
map_fuse f g h (x ∷ xs) e = rw (e x, map_fuse f g h xs e) refl

map_ext {ℓ} : {A : Type ℓ} (f g : A → A) (xs : List A) → ((x : A) → f x ≡ g x) → map f xs ≡ map g xs
map_ext f g [] e = refl
map_ext f g (x ∷ xs) e = rw (e x, map_ext f g xs e) refl

swept_batch_nil :
    (source : BlockSource) (c now : ℕ) (b : BatchRow) → swept_batch source c now [] b ≡ b
unfolding swept_batch gone_in
swept_batch_nil source c now b = ground arith

swept_message_nil :
    (source : BlockSource) (c : ℕ) (m : MessageRow) → swept_message source c [] m ≡ m
unfolding swept_message gone_in
swept_message_nil source c m = ground arith

-- The step of the loop on a transaction that is gone, then the rest.
swept_batch_cons :
    (source : BlockSource) (c now : ℕ) (b : BatchRow) (bs : List BatchRow) (x : BatchRow)
    → source.transaction_block b.tx_hash ≡ none
    → swept_batch source c now bs (reorg_batch c b.tx_hash now x)
      ≡ swept_batch source c now (b ∷ bs) x
unfolding swept_batch gone_in reorg_batch of_transaction
swept_batch_cons source c now b bs x gone = ground arith

swept_message_cons :
    (source : BlockSource) (c : ℕ) (b : BatchRow) (bs : List BatchRow) (x : MessageRow)
    → source.transaction_block b.tx_hash ≡ none
    → swept_message source c bs (reorg_message c b.tx_hash x) ≡ swept_message source c (b ∷ bs) x
unfolding swept_message gone_in reorg_message in_cascade is_confirmed
swept_message_cons source c b bs x gone = ground arith

swept_batch_kept :
    (source : BlockSource) (c now n : ℕ) (b : BatchRow) (bs : List BatchRow) (x : BatchRow)
    → source.transaction_block b.tx_hash ≡ some n
    → swept_batch source c now bs x ≡ swept_batch source c now (b ∷ bs) x
unfolding swept_batch gone_in
swept_batch_kept source c now n b bs x kept = rw (kept, gone_in) refl

swept_message_kept :
    (source : BlockSource) (c n : ℕ) (b : BatchRow) (bs : List BatchRow) (x : MessageRow)
    → source.transaction_block b.tx_hash ≡ some n
    → swept_message source c bs x ≡ swept_message source c (b ∷ bs) x
unfolding swept_message gone_in
swept_message_kept source c n b bs x kept = ground arith

count_batches-map :
    (c : ℕ) (t : Text) (h : Text) (now : ℕ) (bs : List BatchRow)
    → count_batches c t (map (reorg_batch c h now) bs) ≡ count_batches c t bs
unfolding count_batches reorg_batch of_transaction
count_batches-map c t h now [] = refl
count_batches-map c t h now (b ∷ bs) = ground (arith, count_batches-map c t h now bs)

-- The batches of the list are in the database.
abbrev Present : ℕ → List BatchRow → Db → Type 0
Present c bs db = All (λ b. (count_batches c b.tx_hash db.batches == 0) ≡ false) bs

-- What `markReorged` leaves for a transaction of the chain.
abbrev marked_db : ℕ → Text → ℕ → Db → Db
marked_db c h now db = record db {
  batches = map (reorg_batch c h now) db.batches;
  messages = map (reorg_message c h) db.messages;
}

mark_reorged-ok :
    (c : ℕ) (h : Text) (now : ℕ) (db : Db)
    → (count_batches c h db.batches == 0) ≡ false
    → mark_reorged c h now db ≡ ok (marked_db c h now db)
unfolding mark_reorged
mark_reorged-ok c h now db there = rw (there, mark_reorged) refl

unfoldable pub count_kept : BlockSource → List BatchRow → ℕ
count_kept source [] = 0
count_kept source (b ∷ bs) =
    let rest = count_kept source bs in
    elim (source.transaction_block b.tx_hash) [ none ↦ rest | some n ↦ rest + 1 ]

swept_kept :
    (source : BlockSource) (c now n : ℕ) (b : BatchRow) (bs : List BatchRow) (db : Db)
    → source.transaction_block b.tx_hash ≡ some n
    → swept source c now bs db ≡ swept source c now (b ∷ bs) db
swept_kept source c now n b bs db kept =
    rw
      (
        map_ext (swept_batch source c now bs) (swept_batch source c now (b ∷ bs)) db.batches
            (λ x. swept_batch_kept source c now n b bs x kept),
        map_ext (swept_message source c bs) (swept_message source c (b ∷ bs)) db.messages
            (λ x. swept_message_kept source c n b bs x kept),
      )
      refl

swept_gone :
    (source : BlockSource) (c now : ℕ) (b : BatchRow) (bs : List BatchRow) (db : Db)
    → source.transaction_block b.tx_hash ≡ none
    → swept source c now bs (marked_db c b.tx_hash now db) ≡ swept source c now (b ∷ bs) db
swept_gone source c now b bs db gone =
    rw
      (
        map_fuse (swept_batch source c now bs) (reorg_batch c b.tx_hash now)
            (swept_batch source c now (b ∷ bs)) db.batches
            (λ x. swept_batch_cons source c now b bs x gone),
        map_fuse (swept_message source c bs) (reorg_message c b.tx_hash)
            (swept_message source c (b ∷ bs)) db.messages
            (λ x. swept_message_cons source c b bs x gone),
      )
      refl

mark_each-swept :
    (source : BlockSource) (c now : ℕ) (bs : List BatchRow) (db : Db)
    → Present c bs db
    → mark_each source c now bs db
      ≡ (swept source c now bs db, ok (count_gone source bs, count_kept source bs))
unfolding mark_each count_gone count_kept
mark_each-swept source c now [] db h =
    rw
      (
        map_id (swept_batch source c now []) db.batches (swept_batch_nil source c now),
        map_id (swept_message source c []) db.messages (swept_message_nil source c),
      )
      refl
mark_each-swept source c now (b ∷ bs) db h =
    elim (Option-cases (source.transaction_block b.tx_hash)) [
      | inr (n, kept) ↦
          rw (kept, mark_each, count_gone, count_kept)
            (rw (mark_each-swept source c now bs db h.1)
              (rw (swept_kept source c now n b bs db kept) refl))
      | inl gone ↦
          let after : Db = marked_db c b.tx_hash now db in
          let present : Present c bs after =
            All-imp _ _ bs
              (λ x there. rw (count_batches-map c x.tx_hash b.tx_hash now db.batches) there) h.1 in
          rw (gone, mark_reorged-ok c b.tx_hash now db h.0, mark_each, count_gone, count_kept)
            (rw (mark_each-swept source c now bs after present)
              (rw (swept_gone source c now b bs db gone) refl))
    ]

candidates-Present :
    (source : BlockSource) (c : ℕ) (window : Option ℕ) (db : Db)
    → Present c (candidates source c window db) db
candidates-Present source c window db =
    let cs = candidates source c window db in
    All-imp _ _ cs (λ b h. h.1 h.0.0)
      (All-zip _ _ cs (candidates-All source c window db)
        (All-candidates _ source c window db (count_batches-All c db.batches)))

count_gone_kept :
    (source : BlockSource) (bs : List BatchRow)
    → count_gone source bs + count_kept source bs ≡ length bs
unfolding count_gone count_kept
count_gone_kept source [] = refl
count_gone_kept source (b ∷ bs) = elim (Option-cases (source.transaction_block b.tx_hash)) [
  | inl gone ↦ rw (gone, count_gone, count_kept) (omega (arith, count_gone_kept source bs))
  | inr (n, kept) ↦ rw (kept, count_gone, count_kept) (omega (arith, count_gone_kept source bs))
]

-- A tick of the reader's watcher never throws. It leaves the database that one simultaneous update
-- would: of the chain's batches, those whose transaction is named by a candidate and has no block any
-- more become reorged, and so do the confirmed messages of these transactions; all else is kept. It
-- reports the candidates whose transaction is gone and those that it kept, which are all of them.
pub reorg_tick-swept :
    (source : BlockSource) (c : ℕ) (window : Option ℕ) (now : ℕ) (db : Db)
    → let cs = candidates source c window db in
      (reorg_tick source c window now db
        ≡ (swept source c now cs db, ok (count_gone source cs, count_kept source cs)))
      × (count_gone source cs + count_kept source cs ≡ length cs)
unfolding reorg_tick
reorg_tick-swept source c window now db =
    let cs = candidates source c window db in
    (
      mark_each-swept source c now cs db (candidates-Present source c window db),
      count_gone_kept source cs,
    )
