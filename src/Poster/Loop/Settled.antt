-- ===== src/Poster/Loop/Settled.antt =====
-- packages/bam-poster/src/submission/aggregator-loop.ts: the messages of a submission that was
-- included.
use bam.Prelude.{
  ℕ, ◌+◌, ◌≡◌, refl, sym, ap, ◌∙◌, arith, true, false, List, [], ◌∷◌, Option, none, some, All,
  All-imp, ◌⊎◌, inl, inr, Bool-cases, Option-cases, Result-cases,
}
use bam.Prelude.{Text, to_lower_case, Result, ok, err, >>=-eq-ok, ok-injective}
use bam.Store.{
  StoreError, MessageRow, BatchRow, batch_reorged, Db, find_row, is_confirmed, encode_nonce,
  get_by_sender_nonce, upsert_observed,
}
use bam.Store.Tables.{BatchMessageSnapshotEntry}
use bam.Store.Batches.{upsert_batch}
use bam.Store.Queries.{list_batches}
use bam.Store.Writes.{upsert_observed-ObservedWrite, upsert_observed_confirms, observed_row}
use bam.Store.Steps.{update_batch_status_messages}
use bam.Store.Lifecycle.{find_row_put, same_key, upsert_observed-confirmed}
use bam.Prelude.TextMap.{TextMap}
use bam.Poster.Types.{DecodedMessage}
use bam.Poster.Aggregator.{PackResult, tick}
use bam.Poster.Policy.{is_empty}
use bam.Poster.Recording.{
  AggregatorLoopOptions, LoopError, store_result, Inclusion, PackedSubmitIncludedEntry,
  PackedSubmitOutcome, included, retryable, permanent, entry_id, entry_snapshot, entry_batch,
  confirmed_row, confirm_found, confirm_messages, overlaps, chain_batch, chain_reorged,
  reorged_query, record_entry, record_entries, replaced_by,
}
use bam.Poster.Loop.{
  LoopState, LoopOutcome, success, pool_map, pool_view, submit_pack, aggregate, loop_tick,
}

-- The key holds no message, or a confirmed one.
abbrev pub IsSettled : Text → ℕ → Db → Type 0
IsSettled s n db =
    (find_row s n db.messages ≡ none)
    ⊎ ((row : MessageRow) × (find_row s n db.messages ≡ some row)
        × (is_confirmed row.status ≡ true))

-- A write to a key that holds a message settles no key anew.
upsert_observed-IsSettled :
    (row : MessageRow) (a b : Db) (old : MessageRow) (s : Text) (n : ℕ)
    → find_row (to_lower_case row.sender) row.nonce a.messages ≡ some old
    → upsert_observed row a ≡ ok b
    → IsSettled s n a
    → IsSettled s n b
upsert_observed-IsSettled row a b old s n there h (inr (m, found, final)) =
    inr (m, upsert_observed-confirmed row a b s n m h found final, final)
upsert_observed-IsSettled row a b old s n there h (inl absent) =
    elim (upsert_observed-ObservedWrite row a b h) [
      | inl same ↦ inl (rw same absent)
      | inr (_, written) ↦ elim (same_key (to_lower_case row.sender) s row.nonce n) [
        | inl (eq, eq') ↦ absurd (cc (rw (← eq, ← eq') at absent, there))
        | inr other ↦
            inl (rw written (find_row_put (observed_row row) s n a.messages other ∙ absent))
      ]
    ]

pub get_by_sender_nonce-find_row :
    (s : Text) (n : ℕ) (db : Db) (found : Option MessageRow)
    → get_by_sender_nonce s n db ≡ ok found
    → found ≡ find_row (to_lower_case s) n db.messages
unfolding get_by_sender_nonce encode_nonce
get_by_sender_nonce-find_row s n db found h = ground arith

store_result-ok : {A : Type 0} (r : Result StoreError A) (a : A) → store_result r ≡ ok a → r ≡ ok a
store_result-ok (ok x) a h = cc
store_result-ok (err e) a h = absurd cc

-- One message: its key is settled, and every settled key stays so.
confirm_found-IsSettled :
    (opts : AggregatorLoopOptions) (o : Inclusion) (tag : Text) (i : ℕ) (m : DecodedMessage)
    (found : Option MessageRow) (a b : Db)
    → found ≡ find_row (to_lower_case m.sender) m.nonce a.messages
    → confirm_found opts o tag i m found a ≡ ok b
    → IsSettled (to_lower_case m.sender) m.nonce b
      × ((s : Text) (n : ℕ) → IsSettled s n a → IsSettled s n b)
unfolding confirm_found is_confirmed
confirm_found-IsSettled opts o tag i m none a b at h =
    rw (← ok-injective h) (inl (sym at), λ s n q. q)
confirm_found-IsSettled opts o tag i m (some row) a b at h =
    let (id, _, h') = >>=-eq-ok (entry_id opts o tag m) _ h in
    let written = store_result-ok _ b h' in
    let new : MessageRow = confirmed_row opts o tag i m row id in
    (
      inr (upsert_observed_confirms new a b refl written),
      λ s n q. upsert_observed-IsSettled new a b row s n (sym at) written q,
    )

confirm_messages-IsSettled :
    (opts : AggregatorLoopOptions) (o : Inclusion) (tag : Text) (i : ℕ) (ms : List DecodedMessage)
    (a b : Db)
    → confirm_messages opts o tag i ms a ≡ ok b
    → All (λ (m : DecodedMessage). IsSettled (to_lower_case m.sender) m.nonce b) ms
      × ((s : Text) (n : ℕ) → IsSettled s n a → IsSettled s n b)
unfolding confirm_messages
confirm_messages-IsSettled opts o tag i [] a b h = rw (← ok-injective h) (tt, λ s n q. q)
confirm_messages-IsSettled opts o tag i (m ∷ ms) a b h =
    let (found, e, h1) = >>=-eq-ok (store_result (get_by_sender_nonce m.sender m.nonce a)) _ h in
    let (next, e', h2) = >>=-eq-ok (confirm_found opts o tag i m found a) _ h1 in
    let at = get_by_sender_nonce-find_row m.sender m.nonce a found (store_result-ok _ found e) in
    let (here, keep) = confirm_found-IsSettled opts o tag i m found a next at e' in
    let (rest, keep') = confirm_messages-IsSettled opts o tag (i + 1) ms next b h2 in
    ((keep' (to_lower_case m.sender) m.nonce here, rest), λ s n q. keep' s n (keep s n q))

chain_batch_messages :
    (o : Inclusion) (snapshot : List BatchMessageSnapshotEntry) (x : BatchRow) (a b : Db)
    → chain_batch o snapshot x a ≡ ok b
    → b.messages ≡ a.messages
unfolding chain_batch
chain_batch_messages o snapshot x a b h = elim (Option-cases x.replaced_by_tx_hash) [
  | inr (t, replaced) ↦
      ap (λ (d : Db). d.messages) (sym (ok-injective (rw (replaced, chain_batch) at h)))
  | inl free ↦ elim (Bool-cases (overlaps snapshot x.message_snapshot)) [
    | inr apart ↦
        ap (λ (d : Db). d.messages) (sym (ok-injective (rw (free, apart, chain_batch) at h)))
    | inl overlap ↦
        update_batch_status_messages x.chain_id x.tx_hash x.content_tag batch_reorged
          (replaced_by o) a b (rw (free, overlap, chain_batch) at h)
  ]
]

chain_reorged_messages :
    (o : Inclusion) (snapshot : List BatchMessageSnapshotEntry) (xs : List BatchRow) (a b : Db)
    → chain_reorged o snapshot xs a ≡ ok b
    → b.messages ≡ a.messages
unfolding chain_reorged
chain_reorged_messages o snapshot [] a b h = ap (λ (d : Db). d.messages) (sym (ok-injective h))
chain_reorged_messages o snapshot (x ∷ xs) a b h =
    let (next, e, h') = >>=-eq-ok (store_result (chain_batch o snapshot x a)) _ h in
    chain_reorged_messages o snapshot xs next b h'
    ∙ chain_batch_messages o snapshot x a next (store_result-ok _ next e)

IsSettled-same :
    (s : Text) (n : ℕ) (a b : Db) → b.messages ≡ a.messages → IsSettled s n a → IsSettled s n b
IsSettled-same s n a b same q = rw same q

-- The messages of an entry are settled.
abbrev pub EntrySettled : Db → PackedSubmitIncludedEntry → Type 0
EntrySettled db entry =
    All (λ (m : DecodedMessage). IsSettled (to_lower_case m.sender) m.nonce db) entry.messages

record_entry-EntrySettled :
    (opts : AggregatorLoopOptions) (o : Inclusion) (entry : PackedSubmitIncludedEntry) (a b : Db)
    → record_entry opts o entry a ≡ ok b
    → EntrySettled b entry × ((s : Text) (n : ℕ) → IsSettled s n a → IsSettled s n b)
unfolding record_entry upsert_batch
record_entry-EntrySettled opts o entry a b h =
    let tag = entry.content_tag in
    let (snapshot, _, h1) = >>=-eq-ok (entry_snapshot opts o tag 0 entry.messages) _ h in
    let a' : Db = upsert_batch (entry_batch opts o tag snapshot) a in
    let (next, e, h2) = >>=-eq-ok (confirm_messages opts o tag 0 entry.messages a') _ h1 in
    let same =
      chain_reorged_messages o snapshot (list_batches (reorged_query opts o tag) next) next b h2 in
    let (here, keep) = confirm_messages-IsSettled opts o tag 0 entry.messages a' next e in
    (
      All-imp _ _ entry.messages
          (λ (m : DecodedMessage) q. IsSettled-same (to_lower_case m.sender) m.nonce next b same q)
          here,
      λ s n q. IsSettled-same s n next b same (keep s n q),
    )

record_entries-EntrySettled :
    (opts : AggregatorLoopOptions) (o : Inclusion) (entries : List PackedSubmitIncludedEntry)
    (a b : Db)
    → record_entries opts o entries a ≡ ok b
    → All (EntrySettled b) entries × ((s : Text) (n : ℕ) → IsSettled s n a → IsSettled s n b)
unfolding record_entries
record_entries-EntrySettled opts o [] a b h = rw (← ok-injective h) (tt, λ s n q. q)
record_entries-EntrySettled opts o (entry ∷ entries) a b h =
    let (next, e, h') = >>=-eq-ok (record_entry opts o entry a) _ h in
    let (here, keep) = record_entry-EntrySettled opts o entry a next e in
    let (rest, keep') = record_entries-EntrySettled opts o entries next b h' in
    (
      (
        All-imp _ _ entry.messages
            (λ (m : DecodedMessage) q. keep' (to_lower_case m.sender) m.nonce q) here,
        rest,
      ),
      λ s n q. keep' s n (keep s n q),
    )

-- A tick leaves the database, or it ends in success.
abbrev pub TickEffect : AggregatorLoopOptions → Db → Db → Result LoopError LoopOutcome → Type 0
TickEffect opts a b r =
    (b ≡ a)
    ⊎ ((r ≡ ok success)
        × (pack : PackResult) × (o : Inclusion) × (opts.build_and_submit_multi pack ≡ included o)
        × (is_empty pack.plan.included ≡ false)
        × All (EntrySettled b) o.entries)

outcome-cases :
    (r : PackedSubmitOutcome)
    → ((o : Inclusion) × (r ≡ included o))
      ⊎ ((t : Text) × (r ≡ retryable t))
      ⊎ ((t : Text) × (r ≡ permanent t))
outcome-cases (included o) = inl (o, refl)
outcome-cases (retryable t) = inr (inl (t, refl))
outcome-cases (permanent t) = inr (inr (t, refl))

submit_pack-TickEffect :
    (opts : AggregatorLoopOptions) (pack : PackResult) (state : LoopState) (db : Db)
    → is_empty pack.plan.included ≡ false
    → TickEffect opts db (submit_pack opts pack state db).1 (submit_pack opts pack state db).2
unfolding submit_pack
submit_pack-TickEffect opts pack state db some_tag =
    elim (outcome-cases (opts.build_and_submit_multi pack)) [
      | inr (inl (t, later)) ↦ rw (later, submit_pack) (inl refl)
      | inr (inr (t, never)) ↦ rw (never, submit_pack) (inl refl)
      | inl (o, mined) ↦ elim (Result-cases (record_entries opts o o.entries db)) [
        | inr (e, failed) ↦ rw (mined, failed, submit_pack) (inl refl)
        | inl (next, recorded) ↦
            rw (mined, recorded, submit_pack)
              (inr (
                refl,
                pack,
                o,
                mined,
                some_tag,
                (record_entries-EntrySettled opts o o.entries db next recorded).0,
              ))
      ]
    ]

aggregate-TickEffect :
    (opts : AggregatorLoopOptions) (pools : TextMap (List DecodedMessage)) (state : LoopState)
    (db : Db)
    → TickEffect opts db (aggregate opts pools state db).1 (aggregate opts pools state db).2
unfolding aggregate
aggregate-TickEffect opts pools state db =
    let run = tick opts.aggregator (pool_view pools) opts.now state.aggregator in
    let state' : LoopState = record state { aggregator = run.0 } in
    elim (Result-cases run.1) [
      | inr (e, failed) ↦ rw (failed, aggregate) (inl refl)
      | inl (found, ran) ↦ elim (Option-cases found) [
        | inl nothing ↦ rw (ran, nothing, aggregate) (inl refl)
        | inr (pack, some_pack) ↦ elim (Bool-cases (is_empty pack.plan.included)) [
          | inl empty ↦ rw (ran, some_pack, empty, aggregate) (inl refl)
          | inr some_tag ↦
              rw (ran, some_pack, some_tag, aggregate)
                (submit_pack-TickEffect opts pack state' db some_tag)
        ]
      ]
    ]

-- A tick of the poster's loop, whether it throws or not, leaves the database as it was, or it ends in
-- success: then a pack that includes some tag was submitted and included in a block, and for every
-- message of every entry of that submission, the store holds no message under its sender and nonce, or
-- a confirmed one, so that no message of a recorded submission is pending.
pub loop_tick-TickEffect :
    (opts : AggregatorLoopOptions) (state : LoopState) (db : Db)
    → TickEffect opts db (loop_tick opts state db).1 (loop_tick opts state db).2
unfolding loop_tick
loop_tick-TickEffect opts state db = elim (Bool-cases state.permanently_stopped) [
  | inl halted ↦ rw (halted, loop_tick) (inl refl)
  | inr running ↦ elim (Result-cases (pool_map opts.aggregator.tags db)) [
    | inr (e, failed) ↦ rw (running, failed, loop_tick) (inl refl)
    | inl (pools, listed) ↦
        rw (running, listed, loop_tick) (aggregate-TickEffect opts pools state db)
  ]
]
