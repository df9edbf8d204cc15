-- ===== src/Poster/Aggregator/Ticks.antt =====
-- The outcomes of a whole tick of packages/bam-poster/src/submission/aggregator.ts.
use bam.Prelude.{ℕ, ◌≡◌, refl, sym, ap, ◌∙◌, false, List, [], ◌∷◌, ◌++◌, map, Option, none, some}
use bam.Prelude.{
  Text, Result, ok, err, ◌>>=◌, All, All-append, Result-cases, Bool-cases, inl, inr, ◌⊎◌, length,
  if◌then◌else◌,
}
use bam.Sdk.Errors.{SdkError}
use bam.Poster.Types.{DecodedMessage, PoolView, to_bam_message}
use bam.Poster.Policy.{is_empty}
use bam.Poster.Aggregator.{
  AggregatorOptions, AggregatorState, TickError, encode_failed, Entry, make_entry, entry_of,
  picked_of, select_pass, fill_pass, has_tag, update, tick, finish, pack_entries, PackResult,
}
use bam.Poster.Aggregator.Selections.{Mirrors, finish-Mirrors}
use bam.Poster.Aggregator.Entries.{
  tags_of, Distinct, IsEntry, select_pass-IsPass, fill_pass-IsFillPass, Distinct-append,
}

-- The error is the encoder's.
abbrev pub FromEncoder : TickError → Type 0
FromEncoder x = (e : SdkError) × (x ≡ encode_failed e)

err-injective : {A : Type 0} {x y : TickError} → Path (Result TickError A) (err x) (err y) → x ≡ y
err-injective h = cc

>>=-eq-err :
    {A B : Type 0} (r : Result TickError A) (f : A → Result TickError B) {x : TickError}
    → (r >>= f) ≡ err x
    → (r ≡ err x) ⊎ ((a : A) × (r ≡ ok a) × (f a ≡ err x))
>>=-eq-err (ok a) f h = inr (a, refl, h)
>>=-eq-err (err y) f h = inl (ap err (err-injective h))

entry_of-FromEncoder :
    (opts : AggregatorOptions) (pool : PoolView) (now : ℕ) (tag : Text)
    (picked : Option (List DecodedMessage)) (x : TickError)
    → entry_of opts pool now tag picked ≡ err x
    → FromEncoder x
unfolding entry_of make_entry
entry_of-FromEncoder opts pool now tag none x h = absurd cc
entry_of-FromEncoder opts pool now tag (some msgs) x h =
    elim (Result-cases (opts.encode (map to_bam_message msgs) (map (λ m. m.signature) msgs))) [
      | inl (encoded, eq) ↦ absurd (cc (rw (eq, make_entry) at h))
      | inr (e, eq) ↦ (e, sym (err-injective (rw (eq, make_entry) at h)))
    ]

select_pass-FromEncoder :
    (opts : AggregatorOptions) (pool : PoolView) (now : ℕ) (tags : List Text)
    (state : AggregatorState) (x : TickError)
    → (select_pass opts pool now tags state).1 ≡ err x
    → FromEncoder x
unfolding select_pass
select_pass-FromEncoder opts pool now [] state x h = absurd cc
select_pass-FromEncoder opts pool now (tag ∷ tags) state x h =
    let picked = picked_of pool tag (opts.policy.select tag pool opts.blob_capacity_bytes now) in
    let state' = update tag (λ s. record s { pending_count = length (pool tag) }) state in
    elim (Result-cases (entry_of opts pool now tag picked)) [
      | inl (here, eq) ↦
          elim (>>=-eq-err (select_pass opts pool now tags state').1 _
            (rw (eq, select_pass) at h)) [
              | inl later ↦ select_pass-FromEncoder opts pool now tags state' x later
              | inr (es, done, never) ↦ absurd cc
            ]
      | inr (y, eq) ↦
          entry_of-FromEncoder opts pool now tag picked x
            (eq ∙ ap err (err-injective (rw (eq, select_pass) at h)))
    ]

fill_pass-FromEncoder :
    (opts : AggregatorOptions) (pool : PoolView) (now : ℕ) (fired tags : List Text) (x : TickError)
    → fill_pass opts pool now fired tags ≡ err x
    → FromEncoder x
unfolding fill_pass
fill_pass-FromEncoder opts pool now fired [] x h = absurd cc
fill_pass-FromEncoder opts pool now fired (tag ∷ tags) x h =
    let filled = picked_of pool tag (opts.policy.fill tag pool opts.blob_capacity_bytes) in
    let candidate = if has_tag tag fired then none else filled in
    elim (>>=-eq-err (entry_of opts pool now tag candidate) _ h) [
      | inl failed ↦ entry_of-FromEncoder opts pool now tag candidate x failed
      | inr (here, done, h') ↦ elim (>>=-eq-err (fill_pass opts pool now fired tags) _ h') [
        | inl later ↦ fill_pass-FromEncoder opts pool now fired tags x later
        | inr (es, all, never) ↦ absurd cc
      ]
    ]

-- The entries of the two passes, from which a tick packs.
pub record IsPacking (opts : AggregatorOptions) (pool : PoolView) (now : ℕ)
    (state : AggregatorState) (fired passengers : List Entry) (state' : AggregatorState)
    : Type 0 where
  pub selected : select_pass opts pool now opts.tags state ≡ (state', ok fired)
  pub some_fired : is_empty fired ≡ false
  pub filled : fill_pass opts pool now (tags_of fired) opts.tags ≡ ok passengers
  pub result :
      tick opts pool now state ≡ finish opts now (tags_of fired) (fired ++ passengers) state'

pub IsPacking-entries :
    (opts : AggregatorOptions) (pool : PoolView) (now : ℕ) (state : AggregatorState)
    (fired passengers : List Entry) (state' : AggregatorState)
    → Distinct opts.tags
    → IsPacking opts pool now state fired passengers state'
    → All (IsEntry opts) (fired ++ passengers) × Distinct (tags_of (fired ++ passengers))
IsPacking-entries opts pool now state fired passengers state' d h =
    let first = select_pass-IsPass opts pool now opts.tags state fired (ap (λ r. r.1) h.selected) in
    let second = fill_pass-IsFillPass opts pool now (tags_of fired) opts.tags passengers h.filled in
    (
      All-append (IsEntry opts) fired passengers first.entries second.pass.entries,
      Distinct-append fired passengers (first.once d) (second.pass.once d) second.others,
    )

abbrev pub Outcome : AggregatorOptions → PoolView → ℕ → AggregatorState → Type 0
Outcome opts pool now state =
    ((e : SdkError) × ((tick opts pool now state).1 ≡ err (encode_failed e)))
    ⊎ ((tick opts pool now state).1 ≡ ok none)
    ⊎ ((fired : List Entry) × (passengers : List Entry) × (state' : AggregatorState) × IsPacking
          opts pool now state fired passengers state')

tick_filled :
    (opts : AggregatorOptions) (pool : PoolView) (now : ℕ) (state state' : AggregatorState)
    (fired : List Entry)
    → select_pass opts pool now opts.tags state ≡ (state', ok fired)
    → is_empty fired ≡ false
    → Outcome opts pool now state
unfolding tick
tick_filled opts pool now state state' fired selected some_fired =
    elim (Result-cases (fill_pass opts pool now (tags_of fired) opts.tags)) [
      | inl (passengers, filled) ↦ inr (
          inr (
            fired,
            passengers,
            state',
            record {
              selected = selected;
              some_fired = some_fired;
              filled = filled;
              result =
                  rw (selected, some_fired, filled, tick)
                    (ap (λ r. finish opts now (tags_of fired) (fired ++ passengers) r.0) selected);
            },
          ))
      | inr (x, failed) ↦
          let (e, eq) = fill_pass-FromEncoder opts pool now (tags_of fired) opts.tags x failed in
          inl (e, rw (selected, some_fired, failed, tick) (ap err eq))
    ]

pub tick-Outcome :
    (opts : AggregatorOptions) (pool : PoolView) (now : ℕ) (state : AggregatorState)
    → Outcome opts pool now state
unfolding tick
tick-Outcome opts pool now state =
    let state' = (select_pass opts pool now opts.tags state).0 in
    elim (Result-cases (select_pass opts pool now opts.tags state).1) [
      | inl (fired, eq) ↦
          let selected : select_pass opts pool now opts.tags state ≡ (state', ok fired) =
            ap (λ r. (state', r)) eq in
          elim (Bool-cases (is_empty fired)) [
            | inl nothing ↦ inr (inl (rw (selected, nothing, tick) refl))
            | inr some_fired ↦ tick_filled opts pool now state state' fired selected some_fired
          ]
      | inr (x, eq) ↦
          let selected : select_pass opts pool now opts.tags state ≡ (state', err x) =
            ap (λ r. (state', r)) eq in
          let (e, named) = select_pass-FromEncoder opts pool now opts.tags state x eq in
          inl (e, rw (selected, tick) (ap err named))
    ]

-- The pack of a tick that packs.
pub IsPacking-pack :
    (opts : AggregatorOptions) (pool : PoolView) (now : ℕ) (state : AggregatorState)
    (fired passengers : List Entry) (state' : AggregatorState)
    → Distinct opts.tags
    → IsPacking opts pool now state fired passengers state'
    → (pack : PackResult) × ((tick opts pool now state).1 ≡ ok (some pack))
      × (pack.plan ≡ pack_entries opts (fired ++ passengers))
      × Mirrors opts pack.included_selections pack.plan.included
IsPacking-pack opts pool now state fired passengers state' d h =
    let (entries, once) = IsPacking-entries opts pool now state fired passengers state' d h in
    let (pack, done, planned, mirrors) =
      finish-Mirrors opts now (tags_of fired) (fired ++ passengers) state' entries once in
    (pack, ap (λ r. r.1) h.result ∙ done, planned, mirrors)

-- Over distinct tags, a tick that throws throws an error of the encoder: the check that every
-- included tag was enriched never fails.
pub tick-FromEncoder :
    (opts : AggregatorOptions) (pool : PoolView) (now : ℕ) (state : AggregatorState) (x : TickError)
    → Distinct opts.tags
    → (tick opts pool now state).1 ≡ err x
    → FromEncoder x
tick-FromEncoder opts pool now state x d h = elim (tick-Outcome opts pool now state) [
  | inl (e, failed) ↦ (e, err-injective (sym h ∙ failed))
  | inr (inl nothing) ↦ absurd cc
  | inr (inr (fired, passengers, state', packing)) ↦
      let (pack, done, _, _) =
        IsPacking-pack opts pool now state fired passengers state' d packing in
      absurd cc
]

-- Over distinct tags, every segment of a pack is found in `includedSelections` under its tag, and
-- what is found has that tag, the segment's payload, and messages that the encoder turns into
-- that payload. The plan is that of the entries which the first pass over the tags made, at least
-- one, followed by those which the second pass made.
pub tick-Mirrors :
    (opts : AggregatorOptions) (pool : PoolView) (now : ℕ) (state : AggregatorState)
    (pack : PackResult)
    → Distinct opts.tags
    → (tick opts pool now state).1 ≡ ok (some pack)
    → Mirrors opts pack.included_selections pack.plan.included
      × ((fired : List Entry) × (passengers : List Entry) × ((select_pass opts pool now opts.tags
              state).1
            ≡ ok fired)
          × (is_empty fired ≡ false)
          × (fill_pass opts pool now (tags_of fired) opts.tags ≡ ok passengers)
          × (pack.plan ≡ pack_entries opts (fired ++ passengers)))
tick-Mirrors opts pool now state pack d h = elim (tick-Outcome opts pool now state) [
  | inl (e, failed) ↦ absurd cc
  | inr (inl nothing) ↦ absurd cc
  | inr (inr (fired, passengers, state', packing)) ↦
      let (pack', done, planned, mirrors) =
        IsPacking-pack opts pool now state fired passengers state' d packing in
      let same : pack' ≡ pack = cc in
      rw (← same) (
        mirrors,
        (
          fired,
          passengers,
          ap (λ r. r.1) packing.selected,
          packing.some_fired,
          packing.filled,
          planned,
        ),
      )
]
