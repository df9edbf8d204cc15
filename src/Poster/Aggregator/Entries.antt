-- ===== src/Poster/Aggregator/Entries.antt =====
-- The entries of the two passes of packages/bam-poster/src/submission/aggregator.ts.
use bam.Prelude.{ℕ, ◌≡◌, refl, sym, arith, false, List, [], ◌∷◌, ◌++◌, map, Option, none, some}
use bam.Prelude.{Text, ◌===◌, ===_sym_false, length, ok, >>=-eq-ok, ok-injective, All}
use bam.Prelude.{Result-cases, Bool-cases, inl, inr, ◌⊎◌, if◌then◌else◌}
use mathlib.Core.List.{map-append}
use bam.Poster.Types.{DecodedMessage, PoolView, to_bam_message}
use bam.Poster.Aggregator.{
  AggregatorOptions, AggregatorState, Entry, make_entry, entry_of, select_pass, fill_pass,
  picked_of, has_tag, update,
}

abbrev pub tags_of : List Entry → List Text
tags_of = map (λ e. e.selection.content_tag)

-- No tag stands twice in the list.
abbrev pub Distinct : List Text → Type 0
Distinct [] = Unit
Distinct (t ∷ ts) = (has_tag t ts ≡ false) × Distinct ts

-- The two halves of an entry agree, and its payload encodes its messages.
pub record IsEntry (opts : AggregatorOptions) (e : Entry) : Type 0 where
  pub same_tag : e.enriched.content_tag ≡ e.selection.content_tag
  pub same_payload : e.enriched.payload_bytes ≡ e.selection.payload_bytes
  pub encoded :
      opts.encode
        (map to_bam_message e.enriched.messages)
        (map (λ m. m.signature) e.enriched.messages)
      ≡ ok e.enriched.payload_bytes

make_entry-IsEntry :
    (opts : AggregatorOptions) (pool : PoolView) (now : ℕ) (tag : Text) (msgs : List DecodedMessage)
    (e : Entry)
    → make_entry opts pool now tag msgs ≡ ok e
    → IsEntry opts e × (e.selection.content_tag ≡ tag)
unfolding make_entry
make_entry-IsEntry opts pool now tag msgs e h =
    elim (Result-cases (opts.encode (map to_bam_message msgs) (map (λ m. m.signature) msgs))) [
      | inl (encoded, eq) ↦
          let shape = ok-injective (rw (eq, make_entry) at h) in
          rw (← shape) (record { same_tag = refl; same_payload = refl; encoded = eq }, refl)
      | inr (x, eq) ↦ cc (rw (eq, make_entry) at h)
    ]

pub entry_of-shape :
    (opts : AggregatorOptions) (pool : PoolView) (now : ℕ) (tag : Text)
    (picked : Option (List DecodedMessage)) (es : List Entry)
    → entry_of opts pool now tag picked ≡ ok es
    → (es ≡ []) ⊎ ((e : Entry) × (es ≡ e ∷ []) × IsEntry opts e × (e.selection.content_tag ≡ tag))
unfolding entry_of
entry_of-shape opts pool now tag none es h = inl (sym (ok-injective h))
entry_of-shape opts pool now tag (some msgs) es h =
    let (e, made, one) = >>=-eq-ok (make_entry opts pool now tag msgs) _ h in
    let (is_entry, named) = make_entry-IsEntry opts pool now tag msgs e made in
    inr (e, sym (ok-injective one), is_entry, named)

has_tag-append :
    (t : Text) (xs ys : List Text)
    → has_tag t xs ≡ false
    → has_tag t ys ≡ false
    → has_tag t (xs ++ ys) ≡ false
unfolding has_tag
has_tag-append t [] ys h k = k
has_tag-append t (x ∷ xs) ys h k = ground (arith, has_tag-append t xs ys)

has_tag_cons :
    (t x : Text) (xs : List Text)
    → has_tag t (x ∷ xs) ≡ false
    → ((x === t) ≡ false) × (has_tag t xs ≡ false)
unfolding has_tag
has_tag_cons t x xs h = ground arith

cons_has_tag :
    (t x : Text) (xs : List Text)
    → (x === t) ≡ false
    → has_tag t xs ≡ false
    → has_tag t (x ∷ xs) ≡ false
unfolding has_tag
cons_has_tag t x xs h k = ground arith

-- What a pass over `tags` yields: entries for some of the tags, each at most once if the tags are
-- distinct.
pub record IsPass (opts : AggregatorOptions) (tags : List Text) (es : List Entry) : Type 0 where
  pub entries : All (IsEntry opts) es
  pub within : (t : Text) → has_tag t tags ≡ false → has_tag t (tags_of es) ≡ false
  pub once : Distinct tags → Distinct (tags_of es)

IsPass-cons :
    (opts : AggregatorOptions) (tag : Text) (tags : List Text) (here es : List Entry)
    → (here ≡ [])
      ⊎ ((e : Entry) × (here ≡ e ∷ []) × IsEntry opts e × (e.selection.content_tag ≡ tag))
    → IsPass opts tags es
    → IsPass opts (tag ∷ tags) (here ++ es)
IsPass-cons opts tag tags here es (inl none_here) p = rw none_here (record {
  entries = p.entries;
  within = λ t h. p.within t (has_tag_cons t tag tags h).1;
  once = λ d. p.once d.1;
})
IsPass-cons opts tag tags here es (inr (e, one, is_entry, named)) p = rw one (record {
  entries = (is_entry, p.entries);
  within = λ t h.
      let (other, rest) = has_tag_cons t tag tags h in
      rw named (cons_has_tag t tag (tags_of es) other (p.within t rest));
  once = λ d. (rw named (p.within tag d.0), p.once d.1);
})

pub select_pass-IsPass :
    (opts : AggregatorOptions) (pool : PoolView) (now : ℕ) (tags : List Text)
    (state : AggregatorState) (es : List Entry)
    → (select_pass opts pool now tags state).1 ≡ ok es
    → IsPass opts tags es
unfolding select_pass
select_pass-IsPass opts pool now [] state es h =
    rw (← ok-injective h) (record { entries = tt; within = λ t k. k; once = λ d. d })
select_pass-IsPass opts pool now (tag ∷ tags) state es h =
    let picked = picked_of pool tag (opts.policy.select tag pool opts.blob_capacity_bytes now) in
    let state' = update tag (λ s. record s { pending_count = length (pool tag) }) state in
    elim (Result-cases (entry_of opts pool now tag picked)) [
      | inl (here, eq) ↦
          let h' = rw (eq, select_pass) at h in
          let (rest, more, whole) = >>=-eq-ok (select_pass opts pool now tags state').1 _ h' in
          rw (← ok-injective whole) (
            IsPass-cons opts tag tags here rest (entry_of-shape opts pool now tag picked here eq)
              (select_pass-IsPass opts pool now tags state' rest more))
      | inr (x, eq) ↦ cc (rw (eq, select_pass) at h)
    ]

-- An entry that a pass adds for a tag that fired would contradict its test.
passenger :
    (opts : AggregatorOptions) (pool : PoolView) (now : ℕ) (fired : List Text) (tag : Text)
    (filled : Option (List DecodedMessage)) (here es : List Entry)
    → entry_of opts pool now tag (if has_tag tag fired then none else filled) ≡ ok here
    → (here ≡ [])
      ⊎ ((e : Entry) × (here ≡ e ∷ []) × IsEntry opts e × (e.selection.content_tag ≡ tag))
    → All (λ (e : Entry). has_tag e.selection.content_tag fired ≡ false) es
    → All (λ (e : Entry). has_tag e.selection.content_tag fired ≡ false) (here ++ es)
unfolding entry_of
passenger opts pool now fired tag filled here es eq (inl none_here) h = rw none_here h
passenger opts pool now fired tag filled here es eq (inr (e, one, is_entry, named)) h =
    elim (Bool-cases (has_tag tag fired)) [
      | inl has ↦ absurd (cc (rw (has, entry_of) at eq, one))
      | inr not_fired ↦ rw one (rw named not_fired, h)
    ]

-- The passengers, moreover, are no tags that fired.
pub record IsFillPass (opts : AggregatorOptions) (fired tags : List Text) (es : List Entry)
    : Type 0 where
  pub pass : IsPass opts tags es
  pub others : All (λ e. has_tag e.selection.content_tag fired ≡ false) es

pub fill_pass-IsFillPass :
    (opts : AggregatorOptions) (pool : PoolView) (now : ℕ) (fired tags : List Text)
    (es : List Entry)
    → fill_pass opts pool now fired tags ≡ ok es
    → IsFillPass opts fired tags es
unfolding fill_pass
fill_pass-IsFillPass opts pool now fired [] es h =
    rw (← ok-injective h)
      (record { pass = record { entries = tt; within = λ t k. k; once = λ d. d }; others = tt })
fill_pass-IsFillPass opts pool now fired (tag ∷ tags) es h =
    let filled = picked_of pool tag (opts.policy.fill tag pool opts.blob_capacity_bytes) in
    let candidate = if has_tag tag fired then none else filled in
    let (here, eq, h') = >>=-eq-ok (entry_of opts pool now tag candidate) _ h in
    let (rest, more, whole) = >>=-eq-ok (fill_pass opts pool now fired tags) _ h' in
    let shape = entry_of-shape opts pool now tag candidate here eq in
    let next = fill_pass-IsFillPass opts pool now fired tags rest more in
    rw (← ok-injective whole) (record {
      pass = IsPass-cons opts tag tags here rest shape next.pass;
      others = passenger opts pool now fired tag filled here rest eq shape next.others;
    })

-- The other way round: no tag of `ys` is the tag `x`.
no_clash :
    (x : Text) (xs : List Text) (ys : List Entry)
    → All (λ (e : Entry). has_tag e.selection.content_tag (x ∷ xs) ≡ false) ys
    → (has_tag x (tags_of ys) ≡ false)
      × All (λ (e : Entry). has_tag e.selection.content_tag xs ≡ false) ys
no_clash x xs [] h = (unfold has_tag in refl, tt)
no_clash x xs (y ∷ ys) h =
    let (ne, rest) = has_tag_cons y.selection.content_tag x xs h.0 in
    let (clear, others) = no_clash x xs ys h.1 in
    (
      cons_has_tag x y.selection.content_tag (tags_of ys) (===_sym_false _ _ ne) clear,
      (rest, others),
    )

pub Distinct-append :
    (xs ys : List Entry)
    → Distinct (tags_of xs)
    → Distinct (tags_of ys)
    → All (λ (e : Entry). has_tag e.selection.content_tag (tags_of xs) ≡ false) ys
    → Distinct (tags_of (xs ++ ys))
Distinct-append [] ys dx dy h = dy
Distinct-append (x ∷ xs) ys dx dy h =
    let (clear, others) = no_clash x.selection.content_tag (tags_of xs) ys h in
    let first : has_tag x.selection.content_tag (tags_of xs ++ tags_of ys) ≡ false =
      has_tag-append x.selection.content_tag (tags_of xs) (tags_of ys) dx.0 clear in
    (
      rw (map-append (λ (e : Entry). e.selection.content_tag) xs ys) first,
      Distinct-append xs ys dx.1 dy others,
    )
