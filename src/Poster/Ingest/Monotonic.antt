-- ===== src/Poster/Ingest/Monotonic.antt =====
-- The check of packages/bam-poster/src/ingest/monotonicity.ts against the tracker and the messages.
use bam.Prelude.{
  ℕ, ◌<◌, ◌≡◌, true, ◌⊎◌, sym, ap, ◌∙◌, arith, Bool, false, not, ◌&&◌, List, [], ◌∷◌, Option, none,
  some, leb, ltb,
}
use bam.Prelude.{
  Text, ◌===◌, ===_iff, to_lower_case, ok, >>=-eq-ok, ok-injective, Bool-cases, Option-cases, inl,
  inr, All,
}
use bam.Prelude.TextMap.{insert}
use mathlib.Core.Path.{subst}
use bam.Store.{
  Db, MessageRow, NonceTrackerRow, get_nonce, set_nonce, get_max_non_reorged_nonce, is_reorged,
  max_row, newer, encode_nonce,
}
use bam.Poster.Ingest.{MonotonicityOutcome, accept, no_op, compare_nonce, check_monotonicity}

-- A row that holds its nonce: it is the sender's, and is not reorged.
unfoldable pub occupies : Text → MessageRow → Bool
unfolding is_reorged ◌===◌
occupies sender m = (m.sender === sender) && not (is_reorged m.status)

-- The nonce is above all that the sender has: above the tracker's, or if the tracker has no row,
-- above those of the sender's messages that are not reorged.
abbrev pub Above : ℕ → Text → Option NonceTrackerRow → List MessageRow → Type 0
Above nonce sender (some row) ms = row.last_nonce < nonce
Above nonce sender none ms = All (λ m. (occupies sender m && leb nonce m.nonce) ≡ false) ms

some-injective : {A : Type 0} {a b : A} → Path (Option A) (some a) (some b) → a ≡ b
some-injective h = cc

max_row-none :
    (sender : Text) (nonce : ℕ) (ms : List MessageRow)
    → max_row sender ms ≡ none
    → All (λ m. (occupies sender m && leb nonce m.nonce) ≡ false) ms
unfolding max_row occupies newer
max_row-none sender nonce [] h = tt
max_row-none sender nonce (m ∷ ms) h =
    elim (Bool-cases ((m.sender === sender) && not (is_reorged m.status))) [
      | inl held ↦ elim (Option-cases (max_row sender ms)) [
        | inl e ↦ absurd (cc (rw (held, e, newer) at h))
        | inr (r, e) ↦ absurd (ground arith)
      ]
      | inr free ↦ (ground arith, max_row-none sender nonce ms (rw free at h))
    ]

max_row_bound :
    (sender : Text) (nonce : ℕ) (ms : List MessageRow) (r : MessageRow)
    → max_row sender ms ≡ some r
    → r.nonce < nonce
    → All (λ m. (occupies sender m && leb nonce m.nonce) ≡ false) ms
unfolding max_row occupies newer
max_row_bound sender nonce [] r h lt = tt
max_row_bound sender nonce (m ∷ ms) r h lt =
    elim (Bool-cases ((m.sender === sender) && not (is_reorged m.status))) [
      | inr free ↦ (ground arith, max_row_bound sender nonce ms r (rw free at h) lt)
      | inl held ↦ elim (Option-cases (max_row sender ms)) [
        | inl e ↦
            let same : some m ≡ some r = rw (held, e, newer) at h in
            let small : m.nonce < nonce = rw (some-injective same) lt in
            (ground arith, max_row-none sender nonce ms e)
        | inr (q, e) ↦ elim (Bool-cases (ltb m.nonce q.nonce)) [
          | inl below ↦
              let same : some q ≡ some r = rw (held, e, newer, below) at h in
              let small : q.nonce < nonce = rw (some-injective same) lt in
              (ground arith, max_row_bound sender nonce ms q e small)
          | inr above ↦
              let same : some m ≡ some r = rw (held, e, newer, above) at h in
              let small : m.nonce < nonce = rw (some-injective same) lt in
              (ground arith, max_row_bound sender nonce ms q e (ground arith))
        ]
      ]
    ]

pub compare_nonce-accept :
    (nonce : ℕ) (h : Text) (row : NonceTrackerRow)
    → compare_nonce nonce h row ≡ accept
    → row.last_nonce < nonce
unfolding compare_nonce
compare_nonce-accept nonce h row e = ground arith

pub set_nonce_same :
    (row : NonceTrackerRow) (a b : Db)
    → set_nonce row a ≡ ok b
    → (b.messages ≡ a.messages)
      × (b.nonces
          ≡ insert
              (to_lower_case row.sender)
              (record row { sender = to_lower_case row.sender })
              a.nonces)
unfolding set_nonce
set_nonce_same row a b e =
    let (_, _, e') = >>=-eq-ok (encode_nonce row.last_nonce) _ e in
    let same = sym (ok-injective e') in
    (ap (λ (d : Db). d.messages) same, ap (λ (d : Db). d.nonces) same)

-- What the check leaves of the store, and what it accepts.
pub check_monotonicity_lem :
    (sender : Text) (nonce : ℕ) (h : Text) (a b : Db) (mono : MonotonicityOutcome)
    → check_monotonicity sender nonce h a ≡ ok (b, mono)
    → (b.messages ≡ a.messages)
      × ((mono ≡ accept) → Above nonce (to_lower_case sender) (get_nonce sender a) a.messages)
unfolding check_monotonicity get_max_non_reorged_nonce
check_monotonicity_lem sender nonce h a b mono e = elim (Option-cases (get_nonce sender a)) [
  | inr (row, tracked) ↦
      let e' = ok-injective (rw (tracked, check_monotonicity) at e) in
      (
        ap (λ r. r.0.messages) (sym e'),
        λ acc. rw tracked (compare_nonce-accept nonce h row (ap (λ r. r.1) e' ∙ acc)),
      )
  | inl untracked ↦ elim (Option-cases (max_row (to_lower_case sender) a.messages)) [
    | inl empty ↦
        let e' =
          ok-injective
            (rw (untracked, empty, check_monotonicity, get_max_non_reorged_nonce) at e) in
        (
          ap (λ r. r.0.messages) (sym e'),
          λ acc. rw untracked (max_row-none (to_lower_case sender) nonce a.messages empty),
        )
    | inr (r, top) ↦
        let seed : NonceTrackerRow = record {
          sender = to_lower_case sender;
          last_nonce = r.nonce;
          last_message_hash = r.message_hash;
        } in
        let (seeded, stored, e1) =
          >>=-eq-ok (set_nonce seed a) _
            (rw (untracked, top, check_monotonicity, get_max_non_reorged_nonce) at e) in
        let e' = ok-injective e1 in
        (
          ap (λ r. r.0.messages) (sym e') ∙ (set_nonce_same seed a seeded stored).0,
          λ acc. rw untracked (
              max_row_bound (to_lower_case sender) nonce a.messages r top
                (compare_nonce-accept nonce h seed (ap (λ r. r.1) e' ∙ acc))),
        )
  ]
]

compare_nonce-no_op :
    (nonce : ℕ) (h g : Text) (row : NonceTrackerRow)
    → compare_nonce nonce h row ≡ no_op g
    → (row.last_nonce ≡ nonce) × (row.last_message_hash ≡ g) × (to_lower_case h ≡ to_lower_case g)
unfolding compare_nonce
compare_nonce-no_op nonce h g row e =
    elim (Bool-cases (to_lower_case h === to_lower_case row.last_message_hash)) [
      | inl same ↦
          let eq = (===_iff (to_lower_case h) (to_lower_case row.last_message_hash)).0 same in
          let held : row.last_message_hash ≡ g = ground arith in
          (ground arith, held, rw (← held) eq)
      | inr differ ↦ absurd (ground arith)
    ]

-- One of the messages is the sender's, not reorged, and has the nonce and the hash.
unfoldable pub Holds : Text → ℕ → Text → List MessageRow → Type 0
unfolding occupies
Holds sender nonce g [] = ⊥
Holds sender nonce g (m ∷ ms) =
    ((occupies sender m ≡ true) × (m.nonce ≡ nonce) × (m.message_hash ≡ g))
    ⊎ Holds sender nonce g ms

max_row-Holds :
    (sender : Text) (ms : List MessageRow) (r : MessageRow)
    → max_row sender ms ≡ some r
    → Holds sender r.nonce r.message_hash ms
unfolding max_row Holds newer occupies
max_row-Holds sender [] r h = absurd cc
max_row-Holds sender (m ∷ ms) r h =
    elim (Bool-cases ((m.sender === sender) && not (is_reorged m.status))) [
      | inr free ↦ inr (max_row-Holds sender ms r (rw free at h))
      | inl held ↦ elim (Option-cases (max_row sender ms)) [
        | inl e ↦
            let same = some-injective (rw (held, e, newer) at h) in
            inl (
              held,
              ap (λ (x : MessageRow). x.nonce) same,
              ap (λ (x : MessageRow). x.message_hash) same,
            )
        | inr (q, e) ↦ elim (Bool-cases (ltb m.nonce q.nonce)) [
          | inl below ↦
              let same = some-injective (rw (held, e, newer, below) at h) in
              inr (
                subst (λ (x : MessageRow). Holds sender x.nonce x.message_hash ms) same
                  (max_row-Holds sender ms q e))
          | inr above ↦
              let same = some-injective (rw (held, e, newer, above) at h) in
              inl (
                held,
                ap (λ (x : MessageRow). x.nonce) same,
                ap (λ (x : MessageRow). x.message_hash) same,
              )
        ]
      ]
    ]

-- The store has the message already: its tracker row names the nonce and the hash, or there is no
-- tracker row and a message of the sender that is not reorged has them.
abbrev pub IsKnown : Text → ℕ → Text → Db → Type 0
IsKnown sender nonce g a =
    ((row : NonceTrackerRow) × (get_nonce sender a ≡ some row)
      × (row.last_nonce ≡ nonce)
      × (row.last_message_hash ≡ g))
    ⊎ ((get_nonce sender a ≡ none) × Holds (to_lower_case sender) nonce g a.messages)

pub check_monotonicity-no_op :
    (sender : Text) (nonce : ℕ) (h g : Text) (a b : Db)
    → check_monotonicity sender nonce h a ≡ ok (b, no_op g)
    → IsKnown sender nonce g a × (to_lower_case h ≡ to_lower_case g)
unfolding check_monotonicity get_max_non_reorged_nonce
check_monotonicity-no_op sender nonce h g a b e = elim (Option-cases (get_nonce sender a)) [
  | inr (row, tracked) ↦
      let (at, held, same) =
        compare_nonce-no_op nonce h g row
          (ap (λ r. r.1) (ok-injective (rw (tracked, check_monotonicity) at e))) in
      (inl (row, tracked, at, held), same)
  | inl untracked ↦ elim (Option-cases (max_row (to_lower_case sender) a.messages)) [
    | inl empty ↦
        absurd (cc (rw (untracked, empty, check_monotonicity, get_max_non_reorged_nonce) at e))
    | inr (r, top) ↦
        let seed : NonceTrackerRow = record {
          sender = to_lower_case sender;
          last_nonce = r.nonce;
          last_message_hash = r.message_hash;
        } in
        let (_, _, e1) =
          >>=-eq-ok (set_nonce seed a) _
            (rw (untracked, top, check_monotonicity, get_max_non_reorged_nonce) at e) in
        let (at, held, same) =
          compare_nonce-no_op nonce h g seed (ap (λ r. r.1) (ok-injective e1)) in
        (
          inr (
            untracked,
            rw (← at, ← held) (max_row-Holds (to_lower_case sender) a.messages r top),
          ),
          same,
        )
  ]
]
