-- ===== src/Store/Keys.antt =====
-- The primary key of `messages` in packages/bam-store/src/postgres.ts.
use bam.Prelude.{
  ℕ, ◌≡◌, refl, arith, List, [], ◌∷◌, map, none, some, true, All, All-imp, ===_refl, ===_iff,
}
use bam.Prelude.{Text, Bool-cases, inl, inr}
use bam.Store.{MessageRow, has_key, find_row, delete_rows, reorg_message, PendingKey, submit_row}

pub has_key-same :
    (s : Text) (n : ℕ) (m : MessageRow) → has_key s n m ≡ true → (m.sender ≡ s) × (m.nonce ≡ n)
unfolding has_key
has_key-same s n m h = ((===_iff m.sender s).0 (ground arith), ground arith)

-- No two rows have the same key.
abbrev pub IsUnique : List MessageRow → Type 0
IsUnique [] = Unit
IsUnique (m ∷ ms) = (find_row m.sender m.nonce ms ≡ none) × IsUnique ms

pub find_row-delete_rows :
    (sender : Text) (nonce : ℕ) (ms : List MessageRow)
    → find_row sender nonce (delete_rows sender nonce ms) ≡ none
unfolding find_row delete_rows
find_row-delete_rows sender nonce [] = refl
find_row-delete_rows sender nonce (m ∷ ms) = ground (arith, find_row-delete_rows sender nonce ms)

pub delete_rows_keeps :
    (s t : Text) (n k : ℕ) (ms : List MessageRow)
    → find_row t k ms ≡ none
    → find_row t k (delete_rows s n ms) ≡ none
unfolding find_row delete_rows
delete_rows_keeps s t n k [] h = refl
delete_rows_keeps s t n k (m ∷ ms) h = ground (arith, delete_rows_keeps s t n k ms)

pub delete_rows-IsUnique :
    (s : Text) (n : ℕ) (ms : List MessageRow) → IsUnique ms → IsUnique (delete_rows s n ms)
unfolding delete_rows
delete_rows-IsUnique s n [] u = tt
delete_rows-IsUnique s n (m ∷ ms) u = elim (Bool-cases (has_key s n m)) [
  | inl gone ↦ rw gone (delete_rows-IsUnique s n ms u.1)
  | inr kept ↦
      rw kept (delete_rows_keeps s m.sender n m.nonce ms u.0, delete_rows-IsUnique s n ms u.1)
]

-- The function changes no key.
abbrev pub KeepsKeys : (MessageRow → MessageRow) → Type 0
KeepsKeys f = (m : MessageRow) → ((f m).sender ≡ m.sender) × ((f m).nonce ≡ m.nonce)

map_keeps :
    (f : MessageRow → MessageRow) (same : KeepsKeys f) (s : Text) (n : ℕ) (ms : List MessageRow)
    → find_row s n ms ≡ none
    → find_row s n (map f ms) ≡ none
unfolding find_row has_key
map_keeps f same s n [] e = refl
map_keeps f same s n (m ∷ ms) e = ground (arith, same m, map_keeps f same s n ms)

pub map-IsUnique :
    (f : MessageRow → MessageRow) (same : KeepsKeys f) (ms : List MessageRow)
    → IsUnique ms
    → IsUnique (map f ms)
map-IsUnique f same [] u = tt
map-IsUnique f same (m ∷ ms) u =
    let (same_sender, same_nonce) = same m in
    (
      rw (same_sender, same_nonce) (map_keeps f same m.sender m.nonce ms u.0),
      map-IsUnique f same ms u.1,
    )

pub reorg_message-KeepsKeys : (c : ℕ) (h : Text) → KeepsKeys (reorg_message c h)
unfolding reorg_message
reorg_message-KeepsKeys c h m = (ground arith, ground arith)

pub submit_row-KeepsKeys : (keys : List PendingKey) (ref : Text) → KeepsKeys (submit_row keys ref)
unfolding submit_row
submit_row-KeepsKeys keys ref m = (ground arith, ground arith)

-- In a table without duplicate keys, the key of every row finds the row.
pub IsUnique-finds :
    (ms : List MessageRow)
    → IsUnique ms
    → All (λ (m : MessageRow). find_row m.sender m.nonce ms ≡ some m) ms
unfolding find_row has_key
IsUnique-finds [] u = tt
IsUnique-finds (m ∷ ms) u = (
  ground (arith, ===_refl m.sender),
  All-imp _ _ ms
      (λ x found. elim (Bool-cases (has_key x.sender x.nonce m)) [
        | inl here ↦
            let (same_sender, same_nonce) = has_key-same x.sender x.nonce m here in
            absurd (cc (rw (same_sender, same_nonce) at u.0, found))
        | inr other ↦ rw other found
      ])
      (IsUnique-finds ms u.1),
)
