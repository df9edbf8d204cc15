-- ===== src/Prelude/Sort.antt =====
-- `Array.prototype.sort` with a comparison function: the stable sort by "compares below", written
-- as insertion. A stable sort by a consistent comparison has one result, so the algorithm is free.
use mathlib.Core.Bool.{Bool, true, false}
use mathlib.Core.Logic.{inl, inr}
use mathlib.Core.Path.{◌≡◌, refl}
use bam.Prelude.Lists.{All}
use mathlib.Core.List.{List, [], ◌∷◌, ◌++◌, Perm}
use mathlib.Core.List.Perm
use bam.Prelude.Tests.{if◌then◌else◌, Bool-cases}

module _ {ℓ} {A : Type ℓ} (below : A → A → Bool) where
  unfoldable pub insert_sorted : A → List A → List A
  insert_sorted x [] = x ∷ []
  insert_sorted x (y ∷ ys) =
      let later = insert_sorted x ys in if below y x then y ∷ later else x ∷ y ∷ ys

  unfoldable pub sort_by : List A → List A
  unfolding insert_sorted
  sort_by [] = []
  sort_by (x ∷ xs) = insert_sorted x (sort_by xs)

  insert_sorted-perm : (x : A) (xs : List A) → Perm (insert_sorted x xs) (x ∷ xs)
  unfolding insert_sorted
  insert_sorted-perm x [] = Perm.refl (x ∷ [])
  insert_sorted-perm x (y ∷ ys) = elim (Bool-cases (below y x)) [
    | inl e ↦ rw e (Perm.trans (Perm.cons y (insert_sorted-perm x ys)) (Perm.swap x y ys))
    | inr e ↦ rw e (Perm.refl (x ∷ y ∷ ys))
  ]

  pub sort_by-perm : (xs : List A) → Perm (sort_by xs) xs
  unfolding sort_by
  sort_by-perm [] = Perm.refl []
  sort_by-perm (x ∷ xs) =
      Perm.trans (insert_sorted-perm x (sort_by xs)) (Perm.cons x (sort_by-perm xs))

  -- An element that comes before all others ends up first.
  insert_sorted-first :
      (s : A) (xs : List A) → All (λ t. below t s ≡ false) xs → insert_sorted s xs ≡ s ∷ xs
  unfolding insert_sorted
  insert_sorted-first s [] h = refl
  insert_sorted-first s (x ∷ xs) h = rw h.0

  All-insert_sorted {κ} :
      (P : A → Type κ) (x : A) (xs : List A) → P x → All P xs → All P (insert_sorted x xs)
  unfolding insert_sorted
  All-insert_sorted P x [] px h = (px, tt)
  All-insert_sorted P x (y ∷ ys) px h = elim (Bool-cases (below y x)) [
    | inl e ↦ rw e (h.0, All-insert_sorted P x ys px h.1)
    | inr e ↦ rw e (px, h)
  ]

  All-of_insert_sorted {κ} :
      (P : A → Type κ) (x : A) (xs : List A) → All P (insert_sorted x xs) → P x × All P xs
  unfolding insert_sorted
  All-of_insert_sorted P x [] h = h
  All-of_insert_sorted P x (y ∷ ys) h = elim (Bool-cases (below y x)) [
    | inl e ↦
        let h' = rw e at h in
        let (px, rest) = All-of_insert_sorted P x ys h'.1 in (px, (h'.0, rest))
    | inr e ↦ rw e at h
  ]

  pub All-sort_by {κ} : (P : A → Type κ) (xs : List A) → All P xs → All P (sort_by xs)
  unfolding sort_by
  All-sort_by P [] h = tt
  All-sort_by P (x ∷ xs) h = All-insert_sorted P x (sort_by xs) h.0 (All-sort_by P xs h.1)

  pub All-of_sort_by {κ} : (P : A → Type κ) (xs : List A) → All P (sort_by xs) → All P xs
  unfolding sort_by
  All-of_sort_by P [] h = tt
  All-of_sort_by P (x ∷ xs) h =
      let (px, rest) = All-of_insert_sorted P x (sort_by xs) h in (px, All-of_sort_by P xs rest)

  pub sort_by-first :
      (xs : List A) (s : A) (ys : List A)
      → All (λ t. below s t ≡ true) xs
      → All (λ t. below t s ≡ false) ys
      → (rest : List A) × (sort_by (xs ++ (s ∷ ys)) ≡ s ∷ rest)
  unfolding sort_by insert_sorted
  sort_by-first [] s ys h k =
      (sort_by ys, insert_sorted-first s (sort_by ys) (All-sort_by (λ t. below t s ≡ false) ys k))
  sort_by-first (x ∷ xs) s ys h k =
      let (rest, e) = sort_by-first xs s ys h.1 k in (insert_sorted x rest, rw e (rw h.0))
