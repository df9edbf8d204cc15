-- ===== src/Reader/LogScan/Complete.antt =====
-- What a scan of packages/bam-reader/src/discovery/log-scan.ts finds.
use bam.Prelude.{
  ℕ, zero, suc, ◌+◌, ◌-◌, ◌/◌, ◌≤◌, ◌<◌, ◌≡◌, refl, sym, ap, ◌∙◌, arith, true, false, List, [],
  ◌++◌, append_assoc, append-nil, min, Option, none, some, leb, ltb,
}
use bam.Prelude.{ok, err, Result-cases, Bool-cases, inl, inr}
use mathlib.Core.Path.{subst}
use bam.Prelude.Sort.{sort_by}
use bam.Reader.LogScan.{
  BlobBatchRegisteredEvent, ScanError, range_too_large, FetchRange, fetch_with_halving, scan_chunks,
  scan_unsorted, scan_logs, precedes, is_zero_chunk,
}

-- The events of `n` blocks from `first` on, in a chain that has `chain b` in block `b`.
unfoldable pub events_of :
    (ℕ → List BlobBatchRegisteredEvent) → ℕ → ℕ → List BlobBatchRegisteredEvent
events_of chain first zero = []
events_of chain first (suc n) = chain first ++ events_of chain (first + 1) n

-- What a provider promises: what it returns are the events of the range, and it refuses a range only
-- as too large and only if it has more than 64 blocks.
pub record IsHonest (chain : ℕ → List BlobBatchRegisteredEvent) (fetch : FetchRange) : Type 0 where
  pub exact :
      (first n : ℕ) (events : List BlobBatchRegisteredEvent)
      → fetch first (first + n) ≡ ok events
      → events ≡ events_of chain first (n + 1)
  pub only_large :
      (first n : ℕ) (e : ScanError)
      → fetch first (first + n) ≡ err e
      → (e ≡ range_too_large) × (64 ≤ n)

events_of_append :
    (chain : ℕ → List BlobBatchRegisteredEvent) (first n m : ℕ)
    → events_of chain first (n + m) ≡ events_of chain first n ++ events_of chain (first + n) m
unfolding events_of
events_of_append chain first zero m =
    let e : 0 + m ≡ m = omega arith in let e' : first + 0 ≡ first = omega arith in rw (e, e') refl
events_of_append chain first (suc n) m =
    let e : suc n + m ≡ suc (n + m) = omega arith in
    let e' : first + suc n ≡ first + 1 + n = omega arith in
    rw (e, e')
      (ap (λ t. chain first ++ t) (events_of_append chain (first + 1) n m)
        ∙ sym (
            append_assoc (chain first) (events_of chain (first + 1) n)
              (events_of chain (first + 1 + n) m)))

fetch_with_halving_lem :
    (chain : ℕ → List BlobBatchRegisteredEvent) (fetch : FetchRange) (fuel first n : ℕ)
    → IsHonest chain fetch
    → n < fuel
    → fetch_with_halving fuel fetch first (first + n) ≡ ok (events_of chain first (n + 1))
unfolding fetch_with_halving
fetch_with_halving_lem chain fetch zero first n honest h = absurd (omega arith)
fetch_with_halving_lem chain fetch (suc fuel) first n honest h =
    elim (Result-cases (fetch first (first + n))) [
      | inl (events, e) ↦ rw (e, fetch_with_halving) (ap ok (honest.exact first n events e))
      | inr (x, e) ↦
          let (large, wide) = honest.only_large first n x e in
          let k = (n + 1) / 2 in
          let span : first + n - first + 1 ≡ n + 1 = omega arith in
          let big : leb (n + 1) 64 ≡ false = ground arith in
          let mid : first + k - 1 ≡ first + (k - 1) = omega arith in
          let next : first + (k - 1) + 1 ≡ first + k = omega arith in
          let last : first + n ≡ first + k + (n - k) = omega arith in
          let left : fetch_with_halving fuel fetch first (first + (k - 1))
              ≡ ok (events_of chain first k) =
            fetch_with_halving_lem chain fetch fuel first (k - 1) honest (omega arith)
            ∙ ap (λ c. ok (events_of chain first c)) (omega arith) in
          let right : fetch_with_halving fuel fetch (first + k) (first + n)
              ≡ ok (events_of chain (first + k) (n - k + 1)) =
            subst
              (λ b.
                fetch_with_halving fuel fetch (first + k) b
                ≡ ok (events_of chain (first + k) (n - k + 1)))
              (sym last)
              (fetch_with_halving_lem chain fetch fuel (first + k) (n - k) honest (omega arith)) in
          let whole : events_of chain first k ++ events_of chain (first + k) (n - k + 1)
              ≡ events_of chain first (n + 1) =
            sym (events_of_append chain first k (n - k + 1))
            ∙ ap (events_of chain first) (omega arith) in
          rw (e, large, fetch_with_halving) (simp (span, big, mid, next, left, right, whole))
    ]

scan_chunks_past :
    (fetch : FetchRange) (fuel chunk first last : ℕ)
    → last < first
    → scan_chunks fuel fetch chunk first last ≡ ok []
unfolding scan_chunks
scan_chunks_past fetch zero chunk first last h = refl
scan_chunks_past fetch (suc fuel) chunk first last h =
    let past : ltb last first ≡ true = ground arith in simp past

scan_chunks_lem :
    (chain : ℕ → List BlobBatchRegisteredEvent) (fetch : FetchRange) (fuel chunk first n : ℕ)
    → IsHonest chain fetch
    → 1 ≤ chunk
    → n < fuel
    → scan_chunks fuel fetch chunk first (first + n) ≡ ok (events_of chain first (n + 1))
unfolding scan_chunks
scan_chunks_lem chain fetch zero chunk first n honest one h = absurd (omega arith)
scan_chunks_lem chain fetch (suc fuel) chunk first n honest one h =
    let some_blocks : ltb (first + n) first ≡ false = ground arith in
    elim (Bool-cases (leb chunk n)) [
      | inl more ↦
          let few : chunk ≤ n = ground arith in
          let last : min (first + chunk - 1) (first + n) ≡ first + (chunk - 1) = omega arith in
          let size : first + (chunk - 1) - first + 1 ≡ chunk = omega arith in
          let here : fetch_with_halving chunk fetch first (first + (chunk - 1))
              ≡ ok (events_of chain first chunk) =
            fetch_with_halving_lem chain fetch chunk first (chunk - 1) honest (omega arith)
            ∙ ap (λ c. ok (events_of chain first c)) (omega arith) in
          let to_block : first + n ≡ first + chunk + (n - chunk) = omega arith in
          let rest : scan_chunks fuel fetch chunk (first + chunk) (first + n)
              ≡ ok (events_of chain (first + chunk) (n - chunk + 1)) =
            subst
              (λ b.
                scan_chunks fuel fetch chunk (first + chunk) b
                ≡ ok (events_of chain (first + chunk) (n - chunk + 1)))
              (sym to_block)
              (scan_chunks_lem chain fetch fuel chunk (first + chunk) (n - chunk) honest one
                (omega arith)) in
          let whole : events_of chain first chunk ++ events_of chain (first + chunk) (n - chunk + 1)
              ≡ events_of chain first (n + 1) =
            sym (events_of_append chain first chunk (n - chunk + 1))
            ∙ ap (events_of chain first) (omega arith) in
          simp (some_blocks, last, size, here, rest, whole)
      | inr final ↦
          let many : n < chunk = ground arith in
          let last : min (first + chunk - 1) (first + n) ≡ first + n = omega arith in
          let size : first + n - first + 1 ≡ n + 1 = omega arith in
          let here = fetch_with_halving_lem chain fetch (n + 1) first n honest (omega arith) in
          let rest = scan_chunks_past fetch fuel chunk (first + chunk) (first + n) (omega arith) in
          simp (some_blocks, last, size, here, rest, append-nil (events_of chain first (n + 1)))
    ]

-- From an honest provider, a scan returns every event of the range, once, in the order by block and
-- log, whether it is paged or not and whatever the chunk size.
pub scan_logs_complete :
    (chain : ℕ → List BlobBatchRegisteredEvent) (fetch : FetchRange) (chunk_size : Option ℕ)
    (first n : ℕ)
    → IsHonest chain fetch
    → is_zero_chunk chunk_size ≡ false
    → scan_logs fetch chunk_size first (first + n)
      ≡ ok (sort_by precedes (events_of chain first (n + 1)))
unfolding scan_logs scan_unsorted is_zero_chunk
scan_logs_complete chain fetch none first n honest h =
    let some_blocks : ltb (first + n) first ≡ false = ground arith in
    let span : first + n - first + 1 ≡ n + 1 = omega arith in
    simp
      (some_blocks, span, fetch_with_halving_lem chain fetch (n + 1) first n honest (omega arith))
scan_logs_complete chain fetch (some chunk) first n honest h =
    let some_blocks : ltb (first + n) first ≡ false = ground arith in
    let span : first + n - first + 1 ≡ n + 1 = omega arith in
    let whole = fetch_with_halving_lem chain fetch (n + 1) first n honest (omega arith) in
    let paged =
      scan_chunks_lem chain fetch (n + 1) chunk first n honest (ground arith) (omega arith) in
    elim (Bool-cases (leb (n + 1) chunk)) [
      | inl fits ↦ simp (h, some_blocks, span, fits, whole)
      | inr large ↦ simp (h, some_blocks, span, large, paged)
    ]
