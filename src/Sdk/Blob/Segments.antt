-- ===== src/Sdk/Blob/Segments.antt =====
-- When `assembleMultiSegmentBlob` succeeds, and `extractSegmentBytes` on its blob.
use bam.Prelude.{ℕ, zero, suc, ◌+◌, ◌-◌, ◌*◌, ◌≤◌, ◌<◌, ◌≡◌, refl, ◌∙◌, arith, List, [], ◌∷◌}
use bam.Prelude.{◌++◌, false, Bytes, length, replicate, leb, ltb, ◌==◌, if◌then◌else◌}
use bam.Prelude.{ok, err, Bool-cases, inl, inr, >>=-eq-ok}
use bam.Sdk.Errors.{inverted_range}
use bam.Sdk.Blob.{
  Blob, zero_blob, blob_set, MultiSegmentInput, AssembledSegment, fe_count, copy_segment,
  assemble_from, assemble_multi_segment_blob, read_fes, extract_segment_bytes, bytes_per_blob,
}
use bam.Sdk.Blob.Copy.{
  pad_to, pad_to_lem, copy_segment-outside, copy_segment-padding, read_fes-ext,
  read_fes-copy_segment,
}

-- The field elements of a segment, and of all.
abbrev pub fes_of : MultiSegmentInput → ℕ
fes_of s = fe_count (length s.payload)

unfoldable pub total_fes : List MultiSegmentInput → ℕ
total_fes [] = 0
total_fes (s ∷ ss) = fes_of s + total_fes ss

-- The ranges one after the other, from `cursor` on.
unfoldable pub lay_out : ℕ → List MultiSegmentInput → List AssembledSegment
lay_out cursor [] = []
lay_out cursor (s ∷ ss) =
    record { content_tag = s.content_tag; start_fe = cursor; end_fe = cursor + fes_of s }
    ∷ lay_out (cursor + fes_of s) ss

copy_all : ℕ → List MultiSegmentInput → Blob → Blob
copy_all cursor [] b = b
copy_all cursor (s ∷ ss) b =
    copy_all (cursor + fes_of s) ss (copy_segment (fes_of s) cursor s.payload b)

assemble_from-fits :
    (cursor : ℕ) (ss : List MultiSegmentInput) (b : Blob)
    → cursor + total_fes ss ≤ 4096
    → assemble_from cursor ss b ≡ ok (copy_all cursor ss b, lay_out cursor ss)
unfolding assemble_from total_fes copy_all lay_out
assemble_from-fits cursor [] b h = refl
assemble_from-fits cursor (s ∷ ss) b h =
    let b' = copy_segment (fes_of s) cursor s.payload b in
    let below : ltb 4096 (cursor + fes_of s) ≡ false = ground arith in
    simp (below, assemble_from-fits (cursor + fes_of s) ss b' (omega arith))

assemble_from-le :
    (cursor : ℕ) (ss : List MultiSegmentInput) (b : Blob) (r : Blob × List AssembledSegment)
    → cursor ≤ 4096
    → assemble_from cursor ss b ≡ ok r
    → cursor + total_fes ss ≤ 4096
unfolding assemble_from total_fes
assemble_from-le cursor [] b r hc h = omega arith
assemble_from-le cursor (s ∷ ss) b r hc h = elim (Bool-cases (ltb 4096 (cursor + fes_of s))) [
  | inl above ↦ absurd (ground arith)
  | inr below ↦
      let b' = copy_segment (fes_of s) cursor s.payload b in
      let h' = rw below at h in
      let (r', e, _) = >>=-eq-ok (assemble_from (cursor + fes_of s) ss b') _ h' in
      let rest = assemble_from-le (cursor + fes_of s) ss b' r' (ground arith) e in omega arith
]

copy_all-outside :
    (cursor : ℕ) (ss : List MultiSegmentInput) (b : Blob) (i : ℕ)
    → i < cursor * 32 + 1
    → (copy_all cursor ss b).at i ≡ b.at i
unfolding copy_all
copy_all-outside cursor [] b i h = refl
copy_all-outside cursor (s ∷ ss) b i h =
    copy_all-outside (cursor + fes_of s) ss (copy_segment (fes_of s) cursor s.payload b) i
      (omega arith)
    ∙ copy_segment-outside (fes_of s) cursor s.payload b i (inl h)

copy_all-padding :
    (cursor : ℕ) (ss : List MultiSegmentInput) (b : Blob) (k : ℕ)
    → b.at (k * 32) ≡ 0
    → (copy_all cursor ss b).at (k * 32) ≡ 0
unfolding copy_all
copy_all-padding cursor [] b k h = h
copy_all-padding cursor (s ∷ ss) b k h =
    copy_all-padding (cursor + fes_of s) ss (copy_segment (fes_of s) cursor s.payload b) k
      (copy_segment-padding (fes_of s) cursor s.payload b k h)

copy_segment-size : (n fe : ℕ) (bs : Bytes) (b : Blob) → (copy_segment n fe bs b).size ≡ b.size
unfolding copy_segment blob_set
copy_segment-size zero fe bs b = refl
copy_segment-size (suc n) fe bs b = copy_segment-size n (fe + 1) _ _

copy_all-size :
    (cursor : ℕ) (ss : List MultiSegmentInput) (b : Blob) → (copy_all cursor ss b).size ≡ b.size
unfolding copy_all
copy_all-size cursor [] b = refl
copy_all-size cursor (s ∷ ss) b =
    copy_all-size (cursor + fes_of s) ss (copy_segment (fes_of s) cursor s.payload b)
    ∙ copy_segment-size (fes_of s) cursor s.payload b

-- What the range of one segment yields: its payload with zeros up to the field element's end, and
-- the error for an empty range if the payload is empty.
abbrev pub Extracts : Blob → MultiSegmentInput → AssembledSegment → Type 0
Extracts b s g =
    (g.content_tag ≡ s.content_tag)
    × (extract_segment_bytes b g.start_fe g.end_fe ≡ (
        if length s.payload == 0
        then err inverted_range
        else ok (s.payload ++ replicate (fes_of s * 31 - length s.payload) 0)))

abbrev pub ExtractsAll : Blob → List MultiSegmentInput → List AssembledSegment → Type 0
ExtractsAll b [] [] = Unit
ExtractsAll b (s ∷ ss) (g ∷ gs) = Extracts b s g × ExtractsAll b ss gs
ExtractsAll b [] (g ∷ gs) = ⊥
ExtractsAll b (s ∷ ss) [] = ⊥

-- One segment: what follows it in the blob was written outside its range.
extract-payload :
    (b : Blob) (s : MultiSegmentInput) (cursor : ℕ)
    → b.size ≡ bytes_per_blob
    → cursor + fes_of s ≤ 4096
    → read_fes (fes_of s) cursor b.at ≡ pad_to (fes_of s * 31) s.payload
    → extract_segment_bytes b cursor (cursor + fes_of s) ≡ (
        if length s.payload == 0
        then err inverted_range
        else ok (s.payload ++ replicate (fes_of s * 31 - length s.payload) 0))
unfolding extract_segment_bytes
extract-payload b s cursor hb hc e = elim (Bool-cases (length s.payload == 0)) [
  | inl empty ↦
      let no_fes : fes_of s ≡ 0 = unfold fe_count in ground arith in
      rw (empty, no_fes) (ground arith)
  | inr some_bytes ↦
      let enough : (1 ≤ fes_of s) × (length s.payload ≤ fes_of s * 31) =
        unfold fe_count in ground arith in
      let c1 : ltb 4096 (cursor + fes_of s) ≡ false = ground arith in
      let c2 : leb (cursor + fes_of s) cursor ≡ false = ground arith in
      let c3 : ltb b.size ((cursor + fes_of s) * 32) ≡ false = ground arith in
      let range : cursor + fes_of s - cursor ≡ fes_of s = omega arith in
      simp (c1, c2, c3, range, some_bytes, e, pad_to_lem (fes_of s * 31) s.payload enough.1)
]

copy_all-ExtractsAll :
    (cursor : ℕ) (ss : List MultiSegmentInput) (b : Blob)
    → ((i : ℕ) → cursor * 32 ≤ i → b.at i ≡ 0)
    → b.size ≡ bytes_per_blob
    → cursor + total_fes ss ≤ 4096
    → ExtractsAll (copy_all cursor ss b) ss (lay_out cursor ss)
unfolding copy_all lay_out total_fes
copy_all-ExtractsAll cursor [] b zeros hb h = tt
copy_all-ExtractsAll cursor (s ∷ ss) b zeros hb h =
    let n = fes_of s in
    let b1 = copy_segment n cursor s.payload b in
    let last = copy_all (cursor + n) ss b1 in
    let size = copy_all-size (cursor + n) ss b1 ∙ copy_segment-size n cursor s.payload b ∙ hb in
    let contents : read_fes n cursor last.at ≡ pad_to (n * 31) s.payload =
      read_fes-ext n cursor last.at b1.at
        (λ i lo hi. copy_all-outside (cursor + n) ss b1 i (omega arith))
      ∙ read_fes-copy_segment n cursor s.payload b zeros in
    let above = λ (i : ℕ) (lo : (cursor + n) * 32 ≤ i).
      copy_segment-outside n cursor s.payload b i (inr lo) ∙ zeros i (omega arith) in
    (
      (refl, extract-payload last s cursor size (omega arith) contents),
      copy_all-ExtractsAll (cursor + n) ss b1 above (copy_segment-size n cursor s.payload b ∙ hb)
          (omega arith),
    )

-- `assembleMultiSegmentBlob` succeeds if the payloads, each rounded up to whole field
-- elements, need at most 4096 of them. The ranges are then laid out one after the other from 0,
-- byte 0 of every field element is 0, and for each segment `extractSegmentBytes` returns its
-- payload with zeros up to the end of its last field element (for an empty payload it refuses the
-- empty range).
pub assemble_multi_segment_blob_fits :
    (ss : List MultiSegmentInput)
    → total_fes ss ≤ 4096
    → (b : Blob) × (assemble_multi_segment_blob ss ≡ ok (b, lay_out 0 ss))
      × ExtractsAll b ss (lay_out 0 ss)
      × ((k : ℕ) → b.at (k * 32) ≡ 0)
unfolding assemble_multi_segment_blob
assemble_multi_segment_blob_fits ss h = (
  copy_all 0 ss zero_blob,
  assemble_from-fits 0 ss zero_blob (omega arith),
  copy_all-ExtractsAll 0 ss zero_blob (λ i lo. refl) refl (omega arith),
  λ k. copy_all-padding 0 ss zero_blob k refl,
)

pub assemble_multi_segment_blob-le :
    (ss : List MultiSegmentInput) (r : Blob × List AssembledSegment)
    → assemble_multi_segment_blob ss ≡ ok r
    → total_fes ss ≤ 4096
unfolding assemble_multi_segment_blob
assemble_multi_segment_blob-le ss r h =
    omega (arith, assemble_from-le 0 ss zero_blob r (omega arith) h)
