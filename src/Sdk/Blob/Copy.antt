-- ===== src/Sdk/Blob/Copy.antt =====
-- The reads and writes of a blob in packages/bam-sdk/src/blob, segment by segment.
use bam.Prelude.{
  ℕ, zero, suc, ◌+◌, ◌-◌, ◌*◌, ◌≤◌, ◌<◌, ◌≡◌, refl, sym, ap, ◌∙◌, arith, [], ◌∷◌, ◌++◌,
}
use bam.Prelude.{Bytes, length, get_or, take, drop, drop_nil, replicate, length-take, ◌⊎◌}
use native.Mathlib.Nat.{add-zero, add_assoc, zero-add, suc-add}
use bam.Sdk.Blob.{Blob, blob_set, subarray, copy_segment, read_fes}

-- The first `n` bytes, with zeros where there are fewer.
pub pad_to : ℕ → Bytes → Bytes
pad_to zero bs = []
pad_to (suc n) [] = 0 ∷ pad_to n []
pad_to (suc n) (b ∷ bs) = b ∷ pad_to n bs

pub pad_to_lem :
    (n : ℕ) (bs : Bytes) → length bs ≤ n → pad_to n bs ≡ bs ++ replicate (n - length bs) 0
unfolding pad_to
pad_to_lem zero [] h = refl
pad_to_lem zero (b ∷ bs) h = absurd (omega arith)
pad_to_lem (suc n) [] h =
    let e : suc n - 0 ≡ suc (n - 0) = omega arith in
    rw e (ap (λ t. 0 ∷ t) (pad_to_lem n [] (omega arith)))
pad_to_lem (suc n) (b ∷ bs) h =
    let e : suc n - suc (length bs) ≡ n - length bs = omega arith in
    rw e (ap (λ t. b ∷ t) (pad_to_lem n bs (omega arith)))

subarray-ext :
    (f g : ℕ → ℕ) (offset n : ℕ)
    → ((i : ℕ) → offset ≤ i → i < offset + n → f i ≡ g i)
    → subarray f offset n ≡ subarray g offset n
unfolding subarray
subarray-ext f g offset zero h = refl
subarray-ext f g offset (suc n) h =
    let rest = subarray-ext f g (offset + 1) n (λ i lo hi. h i (omega arith) (omega arith)) in
    cc (h offset (omega arith) (omega arith), rest)

one-add : (i : ℕ) → 1 + i ≡ suc i
one-add i = omega arith

subarray-pad_to :
    (f : ℕ → ℕ) (offset n : ℕ) (bs : Bytes)
    → ((i : ℕ) → i < n → f (offset + i) ≡ get_or bs i 0)
    → subarray f offset n ≡ pad_to n bs
unfolding subarray pad_to
subarray-pad_to f offset zero bs h = refl
subarray-pad_to f offset (suc n) [] h =
    let rest =
      subarray-pad_to f (offset + 1) n []
        (λ i hi. rw (add_assoc offset 1 i, one-add i) (h (suc i) (omega arith))) in
    cc (rw add-zero at (h 0 (omega arith)), rest)
subarray-pad_to f offset (suc n) (b ∷ bs) h =
    let rest =
      subarray-pad_to f (offset + 1) n bs
        (λ i hi. rw (add_assoc offset 1 i, one-add i) (h (suc i) (omega arith))) in
    cc (rw add-zero at (h 0 (omega arith)), rest)

get_or-take : (n i : ℕ) (bs : Bytes) → i < n → get_or (take n bs) i 0 ≡ get_or bs i 0
get_or-take zero i bs h = absurd (omega arith)
get_or-take (suc n) i [] h = refl
get_or-take (suc n) zero (b ∷ bs) h = refl
get_or-take (suc n) (suc i) (b ∷ bs) h = get_or-take n i bs (omega arith)

get_or-of_le : (i : ℕ) (bs : Bytes) → length bs ≤ i → get_or bs i 0 ≡ 0
get_or-of_le i [] h = refl
get_or-of_le zero (b ∷ bs) h = absurd (omega arith)
get_or-of_le (suc i) (b ∷ bs) h = get_or-of_le i bs (omega arith)

blob_set-outside :
    (b : Blob) (src : Bytes) (offset i : ℕ)
    → (i < offset) ⊎ (offset + length src ≤ i)
    → (blob_set b src offset).at i ≡ b.at i
unfolding blob_set
blob_set-outside b src offset i h = ground arith

-- Over zeros, the bytes at `offset + i` are those of the source, and zeros behind it.
blob_set-inside :
    (b : Blob) (src : Bytes) (offset i : ℕ)
    → b.at (offset + i) ≡ 0
    → (blob_set b src offset).at (offset + i) ≡ get_or src i 0
unfolding blob_set
blob_set-inside b src offset i h =
    let e : offset + i - offset ≡ i = omega arith in ground (arith, e, get_or-of_le i src)

-- `copy_segment` writes only bytes 1 to 31 of its field elements.
pub copy_segment-outside :
    (n fe : ℕ) (bs : Bytes) (b : Blob) (i : ℕ)
    → (i < fe * 32 + 1) ⊎ ((fe + n) * 32 ≤ i)
    → (copy_segment n fe bs b).at i ≡ b.at i
unfolding copy_segment
copy_segment-outside zero fe bs b i h = refl
copy_segment-outside (suc n) fe bs b i h =
    copy_segment-outside n (fe + 1) (drop 31 bs) (blob_set b (take 31 bs) (fe * 32 + 1)) i
      (omega arith)
    ∙ blob_set-outside b (take 31 bs) (fe * 32 + 1) i (omega (arith, length-take 31 bs))

pub copy_segment-padding :
    (n fe : ℕ) (bs : Bytes) (b : Blob) (k : ℕ)
    → b.at (k * 32) ≡ 0
    → (copy_segment n fe bs b).at (k * 32) ≡ 0
unfolding copy_segment
copy_segment-padding zero fe bs b k h = h
copy_segment-padding (suc n) fe bs b k h =
    copy_segment-padding n (fe + 1) (drop 31 bs) (blob_set b (take 31 bs) (fe * 32 + 1)) k (
      blob_set-outside b (take 31 bs) (fe * 32 + 1) (k * 32) (omega (arith, length-take 31 bs)) ∙ h)

-- Reading goes by the bytes of the range alone.
pub read_fes-ext :
    (n fe : ℕ) (f g : ℕ → ℕ)
    → ((i : ℕ) → fe * 32 ≤ i → i < (fe + n) * 32 → f i ≡ g i)
    → read_fes n fe f ≡ read_fes n fe g
unfolding read_fes
read_fes-ext zero fe f g h = refl
read_fes-ext (suc n) fe f g h = cc (
  subarray-ext f g (fe * 32 + 1) 31 (λ i lo hi. h i (omega arith) (omega arith)),
  read_fes-ext n (fe + 1) f g (λ i lo hi. h i (omega arith) (omega arith)),
)

pad_to-chunk : (m n : ℕ) (bs : Bytes) → pad_to (m + n) bs ≡ pad_to m bs ++ pad_to n (drop m bs)
unfolding pad_to
pad_to-chunk zero n bs = rw (zero-add n)
pad_to-chunk (suc m) n [] =
    let ih = pad_to-chunk m n [] ∙ ap (λ t. pad_to m [] ++ pad_to n t) (sym (drop_nil m)) in
    rw (suc-add m n) (ap (λ t. 0 ∷ t) ih)
pad_to-chunk (suc m) n (b ∷ bs) = rw (suc-add m n) (ap (λ t. b ∷ t) (pad_to-chunk m n bs))

-- Over zeros, what `copy_segment` wrote is read back, with zeros behind it.
pub read_fes-copy_segment :
    (n fe : ℕ) (bs : Bytes) (b : Blob)
    → ((i : ℕ) → fe * 32 ≤ i → b.at i ≡ 0)
    → read_fes n fe (copy_segment n fe bs b).at ≡ pad_to (n * 31) bs
unfolding read_fes copy_segment
read_fes-copy_segment zero fe bs b h = unfold pad_to in refl
read_fes-copy_segment (suc n) fe bs b h =
    let b1 = blob_set b (take 31 bs) (fe * 32 + 1) in
    let b2 = copy_segment n (fe + 1) (drop 31 bs) b1 in
    let first : subarray b2.at (fe * 32 + 1) 31 ≡ pad_to 31 bs =
      subarray-pad_to b2.at (fe * 32 + 1) 31 bs λ i hi.
        copy_segment-outside n (fe + 1) (drop 31 bs) b1 (fe * 32 + 1 + i) (omega arith)
        ∙ blob_set-inside b (take 31 bs) (fe * 32 + 1) i (h (fe * 32 + 1 + i) (omega arith))
        ∙ get_or-take 31 i bs hi in
    let others : read_fes n (fe + 1) b2.at ≡ pad_to (n * 31) (drop 31 bs) =
      read_fes-copy_segment n (fe + 1) (drop 31 bs) b1 λ i hi.
        blob_set-outside b (take 31 bs) (fe * 32 + 1) i (omega (arith, length-take 31 bs))
        ∙ h i (omega arith) in
    let chunks : suc n * 31 ≡ 31 + n * 31 = omega arith in
    rw chunks (rw (pad_to-chunk 31 (n * 31) bs) (cc (first, others)))
