-- ===== src/Sdk/Endian/RoundTrip.antt =====
-- The readers of big-endian numbers on what the writers wrote.
use bam.Prelude.{ℕ, zero, suc, ◌+◌, ◌*◌, ◌/◌, ◌%◌, ◌^◌, ◌<◌, ◌≡◌, refl, ◌∙◌, arith}
use bam.Prelude.{[], ◌∷◌, ◌++◌, Bytes, length, length-append, append_assoc}
use bam.Sdk.Endian.{write_u32_be, read_u32_be, write_be, write_u64_be, read_be, read_u64_be}
use native.Mathlib.Nat.{pow-suc}

pub read_u32_be-write_u32_be :
    (v : ℕ) (rest : Bytes) → v < 2 ^ 32 → read_u32_be (write_u32_be v ++ rest) ≡ v
unfolding read_u32_be write_u32_be
read_u32_be-write_u32_be v rest h = omega arith

pub length-write_be : (n v : ℕ) → length (write_be n v) ≡ n
unfolding write_be
length-write_be zero v = refl
length-write_be (suc n) v =
    rw (length-append (write_be n (v / 256)) _) (omega (arith, length-write_be n (v / 256)))

read_be-snoc :
    (n a : ℕ) (xs : Bytes) (b : ℕ) (rest : Bytes)
    → length xs ≡ n
    → read_be (suc n) a (xs ++ (b ∷ rest)) ≡ read_be n a (xs ++ (b ∷ rest)) * 256 + b
unfolding read_be
read_be-snoc zero a [] b rest h = refl
read_be-snoc zero a (x ∷ xs) b rest h = absurd (omega arith)
read_be-snoc (suc n) a [] b rest h = absurd (omega arith)
read_be-snoc (suc n) a (x ∷ xs) b rest h = read_be-snoc n (a * 256 + x) xs b rest (omega arith)

top_digits : (n v : ℕ) → v < 256 ^ suc n → v / 256 < 256 ^ n
top_digits n v h = let h' : v < 256 ^ n * 256 = rw pow-suc at h in omega arith

read_be-write_be_from :
    (n a v : ℕ) (rest : Bytes) → v < 256 ^ n → read_be n a (write_be n v ++ rest) ≡ a * 256 ^ n + v
unfolding write_be
read_be-write_be_from zero a v rest h = unfold read_be in omega arith
read_be-write_be_from (suc n) a v rest h =
    let front = write_be n (v / 256) in
    let ih = read_be-write_be_from n a (v / 256) ((v % 256) ∷ rest) (top_digits n v h) in
    rw (append_assoc front ((v % 256) ∷ []) rest) (
      read_be-snoc n a front (v % 256) rest (length-write_be n (v / 256))
      ∙ rw ih (rw pow-suc (omega arith)))

pub read_u64_be-write_u64_be :
    (v : ℕ) (rest : Bytes) → v < 2 ^ 64 → read_u64_be (write_u64_be v ++ rest) ≡ v
unfolding read_u64_be write_u64_be
read_u64_be-write_u64_be v rest h = read_be-write_be_from 8 0 v rest h ∙ omega arith

pub length-write_u64_be : (v : ℕ) → length (write_u64_be v) ≡ 8
unfolding write_u64_be
length-write_u64_be v = length-write_be 8 v

pub length-write_u32_be : (v : ℕ) → length (write_u32_be v) ≡ 4
unfolding write_u32_be
length-write_u32_be v = refl
