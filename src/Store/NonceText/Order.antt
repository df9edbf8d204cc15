-- ===== src/Store/NonceText/Order.antt =====
-- packages/bam-store/src/nonce-codec.ts: the texts in their lexicographic order, and read back.
use bam.Prelude.{
  ℕ, zero, suc, ◌+◌, ◌-◌, ◌*◌, ◌/◌, ◌%◌, ◌^◌, ◌<◌, ◌≡◌, refl, sym, ap, ◌∙◌, arith, true, false,
  ◌&&◌, [], ◌∷◌, ◌++◌, append-nil, append_assoc, length, length-append, replicate, leb, ltb, ◌==◌,
  if◌then◌else◌, Bool-cases, inl, inr, Text, text_ltb, ok,
}
use bam.Store.NonceText.{
  to_decimal, pad_start, encode_nonce_text, all_digits, from_decimal, decode_nonce_text,
}
use native.Mathlib.Nat.{pow-suc}

-- The last `k` decimal digits, all of them.
fixed : ℕ → ℕ → Text
fixed zero n = []
fixed (suc k) n = fixed k (n / 10) ++ ((48 + n % 10) ∷ [])

replicate-snoc : (k a : ℕ) → replicate k a ++ (a ∷ []) ≡ a ∷ replicate k a
replicate-snoc zero a = refl
replicate-snoc (suc k) a = ap (λ t. a ∷ t) (replicate-snoc k a)

fixed_zero : (k : ℕ) → fixed k 0 ≡ replicate k 48
unfolding fixed
fixed_zero zero = refl
fixed_zero (suc k) = rw (fixed_zero k) (replicate-snoc k 48)

length-fixed : (k n : ℕ) → length (fixed k n) ≡ k
unfolding fixed
length-fixed zero n = refl
length-fixed (suc k) n =
    omega (arith, length-append (fixed k (n / 10)) ((48 + n % 10) ∷ []), length-fixed k (n / 10))

tenth_below : (k n : ℕ) → n < 10 ^ suc k → n / 10 < 10 ^ k
tenth_below k n h = let e = pow-suc 10 k in omega arith

to_decimal_small : (k n : ℕ) → ltb n 10 ≡ true → to_decimal (suc k) n ≡ (48 + n) ∷ []
unfolding to_decimal
to_decimal_small k n h = rw (h, to_decimal) refl

to_decimal_large :
    (k n : ℕ)
    → ltb n 10 ≡ false
    → to_decimal (suc k) n ≡ to_decimal k (n / 10) ++ ((48 + n % 10) ∷ [])
unfolding to_decimal
to_decimal_large k n h = rw (h, to_decimal) refl

pad_start-snoc :
    (w : ℕ) (s : Text) (c : ℕ) → pad_start (suc w) (s ++ (c ∷ [])) ≡ pad_start w s ++ (c ∷ [])
unfolding pad_start
pad_start-snoc w s c =
    let e : suc w - length (s ++ (c ∷ [])) ≡ w - length s =
      omega (arith, length-append s (c ∷ [])) in
    rw e (sym (append_assoc (replicate (w - length s) 48) s (c ∷ [])))

pad_start_nil : (w : ℕ) → pad_start w [] ≡ fixed w 0
unfolding pad_start
pad_start_nil w =
    let e : w - 0 ≡ w = omega arith in rw e (append-nil (replicate w 48) ∙ sym (fixed_zero w))

fixed_step : (k n : ℕ) → fixed (suc k) n ≡ fixed k (n / 10) ++ ((48 + n % 10) ∷ [])
unfolding fixed
fixed_step k n = refl

pad_start-small :
    (k n : ℕ) → ltb n 10 ≡ true → pad_start (suc k) (to_decimal (suc k) n) ≡ fixed (suc k) n
pad_start-small k n small =
    let no_tens : n / 10 ≡ 0 = ground arith in
    let digit : n % 10 ≡ n = ground arith in
    rw (to_decimal_small k n small, fixed_step k n, no_tens, digit)
      (pad_start-snoc k [] (48 + n) ∙ ap (λ t. t ++ ((48 + n) ∷ [])) (pad_start_nil k))

-- A number of more digits than one.
pad_start-large :
    (k n : ℕ)
    → n < 10 ^ suc k
    → ltb n 10 ≡ false
    → pad_start (suc k) (to_decimal (suc k) n) ≡ fixed (suc k) n
pad_start-large zero n h large = absurd (ground arith)
pad_start-large (suc k) n h large =
    let below = tenth_below (suc k) n h in
    let rest : pad_start (suc k) (to_decimal (suc k) (n / 10)) ≡ fixed (suc k) (n / 10) =
      elim (Bool-cases (ltb (n / 10) 10)) [
        | inl small ↦ pad_start-small k (n / 10) small
        | inr more ↦ pad_start-large k (n / 10) below more
      ] in
    rw (to_decimal_large (suc k) n large, fixed_step (suc k) n)
      (pad_start-snoc (suc k) (to_decimal (suc k) (n / 10)) (48 + n % 10)
        ∙ ap (λ t. t ++ ((48 + n % 10) ∷ [])) rest)

pad_start-to_decimal :
    (k n : ℕ) → n < 10 ^ suc k → pad_start (suc k) (to_decimal (suc k) n) ≡ fixed (suc k) n
pad_start-to_decimal k n h = elim (Bool-cases (ltb n 10)) [
  | inl small ↦ pad_start-small k n small
  | inr large ↦ pad_start-large k n h large
]

value-append :
    (n : ℕ) (xs : Text) (c : ℕ)
    → from_decimal n (xs ++ (c ∷ [])) ≡ from_decimal n xs * 10 + (c - 48)
unfolding from_decimal
value-append n [] c = refl
value-append n (x ∷ xs) c = value-append (n * 10 + (x - 48)) xs c

from_decimal-fixed : (k n : ℕ) → n < 10 ^ k → from_decimal 0 (fixed k n) ≡ n
unfolding fixed from_decimal
from_decimal-fixed zero n h = omega arith
from_decimal-fixed (suc k) n h = omega (
  arith,
  value-append 0 (fixed k (n / 10)) (48 + n % 10),
  from_decimal-fixed k (n / 10) (tenth_below k n h),
)

all_digits-append :
    (xs : Text) (c : ℕ) → all_digits (xs ++ (c ∷ [])) ≡ (all_digits xs && leb 48 c && leb c 57)
unfolding all_digits
all_digits-append [] c = ground arith
all_digits-append (x ∷ xs) c = ground (arith, all_digits-append xs c)

all_digits-fixed : (k n : ℕ) → all_digits (fixed k n) ≡ true
unfolding fixed all_digits
all_digits-fixed zero n = refl
all_digits-fixed (suc k) n =
    ground (arith, all_digits-append (fixed k (n / 10)) (48 + n % 10), all_digits-fixed k (n / 10))

-- The order of texts of one length that are continued by one character.
text_ltb-append :
    (xs ys : Text) (c d : ℕ)
    → length xs ≡ length ys
    → text_ltb (xs ++ (c ∷ [])) (ys ++ (d ∷ []))
      ≡ (if text_ltb xs ys then true else if text_ltb ys xs then false else ltb c d)
unfolding text_ltb
text_ltb-append [] [] c d h = ground arith
text_ltb-append [] (y ∷ ys) c d h = absurd (omega arith)
text_ltb-append (x ∷ xs) [] c d h = absurd (omega arith)
text_ltb-append (x ∷ xs) (y ∷ ys) c d h =
    let tails : length xs ≡ length ys = omega arith in
    ground (arith, text_ltb-append xs ys c d tails)

text_ltb-fixed : (k a b : ℕ) → a < 10 ^ k → b < 10 ^ k → text_ltb (fixed k a) (fixed k b) ≡ ltb a b
unfolding fixed text_ltb
text_ltb-fixed zero a b ha hb = ground arith
text_ltb-fixed (suc k) a b ha hb =
    let same : length (fixed k (a / 10)) ≡ length (fixed k (b / 10)) =
      omega (arith, length-fixed k (a / 10), length-fixed k (b / 10)) in
    let low = text_ltb-fixed k (a / 10) (b / 10) (tenth_below k a ha) (tenth_below k b hb) in
    let high = text_ltb-fixed k (b / 10) (a / 10) (tenth_below k b hb) (tenth_below k a ha) in
    text_ltb-append (fixed k (a / 10)) (fixed k (b / 10)) (48 + a % 10) (48 + b % 10) same
    ∙ rw (low, high) (ground arith)

encode_nonce_text-fixed : (n : ℕ) → n < 2 ^ 64 → encode_nonce_text n ≡ ok (fixed 20 n)
unfolding encode_nonce_text
encode_nonce_text-fixed n h =
    let fits : ltb 0xffff_ffff_ffff_ffff n ≡ false = ground arith in
    let padded = pad_start-to_decimal 19 n (omega arith) in simp (fits, padded)

-- Two nonces below 2^64 are encoded as texts of twenty characters whose lexicographic order is the
-- numeric order of the nonces, and which decode to them.
pub encode_nonce_text_ordered :
    (a b : ℕ)
    → a < 2 ^ 64
    → b < 2 ^ 64
    → (s : Text) × (t : Text) × (encode_nonce_text a ≡ ok s)
      × (encode_nonce_text b ≡ ok t)
      × (text_ltb s t ≡ ltb a b)
      × (length s ≡ 20)
      × (decode_nonce_text s ≡ ok a)
unfolding decode_nonce_text
encode_nonce_text_ordered a b ha hb =
    let wide : (length (fixed 20 a) == 20) ≡ true = ground (arith, length-fixed 20 a) in
    let back = from_decimal-fixed 20 a (omega arith) in
    let fits : ltb 0xffff_ffff_ffff_ffff a ≡ false = ground arith in
    (
      fixed 20 a,
      fixed 20 b,
      encode_nonce_text-fixed a ha,
      encode_nonce_text-fixed b hb,
      text_ltb-fixed 20 a b (omega arith) (omega arith),
      length-fixed 20 a,
      simp (wide, all_digits-fixed 20 a, back, fits),
    )
