-- ===== src/Sdk/Hex/RoundTrip.antt =====
-- `hexToBytes` and `bytesToHex` one after the other.
use bam.Prelude.{ℕ, ◌+◌, ◌*◌, ◌/◌, ◌%◌, ◌<◌, ◌≡◌, refl, arith, true}
use bam.Prelude.{[], ◌∷◌, Bytes, Text, IsByte, ok, length, All}
use bam.Prelude.{to_lower_case, lower_unit}
use bam.Sdk.Hex.{is_hex_digit, digit_value, hex_digit, clean_hex, all_hex, parse_pairs}
use bam.Sdk.Hex.{hex_to_bytes, hex_pairs, bytes_to_hex}

digit_value-hex_digit : (n : ℕ) → n < 16 → digit_value (hex_digit n) ≡ n
unfolding digit_value hex_digit
digit_value-hex_digit n h = ground arith

is_hex_digit-hex_digit : (n : ℕ) → n < 16 → is_hex_digit (hex_digit n) ≡ true
unfolding is_hex_digit hex_digit
is_hex_digit-hex_digit n h = ground arith

digit_value-lt : (c : ℕ) → is_hex_digit c ≡ true → digit_value c < 16
unfolding is_hex_digit digit_value
digit_value-lt c h = ground arith

hex_digit-digit_value : (c : ℕ) → is_hex_digit c ≡ true → hex_digit (digit_value c) ≡ lower_unit c
unfolding is_hex_digit digit_value hex_digit lower_unit
hex_digit-digit_value c h = ground arith

all_hex-hex_pairs : (bs : Bytes) → All IsByte bs → all_hex (hex_pairs bs) ≡ true
unfolding all_hex hex_pairs
all_hex-hex_pairs [] h = refl
all_hex-hex_pairs (b ∷ bs) h = ground (
  arith,
  is_hex_digit-hex_digit (b / 16) (omega arith),
  is_hex_digit-hex_digit (b % 16) (omega arith),
  all_hex-hex_pairs bs h.1,
)

parse_pairs-hex_pairs : (bs : Bytes) → All IsByte bs → parse_pairs (hex_pairs bs) ≡ bs
unfolding parse_pairs hex_pairs
parse_pairs-hex_pairs [] h = refl
parse_pairs-hex_pairs (b ∷ bs) h = ground (
  arith,
  digit_value-hex_digit (b / 16) (omega arith),
  digit_value-hex_digit (b % 16) (omega arith),
  parse_pairs-hex_pairs bs h.1,
)

length-hex_pairs : (bs : Bytes) → length (hex_pairs bs) ≡ 2 * length bs
unfolding hex_pairs
length-hex_pairs [] = refl
length-hex_pairs (b ∷ bs) = omega (arith, length-hex_pairs bs)

-- Bytes written as a hex string are read back.
pub hex_to_bytes-bytes_to_hex :
    (bs : Bytes) → All IsByte bs → hex_to_bytes (bytes_to_hex bs) ≡ ok bs
unfolding hex_to_bytes bytes_to_hex clean_hex
hex_to_bytes-bytes_to_hex bs h =
    ground (arith, length-hex_pairs bs, all_hex-hex_pairs bs h, parse_pairs-hex_pairs bs h)

-- The byte of two digits gives the digits back, in lower case.
byte_digits :
    (a b : ℕ)
    → is_hex_digit a ≡ true
    → is_hex_digit b ≡ true
    → let v = digit_value a * 16 + digit_value b in
      (v < 256) × (hex_digit (v / 16) ≡ lower_unit a) × (hex_digit (v % 16) ≡ lower_unit b)
byte_digits a b ha hb =
    let la = digit_value-lt a ha in
    let lb = digit_value-lt b hb in
    let high : (digit_value a * 16 + digit_value b) / 16 ≡ digit_value a = omega arith in
    let low : (digit_value a * 16 + digit_value b) % 16 ≡ digit_value b = omega arith in
    (omega arith, rw high (hex_digit-digit_value a ha), rw low (hex_digit-digit_value b hb))

all_hex_cons :
    (c : ℕ) (t : Text) → all_hex (c ∷ t) ≡ true → (is_hex_digit c ≡ true) × (all_hex t ≡ true)
unfolding all_hex
all_hex_cons c t h = ground arith

-- What a text that `hexToBytes` accepts looks like: an even number of digits.
pub parse_pairs_lem :
    (t : Text)
    → length t % 2 ≡ 0
    → all_hex t ≡ true
    → All IsByte (parse_pairs t)
      × (hex_pairs (parse_pairs t) ≡ to_lower_case t)
      × (2 * length (parse_pairs t) ≡ length t)
unfolding parse_pairs hex_pairs to_lower_case
parse_pairs_lem [] e h = (tt, refl, refl)
parse_pairs_lem (a ∷ []) e h = absurd (omega arith)
parse_pairs_lem (a ∷ b ∷ rest) e h =
    let (ha, hb_rest) = all_hex_cons a (b ∷ rest) h in
    let (hb, h_rest) = all_hex_cons b rest hb_rest in
    let (bytes, text, size) = parse_pairs_lem rest (omega arith) h_rest in
    let (small, high, low) = byte_digits a b ha hb in
    ((small, bytes), cc (high, low, text), omega arith)

-- The canonical form of a hex string: prefixed and in lower case.
pub canonical_hex : Text → Text
canonical_hex t = 48 ∷ 120 ∷ to_lower_case (clean_hex t)

-- If a hex string is accepted, it stands for bytes (numbers below 256), and these written again are
-- the string in its canonical form.
pub bytes_to_hex-hex_to_bytes :
    (t : Text) (bs : Bytes)
    → hex_to_bytes t ≡ ok bs
    → All IsByte bs × (bytes_to_hex bs ≡ canonical_hex t)
unfolding hex_to_bytes bytes_to_hex canonical_hex
bytes_to_hex-hex_to_bytes t bs h = ground (arith, parse_pairs_lem (clean_hex t))
