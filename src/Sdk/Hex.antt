-- ===== src/Sdk/Hex.antt =====
-- packages/bam-sdk/src/message.ts: `hexToBytes` and `bytesToHex`.
pub mod RoundTrip
use bam.Prelude.{ℕ, ◌+◌, ◌-◌, ◌*◌, ◌/◌, ◌%◌, Bool, true, false, ◌&&◌, ◌||◌, List, [], ◌∷◌, ◌++◌}
use bam.Prelude.{
  leb, ltb, ◌==◌, if◌then◌else◌, Bytes, Text, Result, ok, err, ◌>>=◌, throw_if, length,
}
use bam.Sdk.Errors.{SdkError, odd_hex, non_hex}

-- The character class `[0-9a-fA-F]`.
unfoldable pub is_hex_digit : ℕ → Bool
is_hex_digit c = leb 48 c && leb c 57 || leb 97 c && leb c 102 || leb 65 c && leb c 70

-- `parseInt` of one hexadecimal digit.
unfoldable pub digit_value : ℕ → ℕ
digit_value c = if leb c 57 then c - 48 else if leb c 70 then c - 55 else c - 87

-- `toString(16)` of a number below 16.
unfoldable pub hex_digit : ℕ → ℕ
hex_digit n = if ltb n 10 then n + 48 else n + 87

-- `hex.startsWith('0x') ? hex.slice(2) : hex`
unfoldable pub clean_hex : Text → Text
clean_hex [] = []
clean_hex (a ∷ []) = a ∷ []
clean_hex (a ∷ b ∷ rest) = if (a == 48) && (b == 120) then rest else a ∷ b ∷ rest

-- `/^[0-9a-fA-F]*$/.test(s)`
unfoldable pub all_hex : Text → Bool
all_hex [] = true
all_hex (c ∷ cs) = is_hex_digit c && all_hex cs

-- The loop of `hexToBytes`: two digits a byte.
unfoldable pub parse_pairs : Text → Bytes
parse_pairs [] = []
parse_pairs (a ∷ []) = []
parse_pairs (a ∷ b ∷ rest) = (digit_value a * 16 + digit_value b) ∷ parse_pairs rest

unfoldable pub hex_to_bytes : Text → Result SdkError Bytes
hex_to_bytes hex = do
  _ ← throw_if (if length (clean_hex hex) % 2 == 0 then false else true) odd_hex
  _ ← throw_if (if all_hex (clean_hex hex) then false else true) non_hex
  ok (parse_pairs (clean_hex hex))

unfoldable pub hex_pairs : Bytes → Text
hex_pairs [] = []
hex_pairs (b ∷ bs) = hex_digit (b / 16) ∷ hex_digit (b % 16) ∷ hex_pairs bs

unfoldable pub bytes_to_hex : Bytes → Text
bytes_to_hex bs = 48 ∷ 120 ∷ hex_pairs bs
