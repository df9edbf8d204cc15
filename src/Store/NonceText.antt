-- ===== src/Store/NonceText.antt =====
-- packages/bam-store/src/nonce-codec.ts: nonces as decimal text of a fixed width. The decimal digits
-- of a number are printed on fuel, one for each digit that it can have.
pub mod Order
use bam.Prelude.{
  ℕ, zero, suc, ◌+◌, ◌-◌, ◌*◌, ◌/◌, ◌%◌, Bool, true, not, ◌&&◌, List, [], ◌∷◌, ◌++◌, leb, ltb, ◌==◌,
  if◌then◌else◌, length, replicate,
}
use bam.Prelude.{Text, Result, ok, err, ◌>>=◌, throw_if}
use bam.Sdk.Batch.{u64_max}

pub data NonceCodecError : Type 0 where
  out_of_range unexpected_width not_decimal exceeds_max : NonceCodecError

abbrev pub nonce_text_width : ℕ
nonce_text_width = 20

-- `toString()` of a number with at most as many digits as there is fuel.
unfoldable pub to_decimal : ℕ → ℕ → Text
to_decimal zero n = []
to_decimal (suc fuel) n =
    let front = to_decimal fuel (n / 10) in
    if ltb n 10 then (48 + n) ∷ [] else front ++ ((48 + n % 10) ∷ [])

-- `s.padStart(width, '0')`
unfoldable pub pad_start : ℕ → Text → Text
pad_start width s = replicate (width - length s) 48 ++ s

-- `encodeNonce`
unfoldable pub encode_nonce_text : ℕ → Result NonceCodecError Text
unfolding to_decimal pad_start
encode_nonce_text nonce = do
  _ ← throw_if (ltb u64_max nonce) out_of_range
  ok (pad_start nonce_text_width (to_decimal nonce_text_width nonce))

-- `/^[0-9]*$/.test(s)`; the width is tested before.
unfoldable pub all_digits : Text → Bool
all_digits [] = true
all_digits (c ∷ cs) = let rest = all_digits cs in leb 48 c && leb c 57 && rest

-- `BigInt(text)`, on digits, with the value of those that were read.
unfoldable pub from_decimal : ℕ → Text → ℕ
from_decimal n [] = n
from_decimal n (c ∷ cs) = from_decimal (n * 10 + (c - 48)) cs

-- `decodeNonce`
unfoldable pub decode_nonce_text : Text → Result NonceCodecError ℕ
unfolding all_digits from_decimal
decode_nonce_text text = do
  _ ← throw_if (not (length text == nonce_text_width)) unexpected_width
  _ ← throw_if (not (all_digits text)) not_decimal
  let n = from_decimal 0 text
  _ ← throw_if (ltb u64_max n) exceeds_max
  ok n
