-- ===== src/Sdk/Endian.antt =====
-- Big-endian numbers, as packages/bam-sdk/src/batch.ts and its siblings write and read them: a
-- number is written as the list of its bytes, and read at the front of the bytes that are left.
pub mod RoundTrip
use bam.Prelude.{ℕ, zero, suc, ◌+◌, ◌*◌, ◌/◌, ◌%◌, ◌^◌, [], ◌∷◌, ◌++◌, Bytes, get_or}

-- `writeU32BE`
unfoldable pub write_u32_be : ℕ → Bytes
write_u32_be v = (v / 2 ^ 24 % 256) ∷ (v / 2 ^ 16 % 256) ∷ (v / 2 ^ 8 % 256) ∷ (v % 256) ∷ []

-- `readU32BE`
unfoldable pub read_u32_be : Bytes → ℕ
read_u32_be buf =
    get_or buf 0 0 * 2 ^ 24 + get_or buf 1 0 * 2 ^ 16 + get_or buf 2 0 * 2 ^ 8 + get_or buf 3 0

-- The loop of `writeU64BE`, from the last byte to the first.
unfoldable pub write_be : ℕ → ℕ → Bytes
write_be zero v = []
write_be (suc n) v = write_be n (v / 256) ++ ((v % 256) ∷ [])

unfoldable pub write_u64_be : ℕ → Bytes
write_u64_be = write_be 8

-- The loop of `readU64BE`: `v = (v << 8n) | byte`.
unfoldable pub read_be : ℕ → ℕ → Bytes → ℕ
read_be zero v buf = v
read_be (suc n) v [] = read_be n (v * 256) []
read_be (suc n) v (b ∷ buf) = read_be n (v * 256 + b) buf

unfoldable pub read_u64_be : Bytes → ℕ
read_u64_be = read_be 8 0
