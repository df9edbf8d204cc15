-- ===== src/Sdk/Batch/Records.antt =====
-- The records of a batch: the layout that the loop of `encodeBatch` writes, and the loop of
-- `decodeBatch` on it.
use bam.Prelude.{ℕ, ◌+◌, ◌^◌, ◌<◌, ◌≡◌, refl, ◌∙◌, arith, inl, inr}
use bam.Prelude.{false, List, [], ◌∷◌, ◌++◌, map, append_assoc, Bytes}
use bam.Prelude.{length, length-append, take-append_eq, drop-append_eq, ok}
use bam.Prelude.{Result-cases, >>=-eq-ok, ok-injective, ltb}
use bam.Sdk.Hex.{hex_to_bytes, bytes_to_hex}
use bam.Sdk.Hex.RoundTrip.{canonical_hex, bytes_to_hex-hex_to_bytes}
use bam.Sdk.Endian.{write_u32_be, write_u64_be}
use bam.Sdk.Endian.RoundTrip.{length-write_u64_be, length-write_u32_be}
use bam.Sdk.Endian.RoundTrip.{read_u32_be-write_u32_be, read_u64_be-write_u64_be}
use bam.Sdk.Batch.{BamMessage, encode_record, encode_records, decode_record, decode_records}

-- The layout of one record.
abbrev pub layout : Bytes → ℕ → Bytes → Bytes → Bytes
layout sender_bytes nonce contents sig =
    sender_bytes ++ (write_u64_be nonce ++ (write_u32_be (length contents) ++ (contents ++ sig)))

-- What the guards of `encode_record` leave when it returns.
pub record IsEncoded (m : BamMessage) (sig rec : Bytes) : Type 0 where
  pub sender_bytes : Bytes
  pub parsed : hex_to_bytes m.sender ≡ ok sender_bytes
  pub sender_length : length sender_bytes ≡ 20
  pub sig_length : length sig ≡ 65
  pub nonce_fits : m.nonce < 2 ^ 64
  pub contents_fit : length m.contents < 2 ^ 32
  pub laid_out : rec ≡ layout sender_bytes m.nonce m.contents sig

pub encode_record-IsEncoded :
    (i : ℕ) (m : BamMessage) (sig rec : Bytes)
    → encode_record i m sig ≡ ok rec
    → IsEncoded m sig rec
unfolding encode_record
encode_record-IsEncoded i m sig rec h = elim (Result-cases (hex_to_bytes m.sender)) [
  | inl (sb, e) ↦ record {
    sender_bytes = sb;
    parsed = e;
    sender_length = ground arith;
    sig_length = ground arith;
    nonce_fits = ground arith;
    contents_fit = ground arith;
    laid_out = ground arith;
  }
  | inr (x, e) ↦ absurd (ground arith)
]

-- One round of the decoder on a record, with `tail` behind it.
decode_record-layout :
    (i : ℕ) (sb : Bytes) (nonce : ℕ) (contents sig tail : Bytes)
    → length sb ≡ 20
    → length sig ≡ 65
    → nonce < 2 ^ 64
    → length contents < 2 ^ 32
    → decode_record i (layout sb nonce contents (sig ++ tail))
      ≡ ok (record { sender = bytes_to_hex sb; nonce = nonce; contents = contents }, sig, tail)
unfolding decode_record
decode_record-layout i sb nonce contents sig tail hs hg hn hc =
    let r4 = sig ++ tail in
    let r3 = contents ++ r4 in
    let r2 = write_u32_be (length contents) ++ r3 in
    let r1 = write_u64_be nonce ++ r2 in
    let header_fits : ltb (length (sb ++ r1)) 32 ≡ false = ground (
      arith,
      length-append sb r1,
      length-append (write_u64_be nonce) r2,
      length-append (write_u32_be (length contents)) r3,
      length-write_u64_be nonce,
      length-write_u32_be (length contents),
    ) in
    let body_fits : ltb (length r3) (length contents + 65) ≡ false =
      ground (arith, length-append contents r4, length-append sig tail) in
    simp (
      header_fits,
      take-append_eq 20 sb r1 hs,
      drop-append_eq 20 sb r1 hs,
      drop-append_eq 8 (write_u64_be nonce) r2 (length-write_u64_be nonce),
      drop-append_eq 4 (write_u32_be (length contents)) r3 (length-write_u32_be (length contents)),
      read_u64_be-write_u64_be nonce r2 hn,
      read_u32_be-write_u32_be (length contents) r3 hc,
      body_fits,
      take-append_eq (length contents) contents r4 refl,
      drop-append_eq (length contents) contents r4 refl,
      take-append_eq 65 sig tail hg,
      drop-append_eq 65 sig tail hg,
    )

-- A message as the decoder returns it: its sender in canonical form.
abbrev pub canonical : BamMessage → BamMessage
canonical m = record m { sender = canonical_hex m.sender }

decode_record-encode_record :
    (i j : ℕ) (m : BamMessage) (sig rec tail : Bytes)
    → encode_record i m sig ≡ ok rec
    → decode_record j (rec ++ tail) ≡ ok (canonical m, sig, tail)
decode_record-encode_record i j m sig rec tail h =
    let d = encode_record-IsEncoded i m sig rec h in
    let regroup : rec ++ tail ≡ layout d.sender_bytes m.nonce m.contents (sig ++ tail) =
      rw d.laid_out (simp append_assoc) in
    let name = (bytes_to_hex-hex_to_bytes m.sender d.sender_bytes d.parsed).1 in
    rw regroup (
      decode_record-layout j d.sender_bytes m.nonce m.contents sig tail d.sender_length d.sig_length
        d.nonce_fits d.contents_fit
      ∙ cc name)

-- A batch that `encode_records` laid out, read from message `j` on.
pub decode_records-encode_records :
    (i j : ℕ) (ms : List BamMessage) (sigs : List Bytes) (recs tail : Bytes)
    → length ms ≡ length sigs
    → encode_records i ms sigs ≡ ok recs
    → decode_records j (length ms) (recs ++ tail) ≡ ok (map canonical ms, sigs, tail)
unfolding encode_records decode_records
decode_records-encode_records i j [] [] recs tail e h = cc
decode_records-encode_records i j [] (s ∷ ss) recs tail e h = absurd (omega arith)
decode_records-encode_records i j (m ∷ ms) [] recs tail e h = absurd (omega arith)
decode_records-encode_records i j (m ∷ ms) (s ∷ ss) recs tail e h =
    let (rec, first, h') = >>=-eq-ok (encode_record i m s) _ h in
    let (more, others, done) = >>=-eq-ok (encode_records (i + 1) ms ss) _ h' in
    let whole : recs ++ tail ≡ rec ++ (more ++ tail) =
      rw (← ok-injective done) (append_assoc rec more tail) in
    rw whole (
      simp (
        decode_record-encode_record i j m s rec (more ++ tail) first,
        decode_records-encode_records (i + 1) (j + 1) ms ss more tail (omega arith) others,
      ))
