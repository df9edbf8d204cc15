-- ===== src/Tests/NonceRuns.antt =====
-- Two nonces and their texts.
use bam.Prelude.{◌≡◌, arith, ok, Text, text_ltb, length, true}
use bam.Store.NonceText.{encode_nonce_text, decode_nonce_text}
use bam.Store.NonceText.Order.{encode_nonce_text_ordered}

encode_nonce_text_ordered_example :
    (s : Text) × (t : Text) × (encode_nonce_text 9 ≡ ok s)
    × (encode_nonce_text 300 ≡ ok t)
    × (text_ltb s t ≡ true)
    × (length s ≡ 20)
    × (decode_nonce_text s ≡ ok 9)
encode_nonce_text_ordered_example = encode_nonce_text_ordered 9 300 (omega arith) (omega arith)
