-- ===== src/Store/Tables.antt =====
-- packages/bam-store/src/types.ts: the rows, and the tables of the database with the lookups by
-- primary key that the statements of postgres.ts make.
use bam.Prelude.{
  ℕ, Bool, true, false, not, ◌&&◌, List, [], ◌∷◌, Option, none, some, ltb, ◌==◌, if◌then◌else◌,
  Bytes, Text, ◌===◌,
}
use bam.Prelude.TextMap.{TextMap}

pub data MessageStatus : Type 0 where
  pending submitted confirmed reorged : MessageStatus

pub data BatchStatus : Type 0 where
  pending_tx batch_confirmed batch_reorged : BatchStatus

pub record MessageRow : Type 0 where
  pub message_id : Option Text
  pub sender : Text
  pub nonce : ℕ
  pub content_tag : Text
  pub contents : Bytes
  pub signature : Bytes
  pub message_hash : Text
  pub status : MessageStatus
  pub batch_ref : Option Text
  pub chain_id : Option ℕ
  pub ingested_at : Option ℕ
  pub ingest_seq : Option ℕ
  pub block_number : Option ℕ
  pub tx_index : Option ℕ
  pub message_index_within_batch : Option ℕ

pub record BatchMessageSnapshotEntry : Type 0 where
  pub sender : Text
  pub nonce : ℕ
  pub message_id : Text
  pub message_index_within_batch : ℕ
  pub message_hash : Text

pub record BatchRow : Type 0 where
  pub tx_hash : Text
  pub chain_id : ℕ
  pub content_tag : Text
  pub blob_versioned_hash : Text
  pub batch_content_hash : Text
  pub block_number : Option ℕ
  pub tx_index : Option ℕ
  pub status : BatchStatus
  pub replaced_by_tx_hash : Option Text
  pub submitted_at : Option ℕ
  pub invalidated_at : Option ℕ
  pub submitter : Option Text
  pub l1_included_at_unix_sec : Option ℕ
  pub message_snapshot : List BatchMessageSnapshotEntry

pub record NonceTrackerRow : Type 0 where
  pub sender : Text
  pub last_nonce : ℕ
  pub last_message_hash : Text

pub record ReaderCursorRow : Type 0 where
  pub chain_id : ℕ
  pub last_block_number : ℕ
  pub last_tx_index : ℕ
  pub updated_at : ℕ

-- The tables `messages`, `batches`, `nonces`, `tag_seq` and `reader_cursor`; `nonces` and `tag_seq`
-- by their primary keys.
pub record Db : Type 0 where
  pub messages : List MessageRow
  pub batches : List BatchRow
  pub nonces : TextMap NonceTrackerRow
  pub tag_seq : TextMap ℕ
  pub reader_cursor : List ReaderCursorRow

unfoldable pub is_pending : MessageStatus → Bool
is_pending pending = true
is_pending submitted = false
is_pending confirmed = false
is_pending reorged = false

unfoldable pub is_reorged : MessageStatus → Bool
is_reorged pending = false
is_reorged submitted = false
is_reorged confirmed = false
is_reorged reorged = true

unfoldable pub is_confirmed : MessageStatus → Bool
is_confirmed pending = false
is_confirmed submitted = false
is_confirmed confirmed = true
is_confirmed reorged = false

-- `sender = … AND nonce = …`
unfoldable pub has_key : Text → ℕ → MessageRow → Bool
unfolding ◌===◌
has_key sender nonce m = (m.sender === sender) && (m.nonce == nonce)

unfoldable pub find_row : Text → ℕ → List MessageRow → Option MessageRow
unfolding has_key
find_row sender nonce [] = none
find_row sender nonce (m ∷ ms) =
    let rest = find_row sender nonce ms in if has_key sender nonce m then some m else rest

unfoldable pub delete_rows : Text → ℕ → List MessageRow → List MessageRow
unfolding has_key
delete_rows sender nonce [] = []
delete_rows sender nonce (m ∷ ms) =
    let rest = delete_rows sender nonce ms in if has_key sender nonce m then rest else m ∷ rest

-- The first of the two in `ORDER BY nonce DESC`.
unfoldable pub newer : MessageRow → Option MessageRow → Option MessageRow
newer m none = some m
newer m (some best) = if ltb m.nonce best.nonce then some best else some m

-- `WHERE sender = … AND status <> 'reorged' ORDER BY nonce DESC LIMIT 1`
unfoldable pub max_row : Text → List MessageRow → Option MessageRow
unfolding is_reorged newer ◌===◌
max_row sender [] = none
max_row sender (m ∷ ms) =
    let rest = max_row sender ms in
    if (m.sender === sender) && not (is_reorged m.status) then newer m rest else rest
