-- ===== src/Store/Cursor.antt =====
-- The reader's cursor in packages/bam-store/src/postgres.ts: one row for each chain.
use bam.Prelude.{ℕ, ◌≡◌, refl, arith, List, [], ◌∷◌, Option, none, some, ◌==◌, if◌then◌else◌, true}
use bam.Store.Tables.{Db, ReaderCursorRow}

unfoldable pub find_cursor : ℕ → List ReaderCursorRow → Option ReaderCursorRow
find_cursor chain_id [] = none
find_cursor chain_id (r ∷ rs) =
    let rest = find_cursor chain_id rs in if r.chain_id == chain_id then some r else rest

unfoldable pub drop_cursor : ℕ → List ReaderCursorRow → List ReaderCursorRow
drop_cursor chain_id [] = []
drop_cursor chain_id (r ∷ rs) =
    let rest = drop_cursor chain_id rs in if r.chain_id == chain_id then rest else r ∷ rest

-- `getCursor`
unfoldable pub get_cursor : ℕ → Db → Option ReaderCursorRow
unfolding find_cursor
get_cursor chain_id db = find_cursor chain_id db.reader_cursor

-- `setCursor`: an upsert of the whole row.
unfoldable pub set_cursor : ReaderCursorRow → Db → Db
unfolding drop_cursor
set_cursor row db = record db { reader_cursor = row ∷ drop_cursor row.chain_id db.reader_cursor }

-- `deleteCursor`
unfoldable pub delete_cursor : ℕ → Db → Db
unfolding drop_cursor
delete_cursor chain_id db = record db { reader_cursor = drop_cursor chain_id db.reader_cursor }

pub get_cursor-set_cursor :
    (row : ReaderCursorRow) (db : Db) → get_cursor row.chain_id (set_cursor row db) ≡ some row
unfolding get_cursor set_cursor find_cursor
get_cursor-set_cursor row db =
    let same : (row.chain_id == row.chain_id) ≡ true = ground arith in rw same refl
