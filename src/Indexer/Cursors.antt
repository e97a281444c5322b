-- ===== src/Indexer/Cursors.antt =====
-- The indexing cursors, of internal/indexer/cursor.go and the table indexer_cursors of
-- migrations/000001_init_schema.up.sql. Whether a statement fails is an argument.
use akave_crosschain_archive.Base.{
  ℕ, String, Bool, true, false, ◌&&◌, List, [], ◌∷◌, ◌≡◌, arith, str_eq, eq_iff, ◌==◌,
  if◌then◌else◌, Result, ok, err, failure,
}
use akave_crosschain_archive.Database.{exec}

-- `CursorStore`: a load may change the state too, as that of cmd/backfill does.
pub record CursorStore {ℓ} (S : Type ℓ) : Type ℓ where
  pub load_cursor : ℕ → String → S → S × Result ℕ
  pub update_cursor : ℕ → String → ℕ → S → S × Result (Unit {0})

pub record CursorRow : Type 0 where
  pub chain_id : ℕ
  pub protocol : String
  pub last_block : ℕ

-- WHERE chain_id = … AND protocol = …
abbrev pub is_cursor_of : ℕ → String → CursorRow → Bool
is_cursor_of chain name row = (row.chain_id == chain) && str_eq row.protocol name

-- SELECT last_block …; 0 where there is no row
unfoldable pub last_block_of : ℕ → String → List CursorRow → ℕ
last_block_of chain name [] = 0
last_block_of chain name (row ∷ rows) =
    if is_cursor_of chain name row then row.last_block else last_block_of chain name rows

-- INSERT … ON CONFLICT (chain_id, protocol) DO UPDATE SET last_block = …
unfoldable pub set_last_block : ℕ → String → ℕ → List CursorRow → List CursorRow
set_last_block chain name block [] =
    record { chain_id = chain; protocol = name; last_block = block } ∷ []
set_last_block chain name block (row ∷ rows) =
    if is_cursor_of chain name row
    then record row { last_block = block } ∷ rows
    else row ∷ set_last_block chain name block rows

-- `LoadCursor` and `UpdateCursor` of `PostgresCursorStore`
abbrev pub load_row : Bool → ℕ → String → List CursorRow → Result ℕ
load_row broken chain name rows = exec "loading cursor" broken (ok (last_block_of chain name rows))

abbrev pub update_row : Bool → ℕ → String → ℕ → List CursorRow → List CursorRow × Result (Unit {0})
update_row true chain name block rows = (rows, err (failure "updating cursor"))
update_row false chain name block rows = (set_last_block chain name block rows, ok tt)

-- The cursor that was set is read back, and every other one stays.
pub last_block_of-set_last_block :
    (chain other : ℕ) (name word : String) (block : ℕ) (rows : List CursorRow)
    → last_block_of other word (set_last_block chain name block rows)
      ≡ (if (chain == other) && str_eq name word then block else last_block_of other word rows)
unfolding last_block_of set_last_block
last_block_of-set_last_block chain other name word block [] = ground arith
last_block_of-set_last_block chain other name word block (row ∷ rows) = ground (
  arith,
  eq_iff name word,
  eq_iff row.protocol name,
  eq_iff row.protocol word,
  last_block_of-set_last_block chain other name word block rows,
)
