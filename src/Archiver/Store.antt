-- ===== src/Archiver/Store.antt =====
-- The archival cursors of internal/archiver/store.go, and the manifest of manifest.go.
use Prim.Native.String.{◌++◌ as ◌⧺◌}
use akave_crosschain_archive.Base.{
  ℕ, ◌+◌, String, Bool, ◌&&◌, ◌||◌, List, [], ◌∷◌, length, str_eq, ltb, ◌==◌, if◌then◌else◌, Result,
  ok,
}
use akave_crosschain_archive.Base.Decimal.{print_uint}
use akave_crosschain_archive.Base.Int.{ℤ}
use akave_crosschain_archive.Database.{exec}
use akave_crosschain_archive.Api.Order.{Collation}

-- `ArchivalRecord`
pub record ArchivalRecord : Type 0 where
  pub protocol : String
  pub chain_id : ℕ
  pub year_month : String
  pub row_count : ℕ
  pub min_timestamp : ℤ
  pub max_timestamp : ℤ
  pub file_size : ℕ
  pub object_key : String
  pub checksum : String
  pub archived_at : ℕ

-- `c.Protocol == protocol && c.ChainID == chainID && c.YearMonth == yearMonth`
abbrev pub is_for : String → ℕ → String → ArchivalRecord → Bool
is_for protocol chain month c =
    str_eq c.protocol protocol && c.chain_id == chain && str_eq c.year_month month

-- `UpsertArchivalCursor`: INSERT … ON CONFLICT (protocol, chain_id, year_month) DO UPDATE
unfoldable pub upsert_archival_cursor : ArchivalRecord → List ArchivalRecord → List ArchivalRecord
upsert_archival_cursor rec [] = rec ∷ []
upsert_archival_cursor rec (c ∷ cs) =
    if is_for rec.protocol rec.chain_id rec.year_month c
    then rec ∷ cs
    else c ∷ upsert_archival_cursor rec cs

module _ (texts : Collation) where
  -- (protocol, chain_id, year_month) < (protocol, chain_id, year_month)
  unfoldable pub cursor_lt : ArchivalRecord → ArchivalRecord → Bool
  cursor_lt a b =
      texts.before a.protocol b.protocol
      || str_eq a.protocol b.protocol
        && (ltb a.chain_id b.chain_id
            || a.chain_id == b.chain_id && texts.before a.year_month b.year_month)

  unfoldable pub insert_cursor : ArchivalRecord → List ArchivalRecord → List ArchivalRecord
  insert_cursor c [] = c ∷ []
  insert_cursor c (d ∷ ds) = if cursor_lt c d then c ∷ d ∷ ds else d ∷ insert_cursor c ds

  -- ORDER BY protocol, chain_id, year_month
  unfoldable pub sort_cursors : List ArchivalRecord → List ArchivalRecord
  sort_cursors [] = []
  sort_cursors (c ∷ cs) = insert_cursor c (sort_cursors cs)

  -- `ListArchivalCursors`
  unfoldable pub list_archival_cursors : Bool → List ArchivalRecord → Result (List ArchivalRecord)
  list_archival_cursors fails cs = exec "listing archival cursors" fails (ok (sort_cursors cs))

-- `ManifestEntry`
pub record ManifestEntry : Type 0 where
  pub cursor : ArchivalRecord
  pub chain_name : String

-- `Manifest`
pub record Manifest : Type 0 where
  pub version : ℕ
  pub updated_at : ℕ
  pub total_files : ℕ
  pub total_rows : ℕ
  pub files : List ManifestEntry

-- The name of a chain, or "chain_%d" where it has none.
abbrev pub chain_name : (ℕ → String) → ℕ → String
chain_name names chain =
    if str_eq (names chain) "" then "chain_" ⧺ print_uint chain else names chain

unfoldable pub manifest_entries : (ℕ → String) → List ArchivalRecord → List ManifestEntry
manifest_entries names [] = []
manifest_entries names (c ∷ cs) =
    record { cursor = c; chain_name = chain_name names c.chain_id } ∷ manifest_entries names cs

unfoldable pub sum_rows : List ArchivalRecord → ℕ
sum_rows [] = 0
sum_rows (c ∷ cs) = c.row_count + sum_rows cs

-- `BuildManifest`
unfoldable pub build_manifest : ℕ → (ℕ → String) → List ArchivalRecord → Manifest
build_manifest now names cs =
    let entries = manifest_entries names cs in
    record {
      version = 1;
      updated_at = now;
      total_files = length entries;
      total_rows = sum_rows cs;
      files = entries;
    }
