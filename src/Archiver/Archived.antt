-- ===== src/Archiver/Archived.antt =====
-- One month without faults: the body of the loop of archiveChainProtocol, internal/archiver/archiver.go.
use akave_crosschain_archive.Base.{
  ℕ, suc, map, str_eq, str_ne, ◌<◌, String, true, false, some, List, [], ◌∷◌, ◌≡◌, ◌≢◌, refl, sym,
  subst, ◌∙◌, arith, eq_iff, eq_refl, ==_refl, inl, inr, Bool-cases, Result, ok,
}
use akave_crosschain_archive.Base.Bytes.{Bytes}
use akave_crosschain_archive.Base.Table.{lookup, lookup-upsert}
use mathlib.Core.Bool.{false≢true}
use akave_crosschain_archive.Database.{Db}
use akave_crosschain_archive.Archiver.Cycle.{
  Formats, Archive, MonthFaults, write_parquet, cursor_of, archive_file, archive_records,
  archive_month, object_key, put_object,
}
use akave_crosschain_archive.Archiver.Find.{find_cursor, find_cursor-upsert}
use akave_crosschain_archive.Archiver.Months.{month_start, year_month}
use akave_crosschain_archive.Archiver.Objects.{lookup-put_object}
use akave_crosschain_archive.Archiver.Records.{
  ParquetRecord, as_stored, records_in, fetch_records_for_archival,
}
use akave_crosschain_archive.Archiver.Store.{ArchivalRecord, is_for, upsert_archival_cursor}

abbrev pub no_faults : MonthFaults
no_faults = record {
  canceled = false;
  fetch = false;
  upload = false;
  download = false;
  cursor = false;
}

-- Parquet writes any records, and JSON any manifest.
pub record Writes (formats : Formats) : Type 0 where
  pub file : ParquetRecord → List ParquetRecord → Bytes
  pub writes :
      (r : ParquetRecord) (rs : List ParquetRecord) → formats.write (r ∷ rs) ≡ ok (file r rs)

abbrev pub records_of : String → ℕ → ℕ → Db → List ParquetRecord
records_of protocol chain k db =
    records_in protocol chain (month_start k) (month_start (suc k)) db db.messages

-- The month is archived: its cursor has the key and the checksum of a file that is stored under the
-- key, and the file is read as the records of the month.
pub record IsArchived (formats : Formats) (names : ℕ → String) (db : Db) (protocol : String)
    (chain k : ℕ) (s : Archive) : Type 0 where
  pub file : Bytes
  pub cursor : ArchivalRecord
  pub has_cursor : find_cursor protocol chain (year_month k) s.cursors ≡ some cursor
  pub has_key : cursor.object_key ≡ object_key formats names protocol chain k
  pub has_sum : cursor.checksum ≡ formats.sha256_hex file
  pub has_file : lookup (object_key formats names protocol chain k) s.objects ≡ some file
  pub is_read : formats.read file ≡ ok (map as_stored (records_of protocol chain k db))

module _ (formats : Formats) (names : ℕ → String) (w : Writes formats) (now : ℕ) (db : Db) where
  abbrev Archived : String → ℕ → ℕ → Archive → Type 0
  Archived = IsArchived formats names db

  -- A month whose file has the key of another is that other month.
  abbrev pub IsApart : String → ℕ → ℕ → String → ℕ → ℕ → Type 0
  IsApart p c j protocol chain k =
      object_key formats names protocol chain k ≡ object_key formats names p c j
      → (protocol ≡ p) × (chain ≡ c) × (k ≡ j)

  -- The months before n of a protocol on a chain.
  abbrev pub AreApart : String → ℕ → ℕ → ℕ → String → ℕ → Type 0
  AreApart p c j n protocol chain = (i : ℕ) → i < n → IsApart p c j protocol chain i

  -- One month, by its records.
  pub month_of_records :
      (protocol : String) (chain k : ℕ) (rs : List ParquetRecord) (s : Archive)
      → records_of protocol chain k db ≡ rs
      → archive_month formats names no_faults now protocol chain k db s
        ≡ archive_records formats names no_faults now protocol chain k (ok rs) s
  unfolding archive_month fetch_records_for_archival
  month_of_records protocol chain k rs s e = rw e refl

  -- The state behind a month with records.
  abbrev written : String → ℕ → ℕ → ParquetRecord → List ParquetRecord → Archive → Archive
  written protocol chain k r rs s =
      let bs = w.file r rs in
      record {
        cursors =
            upsert_archival_cursor (cursor_of formats names now protocol chain k r rs bs) s.cursors;
        objects = put_object (object_key formats names protocol chain k) bs s.objects;
      }

  month_written :
      (protocol : String) (chain k : ℕ) (r : ParquetRecord) (rs : List ParquetRecord) (s : Archive)
      → (archive_records formats names no_faults now protocol chain k (ok (r ∷ rs)) s).0
        ≡ written protocol chain k r rs s
  unfolding archive_records archive_file write_parquet
  month_written protocol chain k r rs s = rw (w.writes r rs) refl

  written-IsArchived :
      (protocol : String) (chain k : ℕ) (r : ParquetRecord) (rs : List ParquetRecord) (s : Archive)
      → records_of protocol chain k db ≡ r ∷ rs
      → Archived protocol chain k (written protocol chain k r rs s)
  written-IsArchived protocol chain k r rs s e = record {
    file = w.file r rs;
    cursor = cursor_of formats names now protocol chain k r rs (w.file r rs);
    has_cursor =
        find_cursor-upsert protocol chain (year_month k) _ s.cursors
        ∙ rw (eq_refl protocol, ==_refl chain, eq_refl (year_month k)) refl;
    has_key = refl;
    has_sum = refl;
    has_file =
        lookup-put_object (object_key formats names protocol chain k) (w.file r rs) s.objects;
    is_read = rw e (formats.read-write (r ∷ rs) (w.file r rs) (w.writes r rs));
  }

  same_key :
      (p : String) (c j : ℕ) (protocol : String) (chain k : ℕ) (r : ParquetRecord)
      (rs : List ParquetRecord)
      → is_for p c (year_month j) (cursor_of formats names now protocol chain k r rs (w.file r rs))
        ≡ true
      → object_key formats names protocol chain k ≡ object_key formats names p c j
  same_key p c j protocol chain k r rs e =
      let q : protocol ≡ p = ground (arith, eq_iff protocol p) in
      let d : chain ≡ c = ground arith in
      let i : year_month k ≡ year_month j = ground (arith, eq_iff (year_month k) (year_month j)) in
      rw (q, d, i) refl

  -- The file of another month has another key, and its cursor is of another month.
  written_keeps :
      (p : String) (c j : ℕ) (protocol : String) (chain k : ℕ) (r : ParquetRecord)
      (rs : List ParquetRecord) (s : Archive)
      → object_key formats names protocol chain k ≢ object_key formats names p c j
      → Archived p c j s
      → Archived p c j (written protocol chain k r rs s)
  written_keeps p c j protocol chain k r rs s other h = record {
    file = h.file;
    cursor = h.cursor;
    has_cursor =
        find_cursor-upsert p c (year_month j) _ s.cursors
        ∙ elim (Bool-cases (
            is_for p c (year_month j)
              (cursor_of formats names now protocol chain k r rs (w.file r rs)))) [
                | inl e ↦ absurd (other (same_key p c j protocol chain k r rs e))
                | inr e ↦ rw e h.has_cursor
              ];
    has_key = h.has_key;
    has_sum = h.has_sum;
    has_file =
        lookup-upsert _ _ (w.file r rs) (λ _. w.file r rs) s.objects
        ∙ rw (str_ne _ _ other) h.has_file;
    is_read = h.is_read;
  }

  pub month_keeps :
      (p : String) (c j : ℕ) (protocol : String) (chain k : ℕ) (rs : List ParquetRecord)
      (s : Archive)
      → records_of protocol chain k db ≡ rs
      → IsApart p c j protocol chain k
      → Archived p c j s
      → Archived p c j (archive_records formats names no_faults now protocol chain k (ok rs) s).0
  month_keeps p c j protocol chain k [] s e apart h = unfold archive_records in h
  month_keeps p c j protocol chain k (r ∷ rs) s e apart h =
      subst (Archived p c j) (sym (month_written protocol chain k r rs s))
        (elim (Bool-cases
          (str_eq (object_key formats names protocol chain k) (object_key formats names p c j))) [
            | inl same ↦
                let (q, d, i) = apart ((eq_iff _ _).0 same) in
                rw (← q, ← d, ← i) (written-IsArchived protocol chain k r rs s e)
            | inr differs ↦
                written_keeps p c j protocol chain k r rs s
                  (λ same. false≢true (sym differs ∙ (eq_iff _ _).1 same)) h
          ])

  pub month_archives :
      (protocol : String) (chain k : ℕ) (rs : List ParquetRecord) (s : Archive)
      → records_of protocol chain k db ≡ rs
      → rs ≢ []
      → let after = archive_records formats names no_faults now protocol chain k (ok rs) s in
        Archived protocol chain k after.0 × ((v : Result (Unit {0})) × (after.1 ≡ ok (some v)))
  unfolding archive_records archive_file write_parquet
  month_archives protocol chain k [] s e h = absurd (h refl)
  month_archives protocol chain k (r ∷ rs) s e h = (
    subst (Archived protocol chain k) (sym (month_written protocol chain k r rs s))
        (written-IsArchived protocol chain k r rs s e),
    rw (w.writes r rs) (_, refl),
  )
