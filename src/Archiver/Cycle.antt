-- ===== src/Archiver/Cycle.antt =====
-- The archival cycle of internal/archiver/archiver.go. The encodings (Parquet, JSON, SHA-256) and the
-- clock are arguments; the object storage keeps what was last put under a key, and which calls fail
-- is an argument.
use Prim.Native.String.{◌++◌ as ◌⧺◌}
use akave_crosschain_archive.Base.{
  ℕ, zero, suc, ◌+◌, String, Bool, true, false, not, Option, none, some, List, [], ◌∷◌, map, length,
  str_eq, ltb, ◌==◌, if◌then◌else◌, ◌≡◌, Result, ok, err, failure, wrap, canceled, context, ◌>>=◌,
}
use akave_crosschain_archive.Base.Bytes.{Bytes}
use akave_crosschain_archive.Base.Int.{ℤ, leℤ}
use akave_crosschain_archive.Base.Table.{Table, lookup, upsert}
use akave_crosschain_archive.Database.{Db}
use akave_crosschain_archive.Archiver.Months.{month_start, year_month}
use akave_crosschain_archive.Archiver.Records.{ParquetRecord, as_stored, fetch_records_for_archival}
use akave_crosschain_archive.Archiver.Store.{
  ArchivalRecord, upsert_archival_cursor, list_archival_cursors, chain_name, Manifest,
  build_manifest,
}
use akave_crosschain_archive.Api.Order.{Collation}

-- The encodings. What was written is read back, with its times cut to milliseconds.
pub record Formats : Type 0 where
  pub write : List ParquetRecord → Result Bytes
  pub read : Bytes → Result (List ParquetRecord)
  pub sha256_hex : Bytes → String
  pub marshal : Manifest → Result Bytes
  pub read-write :
      (rs : List ParquetRecord) (bs : Bytes) → write rs ≡ ok bs → read bs ≡ ok (map as_stored rs)

-- The database of cursors and the object storage.
pub record Archive : Type 0 where
  pub cursors : List ArchivalRecord
  pub objects : Table Bytes

-- What fails while one month is archived.
pub record MonthFaults : Type 0 where
  pub canceled : Bool
  pub fetch : Bool
  pub upload : Bool
  pub download : Bool
  pub cursor : Bool

-- What fails in a cycle, by protocol, chain and month.
pub record CycleFaults : Type 0 where
  pub month : String → ℕ → ℕ → MonthFaults
  pub list : Bool
  pub upload : Bool

-- `WriteParquet`
unfoldable pub write_parquet : Formats → List ParquetRecord → Result Bytes
write_parquet formats [] = err (failure "no records to write")
write_parquet formats (r ∷ rs) = context "writing parquet records" (formats.write (r ∷ rs))

-- `Upload`
abbrev pub put_object : String → Bytes → Table Bytes → Table Bytes
put_object key bs objects = upsert key bs (λ _. bs) objects

unfoldable pub download : Bool → String → Table Bytes → Result Bytes
download true key objects = err (failure "downloading")
download false key objects = elim (lookup key objects) [
  | none ↦ err (failure "downloading")
  | some bs ↦ ok bs
]

-- `ManifestKey`
abbrev pub manifest_key : String
manifest_key = "manifests/index.json"

abbrev pub min_timestamp : ℤ → List ParquetRecord → ℤ
min_timestamp t [] = t
min_timestamp t (r ∷ rs) = min_timestamp (if leℤ t r.src_timestamp then t else r.src_timestamp) rs

abbrev pub max_timestamp : ℤ → List ParquetRecord → ℤ
max_timestamp t [] = t
max_timestamp t (r ∷ rs) = max_timestamp (if leℤ r.src_timestamp t then t else r.src_timestamp) rs

-- `count++`, and the return on an error with the count so far.
abbrev pub counted : Option (Result (Unit {0})) → ℕ
counted none = 0
counted (some _) = 1

abbrev pub go_on :
    Archive × Result (Option (Result (Unit {0})))
    → (Archive → Archive × ℕ × Result (Unit {0}))
    → Archive × ℕ × Result (Unit {0})
go_on (s, err e) next = (s, 0, err e)
go_on (s, ok done) next = let (s', n, r) = next s in (s', counted done + n, r)

-- `continue` on an error, before the count is added.
abbrev pub added : ℕ → Result (Unit {0}) → ℕ → ℕ
added n (err e) total = total
added n (ok _) total = total + n

module _ (formats : Formats) (names : ℕ → String) where
  abbrev pub object_key : String → ℕ → ℕ → String
  object_key protocol chain k =
      "protocols/"
      ⧺ (protocol ⧺ ("/" ⧺ (chain_name names chain ⧺ ("/" ⧺ (year_month k ⧺ ".parquet")))))

  abbrev pub cursor_of :
      ℕ → String → ℕ → ℕ → ParquetRecord → List ParquetRecord → Bytes → ArchivalRecord
  cursor_of now protocol chain k first rest bs = record {
    protocol = protocol;
    chain_id = chain;
    year_month = year_month k;
    row_count = length (first ∷ rest);
    min_timestamp = min_timestamp first.src_timestamp rest;
    max_timestamp = max_timestamp first.src_timestamp rest;
    file_size = length bs;
    object_key = object_key protocol chain k;
    checksum = formats.sha256_hex bs;
    archived_at = now;
  }

  -- `verifyUpload`
  unfoldable pub verify_upload : Bool → String → String → ℕ → Table Bytes → Result (Unit {0})
  verify_upload fails key checksum size objects =
      context "downloading for verification" (download fails key objects) >>= λ bs.
      if not (length bs == size)
      then err (failure "size mismatch")
      else if str_eq (formats.sha256_hex bs) checksum
      then ok tt
      else err (failure "checksum mismatch")

  -- The rest of a month, once its file is encoded. The outcome of the verification is only logged.
  unfoldable pub archive_file :
      MonthFaults
      → ℕ
      → String
      → ℕ
      → ℕ
      → ParquetRecord
      → List ParquetRecord
      → Result Bytes
      → Archive
      → Archive × Result (Option (Result (Unit {0})))
  archive_file f now protocol chain k first rest (err e) s = (s, err e)
  archive_file f now protocol chain k first rest (ok bs) s =
      let key = object_key protocol chain k in
      let rec = cursor_of now protocol chain k first rest bs in
      let s₁ = record s { objects = put_object key bs s.objects } in
      let verified = verify_upload f.download key rec.checksum rec.file_size s₁.objects in
      if f.upload
      then (s, err (failure "uploading"))
      else if f.cursor
      then (s₁, err (failure "recording archival cursor"))
      else (record s₁ { cursors = upsert_archival_cursor rec s.cursors }, ok (some verified))

  -- A month without records is passed over.
  unfoldable pub archive_records :
      MonthFaults
      → ℕ
      → String
      → ℕ
      → ℕ
      → Result (List ParquetRecord)
      → Archive
      → Archive × Result (Option (Result (Unit {0})))
  archive_records f now protocol chain k (err e) s = (s, err e)
  archive_records f now protocol chain k (ok []) s = (s, ok none)
  archive_records f now protocol chain k (ok (first ∷ rest)) s =
      archive_file f now protocol chain k first rest
        (context "writing parquet" (write_parquet formats (first ∷ rest))) s

  -- The body of the loop of `archiveChainProtocol`.
  unfoldable pub archive_month :
      MonthFaults
      → ℕ
      → String
      → ℕ
      → ℕ
      → Db
      → Archive
      → Archive × Result (Option (Result (Unit {0})))
  archive_month f now protocol chain k db s =
      if f.canceled
      then (s, err canceled)
      else archive_records f now protocol chain k
          (context "fetching records" (
            fetch_records_for_archival f.fetch protocol chain (month_start k) (month_start (suc k))
              db))
          s

  -- `archiveChainProtocol` from month k on, with so many months left before the current one.
  unfoldable pub archive_months :
      (ℕ → MonthFaults) → ℕ → String → ℕ → ℕ → ℕ → Db → Archive → Archive × ℕ × Result (Unit {0})
  archive_months f now protocol chain zero k db s = (s, 0, ok tt)
  archive_months f now protocol chain (suc left) k db s =
      go_on (archive_month (f k) now protocol chain k db s)
        (archive_months f now protocol chain left (suc k) db)

  -- The loop over the chains of a protocol, with the files archived so far.
  unfoldable pub archive_chains :
      CycleFaults → ℕ → ℕ → Db → String → List ℕ → Archive × ℕ → Archive × ℕ
  archive_chains f now current db protocol [] (s, total) = (s, total)
  archive_chains f now current db protocol (chain ∷ chains) (s, total) =
      let (s', n, r) = archive_months (f.month protocol chain) now protocol chain current 0 db s in
      archive_chains f now current db protocol chains (s', added n r total)

  unfoldable pub archive_protocols :
      CycleFaults → ℕ → ℕ → Db → List ℕ → List String → Archive × ℕ → Archive × ℕ
  archive_protocols f now current db chains [] st = st
  archive_protocols f now current db chains (protocol ∷ protocols) st =
      archive_protocols f now current db chains protocols
        (archive_chains f now current db protocol chains st)

  -- `updateManifest`
  unfoldable pub manifest_file : Collation → Bool → ℕ → Archive → Result Bytes
  manifest_file texts fails now s = do
    cs ← context "listing archival cursors" (list_archival_cursors texts fails s.cursors)
    context "marshaling manifest" (formats.marshal (build_manifest now names cs))

  unfoldable pub put_manifest : Bool → Result Bytes → Archive → Archive × Result (Unit {0})
  put_manifest fails (err e) s = (s, err (wrap "updating manifest" e))
  put_manifest true (ok bs) s = (s, err (wrap "updating manifest" (failure "uploading manifest")))
  put_manifest false (ok bs) s =
      (record s { objects = put_object manifest_key bs s.objects }, ok tt)

  -- `runCycle`, in the month `current`, for the protocols and chains that are configured.
  unfoldable pub run_cycle :
      Collation
      → CycleFaults
      → ℕ
      → ℕ
      → List String
      → List ℕ
      → Db
      → Archive
      → Archive × Result (Unit {0})
  run_cycle texts f now current protocols chains db s =
      let (s', archived) = archive_protocols f now current db chains protocols (s, 0) in
      if ltb 0 archived
      then put_manifest f.upload (manifest_file texts f.list now s') s'
      else (s', ok tt)
