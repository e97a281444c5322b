-- ===== src/Api/Historical/Served.antt =====
-- From the archiver to the handler of the archived messages.
use Prim.Native.String.{◌++◌ as ◌⧺◌}
use text.Mathlib.TextLemmas.{append-eq-nil_iff}
use akave_crosschain_archive.Base.{
  ℕ, suc, ◌+◌, ◌/◌, ◌<◌, ◌^◌, String, true, false, some, List, ◌∷◌, map, length, length-map, str_eq,
  ◌≡◌, ◌≢◌, refl, ◌∙◌, arith, eq_iff, eq_refl, ==_refl, str_ne, ok,
}
use akave_crosschain_archive.Base.Bytes.{Bytes}
use akave_crosschain_archive.Base.Decimal.{print_uint, parse_uint-print_uint}
use akave_crosschain_archive.Base.Table.{Table}
use akave_crosschain_archive.Database.{Db}
use akave_crosschain_archive.Normalizer.Numbers.{print_uint_named}
use akave_crosschain_archive.Archiver.Cycle.{
  Formats, Archive, MonthFaults, write_parquet, put_object, object_key, cursor_of, verify_upload,
  archive_file, archive_records, archive_month,
}
use akave_crosschain_archive.Archiver.Objects.{download-put_object}
use akave_crosschain_archive.Archiver.Find.{
  find_cursor, AreKeyed, find_cursor-upsert, find_cursor-sort, upsert_archival_cursor-AreKeyed,
}
use akave_crosschain_archive.Archiver.Months.{month_start, year_month}
use akave_crosschain_archive.Archiver.Records.{
  ParquetRecord, as_stored, records_in, fetch_records_for_archival,
}
use akave_crosschain_archive.Archiver.Store.{
  ArchivalRecord, upsert_archival_cursor, list_archival_cursors,
}
use akave_crosschain_archive.Api.Historical.{
  HistoricalFaults, HistoricalResponse, serve_bytes, serve_file, get_historical_messages_handler,
}
use akave_crosschain_archive.Api.Order.{Collation}
use akave_crosschain_archive.Api.Params.{Params, Response, reply, refuse, or_refuse}

abbrev pub no_month_faults : MonthFaults
no_month_faults = record {
  canceled = false;
  fetch = false;
  upload = false;
  download = false;
  cursor = false;
}

abbrev pub cursor_fault : MonthFaults
cursor_fault = record no_month_faults { cursor = true }

abbrev pub no_historical_faults : HistoricalFaults
no_historical_faults = record { list = false; download = false }

-- A request for a month of a protocol on a chain.
pub record IsRequest (q : Params) (protocol : String) (chain k : ℕ) : Type 0 where
  pub protocol_is : q "protocol" ≡ protocol
  pub chain_is : q "chain_id" ≡ print_uint chain
  pub month_is : q "year_month" ≡ year_month k
  pub named : protocol ≢ ""
  pub small : chain < 2 ^ 64
  pub year : k < 2 ^ 32

append_named : (s t : String) → str_eq s "" ≡ false → str_eq (s ⧺ t) "" ≡ false
append_named s t h =
    str_ne (s ⧺ t) "" (λ e. ground (arith, h, (append-eq-nil_iff.0 e).0, eq_iff s ""))

year_month_named : (k : ℕ) → k < 2 ^ 32 → str_eq (year_month k) "" ≡ false
unfolding year_month
year_month_named k h = append_named _ _ (print_uint_named (2020 + k / 12) (omega arith))

module _ (texts : Collation) (formats : Formats) (names : ℕ → String) where
  -- What a request finds, once its parameters are read.
  request_served :
      (q : Params) (protocol : String) (chain k : ℕ) (s : Archive)
      → IsRequest q protocol chain k
      → AreKeyed s.cursors
      → get_historical_messages_handler texts formats no_historical_faults q s
        ≡ serve_file formats false (find_cursor protocol chain (year_month k) s.cursors) s
  unfolding get_historical_messages_handler list_archival_cursors or_refuse
  request_served q protocol chain k s r keyed =
      rw
        (
          r.protocol_is,
          r.chain_is,
          r.month_is,
          str_ne protocol "" r.named,
          print_uint_named chain r.small,
          year_month_named k r.year,
          parse_uint-print_uint chain r.small,
          find_cursor-sort texts protocol chain (year_month k) s.cursors keyed,
        )
        refl

  module _ (now chain k : ℕ) (protocol : String) (db : Db) (first : ParquetRecord)
      (rest : List ParquetRecord) (bs : Bytes)
      (found : records_in protocol chain (month_start k) (month_start (suc k)) db db.messages
        ≡ first ∷ rest)
      (written : formats.write (first ∷ rest) ≡ ok bs) where
    abbrev pub new_cursor : ArchivalRecord
    new_cursor = cursor_of formats names now protocol chain k first rest bs

    archive_month-file :
        (f : MonthFaults) (s : Archive)
        → f.canceled ≡ false
        → f.fetch ≡ false
        → archive_month formats names f now protocol chain k db s
          ≡ archive_file formats names f now protocol chain k first rest (ok bs) s
    unfolding archive_month archive_records fetch_records_for_archival write_parquet
    archive_month-file f s running fetched = rw (running, fetched, found, written) refl

    abbrev pub put_file : Archive → Archive
    put_file s = record s {
      objects = put_object (object_key formats names protocol chain k) bs s.objects;
    }

    -- The cursor of the month is found behind its upsert.
    find_new :
        (cs : List ArchivalRecord)
        → find_cursor protocol chain (year_month k) (upsert_archival_cursor new_cursor cs)
          ≡ some new_cursor
    find_new cs =
        find_cursor-upsert protocol chain (year_month k) new_cursor cs
        ∙ rw (eq_refl protocol, ==_refl chain, eq_refl (year_month k)) refl

    verified :
        (objects : Table Bytes)
        → verify_upload formats names false new_cursor.object_key new_cursor.checksum
            new_cursor.file_size
            (put_object new_cursor.object_key bs objects)
          ≡ ok tt
    unfolding verify_upload
    verified objects =
        rw
          (
            download-put_object new_cursor.object_key bs objects,
            ==_refl (length bs),
            eq_refl (formats.sha256_hex bs),
          )
          refl

    archived_month : (s : Archive) → Archive
    archived_month s = record (put_file s) { cursors = upsert_archival_cursor new_cursor s.cursors }

    archive_month_done :
        (s : Archive)
        → archive_month formats names no_month_faults now protocol chain k db s
          ≡ (archived_month s, ok (some (ok tt)))
    unfolding archive_file archived_month
    archive_month_done s =
        archive_month-file no_month_faults s refl refl ∙ rw (verified s.objects) refl

    abbrev served : Response HistoricalResponse
    served = reply 200 (record {
      cursor = new_cursor;
      row_count = length (first ∷ rest);
      records = map as_stored (first ∷ rest);
    })

    -- A month that was archived without a fault is verified, and the handler of the archived messages
    -- replies to a request for it with the records that were fetched from the database, the times of
    -- creation and change cut to milliseconds, where no two cursors are of one protocol, chain and
    -- month and Parquet reads back what it writes up to these times.
    pub archived_month_is_served :
        (q : Params) (s : Archive)
        → IsRequest q protocol chain k
        → AreKeyed s.cursors
        → let after = archive_month formats names no_month_faults now protocol chain k db s in
          (after.1 ≡ ok (some (ok tt)))
          × (get_historical_messages_handler texts formats no_historical_faults q after.0 ≡ served)
    unfolding archived_month serve_file serve_bytes or_refuse
    archived_month_is_served q s r keyed = rw (archive_month_done s) (
      refl,
      request_served q protocol chain k (archived_month s) r
            (upsert_archival_cursor-AreKeyed new_cursor s.cursors keyed)
          ∙ rw
              (
                find_new s.cursors,
                download-put_object new_cursor.object_key bs s.objects,
                eq_refl (formats.sha256_hex bs),
                formats.read-write (first ∷ rest) bs written,
              )
              (ground (arith, length-map as_stored rest)),
    )

    archive_month_cut :
        (s : Archive)
        → (archive_month formats names cursor_fault now protocol chain k db s).0 ≡ put_file s
    unfolding archive_file
    archive_month_cut s = rw (archive_month-file cursor_fault s refl refl) refl

    -- Where a month was archived before with a checksum and under the same key, and the checksum of
    -- its records has changed since, a cycle that puts the new file and then fails to write its cursor
    -- leaves a file that the handler of the archived messages refuses, with an error of the server.
    pub stale_cursor_refuses :
        (q : Params) (s : Archive) (old : ArchivalRecord)
        → IsRequest q protocol chain k
        → AreKeyed s.cursors
        → find_cursor protocol chain (year_month k) s.cursors ≡ some old
        → old.object_key ≡ object_key formats names protocol chain k
        → old.checksum ≢ ""
        → formats.sha256_hex bs ≢ old.checksum
        → get_historical_messages_handler texts formats no_historical_faults q
            (archive_month formats names cursor_fault now protocol chain k db s).0
          ≡ refuse 500 "checksum mismatch: archive integrity check failed"
    unfolding serve_file serve_bytes or_refuse
    stale_cursor_refuses q s old r keyed known same_key summed changed = rw (archive_month_cut s) (
        request_served q protocol chain k (put_file s) r keyed
        ∙ rw
            (
              known,
              same_key,
              download-put_object (object_key formats names protocol chain k) bs s.objects,
              str_ne old.checksum "" summed,
              str_ne (formats.sha256_hex bs) old.checksum changed,
            )
            refl)
