-- ===== src/Api/Historical.antt =====
-- The archived files over HTTP, of internal/api/historical_handler.go.
pub mod Served
use akave_crosschain_archive.Base.{
  ℕ, String, Bool, true, false, ◌||◌, ◌&&◌, Option, none, some, List, [], ◌∷◌, length, str_eq,
  if◌then◌else◌, Result, ok, err,
}
use akave_crosschain_archive.Base.Bytes.{Bytes}
use akave_crosschain_archive.Base.Decimal.{parse_uint, to_result}
use akave_crosschain_archive.Archiver.Cycle.{Formats, Archive, download}
use akave_crosschain_archive.Archiver.Find.{find_cursor}
use akave_crosschain_archive.Archiver.Records.{ParquetRecord}
use akave_crosschain_archive.Archiver.Store.{ArchivalRecord, list_archival_cursors}
use akave_crosschain_archive.Api.Order.{Collation}
use akave_crosschain_archive.Api.Params.{Params, Response, reply, refuse, or_refuse}

-- What fails: the list of the cursors, and the download.
pub record HistoricalFaults : Type 0 where
  pub list : Bool
  pub download : Bool

-- The loop over the cursors is `find_cursor`.
pub record HistoricalResponse : Type 0 where
  pub cursor : ArchivalRecord
  pub row_count : ℕ
  pub records : List ParquetRecord

module _ (formats : Formats) where
  -- The reply once the bytes are there.
  unfoldable pub serve_bytes : ArchivalRecord → Bytes → Response HistoricalResponse
  serve_bytes rec bs =
      if str_eq rec.checksum "" || str_eq (formats.sha256_hex bs) rec.checksum
      then or_refuse 500 "failed to deserialize archive" (formats.read bs)
          (λ rs. reply 200 (record { cursor = rec; row_count = length rs; records = rs }))
      else refuse 500 "checksum mismatch: archive integrity check failed"

  unfoldable pub serve_file : Bool → Option ArchivalRecord → Archive → Response HistoricalResponse
  serve_file fails none s = refuse 404 "no archived data found for the requested period"
  serve_file fails (some rec) s =
      or_refuse 502 "failed to download archive" (download fails rec.object_key s.objects)
        (serve_bytes rec)

module _ (texts : Collation) (formats : Formats) where
  -- `GetHistoricalMessagesHandler`
  unfoldable pub get_historical_messages_handler :
      HistoricalFaults → Params → Archive → Response HistoricalResponse
  get_historical_messages_handler f q s =
      if str_eq (q "protocol") "" || str_eq (q "chain_id") "" || str_eq (q "year_month") ""
      then refuse 400 "protocol, chain_id and year_month are required"
      else or_refuse 400 "invalid chain_id" (to_result (parse_uint (q "chain_id"))) (λ chain.
        or_refuse 500 "failed to query archival index"
          (list_archival_cursors texts f.list s.cursors)
          (λ cs.
            serve_file formats f.download (find_cursor (q "protocol") chain (q "year_month") cs) s))

-- `GetHistoricalIndexHandler`
unfoldable pub get_historical_index_handler :
    Collation → Bool → Archive → Response (ℕ × List ArchivalRecord)
get_historical_index_handler texts fails s =
    or_refuse 500 "failed to query archival index" (list_archival_cursors texts fails s.cursors)
      (λ cs. reply 200 (length cs, cs))
