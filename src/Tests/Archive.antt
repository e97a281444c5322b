-- ===== src/Tests/Archive.antt =====
-- Runs of the archiver and of the handler of archived messages: one message of January 2020.
use akave_crosschain_archive.Base.{
  ℕ, String, some, [], ◌∷◌, str_eq, if◌then◌else◌, ◌≡◌, ◌≢◌, refl, arith, sym, eq_refl, ok, eq_iff,
}
use mathlib.Core.Bool.{false≢true}
use akave_crosschain_archive.Base.Decimal.{print_uint, print_loop}
use akave_crosschain_archive.Base.Bytes.{hex_text}
use akave_crosschain_archive.Base.Int.{pos}
use akave_crosschain_archive.Base.Table.{lookup}
use akave_crosschain_archive.Database.{Db}
use akave_crosschain_archive.Api.Historical.Served.{
  IsRequest, no_month_faults, cursor_fault, no_historical_faults, archived_month_is_served,
  stale_cursor_refuses,
}
use akave_crosschain_archive.Api.Historical.{get_historical_messages_handler}
use akave_crosschain_archive.Api.Params.{Params, reply, refuse}
use akave_crosschain_archive.Archiver.Cycle.{Archive, archive_month, cursor_of, object_key}
use akave_crosschain_archive.Archiver.Find.{find_cursor}
use akave_crosschain_archive.Archiver.Months.{month_start, year_month}
use akave_crosschain_archive.Archiver.Records.{
  ParquetRecord, as_stored, flatten, records_in, insert_record, record_at, is_wanted,
}
use akave_crosschain_archive.Archiver.Store.{ArchivalRecord}
use akave_crosschain_archive.Tests.Codec.{put_many, put_text}
use akave_crosschain_archive.Tests.Codec.Records.{plain, write_stored, write_records}
use akave_crosschain_archive.Tests.Data.{waiting, waiting_row, sender}
use akave_crosschain_archive.Tests.Listing.{by_characters}
use akave_crosschain_archive.Types.{Source}

abbrev in_january : Source
in_january = record sender { timestamp = pos 1577836900 }

abbrev db : Db
db = record (waiting "ccip") { sources = ("0x01", in_january) ∷ [] }

abbrev row : ParquetRecord
row = flatten db "0x01" (waiting_row "ccip") in_january

found : records_in "ccip" 1 (month_start 0) (month_start 1) db db.messages ≡ row ∷ []
unfolding records_in record_at is_wanted month_start insert_record lookup
found = refl

abbrev empty : Archive
empty = record { cursors = []; objects = [] }

abbrev no_names : ℕ → String
no_names chain = ""

abbrev ask : Params
ask name =
    if str_eq name "protocol"
    then "ccip"
    else if str_eq name "chain_id"
    then "1"
    else if str_eq name "year_month"
    then "2020-01"
    else ""

one : print_uint 1 ≡ "1"
unfolding print_uint print_loop
one = refl

january : year_month 0 ≡ "2020-01"
unfolding year_month print_uint print_loop
january = refl

ask-IsRequest : IsRequest ask "ccip" 1 0
ask-IsRequest = record {
  protocol_is = refl;
  chain_is = sym one;
  month_is = sym january;
  named = ground (arith, eq_iff "ccip" "");
  small = omega arith;
  year = omega arith;
}

archived_month_is_served_example :
    let after = archive_month plain no_names no_month_faults 9 "ccip" 1 0 db empty in
    (after.1 ≡ ok (some (ok tt)))
    × (get_historical_messages_handler by_characters plain no_historical_faults ask after.0
        ≡ reply 200 (record {
          cursor = cursor_of plain no_names 9 "ccip" 1 0 row [] (write_stored (row ∷ []));
          row_count = 1;
          records = as_stored row ∷ [];
        }))
archived_month_is_served_example =
    archived_month_is_served by_characters plain no_names 9 1 0 "ccip" db row []
      (write_stored (row ∷ [])) found refl ask empty ask-IsRequest tt

-- An earlier file of the same month.
abbrev old : ArchivalRecord
old = record (cursor_of plain no_names 5 "ccip" 1 0 row [] []) { checksum = "0a" }

abbrev before : Archive
before = record { cursors = old ∷ []; objects = [] }

known : find_cursor "ccip" 1 (year_month 0) before.cursors ≡ some old
unfolding find_cursor
known = rw (eq_refl (year_month 0)) refl

changed : hex_text (write_stored (row ∷ [])) ≢ "0a"
unfolding hex_text write_records put_many put_text lookup
changed e = false≢true ((eq_iff (hex_text (write_stored (row ∷ []))) "0a").1 e)

stale_cursor_refuses_example :
    get_historical_messages_handler by_characters plain no_historical_faults ask
      (archive_month plain no_names cursor_fault 9 "ccip" 1 0 db before).0
    ≡ refuse 500 "checksum mismatch: archive integrity check failed"
unfolding find_cursor
stale_cursor_refuses_example =
    stale_cursor_refuses by_characters plain no_names 9 1 0 "ccip" db row []
      (write_stored (row ∷ [])) found refl ask before old ask-IsRequest (refl, tt) known refl
      (ground (arith, eq_iff "0a" "")) changed

-- The months of the other protocols and chains have other keys.
key_of : String → ℕ → String
key_of protocol chain = object_key plain no_names protocol chain 0
