-- ===== src/Api/Rows.antt =====
-- The rows that the queries of internal/api/message_querier.go join and scan, over the tables of the
-- message store.
use akave_crosschain_archive.Base.{String, Option, none, some, List, [], ◌∷◌}
use akave_crosschain_archive.Base.Table.{Table, lookup}
use akave_crosschain_archive.Database.{Db, MessageRow, PayloadRow}
use akave_crosschain_archive.Store.{text_or_empty}
use akave_crosschain_archive.Types.{
  MessageStatus, no_status, pending, executed, failed, Source, Payload, Message,
}

-- The text of a status.
abbrev pub status_text : MessageStatus → String
status_text no_status = ""
status_text pending = "pending"
status_text executed = "executed"
status_text failed = "failed"

-- A NULL reads as the zero value.
abbrev pub payload_of : Option PayloadRow → Option Payload
payload_of none = none
payload_of (some p) = some (record {
  token = text_or_empty p.token;
  amount = text_or_empty p.amount;
  content = text_or_empty p.content;
  nonce = p.nonce;
})

-- `scanFullMessage` of a row of `baseSelect`: a part is nil where no row of its table joins.
abbrev pub scan_full_message : Db → String → MessageRow → Source → Message
scan_full_message db id row src = record {
  message_id = id;
  protocol = row.protocol;
  type = row.type;
  status = row.status;
  source = src;
  destination = lookup id db.destinations;
  payload = payload_of (lookup id db.payloads);
  metadata = lookup id db.metadata;
  created_at = row.created_at;
  updated_at = row.updated_at;
}

-- JOIN message_sources
unfoldable pub full_message : Db → String → MessageRow → Option Message
full_message db id row = elim (lookup id db.sources) [
  | none ↦ none
  | some src ↦ some (scan_full_message db id row src)
]

abbrev pub and_more : Option Message → List Message → List Message
and_more none ms = ms
and_more (some m) ms = m ∷ ms

unfoldable pub rows_of : Db → Table MessageRow → List Message
rows_of db [] = []
rows_of db ((id, row) ∷ t) = and_more (full_message db id row) (rows_of db t)

-- `baseSelect`
unfoldable pub base_select : Db → List Message
base_select db = rows_of db db.messages
