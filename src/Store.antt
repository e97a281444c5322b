-- ===== src/Store.antt =====
-- The message store, of internal/indexer/message_store.go and message_store_pg.go: transactions over
-- the statements of `Database`. The proofs are in the modules below.
pub mod Effects
pub mod Find
pub mod Repeat
pub mod Upsert
use akave_crosschain_archive.Base.{
  ℕ, String, Bool, ◌&&◌, Option, none, some, [], ◌∷◌, str_eq, ◌==◌, if◌then◌else◌, Result, ok,
  ◌>>=◌, ◌>>◌,
}
use akave_crosschain_archive.Base.Int.{is_positive}
use akave_crosschain_archive.Base.Table.{Table, lookup}
use akave_crosschain_archive.Normalizer.{CorrelationKey}
use akave_crosschain_archive.Types.{MessageStatus, Source, Destination, Message}
use akave_crosschain_archive.Database.{
  commit, MessageRow, PayloadRow, Db, Faults, exec, transaction, is_pending, insert_message,
  insert_source, insert_payload, insert_metadata, insert_destination, set_status, set_latency,
}

unfoldable pub upsert_in_tx : Faults → Message → Db → Result Db
upsert_in_tx f m db = do
  exec "beginning transaction" f.begin (ok tt)
  t₁ ← exec "upserting message" f.message (insert_message m db)
  t₂ ← exec "upserting message source" f.source (ok (insert_source m t₁))
  t₃ ← insert_payload f.payload m t₂
  t₄ ← insert_metadata f.metadata m t₃
  commit f.commit t₄

-- `UpsertMessage`
unfoldable pub upsert_message : Faults → Message → Db → Db × Result (Unit {0})
upsert_message f m db = transaction db (upsert_in_tx f m db)

-- The WHERE clause of the two queries; a message_id in the key selects the first of them.
unfoldable pub matches : CorrelationKey → String → MessageRow → Source → PayloadRow → Bool
matches key id row src pay =
    if str_eq key.message_id ""
    then str_eq row.protocol key.protocol
      && pay.nonce == key.nonce
      && str_eq src.sender key.sender
      && src.chain_id == key.src_chain_id
      && is_pending row.status
    else str_eq row.protocol key.protocol && str_eq id key.message_id && is_pending row.status

abbrev pub text_or_empty : Option String → String
text_or_empty none = ""
text_or_empty (some s) = s

-- The message that the scanned row fills: no destination and no metadata are selected.
abbrev pub scan_row : String → MessageRow → Source → PayloadRow → Message
scan_row id row src pay = record {
  message_id = id;
  protocol = row.protocol;
  type = row.type;
  status = row.status;
  source = src;
  destination = none;
  payload = some (record {
    token = text_or_empty pay.token;
    amount = text_or_empty pay.amount;
    content = text_or_empty pay.content;
    nonce = pay.nonce;
  });
  metadata = none;
  created_at = row.created_at;
  updated_at = row.updated_at;
}

-- The join of the three tables at one message_id.
unfoldable pub find_at : CorrelationKey → Db → String → Option Message
find_at key db id = elim (lookup id db.messages) [
  | none ↦ none
  | some row ↦ elim (lookup id db.sources) [
    | none ↦ none
    | some src ↦ elim (lookup id db.payloads) [
      | none ↦ none
      | some pay ↦ if matches key id row src pay then some (scan_row id row src pay) else none
    ]
  ]
]

abbrev pub or_else : Option Message → Option Message → Option Message
or_else none o = o
or_else (some m) o = some m

-- LIMIT 1 with no ORDER BY: any match would do, and the model takes the one inserted first.
unfoldable pub find_in : CorrelationKey → Db → Table MessageRow → Option Message
find_in key db [] = none
find_in key db ((id, _) ∷ rows) = or_else (find_at key db id) (find_in key db rows)

-- `FindByCorrelationKey`
unfoldable pub find_by_correlation_key : Faults → CorrelationKey → Db → Result (Option Message)
find_by_correlation_key f key db =
    exec "querying by correlation key" f.query (ok (find_in key db db.messages))

unfoldable pub update_in_tx : Faults → ℕ → String → Destination → MessageStatus → Db → Result Db
update_in_tx f now id dest set db = do
  exec "beginning transaction" f.begin (ok tt)
  t₁ ← exec "upserting destination" f.destination (insert_destination id dest db)
  t₂ ← exec "updating message status" f.status (set_status now id set t₁)
  t₃ ←
      if is_positive dest.timestamp
      then exec "updating latency" f.latency (ok (set_latency id dest.timestamp t₂))
      else ok t₂
  commit f.commit t₃

-- `UpdateDestination`
unfoldable pub update_destination :
    Faults → ℕ → String → Destination → MessageStatus → Db → Db × Result (Unit {0})
update_destination f now id dest set db = transaction db (update_in_tx f now id dest set db)
