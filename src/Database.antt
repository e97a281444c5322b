-- ===== src/Database.antt =====
-- The tables of migrations/000001_init_schema.up.sql and the SQL statements of
-- internal/indexer/message_store_pg.go. PostgreSQL runs the statements; that one of them fails is
-- an argument, `Faults`. Their own meaning, and the constraints of the schema that they can break
-- (the CHECKs on type and status, the reference to messages), are written out.
use akave_crosschain_archive.Base.{
  ℕ, String, Bool, true, false, ◌&&◌, Option, none, some, [], str_eq, if◌then◌else◌, Result, ok,
  err, failure, wrap, context,
}
use akave_crosschain_archive.Base.Int.{ℤ, ◌-ℤ◌, is_positive}
use akave_crosschain_archive.Base.Table.{Table, lookup, upsert, update}
use akave_crosschain_archive.Types.{
  MessageStatus, no_status, pending, MessageType, no_type, message, Source, Destination, Payload,
  Metadata, Message,
}

pub record MessageRow : Type 0 where
  pub protocol : String
  pub type : MessageType
  pub status : MessageStatus
  pub created_at : ℕ
  pub updated_at : ℕ

-- The three text columns may be NULL.
pub record PayloadRow : Type 0 where
  pub token : Option String
  pub amount : Option String
  pub content : Option String
  pub nonce : ℕ

pub record Db : Type 0 where
  pub messages : Table MessageRow
  pub sources : Table Source
  pub destinations : Table Destination
  pub payloads : Table PayloadRow
  pub metadata : Table Metadata

abbrev pub empty : Db
empty = record { messages = []; sources = []; destinations = []; payloads = []; metadata = [] }

-- Which calls of the database fail: the connection, a statement, or the commit.
pub record Faults : Type 0 where
  pub begin : Bool
  pub message : Bool
  pub source : Bool
  pub payload : Bool
  pub metadata : Bool
  pub query : Bool
  pub destination : Bool
  pub status : Bool
  pub latency : Bool
  pub commit : Bool

abbrev pub no_faults : Faults
no_faults = record {
  begin = false;
  message = false;
  source = false;
  payload = false;
  metadata = false;
  query = false;
  destination = false;
  status = false;
  latency = false;
  commit = false;
}

-- One call of the database, and the text that its error is wrapped in.
abbrev pub exec {ℓ} : {A : Type ℓ} → String → Bool → Result A → Result A
exec m true r = err (wrap m (failure "database"))
exec m false r = context m r

-- `return tx.Commit(ctx)`
abbrev pub commit : Bool → Db → Result Db
commit true db = err (failure "database")
commit false db = ok db

-- A transaction: the deferred rollback leaves the old state on every error.
abbrev pub transaction : Db → Result Db → Db × Result (Unit {0})
transaction db (ok after) = (after, ok tt)
transaction db (err e) = (db, err e)

-- CHECK (status IN ('pending', 'executed', 'failed'))
abbrev pub is_status : MessageStatus → Bool
is_status no_status = false
is_status _ = true

-- CHECK (type IN ('token_transfer', 'message', 'contract_call'))
abbrev pub is_type : MessageType → Bool
is_type no_type = false
is_type _ = true

abbrev pub is_pending : MessageStatus → Bool
is_pending pending = true
is_pending _ = false

abbrev pub check : Bool → Db → Result Db
check true db = ok db
check false db = err (failure "check constraint")

-- CASE WHEN EXCLUDED.type != 'message' THEN EXCLUDED.type ELSE messages.type END
abbrev pub merge_type : MessageType → MessageType → MessageType
merge_type message old = old
merge_type new old = new

-- COALESCE(NULLIF(EXCLUDED.column, ''), column)
abbrev pub merge_text : String → Option String → Option String
merge_text new old = if str_eq new "" then old else some new

abbrev pub message_row : Message → MessageRow
message_row m = record {
  protocol = m.protocol;
  type = m.type;
  status = m.status;
  created_at = m.created_at;
  updated_at = m.updated_at;
}

abbrev pub payload_row : Payload → PayloadRow
payload_row p = record {
  token = some p.token;
  amount = some p.amount;
  content = some p.content;
  nonce = p.nonce;
}

abbrev pub merge_message : Message → MessageRow → MessageRow
merge_message m old = record old { type = merge_type m.type old.type; updated_at = m.updated_at }

abbrev pub merge_payload : Payload → PayloadRow → PayloadRow
merge_payload p old = record old {
  token = merge_text p.token old.token;
  amount = merge_text p.amount old.amount;
  content = merge_text p.content old.content;
}

-- INSERT INTO messages … ON CONFLICT DO UPDATE
unfoldable pub insert_message : Message → Db → Result Db
insert_message m db =
    check (is_type m.type && is_status m.status)
      (record db { messages = upsert m.message_id (message_row m) (merge_message m) db.messages })

-- INSERT INTO message_sources … ON CONFLICT DO NOTHING
unfoldable pub insert_source : Message → Db → Db
insert_source m db = record db { sources = upsert m.message_id m.source (λ old. old) db.sources }

-- INSERT INTO message_payloads … ON CONFLICT DO UPDATE, under `if msg.Payload != nil`
unfoldable pub insert_payload : Bool → Message → Db → Result Db
insert_payload fails m db = elim m.payload [
  | none ↦ ok db
  | some p ↦ exec "upserting message payload" fails (
      ok (record db {
        payloads = upsert m.message_id (payload_row p) (merge_payload p) db.payloads;
      }))
]

-- INSERT INTO message_metadata … ON CONFLICT DO NOTHING, under `if msg.Metadata != nil`
unfoldable pub insert_metadata : Bool → Message → Db → Result Db
insert_metadata fails m db = elim m.metadata [
  | none ↦ ok db
  | some md ↦
      exec "upserting message metadata" fails
        (ok (record db { metadata = upsert m.message_id md (λ old. old) db.metadata }))
]

-- INSERT INTO message_destinations … ON CONFLICT DO UPDATE, which replaces the whole row
unfoldable pub insert_destination : String → Destination → Db → Result Db
insert_destination id dest db = elim (lookup id db.messages) [
  | none ↦ err (failure "foreign key constraint")
  | some _ ↦ ok (record db { destinations = upsert id dest (λ _. dest) db.destinations })
]

-- UPDATE messages SET status = $2, updated_at = NOW()
unfoldable pub set_status : ℕ → String → MessageStatus → Db → Result Db
set_status now id status db = check (is_status status) (record db {
  messages = update id (λ row. record row { status = status; updated_at = now }) db.messages;
})

-- UPDATE message_metadata SET latency_seconds = ($2 - s.timestamp) … AND s.timestamp > 0
unfoldable pub set_latency : String → ℤ → Db → Db
set_latency id seen db = elim (lookup id db.sources) [
  | none ↦ db
  | some src ↦
      if is_positive src.timestamp
      then record db {
        metadata =
            update id (λ md. record md { latency_seconds = seen -ℤ src.timestamp }) db.metadata;
      }
      else db
]
